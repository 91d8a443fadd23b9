-- ===== src/Notify/Merging.antt =====
-- Which destinations the notify strings of a job's numbers and tenants come to.
use gofaxserver.Prelude.{
  String, ◌≡◌, refl, sym, ◌∙◌, inl, inr, true, false, ◌&&◌, ◌||◌, not, List, [], ◌∷◌, ◌++◌, arith,
  eq_iff, ◌==◌, Eq_nat, Eq_text, beq_refl, Bool-cases,
}
use gofaxserver.Registry.{Registry}
use gofaxserver.Model.{FaxJob}
use gofaxserver.Notify.{
  resolve_side, merged_destinations, destination_key, without_repeats, has_text, NotifyDestination,
}

abbrev pub destination_keys : List NotifyDestination → List String
destination_keys [] = []
destination_keys (d ∷ ds) = destination_key d ∷ destination_keys ds

abbrev pub HasNoRepeats : List String → Type 0
HasNoRepeats [] = Unit
HasNoRepeats (k ∷ ks) = (has_text k ks ≡ false) × HasNoRepeats ks

-- What is kept is what was not seen.
without_repeats-has :
    (k : String) (seen : List String) (ds : List NotifyDestination)
    → has_text k (destination_keys (without_repeats seen ds))
      ≡ (has_text k (destination_keys ds) && not (has_text k seen))
unfolding without_repeats
without_repeats-has k seen [] = refl
without_repeats-has k seen (d ∷ ds) = elim (Bool-cases (has_text (destination_key d) seen)) [
  | inl e ↦
      rw (e, without_repeats-has k seen ds)
        (elim (Bool-cases (k == destination_key d)) [
          | inl same ↦
              let at_k : has_text k seen ≡ true =
                rw (sym ((eq_iff k (destination_key d)).0 same)) at e in
              rw (same, at_k) (ground arith)
          | inr other ↦ rw other refl
        ])
  | inr e ↦
      rw (e, without_repeats-has k (destination_key d ∷ seen) ds)
        (elim (Bool-cases (k == destination_key d)) [
          | inl same ↦
              let at_k : has_text k seen ≡ false =
                rw (sym ((eq_iff k (destination_key d)).0 same)) at e in
              rw (same, at_k) refl
          | inr other ↦ rw other refl
        ])
]

without_repeats-HasNoRepeats :
    (seen : List String) (ds : List NotifyDestination)
    → HasNoRepeats (destination_keys (without_repeats seen ds))
unfolding without_repeats
without_repeats-HasNoRepeats seen [] = tt
without_repeats-HasNoRepeats seen (d ∷ ds) = elim (Bool-cases (has_text (destination_key d) seen)) [
  | inl e ↦ rw e (without_repeats-HasNoRepeats seen ds)
  | inr e ↦ rw e (
    rw
        (
          without_repeats-has (destination_key d) (destination_key d ∷ seen) ds,
          beq_refl (destination_key d),
        )
        (ground arith),
    without_repeats-HasNoRepeats (destination_key d ∷ seen) ds,
  )
]

has_text-append :
    (k : String) (ds es : List NotifyDestination)
    → has_text k (destination_keys (ds ++ es))
      ≡ (has_text k (destination_keys ds) || has_text k (destination_keys es))
has_text-append k [] es = refl
has_text-append k (d ∷ ds) es = rw (has_text-append k ds es) (ground arith)

-- No two merged destinations agree in type and destination, and one is merged for just every type and
-- destination that a notify string of the number or the tenant, on the side of the source or of the
-- destination, comes to.
pub merged_destinations-once :
    (f : FaxJob) (g : Registry)
    → HasNoRepeats (destination_keys (merged_destinations f g))
      × ((k : String)
          → has_text k (destination_keys (merged_destinations f g)) ≡ (
              has_text k (destination_keys (resolve_side f.src_tenant_id f.caller_id_number g))
              || has_text k (destination_keys (resolve_side f.dst_tenant_id f.callee_number g))))
unfolding merged_destinations
merged_destinations-once f g =
    let src = resolve_side f.src_tenant_id f.caller_id_number g in
    let dst = resolve_side f.dst_tenant_id f.callee_number g in
    (
      without_repeats-HasNoRepeats [] (src ++ dst),
      λ k. without_repeats-has k [] (src ++ dst) ∙ rw (has_text-append k src dst) (ground arith),
    )
