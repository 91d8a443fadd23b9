-- ===== src/Prelude/Map.antt =====
-- Go's maps, as lists of keys and values. The order of the list stands for the order in which a
-- `range` over the map happens to go; what holds for every list holds for every such order.
use Prim.Native.Nat.{suc}
use mathlib.Core.List.{List, [], ◌∷◌}
use mathlib.Core.Logic.{inl, inr}
use mathlib.Core.Option.{Option, none, some}
use mathlib.Core.Path.{◌≡◌, refl, ap, sym, subst}
use native.Mathlib.Omega.{arith}
use gofaxserver.Prelude.Tests.{Eq, ◌==◌, if◌then◌else◌, Bool-cases}
use gofaxserver.Prelude.Lists.{length, All}

abbrev pub Map : Type 0 → Type 0 → Type 0
Map K V = List (K × V)

-- A missing key reads as nil.
abbrev pub or_nil : {A : Type 0} → Option (List A) → List A
or_nil none = []
or_nil (some xs) = xs

module _ {K V : Type 0} ⦃e : Eq K⦄ where
  -- v, ok := m[k]
  unfoldable pub find_key : K → Map K V → Option V
  find_key k [] = none
  find_key k ((j, v) ∷ m) = let rest = find_key k m in if j == k then some v else rest

  -- m[k] = v
  unfoldable pub put : K → V → Map K V → Map K V
  put k v [] = (k, v) ∷ []
  put k v ((j, w) ∷ m) = let rest = put k v m in if j == k then (j, v) ∷ m else (j, w) ∷ rest

  -- delete(m, k)
  unfoldable pub delete : K → Map K V → Map K V
  delete k [] = []
  delete k ((j, w) ∷ m) = let rest = delete k m in if j == k then rest else (j, w) ∷ rest

  pub find_key-put :
      (k j : K) (v : V) (m : Map K V)
      → find_key j (put k v m) ≡ (if k == j then some v else find_key j m)
  unfolding find_key put
  find_key-put k j v [] = refl
  find_key-put k j v ((i, w) ∷ m) =
      ground (arith, e.equal_iff k j, e.equal_iff i k, e.equal_iff i j, find_key-put k j v m)

  pub find_key-delete :
      (k j : K) (m : Map K V) → find_key j (delete k m) ≡ (if k == j then none else find_key j m)
  unfolding find_key delete
  find_key-delete k j [] = ground arith
  find_key-delete k j ((i, w) ∷ m) =
      ground (arith, e.equal_iff k j, e.equal_iff i k, e.equal_iff i j, find_key-delete k j m)

  -- No key stands twice.
  abbrev pub HasUniqueKeys : Map K V → Type 0
  HasUniqueKeys [] = Unit
  HasUniqueKeys ((k, v) ∷ m) = (find_key k m ≡ none) × HasUniqueKeys m

  pub put-HasUniqueKeys :
      (k : K) (v : V) (m : Map K V) → HasUniqueKeys m → HasUniqueKeys (put k v m)
  unfolding put find_key
  put-HasUniqueKeys k v [] h = (refl, tt)
  put-HasUniqueKeys k v ((j, w) ∷ m) (fresh, h) = elim (Bool-cases (j == k)) [
    | inl same ↦ rw same (fresh, h)
    | inr other ↦ rw other (
      ground (arith, find_key-put k j v m, e.equal_iff k j, e.equal_iff j k),
      put-HasUniqueKeys k v m h,
    )
  ]

  pub delete-HasUniqueKeys : (k : K) (m : Map K V) → HasUniqueKeys m → HasUniqueKeys (delete k m)
  unfolding delete
  delete-HasUniqueKeys k [] h = tt
  delete-HasUniqueKeys k ((j, w) ∷ m) (fresh, h) = elim (Bool-cases (j == k)) [
    | inl same ↦ rw same (delete-HasUniqueKeys k m h)
    | inr other ↦ rw other (ground (arith, find_key-delete k j m), delete-HasUniqueKeys k m h)
  ]

  pub length-put_new :
      (k : K) (v : V) (m : Map K V) → find_key k m ≡ none → length (put k v m) ≡ suc (length m)
  unfolding put find_key
  length-put_new k v [] h = refl
  length-put_new k v ((j, w) ∷ m) h = ground (arith, length-put_new k v m)

  pub length-put_old :
      (k : K) (v w : V) (m : Map K V) → find_key k m ≡ some w → length (put k v m) ≡ length m
  unfolding put find_key
  length-put_old k v w [] h = cc
  length-put_old k v w ((j, u) ∷ m) h = ground (arith, length-put_old k v w m)

  delete_absent : (k : K) (m : Map K V) → find_key k m ≡ none → delete k m ≡ m
  unfolding delete find_key
  delete_absent k [] h = refl
  delete_absent k ((j, u) ∷ m) h = ground (arith, delete_absent k m)

  pub length-delete :
      (k : K) (w : V) (m : Map K V)
      → HasUniqueKeys m
      → find_key k m ≡ some w
      → suc (length (delete k m)) ≡ length m
  unfolding delete find_key
  length-delete k w [] u h = cc
  length-delete k w ((j, v) ∷ m) (fresh, u) h = elim (Bool-cases (j == k)) [
    | inl same ↦
        let e' = (e.equal_iff j k).0 same in
        let fresh' : find_key k m ≡ none = rw e' at fresh in
        rw same (ap (λ (l : Map K V). suc (length l)) (delete_absent k m fresh'))
    | inr other ↦ rw other (ap suc (length-delete k w m u (rw other at h)))
  ]

-- What holds of all entries, and of a new one at its key.
module _ {K V : Type 0} ⦃e : Eq K⦄ (P : K × V → Type 0) where
  pub put-All : (k : K) (v : V) (m : Map K V) → P (k, v) → All P m → All P (put k v m)
  unfolding put
  put-All k v [] new h = (new, tt)
  put-All k v ((j, w) ∷ m) new (old, h) = elim (Bool-cases (j == k)) [
    | inl same ↦ rw same (subst (λ i. P (i, v)) (sym ((e.equal_iff j k).0 same)) new, h)
    | inr other ↦ rw other (old, put-All k v m new h)
  ]

  pub delete-All : (k : K) (m : Map K V) → All P m → All P (delete k m)
  unfolding delete
  delete-All k [] h = tt
  delete-All k ((j, w) ∷ m) (old, h) = elim (Bool-cases (j == k)) [
    | inl same ↦ rw same (delete-All k m h)
    | inr other ↦ rw other (old, delete-All k m h)
  ]

  pub find_key-All : (k : K) (v : V) (m : Map K V) → All P m → find_key k m ≡ some v → P (k, v)
  unfolding find_key
  find_key-All k v [] h found = cc
  find_key-All k v ((j, w) ∷ m) (old, h) found = elim (Bool-cases (j == k)) [
    | inl same ↦
        let found' : some w ≡ some v = rw same at found in
        let at_w : w ≡ v = cc in
        subst (λ x. P (k, x)) at_w (subst (λ i. P (i, w)) ((e.equal_iff j k).0 same) old)
    | inr other ↦ find_key-All k v m h (rw other at found)
  ]
