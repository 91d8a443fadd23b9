-- ===== src/Events/Merging.antt =====
-- What no event takes back.
use gofaxserver.Prelude.{
  ℕ, ◌≤◌, String, ◌≡◌, refl, sym, ap, ◌∙◌, ◌⊎◌, inr, Bool, true, false, ◌&&◌, ◌||◌, List, [], ◌∷◌,
  ◌++◌, arith, ◌==◌, Eq_nat, Eq_text, All,
}
use mathlib.Core.List.{append-nil, append_assoc}
use gofaxserver.Model.{FaxResult}
use gofaxserver.Events.{harvest_result, harvest_field, switch, Session, Reader}

-- A flag that is never taken back.
abbrev pub Stays : Bool → Bool → Type 0
Stays a b = (a && b) ≡ a

-- A text that is set at most once.
abbrev pub SetOnce : String → String → Type 0
SetOnce a b = (a ≡ "") ⊎ (b ≡ a)

pub record KeepsResult (r r' : FaxResult) : Type 0 where
  pub success : Stays r.success r'.success
  pub negotiations : r.negotiate_count ≤ r'.negotiate_count
  pub pages : (new : List ℕ) × (r'.page_bad_rows ≡ r.page_bad_rows ++ new)

pub record Keeps (s t : Session) : Type 0 where
  pub kept : KeepsResult s.result t.result
  pub ecm : Stays s.ecm t.ecm
  pub ecm_requested : Stays s.ecm_requested t.ecm_requested
  pub v17_disabled : Stays s.v17_disabled t.v17_disabled
  pub a_leg_t38 : SetOnce s.bridge_a_leg_t38 t.bridge_a_leg_t38
  pub b_leg_t38 : SetOnce s.bridge_b_leg_t38 t.bridge_b_leg_t38

pub Stays-refl : (a : Bool) → Stays a a
Stays-refl a = ground arith

pub Stays-or : (a b : Bool) → Stays a (b || a)
Stays-or a b = ground arith

pub Stays-or2 : (a b c : Bool) → Stays a (b || c || a)
Stays-or2 a b c = ground arith

pub KeepsResult-refl : (r : FaxResult) → KeepsResult r r
KeepsResult-refl r = record {
  success = Stays-refl r.success;
  negotiations = omega arith;
  pages = ([], sym (append-nil r.page_bad_rows));
}

KeepsResult-trans :
    (r r' r'' : FaxResult) → KeepsResult r r' → KeepsResult r' r'' → KeepsResult r r''
KeepsResult-trans r r' r'' h k =
    let (new, e) = h.pages in
    let (newer, e') = k.pages in
    record {
      success = ground (arith, h.success, k.success);
      negotiations = omega (arith, h.negotiations, k.negotiations);
      pages = (new ++ newer, e' ∙ ap (λ l. l ++ newer) e ∙ append_assoc r.page_bad_rows new newer);
    }

pub Keeps-trans : (s t u : Session) → Keeps s t → Keeps t u → Keeps s u
Keeps-trans s t u h k = record {
  kept = KeepsResult-trans s.result t.result u.result h.kept k.kept;
  ecm = ground (arith, h.ecm, k.ecm);
  ecm_requested = ground (arith, h.ecm_requested, k.ecm_requested);
  v17_disabled = ground (arith, h.v17_disabled, k.v17_disabled);
  a_leg_t38 = ground (arith, h.a_leg_t38, k.a_leg_t38);
  b_leg_t38 = ground (arith, h.b_leg_t38, k.b_leg_t38);
}

-- A session with legs as before and flags that are not taken back.
pub Keeps-flags :
    (s t : Session)
    → KeepsResult s.result t.result
    → (t.bridge_a_leg_t38 ≡ s.bridge_a_leg_t38) × (t.bridge_b_leg_t38 ≡ s.bridge_b_leg_t38)
    → Stays s.ecm t.ecm
    → Stays s.ecm_requested t.ecm_requested
    → Stays s.v17_disabled t.v17_disabled
    → Keeps s t
Keeps-flags s t same (a, b) e r v = record {
  kept = same;
  ecm = e;
  ecm_requested = r;
  v17_disabled = v;
  a_leg_t38 = inr a;
  b_leg_t38 = inr b;
}

pub Keeps-plain :
    (s t : Session)
    → KeepsResult s.result t.result
    → (t.bridge_a_leg_t38 ≡ s.bridge_a_leg_t38) × (t.bridge_b_leg_t38 ≡ s.bridge_b_leg_t38)
    → (t.ecm ≡ s.ecm) × (t.ecm_requested ≡ s.ecm_requested) × (t.v17_disabled ≡ s.v17_disabled)
    → Keeps s t
Keeps-plain s t same legs (e, r, v) =
    Keeps-flags s t same legs (rw e (Stays-refl s.ecm)) (rw r (Stays-refl s.ecm_requested))
      (rw v (Stays-refl s.v17_disabled))

pub Keeps-refl : (s : Session) → Keeps s s
Keeps-refl s = Keeps-plain s s (KeepsResult-refl s.result) (refl, refl) (refl, refl, refl)

-- What holds of the default and of every case of a switch holds of the switch.
switch-All :
    {A : Type 0} (P : A → Type 0) (cases : List (Bool × A)) (other : A)
    → All (λ c. P c.1) cases
    → P other
    → P (switch cases other)
unfolding switch
switch-All P [] other h d = d
switch-All P ((true, x) ∷ cases) other (k, h) d = k
switch-All P ((false, x) ∷ cases) other (k, h) d = switch-All P cases other h d

pub harvest_field-Keeps :
    (rd : Reader) (name v : String) (s : Session) → Keeps s (harvest_field rd name v s)
unfolding harvest_field
harvest_field-Keeps rd name v s =
    let same = KeepsResult-refl s.result in
    switch-All (Keeps s) _ s
      (
        Keeps-plain s _ same (refl, refl) (refl, refl, refl),
        (
          Keeps-plain s _ same (refl, refl) (refl, refl, refl),
          (
            Keeps-plain s _ same (refl, refl) (refl, refl, refl),
            (
              Keeps-plain s _ same (refl, refl) (refl, refl, refl),
              (
                Keeps-plain s _ same (refl, refl) (refl, refl, refl),
                (
                  Keeps-plain s _ same (refl, refl) (refl, refl, refl),
                  (
                    Keeps-plain s _ same (refl, refl) (refl, refl, refl),
                    (
                      Keeps-flags s _ same (refl, refl) (Stays-or s.ecm (v == "on"))
                          (Stays-refl s.ecm_requested) (Stays-refl s.v17_disabled),
                      (
                        Keeps-flags s _ same (refl, refl) (Stays-refl s.ecm)
                            (Stays-or2 s.ecm_requested (v == "1") (v == "true"))
                            (Stays-refl s.v17_disabled),
                        (
                          Keeps-flags s _ same (refl, refl) (Stays-refl s.ecm)
                              (Stays-refl s.ecm_requested) (Stays-or s.v17_disabled (v == "1")),
                          (
                            Keeps-plain s _ same (refl, refl) (refl, refl, refl),
                            (
                              Keeps-plain s _ same (refl, refl) (refl, refl, refl),
                              (
                                Keeps-plain s _ same (refl, refl) (refl, refl, refl),
                                (
                                  Keeps-plain s _ same (refl, refl) (refl, refl, refl),
                                  (
                                    Keeps-plain s _ same (refl, refl) (refl, refl, refl),
                                    (Keeps-plain s _ same (refl, refl) (refl, refl, refl), tt),
                                  ),
                                ),
                              ),
                            ),
                          ),
                        ),
                      ),
                    ),
                  ),
                ),
              ),
            ),
          ),
        ),
      )
      (Keeps-refl s)

-- A result of which only fields changed that this development says nothing of here.
pub KeepsResult-same :
    (r r' : FaxResult)
    → Stays r.success r'.success
    → (r'.negotiate_count ≡ r.negotiate_count) × (r'.page_bad_rows ≡ r.page_bad_rows)
    → KeepsResult r r'
KeepsResult-same r r' h (n, p) = record {
  success = h;
  negotiations = omega (arith, n);
  pages = ([], p ∙ sym (append-nil r.page_bad_rows));
}

pub harvest_result-Keeps :
    (rd : Reader) (name v : String) (r : FaxResult) → KeepsResult r (harvest_result rd name v r)
unfolding harvest_result
harvest_result-Keeps rd name v r =
    let same = Stays-refl r.success in
    switch-All (KeepsResult r) _ r
      (
        KeepsResult-same r _ (Stays-or r.success (v == "1")) (refl, refl),
        (
          KeepsResult-same r _ same (refl, refl),
          (
            KeepsResult-same r _ same (refl, refl),
            (KeepsResult-same r _ same (refl, refl), (KeepsResult-same r _ same (refl, refl), tt)),
          ),
        ),
      )
      (KeepsResult-refl r)
