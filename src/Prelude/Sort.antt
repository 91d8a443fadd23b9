-- ===== src/Prelude/Sort.antt =====
-- `sort.SliceStable` and `sort.Slice` of Go's standard library, as a stable insertion sort.
use mathlib.Core.Bool.{Bool, true, false}
use mathlib.Core.List.{List, [], ◌∷◌, Perm}
use mathlib.Core.List.Perm
use mathlib.Core.Logic.{◌⊎◌, inl, inr}
use mathlib.Core.Option.{none, some}
use mathlib.Core.Path.{◌≡◌}
use native.Mathlib.Omega.{arith}
use gofaxserver.Prelude.Tests.{if◌then◌else◌, Bool-cases}
use gofaxserver.Prelude.Lists.{Member, keep, first_such}

module _ {A : Type 0} (less : A → A → Bool) where
  -- `x` stood before the elements of the list, so it stays before its equals.
  unfoldable pub insert : A → List A → List A
  insert x [] = x ∷ []
  insert x (y ∷ ys) = if less y x then y ∷ insert x ys else x ∷ y ∷ ys

  unfoldable pub sort_stable : List A → List A
  unfolding insert
  sort_stable [] = []
  sort_stable (x ∷ xs) = insert x (sort_stable xs)

  insert-perm : (x : A) (ys : List A) → Perm (insert x ys) (x ∷ ys)
  unfolding insert
  insert-perm x [] = Perm.refl (x ∷ [])
  insert-perm x (y ∷ ys) = elim (Bool-cases (less y x)) [
    | inl before ↦ rw before (Perm.trans (Perm.cons y (insert-perm x ys)) (Perm.swap x y ys))
    | inr after ↦ rw after (Perm.refl (x ∷ y ∷ ys))
  ]

  -- Sorting rearranges.
  pub sort_stable-perm : (xs : List A) → Perm (sort_stable xs) xs
  unfolding sort_stable
  sort_stable-perm [] = Perm.refl []
  sort_stable-perm (x ∷ xs) =
      Perm.trans (insert-perm x (sort_stable xs)) (Perm.cons x (sort_stable-perm xs))

  Member-insert : (a x : A) (ys : List A) → Member a (insert x ys) → (a ≡ x) ⊎ Member a ys
  unfolding insert
  Member-insert a x [] m = m
  Member-insert a x (y ∷ ys) m = elim (Bool-cases (less y x)) [
    | inr after ↦ rw after at m
    | inl before ↦ elim (let m' : Member a (y ∷ insert x ys) = rw before at m in m') [
      | inl e ↦ inr (inl e)
      | inr deep ↦ elim (Member-insert a x ys deep) [ inl e ↦ inl e | inr r ↦ inr (inr r) ]
    ]
  ]

  Member-insert_self : (a x : A) (ys : List A) → (a ≡ x) ⊎ Member a ys → Member a (insert x ys)
  unfolding insert
  Member-insert_self a x [] m = m
  Member-insert_self a x (y ∷ ys) m = elim (Bool-cases (less y x)) [
    | inr after ↦ rw after m
    | inl before ↦ rw before (elim m [
      | inl e ↦ inr (Member-insert_self a x ys (inl e))
      | inr (inl e) ↦ inl e
      | inr (inr r) ↦ inr (Member-insert_self a x ys (inr r))
    ])
  ]

  pub Member-sort_stable : (a : A) (xs : List A) → Member a (sort_stable xs) → Member a xs
  unfolding sort_stable
  Member-sort_stable a [] m = m
  Member-sort_stable a (x ∷ xs) m = elim (Member-insert a x (sort_stable xs) m) [
    | inl e ↦ inl e
    | inr r ↦ inr (Member-sort_stable a xs r)
  ]

  pub sort_stable-Member : (a : A) (xs : List A) → Member a xs → Member a (sort_stable xs)
  unfolding sort_stable
  sort_stable-Member a [] m = m
  sort_stable-Member a (x ∷ xs) (inl e) = Member-insert_self a x (sort_stable xs) (inl e)
  sort_stable-Member a (x ∷ xs) (inr m) =
      Member-insert_self a x (sort_stable xs) (inr (sort_stable-Member a xs m))

module _ {A : Type 0} (Le : A → A → Type 0) where
  -- Each element is at most those behind it.
  abbrev pub IsSorted : List A → Type 0
  IsSorted [] = Unit
  IsSorted (x ∷ xs) = ((y : A) → Member y xs → Le x y) × IsSorted xs

  module _ (less : A → A → Bool) (before : (a b : A) → less a b ≡ true → Le a b)
      (after : (a b : A) → less a b ≡ false → Le b a)
      (trans : (a b c : A) → Le a b → Le b c → Le a c) where
    insert-IsSorted : (x : A) (ys : List A) → IsSorted ys → IsSorted (insert less x ys)
    unfolding insert
    insert-IsSorted x [] h = ((λ y m. absurd m), tt)
    insert-IsSorted x (y ∷ ys) (front, h) = elim (Bool-cases (less y x)) [
      | inl first ↦ rw first (
        λ z m. elim (Member-insert less z x ys m) [
          | inl e ↦ rw e (before y x first)
          | inr r ↦ front z r
        ],
        insert-IsSorted x ys h,
      )
      | inr second ↦ rw second (
        λ z m. elim m [
          | inl e ↦ rw e (after y x second)
          | inr r ↦ trans x y z (after y x second) (front z r)
        ],
        (front, h),
      )
    ]

    pub sort_stable-IsSorted : (xs : List A) → IsSorted (sort_stable less xs)
    unfolding sort_stable
    sort_stable-IsSorted [] = tt
    sort_stable-IsSorted (x ∷ xs) =
        insert-IsSorted x (sort_stable less xs) (sort_stable-IsSorted xs)

module _ {A : Type 0} (p : A → Bool) where
  pub first_such-some :
      (xs : List A) (a : A) → first_such p xs ≡ some a → Member a xs × (p a ≡ true)
  first_such-some [] a e = cc
  first_such-some (x ∷ xs) a e = elim (Bool-cases (p x)) [
    | inl here ↦ let e' : some x ≡ some a = rw here at e in (inl (cc), ground arith)
    | inr there ↦
        let e' : first_such p xs ≡ some a = rw there at e in
        let (m, t) = first_such-some xs a e' in (inr m, t)
  ]

  pub first_such-none : (xs : List A) → first_such p xs ≡ none → (a : A) → Member a xs → p a ≡ false
  first_such-none (x ∷ xs) e a m = elim (Bool-cases (p x)) [
    | inl here ↦ let e' : some x ≡ none = rw here at e in cc
    | inr there ↦ elim m [
      | inl same ↦ rw same there
      | inr r ↦ first_such-none xs (rw there at e) a r
    ]
  ]
  first_such-none [] e a m = absurd m

  -- In a sorted list the first that passes is at most each that passes.
  pub first_such-le :
      (Le : A → A → Type 0) (reflexive : (a : A) → Le a a) (xs : List A) (a b : A)
      → IsSorted Le xs
      → first_such p xs ≡ some a
      → Member b xs
      → p b ≡ true
      → Le a b
  first_such-le Le reflexive (x ∷ xs) a b (front, s) e m t = elim (Bool-cases (p x)) [
    | inl here ↦
        let e' : some x ≡ some a = rw here at e in
        let same : a ≡ x = cc in
        rw same (elim m [ inl eb ↦ rw eb (reflexive x) | inr r ↦ front b r ])
    | inr there ↦ elim m [
      | inl eb ↦ let t' : p x ≡ true = rw eb at t in cc
      | inr r ↦ first_such-le Le reflexive xs a b s (rw there at e) r t
    ]
  ]
  first_such-le Le reflexive [] a b s e m t = absurd m

  pub Member-keep : (a : A) (xs : List A) → Member a (keep p xs) → Member a xs × (p a ≡ true)
  Member-keep a [] m = absurd m
  Member-keep a (x ∷ xs) m = elim (Bool-cases (p x)) [
    | inl here ↦ elim (let m' : Member a (x ∷ keep p xs) = rw here at m in m') [
      | inl e ↦ (inl e, rw e here)
      | inr r ↦ let (r', t) = Member-keep a xs r in (inr r', t)
    ]
    | inr there ↦ let (r', t) = Member-keep a xs (rw there at m) in (inr r', t)
  ]

  pub keep-Member : (a : A) (xs : List A) → Member a xs → p a ≡ true → Member a (keep p xs)
  keep-Member a [] m t = m
  keep-Member a (x ∷ xs) m t = elim (Bool-cases (p x)) [
    | inl here ↦ rw here (elim m [ inl e ↦ inl e | inr r ↦ inr (keep-Member a xs r t) ])
    | inr there ↦
        rw there
          (elim m [ inl e ↦ let t' : p x ≡ true = rw e at t in cc | inr r ↦ keep-Member a xs r t ])
  ]
