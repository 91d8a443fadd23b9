-- ===== src/Portal/Limiter/Reference.antt =====
-- The rate limiter against one that remembers every hit that it let through.
use gofaxserver.Prelude.{
  ℕ, ◌+◌, ◌*◌, ◌≤◌, String, ◌≡◌, refl, sym, ap, ◌∙◌, subst, inl, inr, Bool, true, false, none, List,
  [], ◌∷◌, ◌++◌, arith, eq_iff, ltb, leb, if◌then◌else◌, ◌==◌, Eq_nat, Eq_text, beq_refl,
  Bool-cases, length, is_empty, keep-append, empty_is_nil,
}
use gofaxserver.Prelude.Map.{
  find_key-put, put-HasUniqueKeys, put, or_nil, HasUniqueKeys, Map, find_key,
}
use gofaxserver.Portal.Limiter.{
  new_rate_limiter, is_recent, collected, kept_hits, allow, collect, RateLimiter,
}

-- The hits that were let through, oldest first.
abbrev pub History : Type 0
History = List (String × ℕ)

abbrev pub times : String → History → List ℕ
times k [] = []
times k ((j, t) ∷ h) = let rest = times k h in if j == k then t ∷ rest else rest

-- Whether fewer than `limit` hits of the key were let through in the window that ends now.
abbrev pub may_pass : ℕ → String → ℕ → ℕ → History → Bool
may_pass window key limit now h = ltb (length (kept_hits window now (times key h))) limit

-- The history after a call.
abbrev pub after : ℕ → String → ℕ → ℕ → History → History
after window key limit now h = if may_pass window key limit now h then h ++ (key, now) ∷ [] else h

-- A call, and calls one after another, at times that do not decrease.
pub record Hit : Type 0 where
  pub key : String
  pub limit : ℕ
  pub time : ℕ

abbrev pub InOrder : ℕ → List Hit → Type 0
InOrder now [] = Unit
InOrder now (c ∷ cs) = (now ≤ c.time) × InOrder c.time cs

-- What the calls answer.
abbrev pub answers_of : List Hit → RateLimiter → List Bool
answers_of [] r = []
answers_of (c ∷ cs) r = let (ok, r') = allow c.key c.limit c.time r in ok ∷ answers_of cs r'

abbrev pub reference_answers : ℕ → List Hit → History → List Bool
reference_answers window [] h = []
reference_answers window (c ∷ cs) h =
    may_pass window c.key c.limit c.time h
    ∷ reference_answers window cs (after window c.key c.limit c.time h)

kept_hits_twice :
    (w now later : ℕ) (ts : List ℕ)
    → now ≤ later
    → kept_hits w later (kept_hits w now ts) ≡ kept_hits w later ts
kept_hits_twice w now later [] le = refl
kept_hits_twice w now later (t ∷ ts) le = ground (arith, kept_hits_twice w now later ts le)

times-append :
    (k : String) (h : History) (j : String) (t : ℕ)
    → times k (h ++ (j, t) ∷ []) ≡ (if j == k then times k h ++ t ∷ [] else times k h)
times-append k [] j t = ground arith
times-append k ((i, u) ∷ h) j t = ground (arith, times-append k h j t)

collect-absent :
    (w now : ℕ) (k : String) (m : Map String (List ℕ))
    → find_key k m ≡ none
    → find_key k (collect w now m) ≡ none
unfolding collect find_key
collect-absent w now k [] h = refl
collect-absent w now k ((j, ts) ∷ m) h = ground (arith, collect-absent w now k m)

collect-HasUniqueKeys :
    (w now : ℕ) (m : Map String (List ℕ)) → HasUniqueKeys m → HasUniqueKeys (collect w now m)
unfolding collect
collect-HasUniqueKeys w now [] h = tt
collect-HasUniqueKeys w now ((j, ts) ∷ m) (fresh, h) =
    elim (Bool-cases (is_empty (kept_hits w now ts))) [
      | inl e ↦ rw e (collect-HasUniqueKeys w now m h)
      | inr e ↦ rw e (collect-absent w now j m fresh, collect-HasUniqueKeys w now m h)
    ]

-- Dropping old hits loses none that is recent at any later time.
collect-kept_hits :
    (w now later : ℕ) (k : String) (m : Map String (List ℕ))
    → now ≤ later
    → HasUniqueKeys m
    → kept_hits w later (or_nil (find_key k (collect w now m)))
      ≡ kept_hits w later (or_nil (find_key k m))
unfolding collect find_key
collect-kept_hits w now later k [] le h = refl
collect-kept_hits w now later k ((j, ts) ∷ m) le (fresh, h) =
    let ih = collect-kept_hits w now later k m le h in
    let twice = kept_hits_twice w now later ts le in
    let kept = kept_hits w now ts in
    elim (Bool-cases (j == k)) [
      | inr other ↦ elim (Bool-cases (is_empty kept)) [
        | inl e ↦ rw (e, other) ih
        | inr e ↦ rw (e, other) ih
      ]
      | inl same ↦ elim (Bool-cases (is_empty kept)) [
        | inr e ↦ rw (e, same) twice
        | inl e ↦
            let absent : find_key k m ≡ none =
              subst (λ i. find_key i m ≡ none) ((eq_iff j k).0 same) fresh in
            let gone = collect-absent w now k m absent in
            let empty : kept_hits w later ts ≡ [] =
              sym twice ∙ ap (kept_hits w later) (empty_is_nil kept e) in
            rw (e, same, gone, empty) refl
      ]
    ]

-- The limiter holds what is recent of a history, at this time and at any later one.
pub record Follows (w now : ℕ) (r : RateLimiter) (h : History) : Type 0 where
  pub window : r.window ≡ w
  pub unique : HasUniqueKeys r.hits
  pub same :
      (k : String) (later : ℕ)
      → now ≤ later
      → kept_hits w later (or_nil (find_key k r.hits)) ≡ kept_hits w later (times k h)

collected-Follows :
    (w now : ℕ) (r : RateLimiter) (h : History)
    → Follows w now r h
    → Follows w now (collected now r) h
unfolding collected
collected-Follows w now r h f = elim (Bool-cases (ltb (r.last_gc + 10 * r.window) now)) [
  | inr e ↦ rw e f
  | inl e ↦ rw e (record {
    window = f.window;
    unique = collect-HasUniqueKeys r.window now r.hits f.unique;
    same = λ k later le.
        subst
          (λ v.
            kept_hits w later (or_nil (find_key k (collect v now r.hits)))
            ≡ kept_hits w later (times k h))
          (sym f.window) (collect-kept_hits w now later k r.hits le f.unique ∙ f.same k later le);
  })
]

-- After a call, where the limiter has put what it keeps of the key.
put-Follows :
    (w now : ℕ) (r : RateLimiter) (h h' : History) (key : String) (ts : List ℕ)
    → Follows w now r h
    → ((k : String) → (key == k) ≡ false → times k h' ≡ times k h)
    → ((later : ℕ) → now ≤ later → kept_hits w later ts ≡ kept_hits w later (times key h'))
    → Follows w now (record r { hits = put key ts r.hits }) h'
put-Follows w now r h h' key ts f others here = record {
  window = f.window;
  unique = put-HasUniqueKeys key ts r.hits f.unique;
  same = λ k later le. elim (Bool-cases (key == k)) [
    | inl e ↦
        rw (find_key-put key k ts r.hits, e)
          (subst (λ i. kept_hits w later ts ≡ kept_hits w later (times i h')) ((eq_iff key k).0 e)
            (here later le))
    | inr e ↦ rw (find_key-put key k ts r.hits, e, others k e) (f.same k later le)
  ];
}

Follows-later :
    (w now later : ℕ) (r : RateLimiter) (h : History)
    → now ≤ later
    → Follows w now r h
    → Follows w later r h
Follows-later w now later r h le f = record {
  window = f.window;
  unique = f.unique;
  same = λ k t le'. f.same k t (omega (arith, le, le'));
}

record Agrees (w : ℕ) (key : String) (limit now : ℕ) (r : RateLimiter) (h : History) : Type 0 where
  answer : (allow key limit now r).0 ≡ may_pass w key limit now h
  next : Follows w now (allow key limit now r).1 (after w key limit now h)

allow-Agrees :
    (w : ℕ) (key : String) (limit now : ℕ) (r0 : RateLimiter) (h : History)
    → Follows w now r0 h
    → Agrees w key limit now r0 h
unfolding allow
allow-Agrees w key limit now r0 h f0 =
    let r = collected now r0 in
    let f = collected-Follows w now r0 h f0 in
    let held = kept_hits r.window now (or_nil (find_key key r.hits)) in
    let kept = kept_hits w now (times key h) in
    let same : held ≡ kept =
      ap (λ v. kept_hits v now (or_nil (find_key key r.hits))) f.window
      ∙ f.same key now (omega arith) in
    elim (Bool-cases (leb limit (length kept))) [
      | inl full ↦
          let full' : leb limit (length held) ≡ true = ap (λ l. leb limit (length l)) same ∙ full in
          let no : may_pass w key limit now h ≡ false = ground (arith, full) in
          record {
            answer = rw (full', no) refl;
            next =
                rw (full', no)
                  (put-Follows w now r h h key held f (λ k e. refl)
                    (λ later le.
                      ap (kept_hits w later) same ∙ kept_hits_twice w now later (times key h) le));
          }
      | inr free ↦
          let free' : leb limit (length held) ≡ false =
            ap (λ l. leb limit (length l)) same ∙ free in
          let yes_pass : may_pass w key limit now h ≡ true = ground (arith, free) in
          let h' = h ++ (key, now) ∷ [] in
          record {
            answer = rw (free', yes_pass) refl;
            next =
                rw (free', yes_pass)
                  (put-Follows w now r h h' key (held ++ now ∷ []) f
                    (λ k e. times-append k h key now ∙ rw e refl)
                    (λ later le.
                      keep-append (is_recent w later) held (now ∷ [])
                      ∙ ap (λ l. l ++ kept_hits w later (now ∷ []))
                          (ap (kept_hits w later) same
                            ∙ kept_hits_twice w now later (times key h) le)
                      ∙ sym (keep-append (is_recent w later) (times key h) (now ∷ []))
                      ∙ sym (
                          ap (kept_hits w later)
                            (times-append key h key now ∙ rw (beq_refl key) refl))));
          }
    ]

answers_of-Follows :
    (w now : ℕ) (cs : List Hit) (r : RateLimiter) (h : History)
    → Follows w now r h
    → InOrder now cs
    → answers_of cs r ≡ reference_answers w cs h
answers_of-Follows w now [] r h f o = refl
answers_of-Follows w now (c ∷ cs) r h f (le, o) =
    let agrees = allow-Agrees w c.key c.limit c.time r h (Follows-later w now c.time r h le f) in
    let r' = (allow c.key c.limit c.time r).1 in
    let h' = after w c.key c.limit c.time h in
    ap (λ b. b ∷ answers_of cs r') agrees.answer
    ∙ ap (λ l. may_pass w c.key c.limit c.time h ∷ l)
        (answers_of-Follows w c.time cs r' h' agrees.next o)

-- A new rate limiter answers any calls whose times do not decrease just as one that never forgets a hit:
-- a hit passes if fewer than the limit have passed for its key in the window that ends with it, whatever
-- was dropped in between.
pub allow-reference :
    (window now : ℕ) (cs : List Hit)
    → InOrder now cs
    → answers_of cs (new_rate_limiter window now) ≡ reference_answers window cs []
unfolding new_rate_limiter find_key
allow-reference window now cs o =
    answers_of-Follows window now cs (new_rate_limiter window now) []
      (record { window = refl; unique = tt; same = λ k later le. refl }) o
