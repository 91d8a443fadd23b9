-- ===== src/Dialplan/Sources.antt =====
-- The two sources of transformation rules.
use gofaxserver.Prelude.{
  ℕ, suc, ◌≤◌, ◌≡◌, refl, sym, ap, ◌∙◌, inl, inr, Bool, true, ◌&&◌, not, Option, none, some, List,
  [], ◌∷◌, arith, Bool-cases, is_empty, keep,
}
use gofaxserver.Dialplan.{
  load_dialplan, seeds, compile_dialplan_rules, DialplanConfig, all_compile, DialplanTable,
  TransformationRule, seed_dialplan_rules, Regexps, load_dialplan_from_db, seed_rows, DialplanRule,
}

-- Rows that a query by position returns as they are.
abbrev IsAscending : ℕ → List DialplanRule → Type 0
IsAscending i [] = Unit
IsAscending i (r ∷ rows) = (i ≤ r.position) × IsAscending (suc r.position) rows

seed_rows-IsAscending :
    (re : Regexps) (i j : ℕ) (rules : List TransformationRule)
    → i ≤ j
    → IsAscending i (seed_rows re j rules)
unfolding seed_rows
seed_rows-IsAscending re i j [] h = tt
seed_rows-IsAscending re i j (r ∷ rules) h = elim (Bool-cases (re.compiles r.pattern)) [
  | inl e ↦ rw e (h, seed_rows-IsAscending re (suc j) (suc j) rules (omega arith))
  | inr e ↦ rw e (seed_rows-IsAscending re i (suc j) rules (omega (arith, h)))
]

seed_rows-enabled :
    (re : Regexps) (i : ℕ) (rules : List TransformationRule)
    → keep (λ r. r.enabled) (seed_rows re i rules) ≡ seed_rows re i rules
unfolding seed_rows
seed_rows-enabled re i [] = refl
seed_rows-enabled re i (r ∷ rules) = ground (arith, seed_rows-enabled re (suc i) rules)

seed_rows-compile :
    (re : Regexps) (i : ℕ) (rules : List TransformationRule)
    → all_compile re rules ≡ true
    → compile_dialplan_rules re (seed_rows re i rules) ≡ rules
unfolding seed_rows
seed_rows-compile re i [] h = refl
seed_rows-compile re i (r ∷ rules) h = ground (arith, seed_rows-compile re (suc i) rules)

-- Whether the configuration has no section, or one with rules.
abbrev pub has_rules : Option DialplanConfig → Bool
has_rules none = true
has_rules (some cfg) = not (is_empty cfg.rules)

load_dialplan-seeds :
    (re : Regexps) (cfg : Option DialplanConfig)
    → has_rules cfg ≡ true
    → all_compile re (seeds re cfg) ≡ true
    → load_dialplan re cfg ≡ seeds re cfg
unfolding load_dialplan
load_dialplan-seeds re none h ok = refl
load_dialplan-seeds re (some cfg) h ok =
    let ok' : all_compile re cfg.rules ≡ true = rw h at ok in rw (load_dialplan, h, ok') refl

-- With an empty table, a configuration that is absent or has rules, and rules that all compile, the
-- first load from the database fills the table and gives the very rules that the configuration
-- gives, if the database makes no error and leaves rows as they are whose positions ascend.
pub load_dialplan_from_db-load_dialplan :
    (re : Regexps) (db : DialplanTable) (cfg : Option DialplanConfig)
    → ((rows : List DialplanRule) → IsAscending 0 rows → db.by_position rows ≡ rows)
    → (db.counts && db.creates && db.finds) ≡ true
    → has_rules cfg ≡ true
    → all_compile re (seeds re cfg) ≡ true
    → load_dialplan_from_db re db cfg []
      ≡ some (seed_rows re 0 (seeds re cfg), load_dialplan re cfg)
unfolding load_dialplan_from_db seed_dialplan_rules
load_dialplan_from_db-load_dialplan re db cfg sorts works has ok =
    let rows = seed_rows re 0 (seeds re cfg) in
    let seeded : seed_dialplan_rules re db cfg [] ≡ some rows = ground (arith, works) in
    let found : db.finds ≡ true = ground (arith, works) in
    let same =
      ap db.by_position (seed_rows-enabled re 0 (seeds re cfg))
      ∙ sorts rows (seed_rows-IsAscending re 0 0 (seeds re cfg) (omega arith)) in
    let rules =
      ap (compile_dialplan_rules re) same
      ∙ seed_rows-compile re 0 (seeds re cfg) ok
      ∙ sym (load_dialplan-seeds re cfg has ok) in
    rw (load_dialplan_from_db, seeded, found)
      (ap (λ (r : List TransformationRule). some (rows, r)) rules)
