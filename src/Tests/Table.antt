-- ===== src/Tests/Table.antt =====
-- A table of policy rules as a list, for the runs of the learning ladder.
use gofaxserver.Prelude.{
  ℕ, suc, String, ◌≡◌, refl, subst, inl, inr, Bool, true, false, ◌&&◌, not, some, List, [], ◌∷◌,
  if◌then◌else◌, ◌==◌, Eq_nat, Eq_text, Bool-cases, length, keep, first_such, Member, All,
}
use gofaxserver.Policy.Learning.Table.{is_learned_for, DeleteIsGone, CreateIsFound, RuleTable}
use gofaxserver.Policy.Rules.{
  t38_off, t38_on, ecm_off, ecm_on, v17_off, softmodem_only, var_override, unknown_effect, unset,
  both, only, nothing, softmodem, bridge, FaxPolicyRule, AppliesTo, Effect,
}

abbrev effect_code : Effect → ℕ
effect_code t38_off = 0
effect_code t38_on = 1
effect_code ecm_off = 2
effect_code ecm_on = 3
effect_code v17_off = 4
effect_code softmodem_only = 5
effect_code var_override = 6
effect_code unknown_effect = 7

abbrev applies_code : AppliesTo → ℕ
applies_code unset = 0
applies_code both = 1
applies_code (only softmodem) = 2
applies_code (only bridge) = 3
applies_code nothing = 4

abbrev is_rung : String → Effect → AppliesTo → FaxPolicyRule → Bool
is_rung remote effect applies_to r =
    is_learned_for remote r
    && effect_code r.effect == effect_code effect
    && applies_code r.applies_to == applies_code applies_to

abbrev replace : FaxPolicyRule → List FaxPolicyRule → List FaxPolicyRule
replace r [] = []
replace r (x ∷ xs) = (if x.id == r.id then r else x) ∷ replace r xs

abbrev pub list_table : RuleTable
list_table = record {
  Db = List FaxPolicyRule;
  find_all = λ db. some db;
  find_auto = λ remote effect applies_to db. first_such (is_rung remote effect applies_to) db;
  find_learned = λ remote db. some (keep (is_learned_for remote) db);
  save = λ r db. (true, replace r db);
  create = λ r db. (true, record r { id = suc (length db) } ∷ db);
  delete_rule = λ k db. keep (λ r. not (r.id == k)) db;
  delete_learned = λ remote db. (true, keep (λ r. not (is_learned_for remote r)) db);
}

pub list_table-CreateIsFound : CreateIsFound list_table
list_table-CreateIsFound r db rules done e =
    let new = record r { id = suc (length db) } in
    let same : new ∷ db ≡ rules = cc in
    (suc (length db), subst (λ (l : List FaxPolicyRule). Member new l) same (inl refl))

none_left :
    (remote : String) (db : List FaxPolicyRule)
    → All (λ r. is_learned_for remote r ≡ false) (keep (λ r. not (is_learned_for remote r)) db)
none_left remote [] = tt
none_left remote (r ∷ db) = elim (Bool-cases (is_learned_for remote r)) [
  | inl gone ↦ rw gone (none_left remote db)
  | inr stays ↦ rw stays (stays, none_left remote db)
]

pub list_table-DeleteIsGone : DeleteIsGone list_table
list_table-DeleteIsGone remote db rules done e =
    let same : keep (λ r. not (is_learned_for remote r)) db ≡ rules = cc in
    subst (λ (l : List FaxPolicyRule). All (λ r. is_learned_for remote r ≡ false) l) same
      (none_left remote db)
