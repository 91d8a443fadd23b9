-- ===== src/Policy/Learning/Table.antt =====
-- The queries that the policy engine makes on the table fax_policy_rules, through GORM, and what it
-- relies on of them. A query returns nothing, or false, where GORM reports an error.
use gofaxserver.Prelude.{
  ℕ, String, ◌≡◌, Bool, true, false, ◌&&◌, Option, some, List, ◌==◌, Eq_nat, Eq_text, Member, All,
}
use gofaxserver.Policy.Rules.{Effect, AppliesTo, FaxPolicyRule, Scope, dst, is_auto}

pub record RuleTable : Type 1 where
  pub Db : Type 0
  -- DB.Find(&rules)
  pub find_all : Db → Option (List FaxPolicyRule)
  -- findAutoRule: the first auto rule of scope dst with this number, effect and applies_to
  pub find_auto : String → Effect → AppliesTo → Db → Option FaxPolicyRule
  -- the auto rules of scope dst with this number
  pub find_learned : String → Db → Option (List FaxPolicyRule)
  -- DB.Save(rule), DB.Create(rule)
  pub save : FaxPolicyRule → Db → Bool × Db
  pub create : FaxPolicyRule → Db → Bool × Db
  -- DB.Delete by the primary key
  pub delete_rule : ℕ → Db → Db
  -- deletes the rules that find_learned returns
  pub delete_learned : String → Db → Bool × Db

abbrev is_dst : Scope → Bool
is_dst dst = true
is_dst _ = false

-- The query of LearnFaxPolicySuccess.
abbrev pub is_learned_for : String → FaxPolicyRule → Bool
is_learned_for remote r = is_auto r.origin && is_dst r.scope && r.dst_number == remote

-- A row that was created is found again, under some key.
abbrev pub CreateIsFound : RuleTable → Type 0
CreateIsFound t =
    (r : FaxPolicyRule) (db : t.Db) (rules : List FaxPolicyRule)
    → (t.create r db).0 ≡ true
    → t.find_all (t.create r db).1 ≡ some rules
    → (k : ℕ) × Member (record r { id = k }) rules

-- Rows that were deleted are not found again.
abbrev pub DeleteIsGone : RuleTable → Type 0
DeleteIsGone t =
    (remote : String) (db : t.Db) (rules : List FaxPolicyRule)
    → (t.delete_learned remote db).0 ≡ true
    → t.find_all (t.delete_learned remote db).1 ≡ some rules
    → All (λ r. is_learned_for remote r ≡ false) rules
