-- ===== src/Policy/Learning/Reload.antt =====
-- Pruning expired rules does not change any policy.
use gofaxserver.Prelude.{
  ℕ, ◌≤◌, String, ◌≡◌, refl, ap, inl, inr, true, false, ◌&&◌, not, some, List, [], ◌∷◌, arith,
  if◌then◌else◌, Bool-cases, keep,
}
use gofaxserver.Policy.Rules.{FaxPolicyRule, CallType, expired, is_auto, rule_matches}
use gofaxserver.Policy.Resolve.{Faxing, matching, resolve_fax_policy}
use gofaxserver.Policy.Learning.{Engine, prune, reload_fax_policies}
use gofaxserver.Policy.Learning.Table.{RuleTable}

expired_later :
    (r : FaxPolicyRule) (now later : ℕ)
    → now ≤ later
    → expired r now ≡ true
    → expired r later ≡ true
unfolding expired
expired_later r now later h e = ground arith

expired-rule_matches :
    (r : FaxPolicyRule) (src_num dst_num : String) (call_type : CallType) (now : ℕ)
    → expired r now ≡ true
    → rule_matches r src_num dst_num call_type now ≡ false
unfolding rule_matches
expired-rule_matches r src_num dst_num call_type now e = elim (Bool-cases r.enabled) [
  | inl on ↦ rw (on, e)
  | inr off ↦ rw off
]

module _ (t : RuleTable) where
  -- The rules that are kept are the rules that are not both expired and automatic.
  pub prune-keep :
      (now : ℕ) (rules : List FaxPolicyRule) (db : t.Db)
      → (prune t now rules db).0 ≡ keep (λ r. not (expired r now && is_auto r.origin)) rules
  unfolding prune
  prune-keep now [] db = refl
  prune-keep now (r ∷ rs) db = elim (Bool-cases (expired r now && is_auto r.origin)) [
    | inl gone ↦ rw gone (prune-keep now rs (t.delete_rule r.id db))
    | inr kept ↦ rw kept (ap (◌∷◌ r) (prune-keep now rs db))
  ]

  matching-prune :
      (now later : ℕ) (rules : List FaxPolicyRule) (db : t.Db) (src_num dst_num : String)
      (call_type : CallType)
      → now ≤ later
      → matching (prune t now rules db).0 src_num dst_num call_type later
        ≡ matching rules src_num dst_num call_type later
  unfolding prune matching
  matching-prune now later [] db src_num dst_num call_type h = refl
  matching-prune now later (r ∷ rs) db src_num dst_num call_type h =
      elim (Bool-cases (expired r now && is_auto r.origin)) [
        | inl gone ↦
            let out : expired r now ≡ true = ground arith in
            let silent =
              expired-rule_matches r src_num dst_num call_type later
                (expired_later r now later h out) in
            rw (gone, silent)
              (matching-prune now later rs (t.delete_rule r.id db) src_num dst_num call_type h)
        | inr kept ↦ rw kept (
            ap
              (λ (m : List FaxPolicyRule).
                if rule_matches r src_num dst_num call_type later then r ∷ m else m)
              (matching-prune now later rs db src_num dst_num call_type h))
      ]

  pub reload-cache :
      (now : ℕ) (e : Engine t) (rules : List FaxPolicyRule)
      → t.find_all e.db ≡ some rules
      → (reload_fax_policies t now e).1.cache ≡ some (prune t now rules e.db).0
  unfolding reload_fax_policies
  reload-cache now e rules found = rw (found, reload_fax_policies)

  -- After a reload that could read the table, every later call gets the policy that the whole table
  -- would give it, although the expired auto rules are gone from the cache.
  pub reload-resolve :
      (f : Faxing) (now later : ℕ) (e : Engine t) (rules : List FaxPolicyRule)
      (src_num dst_num : String) (call_type : CallType)
      → t.find_all e.db ≡ some rules
      → now ≤ later
      → resolve_fax_policy f (reload_fax_policies t now e).1.cache src_num dst_num call_type later
        ≡ resolve_fax_policy f (some rules) src_num dst_num call_type later
  unfolding resolve_fax_policy
  reload-resolve f now later e rules src_num dst_num call_type found h = rw (
    reload-cache now e rules found,
    matching-prune now later rules e.db src_num dst_num call_type h,
  )
