-- ===== src/Monitor.antt =====
-- The refresh of the gateway ACL's addresses (gofaxserver/gateway_monitor.go, and resolveGatewayACLs
-- and reconcileBans of gofaxserver/endpoints.go). The resolver is a parameter, which answers nothing
-- for an error.
use gofaxserver.Prelude.{
  String, ◌≡◌, refl, sym, ◌∙◌, subst, inl, inr, Bool, true, false, ◌&&◌, not, Option, none, some,
  List, [], ◌∷◌, arith, eq_iff, if◌then◌else◌, ◌==◌, Eq_nat, Eq_text, Bool-cases, Option-cases,
  is_empty, is_some, keep, Member,
}
use gofaxserver.Registry.Gateways.{fs_gateway_acl_iff}
use gofaxserver.Prelude.Map.{Map, find_key, put, find_key-put}
use gofaxserver.Prelude.Text.{after_colon}
use gofaxserver.Registry.{is_resolved, fs_gateway_acl, Registry, any_equal}
use gofaxserver.Sentry.State.{SentryEnv, IpSentry}
use gofaxserver.Sentry.Janitor.{reconcile}

-- monitorTransition: whether the change is noteworthy, and whether it is a warning
abbrev pub monitor_transition : String → String → Bool × Bool
monitor_transition old new = if old == new then (false, false) else (true, not (new == "REGED"))

-- splitGatewayACLHost
abbrev pub split_gateway_acl_host : String → Option String
split_gateway_acl_host entry = elim (after_colon entry) [
  | none ↦ none
  | some host ↦ if host == "" then none else some host
]

module _ (is_ip : String → Bool) (look_up : String → Option (List String)) where
  -- What becomes of an entry: nothing if it is not looked up, or else the addresses or the error.
  abbrev pub resolution : String → Option (Option (List String))
  resolution entry = elim (split_gateway_acl_host entry) [
    | none ↦ none
    | some host ↦ if is_ip host then none else some (look_up host)
  ]

  abbrev pub fails : String → Bool
  fails entry = elim (resolution entry) [ none ↦ false | some answer ↦ not (is_some answer) ]

  -- The two results of resolveGatewayACLs.
  unfoldable pub resolved_entries :
      List String → Map String (List String) → Map String (List String)
  resolved_entries [] m = m
  resolved_entries (entry ∷ entries) m = resolved_entries entries (elim (resolution entry) [
    | none ↦ m
    | some answer ↦ elim answer [ none ↦ m | some ips ↦ put entry ips m ]
  ])

  abbrev pub failed_entries : List String → List String
  failed_entries entries = keep fails entries

  -- The loop over the failures.
  unfoldable pub keep_last_good :
      List String → Map String (List String) → Map String (List String) → Map String (List String)
  keep_last_good [] previous m = m
  keep_last_good (entry ∷ entries) previous m =
      keep_last_good entries previous
        (elim (find_key entry previous) [ none ↦ m | some old ↦ put entry old m ])

  -- refreshGatewayACLResolution, on the registry; the bans are then reconciled with it
  unfoldable pub refresh_gateway_acl_resolution : Registry → Registry
  refresh_gateway_acl_resolution g =
      let entries = g.gateway_endpoints_acl in
      let fresh = resolved_entries entries [] in
      if is_empty entries then g else record g {
        gateway_acl_resolved = keep_last_good (failed_entries entries) g.gateway_acl_resolved fresh;
      }

  unfoldable pub refresh_and_reconcile : SentryEnv → IpSentry → SentryEnv × IpSentry
  refresh_and_reconcile env s =
      let g = refresh_gateway_acl_resolution env.registry in
      let env' : SentryEnv = record env { registry = g } in
      if is_empty env.registry.gateway_endpoints_acl then (env, s) else (env', reconcile env' s)

  keep_last_good-find_key :
      (entry : String) (failed : List String) (previous m : Map String (List String))
      → find_key entry (keep_last_good failed previous m) ≡ (
          if any_equal entry failed && is_some (find_key entry previous)
          then find_key entry previous
          else find_key entry m)
  unfolding keep_last_good
  keep_last_good-find_key entry [] previous m = ground arith
  keep_last_good-find_key entry (e ∷ failed) previous m =
      elim (Option-cases (find_key e previous)) [
        | inl gone ↦
            ground (arith, gone, eq_iff e entry, keep_last_good-find_key entry failed previous m)
        | inr (old, there) ↦ ground (
          arith,
          there,
          eq_iff e entry,
          find_key-put e entry old m,
          keep_last_good-find_key entry failed previous (put e old m),
        )
      ]

  any_equal-failed :
      (entry : String) (entries : List String)
      → any_equal entry (keep fails entries) ≡ (any_equal entry entries && fails entry)
  any_equal-failed entry [] = refl
  any_equal-failed entry (e ∷ entries) = elim (Bool-cases (e == entry)) [
    | inl same ↦ rw ((eq_iff e entry).0 same) (ground (arith, any_equal-failed entry entries))
    | inr other ↦ ground (arith, other, any_equal-failed entry entries)
  ]

  -- An entry of the gateway ACL whose lookup fails keeps the addresses that it was last resolved to.
  pub refresh-last_good :
      (g : Registry) (entry : String) (old : List String)
      → any_equal entry g.gateway_endpoints_acl ≡ true
      → fails entry ≡ true
      → find_key entry g.gateway_acl_resolved ≡ some old
      → find_key entry (refresh_gateway_acl_resolution g).gateway_acl_resolved ≡ some old
  unfolding refresh_gateway_acl_resolution
  refresh-last_good g entry old listed failed there =
      elim (Bool-cases (is_empty g.gateway_endpoints_acl)) [
        | inl e ↦ rw (refresh_gateway_acl_resolution, e) there
        | inr e ↦
            let f = any_equal-failed entry g.gateway_endpoints_acl in
            let in_failed : any_equal entry (keep fails g.gateway_endpoints_acl) ≡ true =
              ground (arith, f, listed, failed) in
            rw (refresh_gateway_acl_resolution, e)
              (keep_last_good-find_key entry (keep fails g.gateway_endpoints_acl)
                  g.gateway_acl_resolved (resolved_entries g.gateway_endpoints_acl [])
                ∙ rw (in_failed, there) refl)
      ]

  any_equal-Member :
      (entry : String) (entries : List String)
      → any_equal entry entries ≡ true
      → Member entry entries
  any_equal-Member entry [] h = absurd cc
  any_equal-Member entry (e ∷ entries) h = elim (Bool-cases (e == entry)) [
    | inl same ↦ inl (sym ((eq_iff e entry).0 same))
    | inr other ↦ inr (any_equal-Member entry entries (rw other at h))
  ]

  refresh-entries :
      (g : Registry)
      → (refresh_gateway_acl_resolution g).gateway_endpoints_acl ≡ g.gateway_endpoints_acl
  unfolding refresh_gateway_acl_resolution
  refresh-entries g = ground arith

  -- A lookup that fails shuts nobody out: after the refresh the gateway ACL still lets in an address
  -- to which an entry of the ACL was last resolved, if that entry cannot be resolved now.
  pub refresh-fs_gateway_acl :
      (g : Registry) (entry ip : String) (old : List String)
      → any_equal entry g.gateway_endpoints_acl ≡ true
      → fails entry ≡ true
      → find_key entry g.gateway_acl_resolved ≡ some old
      → any_equal ip old ≡ true
      → is_some (fs_gateway_acl ip (refresh_gateway_acl_resolution g)) ≡ true
  refresh-fs_gateway_acl g entry ip old listed failed there has =
      let after = refresh_gateway_acl_resolution g in
      let kept = refresh-last_good g entry old listed failed there in
      let m =
        subst (Member entry) (sym (refresh-entries g))
          (any_equal-Member entry g.gateway_endpoints_acl listed) in
      let found : is_resolved after.gateway_acl_resolved ip entry ≡ true =
        rw (is_resolved, kept) has in
      (fs_gateway_acl_iff ip after).1 (entry, m, inr found)
