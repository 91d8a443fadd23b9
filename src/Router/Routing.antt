-- ===== src/Router/Routing.antt =====
-- Where routeFax sends a job.
use gofaxserver.Prelude.{
  ℕ, String, ◌≡◌, refl, ap, ◌∙◌, inl, inr, true, false, ◌&&◌, not, Option, none, some, List, [],
  ◌∷◌, map, arith, if◌then◌else◌, ◌==◌, Eq_nat, Eq_text, Option-cases, is_empty, keep,
}
use gofaxserver.Prelude.Text.{equal_fold}
use gofaxserver.Queue.Groups.{group_endpoints, every, is_global_upstream_gateway_group}
use gofaxserver.Queue.Groups.Order.{group_endpoints-keep, group_of, belongs}
use gofaxserver.Registry.Numbers.{get_endpoints_for_number-Valid}
use gofaxserver.Router.{
  prepare, fall_back, route_standard, route_prepared, upstream_endpoint, route_fax,
}
use gofaxserver.Model.{Endpoint, FaxJob}
use gofaxserver.Registry.{get_endpoints_for_number, Registry}
use gofaxserver.Dialplan.{Regexps, TransformationRule}

-- The endpoints that a job should get: those of its number, or else the upstream gateways, or else
-- none, for which only a job that notifies is kept.
abbrev pub destination : Registry → FaxJob → Option (List Endpoint)
destination g fax = elim (get_endpoints_for_number fax.callee_number g) [
  | some eps ↦ some eps
  | none ↦
      if not (is_empty g.upstream_fs_gateways)
      then some (map upstream_endpoint g.upstream_fs_gateways)
      else if fax.notify_only
      then some []
      else none
]

abbrev pub with_endpoints : FaxJob → Option (List Endpoint) → Option FaxJob
with_endpoints fax none = none
with_endpoints fax (some eps) = some (record fax { endpoints = eps })

route_prepared-destination :
    (g : Registry) (fax : FaxJob) → route_prepared g fax ≡ with_endpoints fax (destination g fax)
unfolding route_prepared route_standard fall_back
route_prepared-destination g fax =
    elim (Option-cases (get_endpoints_for_number fax.callee_number g)) [
      | inl unknown ↦ ground (arith, unknown)
      | inr (eps, known) ↦
          ground (arith, known, get_endpoints_for_number-Valid fax.callee_number g eps known)
    ]

-- routeFax queues the job that it announced with the endpoints of its number if getEndpointsForNumber
-- finds some, else with one for each upstream gateway, else with none if the job only notifies; in
-- all other cases it drops the job. Whether the job came from an upstream gateway makes no difference.
pub route_fax-destination :
    (re : Regexps) (rules : List TransformationRule) (now : ℕ) (g : Registry) (fax : FaxJob)
    → route_fax re rules now g fax ≡ (
      prepare re rules now g fax,
      with_endpoints (prepare re rules now g fax) (destination g (prepare re rules now g fax)),
    )
unfolding route_fax
route_fax-destination re rules now g fax =
    let tick = prepare re rules now g fax in
    ap (λ (o : Option FaxJob). (tick, o)) (route_prepared-destination g tick)

all_upstream :
    (ty : String) (p : ℕ) (ups : List String)
    → keep (belongs ty p) (map upstream_endpoint ups)
      ≡ (if "gateway" == ty && 999 == p then map upstream_endpoint ups else [])
all_upstream ty p [] = ground arith
all_upstream ty p (u ∷ ups) = ground (arith, all_upstream ty p ups)

all_global :
    (ups : List String)
    → every
        (λ ep.
          equal_fold ep.scope "global" && ep.type_id == 0 && equal_fold ep.endpoint_type "gateway")
        (map upstream_endpoint ups)
      ≡ true
unfolding equal_fold
all_global [] = refl
all_global (u ∷ ups) = all_global ups

names : (ups : List String) → map (λ ep. ep.endpoint) (map upstream_endpoint ups) ≡ ups
names [] = refl
names (u ∷ ups) = ap (λ us. u ∷ us) (names ups)

is_empty-upstreams : (ups : List String) → is_empty (map upstream_endpoint ups) ≡ is_empty ups
is_empty-upstreams [] = refl
is_empty-upstreams (u ∷ ups) = refl

-- A job whose number has no endpoints is queued, if there are upstream gateways, with endpoints that
-- the queue puts in one group, the gateways of priority 999, one for each upstream gateway, and that
-- it sends to as one batch.
pub route_fax-batch :
    (re : Regexps) (rules : List TransformationRule) (now : ℕ) (g : Registry) (fax : FaxJob)
    (ty : String) (p : ℕ)
    → get_endpoints_for_number (prepare re rules now g fax).callee_number g ≡ none
    → is_empty g.upstream_fs_gateways ≡ false
    → (eps : List Endpoint) × ((route_fax re rules now g fax).1
        ≡ some (record (prepare re rules now g fax) { endpoints = eps }))
      × (map (λ ep. ep.endpoint) eps ≡ g.upstream_fs_gateways)
      × (is_global_upstream_gateway_group eps ≡ true)
      × (group_of ty p (group_endpoints eps) ≡ (if "gateway" == ty && 999 == p then eps else []))
unfolding is_global_upstream_gateway_group
route_fax-batch re rules now g fax ty p unknown some_up =
    let tick = prepare re rules now g fax in
    let eps = map upstream_endpoint g.upstream_fs_gateways in
    let sent : destination g tick ≡ some eps = rw (destination, unknown, some_up) refl in
    (
      eps,
      ap (λ r. r.1) (route_fax-destination re rules now g fax) ∙ ap (with_endpoints tick) sent,
      names g.upstream_fs_gateways,
      rw (is_empty-upstreams g.upstream_fs_gateways, some_up) (all_global g.upstream_fs_gateways),
      group_endpoints-keep ty p eps ∙ all_upstream ty p g.upstream_fs_gateways,
    )
