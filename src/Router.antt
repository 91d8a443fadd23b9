-- ===== src/Router.antt =====
-- The router of fax jobs (routeFax of gofaxserver/router.go).
pub mod Routing
use gofaxserver.Prelude.{
  ℕ, String, false, ◌&&◌, not, Option, none, some, List, [], map, if◌then◌else◌, ◌==◌, Eq_nat,
  Eq_text, is_empty,
}
use gofaxserver.Model.{Endpoint, Tenant, FaxJob}
use gofaxserver.Registry.{
  Registry, get_endpoints_for_number, get_tenant_by_number, get_number, any_equal,
}
use gofaxserver.Dialplan.{Regexps, TransformationRule, apply_transformation_rules}

-- The endpoint that stands for an upstream gateway; it is no row of the table.
abbrev pub upstream_endpoint : String → Endpoint
upstream_endpoint up = record {
  id = 0;
  scope = "global";
  type_id = 0;
  endpoint_type = "gateway";
  endpoint = up;
  priority = 999;
  bridge = false;
}

-- The caller's tenant and what it says of the caller.
unfoldable pub resolve_caller : Registry → FaxJob → FaxJob
resolve_caller g fax = elim (get_tenant_by_number fax.caller_id_number g) [
  | none ↦ fax
  | some tenant ↦
      let identified : FaxJob = record fax {
        src_tenant_id = tenant.id;
        identifier = fax.caller_id_number;
      } in
      elim (get_number fax.caller_id_number g) [
        | some cid ↦ record identified { caller_id_name = cid.name; header = cid.header }
        | none ↦ record identified { header = fax.caller_id_name }
      ]
]

unfoldable pub resolve_callee : Registry → FaxJob → FaxJob
resolve_callee g fax = elim (get_tenant_by_number fax.callee_number g) [
  | none ↦ fax
  | some tenant ↦ record fax { dst_tenant_id = tenant.id }
]

-- The job as the progress tick has it.
unfoldable pub prepare : Regexps → List TransformationRule → ℕ → Registry → FaxJob → FaxJob
prepare re rules now g fax =
    let transformed : FaxJob = record fax {
      callee_number = apply_transformation_rules re rules fax.callee_number;
      caller_id_number = apply_transformation_rules re rules fax.caller_id_number;
      ts = now;
    } in
    resolve_callee g (resolve_caller g transformed)

-- The endpoints for a job that has none of its own: the upstream gateways, or none at all for a
-- job that only notifies; nothing stands for a job that is dropped.
unfoldable pub fall_back : Registry → FaxJob → Option FaxJob
fall_back g fax =
    if is_empty g.upstream_fs_gateways
    then (if fax.notify_only then some (record fax { endpoints = [] }) else none)
    else some (record fax { endpoints = map upstream_endpoint g.upstream_fs_gateways })

-- The part of routeFax after its source-type specific branch.
unfoldable pub route_standard : Registry → FaxJob → Option FaxJob
route_standard g fax = elim (get_endpoints_for_number fax.callee_number g) [
  | some eps ↦ if not (is_empty eps) then some (record fax { endpoints = eps }) else fall_back g fax
  | none ↦ fall_back g fax
]

-- The part of routeFax after the progress tick.
unfoldable pub route_prepared : Registry → FaxJob → Option FaxJob
route_prepared g fax =
    if fax.source_info.source_type == "gateway"
      && any_equal fax.source_info.source g.upstream_fs_gateways
    then (elim (get_endpoints_for_number fax.callee_number g) [
      | some eps ↦ some (record fax { endpoints = eps })
      | none ↦ route_standard g fax
    ])
    else route_standard g fax

-- routeFax: the tick that it puts on the channel of results, and the job that it puts on the queue
unfoldable pub route_fax :
    Regexps → List TransformationRule → ℕ → Registry → FaxJob → FaxJob × Option FaxJob
route_fax re rules now g fax =
    let tick = prepare re rules now g fax in (tick, route_prepared g tick)
