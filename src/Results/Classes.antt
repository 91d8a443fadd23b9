-- ===== src/Results/Classes.antt =====
-- How legs are classified.
use gofaxserver.Prelude.{
  ℕ, ◌≡◌, refl, inl, inr, false, List, [], ◌∷◌, arith, if◌then◌else◌, ◌==◌, Eq_nat, Eq_text,
  Bool-cases,
}
use gofaxserver.Registry.{Registry}
use gofaxserver.Dialplan.{TransformationRule, Regexps}
use gofaxserver.Queue.Process.{is_placeholder_result}
use gofaxserver.Router.{resolve_callee, route_fax, resolve_caller, prepare}
use gofaxserver.Results.{classify_endpoints, classify_fax_result}
use gofaxserver.Model.{Endpoint, FaxJob}

classify_endpoints-submission :
    (job : FaxJob) (eps : List Endpoint)
    → ((classify_endpoints job eps).result_type == "submission") ≡ false
unfolding classify_endpoints
classify_endpoints-submission job [] = refl
classify_endpoints-submission job (ep ∷ eps) = elim (Bool-cases (ep.endpoint_type == "gateway")) [
  | inl e ↦ rw (classify_endpoints, e) refl
  | inr e ↦ rw (classify_endpoints, e) refl
]

-- A leg is a submission just if its job carries the placeholder.
pub classify-submission :
    (job : FaxJob)
    → ((classify_fax_result job).result_type == "submission") ≡ is_placeholder_result job
unfolding classify_fax_result classify_endpoints
classify-submission job = elim (Bool-cases (is_placeholder_result job)) [
  | inl e ↦ rw (classify_fax_result, e) refl
  | inr e ↦ elim (Bool-cases job.is_bridge) [
    | inl e' ↦ rw (classify_fax_result, e, e') refl
    | inr e' ↦ rw (classify_fax_result, e, e') (classify_endpoints-submission job job.endpoints)
  ]
]

-- The fields of a job that the router leaves alone.
record Untouched (job job' : FaxJob) : Type 0 where
  uuid_same : job'.uuid ≡ job.uuid
  result_same : job'.result ≡ job.result
  bridge_same : job'.is_bridge ≡ job.is_bridge
  endpoints_same : job'.endpoints ≡ job.endpoints

prepare-Untouched :
    (re : Regexps) (rules : List TransformationRule) (now : ℕ) (g : Registry) (job : FaxJob)
    → Untouched job (prepare re rules now g job)
unfolding prepare resolve_caller resolve_callee
prepare-Untouched re rules now g job = record {
  uuid_same = ground arith;
  result_same = ground arith;
  bridge_same = ground arith;
  endpoints_same = ground arith;
}

-- The tick is of the same job, with the same result.
pub route_fax-result :
    (re : Regexps) (rules : List TransformationRule) (now : ℕ) (g : Registry) (job : FaxJob)
    → ((route_fax re rules now g job).0.uuid ≡ job.uuid)
      × ((route_fax re rules now g job).0.result ≡ job.result)
unfolding route_fax
route_fax-result re rules now g job =
    let u = prepare-Untouched re rules now g job in (u.uuid_same, u.result_same)

-- The progress tick of a job that has no endpoints yet is stored as a submission if the job carries
-- the placeholder, as a bridge if it is bridged, and as a reception otherwise, whatever endpoints the
-- router then finds for it.
pub route_fax-classify :
    (re : Regexps) (rules : List TransformationRule) (now : ℕ) (g : Registry) (job : FaxJob)
    → job.endpoints ≡ []
    → (classify_fax_result (route_fax re rules now g job).0).result_type ≡ (
        if is_placeholder_result job
        then "submission"
        else if job.is_bridge
        then "bridge"
        else "reception")
unfolding classify_fax_result route_fax is_placeholder_result classify_endpoints
route_fax-classify re rules now g job none_yet =
    let tick = prepare re rules now g job in
    let u = prepare-Untouched re rules now g job in
    ground (arith, u.result_same, u.bridge_same, u.endpoints_same)
