-- ===== src/Queue/Delivery.antt =====
-- The deliveries of processFax in gofaxserver/queue.go: the loops over the endpoints of a group and
-- over the priorities of an endpoint type. HTTP headers and log entries are left out.
pub mod Outcome
pub mod Steps
pub mod Success
pub mod Escalation
use gofaxserver.Prelude.{
  ℕ, String, Bool, true, false, ◌&&◌, ◌||◌, not, none, some, List, [], ◌∷◌, ◌++◌, ltb,
  if◌then◌else◌, ◌==◌, Eq_nat, Eq_text, is_empty,
}
use gofaxserver.Prelude.Map.{or_nil, find_key}
use gofaxserver.Queue.Retry.{retry_with_backoff}
use gofaxserver.Prelude.Text.{before_colon, join_comma, trim_right_slash}
use gofaxserver.Queue.Groups.{sorted_prios, PrioMap, is_global_upstream_gateway_group}
use gofaxserver.Queue.Outside.{
  base_delay, max_delay, max_attempts, FaxJobWithFile, QueueState, Outside, QueueConfig,
}
use gofaxserver.Model.{blank_result, Endpoint, FaxResult, FaxJob}
use Prim.Native.String
use gofaxserver.Queue.Attempts.{gateway_attempt, pause, draw, webhook_attempt, Attempting, Target}

-- The loop over the endpoints of a group, left at the first success.
unfoldable pub deliver_each : {A S : Type 0} → (A → S → Bool × S) → List A → S → Bool × S
deliver_each try [] s = (false, s)
deliver_each try (ep ∷ eps) s =
    let (ok, s') = try ep s in let rest = deliver_each try eps s' in if ok then (true, s') else rest

-- endpointBrief, with the job and the priority.
unfoldable pub target : FaxJob → ℕ → Endpoint → Target
target f prio ep = record {
  job_id = f.uuid;
  prio = prio;
  ep_type = ep.endpoint_type;
  ep_label = ep.scope;
  ep_value = ep.endpoint;
}

-- isPlaceholderResult, of a result that is there
unfoldable pub is_placeholder : FaxResult → Bool
is_placeholder r = r.hangup_cause == "WEBHOOK"

-- The job and the payload of a webhook: both carry the outcome of the call that came before the
-- queue, unless it is a placeholder.
unfoldable pub webhook_payload : FaxJob → Endpoint → String → FaxJobWithFile
unfolding is_placeholder
webhook_payload f ep file =
    let ff = record f { endpoints = ep ∷ []; result = some blank_result } in
    let plain : FaxJobWithFile = record {
      job = ff;
      file_data = file;
      call_success = false;
      call_partial = false;
      call_total_pages = 0;
      call_hangup_cause = "";
      call_result_text = "";
    } in
    elim f.result [
      | none ↦ plain
      | some r ↦ if is_placeholder r then plain else record {
        job = record ff { npages = r.transferred_pages };
        file_data = file;
        call_success = r.success;
        call_partial = not r.success && ltb 0 r.transferred_pages;
        call_total_pages = r.total_pages;
        call_hangup_cause = r.hangup_cause;
        call_result_text = r.result_text;
      }
    ]

-- resolveURL
unfoldable pub resolve_url : QueueConfig → String → Endpoint → String
resolve_url c ep_type ep =
    if ep_type == "portal"
    then String.◌++◌ (trim_right_slash c.portal_url)
        (String.◌++◌ "/portal/api/inbound/" ep.endpoint)
    else ep.endpoint

module _ (o : Outside) (c : QueueConfig) where
  abbrev pub with_retries :
      ℕ
      → (ℕ → Attempting o c → (Bool × Bool) × Attempting o c)
      → FaxJob
      → QueueState o
      → Bool × QueueState o
  with_retries job_id fn ff s =
      let (ok, (_, s')) =
        retry_with_backoff fn (draw o c) (pause o c job_id) (max_attempts c) max_delay
          (base_delay c) (ff, s) in
      (ok, s')

  -- Strategy A: all gateways in one dial string, and one shot where bridging is on.
  unfoldable pub gateway_batch : FaxJob → ℕ → QueueState o → Bool × QueueState o
  gateway_batch f prio s =
      let ff = record f { result = some blank_result } in
      let t : Target = record {
        job_id = f.uuid;
        prio = prio;
        ep_type = "gateway";
        ep_label = "global";
        ep_value = join_comma c.upstreams;
      } in
      let ((ok, _), (_, s')) = gateway_attempt o c t 0 (ff, s) in
      if o.enables_bridge f s.world
      then (ok, s')
      else with_retries f.uuid (gateway_attempt o c t) ff s

  -- Strategy B, for one endpoint
  unfoldable pub gateway_single : FaxJob → ℕ → Endpoint → QueueState o → Bool × QueueState o
  unfolding target
  gateway_single f prio ep s =
      let ff = record f {
        endpoints = ep ∷ [];
        result = some blank_result;
        gateway = before_colon ep.endpoint;
      } in
      with_retries f.uuid (gateway_attempt o c (target f prio ep)) ff s

  unfoldable pub gateway_group : FaxJob → ℕ → List Endpoint → QueueState o → Bool × QueueState o
  unfolding gateway_batch gateway_single deliver_each is_global_upstream_gateway_group
  gateway_group f prio group s =
      if is_global_upstream_gateway_group group
      then gateway_batch f prio s
      else deliver_each (gateway_single f prio) group s

  -- The priorities of the gateways. The `break` after a success ends the `switch` alone, as the
  -- `continue` after a failure does, so that the loop goes on to the next priority either way.
  unfoldable pub gateway_prios : FaxJob → PrioMap → List ℕ → QueueState o → QueueState o
  gateway_prios f m [] s = s
  gateway_prios f m (prio ∷ prios) s =
      let group = or_nil (find_key prio m) in
      let next = if is_empty group then s else (gateway_group f prio group s).1 in
      gateway_prios f m prios next

  unfoldable pub webhook_single :
      FaxJob → ℕ → String → String → Endpoint → QueueState o → Bool × QueueState o
  unfolding target webhook_payload resolve_url
  webhook_single f prio ep_type file ep s =
      let payload = webhook_payload f ep file in
      with_retries f.uuid
        (webhook_attempt o c (target f prio ep) (resolve_url c ep_type ep) payload) payload.job s

  unfoldable pub webhook_group :
      FaxJob → String → ℕ → List Endpoint → QueueState o → Bool × QueueState o
  unfolding webhook_single deliver_each
  webhook_group f ep_type prio group s =
      let (file, w) = o.prepare f.file_name s.world in
      if ep_type == "portal" && trim_right_slash c.portal_url == ""
      then (false, s)
      else deliver_each (webhook_single f prio ep_type file) group (record s { world = w })

  -- The priorities of the webhooks and of the portals: here a success ends the loop.
  unfoldable pub webhook_prios : FaxJob → String → PrioMap → List ℕ → QueueState o → QueueState o
  unfolding webhook_group
  webhook_prios f ep_type m [] s = s
  webhook_prios f ep_type m (prio ∷ prios) s =
      let group = or_nil (find_key prio m) in
      let (ok, s') = if is_empty group then (false, s) else webhook_group f ep_type prio group s in
      let rest = webhook_prios f ep_type m prios s' in if ok then s' else rest

  -- The worker of an endpoint type.
  unfoldable pub deliver_type : FaxJob → String → PrioMap → QueueState o → QueueState o
  unfolding gateway_prios webhook_prios sorted_prios
  deliver_type f ep_type m s =
      if ep_type == "gateway"
      then gateway_prios f m (sorted_prios m) s
      else if ep_type == "webhook" || ep_type == "portal"
      then webhook_prios f ep_type m (sorted_prios m) s
      else s
