-- ===== src/Queue/Process.antt =====
-- processFax of gofaxserver/queue.go from the groups to the notification. The workers of the
-- endpoint types run one after another, in the order in which the map of groups gives them; the
-- preview of the first page and the removal of files are left out.
pub mod Effects
pub mod Whole
use gofaxserver.Prelude.{
  ℕ, String, Bool, true, false, ◌&&◌, ◌||◌, not, none, some, [], ◌∷◌, ◌++◌, if◌then◌else◌, ◌==◌,
  Eq_nat, Eq_text, is_some,
}
use gofaxserver.Notify.{process_notify_destinations}
use gofaxserver.Queue.Groups.{group_endpoints, GroupMap}
use gofaxserver.Tracker.{begin, complete}
use gofaxserver.Queue.Attempts.{succeeded}
use gofaxserver.Queue.Outside.{Notification, QueueState, QueueConfig, Outside}
use gofaxserver.Prelude.Map.{put, Map}
use gofaxserver.Model.{FaxResult, FaxJob, Endpoint}
use gofaxserver.Queue.Delivery.{deliver_type, is_placeholder}
use Prim.Native.String

-- isPlaceholderResult
unfoldable pub is_placeholder_result : FaxJob → Bool
unfolding is_placeholder
is_placeholder_result f = elim f.result [ none ↦ false | some r ↦ is_placeholder r ]

-- The synthetic endpoint that names the outcome's kind in a report.
abbrev pub label_endpoint : String → Endpoint
label_endpoint label = record {
  id = 0;
  scope = "";
  type_id = 0;
  endpoint_type = label;
  endpoint = "";
  priority = 0;
  bridge = false;
}

-- snapshotCallOutcome
unfoldable pub snapshot_call_outcome : FaxJob → Map ℕ FaxJob → Map ℕ FaxJob
unfolding is_placeholder_result
snapshot_call_outcome f outcomes =
    let call_id = if f.call_uuid == 0 then f.uuid else f.call_uuid in
    let label = if f.is_bridge then "bridge" else "reception" in
    if not (is_some f.result) || is_placeholder_result f
    then outcomes
    else put call_id (record f { call_uuid = call_id; endpoints = label_endpoint label ∷ [] })
        outcomes

-- A bridged call that ended in NORMAL_CLEARING counts as a success.
unfoldable pub bridge_result : FaxResult → FaxResult
bridge_result r =
    if not r.success && r.hangup_cause == "NORMAL_CLEARING"
    then record r {
      success = true;
      result_text = if r.result_text == "" then "Bridge completed" else r.result_text;
    }
    else r

-- The job as the block for notify-only jobs leaves it.
unfoldable pub settle : FaxJob → FaxJob
unfolding bridge_result
settle f =
    let result =
      if f.is_bridge
      then (elim f.result [ none ↦ none | some r ↦ some (bridge_result r) ])
      else f.result in
    if f.notify_only then record f { result = result; endpoints = [] } else f

abbrev pub any_success : Map ℕ FaxJob → Bool
any_success [] = false
any_success ((_, attempt) ∷ results) = succeeded attempt.result || any_success results

-- computeAllAttemptsFailed
unfoldable pub compute_all_attempts_failed : FaxJob → Map ℕ FaxJob → Bool
unfolding is_placeholder_result
compute_all_attempts_failed f results =
    if is_some f.result
      && not f.is_bridge
      && f.source_info.source_type == "gateway"
      && not (is_placeholder_result f)
    then not (succeeded f.result)
    else not (any_success results)

-- The condition under which a notify-only job is not notified.
unfoldable pub is_zero_page_failure : FaxJob → Bool
is_zero_page_failure f = elim f.result [
  | none ↦ false
  | some r ↦ f.notify_only && not f.is_bridge && not r.success && r.transferred_pages == 0
]

module _ (o : Outside) (c : QueueConfig) where
  -- The workers of all endpoint types.
  unfoldable pub deliver_types : FaxJob → GroupMap → QueueState o → QueueState o
  unfolding deliver_type
  deliver_types f [] s = s
  deliver_types f ((ep_type, m) ∷ groups) s =
      deliver_types f groups (deliver_type o c f ep_type m s)

  -- What follows the deliveries: the notification, unless there is nothing to report, and
  -- the job is complete. The lookup of the destinations never returns an error.
  unfoldable pub finish : FaxJob → QueueState o → QueueState o
  unfolding compute_all_attempts_failed is_zero_page_failure complete
  finish f s =
      let done = record s { tracker = complete f.uuid s.tracker } in
      let failed = compute_all_attempts_failed f s.outcomes in
      let note : Notification = record {
        job = f;
        results = s.outcomes;
        all_attempts_failed = failed;
        destinations = process_notify_destinations o.lower f (o.registry s.world);
      } in
      if is_zero_page_failure f then done else record done { notified = s.notified ++ note ∷ [] }

  unfoldable pub process_fax : FaxJob → QueueState o → QueueState o
  process_fax f s =
      let (time, w) = o.now s.world in
      let f' = settle f in
      let groups = if f.notify_only then [] else group_endpoints f.endpoints in
      let s1 = record s {
        world = w;
        tracker = begin time f s.tracker;
        outcomes = snapshot_call_outcome f' [];
      } in
      finish f' (deliver_types f' groups s1)
