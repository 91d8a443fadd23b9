-- ===== src/Tests/Queue.antt =====
-- The queue on concrete jobs: a world that counts, a sender that succeeds on every call, and
-- webhooks that answer 200.
use gofaxserver.Prelude.{
  ℕ, ◌+◌, ◌≤◌, ◌≡◌, refl, Bool, true, false, none, some, List, [], ◌∷◌, ◌++◌, ltb, nat_eq,
  if◌then◌else◌, ◌==◌, Eq_nat, Eq_text, length, All,
}
use gofaxserver.Policy.Signature.{escalate_retry_chain}
use gofaxserver.Prelude.Map.{put, find_key}
use gofaxserver.Queue.Attempts.{
  stamped, stamp_and_send, start_attempt, gateway_answer, gateway_attempt,
}
use gofaxserver.Prelude.Text.{equal_fold}
use gofaxserver.Queue.Process.Whole.{process_fax-notified, Reports, process_fax-untracked, most}
use gofaxserver.Queue.Delivery.Success.{webhook_prios-once, gateway_group-Delivers}
use gofaxserver.Tracker.{mark_attempt, set_call, get, new_fax_tracker}
use gofaxserver.Queue.Process.{settle, process_fax}
use gofaxserver.Tracker.Count.{IsCounted}
use gofaxserver.Queue.Delivery.Escalation.{gateway_prios-every, used}
use gofaxserver.Queue.Delivery.Outcome.{Delivers}
use gofaxserver.Queue.Delivery.{
  target, deliver_each, gateway_single, webhook_prios, gateway_prios, gateway_group,
}
use gofaxserver.Queue.Retry.{retry_from, retry_with_backoff-Tried, Tried, retry_with_backoff}
use gofaxserver.Queue.Outside.{
  base_delay, max_attempts, status, Notification, QueueState, QueueConfig, Outside,
}
use gofaxserver.Queue.Groups.{is_global_upstream_gateway_group, PrioMap}
use gofaxserver.Model.{blank_job, blank_result, FaxJob, Endpoint}

abbrev gateway : ℕ → ℕ → Endpoint
gateway k prio = record {
  id = k;
  scope = "tenant";
  type_id = 1;
  endpoint_type = "gateway";
  endpoint = "gw1:10.0.0.1";
  priority = prio;
  bridge = false;
}

abbrev hook : ℕ → Endpoint
hook prio = record (gateway 9 prio) { endpoint_type = "webhook"; endpoint = "http://x" }

abbrev two_gateways : List Endpoint
two_gateways = gateway 1 1 ∷ gateway 2 2 ∷ gateway 3 2 ∷ hook 999 ∷ hook 1 ∷ []

abbrev group_example : PrioMap
group_example = (999, hook 999 ∷ []) ∷ (1, hook 1 ∷ []) ∷ []

abbrev gateways_example : PrioMap
gateways_example = (1, gateway 1 1 ∷ []) ∷ (2, gateway 2 2 ∷ []) ∷ []

abbrev outside : Outside
outside = record {
  World = ℕ;
  now = λ w. (w, w + 1);
  new_uuid = λ w. (w + 1, w + 1);
  random = λ n w. (0, w);
  sleep = λ d w. w + d;
  enables_bridge = λ f w. false;
  send_fax = λ ff w. (
    record {
      retry = false;
      failed = false;
      job = record ff { result = some (record blank_result { success = true }) };
    },
    w,
  );
  prepare = λ name w. ("JVBERi0=", w);
  marshals = λ p. true;
  post = λ url p w. (status 200, w);
  status_text = λ code. "status";
  registry = λ w. record {
    tenants = [];
    tenant_numbers = [];
    tenant_endpoints = [];
    number_endpoints = [];
    endpoints = [];
    gateway_endpoints_acl = [];
    gateway_acl_resolved = [];
    upstream_fs_gateways = [];
  };
  lower = λ c. c;
}

abbrev config : QueueConfig
config = record {
  retry_attempts = none;
  retry_delay = none;
  policy = record {
    enabled = none;
    learn_enabled = none;
    t38_failure_threshold = 0;
    ecm_failure_threshold = 0;
    v17_failure_threshold = 0;
    recovery_successes = 0;
    auto_rule_ttl = none;
    pair_state_ttl = none;
    retry_chain_escalation = none;
    bridge_learn = none;
  };
  portal_url = "";
  upstreams = [];
}

abbrev start : QueueState outside
start = record { world = 1; results = []; tracker = new_fax_tracker; outcomes = []; notified = [] }

abbrev job : FaxJob
job = record blank_job { uuid = 1; call_uuid = 10; endpoints = two_gateways }

-- Attempts that log their outcome, and succeed the third time.
abbrev third : ℕ → List (Bool × Bool) → (Bool × Bool) × List (Bool × Bool)
third n log = ((nat_eq n 3, true), log ++ (nat_eq n 3, true) ∷ [])

abbrev no_draw : ℕ → List (Bool × Bool) → ℕ × List (Bool × Bool)
no_draw n log = (0, log)

abbrev no_pause : ℕ → List (Bool × Bool) → List (Bool × Bool)
no_pause d log = log

retry_with_backoff-Tried_example :
    (tries : List (Bool × Bool)) × ((retry_with_backoff third no_draw no_pause 5 60 10 []).1
      ≡ tries)
    × Tried 5 tries (retry_with_backoff third no_draw no_pause 5 60 10 []).0
retry_with_backoff-Tried_example =
    retry_with_backoff-Tried third no_draw no_pause 5 60 (λ log. log) (λ n log. refl)
      (λ n log. refl) (λ d log. refl) 10 []

-- A state that remembers the longest pause.
abbrev failing : ℕ → ℕ → (Bool × Bool) × ℕ
failing n s = ((false, true), s)

abbrev any_draw : ℕ → ℕ → ℕ × ℕ
any_draw n s = (n, s)

abbrev longest : ℕ → ℕ → ℕ
longest d s = if ltb s d then d else s

gateway_group-Delivers_example :
    let r = gateway_group outside config job 2 (gateway 2 2 ∷ gateway 3 2 ∷ []) start in
    Delivers outside r.0 start r.1
gateway_group-Delivers_example =
    gateway_group-Delivers outside config job 2 (gateway 2 2 ∷ gateway 3 2 ∷ []) start

webhook_prios-once_example :
    (ok : Bool) × Delivers outside ok start
      (webhook_prios outside config job "webhook" group_example (1 ∷ 999 ∷ []) start)
webhook_prios-once_example =
    webhook_prios-once outside config job "webhook" group_example (1 ∷ 999 ∷ []) start

gateway_prios-every_example :
    0 + length (used gateways_example (1 ∷ 2 ∷ []))
    ≤ length (gateway_prios outside config job gateways_example (1 ∷ 2 ∷ []) start).results
gateway_prios-every_example =
    gateway_prios-every outside config job gateways_example (1 ∷ 2 ∷ []) start

-- The sender succeeds at the first priority, and the fax is sent again at the second.
sent_twice :
    length (gateway_prios outside config job gateways_example (1 ∷ 2 ∷ []) start).results ≡ 2
unfolding gateway_prios gateway_group gateway_single is_global_upstream_gateway_group equal_fold
    deliver_each retry_with_backoff retry_from max_attempts base_delay gateway_attempt
    gateway_answer start_attempt stamp_and_send stamped set_call mark_attempt find_key put target
    escalate_retry_chain
sent_twice = refl

start_IsCounted : IsCounted new_fax_tracker
start_IsCounted = record { unique = tt; counted = refl; running_jobs = tt }

process_fax-untracked_example :
    IsCounted (process_fax outside config job start).tracker
    × ((k : ℕ)
        → get k (process_fax outside config job start).tracker
          ≡ (if 1 == k then none else get k new_fax_tracker))
process_fax-untracked_example = process_fax-untracked outside config job start start_IsCounted

process_fax-notified_example :
    (new : List Notification) × ((process_fax outside config job start).notified ≡ [] ++ new)
    × (length new ≤ most (settle job))
    × All (Reports (settle job)) new
process_fax-notified_example = process_fax-notified outside config job start
