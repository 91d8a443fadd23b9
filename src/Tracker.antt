-- ===== src/Tracker.antt =====
-- The tracker of jobs in flight, gofaxserver/faxtracker.go. A method takes the time that time.Now
-- reads; the lock makes each of them one step. The attempt -1 of a single shot is written 0.
pub mod Count
pub mod Calls
pub mod Others
use gofaxserver.Prelude.{
  ℕ, ◌+◌, ◌-◌, String, Bool, true, false, Option, none, some, List, [], ◌∷◌, ltb, if◌then◌else◌,
  ◌==◌, Eq_nat, Eq_text,
}
use gofaxserver.Model.{FaxJob, FaxResult}
use gofaxserver.Prelude.Map.{Map, find_key, put, delete}

pub data FaxPhase : Type 0 where
  routed attempting receiving bridging sending waiting finished : FaxPhase

pub record FaxRunState : Type 0 where
  pub job_uuid : ℕ
  pub call_uuid : ℕ
  pub src_tenant_id : ℕ
  pub dst_tenant_id : ℕ
  pub caller : String
  pub callee : String
  pub gateway : String
  pub phase : FaxPhase
  pub attempt : ℕ
  pub max_attempts : ℕ
  pub current_prio : ℕ
  pub endpoint_type : String
  pub endpoint_label : String
  pub endpoint_value : String
  pub last_error : String
  pub last_result : String
  pub result_success : Option Bool
  pub result_snapshot : Option FaxResult
  pub enqueued_at : ℕ
  pub started_at : ℕ
  pub updated_at : ℕ

pub record FaxTracker : Type 0 where
  pub by_job : Map ℕ FaxRunState
  pub by_call : Map ℕ ℕ
  pub running : ℕ

abbrev pub new_fax_tracker : FaxTracker
new_fax_tracker = record { by_job = []; by_call = []; running = 0 }

unfoldable pub fresh_state : ℕ → FaxJob → FaxRunState
fresh_state now job = record {
  job_uuid = job.uuid;
  call_uuid = job.call_uuid;
  src_tenant_id = job.src_tenant_id;
  dst_tenant_id = job.dst_tenant_id;
  caller = job.caller_id_number;
  callee = job.callee_number;
  gateway = job.source_info.source;
  phase = routed;
  attempt = 0;
  max_attempts = 0;
  current_prio = 0;
  endpoint_type = "";
  endpoint_label = "";
  endpoint_value = "";
  last_error = "";
  last_result = "";
  result_success = none;
  result_snapshot = none;
  enqueued_at = now;
  started_at = 0;
  updated_at = now;
}

unfoldable pub refreshed_state : ℕ → FaxJob → FaxRunState → FaxRunState
refreshed_state now job st = record st {
  call_uuid = job.call_uuid;
  caller = job.caller_id_number;
  callee = job.callee_number;
  gateway = if job.source_info.source == "" then st.gateway else job.source_info.source;
  phase = routed;
  updated_at = now;
}

-- t.byCall[c] = j, unless c is uuid.Nil
abbrev pub index_call : ℕ → ℕ → Map ℕ ℕ → Map ℕ ℕ
index_call c j m = if c == 0 then m else put c j m

abbrev pub forget_call : ℕ → Map ℕ ℕ → Map ℕ ℕ
forget_call c m = if c == 0 then m else delete c m

unfoldable pub begin : ℕ → FaxJob → FaxTracker → FaxTracker
begin now job t = elim (find_key job.uuid t.by_job) [
  | none ↦ record {
    by_job = put job.uuid (fresh_state now job) t.by_job;
    by_call = index_call job.call_uuid job.uuid t.by_call;
    running = t.running + 1;
  }
  | some st ↦ record t {
    by_job = put job.uuid (refreshed_state now job st) t.by_job;
    by_call = index_call job.call_uuid job.uuid t.by_call;
  }
]

-- The methods that change the state of a tracked job, and do nothing for another.
abbrev pub change :
    ℕ → (FaxRunState → FaxRunState) → (FaxRunState → Map ℕ ℕ → Map ℕ ℕ) → FaxTracker → FaxTracker
change job_id f g t = elim (find_key job_id t.by_job) [
  | none ↦ t
  | some st ↦ record t { by_job = put job_id (f st) t.by_job; by_call = g st t.by_call }
]

unfoldable pub set_call : ℕ → ℕ → ℕ → FaxTracker → FaxTracker
set_call now job_id call_id =
    change job_id (λ st. record st { call_uuid = call_id; updated_at = now })
      (λ st m. index_call call_id job_id (forget_call st.call_uuid m))

unfoldable pub mark_attempt :
    ℕ → ℕ → ℕ → ℕ → ℕ → ℕ → String → String → String → FaxTracker → FaxTracker
mark_attempt now job_id call_id attempt max_attempts prio ep_type ep_label ep_value =
    change job_id
      (λ st. record st {
        call_uuid = call_id;
        attempt = attempt;
        max_attempts = max_attempts;
        current_prio = prio;
        endpoint_type = ep_type;
        endpoint_label = ep_label;
        endpoint_value = ep_value;
        phase = attempting;
        started_at = now;
        updated_at = now;
      })
      (λ st m. put call_id job_id m)

unfoldable pub mark_result :
    ℕ → ℕ → ℕ → Bool → String → String → Option FaxResult → FaxTracker → FaxTracker
mark_result now job_id call_id success returned last_err res =
    change job_id
      (λ st. record st {
        call_uuid = call_id;
        last_result = returned;
        last_error = last_err;
        result_success = some success;
        result_snapshot = elim res [ none ↦ st.result_snapshot | some r ↦ some r ];
        updated_at = now;
      })
      (λ st m. m)

unfoldable pub mark_waiting : ℕ → ℕ → FaxTracker → FaxTracker
mark_waiting now job_id =
    change job_id (λ st. record st { phase = waiting; updated_at = now }) (λ st m. m)

-- StartedAt is set where it is zero
abbrev started : ℕ → FaxRunState → ℕ
started now st = if st.started_at == 0 then now else st.started_at

unfoldable pub mark_receiving : ℕ → ℕ → FaxTracker → FaxTracker
mark_receiving now job_id =
    change job_id
      (λ st. record st { phase = receiving; started_at = started now st; updated_at = now })
      (λ st m. m)

unfoldable pub mark_bridging : ℕ → ℕ → String → String → FaxTracker → FaxTracker
mark_bridging now job_id direction gateway =
    change job_id
      (λ st. record st {
        phase = bridging;
        endpoint_label = direction;
        endpoint_value = gateway;
        started_at = started now st;
        updated_at = now;
      })
      (λ st m. m)

unfoldable pub mark_sending : ℕ → ℕ → FaxTracker → FaxTracker
mark_sending now job_id =
    change job_id
      (λ st. record st { phase = sending; started_at = started now st; updated_at = now })
      (λ st m. m)

abbrev pub is_finished : FaxPhase → Bool
is_finished finished = true
is_finished _ = false

-- The state of a completed job is dropped, so that its last changes are not seen.
unfoldable pub complete : ℕ → FaxTracker → FaxTracker
complete job_id t = elim (find_key job_id t.by_job) [
  | none ↦ t
  | some st ↦ if is_finished st.phase then t else record {
    by_job = delete job_id t.by_job;
    by_call = forget_call st.call_uuid t.by_call;
    running = if ltb 0 t.running then t.running - 1 else t.running;
  }
]

abbrev pub active_count : FaxTracker → ℕ
active_count t = t.running

abbrev pub states : Map ℕ FaxRunState → List FaxRunState
states [] = []
states ((_, st) ∷ m) = st ∷ states m

-- Snapshot, Get and FindJobByCall
abbrev pub snapshot : FaxTracker → List FaxRunState
snapshot t = states t.by_job

abbrev pub get : ℕ → FaxTracker → Option FaxRunState
get job_id t = find_key job_id t.by_job

abbrev pub find_job_by_call : ℕ → FaxTracker → Option ℕ
find_job_by_call call_id t = find_key call_id t.by_call

-- A call of one of the methods, with the time at which it is made.
pub data Call : Type 0 where
  begins : FaxJob → Call
  sets_call : ℕ → ℕ → Call
  marks_attempt : ℕ → ℕ → ℕ → ℕ → ℕ → String → String → String → Call
  marks_result : ℕ → ℕ → Bool → String → String → Option FaxResult → Call
  marks_waiting marks_receiving marks_sending completes : ℕ → Call
  marks_bridging : ℕ → String → String → Call

unfoldable pub perform : ℕ → Call → FaxTracker → FaxTracker
perform now (begins job) t = begin now job t
perform now (sets_call j c) t = set_call now j c t
perform now (marks_attempt j c a m p ty l v) t = mark_attempt now j c a m p ty l v t
perform now (marks_result j c s r e res) t = mark_result now j c s r e res t
perform now (marks_waiting j) t = mark_waiting now j t
perform now (marks_receiving j) t = mark_receiving now j t
perform now (marks_sending j) t = mark_sending now j t
perform now (completes j) t = complete j t
perform now (marks_bridging j d g) t = mark_bridging now j d g t

unfoldable pub run : List (ℕ × Call) → FaxTracker → FaxTracker
unfolding perform
run [] t = t
run ((now, c) ∷ cs) t = run cs (perform now c t)
