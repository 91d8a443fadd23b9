-- ===== src/Tracker/Count.antt =====
-- The counter of running jobs.
use gofaxserver.Prelude.{
  ℕ, suc, ◌+◌, ◌≡◌, refl, ap, ◌∙◌, subst, ◌≢◌, inl, inr, false, none, some, List, [], ◌∷◌, arith,
  if◌then◌else◌, ◌==◌, Eq_nat, Eq_text, beq_refl, Bool-cases, Option-cases, length, All,
}
use gofaxserver.Model.{FaxJob}
use gofaxserver.Prelude.Map.{
  length-put_new, find_key-delete, length-delete, length-put_old, delete-HasUniqueKeys,
  put-HasUniqueKeys, Map, find_key, put, delete, HasUniqueKeys,
}
use gofaxserver.Tracker.{
  forget_call, index_call, marks_bridging, marks_sending, marks_receiving, marks_waiting,
  marks_result, marks_attempt, sets_call, completes, begins, mark_bridging, mark_sending,
  mark_receiving, mark_waiting, snapshot, mark_result, active_count, mark_attempt, refreshed_state,
  get, new_fax_tracker, set_call, is_finished, fresh_state, Call, run, perform, complete, FaxPhase,
  begin, change, states, FaxTracker, FaxRunState, finished,
}

-- No tracked job is finished.
abbrev AllRunning : Map ℕ FaxRunState → Type 0
AllRunning = All (λ e. e.1.phase ≢ finished)

-- The counter is the number of the tracked jobs, each of which is tracked once and none of which
-- is finished.
pub record IsCounted (t : FaxTracker) : Type 0 where
  pub unique : HasUniqueKeys t.by_job
  pub counted : t.running ≡ length t.by_job
  pub running_jobs : AllRunning t.by_job

put-AllRunning :
    (k : ℕ) (st : FaxRunState) (m : Map ℕ FaxRunState)
    → st.phase ≢ finished
    → AllRunning m
    → AllRunning (put k st m)
unfolding put
put-AllRunning k st [] p h = (p, tt)
put-AllRunning k st ((j, w) ∷ m) p (q, h) = elim (Bool-cases (j == k)) [
  | inl same ↦ rw same (p, h)
  | inr other ↦ rw other (q, put-AllRunning k st m p h)
]

delete-AllRunning : (k : ℕ) (m : Map ℕ FaxRunState) → AllRunning m → AllRunning (delete k m)
unfolding delete
delete-AllRunning k [] h = tt
delete-AllRunning k ((j, w) ∷ m) (q, h) = elim (Bool-cases (j == k)) [
  | inl same ↦ rw same (delete-AllRunning k m h)
  | inr other ↦ rw other (q, delete-AllRunning k m h)
]

find_key-running :
    (k : ℕ) (st : FaxRunState) (m : Map ℕ FaxRunState)
    → AllRunning m
    → find_key k m ≡ some st
    → st.phase ≢ finished
unfolding find_key
find_key-running k st [] h e = cc
find_key-running k st ((j, w) ∷ m) (q, h) e = elim (Bool-cases (j == k)) [
  | inl same ↦
      let e' : some w ≡ some st = rw same at e in
      let e'' : w ≡ st = cc in subst (λ (s : FaxRunState). s.phase ≢ finished) e'' q
  | inr other ↦ find_key-running k st m h (rw other at e)
]

length-states : (m : Map ℕ FaxRunState) → length m ≡ length (states m)
length-states [] = refl
length-states (e ∷ m) = ap suc (length-states m)

change-IsCounted :
    (j : ℕ) (f : FaxRunState → FaxRunState) (g : FaxRunState → Map ℕ ℕ → Map ℕ ℕ) (t : FaxTracker)
    → ((st : FaxRunState) → st.phase ≢ finished → (f st).phase ≢ finished)
    → IsCounted t
    → IsCounted (change j f g t)
change-IsCounted j f g t keeps c = elim (Option-cases (find_key j t.by_job)) [
  | inl none_there ↦ rw (change, none_there) c
  | inr (st, e) ↦
      rw (change, e)
        (record {
          unique = put-HasUniqueKeys j (f st) t.by_job c.unique;
          counted = omega (arith, length-put_old j (f st) st t.by_job e, c.counted);
          running_jobs =
              put-AllRunning j (f st) t.by_job
                (keeps st (find_key-running j st t.by_job c.running_jobs e)) c.running_jobs;
        })
]

begin-IsCounted :
    (now : ℕ) (job : FaxJob) (t : FaxTracker) → IsCounted t → IsCounted (begin now job t)
unfolding begin fresh_state refreshed_state
begin-IsCounted now job t c = elim (Option-cases (find_key job.uuid t.by_job)) [
  | inl e ↦
      rw (begin, e)
        (record {
          unique = put-HasUniqueKeys job.uuid (fresh_state now job) t.by_job c.unique;
          counted =
              omega (arith, length-put_new job.uuid (fresh_state now job) t.by_job e, c.counted);
          running_jobs =
              put-AllRunning job.uuid (fresh_state now job) t.by_job (λ h. cc) c.running_jobs;
        })
  | inr (st, e) ↦
      rw (begin, e)
        (record {
          unique = put-HasUniqueKeys job.uuid (refreshed_state now job st) t.by_job c.unique;
          counted = omega (
            arith,
            length-put_old job.uuid (refreshed_state now job st) st t.by_job e,
            c.counted,
          );
          running_jobs =
              put-AllRunning job.uuid (refreshed_state now job st) t.by_job (λ h. cc)
                c.running_jobs;
        })
]

not_finished : (p : FaxPhase) → p ≢ finished → is_finished p ≡ false
not_finished p h = ground arith

pub complete-IsCounted : (j : ℕ) (t : FaxTracker) → IsCounted t → IsCounted (complete j t)
unfolding complete
complete-IsCounted j t c = elim (Option-cases (find_key j t.by_job)) [
  | inl e ↦ rw (complete, e) c
  | inr (st, e) ↦
      let still = not_finished st.phase (find_key-running j st t.by_job c.running_jobs e) in
      rw (complete, e, still)
        (record {
          unique = delete-HasUniqueKeys j t.by_job c.unique;
          counted = ground (arith, length-delete j st t.by_job c.unique e, c.counted);
          running_jobs = delete-AllRunning j t.by_job c.running_jobs;
        })
]

pub perform-IsCounted :
    (now : ℕ) (c : Call) (t : FaxTracker) → IsCounted t → IsCounted (perform now c t)
unfolding perform set_call mark_attempt mark_result mark_waiting mark_receiving mark_sending
    mark_bridging
perform-IsCounted now (begins job) t h = begin-IsCounted now job t h
perform-IsCounted now (completes j) t h = complete-IsCounted j t h
perform-IsCounted now (sets_call j c) t h =
    change-IsCounted j _ (λ st m. index_call c j (forget_call st.call_uuid m)) t (λ st p. p) h
perform-IsCounted now (marks_attempt j c a m p ty l v) t h =
    change-IsCounted j _ (λ st m. put c j m) t (λ st p q. cc) h
perform-IsCounted now (marks_result j c s r e res) t h =
    change-IsCounted j _ (λ st m. m) t (λ st p. p) h
perform-IsCounted now (marks_waiting j) t h = change-IsCounted j _ (λ st m. m) t (λ st p q. cc) h
perform-IsCounted now (marks_receiving j) t h = change-IsCounted j _ (λ st m. m) t (λ st p q. cc) h
perform-IsCounted now (marks_sending j) t h = change-IsCounted j _ (λ st m. m) t (λ st p q. cc) h
perform-IsCounted now (marks_bridging j d g) t h =
    change-IsCounted j _ (λ st m. m) t (λ st p q. cc) h

run-IsCounted : (cs : List (ℕ × Call)) (t : FaxTracker) → IsCounted t → IsCounted (run cs t)
unfolding run
run-IsCounted [] t h = h
run-IsCounted ((now, c) ∷ cs) t h = run-IsCounted cs (perform now c t) (perform-IsCounted now c t h)

-- After any sequence of calls on a new tracker, ActiveCount is the number of the jobs that Snapshot
-- lists, no job is listed twice, and none is finished.
pub active_count-run :
    (cs : List (ℕ × Call))
    → IsCounted (run cs new_fax_tracker)
      × (active_count (run cs new_fax_tracker) ≡ length (snapshot (run cs new_fax_tracker)))
active_count-run cs =
    let c =
      run-IsCounted cs new_fax_tracker
        (record { unique = tt; counted = refl; running_jobs = tt }) in
    (c, c.counted ∙ length-states (run cs new_fax_tracker).by_job)

complete_absent : (j : ℕ) (t : FaxTracker) → get j t ≡ none → complete j t ≡ t
unfolding complete
complete_absent j t e = rw (complete, e) refl

pub get-complete :
    (j k : ℕ) (st : FaxRunState) (t : FaxTracker)
    → IsCounted t
    → get j t ≡ some st
    → get k (complete j t) ≡ (if j == k then none else get k t)
unfolding complete
get-complete j k st t c e =
    let still = not_finished st.phase (find_key-running j st t.by_job c.running_jobs e) in
    rw (complete, e, still) (find_key-delete j k t.by_job)

-- On a tracker that counts its jobs rightly, completing a tracked job takes it off, leaves every
-- other job as it is, and lowers the counter by one; completing it again changes nothing.
pub complete_lem :
    (j k : ℕ) (st : FaxRunState) (t : FaxTracker)
    → IsCounted t
    → get j t ≡ some st
    → (get k (complete j t) ≡ (if j == k then none else get k t))
      × (active_count (complete j t) + 1 ≡ active_count t)
      × (complete j (complete j t) ≡ complete j t)
unfolding complete
complete_lem j k st t c e =
    let still = not_finished st.phase (find_key-running j st t.by_job c.running_jobs e) in
    (
      get-complete j k st t c e,
      rw (complete, e, still) (ground (arith, length-delete j st t.by_job c.unique e, c.counted)),
      complete_absent j (complete j t) (get-complete j j st t c e ∙ ground (arith, beq_refl j)),
    )
