-- ===== src/Tracker/Calls.antt =====
-- The reverse index from calls to jobs.
use gofaxserver.Prelude.{
  ℕ, String, ◌≡◌, refl, ◌∙◌, ◌≢◌, inl, inr, false, Option, none, some, arith, nat_eq, if◌then◌else◌,
  ◌==◌, Eq_nat, Eq_text, beq_refl, Bool-cases, Option-cases,
}
use gofaxserver.Model.{FaxJob}
use gofaxserver.Prelude.Map.{put, Map, find_key, find_key-put, find_key-delete}
use gofaxserver.Tracker.{
  mark_bridging, mark_receiving, new_fax_tracker, mark_waiting, is_finished, refreshed_state,
  fresh_state, complete, begin, FaxTracker, FaxRunState, change, set_call, mark_attempt, get,
  find_job_by_call, index_call, forget_call,
}

-- Each indexed call is the current call of the job that it leads to, and is no nil UUID.
pub record IsIndexed (t : FaxTracker) : Type 0 where
  pub current :
      (c j : ℕ)
      → find_job_by_call c t ≡ some j
      → (st : FaxRunState) × (get j t ≡ some st) × (st.call_uuid ≡ c) × (c ≢ 0)

find_key-index_call :
    (c k j : ℕ) (m : Map ℕ ℕ)
    → find_key k (index_call c j m)
      ≡ (if c == 0 then find_key k m else if c == k then some j else find_key k m)
find_key-index_call c k j m = ground (arith, find_key-put c k j m)

find_key-forget_call :
    (c k : ℕ) (m : Map ℕ ℕ)
    → find_key k (forget_call c m)
      ≡ (if c == 0 then find_key k m else if c == k then none else find_key k m)
find_key-forget_call c k m = ground (arith, find_key-delete c k m)

-- SetCall followed by MarkAttempt with the same call, as the queue does before each attempt.
pub next_attempt : ℕ → ℕ → ℕ → ℕ → ℕ → ℕ → String → String → String → FaxTracker → FaxTracker
next_attempt now j c a m p ty l v t = mark_attempt now j c a m p ty l v (set_call now j c t)

-- The entry of a call that no change touches stays right.
module _ (t : FaxTracker) (ix : IsIndexed t) (j : ℕ) (v : FaxRunState) where
  still_current :
      (st : FaxRunState) (k i : ℕ)
      → get j t ≡ some st
      → k ≢ st.call_uuid
      → find_job_by_call k t ≡ some i
      → (x : FaxRunState) × (find_key i (put j v t.by_job) ≡ some x) × (x.call_uuid ≡ k) × (k ≢ 0)
  still_current st k i e ne found =
      let (x, gx, cx, nz) = ix.current k i found in
      (x, ground (arith, find_key-put j i v t.by_job), cx, nz)

  still_current_new :
      (k i : ℕ)
      → get j t ≡ none
      → find_job_by_call k t ≡ some i
      → (x : FaxRunState) × (find_key i (put j v t.by_job) ≡ some x) × (x.call_uuid ≡ k) × (k ≢ 0)
  still_current_new k i e found =
      let (x, gx, cx, nz) = ix.current k i found in
      (x, ground (arith, find_key-put j i v t.by_job), cx, nz)

  newly_current :
      (k i : ℕ)
      → v.call_uuid ≡ k
      → k ≢ 0
      → some j ≡ some i
      → (x : FaxRunState) × (find_key i (put j v t.by_job) ≡ some x) × (x.call_uuid ≡ k) × (k ≢ 0)
  newly_current k i e nz same = (v, ground (arith, find_key-put j i v t.by_job), e, nz)

set_call-IsIndexed :
    (now j c : ℕ) (t : FaxTracker) → c ≢ 0 → IsIndexed t → IsIndexed (set_call now j c t)
unfolding set_call
set_call-IsIndexed now j c t nz ix = elim (Option-cases (find_key j t.by_job)) [
  | inl e ↦ rw (set_call, change, e) ix
  | inr (st, e) ↦
      let v = record st { call_uuid = c; updated_at = now } in
      rw (set_call, change, e)
        (record {
          current = λ k i found.
              let old = find_key-index_call c k j (forget_call st.call_uuid t.by_call) in
              let older = find_key-forget_call st.call_uuid k t.by_call in
              elim (Bool-cases (nat_eq c k)) [
                | inl same ↦ newly_current t ix j v k i (ground arith) (ground arith) (ground arith)
                | inr other ↦ elim (Bool-cases (nat_eq st.call_uuid k)) [
                  | inr fresh ↦ still_current t ix j v st k i e (ground arith) (ground arith)
                  | inl same ↦ elim (Bool-cases (nat_eq k 0)) [
                    | inr nil_no ↦ absurd (ground arith)
                    | inl nil_yes ↦
                        let found' : find_job_by_call k t ≡ some i = ground arith in
                        absurd ((ix.current k i found').3 (ground arith))
                  ]
                ]
              ];
        })
]

mark_attempt-IsIndexed :
    (now j c a m p : ℕ) (ty l v : String) (t : FaxTracker)
    → c ≢ 0
    → ((st : FaxRunState) → get j t ≡ some st → st.call_uuid ≡ c)
    → IsIndexed t
    → IsIndexed (mark_attempt now j c a m p ty l v t)
unfolding mark_attempt
mark_attempt-IsIndexed now j c a m p ty l v t nz same_call ix =
    elim (Option-cases (find_key j t.by_job)) [
      | inl e ↦ rw (mark_attempt, change, e) ix
      | inr (st, e) ↦
          rw (mark_attempt, change, e)
            (record {
              current = λ k i found.
                  let cur = same_call st e in
                  let old = find_key-put c k j t.by_call in
                  elim (Bool-cases (nat_eq c k)) [
                    | inl same ↦
                        newly_current t ix j _ k i (ground arith) (ground arith) (ground arith)
                    | inr other ↦ still_current t ix j _ st k i e (ground arith) (ground arith)
                  ];
            })
    ]

set_call-call :
    (now j c : ℕ) (t : FaxTracker) (st : FaxRunState)
    → get j (set_call now j c t) ≡ some st
    → st.call_uuid ≡ c
unfolding set_call
set_call-call now j c t st h = elim (Option-cases (find_key j t.by_job)) [
  | inl e ↦
      let h' = rw (set_call, change, e) at h in
      absurd (let h'' : find_key j t.by_job ≡ some st = h' in cc)
  | inr (old, e) ↦
      let v = record old { call_uuid = c; updated_at = now } in
      let h' : find_key j (put j v t.by_job) ≡ some st = rw (set_call, change, e) at h in
      let q = find_key-put j j v t.by_job in let r = beq_refl j in ground arith
]

next_attempt-IsIndexed :
    (now j c a m p : ℕ) (ty l v : String) (t : FaxTracker)
    → c ≢ 0
    → IsIndexed t
    → IsIndexed (next_attempt now j c a m p ty l v t)
unfolding next_attempt
next_attempt-IsIndexed now j c a m p ty l v t nz ix =
    mark_attempt-IsIndexed now j c a m p ty l v (set_call now j c t) nz (set_call-call now j c t)
      (set_call-IsIndexed now j c t nz ix)

begin_new-IsIndexed :
    (now : ℕ) (job : FaxJob) (t : FaxTracker)
    → get job.uuid t ≡ none
    → IsIndexed t
    → IsIndexed (begin now job t)
unfolding begin fresh_state
begin_new-IsIndexed now job t e ix =
    rw (begin, e)
      (record {
        current = λ k i found.
            let old = find_key-index_call job.call_uuid k job.uuid t.by_call in
            elim (Bool-cases (nat_eq job.call_uuid 0)) [
              | inl nil ↦ still_current_new t ix job.uuid (fresh_state now job) k i e (ground arith)
              | inr call ↦ elim (Bool-cases (nat_eq job.call_uuid k)) [
                | inl same ↦
                    newly_current t ix job.uuid (fresh_state now job) k i (ground arith)
                      (ground arith) (ground arith)
                | inr other ↦
                    still_current_new t ix job.uuid (fresh_state now job) k i e (ground arith)
              ]
            ];
      })

begin_again-IsIndexed :
    (now : ℕ) (job : FaxJob) (st : FaxRunState) (t : FaxTracker)
    → get job.uuid t ≡ some st
    → st.call_uuid ≡ job.call_uuid
    → IsIndexed t
    → IsIndexed (begin now job t)
unfolding begin refreshed_state
begin_again-IsIndexed now job st t e same_call ix =
    rw (begin, e)
      (record {
        current = λ k i found.
            let old = find_key-index_call job.call_uuid k job.uuid t.by_call in
            elim (Bool-cases (nat_eq job.call_uuid k)) [
              | inr other ↦
                  still_current t ix job.uuid (refreshed_state now job st) st k i e (ground arith)
                    (ground arith)
              | inl same ↦ elim (Bool-cases (nat_eq k 0)) [
                | inl nil ↦
                    let found' : find_job_by_call k t ≡ some i = ground arith in
                    absurd ((ix.current k i found').3 (ground arith))
                | inr call ↦
                    newly_current t ix job.uuid (refreshed_state now job st) k i (ground arith)
                      (ground arith) (ground arith)
              ]
            ];
      })

complete-IsIndexed : (j : ℕ) (t : FaxTracker) → IsIndexed t → IsIndexed (complete j t)
unfolding complete
complete-IsIndexed j t ix = elim (Option-cases (find_key j t.by_job)) [
  | inl e ↦ rw (complete, e) ix
  | inr (st, e) ↦ elim (Bool-cases (is_finished st.phase)) [
    | inl done ↦ rw (complete, e, done) ix
    | inr live ↦
        rw (complete, e, live)
          (record {
            current = λ k i found.
                let old = find_key-forget_call st.call_uuid k t.by_call in
                let found' : find_job_by_call k t ≡ some i = ground arith in
                let (x, gx, cx, nz) = ix.current k i found' in
                let gone = find_key-delete j i t.by_job in (x, ground arith, cx, nz);
          })
  ]
]

-- The calls that the queue and the receiver make: a job enters once, or again under the call that
-- it has; every attempt has a call that is not nil; jobs wait and are completed.
pub data Step : FaxTracker → FaxTracker → Type 0 where
  enters :
      (now : ℕ) (job : FaxJob) (t : FaxTracker) → get job.uuid t ≡ none → Step t (begin now job t)
  enters_again :
      (now : ℕ) (job : FaxJob) (st : FaxRunState) (t : FaxTracker)
      → get job.uuid t ≡ some st
      → st.call_uuid ≡ job.call_uuid
      → Step t (begin now job t)
  tries :
      (now j c a m p : ℕ) (ty l v : String) (t : FaxTracker)
      → c ≢ 0
      → Step t (next_attempt now j c a m p ty l v t)
  waits : (now j : ℕ) (t : FaxTracker) → Step t (mark_waiting now j t)
  receives : (now j : ℕ) (t : FaxTracker) → Step t (mark_receiving now j t)
  bridges : (now j : ℕ) (d g : String) (t : FaxTracker) → Step t (mark_bridging now j d g t)
  leaves : (j : ℕ) (t : FaxTracker) → Step t (complete j t)

pub data Reach (s : FaxTracker) : FaxTracker → Type 0 where
  here : Reach s s
  next : {t u : FaxTracker} → Reach s t → Step t u → Reach s u

-- A change that touches no call.
change-IsIndexed :
    (j : ℕ) (f : FaxRunState → FaxRunState) (t : FaxTracker)
    → ((st : FaxRunState) → (f st).call_uuid ≡ st.call_uuid)
    → IsIndexed t
    → IsIndexed (change j f (λ st m. m) t)
change-IsIndexed j f t same ix = elim (Option-cases (find_key j t.by_job)) [
  | inl e ↦ rw (change, e) ix
  | inr (st, e) ↦
      rw (change, e)
        (record {
          current = λ k i found.
              let (x, gx, cx, nz) = ix.current k i found in
              let q = find_key-put j i (f st) t.by_job in
              let r = same st in
              elim (Bool-cases (nat_eq j i)) [
                | inl own ↦ (f st, ground arith, ground arith, nz)
                | inr other ↦ (x, ground arith, cx, nz)
              ];
        })
]

Step-IsIndexed : {t u : FaxTracker} → Step t u → IsIndexed t → IsIndexed u
unfolding mark_waiting mark_receiving mark_bridging
Step-IsIndexed (enters now job t e) ix = begin_new-IsIndexed now job t e ix
Step-IsIndexed (enters_again now job st t e same) ix = begin_again-IsIndexed now job st t e same ix
Step-IsIndexed (tries now j c a m p ty l v t nz) ix =
    next_attempt-IsIndexed now j c a m p ty l v t nz ix
Step-IsIndexed (waits now j t) ix = change-IsIndexed j _ t (λ st. refl) ix
Step-IsIndexed (receives now j t) ix = change-IsIndexed j _ t (λ st. refl) ix
Step-IsIndexed (bridges now j d g t) ix = change-IsIndexed j _ t (λ st. refl) ix
Step-IsIndexed (leaves j t) ix = complete-IsIndexed j t ix

Reach-IsIndexed : {s t : FaxTracker} → IsIndexed s → Reach s t → IsIndexed t
Reach-IsIndexed ix here = ix
Reach-IsIndexed ix (next r st) = Step-IsIndexed st (Reach-IsIndexed ix r)

no_call : (c j : ℕ) → find_job_by_call c new_fax_tracker ≡ some j → ⊥
unfolding find_key
no_call c j h = cc

-- However jobs enter, enter again under the same call, are attempted under calls other than nil,
-- wait, receive, are bridged and complete, starting on a new tracker, FindJobByCall answers only
-- with a job that is tracked and whose current call is the one asked for.
pub find_job_by_call-current :
    (t : FaxTracker) (c j : ℕ)
    → Reach new_fax_tracker t
    → find_job_by_call c t ≡ some j
    → (st : FaxRunState) × (get j t ≡ some st) × (st.call_uuid ≡ c)
find_job_by_call-current t c j r found =
    let empty : IsIndexed new_fax_tracker = record { current = λ c j h. absurd (no_call c j h) } in
    let (st, g, e, nz) = (Reach-IsIndexed empty r).current c j found in (st, g, e)

begin-new :
    (now : ℕ) (job : FaxJob) (t : FaxTracker)
    → get job.uuid t ≡ none
    → (get job.uuid (begin now job t) ≡ some (fresh_state now job))
      × ((k : ℕ)
          → find_job_by_call k (begin now job t) ≡ (
              if job.call_uuid == 0
              then find_job_by_call k t
              else if job.call_uuid == k
              then some job.uuid
              else find_job_by_call k t))
unfolding begin
begin-new now job t e = (
  rw (begin, e)
      (find_key-put job.uuid job.uuid (fresh_state now job) t.by_job
        ∙ ground (arith, beq_refl job.uuid)),
  λ k. rw (begin, e) (find_key-index_call job.call_uuid k job.uuid t.by_call),
)

begin-old :
    (now : ℕ) (job : FaxJob) (st : FaxRunState) (t : FaxTracker)
    → get job.uuid t ≡ some st
    → (get job.uuid (begin now job t) ≡ some (refreshed_state now job st))
      × ((k : ℕ)
          → find_job_by_call k (begin now job t) ≡ (
              if job.call_uuid == 0
              then find_job_by_call k t
              else if job.call_uuid == k
              then some job.uuid
              else find_job_by_call k t))
unfolding begin
begin-old now job st t e = (
  rw (begin, e)
      (find_key-put job.uuid job.uuid (refreshed_state now job st) t.by_job
        ∙ ground (arith, beq_refl job.uuid)),
  λ k. rw (begin, e) (find_key-index_call job.call_uuid k job.uuid t.by_call),
)

complete-live :
    (j : ℕ) (st : FaxRunState) (t : FaxTracker)
    → get j t ≡ some st
    → is_finished st.phase ≡ false
    → (get j (complete j t) ≡ none)
      × ((k : ℕ)
          → find_job_by_call k (complete j t) ≡ (
              if st.call_uuid == 0
              then find_job_by_call k t
              else if st.call_uuid == k
              then none
              else find_job_by_call k t))
unfolding complete
complete-live j st t e live = (
  rw (complete, e, live) (find_key-delete j j t.by_job ∙ ground (arith, beq_refl j)),
  λ k. rw (complete, e, live) (find_key-forget_call st.call_uuid k t.by_call),
)

routed_again :
    (now : ℕ) (job : FaxJob) (st : FaxRunState)
    → is_finished (refreshed_state now job st).phase ≡ false
unfolding refreshed_state
routed_again now job st = refl

second_call :
    (now : ℕ) (job : FaxJob) (st : FaxRunState) (k : ℕ)
    → job.call_uuid ≢ k
    → (o : Option ℕ)
    → (if (refreshed_state now job st).call_uuid == 0
        then o
        else if (refreshed_state now job st).call_uuid == k
        then none
        else o)
      ≡ o
unfolding refreshed_state
second_call now job st k ne o = ground arith

-- A job that is not tracked, enters under one call and enters again under another leaves its first
-- call behind, if that is no nil UUID: after the job's completion FindJobByCall still answers the
-- first call with the job, which is tracked no longer.
pub begin_twice-stale :
    (now : ℕ) (job : FaxJob) (first second : ℕ) (t : FaxTracker)
    → get job.uuid t ≡ none
    → first ≢ 0
    → second ≢ first
    → (find_job_by_call first (
          complete job.uuid (
            begin now
              (record job { call_uuid = second })
              (begin now (record job { call_uuid = first }) t)))
        ≡ some job.uuid)
      × (get job.uuid (
            complete job.uuid (
              begin now
                (record job { call_uuid = second })
                (begin now (record job { call_uuid = first }) t)))
          ≡ none)
begin_twice-stale now job first second t e nz ne =
    let a = record job { call_uuid = first } in
    let b = record job { call_uuid = second } in
    let t1 = begin now a t in
    let t2 = begin now b t1 in
    let (g1, c1) = begin-new now a t e in
    let there : find_job_by_call first t1 ≡ some job.uuid =
      c1 first ∙ ground (arith, beq_refl first) in
    let (g2, c2) = begin-old now b (fresh_state now a) t1 g1 in
    let there' : find_job_by_call first t2 ≡ some job.uuid = c2 first ∙ ground (arith, there) in
    let (gone, c3) =
      complete-live job.uuid (refreshed_state now b (fresh_state now a)) t2 g2
        (routed_again now b (fresh_state now a)) in
    (
      c3 first
          ∙ second_call now b (fresh_state now a) first ne (find_job_by_call first t2)
          ∙ there',
      gone,
    )
