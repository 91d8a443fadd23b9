-- ===== src/Tracker/Others.antt =====
-- What the calls about one job leave of the others.
use gofaxserver.Prelude.{
  ℕ, String, ◌≡◌, refl, ◌∙◌, inl, inr, true, false, ◌==◌, Eq_nat, Eq_text, beq_refl, Option-cases,
  is_some,
}
use gofaxserver.Model.{FaxJob}
use gofaxserver.Prelude.Map.{put, find_key-put, find_key, Map}
use gofaxserver.Tracker.Count.{perform-IsCounted, IsCounted}
use gofaxserver.Tracker.{
  forget_call, index_call, refreshed_state, fresh_state, marks_waiting, marks_attempt, sets_call,
  change, get, perform, begin, mark_waiting, mark_attempt, set_call, FaxRunState, FaxTracker,
}

-- From `t` to `t'` the job `j` stays on the tracker, and the others are as they were.
pub record Touches (j : ℕ) (t t' : FaxTracker) : Type 0 where
  pub counted : IsCounted t → IsCounted t'
  pub tracked : is_some (get j t) ≡ true → is_some (get j t') ≡ true
  pub others : (k : ℕ) → (j == k) ≡ false → get k t' ≡ get k t

pub Touches-none : (j : ℕ) (t : FaxTracker) → Touches j t t
Touches-none j t = record { counted = λ c. c; tracked = λ e. e; others = λ k e. refl }

pub Touches-trans :
    (j : ℕ) (t t' t'' : FaxTracker) → Touches j t t' → Touches j t' t'' → Touches j t t''
Touches-trans j t t' t'' a b = record {
  counted = λ c. b.counted (a.counted c);
  tracked = λ e. b.tracked (a.tracked e);
  others = λ k e. b.others k e ∙ a.others k e;
}

change-tracked :
    (j : ℕ) (f : FaxRunState → FaxRunState) (g : FaxRunState → Map ℕ ℕ → Map ℕ ℕ) (t : FaxTracker)
    → is_some (get j t) ≡ true
    → is_some (get j (change j f g t)) ≡ true
change-tracked j f g t e = elim (Option-cases (get j t)) [
  | inl none_there ↦ (let e' : false ≡ true = rw none_there at e in cc)
  | inr (st, here) ↦ rw (change, here, find_key-put j j (f st) t.by_job, beq_refl j) refl
]

change-others :
    (j k : ℕ) (f : FaxRunState → FaxRunState) (g : FaxRunState → Map ℕ ℕ → Map ℕ ℕ) (t : FaxTracker)
    → (j == k) ≡ false
    → get k (change j f g t) ≡ get k t
change-others j k f g t other = elim (Option-cases (get j t)) [
  | inl none_there ↦ rw (change, none_there) refl
  | inr (st, here) ↦ rw (change, here, find_key-put j k (f st) t.by_job, other) refl
]

pub set_call-Touches : (now j c : ℕ) (t : FaxTracker) → Touches j t (set_call now j c t)
unfolding set_call perform
set_call-Touches now j c t = record {
  counted = perform-IsCounted now (sets_call j c) t;
  tracked = change-tracked j _ (λ st m. index_call c j (forget_call st.call_uuid m)) t;
  others = λ k. change-others j k _ (λ st m. index_call c j (forget_call st.call_uuid m)) t;
}

pub mark_attempt-Touches :
    (now j c a m p : ℕ) (ty l v : String) (t : FaxTracker)
    → Touches j t (mark_attempt now j c a m p ty l v t)
unfolding mark_attempt perform
mark_attempt-Touches now j c a m p ty l v t = record {
  counted = perform-IsCounted now (marks_attempt j c a m p ty l v) t;
  tracked = change-tracked j _ (λ st m. put c j m) t;
  others = λ k. change-others j k _ (λ st m. put c j m) t;
}

pub mark_waiting-Touches : (now j : ℕ) (t : FaxTracker) → Touches j t (mark_waiting now j t)
unfolding mark_waiting perform
mark_waiting-Touches now j t = record {
  counted = perform-IsCounted now (marks_waiting j) t;
  tracked = change-tracked j _ (λ st m. m) t;
  others = λ k. change-others j k _ (λ st m. m) t;
}

pub begin-tracked :
    (now : ℕ) (job : FaxJob) (t : FaxTracker) → is_some (get job.uuid (begin now job t)) ≡ true
unfolding begin
begin-tracked now job t = elim (Option-cases (find_key job.uuid t.by_job)) [
  | inl e ↦
      rw (begin, e)
        (rw (find_key-put job.uuid job.uuid (fresh_state now job) t.by_job, beq_refl job.uuid) refl)
  | inr (st, e) ↦
      rw (begin, e)
        (rw
          (find_key-put job.uuid job.uuid (refreshed_state now job st) t.by_job, beq_refl job.uuid)
          refl)
]

pub begin-others :
    (now : ℕ) (job : FaxJob) (t : FaxTracker) (k : ℕ)
    → (job.uuid == k) ≡ false
    → get k (begin now job t) ≡ get k t
unfolding begin
begin-others now job t k other = elim (Option-cases (find_key job.uuid t.by_job)) [
  | inl e ↦ rw (begin, e) (rw (find_key-put job.uuid k (fresh_state now job) t.by_job, other) refl)
  | inr (st, e) ↦
      rw (begin, e) (rw (find_key-put job.uuid k (refreshed_state now job st) t.by_job, other) refl)
]
