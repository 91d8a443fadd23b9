-- ===== src/Tests/Tracker.antt =====
-- The tracker on concrete jobs.
use gofaxserver.Prelude.{ℕ, ◌≡◌, refl, none, some, List, [], ◌∷◌, Eq_text, length}
use gofaxserver.Tracker.Calls.{enters, here, next, find_job_by_call-current}
use gofaxserver.Prelude.Map.{put, find_key}
use gofaxserver.Tracker.Count.{active_count-run, perform-IsCounted, IsCounted}
use gofaxserver.Tracker.{
  find_job_by_call, fresh_state, snapshot, completes, active_count, new_fax_tracker, run, begins,
  FaxRunState, get, begin, perform, FaxTracker, Call,
}
use gofaxserver.Model.{blank_job, FaxJob}

abbrev job : FaxJob
job = record blank_job { uuid = 1; call_uuid = 10 }

abbrev calls : List (ℕ × Call)
calls =
    (1, begins job)
    ∷ (2, begins (record job { uuid = 2; call_uuid = 20 }))
    ∷ (3, begins job)
    ∷ (4, completes 2)
    ∷ (5, completes 2)
    ∷ []

active_count-run_example :
    IsCounted (run calls new_fax_tracker)
    × (active_count (run calls new_fax_tracker) ≡ length (snapshot (run calls new_fax_tracker)))
active_count-run_example = active_count-run calls

empty_IsCounted : IsCounted new_fax_tracker
unfolding find_key
empty_IsCounted = record { unique = tt; counted = refl; running_jobs = tt }

abbrev one : FaxTracker
one = begin 1 job new_fax_tracker

one-IsCounted : IsCounted one
unfolding perform
one-IsCounted = perform-IsCounted 1 (begins job) new_fax_tracker empty_IsCounted

one_tracked : get 1 one ≡ some (fresh_state 1 job)
unfolding begin find_key put
one_tracked = refl

not_yet : get 1 new_fax_tracker ≡ none
unfolding find_key
not_yet = refl

found_one : find_job_by_call 10 one ≡ some 1
unfolding begin find_key put
found_one = refl

find_job_by_call-current_example : (st : FaxRunState) × (get 1 one ≡ some st) × (st.call_uuid ≡ 10)
find_job_by_call-current_example =
    find_job_by_call-current one 10 1 (next here (enters 1 job new_fax_tracker not_yet)) found_one
