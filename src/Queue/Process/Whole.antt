-- ===== src/Queue/Process/Whole.antt =====
-- What processFax does as a whole: to the tracker, on the results channel, and as notifications.
use gofaxserver.Prelude.{
  ℕ, ◌≤◌, ◌≡◌, refl, sym, ap, ◌∙◌, subst, inl, inr, true, false, none, List, [], ◌∷◌, ◌++◌, arith,
  if◌then◌else◌, ◌==◌, Eq_nat, Eq_text, Bool-cases, Option-cases, length, is_some, All,
}
use gofaxserver.Registry.{Registry}
use gofaxserver.Notify.{process_notify_destinations}
use Prim.Native.Char.{Char}
use mathlib.Core.List.{append-nil}
use gofaxserver.Queue.Process.Effects.{Quiet-Follows, Quiet, Tracks-Follows, Tracks}
use gofaxserver.Tracker.Others.{begin-others, begin-tracked, Touches}
use gofaxserver.Queue.Delivery.{deliver_type}
use gofaxserver.Queue.Groups.{group_endpoints, GroupMap}
use gofaxserver.Tracker.Count.{perform-IsCounted, get-complete, complete-IsCounted, IsCounted}
use gofaxserver.Queue.Delivery.Steps.{deliver_type-Follows, Follows}
use gofaxserver.Tracker.{begins, begin, get, perform, complete, FaxTracker}
use gofaxserver.Model.{FaxJob}
use gofaxserver.Queue.Outside.{Notification, QueueState, QueueConfig, Outside}
use gofaxserver.Queue.Process.{
  compute_all_attempts_failed, snapshot_call_outcome, is_zero_page_failure, deliver_types,
  process_fax, finish, settle,
}

-- What a notification says of the job.
abbrev pub Reports : FaxJob → Notification → Type 0
Reports f n =
    (n.job ≡ f)
    × (n.all_attempts_failed ≡ compute_all_attempts_failed f n.results)
    × (f.is_bridge ≡ true → n.destinations ≡ [])

-- How many notifications a job may have.
abbrev pub most : FaxJob → ℕ
most f = if is_zero_page_failure f then 0 else 1

process-bridged :
    (lower : Char → Char) (f : FaxJob) (g : Registry)
    → f.is_bridge ≡ true
    → process_notify_destinations lower f g ≡ []
unfolding process_notify_destinations
process-bridged lower f g bridged = rw bridged refl

settle-uuid : (f : FaxJob) → (settle f).uuid ≡ f.uuid
unfolding settle
settle-uuid f = ground arith

module _ (o : Outside) (c : QueueConfig) (f : FaxJob) (R : QueueState o → QueueState o → Type 0)
    (h : Follows o c f.uuid (λ _. R)) where
  deliver_types-Follows :
      (groups : GroupMap) (s : QueueState o) → R s (deliver_types o c f groups s)
  unfolding deliver_types
  deliver_types-Follows [] s = h.idle s.world s
  deliver_types-Follows ((ep_type, m) ∷ groups) s =
      let s' = deliver_type o c f ep_type m s in
      h.compose true s s' (deliver_types o c f groups s')
        (deliver_type-Follows o c f R h ep_type m s) (deliver_types-Follows groups s')

module _ (o : Outside) (c : QueueConfig) where
  finish-tracker :
      (f : FaxJob) (s : QueueState o) → (finish o c f s).tracker ≡ complete f.uuid s.tracker
  unfolding finish
  finish-tracker f s = elim (Bool-cases (is_zero_page_failure f)) [
    | inl zero_page ↦ rw zero_page refl
    | inr other ↦ rw other refl
  ]

  complete_tracked :
      (j : ℕ) (t0 t : FaxTracker)
      → IsCounted t
      → is_some (get j t) ≡ true
      → ((k : ℕ) → (j == k) ≡ false → get k t ≡ get k t0)
      → IsCounted (complete j t)
        × ((k : ℕ) → get k (complete j t) ≡ (if j == k then none else get k t0))
  complete_tracked j t0 t c here others = elim (Option-cases (get j t)) [
    | inl gone ↦ (let e : false ≡ true = rw gone at here in absurd cc)
    | inr (st, e) ↦ (
      complete-IsCounted j t c,
      λ k. elim (Bool-cases (j == k)) [
        | inl same ↦ rw (get-complete j k st t c e, same) refl
        | inr other ↦ rw (get-complete j k st t c e, other) (others k other)
      ],
    )
  ]

  -- On a tracker that counts its jobs rightly, once a job has been processed it is no longer on the
  -- tracker, every other job has the state that it had, and the counter is right again, whatever
  -- the job's endpoints, results and settings.
  pub process_fax-untracked :
      (f : FaxJob) (s : QueueState o)
      → IsCounted s.tracker
      → IsCounted (process_fax o c f s).tracker
        × ((k : ℕ)
            → get k (process_fax o c f s).tracker ≡ (if f.uuid == k then none else get k s.tracker))
  unfolding process_fax perform
  process_fax-untracked f s counted =
      let (time, w) = o.now s.world in
      let f' = settle f in
      let groups = if f.notify_only then [] else group_endpoints f.endpoints in
      let s1 : QueueState o = record s {
        world = w;
        tracker = begin time f s.tracker;
        outcomes = snapshot_call_outcome f' [];
      } in
      let s2 = deliver_types o c f' groups s1 in
      let touched : Touches f.uuid s1.tracker s2.tracker =
        subst (λ j. Touches j s1.tracker s2.tracker) (settle-uuid f)
          (deliver_types-Follows o c f' (Tracks o c f') (Tracks-Follows o c f') groups s1) in
      let Left : ℕ → Type 0 = λ j.
        IsCounted (complete j s2.tracker)
        × ((k : ℕ)
            → get k (complete j s2.tracker) ≡ (if f.uuid == k then none else get k s.tracker)) in
      rw (finish-tracker f' s2) (
        subst Left (sym (settle-uuid f)) (
          complete_tracked f.uuid s.tracker s2.tracker
            (touched.counted (perform-IsCounted time (begins f) s.tracker counted))
            (touched.tracked (begin-tracked time f s.tracker))
            (λ k e. touched.others k e ∙ begin-others time f s.tracker k e)))

  finish-results : (f : FaxJob) (s : QueueState o) → (finish o c f s).results ≡ s.results
  unfolding finish
  finish-results f s = elim (Bool-cases (is_zero_page_failure f)) [
    | inl zero_page ↦ rw zero_page refl
    | inr other ↦ rw other refl
  ]

  -- A job that is only notified puts nothing on the results channel, whatever endpoints it has.
  pub process_fax-notify_only :
      (f : FaxJob) (s : QueueState o)
      → f.notify_only ≡ true
      → (process_fax o c f s).results ≡ s.results
  unfolding process_fax deliver_types
  process_fax-notify_only f s only =
      let (time, w) = o.now s.world in
      let s1 : QueueState o = record s {
        world = w;
        tracker = begin time f s.tracker;
        outcomes = snapshot_call_outcome (settle f) [];
      } in
      let idle : (if f.notify_only then [] else group_endpoints f.endpoints) ≡ [] =
        ap (λ b. if b then [] else group_endpoints f.endpoints) only in
      rw idle (finish-results (settle f) s1)

  finish-notified :
      (f : FaxJob) (s : QueueState o)
      → (new : List Notification) × ((finish o c f s).notified ≡ s.notified ++ new)
        × (length new ≤ most f)
        × All (Reports f) new
  unfolding finish
  finish-notified f s = elim (Bool-cases (is_zero_page_failure f)) [
    | inl zero_page ↦ rw zero_page ([], sym (append-nil s.notified), omega arith, tt)
    | inr other ↦
        let note : Notification = record {
          job = f;
          results = s.outcomes;
          all_attempts_failed = compute_all_attempts_failed f s.outcomes;
          destinations = process_notify_destinations o.lower f (o.registry s.world);
        } in
        rw other (
          note ∷ [],
          refl,
          omega arith,
          ((refl, refl, process-bridged o.lower f (o.registry s.world)), tt),
        )
  ]

  -- Processing a job sends at most one notification, and none for a reception that failed without a
  -- page; the notification is about the job as the notify-only step leaves it, its flag is the one
  -- computed from the outcomes that it lists, and it has no destination where the job is bridged.
  pub process_fax-notified :
      (f : FaxJob) (s : QueueState o)
      → (new : List Notification) × ((process_fax o c f s).notified ≡ s.notified ++ new)
        × (length new ≤ most (settle f))
        × All (Reports (settle f)) new
  unfolding process_fax
  process_fax-notified f s =
      let (time, w) = o.now s.world in
      let f' = settle f in
      let groups = if f.notify_only then [] else group_endpoints f.endpoints in
      let s1 : QueueState o = record s {
        world = w;
        tracker = begin time f s.tracker;
        outcomes = snapshot_call_outcome f' [];
      } in
      let quiet = deliver_types-Follows o c f' (Quiet o c f') (Quiet-Follows o c f') groups s1 in
      let (new, e, few, reports) = finish-notified f' (deliver_types o c f' groups s1) in
      (new, e ∙ ap (λ l. l ++ new) quiet, few, reports)
