-- ===== src/Notify/Payload/Choice.antt =====
-- Which attempt the portal is told of.
use gofaxserver.Prelude.{
  ℕ, ◌≤◌, ◌≡◌, refl, sym, ap, ◌∙◌, subst, inl, inr, Bool, true, false, ◌&&◌, ◌||◌, not, Option,
  none, some, [], ◌∷◌, arith, ltb, if◌then◌else◌, ◌==◌, Eq_nat, Eq_text, Bool-cases, Option-cases,
  is_some,
}
use gofaxserver.Queue.Process.Whole.{Reports}
use gofaxserver.Queue.Outside.{Notification}
use gofaxserver.Queue.Process.{is_placeholder_result, compute_all_attempts_failed, any_success}
use gofaxserver.Queue.Attempts.{succeeded}
use gofaxserver.Notify.Payload.{
  instead, chosen, or_blank, build_portal_status_payload, nothing_yet, note_result, later, first_or,
  Collapse, is_call_outcome, collapse_results, note_attempt,
}
use gofaxserver.Prelude.Map.{Map}
use gofaxserver.Model.{FaxResult, FaxJob}

-- Whether a job with a result is the outcome of the call.
abbrev is_call : FaxJob → Bool
is_call job = is_some job.result && is_call_outcome job.endpoints

abbrev pub any_call : Map ℕ FaxJob → Bool
any_call [] = false
any_call ((_, job) ∷ results) = is_call job || any_call results

-- What a job's result, if there is one, says of its success.
abbrev Says : Bool → Option FaxResult → Type 0
Says b none = Unit
Says b (some r) = r.success ≡ b

-- Every outcome of the call says the same.
abbrev pub CallsSay : Bool → Map ℕ FaxJob → Type 0
CallsSay b [] = Unit
CallsSay b ((_, job) ∷ results) =
    (is_call job ≡ true → succeeded job.result ≡ b) × CallsSay b results

abbrev Within : ℕ → ℕ → Option FaxResult → Type 0
Within sent total none = Unit
Within sent total (some r) = (r.transferred_pages ≤ sent) × (r.total_pages ≤ total)

-- The pages of each attempt are within these bounds.
abbrev pub PagesWithin : ℕ → ℕ → Map ℕ FaxJob → Type 0
PagesWithin sent total [] = Unit
PagesWithin sent total ((_, job) ∷ results) =
    Within sent total job.result × PagesWithin sent total results

record Collapsed (b : Bool) (results : Map ℕ FaxJob) (c d : Collapse) : Type 0 where
  calls : is_some d.call_job ≡ (is_some c.call_job || any_call results)
  call_says : Says b d.call_job
  successes : is_some d.success_job ≡ (is_some c.success_job || any_success results)
  success_says : Says true d.success_job
  last_says : any_success results ≡ false → Says false c.last_job → Says false d.last_job
  grown : (c.transferred ≤ d.transferred) × (c.total ≤ d.total)
  pages : PagesWithin d.transferred d.total results

first_or-Says :
    (o : Option FaxResult) (b t : Bool) (r : FaxResult)
    → Says t o
    → (b ≡ true → r.success ≡ t)
    → Says t (first_or o b r)
first_or-Says (some old) b t r h k = h
first_or-Says none true t r h k = k refl
first_or-Says none false t r h k = tt

first_or-is_some :
    (o : Option FaxResult) (b : Bool) (r : FaxResult) → is_some (first_or o b r) ≡ (is_some o || b)
first_or-is_some (some old) b r = refl
first_or-is_some none true r = refl
first_or-is_some none false r = refl

later-Says :
    (o : Option FaxResult) (r : FaxResult)
    → r.success ≡ false
    → Says false o
    → Says false (later o r)
later-Says none r h k = h
later-Says (some old) r h k = elim (Bool-cases (ltb old.end_ts r.end_ts)) [
  | inl e ↦ rw e h
  | inr e ↦ rw e k
]

or_assoc : (a b c : Bool) → ((a || b) || c) ≡ (a || (b || c))
or_assoc true b c = refl
or_assoc false b c = refl

-- An attempt without a result counts for nothing.
Collapsed-skip :
    (b : Bool) (k : ℕ) (job : FaxJob) (results : Map ℕ FaxJob) (c d : Collapse)
    → job.result ≡ none
    → Collapsed b results c d
    → Collapsed b ((k, job) ∷ results) c d
Collapsed-skip b k job results c d e h = record {
  calls = rw e h.calls;
  call_says = h.call_says;
  successes = rw e h.successes;
  success_says = h.success_says;
  last_says = λ none_left. h.last_says (rw e at none_left);
  grown = h.grown;
  pages = (rw e tt, h.pages);
}

Collapsed-note :
    (b : Bool) (k : ℕ) (job : FaxJob) (r : FaxResult) (results : Map ℕ FaxJob) (c d : Collapse)
    → job.result ≡ some r
    → Collapsed b results (note_attempt job r c) d
    → Collapsed b ((k, job) ∷ results) c d
unfolding note_attempt
Collapsed-note b k job r results c d e h =
    let call = is_call_outcome job.endpoints in
    record {
      calls = rw e (
          h.calls
          ∙ ap (λ x. x || any_call results) (first_or-is_some c.call_job call r)
          ∙ or_assoc (is_some c.call_job) call (any_call results));
      call_says = h.call_says;
      successes = rw e (
          h.successes
          ∙ ap (λ x. x || any_success results) (first_or-is_some c.success_job r.success r)
          ∙ or_assoc (is_some c.success_job) r.success (any_success results));
      success_says = h.success_says;
      last_says = λ none_left before.
          let left : (r.success || any_success results) ≡ false = rw e at none_left in
          h.last_says (ground (arith, left))
            (later-Says c.last_job r (ground (arith, left)) before);
      grown = (ground (arith, h.grown), ground (arith, h.grown));
      pages = (rw e (ground (arith, h.grown), ground (arith, h.grown)), h.pages);
    }

collapse-Collapsed :
    (b : Bool) (results : Map ℕ FaxJob) (c : Collapse)
    → CallsSay b results
    → Says b c.call_job
    → Says true c.success_job
    → Collapsed b results c (collapse_results results c)
unfolding collapse_results
collapse-Collapsed b [] c h call success = record {
  calls = ground arith;
  call_says = call;
  successes = ground arith;
  success_says = success;
  last_says = λ e k. k;
  grown = (omega arith, omega arith);
  pages = tt;
}
collapse-Collapsed b ((k, job) ∷ results) c (h, hs) call success = elim (Option-cases job.result) [
  | inl e ↦
      let rest = collapse-Collapsed b results c hs call success in
      let d = collapse_results results c in
      subst
        (λ o. Collapsed b ((k, job) ∷ results) c (collapse_results results (note_result job o c)))
        (sym e) (Collapsed-skip b k job results c d e rest)
  | inr (r, e) ↦
      let first : is_call_outcome job.endpoints ≡ true → r.success ≡ b = rw e at h in
      let c' = note_attempt job r c in
      let d = collapse_results results c' in
      let rest =
        collapse-Collapsed b results c' hs
          (first_or-Says c.call_job (is_call_outcome job.endpoints) b r call first)
          (first_or-Says c.success_job r.success true r success (λ t. t)) in
      subst
        (λ o. Collapsed b ((k, job) ∷ results) c (collapse_results results (note_result job o c)))
        (sym e) (Collapsed-note b k job r results c d e rest)
]

choice-success :
    (call success last : Option FaxResult) (a s b : Bool)
    → is_some call ≡ a
    → Says b call
    → is_some success ≡ s
    → Says true success
    → (s ≡ false → Says false last)
    → (or_blank (instead call (instead success last))).success ≡ (if a then b else s)
choice-success (some r) success last a s b ea says es says' left = rw (sym ea) says
choice-success none (some r) last a s b ea says es says' left = rw (sym ea, sym es) says'
choice-success none none (some r) a s b ea says es says' left = rw (sym ea, sym es) (left (sym es))
choice-success none none none a s b ea says es says' left = rw (sym ea, sym es) refl

chosen-success :
    (b : Bool) (results : Map ℕ FaxJob) (d : Collapse)
    → Collapsed b results nothing_yet d
    → (or_blank (chosen d)).success ≡ (if any_call results then b else any_success results)
chosen-success b results d h =
    choice-success d.call_job d.success_job d.last_job (any_call results) (any_success results) b
      h.calls h.call_says h.successes h.success_says (λ e. h.last_says e tt)

-- The portal is told the success of the call itself where one attempt stands for it, if all that do
-- agree, and else whether any attempt was successful, in whichever order the attempts are looked at;
-- and the pages it is told are at least those of each attempt.
pub payload-success :
    (n : Notification) (b : Bool)
    → CallsSay b n.results
    → let p = build_portal_status_payload n in
      (p.success ≡ (if any_call n.results then b else any_success n.results))
      × PagesWithin p.transferred_pages p.total_pages n.results
unfolding build_portal_status_payload
payload-success n b h =
    let d = collapse_results n.results nothing_yet in
    let c = collapse-Collapsed b n.results nothing_yet h tt tt in
    (chosen-success b n.results d c, c.pages)

if_not : (c a b : Bool) → (if c then a else b) ≡ not (if c then not a else not b)
if_not c a b = ground arith

-- What the portal is told and what gates the mails about failures do not contradict each other: for a
-- notification whose results hold an outcome of the call just if the job is a received fax with a
-- result of its own, and where these outcomes say what that result says, the payload reports success
-- just if not all attempts failed.
pub payload-agrees :
    (f : FaxJob) (n : Notification)
    → Reports f n
    → CallsSay (succeeded f.result) n.results
    → any_call n.results ≡ (
        is_some f.result
        && not f.is_bridge
        && f.source_info.source_type == "gateway"
        && not (is_placeholder_result f))
    → (build_portal_status_payload n).success ≡ not n.all_attempts_failed
unfolding compute_all_attempts_failed
payload-agrees f n (job, failed, bridged) say calls =
    (payload-success n (succeeded f.result) say).0
    ∙ rw (failed, compute_all_attempts_failed, calls)
        (if_not
          (is_some f.result
            && not f.is_bridge
            && f.source_info.source_type == "gateway"
            && not (is_placeholder_result f))
          (succeeded f.result) (any_success n.results))
