-- ===== src/Queue/Delivery/Steps.antt =====
-- What every step of a delivery has, the whole delivery has: the induction over attempts, endpoints
-- and priorities, once for all.
use gofaxserver.Prelude.{
  ℕ, String, ◌≡◌, refl, inl, inr, Bool, true, false, ◌&&◌, ◌||◌, some, List, [], ◌∷◌, ◌==◌, Eq_nat,
  Eq_text, Bool-cases, is_empty,
}
use gofaxserver.Prelude.Map.{or_nil, find_key}
use gofaxserver.Prelude.Text.{join_comma, trim_right_slash, before_colon}
use gofaxserver.Queue.Groups.{sorted_prios, is_global_upstream_gateway_group, PrioMap}
use gofaxserver.Queue.Outside.{FaxJobWithFile, base_delay, max_delay, max_attempts}
use gofaxserver.Queue.Retry.{retry_with_backoff_rel}
use gofaxserver.Model.{Endpoint, blank_result, FaxJob}
use gofaxserver.Queue.Delivery.{
  deliver_type, gateway_prios, resolve_url, target, webhook_payload, webhook_prios, webhook_group,
  webhook_single, gateway_group, gateway_single, gateway_batch, with_retries, deliver_each,
}
use gofaxserver.Queue.Attempts.{gateway_attempt, webhook_attempt, Target, Attempting, pause, draw}
use gofaxserver.Queue.Outside.{QueueState, QueueConfig, Outside}

-- A relation between the states before and after a delivery and its outcome, which single steps of
-- a job have, and which goes through failures.
pub record Follows (o : Outside) (c : QueueConfig) (job_id : ℕ)
    (R : Bool → QueueState o → QueueState o → Type 0) : Type 0 where
  pub idle : (w : o.World) (s : QueueState o) → R false s (record s { world = w })
  pub compose : (ok : Bool) (s s' s'' : QueueState o) → R false s s' → R ok s' s'' → R ok s s''
  pub sends :
      (t : Target) (n : ℕ) (a : Attempting o c)
      → t.job_id ≡ job_id
      → let r = gateway_attempt o c t n a in R r.0.0 a.1 r.1.1
  pub posts :
      (t : Target) (url : String) (payload : FaxJobWithFile) (n : ℕ) (a : Attempting o c)
      → t.job_id ≡ job_id
      → let r = webhook_attempt o c t url payload n a in R r.0.0 a.1 r.1.1
  pub waits : (d : ℕ) (a : Attempting o c) → R false a.1 (pause o c job_id d a).1

module _ (o : Outside) (c : QueueConfig) (f : FaxJob)
    (R : Bool → QueueState o → QueueState o → Type 0) (h : Follows o c f.uuid R) where
  unmoved : (s : QueueState o) → R false s s
  unmoved s = h.idle s.world s

  deliver_each-Follows :
      {A : Type 0} (try : A → QueueState o → Bool × QueueState o)
      → ((a : A) (s : QueueState o) → R (try a s).0 s (try a s).1)
      → (xs : List A) (s : QueueState o) → R (deliver_each try xs s).0 s (deliver_each try xs s).1
  unfolding deliver_each
  deliver_each-Follows try tries [] s = unmoved s
  deliver_each-Follows try tries (x ∷ xs) s =
      let (ok, s') = try x s in
      let first = tries x s in
      elim (Bool-cases ok) [
        | inl good ↦ rw good (rw good at first)
        | inr bad ↦
            let rest = deliver_each try xs s' in
            rw bad (
              h.compose rest.0 s s' rest.1 (rw bad at first) (deliver_each-Follows try tries xs s'))
      ]

  with_retries-Follows :
      (fn : ℕ → Attempting o c → (Bool × Bool) × Attempting o c) (ff : FaxJob) (s : QueueState o)
      → ((n : ℕ) (a : Attempting o c) → R (fn n a).0.0 a.1 (fn n a).1.1)
      → let r = with_retries o c f.uuid fn ff s in R r.0 s r.1
  unfolding draw
  with_retries-Follows fn ff s each =
      retry_with_backoff_rel fn (draw o c) (pause o c f.uuid) (max_attempts c) max_delay
        (λ ok a a'. R ok a.1 a'.1) (λ a. unmoved a.1) (λ ok a a' a''. h.compose ok a.1 a'.1 a''.1)
        each (λ n a. h.idle (draw o c n a).1.1.world a.1) h.waits (base_delay c) (ff, s)

  gateway_batch-Follows :
      (prio : ℕ) (s : QueueState o) → let r = gateway_batch o c f prio s in R r.0 s r.1
  unfolding gateway_batch
  gateway_batch-Follows prio s =
      let ff = record f { result = some blank_result } in
      let t : Target = record {
        job_id = f.uuid;
        prio = prio;
        ep_type = "gateway";
        ep_label = "global";
        ep_value = join_comma c.upstreams;
      } in
      elim (Bool-cases (o.enables_bridge f s.world)) [
        | inl shot ↦ rw shot (h.sends t 0 (ff, s) refl)
        | inr tried ↦
            rw tried (with_retries-Follows (gateway_attempt o c t) ff s (λ n a. h.sends t n a refl))
      ]

  gateway_single-Follows :
      (prio : ℕ) (ep : Endpoint) (s : QueueState o)
      → let r = gateway_single o c f prio ep s in R r.0 s r.1
  unfolding gateway_single target
  gateway_single-Follows prio ep s =
      let ff = record f {
        endpoints = ep ∷ [];
        result = some blank_result;
        gateway = before_colon ep.endpoint;
      } in
      let t = target f prio ep in
      with_retries-Follows (gateway_attempt o c t) ff s (λ n a. h.sends t n a refl)

  pub gateway_group-Follows :
      (prio : ℕ) (group : List Endpoint) (s : QueueState o)
      → let r = gateway_group o c f prio group s in R r.0 s r.1
  unfolding gateway_group
  gateway_group-Follows prio group s = elim (Bool-cases (is_global_upstream_gateway_group group)) [
    | inl batch ↦ rw batch (gateway_batch-Follows prio s)
    | inr split ↦
        rw split
          (deliver_each-Follows (gateway_single o c f prio) (gateway_single-Follows prio) group s)
  ]

  webhook_single-Follows :
      (prio : ℕ) (ep_type file : String) (ep : Endpoint) (s : QueueState o)
      → let r = webhook_single o c f prio ep_type file ep s in R r.0 s r.1
  unfolding webhook_single target
  webhook_single-Follows prio ep_type file ep s =
      let payload = webhook_payload f ep file in
      let t = target f prio ep in
      let url = resolve_url c ep_type ep in
      with_retries-Follows (webhook_attempt o c t url payload) payload.job s
        (λ n a. h.posts t url payload n a refl)

  pub webhook_group-Follows :
      (ep_type : String) (prio : ℕ) (group : List Endpoint) (s : QueueState o)
      → let r = webhook_group o c f ep_type prio group s in R r.0 s r.1
  unfolding webhook_group
  webhook_group-Follows ep_type prio group s =
      let (file, w) = o.prepare f.file_name s.world in
      let s' = record s { world = w } in
      let send = webhook_single o c f prio ep_type file in
      let sent = deliver_each send group s' in
      elim (Bool-cases (ep_type == "portal" && trim_right_slash c.portal_url == "")) [
        | inl unset ↦ rw unset (unmoved s)
        | inr set ↦ rw set (
            h.compose sent.0 s s' sent.1 (h.idle w s)
              (deliver_each-Follows send (webhook_single-Follows prio ep_type file) group s'))
      ]

  -- The worker of the webhooks, or of the portals.
  pub webhook_prios-Follows :
      (ep_type : String) (m : PrioMap) (prios : List ℕ) (s : QueueState o)
      → (ok : Bool) × R ok s (webhook_prios o c f ep_type m prios s)
  unfolding webhook_prios
  webhook_prios-Follows ep_type m [] s = (false, unmoved s)
  webhook_prios-Follows ep_type m (prio ∷ prios) s =
      let group = or_nil (find_key prio m) in
      let sent = webhook_group o c f ep_type prio group s in
      let here = webhook_group-Follows ep_type prio group s in
      elim (Bool-cases (is_empty group)) [
        | inl empty ↦ rw empty (webhook_prios-Follows ep_type m prios s)
        | inr full ↦ elim (Bool-cases sent.0) [
          | inl ok ↦ rw (full, ok) (true, rw ok at here)
          | inr bad ↦
              let (ok, rest) = webhook_prios-Follows ep_type m prios sent.1 in
              let end = webhook_prios o c f ep_type m prios sent.1 in
              rw (full, bad) (ok, h.compose ok s sent.1 end (rw bad at here) rest)
        ]
      ]

-- What holds whatever the outcome goes through the workers of all endpoint types.
module _ (o : Outside) (c : QueueConfig) (f : FaxJob) (R : QueueState o → QueueState o → Type 0)
    (h : Follows o c f.uuid (λ _. R)) where
  gateway_prios-Follows :
      (m : PrioMap) (prios : List ℕ) (s : QueueState o) → R s (gateway_prios o c f m prios s)
  unfolding gateway_prios
  gateway_prios-Follows m [] s = h.idle s.world s
  gateway_prios-Follows m (prio ∷ prios) s =
      let group = or_nil (find_key prio m) in
      let sent = (gateway_group o c f prio group s).1 in
      elim (Bool-cases (is_empty group)) [
        | inl empty ↦ rw empty (gateway_prios-Follows m prios s)
        | inr full ↦ rw full (
            h.compose true s sent (gateway_prios o c f m prios sent)
              (gateway_group-Follows o c f (λ _. R) h prio group s)
              (gateway_prios-Follows m prios sent))
      ]

  pub deliver_type-Follows :
      (ep_type : String) (m : PrioMap) (s : QueueState o) → R s (deliver_type o c f ep_type m s)
  unfolding deliver_type
  deliver_type-Follows ep_type m s = elim (Bool-cases (ep_type == "gateway")) [
    | inl gateway ↦ rw gateway (gateway_prios-Follows m (sorted_prios m) s)
    | inr other ↦ elim (Bool-cases (ep_type == "webhook" || ep_type == "portal")) [
      | inl posted ↦
          rw (other, posted) (webhook_prios-Follows o c f (λ _. R) h ep_type m (sorted_prios m) s).1
      | inr unknown ↦ rw (other, unknown) (h.idle s.world s)
    ]
  ]
