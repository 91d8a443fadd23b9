-- ===== src/Queue/Delivery/Outcome.antt =====
-- What a delivery leaves on the channel of results: whatever the number of its attempts, no result
-- but the last is a success, and the last is one exactly if the delivery says so.
use gofaxserver.Prelude.{
  ℕ, String, ◌≡◌, refl, sym, ap, ◌∙◌, inl, inr, Bool, true, false, ◌&&◌, not, List, [], ◌∷◌, ◌++◌,
  ltb, leb, ◌==◌, Eq_nat, Eq_text, Bool-cases, All, All-append,
}
use gofaxserver.Policy.Signature.{escalate_retry_chain}
use gofaxserver.Queue.Attempts.{
  with_cause, gateway_answer, webhook_answer, Attempting, Target, start_attempt, stamped,
  webhook_attempt, gateway_attempt, stamp_and_send, succeeded,
}
use gofaxserver.Queue.Outside.{
  no_request, no_response, status, SendOutcome, HttpOutcome, FaxJobWithFile, QueueState,
  QueueConfig, Outside,
}
use gofaxserver.Model.{FaxJob}
use Prim.Native.String
use mathlib.Core.List.{append-nil, append_assoc}

abbrev is_success : FaxJob → Bool
is_success ff = succeeded ff.result

-- The results of a delivery that returns `ok`.
abbrev pub Shape : Bool → List FaxJob → Type 0
Shape false new = All (λ ff. is_success ff ≡ false) new
Shape true new =
    (init : List FaxJob) × (last : FaxJob) × (new ≡ init ++ last ∷ [])
    × All (λ ff. is_success ff ≡ false) init
    × (is_success last ≡ true)

Shape-append :
    (ok : Bool) (xs ys : List FaxJob) → Shape false xs → Shape ok ys → Shape ok (xs ++ ys)
Shape-append false xs ys h k = All-append (λ ff. is_success ff ≡ false) xs ys h k
Shape-append true xs ys h (init, last, e, k, l) = (
  xs ++ init,
  last,
  ap (λ zs. xs ++ zs) e ∙ sym (append_assoc xs init (last ∷ [])),
  All-append (λ ff. is_success ff ≡ false) xs init h k,
  l,
)

-- From the state `s` to `s'` a delivery returned `ok`.
pub record Delivers (o : Outside) (ok : Bool) (s s' : QueueState o) : Type 0 where
  pub new : List FaxJob
  pub grows : s'.results ≡ s.results ++ new
  pub shape : Shape ok new

module _ (o : Outside) (c : QueueConfig) where
  pub Delivers-none : (s s' : QueueState o) → s'.results ≡ s.results → Delivers o false s s'
  Delivers-none s s' e = record { new = []; grows = e ∙ sym (append-nil s.results); shape = tt }

  pub Delivers-trans :
      (ok : Bool) (s s' s'' : QueueState o)
      → Delivers o false s s'
      → Delivers o ok s' s''
      → Delivers o ok s s''
  Delivers-trans ok s s' s'' d d' = record {
    new = d.new ++ d'.new;
    grows = d'.grows ∙ ap (λ zs. zs ++ d'.new) d.grows ∙ append_assoc s.results d.new d'.new;
    shape = Shape-append ok d.new d'.new d.shape d'.shape;
  }

  stamp_and_send-Delivers :
      (ff : FaxJob) (start : ℕ) (ok : Bool) (text : String) (s s0 : QueueState o)
      → s.results ≡ s0.results
      → Delivers o ok s0 (stamp_and_send o c ff start ok text s).1
  unfolding stamp_and_send stamped
  stamp_and_send-Delivers ff start true text s s0 e =
      let sent = (stamp_and_send o c ff start true text s).0 in
      record {
        new = sent ∷ [];
        grows = ap (λ zs. zs ++ sent ∷ []) e;
        shape = ([], sent, refl, tt, refl);
      }
  stamp_and_send-Delivers ff start false text s s0 e =
      let sent = (stamp_and_send o c ff start false text s).0 in
      record { new = sent ∷ []; grows = ap (λ zs. zs ++ sent ∷ []) e; shape = (refl, tt) }

  gateway_answer-Delivers :
      (start : ℕ) (out : SendOutcome) (s s0 : QueueState o)
      → s.results ≡ s0.results
      → let r = gateway_answer o c start out s in Delivers o r.0.0 s0 r.1.1
  unfolding gateway_answer
  gateway_answer-Delivers start out s s0 e = elim (Bool-cases out.failed) [
    | inl failed ↦
        rw failed (stamp_and_send-Delivers (with_cause out) start false "send error" s s0 e)
    | inr sent ↦ elim (Bool-cases (succeeded out.job.result)) [
      | inl ok ↦ rw (sent, ok) (stamp_and_send-Delivers out.job start true "" s s0 e)
      | inr bad ↦
          rw (sent, bad) (stamp_and_send-Delivers out.job start false "gateway failure" s s0 e)
    ]
  ]

  pub gateway_attempt-Delivers :
      (t : Target) (n : ℕ) (a : Attempting o c)
      → let r = gateway_attempt o c t n a in Delivers o r.0.0 a.1 r.1.1
  unfolding gateway_attempt start_attempt
  gateway_attempt-Delivers t n (ff, s) =
      let (ff1, s1) = start_attempt o c t n (escalate_retry_chain c.policy n ff, s) in
      let (start, w) = o.now s1.world in
      let (out, w') = o.send_fax ff1 w in
      gateway_answer-Delivers start out (record s1 { world = w' }) s refl

  webhook_answer-Delivers :
      (t : Target) (start : ℕ) (a : Attempting o c) (s : QueueState o)
      → a.1.results ≡ s.results
      → (out : HttpOutcome) → let r = webhook_answer o c t start a out in Delivers o r.0.0 s r.1.1
  unfolding webhook_answer
  webhook_answer-Delivers t start (ff, s1) s e no_request =
      stamp_and_send-Delivers ff start false "request creation error" s1 s e
  webhook_answer-Delivers t start (ff, s1) s e no_response =
      stamp_and_send-Delivers ff start false (String.◌++◌ t.ep_type " request error") s1 s e
  webhook_answer-Delivers t start (ff, s1) s e (status code) =
      elim (Bool-cases (leb 200 code && ltb code 300)) [
        | inl ok ↦ rw ok (stamp_and_send-Delivers ff start true (o.status_text code) s1 s e)
        | inr bad ↦ rw bad (stamp_and_send-Delivers ff start false (o.status_text code) s1 s e)
      ]

  pub webhook_attempt-Delivers :
      (t : Target) (url : String) (payload : FaxJobWithFile) (n : ℕ) (a : Attempting o c)
      → let r = webhook_attempt o c t url payload n a in Delivers o r.0.0 a.1 r.1.1
  unfolding webhook_attempt start_attempt
  webhook_attempt-Delivers t url payload n (ff, s) =
      let (start, w) = o.now s.world in
      let s1 = record s { world = w } in
      let body = record payload { job = ff } in
      let (ff', s') = start_attempt o c t n (ff, s1) in
      let (out, w') = o.post url body s'.world in
      let unprepared = String.◌++◌ t.ep_type " payload not prepared" in
      elim (Bool-cases (payload.file_data == "")) [
        | inl empty ↦ rw empty (stamp_and_send-Delivers ff start false unprepared s1 s refl)
        | inr full ↦ elim (Bool-cases (not (o.marshals body))) [
          | inl bad ↦
              rw (full, bad) (stamp_and_send-Delivers ff start false "marshal error" s1 s refl)
          | inr good ↦
              rw (full, good)
                (webhook_answer-Delivers t start (ff', record s' { world = w' }) s refl out)
        ]
      ]
