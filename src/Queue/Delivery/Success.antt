-- ===== src/Queue/Delivery/Success.antt =====
-- What a whole delivery leaves on the channel of results: a group's endpoints, and the priorities of
-- an endpoint type.
use gofaxserver.Prelude.{ℕ, String, refl, Bool, List}
use gofaxserver.Queue.Delivery.Steps.{webhook_prios-Follows, gateway_group-Follows, Follows}
use gofaxserver.Queue.Groups.{PrioMap}
use gofaxserver.Model.{Endpoint, FaxJob}
use gofaxserver.Queue.Delivery.{webhook_prios, gateway_group}
use gofaxserver.Queue.Delivery.Outcome.{
  webhook_attempt-Delivers, gateway_attempt-Delivers, Delivers-trans, Delivers-none, Delivers,
}
use gofaxserver.Queue.Attempts.{pause}
use gofaxserver.Queue.Outside.{QueueState, QueueConfig, Outside}

module _ (o : Outside) (c : QueueConfig) (f : FaxJob) where
  Delivers-Follows : Follows o c f.uuid (Delivers o)
  unfolding pause
  Delivers-Follows = record {
    idle = λ w s. Delivers-none o c s (record s { world = w }) refl;
    compose = Delivers-trans o c;
    sends = λ t n a e. gateway_attempt-Delivers o c t n a;
    posts = λ t url payload n a e. webhook_attempt-Delivers o c t url payload n a;
    waits = λ d a. Delivers-none o c a.1 (pause o c f.uuid d a).1 refl;
  }

  -- Sending to a group of gateways, whichever strategy it takes and however the sender behaves, puts
  -- on the results channel failures only, or failures and then one success, and says which.
  pub gateway_group-Delivers :
      (prio : ℕ) (group : List Endpoint) (s : QueueState o)
      → Delivers o (gateway_group o c f prio group s).0 s (gateway_group o c f prio group s).1
  gateway_group-Delivers = gateway_group-Follows o c f (Delivers o) Delivers-Follows

  -- One worker reports at most one success for the webhooks, or the portals, of a job: over all
  -- priorities, endpoints and attempts it puts on the results channel failures only, or failures
  -- and then one success, which ends it.
  pub webhook_prios-once :
      (ep_type : String) (m : PrioMap) (prios : List ℕ) (s : QueueState o)
      → (ok : Bool) × Delivers o ok s (webhook_prios o c f ep_type m prios s)
  webhook_prios-once = webhook_prios-Follows o c f (Delivers o) Delivers-Follows
