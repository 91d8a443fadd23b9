-- ===== src/Queue/Outside.antt =====
-- What the queue calls that is no part of it: the clock, random numbers, new UUIDs, the sender of
-- gofaxserver/freeswitch_outbound.go, the conversion of a fax to PDF, HTTP, JSON and the
-- server's maps. Each acts on a world, whose type is a parameter.
use gofaxserver.Prelude.{ℕ, String, Bool, Option, List}
use Prim.Native.Char.{Char}
use gofaxserver.Notify.{NotifyDestination}
use gofaxserver.Registry.{Registry}
use gofaxserver.Model.{FaxJob}
use gofaxserver.Tracker.{FaxTracker}
use gofaxserver.Prelude.Map.{Map}
use gofaxserver.Policy.Rules.{FaxPolicyConfig, positive_or}

-- What SendFax returns: whether `returned` is SendRetry, whether there is an error, and the job as
-- it leaves it.
pub record SendOutcome : Type 0 where
  pub retry : Bool
  pub failed : Bool
  pub job : FaxJob

-- What an HTTP request comes to.
pub data HttpOutcome : Type 0 where
  no_request no_response : HttpOutcome
  status : ℕ → HttpOutcome

-- FaxJobWithFile, the payload of a webhook
pub record FaxJobWithFile : Type 0 where
  pub job : FaxJob
  pub file_data : String
  pub call_success : Bool
  pub call_partial : Bool
  pub call_total_pages : ℕ
  pub call_hangup_cause : String
  pub call_result_text : String

pub record Outside : Type 1 where
  pub World : Type 0
  pub now : World → ℕ × World
  pub new_uuid : World → ℕ × World
  pub random : ℕ → World → ℕ × World
  pub sleep : ℕ → World → World
  -- the second result of detectAndRouteToBridge on the job's transformed numbers
  pub enables_bridge : FaxJob → World → Bool
  pub send_fax : FaxJob → World → SendOutcome × World
  -- tiffToPdf, os.ReadFile and base64: the file's text, empty if one of them failed
  pub prepare : String → World → String × World
  -- whether json.Marshal succeeds
  pub marshals : FaxJobWithFile → Bool
  -- an HTTP POST of the payload to a URL
  pub post : String → FaxJobWithFile → World → HttpOutcome × World
  -- fmt.Sprintf("status %d", code)
  pub status_text : ℕ → String
  -- the server's maps of tenants and numbers
  pub registry : World → Registry
  -- unicode.ToLower
  pub lower : Char → Char

-- Config.Faxing.RetryAttempts and RetryDelay as strconv.Atoi and ParseDuration read them.
pub record QueueConfig : Type 0 where
  pub retry_attempts : Option ℕ
  pub retry_delay : Option ℕ
  pub policy : FaxPolicyConfig
  pub portal_url : String
  pub upstreams : List String

unfoldable pub max_attempts : QueueConfig → ℕ
max_attempts c = positive_or c.retry_attempts 3

unfoldable pub base_delay : QueueConfig → ℕ
base_delay c = positive_or c.retry_delay 60_000_000_000

abbrev pub max_delay : ℕ
max_delay = 60_000_000_000

-- NotifyFaxResults, when it is handed to the notifiers.
pub record Notification : Type 0 where
  pub job : FaxJob
  pub results : Map ℕ FaxJob
  pub all_attempts_failed : Bool
  pub destinations : List NotifyDestination

-- `results` are the jobs sent on the channel QueueFaxResult, oldest first, each as it was then;
-- `outcomes` is the map of NotifyFaxResults.
pub record QueueState (o : Outside) : Type 0 where
  pub world : o.World
  pub results : List FaxJob
  pub tracker : FaxTracker
  pub outcomes : Map ℕ FaxJob
  pub notified : List Notification
