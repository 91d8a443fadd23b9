-- ===== src/Lib.antt =====
-- Verification of the core of gofaxserver, a fax server that routes and delivers faxes through
-- FreeSWITCH gateways, webhooks and a portal.
--
-- The parts and how they interact. The router transforms the numbers of a fax job by the dial plan,
-- takes endpoints from the registry and puts the job on the queue, whose function processFax groups
-- the job's endpoints by type and priority, makes attempts with retries, stores the result of each
-- attempt and notifies at the end. The tracker holds the jobs in flight; the queue moves a job
-- through it. The registry says which endpoints a number has. The policy engine decides per call
-- whether T.38, ECM and V.17 may be used, from rules that a manager writes and rules that it learns
-- from results. The IP sentry bans addresses whose calls the registry's gateway ACL refuses too often.
--
-- The files.
--   Prelude and below: Boolean tests, lists, texts, stable sorting and Go's maps.
--   Model: the records of gofaxserver/faxjob.go, gofaxlib/faxresult.go and the endpoint of
--     gofaxserver/endpoints.go.
--   Policy and below: gofaxserver/faxpolicy.go and FaxPolicyConfig of gofaxlib/config.go. Rules has
--     the rules and when they match, Resolve is ResolveFaxPolicy, Learning has
--     LearnFaxPolicyFailure, LearnFaxPolicyBridgeFailure, LearnFaxPolicySuccess and
--     reloadFaxPolicies over a table that is a parameter (Learning/Table), Signature has the tests
--     on results and escalateRetryChain, and Pairs has the flip-flop memory of number pairs.
--   Tracker and below: gofaxserver/faxtracker.go, one function per method. A method takes the time
--     that it would read; the lock makes it one step.
--   Registry and below: the tenants, numbers and endpoints that the server keeps in memory
--     (gofaxserver/endpoints.go, gofaxserver/tenants.go, gofaxserver/server.go): addEndpoint,
--     removeEndpoint, loadEndpoints, getEndpointsForNumber, fsGatewayACL and the tenant numbers;
--     Owners has updateEndpoint, getTenantByGateway, the dial strings and the loading of tenants.
--     What the database returns and the addresses of host names are arguments. Bridging has
--     detectAndRouteToBridge and checkForBridge of gofaxserver/router.go.
--   Sentry and below: gofaxserver/ipsentry.go and SecurityConfig of gofaxlib/config.go. Config has the
--     settings, State the state of IPSentry and its queries, Bans has RecordFailure, banIP, BanManual,
--     banIPPermanent, UnbanIP and unbanIP, Janitor has newIPSentry, Reconcile and janitorTick, and
--     Steps has these calls as steps of runs. The firewall, the table of bans, package net and the
--     clock are given to each call in a record of its surroundings; the gateway ACL is the registry's.
--     What the firewall still blocks from earlier runs when the sentry starts is an argument.
--   Dialplan and below: gofaxserver/dialplan.go, and loadDialplan of gofaxserver/server.go, with
--     package regexp as a parameter.
--   Router and below: routeFax of gofaxserver/router.go, from the dial plan through the registry to
--     the endpoints that the queue groups.
--   Queue and below: gofaxserver/queue.go. Groups has the groups and their order, Retry is
--     retryWithBackoff, Outside has what the queue calls, Attempts has one attempt (sendOnce and
--     sendOne, sendWebhookOnce), Delivery has the loops over endpoints and priorities, and Process
--     is processFax from the groups to the notification.
--   Results and below: gofaxserver/faxjobresult.go, the classification of legs and their rows, and the
--     row of a job's intake; Groups is deriveGroup of gofaxserver/web_faxresults.go.
--   Events and below: AddEvent, harvestResultVars, detectT38InSDP, harvestBridgeLegT38 and
--     AddBridgeBLegEvent of gofaxlib/faxresult.go: what the events of a call make of its result. The
--     resolutions of images, and of a page all but its bad rows, are left out.
--   Inbound and below: the checks of a call's source address in gofaxserver/freeswitch_inbound.go, by
--     the sentry and the gateway ACL.
--   Monitor: the refresh of the gateway ACL's addresses of gofaxserver/gateway_monitor.go, with the
--     resolution of host names of gofaxserver/endpoints.go.
--   Notify and below: gofaxserver/notify.go. Notify has parseNotifyString, splitEmailRecipients and
--     processNotifyDestinations, Payload has buildPortalStatusPayload, and Dispatch has
--     processNotifyDestinationsAsync with recordNotifyDelivery. What SMTP, HTTP, JSON, the report and
--     the database answer is an argument, and so is unicode.ToLower.
--   Portal and below: computeNotify of portal/internal/api/handlers_admin.go, with what it calls. The
--     addresses that its query returns are an argument. Polling has decide, reconcile and tick of
--     portal/internal/poller/poller.go for one job, and the push of
--     portal/internal/api/handlers_notify.go; the limit of jobs per tick is left out.
--     Limiter is RateLimiter of portal/internal/auth/auth.go.
--   Upload and below: handleDocumentUpload of gofaxserver/web.go, up to the job that it routes;
--     Intake follows the job through routeFax, the store of its tick and the call of
--     markSubmissionProcessed at the start of processFax, which Queue leaves out, to the poller, by the
--     lemmas on rows of Idle.
--   Tests and below: runs of the theorems on concrete inputs.
--
-- Bounds. Times and durations are natural numbers of nanoseconds; the delays of the retry loop are
-- at most a minute, or the configured base delay once, so that no 64-bit number overflows. UUIDs
-- and database keys are natural numbers, and uuid.Nil is 0. The retry loop counts the rounds that
-- are left, from the number of attempts, so that it takes no fuel; every other loop is over
-- a list. A duration of the configuration that is negative counts as one that cannot be read, as it
-- does in the source.
--
-- Not modelled. The workers of the endpoint types run concurrently in the program and one after
-- another here. The database, FreeSWITCH, HTTP, the clock, random numbers and new UUIDs are
-- parameters; the queue takes the answers of detectAndRouteToBridge and SendFax as such too.
-- Logging, HTTP headers, temporary files and the preview of the first page are left out, and so are
-- the users of tenants, the other handlers of the web API, the rest of the FreeSWITCH dialogues,
-- the texts of mails and reports, and the rest of the portal. A call of the sentry is one step,
-- with one reading of the clock, where the program takes its lock several times; its firewall back
-- ends (gofaxserver/ipsentry_backend.go) are I/O and parameters, and so are the order in which the
-- database returns rules of the dial plan and the errors that it makes.
pub mod Prelude
pub mod Model
pub mod Policy
pub mod Tracker
pub mod Registry
pub mod Sentry
pub mod Dialplan
pub mod Router
pub mod Queue
pub mod Results
pub mod Events
pub mod Inbound
pub mod Monitor
pub mod Notify
pub mod Portal
pub mod Upload
pub mod Tests
