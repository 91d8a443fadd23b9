-- ===== src/Tests/Router.antt =====
-- The router and its dial plan on a registry with one upstream gateway.
use gofaxserver.Prelude.{
  ◌≡◌, refl, true, ◌&&◌, not, Option, some, List, [], ◌∷◌, ◌==◌, Eq_nat, Eq_text,
}
use gofaxserver.Dialplan.Sources.{load_dialplan_from_db-load_dialplan}
use gofaxserver.Router.Routing.{route_fax-destination, destination, with_endpoints}
use gofaxserver.Router.{prepare, route_fax}
use gofaxserver.Registry.{Registry}
use gofaxserver.Model.{FaxJob, blank_job}
use gofaxserver.Dialplan.{
  load_dialplan, seed_rows, load_dialplan_from_db, apply_transformation_rules, Regexps,
  TransformationRule, DialplanTable, DialplanConfig,
}

-- An engine whose only pattern is "^9", which strips nothing but turns the text into "100".
abbrev pub toy : Regexps
toy = record {
  compiles = λ p. not (p == "(");
  match_string = λ p s. p == "^9" && s == "9100";
  replace_all_string = λ p s r. r;
}

abbrev pub strip : List TransformationRule
strip = record { pattern = "^9"; replacement = "100" } ∷ []

abbrev pub reg : Registry
reg = record {
  tenants = [];
  tenant_numbers = [];
  tenant_endpoints = [];
  number_endpoints = [];
  endpoints = [];
  gateway_endpoints_acl = [];
  gateway_acl_resolved = [];
  upstream_fs_gateways = "carrier" ∷ [];
}

abbrev job : FaxJob
job = record blank_job { callee_number = "9100" }

transformed : apply_transformation_rules toy strip "9100" ≡ "100"
unfolding apply_transformation_rules
transformed = refl

route_fax-destination_example : route_fax toy strip 5 reg job ≡ (
  prepare toy strip 5 reg job,
  with_endpoints (prepare toy strip 5 reg job) (destination reg (prepare toy strip 5 reg job)),
)
route_fax-destination_example = route_fax-destination toy strip 5 reg job

abbrev calm : DialplanTable
calm = record { counts = true; creates = true; finds = true; by_position = λ rows. rows }

abbrev section : Option DialplanConfig
section = some (record { source = "db"; rules = strip })

load_dialplan_from_db-load_dialplan_example :
    load_dialplan_from_db toy calm section []
    ≡ some (seed_rows toy 0 strip, load_dialplan toy section)
load_dialplan_from_db-load_dialplan_example =
    load_dialplan_from_db-load_dialplan toy calm section (λ rows h. refl) refl refl refl
