-- ===== src/Tests/Registry.antt =====
-- The registry on a tenant with two numbers and three endpoints.
use gofaxserver.Prelude.{ℕ, String, ◌≡◌, refl, ◌⊎◌, true, false, none, some, List, [], ◌∷◌, Eq_text}
use gofaxserver.Prelude.Text.{before_colon}
use gofaxserver.Registry.Bridging.{
  MayBridge, get_endpoint_by_name, detect_and_route_to_bridge-BridgesTo, check_for_bridge,
  BridgesTo, detect_and_route_to_bridge,
}
use gofaxserver.Prelude.Map.{put, find_key, Map}
use gofaxserver.Registry.{
  any_equal, load_endpoint, number_of, load_from, add_endpoint, get_endpoints_for_number, Registry,
}
use gofaxserver.Model.{Endpoint, TenantNumber}

abbrev line : ℕ → String → TenantNumber
line k number = record {
  id = k;
  tenant_id = 1;
  number = number;
  name = "";
  header = "";
  notify = "";
}

abbrev point : ℕ → String → ℕ → String → ℕ → Endpoint
point k scope type_id name prio = record {
  id = k;
  scope = scope;
  type_id = type_id;
  endpoint_type = "gateway";
  endpoint = name;
  priority = prio;
  bridge = false;
}

abbrev rows : List Endpoint
rows =
    point 1 "tenant" 1 "gw1:10.0.0.1" 1
    ∷ point 2 "number" 8 "gw2:10.0.0.2" 666
    ∷ point 3 "global" 0 "10.0.0.3" 0
    ∷ []

abbrev before : Registry
before = record {
  tenants = (1, record { id = 1; name = "t"; notify = "" }) ∷ [];
  tenant_numbers = ("100", line 7 "100") ∷ ("200", line 8 "200") ∷ [];
  tenant_endpoints = [];
  number_endpoints = [];
  endpoints = [];
  gateway_endpoints_acl = [];
  gateway_acl_resolved = [];
  upstream_fs_gateways = [];
}

abbrev unresolved : List String → Map String (List String)
unresolved acl = []

abbrev after : Registry
after = record (load_from rows before) { gateway_acl_resolved = [] }

-- The number 200 has an endpoint of priority 666 alone, and takes the tenant's.
falls_back : get_endpoints_for_number "200" after ≡ some (point 1 "tenant" 1 "gw1:10.0.0.1" 1 ∷ [])
unfolding get_endpoints_for_number load_from load_endpoint number_of find_key put
falls_back = refl

abbrev extra : Endpoint
extra = point 4 "number" 7 "gw4:10.0.0.4" 2

abbrev grown : Registry
grown = record before { number_endpoints = ("100", extra ∷ []) ∷ [] }

is_added : add_endpoint extra before ≡ some grown
unfolding add_endpoint number_of find_key put
is_added = refl

abbrev machine : Endpoint
machine = record (point 5 "number" 8 "gw9:10.0.0.9" 2) { bridge = true }

abbrev bridged : Registry
bridged = record before {
  number_endpoints = ("100", record extra { bridge = true } ∷ []) ∷ [];
  endpoints = ("gw9:10.0.0.9", machine) ∷ [];
  upstream_fs_gateways = "carrier" ∷ [];
}

is_bridged : detect_and_route_to_bridge "100" "200" "gw9" bridged ≡ some "gw4"
unfolding detect_and_route_to_bridge check_for_bridge get_endpoints_for_number before_colon find_key
    get_endpoint_by_name
is_bridged = refl

detect_and_route_to_bridge-BridgesTo_example :
    (BridgesTo "100" bridged "gw4"
      × ((any_equal "gw9" ("carrier" ∷ []) ≡ true) ⊎ MayBridge "gw9" bridged))
    ⊎ (((◌≡◌ {A = String} "gw4" "upstream"))
        × MayBridge "gw9" bridged
        × (check_for_bridge "100" bridged ≡ none))
detect_and_route_to_bridge-BridgesTo_example =
    detect_and_route_to_bridge-BridgesTo "100" "200" "gw9" "gw4" bridged is_bridged
