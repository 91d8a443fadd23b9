-- ===== src/Queue/Groups.antt =====
-- The endpoint groups of processFax (gofaxserver/queue.go): by type, by priority, and the order of
-- the priorities. A priority is a number below 2^64, and only its order is used.
pub mod Order
use gofaxserver.Prelude.{
  ℕ, String, Bool, true, false, ◌&&◌, not, List, [], ◌∷◌, ◌++◌, ltb, if◌then◌else◌, ◌==◌, Eq_nat,
  Eq_text, is_empty,
}
use gofaxserver.Model.{Endpoint}
use gofaxserver.Prelude.Map.{or_nil, Map, find_key, put}
use gofaxserver.Prelude.Sort.{sort_stable}
use gofaxserver.Prelude.Text.{equal_fold}

-- map[uint][]*Endpoint, and the map of these by endpoint type
abbrev pub PrioMap : Type 0
PrioMap = Map ℕ (List Endpoint)

abbrev pub GroupMap : Type 0
GroupMap = Map String PrioMap

unfoldable pub add_to_group : Endpoint → GroupMap → GroupMap
unfolding find_key put
add_to_group ep g =
    let prios = or_nil (find_key ep.endpoint_type g) in
    let group = or_nil (find_key ep.priority prios) in
    put ep.endpoint_type (put ep.priority (group ++ ep ∷ []) prios) g

unfoldable pub group_from : List Endpoint → GroupMap → GroupMap
unfolding add_to_group
group_from [] g = g
group_from (ep ∷ eps) g = group_from eps (add_to_group ep g)

unfoldable pub group_endpoints : List Endpoint → GroupMap
unfolding group_from
group_endpoints eps = group_from eps []

abbrev pub keys : {K V : Type 0} → Map K V → List K
keys [] = []
keys ((k, v) ∷ m) = k ∷ keys m

-- The function given to sort.Slice: 999 is always last.
unfoldable pub prio_before : ℕ → ℕ → Bool
prio_before a b =
    if a == 999 && not (b == 999)
    then false
    else if b == 999 && not (a == 999)
    then true
    else ltb a b

unfoldable pub sorted_prios : PrioMap → List ℕ
unfolding sort_stable prio_before
sorted_prios m = sort_stable prio_before (keys m)

abbrev pub every : {A : Type 0} → (A → Bool) → List A → Bool
every p [] = true
every p (x ∷ xs) = p x && every p xs

-- isGlobalUpstreamGatewayGroup
unfoldable pub is_global_upstream_gateway_group : List Endpoint → Bool
unfolding equal_fold
is_global_upstream_gateway_group group =
    not (is_empty group)
    && every
        (λ ep.
          equal_fold ep.scope "global" && ep.type_id == 0 && equal_fold ep.endpoint_type "gateway")
        group
