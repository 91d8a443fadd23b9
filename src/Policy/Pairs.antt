-- ===== src/Policy/Pairs.antt =====
-- The flip-flop state of a pair of numbers: ShouldAllowT38ForPair and UpdateT38PairState of
-- gofaxserver/faxpolicy.go. The map pairStates is a list of keys and states. Its write-through copy
-- in the table fax_pair_states is not modelled: no decision reads it after startup.
use gofaxserver.Prelude.{
  ℕ, ◌+◌, String, ◌≡◌, refl, inl, inr, Bool, true, not, Option, none, some, List, [], ◌∷◌, arith,
  eq_iff, ltb, if◌then◌else◌, ◌==◌, Eq_nat, Eq_text, Bool-cases, Option-cases,
}
use gofaxserver.Policy.Rules.{FaxPolicyConfig, CallType, softmodem, bridge, pair_state_ttl}
use Prim.Native.String

pub record FaxPairState : Type 0 where
  pub src_number : String
  pub dst_number : String
  pub call_type : CallType
  pub last_used_t38 : Bool
  pub last_seen : ℕ

abbrev pub PairStates : Type 0
PairStates = List (String × FaxPairState)

abbrev call_type_text : CallType → String
call_type_text softmodem = "softmodem"
call_type_text bridge = "bridge"

-- pairStateKey
unfoldable pub pair_state_key : String → String → CallType → String
pair_state_key src_num dst_num call_type =
    String.◌++◌ (call_type_text call_type)
      (String.◌++◌ "|" (String.◌++◌ src_num (String.◌++◌ "|" dst_num)))

unfoldable pub find_state : String → PairStates → Option FaxPairState
find_state k [] = none
find_state k ((j, s) ∷ m) = let rest = find_state k m in if j == k then some s else rest

unfoldable pub put_state : String → FaxPairState → PairStates → PairStates
put_state k s [] = (k, s) ∷ []
put_state k s ((j, o) ∷ m) =
    let rest = put_state k s m in if j == k then (k, s) ∷ m else (j, o) ∷ rest

-- loadPairStates, from the rows of the table
unfoldable pub load_pair_states : List FaxPairState → PairStates → PairStates
unfolding pair_state_key put_state
load_pair_states [] m = m
load_pair_states (r ∷ rs) m =
    load_pair_states rs (put_state (pair_state_key r.src_number r.dst_number r.call_type) r m)

-- now.Sub(st.LastSeen) > PairStateTTL()
unfoldable pub should_allow_t38_for_pair :
    FaxPolicyConfig → String → String → CallType → ℕ → PairStates → Bool
should_allow_t38_for_pair c src_num dst_num call_type now m =
    elim (find_state (pair_state_key src_num dst_num call_type) m) [
      | none ↦ true
      | some st ↦ if ltb (st.last_seen + pair_state_ttl c) now then true else not st.last_used_t38
    ]

unfoldable pub update_t38_pair_state :
    String → String → CallType → Bool → ℕ → PairStates → PairStates
update_t38_pair_state src_num dst_num call_type used_t38 now m =
    let key = pair_state_key src_num dst_num call_type in
    elim (find_state key m) [
      | none ↦
          put_state key
            (record {
              src_number = src_num;
              dst_number = dst_num;
              call_type = call_type;
              last_used_t38 = used_t38;
              last_seen = now;
            })
            m
      | some st ↦ put_state key (record st { last_used_t38 = used_t38; last_seen = now }) m
    ]

find_state-put_state :
    (k j : String) (s : FaxPairState) (m : PairStates)
    → find_state j (put_state k s m) ≡ (if k == j then some s else find_state j m)
unfolding find_state put_state
find_state-put_state k j s [] = refl
find_state-put_state k j s ((i, o) ∷ m) =
    ground (arith, eq_iff k j, eq_iff i k, eq_iff i j, find_state-put_state k j s m)

-- What the state of a pair answers after an update, for the updated pair and for any other.
find_state-update :
    (src_num dst_num : String) (call_type : CallType) (used : Bool) (now : ℕ) (m : PairStates)
    (k : String)
    → (st : FaxPairState) × (st.last_used_t38 ≡ used)
      × (st.last_seen ≡ now)
      × (find_state k (update_t38_pair_state src_num dst_num call_type used now m)
          ≡ (if pair_state_key src_num dst_num call_type == k then some st else find_state k m))
unfolding update_t38_pair_state
find_state-update src_num dst_num call_type used now m k =
    elim (Option-cases (find_state (pair_state_key src_num dst_num call_type) m)) [
      | inl e ↦ (
        record {
          src_number = src_num;
          dst_number = dst_num;
          call_type = call_type;
          last_used_t38 = used;
          last_seen = now;
        },
        refl,
        refl,
        rw (e, update_t38_pair_state)
            (find_state-put_state (pair_state_key src_num dst_num call_type) k _ m),
      )
      | inr (st, e) ↦ (
        record st { last_used_t38 = used; last_seen = now },
        refl,
        refl,
        rw (e, update_t38_pair_state)
            (find_state-put_state (pair_state_key src_num dst_num call_type) k _ m),
      )
    ]

-- After an update at `now`, ShouldAllowT38ForPair at `later` allows T.38 to a pair with the same
-- key just when the call did not use it or the time to live is over; a pair with another key is
-- answered as before.
pub should_allow-update :
    (c : FaxPolicyConfig) (src_num dst_num : String) (call_type : CallType) (used : Bool)
    (now later : ℕ) (m : PairStates) (src_num' dst_num' : String) (call_type' : CallType)
    → should_allow_t38_for_pair c src_num' dst_num' call_type' later
        (update_t38_pair_state src_num dst_num call_type used now m)
      ≡ (if pair_state_key src_num dst_num call_type == pair_state_key src_num' dst_num' call_type'
          then (if ltb (now + pair_state_ttl c) later then true else not used)
          else should_allow_t38_for_pair c src_num' dst_num' call_type' later m)
unfolding should_allow_t38_for_pair
should_allow-update c src_num dst_num call_type used now later m src_num' dst_num' call_type' =
    let key = pair_state_key src_num dst_num call_type in
    let key' = pair_state_key src_num' dst_num' call_type' in
    let (st, u, s, e) = find_state-update src_num dst_num call_type used now m key' in
    elim (Bool-cases (key == key')) [
      | inl same ↦ rw (should_allow_t38_for_pair, e, same, u, s) refl
      | inr other ↦ rw (should_allow_t38_for_pair, e, other) refl
    ]
