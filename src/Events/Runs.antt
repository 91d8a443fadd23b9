-- ===== src/Events/Runs.antt =====
-- What the events of a call keep, however many come.
use gofaxserver.Prelude.{
  String, refl, sym, inl, inr, Bool, true, false, ◌||◌, not, List, [], ◌∷◌, arith, eq_iff,
  if◌then◌else◌, ◌==◌, Eq_nat, Eq_text, Bool-cases,
}
use mathlib.Core.List.{append-nil}
use Prim.Native.String
use gofaxserver.Model.{FaxResult}
use gofaxserver.Events.{
  is_completion, is_page, harvest_field, is_negotiation, or_kept, fax_result_var_names,
  harvest_result, add_bridge_b_leg_event, add_custom, add_call_state, add_completion, add_page,
  add_negotiation, add_hangup, harvest_bridge_leg_t38, harvest_vars, harvest_var, add_event, Event,
  Session, Reader,
}
use gofaxserver.Events.Merging.{
  harvest_field-Keeps, Stays-or, harvest_result-Keeps, Keeps-plain, KeepsResult-same, Keeps-flags,
  Stays-refl, Keeps-trans, Keeps-refl, KeepsResult-refl, Keeps, KeepsResult, SetOnce,
}
use gofaxserver.Prelude.Map.{put}

-- An event of the call's own leg, or of the leg that it is bridged to.
pub data Step : Session → Session → Type 0 where
  a_leg : (rd : Reader) (ev : Event) (s : Session) → Step s (add_event rd ev s)
  b_leg : (rd : Reader) (ev : Event) (s : Session) → Step s (add_bridge_b_leg_event rd ev s)

pub data Run (s : Session) : Session → Type 0 where
  here : Run s s
  more : {t u : Session} → Run s t → Step t u → Run s u

harvest_var-Keeps :
    (rd : Reader) (ev : Event) (name : String) (s : Session) → Keeps s (harvest_var rd ev name s)
unfolding harvest_var
harvest_var-Keeps rd ev name s =
    let v = ev (String.◌++◌ "Variable_" name) in
    let kept : Session = record s {
      result = harvest_result rd name v s.result;
      result_vars = put name v s.result_vars;
    } in
    let first =
      Keeps-plain s kept (harvest_result-Keeps rd name v s.result) (refl, refl)
        (refl, refl, refl) in
    let all =
      Keeps-trans s kept (harvest_field rd name v kept) first
        (harvest_field-Keeps rd name v kept) in
    elim (Bool-cases (v == "")) [
      | inl e ↦ rw (harvest_var, e) (Keeps-refl s)
      | inr e ↦ rw (harvest_var, e) all
    ]

harvest_vars-Keeps :
    (rd : Reader) (ev : Event) (names : List String) (s : Session)
    → Keeps s (harvest_vars rd ev names s)
unfolding harvest_vars
harvest_vars-Keeps rd ev [] s = Keeps-refl s
harvest_vars-Keeps rd ev (name ∷ names) s =
    let next = harvest_var rd ev name s in
    Keeps-trans s next (harvest_vars rd ev names next) (harvest_var-Keeps rd ev name s)
      (harvest_vars-Keeps rd ev names next)

harvest_bridge_leg_t38-SetOnce :
    (rd : Reader) (ev : Event) (dst : String) → SetOnce dst (harvest_bridge_leg_t38 rd ev dst)
unfolding harvest_bridge_leg_t38
harvest_bridge_leg_t38-SetOnce rd ev dst = elim (Bool-cases (dst == "")) [
  | inl e ↦ inl ((eq_iff dst "").0 e)
  | inr e ↦ inr (rw (harvest_bridge_leg_t38, e) refl)
]

-- A session of which only the legs changed.
Keeps-legs :
    (s : Session) (a b : String)
    → SetOnce s.bridge_a_leg_t38 a
    → SetOnce s.bridge_b_leg_t38 b
    → Keeps s (record s { bridge_a_leg_t38 = a; bridge_b_leg_t38 = b })
Keeps-legs s a b h k = record {
  kept = KeepsResult-refl s.result;
  ecm = Stays-refl s.ecm;
  ecm_requested = Stays-refl s.ecm_requested;
  v17_disabled = Stays-refl s.v17_disabled;
  a_leg_t38 = h;
  b_leg_t38 = k;
}

Keeps-if : (s x y : Session) (b : Bool) → Keeps s x → Keeps s y → Keeps s (if b then x else y)
Keeps-if s x y true h k = h
Keeps-if s x y false h k = k

add_hangup-Keeps : (rd : Reader) (ev : Event) (s : Session) → Keeps s (add_hangup rd ev s)
unfolding add_hangup
add_hangup-Keeps rd ev s =
    let t = harvest_vars rd ev fax_result_var_names s in
    let first = harvest_vars-Keeps rd ev fax_result_var_names s in
    let leg = harvest_bridge_leg_t38 rd ev t.bridge_a_leg_t38 in
    let next =
      Keeps-legs t leg t.bridge_b_leg_t38 (harvest_bridge_leg_t38-SetOnce rd ev t.bridge_a_leg_t38)
        (inr refl) in
    Keeps-if s (record t { bridge_a_leg_t38 = leg }) t t.bridge
      (Keeps-trans s t (record t { bridge_a_leg_t38 = leg }) first next) first

add_negotiation-Keeps : (rd : Reader) (ev : Event) (s : Session) → Keeps s (add_negotiation rd ev s)
unfolding add_negotiation
add_negotiation-Keeps rd ev s =
    let grown : KeepsResult s.result (add_negotiation rd ev s).result = record {
      success = Stays-refl s.result.success;
      negotiations = omega arith;
      pages = ([], sym (append-nil s.result.page_bad_rows));
    } in
    Keeps-flags s _ grown (refl, refl) (Stays-or s.ecm (ev "Fax-Ecm-Used" == "on"))
      (Stays-or s.ecm_requested (ev "Variable_fax_ecm_requested" == "1"))
      (Stays-or s.v17_disabled (ev "Variable_fax_v17_disabled" == "1"))

add_page-Keeps : (rd : Reader) (ev : Event) (r : FaxResult) → KeepsResult r (add_page rd ev r)
unfolding add_page
add_page-Keeps rd ev r = record {
  success = Stays-refl r.success;
  negotiations = omega arith;
  pages = (or_kept (rd.atoi (ev "Fax-Bad-Rows")) 0 ∷ [], refl);
}

add_completion-Keeps : (rd : Reader) (ev : Event) (s : Session) → Keeps s (add_completion rd ev s)
unfolding add_completion
add_completion-Keeps rd ev s =
    Keeps-flags s _
      (KeepsResult-same s.result _ (Stays-or s.result.success (ev "Fax-Success" == "1"))
        (refl, refl))
      (refl, refl) (Stays-or s.ecm (ev "Fax-Ecm-Used" == "on")) (Stays-refl s.ecm_requested)
      (Stays-refl s.v17_disabled)

add_call_state-Keeps :
    (rd : Reader) (ev : Event) (r : FaxResult) → KeepsResult r (add_call_state rd ev r)
unfolding add_call_state
add_call_state-Keeps rd ev r = KeepsResult-same r _ (ground arith) (ground arith)

add_custom-Keeps : (rd : Reader) (ev : Event) (s : Session) → Keeps s (add_custom rd ev s)
unfolding add_custom
add_custom-Keeps rd ev s =
    let paged =
      Keeps-plain s (record s { result = add_page rd ev s.result }) (add_page-Keeps rd ev s.result)
        (refl, refl) (refl, refl, refl) in
    let sub = ev "Event-Subclass" in
    elim (Bool-cases (is_negotiation sub)) [
      | inl e ↦ rw (add_custom, e) (add_negotiation-Keeps rd ev s)
      | inr e ↦ elim (Bool-cases (is_page sub)) [
        | inl e' ↦ rw (add_custom, e, e') paged
        | inr e' ↦ elim (Bool-cases (is_completion sub)) [
          | inl e'' ↦ rw (add_custom, e, e', e'') (add_completion-Keeps rd ev s)
          | inr e'' ↦ rw (add_custom, e, e', e'') (Keeps-refl s)
        ]
      ]
    ]

add_event-Keeps : (rd : Reader) (ev : Event) (s : Session) → Keeps s (add_event rd ev s)
unfolding add_event
add_event-Keeps rd ev s =
    let state =
      Keeps-plain s (record s { result = add_call_state rd ev s.result })
        (add_call_state-Keeps rd ev s.result) (refl, refl) (refl, refl, refl) in
    let name = ev "Event-Name" in
    elim (Bool-cases (name == "CHANNEL_CALLSTATE")) [
      | inl e ↦ rw (add_event, e) state
      | inr e ↦ elim (Bool-cases (name == "CHANNEL_HANGUP")) [
        | inl e' ↦ rw (add_event, e, e') (add_hangup-Keeps rd ev s)
        | inr e' ↦ elim (Bool-cases (name == "CUSTOM")) [
          | inl e'' ↦ rw (add_event, e, e', e'') (add_custom-Keeps rd ev s)
          | inr e'' ↦ rw (add_event, e, e', e'') (Keeps-refl s)
        ]
      ]
    ]

add_bridge_b_leg_event-Keeps :
    (rd : Reader) (ev : Event) (s : Session) → Keeps s (add_bridge_b_leg_event rd ev s)
unfolding add_bridge_b_leg_event
add_bridge_b_leg_event-Keeps rd ev s =
    let leg = harvest_bridge_leg_t38 rd ev s.bridge_b_leg_t38 in
    let next =
      Keeps-legs s s.bridge_a_leg_t38 leg (inr refl)
        (harvest_bridge_leg_t38-SetOnce rd ev s.bridge_b_leg_t38) in
    elim (Bool-cases (not s.bridge || not (ev "Event-Name" == "CHANNEL_HANGUP"))) [
      | inl e ↦ rw (add_bridge_b_leg_event, e) (Keeps-refl s)
      | inr e ↦ rw (add_bridge_b_leg_event, e) next
    ]

Step-Keeps : {s t : Session} → Step s t → Keeps s t
Step-Keeps (a_leg rd ev s) = add_event-Keeps rd ev s
Step-Keeps (b_leg rd ev s) = add_bridge_b_leg_event-Keeps rd ev s

-- However many events of its legs come, a call that was successful stays so, and so do the flags that
-- ECM was used or requested and that V.17 was disabled; the negotiations that are counted never
-- become fewer; the pages that were reported stay, in order, with new ones after them; and what is
-- known of T.38 on a leg is set at most once.
pub Run-Keeps : (s : Session) {t : Session} → Run s t → Keeps s t
Run-Keeps s here = Keeps-refl s
Run-Keeps s (more {t} {u} r step) = Keeps-trans s t u (Run-Keeps s r) (Step-Keeps step)
