-- ===== src/Results/Groups.antt =====
-- deriveGroup of gofaxserver/web_faxresults.go: the outcome of a job, from the rows of its legs in the
-- order in which they were written. Left out are the times, and the marker of the portal.
use gofaxserver.Prelude.{
  ℕ, String, ◌≡◌, refl, sym, ap, ◌∙◌, Bool, true, false, ◌&&◌, ◌||◌, not, Option, none, some, List,
  [], ◌∷◌, ◌++◌, arith, ltb, if◌then◌else◌, ◌==◌, Eq_nat, Eq_text, is_some, keep, All,
}
use mathlib.Core.List.{append_assoc}
use gofaxserver.Results.{FaxJobResult}

pub record FaxResultGroup : Type 0 where
  pub job_uuid : ℕ
  pub caller_id_number : String
  pub callee_number : String
  pub src_tenant_id : ℕ
  pub dst_tenant_id : ℕ
  pub attempts : ℕ
  pub leg_types : List String
  pub success : Bool
  pub status : String
  pub transferred_pages : ℕ
  pub total_pages : ℕ
  pub legs : List FaxJobResult

abbrev empty_group : ℕ → FaxResultGroup
empty_group id = record {
  job_uuid = id;
  caller_id_number = "";
  callee_number = "";
  src_tenant_id = 0;
  dst_tenant_id = 0;
  attempts = 0;
  leg_types = [];
  success = false;
  status = "";
  transferred_pages = 0;
  total_pages = 0;
  legs = [];
}

-- legs[len(legs)-1]
abbrev pub last_leg : FaxJobResult → List FaxJobResult → FaxJobResult
last_leg first [] = first
last_leg first (l ∷ legs) = last_leg l legs

abbrev counts_attempt : FaxJobResult → Bool
counts_attempt l = l.result_type == "transmission" || l.result_type == "delivery"

-- The highest attempt of a transmission or a delivery.
unfoldable pub most_attempts : List FaxJobResult → ℕ → ℕ
most_attempts [] n = n
most_attempts (l ∷ legs) n =
    most_attempts legs (if counts_attempt l && ltb n l.attempt_number then l.attempt_number else n)

abbrev pub has_type : String → List String → Bool
has_type t [] = false
has_type t (u ∷ us) = t == u || has_type t us

-- The types of the legs, each once.
unfoldable pub types_of : List String → List FaxJobResult → List String
types_of seen [] = []
types_of seen (l ∷ legs) =
    let known = has_type l.result_type seen in
    let rest = types_of (if known then seen else l.result_type ∷ seen) legs in
    if known then rest else l.result_type ∷ rest

abbrev pub is_primary : FaxJobResult → Bool
is_primary l =
    not (l.result_type == "delivery")
    && not (l.result_type == "submission")
    && not (l.result_type == "notify")

-- The latest leg that is primary.
unfoldable pub latest_primary : List FaxJobResult → Option FaxJobResult
latest_primary [] = none
latest_primary (l ∷ legs) = elim (latest_primary legs) [
  | some later ↦ some later
  | none ↦ if is_primary l then some l else none
]

abbrev pub or_last : Option FaxJobResult → FaxJobResult → FaxJobResult
or_last none last = last
or_last (some primary) last = primary

-- The leg that decides the outcome.
abbrev pub deciding_leg : FaxJobResult → List FaxJobResult → FaxJobResult
deciding_leg l legs = or_last (latest_primary (l ∷ legs)) (last_leg l legs)

abbrev intake_status : FaxJobResult → String
intake_status primary =
    if primary.result_type == "submission"
    then (if primary.result_text == "" then "queued" else primary.result_text)
    else primary.status

-- deriveGroup
unfoldable pub derive_group : ℕ → List FaxJobResult → FaxResultGroup
unfolding most_attempts types_of latest_primary
derive_group id [] = empty_group id
derive_group id (l ∷ legs) =
    let last = last_leg l legs in
    let primary = deciding_leg l legs in
    record {
      job_uuid = id;
      caller_id_number = last.caller_id_number;
      callee_number = last.callee_number;
      src_tenant_id = last.src_tenant_id;
      dst_tenant_id = last.dst_tenant_id;
      attempts = most_attempts (l ∷ legs) 0;
      leg_types = types_of [] (l ∷ legs);
      success = primary.success && not (primary.result_type == "submission");
      status = intake_status primary;
      transferred_pages = primary.transferred_pages;
      total_pages = primary.total_pages;
      legs = l ∷ legs;
    }

-- The rows of one job, as handleListFaxResults collects them.
abbrev pub legs_of : ℕ → List FaxJobResult → List FaxJobResult
legs_of id table = keep (λ r. r.job_uuid == id) table

-- What a group says of the outcome.
abbrev pub Outcome : Type 0
Outcome = Bool × String × ℕ × ℕ × ℕ

abbrev pub outcome : FaxResultGroup → Outcome
outcome g = (g.success, g.status, g.transferred_pages, g.total_pages, g.attempts)

abbrev pub IsNotify : FaxJobResult → Type 0
IsNotify row = row.result_type ≡ "notify"

most_attempts-notify :
    (legs notes : List FaxJobResult) (n : ℕ)
    → All IsNotify notes
    → most_attempts (legs ++ notes) n ≡ most_attempts legs n
unfolding most_attempts
most_attempts-notify [] [] n h = refl
most_attempts-notify [] (l ∷ notes) n (h, hs) = rw h (most_attempts-notify [] notes n hs)
most_attempts-notify (l ∷ legs) notes n h =
    most_attempts-notify legs notes
      (if counts_attempt l && ltb n l.attempt_number then l.attempt_number else n) h

latest_primary-notify :
    (legs notes : List FaxJobResult)
    → All IsNotify notes
    → latest_primary (legs ++ notes) ≡ latest_primary legs
unfolding latest_primary
latest_primary-notify [] [] h = refl
latest_primary-notify [] (l ∷ notes) (h, hs) = rw (latest_primary-notify [] notes hs, h) refl
latest_primary-notify (l ∷ legs) notes h = rw (latest_primary-notify legs notes h) refl

-- The outcome that a deciding leg stands for, with the attempts.
abbrev outcome_by : FaxJobResult → ℕ → Outcome
outcome_by primary attempts = (
  primary.success && not (primary.result_type == "submission"),
  intake_status primary,
  primary.transferred_pages,
  primary.total_pages,
  attempts,
)

outcome_by-notify :
    (m : FaxJobResult) (n : ℕ)
    → IsNotify m
    → outcome_by m n ≡ (m.success, m.status, m.transferred_pages, m.total_pages, n)
outcome_by-notify m n h = rw h (ground arith)

outcome_by-or_last :
    (o : Option FaxJobResult) (m last : FaxJobResult) (n : ℕ)
    → IsNotify m
    → outcome_by (or_last o m) n ≡ (
        if is_some o
        then outcome_by (or_last o last) n
        else (m.success, m.status, m.transferred_pages, m.total_pages, n))
outcome_by-or_last none m last n h = outcome_by-notify m n h
outcome_by-or_last (some p) m last n h = refl

All-last :
    (notes : List FaxJobResult) (m : FaxJobResult) → All IsNotify (notes ++ m ∷ []) → IsNotify m
All-last [] m (h, hs) = h
All-last (k ∷ notes) m (h, hs) = All-last notes m hs

last_leg-last : (l m : FaxJobResult) (legs : List FaxJobResult) → last_leg l (legs ++ m ∷ []) ≡ m
last_leg-last l m [] = refl
last_leg-last l m (k ∷ legs) = last_leg-last k m legs

any_last :
    (o : Option FaxJobResult) (a b : FaxJobResult) (n : ℕ)
    → is_some o ≡ true
    → outcome_by (or_last o a) n ≡ outcome_by (or_last o b) n
any_last none a b n h = cc
any_last (some p) a b n h = refl

-- Any rows of notifications leave the outcome of legs among which one is primary.
pub derive_group-primary :
    (id : ℕ) (legs notes : List FaxJobResult)
    → All IsNotify notes
    → is_some (latest_primary legs) ≡ true
    → outcome (derive_group id (legs ++ notes)) ≡ outcome (derive_group id legs)
unfolding derive_group
derive_group-primary id [] notes h primary = cc
derive_group-primary id (l ∷ legs) notes h primary =
    let n = most_attempts ((l ∷ legs) ++ notes) 0 in
    let last = last_leg l (legs ++ notes) in
    ap (λ o. outcome_by (or_last o last) n) (latest_primary-notify (l ∷ legs) notes h)
    ∙ any_last (latest_primary (l ∷ legs)) last (last_leg l legs) n primary
    ∙ ap (outcome_by (deciding_leg l legs)) (most_attempts-notify (l ∷ legs) notes 0 h)

-- Rows of notifications, behind the legs of a job, leave its outcome and its attempts alone where one
-- of the legs is primary. Where none is, the last notification decides: its success and its status
-- are those of the job, and only the attempts stay.
pub derive_group-notify :
    (id : ℕ) (l m : FaxJobResult) (legs notes : List FaxJobResult)
    → All IsNotify (notes ++ m ∷ [])
    → outcome (derive_group id ((l ∷ legs) ++ (notes ++ m ∷ []))) ≡ (
        if is_some (latest_primary (l ∷ legs)) then outcome (derive_group id (l ∷ legs)) else (
          m.success,
          m.status,
          m.transferred_pages,
          m.total_pages,
          (derive_group id (l ∷ legs)).attempts,
        ))
unfolding derive_group
derive_group-notify id l m legs notes h =
    let rest = notes ++ m ∷ [] in
    let attempts = most_attempts-notify (l ∷ legs) rest 0 h in
    let all = (l ∷ legs) ++ rest in
    let last : last_leg l (legs ++ rest) ≡ m =
      ap (last_leg l) (sym (append_assoc legs notes (m ∷ [])))
      ∙ last_leg-last l m (legs ++ notes) in
    ap (λ o. outcome_by (or_last o (last_leg l (legs ++ rest))) (most_attempts all 0))
      (latest_primary-notify (l ∷ legs) rest h)
    ∙ ap (λ k. outcome_by (or_last (latest_primary (l ∷ legs)) k) (most_attempts all 0)) last
    ∙ ap (outcome_by (or_last (latest_primary (l ∷ legs)) m)) attempts
    ∙ outcome_by-or_last (latest_primary (l ∷ legs)) m (last_leg l legs)
        (most_attempts (l ∷ legs) 0) (All-last notes m h)
