-- ===== src/Dialplan.antt =====
-- The transformation of numbers before routing (gofaxserver/dialplan.go, and loadDialplan and
-- Dialplan of gofaxserver/server.go). Package regexp is a parameter; a compiled expression is
-- represented by its pattern.
pub mod Sources
use gofaxserver.Prelude.{
  ℕ, suc, String, Bool, true, false, ◌&&◌, ◌||◌, not, Option, none, some, List, [], ◌∷◌, map,
  if◌then◌else◌, ◌==◌, Eq_nat, Eq_text, is_empty, keep,
}

pub record TransformationRule : Type 0 where
  pub pattern : String
  pub replacement : String

-- A row of dialplan_rules, without its key and its description.
pub record DialplanRule : Type 0 where
  pub position : ℕ
  pub pattern : String
  pub replacement : String
  pub enabled : Bool

-- The section of the configuration.
pub record DialplanConfig : Type 0 where
  pub source : String
  pub rules : List TransformationRule

-- Whether a pattern compiles, whether it matches a text, and Regexp.ReplaceAllString on a pattern, a
-- text and a replacement.
pub record Regexps : Type 0 where
  pub compiles : String → Bool
  pub match_string : String → String → Bool
  pub replace_all_string : String → String → String → String

-- What the database does: the error of the count, of the creation and of the query, and the query's
-- order by position.
pub record DialplanTable : Type 0 where
  pub counts : Bool
  pub creates : Bool
  pub finds : Bool
  pub by_position : List DialplanRule → List DialplanRule

-- DefaultTransformationRules
abbrev pub default_transformation_rules : List TransformationRule
default_transformation_rules =
    record { pattern = "^1(\\d{10}).*$"; replacement = "$1" }
    ∷ record { pattern = "^(\\d{10}).*$"; replacement = "$1" }
    ∷ []

-- dialplanSource
abbrev pub dialplan_source : Option DialplanConfig → String
dialplan_source none = "config"
dialplan_source (some cfg) = if cfg.source == "db" then "db" else "config"

abbrev rule_of : DialplanRule → TransformationRule
rule_of r = record { pattern = r.pattern; replacement = r.replacement }

module _ (re : Regexps) where
  -- ApplyTransformationRules
  unfoldable pub apply_transformation_rules : List TransformationRule → String → String
  apply_transformation_rules [] number = number
  apply_transformation_rules (rule ∷ rules) number = apply_transformation_rules rules (
      if re.match_string rule.pattern number
      then re.replace_all_string rule.pattern number rule.replacement
      else number)

  -- compileDialplanRules
  abbrev pub compile_dialplan_rules : List DialplanRule → List TransformationRule
  compile_dialplan_rules rows = map rule_of (keep (λ r. re.compiles r.pattern) rows)

  abbrev pub all_compile : List TransformationRule → Bool
  all_compile [] = true
  all_compile (r ∷ rules) = re.compiles r.pattern && all_compile rules

  -- loadDialplan
  unfoldable pub load_dialplan : Option DialplanConfig → List TransformationRule
  load_dialplan none = default_transformation_rules
  load_dialplan (some cfg) =
      if all_compile cfg.rules then cfg.rules else default_transformation_rules

  -- What seeds the table.
  abbrev pub seeds : Option DialplanConfig → List TransformationRule
  seeds none = default_transformation_rules
  seeds (some cfg) = if not (is_empty cfg.rules) then cfg.rules else default_transformation_rules

  -- The rows of the seeds from an index on.
  unfoldable pub seed_rows : ℕ → List TransformationRule → List DialplanRule
  seed_rows i [] = []
  seed_rows i (r ∷ rules) =
      let rest = seed_rows (suc i) rules in
      if re.compiles r.pattern
      then record { position = i; pattern = r.pattern; replacement = r.replacement; enabled = true }
        ∷ rest
      else rest

  -- seedDialplanRules, on the rows of the table; nothing stands for an error
  unfoldable pub seed_dialplan_rules :
      DialplanTable → Option DialplanConfig → List DialplanRule → Option (List DialplanRule)
  seed_dialplan_rules db cfg table =
      let rows = seed_rows 0 (seeds cfg) in
      if not db.counts
      then none
      else if not (is_empty table) || is_empty rows
      then some table
      else if db.creates
      then some rows
      else none

  -- loadDialplanFromDB: the table after it, and the rules
  unfoldable pub load_dialplan_from_db :
      DialplanTable
      → Option DialplanConfig
      → List DialplanRule
      → Option (List DialplanRule × List TransformationRule)
  load_dialplan_from_db db cfg table = elim (seed_dialplan_rules db cfg table) [
    | none ↦ none
    | some rows ↦
        if db.finds
        then some (rows, compile_dialplan_rules (db.by_position (keep (λ r. r.enabled) rows)))
        else none
  ]

  -- reloadDialplan, on the table and the active rules; the Boolean tells whether it returned nil
  unfoldable pub reload_dialplan :
      DialplanTable
      → Option DialplanConfig
      → List DialplanRule × List TransformationRule
      → Bool × List DialplanRule × List TransformationRule
  reload_dialplan db cfg (table, active) =
      if not (dialplan_source cfg == "db")
      then (true, table, active)
      else (elim (load_dialplan_from_db db cfg table) [
        | none ↦ (false, table, active)
        | some (rows, rules) ↦ (true, rows, rules)
      ])
