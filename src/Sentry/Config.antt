-- ===== src/Sentry/Config.antt =====
-- The settings of the sentry with their defaults (SecurityConfig of gofaxlib/config.go). A duration
-- is written as a text, which time.ParseDuration reads; here that is an argument, which answers
-- nothing for an error or a negative duration.
use gofaxserver.Prelude.{
  ℕ, ◌*◌, String, Option, none, some, List, [], ◌∷◌, ltb, if◌then◌else◌, is_empty,
}

pub record SecurityConfig : Type 0 where
  pub fail_threshold : ℕ
  pub fail_window : String
  pub ban_durations : List String
  pub whitelist_cidrs : List String

-- Threshold
abbrev pub threshold : SecurityConfig → ℕ
threshold c = if ltb 0 c.fail_threshold then c.fail_threshold else 5

-- A second, and the 5 minutes of blockedLogSampleInterval, in nanoseconds.
abbrev pub second : ℕ
second = 1000000000

abbrev pub blocked_log_sample_interval : ℕ
blocked_log_sample_interval = 5 * (60 * second)

abbrev positive : Option ℕ → Option ℕ
positive none = none
positive (some d) = if ltb 0 d then some d else none

module _ (parse_duration : String → Option ℕ) where
  -- Window
  abbrev pub window : SecurityConfig → ℕ
  window c = elim (positive (parse_duration c.fail_window)) [ some d ↦ d | none ↦ 60 * second ]

  unfoldable pub readable : List String → List ℕ
  readable [] = []
  readable (s ∷ ss) =
      let rest = readable ss in
      elim (positive (parse_duration s)) [ some d ↦ d ∷ rest | none ↦ rest ]

  abbrev default_durations : List ℕ
  default_durations = 600 * second ∷ 3600 * second ∷ 86400 * second ∷ []

  -- Durations
  unfoldable pub durations : SecurityConfig → List ℕ
  durations c =
      if is_empty c.ban_durations
      then default_durations
      else let out = readable c.ban_durations in if is_empty out then default_durations else out
