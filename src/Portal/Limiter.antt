-- ===== src/Portal/Limiter.antt =====
-- RateLimiter of portal/internal/auth/auth.go. A call takes the time that it would read; the lock makes
-- it one step. Times are nanoseconds.
pub mod Reference
use gofaxserver.Prelude.{
  ℕ, ◌+◌, ◌*◌, String, Bool, true, false, List, [], ◌∷◌, ◌++◌, ltb, leb, if◌then◌else◌, Eq_text,
  length, is_empty, keep,
}
use gofaxserver.Prelude.Map.{put, find_key, or_nil, Map}

pub record RateLimiter : Type 0 where
  pub window : ℕ
  pub hits : Map String (List ℕ)
  pub last_gc : ℕ

-- NewRateLimiter
unfoldable pub new_rate_limiter : ℕ → ℕ → RateLimiter
new_rate_limiter window now = record { window = window; hits = []; last_gc = now }

-- now.Sub(t) < r.window
abbrev pub is_recent : ℕ → ℕ → ℕ → Bool
is_recent window now t = ltb now (t + window)

-- The hits of a key that are kept.
abbrev pub kept_hits : ℕ → ℕ → List ℕ → List ℕ
kept_hits window now ts = keep (is_recent window now) ts

-- The loop that drops old hits, and keys that have none left.
unfoldable pub collect : ℕ → ℕ → Map String (List ℕ) → Map String (List ℕ)
collect window now [] = []
collect window now ((k, ts) ∷ hits) =
    let rest = collect window now hits in
    let kept = kept_hits window now ts in if is_empty kept then rest else (k, kept) ∷ rest

unfoldable pub collected : ℕ → RateLimiter → RateLimiter
unfolding collect
collected now r =
    if ltb (r.last_gc + 10 * r.window) now
    then record r { hits = collect r.window now r.hits; last_gc = now }
    else r

-- Allow
unfoldable pub allow : String → ℕ → ℕ → RateLimiter → Bool × RateLimiter
unfolding collected
allow key limit now r0 =
    let r = collected now r0 in
    let kept = kept_hits r.window now (or_nil (find_key key r.hits)) in
    if leb limit (length kept)
    then (false, record r { hits = put key kept r.hits })
    else (true, record r { hits = put key (kept ++ now ∷ []) r.hits })
