-- ===== src/Inbound/Admitting.antt =====
-- Which calls are let in, and what a refused call leaves.
use gofaxserver.Prelude.{
  String, ◌≡◌, refl, ap, ◌⊎◌, inl, inr, true, false, none, some, arith, Eq_text, Bool-cases,
  Option-cases, is_some,
}
use gofaxserver.Sentry.Threshold.{is_banned-none}
use gofaxserver.Sentry.Release.{janitor_tick_lem}
use gofaxserver.Sentry.Janitor.{janitor_tick}
use gofaxserver.Registry.{fs_gateway_acl}
use gofaxserver.Inbound.{unauthorized, forbidden, admitted, admit}
use gofaxserver.Prelude.Map.{find_key}
use gofaxserver.Prelude.Text.{before_colon}
use gofaxserver.Sentry.State.{is_banned, is_gateway_address, SentryEnv, IpSentry}
use gofaxserver.Sentry.Steps.{Reach, AnyEnv}

-- Right after janitorTick, at any moment of a run, a call is admitted if a gateway's ACL lets its
-- address in, with that gateway's name and without a trace in the sentry, and is refused otherwise.
pub admit-janitor_tick :
    (env : SentryEnv) (ip : String) (s : IpSentry)
    → Reach AnyEnv s
    → ((gateway : String) × (fs_gateway_acl ip env.registry ≡ some gateway)
        × (admit env ip (janitor_tick env s)
            ≡ (admitted (before_colon gateway), janitor_tick env s)))
      ⊎ ((is_gateway_address env ip ≡ false)
          × (((admit env ip (janitor_tick env s)).0 ≡ forbidden)
              ⊎ ((admit env ip (janitor_tick env s)).0 ≡ unauthorized)))
unfolding admit
admit-janitor_tick env ip s r =
    let after = janitor_tick env s in
    elim (Option-cases (fs_gateway_acl ip env.registry)) [
      | inr (gateway, known) ↦
          let let_in : is_gateway_address env ip ≡ true = ap is_some known in
          let gone : find_key ip after.banned ≡ none =
            ground (arith, janitor_tick_lem env s ip r, let_in) in
          let free = is_banned-none env ip after gone in
          inl (gateway, known, rw (admit, free, known) refl)
      | inl unknown ↦ inr (
        ap is_some unknown,
        elim (Bool-cases (is_banned env ip after)) [
          | inl banned ↦ inl (rw (admit, banned) refl)
          | inr free ↦ inr (rw (admit, free, unknown) refl)
        ],
      )
    ]
