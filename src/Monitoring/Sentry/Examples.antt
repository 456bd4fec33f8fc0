-- ===== src/Monitoring/Sentry/Examples.antt =====
-- Tests of sentry_helper.py and logger.py, and their theorem applied to some calls.
use pybmpmon.Base.{
  ℕ, ◌≡◌, refl, Bool, true, List, [], ◌∷◌, Option, none, some, arith, length, replicate,
  if◌then◌else◌, ◌==◌,
}
use pybmpmon.Base.Dict.{put}
use pybmpmon.Monitoring.Sentry.{
  Text, no_sentry, Answer, init_import_error, init_raises, initialised, data_hex, text, truncated,
  logs, sends, info, sentry_initialized, sentry_logging_enabled, log_parse_error, capture_of,
  capture_parse_error, get_sentry_sdk, init_sentry,
}
use pybmpmon.Monitoring.Sentry.Laws.{
  init_all, any, succeeded, was_imported, get_sentry_sdk-init_all,
}
use pybmpmon.Monitoring.Logger.{configure_logging, add_log_level, level_key}

-- 300 digits are cut at 256.
long_data_is_cut :
    truncated 256 (some (replicate 300 48)) ≡ (data_hex, text (replicate 256 48)) ∷ []
long_data_is_cut = refl

-- The event has a level, which is overwritten in its place: "info" to "INFO".
level_overwritten :
    add_log_level (105 ∷ 110 ∷ 102 ∷ 111 ∷ []) ((level_key, []) ∷ ((1 ∷ []), (2 ∷ [])) ∷ [])
    ≡ (level_key, (73 ∷ 78 ∷ 70 ∷ 79 ∷ [])) ∷ ((1 ∷ []), (2 ∷ [])) ∷ []
unfolding add_log_level put
level_overwritten = ground (arith)

-- "debug" is 10; the root logger has a level, which stays.
abbrev attribute : Text → Option ℕ
attribute name = if length name == 5 then some 10 else none

configured_twice :
    configure_logging attribute
      (replicate 5 100)
      true
      initialised
      (record { sentry = no_sentry; root_level = some 20 })
    ≡ (
      some (
          record { level = info; event = sentry_initialized; fields = [] }
          ∷ record { level = info; event = sentry_logging_enabled; fields = [] }
          ∷ []),
      record { sentry = record { enabled = true; sdk = true }; root_level = some 20 },
    )
unfolding configure_logging init_sentry
configured_twice = refl

-- Both calls could import the SDK, but neither succeeded: a message is sent without the SDK being
-- enabled.
abbrev two_calls : List (Bool × Answer)
two_calls = (true, init_import_error) ∷ (true, init_raises) ∷ []

get_sentry_sdk-init_all_example :
    let s = init_all two_calls no_sentry in
    (get_sentry_sdk s ≡ any succeeded two_calls)
    × (capture_parse_error {E = ℕ} s (1 ∷ []) (2 ∷ []) (3 ∷ []) none (some 7)
        ≡ logs (log_parse_error (1 ∷ []) (2 ∷ []) (3 ∷ []) none)
          ∷ (if any was_imported two_calls
              then sends (capture_of {E = ℕ} (1 ∷ []) (2 ∷ []) (3 ∷ []) none (some 7)) ∷ []
              else []))
get_sentry_sdk-init_all_example =
    get_sentry_sdk-init_all {E = ℕ} two_calls (1 ∷ []) (2 ∷ []) (3 ∷ []) none (some 7)
