-- ===== src/Monitoring/Sentry/Laws.antt =====
-- What reaches Sentry, and when.
use pybmpmon.Base.{◌≡◌, refl, Bool, true, false, ◌||◌, List, [], ◌∷◌, Option, arith, if◌then◌else◌}
use pybmpmon.Monitoring.Sentry.{
  Text, logs, sends, SentryState, no_sentry, Answer, not_installed, init_import_error, init_raises,
  initialised, init_sentry, get_sentry_sdk, log_parse_error, capture_of, capture_parse_error,
}

-- Calls of `init_sentry`, one after the other: whether a DSN is set, and how the SDK answers.
unfoldable pub init_all : List (Bool × Answer) → SentryState → SentryState
unfolding init_sentry
init_all [] s = s
init_all ((dsn, answer) ∷ calls) s =
    let (result, written, t) = init_sentry dsn answer s in init_all calls t

abbrev pub succeeded : Bool × Answer → Bool
succeeded (false, answer) = false
succeeded (true, not_installed) = false
succeeded (true, init_import_error) = false
succeeded (true, init_raises) = false
succeeded (true, initialised) = true

-- The SDK could be imported, whatever its `init` did.
abbrev pub was_imported : Bool × Answer → Bool
was_imported (false, answer) = false
was_imported (true, not_installed) = false
was_imported (true, init_import_error) = true
was_imported (true, init_raises) = true
was_imported (true, initialised) = true

abbrev pub any {ℓ} : {A : Type ℓ} → (A → Bool) → List A → Bool
any p [] = false
any p (x ∷ xs) = p x || any p xs

init_all_lem :
    (calls : List (Bool × Answer)) (s : SentryState)
    → ((init_all calls s).enabled ≡ (s.enabled || any succeeded calls))
      × ((init_all calls s).sdk ≡ (s.sdk || any was_imported calls))
unfolding init_all init_sentry
init_all_lem [] s = ground arith
init_all_lem ((false, answer) ∷ calls) s = init_all_lem calls s
init_all_lem ((true, not_installed) ∷ calls) s = init_all_lem calls s
init_all_lem ((true, init_import_error) ∷ calls) s =
    ground (arith, init_all_lem calls (record s { sdk = true }))
init_all_lem ((true, init_raises) ∷ calls) s =
    ground (arith, init_all_lem calls (record s { sdk = true }))
init_all_lem ((true, initialised) ∷ calls) s =
    ground (arith, init_all_lem calls (record { enabled = true; sdk = true }))

-- A call that succeeded has imported the SDK.
succeeded_imported :
    (calls : List (Bool × Answer)) → any succeeded calls ≡ true → any was_imported calls ≡ true
succeeded_imported [] h = h
succeeded_imported ((false, answer) ∷ calls) h = succeeded_imported calls h
succeeded_imported ((true, not_installed) ∷ calls) h = succeeded_imported calls h
succeeded_imported ((true, init_import_error) ∷ calls) h = refl
succeeded_imported ((true, init_raises) ∷ calls) h = refl
succeeded_imported ((true, initialised) ∷ calls) h = refl

-- From the start of the module, whatever calls of `init_sentry` are made: `get_sentry_sdk`
-- returns the SDK exactly if one of them succeeded, but `capture_parse_error` sends something
-- exactly if one of them could import the SDK, whether or not its `init` succeeded. It always
-- logs, first and once.
pub get_sentry_sdk-init_all :
    {E : Type 0} (calls : List (Bool × Answer)) (type_of_error peer message : Text)
    (hex : Option Text) (exception : Option E)
    → let s = init_all calls no_sentry in
      (get_sentry_sdk s ≡ any succeeded calls)
      × (capture_parse_error s type_of_error peer message hex exception
          ≡ logs (log_parse_error type_of_error peer message hex)
            ∷ (if any was_imported calls
                then sends (capture_of type_of_error peer message hex exception) ∷ []
                else []))
unfolding get_sentry_sdk capture_parse_error
get_sentry_sdk-init_all calls type_of_error peer message hex exception =
    let (enabled, sdk) = init_all_lem calls no_sentry in
    (ground (arith, enabled, sdk, succeeded_imported calls), rw sdk refl)
