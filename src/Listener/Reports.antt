-- ===== src/Listener/Reports.antt =====
-- listener.py: what the three `except` clauses of `_handle_connection` log and send to Sentry for one
-- message. The text of the exception and the hexadecimal text of the header are arguments.
use Prim.Native.Char.{code}
use Prim.Native.String.{String}
use pybmpmon.Base.{
  ℕ, ◌+◌, ◌≡◌, List, [], ◌∷◌, refl, none, some, bmp_parse_error, bgp_parse_error, value_error,
  out_of_fuel, arith, true,
}
use pybmpmon.Monitoring.Sentry.{
  Text, error, Event, Capture, Key, peer_ip, error_message, data_hex, text, LogEntry, Output, logs,
  sends, SentryState, capture_parse_error,
}
use pybmpmon.Monitoring.Sentry as Sentry
use pybmpmon.Listener.Service.{Exception, parse_failed, not_running, refused, incomplete_read}

-- The code points of a text.
abbrev pub codes : String → Text
codes String.[] = []
codes (String.◌∷◌ c s) = code c ∷ codes s

abbrev pub reported : Event → List (Key × Sentry.Value) → Output Exception
reported event fields = logs (record { level = error; event = event; fields = fields })

module _ (s : SentryState) (peer message hex : Text) where
  abbrev pub peer_and_error : List (Key × Sentry.Value)
  peer_and_error = (peer_ip, text peer) ∷ (error_message, text message) ∷ []

  unfoldable pub bmp_report : Exception → List (Output Exception)
  bmp_report e =
      reported Sentry.bmp_parse_error
        ((peer_ip, text peer) ∷ (error_message, text message) ∷ (data_hex, text hex) ∷ [])
      ∷ capture_parse_error s (codes "bmp_parse_error") peer message (some hex) (some e)

  unfoldable pub bgp_report : Exception → List (Output Exception)
  bgp_report e =
      reported Sentry.bgp_parse_error peer_and_error
      ∷ capture_parse_error s (codes "bgp_parse_error") peer message none (some e)

  unfoldable pub other_report : Exception → List (Output Exception)
  other_report e =
      reported Sentry.message_processing_error peer_and_error
      ∷ capture_parse_error s (codes "message_processing_error") peer message none (some e)

  unfoldable pub report : Exception → List (Output Exception)
  unfolding bmp_report bgp_report other_report
  report (parse_failed bmp_parse_error) = bmp_report (parse_failed bmp_parse_error)
  report (parse_failed bgp_parse_error) = bgp_report (parse_failed bgp_parse_error)
  report (parse_failed value_error) = other_report (parse_failed value_error)
  report (parse_failed out_of_fuel) = other_report (parse_failed out_of_fuel)
  report not_running = other_report not_running
  report refused = other_report refused
  report incomplete_read = other_report incomplete_read

-- The issues in Sentry, where the SDK's logging integration makes this number of each log.
abbrev pub issues : {E : Type 0} → (LogEntry → ℕ) → List (Output E) → ℕ
issues integration [] = 0
issues integration (logs entry ∷ rest) = integration entry + issues integration rest
issues integration (sends capture ∷ rest) = 1 + issues integration rest

issues_lem :
    (integration : LogEntry → ℕ)
    → ((entry : LogEntry) → entry.level ≡ error → integration entry ≡ 1)
    → (first second : LogEntry) → first.level ≡ error
    → second.level ≡ error
    → integration first + (integration second + (1 + 0)) ≡ 3
issues_lem integration one first second h k = omega (arith, one first h, one second k)

-- With the SDK, and its integration that makes one issue of each log of the level "error", every
-- message that fails is reported to Sentry three times, whatever the exception.
pub report_thrice :
    (integration : LogEntry → ℕ)
    → ((entry : LogEntry) → entry.level ≡ error → integration entry ≡ 1)
    → (s : SentryState) (peer message hex : Text) (e : Exception) → s.sdk ≡ true
    → issues integration (report s peer message hex e) ≡ 3
unfolding report bmp_report bgp_report other_report capture_parse_error Sentry.log_parse_error
report_thrice integration one s peer message hex (parse_failed bmp_parse_error) sdk =
    rw sdk (issues_lem integration one _ _ refl refl)
report_thrice integration one s peer message hex (parse_failed bgp_parse_error) sdk =
    rw sdk (issues_lem integration one _ _ refl refl)
report_thrice integration one s peer message hex (parse_failed value_error) sdk =
    rw sdk (issues_lem integration one _ _ refl refl)
report_thrice integration one s peer message hex (parse_failed out_of_fuel) sdk =
    rw sdk (issues_lem integration one _ _ refl refl)
report_thrice integration one s peer message hex not_running sdk =
    rw sdk (issues_lem integration one _ _ refl refl)
report_thrice integration one s peer message hex refused sdk =
    rw sdk (issues_lem integration one _ _ refl refl)
report_thrice integration one s peer message hex incomplete_read sdk =
    rw sdk (issues_lem integration one _ _ refl refl)
