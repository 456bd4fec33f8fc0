-- ===== src/Listener/ConnectionExamples.antt =====
-- Tests of what is kept and reported of connections, and the theorems about it applied.
use pybmpmon.Base.{ℕ, ◌≡◌, refl, true, [], ◌∷◌, some, value_error, List}
use pybmpmon.Base.Int.{sub_ℕ}
use pybmpmon.Utils.Binary.{IpAddress, ipv4}
use pybmpmon.Monitoring.Sentry.{Level, debug, info, warning, error, LogEntry, SentryState}
use pybmpmon.Listener.Service.{parse_failed}
use pybmpmon.Listener.Connection.{closes}
use pybmpmon.Listener.Reports.{report, issues, report_thrice}
use pybmpmon.Listener.Sessions.{
  Sessions, Event, opens, ends, run, open_session, close_session, close_session-duration,
  close_session-overlap, Logs,
}

abbrev router : IpAddress
router = ipv4 (192 ∷ 0 ∷ 2 ∷ 1 ∷ [])

abbrev other : IpAddress
other = ipv4 (192 ∷ 0 ∷ 2 ∷ 7 ∷ [])

abbrev none_connected : Sessions
none_connected = record { active_connections = []; connection_start_times = [] }

-- Another peer comes, and goes without `wait_closed` raising.
abbrev others : List Event
others = opens 2 (some other) 110 ∷ ends closes 2 (some other) 120 ∷ []

close_session-duration_example :
    (close_session closes 1
      (some router)
      130
      (run others (open_session 1 (some router) 100 none_connected))).0
    ≡ some (sub_ℕ 130 100)
close_session-duration_example =
    close_session-duration 1 (some router) 100 130 others none_connected
      ((λ h. cc), ((λ h. cc), tt))

close_session-overlap_example :
    let both = open_session 3 (some router) 105 (open_session 1 (some router) 100 none_connected) in
    Logs (some router) 105 1 3 130 140 others [] both
    × Logs (some router) 105 3 1 130 140 others [] both
close_session-overlap_example =
    close_session-overlap 1 3 (some router) 100 105 none_connected 130 140 others []
      ((λ h. cc), ((λ h. cc), tt)) tt

-- The integration makes an issue of a log of the level "error" only.
abbrev of_level : Level → ℕ
of_level debug = 0
of_level info = 0
of_level warning = 0
of_level error = 1

abbrev integration : LogEntry → ℕ
integration entry = of_level entry.level

abbrev with_sentry : SentryState
with_sentry = record { enabled = true; sdk = true }

report_thrice_example :
    issues integration (report with_sentry (1 ∷ []) (2 ∷ []) (3 ∷ []) (parse_failed value_error))
    ≡ 3
report_thrice_example =
    report_thrice integration (λ entry h. rw h refl) with_sentry (1 ∷ []) (2 ∷ []) (3 ∷ [])
      (parse_failed value_error) refl
