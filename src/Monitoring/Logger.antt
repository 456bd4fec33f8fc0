-- ===== src/Monitoring/Logger.antt =====
-- src/pybmpmon/monitoring/logger.py: `configure_logging`, on what it changes: Sentry, and the level of
-- the root logger, which `logging.basicConfig` sets once. The processors of structlog are left out.
use pybmpmon.Base.{
  ℕ, ◌-◌, Bool, true, false, ◌&&◌, List, [], ◌∷◌, map, ◌++◌, Option, none, some, leb, if◌then◌else◌,
}
use pybmpmon.Base.Dict.{put}
use pybmpmon.Utils.Address.{same_bytes}
use pybmpmon.Monitoring.Sentry.{
  Text, info, LogEntry, log_event, sentry_logging_enabled, SentryState, Answer, init_sentry,
}

-- `str.upper` on ASCII
abbrev pub upper_code : ℕ → ℕ
upper_code c = if leb 97 c && leb c 122 then c - 32 else c

abbrev pub upper : Text → Text
upper = map upper_code

-- "level", of an event, which is a dict.
abbrev pub level_key : Text
level_key = 108 ∷ 101 ∷ 118 ∷ 101 ∷ 108 ∷ []

unfoldable pub add_log_level : Text → List (Text × Text) → List (Text × Text)
unfolding put
add_log_level method_name event_dict = put same_bytes level_key (upper method_name) event_dict

pub record Logging : Type 0 where
  pub sentry : SentryState
  pub root_level : Option ℕ

-- `logging.INFO`
abbrev pub info_level : ℕ
info_level = 20

abbrev pub or_info : Option ℕ → ℕ
or_info none = info_level
or_info (some level) = level

-- `logging.basicConfig` leaves a root logger that has a handler as it is.
abbrev pub basic_config : ℕ → Option ℕ → Option ℕ
basic_config level none = some level
basic_config level (some old) = some old

abbrev pub after_init :
    ℕ → Logging → Option Bool × List LogEntry × SentryState → Option (List LogEntry) × Logging
after_init level l (none, written, s) = (none, record l { sentry = s })
after_init level l (some false, written, s) =
    (some written, record { sentry = s; root_level = basic_config level l.root_level })
after_init level l (some true, written, s) = (
  some (written ++ log_event info sentry_logging_enabled),
  record { sentry = s; root_level = basic_config level l.root_level },
)

-- What is logged, or `none` if it raises. `attribute` reads an attribute of the module `logging`.
unfoldable pub configure_logging :
    (Text → Option ℕ) → Text → Bool → Answer → Logging → Option (List LogEntry) × Logging
unfolding init_sentry
configure_logging attribute log_level dsn answer l =
    after_init (or_info (attribute (upper log_level))) l (init_sentry dsn answer l.sentry)
