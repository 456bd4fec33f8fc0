-- ===== src/Monitoring/Sentry.antt =====
-- src/pybmpmon/monitoring/sentry_helper.py: what the module keeps of the Sentry SDK, and what its
-- functions log and send. A text is its code points; the SDK itself is not under src.
pub mod Laws
mod Examples
use pybmpmon.Base.{
  ℕ, Bool, true, false, List, [], ◌∷◌, ◌++◌, Option, none, some, take, if◌then◌else◌,
}

abbrev pub Text : Type 0
Text = List ℕ

pub data Level : Type 0 where
  debug info warning error : Level

-- The names of the events that are logged.
pub data Event : Type 0 where
  sentry_disabled sentry_initialized sentry_sdk_not_installed sentry_logging_enabled : Event
  peer_up peer_down parse_error route_processing_error database_error : Event
  bmp_parse_error bgp_parse_error message_processing_error : Event

-- The names of the fields, and their values.
pub data Key : Type 0 where
  error_type peer_ip error_message data_hex bmp_peer bgp_peer bgp_peer_asn reason_code : Key
  route_count operation table row_count : Key

pub data Value : Type 0 where
  text : Text → Value
  number : ℕ → Value

pub record LogEntry : Type 0 where
  pub level : Level
  pub event : Event
  pub fields : List (Key × Value)

-- What a call of the SDK sends: an exception with tags and the hexadecimal data as context, or a
-- message with its extras.
pub data Capture (E : Type 0) : Type 0 where
  capture_exception : E → List (Key × Value) → Option Text → Capture E
  capture_message : Text → List (Key × Value) → Capture E

pub data Output (E : Type 0) : Type 0 where
  logs : LogEntry → Output E
  sends : Capture E → Output E

-- `_sentry_enabled`, and whether `_sentry_sdk` is set.
pub record SentryState : Type 0 where
  pub enabled : Bool
  pub sdk : Bool

abbrev pub no_sentry : SentryState
no_sentry = record { enabled = false; sdk = false }

-- How the SDK answers: it is not installed; or its `init` raises ImportError or another exception; or
-- all goes well.
pub data Answer : Type 0 where
  not_installed init_import_error init_raises initialised : Answer

-- An event of `init_sentry` or `configure_logging`, whose fields (settings and fixed texts) are left
-- out.
abbrev pub log_event : Level → Event → List LogEntry
log_event level event = record { level = level; event = event; fields = [] } ∷ []

-- What `init_sentry` returns, and `none` if it raises.
unfoldable pub init_sentry : Bool → Answer → SentryState → Option Bool × List LogEntry × SentryState
init_sentry false answer s = (some false, log_event debug sentry_disabled, s)
init_sentry true not_installed s = (some false, log_event warning sentry_sdk_not_installed, s)
init_sentry true init_import_error s =
    (some false, log_event warning sentry_sdk_not_installed, record s { sdk = true })
init_sentry true init_raises s = (none, [], record s { sdk = true })
init_sentry true initialised s =
    (some true, log_event info sentry_initialized, record { enabled = true; sdk = true })

abbrev pub is_sentry_enabled : SentryState → Bool
is_sentry_enabled s = s.enabled

-- Whether `get_sentry_sdk` returns the SDK.
unfoldable pub get_sentry_sdk : SentryState → Bool
get_sentry_sdk s = if s.enabled then s.sdk else false

-- `if data_hex: log_data[…] = data_hex[:length]`
abbrev pub truncated : ℕ → Option Text → List (Key × Value)
truncated length none = []
truncated length (some []) = []
truncated length (some (c ∷ cs)) = (data_hex, text (take length (c ∷ cs))) ∷ []

abbrev pub optional_number : Key → Option ℕ → List (Key × Value)
optional_number key none = []
optional_number key (some n) = (key, number n) ∷ []

abbrev pub optional_text : Key → Option Text → List (Key × Value)
optional_text key none = []
optional_text key (some []) = []
optional_text key (some (c ∷ cs)) = (key, text (c ∷ cs)) ∷ []

unfoldable pub log_peer_up_event : Text → Text → ℕ → LogEntry
log_peer_up_event peer bgp asn = record {
  level = info;
  event = peer_up;
  fields = (bmp_peer, text peer) ∷ (bgp_peer, text bgp) ∷ (bgp_peer_asn, number asn) ∷ [];
}

unfoldable pub log_peer_down_event : Text → ℕ → LogEntry
log_peer_down_event peer reason = record {
  level = info;
  event = peer_down;
  fields = (bmp_peer, text peer) ∷ (reason_code, number reason) ∷ [];
}

unfoldable pub log_parse_error : Text → Text → Text → Option Text → LogEntry
log_parse_error type_of_error peer message hex = record {
  level = error;
  event = parse_error;
  fields =
      ((error_type, text type_of_error) ∷ (peer_ip, text peer) ∷ (error_message, text message) ∷ [])
      ++ truncated 256 hex;
}

unfoldable pub log_route_processing_error : Text → Text → Option ℕ → LogEntry
log_route_processing_error peer message count = record {
  level = error;
  event = route_processing_error;
  fields =
      ((peer_ip, text peer) ∷ (error_message, text message) ∷ [])
      ++ optional_number route_count count;
}

unfoldable pub log_database_error : Text → Text → Option Text → Option ℕ → LogEntry
log_database_error name message table_name rows = record {
  level = error;
  event = database_error;
  fields =
      ((operation, text name) ∷ (error_message, text message) ∷ [])
      ++ (optional_text table table_name ++ optional_number row_count rows);
}

abbrev pub hex_context : Option Text → Option Text
hex_context none = none
hex_context (some []) = none
hex_context (some (c ∷ cs)) = some (take 512 (c ∷ cs))

-- " from ", ": "
abbrev pub from_text : Text
from_text = 32 ∷ 102 ∷ 114 ∷ 111 ∷ 109 ∷ 32 ∷ []

abbrev pub colon_text : Text
colon_text = 58 ∷ 32 ∷ []

-- "Fallback if no exception provided"
abbrev pub capture_of : {E : Type 0} → Text → Text → Text → Option Text → Option E → Capture E
capture_of type_of_error peer message hex (some exception) =
    capture_exception exception ((error_type, text type_of_error) ∷ (peer_ip, text peer) ∷ [])
      (hex_context hex)
capture_of type_of_error peer message hex none =
    capture_message (type_of_error ++ (from_text ++ (peer ++ (colon_text ++ message))))
      (((error_type, text type_of_error) ∷ (peer_ip, text peer) ∷ []) ++ truncated 512 hex)

-- The exception is any value that is true.
unfoldable pub capture_parse_error :
    {E : Type 0} → SentryState → Text → Text → Text → Option Text → Option E → List (Output E)
unfolding log_parse_error
capture_parse_error s type_of_error peer message hex exception =
    logs (log_parse_error type_of_error peer message hex)
    ∷ (if s.sdk then sends (capture_of type_of_error peer message hex exception) ∷ [] else [])

abbrev pub capture_peer_up_event : Text → Text → ℕ → LogEntry
unfolding log_peer_up_event
capture_peer_up_event peer bgp asn = log_peer_up_event peer bgp asn

abbrev pub capture_peer_down_event : Text → ℕ → LogEntry
unfolding log_peer_down_event
capture_peer_down_event peer reason = log_peer_down_event peer reason
