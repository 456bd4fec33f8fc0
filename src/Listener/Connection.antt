-- ===== src/Listener/Connection.antt =====
-- listener.py: `_handle_connection`. What the peer sends before it closes the connection is a list of
-- bytes; a reset of the connection ends the loop as its
-- end does, and may be raised again when the connection is closed.
use pybmpmon.Base.{
  ℕ, zero, suc, ◌-◌, List, [], ◌++◌, length, take, drop, Option, none, some, ok, err, leb,
  value_error, bmp_parse_error, bgp_parse_error, out_of_fuel, if◌then◌else◌,
}
use mathlib.Core.Option as Option_lemmas
use pybmpmon.Utils.Binary.{IpAddress}
use pybmpmon.Utils.Address.{same_peer}
use pybmpmon.Protocol.Bmp.{BmpHeader, bmp_header_size}
use pybmpmon.Protocol.BmpParser.Header.{parse_bmp_header}
use pybmpmon.Monitoring.Collector.{remove_peer}
use pybmpmon.Listener.Service.{
  Outside, Service, Action, Attempt, done, raises, parse_failed, refused, incomplete_read, ◌>>◌,
  not_running, raise, count_received, count_error,
}
use pybmpmon.Listener.Handlers.{update_peer_last_seen, handle_bmp_message}

-- `reader.readexactly(count)`, and the bytes that are left: none, if there are too few.
unfoldable pub read_exactly : ℕ → List ℕ → Attempt (List ℕ) × List ℕ
read_exactly count stream =
    if leb count (length stream)
    then (done (take count stream), drop count stream)
    else (raises incomplete_read, [])

-- The rest of the message whose header was read.
abbrev with_body :
    BmpHeader → List ℕ → Attempt (List ℕ) × List ℕ → Attempt (BmpHeader × List ℕ) × List ℕ
with_body header header_data (done message_body, rest) =
    (done (header, header_data ++ message_body), rest)
with_body header header_data (raises e, rest) = (raises e, rest)

unfoldable pub read_message : List ℕ → List ℕ → Attempt (BmpHeader × List ℕ) × List ℕ
unfolding read_exactly
read_message header_data stream = elim (parse_bmp_header header_data) [
  | err x ↦ (raises (parse_failed x), stream)
  | ok header ↦ with_body header header_data (read_exactly (header.length - bmp_header_size) stream)
]

-- How `writer.wait_closed()` ends, which raises the error of a connection that was lost.
pub data Closing : Type 0 where
  closes lost : Closing

-- The `finally`: an exception of `wait_closed` leaves out the rest of it.
unfoldable pub close_connection : Closing → Option IpAddress → Service → Service
close_connection closes peer_ip s = record s {
  collector = remove_peer same_peer peer_ip s.collector;
}
close_connection lost peer_ip s = s

module _ (o : Outside) where
  -- What the inner `try` does with the message. The text "unknown" is no INET, so that the statement
  -- of `_update_peer_last_seen` fails.
  unfoldable pub process_message :
      Option IpAddress → Attempt (BmpHeader × List ℕ) → Action (Unit {0})
  process_message peer_ip (raises e) = raise e
  process_message none (done message) = raise refused
  process_message (some peer_ip) (done (header, full_message)) = do
    update_peer_last_seen o peer_ip
    count_received o (some peer_ip)
    handle_bmp_message o header.msg_type full_message peer_ip

  -- What each of the three `except` clauses does, which log, count and continue.
  unfoldable pub counted_error : Option IpAddress → Attempt (Unit {0}) × Service → Service
  counted_error peer_ip (done u, s) = s
  counted_error peer_ip (raises e, s) = count_error o peer_ip s

  -- The `except` clauses catch every exception. A loop of a parser that does not end is none: then
  -- there is no service behind it.
  unfoldable pub caught : Option IpAddress → Attempt (Unit {0}) × Service → Option Service
  unfolding counted_error
  caught peer_ip (raises (parse_failed out_of_fuel), s) = none
  caught peer_ip (raises (parse_failed value_error), s) =
      some (counted_error peer_ip (raises (parse_failed value_error), s))
  caught peer_ip (raises (parse_failed bmp_parse_error), s) =
      some (counted_error peer_ip (raises (parse_failed bmp_parse_error), s))
  caught peer_ip (raises (parse_failed bgp_parse_error), s) =
      some (counted_error peer_ip (raises (parse_failed bgp_parse_error), s))
  caught peer_ip (raises not_running, s) = some (counted_error peer_ip (raises not_running, s))
  caught peer_ip (raises refused, s) = some (counted_error peer_ip (raises refused, s))
  caught peer_ip (raises incomplete_read, s) =
      some (counted_error peer_ip (raises incomplete_read, s))
  caught peer_ip (done u, s) = some (counted_error peer_ip (done u, s))

  -- `while True`: the fuel is the number of rounds. `none` stands for a loop that goes on, this one or
  -- one in the handling of a message.
  unfoldable pub serve : ℕ → Option IpAddress → List ℕ → Service → Option Service
  serve zero peer_ip stream s = none
  serve (suc fuel) peer_ip stream s =
      let (message, rest) =
        read_message (take bmp_header_size stream) (drop bmp_header_size stream) in
      let served =
        Option_lemmas.bind (caught peer_ip (process_message peer_ip message s))
          (serve fuel peer_ip rest) in
      if leb bmp_header_size (length stream) then served else some s

  -- A round takes six bytes at least.
  unfoldable pub handle_connection : Closing → Option IpAddress → List ℕ → Service → Option Service
  unfolding serve close_connection
  handle_connection closing peer_ip stream s =
      Option_lemmas.map (close_connection closing peer_ip)
        (serve (suc (length stream)) peer_ip stream s)
