-- ===== src/Listener/NoEndlessLoop.antt =====
-- No message makes the service go on for ever: what the `except` clauses of `_handle_connection` catch
-- is an exception of the code.
use pybmpmon.Base.{
  ℕ, ◌≡◌, ◌≢◌, refl, List, [], ◌∷◌, Option, none, some, Result, ok, err, arith, value_error,
  bmp_parse_error, bgp_parse_error, out_of_fuel, inl, inr, Bool-cases,
}
use pybmpmon.Utils.Binary.{IpAddress}
use pybmpmon.Protocol.Bmp.{
  BmpHeader, BmpMessageType, route_monitoring, statistics_report, peer_down_notification,
  peer_up_notification, initiation, termination, BmpPerPeerHeader,
}
use pybmpmon.Protocol.Bgp.{ParsedBgpUpdate, Prefix}
use pybmpmon.Protocol.BgpParser.Update.{parse_bgp_update}
use pybmpmon.Protocol.BmpParser.Messages.{
  parse_route_monitoring_message, parse_peer_up_message, parse_peer_down_message,
}
use pybmpmon.Protocol.BmpParser.Exceptions.{parse_bmp_header-raises}
use pybmpmon.Monitoring.PeerStats.{Family}
use pybmpmon.Models.Route.{RouteUpdate}
use pybmpmon.Database.Tables.{Database}
use pybmpmon.Database.BatchWriter.{Outcome, returned, runtime_error, database_error, add_route}
use pybmpmon.Listener.Service.{
  Outside, Service, Action, Attempt, done, raises, parse_failed, not_running, refused,
  incomplete_read, and_then, pass, tick, ◌>>=◌, ◌>>◌, parsed, for_each, of_outcome, read_clock,
  execute, write_route, count_received, count_processed,
}
use pybmpmon.Listener.Handlers.{
  update_peer_last_seen, announce, withdraw, process_update, handle_route_monitoring,
  handle_peer_up, handle_peer_down, handle_bmp_message,
}
use pybmpmon.Listener.Connection.{
  read_exactly, read_message, process_message, counted_error, caught,
}
use pybmpmon.Listener.ParsersEnd.{route_monitoring_ends, peer_down_ends, peer_up_ends, update_ends}

-- Not the end that stands for a loop that goes on.
abbrev pub IsEnd : {A : Type 0} → Attempt A → Type 0
IsEnd r = r ≢ raises (parse_failed out_of_fuel)

parse_failed-IsEnd :
    {A : Type 0} (r : Result A) (s : Service) → r ≢ err out_of_fuel → IsEnd (parsed r s).0
parse_failed-IsEnd (ok a) s h e = cc
parse_failed-IsEnd (err out_of_fuel) s h e = h refl
parse_failed-IsEnd (err value_error) s h e = cc
parse_failed-IsEnd (err bmp_parse_error) s h e = cc
parse_failed-IsEnd (err bgp_parse_error) s h e = cc

module _ (o : Outside) (peer_ip : IpAddress) where
  Ends : {A : Type 0} → Action A → Type 0
  Ends m = (s : Service) → IsEnd (m s).0

  and_then-Ends :
      {A B : Type 0} (f : A → Action B)
      → ((a : A) → Ends (f a))
      → (r : Attempt A × Service) → IsEnd r.0
      → IsEnd (and_then f r).0
  unfolding Ends
  and_then-Ends f rest (done a, s) h = rest a s
  and_then-Ends f rest (raises x, s) h = λ e. h (ground arith)

  then-Ends :
      {A B : Type 0} (m : Action A) (f : A → Action B)
      → Ends m
      → ((a : A) → Ends (f a))
      → Ends (m >>= f)
  unfolding Ends
  then-Ends m f first rest s = and_then-Ends f rest (m s) (first s)

  pass-Ends : Ends pass
  unfolding Ends
  pass-Ends s e = cc

  parse_then-Ends :
      {A B : Type 0} (r : Result A) (f : A → Action B)
      → r ≢ err out_of_fuel
      → ((a : A) → Ends (f a))
      → Ends (parsed r >>= f)
  unfolding Ends
  parse_then-Ends r f h rest s = and_then-Ends f rest (parsed r s) (parse_failed-IsEnd r s h)

  read_clock-Ends : Ends (read_clock o)
  unfolding Ends read_clock
  read_clock-Ends s e = cc

  execute-Ends : (statement : Database → Database) → Ends (execute o statement)
  unfolding Ends execute
  execute-Ends statement s = elim (Bool-cases (o.refuses s.ticks)) [
    | inl p ↦ λ e. ground (arith, p, e)
    | inr p ↦ λ e. ground (arith, p, e)
  ]

  of_outcome-Ends : (r : Outcome) (s : Service) → IsEnd (of_outcome s r).0
  of_outcome-Ends (returned, w, db) s e = cc
  of_outcome-Ends (runtime_error, w, db) s e = cc
  of_outcome-Ends (database_error, w, db) s e = cc

  write_route-Ends : (route : RouteUpdate) → Ends (write_route o route)
  unfolding Ends write_route
  write_route-Ends route s =
      of_outcome-Ends (add_route (o.clock s.ticks) (o.answers s.ticks) route s.writer s.database)
        (tick s)

  count_processed-Ends : (f : Family) → Ends (count_processed o (some peer_ip) f)
  unfolding Ends count_processed
  count_processed-Ends f s e = cc

  count_received-Ends : Ends (count_received o (some peer_ip))
  unfolding Ends count_received
  count_received-Ends s e = cc

  for_each-Ends :
      {A : Type 0} (f : A → Action (Unit {0})) (as_ : List A)
      → ((a : A) → Ends (f a))
      → Ends (for_each f as_)
  unfolding Ends
  for_each-Ends f [] each = λ s e. cc
  for_each-Ends f (a ∷ as_) each =
      then-Ends (f a) (λ _. for_each f as_) (each a) (λ _. for_each-Ends f as_ each)

  module _ (peer : BmpPerPeerHeader) (u : ParsedBgpUpdate) where
    announce-Ends : (prefix : Prefix) → Ends (announce o peer_ip peer u prefix)
    unfolding announce
    announce-Ends prefix =
        then-Ends (read_clock o) _ read_clock-Ends
          λ now. then-Ends (write_route o _) _ (write_route-Ends _) λ _. count_processed-Ends _

    withdraw-Ends : (prefix : Prefix) → Ends (withdraw o peer_ip peer u prefix)
    unfolding withdraw
    withdraw-Ends prefix =
        then-Ends (read_clock o) _ read_clock-Ends
          λ now. then-Ends (write_route o _) _ (write_route-Ends _) λ _. count_processed-Ends _

    process_update-Ends : Ends (process_update o peer_ip peer u)
    unfolding process_update
    process_update-Ends =
        then-Ends (for_each (announce o peer_ip peer u) u.prefixes) _
          (for_each-Ends _ u.prefixes announce-Ends)
          (λ _. for_each-Ends _ u.withdrawn_prefixes withdraw-Ends)

  write_event-Ends :
      (statement : Database → Database) (event : ℕ → Database → Database)
      → Ends (execute o statement >> (read_clock o >>= λ now. execute o (event now)))
  write_event-Ends statement event =
      then-Ends (execute o statement) _ (execute-Ends statement)
        λ _. then-Ends (read_clock o) _ read_clock-Ends λ now. execute-Ends (event now)

  handle_bmp_message-Ends :
      (t : BmpMessageType) (xs : List ℕ) → Ends (handle_bmp_message o t xs peer_ip)
  unfolding handle_bmp_message handle_route_monitoring handle_peer_up handle_peer_down
  handle_bmp_message-Ends route_monitoring xs =
      parse_then-Ends (parse_route_monitoring_message xs) _ (route_monitoring_ends xs) λ message.
        parse_then-Ends (parse_bgp_update message.bgp_update) _ (update_ends message.bgp_update)
          λ u. process_update-Ends message.per_peer_header u
  handle_bmp_message-Ends peer_up_notification xs =
      parse_then-Ends (parse_peer_up_message xs) _ (peer_up_ends xs) λ message.
        then-Ends (read_clock o) _ read_clock-Ends
          λ first_seen. then-Ends (read_clock o) _ read_clock-Ends λ last_seen. write_event-Ends _ _
  handle_bmp_message-Ends peer_down_notification xs =
      parse_then-Ends (parse_peer_down_message xs) _ (peer_down_ends xs)
        λ message. then-Ends (read_clock o) _ read_clock-Ends λ marked. write_event-Ends _ _
  handle_bmp_message-Ends initiation xs = pass-Ends
  handle_bmp_message-Ends termination xs = pass-Ends
  handle_bmp_message-Ends statistics_report xs = pass-Ends

  process_done-Ends :
      (header : BmpHeader) (full : List ℕ)
      → Ends (process_message o (some peer_ip) (done (header, full)))
  unfolding process_message update_peer_last_seen
  process_done-Ends header full =
      then-Ends (update_peer_last_seen o peer_ip) _
        (then-Ends (read_clock o) _ read_clock-Ends λ now. execute-Ends _)
        λ _.
          then-Ends (count_received o (some peer_ip)) _ count_received-Ends
            λ _. handle_bmp_message-Ends header.msg_type full

-- Reading a message ends with it or with an exception of the code.
pub read_message-IsEnd : (header_data stream : List ℕ) → IsEnd (read_message header_data stream).0
unfolding read_message read_exactly
read_message-IsEnd header_data stream e =
    ground (arith, parse_bmp_header-raises header_data out_of_fuel)

module _ (o : Outside) where
  process_message-IsEnd :
      (peer_ip : Option IpAddress) (message : Attempt (BmpHeader × List ℕ)) (s : Service)
      → IsEnd message
      → IsEnd (process_message o peer_ip message s).0
  unfolding process_message Ends
  process_message-IsEnd peer_ip (raises x) s h = λ e. h (ground arith)
  process_message-IsEnd none (done m) s h = λ e. cc
  process_message-IsEnd (some peer_ip) (done (header, full)) s h =
      process_done-Ends o peer_ip header full s

  caught-counted_error_error :
      (peer_ip : Option IpAddress) (r : Attempt (Unit {0}) × Service)
      → IsEnd r.0
      → caught o peer_ip r ≡ some (counted_error o peer_ip r)
  unfolding caught
  caught-counted_error_error peer_ip (done u, s) h = refl
  caught-counted_error_error peer_ip (raises (parse_failed out_of_fuel), s) h = absurd (h refl)
  caught-counted_error_error peer_ip (raises (parse_failed value_error), s) h = refl
  caught-counted_error_error peer_ip (raises (parse_failed bmp_parse_error), s) h = refl
  caught-counted_error_error peer_ip (raises (parse_failed bgp_parse_error), s) h = refl
  caught-counted_error_error peer_ip (raises not_running, s) h = refl
  caught-counted_error_error peer_ip (raises refused, s) h = refl
  caught-counted_error_error peer_ip (raises incomplete_read, s) h = refl

  -- Whatever message was read, its handling ends, and an exception of it is counted.
  pub caught-process_message :
      (peer_ip : Option IpAddress) (message : Attempt (BmpHeader × List ℕ)) (s : Service)
      → IsEnd message
      → caught o peer_ip (process_message o peer_ip message s)
        ≡ some (counted_error o peer_ip (process_message o peer_ip message s))
  caught-process_message peer_ip message s h =
      caught-counted_error_error peer_ip (process_message o peer_ip message s)
        (process_message-IsEnd peer_ip message s h)
