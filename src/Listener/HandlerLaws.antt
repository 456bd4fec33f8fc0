-- ===== src/Listener/HandlerLaws.antt =====
-- What the handlers leave alone: a predicate on the collector that counting for the peer keeps is kept
-- by a whole message, however the handler ends.
use pybmpmon.Base.{ℕ, List, [], ◌∷◌, Option, some, Result, ok, err, arith}
use pybmpmon.Utils.Binary.{IpAddress}
use pybmpmon.Utils.Address.{same_peer}
use pybmpmon.Protocol.Bmp.{
  BmpHeader, BmpMessageType, route_monitoring, statistics_report, peer_down_notification,
  peer_up_notification, initiation, termination, BmpPerPeerHeader,
}
use pybmpmon.Protocol.Bgp.{ParsedBgpUpdate, Prefix}
use pybmpmon.Protocol.BgpParser.Update.{parse_bgp_update}
use pybmpmon.Protocol.BmpParser.Messages.{
  parse_route_monitoring_message, parse_peer_up_message, parse_peer_down_message,
}
use pybmpmon.Monitoring.PeerStats.{PeerStats, Family}
use pybmpmon.Monitoring.Collector as Collector
use pybmpmon.Models.Route.{RouteUpdate}
use pybmpmon.Database.Tables.{Database}
use pybmpmon.Database.BatchWriter.{Outcome, returned, runtime_error, database_error, add_route}
use pybmpmon.Listener.Service.{
  Outside, Service, Action, Attempt, done, raises, Exception, and_then, pass, raise, tick, ◌>>=◌,
  ◌>>◌, parsed, for_each, of_outcome, read_clock, execute, write_route, count_received,
  count_processed,
}
use pybmpmon.Listener.Handlers.{
  update_peer_last_seen, announce, withdraw, process_update, handle_route_monitoring,
  handle_peer_up, handle_peer_down, handle_bmp_message,
}
use pybmpmon.Listener.Connection.{process_message}

abbrev pub Counters : Type 0
Counters = List (Option IpAddress × PeerStats)

module _ (o : Outside) (peer_ip : IpAddress) (P : Counters → Type 0)
    (received : (now : ℕ) (c : Counters)
      → P c
      → P (Collector.increment_received same_peer now (some peer_ip) c))
    (processed : (now : ℕ) (f : Family) (c : Counters)
      → P c
      → P (Collector.increment_processed same_peer now (some peer_ip) f c)) where
  Keeps : {A : Type 0} → Action A → Type 0
  Keeps m = (s : Service) → P s.collector → P (m s).1.collector

  and_then-Keeps :
      {A B : Type 0} (f : A → Action B)
      → ((a : A) → Keeps (f a))
      → (r : Attempt A × Service) → P r.1.collector
      → P (and_then f r).1.collector
  unfolding Keeps
  and_then-Keeps f rest (done a, s) h = rest a s h
  and_then-Keeps f rest (raises e, s) h = h

  then-Keeps :
      {A B : Type 0} (m : Action A) (f : A → Action B)
      → Keeps m
      → ((a : A) → Keeps (f a))
      → Keeps (m >>= f)
  unfolding Keeps
  then-Keeps m f first rest s h = and_then-Keeps f rest (m s) (first s h)

  pass-Keeps : Keeps pass
  unfolding Keeps
  pass-Keeps s h = h

  raise-Keeps : (e : Exception) → Keeps {A = Unit {0}} (raise e)
  unfolding Keeps
  raise-Keeps e s h = h

  parsed-Keeps : {A : Type 0} (r : Result A) → Keeps (parsed r)
  unfolding Keeps
  parsed-Keeps (ok a) s h = h
  parsed-Keeps (err x) s h = h

  parse_then-Keeps :
      {A B : Type 0} (r : Result A) (f : A → Action B)
      → ((a : A) → Keeps (f a))
      → Keeps (parsed r >>= f)
  parse_then-Keeps r f = then-Keeps (parsed r) f (parsed-Keeps r)

  read_clock-Keeps : Keeps (read_clock o)
  unfolding Keeps read_clock
  read_clock-Keeps s h = h

  execute-Keeps : (statement : Database → Database) → Keeps (execute o statement)
  unfolding Keeps execute
  execute-Keeps statement s h = ground arith

  of_outcome-Keeps : (r : Outcome) (s : Service) → P s.collector → P (of_outcome s r).1.collector
  of_outcome-Keeps (returned, w, db) s h = h
  of_outcome-Keeps (runtime_error, w, db) s h = h
  of_outcome-Keeps (database_error, w, db) s h = h

  write_route-Keeps : (route : RouteUpdate) → Keeps (write_route o route)
  unfolding Keeps write_route
  write_route-Keeps route s h =
      of_outcome-Keeps (add_route (o.clock s.ticks) (o.answers s.ticks) route s.writer s.database)
        (tick s) h

  count_processed-Keeps : (f : Family) → Keeps (count_processed o (some peer_ip) f)
  unfolding Keeps count_processed
  count_processed-Keeps f s h = processed _ f s.collector h

  count_received-Keeps : Keeps (count_received o (some peer_ip))
  unfolding Keeps count_received
  count_received-Keeps s h = received _ s.collector h

  for_each-Keeps :
      {A : Type 0} (f : A → Action (Unit {0})) (as_ : List A)
      → ((a : A) → Keeps (f a))
      → Keeps (for_each f as_)
  unfolding Keeps
  for_each-Keeps f [] each = λ s h. h
  for_each-Keeps f (a ∷ as_) each =
      then-Keeps (f a) (λ _. for_each f as_) (each a) (λ _. for_each-Keeps f as_ each)

  module _ (peer : BmpPerPeerHeader) (u : ParsedBgpUpdate) where
    announce-Keeps : (prefix : Prefix) → Keeps (announce o peer_ip peer u prefix)
    unfolding announce
    announce-Keeps prefix =
        then-Keeps (read_clock o) _ read_clock-Keeps
          λ now. then-Keeps (write_route o _) _ (write_route-Keeps _) λ _. count_processed-Keeps _

    withdraw-Keeps : (prefix : Prefix) → Keeps (withdraw o peer_ip peer u prefix)
    unfolding withdraw
    withdraw-Keeps prefix =
        then-Keeps (read_clock o) _ read_clock-Keeps
          λ now. then-Keeps (write_route o _) _ (write_route-Keeps _) λ _. count_processed-Keeps _

    process_update-Keeps : Keeps (process_update o peer_ip peer u)
    unfolding process_update
    process_update-Keeps =
        then-Keeps (for_each (announce o peer_ip peer u) u.prefixes) _
          (for_each-Keeps _ u.prefixes announce-Keeps)
          (λ _. for_each-Keeps _ u.withdrawn_prefixes withdraw-Keeps)

  write_event-Keeps :
      (statement : Database → Database) (event : ℕ → Database → Database)
      → Keeps (execute o statement >> (read_clock o >>= λ now. execute o (event now)))
  write_event-Keeps statement event =
      then-Keeps (execute o statement) _ (execute-Keeps statement)
        λ _. then-Keeps (read_clock o) _ read_clock-Keeps λ now. execute-Keeps (event now)

  handle_bmp_message-Keeps :
      (t : BmpMessageType) (xs : List ℕ) → Keeps (handle_bmp_message o t xs peer_ip)
  unfolding handle_bmp_message handle_route_monitoring handle_peer_up handle_peer_down
  handle_bmp_message-Keeps route_monitoring xs =
      parse_then-Keeps (parse_route_monitoring_message xs) _ λ message.
        parse_then-Keeps (parse_bgp_update message.bgp_update) _
          λ u. process_update-Keeps message.per_peer_header u
  handle_bmp_message-Keeps peer_up_notification xs =
      parse_then-Keeps (parse_peer_up_message xs) _ λ message.
        then-Keeps (read_clock o) _ read_clock-Keeps λ first_seen.
          then-Keeps (read_clock o) _ read_clock-Keeps λ last_seen. write_event-Keeps _ _
  handle_bmp_message-Keeps peer_down_notification xs =
      parse_then-Keeps (parse_peer_down_message xs) _
        λ message. then-Keeps (read_clock o) _ read_clock-Keeps λ marked. write_event-Keeps _ _
  handle_bmp_message-Keeps initiation xs = pass-Keeps
  handle_bmp_message-Keeps termination xs = pass-Keeps
  handle_bmp_message-Keeps statistics_report xs = pass-Keeps

  process_message-Keeps :
      (message : Attempt (BmpHeader × List ℕ)) → Keeps (process_message o (some peer_ip) message)
  unfolding process_message update_peer_last_seen
  process_message-Keeps (raises e) = raise-Keeps e
  process_message-Keeps (done (header, full)) =
      then-Keeps (update_peer_last_seen o peer_ip) _
        (then-Keeps (read_clock o) _ read_clock-Keeps λ now. execute-Keeps _)
        λ _.
          then-Keeps (count_received o (some peer_ip)) _ count_received-Keeps
            λ _. handle_bmp_message-Keeps header.msg_type full

  pub process_message_keeps :
      (message : Attempt (BmpHeader × List ℕ)) (s : Service)
      → P s.collector
      → P (process_message o (some peer_ip) message s).1.collector
  unfolding Keeps
  process_message_keeps message = process_message-Keeps message
