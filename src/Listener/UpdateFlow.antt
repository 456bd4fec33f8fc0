-- ===== src/Listener/UpdateFlow.antt =====
-- What `_handle_route_monitoring` makes of a message: the routes of its UPDATE, through the batch
-- writer into the table.
use pybmpmon.Base.{ℕ, ◌≡◌, refl, List, [], ◌∷◌, ◌++◌, map, ok}
use pybmpmon.Utils.Binary.{IpAddress}
use pybmpmon.Protocol.Bmp.{BmpPerPeerHeader}
use pybmpmon.Protocol.Bgp.{ParsedBgpUpdate, Prefix, cidr, route_info}
use pybmpmon.Models.Route.{RouteUpdate}
use pybmpmon.Database.BatchWriter.{succeeds}
use pybmpmon.Listener.Routes.{announced_route, withdrawn_route}
use pybmpmon.Listener.Service.{Outside, Service, tick, for_each, read_clock}
use pybmpmon.Listener.Handlers.{announce, withdraw, process_update}
use pybmpmon.Protocol.BmpParser.Messages.{parse_route_monitoring_message}
use pybmpmon.Protocol.BgpParser.Update.{parse_bgp_update}
use pybmpmon.Protocol.Bmp.{BmpRouteMonitoringMessage}
use pybmpmon.Listener.Handlers.{handle_route_monitoring}
use pybmpmon.Listener.RouteFlow.{
  untimed, IsReady, Flows, then-Flows, for_each-Flows, send-Flows, tick-Flows,
}

-- The routes of an UPDATE, without their time.
module _ (peer_ip : IpAddress) (peer : BmpPerPeerHeader) (u : ParsedBgpUpdate) where
  abbrev pub announced : Prefix → RouteUpdate
  announced prefix = untimed (announced_route 0 peer_ip peer u prefix)

  abbrev pub withdrawn : Prefix → RouteUpdate
  withdrawn prefix = untimed (withdrawn_route 0 peer_ip peer u prefix)

module _ (o : Outside) (peer_ip : IpAddress) (answered : (n : ℕ) → o.answers n ≡ succeeds) where
  module _ (peer : BmpPerPeerHeader) (u : ParsedBgpUpdate) where
    untimed-announced_route :
        (now : ℕ) (prefix : Prefix)
        → untimed (announced_route now peer_ip peer u prefix) ≡ announced peer_ip peer u prefix
    unfolding announced_route
    untimed-announced_route now (cidr c) = refl
    untimed-announced_route now (route_info info) = refl

    untimed-withdrawn_route :
        (now : ℕ) (prefix : Prefix)
        → untimed (withdrawn_route now peer_ip peer u prefix) ≡ withdrawn peer_ip peer u prefix
    unfolding withdrawn_route
    untimed-withdrawn_route now (cidr c) = refl
    untimed-withdrawn_route now (route_info info) = refl

    announce-Flows :
        (prefix : Prefix) (s : Service)
        → IsReady s
        → Flows peer_ip s
            (announced peer_ip peer u prefix ∷ [])
            (announce o peer_ip peer u prefix s)
    unfolding announce read_clock
    announce-Flows prefix s ready =
        let now = o.clock s.ticks in
        rw⁻¹ (untimed-announced_route now prefix) (
          tick-Flows o peer_ip answered s _ _ (
            send-Flows o peer_ip answered (announced_route now peer_ip peer u prefix) _ (tick s)
              (record { running = ready.running; dict = ready.dict })))

    withdraw-Flows :
        (prefix : Prefix) (s : Service)
        → IsReady s
        → Flows peer_ip s
            (withdrawn peer_ip peer u prefix ∷ [])
            (withdraw o peer_ip peer u prefix s)
    unfolding withdraw read_clock
    withdraw-Flows prefix s ready =
        let now = o.clock s.ticks in
        rw⁻¹ (untimed-withdrawn_route now prefix) (
          tick-Flows o peer_ip answered s _ _ (
            send-Flows o peer_ip answered (withdrawn_route now peer_ip peer u prefix) _ (tick s)
              (record { running = ready.running; dict = ready.dict })))

    process_update-Flows :
        (s : Service)
        → IsReady s
        → Flows peer_ip s
            (map (announced peer_ip peer u) u.prefixes
              ++ map (withdrawn peer_ip peer u) u.withdrawn_prefixes)
            (process_update o peer_ip peer u s)
    unfolding process_update
    process_update-Flows s ready =
        then-Flows o peer_ip answered s (map (announced peer_ip peer u) u.prefixes)
          (map (withdrawn peer_ip peer u) u.withdrawn_prefixes)
          (for_each (withdraw o peer_ip peer u) u.withdrawn_prefixes)
          (for_each (announce o peer_ip peer u) u.prefixes s)
          (for_each-Flows o peer_ip answered (announce o peer_ip peer u) (announced peer_ip peer u)
            u.prefixes announce-Flows s ready)
          (for_each-Flows o peer_ip answered (withdraw o peer_ip peer u) (withdrawn peer_ip peer u)
            u.withdrawn_prefixes withdraw-Flows)

  -- Where the message and its UPDATE parse, the writer runs, the collector holds each peer once
  -- and the database takes every flush, `_handle_route_monitoring` returns without an exception:
  -- the announced routes and then the withdrawn ones follow, in order, those that were in the
  -- table and in the batch, compared without their time; the peer's count of processed routes
  -- grows by their number; the writer runs on, and the collector holds each peer once.
  pub handle_route_monitoring-Flows :
      (xs : List ℕ) (message : BmpRouteMonitoringMessage) (u : ParsedBgpUpdate) (s : Service)
      → parse_route_monitoring_message xs ≡ ok message
      → parse_bgp_update message.bgp_update ≡ ok u
      → IsReady s
      → Flows peer_ip s
          (map (announced peer_ip message.per_peer_header u) u.prefixes
            ++ map (withdrawn peer_ip message.per_peer_header u) u.withdrawn_prefixes)
          (handle_route_monitoring o xs peer_ip s)
  unfolding handle_route_monitoring
  handle_route_monitoring-Flows xs message u s parses_message parses_update ready =
      rw (parses_message, parses_update) (process_update-Flows message.per_peer_header u s ready)
