-- ===== src/Listener/Handlers.antt =====
-- listener.py: `_handle_bmp_message`, and the handler of each message type.
use pybmpmon.Base.{ℕ, List, none, some, true}
use pybmpmon.Utils.Binary.{IpAddress}
use pybmpmon.Protocol.Bmp.{
  BmpMessageType, route_monitoring, statistics_report, peer_down_notification, peer_up_notification,
  initiation, termination, BmpPerPeerHeader, peer_down_reason_code,
}
use pybmpmon.Protocol.Bgp.{ParsedBgpUpdate, Prefix}
use pybmpmon.Protocol.BmpParser.Messages.{
  parse_route_monitoring_message, parse_peer_up_message, parse_peer_down_message,
}
use pybmpmon.Protocol.BgpParser.Update.{parse_bgp_update}
use pybmpmon.Models.BmpPeer.{peer_up, peer_down}
use pybmpmon.Database.Operations.{upsert_bmp_peer, mark_peer_inactive, insert_peer_event}
use pybmpmon.Database.Operations as Operations
use pybmpmon.Listener.Routes.{family_of, announced_route, withdrawn_route}
use pybmpmon.Listener.Service.{
  Outside, Action, ◌>>=◌, ◌>>◌, pass, parsed, for_each, read_clock, execute, write_route,
  count_processed,
}

module _ (o : Outside) where
  unfoldable pub update_peer_last_seen : IpAddress → Action (Unit {0})
  update_peer_last_seen peer_ip = do
    now ← read_clock o
    execute o (Operations.update_peer_last_seen now peer_ip)

  -- The bodies of the two loops of `_handle_route_monitoring`.
  module _ (bmp_peer_ip : IpAddress) (peer : BmpPerPeerHeader) (u : ParsedBgpUpdate) where
    unfoldable pub announce : Prefix → Action (Unit {0})
    announce prefix = do
      now ← read_clock o
      write_route o (announced_route now bmp_peer_ip peer u prefix)
      count_processed o (some bmp_peer_ip) (family_of now bmp_peer_ip peer u)

    unfoldable pub withdraw : Prefix → Action (Unit {0})
    withdraw prefix = do
      now ← read_clock o
      write_route o (withdrawn_route now bmp_peer_ip peer u prefix)
      count_processed o (some bmp_peer_ip) (family_of now bmp_peer_ip peer u)

    unfoldable pub process_update : Action (Unit {0})
    unfolding announce withdraw
    process_update = do for_each announce u.prefixes; for_each withdraw u.withdrawn_prefixes

  unfoldable pub handle_route_monitoring : List ℕ → IpAddress → Action (Unit {0})
  handle_route_monitoring data_bytes bmp_peer_ip = do
    message ← parsed (parse_route_monitoring_message data_bytes)
    bgp_update ← parsed (parse_bgp_update message.bgp_update)
    process_update bmp_peer_ip message.per_peer_header bgp_update

  unfoldable pub handle_peer_up : List ℕ → IpAddress → Action (Unit {0})
  handle_peer_up data_bytes bmp_peer_ip = do
    parsed (parse_peer_up_message data_bytes)
    first_seen ← read_clock o
    last_seen ← read_clock o
    execute o (
        upsert_bmp_peer (record {
          peer_ip = bmp_peer_ip;
          router_id = none;
          first_seen = first_seen;
          last_seen = last_seen;
          is_active = true;
        }))
    now ← read_clock o
    execute o (
        insert_peer_event
          (record { time = now; peer_ip = bmp_peer_ip; event_type = peer_up; reason_code = none }))

  unfoldable pub handle_peer_down : List ℕ → IpAddress → Action (Unit {0})
  handle_peer_down data_bytes bmp_peer_ip = do
    message ← parsed (parse_peer_down_message data_bytes)
    marked ← read_clock o
    execute o (mark_peer_inactive marked bmp_peer_ip)
    now ← read_clock o
    execute o (
        insert_peer_event (record {
          time = now;
          peer_ip = bmp_peer_ip;
          event_type = peer_down;
          reason_code = some (peer_down_reason_code message.reason);
        }))

  unfoldable pub handle_bmp_message : BmpMessageType → List ℕ → IpAddress → Action (Unit {0})
  handle_bmp_message route_monitoring data_bytes = handle_route_monitoring data_bytes
  handle_bmp_message peer_up_notification data_bytes = handle_peer_up data_bytes
  handle_bmp_message peer_down_notification data_bytes = handle_peer_down data_bytes
  handle_bmp_message initiation data_bytes = λ bmp_peer_ip. pass
  handle_bmp_message termination data_bytes = λ bmp_peer_ip. pass
  handle_bmp_message statistics_report data_bytes = λ bmp_peer_ip. pass
