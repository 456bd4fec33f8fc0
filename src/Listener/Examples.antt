-- ===== src/Listener/Examples.antt =====
-- Tests of listener.py on concrete messages, and its theorems applied to them.
use pybmpmon.Base.{
  ℕ, ◌⊎◌, ◌+◌, ◌<◌, ◌≡◌, refl, List, [], ◌∷◌, ◌++◌, map, length, replicate, none, some, true, false,
  ok, All, arith,
}
use pybmpmon.Base.Slices.{slice}
use pybmpmon.Utils.Binary.{
  IpAddress, ipv4, read_uint8, read_uint16, read_uint32, read_bytes, read_bytes_until,
  read_ip_address, read_ipv4_address, any_nonzero, from_bytes,
}
use pybmpmon.Utils.Address.{same_peer}
use pybmpmon.Protocol.Bmp.{
  BmpHeader, BmpPerPeerHeader, BmpRouteMonitoringMessage, route_monitoring, peer_up_notification,
  initiation, global_instance, message_type_code, message_type_of, peer_type_of, has_ipv6_flag,
}
use pybmpmon.Protocol.Bgp.{BgpUpdateMessage, ParsedBgpUpdate, Cidr, cidr, bgp_marker}
use pybmpmon.Protocol.Bgp as Bgp
use pybmpmon.Protocol.BmpParser.Header.{parse_bmp_header, parse_per_peer_header}
use pybmpmon.Protocol.BmpParser.Messages.{
  parse_peer_up_message, parse_route_monitoring_message, is_type,
}
use pybmpmon.Protocol.BgpParser.Structure.{
  parse_bgp_update_structure, parse_bgp_header, parse_path_attributes, path_attributes_loop,
  bytes_eq, is_update,
}
use pybmpmon.Protocol.BgpParser.Prefixes.{
  parse_prefixes, prefixes_loop, parse_ipv4_prefix, parse_prefix,
}
use pybmpmon.Protocol.BgpParser.Update.{
  parse_bgp_update, take_attributes, take_nlri, to_update, is_withdrawal_of,
}
use pybmpmon.Monitoring.PeerStats.{ipv4_unicast, other_family}
use pybmpmon.Monitoring.Collector.{lookup}
use pybmpmon.Database.BatchWriter.{add_route, new_writer, succeeds}
use pybmpmon.Listener.Routes.{announced_route, withdrawn_route}
use pybmpmon.Listener.Service.{
  read_clock, execute, count_received, count_processed, count_error, write_route, Outside, Service,
}
use pybmpmon.Listener.Handlers.{
  update_peer_last_seen, handle_bmp_message, handle_peer_up, process_update, announce, withdraw,
  handle_route_monitoring,
}
use pybmpmon.Listener.Connection.{
  closes, lost, process_message, counted_error, handle_connection, close_connection,
}
use pybmpmon.Listener.RouteLaws.{route_family}
use pybmpmon.Listener.RouteFlow.{Flows}
use pybmpmon.Listener.UpdateFlow.{announced, withdrawn, handle_route_monitoring-Flows}
use pybmpmon.Listener.Framing.{Frame, IsFrame, joined, handle_all, handle_connection_frames}
use pybmpmon.Listener.Lifetime.{IsApartFrom, handle_connection_ends}
use pybmpmon.Listener.ErrorCounts.{errors_of, failures, handle_all_counts_errors}

-- Every call takes a unit of time, and the database does what it is asked to.
abbrev outside : Outside
outside = record { clock = λ n. n; refuses = λ n. false; answers = λ n. succeeds }

abbrev started : Service
started = record {
  ticks = 0;
  collector = [];
  writer = record (new_writer 2 500) { is_running = true };
  database = record { bmp_peers = []; peer_events = []; route_updates = []; state_updates = [] };
}

abbrev router : IpAddress
router = ipv4 (192 ∷ 0 ∷ 2 ∷ 1 ∷ [])

-- 10.0.1.0/24 is withdrawn, 10.1.0.0/16 announced; there are no attributes.
abbrev update_bytes : List ℕ
update_bytes = bgp_marker ++ (0 ∷ 30 ∷ 2 ∷ 0 ∷ 4 ∷ 24 ∷ 10 ∷ 0 ∷ 1 ∷ 0 ∷ 0 ∷ 16 ∷ 10 ∷ 1 ∷ [])

abbrev update_parts : BgpUpdateMessage
update_parts = record {
  withdrawn_routes_length = 4;
  withdrawn_routes = 24 ∷ 10 ∷ 0 ∷ 1 ∷ [];
  total_path_attr_length = 0;
  path_attributes = [];
  nlri = 16 ∷ 10 ∷ 1 ∷ [];
}

abbrev withdrawn_cidr : Cidr
withdrawn_cidr = record { address = ipv4 (10 ∷ 0 ∷ 1 ∷ 0 ∷ []); prefix_len = 24 }

abbrev announced_cidr : Cidr
announced_cidr = record { address = ipv4 (10 ∷ 1 ∷ 0 ∷ 0 ∷ []); prefix_len = 16 }

abbrev update : ParsedBgpUpdate
update = record {
  afi = some 1;
  safi = some 1;
  prefixes = cidr announced_cidr ∷ [];
  withdrawn_prefixes = cidr withdrawn_cidr ∷ [];
  is_withdrawal = true;
  origin = none;
  as_path = none;
  next_hop = none;
  med = none;
  local_pref = none;
  communities = none;
  extended_communities = none;
  evpn_route_type = none;
  evpn_rd = none;
  evpn_esi = none;
  mac_address = none;
}

abbrev peer : BmpPerPeerHeader
peer = record {
  peer_type = global_instance;
  peer_flags = 0;
  peer_distinguisher = replicate 8 0;
  peer_address = ipv4 (192 ∷ 0 ∷ 2 ∷ 2 ∷ []);
  peer_asn = 65001;
  peer_bgp_id = ipv4 (10 ∷ 0 ∷ 0 ∷ 1 ∷ []);
  timestamp_sec = 0;
  timestamp_usec = 0;
}

abbrev monitoring_header : BmpHeader
monitoring_header = record { version = 3; length = 78; msg_type = route_monitoring }

abbrev monitoring_bytes : List ℕ
monitoring_bytes =
    (3 ∷ 0 ∷ 0 ∷ 0 ∷ 78 ∷ 0 ∷ [])
    ++ (replicate 22 0
        ++ (192 ∷ 0 ∷ 2 ∷ 2 ∷ 0 ∷ 0 ∷ 253 ∷ 233 ∷ 10 ∷ 0 ∷ 0 ∷ 1 ∷ (replicate 8 0 ++ update_bytes)))

update_bytes_parts : parse_bgp_update_structure update_bytes ≡ ok update_parts
unfolding parse_bgp_update_structure parse_bgp_header bytes_eq is_update read_uint8 read_uint16
    read_bytes read_bytes_until slice from_bytes parse_path_attributes path_attributes_loop
    Bgp.message_type_of
update_bytes_parts = refl

update_bytes_parse : parse_bgp_update update_bytes ≡ ok update
unfolding parse_bgp_update parse_prefixes prefixes_loop parse_ipv4_prefix parse_prefix
    take_attributes take_nlri to_update is_withdrawal_of read_uint8 read_bytes slice from_bytes
update_bytes_parse = rw update_bytes_parts refl

abbrev message : BmpRouteMonitoringMessage
message = record { header = monitoring_header; per_peer_header = peer; bgp_update = update_bytes }

monitoring_bytes_parse : parse_route_monitoring_message monitoring_bytes ≡ ok message
unfolding parse_route_monitoring_message parse_bmp_header parse_per_peer_header is_type read_uint8
    read_uint32 read_bytes read_bytes_until read_ip_address read_ipv4_address any_nonzero slice
    from_bytes message_type_of message_type_code peer_type_of has_ipv6_flag
monitoring_bytes_parse = refl

handle_route_monitoring-Flows_example :
    Flows router started
      (map (announced router peer update) update.prefixes
        ++ map (withdrawn router peer update) update.withdrawn_prefixes)
      (handle_route_monitoring outside monitoring_bytes router started)
handle_route_monitoring-Flows_example =
    handle_route_monitoring-Flows outside router (λ n. refl) monitoring_bytes message update started
      monitoring_bytes_parse update_bytes_parse (record { running = refl; dict = tt })

-- The NLRI makes the UPDATE one of IPv4 unicast.
route_family_example :
    (0 < length update_parts.nlri
      → (announced_route 0 router peer update (cidr announced_cidr)).family ≡ ipv4_unicast)
    × (update_parts.path_attributes ≡ []
        → update_parts.nlri ≡ []
        → (withdrawn_route 0 router peer update (cidr announced_cidr)).family ≡ other_family)
route_family_example =
    route_family update_bytes update_parts update update_bytes_parts update_bytes_parse 0 router
      peer (cidr announced_cidr)

-- An Initiation message without TLVs, a Peer Up message that ends behind its header, and a Route
-- Monitoring message.
abbrev initiation_header : BmpHeader
initiation_header = record { version = 3; length = 6; msg_type = initiation }

abbrev cut_header : BmpHeader
cut_header = record { version = 3; length = 6; msg_type = peer_up_notification }

abbrev frames : List Frame
frames =
    (initiation_header, 3 ∷ 0 ∷ 0 ∷ 0 ∷ 6 ∷ 4 ∷ [])
    ∷ (cut_header, 3 ∷ 0 ∷ 0 ∷ 0 ∷ 6 ∷ 3 ∷ [])
    ∷ (monitoring_header, monitoring_bytes)
    ∷ []

frames-IsFrame : All IsFrame frames
unfolding parse_bmp_header read_uint8 read_uint32 slice from_bytes message_type_of
frames-IsFrame =
    ((refl, refl, omega arith), ((refl, refl, omega arith), ((refl, refl, omega arith), tt)))

handle_connection_frames_example :
    handle_connection outside closes (some router) (joined frames ++ (3 ∷ 0 ∷ [])) started
    ≡ some (close_connection closes (some router) (handle_all outside (some router) frames started))
handle_connection_frames_example =
    handle_connection_frames outside (some router) closes frames (3 ∷ 0 ∷ []) started frames-IsFrame
      (omega arith)

handle_connection_ends_example :
    (t : Service) × (handle_connection outside closes (some router) (joined frames) started
      ≡ some t)
    × ((closes ≡ lost) ⊎ (lookup same_peer (some router) t.collector ≡ none))
    × IsApartFrom (some router) started.collector t.collector
handle_connection_ends_example =
    handle_connection_ends outside closes (some router) (joined frames) started tt

handle_all_counts_errors_example :
    errors_of (some router) (handle_all outside (some router) frames started).collector
    ≡ failures outside (some router) frames started + errors_of (some router) started.collector
handle_all_counts_errors_example = handle_all_counts_errors outside (some router) frames started tt

-- The Peer Up message is the one that fails, and the routes of the last one are handled all the same.
one_failure : failures outside (some router) frames started ≡ 1
unfolding process_message counted_error count_error update_peer_last_seen read_clock execute
    count_received handle_bmp_message handle_peer_up parse_peer_up_message parse_per_peer_header
    handle_route_monitoring parse_bmp_header is_type message_type_code message_type_of read_uint8
    read_uint32 slice from_bytes process_update announce withdraw write_route count_processed
    add_route
one_failure = rw (monitoring_bytes_parse, update_bytes_parse) refl
