-- ===== src/Listener/ParsersEnd.antt =====
-- No loop of the parsers that the handlers call goes on for ever.
use pybmpmon.Base.{◌≢◌, List, ℕ, err, arith, out_of_fuel}
use pybmpmon.Utils.Binary.{read_uint8, read_bytes_until}
use pybmpmon.Protocol.BgpParser.Update.{parse_bgp_update}
use pybmpmon.Protocol.BgpParser.UpdateTotal.{parse_bgp_update_total}
use pybmpmon.Protocol.BmpParser.Messages.{
  parse_route_monitoring_message, parse_peer_up_message, parse_peer_down_message,
}
use pybmpmon.Protocol.BmpParser.Exceptions.{
  parse_bmp_header-raises, parse_per_peer_header-raises, parse_peer_up_message-raises,
}

pub route_monitoring_ends : (xs : List ℕ) → parse_route_monitoring_message xs ≢ err out_of_fuel
unfolding parse_route_monitoring_message read_bytes_until
route_monitoring_ends xs e =
    ground
      (arith, parse_bmp_header-raises xs out_of_fuel, parse_per_peer_header-raises xs 6 out_of_fuel)

pub peer_down_ends : (xs : List ℕ) → parse_peer_down_message xs ≢ err out_of_fuel
unfolding parse_peer_down_message read_bytes_until read_uint8
peer_down_ends xs e =
    ground
      (arith, parse_bmp_header-raises xs out_of_fuel, parse_per_peer_header-raises xs 6 out_of_fuel)

pub peer_up_ends : (xs : List ℕ) → parse_peer_up_message xs ≢ err out_of_fuel
peer_up_ends xs e = ground (arith, parse_peer_up_message-raises xs out_of_fuel e)

pub update_ends : (xs : List ℕ) → parse_bgp_update xs ≢ err out_of_fuel
update_ends xs e = ground (arith, parse_bgp_update_total xs)
