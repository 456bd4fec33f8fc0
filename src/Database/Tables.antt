-- ===== src/Database/Tables.antt =====
-- The tables that the SQL of src/pybmpmon/database reads and writes, as lists in the order of
-- insertion. Of update_route_state the calls are kept, in order; RouteState has the function.
use pybmpmon.Base.{List}
use pybmpmon.Models.Route.{RouteUpdate}
use pybmpmon.Models.BmpPeer.{BmpPeer, PeerEvent}

pub record Database : Type 0 where
  pub bmp_peers : List BmpPeer
  pub peer_events : List PeerEvent
  pub route_updates : List RouteUpdate
  pub state_updates : List RouteUpdate
