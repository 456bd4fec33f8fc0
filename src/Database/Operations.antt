-- ===== src/Database/Operations.antt =====
-- src/pybmpmon/database/operations.py: each statement, as the change of the tables that it makes or
-- the rows that it selects. The time that `datetime.now` gives is an argument.
pub mod Laws
mod Examples
use pybmpmon.Base.{
  ℕ, ◌+◌, Bool, true, false, List, [], ◌∷◌, ◌++◌, length, Option, none, some, leb, if◌then◌else◌,
}
use pybmpmon.Utils.Binary.{IpAddress}
use pybmpmon.Utils.Address.{same_address}
use pybmpmon.Models.Route.{RouteUpdate}
use pybmpmon.Models.BmpPeer.{BmpPeer, PeerEvent}
use pybmpmon.Monitoring.PeerStats.{Family, ipv4_unicast, ipv6_unicast, evpn, other_family}
use pybmpmon.Database.Tables.{Database}

-- ON CONFLICT (peer_ip) DO UPDATE: the old row keeps `first_seen`.
unfoldable pub upsert_row : BmpPeer → List BmpPeer → List BmpPeer
upsert_row peer [] = peer ∷ []
upsert_row peer (row ∷ rows) = elim (same_address row.peer_ip peer.peer_ip) [
  | yes e ↦
      record row {
        router_id = peer.router_id;
        last_seen = peer.last_seen;
        is_active = peer.is_active;
      }
      ∷ rows
  | no n ↦ row ∷ upsert_row peer rows
]

unfoldable pub upsert_bmp_peer : BmpPeer → Database → Database
unfolding upsert_row
upsert_bmp_peer peer db = record db { bmp_peers = upsert_row peer db.bmp_peers }

-- `fetchrow` of the rows with the address.
unfoldable pub row_of : IpAddress → List BmpPeer → Option BmpPeer
row_of peer_ip [] = none
row_of peer_ip (row ∷ rows) = elim (same_address row.peer_ip peer_ip) [
  | yes e ↦ some row
  | no n ↦ row_of peer_ip rows
]

unfoldable pub get_bmp_peer : IpAddress → Database → Option BmpPeer
unfolding row_of
get_bmp_peer peer_ip db = row_of peer_ip db.bmp_peers

-- UPDATE bmp_peers SET … WHERE peer_ip = $1
unfoldable pub update_rows : IpAddress → (BmpPeer → BmpPeer) → List BmpPeer → List BmpPeer
update_rows peer_ip change [] = []
update_rows peer_ip change (row ∷ rows) =
    let rest = update_rows peer_ip change rows in
    elim (same_address row.peer_ip peer_ip) [ yes e ↦ change row ∷ rest | no n ↦ row ∷ rest ]

unfoldable pub mark_peer_inactive : ℕ → IpAddress → Database → Database
unfolding update_rows
mark_peer_inactive now peer_ip db = record db {
  bmp_peers =
      update_rows peer_ip (λ row. record row { is_active = false; last_seen = now }) db.bmp_peers;
}

-- `_update_peer_last_seen` of listener.py
unfoldable pub update_peer_last_seen : ℕ → IpAddress → Database → Database
unfolding update_rows
update_peer_last_seen now peer_ip db = record db {
  bmp_peers = update_rows peer_ip (λ row. record row { last_seen = now }) db.bmp_peers;
}

-- WHERE is_active = TRUE ORDER BY last_seen DESC. Rows that were seen at one time come in any order;
-- here it is that of the table.
unfoldable pub insert_by_last_seen : BmpPeer → List BmpPeer → List BmpPeer
insert_by_last_seen peer [] = peer ∷ []
insert_by_last_seen peer (row ∷ rows) =
    let rest = insert_by_last_seen peer rows in
    if leb row.last_seen peer.last_seen then peer ∷ row ∷ rows else row ∷ rest

unfoldable pub active_rows : List BmpPeer → List BmpPeer
unfolding insert_by_last_seen
active_rows [] = []
active_rows (row ∷ rows) =
    let rest = active_rows rows in if row.is_active then insert_by_last_seen row rest else rest

unfoldable pub get_all_active_peers : Database → List BmpPeer
unfolding active_rows
get_all_active_peers db = active_rows db.bmp_peers

unfoldable pub insert_peer_event : PeerEvent → Database → Database
insert_peer_event event db = record db { peer_events = db.peer_events ++ (event ∷ []) }

-- The statement does not name the column extended_communities, which stays NULL.
unfoldable pub insert_route_update : RouteUpdate → Database → Database
insert_route_update route db = record db {
  route_updates = db.route_updates ++ (record route { extended_communities = none } ∷ []);
}

-- SELECT COUNT(*) FROM route_updates WHERE …
unfoldable pub count_where : (RouteUpdate → Bool) → List RouteUpdate → ℕ
count_where test [] = 0
count_where test (route ∷ routes) =
    let rest = count_where test routes in if test route then rest + 1 else rest

unfoldable pub get_route_count : Database → ℕ
get_route_count db = length db.route_updates

abbrev pub is_from : IpAddress → RouteUpdate → Bool
is_from peer_ip route = elim (same_address route.bmp_peer_ip peer_ip) [
  | yes e ↦ true
  | no n ↦ false
]

unfoldable pub get_route_count_by_peer : IpAddress → Database → ℕ
unfolding count_where
get_route_count_by_peer peer_ip db = count_where (is_from peer_ip) db.route_updates

-- `family = $1`, on the values that the column takes.
abbrev pub is_family : Family → Family → Bool
is_family ipv4_unicast ipv4_unicast = true
is_family ipv6_unicast ipv6_unicast = true
is_family evpn evpn = true
is_family other_family other_family = true
is_family _ _ = false

abbrev pub is_family_from : Family → IpAddress → RouteUpdate → Bool
is_family_from family peer_ip route =
    if is_family family route.family then is_from peer_ip route else false

unfoldable pub get_route_count_by_family : Family → Option IpAddress → Database → ℕ
unfolding count_where
get_route_count_by_family family none db =
    count_where (λ route. is_family family route.family) db.route_updates
get_route_count_by_family family (some peer_ip) db =
    count_where (is_family_from family peer_ip) db.route_updates
