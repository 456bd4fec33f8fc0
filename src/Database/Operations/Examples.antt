-- ===== src/Database/Operations/Examples.antt =====
-- Tests of operations.py on two peers, and its theorems applied to them.
use pybmpmon.Base.{ℕ, ◌≡◌, refl, List, [], ◌∷◌, none, some, true}
use mathlib.Core.List.{Perm}
use pybmpmon.Utils.Binary.{IpAddress, ipv4}
use pybmpmon.Utils.Address.{same_address, same_bytes}
use native.Mathlib.Decide.{ℕ_discrete}
use pybmpmon.Models.BmpPeer.{BmpPeer}
use pybmpmon.Database.Tables.{Database}
use pybmpmon.Database.Operations.{
  get_bmp_peer, get_all_active_peers, upsert_row, row_of, update_rows, upsert_bmp_peer,
  mark_peer_inactive, update_peer_last_seen, active_rows, insert_by_last_seen,
}
use pybmpmon.Database.Operations.Laws.{
  Statement, upserts, deactivates, sees, step, run, row_after_all, active_of, IsLatestFirst,
  get_bmp_peer-run, get_all_active_peers_lists,
}

abbrev first_address : IpAddress
first_address = ipv4 (192 ∷ 0 ∷ 2 ∷ 1 ∷ [])

abbrev second_address : IpAddress
second_address = ipv4 (192 ∷ 0 ∷ 2 ∷ 2 ∷ [])

abbrev peer_at : IpAddress → ℕ → BmpPeer
peer_at peer_ip now = record {
  peer_ip = peer_ip;
  router_id = none;
  first_seen = now;
  last_seen = now;
  is_active = true;
}

abbrev no_rows : Database
no_rows = record { bmp_peers = []; peer_events = []; route_updates = []; state_updates = [] }

-- The first peer comes up, goes down and comes up again; the second one comes up in between.
abbrev statements : List Statement
statements =
    upserts (peer_at first_address 1)
    ∷ upserts (peer_at second_address 2)
    ∷ deactivates 3 first_address
    ∷ upserts (peer_at first_address 4)
    ∷ sees 5 second_address
    ∷ []

first_seen_stays :
    get_bmp_peer first_address (run statements no_rows)
    ≡ some (record (peer_at first_address 1) { last_seen = 4 })
unfolding run step get_bmp_peer row_of upsert_row update_rows upsert_bmp_peer mark_peer_inactive
    update_peer_last_seen same_address same_bytes ℕ_discrete
first_seen_stays = refl

second_is_latest :
    get_all_active_peers (run statements no_rows)
    ≡ record (peer_at second_address 2) { last_seen = 5 }
      ∷ record (peer_at first_address 1) { last_seen = 4 }
      ∷ []
unfolding run step get_all_active_peers active_rows insert_by_last_seen upsert_row update_rows
    upsert_bmp_peer mark_peer_inactive update_peer_last_seen same_address same_bytes ℕ_discrete
second_is_latest = refl

get_bmp_peer-run_example :
    get_bmp_peer first_address (run statements no_rows)
    ≡ row_after_all first_address statements (get_bmp_peer first_address no_rows)
get_bmp_peer-run_example = get_bmp_peer-run first_address statements no_rows

get_all_active_peers_lists_example :
    Perm
      (get_all_active_peers (run statements no_rows))
      (active_of (run statements no_rows).bmp_peers)
    × IsLatestFirst (get_all_active_peers (run statements no_rows))
get_all_active_peers_lists_example = get_all_active_peers_lists (run statements no_rows)
