-- ===== src/Database/Operations/Laws.antt =====
-- The tables as their users see them: a map of peers, the list of the active ones, and counts that
-- agree with each other.
use pybmpmon.Base.{
  ℕ, ◌+◌, ◌≤◌, ◌≡◌, refl, ap, ◌∙◌, false, List, [], ◌∷◌, length, Option, none, some, arith, All,
  if◌then◌else◌, leb, Bool-cases, inl, inr,
}
use mathlib.Core.List.{Perm}
use mathlib.Core.List.Perm
use pybmpmon.Utils.Binary.{IpAddress}
use pybmpmon.Utils.Address.{same_address}
use pybmpmon.Models.Route.{RouteUpdate}
use pybmpmon.Models.BmpPeer.{BmpPeer, PeerEvent}
use pybmpmon.Monitoring.PeerStats.{Family, ipv4_unicast, ipv6_unicast, evpn, other_family}
use pybmpmon.Database.Tables.{Database}
use pybmpmon.Database.Operations.{
  upsert_row, upsert_bmp_peer, row_of, get_bmp_peer, update_rows, mark_peer_inactive,
  update_peer_last_seen, insert_by_last_seen, active_rows, get_all_active_peers, count_where,
  get_route_count, get_route_count_by_peer, get_route_count_by_family, is_from, is_family,
  is_family_from, insert_peer_event, insert_route_update,
}

-- A statement that changes a table.
pub data Statement : Type 0 where
  upserts : BmpPeer → Statement
  deactivates sees : ℕ → IpAddress → Statement
  logs : PeerEvent → Statement
  stores : RouteUpdate → Statement

unfoldable pub step : Statement → Database → Database
step (upserts peer) db = upsert_bmp_peer peer db
step (deactivates now peer_ip) db = mark_peer_inactive now peer_ip db
step (sees now peer_ip) db = update_peer_last_seen now peer_ip db
step (logs event) db = insert_peer_event event db
step (stores route) db = insert_route_update route db

unfoldable pub run : List Statement → Database → Database
run [] db = db
run (s ∷ ss) db = run ss (step s db)

-- The same for one peer: the row that is found at its address, if there is one.
abbrev upserted : BmpPeer → Option BmpPeer → Option BmpPeer
upserted peer none = some peer
upserted peer (some row) = some (record peer { peer_ip = row.peer_ip; first_seen = row.first_seen })

abbrev updated : (BmpPeer → BmpPeer) → Option BmpPeer → Option BmpPeer
updated change none = none
updated change (some row) = some (change row)

abbrev if_at : IpAddress → IpAddress → Option BmpPeer → Option BmpPeer → Option BmpPeer
if_at i j changed old = elim (same_address i j) [ yes e ↦ changed | no n ↦ old ]

abbrev pub row_after : IpAddress → Statement → Option BmpPeer → Option BmpPeer
row_after i (upserts peer) row = if_at peer.peer_ip i (upserted peer row) row
row_after i (deactivates now j) row =
    if_at j i (updated (λ r. record r { is_active = false; last_seen = now }) row) row
row_after i (sees now j) row = if_at j i (updated (λ r. record r { last_seen = now }) row) row
row_after i (logs event) row = row
row_after i (stores route) row = row

abbrev pub row_after_all : IpAddress → List Statement → Option BmpPeer → Option BmpPeer
row_after_all i [] row = row
row_after_all i (s ∷ ss) row = row_after_all i ss (row_after i s row)

row_of-upsert_row :
    (i : IpAddress) (peer : BmpPeer) (rows : List BmpPeer)
    → row_of i (upsert_row peer rows)
      ≡ if_at peer.peer_ip i (upserted peer (row_of i rows)) (row_of i rows)
unfolding row_of upsert_row
row_of-upsert_row i peer [] = ground arith
row_of-upsert_row i peer (row ∷ rows) = ground (arith, row_of-upsert_row i peer rows)

-- A change that keeps the address.
row_of-update_rows :
    (i j : IpAddress) (change : BmpPeer → BmpPeer) (rows : List BmpPeer)
    → ((row : BmpPeer) → (change row).peer_ip ≡ row.peer_ip)
    → row_of i (update_rows j change rows)
      ≡ if_at j i (updated change (row_of i rows)) (row_of i rows)
unfolding row_of update_rows
row_of-update_rows i j change [] keeps = ground arith
row_of-update_rows i j change (row ∷ rows) keeps =
    ground (arith, keeps row, row_of-update_rows i j change rows keeps)

get_bmp_peer-step :
    (i : IpAddress) (s : Statement) (db : Database)
    → get_bmp_peer i (step s db) ≡ row_after i s (get_bmp_peer i db)
unfolding step upsert_bmp_peer get_bmp_peer mark_peer_inactive update_peer_last_seen
    insert_peer_event insert_route_update
get_bmp_peer-step i (upserts peer) db = row_of-upsert_row i peer db.bmp_peers
get_bmp_peer-step i (deactivates now j) db = row_of-update_rows i j _ db.bmp_peers (λ row. refl)
get_bmp_peer-step i (sees now j) db = row_of-update_rows i j _ db.bmp_peers (λ row. refl)
get_bmp_peer-step i (logs event) db = refl
get_bmp_peer-step i (stores route) db = refl

-- The table of peers is a map: after any sequence of statements `get_bmp_peer` finds what the
-- statements for this address make of what it found before. An upsert sets a row or changes it,
-- all but its `first_seen`; the other updates change a row that is there; statements for other
-- addresses do not touch it.
pub get_bmp_peer-run :
    (i : IpAddress) (ss : List Statement) (db : Database)
    → get_bmp_peer i (run ss db) ≡ row_after_all i ss (get_bmp_peer i db)
unfolding run
get_bmp_peer-run i [] db = refl
get_bmp_peer-run i (s ∷ ss) db =
    get_bmp_peer-run i ss (step s db) ∙ ap (row_after_all i ss) (get_bmp_peer-step i s db)

-- The rows of the active peers, in the order of the table.
abbrev pub active_of : List BmpPeer → List BmpPeer
active_of [] = []
active_of (row ∷ rows) = if row.is_active then row ∷ active_of rows else active_of rows

-- The peer that was seen last comes first.
abbrev pub IsLatestFirst : List BmpPeer → Type 0
IsLatestFirst [] = Unit {0}
IsLatestFirst (row ∷ rows) =
    All (λ (r : BmpPeer). r.last_seen ≤ row.last_seen) rows × IsLatestFirst rows

insert_by_last_seen-Perm :
    (peer : BmpPeer) (rows : List BmpPeer) → Perm (insert_by_last_seen peer rows) (peer ∷ rows)
unfolding insert_by_last_seen
insert_by_last_seen-Perm peer [] = Perm.refl _
insert_by_last_seen-Perm peer (row ∷ rows) = elim (Bool-cases (leb row.last_seen peer.last_seen)) [
  | inl later ↦ rw later (Perm.refl _)
  | inr earlier ↦
      rw earlier
        (Perm.trans (Perm.cons row (insert_by_last_seen-Perm peer rows)) (Perm.swap peer row rows))
]

active_rows-Perm : (rows : List BmpPeer) → Perm (active_rows rows) (active_of rows)
unfolding active_rows
active_rows-Perm [] = Perm.refl _
active_rows-Perm (row ∷ rows) = elim (Bool-cases row.is_active) [
  | inl active ↦ simp active (
      Perm.trans (insert_by_last_seen-Perm row (active_rows rows))
        (Perm.cons row (active_rows-Perm rows)))
  | inr inactive ↦ simp inactive (active_rows-Perm rows)
]

AllUpTo : ℕ → List BmpPeer → Type 0
AllUpTo t = All (λ (r : BmpPeer). r.last_seen ≤ t)

up_to_later : (s t : ℕ) (rows : List BmpPeer) → s ≤ t → AllUpTo s rows → AllUpTo t rows
unfolding AllUpTo
up_to_later s t [] h all = tt
up_to_later s t (row ∷ rows) h (first, all) = (omega arith, up_to_later s t rows h all)

insert-AllUpTo :
    (t : ℕ) (peer : BmpPeer) (rows : List BmpPeer)
    → peer.last_seen ≤ t
    → AllUpTo t rows
    → AllUpTo t (insert_by_last_seen peer rows)
unfolding AllUpTo insert_by_last_seen
insert-AllUpTo t peer [] h all = (h, tt)
insert-AllUpTo t peer (row ∷ rows) h (first, all) = ground (arith, insert-AllUpTo t peer rows h all)

insert-IsLatestFirst :
    (peer : BmpPeer) (rows : List BmpPeer)
    → IsLatestFirst rows
    → IsLatestFirst (insert_by_last_seen peer rows)
unfolding AllUpTo insert_by_last_seen
insert-IsLatestFirst peer [] sorted = (tt, tt)
insert-IsLatestFirst peer (row ∷ rows) (first, sorted) =
    elim (Bool-cases (leb row.last_seen peer.last_seen)) [
      | inl later ↦
          let bound : row.last_seen ≤ peer.last_seen = ground arith in
          rw later
            ((bound, up_to_later row.last_seen peer.last_seen rows bound first), (first, sorted))
      | inr earlier ↦
          let bound : peer.last_seen ≤ row.last_seen = ground arith in
          rw earlier (
            insert-AllUpTo row.last_seen peer rows bound first,
            insert-IsLatestFirst peer rows sorted,
          )
    ]

active_rows-IsLatestFirst : (rows : List BmpPeer) → IsLatestFirst (active_rows rows)
unfolding active_rows
active_rows-IsLatestFirst [] = tt
active_rows-IsLatestFirst (row ∷ rows) =
    ground (arith, active_rows-IsLatestFirst rows, insert-IsLatestFirst row (active_rows rows))

-- `get_all_active_peers` returns exactly the rows of the active peers, the one that was seen
-- last first.
pub get_all_active_peers_lists :
    (db : Database)
    → Perm (get_all_active_peers db) (active_of db.bmp_peers)
      × IsLatestFirst (get_all_active_peers db)
unfolding get_all_active_peers
get_all_active_peers_lists db =
    (active_rows-Perm db.bmp_peers, active_rows-IsLatestFirst db.bmp_peers)

-- A count over the four families.
abbrev pub over_families : (Family → ℕ) → ℕ
over_families f = f ipv4_unicast + f ipv6_unicast + f evpn + f other_family

count_families :
    (routes : List RouteUpdate)
    → over_families (λ f. count_where (λ route. is_family f route.family) routes) ≡ length routes
unfolding count_where
count_families [] = refl
count_families (route ∷ routes) = ground (arith, count_families routes)

count_families_from :
    (peer_ip : IpAddress) (routes : List RouteUpdate)
    → over_families (λ f. count_where (is_family_from f peer_ip) routes)
      ≡ count_where (is_from peer_ip) routes
unfolding count_where
count_families_from peer_ip [] = refl
count_families_from peer_ip (route ∷ routes) = ground (arith, count_families_from peer_ip routes)

-- The counts of the four families add up to the count of all routes, and those of one peer to the
-- count of its routes.
pub route_counts_agree :
    (peer_ip : IpAddress) (db : Database)
    → (over_families (λ f. get_route_count_by_family f none db) ≡ get_route_count db)
      × (over_families (λ f. get_route_count_by_family f (some peer_ip) db)
          ≡ get_route_count_by_peer peer_ip db)
unfolding get_route_count_by_family get_route_count get_route_count_by_peer
route_counts_agree peer_ip db =
    (count_families db.route_updates, count_families_from peer_ip db.route_updates)
