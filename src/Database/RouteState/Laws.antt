-- ===== src/Database/RouteState/Laws.antt =====
-- route_state as its readers see it: a map from the key of a route to what its updates left.
use pybmpmon.Base.{
  Option-cases, ◌+◌, ◌≡◌, refl, ap, ◌∙◌, List, [], ◌∷◌, ◌++◌, Option, none, some, length,
  length-append, arith, inl, inr,
}
use pybmpmon.Models.Route.{RouteUpdate}
use pybmpmon.Monitoring.PeerStats.{other_family}
use pybmpmon.Database.RouteState.Keys.{Key, same_key}
use pybmpmon.Database.RouteState.{
  RouteState, update_key, row_key, new_row, updated_row, update_by_key, update_route_state,
  update_all,
}

abbrev pub if_key : {A : Type 0} → Key → Option Key → A → A → A
if_key key none same other = other
if_key key (some k) same other = elim (same_key k key) [ yes e ↦ same | no n ↦ other ]

-- The row with a key.
unfoldable pub state_of : Key → List RouteState → Option RouteState
state_of key [] = none
state_of key (s ∷ rows) = if_key key (row_key s) (some s) (state_of key rows)

-- What one update makes of the row of its route, and of those of other routes.
abbrev pub after_update : RouteUpdate → Option RouteState → RouteState
after_update r none = new_row r
after_update r (some s) = updated_row r s

abbrev pub sees : Key → RouteUpdate → Option RouteState → Option RouteState
sees key r o = if_key key (update_key r) (some (after_update r o)) o

abbrev pub sees_all : Key → List RouteUpdate → Option RouteState → Option RouteState
sees_all key [] o = o
sees_all key (r ∷ rs) o = sees_all key rs (sees key r o)

row_key-new_row : (r : RouteUpdate) → row_key (new_row r) ≡ update_key r
unfolding row_key new_row update_key
row_key-new_row r = refl

row_key-updated_row : (r : RouteUpdate) (s : RouteState) → row_key (updated_row r s) ≡ row_key s
unfolding row_key updated_row
row_key-updated_row r s = refl

state_of-update_by_key :
    (key k : Key) (r : RouteUpdate) (rows : List RouteState)
    → update_key r ≡ some k
    → state_of key (update_by_key k r rows) ≡ sees key r (state_of key rows)
unfolding state_of update_by_key
state_of-update_by_key key k r [] h = ground (arith, h, row_key-new_row r)
state_of-update_by_key key k r (s ∷ rows) h =
    ground (arith, h, row_key-updated_row r s, state_of-update_by_key key k r rows h)

state_of-append :
    (key : Key) (rows : List RouteState) (s : RouteState)
    → row_key s ≡ none
    → state_of key (rows ++ (s ∷ [])) ≡ state_of key rows
unfolding state_of
state_of-append key [] s h = ground (arith, h)
state_of-append key (t ∷ rows) s h = ground (arith, state_of-append key rows s h)

state_of-update_route_state :
    (key : Key) (r : RouteUpdate) (rows : List RouteState)
    → state_of key (update_route_state r rows) ≡ sees key r (state_of key rows)
unfolding update_route_state
state_of-update_route_state key r rows = elim (Option-cases (update_key r)) [
  | inl no_key ↦
      ground (arith, no_key, state_of-append key rows (new_row r) (row_key-new_row r ∙ no_key))
  | inr (k, h) ↦ ground (arith, h, state_of-update_by_key key k r rows h)
]

pub state_of-update_all :
    (key : Key) (rs : List RouteUpdate) (rows : List RouteState)
    → state_of key (update_all rs rows) ≡ sees_all key rs (state_of key rows)
unfolding update_all
state_of-update_all key [] rows = refl
state_of-update_all key (r ∷ rs) rows =
    state_of-update_all key rs (update_route_state r rows)
    ∙ ap (sees_all key rs) (state_of-update_route_state key r rows)

-- An update of the family "unknown" adds a row to route_state, whatever rows are there, and
-- changes the row of no key: the state of no IPv4, IPv6 or EVPN route sees it.
pub unknown_family_adds :
    (r : RouteUpdate) (rows : List RouteState)
    → r.family ≡ other_family
    → (length (update_route_state r rows) ≡ length rows + 1)
      × ((key : Key) → state_of key (update_route_state r rows) ≡ state_of key rows)
unfolding update_route_state update_key row_key new_row
unknown_family_adds r rows h = (
  ground (arith, h, length-append rows (new_row r ∷ [])),
  λ key. ground (arith, h, state_of-append key rows (new_row r)),
)
