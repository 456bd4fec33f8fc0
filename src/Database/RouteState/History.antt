-- ===== src/Database/RouteState/History.antt =====
-- The counters of route_state, against the history of a route.
use pybmpmon.Base.{
  Option-cases, ℕ, ◌+◌, ◌≡◌, ◌≢◌, refl, sym, ap, ◌∙◌, Bool, true, false, List, [], ◌∷◌, Option,
  none, some, arith, if◌then◌else◌, ◌⊎◌, inl, inr,
}
use pybmpmon.Models.Route.{RouteUpdate}
use pybmpmon.Database.RouteState.Keys.{Key, same_key}
use pybmpmon.Database.RouteState.{RouteState, update_key, new_row, updated_row, update_all}
use pybmpmon.Database.RouteState.Laws.{
  if_key, state_of, after_update, sees, sees_all, state_of-update_all,
}

-- Whether the updates of a route withdraw it, in order.
abbrev pub history : Key → List RouteUpdate → List Bool
history key [] = []
history key (r ∷ rs) = if_key key (update_key r) (r.is_withdrawn ∷ history key rs) (history key rs)

-- How often a history turns to announced, and to withdrawn, and where it ends.
abbrev pub learns : Bool → List Bool → ℕ
learns before [] = 0
learns before (true ∷ flags) = learns true flags
learns before (false ∷ flags) = (if before then 1 else 0) + learns false flags

abbrev pub withdraws : Bool → List Bool → ℕ
withdraws before [] = 0
withdraws before (true ∷ flags) = (if before then 0 else 1) + withdraws true flags
withdraws before (false ∷ flags) = withdraws false flags

abbrev pub final : Bool → List Bool → Bool
final before [] = before
final before (flag ∷ flags) = final flag flags

-- What a row says of the history of its route, after a row that was there.
record Follows (flags : List Bool) (before s : RouteState) : Type 0 where
  learned : s.learn_count ≡ before.learn_count + learns before.is_withdrawn flags
  withdrew : s.withdraw_count ≡ before.withdraw_count + withdraws before.is_withdrawn flags
  ends : s.is_withdrawn ≡ final before.is_withdrawn flags

-- An update of another route, or of this one.
record Passes (key : Key) (r : RouteUpdate) : Type 0 where
  keeps : (o : Option RouteState) → sees key r o ≡ o
  silent : (rs : List RouteUpdate) → history key (r ∷ rs) ≡ history key rs

record Hits (key : Key) (r : RouteUpdate) : Type 0 where
  sets : (o : Option RouteState) → sees key r o ≡ some (after_update r o)
  recorded : (rs : List RouteUpdate) → history key (r ∷ rs) ≡ r.is_withdrawn ∷ history key rs

key_cases : (key : Key) (r : RouteUpdate) → Hits key r ⊎ Passes key r
key_cases key r = elim (Option-cases (update_key r)) [
  | inl no_key ↦
      inr (record { keeps = λ o. ground (arith, no_key); silent = λ rs. ground (arith, no_key) })
  | inr (k, h) ↦ elim (same_key k key) [
    | yes e ↦
        inl (record { sets = λ o. ground (arith, h, e); recorded = λ rs. ground (arith, h, e) })
    | no n ↦ inr (record { keeps = λ o. ground (arith, h, n); silent = λ rs. ground (arith, h, n) })
  ]
]

updated-Follows :
    (r : RouteUpdate) (flags : List Bool) (before s : RouteState)
    → Follows flags (updated_row r before) s
    → Follows (r.is_withdrawn ∷ flags) before s
unfolding updated_row
updated-Follows r flags before s h = record {
  learned = ground (arith, h.learned);
  withdrew = ground (arith, h.withdrew);
  ends = ground (arith, h.ends);
}

sees_all-Follows :
    (key : Key) (rs : List RouteUpdate) (before s : RouteState)
    → sees_all key rs (some before) ≡ some s
    → Follows (history key rs) before s
sees_all-Follows key [] before s h = record {
  learned = ground (arith, h);
  withdrew = ground (arith, h);
  ends = ground (arith, h);
}
sees_all-Follows key (r ∷ rs) before s h = elim (key_cases key r) [
  | inl hit ↦ rw (hit.recorded rs) (
      updated-Follows r (history key rs) before s (
        sees_all-Follows key rs (updated_row r before) s
          (sym (ap (sees_all key rs) (hit.sets (some before))) ∙ h)))
  | inr pass ↦
      rw (pass.silent rs) (
        sees_all-Follows key rs before s
          (sym (ap (sees_all key rs) (pass.keeps (some before))) ∙ h))
]

-- What a row says of the whole history of its route.
pub record IsStateOf (flags : List Bool) (s : RouteState) : Type 0 where
  pub learned : s.learn_count ≡ learns true flags
  pub withdrew : s.withdraw_count ≡ withdraws false flags
  pub ends : s.is_withdrawn ≡ final true flags

new_row-IsStateOf :
    (r : RouteUpdate) (flags : List Bool) (s : RouteState)
    → Follows flags (new_row r) s
    → IsStateOf (r.is_withdrawn ∷ flags) s
unfolding new_row
new_row-IsStateOf r flags s h = record {
  learned = ground (arith, h.learned);
  withdrew = ground (arith, h.withdrew);
  ends = ground (arith, h.ends);
}

sees_all-IsStateOf :
    (key : Key) (rs : List RouteUpdate) (s : RouteState)
    → sees_all key rs none ≡ some s
    → IsStateOf (history key rs) s
sees_all-IsStateOf key [] s h = absurd (cc h)
sees_all-IsStateOf key (r ∷ rs) s h = elim (key_cases key r) [
  | inl hit ↦ rw (hit.recorded rs) (
      new_row-IsStateOf r (history key rs) s
        (sees_all-Follows key rs (new_row r) s (sym (ap (sees_all key rs) (hit.sets none)) ∙ h)))
  | inr pass ↦
      rw (pass.silent rs)
        (sees_all-IsStateOf key rs s (sym (ap (sees_all key rs) (pass.keeps none)) ∙ h))
]

history-ne-nil :
    (key : Key) (rs : List RouteUpdate) (s : RouteState)
    → sees_all key rs none ≡ some s
    → history key rs ≢ []
history-ne-nil key [] s h = absurd (cc h)
history-ne-nil key (r ∷ rs) s h = elim (key_cases key r) [
  | inl hit ↦ λ e. absurd (ground (arith, hit.recorded rs, e))
  | inr pass ↦
      rw (pass.silent rs)
        (history-ne-nil key rs s (sym (ap (sees_all key rs) (pass.keeps none)) ∙ h))
]

sees_all_stays :
    (key : Key) (rs : List RouteUpdate) (before : RouteState) → sees_all key rs (some before) ≢ none
sees_all_stays key [] before h = cc
sees_all_stays key (r ∷ rs) before h = elim (key_cases key r) [
  | inl hit ↦
      sees_all_stays key rs (updated_row r before)
        (sym (ap (sees_all key rs) (hit.sets (some before))) ∙ h)
  | inr pass ↦
      sees_all_stays key rs before (sym (ap (sees_all key rs) (pass.keeps (some before))) ∙ h)
]

no_history : (key : Key) (rs : List RouteUpdate) → sees_all key rs none ≡ none → history key rs ≡ []
no_history key [] h = refl
no_history key (r ∷ rs) h = elim (key_cases key r) [
  | inl hit ↦
      absurd (sees_all_stays key rs (new_row r) (sym (ap (sees_all key rs) (hit.sets none)) ∙ h))
  | inr pass ↦ pass.silent rs ∙ no_history key rs (sym (ap (sees_all key rs) (pass.keeps none)) ∙ h)
]

-- The table route_state, from empty on, is a map from the key of a route to its history: a route
-- has a row exactly if an update with its key came; the row counts how often the route turned to
-- announced and how often to withdrawn, and its state is that of the last update. Updates with
-- another key do not touch it.
pub update_all-IsStateOf :
    (key : Key) (rs : List RouteUpdate)
    → let row = state_of key (update_all rs []) in
      ((history key rs ≡ []) × (row ≡ none))
      ⊎ ((s : RouteState) × (history key rs ≢ []) × (row ≡ some s) × IsStateOf (history key rs) s)
unfolding state_of
update_all-IsStateOf key rs =
    let seen = sym (state_of-update_all key rs []) in
    elim (Option-cases (state_of key (update_all rs []))) [
      | inl missing ↦ inl (no_history key rs (seen ∙ missing), missing)
      | inr (s, found) ↦ inr (
        s,
        history-ne-nil key rs s (seen ∙ found),
        found,
        sees_all-IsStateOf key rs s (seen ∙ found),
      )
    ]
