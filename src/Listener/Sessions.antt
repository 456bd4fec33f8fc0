-- ===== src/Listener/Sessions.antt =====
-- listener.py: what `_handle_connection` keeps of the connections, `_active_connections` and
-- `_connection_start_times`, when it begins and in its `finally`. Connections overlap here. The time is
-- in whole seconds; a task is a number.
use pybmpmon.Base.{
  ℕ, ◌≡◌, ◌≢◌, refl, sym, ◌∙◌, List, [], ◌∷◌, Option, none, some, All, ◌==◌, if◌then◌else◌,
}
use pybmpmon.Base.Dict.{
  get, put, delete, get-put_same, get-put_other, get-delete_same, get-delete_other,
}
use pybmpmon.Base.Int.{ℤ, pos, sub_ℕ}
use pybmpmon.Utils.Binary.{IpAddress}
use pybmpmon.Utils.Address.{same_peer}
use pybmpmon.Listener.Connection.{Closing, closes, lost}

pub record Sessions : Type 0 where
  pub active_connections : List ℕ
  pub connection_start_times : List (Option IpAddress × ℕ)

-- `set.add` and `set.discard`
unfoldable pub discard : ℕ → List ℕ → List ℕ
discard task [] = []
discard task (t ∷ tasks) = let rest = discard task tasks in if t == task then rest else t ∷ rest

unfoldable pub open_session : ℕ → Option IpAddress → ℕ → Sessions → Sessions
unfolding discard
open_session task peer_ip now s = record {
  active_connections = task ∷ discard task s.active_connections;
  connection_start_times = put same_peer peer_ip now s.connection_start_times;
}

-- The duration, where a missing start gives 0.
abbrev pub duration_from : ℕ → Option ℕ → ℤ
duration_from now none = pos 0
duration_from now (some start) = sub_ℕ now start

-- The `finally`: the duration that is logged, if `wait_closed` returns.
unfoldable pub close_session : Closing → ℕ → Option IpAddress → ℕ → Sessions → Option ℤ × Sessions
unfolding discard
close_session lost task peer_ip now s = (none, s)
close_session closes task peer_ip now s = (
  some (duration_from now (get same_peer peer_ip s.connection_start_times)),
  record {
    active_connections = discard task s.active_connections;
    connection_start_times = delete same_peer peer_ip s.connection_start_times;
  },
)

-- A connection begins or ends: its task, its peer and the time.
pub data Event : Type 0 where
  opens : ℕ → Option IpAddress → ℕ → Event
  ends : Closing → ℕ → Option IpAddress → ℕ → Event

abbrev pub peer_of : Event → Option IpAddress
peer_of (opens task peer_ip now) = peer_ip
peer_of (ends closing task peer_ip now) = peer_ip

unfoldable pub step : Event → Sessions → Sessions
unfolding open_session close_session
step (opens task peer_ip now) s = open_session task peer_ip now s
step (ends closing task peer_ip now) s = (close_session closing task peer_ip now s).1

unfoldable pub run : List Event → Sessions → Sessions
unfolding step
run [] s = s
run (e ∷ es) s = run es (step e s)

abbrev start_of : Option IpAddress → Sessions → Option ℕ
start_of peer_ip s = get same_peer peer_ip s.connection_start_times

start_of-step_other :
    (peer_ip : Option IpAddress) (e : Event) (s : Sessions)
    → peer_of e ≢ peer_ip
    → start_of peer_ip (step e s) ≡ start_of peer_ip s
unfolding step open_session close_session
start_of-step_other peer_ip (opens task j now) s n =
    get-put_other same_peer peer_ip j now s.connection_start_times (λ h. n (sym h))
start_of-step_other peer_ip (ends lost task j now) s n = refl
start_of-step_other peer_ip (ends closes task j now) s n =
    get-delete_other same_peer peer_ip j s.connection_start_times (λ h. n (sym h))

start_of-run_other :
    (peer_ip : Option IpAddress) (es : List Event) (s : Sessions)
    → All (λ e. peer_of e ≢ peer_ip) es
    → start_of peer_ip (run es s) ≡ start_of peer_ip s
unfolding run
start_of-run_other peer_ip [] s n = refl
start_of-run_other peer_ip (e ∷ es) s (n, ns) =
    start_of-run_other peer_ip es (step e s) ns ∙ start_of-step_other peer_ip e s n

-- If no other connection from its address begins or ends meanwhile, then whatever the other
-- peers do, the duration that is logged of a connection that is closed is the time from its
-- start to its end.
pub close_session-duration :
    (task : ℕ) (peer_ip : Option IpAddress) (start now : ℕ) (es : List Event) (s : Sessions)
    → All (λ e. peer_of e ≢ peer_ip) es
    → (close_session closes task peer_ip now (run es (open_session task peer_ip start s))).0
      ≡ some (sub_ℕ now start)
unfolding close_session open_session
close_session-duration task peer_ip start now es s n =
    rw
      (
        start_of-run_other peer_ip es (open_session task peer_ip start s) n,
        get-put_same same_peer peer_ip start s.connection_start_times,
      )
      refl

-- Two connections end, the task `one` first: it logs the time since `since`, the other one 0.
abbrev pub Logs :
    Option IpAddress → ℕ → (one other now end : ℕ) → (es fs : List Event) → Sessions → Type 0
Logs peer_ip since one other now end es fs s =
    let (logged, t) = close_session closes one peer_ip now (run es s) in
    (logged ≡ some (sub_ℕ now since))
    × ((close_session closes other peer_ip end (run fs t)).0 ≡ some (pos 0))

module _ (first second : ℕ) (peer_ip : Option IpAddress) (start later : ℕ) (s : Sessions) where
  ends_first :
      (one other now end : ℕ) (es fs : List Event)
      → All (λ e. peer_of e ≢ peer_ip) es
      → All (λ e. peer_of e ≢ peer_ip) fs
      → Logs peer_ip later one other now end es fs
          (open_session second peer_ip later (open_session first peer_ip start s))
  unfolding close_session open_session
  ends_first one other now end es fs n m =
      let both = open_session second peer_ip later (open_session first peer_ip start s) in
      let u = run es both in
      let t = (close_session closes one peer_ip now u).1 in
      (
        rw
            (
              start_of-run_other peer_ip es both n,
              get-put_same same_peer peer_ip later
                  (put same_peer peer_ip start s.connection_start_times),
            )
            refl,
        rw
            (
              start_of-run_other peer_ip fs t m,
              get-delete_same same_peer peer_ip u.connection_start_times,
            )
            refl,
      )

  -- Of two connections from one address that overlap and are both closed, the one that ends
  -- first, be it the earlier or the later one, logs the time since the later one began, and the
  -- other one logs 0, whatever the other peers do meanwhile.
  pub close_session-overlap :
      (now end : ℕ) (es fs : List Event)
      → All (λ e. peer_of e ≢ peer_ip) es
      → All (λ e. peer_of e ≢ peer_ip) fs
      → let both = open_session second peer_ip later (open_session first peer_ip start s) in
        Logs peer_ip later first second now end es fs both
        × Logs peer_ip later second first now end es fs both
  close_session-overlap now end es fs n m =
      (ends_first first second now end es fs n m, ends_first second first now end es fs n m)
