-- ===== src/Listener/RouteFlow.antt =====
-- The way of the routes of an UPDATE through `_handle_route_monitoring` and the batch writer into the
-- table. Routes are compared without their time.
use pybmpmon.Base.{
  ℕ, ◌+◌, ◌≡◌, ◌≢◌, refl, sym, ap, ◌∙◌, List, [], ◌∷◌, ◌++◌, map, length, length-append, Option,
  none, some, true, arith,
}
use mathlib.Core.List.{append_assoc, append-nil}
use pybmpmon.Utils.Binary.{IpAddress}
use pybmpmon.Utils.Address.{same_peer}
use pybmpmon.Protocol.Bgp.{Prefix}
use pybmpmon.Models.Route.{RouteUpdate}
use pybmpmon.Database.Tables.{Database}
use pybmpmon.Database.BatchWriter.{
  BatchWriter, succeeds, not_copied, returned, runtime_error, database_error, Outcome, add_route,
}
use pybmpmon.Database.BatchWriter.Laws.{adds, step, state_of}
use pybmpmon.Database.BatchWriter.Delivery.{held, step_delivers, step_running}
use pybmpmon.Monitoring.PeerStats.{PeerStats, Family}
use pybmpmon.Monitoring.Collector.{lookup}
use pybmpmon.Monitoring.CollectorLaws.{Event, processed, run, IsDict, step-IsDict, lookup-run}
use pybmpmon.Monitoring.CollectorLaws as CollectorLaws
use pybmpmon.Listener.Service.{
  Outside, Service, Action, Attempt, done, raises, ◌>>◌, and_then, of_outcome, tick, for_each,
  write_route, count_processed,
}

abbrev pub untimed : RouteUpdate → RouteUpdate
untimed route = record route { time = 0 }

-- The routes in the table, then those in the batch.
abbrev pub stored : Service → List RouteUpdate
stored s = map untimed (held (s.writer, s.database))

abbrev processed_in : Option PeerStats → ℕ
processed_in none = 0
processed_in (some stats) = stats.routes_processed

-- The routes that are counted as processed for a peer.
abbrev pub processed_of : IpAddress → Service → ℕ
processed_of peer_ip s = processed_in (lookup same_peer (some peer_ip) s.collector)

-- The writer runs, and the collector holds each peer once.
pub record IsReady (s : Service) : Type 0 where
  pub running : s.writer.is_running ≡ true
  pub dict : IsDict s.collector

-- Routes went through: all that was to be done is done, the routes follow those that were there, and
-- they are counted.
pub record Flows (peer_ip : IpAddress) (s : Service) (routes : List RouteUpdate)
    (r : Attempt (Unit {0}) × Service) : Type 0 where
  pub finished : r.0 ≡ done tt
  pub ready : IsReady r.1
  pub appended : stored r.1 ≡ stored s ++ routes
  pub counted : processed_of peer_ip r.1 ≡ processed_of peer_ip s + length routes

map-append : (xs ys : List RouteUpdate) → map untimed (xs ++ ys) ≡ map untimed xs ++ map untimed ys
map-append [] ys = refl
map-append (x ∷ xs) ys = ap (λ t. untimed x ∷ t) (map-append xs ys)

add_route_returns :
    (now : ℕ) (route : RouteUpdate) (w : BatchWriter) (db : Database)
    → w.is_running ≡ true
    → (add_route now succeeds route w db).0 ≡ returned
unfolding add_route
add_route_returns now route w db running = ground arith

abbrev with_outcome : Service → Outcome → Service
with_outcome s (e, w, db) = record s { writer = w; database = db }

of_returned :
    (s : Service) (r : Outcome) → r.0 ≡ returned → of_outcome s r ≡ (done tt, with_outcome s r)
of_returned s (returned, w, db) h = refl
of_returned s (runtime_error, w, db) h = absurd (cc h)
of_returned s (database_error, w, db) h = absurd (cc h)

module _ (o : Outside) (peer_ip : IpAddress) (answered : (n : ℕ) → o.answers n ≡ succeeds) where
  module _ (s : Service) (routes more : List RouteUpdate) where
    pub then-Flows :
        (k : Action (Unit {0})) (r : Attempt (Unit {0}) × Service)
        → Flows peer_ip s routes r
        → ((t : Service) → IsReady t → Flows peer_ip t more (k t))
        → Flows peer_ip s (routes ++ more) (and_then (λ _. k) r)
    then-Flows k (done u, t) first next =
        let second = next t first.ready in
        record {
          finished = second.finished;
          ready = second.ready;
          appended = second.appended ∙ rw first.appended (append_assoc (stored s) routes more);
          counted = omega (arith, second.counted, first.counted, length-append routes more);
        }
    then-Flows k (raises e, t) first next = absurd (cc (first.finished))

  pub for_each-Flows :
      (f : Prefix → Action (Unit {0})) (route_of : Prefix → RouteUpdate) (ps : List Prefix)
      → ((p : Prefix) (s : Service) → IsReady s → Flows peer_ip s (route_of p ∷ []) (f p s))
      → (s : Service) → IsReady s
      → Flows peer_ip s (map route_of ps) (for_each f ps s)
  for_each-Flows f route_of [] each s ready = record {
    finished = refl;
    ready = ready;
    appended = sym (append-nil (stored s));
    counted = omega arith;
  }
  for_each-Flows f route_of (p ∷ ps) each s ready =
      then-Flows s (route_of p ∷ []) (map route_of ps) (for_each f ps) (f p s) (each p s ready)
        (for_each-Flows f route_of ps each)

  -- What `write_route` leaves of a running writer.
  written : RouteUpdate → Service → Outcome
  written route s = add_route (o.clock s.ticks) (o.answers s.ticks) route s.writer s.database

  write_returns :
      (route : RouteUpdate) (s : Service)
      → s.writer.is_running ≡ true
      → write_route o route s ≡ (done tt, with_outcome (tick s) (written route s))
  unfolding write_route written
  write_returns route s running = of_returned (tick s) (written route s) (
      rw (answered s.ticks) (add_route_returns (o.clock s.ticks) route s.writer s.database running))

  held-written :
      (route : RouteUpdate) (s : Service)
      → s.writer.is_running ≡ true
      → held (state_of (written route s)) ≡ held (s.writer, s.database) ++ (route ∷ [])
  unfolding written step
  held-written route s running =
      let taken : o.answers s.ticks ≢ not_copied = λ e. cc (answered s.ticks) in
      step_delivers (adds (o.clock s.ticks) (o.answers s.ticks) route) s.writer s.database taken
      ∙ ground (arith, running)

  written_running :
      (route : RouteUpdate) (s : Service)
      → (state_of (written route s)).0.is_running ≡ s.writer.is_running
  unfolding written step
  written_running route s =
      step_running (adds (o.clock s.ticks) (o.answers s.ticks) route) s.writer s.database

  pub send-Flows :
      (route : RouteUpdate) (family : Family) (s : Service)
      → IsReady s
      → Flows peer_ip s
          (untimed route ∷ [])
          ((write_route o route >> count_processed o (some peer_ip) family) s)
  unfolding count_processed CollectorLaws.step run
  send-Flows route family s ready =
      let t = with_outcome (tick s) (written route s) in
      let event : Event (Option IpAddress) = processed (some peer_ip) (o.clock t.ticks) family in
      rw (write_returns route s ready.running) (record {
        finished = refl;
        ready = record {
          running = written_running route s ∙ ready.running;
          dict = step-IsDict same_peer event s.collector ready.dict;
        };
        appended =
            ap (map untimed) (held-written route s ready.running)
            ∙ map-append (held (s.writer, s.database)) (route ∷ []);
        counted =
            ground (arith, lookup-run same_peer (some peer_ip) (event ∷ []) s.collector ready.dict);
      })

  pub tick-Flows :
      (s : Service) (routes : List RouteUpdate) (r : Attempt (Unit {0}) × Service)
      → Flows peer_ip (tick s) routes r
      → Flows peer_ip s routes r
  tick-Flows s routes r h = record {
    finished = h.finished;
    ready = h.ready;
    appended = h.appended;
    counted = h.counted;
  }
