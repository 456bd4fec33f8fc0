-- ===== src/Listener/Service.antt =====
-- listener.py: the objects that the handlers of a `BMPListener` change, and the calls that they make
-- of them. A handler runs to its end before another one goes on.
use pybmpmon.Base.{ℕ, ◌+◌, Bool, List, [], ◌∷◌, Option, Error, Result, ok, err, if◌then◌else◌}
use pybmpmon.Utils.Binary.{IpAddress}
use pybmpmon.Utils.Address.{same_peer}
use pybmpmon.Models.Route.{RouteUpdate}
use pybmpmon.Monitoring.PeerStats.{PeerStats, Family}
use pybmpmon.Monitoring.Collector as Collector
use pybmpmon.Database.Tables.{Database}
use pybmpmon.Database.BatchWriter.{
  BatchWriter, Answer, Outcome, returned, runtime_error, database_error, add_route,
}

-- What comes from outside at each call: the clock, whether the database refuses a statement, and
-- what it answers to a flush.
pub record Outside : Type 0 where
  pub clock : ℕ → ℕ
  pub refuses : ℕ → Bool
  pub answers : ℕ → Answer

-- `ticks` counts the calls that ask the outside. A peer without an address is "unknown".
pub record Service : Type 0 where
  pub ticks : ℕ
  pub collector : List (Option IpAddress × PeerStats)
  pub writer : BatchWriter
  pub database : Database

-- The exceptions of the parsers, of `add_route`, of a statement and of `readexactly`.
pub data Exception : Type 0 where
  parse_failed : Error → Exception
  not_running refused incomplete_read : Exception

pub data Attempt (A : Type 0) : Type 0 where
  done : A → Attempt A
  raises : Exception → Attempt A

abbrev pub Action : Type 0 → Type 0
Action A = Service → Attempt A × Service

-- What was changed before an exception stays changed.
abbrev pub and_then : {A B : Type 0} → (A → Action B) → Attempt A × Service → Attempt B × Service
and_then f (done a, s) = f a s
and_then f (raises e, s) = (raises e, s)

infixl 5 ◌>>=◌ ◌>>◌
abbrev pub ◌>>=◌ : {A B : Type 0} → Action A → (A → Action B) → Action B
◌>>=◌ m f s = and_then f (m s)

abbrev pub ◌>>◌ : {A B : Type 0} → Action A → Action B → Action B
m >> k = m >>= λ _. k

abbrev pub pass : Action (Unit {0})
pass s = (done tt, s)

module _ {A : Type 0} where
  abbrev pub raise : Exception → Action A
  raise e s = (raises e, s)

  abbrev pub parsed : Result A → Action A
  parsed (ok a) s = (done a, s)
  parsed (err x) s = (raises (parse_failed x), s)

  abbrev pub for_each : (A → Action (Unit {0})) → List A → Action (Unit {0})
  for_each f [] s = (done tt, s)
  for_each f (a ∷ as_) s = and_then (λ _. for_each f as_) (f a s)

abbrev pub tick : Service → Service
tick s = record s { ticks = s.ticks + 1 }

-- How `add_route` ends, as the caller sees it.
abbrev pub of_outcome : Service → Outcome → Attempt (Unit {0}) × Service
of_outcome s (returned, w, db) = (done tt, record s { writer = w; database = db })
of_outcome s (runtime_error, w, db) = (raises not_running, record s { writer = w; database = db })
of_outcome s (database_error, w, db) = (raises refused, record s { writer = w; database = db })

module _ (o : Outside) where
  -- `datetime.now(UTC)`
  unfoldable pub read_clock : Action ℕ
  read_clock s = (done (o.clock s.ticks), tick s)

  -- `conn.execute`
  unfoldable pub execute : (Database → Database) → Action (Unit {0})
  execute statement s =
      if o.refuses s.ticks
      then (raises refused, tick s)
      else (done tt, tick (record s { database = statement s.database }))

  -- `self.batch_writer.add_route(route)`
  unfoldable pub write_route : RouteUpdate → Action (Unit {0})
  write_route route s =
      of_outcome (tick s)
        (add_route (o.clock s.ticks) (o.answers s.ticks) route s.writer s.database)

  -- The calls of `self.stats_collector`.
  unfoldable pub count_received : Option IpAddress → Action (Unit {0})
  count_received peer_ip s = (
    done tt,
    record (tick s) {
      collector = Collector.increment_received same_peer (o.clock s.ticks) peer_ip s.collector;
    },
  )

  unfoldable pub count_processed : Option IpAddress → Family → Action (Unit {0})
  count_processed peer_ip family s = (
    done tt,
    record (tick s) {
      collector =
          Collector.increment_processed same_peer (o.clock s.ticks) peer_ip family s.collector;
    },
  )

  unfoldable pub count_error : Option IpAddress → Service → Service
  count_error peer_ip s = record (tick s) {
    collector = Collector.increment_error same_peer (o.clock s.ticks) peer_ip s.collector;
  }
