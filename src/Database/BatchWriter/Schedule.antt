-- ===== src/Database/BatchWriter/Schedule.antt =====
-- batch_writer.py: `flush` across its awaits. While one call of `add_route` waits in `flush` for the
-- database, other handlers go on and call `add_route` on the same batch. Here the database refuses
-- nothing, COPY takes the batch as it stands when it is called, and only the table of routes is
-- followed; the flushes of `_periodic_flush` and `stop` are left out.
use pybmpmon.Base.{
  ℕ, zero, suc, ◌≡◌, refl, List, [], ◌∷◌, ◌++◌, length, leb, Bool, none, true, false, if◌then◌else◌,
}
use pybmpmon.Models.Route.{RouteUpdate}
use pybmpmon.Database.BatchWriter.{BatchWriter, append_route}

-- Where a flush waits: for its COPY, or after it for the calls of update_route_state.
pub data Flight : Type 0 where
  before_copy after_copy : Flight

pub record Schedule : Type 0 where
  pub writer : BatchWriter
  pub table : List RouteUpdate
  pub flights : List Flight

abbrev set_flight : ℕ → Flight → List Flight → List Flight
set_flight i f [] = []
set_flight zero f (g ∷ flights) = f ∷ flights
set_flight (suc i) f (g ∷ flights) = g ∷ set_flight i f flights

abbrev remove_flight : ℕ → List Flight → List Flight
remove_flight i [] = []
remove_flight zero (g ∷ flights) = flights
remove_flight (suc i) (g ∷ flights) = g ∷ remove_flight i flights

-- The flush at an index, as far as it got; an event for a flush that is not there changes nothing.
pub data At : ℕ → List Flight → Flight → Type 0 where
  first : {f : Flight} (flights : List Flight) → At 0 (f ∷ flights) f
  later :
      {i : ℕ} {f : Flight} (g : Flight) {flights : List Flight}
      → At i flights f
      → At (suc i) (g ∷ flights) f

-- The part of `add_route` up to the first await of its flush.
unfoldable pub begin_add : ℕ → RouteUpdate → Schedule → Schedule
begin_add now route s =
    let writer = append_route now route s.writer in
    record s {
      writer = writer;
      flights =
          if leb writer.batch_size (length writer.batch)
          then s.flights ++ (before_copy ∷ [])
          else s.flights;
    }

unfoldable pub end_copy : ℕ → Schedule → Schedule
end_copy i s = record s {
  table = s.table ++ s.writer.batch;
  flights = set_flight i after_copy s.flights;
}

-- The totals count the routes of the batch when its flush began; they are not followed.
unfoldable pub end_flush : ℕ → Schedule → Schedule
end_flush i s = record s {
  writer = record s.writer { batch = []; batch_start_time = none };
  flights = remove_flight i s.flights;
}

-- The steps that can be taken from a state, with the routes that they add.
pub data Step : Schedule → List RouteUpdate → Schedule → Type 0 where
  adds :
      (now : ℕ) (route : RouteUpdate) (s : Schedule)
      → s.writer.is_running ≡ true
      → Step s (route ∷ []) (begin_add now route s)
  copies : (i : ℕ) (s : Schedule) → At i s.flights before_copy → Step s [] (end_copy i s)
  finishes : (i : ℕ) (s : Schedule) → At i s.flights after_copy → Step s [] (end_flush i s)

pub data Reach (s : Schedule) : List RouteUpdate → Schedule → Type 0 where
  here : Reach s [] s
  next :
      {t u : Schedule} {routes more : List RouteUpdate}
      → Reach s routes t
      → Step t more u
      → Reach s (routes ++ more) u

-- Routes added one after the other, with no other step in between.
pub data Adding (s : Schedule) : List RouteUpdate → Schedule → Type 0 where
  none_added : Adding s [] s
  one_more :
      {t : Schedule} {routes : List RouteUpdate} (now : ℕ) (route : RouteUpdate)
      → Adding s routes t
      → t.writer.is_running ≡ true
      → Adding s (routes ++ (route ∷ [])) (begin_add now route t)

At-append :
    {i : ℕ} {f : Flight} {flights : List Flight} (more : List Flight)
    → At i flights f
    → At i (flights ++ more) f
At-append more (first rest) = first (rest ++ more)
At-append more (later g at) = later g (At-append more at)

if_At :
    {i : ℕ} {f : Flight} {flights : List Flight} (b : Bool)
    → At i flights f
    → At i (if b then flights ++ (before_copy ∷ []) else flights) f
if_At true at = At-append (before_copy ∷ []) at
if_At false at = at

At-set_flight :
    {i : ℕ} {f : Flight} {flights : List Flight} (g : Flight)
    → At i flights f
    → At i (set_flight i g flights) g
At-set_flight g (first rest) = first rest
At-set_flight g (later k at) = later k (At-set_flight g at)

-- Adding leaves the table, and the flushes that are under way.
Adding-leaves :
    {s t : Schedule} {routes : List RouteUpdate} {i : ℕ} {f : Flight}
    → Adding s routes t
    → At i s.flights f
    → (t.table ≡ s.table) × At i t.flights f
unfolding begin_add
Adding-leaves none_added at = (refl, at)
Adding-leaves (one_more {t = t} now route adding running) at =
    let (same, kept) = Adding-leaves adding at in
    (same, if_At (leb t.writer.batch_size (length (t.writer.batch ++ (route ∷ [])))) kept)

-- Routes that are added while a flush waits between the end of its COPY and its own end are
-- lost: the flush can end, and then the batch is empty and the table has only the routes that
-- were in the batch at the COPY.
pub added_after_copy_lost :
    (i : ℕ) (s t : Schedule) (routes : List RouteUpdate)
    → At i s.flights before_copy
    → Adding (end_copy i s) routes t
    → Step t [] (end_flush i t)
      × ((end_flush i t).table ≡ s.table ++ s.writer.batch)
      × ((end_flush i t).writer.batch ≡ [])
unfolding end_copy end_flush
added_after_copy_lost i s t routes at adding =
    let (same, kept) = Adding-leaves adding (At-set_flight after_copy at) in
    (finishes i t kept, same, refl)

-- Two flushes that both wait for their COPY can both copy the batch: its routes are in the table
-- twice then.
pub copied_twice :
    (i j : ℕ) (s : Schedule)
    → At i s.flights before_copy
    → At j (end_copy i s).flights before_copy
    → Reach s [] (end_copy j (end_copy i s))
      × ((end_copy j (end_copy i s)).table ≡ (s.table ++ s.writer.batch) ++ s.writer.batch)
unfolding end_copy
copied_twice i j s at at' = (next (next here (copies i s at)) (copies j (end_copy i s) at'), refl)
