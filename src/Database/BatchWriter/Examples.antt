-- ===== src/Database/BatchWriter/Examples.antt =====
-- Tests of batch_writer.py on small batches, and its theorems applied to them.
use pybmpmon.Base.{◌+◌, ◌≤◌, length, ◌≡◌, refl, List, [], ◌∷◌, ◌++◌, some, true, arith}
use mathlib.Core.List.{Sublist}
use pybmpmon.Database.BatchWriter.{
  BatchWriter, new_writer, not_copied, fails_at, succeeds, flush, add_route, stop, periodic_flush,
  get_stats,
}
use pybmpmon.Database.BatchWriter.TestData.{route_at, no_rows}
use pybmpmon.Database.BatchWriter.Laws.{Call, adds, ticks, stops, step, run, IsValid, step-IsValid}
use pybmpmon.Database.BatchWriter.Counting.{written, get_stats-run-le}
use pybmpmon.Database.BatchWriter.Delivery.{held, accepted, run-Sublist, run_delivers}
use pybmpmon.Database.BatchWriter.Schedule.{
  before_copy, Schedule, first, begin_add, end_copy, end_flush, Step, none_added, one_more,
  added_after_copy_lost,
}

abbrev writer : BatchWriter
writer = record (new_writer 2 500) { is_running = true }

-- The second route fills the batch; the third waits for the timeout.
abbrev three_calls : List Call
three_calls =
    adds 1 succeeds (route_at 1)
    ∷ adds 2 (fails_at 1) (route_at 2)
    ∷ adds 3 succeeds (route_at 3)
    ∷ ticks 400 succeeds
    ∷ ticks 503 succeeds
    ∷ []

three_routes_written :
    (run three_calls (writer, no_rows)).1.route_updates ≡ route_at 1 ∷ route_at 2 ∷ route_at 3 ∷ []
unfolding run step add_route flush periodic_flush
three_routes_written = refl

two_states_updated :
    (run three_calls (writer, no_rows)).1.state_updates ≡ route_at 1 ∷ route_at 3 ∷ []
unfolding run step add_route flush periodic_flush
two_states_updated = refl

-- A COPY that fails takes the batch with it.
failed_flush_loses :
    held (run (adds 1 succeeds (route_at 1) ∷ stops not_copied ∷ []) (writer, no_rows)) ≡ []
unfolding run step add_route flush stop
failed_flush_loses = refl

writer-IsValid : IsValid writer
writer-IsValid = record { bounded = omega arith; started = tt }

step-IsValid_example : IsValid (step (adds 1 succeeds (route_at 1)) (writer, no_rows)).0
step-IsValid_example = step-IsValid (adds 1 succeeds (route_at 1)) (writer, no_rows) writer-IsValid

run-Sublist_example :
    Sublist
      (held (run three_calls (writer, no_rows)))
      (held (writer, no_rows) ++ accepted writer.is_running three_calls)
run-Sublist_example = run-Sublist three_calls writer no_rows

run_delivers_example :
    held (run three_calls (writer, no_rows))
    ≡ held (writer, no_rows) ++ accepted writer.is_running three_calls
run_delivers_example =
    run_delivers three_calls writer no_rows
      (λ e. cc, (λ e. cc, (λ e. cc, (λ e. cc, (λ e. cc, tt)))))

-- A full batch whose flush waits for its COPY.
abbrev full_writer : BatchWriter
full_writer = record writer { batch = route_at 1 ∷ route_at 2 ∷ []; batch_start_time = some 1 }

abbrev flushing : Schedule
flushing = record { writer = full_writer; table = []; flights = before_copy ∷ [] }

abbrev copied : Schedule
copied = end_copy 0 flushing

abbrev one_added : Schedule
one_added = begin_add 3 (route_at 3) copied

added_after_copy_lost_example :
    Step one_added [] (end_flush 0 one_added)
    × ((end_flush 0 one_added).table ≡ flushing.table ++ flushing.writer.batch)
    × ((end_flush 0 one_added).writer.batch ≡ [])
unfolding end_copy
added_after_copy_lost_example =
    added_after_copy_lost 0 flushing one_added ([] ++ (route_at 3 ∷ [])) (first [])
      (one_more 3 (route_at 3) (none_added) refl)

-- The second flush fails behind its COPY: its routes are in the table, and not counted.
get_stats-run-le_example :
    written (run three_calls (writer, no_rows)) + length no_rows.route_updates
    ≤ written (writer, no_rows) + length (run three_calls (writer, no_rows)).1.route_updates
get_stats-run-le_example = get_stats-run-le three_calls (writer, no_rows)

two_of_three_not_counted : written (run three_calls (writer, no_rows)) ≡ 1
unfolding run step add_route flush periodic_flush get_stats
two_of_three_not_counted = refl
