-- ===== src/Database/BatchWriter/Delivery.antt =====
-- What becomes of the routes that are added: where they end, and in which order.
use pybmpmon.Base.{
  ◌+◌, ◌≡◌, ◌≢◌, ◌⊎◌, refl, sym, ap, ◌∙◌, List, [], ◌∷◌, ◌++◌, length, Bool, true, false, All,
  arith, ◌==◌, Bool-cases, inl, inr, leb,
}
use mathlib.Core.List.{append_assoc, append-nil, Sublist, sublist-append_left}
use mathlib.Core.List.Sublist as Sub
use pybmpmon.Models.Route.{RouteUpdate}
use pybmpmon.Database.Tables.{Database}
use pybmpmon.Database.BatchWriter.{
  BatchWriter, Answer, not_copied, fails_at, succeeds, flush, append_route, add_route, start, stop,
  periodic_flush, is_due,
}
use pybmpmon.Database.BatchWriter.Laws.{
  Call, adds, ticks, starts, stops, State, state_of, step, run,
}

-- The routes that are in the table or wait in the batch.
abbrev pub held : State → List RouteUpdate
held (w, db) = db.route_updates ++ w.batch

-- The routes that calls add: those of `add_route` while the writer runs.
abbrev pub accepted : Bool → List Call → List RouteUpdate
accepted running [] = []
accepted true (adds now answer r ∷ cs) = r ∷ accepted true cs
accepted false (adds now answer r ∷ cs) = accepted false cs
accepted running (ticks now answer ∷ cs) = accepted running cs
accepted running (starts ∷ cs) = accepted true cs
accepted running (stops answer ∷ cs) = accepted false cs

-- A flush that the database takes moves the batch to the table.
pub flush_delivers :
    (answer : Answer) (w : BatchWriter) (db : Database)
    → answer ≢ not_copied
    → held (state_of (flush answer w db)) ≡ held (w, db)
unfolding flush
flush_delivers not_copied w db taken = absurd (taken refl)
flush_delivers (fails_at i) w db taken = ground (arith, append-nil (db.route_updates ++ w.batch))
flush_delivers succeeds w db taken = ground (arith, append-nil (db.route_updates ++ w.batch))

-- One that it does not take leaves a batch with a route nowhere.
flush_loses :
    (w : BatchWriter) (db : Database)
    → (held (state_of (flush not_copied w db)) ≡ held (w, db))
      ⊎ (held (state_of (flush not_copied w db)) ≡ db.route_updates)
unfolding flush
flush_loses w db = elim (Bool-cases (length w.batch == 0)) [
  | inl empty ↦ inl (ground arith)
  | inr some_batch ↦ inr (ground (arith, append-nil db.route_updates))
]

flush-Sublist :
    (answer : Answer) (w : BatchWriter) (db : Database)
    → Sublist (held (state_of (flush answer w db))) (held (w, db))
flush-Sublist not_copied w db = elim (flush_loses w db) [
  | inl same ↦ rw same (Sub.refl _)
  | inr lost ↦ rw lost (sublist-append_left db.route_updates w.batch)
]
flush-Sublist (fails_at i) w db = rw (flush_delivers (fails_at i) w db (λ e. cc)) (Sub.refl _)
flush-Sublist succeeds w db = rw (flush_delivers succeeds w db (λ e. cc)) (Sub.refl _)

-- What one call adds.
abbrev added : Bool → Call → List RouteUpdate
added true (adds now answer r) = r ∷ []
added false (adds now answer r) = []
added running (ticks now answer) = []
added running starts = []
added running (stops answer) = []

abbrev runs_after : Bool → Call → Bool
runs_after running (adds now answer r) = running
runs_after running (ticks now answer) = running
runs_after running starts = true
runs_after running (stops answer) = false

flush_keeps_running :
    (answer : Answer) (w : BatchWriter) (db : Database)
    → (state_of (flush answer w db)).0.is_running ≡ w.is_running
unfolding flush
flush_keeps_running not_copied w db = ground arith
flush_keeps_running (fails_at i) w db = ground arith
flush_keeps_running succeeds w db = ground arith

pub step_running :
    (c : Call) (w : BatchWriter) (db : Database)
    → (step c (w, db)).0.is_running ≡ runs_after w.is_running c
unfolding step add_route periodic_flush start stop
step_running (adds now answer r) w db =
    ground (arith, flush_keeps_running answer (append_route now r w) db)
step_running (ticks now answer) w db = ground (arith, flush_keeps_running answer w db)
step_running starts w db = refl
step_running (stops answer) w db = flush_keeps_running answer (record w { is_running = false }) db

abbrev pub answer_of : Call → Answer
answer_of (adds now answer r) = answer
answer_of (ticks now answer) = answer
answer_of starts = succeeds
answer_of (stops answer) = answer

-- A call leaves what it found and what it added, or flushes that.
abbrev Flushes : Call → State → List RouteUpdate → BatchWriter → Type 0
Flushes c (w, db) found v =
    (held (step c (w, db)) ≡ held (state_of (flush (answer_of c) v db))) × (held (v, db) ≡ found)

step-held :
    (c : Call) (w : BatchWriter) (db : Database)
    → let found = held (w, db) ++ added w.is_running c in
      (held (step c (w, db)) ≡ found) ⊎ ((v : BatchWriter) × Flushes c (w, db) found v)
unfolding step add_route periodic_flush start stop
step-held (adds now answer r) w db =
    let joined = append_assoc db.route_updates w.batch (r ∷ []) in
    let empty = append-nil (db.route_updates ++ w.batch) in
    elim (Bool-cases w.is_running) [
      | inl running ↦ elim (Bool-cases (leb w.batch_size (length w.batch + 1))) [
        | inl full ↦ inr (append_route now r w, (ground arith, ground (arith, joined)))
        | inr short ↦ inl (ground (arith, joined))
      ]
      | inr stopped ↦ inl (ground (arith, empty))
    ]
step-held (ticks now answer) w db =
    let empty = append-nil (db.route_updates ++ w.batch) in
    elim (Bool-cases w.is_running) [
      | inl running ↦ elim (Bool-cases (is_due now w.batch_timeout w.batch_start_time)) [
        | inl due ↦ inr (w, (ground arith, ground (arith, empty)))
        | inr early ↦ inl (ground (arith, empty))
      ]
      | inr stopped ↦ inl (ground (arith, empty))
    ]
step-held starts w db = inl (ground (arith, append-nil (db.route_updates ++ w.batch)))
step-held (stops answer) w db = inr (
  record w { is_running = false },
  (refl, ground (arith, append-nil (db.route_updates ++ w.batch))),
)

step-Sublist :
    (c : Call) (w : BatchWriter) (db : Database)
    → Sublist (held (step c (w, db))) (held (w, db) ++ added w.is_running c)
step-Sublist c w db = elim (step-held c w db) [
  | inl same ↦ rw same (Sub.refl _)
  | inr (v, (flushed, found)) ↦ rw (flushed, ← found) (flush-Sublist (answer_of c) v db)
]

pub step_delivers :
    (c : Call) (w : BatchWriter) (db : Database)
    → answer_of c ≢ not_copied
    → held (step c (w, db)) ≡ held (w, db) ++ added w.is_running c
step_delivers c w db taken = elim (step-held c w db) [
  | inl same ↦ same
  | inr (v, (flushed, found)) ↦ flushed ∙ flush_delivers (answer_of c) v db taken ∙ found
]

accepted_step :
    (running : Bool) (c : Call) (cs : List Call)
    → accepted running (c ∷ cs) ≡ added running c ++ accepted (runs_after running c) cs
accepted_step true (adds now answer r) cs = refl
accepted_step false (adds now answer r) cs = refl
accepted_step true (ticks now answer) cs = refl
accepted_step false (ticks now answer) cs = refl
accepted_step true starts cs = refl
accepted_step false starts cs = refl
accepted_step true (stops answer) cs = refl
accepted_step false (stops answer) cs = refl

accepted_after :
    (c : Call) (cs : List Call) (w : BatchWriter) (db : Database)
    → held (w, db) ++ accepted w.is_running (c ∷ cs)
      ≡ held (w, db) ++ added w.is_running c ++ accepted (step c (w, db)).0.is_running cs
accepted_after c cs w db =
    rw (accepted_step w.is_running c cs, step_running c w db)
      (sym (append_assoc (held (w, db)) (added w.is_running c) _))

-- Whatever is called in whatever order, and however the database answers, the routes in the
-- table and then those in the batch are in order a sublist of those that were there before and
-- those that `add_route` took while the writer ran.
pub run-Sublist :
    (cs : List Call) (w : BatchWriter) (db : Database)
    → Sublist (held (run cs (w, db))) (held (w, db) ++ accepted w.is_running cs)
unfolding run
run-Sublist [] w db = rw (append-nil (held (w, db))) (Sub.refl _)
run-Sublist (c ∷ cs) w db =
    let (v, d) = step c (w, db) in
    rw (accepted_after c cs w db)
      (Sub.trans (run-Sublist cs v d) (Sub.append (step-Sublist c w db) (Sub.refl _)))

-- If no COPY fails, then after any sequence of calls the routes in the table and those in the
-- batch are, in order, those that were there before and those that `add_route` took while the
-- writer ran: none is lost, none is written twice.
pub run_delivers :
    (cs : List Call) (w : BatchWriter) (db : Database)
    → All (λ c. answer_of c ≢ not_copied) cs
    → held (run cs (w, db)) ≡ held (w, db) ++ accepted w.is_running cs
unfolding run
run_delivers [] w db taken = sym (append-nil (held (w, db)))
run_delivers (c ∷ cs) w db (taken_c, taken) =
    let (v, d) = step c (w, db) in
    rw (accepted_after c cs w db) (
      run_delivers cs v d taken
      ∙ ap (λ rs. rs ++ accepted v.is_running cs) (step_delivers c w db taken_c))
