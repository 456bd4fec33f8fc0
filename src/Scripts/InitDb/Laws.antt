-- ===== src/Scripts/InitDb/Laws.antt =====
-- How the script ends, and what the service finds after it.
use pybmpmon.Base.{
  ℕ, ◌≡◌, ◌≢◌, ◌⊎◌, refl, sym, ap, ◌∙◌, inl, inr, Bool, true, false, List, [], ◌∷◌, ◌++◌, Option,
  none, some, arith, Option-cases, if◌then◌else◌,
}
use mathlib.Core.Path.{fun_ext}
use mathlib.Core.List.{Perm}
use pybmpmon.Scripts.InitDb.Order.{IsByName, sort-Perm, sort-IsByName}
use pybmpmon.Database.Migrations.Files.{ℤ, File}
use pybmpmon.Database.Migrations.Runner.{Store, get_pending_migrations}
use pybmpmon.Database.Migrations.RunnerLaws.{recorded, get_pending_migrations_lem}
use pybmpmon.Scripts.InitDb.{
  insert_by_name, sort_by_name, Ending, completed, exits_1, open_connection, closed_connection,
  close_failed, run_migration_file, run_migration_files, run_if_any, closed_if_completed,
  initialize_database,
}

insert_by_name-ne-nil : (file : File) (files : List File) → insert_by_name file files ≢ []
unfolding insert_by_name
insert_by_name-ne-nil file [] h = cc
insert_by_name-ne-nil file (g ∷ files) h = ground arith

sort_by_name-ne-nil : (files : List File) → files ≢ [] → sort_by_name files ≢ []
unfolding sort_by_name
sort_by_name-ne-nil [] some_file h = some_file refl
sort_by_name-ne-nil (file ∷ files) some_file h = insert_by_name-ne-nil file (sort_by_name files) h

module _ {Store : Type 0} (execute : List ℕ → Store → Option Store) where
  -- All files, one after the other.
  abbrev pub and_run_all : (Store → Option Store) → Option Store → Option Store
  and_run_all rest none = none
  and_run_all rest (some t) = rest t

  abbrev pub run_all : List File → Store → Option Store
  run_all [] s = some s
  run_all (file ∷ files) s = and_run_all (run_all files) (execute file.content s)

  -- The files before the first that fails.
  pub record StopsAt (files : List File) (s t : Store) : Type 0 where
    pub before : List File
    pub failing : File
    pub after : List File
    pub parts : files ≡ before ++ (failing ∷ after)
    pub ran : run_all before s ≡ some t
    pub fails : execute failing.content t ≡ none

  files_ends :
      (files : List File) (s : Store)
      → ((t : Store) × (run_all files s ≡ some t)
          × (run_migration_files execute files s ≡ (completed, t)))
        ⊎ ((t : Store) × StopsAt files s t × (run_migration_files execute files s ≡ (exits_1, t)))
  unfolding run_migration_files run_migration_file
  files_ends [] s = inl (s, refl, refl)
  files_ends (file ∷ files) s = elim (Option-cases (execute file.content s)) [
    | inl fails ↦ inr (
      s,
      record {
        before = [];
        failing = file;
        after = files;
        parts = refl;
        ran = refl;
        fails = fails;
      },
      ground (arith, fails),
    )
    | inr (t, ran) ↦ elim (files_ends files t) [
      | inl (u, all, ends) ↦ inl (u, rw ran all, ground (arith, ran, ends))
      | inr (u, stops, ends) ↦ inr (
        u,
        record {
          before = file ∷ stops.before;
          failing = stops.failing;
          after = stops.after;
          parts = ap (λ fs. file ∷ fs) stops.parts;
          ran = rw ran stops.ran;
          fails = stops.fails;
        },
        ground (arith, ran, ends),
      )
    ]
  ]

  run_if_any_lem :
      (closes : Bool) (files : List File) (s : Store)
      → files ≢ []
      → run_if_any execute closes files s
        ≡ closed_if_completed closes (run_migration_files execute files s)
  unfolding run_if_any
  run_if_any_lem closes [] s h = absurd (h refl)
  run_if_any_lem closes (file ∷ files) s h = refl

  closed_completed :
      (closes : Bool) (t : Store)
      → closed_if_completed closes (completed, t)
        ≡ (if closes then (completed, closed_connection, t) else (exits_1, close_failed, t))
  closed_completed true t = refl
  closed_completed false t = refl

  closed_exits :
      (closes : Bool) (t : Store)
      → closed_if_completed closes (exits_1, t) ≡ (exits_1, open_connection, t)
  closed_exits true t = refl
  closed_exits false t = refl

  -- With a connection and a directory that has a file, take the list of all its files, each
  -- once, in the order of their names. Either their SQL runs, one after the other, and then the
  -- connection is closed and the script completes, or closing it raises and the script exits
  -- with 1. Or the SQL of one file fails: what the files before it did stays, none after it
  -- runs, the script exits with 1 and the connection is left open.
  pub initialize_database_ends :
      (closes : Bool) (files : List File) (s : Store)
      → files ≢ []
      → (sorted : List File) × Perm sorted files
        × IsByName sorted
        × (((t : Store) × (run_all sorted s ≡ some t)
              × (initialize_database execute true closes true files s ≡ (
                  if closes
                  then (completed, closed_connection, t)
                  else (exits_1, close_failed, t))))
            ⊎ ((t : Store) × StopsAt sorted s t
                × (initialize_database execute true closes true files s
                    ≡ (exits_1, open_connection, t))))
  unfolding initialize_database
  initialize_database_ends closes files s some_file =
      let runs =
        run_if_any_lem closes (sort_by_name files) s (sort_by_name-ne-nil files some_file) in
      (
        sort_by_name files,
        sort-Perm files,
        sort-IsByName files,
        elim (files_ends (sort_by_name files) s) [
          | inl (t, all, ends) ↦ inl (t, all, runs ∙ rw ends (closed_completed closes t))
          | inr (t, stops, ends) ↦ inr (t, stops, runs ∙ rw ends (closed_exits closes t))
        ],
      )

closed_keeps :
    {S : Type 0} (closes : Bool) (r : Ending × S) → (closed_if_completed closes r).2 ≡ r.1
closed_keeps true (completed, s) = refl
closed_keeps false (completed, s) = refl
closed_keeps true (exits_1, s) = refl
closed_keeps false (exits_1, s) = refl

-- The SQL of migrations records nothing in schema_migrations.
module _ {Rest : Type 0} (sha256 : List ℕ → List ℕ)
    (execute : List ℕ → Store Rest → Option (Store Rest))
    (spares : (sql : List ℕ) (s t : Store Rest)
      → execute sql s ≡ some t
      → (v : ℤ) → recorded t v ≡ recorded s v) where
  files_spare :
      (files : List File) (s : Store Rest) (v : ℤ)
      → recorded (run_migration_files execute files s).1 v ≡ recorded s v
  unfolding run_migration_files run_migration_file
  files_spare [] s v = refl
  files_spare (file ∷ files) s v = elim (Option-cases (execute file.content s)) [
    | inl fails ↦ ground (arith, fails)
    | inr (t, ran) ↦ ground (arith, ran, files_spare files t v, spares file.content s t ran v)
  ]

  script_spares :
      (connects closes exists : Bool) (files : List File) (s : Store Rest) (v : ℤ)
      → recorded (initialize_database execute connects closes exists files s).2 v ≡ recorded s v
  unfolding initialize_database run_if_any
  script_spares false closes exists files s v = refl
  script_spares true closes false files s v = refl
  script_spares true closes true files s v = go (sort_by_name files)
    where
      go : (sorted : List File) → recorded (run_if_any execute closes sorted s).2 v ≡ recorded s v
      go [] = refl
      go (file ∷ sorted) =
          let r = run_migration_files execute (file ∷ sorted) s in
          rw (closed_keeps closes r) (files_spare (file ∷ sorted) s v)

  -- If the SQL of migrations records nothing in schema_migrations, then whatever the script did,
  -- the service finds the same migrations pending after it as before it.
  pub get_pending_migrations-initialize_database :
      (connects closes exists : Bool) (files : List File) (s : Store Rest)
      → get_pending_migrations sha256 files
          (initialize_database execute connects closes exists files s).2
        ≡ get_pending_migrations sha256 files s
  get_pending_migrations-initialize_database connects closes exists files s =
      let t = (initialize_database execute connects closes exists files s).2 in
      let same : recorded t ≡ recorded s = fun_ext (script_spares connects closes exists files s) in
      get_pending_migrations_lem sha256 files t
      ∙ rw same (sym (get_pending_migrations_lem sha256 files s))
