-- ===== src/Scripts/InitDb/Examples.antt =====
-- Tests of init_db.py on two files, and its theorems applied to them. The SQL 9 fails; all other SQL
-- is logged.
use pybmpmon.Base.{
  ℕ, ◌≡◌, ◌⊎◌, refl, true, List, [], ◌∷◌, ◌++◌, map, Option, none, some, ◌==◌, arith, if◌then◌else◌,
}
use pybmpmon.Database.Migrations.Files.{
  ℤ, pos, File, Migration, load_migrations, sort_by_version, insert_by_version, to_migrations,
  to_migration, split_underscore, int, signed, digits, more_digits,
}
use mathlib.Core.List.{Perm}
use pybmpmon.Scripts.InitDb.Order.{IsByName}
use pybmpmon.Utils.Text.{skip_spaces}
use pybmpmon.Database.Migrations.Runner.{Store, get_pending_migrations}
use pybmpmon.Database.Migrations.RunnerLaws.{recorded}
use pybmpmon.Scripts.InitDb.{
  completed, exits_1, open_connection, closed_connection, insert_by_name, sort_by_name, leb_text,
  initialize_database, run_migration_files, run_migration_file, run_if_any,
}
use pybmpmon.Scripts.InitDb.Laws.{
  run_all, StopsAt, initialize_database_ends, get_pending_migrations-initialize_database,
}

abbrev Log : Type 0
Log = List (List ℕ)

abbrev execute : List ℕ → Store Log → Option (Store Log)
execute [] s = some s
execute (c ∷ cs) s = if c == 9 then none else some (record s { rest = s.rest ++ ((c ∷ cs) ∷ []) })

-- 2_a.sql and 10_b.sql
abbrev two_a : File
two_a = record { stem = 50 ∷ 95 ∷ 97 ∷ []; content = 4 ∷ [] }

abbrev ten_b : File
ten_b = record { stem = 49 ∷ 48 ∷ 95 ∷ 98 ∷ []; content = 5 ∷ [] }

abbrev files : List File
files = two_a ∷ ten_b ∷ []

abbrev empty : Store Log
empty = record { schema_migrations = none; rest = [] }

-- By name the file 10_b.sql comes first, by version the file 2_a.sql.
names_differ_from_versions : sort_by_name files ≡ ten_b ∷ two_a ∷ []
unfolding sort_by_name insert_by_name leb_text
names_differ_from_versions = refl

versions : map (λ (m : Migration). m.version) (load_migrations files) ≡ pos 2 ∷ pos 10 ∷ []
unfolding load_migrations sort_by_version insert_by_version to_migrations to_migration
    split_underscore int signed digits more_digits skip_spaces
versions = refl

both_run :
    initialize_database execute true true true files empty
    ≡ (completed, closed_connection, record empty { rest = (5 ∷ []) ∷ (4 ∷ []) ∷ [] })
unfolding initialize_database run_if_any run_migration_files run_migration_file sort_by_name
    insert_by_name leb_text
both_run = refl

initialize_database_ends_example :
    (sorted : List File) × Perm sorted files
    × IsByName sorted
    × (((t : Store Log) × (run_all execute sorted empty ≡ some t)
          × (initialize_database execute true true true files empty
              ≡ (completed, closed_connection, t)))
        ⊎ ((t : Store Log) × StopsAt execute sorted empty t
            × (initialize_database execute true true true files empty
                ≡ (exits_1, open_connection, t))))
initialize_database_ends_example = initialize_database_ends execute true files empty (λ h. cc)

execute_spares :
    (sql : List ℕ) (s t : Store Log)
    → execute sql s ≡ some t
    → (v : ℤ) → recorded t v ≡ recorded s v
execute_spares [] s t h v = ground arith
execute_spares (c ∷ cs) s t h v = ground arith

abbrev checksum_of : List ℕ → List ℕ
checksum_of content = content

get_pending_migrations-initialize_database_example :
    get_pending_migrations checksum_of files
      (initialize_database execute true true true files empty).2
    ≡ get_pending_migrations checksum_of files empty
get_pending_migrations-initialize_database_example =
    get_pending_migrations-initialize_database checksum_of execute execute_spares true true true
      files empty
