-- ===== src/Database/Migrations/Examples.antt =====
-- Tests of migrations.py on small files, and its theorems applied to them. The checksum of a file is
-- its content here; the SQL 0 makes the table of migrations, 9 fails, all other SQL is logged.
use pybmpmon.Base.{
  ℕ, ◌≡◌, refl, ◌⊎◌, List, [], ◌∷◌, ◌++◌, map, Option, none, some, true, false, arith, ◌==◌,
  if◌then◌else◌,
}
use mathlib.Core.List.{Perm}
use pybmpmon.Utils.Text.{skip_spaces}
use pybmpmon.Database.Migrations.Files.{
  ℤ, pos, File, Migration, int, signed, digits, more_digits, split_underscore, to_migration,
  to_migrations, insert_by_version, sort_by_version, load_migrations,
}
use pybmpmon.Database.Migrations.Runner.{
  Row, Store, applied, mismatch, find_checksum, insert_row, get_pending_migrations, apply_migration,
  apply_all, apply_migrations,
}
use pybmpmon.Database.Migrations.FilesLaws.{IsInOrder, load_migrations_sorted}
use pybmpmon.Database.Migrations.RunnerLaws.{recorded, unapplied, all_intact}
use pybmpmon.Database.Migrations.RunLaws.{Keeps, AllApplied, StopsAt}
use pybmpmon.Database.Migrations.Rerun.{apply_migrations_ends, apply_migrations_rerun}

abbrev Log : Type 0
Log = List (List ℕ)

abbrev checksum_of : List ℕ → List ℕ
checksum_of content = content

abbrev with_table : Option (List Row) → List Row
with_table none = []
with_table (some rows) = rows

abbrev execute : List ℕ → Store Log → Option (Store Log)
execute [] s = some s
execute (c ∷ cs) s =
    if c == 0
    then some (record s { schema_migrations = some (with_table s.schema_migrations) })
    else if c == 9
    then none
    else some (record s { rest = s.rest ++ ((c ∷ cs) ∷ []) })

-- 10_b.sql, 2_a.sql, +0_t.sql, and notes.sql and x_y.sql, which are skipped
abbrev files : List File
files =
    record { stem = 49 ∷ 48 ∷ 95 ∷ 98 ∷ []; content = 5 ∷ [] }
    ∷ record { stem = 50 ∷ 95 ∷ 97 ∷ []; content = 4 ∷ [] }
    ∷ record { stem = 43 ∷ 48 ∷ 95 ∷ 116 ∷ []; content = 0 ∷ [] }
    ∷ record { stem = 110 ∷ []; content = 6 ∷ [] }
    ∷ record { stem = 120 ∷ 95 ∷ 121 ∷ []; content = 7 ∷ [] }
    ∷ []

abbrev version_of : Migration → ℤ
version_of m = m.version

numbers_in_order : map version_of (load_migrations files) ≡ pos 0 ∷ pos 2 ∷ pos 10 ∷ []
unfolding load_migrations sort_by_version insert_by_version to_migrations to_migration
    split_underscore int signed digits more_digits skip_spaces
numbers_in_order = refl

abbrev fresh : Store Log
fresh = record { schema_migrations = none; rest = [] }

abbrev after_run : Store Log
after_run = (apply_migrations checksum_of execute files fresh).1

all_three_applied : apply_migrations checksum_of execute files fresh ≡ (applied 3, after_run)
unfolding apply_migrations get_pending_migrations apply_all apply_migration insert_row find_checksum
    load_migrations sort_by_version insert_by_version to_migrations to_migration split_underscore
    int signed digits more_digits skip_spaces
all_three_applied = refl

load_migrations_sorted_example :
    Perm (load_migrations files) (to_migrations files) × IsInOrder (load_migrations files)
load_migrations_sorted_example = load_migrations_sorted files

apply_migrations_ends_example :
    let all = load_migrations files in
    let pending = unapplied (recorded fresh) all in
    let r = apply_migrations checksum_of execute files fresh in
    ((all_intact (recorded fresh) checksum_of all ≡ false) × (r ≡ (mismatch, fresh)))
    ⊎ ((all_intact (recorded fresh) checksum_of all ≡ true)
        × (AllApplied checksum_of execute pending 0 fresh r
            ⊎ StopsAt checksum_of execute pending fresh r))
apply_migrations_ends_example = apply_migrations_ends checksum_of execute files fresh

with_table-Keeps :
    (rest : Log) (s : Store Log)
    → Keeps s (record { schema_migrations = some (with_table s.schema_migrations); rest = rest })
with_table-Keeps rest s v c h = go s.schema_migrations h
  where
    go :
        (table : Option (List Row))
        → (elim table as (λ t. Option (List ℕ)) [ none ↦ none | some rows ↦ find_checksum v rows ])
          ≡ some c
        → find_checksum v (with_table table) ≡ some c
    go none e = absurd (cc e)
    go (some rows) e = e

execute_spares : (sql : List ℕ) (s t : Store Log) → execute sql s ≡ some t → Keeps s t
execute_spares [] s t h v c e = ground arith
execute_spares (x ∷ xs) s t h v c e = ground (arith, with_table-Keeps s.rest s v c e)

apply_migrations_rerun_example :
    apply_migrations checksum_of execute files after_run ≡ (applied 0, after_run)
apply_migrations_rerun_example =
    apply_migrations_rerun checksum_of execute execute_spares files fresh after_run 3
      all_three_applied
