-- ===== src/Database/Migrations/Runner.antt =====
-- migrations.py: `MigrationRunner`. SHA-256 and the effect of the SQL of a migration on the database are
-- parameters; the table schema_migrations is a part of the database that the runner reads and writes.
use pybmpmon.Base.{
  ℕ, ◌+◌, ◌^◌, Bool, true, false, List, [], ◌∷◌, ◌++◌, Option, none, some, Result, ok, err,
  value_error, ltb, ◌==◌, if◌then◌else◌, ◌>>=◌,
}
use pybmpmon.Utils.Address.{same_bytes}
use pybmpmon.Database.Migrations.Files.{ℤ, pos, negsuc, File, Migration, load_migrations}

-- The columns that tell migrations apart; applied_at and execution_time_ms are left out.
pub record Row : Type 0 where
  pub version : ℤ
  pub name : List ℕ
  pub checksum : List ℕ

-- The table schema_migrations, if there is one, and the rest of the database.
pub record Store (Rest : Type 0) : Type 0 where
  pub schema_migrations : Option (List Row)
  pub rest : Rest

abbrev pub same_int : ℤ → ℤ → Bool
same_int (pos m) (pos n) = m == n
same_int (pos m) (negsuc n) = false
same_int (negsuc m) (pos n) = false
same_int (negsuc m) (negsuc n) = m == n

-- `applied_versions.get(version)`; the version is the primary key of the rows.
unfoldable pub find_checksum : ℤ → List Row → Option (List ℕ)
find_checksum version [] = none
find_checksum version (row ∷ rows) =
    let rest = find_checksum version rows in
    if same_int row.version version then some row.checksum else rest

-- The column is a signed number of 32 bits.
abbrev pub fits_integer : ℤ → Bool
fits_integer (pos n) = ltb n (2 ^ 31)
fits_integer (negsuc n) = ltb n (2 ^ 31)

abbrev is_free : Option (List ℕ) → Bool
is_free none = true
is_free (some checksum) = false

-- INSERT INTO schema_migrations: there is none without the table, or with a version that is there.
unfoldable pub insert_row : {Rest : Type 0} → Row → Store Rest → Option (Store Rest)
insert_row row s = elim s.schema_migrations [
  | none ↦ none
  | some rows ↦
      if fits_integer row.version
      then (if is_free (find_checksum row.version rows)
          then some (record s { schema_migrations = some (rows ++ (row ∷ [])) })
          else none)
      else none
]

-- How `apply_migrations` ends: with the number of migrations that were applied, with the ValueError
-- of `get_pending_migrations`, or with the exception of a migration.
pub data Ending : Type 0 where
  applied : ℕ → Ending
  mismatch failed : Ending

module _ (sha256 : List ℕ → List ℕ) where
  abbrev pub checksum : Migration → List ℕ
  checksum m = sha256 m.file_path.content

  abbrev pub to_row : Migration → Row
  to_row m = record { version = m.version; name = m.name; checksum = checksum m }

  -- The loop of `get_pending_migrations`.
  unfoldable pub pending_of : List Row → List Migration → Result (List Migration)
  pending_of rows [] = ok []
  pending_of rows (m ∷ ms) = elim (find_checksum m.version rows) [
    | none ↦ (do pending ← pending_of rows ms; ok (m ∷ pending))
    | some recorded ↦ elim (same_bytes (checksum m) recorded) [
      | yes e ↦ pending_of rows ms
      | no n ↦ err value_error
    ]
  ]

  unfoldable pub get_pending_migrations :
      {Rest : Type 0} → List File → Store Rest → Result (List Migration)
  get_pending_migrations files s = elim s.schema_migrations [
    | none ↦ ok (load_migrations files)
    | some rows ↦ pending_of rows (load_migrations files)
  ]

module _ {Rest : Type 0} (sha256 : List ℕ → List ℕ)
    (execute : List ℕ → Store Rest → Option (Store Rest)) where
  -- A transaction: the SQL and the row, or neither.
  unfoldable pub apply_migration : Migration → Store Rest → Option (Store Rest)
  apply_migration m s = elim (execute m.file_path.content s) [
    | none ↦ none
    | some t ↦ insert_row (to_row sha256 m) t
  ]

  unfoldable pub apply_all : List Migration → ℕ → Store Rest → Ending × Store Rest
  apply_all [] applied_count s = (applied applied_count, s)
  apply_all (m ∷ ms) applied_count s = elim (apply_migration m s) [
    | none ↦ (failed, s)
    | some t ↦ apply_all ms (applied_count + 1) t
  ]

  unfoldable pub apply_migrations : List File → Store Rest → Ending × Store Rest
  apply_migrations files s = elim (get_pending_migrations sha256 files s) [
    | err e ↦ (mismatch, s)
    | ok pending ↦ apply_all pending 0 s
  ]
