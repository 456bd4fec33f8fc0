-- ===== src/Scripts/InitDb.antt =====
-- src/scripts/init_db.py: it runs the SQL of all migration files, in the order of their names, and
-- keeps no record of them. What is printed is left out. The effect of SQL is a parameter.
pub mod Order
pub mod Laws
mod Examples
use pybmpmon.Base.{
  ℕ, Bool, true, false, List, [], ◌∷◌, ◌++◌, Option, none, some, ltb, if◌then◌else◌,
}
use pybmpmon.Database.Migrations.Files.{File}

-- The order of texts by their code points.
unfoldable pub leb_text : List ℕ → List ℕ → Bool
leb_text [] ys = true
leb_text (x ∷ xs) [] = false
leb_text (x ∷ xs) (y ∷ ys) =
    let rest = leb_text xs ys in if ltb x y then true else if ltb y x then false else rest

-- The name of a file of `glob("*.sql")`: its stem and ".sql".
abbrev pub name : File → List ℕ
name file = file.stem ++ (46 ∷ 115 ∷ 113 ∷ 108 ∷ [])

-- `sorted` of the paths in one directory.
unfoldable pub insert_by_name : File → List File → List File
unfolding leb_text
insert_by_name file [] = file ∷ []
insert_by_name file (g ∷ files) =
    let rest = insert_by_name file files in
    if leb_text (name file) (name g) then file ∷ g ∷ files else g ∷ rest

unfoldable pub sort_by_name : List File → List File
unfolding insert_by_name
sort_by_name [] = []
sort_by_name (file ∷ files) = insert_by_name file (sort_by_name files)

-- How the script ends, and whether it has a connection that is open then.
pub data Ending : Type 0 where
  completed exits_1 : Ending

pub data Connection : Type 0 where
  not_connected open_connection closed_connection close_failed : Connection

-- The connection is closed only behind the loop, by a call that returns or raises.
abbrev pub closed_if_completed :
    {Store : Type 0} → Bool → Ending × Store → Ending × Connection × Store
closed_if_completed true (completed, s) = (completed, closed_connection, s)
closed_if_completed false (completed, s) = (exits_1, close_failed, s)
closed_if_completed closes (exits_1, s) = (exits_1, open_connection, s)

module _ {Store : Type 0} (execute : List ℕ → Store → Option Store) where
  unfoldable pub run_migration_file : File → Store → Option Store
  run_migration_file file s = execute file.content s

  -- The loop: what the files before a failure did stays.
  unfoldable pub run_migration_files : List File → Store → Ending × Store
  unfolding run_migration_file
  run_migration_files [] s = (completed, s)
  run_migration_files (file ∷ files) s = elim (run_migration_file file s) [
    | none ↦ (exits_1, s)
    | some t ↦ run_migration_files files t
  ]

  unfoldable pub run_if_any : Bool → List File → Store → Ending × Connection × Store
  unfolding run_migration_files
  run_if_any closes [] s = (exits_1, open_connection, s)
  run_if_any closes (file ∷ files) s =
      closed_if_completed closes (run_migration_files (file ∷ files) s)

  -- Whether the connection can be made, whether `conn.close()` returns, whether the directory is
  -- there, and its files.
  unfoldable pub initialize_database :
      Bool → Bool → Bool → List File → Store → Ending × Connection × Store
  unfolding sort_by_name run_if_any
  initialize_database connects closes exists files s =
      if connects
      then if exists
        then run_if_any closes (sort_by_name files) s
        else (exits_1, open_connection, s)
      else (exits_1, not_connected, s)
