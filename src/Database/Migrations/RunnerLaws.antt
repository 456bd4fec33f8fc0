-- ===== src/Database/Migrations/RunnerLaws.antt =====
-- What a run of the migrations does, and what a second run finds.
use pybmpmon.Base.{
  ℕ, ◌≡◌, refl, ap, Bool, true, false, ◌&&◌, List, [], ◌∷◌, Option, none, some, Result, ok, err,
  value_error, arith, if◌then◌else◌,
}
use pybmpmon.Utils.Address.{same_bytes}
use pybmpmon.Database.Migrations.Files.{ℤ, File, Migration, load_migrations}
use pybmpmon.Database.Migrations.Runner.{
  Row, Store, find_checksum, checksum, pending_of, get_pending_migrations,
}

-- The checksum that is recorded for a version, in a database with the table or without.
abbrev find_in : ℤ → Option (List Row) → Option (List ℕ)
find_in version none = none
find_in version (some rows) = find_checksum version rows

abbrev pub recorded : {Rest : Type 0} → Store Rest → ℤ → Option (List ℕ)
recorded s version = find_in version s.schema_migrations

-- What stands on record for each version.
module _ (record_of : ℤ → Option (List ℕ)) where
  -- The migrations of which nothing is recorded.
  abbrev pub unapplied : List Migration → List Migration
  unapplied [] = []
  unapplied (m ∷ ms) = elim (record_of m.version) [
    | none ↦ m ∷ unapplied ms
    | some c ↦ unapplied ms
  ]

  module _ (sha256 : List ℕ → List ℕ) where
    -- What is recorded of a migration, if anything, is its checksum.
    abbrev pub is_intact : Migration → Bool
    is_intact m = elim (record_of m.version) [
      | none ↦ true
      | some c ↦ elim (same_bytes (checksum sha256 m) c) [ yes e ↦ true | no n ↦ false ]
    ]

    abbrev pub all_intact : List Migration → Bool
    all_intact [] = true
    all_intact (m ∷ ms) = is_intact m && all_intact ms

module _ (sha256 : List ℕ → List ℕ) where
  pending_of_lem :
      (rows : List Row) (ms : List Migration)
      → let record_of : ℤ → Option (List ℕ) = λ v. find_checksum v rows in
        pending_of sha256 rows ms
        ≡ (if all_intact record_of sha256 ms then ok (unapplied record_of ms) else err value_error)
  unfolding pending_of
  pending_of_lem rows [] = refl
  pending_of_lem rows (m ∷ ms) = ground (arith, pending_of_lem rows ms)

  nothing_recorded :
      (ms : List Migration)
      → (all_intact (λ v. none) sha256 ms ≡ true) × (unapplied (λ v. none) ms ≡ ms)
  nothing_recorded [] = (refl, refl)
  nothing_recorded (m ∷ ms) =
      let (intact, all) = nothing_recorded ms in (intact, ap (λ t. m ∷ t) all)

  -- The migrations of which nothing is recorded, in order, if every recorded checksum is still that
  -- of its file; a ValueError otherwise.
  pub get_pending_migrations_lem :
      {Rest : Type 0} (files : List File) (s : Store Rest)
      → get_pending_migrations sha256 files s ≡ (
          if all_intact (recorded s) sha256 (load_migrations files)
          then ok (unapplied (recorded s) (load_migrations files))
          else err value_error)
  unfolding get_pending_migrations
  get_pending_migrations_lem files s = go s.schema_migrations
    where
      go :
          (table : Option (List Row))
          → (elim table as (λ t. Result (List Migration)) [
            | none ↦ ok (load_migrations files)
            | some rows ↦ pending_of sha256 rows (load_migrations files)
          ])
            ≡ (if all_intact (λ v. find_in v table) sha256 (load_migrations files)
                then ok (unapplied (λ v. find_in v table) (load_migrations files))
                else err value_error)
      go none =
          let (intact, all) = nothing_recorded (load_migrations files) in rw (intact, all) refl
      go (some rows) = pending_of_lem rows (load_migrations files)
