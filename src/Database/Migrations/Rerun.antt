-- ===== src/Database/Migrations/Rerun.antt =====
-- `apply_migrations` as a whole, and a second run after it.
use pybmpmon.Base.{
  Option-cases, ℕ, ◌≡◌, refl, ap, ◌∙◌, true, false, ◌⊎◌, List, [], ◌∷◌, Option, some, All, arith,
  Bool-cases, inl, inr,
}
use mathlib.Core.Path.{subst}
use pybmpmon.Database.Migrations.Files.{ℤ, File, Migration, load_migrations}
use pybmpmon.Database.Migrations.Runner.{
  Store, applied, mismatch, checksum, to_row, apply_migration, apply_all, apply_migrations,
}
use pybmpmon.Database.Migrations.RunnerLaws.{
  recorded, unapplied, all_intact, get_pending_migrations_lem,
}
use pybmpmon.Database.Migrations.RunLaws.{
  Keeps, insert_row_records, AppliesAll, none_left, one_more, AllApplied, StopsAt, apply_all_ends,
}

-- With nothing lost, and all that was not recorded recorded now, nothing is left to do.
nothing_pending :
    (sha256 : List ℕ → List ℕ) (before after : ℤ → Option (List ℕ)) (all : List Migration)
    → ((v : ℤ) (c : List ℕ) → before v ≡ some c → after v ≡ some c)
    → all_intact before sha256 all ≡ true
    → All (λ (m : Migration). after m.version ≡ some (checksum sha256 m)) (unapplied before all)
    → (all_intact after sha256 all ≡ true) × (unapplied after all ≡ [])
nothing_pending sha256 before after [] kept intact rows = (refl, refl)
nothing_pending sha256 before after (m ∷ ms) kept intact rows =
    elim (Option-cases (before m.version)) [
      | inl new ↦ ground (arith, new, nothing_pending sha256 before after ms kept)
      | inr (c, old) ↦
          ground (arith, old, kept m.version c old, nothing_pending sha256 before after ms kept)
    ]

module _ {Rest : Type 0} (sha256 : List ℕ → List ℕ)
    (execute : List ℕ → Store Rest → Option (Store Rest)) where
  run_tampered :
      (files : List File) (s : Store Rest)
      → all_intact (recorded s) sha256 (load_migrations files) ≡ false
      → apply_migrations sha256 execute files s ≡ (mismatch, s)
  unfolding apply_migrations
  run_tampered files s e = rw (apply_migrations, get_pending_migrations_lem sha256 files s, e) refl

  run_intact :
      (files : List File) (s : Store Rest)
      → all_intact (recorded s) sha256 (load_migrations files) ≡ true
      → apply_migrations sha256 execute files s
        ≡ apply_all sha256 execute (unapplied (recorded s) (load_migrations files)) 0 s
  unfolding apply_migrations
  run_intact files s e = rw (apply_migrations, get_pending_migrations_lem sha256 files s, e) refl

  -- `apply_migrations` ends in one of three ways. If the checksum of some file is not the one
  -- recorded for its version, it raises and changes nothing. Otherwise the pending migrations
  -- are those of which nothing is recorded, in the order of their versions, and either all are
  -- applied one after the other and their number is returned, or one fails: those before it are
  -- applied, and neither it nor those after it leave a trace.
  pub apply_migrations_ends :
      (files : List File) (s : Store Rest)
      → let all = load_migrations files in
        let pending = unapplied (recorded s) all in
        let r = apply_migrations sha256 execute files s in
        ((all_intact (recorded s) sha256 all ≡ false) × (r ≡ (mismatch, s)))
        ⊎ ((all_intact (recorded s) sha256 all ≡ true)
            × (AllApplied sha256 execute pending 0 s r ⊎ StopsAt sha256 execute pending s r))
  apply_migrations_ends files s =
      elim (Bool-cases (all_intact (recorded s) sha256 (load_migrations files))) [
        | inr tampered ↦ inl (tampered, run_tampered files s tampered)
        | inl intact ↦ inr (
          intact,
          rw (run_intact files s intact)
              (apply_all_ends sha256 execute (unapplied (recorded s) (load_migrations files)) 0 s),
        )
      ]

  -- The SQL of a migration leaves the rows of schema_migrations as they are.
  module _ (spares : (sql : List ℕ) (s t : Store Rest) → execute sql s ≡ some t → Keeps s t) where
    migration_records :
        (m : Migration) (s t : Store Rest)
        → apply_migration sha256 execute m s ≡ some t
        → (recorded t m.version ≡ some (checksum sha256 m)) × Keeps s t
    unfolding apply_migration
    migration_records m s t h = elim (Option-cases (execute m.file_path.content s)) [
      | inl fails ↦ ground (arith, fails)
      | inr (u, runs) ↦
          let (row, kept) = insert_row_records (to_row sha256 m) u t (ground (arith, runs)) in
          (row, λ v c e. kept v c (spares m.file_path.content s u runs v c e))
    ]

    migrations_record :
        {ms : List Migration} {s t : Store Rest}
        → AppliesAll sha256 execute ms s t
        → All (λ (m : Migration). recorded t m.version ≡ some (checksum sha256 m)) ms × Keeps s t
    migrations_record (none_left s) = (tt, λ v c e. e)
    migrations_record (one_more m {s = s} {t = t} first rest) =
        let (row, kept) = migration_records m s t first in
        let (rows, kept') = migrations_record rest in
        ((kept' m.version (checksum sha256 m) row, rows), λ v c e. kept' v c (kept v c e))

    rerun_after :
        (files : List File) (s : Store Rest)
        → let all = load_migrations files in
          let t = (apply_migrations sha256 execute files s).1 in
          all_intact (recorded s) sha256 all ≡ true
          → AppliesAll sha256 execute (unapplied (recorded s) all) s t
          → apply_migrations sha256 execute files t ≡ (applied 0, t)
    unfolding apply_all
    rerun_after files s intact applies =
        let all = load_migrations files in
        let t = (apply_migrations sha256 execute files s).1 in
        let (rows, kept) = migrations_record applies in
        let (still_intact, none_pending) =
          nothing_pending sha256 (recorded s) (recorded t) all kept intact rows in
        run_intact files t still_intact
        ∙ ap (λ pending. apply_all sha256 execute pending 0 t) none_pending

    -- If the SQL of migrations leaves the rows of schema_migrations as they are, then after a
    -- run that succeeded a second run on the same files applies nothing and changes nothing.
    pub apply_migrations_rerun :
        (files : List File) (s t : Store Rest) (n : ℕ)
        → apply_migrations sha256 execute files s ≡ (applied n, t)
        → apply_migrations sha256 execute files t ≡ (applied 0, t)
    apply_migrations_rerun files s t n ran = elim (apply_migrations_ends files s) [
      | inl (tampered, stops) ↦ absurd (cc)
      | inr (intact, inr stop) ↦ absurd (cc (stop.ending))
      | inr (intact, inl all) ↦
          subst (λ u. apply_migrations sha256 execute files u ≡ (applied 0, u)) (ap (λ r. r.1) ran)
            (rerun_after files s intact all.applies)
    ]
