-- ===== src/Database/Migrations/RunLaws.antt =====
-- What a run of the migrations leaves, however it ends, and what a second run does.
use pybmpmon.Base.{
  Option-cases, ℕ, ◌+◌, ◌≡◌, refl, ap, ◌∙◌, true, ◌⊎◌, List, [], ◌∷◌, ◌++◌, length, Option, none,
  some, arith, inl, inr, if◌then◌else◌,
}
use pybmpmon.Database.Migrations.Files.{ℤ, pos, negsuc, Migration}
use pybmpmon.Database.Migrations.Runner.{
  Row, Store, same_int, find_checksum, insert_row, Ending, applied, failed, apply_migration,
  apply_all,
}
use pybmpmon.Database.Migrations.RunnerLaws.{recorded}

-- A record that stays.
abbrev pub Keeps : {Rest : Type 0} → Store Rest → Store Rest → Type 0
Keeps s t = (v : ℤ) (c : List ℕ) → recorded s v ≡ some c → recorded t v ≡ some c

same_int_refl : (v : ℤ) → same_int v v ≡ true
same_int_refl (pos n) = ground arith
same_int_refl (negsuc n) = ground arith

find_checksum-append :
    (v : ℤ) (rows : List Row) (row : Row)
    → find_checksum v (rows ++ (row ∷ [])) ≡ (elim (find_checksum v rows) [
      | none ↦ (if same_int row.version v then some row.checksum else none)
      | some c ↦ some c
    ])
unfolding find_checksum
find_checksum-append v [] row = refl
find_checksum-append v (r ∷ rows) row = ground (arith, find_checksum-append v rows row)

-- The table before and after an INSERT.
record Inserts {Rest : Type 0} (row : Row) (s t : Store Rest) : Type 0 where
  rows : List Row
  before : s.schema_migrations ≡ some rows
  after : t.schema_migrations ≡ some (rows ++ (row ∷ []))
  new : find_checksum row.version rows ≡ none

insert_row-Inserts :
    {Rest : Type 0} (row : Row) (s t : Store Rest) → insert_row row s ≡ some t → Inserts row s t
unfolding insert_row
insert_row-Inserts row s t h = elim (Option-cases s.schema_migrations) [
  | inl missing ↦ ground (arith, missing)
  | inr (rows, there) ↦ record {
    rows = rows;
    before = there;
    after = ground (arith, there);
    new = ground (arith, there);
  }
]

pub insert_row_records :
    {Rest : Type 0} (row : Row) (s t : Store Rest)
    → insert_row row s ≡ some t
    → (recorded t row.version ≡ some row.checksum) × Keeps s t
insert_row_records row s t h =
    let i = insert_row-Inserts row s t h in
    let found = find_checksum-append row.version i.rows row in
    let same = same_int_refl row.version in
    (
      ground (arith, i.after, found, i.new, same),
      λ v c e. ground (arith, i.before, i.after, e, find_checksum-append v i.rows row),
    )

module _ {Rest : Type 0} (sha256 : List ℕ → List ℕ)
    (execute : List ℕ → Store Rest → Option (Store Rest)) where
  -- Migrations that are applied one after the other.
  pub data AppliesAll : List Migration → Store Rest → Store Rest → Type 0 where
    none_left : (s : Store Rest) → AppliesAll [] s s
    one_more :
        (m : Migration) {ms : List Migration} {s t u : Store Rest}
        → apply_migration sha256 execute m s ≡ some t
        → AppliesAll ms t u
        → AppliesAll (m ∷ ms) s u

  -- How the loop ends: all are applied and counted, or one fails, and those before it are applied.
  pub record AllApplied (ms : List Migration) (n : ℕ) (s : Store Rest) (r : Ending × Store Rest)
      : Type 0 where
    pub ending : r.0 ≡ applied (n + length ms)
    pub applies : AppliesAll ms s r.1

  pub record StopsAt (ms : List Migration) (s : Store Rest) (r : Ending × Store Rest) : Type 0 where
    pub before : List Migration
    pub failing : Migration
    pub after : List Migration
    pub split : ms ≡ before ++ (failing ∷ after)
    pub ending : r.0 ≡ failed
    pub applies : AppliesAll before s r.1
    pub fails : apply_migration sha256 execute failing r.1 ≡ none

  apply_all_fails :
      (m : Migration) (ms : List Migration) (n : ℕ) (s : Store Rest)
      → apply_migration sha256 execute m s ≡ none
      → apply_all sha256 execute (m ∷ ms) n s ≡ (failed, s)
  unfolding apply_all
  apply_all_fails m ms n s e = rw (apply_all, e) refl

  apply_all_goes_on :
      (m : Migration) (ms : List Migration) (n : ℕ) (s t : Store Rest)
      → apply_migration sha256 execute m s ≡ some t
      → apply_all sha256 execute (m ∷ ms) n s ≡ apply_all sha256 execute ms (n + 1) t
  unfolding apply_all
  apply_all_goes_on m ms n s t e = rw (apply_all, e) refl

  pub apply_all_ends :
      (ms : List Migration) (n : ℕ) (s : Store Rest)
      → let r = apply_all sha256 execute ms n s in AllApplied ms n s r ⊎ StopsAt ms s r
  unfolding apply_all
  apply_all_ends [] n s = inl (record { ending = ap applied (omega arith); applies = none_left s })
  apply_all_ends (m ∷ ms) n s = elim (Option-cases (apply_migration sha256 execute m s)) [
    | inl fails ↦ rw (apply_all_fails m ms n s fails) (
        inr (record {
          before = [];
          failing = m;
          after = ms;
          split = refl;
          ending = refl;
          applies = none_left s;
          fails = fails;
        }))
    | inr (t, applies) ↦
        rw (apply_all_goes_on m ms n s t applies) (elim (apply_all_ends ms (n + 1) t) [
          | inl all ↦ inl (record {
            ending = all.ending ∙ ap applied (omega arith);
            applies = one_more m applies all.applies;
          })
          | inr stop ↦ inr (record {
            before = m ∷ stop.before;
            failing = stop.failing;
            after = stop.after;
            split = ap (λ l. m ∷ l) stop.split;
            ending = stop.ending;
            applies = one_more m applies stop.applies;
            fails = stop.fails;
          })
        ])
  ]
