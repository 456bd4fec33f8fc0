-- ===== src/Database/Migrations/Files.antt =====
-- migrations.py: `Migration`, and `_load_migrations`. A file is its stem and its bytes; the names of
-- files are ASCII, a text of code points. The files come in the order of `sorted`.
use pybmpmon.Base.{
  ℕ, zero, suc, ◌+◌, ◌-◌, ◌*◌, Bool, true, false, ◌&&◌, List, [], ◌∷◌, Option, none, some, leb,
  ◌==◌, if◌then◌else◌,
}
-- A Python int.
pub use pybmpmon.Base.Int.{ℤ, pos, negsuc}
use pybmpmon.Utils.Text.{all_spaces, skip_spaces}
use mathlib.Core.Option as Option_lemmas

abbrev pub leb_int : ℤ → ℤ → Bool
leb_int (pos m) (pos n) = leb m n
leb_int (pos m) (negsuc n) = false
leb_int (negsuc m) (pos n) = true
leb_int (negsuc m) (negsuc n) = leb n m

abbrev pub negate : ℕ → ℤ
negate zero = pos 0
negate (suc n) = negsuc n

pub record File : Type 0 where
  pub stem : List ℕ
  pub content : List ℕ

-- `self.file_path` stands for the file that it names.
pub record Migration : Type 0 where
  pub version : ℤ
  pub name : List ℕ
  pub file_path : File

-- `text.split("_", 1)`, if it has two parts.
abbrev prepend : ℕ → Option (List ℕ × List ℕ) → Option (List ℕ × List ℕ)
prepend c none = none
prepend c (some (before, after)) = some (c ∷ before, after)

unfoldable pub split_underscore : List ℕ → Option (List ℕ × List ℕ)
split_underscore [] = none
split_underscore (c ∷ cs) =
    let rest = split_underscore cs in if c == 95 then some ([], cs) else prepend c rest

-- `int(text)` of an ASCII text without underscores: blanks, a sign, digits, blanks.
abbrev pub is_digit : ℕ → Bool
is_digit c = leb 48 c && leb c 57

unfoldable pub more_digits : ℕ → List ℕ → Option ℕ
more_digits acc [] = some acc
more_digits acc (c ∷ cs) =
    let rest = more_digits (acc * 10 + (c - 48)) cs in
    if is_digit c then rest else if all_spaces (c ∷ cs) then some acc else none

unfoldable pub digits : List ℕ → Option ℕ
unfolding more_digits
digits [] = none
digits (c ∷ cs) = if is_digit c then more_digits (c - 48) cs else none

unfoldable pub signed : List ℕ → Option ℤ
unfolding digits
signed [] = none
signed (c ∷ cs) =
    if c == 45
    then Option_lemmas.map negate (digits cs)
    else if c == 43
    then Option_lemmas.map pos (digits cs)
    else Option_lemmas.map pos (digits (c ∷ cs))

unfoldable pub int : List ℕ → Option ℤ
unfolding signed skip_spaces
int text = signed (skip_spaces text)

abbrev of_parts : File → Option (List ℕ × List ℕ) → Option Migration
unfolding int
of_parts file none = none
of_parts file (some (number, name)) =
    Option_lemmas.map (λ version. record { version = version; name = name; file_path = file })
      (int number)

-- The body of the loop over the files: a file that is skipped gives none.
unfoldable pub to_migration : File → Option Migration
unfolding split_underscore int
to_migration file = of_parts file (split_underscore file.stem)

abbrev keep_some : Option Migration → List Migration → List Migration
keep_some none ms = ms
keep_some (some m) ms = m ∷ ms

unfoldable pub to_migrations : List File → List Migration
unfolding to_migration
to_migrations [] = []
to_migrations (file ∷ files) = keep_some (to_migration file) (to_migrations files)

-- `sorted(migrations, key=lambda m: m.version)`, which leaves equal keys in their order.
unfoldable pub insert_by_version : Migration → List Migration → List Migration
insert_by_version m [] = m ∷ []
insert_by_version m (n ∷ ns) =
    let rest = insert_by_version m ns in
    if leb_int m.version n.version then m ∷ n ∷ ns else n ∷ rest

unfoldable pub sort_by_version : List Migration → List Migration
unfolding insert_by_version
sort_by_version [] = []
sort_by_version (m ∷ ms) = insert_by_version m (sort_by_version ms)

unfoldable pub load_migrations : List File → List Migration
unfolding to_migrations sort_by_version
load_migrations files = sort_by_version (to_migrations files)
