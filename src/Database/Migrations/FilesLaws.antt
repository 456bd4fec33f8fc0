-- ===== src/Database/Migrations/FilesLaws.antt =====
-- The order in which `_load_migrations` returns the migrations, and the names that it reads.
use pybmpmon.Base.{◌≡◌, refl, true, false, List, [], ◌∷◌, All, arith, Bool-cases, inl, inr}
use mathlib.Core.List.{Perm}
use mathlib.Core.List.Perm
use pybmpmon.Database.Migrations.Files.{
  ℤ, pos, negsuc, leb_int, File, Migration, to_migrations, insert_by_version, sort_by_version,
  load_migrations,
}

abbrev pub IsInOrder : List Migration → Type 0
IsInOrder [] = Unit {0}
IsInOrder (m ∷ ms) = All (λ (n : Migration). leb_int m.version n.version ≡ true) ms × IsInOrder ms

leb_int_trans : (a b c : ℤ) → leb_int a b ≡ true → leb_int b c ≡ true → leb_int a c ≡ true
leb_int_trans (pos a) (pos b) (pos c) h k = ground arith
leb_int_trans (pos a) (pos b) (negsuc c) h k = ground arith
leb_int_trans (pos a) (negsuc b) c h k = ground arith
leb_int_trans (negsuc a) (pos b) (pos c) h k = refl
leb_int_trans (negsuc a) (pos b) (negsuc c) h k = ground arith
leb_int_trans (negsuc a) (negsuc b) (pos c) h k = refl
leb_int_trans (negsuc a) (negsuc b) (negsuc c) h k = ground arith

leb_int_total : (a b : ℤ) → leb_int a b ≡ false → leb_int b a ≡ true
leb_int_total (pos a) (pos b) h = ground arith
leb_int_total (pos a) (negsuc b) h = refl
leb_int_total (negsuc a) (pos b) h = ground arith
leb_int_total (negsuc a) (negsuc b) h = ground arith

insert-Perm : (m : Migration) (ms : List Migration) → Perm (insert_by_version m ms) (m ∷ ms)
unfolding insert_by_version
insert-Perm m [] = Perm.refl _
insert-Perm m (n ∷ ns) = elim (Bool-cases (leb_int m.version n.version)) [
  | inl first ↦ rw first (Perm.refl _)
  | inr later ↦ rw later (Perm.trans (Perm.cons n (insert-Perm m ns)) (Perm.swap m n ns))
]

sort-Perm : (ms : List Migration) → Perm (sort_by_version ms) ms
unfolding sort_by_version
sort-Perm [] = Perm.refl _
sort-Perm (m ∷ ms) = Perm.trans (insert-Perm m (sort_by_version ms)) (Perm.cons m (sort-Perm ms))

abbrev AllFrom : ℤ → List Migration → Type 0
AllFrom v = All (λ (n : Migration). leb_int v n.version ≡ true)

from_earlier : (v w : ℤ) (ms : List Migration) → leb_int v w ≡ true → AllFrom w ms → AllFrom v ms
from_earlier v w [] h all = tt
from_earlier v w (m ∷ ms) h (one, all) =
    (leb_int_trans v w m.version h one, from_earlier v w ms h all)

insert-AllFrom :
    (v : ℤ) (m : Migration) (ms : List Migration)
    → leb_int v m.version ≡ true
    → AllFrom v ms
    → AllFrom v (insert_by_version m ms)
unfolding insert_by_version
insert-AllFrom v m [] h all = (h, tt)
insert-AllFrom v m (n ∷ ns) h (one, all) = ground (arith, insert-AllFrom v m ns h all)

insert-IsInOrder :
    (m : Migration) (ms : List Migration) → IsInOrder ms → IsInOrder (insert_by_version m ms)
unfolding insert_by_version
insert-IsInOrder m [] sorted = (tt, tt)
insert-IsInOrder m (n ∷ ns) (one, sorted) = elim (Bool-cases (leb_int m.version n.version)) [
  | inl first ↦ rw first ((first, from_earlier m.version n.version ns first one), (one, sorted))
  | inr later ↦ rw later (
    insert-AllFrom n.version m ns (leb_int_total m.version n.version later) one,
    insert-IsInOrder m ns sorted,
  )
]

sort-IsInOrder : (ms : List Migration) → IsInOrder (sort_by_version ms)
unfolding sort_by_version
sort-IsInOrder [] = tt
sort-IsInOrder (m ∷ ms) = insert-IsInOrder m (sort_by_version ms) (sort-IsInOrder ms)

-- `_load_migrations` returns the migrations of all files whose name it can read, each as often
-- as there are such files, in the order of their versions.
pub load_migrations_sorted :
    (files : List File)
    → Perm (load_migrations files) (to_migrations files) × IsInOrder (load_migrations files)
unfolding load_migrations
load_migrations_sorted files =
    (sort-Perm (to_migrations files), sort-IsInOrder (to_migrations files))
