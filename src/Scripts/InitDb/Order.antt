-- ===== src/Scripts/InitDb/Order.antt =====
-- The order in which init_db.py runs the files.
use pybmpmon.Base.{
  ℕ, ◌<◌, ◌≡◌, ◌⊎◌, inl, inr, true, false, List, [], ◌∷◌, All, arith, Bool-cases, ltb,
}
use mathlib.Core.List.{Perm}
use mathlib.Core.List.Perm
use pybmpmon.Database.Migrations.Files.{File}
use pybmpmon.Scripts.InitDb.{name, leb_text, insert_by_name, sort_by_name}

-- A text is up to another if it is the front of it, or smaller where they first differ.
abbrev pub UpTo : List ℕ → List ℕ → Type 0
UpTo [] ys = Unit {0}
UpTo (x ∷ xs) [] = ⊥
UpTo (x ∷ xs) (y ∷ ys) = (x < y) ⊎ ((x ≡ y) × UpTo xs ys)

abbrev pub IsByName : List File → Type 0
IsByName [] = Unit {0}
IsByName (f ∷ fs) = All (λ (g : File). UpTo (name f) (name g)) fs × IsByName fs

leb_text-UpTo : (xs ys : List ℕ) → leb_text xs ys ≡ true → UpTo xs ys
unfolding leb_text
leb_text-UpTo [] ys h = tt
leb_text-UpTo (x ∷ xs) [] h = absurd (cc h)
leb_text-UpTo (x ∷ xs) (y ∷ ys) h = elim (Bool-cases (ltb x y)) [
  | inl less ↦ inl (ground arith)
  | inr not_less ↦ elim (Bool-cases (ltb y x)) [
    | inl more ↦ absurd (ground (arith, not_less, more, h))
    | inr same ↦ inr (ground (arith, not_less, same), leb_text-UpTo xs ys (ground arith))
  ]
]

leb_text_total : (xs ys : List ℕ) → leb_text xs ys ≡ false → UpTo ys xs
unfolding leb_text
leb_text_total [] ys h = absurd (cc h)
leb_text_total (x ∷ xs) [] h = tt
leb_text_total (x ∷ xs) (y ∷ ys) h = elim (Bool-cases (ltb x y)) [
  | inl less ↦ absurd (ground (arith, less, h))
  | inr not_less ↦ elim (Bool-cases (ltb y x)) [
    | inl more ↦ inl (ground arith)
    | inr same ↦ inr (ground (arith, not_less, same), leb_text_total xs ys (ground arith))
  ]
]

UpTo-trans : (xs ys zs : List ℕ) → UpTo xs ys → UpTo ys zs → UpTo xs zs
UpTo-trans [] ys zs h k = tt
UpTo-trans (x ∷ xs) [] zs h k = absurd h
UpTo-trans (x ∷ xs) (y ∷ ys) [] h k = absurd k
UpTo-trans (x ∷ xs) (y ∷ ys) (z ∷ zs) (inl h) (inl k) = inl (omega arith)
UpTo-trans (x ∷ xs) (y ∷ ys) (z ∷ zs) (inl h) (inr (k, rest)) = inl (omega arith)
UpTo-trans (x ∷ xs) (y ∷ ys) (z ∷ zs) (inr (h, rest)) (inl k) = inl (omega arith)
UpTo-trans (x ∷ xs) (y ∷ ys) (z ∷ zs) (inr (h, some_rest)) (inr (k, rest)) =
    inr (omega arith, UpTo-trans xs ys zs some_rest rest)

insert-Perm : (f : File) (fs : List File) → Perm (insert_by_name f fs) (f ∷ fs)
unfolding insert_by_name
insert-Perm f [] = Perm.refl _
insert-Perm f (g ∷ gs) = elim (Bool-cases (leb_text (name f) (name g))) [
  | inl first ↦ rw first (Perm.refl _)
  | inr later ↦ rw later (Perm.trans (Perm.cons g (insert-Perm f gs)) (Perm.swap f g gs))
]

pub sort-Perm : (fs : List File) → Perm (sort_by_name fs) fs
unfolding sort_by_name
sort-Perm [] = Perm.refl _
sort-Perm (f ∷ fs) = Perm.trans (insert-Perm f (sort_by_name fs)) (Perm.cons f (sort-Perm fs))

abbrev AllFrom : List ℕ → List File → Type 0
AllFrom t = All (λ (g : File). UpTo t (name g))

from_earlier : (t u : List ℕ) (fs : List File) → UpTo t u → AllFrom u fs → AllFrom t fs
from_earlier t u [] h all = tt
from_earlier t u (f ∷ fs) h (one, all) = (UpTo-trans t u (name f) h one, from_earlier t u fs h all)

insert-AllFrom :
    (t : List ℕ) (f : File) (fs : List File)
    → UpTo t (name f)
    → AllFrom t fs
    → AllFrom t (insert_by_name f fs)
unfolding insert_by_name
insert-AllFrom t f [] h all = (h, tt)
insert-AllFrom t f (g ∷ gs) h (one, all) = elim (Bool-cases (leb_text (name f) (name g))) [
  | inl first ↦ rw first (h, (one, all))
  | inr later ↦ rw later (one, insert-AllFrom t f gs h all)
]

insert-IsByName : (f : File) (fs : List File) → IsByName fs → IsByName (insert_by_name f fs)
unfolding insert_by_name
insert-IsByName f [] sorted = (tt, tt)
insert-IsByName f (g ∷ gs) (one, sorted) = elim (Bool-cases (leb_text (name f) (name g))) [
  | inl first ↦
      let up = leb_text-UpTo (name f) (name g) first in
      rw first ((up, from_earlier (name f) (name g) gs up one), (one, sorted))
  | inr later ↦ rw later (
    insert-AllFrom (name g) f gs (leb_text_total (name f) (name g) later) one,
    insert-IsByName f gs sorted,
  )
]

pub sort-IsByName : (fs : List File) → IsByName (sort_by_name fs)
unfolding sort_by_name
sort-IsByName [] = tt
sort-IsByName (f ∷ fs) = insert-IsByName f (sort_by_name fs) (sort-IsByName fs)
