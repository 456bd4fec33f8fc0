-- ===== src/Base/Slices.antt =====
-- `xs[off : off + n]`, and what it means that a list stands at an offset of another.
use pybmpmon.Base.Lists.{
  length, take, drop, length-append, length-take, length-drop, All, All-take, All-drop,
}
use Prim.Native.Nat.{ℕ, zero, suc, ◌+◌, ◌≤◌}
use Prim.Native.Nat.add
use mathlib.Core.Path.{◌≡◌, refl, sym, ap, ◌∙◌, subst}
use mathlib.Core.List.{List, [], ◌∷◌, ◌++◌}
use native.Mathlib.Omega.{arith}

module _ {ℓ} {A : Type ℓ} where
  unfoldable pub slice : List A → ℕ → ℕ → List A
  slice xs off n = take n (drop off xs)

  pub length-slice : (xs : List A) (off n : ℕ) → off + n ≤ length xs → length (slice xs off n) ≡ n
  unfolding slice
  length-slice xs off n h = omega (arith, length-take n (drop off xs), length-drop off xs)

  take_add : (a b : ℕ) (xs : List A) → take (a + b) xs ≡ take a xs ++ take b (drop a xs)
  take_add zero b xs = rw add.zero
  take_add (suc a) zero [] = rw add.suc
  take_add (suc a) (suc b) [] = rw add.suc
  take_add (suc a) b (x ∷ xs) = rw add.suc (ap (λ t. x ∷ t) (take_add a b xs))

  drop_add : (a b : ℕ) (xs : List A) → drop b (drop a xs) ≡ drop (a + b) xs
  drop_add zero b xs = rw add.zero
  drop_add (suc a) zero [] = rw add.suc
  drop_add (suc a) (suc b) [] = rw add.suc
  drop_add (suc a) b (x ∷ xs) = rw add.suc (drop_add a b xs)

  pub slice_add :
      (xs : List A) (off a b : ℕ) → slice xs off (a + b) ≡ slice xs off a ++ slice xs (off + a) b
  unfolding slice
  slice_add xs off a b =
      take_add a b (drop off xs) ∙ ap (λ t. take a (drop off xs) ++ take b t) (drop_add off a xs)

  take_length : (xs : List A) → take (length xs) xs ≡ xs
  take_length [] = refl
  take_length (x ∷ xs) = ap (λ t. x ∷ t) (take_length xs)

  pub slice_whole : (xs : List A) → slice xs 0 (length xs) ≡ xs
  unfolding slice
  slice_whole xs = take_length xs

  -- Equal front parts of equal lengths.
  pub append_cancel : (a b c d : List A) → length a ≡ length c → a ++ b ≡ c ++ d → (a ≡ c) × (b ≡ d)
  append_cancel [] b [] d h e = (refl, e)
  append_cancel [] b (z ∷ c) d h e = absurd (omega arith)
  append_cancel (x ∷ a) b [] d h e = absurd (omega arith)
  append_cancel (x ∷ a) b (z ∷ c) d h e =
      let tails = append_cancel a b c d (omega arith) (cc) in (cc (tails.0), tails.1)

-- `chunk` stands in `xs` from the offset `off` on.
pub record At {ℓ} {A : Type ℓ} (xs : List A) (off : ℕ) (chunk : List A) : Type ℓ where
  pub fits : off + length chunk ≤ length xs
  pub holds : slice xs off (length chunk) ≡ chunk

module _ {ℓ} {A : Type ℓ} (xs : List A) where
  pub At-slice : (off n : ℕ) → off + n ≤ length xs → At xs off (slice xs off n)
  At-slice off n h =
      let same : length (slice xs off n) ≡ n = length-slice xs off n h in
      record { fits = omega arith; holds = ap (slice xs off) same }

  halves :
      (off : ℕ) (a b : List A)
      → At xs off (a ++ b)
      → (slice xs off (length a) ≡ a) × (slice xs (off + length a) (length b) ≡ b)
  halves off a b h =
      append_cancel (slice xs off (length a)) (slice xs (off + length a) (length b)) a b
        (length-slice xs off (length a) (omega (arith, length-append a b, h.fits)))
        (sym (slice_add xs off (length a) (length b))
          ∙ ap (slice xs off) (sym (length-append a b))
          ∙ h.holds)

  pub At-front : (off : ℕ) (a b : List A) → At xs off (a ++ b) → At xs off a
  At-front off a b h = record {
    fits = omega (arith, length-append a b, h.fits);
    holds = (halves off a b h).0;
  }

  pub At-back : (off : ℕ) (a b : List A) → At xs off (a ++ b) → At xs (off + length a) b
  At-back off a b h = record {
    fits = omega (arith, length-append a b, h.fits);
    holds = (halves off a b h).1;
  }

  -- Cut a chunk in two; the second part is found at the offset that the reader computes.
  pub At-cut :
      (off off' : ℕ) (a b : List A)
      → off + length a ≡ off'
      → At xs off (a ++ b)
      → At xs off a × At xs off' b
  At-cut off off' a b e h = (At-front off a b h, subst (λ o. At xs o b) e (At-back off a b h))

  pub At-append :
      (off : ℕ) (a b : List A) → At xs off a → At xs (off + length a) b → At xs off (a ++ b)
  At-append off a b h k = record {
    fits = omega (arith, length-append a b, k.fits);
    holds =
        ap (slice xs off) (length-append a b)
        ∙ slice_add xs off (length a) (length b)
        ∙ ap (λ t. t ++ slice xs (off + length a) (length b)) h.holds
        ∙ ap (λ t. a ++ t) k.holds;
  }

  pub At-join :
      (off off' : ℕ) (a b : List A)
      → off + length a ≡ off'
      → At xs off a
      → At xs off' b
      → At xs off (a ++ b)
  At-join off off' a b e h k = At-append off a b h (subst (λ o. At xs o b) (sym e) k)

  pub At-nil : (off : ℕ) → off ≤ length xs → At xs off []
  unfolding slice
  At-nil off h = record { fits = omega arith; holds = refl }

pub At-whole {ℓ} : {A : Type ℓ} (xs : List A) → At xs 0 xs
At-whole xs = record { fits = omega arith; holds = slice_whole xs }

pub All-slice {ℓ κ} :
    {A : Type ℓ} (P : A → Type κ) (xs : List A) (off n : ℕ) → All P xs → All P (slice xs off n)
unfolding slice
All-slice P xs off n h = All-take P n (drop off xs) (All-drop P off xs h)
