-- ===== src/Base/Dict.antt =====
-- A dict as an association list in the order of insertion, for keys with a decidable equality.
use mathlib.Core.Path.{◌≡◌, refl}
use mathlib.Core.Logic.{◌≢◌}
use mathlib.Core.List.{List, [], ◌∷◌}
use mathlib.Core.Option.{Option, none, some}
use native.Mathlib.Omega.{arith}

module _ {Key V : Type 0} (same : Discrete Key) where
  unfoldable pub get : Key → List (Key × V) → Option V
  get k [] = none
  get k ((j, v) ∷ rest) = elim (same k j) [ yes e ↦ some v | no n ↦ get k rest ]

  unfoldable pub put : Key → V → List (Key × V) → List (Key × V)
  put k v [] = (k, v) ∷ []
  put k v ((j, w) ∷ rest) = elim (same k j) [ yes e ↦ (j, v) ∷ rest | no n ↦ (j, w) ∷ put k v rest ]

  -- The entries of a dict have different keys; all of the key are removed here.
  unfoldable pub delete : Key → List (Key × V) → List (Key × V)
  delete k [] = []
  delete k ((j, w) ∷ rest) = elim (same k j) [
    | yes e ↦ delete k rest
    | no n ↦ (j, w) ∷ delete k rest
  ]

  pub get-put_same : (k : Key) (v : V) (d : List (Key × V)) → get k (put k v d) ≡ some v
  unfolding get put
  get-put_same k v [] = ground (arith)
  get-put_same k v ((j, w) ∷ rest) = ground (arith, get-put_same k v rest)

  pub get-put_other : (k j : Key) (v : V) (d : List (Key × V)) → k ≢ j → get k (put j v d) ≡ get k d
  unfolding get put
  get-put_other k j v [] n = ground arith
  get-put_other k j v ((i, w) ∷ rest) n = ground (arith, get-put_other k j v rest n)

  pub get-delete_same : (k : Key) (d : List (Key × V)) → get k (delete k d) ≡ none
  unfolding get delete
  get-delete_same k [] = refl
  get-delete_same k ((j, w) ∷ rest) = ground (arith, get-delete_same k rest)

  pub get-delete_other : (k j : Key) (d : List (Key × V)) → k ≢ j → get k (delete j d) ≡ get k d
  unfolding get delete
  get-delete_other k j [] n = refl
  get-delete_other k j ((i, w) ∷ rest) n = ground (arith, get-delete_other k j rest n)
