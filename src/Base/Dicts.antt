-- ===== src/Base/Dicts.antt =====
-- Python's dicts with numbers as keys, in the order of insertion.
use Prim.Native.Nat.{ℕ}
use mathlib.Core.Path.{◌≡◌, refl}
use mathlib.Core.Option.{Option, none, some}
use mathlib.Core.List.{List, [], ◌∷◌}
use native.Mathlib.Omega.{arith}
use zuvloop.Base.Tests.{◌==◌, if◌then◌else◌}

module _ {ℓ} {V : Type ℓ} where
  -- `d.get(k)`
  abbrev pub find : ℕ → List (ℕ × V) → Option V
  find k [] = none
  find k ((j, v) ∷ d) = if k == j then some v else find k d

  -- `d[k] = v`: a key that is there keeps its place.
  abbrev pub put : ℕ → V → List (ℕ × V) → List (ℕ × V)
  put k v [] = (k, v) ∷ []
  put k v ((j, w) ∷ d) = if k == j then (k, v) ∷ d else (j, w) ∷ put k v d

  -- `d.pop(k, None)`
  abbrev pub remove : ℕ → List (ℕ × V) → List (ℕ × V)
  remove k [] = []
  remove k ((j, w) ∷ d) = let rest = remove k d in if k == j then rest else (j, w) ∷ rest

  abbrev pub keys : List (ℕ × V) → List ℕ
  keys [] = []
  keys ((j, w) ∷ d) = j ∷ keys d

  pub find-put :
      (k j : ℕ) (v : V) (d : List (ℕ × V))
      → find j (put k v d) ≡ (if j == k then some v else find j d)
  find-put k j v [] = refl
  find-put k j v ((i, w) ∷ d) = ground (arith, find-put k j v d)

  pub find-remove :
      (k j : ℕ) (d : List (ℕ × V)) → find j (remove k d) ≡ (if j == k then none else find j d)
  find-remove k j [] = ground arith
  find-remove k j ((i, w) ∷ d) = ground (arith, find-remove k j d)
