-- ===== src/Base/Sets.antt =====
-- Lists of numbers as sets: predicates by recursion, and what the operations keep of them.
use zuvloop.Base.Lists.{has-append, has, erase, discard, has-discard_ne, has-discard}
use Prim.Native.Nat.{ℕ, ◌+◌, ◌<◌}
use mathlib.Core.Path.{◌≡◌, refl}
use mathlib.Core.Bool.{true, false}
use mathlib.Core.List.{List, [], ◌∷◌, ◌++◌}
use native.Mathlib.Omega.{arith}

-- No element twice.
abbrev pub Distinct : List ℕ → Type 0
Distinct [] = Unit
Distinct (x ∷ xs) = (has x xs ≡ false) × Distinct xs

-- Every element is below `n`.
abbrev pub Below : ℕ → List ℕ → Type 0
Below n [] = Unit
Below n (x ∷ xs) = (x < n) × Below n xs

-- Every element of the first is one of the second.
abbrev pub Within : List ℕ → List ℕ → Type 0
Within [] ys = Unit
Within (x ∷ xs) ys = (has x ys ≡ true) × Within xs ys

-- No element of the first is one of the second.
abbrev pub Apart : List ℕ → List ℕ → Type 0
Apart [] ys = Unit
Apart (x ∷ xs) ys = (has x ys ≡ false) × Apart xs ys

pub has-erase : (a b : ℕ) (xs : List ℕ) → has a xs ≡ false → has a (erase b xs) ≡ false
has-erase a b [] h = refl
has-erase a b (x ∷ xs) h = ground (arith, has-erase a b xs)

pub Distinct-erase : (a : ℕ) (xs : List ℕ) → Distinct xs → Distinct (erase a xs)
Distinct-erase a [] d = tt
Distinct-erase a (x ∷ xs) d = ground (arith, Distinct-erase a xs, has-erase x a xs)

pub has-erase_self : (a : ℕ) (xs : List ℕ) → Distinct xs → has a (erase a xs) ≡ false
has-erase_self a [] d = refl
has-erase_self a (x ∷ xs) d = ground (arith, has-erase_self a xs)

pub Below-has : (n : ℕ) (xs : List ℕ) → Below n xs → has n xs ≡ false
Below-has n [] b = refl
Below-has n (x ∷ xs) b = ground (arith, Below-has n xs)

pub Below-suc : (n : ℕ) (xs : List ℕ) → Below n xs → Below (n + 1) xs
Below-suc n [] b = tt
Below-suc n (x ∷ xs) b = ground (arith, Below-suc n xs)

pub Below-erase : (n a : ℕ) (xs : List ℕ) → Below n xs → Below n (erase a xs)
Below-erase n a [] b = tt
Below-erase n a (x ∷ xs) b = ground (arith, Below-erase n a xs)

pub Below-discard : (n a : ℕ) (xs : List ℕ) → Below n xs → Below n (discard a xs)
Below-discard n a [] b = tt
Below-discard n a (x ∷ xs) b = ground (arith, Below-discard n a xs)

pub Below-lt : (n a : ℕ) (xs : List ℕ) → Below n xs → has a xs ≡ true → a < n
Below-lt n a [] b h = cc
Below-lt n a (x ∷ xs) b h = ground (arith, Below-lt n a xs)

pub Within-erase : (a : ℕ) (xs ys : List ℕ) → Within xs ys → Within (erase a xs) ys
Within-erase a [] ys w = tt
Within-erase a (x ∷ xs) ys w = ground (arith, Within-erase a xs ys)

pub Within-cons : (y : ℕ) (xs ys : List ℕ) → Within xs ys → Within xs (y ∷ ys)
Within-cons y [] ys w = tt
Within-cons y (x ∷ xs) ys w = ground (arith, Within-cons y xs ys)

pub Within-has : (a : ℕ) (xs ys : List ℕ) → Within xs ys → has a xs ≡ true → has a ys ≡ true
Within-has a [] ys w h = cc
Within-has a (x ∷ xs) ys w h = ground (arith, Within-has a xs ys)

pub Apart-erase : (a : ℕ) (xs ys : List ℕ) → Apart xs ys → Apart (erase a xs) ys
Apart-erase a [] ys w = tt
Apart-erase a (x ∷ xs) ys w = ground (arith, Apart-erase a xs ys)

pub Apart-erase_right : (a : ℕ) (xs ys : List ℕ) → Apart xs ys → Apart xs (erase a ys)
Apart-erase_right a [] ys w = tt
Apart-erase_right a (x ∷ xs) ys w = ground (arith, Apart-erase_right a xs ys, has-erase x a ys)

pub Apart-cons : (y : ℕ) (xs ys : List ℕ) → has y xs ≡ false → Apart xs ys → Apart xs (y ∷ ys)
Apart-cons y [] ys h w = tt
Apart-cons y (x ∷ xs) ys h w = ground (arith, Apart-cons y xs ys)

pub Apart-has : (a : ℕ) (xs ys : List ℕ) → Apart xs ys → has a ys ≡ true → has a xs ≡ false
Apart-has a [] ys w h = refl
Apart-has a (x ∷ xs) ys w h = ground (arith, Apart-has a xs ys)

pub Apart-has_left : (a : ℕ) (xs ys : List ℕ) → Apart xs ys → has a xs ≡ true → has a ys ≡ false
Apart-has_left a [] ys w h = cc
Apart-has_left a (x ∷ xs) ys w h = ground (arith, Apart-has_left a xs ys)

pub Within-discard :
    (y : ℕ) (xs ys : List ℕ) → has y xs ≡ false → Within xs ys → Within xs (discard y ys)
Within-discard y [] ys h w = tt
Within-discard y (x ∷ xs) ys h w = ground (arith, Within-discard y xs ys, has-discard_ne x y ys)

pub Apart-discard : (y : ℕ) (xs ys : List ℕ) → Apart xs ys → Apart xs (discard y ys)
Apart-discard y [] ys w = tt
Apart-discard y (x ∷ xs) ys w = ground (arith, Apart-discard y xs ys, has-discard x y ys)

pub discard-absent : (a : ℕ) (xs : List ℕ) → has a xs ≡ false → discard a xs ≡ xs
discard-absent a [] h = refl
discard-absent a (x ∷ xs) h = ground (arith, discard-absent a xs)

pub Distinct-append_one :
    (n : ℕ) (ns : List ℕ) → Distinct ns → has n ns ≡ false → Distinct (ns ++ (n ∷ []))
Distinct-append_one n [] d h = (refl, tt)
Distinct-append_one n (m ∷ ns) d h =
    ground (arith, Distinct-append_one n ns, has-append m ns (n ∷ []))
