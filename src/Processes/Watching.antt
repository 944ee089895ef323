-- ===== src/Processes/Watching.antt =====
-- The dict of the reaper and the tuple that a round goes over.
use zuvloop.Base.{
  inr, inl, Bool-cases, find-put, put, find-remove, remove, Distinct, keys, find, refl, ℕ, ◌+◌, ◌<◌,
  ◌≡◌, false, not, ◌&&◌, ◌||◌, none, some, List, [], ◌∷◌, arith, has, ◌==◌,
}
use zuvloop.Processes.Reaper.{set_pid}

-- Each process stands under the pid it was registered with.
abbrev pub AllPid : (ℕ → ℕ) → ℕ → List (ℕ × ℕ) → Type 0
AllPid pid_of next [] = Unit
AllPid pid_of next ((k, v) ∷ d) = (k ≡ pid_of v) × (v < next) × AllPid pid_of next d

-- Each process of the round is the one under its pid in the dict.
abbrev pub AllWatched : (ℕ → ℕ) → List (ℕ × ℕ) → List (ℕ × ℕ) → Type 0
AllWatched pid_of d [] = Unit
AllWatched pid_of d ((k, v) ∷ round) =
    (k ≡ pid_of v) × (find k d ≡ some v) × AllWatched pid_of d round

module _ {ℓ} {V : Type ℓ} where
  has-keys-put :
      (j k : ℕ) (v : V) (d : List (ℕ × V)) → has j (keys (put k v d)) ≡ (j == k || has j (keys d))
  has-keys-put j k v [] = ground arith
  has-keys-put j k v ((i, w) ∷ d) = ground (arith, has-keys-put j k v d)

  has-keys-remove :
      (j k : ℕ) (d : List (ℕ × V)) → has j (keys (remove k d)) ≡ (not (j == k) && has j (keys d))
  has-keys-remove j k [] = ground arith
  has-keys-remove j k ((i, w) ∷ d) = ground (arith, has-keys-remove j k d)

  pub Distinct-keys-put :
      (k : ℕ) (v : V) (d : List (ℕ × V)) → Distinct (keys d) → Distinct (keys (put k v d))
  Distinct-keys-put k v [] h = (refl, tt)
  Distinct-keys-put k v ((i, w) ∷ d) h =
      ground (arith, Distinct-keys-put k v d, has-keys-put i k v d)

  pub Distinct-keys-remove :
      (k : ℕ) (d : List (ℕ × V)) → Distinct (keys d) → Distinct (keys (remove k d))
  Distinct-keys-remove k [] h = tt
  Distinct-keys-remove k ((i, w) ∷ d) h =
      ground (arith, Distinct-keys-remove k d, has-keys-remove i k d)

  pub find-absent : (k : ℕ) (d : List (ℕ × V)) → has k (keys d) ≡ false → find k d ≡ none
  find-absent k [] h = refl
  find-absent k ((i, w) ∷ d) h = ground (arith, find-absent k d)

AllPid-next :
    (pid_of : ℕ → ℕ) (next k : ℕ) (d : List (ℕ × ℕ))
    → AllPid pid_of next d
    → AllPid (set_pid pid_of next k) (next + 1) d
AllPid-next pid_of next k [] a = tt
AllPid-next pid_of next k ((i, w) ∷ d) (e, lt, a) =
    (ground arith, omega arith, AllPid-next pid_of next k d a)

pub AllPid-put :
    (pid_of : ℕ → ℕ) (next k : ℕ) (d : List (ℕ × ℕ))
    → AllPid pid_of next d
    → AllPid (set_pid pid_of next k) (next + 1) (put k next d)
AllPid-put pid_of next k [] a = ground arith
AllPid-put pid_of next k ((i, w) ∷ d) (e, lt, a) = elim (Bool-cases (k == i)) [
  | inl same ↦ rw same (ground arith, omega arith, AllPid-next pid_of next k d a)
  | inr other ↦ rw other (ground arith, omega arith, AllPid-put pid_of next k d a)
]

pub AllPid-remove :
    (pid_of : ℕ → ℕ) (next k : ℕ) (d : List (ℕ × ℕ))
    → AllPid pid_of next d
    → AllPid pid_of next (remove k d)
AllPid-remove pid_of next k [] a = tt
AllPid-remove pid_of next k ((i, w) ∷ d) a = ground (arith, AllPid-remove pid_of next k d)

pub find-AllPid :
    (pid_of : ℕ → ℕ) (next k p : ℕ) (d : List (ℕ × ℕ))
    → AllPid pid_of next d
    → find k d ≡ some p
    → (k ≡ pid_of p) × (p < next)
find-AllPid pid_of next k p [] a f = cc
find-AllPid pid_of next k p ((i, w) ∷ d) a f = ground (arith, find-AllPid pid_of next k p d)

AllWatched-cons :
    (pid_of : ℕ → ℕ) (k p : ℕ) (d round : List (ℕ × ℕ))
    → has k (keys round) ≡ false
    → AllWatched pid_of d round
    → AllWatched pid_of ((k, p) ∷ d) round
AllWatched-cons pid_of k p d [] n w = tt
AllWatched-cons pid_of k p d ((i, v) ∷ round) n w =
    ground (arith, AllWatched-cons pid_of k p d round)

-- The dict itself, as the tuple of a new round.
pub AllWatched-self :
    (pid_of : ℕ → ℕ) (next : ℕ) (d : List (ℕ × ℕ))
    → AllPid pid_of next d
    → Distinct (keys d)
    → AllWatched pid_of d d
AllWatched-self pid_of next [] a h = tt
AllWatched-self pid_of next ((i, w) ∷ d) (e, lt, a) (n, h) =
    (e, ground arith, AllWatched-cons pid_of i w d d n (AllWatched-self pid_of next d a h))

pub AllWatched-put :
    (pid_of : ℕ → ℕ) (next k : ℕ) (d round : List (ℕ × ℕ))
    → has k (keys round) ≡ false
    → AllPid pid_of next d
    → AllWatched pid_of d round
    → AllWatched (set_pid pid_of next k) (put k next d) round
AllWatched-put pid_of next k d [] n a w = tt
AllWatched-put pid_of next k d ((i, v) ∷ round) n a w = ground (
  arith,
  AllWatched-put pid_of next k d round,
  find-put k i next d,
  find-AllPid pid_of next i v d,
)

pub AllWatched-remove :
    (pid_of : ℕ → ℕ) (k : ℕ) (d round : List (ℕ × ℕ))
    → has k (keys round) ≡ false
    → AllWatched pid_of d round
    → AllWatched pid_of (remove k d) round
AllWatched-remove pid_of k d [] n w = tt
AllWatched-remove pid_of k d ((i, v) ∷ round) n w =
    ground (arith, AllWatched-remove pid_of k d round, find-remove k i d)

-- A pid that is not in the dict is not in the round.
pub AllWatched-absent :
    (pid_of : ℕ → ℕ) (k : ℕ) (d round : List (ℕ × ℕ))
    → find k d ≡ none
    → AllWatched pid_of d round
    → has k (keys round) ≡ false
AllWatched-absent pid_of k d [] f w = refl
AllWatched-absent pid_of k d ((i, v) ∷ round) f w =
    ground (arith, AllWatched-absent pid_of k d round)
