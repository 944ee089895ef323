-- ===== src/Processes/Steps.antt =====
-- The steps of the reaper, and what can be seen of a process.
use zuvloop.Base.{
  find, ℕ, ◌+◌, ◌≡◌, Bool, true, false, Option, none, some, List, [], ◌∷◌, ◌==◌, if◌then◌else◌,
  Result,
}
use zuvloop.Processes.Reaper.{
  delete, announce, telling, poll, polled, polling, waiting, is_process, begin_round, register,
  end_round, Phase, Reaper, new_reaper,
}

-- A new child can have this pid: no process is watched under it, or only the one that the thread just polled to
-- its end, whose pid the system has free again. A pid that a poll of `Popen.send_signal` made free, and that
-- comes again before the thread has polled its process, is left out.
abbrev pub IsFree : ℕ → Phase → Option ℕ → Type 0
IsFree pid phase none = Unit
IsFree pid (polled k p returncode) (some q) = q ≡ p
IsFree pid waiting (some q) = ⊥
IsFree pid polling (some q) = ⊥
IsFree pid (telling p returncode) (some q) = ⊥

-- Where the thread is in its loop.
abbrev pub is_waiting : Phase → Bool
is_waiting waiting = true
is_waiting _ = false

abbrev pub is_polling : Phase → Bool
is_polling polling = true
is_polling _ = false

abbrev pub is_none_left : List (ℕ × ℕ) → Bool
is_none_left [] = true
is_none_left (x ∷ xs) = false

-- The calls of `register`, and what the thread does where it holds the lock or not; it is
-- started by the first.
pub data Step (s : Reaper) : Reaper → Type 0 where
  registers :
      (pid : ℕ) (thread : Result (Unit {0}))
      → IsFree pid s.phase (find pid s.processes)
      → Step s (register pid thread s)
  begins :
      s.started ≡ true
      → is_waiting s.phase ≡ true
      → is_none_left s.processes ≡ false
      → Step s (begin_round s)
  polls : (answer : Option ℕ) → is_polling s.phase ≡ true → Step s (poll answer s)
  deletes : Step s (delete s)
  tells : Step s (announce s)
  ends : is_polling s.phase ≡ true → is_none_left s.round ≡ true → Step s (end_round s)

pub data Reach : Reaper → Type 0 where
  start : Reach new_reaper
  later : {s t : Reaper} → Reach s → Step s t → Reach t

-- How often a process's exit was handed over.
abbrev pub told : ℕ → List (ℕ × ℕ) → ℕ
told p [] = 0
told p ((q, returncode) ∷ exits) = (if q == p then 1 else 0) + told p exits

-- The process is polled to its end and not told yet.
abbrev pub in_hand : ℕ → Phase → Bool
in_hand p (polled pid q returncode) = q == p
in_hand p (telling q returncode) = q == p
in_hand p waiting = false
in_hand p polling = false

abbrev pub is_watched : ℕ → Reaper → Bool
is_watched p s = is_process (find (s.pid_of p) s.processes) p

abbrev pub one_if : Bool → ℕ
one_if b = if b then 1 else 0
