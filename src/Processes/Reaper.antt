-- ===== src/Processes/Reaper.antt =====
-- `ProcessReaper`: its thread, cut where it takes and gives back the lock, and `register`.
use zuvloop.Base.{
  remove, put, find, ℕ, ◌+◌, Bool, true, false, Option, none, some, List, [], ◌∷◌, ◌==◌,
  if◌then◌else◌, Result, ok, err, ◌||◌,
}

-- Where the thread stands: before a round, in one, between `process.poll()` and the lock, or between the
-- lock and `call_soon_threadsafe`. The numbers are a pid, a process and a return code.
pub data Phase : Type 0 where
  waiting polling : Phase
  polled : ℕ → ℕ → ℕ → Phase
  telling : ℕ → ℕ → Phase

-- `processes` maps a pid to a process object, which is a number and stands for its loop and wrapper too.
-- `round` is what is left of the tuple that the round goes over, `exits` what was handed to
-- `call_soon_threadsafe`, and `pid_of` the pid that a process was registered with.
pub record Reaper : Type 0 where
  pub processes : List (ℕ × ℕ)
  pub started : Bool
  pub threads : ℕ
  pub round : List (ℕ × ℕ)
  pub completed : Bool
  pub phase : Phase
  pub exits : List (ℕ × ℕ)
  pub pid_of : ℕ → ℕ
  pub next : ℕ

-- `__init__`
unfoldable pub new_reaper : Reaper
new_reaper = record {
  processes = [];
  started = false;
  threads = 0;
  round = [];
  completed = false;
  phase = waiting;
  exits = [];
  pid_of = λ p. 0;
  next = 0;
}

abbrev pub set_pid : (ℕ → ℕ) → ℕ → ℕ → ℕ → ℕ
set_pid f p pid q = if q == p then pid else f q

abbrev pub is_ok : Result (Unit {0}) → Bool
is_ok (ok _) = true
is_ok (err e) = false

-- `register`, for a new process with this pid: the state that it leaves. It starts the thread the first
-- time, with this answer of `Thread.start`; a failure leaves the entry, and the next call tries again.
unfoldable pub register : ℕ → Result (Unit {0}) → Reaper → Reaper
register pid start s = record s {
  processes = put pid s.next s.processes;
  started = s.started || is_ok start;
  threads = if s.started then s.threads else if is_ok start then s.threads + 1 else s.threads;
  pid_of = set_pid s.pid_of s.next pid;
  next = s.next + 1;
}

-- How that call of `register` ends.
unfoldable pub register_end : Result (Unit {0}) → Reaper → Result (Unit {0})
register_end start s = if s.started then ok tt else start

-- The start of a round, once there is a process.
unfoldable pub begin_round : Reaper → Reaper
begin_round s = record s { round = s.processes; completed = false; phase = polling }

-- `process.poll()` of the first process that is left, and `continue` if it runs.
abbrev pub poll_first : List (ℕ × ℕ) → Option ℕ → Reaper → Reaper
poll_first [] answer s = s
poll_first ((pid, p) ∷ rest) none s = record s { round = rest }
poll_first ((pid, p) ∷ rest) (some returncode) s = record s {
  round = rest;
  completed = true;
  phase = polled pid p returncode;
}

unfoldable pub poll : Option ℕ → Reaper → Reaper
poll answer s = poll_first s.round answer s

abbrev pub is_process : Option ℕ → ℕ → Bool
is_process none p = false
is_process (some q) p = q == p

-- With the lock held: the entry goes if it is still this process.
abbrev pub drop_polled : Phase → Reaper → Reaper
drop_polled (polled pid p returncode) s = record s {
  processes = if is_process (find pid s.processes) p then remove pid s.processes else s.processes;
  phase = telling p returncode;
}
drop_polled _ s = s

unfoldable pub delete : Reaper → Reaper
delete s = drop_polled s.phase s

-- `loop.call_soon_threadsafe(wrapper.exited, returncode)`; a closed loop's RuntimeError changes nothing.
abbrev pub tell_polled : Phase → Reaper → Reaper
tell_polled (telling p returncode) s = record s {
  exits = (p, returncode) ∷ s.exits;
  phase = polling;
}
tell_polled _ s = s

unfoldable pub announce : Reaper → Reaper
announce s = tell_polled s.phase s

-- The end of a round; a round in which nothing exited is followed by a short wait.
unfoldable pub end_round : Reaper → Reaper
end_round s = record s { phase = waiting }
