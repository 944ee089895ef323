-- ===== src/Processes/Reaping.antt =====
-- What becomes of each child, in any interleaving of the thread with `register`.
use zuvloop.Processes.Steps.{
  IsFree, is_waiting, is_polling, Step, registers, begins, polls, deletes, tells, ends, Reach,
  start, later, told, in_hand, is_watched, one_if,
}
use zuvloop.Processes.Watching.{
  AllWatched-remove, Distinct-keys-remove, AllPid-remove, AllWatched-absent, find-AllPid,
  AllWatched-put, AllWatched, Distinct-keys-put, AllPid, AllPid-put, AllWatched-self,
}
use zuvloop.Base.{
  find-remove, Bool-cases, inr, inl, Option-cases, find-put, Distinct, keys, ltb, find, refl, ℕ,
  ◌+◌, ◌<◌, ◌≡◌, true, false, ◌||◌, Option, none, some, List, [], ◌∷◌, arith, has, ◌==◌,
  if◌then◌else◌, Result, ok, err, Exception,
}
use zuvloop.Processes.Reaper.{
  tell_polled, poll_first, drop_polled, delete, announce, telling, poll, polled, polling, waiting,
  is_process, begin_round, register, end_round, Phase, Reaper, new_reaper,
}
use mathlib.Core.Path.{subst}

-- What the thread holds is no longer in the round, and when it tells, also not in the dict.
abbrev pub PhaseFits : Phase → Reaper → Type 0
PhaseFits (polled pid p returncode) s =
    (pid ≡ s.pid_of p) × (p < s.next) × (has pid (keys s.round) ≡ false)
PhaseFits (telling p returncode) s = (is_watched p s ≡ false) × (p < s.next)
PhaseFits waiting s = Unit
PhaseFits polling s = Unit

pub record IsSound (s : Reaper) : Type 0 where
  pub once :
      (p : ℕ)
      → one_if (in_hand p s.phase || is_watched p s) + told p s.exits ≡ one_if (ltb p s.next)
  pub pids : AllPid s.pid_of s.next s.processes
  keys_distinct : Distinct (keys s.processes)
  round_distinct : Distinct (keys s.round)
  pub round_watched : AllWatched s.pid_of s.processes s.round
  pub phase_fits : PhaseFits s.phase s
  one_thread : s.threads ≡ one_if s.started

new_reaper-IsSound : IsSound new_reaper
unfolding new_reaper
new_reaper-IsSound = record {
  once = λ p. ground arith;
  pids = tt;
  keys_distinct = tt;
  round_distinct = tt;
  round_watched = tt;
  phase_fits = tt;
  one_thread = refl;
}

-- A pid that is used again is that of the process in hand.
free-in_hand : (phase : Phase) (pid q : ℕ) → IsFree pid phase (some q) → in_hand q phase ≡ true
free-in_hand (polled k p returncode) pid q f = ground arith
free-in_hand waiting pid q f = absurd f
free-in_hand polling pid q f = absurd f
free-in_hand (telling p returncode) pid q f = absurd f

reused-absent :
    (phase : Phase) (pid q : ℕ) (s : Reaper)
    → IsFree pid phase (some q)
    → PhaseFits phase s
    → AllPid s.pid_of s.next s.processes
    → find pid s.processes ≡ some q
    → has pid (keys s.round) ≡ false
reused-absent (polled k p returncode) pid q s f (e, lt, n) a found =
    ground (arith, find-AllPid s.pid_of s.next pid q s.processes)
reused-absent waiting pid q s f h a found = absurd f
reused-absent polling pid q s f h a found = absurd f
reused-absent (telling p returncode) pid q s f h a found = absurd f

free-absent :
    (pid : ℕ) (s : Reaper)
    → IsSound s
    → IsFree pid s.phase (find pid s.processes)
    → has pid (keys s.round) ≡ false
free-absent pid s h f = elim (Option-cases (find pid s.processes)) [
  | inl e ↦ AllWatched-absent s.pid_of pid s.processes s.round e h.round_watched
  | inr (q, e) ↦ reused-absent s.phase pid q s (rw e at f) h.phase_fits h.pids e
]

-- A new process takes no other's place.
register-watched :
    (pid p : ℕ) (thread : Result (Unit {0})) (s : Reaper)
    → IsSound s
    → IsFree pid s.phase (find pid s.processes)
    → (in_hand p s.phase || is_watched p (register pid thread s))
      ≡ (if p == s.next then true else in_hand p s.phase || is_watched p s)
unfolding register
register-watched pid p thread s h f = elim (Option-cases (find pid s.processes)) [
  | inl e ↦
      ground
        (arith, find-put pid (s.pid_of p) s.next s.processes, find-put pid pid s.next s.processes)
  | inr (q, e) ↦
      let mine = free-in_hand s.phase pid q (rw e at f) in
      ground (
        arith,
        mine,
        find-put pid (s.pid_of p) s.next s.processes,
        find-put pid pid s.next s.processes,
      )
]

register_fits :
    (phase : Phase) (pid : ℕ) (thread : Result (Unit {0})) (s : Reaper)
    → PhaseFits phase s
    → PhaseFits phase (register pid thread s)
unfolding register
register_fits waiting pid thread s h = tt
register_fits polling pid thread s h = tt
register_fits (polled k p returncode) pid thread s h = ground arith
register_fits (telling p returncode) pid thread s h =
    ground (arith, find-put pid (s.pid_of p) s.next s.processes)

register-IsSound :
    (pid : ℕ) (thread : Result (Unit {0})) (s : Reaper)
    → IsSound s
    → IsFree pid s.phase (find pid s.processes)
    → IsSound (register pid thread s)
unfolding register
register-IsSound pid thread s h f = record {
  once = λ p.
      unfold register in
      ground (arith, h.once p, h.once s.next, register-watched pid p thread s h f);
  pids = AllPid-put s.pid_of s.next pid s.processes h.pids;
  keys_distinct = Distinct-keys-put pid s.next s.processes h.keys_distinct;
  round_distinct = h.round_distinct;
  round_watched =
      AllWatched-put s.pid_of s.next pid s.processes s.round (free-absent pid s h f) h.pids
        h.round_watched;
  phase_fits = unfold register in register_fits s.phase pid thread s h.phase_fits;
  one_thread = ground (arith, h.one_thread);
}

begin_round-IsSound : (s : Reaper) → IsSound s → is_waiting s.phase ≡ true → IsSound (begin_round s)
unfolding begin_round
begin_round-IsSound s h w = record {
  once = λ p. ground (arith, h.once p);
  pids = h.pids;
  keys_distinct = h.keys_distinct;
  round_distinct = h.keys_distinct;
  round_watched = AllWatched-self s.pid_of s.next s.processes h.pids h.keys_distinct;
  phase_fits = tt;
  one_thread = h.one_thread;
}

end_round-IsSound : (s : Reaper) → IsSound s → is_polling s.phase ≡ true → IsSound (end_round s)
unfolding end_round
end_round-IsSound s h w = record {
  once = λ p. ground (arith, h.once p);
  pids = h.pids;
  keys_distinct = h.keys_distinct;
  round_distinct = h.round_distinct;
  round_watched = h.round_watched;
  phase_fits = tt;
  one_thread = h.one_thread;
}

still_polling : (phase : Phase) (s s' : Reaper) → is_polling phase ≡ true → PhaseFits phase s'
still_polling polling s s' w = tt
still_polling waiting s s' w = tt
still_polling (polled k p returncode) s s' w = cc
still_polling (telling p returncode) s s' w = cc

poll_first-IsSound :
    (round : List (ℕ × ℕ)) (answer : Option ℕ) (s : Reaper)
    → s.round ≡ round
    → IsSound s
    → is_polling s.phase ≡ true
    → IsSound (poll_first round answer s)
poll_first-IsSound [] answer s e h w = h
poll_first-IsSound ((pid, q) ∷ rest) none s e h w =
    let distinct : Distinct (keys ((pid, q) ∷ rest)) =
      subst (λ r. Distinct (keys r)) e h.round_distinct in
    let watched : AllWatched s.pid_of s.processes ((pid, q) ∷ rest) =
      subst (λ r. AllWatched s.pid_of s.processes r) e h.round_watched in
    record {
      once = h.once;
      pids = h.pids;
      keys_distinct = h.keys_distinct;
      round_distinct = distinct.1;
      round_watched = watched.2;
      phase_fits = still_polling s.phase s (record s { round = rest }) w;
      one_thread = h.one_thread;
    }
poll_first-IsSound ((pid, q) ∷ rest) (some returncode) s e h w =
    let distinct : Distinct (keys ((pid, q) ∷ rest)) =
      subst (λ r. Distinct (keys r)) e h.round_distinct in
    let watched : AllWatched s.pid_of s.processes ((pid, q) ∷ rest) =
      subst (λ r. AllWatched s.pid_of s.processes r) e h.round_watched in
    record {
      once = λ p. ground (arith, h.once p, watched, w);
      pids = h.pids;
      keys_distinct = h.keys_distinct;
      round_distinct = distinct.1;
      round_watched = watched.2;
      phase_fits = (
        watched.0,
        (find-AllPid s.pid_of s.next pid q s.processes h.pids watched.1).1,
        distinct.0,
      );
      one_thread = h.one_thread;
    }

drop_polled-IsSound :
    (phase : Phase) (s : Reaper)
    → s.phase ≡ phase
    → PhaseFits phase s
    → IsSound s
    → IsSound (drop_polled phase s)
drop_polled-IsSound waiting s e f h = h
drop_polled-IsSound polling s e f h = h
drop_polled-IsSound (telling p returncode) s e f h = h
drop_polled-IsSound (polled pid q returncode) s e (own, lt, n) h =
    elim (Bool-cases (is_process (find pid s.processes) q)) [
      | inl still ↦ rw still (record {
        once = λ p. ground (arith, h.once p, e, still, find-remove pid (s.pid_of p) s.processes);
        pids = AllPid-remove s.pid_of s.next pid s.processes h.pids;
        keys_distinct = Distinct-keys-remove pid s.processes h.keys_distinct;
        round_distinct = h.round_distinct;
        round_watched = AllWatched-remove s.pid_of pid s.processes s.round n h.round_watched;
        phase_fits = (ground (arith, find-remove pid (s.pid_of q) s.processes), lt);
        one_thread = h.one_thread;
      })
      | inr gone ↦ rw gone (record {
        once = λ p. ground (arith, h.once p, e);
        pids = h.pids;
        keys_distinct = h.keys_distinct;
        round_distinct = h.round_distinct;
        round_watched = h.round_watched;
        phase_fits = (ground arith, lt);
        one_thread = h.one_thread;
      })
    ]

tell_polled-IsSound :
    (phase : Phase) (s : Reaper)
    → s.phase ≡ phase
    → PhaseFits phase s
    → IsSound s
    → IsSound (tell_polled phase s)
tell_polled-IsSound waiting s e f h = h
tell_polled-IsSound polling s e f h = h
tell_polled-IsSound (polled pid p returncode) s e f h = h
tell_polled-IsSound (telling q returncode) s e (unwatched, lt) h = record {
  once = λ p. ground (arith, h.once p, e, unwatched);
  pids = h.pids;
  keys_distinct = h.keys_distinct;
  round_distinct = h.round_distinct;
  round_watched = h.round_watched;
  phase_fits = tt;
  one_thread = h.one_thread;
}

Step-IsSound : {s t : Reaper} → Step s t → IsSound s → IsSound t
unfolding poll delete announce
Step-IsSound {s} (registers pid thread f) h = register-IsSound pid thread s h f
Step-IsSound {s} (begins on w more) h = begin_round-IsSound s h w
Step-IsSound {s} (polls answer w) h = poll_first-IsSound s.round answer s refl h w
Step-IsSound {s} deletes h = drop_polled-IsSound s.phase s refl h.phase_fits h
Step-IsSound {s} tells h = tell_polled-IsSound s.phase s refl h.phase_fits h
Step-IsSound {s} (ends w over) h = end_round-IsSound s h w

pub Reach-IsSound : {s : Reaper} → Reach s → IsSound s
Reach-IsSound start = new_reaper-IsSound
Reach-IsSound (later r st) = Step-IsSound st (Reach-IsSound r)

-- In every state that the reaper can reach while `register` comes at any time, with a pid that no watched
-- process has, or only the one that the thread has just polled to its end: a next call of `register`
-- whose `Thread.start` does not fail leaves one thread, and one whose `Thread.start` fails leaves those that
-- there were; and each process that was registered is watched, in the thread's hand, or had its exit
-- handed over, in one of these ways and handed over once.
pub exits_once :
    {s : Reaper} (p pid : ℕ) (e : Exception)
    → Reach s
    → ((register pid (ok tt) s).threads ≡ 1)
      × ((register pid (ok tt) s).started ≡ true)
      × ((register pid (err e) s).threads ≡ s.threads)
      × (s.threads ≡ one_if s.started)
      × (one_if (in_hand p s.phase || is_watched p s) + told p s.exits ≡ one_if (ltb p s.next))
unfolding register
exits_once p pid e r =
    let h = Reach-IsSound r in
    (ground (arith, h.one_thread), ground arith, ground arith, h.one_thread, h.once p)
