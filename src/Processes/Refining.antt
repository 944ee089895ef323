-- ===== src/Processes/Refining.antt =====
-- The reaper as an implementation of what it promises.
use zuvloop.Processes.Steps.{
  is_waiting, is_polling, Reach, Step, told, registers, begins, polls, deletes, tells, ends,
}
use zuvloop.Processes.Reaping.{Reach-IsSound, IsSound}
use zuvloop.Processes.Reaper.{
  announce, delete, polling, waiting, poll, end_round, poll_first, telling, begin_round, polled,
  drop_polled, tell_polled, Reaper, Phase, register,
}
use mathlib.Core.Path.{subst}
use zuvloop.Base.{refl, ℕ, ◌+◌, ◌<◌, ◌≡◌, true, Option, none, some, List, [], ◌∷◌, arith}
use zuvloop.Processes.Watching.{find-AllPid, AllWatched}

-- How many children were registered, the one whose end was seen and its return code, and the exits handed
-- over.
pub record Children : Type 0 where
  pub count : ℕ
  pub ended : Option (ℕ × ℕ)
  pub exits : List (ℕ × ℕ)

-- A child starts; the end of a child that was not told is seen, when there is no other to tell; or what was
-- seen is told.
pub data Change (c c' : Children) : Type 0 where
  unchanged : c' ≡ c → Change c c'
  starts : c' ≡ record c { count = c.count + 1 } → Change c c'
  sees :
      (p returncode : ℕ)
      → c.ended ≡ none
      → p < c.count
      → told p c.exits ≡ 0
      → c' ≡ record c { ended = some (p, returncode) }
      → Change c c'
  hands_over :
      (p returncode : ℕ)
      → c.ended ≡ some (p, returncode)
      → c' ≡ record c { ended = none; exits = (p, returncode) ∷ c.exits }
      → Change c c'

abbrev pub ended_in : Phase → Option (ℕ × ℕ)
ended_in waiting = none
ended_in polling = none
ended_in (polled pid p returncode) = some (p, returncode)
ended_in (telling p returncode) = some (p, returncode)

abbrev pub children : Reaper → Children
children s = record { count = s.next; ended = ended_in s.phase; exits = s.exits }

waiting-ended : (phase : Phase) → is_waiting phase ≡ true → ended_in phase ≡ none
waiting-ended waiting w = refl
waiting-ended polling w = refl
waiting-ended (polled k p r) w = cc
waiting-ended (telling p r) w = cc

polling-ended : (phase : Phase) → is_polling phase ≡ true → ended_in phase ≡ none
polling-ended waiting w = refl
polling-ended polling w = refl
polling-ended (polled k p r) w = cc
polling-ended (telling p r) w = cc

poll_first-Change :
    (round : List (ℕ × ℕ)) (answer : Option ℕ) (s : Reaper)
    → s.round ≡ round
    → IsSound s
    → is_polling s.phase ≡ true
    → Change (children s) (children (poll_first round answer s))
poll_first-Change [] answer s e h w = unchanged refl
poll_first-Change ((pid, q) ∷ rest) none s e h w = unchanged refl
poll_first-Change ((pid, q) ∷ rest) (some returncode) s e h w =
    let watched : AllWatched s.pid_of s.processes ((pid, q) ∷ rest) =
      subst (λ r. AllWatched s.pid_of s.processes r) e h.round_watched in
    let own = find-AllPid s.pid_of s.next pid q s.processes h.pids watched.1 in
    sees q returncode (polling-ended s.phase w) own.1 (ground (arith, h.once q, own, watched)) refl

drop_polled-Change :
    (phase : Phase) (s : Reaper)
    → s.phase ≡ phase
    → Change (children s) (children (drop_polled phase s))
drop_polled-Change waiting s e = unchanged refl
drop_polled-Change polling s e = unchanged refl
drop_polled-Change (telling p returncode) s e = unchanged refl
drop_polled-Change (polled pid p returncode) s e = unchanged (ground (arith, e))

tell_polled-Change :
    (phase : Phase) (s : Reaper)
    → s.phase ≡ phase
    → Change (children s) (children (tell_polled phase s))
tell_polled-Change waiting s e = unchanged refl
tell_polled-Change polling s e = unchanged refl
tell_polled-Change (polled pid p returncode) s e = unchanged refl
tell_polled-Change (telling p returncode) s e =
    hands_over p returncode (ground (arith, e)) (ground (arith, e))

-- Whatever the thread or a caller of `register` does in a reachable state is, for who only sees
-- the registered children and the exits that were handed over, one of three things or nothing: a child starts; the end of a
-- child that was not told before is seen while none is in hand; or the end that was seen is told, with the
-- return code that was polled.
pub reaper_refines : {s t : Reaper} → Reach s → Step s t → Change (children s) (children t)
unfolding register begin_round end_round poll delete announce
reaper_refines {s} r (registers pid thread f) = starts refl
reaper_refines {s} r (begins on w more) = unchanged (ground (arith, waiting-ended s.phase w))
reaper_refines {s} r (polls answer w) = poll_first-Change s.round answer s refl (Reach-IsSound r) w
reaper_refines {s} r deletes = drop_polled-Change s.phase s refl
reaper_refines {s} r tells = tell_polled-Change s.phase s refl
reaper_refines {s} r (ends w over) = unchanged (ground (arith, polling-ended s.phase w))
