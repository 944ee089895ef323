-- ===== src/Server/Waking.antt =====
-- When a server counts as closed, and which futures `wait_closed` callers wait for: the two
-- invariants behind `_wakeup`.
use zuvloop.Base.{
  ℕ, ◌≡◌, true, false, ◌&&◌, ◌||◌, Option, none, some, List, [], ◌∷◌, ◌++◌, arith, has, erase,
  Distinct, Below, ◌==◌, if◌then◌else◌, Bool-cases, inl, inr, has-erase_ne, has-erase_self,
  has-append, discard,
}
use zuvloop.Base.Int.{pos, ◌-ℤ◌}
use zuvloop.Server.Defs.{
  State, Status, pending, cancelled, finished, is_done, is_zero, is_closed, update, settle,
  or_empty, wakeup, wake_if_drained, detach,
}

-- What most operations leave alone.
pub record Frame (s t : State) : Type 0 where
  pub same_waiters : t.waiters ≡ s.waiters
  pub same_sockets : t.sockets ≡ s.sockets
  pub same_active : t.active ≡ s.active
  pub same_status : t.status ≡ s.status
  pub same_waiting : t.waiting ≡ s.waiting
  pub same_next : t.next_future ≡ s.next_future

-- `_waiters` is None exactly if the server is closed and its last connection is gone.
abbrev pub IsDrained : State → Type 0
IsDrained s = is_closed s.waiters ≡ (is_closed s.sockets && is_zero s.active)

pub Frame-IsDrained : (s t : State) → Frame s t → IsDrained s → IsDrained t
Frame-IsDrained s t f h = rw (f.same_waiters, f.same_sockets, f.same_active) h

pub detach-IsDrained :
    (o : Option ℕ) (s : State) → is_closed s.waiters ≡ false → IsDrained (detach o s)
unfolding detach wake_if_drained wakeup
detach-IsDrained none s h = ground arith
detach-IsDrained (some c) s h = ground arith

-- Every awaited future is done, or will be reached by `_wakeup`.
abbrev pub Parked : List ℕ → (ℕ → Status) → List ℕ → Type 0
Parked [] f ws = Unit
Parked (w ∷ r) f ws = ((is_done (f w) || has w ws) ≡ true) × Parked r f ws

pub record IsParked (s : State) : Type 0 where
  pub parked : Parked s.waiting s.status (or_empty s.waiters)
  pub distinct : Distinct s.waiting
  pub below : Below s.next_future s.waiting

pub settle_keeps :
    (ws : List ℕ) (f : ℕ → Status) (w : ℕ) → is_done (f w) ≡ true → is_done (settle ws f w) ≡ true
unfolding settle
settle_keeps [] f w h = h
settle_keeps (v ∷ ws) f w h =
    settle_keeps ws (if is_done (f v) then f else update f v finished) w (ground arith)

settle_reaches :
    (ws : List ℕ) (f : ℕ → Status) (w : ℕ) → has w ws ≡ true → is_done (settle ws f w) ≡ true
unfolding settle
settle_reaches [] f w h = cc
settle_reaches (v ∷ ws) f w h =
    let g = if is_done (f v) then f else update f v finished in
    elim (Bool-cases (w == v)) [
      | inl here ↦ settle_keeps ws g w (ground arith)
      | inr later ↦ settle_reaches ws g w (ground arith)
    ]

Parked-settle : (r ws : List ℕ) (f : ℕ → Status) → Parked r f ws → Parked r (settle ws f) []
Parked-settle [] ws f h = tt
Parked-settle (w ∷ r) ws f h =
    (ground (arith, settle_keeps ws f w, settle_reaches ws f w), Parked-settle r ws f h.1)

pub Parked-cancelled :
    (r ws : List ℕ) (f : ℕ → Status) (i : ℕ) → Parked r f ws → Parked r (update f i cancelled) ws
Parked-cancelled [] ws f i h = tt
Parked-cancelled (w ∷ r) ws f i h = (ground arith, Parked-cancelled r ws f i h.1)

pub Parked-fresh :
    (r ws : List ℕ) (f : ℕ → Status) (n : ℕ)
    → Below n r
    → Parked r f ws
    → Parked r (update f n pending) ws
Parked-fresh [] ws f n b h = tt
Parked-fresh (w ∷ r) ws f n b h = (ground arith, Parked-fresh r ws f n b.1 h.1)

pub Parked-append :
    (r ws : List ℕ) (f : ℕ → Status) (n : ℕ) → Parked r f ws → Parked r f (ws ++ (n ∷ []))
Parked-append [] ws f n h = tt
Parked-append (w ∷ r) ws f n h =
    (ground (arith, has-append w ws (n ∷ [])), Parked-append r ws f n h.1)

Parked-erase_right :
    (r ws : List ℕ) (f : ℕ → Status) (n : ℕ)
    → has n r ≡ false
    → Parked r f ws
    → Parked r f (erase n ws)
Parked-erase_right [] ws f n e h = tt
Parked-erase_right (w ∷ r) ws f n e h =
    (ground (arith, has-erase_ne w n ws), Parked-erase_right r ws f n (ground arith) h.1)

Parked-erase : (r ws : List ℕ) (f : ℕ → Status) (n : ℕ) → Parked r f ws → Parked (erase n r) f ws
Parked-erase [] ws f n h = tt
Parked-erase (w ∷ r) ws f n h = ground (arith, Parked-erase r ws f n)

pub Parked-leave :
    (r ws : List ℕ) (f : ℕ → Status) (n : ℕ)
    → Distinct r
    → Parked r f ws
    → Parked (erase n r) f (erase n ws)
Parked-leave r ws f n d h =
    Parked-erase_right (erase n r) ws f n (has-erase_self n r d) (Parked-erase r ws f n h)

pub wakeup-IsParked : (s : State) → IsParked s → IsParked (wakeup s)
unfolding wakeup
wakeup-IsParked s h = record {
  parked = Parked-settle s.waiting (or_empty s.waiters) s.status h.parked;
  distinct = h.distinct;
  below = h.below;
}

pub Frame-IsParked : (s t : State) → Frame s t → IsParked s → IsParked t
Frame-IsParked s t f h = record {
  parked = rw (f.same_waiting, f.same_status, f.same_waiters) h.parked;
  distinct = rw f.same_waiting h.distinct;
  below = rw (f.same_next, f.same_waiting) h.below;
}

wake_if_drained-IsParked : (s : State) → IsParked s → IsParked (wake_if_drained s)
unfolding wake_if_drained
wake_if_drained-IsParked s h = ground (arith, wakeup-IsParked s h)

pub detach-IsParked : (o : Option ℕ) (s : State) → IsParked s → IsParked (detach o s)
unfolding detach
detach-IsParked none s h =
    wake_if_drained-IsParked (record s { active = s.active -ℤ pos 1 }) (ground arith)
detach-IsParked (some c) s h =
    wake_if_drained-IsParked
      (record s { transports = discard c s.transports; active = s.active -ℤ pos 1 }) (ground arith)
