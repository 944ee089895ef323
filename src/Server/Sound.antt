-- ===== src/Server/Sound.antt =====
-- The invariant of a server: every operation keeps it.
use zuvloop.Base.{
  ℕ, ◌+◌, ◌≡◌, true, false, none, some, ◌∷◌, arith, has, erase, discard, Bool-cases, inl, inr,
  Exception, Result, ok, err, length-erase,
}
use zuvloop.Base.Int.{pos, ◌+ℤ◌}
use zuvloop.Server.Defs.{State, is_closed, detach, on_closed}
use zuvloop.Server.Accept.{
  Setup, accept_connection, disown, take_in, Handshake, tls_failed, report, wrap_accepted,
  accept_tls,
}
use zuvloop.Server.Counting.{Counts}
use zuvloop.Server.Frames.{accept_connection-Frame, wrap_accepted-Frame}
use zuvloop.Server.Waking.{
  Frame, IsDrained, Frame-IsDrained, detach-IsDrained, IsParked, Frame-IsParked, detach-IsParked,
}

pub record IsSound (s : State) : Type 0 where
  pub counts : Counts 0 s
  pub drained : IsDrained s
  pub parked : IsParked s

-- What the server's failure handlers have to keep: both detach or leave it alone.
abbrev pub IsWakeable : State → Type 0
IsWakeable s = IsDrained s × IsParked s

disown-IsWakeable :
    (e : Exception) (c : ℕ) (s : State)
    → is_closed s.waiters ≡ false
    → IsWakeable s
    → IsWakeable (disown e c s).1
unfolding disown
disown-IsWakeable e c s awake h =
    let s' = record s { views = discard c s.views } in
    ground (arith, detach-IsDrained none s' awake, detach-IsParked none s')

report-IsWakeable : (e : Exception) (s : State) → IsWakeable s → IsWakeable (report e s).1
unfolding report
report-IsWakeable e s h = ground arith

tls_failed-IsWakeable :
    (e : Exception) (c : ℕ) (s : State)
    → is_closed s.waiters ≡ false
    → IsWakeable s
    → IsWakeable (tls_failed e c s).1
unfolding tls_failed
tls_failed-IsWakeable e c s awake h =
    let s' = record s { views = discard c s.views } in
    elim (Bool-cases (has c s.views)) [
      | inl view ↦ rw view (
          report-IsWakeable e (detach none s')
            (detach-IsDrained none s' awake, detach-IsParked none s' (ground arith)))
      | inr gone ↦ rw gone (ground (arith, report-IsWakeable e s h))
    ]

Frame-IsWakeable : (s t : State) → Frame s t → IsWakeable s → IsWakeable t
Frame-IsWakeable s t f h = (Frame-IsDrained s t f h.0, Frame-IsParked s t f h.1)

pub take_in-IsWakeable :
    (setup : Setup) (s : State)
    → is_closed s.sockets ≡ false
    → IsWakeable s
    → IsWakeable (take_in setup s).1
unfolding take_in
take_in-IsWakeable setup s listening h =
    let c = s.next_connection in
    let s' = record s {
      views = c ∷ s.views;
      active = s.active +ℤ pos 1;
      next_connection = c + 1;
    } in
    let begun : IsWakeable s' = (ground arith, ground arith) in
    let awake : is_closed s'.waiters ≡ false = ground arith in
    let f = accept_connection-Frame setup c s' in
    finish c s' awake begun (accept_connection setup c s') f
  where
    finish :
        (c : ℕ) (s' : State)
        → is_closed s'.waiters ≡ false
        → IsWakeable s'
        → (p : Result (Unit {0}) × State) → Frame s' p.1
        → IsWakeable
            (elim p.0 as (λ _. Result (Unit {0}) × State) [
              | ok _ ↦ (ok tt, p.1)
              | err e ↦ disown e c p.1
            ]).1
    finish c s' awake begun (ok _, t) f = Frame-IsWakeable s' t f begun
    finish c s' awake begun (err e, t) f =
        disown-IsWakeable e c t (rw f.same_waiters awake) (Frame-IsWakeable s' t f begun)

pub accept_tls-IsWakeable :
    (handshake : Handshake) (c : ℕ) (s : State)
    → is_closed s.waiters ≡ false
    → IsWakeable s
    → IsWakeable (accept_tls handshake c s).1
unfolding accept_tls
accept_tls-IsWakeable handshake c s awake h =
    finish (wrap_accepted handshake c s) (wrap_accepted-Frame handshake c s)
  where
    finish :
        (p : Result (Unit {0}) × State)
        → Frame s p.1
        → IsWakeable
            (elim p.0 as (λ _. Result (Unit {0}) × State) [
              | ok _ ↦ (ok tt, p.1)
              | err e ↦ tls_failed e c p.1
            ]).1
    finish (ok _, t) f = Frame-IsWakeable s t f h
    finish (err e, t) f =
        tls_failed-IsWakeable e c t (rw f.same_waiters awake) (Frame-IsWakeable s t f h)

pub on_closed-IsWakeable :
    (c : ℕ) (s : State) → is_closed s.waiters ≡ false → IsWakeable s → IsWakeable (on_closed c s)
unfolding on_closed
on_closed-IsWakeable c s awake h =
    let s' = record s { live = erase c s.live } in
    (detach-IsDrained (some c) s' awake, detach-IsParked (some c) s' (ground arith))

-- A server with a live transport or a TLS task has not woken its waiters.
pub awake_of_live :
    (c : ℕ) (s : State) → IsSound s → has c s.live ≡ true → is_closed s.waiters ≡ false
awake_of_live c s h live = ground (arith, length-erase c s.live)

pub awake_of_task :
    (c : ℕ) (s : State) → IsSound s → has c s.tasks ≡ true → is_closed s.waiters ≡ false
awake_of_task c s h owned = ground (arith, length-erase c s.tasks)
