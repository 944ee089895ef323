-- ===== src/Server/Admission.antt =====
-- `_accept` and the transports' close callbacks keep the count of active connections.
use zuvloop.Base.{
  ℕ, zero, suc, ◌+◌, ◌≡◌, true, some, List, [], ◌∷◌, arith, has, erase, Exception, Result, ok, err,
  length-erase, Below-has, Below-suc, Below-erase, Within-cons, Apart-erase_right,
}
use zuvloop.Server.Counting.{
  Counts, Accounted, detach-Counts, accept_connection-Accounted, disown-Counts,
}
use zuvloop.Base.Int.{pos, ◌+ℤ◌}
use zuvloop.Server.Defs.{State, on_closed}
use zuvloop.Server.Accept.{
  Setup, accept_connection, disown, take_in, Errnos, refuse, Arrival, accept_rounds, accept,
}

take_in_end :
    (c : ℕ) (p : Result (Unit {0}) × State)
    → Accounted c p
    → Counts 0
        (elim p.0 as (λ _. Result (Unit {0}) × State) [
          | ok _ ↦ (ok tt, p.1)
          | err e ↦ disown e c p.1
        ]).1
take_in_end c (ok _, s) h = h
take_in_end c (err e, s) h = disown-Counts e c s h

-- An accepted connection is counted as long as something owns it, also if its setup raises.
pub take_in-Counts : (setup : Setup) (s : State) → Counts 0 s → Counts 0 (take_in setup s).1
unfolding take_in ◌+ℤ◌
take_in-Counts setup s h =
    let c = s.next_connection in
    let s' = record s {
      views = c ∷ s.views;
      active = s.active +ℤ pos 1;
      next_connection = c + 1;
    } in
    let h' : Counts 1 s' = ground (
      arith,
      Within-cons c s.tasks s.views,
      Below-suc c s.tasks,
      Below-suc c s.closing,
      Below-suc c s.live,
    ) in
    let outcome =
      accept_connection-Accounted c s' (Below-has c s.tasks h.tasks_below) (ground arith)
        (ground arith) setup (Below-has c s.closing h.closing_below)
        (Below-has c s.live h.live_below) h' in
    take_in_end c (accept_connection setup c s') outcome

pub refuse-Counts :
    (n : Errnos) (sock : ℕ) (e : Exception) (s : State)
    → Counts 0 s
    → Counts 0 (refuse n sock e s).1
unfolding refuse
refuse-Counts n sock e s h = ground arith

-- However many connections arrive, and however their setup ends, `_accept` keeps the count.
accept_rounds-Counts :
    (n : Errnos) (sock rounds : ℕ) (arrivals : List Arrival) (s : State)
    → Counts 0 s
    → Counts 0 (accept_rounds n sock rounds arrivals s).1
unfolding accept_rounds
accept_rounds-Counts n sock zero arrivals s h = h
accept_rounds-Counts n sock (suc rounds) [] s h = h
accept_rounds-Counts n sock (suc rounds) (Arrival.refused e ∷ arrivals) s h =
    refuse-Counts n sock e s h
accept_rounds-Counts n sock (suc rounds) (Arrival.connected setup ∷ arrivals) s h = ground (
  arith,
  take_in-Counts setup s h,
  accept_rounds-Counts n sock rounds arrivals (take_in setup s).1,
)

pub accept-Counts :
    (n : Errnos) (sock : ℕ) (arrivals : List Arrival) (s : State)
    → Counts 0 s
    → Counts 0 (accept n sock arrivals s).1
unfolding accept
accept-Counts n sock arrivals s h = accept_rounds-Counts n sock s.backlog arrivals s h

-- The close callback of a live transport takes the transport and the count off together.
pub on_closed-Counts :
    (c : ℕ) (s : State) → has c s.live ≡ true → Counts 0 s → Counts 0 (on_closed c s)
unfolding on_closed
on_closed-Counts c s alive h =
    let s' = record s { live = erase c s.live } in
    detach-Counts (some c) s' (
      ground (
        arith,
        length-erase c s.live,
        Apart-erase_right c s.tasks s.live,
        Below-erase s.next_connection c s.live,
      ))
