-- ===== src/Server/Rounds.antt =====
-- What one run of `_accept` does: how many connections it takes in, and how it backs off.
use zuvloop.Server.Accept.{
  start_serving, Setup, attach_transport, accept_connection, disown, take_in, Errnos, is_exhausted,
  refuse, Arrival, accept_rounds, accept, Listening, add_readers,
}
use zuvloop.Server.Defs.{wake_if_drained, abort, State, wakeup, detach, attach, shutdown_and_close}
use zuvloop.Base.{
  refl, ℕ, zero, suc, ◌+◌, ◌≤◌, ◌≡◌, true, false, Option, none, some, List, [], ◌∷◌, arith, has,
  discard, ◌⊎◌, Exception, os_error, ok, has-discard_self, has-discard_ne, is_not_ready,
}
use zuvloop.Base.Int.{pos, ◌+ℤ◌}

-- `_next_connection` counts the connections taken in.
abort-connection : (c : ℕ) (s : State) → (abort c s).next_connection ≡ s.next_connection
unfolding abort shutdown_and_close
abort-connection c s = ground arith

detach-connection : (o : Option ℕ) (s : State) → (detach o s).next_connection ≡ s.next_connection
unfolding detach wake_if_drained wakeup
detach-connection none s = ground arith
detach-connection (some c) s = ground arith

accept_connection-connection :
    (setup : Setup) (c : ℕ) (s : State)
    → (accept_connection setup c s).1.next_connection ≡ s.next_connection
unfolding accept_connection attach_transport attach
accept_connection-connection (Setup.factory_raises e) c s = ground arith
accept_connection-connection (Setup.make_raises e) c s = ground arith
accept_connection-connection (Setup.adopt_raises e) c s =
    let made = record s {
      live = c ∷ s.live;
      open_handles = c ∷ s.open_handles;
      views = discard c s.views;
    } in
    ground (arith, abort-connection c made)
accept_connection-connection Setup.attached c s = ground arith

take_in-connection :
    (setup : Setup) (s : State) → (take_in setup s).1.next_connection ≡ s.next_connection + 1
unfolding take_in disown
take_in-connection setup s =
    let c = s.next_connection in
    let s' = record s {
      views = c ∷ s.views;
      active = s.active +ℤ pos 1;
      next_connection = c + 1;
    } in
    let t = (accept_connection setup c s').1 in
    ground (
      arith,
      accept_connection-connection setup c s',
      detach-connection none (record t { views = discard c t.views }),
    )

refuse-connection :
    (n : Errnos) (sock : ℕ) (e : Exception) (s : State)
    → (refuse n sock e s).1.next_connection ≡ s.next_connection
unfolding refuse
refuse-connection n sock e s = ground arith

accept_rounds-connection :
    (n : Errnos) (sock rounds : ℕ) (arrivals : List Arrival) (s : State)
    → (accept_rounds n sock rounds arrivals s).1.next_connection ≤ s.next_connection + rounds
unfolding accept_rounds
accept_rounds-connection n sock zero arrivals s = omega arith
accept_rounds-connection n sock (suc rounds) [] s = omega arith
accept_rounds-connection n sock (suc rounds) (Arrival.refused e ∷ arrivals) s =
    omega (arith, refuse-connection n sock e s)
accept_rounds-connection n sock (suc rounds) (Arrival.connected setup ∷ arrivals) s = ground (
  arith,
  take_in-connection setup s,
  accept_rounds-connection n sock rounds arrivals (take_in setup s).1,
)

-- One run of `_accept` takes in at most `_backlog` connections.
pub accept_bounded :
    (n : Errnos) (sock : ℕ) (arrivals : List Arrival) (s : State)
    → (accept n sock arrivals s).1.next_connection ≤ s.next_connection + s.backlog
unfolding accept
accept_bounded n sock arrivals s = accept_rounds-connection n sock s.backlog arrivals s

refuse-exhausted :
    (n : Errnos) (sock : ℕ) (e : Exception) (s : State)
    → is_exhausted n e ≡ true
    → is_not_ready e ≡ false
    → let s' = (refuse n sock e s).1 in
      (has sock s'.readers ≡ false)
      × (s'.retries ≡ s.retries + 1)
      × (s'.active ≡ s.active)
      × ((s'.sockets ≡ s.sockets) × (s'.serving ≡ s.serving) × (s'.listened ≡ s.listened))
unfolding refuse is_exhausted
refuse-exhausted n sock (os_error kind number) s out ready =
    ground (arith, has-discard_self sock s.readers)
refuse-exhausted n sock e s out ready = ground arith

add_readers-has :
    (w : Listening) (socks : List ℕ) (sock : ℕ) (s : State)
    → (add_readers w socks s).0 ≡ ok tt
    → has sock socks ≡ true ⊎ has sock s.readers ≡ true
    → has sock (add_readers w socks s).1.readers ≡ true
unfolding add_readers
add_readers-has w [] sock s e h = ground arith
add_readers-has w (x ∷ socks) sock s e h =
    let s' = record s { readers = x ∷ discard x s.readers } in
    ground (arith, has-discard_ne sock x s.readers, add_readers-has w socks sock s')

add_readers-listened :
    (w : Listening) (socks : List ℕ) (s : State) → (add_readers w socks s).1.listened ≡ s.listened
unfolding add_readers
add_readers-listened w [] s = refl
add_readers-listened w (x ∷ socks) s =
    let s' = record s { readers = x ∷ discard x s.readers } in
    ground (arith, add_readers-listened w socks s')

-- While the server is serving and open, an `accept` that finds the system out of resources takes the
-- socket's accept callback off, counts one more retry and changes no connection's count; when the
-- scheduled `_start_serving` succeeds, the callback is back, and `listen` was not called again.
pub accept_retry :
    (n : Errnos) (w : Listening) (socks : List ℕ) (sock : ℕ) (e : Exception) (s : State)
    → s.sockets ≡ some socks
    → has sock socks ≡ true
    → s.serving ≡ true
    → is_exhausted n e ≡ true
    → is_not_ready e ≡ false
    → (start_serving w (refuse n sock e s).1).0 ≡ ok tt
    → let s' = (refuse n sock e s).1 in
      let s'' = (start_serving w s').1 in
      (has sock s'.readers ≡ false)
      × (s'.retries ≡ s.retries + 1)
      × (s'.active ≡ s.active)
      × (has sock s''.readers ≡ true)
      × (s''.listened ≡ s.listened)
unfolding start_serving
accept_retry n w socks sock e s open_ member serving out ready started =
    let s' = (refuse n sock e s).1 in
    let (off, retried, same, kept) = refuse-exhausted n sock e s out ready in
    ground (
      arith,
      off,
      retried,
      same,
      kept,
      add_readers-has w socks sock s',
      add_readers-listened w socks s',
    )
