-- ===== src/Server/Accept.antt =====
-- The way of a connection into the server: `_start_serving` and `_accept` of `_server.py`, and
-- `_accept_connection`, `_accept_tls` and `_attach_transport` of `_connect.py`. What the system,
-- libuv and the protocol factory answer is an argument.
use zuvloop.Base.{
  ℕ, zero, suc, ◌+◌, Bool, true, false, none, some, List, [], ◌∷◌, ◌==◌, has, erase, discard,
  if◌then◌else◌, Exception, os_error, connection, timeout, Result, ok, err, is_exception,
  is_not_ready, is_os_error, ◌||◌,
}
use zuvloop.Base.Int.{pos, ◌+ℤ◌}
use zuvloop.Server.Defs.{State, detach, attach, close_transport, abort}

-- What setting up a connection meets: the protocol factory, `_make_transport` or
-- `_adopt_socket_view` (or what follows it) raises, or all goes well.
pub data Setup : Type 0 where
  factory_raises make_raises adopt_raises : Exception → Setup
  attached : Setup

-- `_attach_transport` with a server, from where the transport is made. Its failure after that
-- detaches the socket object and aborts the transport, whose close callback is still to come.
unfoldable pub attach_transport : Setup → ℕ → State → Result (Unit {0}) × State
attach_transport (Setup.factory_raises e) c s = (err e, s)
attach_transport (Setup.make_raises e) c s = (err e, s)
attach_transport (Setup.adopt_raises e) c s =
    let made = record s { live = c ∷ s.live; open_handles = c ∷ s.open_handles } in
    (err e, abort c (record made { views = discard c made.views }))
attach_transport Setup.attached c s =
    (ok tt, attach c (record s { live = c ∷ s.live; open_handles = c ∷ s.open_handles }))

-- `_accept_connection`: a server without TLS makes the transport at once, one with TLS starts a task.
unfoldable pub accept_connection : Setup → ℕ → State → Result (Unit {0}) × State
accept_connection setup c s =
    if s.has_ssl then (ok tt, record s { tasks = c ∷ s.tasks }) else attach_transport setup c s

-- The `except` of `_accept`: before adoption the socket and the count are the server's.
unfoldable pub disown : Exception → ℕ → State → Result (Unit {0}) × State
disown e c s =
    if has c s.views
    then (err e, detach none (record s { views = discard c s.views }))
    else (err e, s)

-- What `sock.accept()` answers: a connection, with what its setup meets, or an exception.
pub data Arrival : Type 0 where
  connected : Setup → Arrival
  refused : Exception → Arrival

-- EMFILE, ENFILE, ENOBUFS and ENOMEM are the platform's numbers.
pub record Errnos : Type 0 where
  pub emfile : ℕ
  pub enfile : ℕ
  pub enobufs : ℕ
  pub enomem : ℕ

unfoldable pub is_exhausted : Errnos → Exception → Bool
is_exhausted n (os_error _ number) =
    number == n.emfile || number == n.enfile || number == n.enobufs || number == n.enomem
is_exhausted n _ = false

-- The `except` clauses round `sock.accept()`. What is no `OSError` leaves `_accept`.
unfoldable pub refuse : Errnos → ℕ → Exception → State → Result (Unit {0}) × State
refuse n sock e s =
    if is_not_ready e
    then (ok tt, s)
    else if is_os_error e
    then (
      ok tt,
      (if is_exhausted n e
          then record s {
            readers = discard sock s.readers;
            reports = e ∷ s.reports;
            retries = s.retries + 1;
          }
          else record s { reports = e ∷ s.reports }),
    )
    else (err e, s)

-- One accepted connection: `_active += 1`, its setup, and the clean-up if that raises.
unfoldable pub take_in : Setup → State → Result (Unit {0}) × State
take_in setup s =
    let c = s.next_connection in
    let (r, s') =
      accept_connection setup c
        (record s { views = c ∷ s.views; active = s.active +ℤ pos 1; next_connection = c + 1 }) in
    elim r [ ok _ ↦ (ok tt, s') | err e ↦ disown e c s' ]

-- The loop of `_accept`, with the rounds that are left. With no further answer the loop is between
-- two calls of `accept`.
unfoldable pub accept_rounds : Errnos → ℕ → ℕ → List Arrival → State → Result (Unit {0}) × State
accept_rounds n sock zero arrivals s = (ok tt, s)
accept_rounds n sock (suc rounds) [] s = (ok tt, s)
accept_rounds n sock (suc rounds) (Arrival.refused e ∷ arrivals) s = refuse n sock e s
accept_rounds n sock (suc rounds) (Arrival.connected setup ∷ arrivals) s =
    let (r, s') = take_in setup s in
    let rest = accept_rounds n sock rounds arrivals s' in
    elim r [ ok _ ↦ rest | err e ↦ (err e, s') ]

-- `_accept`
unfoldable pub accept : Errnos → ℕ → List Arrival → State → Result (Unit {0}) × State
accept n sock arrivals s = accept_rounds n sock s.backlog arrivals s

-- How a TLS task ends: an exception before the transport is made or while it is adopted, an exception
-- of the handshake with so much in the transport's write buffer, or success.
pub data Handshake : Type 0 where
  setup_raises adopt_raises : Exception → Handshake
  handshake_raises : Exception → ℕ → Handshake
  established : Handshake

-- `isinstance(exc, (ConnectionError, TimeoutError))`
abbrev pub is_peer_failure : Exception → Bool
is_peer_failure (os_error connection _) = true
is_peer_failure (os_error timeout _) = true
is_peer_failure _ = false

-- The two tests at the end of the `except` of `_accept_tls`.
unfoldable pub report : Exception → State → Result (Unit {0}) × State
report e s = if is_exception e then (ok tt, record s { reports = e ∷ s.reports }) else (err e, s)

-- The `except` of `_accept_tls`.
unfoldable pub tls_failed : Exception → ℕ → State → Result (Unit {0}) × State
tls_failed e c s =
    if has c s.views
    then report e (detach none (record s { views = discard c s.views }))
    else if is_peer_failure e
    then (ok tt, s)
    else report e s

-- `_wrap_socket` on behalf of a server: once the transport is made, the task no longer owns the
-- connection; a failed handshake closes the transport.
unfoldable pub wrap_accepted : Handshake → ℕ → State → Result (Unit {0}) × State
wrap_accepted (Handshake.setup_raises e) c s =
    attach_transport (Setup.make_raises e) c (record s { tasks = erase c s.tasks })
wrap_accepted (Handshake.adopt_raises e) c s =
    attach_transport (Setup.adopt_raises e) c (record s { tasks = erase c s.tasks })
wrap_accepted (Handshake.handshake_raises e buffered) c s =
    let (_, s') = attach_transport Setup.attached c (record s { tasks = erase c s.tasks }) in
    (err e, close_transport buffered c s')
wrap_accepted Handshake.established c s =
    attach_transport Setup.attached c (record s { tasks = erase c s.tasks })

-- `_accept_tls`
unfoldable pub accept_tls : Handshake → ℕ → State → Result (Unit {0}) × State
accept_tls handshake c s =
    let (r, s') = wrap_accepted handshake c s in
    elim r [ ok _ ↦ (ok tt, s') | err e ↦ tls_failed e c s' ]

-- What `listen` and the loop's `add_reader` answer for each socket.
pub record Listening : Type 0 where
  pub listen : ℕ → Result (Unit {0})
  pub add_reader : ℕ → Result (Unit {0})

unfoldable pub listen_all : Listening → List ℕ → State → Result (Unit {0}) × State
listen_all w [] s = (ok tt, s)
listen_all w (sock ∷ socks) s =
    let rest = listen_all w socks (record s { listened = sock ∷ s.listened }) in
    elim (w.listen sock) [ ok _ ↦ rest | err e ↦ (err e, s) ]

unfoldable pub add_readers : Listening → List ℕ → State → Result (Unit {0}) × State
add_readers w [] s = (ok tt, s)
add_readers w (sock ∷ socks) s =
    let rest = add_readers w socks (record s { readers = sock ∷ discard sock s.readers }) in
    elim (w.add_reader sock) [ ok _ ↦ rest | err e ↦ (err e, s) ]

-- `_start_serving`
unfoldable pub start_serving : Listening → State → Result (Unit {0}) × State
start_serving w s = elim s.sockets [
  | none ↦ (ok tt, s)
  | some socks ↦
      let (r, s') =
        if s.serving then (ok tt, s) else listen_all w socks (record s { serving = true }) in
      elim r [ ok _ ↦ add_readers w socks s' | err e ↦ (err e, s') ]
]
