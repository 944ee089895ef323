-- ===== src/Connect/Served.antt =====
-- Which sockets the calls that create a server leave open.
use zuvloop.Base.{
  inr, inl, Bool-cases, is_os_error, not, ◌>>◌, discard-absent, Below-has, if◌then◌else◌, is_some,
  refl, ℕ, ◌≡◌, ◌||◌, ◌&&◌, Bool, true, false, Option, none, some, List, [], ◌∷◌, arith, has, Below,
  Result, ok, err,
}
use zuvloop.Connect.Handing.{chosen-NoSocket, checked-NoSocket, NoSocket}
use zuvloop.Connect.Binding.{bind_tcp, Asked, Hosts, close_all}
use zuvloop.Connect.Serving.{
  has_host, identity, serve_path, create_unix_server, bind_path, unix_for, bound_path, serve_for,
  serve_bound, start_unix_server, serving, create_server, serve_new, Listener, Surroundings,
}
use zuvloop.Connect.Checks.{
  check_ssl_timeouts, check_server_ssl, choose, start_server, by_address, by_socket, Ssl, Target,
}
use zuvloop.Connect.Creating.{without_host}
use zuvloop.Connect.Listening.{bind_tcp_apart, bind_tcp_opened, given, has-close_all}
use zuvloop.Connect.Defs.{open_socket, Files}

-- The sockets that a call hands out with the server.
abbrev pub listens_on : Result Listener → List ℕ
listens_on (ok server) = server.sockets
listens_on (err e) = []

abbrev Keeps : ℕ → List ℕ → List ℕ → Result Listener × Files → Type 0
Keeps k lost base (r, f) = has k f.opened ≡ (has k (listens_on r) || (has k lost || has k base))

serving-Keeps :
    (k : ℕ) (base : List ℕ) (start : Bool) (answer : Result (Unit {0})) (server : Listener)
    (f : Files)
    → has k f.opened ≡ (has k server.sockets || has k base)
    → (has k server.sockets && has k base) ≡ false
    → Keeps k [] base (serving start answer server f)
serving-Keeps k base false answer server f o a = o
serving-Keeps k base true (ok u) server f o a = o
serving-Keeps k base true (err e) server f o a =
    ground (arith, has-close_all k server.sockets f, o, a)

serve_bound-Keeps :
    (k : ℕ) (base : List ℕ) (start : Bool) (answer : Result (Unit {0}))
    (end : Result (List ℕ) × Files)
    → has k end.1.opened ≡ (has k (given end.0) || has k base)
    → (has k (given end.0) && has k base) ≡ false
    → Keeps k [] base (serve_bound start answer end)
serve_bound-Keeps k base start answer (ok socks, f) o a =
    serving-Keeps k base start answer (record { sockets = socks; cleanup = none }) f o a
serve_bound-Keeps k base start answer (err e, f) o a = o

serve_for-Keeps :
    (k : ℕ) (target : Result Target) (start : Bool) (answer : Result (Unit {0}))
    (bound : Result (List ℕ) × Files) (sock : ℕ) (f : Files)
    → NoSocket (without_host target)
    → has k bound.1.opened ≡ (has k (given bound.0) || has k f.opened)
    → (has k (given bound.0) && has k f.opened) ≡ false
    → Keeps k [] f.opened (serve_for target start answer bound sock f)
serve_for-Keeps k (err e) start answer bound sock f n o a = refl
serve_for-Keeps k (ok by_address) start answer bound sock f n o a =
    serve_bound-Keeps k f.opened start answer bound o a
serve_for-Keeps k (ok by_socket) start answer bound sock f n o a = absurd n

start_server-NoSocket :
    (stream : ℕ) (ssl : Ssl) (has_host : Bool) (port handshake shutdown : Option ℕ)
    → NoSocket (without_host (start_server stream ssl has_host port handshake shutdown none))
unfolding start_server
start_server-NoSocket stream ssl has_host port handshake shutdown =
    let chosen = choose (has_host || is_some port) none stream none in
    checked-NoSocket (check_server_ssl ssl) (check_ssl_timeouts ssl handshake shutdown >> chosen) (
      checked-NoSocket (check_ssl_timeouts ssl handshake shutdown) chosen
        (chosen-NoSocket (has_host || is_some port) stream none))

start_unix_server-NoSocket :
    (w : Surroundings) (ssl : Ssl) (has_path : Bool) (handshake shutdown : Option ℕ)
    → NoSocket (without_host (start_unix_server w ssl has_path handshake shutdown none))
unfolding start_unix_server
start_unix_server-NoSocket w ssl has_path handshake shutdown =
    let chosen = choose has_path none w.stream (some w.unix) in
    checked-NoSocket (check_server_ssl ssl) (check_ssl_timeouts ssl handshake shutdown >> chosen) (
      checked-NoSocket (check_ssl_timeouts ssl handshake shutdown) chosen
        (chosen-NoSocket has_path w.stream (some w.unix)))

-- The new socket of a bind that raised something else than an OSError.
abbrev pub lost_by : Result (Unit {0}) → ℕ → List ℕ
lost_by (ok _) sock = []
lost_by (err e) sock = if is_os_error e then [] else sock ∷ []

-- What `create_unix_server` loses: it has come to the bind if the checks let it and the socket was made.
abbrev pub lost : Result Target → Result (Unit {0}) → Result (Unit {0}) → ℕ → List ℕ
lost (err e) socket bind sock = []
lost (ok target) (err e) bind sock = []
lost (ok target) (ok _) bind sock = lost_by bind sock

serve_path-Keeps :
    (k : ℕ) (cleanup : Result (Option ℕ)) (start : Bool) (answer : Result (Unit {0})) (f : Files)
    → Below f.next f.opened
    → Keeps k [] f.opened (serve_path cleanup start answer f.next (open_socket f))
unfolding close_all
serve_path-Keeps k (err e) start answer f b =
    ground (arith, has-close_all k (f.next ∷ []) (open_socket f), Below-has f.next f.opened b)
serve_path-Keeps k (ok cleanup) start answer f b =
    serving-Keeps k f.opened start answer (record { sockets = f.next ∷ []; cleanup = cleanup })
      (open_socket f) (ground arith) (ground (arith, Below-has f.next f.opened b))

serve_new-Keeps :
    (k : ℕ) (w : Surroundings) (asks start : Bool) (bind : Result (Unit {0})) (f : Files)
    → Below f.next f.opened
    → Keeps k
        (lost_by bind f.next)
        f.opened
        (serve_new w asks start (bound_path w bind f.next (open_socket f)))
serve_new-Keeps k w asks start (ok u) f b =
    serve_path-Keeps k (if asks then identity w.stat else ok none) start w.started f b
serve_new-Keeps k w asks start (err e) f b = elim (Bool-cases (is_os_error e)) [
  | inl h ↦ rw h (ground (arith, discard-absent f.next f.opened (Below-has f.next f.opened b)))
  | inr h ↦ rw h (ground arith)
]

bind_path-Keeps :
    (k : ℕ) (w : Surroundings) (asks start : Bool) (socket : Result (Unit {0})) (f : Files)
    → Below f.next f.opened
    → Keeps k
        (lost (ok by_address) socket w.bind f.next)
        f.opened
        (serve_new w asks start (bind_path w socket f))
bind_path-Keeps k w asks start (ok u) f b = serve_new-Keeps k w asks start w.bind f b
bind_path-Keeps k w asks start (err e) f b = refl

unix_for-Keeps :
    (k : ℕ) (w : Surroundings) (target : Result Target) (asks start : Bool) (sock : ℕ) (f : Files)
    → NoSocket (without_host target)
    → Below f.next f.opened
    → Keeps k (lost target w.socket w.bind f.next) f.opened (unix_for w target asks start sock f)
unix_for-Keeps k w (err e) asks start sock f n b = refl
unix_for-Keeps k w (ok by_address) asks start sock f n b =
    bind_path-Keeps k w asks start w.socket f b
unix_for-Keeps k w (ok by_socket) asks start sock f n b = absurd n

-- However `create_server` and `create_unix_server` end that were given no socket: a socket `k` is open exactly if
-- it was open before or is one that the server listens on, so that a call that raises leaves nothing; except
-- that `create_unix_server` also leaves its new socket open when the bind raises something else than an
-- OSError.
pub servers_opened :
    (k : ℕ) (w : Surroundings) (ssl : Ssl) (hosts : Hosts) (port : Option ℕ) (asked : Asked)
    (handshake shutdown : Option ℕ) (start has_path is_abstract cleanup_socket : Bool) (f : Files)
    → Below f.next f.opened
    → let tcp = create_server w ssl hosts port asked none handshake shutdown start f in
      let unix =
        create_unix_server w ssl has_path is_abstract cleanup_socket none handshake shutdown start
          f in
      (has k tcp.1.opened ≡ (has k (listens_on tcp.0) || has k f.opened))
      × (has k unix.1.opened ≡ (
          has k (listens_on unix.0)
          || (has k (
                lost
                  (start_unix_server w ssl has_path handshake shutdown none)
                  w.socket
                  w.bind
                  f.next)
              || has k f.opened)))
unfolding create_server create_unix_server
servers_opened k w ssl hosts port asked handshake shutdown start has_path is_abstract cleanup_socket
      f b =
    (
      serve_for-Keeps k (start_server w.stream ssl (has_host hosts) port handshake shutdown none)
          start w.started (bind_tcp w.getaddrinfo asked w.system hosts f) 0 f
          (start_server-NoSocket w.stream ssl (has_host hosts) port handshake shutdown)
          (bind_tcp_opened w.getaddrinfo asked w.system hosts f k b)
          (bind_tcp_apart w.getaddrinfo asked w.system hosts f k b),
      unix_for-Keeps k w (start_unix_server w ssl has_path handshake shutdown none)
          (cleanup_socket && not is_abstract) start 0 f
          (start_unix_server-NoSocket w ssl has_path handshake shutdown) b,
    )
