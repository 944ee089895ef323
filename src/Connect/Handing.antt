-- ===== src/Connect/Handing.antt =====
-- Which sockets the calls that create a transport leave open.
use zuvloop.Connect.Datagram.{
  datagram_addresses, prepare_datagram, bind_datagram, opened_for, create_datagram_endpoint,
  bound_datagram, kept_if, Datagram, hand_over_datagram,
}
use zuvloop.Connect.Leaving.{connect_tcp_opened, IsLeft}
use zuvloop.Base.{
  value_error, ◌&&◌, raise_if, some, ◌||◌, is_some, true, Below-has, none, Bool, refl, ◌>>=◌, ◌>>◌,
  Below, discard-absent, ℕ, ◌≡◌, false, Option, List, ◌∷◌, arith, has, Result, ok, err, sym,
}
use zuvloop.Connect.Defs.{
  connect_tcp, open_socket, Info, unexplained, joined, group, raised, connected, Files, Ended,
}
use zuvloop.Connect.Checks.{
  check_ssl_timeouts, check_ssl_args, Ssl, start_unix_connection, start_connection, choose,
  by_socket, by_address, Target,
}
use zuvloop.Connect.Creating.{
  World, create_unix_connection, create_connection, without_host, connect_unix, create_for,
  handed_over, while_waiting, while_keeping, before_adoption, wrap_connected, wrapped, wrap_socket,
  Handover,
}
use zuvloop.Connect.Binding.{Host}
use mathlib.Core.Path.{subst}

-- If the transport is closed while the call waits, it has nothing left to write.
abbrev pub IsFlushed : Handover → Type 0
IsFlushed (before_adoption e) = Unit
IsFlushed (while_keeping e) = Unit
IsFlushed (while_waiting e unsent) = unsent ≡ 0
IsFlushed handed_over = Unit

wrap_socket-IsLeft :
    (h : Handover) (sock : ℕ) (socks : List ℕ) (f : Files)
    → f.opened ≡ sock ∷ socks
    → has sock socks ≡ false
    → IsFlushed h
    → IsLeft socks (wrapped (wrap_socket h sock f))
unfolding wrap_socket
wrap_socket-IsLeft (before_adoption e) sock socks f o n u =
    (ground (arith, o, discard-absent sock socks), tt)
wrap_socket-IsLeft (while_keeping e) sock socks f o n u =
    (ground (arith, o, discard-absent sock socks), tt)
wrap_socket-IsLeft (while_waiting e unsent) sock socks f o n u =
    rw u (ground (arith, o, discard-absent sock socks), tt)
wrap_socket-IsLeft handed_over sock socks f o n u = (o, n)

wrap_connected-IsLeft :
    (h : Handover) (socks : List ℕ) (end : Ended × Files)
    → IsFlushed h
    → IsLeft socks end
    → IsLeft socks (wrap_connected h end)
wrap_connected-IsLeft h socks (connected sock, f) u (o, n) = wrap_socket-IsLeft h sock socks f o n u
wrap_connected-IsLeft h socks (raised e, f) u l = l
wrap_connected-IsLeft h socks (group es, f) u l = l
wrap_connected-IsLeft h socks (joined es, f) u l = l
wrap_connected-IsLeft h socks (unexplained, f) u l = l

-- A call that was given no socket has an address to go by, or is refused.
abbrev pub NoSocket : Result (Option Host × Target) → Type 0
NoSocket (ok (name, by_address)) = Unit
NoSocket (ok (name, by_socket)) = ⊥
NoSocket (err e) = Unit

choose-NoSocket :
    (given : Bool) (kind : ℕ) (family : Option ℕ) (name : Option Host)
    → NoSocket (choose given none kind family >>= λ target. ok (name, target))
unfolding choose
choose-NoSocket true kind family name = tt
choose-NoSocket false kind family name = tt

after-NoSocket :
    (check : Result (Unit {0})) (later : Result (Option Host × Target))
    → NoSocket later
    → NoSocket (check >> later)
after-NoSocket (ok u) later n = n
after-NoSocket (err e) later n = tt

named-NoSocket :
    (check : Result (Option Host)) (later : Option Host → Result (Option Host × Target))
    → ((name : Option Host) → NoSocket (later name))
    → NoSocket (check >>= later)
named-NoSocket (ok name) later n = n name
named-NoSocket (err e) later n = tt

pub chosen-NoSocket :
    (given : Bool) (kind : ℕ) (family : Option ℕ)
    → NoSocket (without_host (choose given none kind family))
unfolding choose
chosen-NoSocket true kind family = tt
chosen-NoSocket false kind family = tt

pub checked-NoSocket :
    (check : Result (Unit {0})) (later : Result Target)
    → NoSocket (without_host later)
    → NoSocket (without_host (check >> later))
checked-NoSocket (ok u) later n = n
checked-NoSocket (err e) later n = tt

start_connection-NoSocket :
    (stream : ℕ) (ssl : Ssl) (server_hostname host : Option Host)
    (port handshake shutdown : Option ℕ)
    → NoSocket (start_connection stream ssl server_hostname host port handshake shutdown none)
unfolding start_connection
start_connection-NoSocket stream ssl server_hostname host port handshake shutdown =
    let chosen : Option Host → Result (Option Host × Target) = λ name.
      choose (is_some host || is_some port) none stream none >>= λ target. ok (name, target) in
    named-NoSocket (check_ssl_args ssl server_hostname host)
      (λ name. check_ssl_timeouts ssl handshake shutdown >> chosen name)
      (λ name.
        after-NoSocket (check_ssl_timeouts ssl handshake shutdown) (chosen name)
          (choose-NoSocket (is_some host || is_some port) stream none name))

start_unix_connection-NoSocket :
    (stream unix : ℕ) (ssl_is_none : Bool) (ssl : Ssl) (server_hostname : Option Host)
    (path handshake shutdown : Option ℕ)
    → NoSocket (
        without_host (
          start_unix_connection stream unix ssl_is_none ssl server_hostname path handshake shutdown
            none))
unfolding start_unix_connection
start_unix_connection-NoSocket stream unix ssl_is_none ssl server_hostname path handshake shutdown =
    let chosen = choose (is_some path) none stream (some unix) in
    checked-NoSocket
      (raise_if (ssl_is_none && is_some server_hostname)
        (value_error "server_hostname is only meaningful with ssl"))
      (check_ssl_timeouts ssl handshake shutdown >> chosen)
      (checked-NoSocket (check_ssl_timeouts ssl handshake shutdown) chosen
        (chosen-NoSocket (is_some path) stream (some unix)))

create_for-IsLeft :
    (start : Result (Option Host × Target)) (h : Handover) (end : Ended × Files) (sock : ℕ)
    (f : Files)
    → NoSocket start
    → IsFlushed h
    → IsLeft f.opened end
    → IsLeft f.opened (create_for start h end sock f)
create_for-IsLeft (err e) h end sock f n u l = (refl, tt)
create_for-IsLeft (ok (name, by_address)) h end sock f n u l =
    wrap_connected-IsLeft h f.opened end u l
create_for-IsLeft (ok (name, by_socket)) h end sock f n u l = absurd n

connect_unix-IsLeft :
    (socket answer : Result (Unit {0})) (f : Files)
    → Below f.next f.opened
    → IsLeft f.opened (connect_unix socket answer f)
connect_unix-IsLeft (err e) answer f b = (refl, tt)
connect_unix-IsLeft (ok u) (ok v) f b = (refl, Below-has f.next f.opened b)
connect_unix-IsLeft (ok u) (err e) f b =
    (ground (arith, discard-absent f.next f.opened (Below-has f.next f.opened b)), tt)

-- What a datagram endpoint leaves open.
abbrev pub DatagramLeft : List ℕ → Result (ℕ × Bool) × Files → Type 0
DatagramLeft socks (ok (sock, c), f) = (f.opened ≡ sock ∷ socks) × (has sock socks ≡ false)
DatagramLeft socks (err e, f) = f.opened ≡ socks

kept_if-DatagramLeft :
    (r : Result (Unit {0})) (c : Bool) (f : Files)
    → Below f.next f.opened
    → DatagramLeft f.opened (kept_if r f.next c (open_socket f))
kept_if-DatagramLeft (ok u) c f b = (refl, Below-has f.next f.opened b)
kept_if-DatagramLeft (err e) c f b =
    ground (arith, discard-absent f.next f.opened (Below-has f.next f.opened b))

opened_for-DatagramLeft :
    (d : Datagram) (r : Result (Unit {0})) (local remote : Option Info) (f : Files)
    → Below f.next f.opened
    → DatagramLeft f.opened (opened_for d r local remote f)
opened_for-DatagramLeft d (ok u) local remote f b =
    kept_if-DatagramLeft (prepare_datagram d local remote) (is_some remote) f b
opened_for-DatagramLeft d (err e) local remote f b = refl

bound_datagram-DatagramLeft :
    (d : Datagram) (addresses : Result (Option Info × Option Info)) (f : Files)
    → Below f.next f.opened
    → DatagramLeft f.opened (bound_datagram d addresses f)
bound_datagram-DatagramLeft d (ok (local, remote)) f b =
    opened_for-DatagramLeft d d.socket local remote f b
bound_datagram-DatagramLeft d (err e) f b = refl

hand_over_datagram-DatagramLeft :
    (h : Handover) (socks : List ℕ) (end : Result (ℕ × Bool) × Files)
    → IsFlushed h
    → DatagramLeft socks end
    → DatagramLeft socks (hand_over_datagram h end)
hand_over_datagram-DatagramLeft h socks (err e, f) u l = l
hand_over_datagram-DatagramLeft (before_adoption e) socks (ok (sock, c), f) u (o, n) =
    ground (arith, o, discard-absent sock socks)
hand_over_datagram-DatagramLeft (while_keeping e) socks (ok (sock, c), f) u (o, n) =
    ground (arith, o, discard-absent sock socks)
hand_over_datagram-DatagramLeft (while_waiting e unsent) socks (ok (sock, c), f) u (o, n) =
    rw u (ground (arith, o, discard-absent sock socks))
hand_over_datagram-DatagramLeft handed_over socks (ok (sock, c), f) u l = l

-- However a call of `create_connection` without `happy_eyeballs_delay`, of `create_unix_connection` or of
-- `create_datagram_endpoint` ends that was given no socket, whichever step failed, when a transport that the call closes
-- has nothing left to write: it leaves open what was open before and the one socket behind the transport that it
-- returns, which is a new one; a call that raises has closed every socket that it opened.
pub endpoints_opened :
    (w : World) (d : Datagram) (ssl : Ssl) (server_hostname host : Option Host)
    (port path handshake shutdown : Option ℕ) (all_errors : Bool) (unix dgram : ℕ)
    (ssl_is_none : Bool) (socket answer : Result (Unit {0})) (f : Files)
    → Below f.next f.opened
    → w.race ≡ none
    → IsFlushed w.handover
    → IsFlushed d.handover
    → IsLeft f.opened
        (create_connection w ssl server_hostname host port handshake shutdown none all_errors f)
      × IsLeft f.opened (
          create_unix_connection w unix ssl_is_none ssl server_hostname path handshake shutdown none
            socket answer f)
      × DatagramLeft f.opened (create_datagram_endpoint d dgram none f)
unfolding create_connection create_unix_connection create_datagram_endpoint bind_datagram
endpoints_opened w d ssl server_hostname host port path handshake shutdown all_errors unix dgram
      ssl_is_none socket answer f b sequential flushed flushed' =
    (
      create_for-IsLeft
          (start_connection w.stream ssl server_hostname host port handshake shutdown none)
          w.handover (connect_tcp w.kind_of w.race w.text all_errors w.infos w.locals f) 0 f
          (start_connection-NoSocket w.stream ssl server_hostname host port handshake shutdown)
          flushed
          (subst
            (λ race.
              IsLeft f.opened (connect_tcp w.kind_of race w.text all_errors w.infos w.locals f))
            (sym sequential) (connect_tcp_opened w.kind_of w.text all_errors w.infos w.locals f b)),
      create_for-IsLeft
          (without_host (
            start_unix_connection w.stream unix ssl_is_none ssl server_hostname path handshake
              shutdown none))
          w.handover (connect_unix socket answer f) 0 f
          (start_unix_connection-NoSocket w.stream unix ssl_is_none ssl server_hostname path
            handshake shutdown)
          flushed (connect_unix-IsLeft socket answer f b),
      hand_over_datagram-DatagramLeft d.handover f.opened
          (bound_datagram d (datagram_addresses d) f) flushed'
          (bound_datagram-DatagramLeft d (datagram_addresses d) f b),
    )
