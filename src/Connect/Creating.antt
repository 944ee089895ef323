-- ===== src/Connect/Creating.antt =====
-- `create_connection`, `create_unix_connection` and `connect_accepted_socket` as wholes, and `_wrap_socket` for
-- a connection that no server accepted.
use zuvloop.Connect.Checks.{
  check_socket, by_socket, start_unix_connection, check_ssl_timeouts, start_connection, by_address,
  Sock, Target, Ssl,
}
use zuvloop.Connect.Defs.{
  unexplained, StaggeredRace, connect_tcp, joined, group, open_socket, Attempt, Info, close_socket,
  connected, raised, Files, Ended,
}
use zuvloop.Base.{
  ◌>>◌, OsKind, ℕ, Bool, Option, none, some, List, Exception, Result, ok, err, ◌==◌, if◌then◌else◌,
}
use zuvloop.Connect.Binding.{Host}

-- What `_wrap_socket` meets: an exception before libuv has the descriptor, one while the socket object
-- is kept for it, one while the call waits for the connection to be set up, with so many bytes that the transport
-- could not write yet, or none.
pub data Handover : Type 0 where
  before_adoption while_keeping : Exception → Handover
  while_waiting : Exception → ℕ → Handover
  handed_over : Handover

-- `close` of a transport: with bytes to write the descriptor stays open until they are written.
abbrev pub close_flushed : ℕ → ℕ → Files → Files
close_flushed unsent sock f = if unsent == 0 then close_socket sock f else f

-- `_wrap_socket` without a server. Before adoption it closes the socket itself; after that the descriptor is the
-- transport's: `abort` closes it, and `close` once there is nothing left to write.
unfoldable pub wrap_socket : Handover → ℕ → Files → Result ℕ × Files
wrap_socket (before_adoption e) sock f = (err e, close_socket sock f)
wrap_socket (while_keeping e) sock f = (err e, close_socket sock f)
wrap_socket (while_waiting e unsent) sock f = (err e, close_flushed unsent sock f)
wrap_socket handed_over sock f = (ok sock, f)

-- What is raised, or the socket that the transport has.
abbrev pub wrapped : Result ℕ × Files → Ended × Files
wrapped (ok sock, f) = (connected sock, f)
wrapped (err e, f) = (raised e, f)

abbrev pub wrap_connected : Handover → Ended × Files → Ended × Files
wrap_connected h (connected sock, f) = wrapped (wrap_socket h sock f)
wrap_connected h (raised e, f) = (raised e, f)
wrap_connected h (group es, f) = (group es, f)
wrap_connected h (joined es, f) = (joined es, f)
wrap_connected h (unexplained, f) = (unexplained, f)

-- Once the arguments are checked: `tcp` is the outcome of `_connect_tcp`, `sock` the caller's socket.
abbrev pub create_for :
    Result (Option Host × Target) → Handover → Ended × Files → ℕ → Files → Ended × Files
create_for (err e) h tcp sock f = (raised e, f)
create_for (ok (name, by_address)) h tcp sock f = wrap_connected h tcp
create_for (ok (name, by_socket)) h tcp sock f = wrapped (wrap_socket h sock f)

-- What the environment answers to one call, with a race if `happy_eyeballs_delay` is given: `infos` are the addresses in the
-- order in which they are tried, after any interleaving.
pub record World : Type 0 where
  pub kind_of : ℕ → OsKind
  pub race : Option StaggeredRace
  pub text : Exception → ℕ
  pub stream : ℕ
  pub infos : Result (List (Info × Attempt))
  pub locals : Option (Result (List Info))
  pub handover : Handover

-- `create_connection`; the caller's socket comes with its number.
unfoldable pub create_connection :
    World
    → Ssl
    → Option Host
    → Option Host
    → Option ℕ
    → Option ℕ
    → Option ℕ
    → Option (Sock × ℕ)
    → Bool
    → Files
    → Ended × Files
create_connection w ssl server_hostname host port handshake shutdown none all_errors f =
    create_for (start_connection w.stream ssl server_hostname host port handshake shutdown none)
      w.handover (connect_tcp w.kind_of w.race w.text all_errors w.infos w.locals f) 0 f
create_connection w ssl server_hostname host port handshake shutdown (some (sock, number))
      all_errors f =
    create_for
      (start_connection w.stream ssl server_hostname host port handshake shutdown (some sock))
      w.handover (connect_tcp w.kind_of w.race w.text all_errors w.infos w.locals f) number f

-- `connect_accepted_socket`
unfoldable pub connect_accepted_socket :
    World → Ssl → Option ℕ → Option ℕ → Sock → ℕ → Files → Ended × Files
connect_accepted_socket w ssl handshake shutdown sock number f =
    create_for
      (check_ssl_timeouts ssl handshake shutdown
        >> (check_socket sock w.stream none >> ok (none, by_socket)))
      w.handover (unexplained, f) number f

-- The new socket of `create_unix_connection`, for what `socket.socket` and `sock_connect` answer.
abbrev pub connect_unix : Result (Unit {0}) → Result (Unit {0}) → Files → Ended × Files
connect_unix (err e) answer f = (raised e, f)
connect_unix (ok _) (err e) f = (raised e, close_socket f.next (open_socket f))
connect_unix (ok _) (ok _) f = (connected f.next, open_socket f)

-- The target of `create_unix_connection`, which has no host.
abbrev pub without_host : Result Target → Result (Option Host × Target)
without_host (ok target) = ok (none, target)
without_host (err e) = err e

-- `create_unix_connection`, on a platform that has it.
unfoldable pub create_unix_connection :
    World
    → ℕ
    → Bool
    → Ssl
    → Option Host
    → Option ℕ
    → Option ℕ
    → Option ℕ
    → Option (Sock × ℕ)
    → Result (Unit {0})
    → Result (Unit {0})
    → Files
    → Ended × Files
create_unix_connection w unix ssl_is_none ssl server_hostname path handshake shutdown none socket
      answer f =
    create_for
      (without_host (
        start_unix_connection w.stream unix ssl_is_none ssl server_hostname path handshake shutdown
          none))
      w.handover (connect_unix socket answer f) 0 f
create_unix_connection w unix ssl_is_none ssl server_hostname path handshake shutdown
      (some (sock, number)) socket answer f =
    create_for
      (without_host (
        start_unix_connection w.stream unix ssl_is_none ssl server_hostname path handshake shutdown
          (some sock)))
      w.handover (connect_unix socket answer f) number f
