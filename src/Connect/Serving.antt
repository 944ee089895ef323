-- ===== src/Connect/Serving.antt =====
-- `create_server` and `create_unix_server` of `_connect.py`.
use zuvloop.Base.{
  is_os_error, ◌>>◌, os_error, OsKind, file_exists, file_not_found, ℕ, Bool, true, false, not, ◌&&◌,
  Option, none, some, List, [], ◌∷◌, ◌==◌, if◌then◌else◌, Exception, Result, ok, err,
}
use zuvloop.Connect.Binding.{
  no_host, one_host, many_hosts, close_all, bind_tcp, Asked, System, Hosts,
}
use zuvloop.Connect.Checks.{
  check_server_ssl, check_ssl_timeouts, choose, start_server, by_address, by_socket, Sock, Ssl,
  Target,
}
use zuvloop.Connect.Defs.{open_socket, close_socket, Info, Files}

-- The server: its sockets, and the identity of the path that it unlinks when it closes.
pub record Listener : Type 0 where
  pub sockets : List ℕ
  pub cleanup : Option ℕ

-- `await server.start_serving()`, and the `except` that closes the server, which closes its sockets.
abbrev pub serving : Bool → Result (Unit {0}) → Listener → Files → Result Listener × Files
serving false answer server f = (ok server, f)
serving true (ok _) server f = (ok server, f)
serving true (err e) server f = (err e, close_all server.sockets f)

abbrev pub serve_bound :
    Bool → Result (Unit {0}) → Result (List ℕ) × Files → Result Listener × Files
serve_bound start answer (err e, f) = (err e, f)
serve_bound start answer (ok socks, f) =
    serving start answer (record { sockets = socks; cleanup = none }) f

-- Once the arguments are checked: `bound` is the outcome of `_bind_tcp`, `sock` the caller's socket.
abbrev pub serve_for :
    Result Target
    → Bool
    → Result (Unit {0})
    → Result (List ℕ) × Files
    → ℕ
    → Files
    → Result Listener × Files
serve_for (err e) start answer bound sock f = (err e, f)
serve_for (ok by_address) start answer bound sock f = serve_bound start answer bound
serve_for (ok by_socket) start answer bound sock f = serve_bound start answer (ok (sock ∷ []), f)

abbrev pub has_host : Hosts → Bool
has_host no_host = false
has_host (one_host host) = true
has_host (many_hosts hosts) = true

-- What the calls meet: `stream` is the kind of a stream socket, `unix` the family of Unix sockets, `in_use` the
-- number EADDRINUSE. `bind` and `stat` are those of the Unix path, `started` is the answer of `start_serving`.
pub record Surroundings : Type 0 where
  pub stream : ℕ
  pub unix : ℕ
  pub in_use : ℕ
  pub kind_of : ℕ → OsKind
  pub getaddrinfo : Option ℕ → Result (List Info)
  pub system : System
  pub socket : Result (Unit {0})
  pub bind : Result (Unit {0})
  pub stat : Result ℕ
  pub started : Result (Unit {0})

abbrev pub sock_of : Option (Sock × ℕ) → Option Sock
sock_of none = none
sock_of (some (sock, number)) = some sock

abbrev pub number_of : Option (Sock × ℕ) → ℕ
number_of none = 0
number_of (some (sock, number)) = number

-- `create_server`; the caller's socket comes with its number.
unfoldable pub create_server :
    Surroundings
    → Ssl
    → Hosts
    → Option ℕ
    → Asked
    → Option (Sock × ℕ)
    → Option ℕ
    → Option ℕ
    → Bool
    → Files
    → Result Listener × Files
create_server w ssl hosts port asked sock handshake shutdown start f =
    serve_for (start_server w.stream ssl (has_host hosts) port handshake shutdown (sock_of sock))
      start w.started (bind_tcp w.getaddrinfo asked w.system hosts f) (number_of sock) f

-- The checks of `create_unix_server`, on a platform that has it.
unfoldable pub start_unix_server :
    Surroundings → Ssl → Bool → Option ℕ → Option ℕ → Option Sock → Result Target
start_unix_server w ssl has_path handshake shutdown sock =
    check_server_ssl ssl
    >> (check_ssl_timeouts ssl handshake shutdown >> choose has_path sock w.stream (some w.unix))

-- An address that is taken is raised again with the class of its number.
abbrev pub taken : Surroundings → Exception → Exception
taken w (os_error file_exists number) = os_error (w.kind_of number) number
taken w (os_error kind number) =
    if number == w.in_use then os_error (w.kind_of number) number else os_error kind number
taken w e = e

-- `sock.bind(path)` on the new socket: only an OSError closes it.
abbrev pub bound_path : Surroundings → Result (Unit {0}) → ℕ → Files → Result ℕ × Files
bound_path w (ok _) sock f = (ok sock, f)
bound_path w (err e) sock f =
    if is_os_error e then (err (taken w e), close_socket sock f) else (err e, f)

abbrev pub bind_path : Surroundings → Result (Unit {0}) → Files → Result ℕ × Files
bind_path w (err e) f = (err e, f)
bind_path w (ok _) f = bound_path w w.bind f.next (open_socket f)

-- `os.stat(path)`: no identity if the path is gone, and an error otherwise.
abbrev pub identity : Result ℕ → Result (Option ℕ)
identity (ok found) = ok (some found)
identity (err (os_error file_not_found number)) = ok none
identity (err e) = err e

-- The block that closes the server on every error.
abbrev pub serve_path :
    Result (Option ℕ) → Bool → Result (Unit {0}) → ℕ → Files → Result Listener × Files
serve_path (err e) start answer sock f = (err e, close_all (sock ∷ []) f)
serve_path (ok cleanup) start answer sock f =
    serving start answer (record { sockets = sock ∷ []; cleanup = cleanup }) f

-- `asks` says whether the path is to be unlinked at the end.
abbrev pub serve_new : Surroundings → Bool → Bool → Result ℕ × Files → Result Listener × Files
serve_new w asks start (err e, f) = (err e, f)
serve_new w asks start (ok sock, f) =
    serve_path (if asks then identity w.stat else ok none) start w.started sock f

abbrev pub unix_for :
    Surroundings → Result Target → Bool → Bool → ℕ → Files → Result Listener × Files
unix_for w (err e) asks start sock f = (err e, f)
unix_for w (ok by_address) asks start sock f = serve_new w asks start (bind_path w w.socket f)
unix_for w (ok by_socket) asks start sock f = serve_path (ok none) start w.started sock f

-- `create_unix_server`. `is_abstract` says that the path begins with a null byte.
unfoldable pub create_unix_server :
    Surroundings
    → Ssl
    → Bool
    → Bool
    → Bool
    → Option (Sock × ℕ)
    → Option ℕ
    → Option ℕ
    → Bool
    → Files
    → Result Listener × Files
create_unix_server w ssl has_path is_abstract cleanup_socket sock handshake shutdown start f =
    unix_for w (start_unix_server w ssl has_path handshake shutdown (sock_of sock))
      (cleanup_socket && not is_abstract) start (number_of sock) f
