-- ===== src/Connect/Checks.antt =====
-- The checks of the arguments of `create_connection`, `create_unix_connection` and `connect_accepted_socket`.
use zuvloop.Connect.Binding.{empty_host, named, Host}
use zuvloop.Base.{
  ◌>>=◌, raise_if, ◌>>◌, value_error, ℕ, Bool, true, false, not, ◌&&◌, ◌||◌, Option, none, some,
  ◌==◌, if◌then◌else◌, is_some, Result, ok, err,
}

-- The argument `ssl`: None or False, True, or an SSLContext.
pub data Ssl : Type 0 where
  no_ssl default_ssl context : Ssl

abbrev pub uses_ssl : Ssl → Bool
uses_ssl no_ssl = false
uses_ssl _ = true

-- `_check_ssl_timeouts`; timeouts are numbers.
unfoldable pub check_ssl_timeouts : Ssl → Option ℕ → Option ℕ → Result (Unit {0})
check_ssl_timeouts ssl handshake shutdown =
    raise_if (is_some handshake && not (uses_ssl ssl))
      (value_error "ssl_handshake_timeout is only meaningful with ssl")
    >> raise_if (is_some shutdown && not (uses_ssl ssl))
        (value_error "ssl_shutdown_timeout is only meaningful with ssl")

-- `if not host`
abbrev pub is_host : Option Host → Bool
is_host none = false
is_host (some empty_host) = false
is_host (some (named name)) = true

-- `_check_ssl_args`
unfoldable pub check_ssl_args : Ssl → Option Host → Option Host → Result (Option Host)
check_ssl_args ssl (some server_hostname) host =
    if uses_ssl ssl
    then ok (some server_hostname)
    else err (value_error "server_hostname is only meaningful with ssl")
check_ssl_args ssl none host =
    if uses_ssl ssl
    then (if is_host host
        then ok host
        else err (value_error "You must set server_hostname when using ssl without a host"))
    else ok none

-- `_check_server_ssl`
unfoldable pub check_server_ssl : Ssl → Result (Unit {0})
check_server_ssl default_ssl = err (value_error "Server side ssl needs an SSLContext, not a bool")
check_server_ssl _ = ok tt

-- A socket's type and family.
pub record Sock : Type 0 where
  pub kind : ℕ
  pub family : ℕ

-- `_check_socket`
unfoldable pub check_socket : Sock → ℕ → Option ℕ → Result (Unit {0})
check_socket sock kind family =
    raise_if (not (sock.kind == kind)) (value_error "A socket of another kind was expected")
    >> (elim family [
      | none ↦ ok tt
      | some f ↦
          raise_if (not (sock.family == f)) (value_error "A socket of another family was expected")
    ])

-- What a call works on: an address that it connects or binds itself, or the caller's socket.
pub data Target : Type 0 where
  by_address by_socket : Target

-- Exactly one of the address and the socket is given, and a given socket fits.
unfoldable pub choose : Bool → Option Sock → ℕ → Option ℕ → Result Target
choose true none kind family = ok by_address
choose true (some sock) kind family =
    err (value_error "address and sock can not be specified at the same time")
choose false none kind family = err (value_error "no address and no sock specified")
choose false (some sock) kind family = check_socket sock kind family >> ok by_socket

-- `create_connection` up to its first await: the server's name for TLS, and what to connect.
unfoldable pub start_connection :
    ℕ
    → Ssl
    → Option Host
    → Option Host
    → Option ℕ
    → Option ℕ
    → Option ℕ
    → Option Sock
    → Result (Option Host × Target)
start_connection stream ssl server_hostname host port handshake shutdown sock =
    check_ssl_args ssl server_hostname host >>= λ name.
    check_ssl_timeouts ssl handshake shutdown
    >> (choose (is_some host || is_some port) sock stream none >>= λ target. ok (name, target))

-- `create_unix_connection`, on a platform that has it. `ssl is None` is not the same as no TLS.
unfoldable pub start_unix_connection :
    ℕ → ℕ → Bool → Ssl → Option Host → Option ℕ → Option ℕ → Option ℕ → Option Sock → Result Target
start_unix_connection stream unix ssl_is_none ssl server_hostname path handshake shutdown sock =
    raise_if (ssl_is_none && is_some server_hostname)
      (value_error "server_hostname is only meaningful with ssl")
    >> (check_ssl_timeouts ssl handshake shutdown >> choose (is_some path) sock stream (some unix))

-- `create_server`
unfoldable pub start_server :
    ℕ → Ssl → Bool → Option ℕ → Option ℕ → Option ℕ → Option Sock → Result Target
start_server stream ssl has_host port handshake shutdown sock =
    check_server_ssl ssl
    >> (check_ssl_timeouts ssl handshake shutdown
        >> choose (has_host || is_some port) sock stream none)
