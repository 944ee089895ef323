-- ===== src/Connect/Validity.antt =====
-- Which arguments the entry points of `_connect.py` accept.
use zuvloop.Connect.Checks.{
  context, no_ssl, default_ssl, is_host, uses_ssl, check_server_ssl, check_socket, check_ssl_args,
  check_ssl_timeouts, choose, Sock, start_connection, Ssl, start_server,
}
use zuvloop.Base.{
  ap, ◌∙◌, ◌>>◌, ◌>>=◌, refl, ℕ, ◌≡◌, Bool, true, false, not, ◌&&◌, ◌||◌, Option, none, some, arith,
  ◌==◌, if◌then◌else◌, is_none, is_some, Result, ok, err,
}
use zuvloop.Connect.Binding.{Host}

abbrev pub is_ok {ℓ} : {A : Type ℓ} → Result A → Bool
is_ok (ok a) = true
is_ok (err e) = false

-- The socket that is given has this type, and this family if one is asked for.
abbrev pub fits : Sock → ℕ → Option ℕ → Bool
fits sock kind none = sock.kind == kind
fits sock kind (some family) = sock.kind == kind && sock.family == family

-- Either an address is given or a socket that fits, not both.
abbrev pub one_given : Bool → Option Sock → ℕ → Option ℕ → Bool
one_given has_address none kind family = has_address
one_given has_address (some sock) kind family = not has_address && fits sock kind family

-- A timeout is given only with TLS.
abbrev pub timeouts_fit : Ssl → Option ℕ → Option ℕ → Bool
timeouts_fit ssl handshake shutdown = uses_ssl ssl || (is_none handshake && is_none shutdown)

-- A server's name is given only with TLS, which has the host to fall back on.
abbrev pub name_fits : Ssl → Option Host → Option Host → Bool
name_fits ssl server_hostname host =
    if uses_ssl ssl then is_some server_hostname || is_host host else is_none server_hostname

-- A server's TLS comes with a context.
abbrev pub server_ssl_fits : Ssl → Bool
server_ssl_fits no_ssl = true
server_ssl_fits default_ssl = false
server_ssl_fits context = true

check_server_ssl-fit : (ssl : Ssl) → is_ok (check_server_ssl ssl) ≡ server_ssl_fits ssl
unfolding check_server_ssl
check_server_ssl-fit no_ssl = refl
check_server_ssl-fit default_ssl = refl
check_server_ssl-fit context = refl

choose-fits :
    (has_address : Bool) (sock : Option Sock) (kind : ℕ) (family : Option ℕ)
    → is_ok (choose has_address sock kind family) ≡ one_given has_address sock kind family
unfolding choose check_socket
choose-fits true none kind family = refl
choose-fits true (some sock) kind family = refl
choose-fits false none kind family = refl
choose-fits false (some sock) kind none = ground arith
choose-fits false (some sock) kind (some f) = ground arith

check_ssl_timeouts-fit :
    (ssl : Ssl) (handshake shutdown : Option ℕ)
    → is_ok (check_ssl_timeouts ssl handshake shutdown) ≡ timeouts_fit ssl handshake shutdown
unfolding check_ssl_timeouts
check_ssl_timeouts-fit ssl none none = ground arith
check_ssl_timeouts-fit ssl none (some t) = ground arith
check_ssl_timeouts-fit ssl (some t) shutdown = ground arith

check_ssl_args-fit :
    (ssl : Ssl) (server_hostname host : Option Host)
    → is_ok (check_ssl_args ssl server_hostname host) ≡ name_fits ssl server_hostname host
unfolding check_ssl_args
check_ssl_args-fit ssl none host = ground arith
check_ssl_args-fit ssl (some name) host = ground arith

-- A chain of checks passes if each does.
is_ok-then : {A B : Type 0} (r : Result A) (s : Result B) → is_ok (r >> s) ≡ (is_ok r && is_ok s)
is_ok-then (ok a) s = refl
is_ok-then (err e) s = refl

is_ok-map :
    {A B : Type 0} (r : Result A) (b : B) → is_ok {A = B × A} (r >>= λ a. ok (b, a)) ≡ is_ok r
is_ok-map (ok a) b = refl
is_ok-map (err e) b = refl

is_ok-bind :
    {A B : Type 0} (r : Result A) (s : Bool) (f : A → Result B)
    → ((a : A) → is_ok (f a) ≡ s)
    → is_ok (r >>= f) ≡ (is_ok r && s)
is_ok-bind (ok a) s f h = h a
is_ok-bind (err e) s f h = refl

and_assoc : (a b c : Bool) → (a && (b && c)) ≡ ((a && b) && c)
and_assoc true b c = refl
and_assoc false b c = refl

-- Three checks in a row.
three-fit :
    (a b c a' b' c' : Bool) → a ≡ a' → b ≡ b' → c ≡ c' → (a && (b && c)) ≡ ((a' && b') && c')
three-fit a b c a' b' c' p q r = and_assoc a b c ∙ rw (p, q, r) refl

-- `create_connection` gets past its checks exactly if a server's name is given only with TLS, and with TLS
-- a name or a host; timeouts are given only with TLS; and either a host or port is given or a socket,
-- a stream socket then, but not both.
pub start_connection-fits :
    (stream : ℕ) (ssl : Ssl) (server_hostname host : Option Host)
    (port handshake shutdown : Option ℕ) (sock : Option Sock)
    → is_ok (start_connection stream ssl server_hostname host port handshake shutdown sock) ≡ (
        name_fits ssl server_hostname host
        && timeouts_fit ssl handshake shutdown
        && one_given (is_some host || is_some port) sock stream none)
unfolding start_connection
start_connection-fits stream ssl name host port handshake shutdown sock =
    let chosen = choose (is_some host || is_some port) sock stream none in
    let timeouts = check_ssl_timeouts ssl handshake shutdown in
    is_ok-bind (check_ssl_args ssl name host) (is_ok timeouts && is_ok chosen)
      (λ name'. timeouts >> (chosen >>= λ target. ok (name', target)))
      (λ name'.
        is_ok-then timeouts (chosen >>= λ target. ok (name', target))
        ∙ ap (λ b. is_ok timeouts && b) (is_ok-map chosen name'))
    ∙ three-fit (is_ok (check_ssl_args ssl name host)) (is_ok timeouts) (is_ok chosen)
        (name_fits ssl name host) (timeouts_fit ssl handshake shutdown)
        (one_given (is_some host || is_some port) sock stream none)
        (check_ssl_args-fit ssl name host) (check_ssl_timeouts-fit ssl handshake shutdown)
        (choose-fits (is_some host || is_some port) sock stream none)

-- `create_server` gets past its checks exactly if TLS comes with a context, timeouts only with TLS, and
-- either a host or port or a socket, a stream socket then, but not both.
pub start_server-fits :
    (stream : ℕ) (ssl : Ssl) (has_host : Bool) (port handshake shutdown : Option ℕ)
    (sock : Option Sock)
    → is_ok (start_server stream ssl has_host port handshake shutdown sock) ≡ (
        server_ssl_fits ssl
        && timeouts_fit ssl handshake shutdown
        && one_given (has_host || is_some port) sock stream none)
unfolding start_server
start_server-fits stream ssl has_host port handshake shutdown sock =
    let chosen = choose (has_host || is_some port) sock stream none in
    let timeouts = check_ssl_timeouts ssl handshake shutdown in
    is_ok-then (check_server_ssl ssl) (timeouts >> chosen)
    ∙ ap (λ b. is_ok (check_server_ssl ssl) && b) (is_ok-then timeouts chosen)
    ∙ three-fit (is_ok (check_server_ssl ssl)) (is_ok timeouts) (is_ok chosen) (server_ssl_fits ssl)
        (timeouts_fit ssl handshake shutdown)
        (one_given (has_host || is_some port) sock stream none) (check_server_ssl-fit ssl)
        (check_ssl_timeouts-fit ssl handshake shutdown)
        (choose-fits (has_host || is_some port) sock stream none)
