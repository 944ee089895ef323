-- ===== src/Connect/Datagram.antt =====
-- `create_datagram_endpoint`, `_bind_datagram` and `_resolve_datagram` of `_connect.py`.
use zuvloop.Connect.Creating.{
  handed_over, while_waiting, while_keeping, before_adoption, close_flushed, Handover,
}
use zuvloop.Connect.Checks.{check_socket, Sock}
use zuvloop.Base.{
  plain, ◌>>=◌, ◌>>◌, os_error, value_error, raise_if, type_error, ℕ, Bool, true, false, not, ◌&&◌,
  ◌||◌, Option, none, some, List, [], ◌∷◌, ◌==◌, if◌then◌else◌, is_none, is_some, Result, ok, err,
}
use zuvloop.Connect.Binding.{when}
use zuvloop.Connect.Defs.{open_socket, close_socket, Info, Files}

-- An address that is given: a pair with what `getaddrinfo` answers for it, something else, and for a
-- Unix family, any.
pub data Given : Type 0 where
  pair : Result (List Info) → Given
  not_pair : Given

abbrev pub first_of : Result (List Info) → Result (Option Info)
first_of (err e) = err e
first_of (ok []) = err (os_error plain 0)
first_of (ok (i ∷ infos)) = ok (some i)

-- `_resolve_datagram`; for a Unix family the address stands for itself.
unfoldable pub resolve_datagram : Bool → Info → Option Given → Result (Option Info)
resolve_datagram is_unix itself none = ok none
resolve_datagram true itself (some address) = ok (some itself)
resolve_datagram false itself (some (pair getaddrinfo)) = first_of getaddrinfo
resolve_datagram false itself (some not_pair) =
    err (type_error "string or tuple of (host, port) expected")

-- The arguments of `create_datagram_endpoint`, and what the environment answers.
pub record Datagram : Type 0 where
  pub local_addr : Option Given
  pub remote_addr : Option Given
  pub family : ℕ
  pub is_unix : Bool
  pub unix_local : Info
  pub unix_remote : Info
  pub other_modifiers : Bool
  pub reuse_port : Bool
  pub allow_broadcast : Bool
  pub socket : Result (Unit {0})
  pub set_reuse_port : Result (Unit {0})
  pub set_broadcast : Result (Unit {0})
  pub bind : Info → Result (Unit {0})
  pub connect : Info → Result (Unit {0})
  pub handover : Handover

abbrev pub with_address : Option Info → (Info → Result (Unit {0})) → Result (Unit {0})
with_address none call = ok tt
with_address (some i) call = call i

-- The two addresses that `_bind_datagram` goes by.
unfoldable pub datagram_addresses : Datagram → Result (Option Info × Option Info)
datagram_addresses d =
    if is_none d.local_addr && is_none d.remote_addr
    then (if d.family == 0 then err (value_error "unexpected address family") else ok (none, none))
    else (resolve_datagram d.is_unix d.unix_local d.local_addr >>= λ local.
        resolve_datagram d.is_unix d.unix_remote d.remote_addr >>= λ remote. ok (local, remote))

-- What happens to the new socket.
unfoldable pub prepare_datagram : Datagram → Option Info → Option Info → Result (Unit {0})
prepare_datagram d local remote =
    when d.reuse_port d.set_reuse_port
    >> (when d.allow_broadcast d.set_broadcast
        >> (with_address local d.bind >> with_address remote d.connect))

abbrev pub kept_if : Result (Unit {0}) → ℕ → Bool → Files → Result (ℕ × Bool) × Files
kept_if (ok _) sock is_connected f = (ok (sock, is_connected), f)
kept_if (err e) sock is_connected f = (err e, close_socket sock f)

abbrev pub opened_for :
    Datagram → Result (Unit {0}) → Option Info → Option Info → Files → Result (ℕ × Bool) × Files
opened_for d (err e) local remote f = (err e, f)
opened_for d (ok _) local remote f =
    kept_if (prepare_datagram d local remote) f.next (is_some remote) (open_socket f)

abbrev pub bound_datagram :
    Datagram → Result (Option Info × Option Info) → Files → Result (ℕ × Bool) × Files
bound_datagram d (err e) f = (err e, f)
bound_datagram d (ok (local, remote)) f = opened_for d d.socket local remote f

-- `_bind_datagram`: the socket and whether it is connected.
unfoldable pub bind_datagram : Datagram → Files → Result (ℕ × Bool) × Files
bind_datagram d f = bound_datagram d (datagram_addresses d) f

-- From the protocol factory on. On every failure the descriptor is closed, here or by the transport, which first
-- writes what it has to write.
abbrev pub hand_over_datagram : Handover → Result (ℕ × Bool) × Files → Result (ℕ × Bool) × Files
hand_over_datagram h (err e, f) = (err e, f)
hand_over_datagram (before_adoption e) (ok (sock, c), f) = (err e, close_socket sock f)
hand_over_datagram (while_keeping e) (ok (sock, c), f) = (err e, close_socket sock f)
hand_over_datagram (while_waiting e unsent) (ok (sock, c), f) = (err e, close_flushed unsent sock f)
hand_over_datagram handed_over (ok (sock, c), f) = (ok (sock, c), f)

-- Whether an argument is given that only makes sense for a new socket.
abbrev pub modifies : Datagram → Bool
modifies d =
    is_some d.local_addr
    || is_some d.remote_addr
    || not (d.family == 0)
    || d.other_modifiers
    || d.reuse_port

-- The checks of a socket that is given.
unfoldable pub check_given : Datagram → Sock → ℕ → Result (Unit {0})
check_given d sock dgram =
    raise_if (modifies d)
      (value_error "socket modifier keyword arguments can not be used when sock is specified")
    >> check_socket sock dgram none

abbrev pub given_if : Result (Unit {0}) → ℕ → Bool → Files → Result (ℕ × Bool) × Files
given_if (err e) number is_connected f = (err e, f)
given_if (ok _) number is_connected f = (ok (number, is_connected), f)

-- `create_datagram_endpoint`; a given socket comes with its number and whether it has a peer.
unfoldable pub create_datagram_endpoint :
    Datagram → ℕ → Option (Sock × ℕ × Bool) → Files → Result (ℕ × Bool) × Files
create_datagram_endpoint d dgram none f = hand_over_datagram d.handover (bind_datagram d f)
create_datagram_endpoint d dgram (some (sock, number, has_peer)) f =
    hand_over_datagram d.handover (given_if (check_given d sock dgram) number has_peer f)
