-- ===== src/Sockets/Dialing.antt =====
-- `sock_connect`. What the system and `getaddrinfo` answer is an argument.
use zuvloop.Base.{
  ◌>>◌, is_exit, os_error, is_not_ready, type_error, OsKind, ℕ, Bool, true, false, Option, none,
  some, List, [], ◌∷◌, ◌==◌, if◌then◌else◌, Exception, Result, ok, err,
}
use zuvloop.Sockets.Defs.{settled, pending, check_non_blocking, Future}

-- The address: a tuple with a host and a port, something else, or a tuple with other parts.
pub data Address : Type 0 where
  host_and_port no_tuple bad_parts : Address

-- The checks for a socket of an internet family.
unfoldable pub check_address : Bool → Address → Result (Unit {0})
check_address false address = ok tt
check_address true host_and_port = ok tt
check_address true no_tuple = err (type_error "an internet socket address must be a tuple")
check_address true bad_parts =
    err (type_error "an internet socket address must contain a host and port")

-- Only these families are resolved.
abbrev pub resolved : Bool → Result (Unit {0}) → Result (Unit {0})
resolved true getaddrinfo = getaddrinfo
resolved false getaddrinfo = ok tt

-- The `except` clauses of `check`: an exception that settles nothing leaves the watcher there.
abbrev pub verdict : Exception → Option (Result (Unit {0}))
verdict e = if is_not_ready e then none else if is_exit e then none else some (err e)

module _ (kind_of : ℕ → OsKind) where
  -- `check`, for what `getsockopt(SO_ERROR)` answers; Python takes the class of an OSError from its number.
  unfoldable pub check_error : Result ℕ → Option (Result (Unit {0}))
  check_error (ok number) =
      if number == 0 then some (ok tt) else verdict (os_error (kind_of number) number)
  check_error (err e) = verdict e

  abbrev pub decided : Option (Result (Unit {0})) → Future (Unit {0}) → Future (Unit {0})
  decided none later = later
  decided (some r) later = settled r

  -- The watcher's callback, each time the socket is writable.
  unfoldable pub await_connect : List (Result ℕ) → Future (Unit {0})
  await_connect [] = pending
  await_connect (r ∷ answers) = decided (check_error r) (await_connect answers)

  -- `sock.connect`
  abbrev pub started : Result (Unit {0}) → Future (Unit {0}) → Future (Unit {0})
  started (ok _) later = settled (ok tt)
  started (err e) later = if is_not_ready e then later else settled (err e)

  abbrev pub checked : Result (Unit {0}) → Future (Unit {0}) → Future (Unit {0})
  checked (ok _) later = later
  checked (err e) later = settled (err e)

  -- `sock_connect`
  unfoldable pub sock_connect :
      Option ℕ
      → Bool
      → Address
      → Result (Unit {0})
      → Result (Unit {0})
      → List (Result ℕ)
      → Future (Unit {0})
  sock_connect timeout internet address getaddrinfo connect answers =
      checked
        (check_non_blocking timeout
          >> (check_address internet address >> resolved internet getaddrinfo))
        (started connect (await_connect answers))
