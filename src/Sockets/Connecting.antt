-- ===== src/Sockets/Connecting.antt =====
-- How `sock_connect` ends.
use zuvloop.Sockets.Defs.{settled, check_non_blocking}
use zuvloop.Sockets.Dialing.{
  resolved, check_address, Address, decided, await_connect, sock_connect, check_error,
}
use zuvloop.Base.{
  os_error, is_not_ready, OsKind, refl, ap, ◌∙◌, ℕ, ◌≡◌, Bool, true, false, none, some, List, [],
  ◌∷◌, ◌++◌, ◌==◌, Exception, Result, ok, err,
}

module _ (kind_of : ℕ → OsKind) where
  -- The socket is not connected yet.
  abbrev pub IsBusy : Result ℕ → Type 0
  IsBusy (ok number) =
      ((number == 0) ≡ false) × (is_not_ready (os_error (kind_of number) number) ≡ true)
  IsBusy (err e) = is_not_ready e ≡ true

  abbrev pub AllBusy : List (Result ℕ) → Type 0
  AllBusy [] = Unit
  AllBusy (r ∷ answers) = IsBusy r × AllBusy answers

  check_error-busy : (r : Result ℕ) → IsBusy r → check_error kind_of r ≡ none
  unfolding check_error
  check_error-busy (ok number) (n, b) = rw (n, b) refl
  check_error-busy (err e) b = rw b refl

  await_connect-busy :
      (waits answers : List (Result ℕ))
      → AllBusy waits
      → await_connect kind_of (waits ++ answers) ≡ await_connect kind_of answers
  unfolding await_connect
  await_connect-busy [] answers b = refl
  await_connect-busy (r ∷ waits) answers (b, bs) =
      ap (λ v. decided kind_of v (await_connect kind_of (waits ++ answers))) (check_error-busy r b)
      ∙ await_connect-busy waits answers bs

  -- For a non-blocking socket and an address that passes the checks and resolves: once `connect` has said
  -- that it is in progress, and however often the socket is found not to be connected yet, an SO_ERROR of 0
  -- ends the call with success, and one that is an error, with the OSError of that number.
  pub sock_connect_ends :
      (internet : Bool) (address : Address) (getaddrinfo : Result (Unit {0})) (e : Exception)
      (waits later : List (Result ℕ)) (number : ℕ)
      → check_address internet address ≡ ok tt
      → resolved internet getaddrinfo ≡ ok tt
      → is_not_ready e ≡ true
      → AllBusy waits
      → (number == 0) ≡ false
      → is_not_ready (os_error (kind_of number) number) ≡ false
      → (sock_connect kind_of
            (some 0)
            internet
            address
            getaddrinfo
            (err e)
            (waits ++ (ok 0 ∷ later))
          ≡ settled (ok tt))
        × (sock_connect kind_of
              (some 0)
              internet
              address
              getaddrinfo
              (err e)
              (waits ++ (ok number ∷ later))
            ≡ settled (err (os_error (kind_of number) number)))
  unfolding sock_connect check_non_blocking await_connect check_error
  sock_connect_ends internet address getaddrinfo e waits later number a g w b n d = (
    rw (a, g, w) (await_connect-busy waits (ok 0 ∷ later) b),
    rw (a, g, w) (await_connect-busy waits (ok number ∷ later) b ∙ rw (n, d) refl),
  )
