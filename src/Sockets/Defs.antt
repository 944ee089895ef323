-- ===== src/Sockets/Defs.antt =====
-- The watchers of the `sock_*` calls, the attempts at an operation, and `sock_sendall`.
use zuvloop.Base.{
  value_error, ℕ, ◌+◌, Bool, true, false, not, ◌&&◌, Option, none, some, List, [], ◌∷◌, ◌++◌,
  length, ◌==◌, if◌then◌else◌, Exception, Result, ok, err, take, drop, ltb, is_not_ready,
  is_os_error,
}

-- `_sock_watchers`, and the loop's registrations: for each descriptor and direction (true to write)
-- the token of the call whose callback is registered. Tokens are fresh objects, here fresh numbers.
pub record Watchers : Type 0 where
  pub owner : ℕ → Bool → Option ℕ
  pub registered : ℕ → Bool → Option ℕ
  pub next_token : ℕ

abbrev pub same_side : Bool → Bool → Bool
same_side true b = b
same_side false b = not b

abbrev pub update : (ℕ → Bool → Option ℕ) → ℕ → Bool → Option ℕ → ℕ → Bool → Option ℕ
update f fd write v fd' write' = if fd' == fd && same_side write' write then v else f fd' write'

-- `_watch`
unfoldable pub watch : ℕ → Bool → Watchers → ℕ × Watchers
watch fd write s =
    let token = s.next_token in
    (
      token,
      record {
        owner = update s.owner fd write (some token);
        registered = update s.registered fd write (some token);
        next_token = token + 1;
      },
    )

-- `self._sock_watchers.get((fd, write)) is token`
abbrev pub is_token : Option ℕ → ℕ → Bool
is_token none token = false
is_token (some t) token = t == token

-- `_unwatch`
unfoldable pub unwatch : ℕ → Bool → ℕ → Watchers → Watchers
unwatch fd write token s =
    if is_token (s.owner fd write) token
    then record s {
      owner = update s.owner fd write none;
      registered = update s.registered fd write none;
    }
    else s

-- `_check_non_blocking`, for what `gettimeout()` returns.
unfoldable pub check_non_blocking : Option ℕ → Result (Unit {0})
check_non_blocking none = err (value_error "the socket must be non-blocking")
check_non_blocking (some t) =
    if t == 0 then ok tt else err (value_error "the socket must be non-blocking")

-- A future that one operation settles.
pub data Future {ℓ} (A : Type ℓ) : Type ℓ where
  pending : Future A
  settled : Result A → Future A

module _ {ℓ} {A : Type ℓ} where
  -- `_attempt`, where the operation answers `r`: True, False, or an exception that it lets through.
  unfoldable pub attempt : Future A → Result A → Result Bool × Future A
  attempt (settled r) _ = (ok true, settled r)
  attempt pending (ok a) = (ok true, settled (ok a))
  attempt pending (err e) =
      if is_not_ready e
      then (ok false, pending)
      else if is_os_error e
      then (ok true, settled (err e))
      else (err e, pending)

  -- The callback of the watcher ignores what `_attempt` returns: an exception that it lets through goes
  -- to the loop's exception handler, and the watcher stays.
  abbrev pub called_back : Result Bool × Future A → Future A → Future A
  called_back (_, settled r) later = settled r
  called_back (_, pending) later = later

  -- The watcher's callback, each time the descriptor is ready.
  unfoldable pub awaken : List (Result A) → Future A
  awaken [] = pending
  awaken (r ∷ answers) = let later = awaken answers in called_back (attempt pending r) later

  -- The first attempt of `_retry_ready`, whose exception is the call's.
  abbrev pub tried : Result Bool × Future A → Future A → Future A
  tried (err e, _) later = settled (err e)
  tried (ok _, settled r) later = settled r
  tried (ok _, pending) later = later

  -- `_retry_ready` for an operation with these answers, one for each attempt. The future is pending if
  -- all of them are used up.
  unfoldable pub retry_ready : List (Result A) → Future A
  retry_ready [] = pending
  retry_ready (r ∷ answers) = let later = awaken answers in tried (attempt pending r) later

  -- `_retry_until_ready`
  unfoldable pub retry_until_ready : Option ℕ → List (Result A) → Future A
  retry_until_ready timeout answers = elim (check_non_blocking timeout) [
    | ok _ ↦ retry_ready answers
    | err e ↦ settled (err e)
  ]

-- `sock_sendall`, one answer of `_retry_until_ready` for each round: how many bytes `send` took of the
-- rest, or the exception that ends the call. The bytes that the system has taken come along.
pub data Sending : Type 0 where
  waiting sent_all : List ℕ → Sending
  failed : Exception → List ℕ → Sending

unfoldable pub sendall_from : List ℕ → ℕ → List ℕ → List (Result ℕ) → Sending
sendall_from view sent wire [] = if ltb sent (length view) then waiting wire else sent_all wire
sendall_from view sent wire (ok n ∷ answers) =
    let rest = sendall_from view (sent + n) (wire ++ take n (drop sent view)) answers in
    if ltb sent (length view) then rest else sent_all wire
sendall_from view sent wire (err e ∷ answers) =
    if ltb sent (length view) then failed e wire else sent_all wire

unfoldable pub sock_sendall : List ℕ → List (Result ℕ) → Sending
sock_sendall view answers = sendall_from view 0 [] answers
