-- ===== src/Sendfile/Defs.antt =====
-- The checks of the arguments, the loop over `os.sendfile` and the two loops that read and write.
use zuvloop.Base.{
  false, true, ◌*◌, ℕ, ◌+◌, ◌-◌, Bool, not, ◌&&◌, Option, none, some, List, [], ◌∷◌, ◌++◌, length,
  ◌==◌, if◌then◌else◌, Exception, Result, ok, err, ltb, min, take, drop, ◌>>◌, raise_if,
  value_error, type_error, attribute_error, sendfile_not_available, os_error, connection,
  is_os_error,
}
use zuvloop.Base.Int.{ℤ, pos, ltb_ℤ}

-- What is passed as a number: a Python int, or anything else.
pub data Number : Type 0 where
  int : ℤ → Number
  no_int : Number

-- `_check_file_params`: whether the file's mode, if it has one, names "b"; the offset and the count.
unfoldable pub check_count : Option Number → Result (Unit {0})
check_count none = ok tt
check_count (some no_int) = err (type_error "count must be a positive integer")
check_count (some (int n)) =
    raise_if (not (ltb_ℤ (pos 0) n)) (value_error "count must be a positive integer")

unfoldable pub check_offset : Number → Result (Unit {0})
check_offset no_int = err (type_error "offset must be a non-negative integer")
check_offset (int n) =
    raise_if (ltb_ℤ n (pos 0)) (value_error "offset must be a non-negative integer")

unfoldable pub check_file_params : Bool → Number → Option Number → Result (Unit {0})
check_file_params binary offset count =
    raise_if (not binary) (value_error "file should be opened in binary mode")
    >> (check_count count >> check_offset offset)

-- `_check_sendfile_params`, for a socket that is an `SSLSocket` or not, a stream socket or not.
unfoldable pub check_sendfile_params :
    Bool → Bool → Bool → Number → Option Number → Result (Unit {0})
check_sendfile_params is_ssl is_stream binary offset count =
    raise_if is_ssl (type_error "Socket cannot be of type SSLSocket")
    >> (raise_if (not is_stream) (value_error "only SOCK_STREAM type sockets are supported")
        >> check_file_params binary offset count)

-- `_regular_fileno`: what the source's `fileno` gives (none if it has no such method), and what
-- `os.fstat` answers, a size. An AttributeError or an OSError becomes SendfileNotAvailableError.
abbrev not_regular {ℓ} : {A : Type ℓ} → Exception → Result A
not_regular (attribute_error _) = err sendfile_not_available
not_regular (os_error _ _) = err sendfile_not_available
not_regular e = err e

unfoldable pub regular_fileno : Option (Result Number) → (ℤ → Result ℕ) → Result ℤ
regular_fileno none fstat = err sendfile_not_available
regular_fileno (some (err e)) fstat = not_regular e
regular_fileno (some (ok no_int)) fstat =
    err (type_error "sendfile source returned a non-integer file descriptor")
regular_fileno (some (ok (int fd))) fstat = elim (fstat fd) [ ok _ ↦ ok fd | err e ↦ not_regular e ]

-- An OSError with the errno ENOTCONN that is no `ConnectionError` becomes one. Its `errno` is the message,
-- since the number is its second argument; an `errno` that is no number is 0 here.
unfoldable pub disconnected : ℕ → Exception → Exception
disconnected enotconn (os_error connection number) = os_error connection number
disconnected enotconn (os_error kind number) =
    if number == enotconn then os_error connection 0 else os_error kind number
disconnected enotconn e = e

-- How a transfer stands: the bytes that went to the socket, the position in the file that the `finally`
-- seeks to (none if it does not), and the end, if it has come.
pub record Transfer : Type 0 where
  pub sent : List ℕ
  pub seeks : Option ℕ
  pub outcome : Option (Result ℕ)

-- The `finally` of `_sendfile_to_fd`.
abbrev pub finish_native : ℕ → ℕ → List ℕ → Option (Result ℕ) → Transfer
finish_native offset total sent outcome = record {
  sent = sent;
  seeks = if ltb 0 total then some offset else none;
  outcome = outcome;
}

-- The block to ask for first.
abbrev pub asked : Option ℕ → ℕ → ℕ
asked none size = size
asked (some n) size = n

-- The block to ask for next: without a count it stays the file's size.
abbrev pub next_block : Option ℕ → ℕ → ℕ → ℕ
next_block none blocksize total = blocksize
next_block (some n) blocksize total = n - total

-- The loop of `_sendfile_to_fd` over the file's bytes, one answer of `os.sendfile` for each round, which
-- is how many bytes it moved, at most `blocksize` and none past the end of the file.
module _ (enotconn : ℕ) (content : List ℕ) (count : Option ℕ) where
  unfoldable pub native_rounds : ℕ → ℕ → ℕ → List ℕ → List (Result ℕ) → Transfer
  native_rounds blocksize offset total sent [] =
      if ltb 0 blocksize
      then record { sent = sent; seeks = none; outcome = none }
      else finish_native offset total sent (some (ok total))
  native_rounds blocksize offset total sent (err e ∷ answers) =
      if ltb 0 blocksize
      then (if is_os_error e
          then (if total == 0
              then finish_native offset total sent (some (err sendfile_not_available))
              else finish_native offset total sent (some (err (disconnected enotconn e))))
          else finish_native offset total sent (some (err e)))
      else finish_native offset total sent (some (ok total))
  native_rounds blocksize offset total sent (ok n ∷ answers) =
      let rest =
        native_rounds (next_block count blocksize (total + n)) (offset + n) (total + n)
          (sent ++ take n (drop offset content)) answers in
      if ltb 0 blocksize
      then (if n == 0 then finish_native offset total sent (some (ok total)) else rest)
      else finish_native offset total sent (some (ok total))

  -- `_sendfile_to_fd` from the regular file's descriptor on; `size` is the file's `st_size`.
  unfoldable pub sendfile_to_fd : ℕ → ℕ → List (Result ℕ) → Transfer
  sendfile_to_fd size offset answers = native_rounds (asked count size) offset 0 [] answers

-- The loops of `_sock_sendfile_fallback` and `_sendfile_fallback`: blocks of at most `chunk` bytes are read
-- and handed to the socket or, once the waiter has drained, to the transport. One round's answer is what
-- `file.read` gives and then what the write raises, if it does, and how many bytes of the block it sent before.
pub data Round : Type 0 where
  reads : List ℕ → Round
  read_raises : Exception → Round
  write_raises : List ℕ → ℕ → Exception → Round

abbrev pub finish_fallback : Bool → ℕ → ℕ → List ℕ → Option (Result ℕ) → Transfer
finish_fallback can_seek offset total sent outcome = record {
  sent = sent;
  seeks = if ltb 0 total && can_seek then some (offset + total) else none;
  outcome = outcome;
}

-- How much to read next.
abbrev pub block : ℕ → Option ℕ → ℕ → ℕ
block chunk none total = chunk
block chunk (some n) total = min (n - total) chunk

module _ (chunk : ℕ) (can_seek : Bool) (count : Option ℕ) where
  unfoldable pub fallback_rounds : ℕ → ℕ → List ℕ → List Round → Transfer
  fallback_rounds offset total sent [] =
      if ltb 0 (block chunk count total)
      then record { sent = sent; seeks = none; outcome = none }
      else finish_fallback can_seek offset total sent (some (ok total))
  fallback_rounds offset total sent (read_raises e ∷ rounds) =
      if ltb 0 (block chunk count total)
      then finish_fallback can_seek offset total sent (some (err e))
      else finish_fallback can_seek offset total sent (some (ok total))
  fallback_rounds offset total sent (write_raises bytes n e ∷ rounds) =
      if ltb 0 (block chunk count total) && ltb 0 (length bytes)
      then finish_fallback can_seek offset total (sent ++ take n bytes) (some (err e))
      else finish_fallback can_seek offset total sent (some (ok total))
  fallback_rounds offset total sent (reads bytes ∷ rounds) =
      let rest = fallback_rounds offset (total + length bytes) (sent ++ bytes) rounds in
      if ltb 0 (block chunk count total) && ltb 0 (length bytes)
      then rest
      else finish_fallback can_seek offset total sent (some (ok total))

  -- `seek(offset)` before the loop, for an offset other than 0.
  unfoldable pub fallback : ℕ → List Round → Transfer
  fallback offset rounds =
      if (not (offset == 0)) && not can_seek
      then record {
        sent = [];
        seeks = none;
        outcome = some (err (attribute_error "sendfile source does not support seek"));
      }
      else fallback_rounds offset 0 [] rounds

abbrev pub socket_chunk : ℕ
socket_chunk = 256 * 1024

abbrev pub transport_chunk : ℕ
transport_chunk = 16 * 1024

-- `sock_sendfile` once its socket is known to be non-blocking: the checks, `os.sendfile`, and the fallback
-- if that cannot be used and is allowed. The bytes of both transfers reach the socket one after the other.
pub record Call : Type 0 where
  pub binary : Bool
  pub is_ssl : Bool
  pub is_stream : Bool
  pub can_seek : Bool
  pub allow_fallback : Bool

-- The count as the checks see it.
abbrev pub as_number : Option ℕ → Option Number
as_number none = none
as_number (some n) = some (int (pos n))

-- `except asyncio.SendfileNotAvailableError`
abbrev pub is_unavailable : Option (Result ℕ) → Bool
is_unavailable (some (err sendfile_not_available)) = true
is_unavailable _ = false

-- A failed check ends the call.
abbrev pub guarded : Result (Unit {0}) → Transfer → Transfer
guarded (err e) t = record { sent = []; seeks = none; outcome = some (err e) }
guarded (ok _) t = t

abbrev pub fall_back : Bool → Transfer → Transfer → Transfer
fall_back false native plain = native
fall_back true native plain = record {
  sent = native.sent ++ plain.sent;
  seeks = plain.seeks;
  outcome = plain.outcome;
}

unfoldable pub sock_sendfile :
    Call → ℕ → List ℕ → ℕ → Option ℕ → List (Result ℕ) → List Round → Transfer
sock_sendfile c enotconn content offset count answers rounds =
    let native = sendfile_to_fd enotconn content count (length content) offset answers in
    guarded
      (check_sendfile_params c.is_ssl c.is_stream c.binary (int (pos offset)) (as_number count))
      (fall_back (is_unavailable native.outcome && c.allow_fallback) native
        (fallback socket_chunk c.can_seek count offset rounds))
