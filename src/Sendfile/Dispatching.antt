-- ===== src/Sendfile/Dispatching.antt =====
-- What `sendfile` sends over any transport.
use zuvloop.Sendfile.Fallback.{fallback-IsTransfer, unavailable, fall_back-IsTransfer}
use zuvloop.Sendfile.Parts.{IsReading}
use zuvloop.Sendfile.Native.{
  sendfile_to_fd-IsTransfer, sendfile_to_fd-unavailable, IsHonest, IsTransfer,
}
use zuvloop.Sendfile.Defs.{
  as_number, int, check_file_params, fallback, sendfile_to_fd, transport_chunk, is_unavailable,
  asked, Round, guarded, Transfer,
}
use zuvloop.Base.Int.{pos}
use zuvloop.Base.{
  ◌>>◌, raise_if, runtime_error, sendfile_not_available, refl, ℕ, ◌≡◌, Bool, true, false, ◌&&◌,
  Option, some, List, [], arith, length, Exception, Result, ok, err,
}
use zuvloop.Sendfile.Dispatch.{
  try_native, fallback_only, unsupported, other_transport, own_transport, Transport, rejected,
  sendfile, transfer_by,
}

module _ (content : List ℕ) (offset : ℕ) (count : Option ℕ) where
  rejected-IsTransfer : (e : Exception) → IsTransfer content offset count (rejected e)
  rejected-IsTransfer e = record { sent_is = refl; seeks_is = refl; returns_is = tt }

  guarded-IsTransfer :
      (r : Result (Unit {0})) (t : Transfer)
      → IsTransfer content offset count t
      → IsTransfer content offset count (guarded r t)
  guarded-IsTransfer (ok u) t h = h
  guarded-IsTransfer (err e) t h = rejected-IsTransfer e

  transfer_by-IsTransfer :
      (transport : Transport) (allowed : Bool) (native plain : Transfer)
      → (native.outcome ≡ some (err sendfile_not_available) → native.sent ≡ [])
      → IsTransfer content offset count native
      → IsTransfer content offset count plain
      → IsTransfer content offset count (transfer_by transport allowed native plain)
  unfolding transfer_by
  transfer_by-IsTransfer (own_transport true) allowed native plain e n p =
      fall_back-IsTransfer content offset count (is_unavailable native.outcome && allowed) native
        plain (λ x. e (unavailable native.outcome allowed x)) n p
  transfer_by-IsTransfer (own_transport false) true native plain e n p = p
  transfer_by-IsTransfer (own_transport false) false native plain e n p =
      rejected-IsTransfer sendfile_not_available
  transfer_by-IsTransfer (other_transport unsupported has_methods) allowed native plain e n p =
      rejected-IsTransfer (runtime_error "sendfile is not supported for transport")
  transfer_by-IsTransfer (other_transport fallback_only has_methods) false native plain e n p =
      rejected-IsTransfer
        (runtime_error "fallback is disabled and native sendfile is not supported for transport")
  transfer_by-IsTransfer (other_transport try_native has_methods) false native plain e n p =
      rejected-IsTransfer sendfile_not_available
  transfer_by-IsTransfer (other_transport fallback_only true) true native plain e n p = p
  transfer_by-IsTransfer (other_transport try_native true) true native plain e n p = p
  transfer_by-IsTransfer (other_transport fallback_only false) true native plain e n p =
      rejected-IsTransfer (runtime_error "sendfile is not supported for transport")
  transfer_by-IsTransfer (other_transport try_native false) true native plain e n p =
      rejected-IsTransfer (runtime_error "sendfile is not supported for transport")

guarded-unavailable :
    (r : Result (Unit {0})) (t : Transfer)
    → (t.outcome ≡ some (err sendfile_not_available) → t.sent ≡ [])
    → (guarded r t).outcome ≡ some (err sendfile_not_available)
    → (guarded r t).sent ≡ []
guarded-unavailable (ok u) t h e = h e
guarded-unavailable (err x) t h e = refl

-- Over any transport, whether or not it falls back and whatever check fails, for an honest `os.sendfile` and
-- honest reads of a file that can seek: `sendfile` sends no byte twice and none out of order, leaves the file
-- behind the last byte sent, and a returned number counts the bytes sent, which are all that were asked for.
pub sendfile-IsTransfer :
    (transport : Transport) (closing binary allowed : Bool) (ready : Result (Unit {0}))
    (enotconn : ℕ) (content : List ℕ) (offset : ℕ) (count : Option ℕ) (answers : List (Result ℕ))
    (rounds : List Round)
    → IsHonest content count (asked count (length content)) offset 0 answers
    → IsReading transport_chunk content count offset 0 rounds
    → IsTransfer content offset count (
        sendfile transport closing binary allowed ready enotconn content offset count answers
          rounds)
unfolding sendfile
sendfile-IsTransfer transport closing binary allowed ready enotconn content offset count answers
      rounds honest reading =
    let direct = sendfile_to_fd enotconn content count (length content) offset answers in
    let native = guarded ready direct in
    let plain = fallback transport_chunk true count offset rounds in
    let checks =
      raise_if closing (runtime_error "Transport is closing")
      >> check_file_params binary (int (pos offset)) (as_number count) in
    guarded-IsTransfer content offset count checks (transfer_by transport allowed native plain) (
      transfer_by-IsTransfer content offset count transport allowed native plain
        (guarded-unavailable ready direct
          (sendfile_to_fd-unavailable enotconn content offset count answers honest))
        (guarded-IsTransfer content offset count ready direct
          (sendfile_to_fd-IsTransfer enotconn content offset count answers honest))
        (fallback-IsTransfer transport_chunk content offset count rounds (omega arith) reading))
