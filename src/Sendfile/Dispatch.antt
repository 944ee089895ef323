-- ===== src/Sendfile/Dispatch.antt =====
-- `sendfile` over kinds of transports: what goes to `os.sendfile` and what to the fallback.
use zuvloop.Sendfile.Defs.{
  transport_chunk, fallback, sendfile_to_fd, as_number, int, check_file_params, is_unavailable,
  fall_back, guarded, Transfer, Round,
}
use zuvloop.Base.Int.{pos}
use zuvloop.Base.{
  ◌>>◌, runtime_error, sendfile_not_available, raise_if, ℕ, Bool, true, false, ◌&&◌, Option, none,
  some, List, [], length, Exception, Result, err,
}

-- `_sendfile_compatible` of a transport that is not the loop's own.
pub data Mode : Type 0 where
  unsupported fallback_only try_native : Mode

-- The loop's own transport, with a socket or without, or another one that has the methods needed or not.
pub data Transport : Type 0 where
  own_transport : Bool → Transport
  other_transport : Mode → Bool → Transport

-- A call that ends before it sends anything.
abbrev pub rejected : Exception → Transfer
rejected e = record { sent = []; seeks = none; outcome = some (err e) }

-- The body of `sendfile` after its checks; `native` and `plain` are the two transfers.
unfoldable pub transfer_by : Transport → Bool → Transfer → Transfer → Transfer
transfer_by (own_transport true) allowed native plain =
    fall_back (is_unavailable native.outcome && allowed) native plain
transfer_by (own_transport false) true native plain = plain
transfer_by (own_transport false) false native plain = rejected sendfile_not_available
transfer_by (other_transport unsupported has_methods) allowed native plain =
    rejected (runtime_error "sendfile is not supported for transport")
transfer_by (other_transport fallback_only has_methods) false native plain =
    rejected
      (runtime_error "fallback is disabled and native sendfile is not supported for transport")
transfer_by (other_transport try_native has_methods) false native plain =
    rejected sendfile_not_available
transfer_by (other_transport mode true) true native plain = plain
transfer_by (other_transport mode false) true native plain =
    rejected (runtime_error "sendfile is not supported for transport")

-- `sendfile`. `ready` is how `_transport_sendfile_native` gets to the loop over `os.sendfile`: past the file's
-- descriptor, the transport's drained buffer and the duplicate of its descriptor.
unfoldable pub sendfile :
    Transport
    → Bool
    → Bool
    → Bool
    → Result (Unit {0})
    → ℕ
    → List ℕ
    → ℕ
    → Option ℕ
    → List (Result ℕ)
    → List Round
    → Transfer
sendfile transport closing binary allowed ready enotconn content offset count answers rounds =
    guarded
      (raise_if closing (runtime_error "Transport is closing")
        >> check_file_params binary (int (pos offset)) (as_number count))
      (transfer_by transport allowed
        (guarded ready (sendfile_to_fd enotconn content count (length content) offset answers))
        (fallback transport_chunk true count offset rounds))
