-- ===== src/Sendfile/Tests.antt =====
-- The theorems on sendfile at concrete data, and some runs.
use zuvloop.Sendfile.Dispatching.{sendfile-IsTransfer}
use zuvloop.Sendfile.Dispatch.{own_transport, sendfile}
use zuvloop.Sendfile.Defs.{
  transport_chunk, check_offset, check_count, disconnected, native_rounds, reads, write_raises,
  fallback, fallback_rounds, check_file_params, sock_sendfile, Call, check_sendfile_params, Round,
  sendfile_to_fd,
}
use zuvloop.Sendfile.Restoring.{restore_flow}
use zuvloop.Sendfile.Protocol.{stand_in, deliver, pauses, deliver_all, restore}
use zuvloop.Sendfile.Parts.{IsReading}
use zuvloop.Sendfile.Native.{IsHonest, IsTransfer}
use zuvloop.Base.{
  inl, refl, ℕ, ◌≡◌, ◌&&◌, true, false, none, some, List, [], ◌∷◌, arith, Result, ok, err, os_error,
  plain, connection, sendfile_not_available,
}

-- Five bytes, of which a call wants three from the second on.
abbrev bytes : List ℕ
bytes = 10 ∷ 11 ∷ 12 ∷ 13 ∷ 14 ∷ []

abbrev two_rounds : List (Result ℕ)
two_rounds = ok 2 ∷ ok 1 ∷ []

three_sent :
    sendfile_to_fd 107 bytes (some 3) 5 1 two_rounds
    ≡ record { sent = 11 ∷ 12 ∷ 13 ∷ []; seeks = some 4; outcome = some (ok 3) }
unfolding sendfile_to_fd native_rounds
three_sent = refl

lost_peer :
    sendfile_to_fd 107 bytes none 5 0 (ok 2 ∷ err (os_error plain 107) ∷ [])
    ≡ record { sent = 10 ∷ 11 ∷ []; seeks = some 2; outcome = some (err (os_error connection 0)) }
unfolding sendfile_to_fd native_rounds disconnected
lost_peer = refl

two_rounds-IsHonest : IsHonest bytes (some 3) 3 1 0 two_rounds
two_rounds-IsHonest =
    (omega arith, omega arith, inl (omega arith), (omega arith, omega arith, inl (omega arith), tt))

abbrev not_mappable : List (Result ℕ)
not_mappable = err (os_error plain 22) ∷ []

not_mappable-IsHonest : IsHonest bytes (some 3) 3 1 0 not_mappable
not_mappable-IsHonest = λ e. cc

unusable :
    (sendfile_to_fd 107 bytes (some 3) 5 1 not_mappable).outcome ≡ some (err sendfile_not_available)
unfolding sendfile_to_fd native_rounds
unusable = refl

-- The file is read in two blocks of at most two bytes.
abbrev two_blocks : List Round
two_blocks = reads (11 ∷ 12 ∷ []) ∷ reads (13 ∷ []) ∷ []

two_blocks-IsReading : IsReading 2 bytes (some 3) 1 0 two_blocks
two_blocks-IsReading =
    (refl, omega arith, inl (ground arith), (refl, omega arith, inl (ground arith), tt))

abbrev plain_socket : Call
plain_socket = record {
  binary = true;
  is_ssl = false;
  is_stream = true;
  can_seek = true;
  allow_fallback = true;
}

abbrev one_block : List Round
one_block = reads (11 ∷ 12 ∷ 13 ∷ []) ∷ []

-- The peer is gone when one byte of the second block is sent.
abbrev cut_short : List Round
cut_short = reads (11 ∷ []) ∷ write_raises (12 ∷ 13 ∷ []) 1 (os_error connection 32) ∷ []

one_behind :
    sock_sendfile plain_socket 107 bytes 1 (some 3) not_mappable cut_short
    ≡ record { sent = 11 ∷ 12 ∷ []; seeks = some 2; outcome = some (err (os_error connection 32)) }
unfolding sock_sendfile sendfile_to_fd native_rounds check_sendfile_params check_file_params
    check_count check_offset fallback fallback_rounds
one_behind = refl

restore_flow_example :
    let s = restore (deliver_all (pauses ∷ []) (stand_in true false false)) in
    s.told_paused ≡ (s.protocol_paused && false)
restore_flow_example = restore_flow true false false (pauses ∷ [])

-- The transport is paused and the protocol does not know it.
pause_not_told :
    let s = restore (deliver_all (pauses ∷ []) (stand_in true false false)) in
    (s.protocol_paused ≡ true) × (s.told_paused ≡ false)
unfolding restore deliver_all deliver stand_in
pause_not_told = (refl, refl)

one_block-IsSmall : IsReading transport_chunk bytes (some 3) 1 0 one_block
one_block-IsSmall = (refl, omega arith, inl (ground arith), tt)

-- The transport's descriptor is not that of a regular file.
sendfile-IsTransfer_example : IsTransfer bytes 1 (some 3) (
    sendfile
      (own_transport true)
      false
      true
      true
      (err sendfile_not_available)
      107
      bytes
      1
      (some 3)
      not_mappable
      one_block)
sendfile-IsTransfer_example =
    sendfile-IsTransfer (own_transport true) false true true (err sendfile_not_available) 107 bytes
      1 (some 3) not_mappable one_block not_mappable-IsHonest one_block-IsSmall
