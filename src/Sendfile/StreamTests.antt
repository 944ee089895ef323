-- ===== src/Sendfile/StreamTests.antt =====
-- The theorem on the native transfer at concrete data.
use zuvloop.Sendfile.Protocol.{
  resumes, Stand, deliver_all, pauses, stand_in, deliver, deliver_while, drain, restore,
}
use zuvloop.Base.{
  err, value_error, ℕ, ◌≡◌, refl, Bool, true, false, Option, none, some, List, [], ◌∷◌, Result, ok,
}
use zuvloop.Sendfile.Defs.{Transfer, sendfile_to_fd, native_rounds}
use zuvloop.Sendfile.Falling.{Block, falling, transport_fallback}
use zuvloop.Sendfile.Stream.{
  Stream, Native, Ending, written, writes, cancelling, happen_while, happen_unawaited, set_limits,
  maybe_pause, maybe_resume, happen, happen_all, transport_sendfile_native,
}

abbrev five : List ℕ
five = 1 ∷ 2 ∷ 3 ∷ 4 ∷ 5 ∷ []

-- All five bytes, in two rounds.
abbrev sending : Transfer
sending = sendfile_to_fd 107 five none 5 0 (ok 3 ∷ ok 2 ∷ ok 0 ∷ [])

-- The buffer is written in two steps.
abbrev patient : Native
patient = record {
  is_windows = false;
  fileno = ok tt;
  while_draining = written 4 ∷ written 6 ∷ [];
  interruption = none;
  duplicate = ok tt;
  while_sending = [];
}

abbrev start_of : Ending → Option Stream
start_of end = end.started

abbrev outcome_of : Ending → Option (Result ℕ)
outcome_of end = end.transfer.outcome

sends_when_drained :
    outcome_of (transport_sendfile_native patient sending true false false 16 64 10) ≡ some (ok 5)
unfolding transport_sendfile_native set_limits maybe_pause maybe_resume happen happen_all
    happen_while happen_unawaited stand_in deliver drain sendfile_to_fd native_rounds
sends_when_drained = refl

waits_until_drained :
    outcome_of (
      transport_sendfile_native
        (record patient { while_draining = written 9 ∷ [] })
        sending
        true
        false
        false
        16
        64
        10)
    ≡ none
unfolding transport_sendfile_native set_limits maybe_pause maybe_resume happen happen_all
    happen_while happen_unawaited stand_in deliver drain
waits_until_drained = refl

-- The transport and its protocol, after a call that was cancelled while the buffer drained: the transport is
-- paused, and the protocol was not told.
abbrev pauses_of : Option Stream → Bool × Bool
pauses_of none = (false, false)
pauses_of (some t) = (t.stand.protocol_paused, t.stand.told_paused)

abbrev end_of : Ending → Option Stream
end_of end = end.stream

stays_paused :
    pauses_of (
      end_of (
        transport_sendfile_native
          (record patient { while_draining = cancelling ∷ [] })
          sending
          true
          false
          false
          16
          64
          10))
    ≡ (true, false)
unfolding transport_sendfile_native set_limits maybe_pause maybe_resume happen happen_all
    happen_while happen_unawaited stand_in deliver drain restore
stays_paused = refl

-- The buffer is written, and before the call wakes up another callback writes four bytes.
abbrev overtaken : Native
overtaken = record patient { while_draining = written 10 ∷ writes 4 ∷ [] }

abbrev buffered_of : Option Stream → ℕ
buffered_of none = 0
buffered_of (some t) = t.buffered

starts_over_late_bytes :
    buffered_of (start_of (transport_sendfile_native overtaken sending true false false 16 64 10))
    ≡ 4
unfolding transport_sendfile_native set_limits maybe_pause maybe_resume happen happen_all
    happen_while happen_unawaited stand_in deliver drain sendfile_to_fd native_rounds
starts_over_late_bytes = refl

-- Two blocks; the transport pauses while the second one is read, and resumes while it drains.
abbrev two_blocks : List Block
two_blocks =
    record {
      content = ok (1 ∷ 2 ∷ []);
      while_reading = [];
      while_draining = [];
      interruption = none;
      write = ok tt;
    }
    ∷ record {
      content = ok (3 ∷ []);
      while_reading = pauses ∷ [];
      while_draining = resumes ∷ [];
      interruption = none;
      write = ok tt;
    }
    ∷ record {
      content = ok [];
      while_reading = [];
      while_draining = [];
      interruption = none;
      write = ok tt;
    }
    ∷ []

falls_back :
    (transport_fallback true none (ok tt) (ok tt) 4 two_blocks true false false).0
    ≡ record { sent = 1 ∷ 2 ∷ 3 ∷ []; seeks = some 7; outcome = some (ok 3) }
unfolding transport_fallback falling stand_in deliver deliver_all deliver_while drain restore
falls_back = refl

-- The file is closed at the end: the stand-in stays.
abbrev installed_in : Transfer × Option Stand → Bool
installed_in (t, none) = false
installed_in (t, some s) = s.installed

seek_keeps_stand_in :
    installed_in (
      transport_fallback true none
        (ok tt)
        (err (value_error "closed"))
        4
        two_blocks
        true
        false
        false)
    ≡ true
unfolding transport_fallback falling stand_in deliver deliver_all deliver_while drain restore
seek_keeps_stand_in = refl

abbrev content : List ℕ
content = 9 ∷ 9 ∷ 9 ∷ 9 ∷ 1 ∷ 2 ∷ 3 ∷ []
