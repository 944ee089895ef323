-- ===== src/Sendfile/Draining.antt =====
-- What `_transport_sendfile_native` keeps of the order of the bytes, and what it gives back.
use zuvloop.Base.{none, Result, some, Option, ℕ, ◌≡◌, ◌≤◌, Bool, true, false, []}
use zuvloop.Sendfile.Stream.{Native, Ending, set_limits, Stream}
use zuvloop.Sendfile.Protocol.{stand_in, waiting, unset}
use zuvloop.Sendfile.Waking.{written_late}
use zuvloop.Sendfile.Defs.{Transfer}

-- The end of a call that has ended, and the state of one that has not.
abbrev pub IsHandedBack : ℕ → ℕ → Bool → Option Stream → Option (Result ℕ) → Type 0
IsHandedBack low high reading none outcome = Unit
IsHandedBack low high reading (some t) (some r) =
    (t.low ≡ low)
    × (t.high ≡ high)
    × (t.duplicates ≡ 0)
    × (t.stand.installed ≡ false)
    × (t.stand.reading ≡ reading)
    × (t.stand.waiter ≡ unset)
IsHandedBack low high reading (some t) none =
    (t.low ≡ 0) × (t.high ≡ 0) × (t.stand.installed ≡ true) × (t.stand.reading ≡ false)

-- The transfer begins with one duplicate and a buffer of so many bytes at most; without it nothing is sent.
abbrev pub IsInOrder : ℕ → Transfer → Option Stream → Transfer → Type 0
IsInOrder late transfer none moved = (moved.sent ≡ []) × (moved.seeks ≡ none)
IsInOrder late transfer (some t) moved =
    (t.buffered ≤ late) × (t.duplicates ≡ 1) × (moved ≡ transfer)

abbrev pub IsOrderly : ℕ → ℕ → Bool → ℕ → Transfer → Ending → Type 0
IsOrderly low high reading late transfer end =
    IsHandedBack low high reading end.stream end.transfer.outcome
    × IsInOrder late transfer end.started end.transfer

-- The bytes that others write from the moment on at which the wait is over.
abbrev pub late_bytes : Native → Bool → Bool → Bool → ℕ → ℕ → ℕ → ℕ
late_bytes w reading closing paused low high buffered = written_late w.while_draining waiting (
    set_limits 0 0 (record {
      stand = stand_in reading closing paused;
      low = low;
      high = high;
      buffered = buffered;
      duplicates = 0;
    }))
