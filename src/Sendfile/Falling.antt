-- ===== src/Sendfile/Falling.antt =====
-- `_sendfile_fallback` with the stand-in, over any transport.
use zuvloop.Sendfile.Dispatch.{rejected}
use zuvloop.Base.{
  raise_if, ◌>>◌, not, ◌&&◌, ◌==◌, attribute_error, os_error, connection, ltb, length, ℕ, ◌+◌, Bool,
  Option, none, some, List, [], ◌∷◌, ◌++◌, if◌then◌else◌, Exception, Result, ok, err,
}
use zuvloop.Sendfile.Protocol.{
  waiting, unset, failed_wait, dropped, raises, returns, awaits, Event, Stand, Waiter, Drain,
  deliver_all, deliver_while, drain, restore, stand_in,
}
use zuvloop.Sendfile.Defs.{
  Transfer, Round, reads, read_raises, write_raises, block, finish_fallback, transport_chunk,
}
use zuvloop.Sendfile.Stream.{or_interrupted}

-- What one round meets: what `file.read` gives, what happens to the transport meanwhile and while the waiter drains,
-- what the call is woken with, if that is an exception, and what `transport.write` answers.
pub record Block : Type 0 where
  pub content : Result (List ℕ)
  pub while_reading : List Event
  pub while_draining : List Event
  pub interruption : Option Exception
  pub write : Result (Unit {0})

-- How a call stands, with the stand-in.
pub record Fallback : Type 0 where
  pub transfer : Transfer
  pub stand : Stand

-- The `finally`: a `seek` that raises comes before `restore`.
abbrev pub restored_unless : Option ℕ → Result (Unit {0}) → Transfer → Stand → Fallback
restored_unless none reseek t s = record { transfer = t; stand = restore s }
restored_unless (some position) (ok _) t s = record { transfer = t; stand = restore s }
restored_unless (some position) (err e) t s = record {
  transfer = record t { seeks = none; outcome = some (err e) };
  stand = s;
}

abbrev pub end_unless : Option Exception → Result (Unit {0})
end_unless none = ok tt
end_unless (some e) = err e

abbrev pub wait_end : Option Exception → Waiter → Option (Result (Unit {0}))
wait_end interruption waiting = none
wait_end interruption unset = some (end_unless interruption)
wait_end interruption failed_wait = some (err (or_interrupted interruption (os_error connection 0)))
wait_end interruption dropped = some (err (or_interrupted interruption Exception.cancelled))

-- `await waiter.drain()`; it can still be waiting.
abbrev pub drain_end : Drain → Block → Stand → Option (Result (Unit {0})) × Stand
drain_end (raises e) b s = (some (err e), s)
drain_end returns b s = (some (ok tt), s)
drain_end awaits b s =
    let (future, s') = deliver_while b.while_draining waiting s in
    (wait_end b.interruption future, s')

-- `transport.write(data)`, once the wait is over.
abbrev pub then_write :
    Result (Unit {0}) → Option (Result (Unit {0})) × Stand → Option (Result (Unit {0})) × Stand
then_write write (none, s) = (none, s)
then_write write (some (err e), s) = (some (err e), s)
then_write write (some (ok _), s) = (some write, s)

-- The stand-in when the block is read, the wait for the buffer after it, and the write.
abbrev pub after_reading : Block → Stand → Option (Result (Unit {0})) × Stand
after_reading b s =
    let s' = deliver_all b.while_reading s in then_write b.write (drain_end (drain s') b s')

abbrev pub bytes_of : Result (List ℕ) → List ℕ
bytes_of (ok bytes) = bytes
bytes_of (err e) = []

module _ (chunk : ℕ) (can_seek : Bool) (count : Option ℕ) (reseek : Result (Unit {0})) where
  abbrev pub falls : ℕ → ℕ → List ℕ → Result ℕ → Stand → Fallback
  falls offset total sent r s =
      let t = finish_fallback can_seek offset total sent (some r) in
      restored_unless t.seeks reseek t s

  -- The end of a round that has a block to read; `rest` is the later rounds.
  abbrev pub round_end :
      Result (List ℕ)
      → Option (Result (Unit {0}))
      → ℕ
      → ℕ
      → List ℕ
      → Stand
      → Stand
      → Fallback
      → Fallback
  round_end (err e) drained offset total sent read_by drained_by rest =
      falls offset total sent (err e) read_by
  round_end (ok []) drained offset total sent read_by drained_by rest =
      falls offset total sent (ok total) read_by
  round_end (ok (b ∷ bytes)) none offset total sent read_by drained_by rest = record {
    transfer = record { sent = sent; seeks = none; outcome = none };
    stand = drained_by;
  }
  round_end (ok (b ∷ bytes)) (some (err e)) offset total sent read_by drained_by rest =
      falls offset total sent (err e) drained_by
  round_end (ok (b ∷ bytes)) (some (ok _)) offset total sent read_by drained_by rest = rest

  -- The loop of `_sendfile_fallback`.
  unfoldable pub falling : ℕ → ℕ → List ℕ → List Block → Stand → Fallback
  falling offset total sent [] s =
      if ltb 0 (block chunk count total)
      then record { transfer = record { sent = sent; seeks = none; outcome = none }; stand = s }
      else falls offset total sent (ok total) s
  falling offset total sent (b ∷ blocks) s =
      let (drained, s') = after_reading b s in
      let bytes = bytes_of b.content in
      let rest = falling offset (total + length bytes) (sent ++ bytes) blocks s' in
      if ltb 0 (block chunk count total)
      then round_end b.content drained offset total sent (deliver_all b.while_reading s) s' rest
      else falls offset total sent (ok total) s

-- What the rounds come to for the loop without a stand-in.
abbrev pub round_of : Result (List ℕ) → Option (Result (Unit {0})) → List Round → List Round
round_of (err e) drained rest = read_raises e ∷ []
round_of (ok []) drained rest = reads [] ∷ []
round_of (ok (b ∷ bytes)) none rest = []
round_of (ok (b ∷ bytes)) (some (err e)) rest = write_raises (b ∷ bytes) 0 e ∷ []
round_of (ok (b ∷ bytes)) (some (ok _)) rest = reads (b ∷ bytes) ∷ rest

unfoldable pub rounds_of : List Block → Stand → List Round
rounds_of [] s = []
rounds_of (b ∷ blocks) s =
    let (drained, s') = after_reading b s in
    let rest = rounds_of blocks s' in round_of b.content drained rest

-- `seek(offset)` before the loop, for an offset other than 0; it has this answer.
abbrev pub seek_first : Bool → ℕ → Result (Unit {0}) → Result (Unit {0})
seek_first can_seek offset seek =
    raise_if ((not (offset == 0)) && not can_seek)
      (attribute_error "sendfile source does not support seek")
    >> (if offset == 0 then ok tt else seek)

abbrev pub fall_from : Result (Unit {0}) → Fallback → Transfer × Option Stand
fall_from (err e) f = (rejected e, none)
fall_from (ok _) f = (f.transfer, some f.stand)

-- `_sendfile_fallback`, of a transport with these flags and with these answers of the two calls of `seek`: the
-- transfer, and the stand-in, if it was there.
unfoldable pub transport_fallback :
    Bool
    → Option ℕ
    → Result (Unit {0})
    → Result (Unit {0})
    → ℕ
    → List Block
    → Bool
    → Bool
    → Bool
    → Transfer × Option Stand
transport_fallback can_seek count seek reseek offset blocks reading closing paused =
    fall_from (seek_first can_seek offset seek) (
      falling transport_chunk can_seek count reseek offset 0 [] blocks
        (stand_in reading closing paused))
