-- ===== src/Sendfile/Stream.antt =====
-- `_transport_sendfile_native`, over a native transport: its write buffer with `setWriteBufferLimits`,
-- `maybePauseProtocol` and `maybeResumeProtocol` of `zig/transport.zig`.
use zuvloop.Base.{
  sendfile_not_available, os_error, connection, raise_if, ◌>>◌, ltb, leb, not, ◌&&◌, ℕ, ◌+◌, ◌-◌,
  Bool, true, false, Option, none, some, List, [], ◌∷◌, Exception, Result, ok, err,
}
use zuvloop.Sendfile.Protocol.{
  pauses, resumes, loses, cancels, waiting, unset, failed_wait, dropped, raises, returns, awaits,
  Stand, Waiter, Drain, stand_in, deliver, drain, restore,
}
use zuvloop.Sendfile.Defs.{Transfer}
use zuvloop.Sendfile.Dispatch.{rejected}

-- The transport with its marks and the number of its buffered bytes, under the stand-in, and how many duplicates
-- of its descriptor are open.
pub record Stream : Type 0 where
  pub stand : Stand
  pub low : ℕ
  pub high : ℕ
  pub buffered : ℕ
  pub duplicates : ℕ

abbrev pub paused_if : Bool → Stream → Stream
paused_if true t = record t { stand = deliver pauses t.stand }
paused_if false t = t

-- `maybePauseProtocol`
unfoldable pub maybe_pause : Stream → Stream
maybe_pause t = paused_if (ltb t.high t.buffered) t

abbrev pub resumed_if : Bool → Stream → Stream
resumed_if true t = record t { stand = deliver resumes t.stand }
resumed_if false t = t

-- `maybeResumeProtocol`
unfoldable pub maybe_resume : Stream → Stream
maybe_resume t = resumed_if (not t.stand.closing && leb t.buffered t.low) t

-- `setWriteBufferLimits`, of two numbers in order.
unfoldable pub set_limits : ℕ → ℕ → Stream → Stream
set_limits low high t = maybe_pause (record t { low = low; high = high })

-- What happens to the transport: bytes of its buffer are written, another callback calls `write` and so many of its bytes
-- stay in the buffer, it begins to close, the connection is lost, or the
-- call that waits is cancelled.
pub data Happening : Type 0 where
  written writes : ℕ → Happening
  closing_begins gone cancelling : Happening

-- `submitWrite` for another callback and the flush after it, of which so many bytes stay in the buffer.
abbrev pub submit_write : ℕ → Stream → Stream
submit_write n t = maybe_pause (record t { buffered = t.buffered + n })

unfoldable pub happen : Happening → Stream → Stream
happen (written n) t = maybe_resume (record t { buffered = t.buffered - n })
happen (writes n) t = submit_write n t
happen closing_begins t = record t { stand = record t.stand { closing = true } }
happen gone t = record t { stand = deliver loses t.stand }
happen cancelling t = record t { stand = deliver cancels t.stand }

-- The same where no future of the stand-in is awaited, or one that is done: a cancelling reaches none.
unfoldable pub happen_unawaited : Happening → Stream → Stream
happen_unawaited (written n) t = happen (written n) t
happen_unawaited (writes n) t = happen (writes n) t
happen_unawaited closing_begins t = happen closing_begins t
happen_unawaited gone t = happen gone t
happen_unawaited cancelling t = t

unfoldable pub happen_all : List Happening → Stream → Stream
happen_all [] t = t
happen_all (h ∷ hs) t = happen_all hs (happen_unawaited h t)

-- What happens while a call awaits a future of the stand-in, and how this future stands at the end. Once it is
-- done the call is woken a turn later, and what happens in between does not undo that.
unfoldable pub happen_while : List Happening → Waiter → Stream → Waiter × Stream
happen_while [] future t = (future, t)
happen_while (h ∷ hs) waiting t = happen_while hs (happen h t).stand.waiter (happen h t)
happen_while (h ∷ hs) unset t = happen_while hs unset (happen_unawaited h t)
happen_while (h ∷ hs) failed_wait t = happen_while hs failed_wait (happen_unawaited h t)
happen_while (h ∷ hs) dropped t = happen_while hs dropped (happen_unawaited h t)

-- What one call meets: the platform and the answer of `_regular_fileno`; what happens while it waits for the
-- buffer, and what it is woken with, if that is an exception; the answer of `os.dup`; and what happens during the
-- transfer.
pub record Native : Type 0 where
  pub is_windows : Bool
  pub fileno : Result (Unit {0})
  pub while_draining : List Happening
  pub interruption : Option Exception
  pub duplicate : Result (Unit {0})
  pub while_sending : List Happening

-- How a call stands: the transport, if the call has touched it; the transport at the start of the loop over
-- `os.sendfile`, if it has begun; and the transfer.
pub record Ending : Type 0 where
  pub stream : Option Stream
  pub started : Option Stream
  pub transfer : Transfer

-- The outer `finally`.
abbrev pub handed_back : ℕ → ℕ → Stream → Stream
handed_back low high t = let t' = set_limits low high t in record t' { stand = restore t'.stand }

abbrev pub stopped : ℕ → ℕ → Exception → Stream → Ending
stopped low high e t = record {
  stream = some (handed_back low high t);
  started = none;
  transfer = rejected e;
}

-- The inner `finally`, and the outer one after it, once the loop over `os.sendfile` has ended.
abbrev pub sent_off : ℕ → ℕ → Option (Result ℕ) → Stream → Stream
sent_off low high none t = t
sent_off low high (some r) t = handed_back low high (record t { duplicates = t.duplicates - 1 })

abbrev pub with_duplicate : ℕ → ℕ → Native → Transfer → Result (Unit {0}) → Stream → Ending
with_duplicate low high w transfer (err e) t = stopped low high e t
with_duplicate low high w transfer (ok _) t =
    let s = record t { duplicates = t.duplicates + 1 } in
    record {
      stream = some (sent_off low high transfer.outcome (happen_all w.while_sending s));
      started = some s;
      transfer = transfer;
    }

-- A call that still waits.
abbrev pub waits_on : Stream → Ending
waits_on t = record {
  stream = some t;
  started = none;
  transfer = record { sent = []; seeks = none; outcome = none };
}

-- Once the waiter is done.
abbrev pub woken : ℕ → ℕ → Native → Transfer → Option Exception → Stream → Ending
woken low high w transfer (some e) t = stopped low high e t
woken low high w transfer none t = with_duplicate low high w transfer w.duplicate t

abbrev pub or_interrupted : Option Exception → Exception → Exception
or_interrupted (some e) otherwise = e
or_interrupted none otherwise = otherwise

-- The end of `await self._waiter`.
abbrev pub awaited_by : ℕ → ℕ → Native → Transfer → Waiter → Stream → Ending
awaited_by low high w transfer waiting t = waits_on t
awaited_by low high w transfer unset t = woken low high w transfer w.interruption t
awaited_by low high w transfer failed_wait t =
    stopped low high (or_interrupted w.interruption (os_error connection 0)) t
awaited_by low high w transfer dropped t =
    stopped low high (or_interrupted w.interruption Exception.cancelled) t

abbrev pub drained_by : ℕ → ℕ → Native → Transfer → Drain → Stream → Ending
drained_by low high w transfer (raises e) t = stopped low high e t
drained_by low high w transfer returns t = with_duplicate low high w transfer w.duplicate t
drained_by low high w transfer awaits t =
    let (future, t') = happen_while w.while_draining waiting t in
    awaited_by low high w transfer future t'

abbrev pub drain_if : ℕ → ℕ → Native → Transfer → Bool → Stream → Ending
drain_if low high w transfer true t = drained_by low high w transfer (drain t.stand) t
drain_if low high w transfer false t = with_duplicate low high w transfer w.duplicate t

abbrev pub touched : ℕ → ℕ → Native → Transfer → Stream → Ending
touched low high w transfer t =
    let t' = set_limits 0 0 t in drain_if low high w transfer (ltb 0 t'.buffered) t'

abbrev pub unless_refused : Native → Transfer → Result (Unit {0}) → Stream → Ending
unless_refused w transfer (err e) t = record {
  stream = none;
  started = none;
  transfer = rejected e;
}
unless_refused w transfer (ok _) t = touched t.low t.high w transfer t

-- `_transport_sendfile_native`, of a transport with these flags, marks and this many buffered bytes; `transfer` is
-- what `_sendfile_to_fd` does.
unfoldable pub transport_sendfile_native :
    Native → Transfer → Bool → Bool → Bool → ℕ → ℕ → ℕ → Ending
transport_sendfile_native w transfer reading closing paused low high buffered =
    unless_refused w transfer (raise_if w.is_windows sendfile_not_available >> w.fileno) (record {
      stand = stand_in reading closing paused;
      low = low;
      high = high;
      buffered = buffered;
      duplicates = 0;
    })
