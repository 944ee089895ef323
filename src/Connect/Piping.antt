-- ===== src/Connect/Piping.antt =====
-- `_connect_pipe` and `_HangupWatch` of `_connect.py`.
use zuvloop.Base.{
  ◌>>=◌, ◌>>◌, raise_if, value_error, ℕ, ◌+◌, Bool, true, false, not, ◌&&◌, List, ◌∷◌, discard, ltb,
  if◌then◌else◌, Result, ok, err, ◌==◌,
}

-- What a descriptor is, by `fstat`.
pub data PipeMode : Type 0 where
  fifo socket character other_mode : PipeMode

-- The two calls.
pub data Direction : Type 0 where
  read_end write_end : Direction

-- The descriptors that are open, the number of the next one, and those that the loop watches for reading.
pub record Pipes : Type 0 where
  pub opened : List ℕ
  pub next : ℕ
  pub readers : List ℕ

-- What the platform is, and what the system answers: `add_reader` to the watch, `ready` to the waiter;
-- `unsent` is what the transport has still to write if it is closed then.
pub record PipeAnswers : Type 0 where
  pub has_no_event : Bool
  pub is_aix : Bool
  pub fileno : Result ℕ
  pub fstat : Result (PipeMode × ℕ)
  pub set_blocking : Result (Unit {0})
  pub protocol_factory : Result (Unit {0})
  pub dup : Result (Unit {0})
  pub make_transport : Result (Unit {0})
  pub add_reader : Result (Unit {0})
  pub ready : Result (Unit {0})
  pub unsent : ℕ

-- A transport of a pipe: the descriptors of the pipe object and of libuv, and whether it adopted a watch.
pub record PipeTransport : Type 0 where
  pub pipe : ℕ
  pub duplicate : ℕ
  pub has_watch : Bool

abbrev pub is_pipe : PipeMode → Bool
is_pipe other_mode = false
is_pipe _ = true

abbrev pub is_fifo : PipeMode → Bool
is_fifo fifo = true
is_fifo _ = false

abbrev pub is_write : Direction → Bool
is_write write_end = true
is_write read_end = false

-- `remove_reader`
abbrev pub remove_reader : ℕ → Pipes → Pipes
remove_reader fd s = record s { readers = discard fd s.readers }

abbrev pub close_end : ℕ → Pipes → Pipes
close_end fd s = record s { opened = discard fd s.opened }

-- `_HangupWatch.close` or `pipe.close`, whichever object the transport has.
abbrev pub close_adopted : PipeTransport → Pipes → Pipes
close_adopted t s = close_end t.pipe (if t.has_watch then remove_reader t.pipe s else s)

-- What closing the transport comes to: libuv's descriptor and the object that was adopted.
unfoldable pub close_pipe_transport : PipeTransport → Pipes → Pipes
close_pipe_transport t s = close_adopted t (close_end t.duplicate s)

-- `transport.close()`, which with bytes to write closes nothing yet.
abbrev pub close_flushed_pipe : ℕ → PipeTransport → Pipes → Pipes
close_flushed_pipe unsent t s = if unsent == 0 then close_pipe_transport t s else s

-- The peer hangs up. Only a transport with a watch has the callback `_HangupWatch._hangup`, which closes at
-- once, with an error if there are bytes to write, and else without.
unfoldable pub hangup : PipeTransport → Pipes → Pipes
hangup t s = if t.has_watch then close_pipe_transport t (remove_reader t.pipe s) else s

-- Whether the end of the peer is watched; the number is that of the links to the descriptor's file.
unfoldable pub watches : Direction → PipeAnswers → PipeMode → ℕ → Bool
watches direction w mode links =
    is_write direction && is_fifo mode && not w.is_aix && not (w.has_no_event && ltb 0 links)

-- `await waiter`, and the `except`.
abbrev pub awaited : ℕ → Result (Unit {0}) → PipeTransport → Pipes → Result PipeTransport × Pipes
awaited unsent (ok _) t s = (ok t, s)
awaited unsent (err e) t s = (err e, close_flushed_pipe unsent t s)

-- `_HangupWatch.arm`
abbrev pub armed_watch :
    PipeAnswers → Result (Unit {0}) → PipeTransport → Pipes → Result PipeTransport × Pipes
armed_watch w (ok _) t s =
    awaited w.unsent w.ready t (record s { readers = t.pipe ∷ discard t.pipe s.readers })
armed_watch w (err e) t s = (err e, close_flushed_pipe w.unsent t s)

-- The last `try`.
abbrev pub watched_if : Bool → PipeAnswers → ℕ → ℕ → Pipes → Result PipeTransport × Pipes
watched_if true w fd duplicate s =
    armed_watch w w.add_reader (record { pipe = fd; duplicate = duplicate; has_watch = true }) s
watched_if false w fd duplicate s =
    awaited w.unsent w.ready (record { pipe = fd; duplicate = duplicate; has_watch = false }) s

abbrev pub made :
    Bool → PipeAnswers → Result (Unit {0}) → ℕ → ℕ → Pipes → Result PipeTransport × Pipes
made watch w (ok _) fd duplicate s = watched_if watch w fd duplicate s
made watch w (err e) fd duplicate s = (err e, close_end duplicate s)

abbrev pub duplicated : PipeAnswers → Result (ℕ × Bool) → Pipes → Result PipeTransport × Pipes
duplicated w (err e) s = (err e, s)
duplicated w (ok (fd, watch)) s =
    made watch w w.make_transport fd s.next
      (record s { opened = s.next ∷ s.opened; next = s.next + 1 })

-- Up to `os.dup`: the descriptor of the pipe, and whether its peer is to be watched.
unfoldable pub prepare_pipe : Direction → PipeAnswers → Result (ℕ × Bool)
prepare_pipe direction w = w.fileno >>= λ fd. w.fstat >>= λ found.
    raise_if (not (is_pipe found.0))
      (value_error "Pipe transport is only for pipes, sockets and character devices")
    >> (w.set_blocking
        >> (w.protocol_factory >> (w.dup >> ok (fd, watches direction w found.0 found.1))))

-- `_connect_pipe`
unfoldable pub connect_pipe : Direction → PipeAnswers → Pipes → Result PipeTransport × Pipes
connect_pipe direction w s = duplicated w (prepare_pipe direction w) s
