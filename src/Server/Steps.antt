-- ===== src/Server/Steps.antt =====
-- A server's life as steps in any order: connections, TLS tasks, close callbacks, the coroutines and
-- cancellations, each a run of the code up to where it gives the event loop back control.
use zuvloop.Base.{
  ◌∷◌, ℕ, ◌≡◌, true, false, none, [], arith, has, length, Exception, Option, Bool, ◌+◌, ◌<◌,
  Apart-has, List, Below-lt,
}
use zuvloop.Base.Int.{pos}
use zuvloop.Server.Defs.{
  State, Status, new_server, cancelled, update, is_done, is_closed, shutdown_and_close,
  close_transport, abort, on_closed,
}
use zuvloop.Server.Accept.{
  Setup, take_in, Errnos, refuse, Handshake, accept_tls, Listening, start_serving,
}
use zuvloop.Server.Close.{FileSystem, close}
use zuvloop.Server.Waiting.{wait_closed, wait_closed_end, serve_forever, serve_forever_end}
use zuvloop.Server.Counting.{
  Counts, shutdown_and_close-Counts, close_transport-Counts, abort-Counts,
}
use zuvloop.Server.Admission.{take_in-Counts, on_closed-Counts}
use zuvloop.Server.Handshakes.{IsFlushed, accept_tls-Counts}
use zuvloop.Server.Frames.{shutdown-Frame, close_transport-Frame, abort-Frame}
use zuvloop.Server.Waking.{Frame, Parked, Frame-IsDrained, Frame-IsParked}
use zuvloop.Server.Sound.{
  IsSound, take_in-IsWakeable, accept_tls-IsWakeable, on_closed-IsWakeable, awake_of_live,
  awake_of_task,
}
use zuvloop.Server.Closing.{
  Kept-IsSound, start_serving-Kept, close-IsSound, cancelled-IsSound, wait_closed-IsSound,
  wait_closed_end-IsSound, serve_forever-IsSound,
}

-- `accept` finds a connection only while the listening socket is open; the close callback comes once
-- for a live transport.
pub data Step (s : State) : State → Type 0 where
  connection : (setup : Setup) → is_closed s.sockets ≡ false → Step s (take_in setup s).1
  no_connection : (n : Errnos) (sock : ℕ) (e : Exception) → Step s (refuse n sock e s).1
  tls_task :
      (handshake : Handshake) (c : ℕ) → has c s.tasks ≡ true → Step s (accept_tls handshake c s).1
  client_closes : (buffered c : ℕ) → has c s.live ≡ true → Step s (close_transport buffered c s)
  client_aborts : (c : ℕ) → has c s.live ≡ true → Step s (abort c s)
  client_drains : (c : ℕ) → has c s.live ≡ true → Step s (shutdown_and_close c s)
  closed : (c : ℕ) → has c s.live ≡ true → Step s (on_closed c s)
  starts : (w : Listening) → Step s (start_serving w s).1
  closes : (fs : FileSystem) → Step s (close fs s).1
  waits : Step s (wait_closed s).1
  cancels : (w : ℕ) → Step s (record s { status = update s.status w cancelled })
  resumes : (w : ℕ) → is_done (s.status w) ≡ true → Step s (wait_closed_end w s)
  serves : (w : Listening) → Step s (serve_forever w s).1
  served : Step s (serve_forever_end s)

pub data Reach (s : State) : State → Type 0 where
  here : Reach s s
  next : {t u : State} → Reach s t → Step t u → Reach s u

-- A handshake that fails or is cancelled in this step meets an empty write buffer.
abbrev pub IsFlushing : {s t : State} → Step s t → Type 0
IsFlushing (tls_task handshake c owned) = IsFlushed handshake
IsFlushing _ = Unit

-- No TLS handshake of the run fails or is cancelled over unsent bytes.
abbrev pub AllFlushed : {s t : State} → Reach s t → Type 0
AllFlushed here = Unit
AllFlushed (next r st) = AllFlushed r × IsFlushing st

-- A step on a live transport leaves the waiters alone and meets no TLS task's connection.
live_step :
    (c : ℕ) (s t : State)
    → has c s.live ≡ true
    → IsSound s
    → Frame s t
    → (has c s.tasks ≡ false → c < s.next_connection → Counts 0 s → Counts 0 t)
    → IsSound t
live_step c s t live h f keep = record {
  counts =
      keep (Apart-has c s.tasks s.live h.counts.unlived live)
        (Below-lt s.next_connection c s.live h.counts.live_below live) h.counts;
  drained = Frame-IsDrained s t f h.drained;
  parked = Frame-IsParked s t f h.parked;
}

Step-IsSound : {s t : State} (st : Step s t) → IsFlushing st → IsSound s → IsSound t
unfolding refuse serve_forever_end
Step-IsSound {s} (connection setup listening) _ h =
    let (d, p) = take_in-IsWakeable setup s listening (h.drained, h.parked) in
    record { counts = take_in-Counts setup s h.counts; drained = d; parked = p }
Step-IsSound {s} (no_connection n sock e) _ h = ground arith
Step-IsSound {s} (tls_task handshake c owned) flushed h =
    let (d, p) =
      accept_tls-IsWakeable handshake c s (awake_of_task c s h owned) (h.drained, h.parked) in
    record {
      counts = accept_tls-Counts handshake c s owned flushed h.counts;
      drained = d;
      parked = p;
    }
Step-IsSound {s} (client_closes buffered c live) _ h =
    live_step c s (close_transport buffered c s) live h (close_transport-Frame buffered c s)
      (λ free below. close_transport-Counts 0 c s free below buffered)
Step-IsSound {s} (client_aborts c live) _ h =
    live_step c s (abort c s) live h (abort-Frame c s) (λ free below. abort-Counts 0 c s free below)
Step-IsSound {s} (client_drains c live) _ h =
    live_step c s (shutdown_and_close c s) live h (shutdown-Frame c s)
      (λ free below. shutdown_and_close-Counts 0 c s free below)
Step-IsSound {s} (closed c live) _ h =
    let (d, p) = on_closed-IsWakeable c s (awake_of_live c s h live) (h.drained, h.parked) in
    record { counts = on_closed-Counts c s live h.counts; drained = d; parked = p }
Step-IsSound {s} (starts w) _ h = Kept-IsSound s (start_serving w s).1 (start_serving-Kept w s) h
Step-IsSound {s} (closes fs) _ h = close-IsSound fs s h
Step-IsSound {s} waits _ h = wait_closed-IsSound s h
Step-IsSound {s} (cancels w) _ h = cancelled-IsSound w s h
Step-IsSound {s} (resumes w done) _ h = wait_closed_end-IsSound w s h
Step-IsSound {s} (serves w) _ h = serve_forever-IsSound w s h
Step-IsSound {s} served _ h = ground arith

Reach-IsSound : {s t : State} → IsSound s → (r : Reach s t) → AllFlushed r → IsSound t
Reach-IsSound h here f = h
Reach-IsSound h (next r st) (f, flushed) = Step-IsSound st flushed (Reach-IsSound h r f)

abbrev pub AllDone : (ℕ → Status) → List ℕ → Type 0
AllDone f [] = Unit
AllDone f (w ∷ r) = (is_done (f w) ≡ true) × AllDone f r

Parked-done : (r : List ℕ) (f : ℕ → Status) → Parked r f [] → AllDone f r
Parked-done [] f p = tt
Parked-done (w ∷ r) f p = (ground arith, Parked-done r f p.1)

over_of_woken :
    (s : State) → IsSound s → s.waiters ≡ none → (s.sockets ≡ none) × (s.live ≡ []) × (s.tasks ≡ [])
over_of_woken s h woken = ground arith

woken_of_over :
    (s : State) → IsSound s → s.sockets ≡ none → s.live ≡ [] → s.tasks ≡ [] → s.waiters ≡ none
woken_of_over s h shut gone settled = ground arith

module _ (socks : List ℕ) (fileno : ℕ → Option ℕ) (has_ssl : Bool) (backlog : ℕ) {s : State}
    (r : Reach (new_server socks fileno has_ssl backlog) s) (flushed : AllFlushed r) where
  reached : IsSound s
  unfolding new_server
  reached = Reach-IsSound (ground arith) r flushed

  -- In every state that a server can reach by a run in which no TLS handshake fails or is cancelled
  -- while its transport has unsent bytes, whatever else failed on the way, `_active` is the number
  -- of its native transports that have not reported their close, plus the number of accepted TLS
  -- connections that have no transport yet.
  pub active_counts : s.active ≡ pos (length s.live + length s.tasks)
  active_counts = ground (arith, reached.counts.counted)

  -- In every state that a server can reach by a run in which no TLS handshake fails or is cancelled
  -- while its transport has unsent bytes, once it is closed, its transports have reported their
  -- close and no TLS connection is without its transport, `_waiters` is None and every future that
  -- a `wait_closed` call awaits is done.
  pub closed_wakes :
      s.sockets ≡ none
      → s.live ≡ []
      → s.tasks ≡ []
      → (s.waiters ≡ none) × AllDone s.status s.waiting
  closed_wakes shut gone settled =
      let woken = woken_of_over s reached shut gone settled in
      let parked : Parked s.waiting s.status [] = rw woken at reached.parked.parked in
      (woken, Parked-done s.waiting s.status parked)

  -- In every state that a server can reach by a run in which no TLS handshake fails or is cancelled
  -- while its transport has unsent bytes, if `_waiters` is None, the server is closed, all its
  -- transports have reported their close and no TLS connection is without its transport.
  pub woken_is_over : s.waiters ≡ none → (s.sockets ≡ none) × (s.live ≡ []) × (s.tasks ≡ [])
  woken_is_over woken = over_of_woken s reached woken
