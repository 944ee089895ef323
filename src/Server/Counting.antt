-- ===== src/Server/Counting.antt =====
-- The count of active connections: what every operation keeps.
use zuvloop.Base.{
  ℕ, ◌+◌, ◌≡◌, ◌<◌, true, false, Option, none, some, ◌∷◌, arith, length, has, discard, Exception,
  Result, ok, err, Distinct, Below, Within, Apart, Bool-cases, inl, inr, has-discard_self,
  has-discard, Below-discard, Within-discard, Apart-cons, Apart-discard, if◌then◌else◌,
}
use zuvloop.Base.Int.{pos, ◌-ℤ◌}
use zuvloop.Server.Defs.{
  State, wakeup, wake_if_drained, detach, attach, shutdown_and_close, close_transport, abort,
}
use zuvloop.Server.Accept.{Setup, attach_transport, accept_connection, disown}

-- The count is `extra` above the number of live transports and of TLS tasks that still own their
-- connection; such a connection is listed once, its socket object is open, and it has no transport.
pub record Counts (extra : ℕ) (s : State) : Type 0 where
  pub counted : s.active ≡ pos (extra + length s.live + length s.tasks)
  pub distinct : Distinct s.tasks
  pub viewed : Within s.tasks s.views
  pub unclosed : Apart s.tasks s.closing
  pub unlived : Apart s.tasks s.live
  pub tasks_below : Below s.next_connection s.tasks
  pub closing_below : Below s.next_connection s.closing
  pub live_below : Below s.next_connection s.live

abbrev pub IsCounted : State → Type 0
IsCounted = Counts 0

pub wakeup-Counts : (n : ℕ) (s : State) → Counts n s → Counts n (wakeup s)
unfolding wakeup
wakeup-Counts n s h = ground arith

pub wake_if_drained-Counts : (n : ℕ) (s : State) → Counts n s → Counts n (wake_if_drained s)
unfolding wake_if_drained
wake_if_drained-Counts n s h = ground (arith, wakeup-Counts n s)

-- `_detach` takes one off, and changes nothing else of the count.
pub detach-Counts : (o : Option ℕ) (s : State) → Counts 1 s → Counts 0 (detach o s)
unfolding detach ◌-ℤ◌
detach-Counts none s h =
    let s' = record s { active = s.active -ℤ pos 1 } in wake_if_drained-Counts 0 s' (ground arith)
detach-Counts (some c) s h =
    let s' = record s { transports = discard c s.transports; active = s.active -ℤ pos 1 } in
    wake_if_drained-Counts 0 s' (ground arith)

-- Closing or aborting the transport of a connection that no task owns.
module _ (n c : ℕ) (s : State) (free : has c s.tasks ≡ false) (below : c < s.next_connection) where
  pub shutdown_and_close-Counts : Counts n s → Counts n (shutdown_and_close c s)
  unfolding shutdown_and_close
  shutdown_and_close-Counts h = ground (arith, Within-discard c s.tasks s.views free)

module _ (n c : ℕ) (s : State) (free : has c s.tasks ≡ false) (below : c < s.next_connection) where
  marked-Counts : Counts n s → Counts n (record s { closing = c ∷ s.closing })
  marked-Counts h = ground (arith, Apart-cons c s.tasks s.closing free)

  pub close_transport-Counts : (buffered : ℕ) → Counts n s → Counts n (close_transport buffered c s)
  unfolding close_transport
  close_transport-Counts buffered h = ground (
    arith,
    marked-Counts h,
    shutdown_and_close-Counts n c (record s { closing = c ∷ s.closing }) free below,
  )

  pub abort-Counts : Counts n s → Counts n (abort c s)
  unfolding abort
  abort-Counts h =
      let s' = record s { closing = c ∷ discard c s.closing } in
      shutdown_and_close-Counts n c s' free below (
        ground (
          arith,
          Apart-cons c s.tasks (discard c s.closing) free,
          Apart-discard c s.tasks s.closing,
          Below-discard s.next_connection c s.closing,
        ))

-- What aborting leaves of the connection's socket object and of the tasks.
abort_views :
    (c : ℕ) (s : State)
    → has c s.views ≡ false
    → (has c (abort c s).views ≡ false) × ((abort c s).tasks ≡ s.tasks)
unfolding abort shutdown_and_close
abort_views c s gone = ground (arith, has-discard c c s.views)

-- What a step on behalf of connection `c` leaves: on success the count is right; on failure it is one
-- too high exactly if the socket object is still open, and no task owns the connection.
abbrev pub Accounted : ℕ → Result (Unit {0}) × State → Type 0
Accounted c (ok _, s) = Counts 0 s
Accounted c (err _, s) = Counts (if has c s.views then 1 else 0) s × (has c s.tasks ≡ false)

module _ (c : ℕ) (s : State) (free : has c s.tasks ≡ false) (below : c < s.next_connection)
    (view : has c s.views ≡ true) where
  pub attach_transport-Accounted :
      (setup : Setup) → Counts 1 s → Accounted c (attach_transport setup c s)
  unfolding attach_transport attach
  attach_transport-Accounted (Setup.factory_raises e) h = ground arith
  attach_transport-Accounted (Setup.make_raises e) h = ground arith
  attach_transport-Accounted (Setup.adopt_raises e) h =
      let made = record s {
        live = c ∷ s.live;
        open_handles = c ∷ s.open_handles;
        views = discard c s.views;
      } in
      let ready : Counts 0 made =
        ground (arith, Within-discard c s.tasks s.views free, Apart-cons c s.tasks s.live free) in
      let counts = abort-Counts 0 c made free below ready in
      let (gone, same) = abort_views c made (has-discard_self c s.views) in
      (rw gone counts, rw same free)
  attach_transport-Accounted Setup.attached h = ground (arith, Apart-cons c s.tasks s.live free)

  pub accept_connection-Accounted :
      (setup : Setup)
      → has c s.closing ≡ false
      → has c s.live ≡ false
      → Counts 1 s
      → Accounted c (accept_connection setup c s)
  unfolding accept_connection
  accept_connection-Accounted setup unclosed unlived h =
      ground (arith, attach_transport-Accounted setup h)

-- The clean-up after a failure puts the count right.
pub disown-Counts :
    (e : Exception) (c : ℕ) (s : State) → Accounted c (err e, s) → Counts 0 (disown e c s).1
unfolding disown
disown-Counts e c s (h, free) =
    let s' = record s { views = discard c s.views } in
    elim (Bool-cases (has c s.views)) [
      | inl view ↦
          let h' : Counts 1 s = rw view at h in
          rw view (detach-Counts none s' (ground (arith, Within-discard c s.tasks s.views free)))
      | inr gone ↦ rw gone (rw gone at h)
    ]
