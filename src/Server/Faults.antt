-- ===== src/Server/Faults.antt =====
-- The socket file that `close` removes, and a handshake that fails over unsent data.
use zuvloop.Base.{
  Apart-has_left, Within-has, length-erase, erase, refl, sym, ◌∙◌, ℕ, suc, ◌+◌, ◌≡◌, true, false,
  Option, none, some, List, [], ◌∷◌, arith, has, discard, length, if◌then◌else◌, is_none, Exception,
  ok,
}
use zuvloop.Server.Defs.{
  wake_if_drained, detach, attach, close_transport, update, State, Cleanup, wakeup,
}
use zuvloop.Server.Accept.{
  Setup, report, attach_transport, tls_failed, Handshake, wrap_accepted, accept_tls,
}
use zuvloop.Base.Int.{◌-ℤ◌, pos, ◌+ℤ◌}
use zuvloop.Server.Shut.{cancel_serving_keeps}
use zuvloop.Server.Close.{
  cancel_serving, FileSystem, close_listening, close_sockets, close, unlink_own,
}
use zuvloop.Server.Counting.{IsCounted}

close_sockets-unlinked :
    (socks : List ℕ) (s : State)
    → ((close_sockets socks s).unlinked ≡ s.unlinked)
      × ((close_sockets socks s).cleanup ≡ s.cleanup)
unfolding close_sockets
close_sockets-unlinked [] s = ground arith
close_sockets-unlinked (x ∷ socks) s =
    let s' = record s {
      readers = if is_none (s.fileno x) then s.readers else discard x s.readers;
      fileno = update s.fileno x none;
    } in
    ground (arith, close_sockets-unlinked socks s')

-- The file has the device and inode that it was bound with.
abbrev pub IsOwn : FileSystem → Cleanup → Type 0
IsOwn fs c = fs.stat c.path ≡ ok (c.device, c.inode)

unlink_own-IsOwn :
    (fs : FileSystem) (o : Option Cleanup) (s : State) (p : ℕ)
    → has p (unlink_own fs o s).1.unlinked ≡ true
    → has p s.unlinked ≡ false
    → (c : Cleanup) × (o ≡ some c) × (c.path ≡ p) × IsOwn fs c
unfolding unlink_own
unlink_own-IsOwn fs none s p after before = cc
unlink_own-IsOwn fs (some c) s p after before = (c, refl, ground arith, ground arith)

wakeup-unlinked : (s : State) → (wakeup s).unlinked ≡ s.unlinked
unfolding wakeup
wakeup-unlinked s = refl

close_listening-IsOwn :
    (fs : FileSystem) (o : Option (List ℕ)) (s : State) (p : ℕ)
    → has p s.unlinked ≡ false
    → has p (close_listening fs o s).1.unlinked ≡ true
    → (c : Cleanup) × (s.cleanup ≡ some c) × (c.path ≡ p) × IsOwn fs c
unfolding close_listening
close_listening-IsOwn fs none s p before after = cc
close_listening-IsOwn fs (some socks) s p before after =
    let begun = record s { sockets = none; serving = false } in
    let shut = close_sockets socks begun in
    let forgotten = record shut { cleanup = none } in
    let done = (unlink_own fs shut.cleanup forgotten).1 in
    let kept = close_sockets-unlinked socks begun in
    let (c, e, same, own) =
      unlink_own-IsOwn fs shut.cleanup forgotten p (ground (arith, wakeup-unlinked done))
        (rw kept.0 before) in
    (c, sym kept.1 ∙ e, same, own)

-- A path that `close` unlinks is the path of the server's own socket file, and at that moment it still
-- has the device and inode with which the socket was bound.
pub close-IsOwn :
    (fs : FileSystem) (s : State) (p : ℕ)
    → has p s.unlinked ≡ false
    → has p (close fs s).1.unlinked ≡ true
    → (c : Cleanup) × (s.cleanup ≡ some c) × (c.path ≡ p) × IsOwn fs c
unfolding close
close-IsOwn fs s0 p before after =
    let s = cancel_serving s0 in
    let kept = cancel_serving_keeps s0 in
    let (c, e, same, own) = close_listening-IsOwn fs s.sockets s p (rw kept.4 before) after in
    (c, sym kept.3 ∙ e, same, own)

tls_failed_detaches :
    (e : Exception) (c : ℕ) (s : State)
    → has c s.views ≡ true
    → let s' = (tls_failed e c s).1 in
      (s'.live ≡ s.live) × (s'.tasks ≡ s.tasks) × (s'.active ≡ s.active -ℤ pos 1)
unfolding tls_failed report detach wake_if_drained wakeup
tls_failed_detaches e c s view = ground arith

-- What a transport with unsent data keeps when it is asked to close.
lingers :
    (unsent c : ℕ) (s : State)
    → has c s.closing ≡ false
    → let s' = close_transport (suc unsent) c s in
      (s'.live ≡ s.live) × (s'.tasks ≡ s.tasks) × (s'.active ≡ s.active) × (s'.views ≡ s.views)
unfolding close_transport
lingers unsent c s new = ground arith

attached_counts :
    (c : ℕ) (s : State)
    → IsCounted s
    → has c s.tasks ≡ true
    → s.active ≡ pos (length (c ∷ s.live) + length (erase c s.tasks))
attached_counts c s h owned = ground (arith, length-erase c s.tasks)

double_detach_of :
    (e : Exception) (unsent c : ℕ) (s : State)
    → s.active ≡ pos (length s.live + length s.tasks)
    → has c s.live ≡ true
    → has c s.closing ≡ false
    → has c s.views ≡ true
    → let s' = (tls_failed e c (close_transport (suc unsent) c s)).1 in
      (has c s'.live ≡ true) × (s'.active +ℤ pos 1 ≡ pos (length s'.live + length s'.tasks))
unfolding ◌+ℤ◌ ◌-ℤ◌
double_detach_of e unsent c s counted live new view =
    let t = close_transport (suc unsent) c s in
    let (l, k, a, v) = lingers unsent c s new in
    let (l', k', a') = tls_failed_detaches e c t (rw v view) in ground (arith, l, k, a, l', k', a')

-- A TLS handshake that fails while its transport still has unsent data leaves the socket object's
-- descriptor open, so the task closes that descriptor and detaches: the count falls one below the
-- number of live transports and TLS tasks, before the transport's own close callback detaches again.
pub accept_tls_double_detach :
    (e : Exception) (unsent c : ℕ) (s : State)
    → IsCounted s
    → has c s.tasks ≡ true
    → let s' = (accept_tls (Handshake.handshake_raises e (suc unsent)) c s).1 in
      (has c s'.live ≡ true) × (s'.active +ℤ pos 1 ≡ pos (length s'.live + length s'.tasks))
unfolding accept_tls wrap_accepted attach_transport attach
accept_tls_double_detach e unsent c s h owned =
    let s' = record s { tasks = erase c s.tasks } in
    let made = (attach_transport Setup.attached c s').1 in
    let view = Within-has c s.tasks s.views h.viewed owned in
    let new = Apart-has_left c s.tasks s.closing h.unclosed owned in
    double_detach_of e unsent c made (attached_counts c s h owned) (ground arith) new view
