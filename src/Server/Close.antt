-- ===== src/Server/Close.antt =====
-- `close`, `close_clients` and `abort_clients`.
use zuvloop.Base.{
  ℕ, false, Option, none, some, List, [], ◌∷◌, ◌&&◌, ◌==◌, discard, if◌then◌else◌, is_none, Result,
  ok, err, is_os_error,
}
use zuvloop.Server.Defs.{
  State, Cleanup, update, cancelled, is_done, is_zero, wakeup, close_transport, abort,
}

-- What `os.stat` (device and inode) and `os.unlink` answer for a path.
pub record FileSystem : Type 0 where
  pub stat : ℕ → Result (ℕ × ℕ)
  pub unlink : ℕ → Result (Unit {0})

-- `serving_forever.cancel()`, which drops the future too.
unfoldable pub cancel_serving : State → State
cancel_serving s = elim s.serving_forever [
  | none ↦ s
  | some f ↦
      if is_done (s.status f)
      then s
      else record s { serving_forever = none; status = update s.status f cancelled }
]

-- The loop over the sockets: the accept callback goes where there is still a descriptor, and the
-- socket is closed.
unfoldable pub close_sockets : List ℕ → State → State
close_sockets [] s = s
close_sockets (sock ∷ socks) s = close_sockets socks (record s {
  readers = if is_none (s.fileno sock) then s.readers else discard sock s.readers;
  fileno = update s.fileno sock none;
})

-- Only a path that still names the socket that was bound is unlinked.
unfoldable pub unlink_own : FileSystem → Option Cleanup → State → Result (Unit {0}) × State
unlink_own fs none s = (ok tt, s)
unlink_own fs (some c) s = elim (fs.stat c.path) [
  | err e ↦ (err e, s)
  | ok (device, inode) ↦
      if (device == c.device) && (inode == c.inode)
      then elim (fs.unlink c.path) [
        | ok _ ↦ (ok tt, record s { unlinked = c.path ∷ s.unlinked })
        | err e ↦ (err e, s)
      ]
      else (ok tt, s)
]

-- The `except` clauses: an `OSError` is logged at most.
unfoldable pub forgive : Result (Unit {0}) → Result (Unit {0})
forgive (ok _) = ok tt
forgive (err e) = if is_os_error e then ok tt else err e

-- `close` from where it has read `_sockets`.
unfoldable pub close_listening : FileSystem → Option (List ℕ) → State → Result (Unit {0}) × State
close_listening fs none s = (ok tt, s)
close_listening fs (some socks) s =
    let shut = close_sockets socks (record s { sockets = none; serving = false }) in
    let (r, s') = unlink_own fs shut.cleanup (record shut { cleanup = none }) in
    (forgive r, (if is_zero s'.active then wakeup s' else s'))

-- `close`
unfoldable pub close : FileSystem → State → Result (Unit {0}) × State
close fs s0 = let s = cancel_serving s0 in close_listening fs s.sockets s

-- `close_clients`, where `buffered` tells each transport's write buffer.
unfoldable pub close_each : (ℕ → ℕ) → List ℕ → State → State
close_each buffered [] s = s
close_each buffered (c ∷ cs) s = close_each buffered cs (close_transport (buffered c) c s)

unfoldable pub close_clients : (ℕ → ℕ) → State → State
close_clients buffered s = close_each buffered s.transports s

unfoldable pub abort_each : List ℕ → State → State
abort_each [] s = s
abort_each (c ∷ cs) s = abort_each cs (abort c s)

-- `abort_clients`
unfoldable pub abort_clients : State → State
abort_clients s = abort_each s.transports s
