-- ===== src/Server/Shut.antt =====
-- What `close` does to the sockets, to their accept callbacks and to the socket file, and what a
-- handshake that fails over unsent data does to the count.
use zuvloop.Base.{
  ◌∙◌, ap, refl, ℕ, ◌≡◌, inl, inr, Bool, true, false, Option, none, some, List, [], ◌∷◌, arith, has,
  discard, if◌then◌else◌, is_none, Option-cases, ok, has-discard, has-discard_self,
}
use zuvloop.Server.Defs.{or_empty, Cleanup, is_done, wakeup, update, State}
use zuvloop.Server.Waking.{settle_keeps}
use zuvloop.Server.Close.{
  unlink_own, FileSystem, cancel_serving, close_listening, close_sockets, close,
}

-- No future of `serve_forever` is left to cancel.
abbrev is_settled : State → Bool
is_settled s = elim s.serving_forever [ none ↦ true | some f ↦ is_done (s.status f) ]

cancel_serving-settled : (s : State) → is_settled (cancel_serving s) ≡ true
unfolding cancel_serving
cancel_serving-settled s = ground arith

cancel_serving-id : (s : State) → is_settled s ≡ true → cancel_serving s ≡ s
unfolding cancel_serving
cancel_serving-id s h = ground arith

wakeup-settled : (s : State) → is_settled s ≡ true → is_settled (wakeup s) ≡ true
unfolding wakeup
wakeup-settled s h = elim (Option-cases s.serving_forever) [
  | inl idle ↦ ground arith
  | inr (f, e) ↦ ground (arith, settle_keeps (or_empty s.waiters) s.status f)
]

-- What the loop over the sockets and the clean-up of the socket file leave alone.
record Same (s t : State) : Type 0 where
  same_sockets : t.sockets ≡ s.sockets
  same_forever : t.serving_forever ≡ s.serving_forever
  same_status : t.status ≡ s.status
  same_serving : t.serving ≡ s.serving
  same_transports : t.transports ≡ s.transports

close_sockets-Same : (socks : List ℕ) (s : State) → Same s (close_sockets socks s)
unfolding close_sockets
close_sockets-Same [] s = ground arith
close_sockets-Same (x ∷ socks) s =
    let s' = record s {
      readers = if is_none (s.fileno x) then s.readers else discard x s.readers;
      fileno = update s.fileno x none;
    } in
    ground (arith, close_sockets-Same socks s')

unlink_own-Same : (fs : FileSystem) (o : Option Cleanup) (s : State) → Same s (unlink_own fs o s).1
unfolding unlink_own
unlink_own-Same fs none s = ground arith
unlink_own-Same fs (some c) s = ground arith

close_listening-settled :
    (fs : FileSystem) (o : Option (List ℕ)) (s : State)
    → s.sockets ≡ o
    → is_settled s ≡ true
    → (is_settled (close_listening fs o s).1 ≡ true) × ((close_listening fs o s).1.sockets ≡ none)
unfolding close_listening wakeup
close_listening-settled fs none s e h = (h, e)
close_listening-settled fs (some socks) s e h =
    let begun = record s { sockets = none; serving = false } in
    let shut = close_sockets socks begun in
    let forgotten = record shut { cleanup = none } in
    let end = (unlink_own fs shut.cleanup forgotten).1 in
    ground (
      arith,
      close_sockets-Same socks begun,
      unlink_own-Same fs shut.cleanup forgotten,
      wakeup-settled end,
    )

close_closed :
    (gs : FileSystem) (t : State) → t.sockets ≡ none → close_listening gs t.sockets t ≡ (ok tt, t)
unfolding close_listening
close_closed gs t shut = ap (λ o. close_listening gs o t) shut

-- However the first one ended, a second `close` raises nothing and changes nothing.
pub close_twice :
    (fs gs : FileSystem) (s : State) → close gs (close fs s).1 ≡ (ok tt, (close fs s).1)
unfolding close
close_twice fs gs s0 =
    let s = cancel_serving s0 in
    let t = (close_listening fs s.sockets s).1 in
    let (settled, shut) = close_listening-settled fs s.sockets s refl (cancel_serving-settled s0) in
    ap (λ (u : State). close_listening gs u.sockets u) (cancel_serving-id t settled)
    ∙ close_closed gs t shut

-- After the loop every socket is closed, and the callback of each that was open is gone.
close_sockets-fileno :
    (socks : List ℕ) (sock : ℕ) (s : State)
    → is_none (s.fileno sock) ≡ true
    → is_none ((close_sockets socks s).fileno sock) ≡ true
unfolding close_sockets
close_sockets-fileno [] sock s h = h
close_sockets-fileno (x ∷ socks) sock s h =
    let s' = record s {
      readers = if is_none (s.fileno x) then s.readers else discard x s.readers;
      fileno = update s.fileno x none;
    } in
    close_sockets-fileno socks sock s' (ground arith)

close_sockets-readers :
    (socks : List ℕ) (sock : ℕ) (s : State)
    → has sock s.readers ≡ false
    → has sock (close_sockets socks s).readers ≡ false
unfolding close_sockets
close_sockets-readers [] sock s h = h
close_sockets-readers (x ∷ socks) sock s h =
    let s' = record s {
      readers = if is_none (s.fileno x) then s.readers else discard x s.readers;
      fileno = update s.fileno x none;
    } in
    close_sockets-readers socks sock s' (ground (arith, has-discard sock x s.readers))

close_sockets-shut :
    (socks : List ℕ) (sock : ℕ) (s : State)
    → has sock socks ≡ true
    → is_none (s.fileno sock) ≡ false
    → (has sock (close_sockets socks s).readers ≡ false)
      × (is_none ((close_sockets socks s).fileno sock) ≡ true)
unfolding close_sockets
close_sockets-shut [] sock s h v = cc
close_sockets-shut (x ∷ socks) sock s h v =
    let s' = record s {
      readers = if is_none (s.fileno x) then s.readers else discard x s.readers;
      fileno = update s.fileno x none;
    } in
    ground (
      arith,
      has-discard_self sock s.readers,
      close_sockets-shut socks sock s',
      close_sockets-fileno socks sock s',
      close_sockets-readers socks sock s',
    )

pub cancel_serving_keeps :
    (s : State)
    → ((cancel_serving s).sockets ≡ s.sockets)
      × ((cancel_serving s).fileno ≡ s.fileno)
      × ((cancel_serving s).transports ≡ s.transports)
      × ((cancel_serving s).cleanup ≡ s.cleanup)
      × ((cancel_serving s).unlinked ≡ s.unlinked)
unfolding cancel_serving
cancel_serving_keeps s = ground arith

unlink_own_keeps :
    (fs : FileSystem) (o : Option Cleanup) (s : State)
    → ((unlink_own fs o s).1.readers ≡ s.readers) × ((unlink_own fs o s).1.fileno ≡ s.fileno)
unfolding unlink_own
unlink_own_keeps fs none s = ground arith
unlink_own_keeps fs (some c) s = ground arith

-- Closing an open server leaves it closed and not serving: each of its sockets that was still open is
-- closed and has no accept callback any more. The connections it accepted stay attached.
pub close_stops :
    (fs : FileSystem) (socks : List ℕ) (sock : ℕ) (s : State)
    → s.sockets ≡ some socks
    → has sock socks ≡ true
    → is_none (s.fileno sock) ≡ false
    → let s' = (close fs s).1 in
      (s'.sockets ≡ none)
      × (s'.serving ≡ false)
      × (has sock s'.readers ≡ false)
      × (is_none (s'.fileno sock) ≡ true)
      × (s'.transports ≡ s.transports)
unfolding close close_listening wakeup
close_stops fs socks sock s0 e member live =
    let s = cancel_serving s0 in
    let begun = record s { sockets = none; serving = false } in
    let shut = close_sockets socks begun in
    let forgotten = record shut { cleanup = none } in
    ground (
      arith,
      cancel_serving_keeps s0,
      close_sockets-Same socks begun,
      close_sockets-shut socks sock begun,
      unlink_own-Same fs shut.cleanup forgotten,
      unlink_own_keeps fs shut.cleanup forgotten,
    )
