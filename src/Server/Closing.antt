-- ===== src/Server/Closing.antt =====
-- `close`, `_start_serving` and the coroutines keep the invariant.
use zuvloop.Base.{
  ℕ, ◌≡◌, refl, true, false, Option, none, some, List, [], ◌∷◌, ◌++◌, arith, discard, if◌then◌else◌,
  Bool-cases, inl, inr, Below-suc, Distinct-erase, Below-erase, Below-has, Option-cases, is_none,
  has-append,
}
use zuvloop.Server.Defs.{
  State, Cleanup, pending, cancelled, update, is_closed, is_zero, or_empty, wakeup,
}
use zuvloop.Server.Accept.{Listening, listen_all, add_readers, start_serving}
use zuvloop.Server.Close.{
  FileSystem, cancel_serving, close_sockets, unlink_own, close_listening, close,
}
use zuvloop.Server.Waiting.{fresh, wait_closed, wait_closed_end, serve_forever}
use zuvloop.Server.Counting.{Counts, wakeup-Counts}
use zuvloop.Server.Waking.{
  Frame, Frame-IsDrained, Parked, IsParked, Frame-IsParked, wakeup-IsParked, Parked-cancelled,
  Parked-fresh, Parked-append, Parked-leave,
}
use zuvloop.Server.Sound.{IsSound}

-- The connections and the waiters are as they were.
pub record Kept (s t : State) : Type 0 where
  pub frame : Frame s t
  pub same_live : t.live ≡ s.live
  pub same_tasks : t.tasks ≡ s.tasks
  pub same_views : t.views ≡ s.views
  pub same_closing : t.closing ≡ s.closing
  pub same_connection : t.next_connection ≡ s.next_connection

pub Kept-refl : (s : State) → Kept s s
Kept-refl s = ground arith

pub Kept-trans : (s t u : State) → Kept s t → Kept t u → Kept s u
Kept-trans s t u k l = ground arith

Kept-Counts : (s t : State) → Kept s t → Counts 0 s → Counts 0 t
Kept-Counts s t k h = record {
  counted = rw (k.frame.same_active, k.same_live, k.same_tasks) h.counted;
  distinct = rw k.same_tasks h.distinct;
  viewed = rw (k.same_tasks, k.same_views) h.viewed;
  unclosed = rw (k.same_tasks, k.same_closing) h.unclosed;
  unlived = rw (k.same_tasks, k.same_live) h.unlived;
  tasks_below = rw (k.same_tasks, k.same_connection) h.tasks_below;
  closing_below = rw (k.same_closing, k.same_connection) h.closing_below;
  live_below = rw (k.same_live, k.same_connection) h.live_below;
}

pub Kept-IsSound : (s t : State) → Kept s t → IsSound s → IsSound t
Kept-IsSound s t k h = record {
  counts = Kept-Counts s t k h.counts;
  drained = Frame-IsDrained s t k.frame h.drained;
  parked = Frame-IsParked s t k.frame h.parked;
}

listen_all-Kept : (w : Listening) (socks : List ℕ) (s : State) → Kept s (listen_all w socks s).1
unfolding listen_all
listen_all-Kept w [] s = Kept-refl s
listen_all-Kept w (sock ∷ socks) s =
    let s' = record s { listened = sock ∷ s.listened } in ground (arith, listen_all-Kept w socks s')

add_readers-Kept : (w : Listening) (socks : List ℕ) (s : State) → Kept s (add_readers w socks s).1
unfolding add_readers
add_readers-Kept w [] s = Kept-refl s
add_readers-Kept w (sock ∷ socks) s =
    let s' = record s { readers = sock ∷ discard sock s.readers } in
    ground (arith, add_readers-Kept w socks s')

start_socks-Kept :
    (w : Listening) (o : Option (List ℕ)) (s : State) → s.sockets ≡ o → Kept s (start_serving w s).1
unfolding start_serving
start_socks-Kept w none s e = ground arith
start_socks-Kept w (some socks) s e =
    let begun = record s { serving = true } in
    ground (
      arith,
      listen_all-Kept w socks begun,
      add_readers-Kept w socks (listen_all w socks begun).1,
      add_readers-Kept w socks s,
    )

pub start_serving-Kept : (w : Listening) (s : State) → Kept s (start_serving w s).1
start_serving-Kept w s = start_socks-Kept w s.sockets s refl

close_sockets-Kept : (socks : List ℕ) (s : State) → Kept s (close_sockets socks s)
unfolding close_sockets
close_sockets-Kept [] s = Kept-refl s
close_sockets-Kept (sock ∷ socks) s =
    let s' = record s {
      readers = if is_none (s.fileno sock) then s.readers else discard sock s.readers;
      fileno = update s.fileno sock none;
    } in
    ground (arith, close_sockets-Kept socks s')

unlink_own-Kept : (fs : FileSystem) (o : Option Cleanup) (s : State) → Kept s (unlink_own fs o s).1
unfolding unlink_own
unlink_own-Kept fs none s = Kept-refl s
unlink_own-Kept fs (some c) s = ground arith

cancel_serving-IsSound : (s : State) → IsSound s → IsSound (cancel_serving s)
unfolding cancel_serving
cancel_serving-IsSound s h = elim (Option-cases s.serving_forever) [
  | inl idle ↦ ground arith
  | inr (f, e) ↦ ground (arith, Parked-cancelled s.waiting (or_empty s.waiters) s.status f)
]

-- The end of `close`, once `_sockets` is None.
finish_close :
    (s : State)
    → Counts 0 s
    → IsParked s
    → is_closed s.sockets ≡ true
    → is_closed s.waiters ≡ false
    → IsSound (if is_zero s.active then wakeup s else s)
unfolding wakeup
finish_close s h p shut awake = elim (Bool-cases (is_zero s.active)) [
  | inl over ↦ rw over (record {
    counts = wakeup-Counts 0 s h;
    drained = ground arith;
    parked = wakeup-IsParked s p;
  })
  | inr busy ↦ rw busy (record { counts = h; drained = ground arith; parked = p })
]

close_listening-IsSound :
    (fs : FileSystem) (o : Option (List ℕ)) (s : State)
    → s.sockets ≡ o
    → IsSound s
    → IsSound (close_listening fs o s).1
unfolding close_listening
close_listening-IsSound fs none s e h = h
close_listening-IsSound fs (some socks) s e h =
    let begun = record s { sockets = none; serving = false } in
    let shut = close_sockets socks begun in
    let forgotten = record shut { cleanup = none } in
    let done = (unlink_own fs shut.cleanup forgotten).1 in
    let k : Kept begun done =
      Kept-trans begun shut done (close_sockets-Kept socks begun) (
        Kept-trans shut forgotten done (ground arith)
          (unlink_own-Kept fs shut.cleanup forgotten)) in
    finish_close done (Kept-Counts begun done k (ground arith))
      (Frame-IsParked begun done k.frame (ground arith)) (rw k.frame.same_sockets refl)
      (rw k.frame.same_waiters (ground arith))

-- Closing, at any moment, keeps the invariant.
pub close-IsSound : (fs : FileSystem) (s : State) → IsSound s → IsSound (close fs s).1
unfolding close
close-IsSound fs s h =
    let s' = cancel_serving s in
    close_listening-IsSound fs s'.sockets s' refl (cancel_serving-IsSound s h)

pub cancelled-IsSound :
    (w : ℕ) (s : State) → IsSound s → IsSound (record s { status = update s.status w cancelled })
cancelled-IsSound w s h =
    ground (arith, Parked-cancelled s.waiting (or_empty s.waiters) s.status w h.parked.parked)

-- A new future that its caller awaits and that `_wakeup` will find.
queued-IsSound :
    (ws : List ℕ) (s : State)
    → s.waiters ≡ some ws
    → IsSound s
    → IsSound (record (fresh s) {
      waiters = some (ws ++ (s.next_future ∷ []));
      waiting = s.next_future ∷ s.waiting;
    })
queued-IsSound ws s e h =
    let w = s.next_future in
    let before : Parked s.waiting s.status ws = rw e at h.parked.parked in
    let fresh_parked = Parked-fresh s.waiting ws s.status w h.parked.below before in
    record {
      counts = ground arith;
      drained = ground arith;
      parked = record {
        parked = (
          ground (arith, has-append w ws (w ∷ [])),
          Parked-append s.waiting ws (update s.status w pending) w fresh_parked,
        );
        distinct = (Below-has w s.waiting h.parked.below, h.parked.distinct);
        below = (omega arith, Below-suc w s.waiting h.parked.below);
      };
    }

pub wait_closed-IsSound : (s : State) → IsSound s → IsSound (wait_closed s).1
unfolding wait_closed
wait_closed-IsSound s h = elim (Option-cases s.waiters) [
  | inl e ↦ ground arith
  | inr (ws, e) ↦ ground (arith, queued-IsSound ws s e h)
]

pub wait_closed_end-IsSound : (w : ℕ) (s : State) → IsSound s → IsSound (wait_closed_end w s)
unfolding wait_closed_end
wait_closed_end-IsSound w s h = ground (
  arith,
  Parked-leave s.waiting (or_empty s.waiters) s.status w,
  Distinct-erase w s.waiting,
  Below-erase s.next_future w s.waiting,
)

fresh-IsSound :
    (s : State) → IsSound s → IsSound (record (fresh s) { serving_forever = some s.next_future })
fresh-IsSound s h = record {
  counts = ground arith;
  drained = h.drained;
  parked = record {
    parked =
        Parked-fresh s.waiting (or_empty s.waiters) s.status s.next_future h.parked.below
          h.parked.parked;
    distinct = h.parked.distinct;
    below = Below-suc s.next_future s.waiting h.parked.below;
  };
}

pub serve_forever-IsSound : (w : Listening) (s : State) → IsSound s → IsSound (serve_forever w s).1
unfolding serve_forever
serve_forever-IsSound w s h =
    let t = (start_serving w s).1 in
    let started = Kept-IsSound s t (start_serving-Kept w s) h in
    ground (arith, started, fresh-IsSound t started, fresh-IsSound s h)
