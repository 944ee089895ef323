-- ===== src/Sendfile/Waking.antt =====
-- The write buffer of a transport when a call that awaited it wakes up.
use zuvloop.Base.{
  ltb, ℕ, ◌&&◌, refl, leb, ◌≡◌, ◌-◌, Bool, true, false, List, [], ◌∷◌, ◌||◌, not, arith, ◌+◌, ◌≤◌,
}
use zuvloop.Sendfile.Stream.{
  maybe_pause, Stream, Happening, maybe_resume, happen, happen_while, happen_unawaited, written,
  writes, closing_begins, gone, cancelling,
}
use zuvloop.Sendfile.Protocol.{waiting, unset, failed_wait, dropped, Waiter}
use zuvloop.Sendfile.Owning.{
  is_unset, is_waiting, IsOwned, Waits, happen-IsOwned, happen-Waits, resumed_if_buffer,
  paused_if_keeps,
}

-- The bytes of a `write` by another callback.
abbrev pub bytes_written : Happening → ℕ
bytes_written (writes n) = n
bytes_written (written n) = 0
bytes_written closing_begins = 0
bytes_written gone = 0
bytes_written cancelling = 0

-- How many bytes others write from the moment on at which the awaited future is done.
abbrev pub written_late : List Happening → Waiter → Stream → ℕ
written_late [] future t = 0
written_late (h ∷ hs) waiting t = written_late hs (happen h t).stand.waiter (happen h t)
written_late (h ∷ hs) unset t = bytes_written h + written_late hs unset (happen_unawaited h t)
written_late (h ∷ hs) failed_wait t =
    bytes_written h + written_late hs failed_wait (happen_unawaited h t)
written_late (h ∷ hs) dropped t = bytes_written h + written_late hs dropped (happen_unawaited h t)

unawaited_buffer :
    (h : Happening) (t : Stream) → (happen_unawaited h t).buffered ≤ t.buffered + bytes_written h
unfolding happen_unawaited happen maybe_resume maybe_pause
unawaited_buffer (written n) t = omega (
  arith,
  resumed_if_buffer (not t.stand.closing && leb (t.buffered - n) t.low)
      (record t { buffered = t.buffered - n }),
)
unawaited_buffer (writes n) t = omega (
  arith,
  (paused_if_keeps (ltb t.high (t.buffered + n)) (record t { buffered = t.buffered + n })).3,
)
unawaited_buffer closing_begins t = omega arith
unawaited_buffer gone t = omega arith
unawaited_buffer cancelling t = omega arith

-- A call that was woken because the buffer was written finds in it only what others wrote later.
done_buffer :
    (hs : List Happening) (t : Stream)
    → (happen_while hs unset t).1.buffered ≤ t.buffered + written_late hs unset t
unfolding happen_while
done_buffer [] t = omega arith
done_buffer (h ∷ hs) t = omega (arith, done_buffer hs (happen_unawaited h t), unawaited_buffer h t)

-- The end of a wait: the future is not done by a result, or the buffer has only late bytes.
abbrev EndsEmpty : List Happening → Waiter → Stream → Type 0
EndsEmpty hs future t =
    (not (is_unset (happen_while hs future t).0)
      || leb (happen_while hs future t).1.buffered (written_late hs future t))
    ≡ true

stays_done :
    (hs : List Happening) (future : Waiter) (t : Stream)
    → is_waiting future ≡ false
    → (happen_while hs future t).0 ≡ future
unfolding happen_while
stays_done [] future t h = refl
stays_done (x ∷ hs) waiting t h = cc
stays_done (x ∷ hs) unset t h = stays_done hs unset (happen_unawaited x t) h
stays_done (x ∷ hs) failed_wait t h = stays_done hs failed_wait (happen_unawaited x t) h
stays_done (x ∷ hs) dropped t h = stays_done hs dropped (happen_unawaited x t) h

pub happen_while-EndsEmpty :
    (reading : Bool) (hs : List Happening) (future : Waiter) (t : Stream)
    → t.stand.waiter ≡ future
    → IsOwned reading t
    → Waits t
    → EndsEmpty hs future t
unfolding happen_while
happen_while-EndsEmpty reading [] waiting t e o w = refl
happen_while-EndsEmpty reading [] unset t e o w = ground (arith, e, w)
happen_while-EndsEmpty reading [] failed_wait t e o w = refl
happen_while-EndsEmpty reading [] dropped t e o w = refl
happen_while-EndsEmpty reading (h ∷ hs) waiting t e o w =
    happen_while-EndsEmpty reading hs (happen h t).stand.waiter (happen h t) refl
      (happen-IsOwned reading h t o) (happen-Waits h t o.low e w)
happen_while-EndsEmpty reading (h ∷ hs) unset t e o w =
    ground (arith, e, w, stays_done (h ∷ hs) unset t refl, done_buffer (h ∷ hs) t)
happen_while-EndsEmpty reading (h ∷ hs) failed_wait t e o w =
    ground (arith, stays_done hs failed_wait (happen_unawaited h t) refl)
happen_while-EndsEmpty reading (h ∷ hs) dropped t e o w =
    ground (arith, stays_done hs dropped (happen_unawaited h t) refl)
