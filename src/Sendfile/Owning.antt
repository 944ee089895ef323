-- ===== src/Sendfile/Owning.antt =====
-- The marks, the flags and the waiter of a transport that a transfer has taken over.
use zuvloop.Base.{
  ◌∙◌, ltb, ℕ, ◌&&◌, refl, leb, ◌≡◌, ◌-◌, Bool, true, false, List, [], ◌∷◌, ◌||◌, not, arith,
  Bool-cases, inl, inr, ◌+◌,
}
use zuvloop.Sendfile.Stream.{
  paused_if, maybe_pause, set_limits, resumed_if, Stream, Happening, maybe_resume, happen,
  happen_all, happen_while, happen_unawaited, written, writes, closing_begins, gone, cancelling,
}
use zuvloop.Sendfile.Protocol.{
  stand_in, pauses, resumes, loses, cancels, waiting, unset, failed_wait, dropped, Event, Stand,
  Waiter, deliver,
}
use zuvloop.Sendfile.Restoring.{deliver_keeps}

abbrev pub is_unset : Waiter → Bool
is_unset unset = true
is_unset waiting = false
is_unset failed_wait = false
is_unset dropped = false

abbrev pub is_waiting : Waiter → Bool
is_waiting waiting = true
is_waiting unset = false
is_waiting failed_wait = false
is_waiting dropped = false

-- What holds from `set_write_buffer_limits(high=0, low=0)` on, for a transport that read or not.
pub record IsOwned (reading : Bool) (t : Stream) : Type 0 where
  pub low : t.low ≡ 0
  pub high : t.high ≡ 0
  pub stopped_reading : t.stand.reading ≡ false
  pub later : t.stand.resume_reading_later ≡ reading
  pub installed : t.stand.installed ≡ true

-- A stream with bytes in its buffer has a waiter.
abbrev pub Waits : Stream → Type 0
Waits t = (leb t.buffered 0 || not (is_unset t.stand.waiter)) ≡ true

pub deliver-installed : (e : Event) (s : Stand) → (deliver e s).installed ≡ s.installed
unfolding deliver
deliver-installed pauses s = ground arith
deliver-installed resumes s = ground arith
deliver-installed loses s = ground arith
deliver-installed cancels s = ground arith

deliver-IsOwned :
    (reading : Bool) (e : Event) (t : Stream)
    → IsOwned reading t
    → IsOwned reading (record t { stand = deliver e t.stand })
deliver-IsOwned reading e t h = record {
  low = h.low;
  high = h.high;
  stopped_reading = ground (arith, deliver_keeps e t.stand, h.stopped_reading);
  later = ground (arith, deliver_keeps e t.stand, h.later);
  installed = ground (arith, deliver-installed e t.stand, h.installed);
}

resumed_if-IsOwned :
    (reading b : Bool) (t : Stream) → IsOwned reading t → IsOwned reading (resumed_if b t)
resumed_if-IsOwned reading true t h = deliver-IsOwned reading resumes t h
resumed_if-IsOwned reading false t h = h

pub paused_if-IsOwned :
    (reading b : Bool) (t : Stream) → IsOwned reading t → IsOwned reading (paused_if b t)
paused_if-IsOwned reading true t h = deliver-IsOwned reading pauses t h
paused_if-IsOwned reading false t h = h

pub happen-IsOwned :
    (reading : Bool) (h : Happening) (t : Stream) → IsOwned reading t → IsOwned reading (happen h t)
unfolding happen maybe_resume maybe_pause
happen-IsOwned reading (written n) t o =
    resumed_if-IsOwned reading (not t.stand.closing && leb (t.buffered - n) t.low)
      (record t { buffered = t.buffered - n })
      (record {
        low = o.low;
        high = o.high;
        stopped_reading = o.stopped_reading;
        later = o.later;
        installed = o.installed;
      })
happen-IsOwned reading (writes n) t o =
    paused_if-IsOwned reading (ltb t.high (t.buffered + n)) (record t { buffered = t.buffered + n })
      (record {
        low = o.low;
        high = o.high;
        stopped_reading = o.stopped_reading;
        later = o.later;
        installed = o.installed;
      })
happen-IsOwned reading closing_begins t o = record {
  low = o.low;
  high = o.high;
  stopped_reading = o.stopped_reading;
  later = o.later;
  installed = o.installed;
}
happen-IsOwned reading gone t o = deliver-IsOwned reading loses t o
happen-IsOwned reading cancelling t o = deliver-IsOwned reading cancels t o

pub unawaited-IsOwned :
    (reading : Bool) (h : Happening) (t : Stream)
    → IsOwned reading t
    → IsOwned reading (happen_unawaited h t)
unfolding happen_unawaited
unawaited-IsOwned reading (written n) t o = happen-IsOwned reading (written n) t o
unawaited-IsOwned reading (writes n) t o = happen-IsOwned reading (writes n) t o
unawaited-IsOwned reading closing_begins t o = happen-IsOwned reading closing_begins t o
unawaited-IsOwned reading gone t o = happen-IsOwned reading gone t o
unawaited-IsOwned reading cancelling t o = o

pub happen_all-IsOwned :
    (reading : Bool) (hs : List Happening) (t : Stream)
    → IsOwned reading t
    → IsOwned reading (happen_all hs t)
unfolding happen_all
happen_all-IsOwned reading [] t o = o
happen_all-IsOwned reading (h ∷ hs) t o =
    happen_all-IsOwned reading hs (happen_unawaited h t) (unawaited-IsOwned reading h t o)

pub happen_while-IsOwned :
    (reading : Bool) (hs : List Happening) (future : Waiter) (t : Stream)
    → IsOwned reading t
    → IsOwned reading (happen_while hs future t).1
unfolding happen_while
happen_while-IsOwned reading [] future t o = o
happen_while-IsOwned reading (h ∷ hs) waiting t o =
    happen_while-IsOwned reading hs (happen h t).stand.waiter (happen h t)
      (happen-IsOwned reading h t o)
happen_while-IsOwned reading (h ∷ hs) unset t o =
    happen_while-IsOwned reading hs unset (happen_unawaited h t) (unawaited-IsOwned reading h t o)
happen_while-IsOwned reading (h ∷ hs) failed_wait t o =
    happen_while-IsOwned reading hs failed_wait (happen_unawaited h t)
      (unawaited-IsOwned reading h t o)
happen_while-IsOwned reading (h ∷ hs) dropped t o =
    happen_while-IsOwned reading hs dropped (happen_unawaited h t) (unawaited-IsOwned reading h t o)

kept-is_unset :
    (x : Waiter) (s : Stand)
    → s.waiter ≡ x
    → (is_unset (deliver loses s).waiter ≡ is_unset s.waiter)
      × (is_unset (deliver cancels s).waiter ≡ is_unset s.waiter)
unfolding deliver
kept-is_unset waiting s e = rw e (refl, refl)
kept-is_unset unset s e = rw e (refl, refl)
kept-is_unset failed_wait s e = rw e (refl, refl)
kept-is_unset dropped s e = rw e (refl, refl)

resumed_if-Waits :
    (b : Bool) (t : Stream) → Waits t → (not b || leb t.buffered 0) ≡ true → Waits (resumed_if b t)
resumed_if-Waits true t h l = ground (arith, l)
resumed_if-Waits false t h l = h

-- A pause leaves the future that is awaited.
paused_if-waiting :
    (b : Bool) (t : Stream) → t.stand.waiter ≡ waiting → (paused_if b t).stand.waiter ≡ waiting
unfolding deliver
paused_if-waiting true t e = ground (arith, e)
paused_if-waiting false t e = e

pub happen-Waits :
    (h : Happening) (t : Stream)
    → t.low ≡ 0
    → t.stand.waiter ≡ waiting
    → Waits t
    → Waits (happen h t)
unfolding happen maybe_resume maybe_pause
happen-Waits (written n) t l u h =
    resumed_if-Waits (not t.stand.closing && leb (t.buffered - n) t.low)
      (record t { buffered = t.buffered - n }) (ground (arith, h)) (ground (arith, l))
happen-Waits (writes n) t l u h = ground (
  arith,
  paused_if-waiting (ltb t.high (t.buffered + n)) (record t { buffered = t.buffered + n }) u,
)
happen-Waits closing_begins t l u h = h
happen-Waits gone t l u h = ground (arith, kept-is_unset t.stand.waiter t.stand refl, h)
happen-Waits cancelling t l u h = ground (arith, kept-is_unset t.stand.waiter t.stand refl, h)

pub paused_if_keeps :
    (b : Bool) (t : Stream)
    → ((paused_if b t).low ≡ t.low)
      × ((paused_if b t).high ≡ t.high)
      × ((paused_if b t).duplicates ≡ t.duplicates)
      × ((paused_if b t).buffered ≡ t.buffered)
      × ((paused_if b t).stand.resume_reading_later ≡ t.stand.resume_reading_later)
      × ((paused_if b t).stand.reading ≡ t.stand.reading)
paused_if_keeps true t = ground (arith, deliver_keeps pauses t.stand)
paused_if_keeps false t = ground arith

pub resumed_if_buffer : (b : Bool) (t : Stream) → (resumed_if b t).buffered ≡ t.buffered
resumed_if_buffer true t = refl
resumed_if_buffer false t = refl

-- The marks 0 and 0 make a transport with bytes in its buffer pause, if it is not paused.
pub stand_in-Waits :
    (reading closing paused : Bool) (low high buffered : ℕ)
    → Waits (
        set_limits 0 0 (record {
          stand = stand_in reading closing paused;
          low = low;
          high = high;
          buffered = buffered;
          duplicates = 0;
        }))
unfolding set_limits maybe_pause stand_in deliver
stand_in-Waits reading closing true low high buffered = elim (Bool-cases (ltb 0 buffered)) [
  | inl b ↦ rw b (ground arith)
  | inr b ↦ rw b (ground (arith, b))
]
stand_in-Waits reading closing false low high buffered = elim (Bool-cases (ltb 0 buffered)) [
  | inl b ↦ rw b (ground arith)
  | inr b ↦ rw b (ground (arith, b))
]

resumed_if_keeps : (b : Bool) (t : Stream) → (resumed_if b t).duplicates ≡ t.duplicates
resumed_if_keeps true t = refl
resumed_if_keeps false t = refl

happen_keeps : (h : Happening) (t : Stream) → (happen h t).duplicates ≡ t.duplicates
unfolding happen maybe_resume maybe_pause
happen_keeps (written n) t =
    resumed_if_keeps (not t.stand.closing && leb (t.buffered - n) t.low)
      (record t { buffered = t.buffered - n })
happen_keeps (writes n) t =
    (paused_if_keeps (ltb t.high (t.buffered + n)) (record t { buffered = t.buffered + n })).2
happen_keeps closing_begins t = refl
happen_keeps gone t = refl
happen_keeps cancelling t = refl

unawaited_keeps : (h : Happening) (t : Stream) → (happen_unawaited h t).duplicates ≡ t.duplicates
unfolding happen_unawaited
unawaited_keeps (written n) t = happen_keeps (written n) t
unawaited_keeps (writes n) t = happen_keeps (writes n) t
unawaited_keeps closing_begins t = happen_keeps closing_begins t
unawaited_keeps gone t = happen_keeps gone t
unawaited_keeps cancelling t = refl

pub happen_all_keeps :
    (hs : List Happening) (t : Stream) → (happen_all hs t).duplicates ≡ t.duplicates
unfolding happen_all
happen_all_keeps [] t = refl
happen_all_keeps (h ∷ hs) t = happen_all_keeps hs (happen_unawaited h t) ∙ unawaited_keeps h t

pub happen_while_keeps :
    (hs : List Happening) (future : Waiter) (t : Stream)
    → (happen_while hs future t).1.duplicates ≡ t.duplicates
unfolding happen_while
happen_while_keeps [] future t = refl
happen_while_keeps (h ∷ hs) waiting t =
    happen_while_keeps hs (happen h t).stand.waiter (happen h t) ∙ happen_keeps h t
happen_while_keeps (h ∷ hs) unset t =
    happen_while_keeps hs unset (happen_unawaited h t) ∙ unawaited_keeps h t
happen_while_keeps (h ∷ hs) failed_wait t =
    happen_while_keeps hs failed_wait (happen_unawaited h t) ∙ unawaited_keeps h t
happen_while_keeps (h ∷ hs) dropped t =
    happen_while_keeps hs dropped (happen_unawaited h t) ∙ unawaited_keeps h t
