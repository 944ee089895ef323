-- ===== src/Connect/Piped.antt =====
-- What `_connect_pipe` leaves open and watched, and what closing its transport does.
use zuvloop.Connect.Piping.{
  armed_watch, prepare_pipe, awaited, hangup, connect_pipe, duplicated, close_pipe_transport, made,
  Direction, PipeAnswers, PipeTransport, Pipes,
}
use zuvloop.Base.{
  discard-absent, Below-has, refl, ℕ, ◌+◌, ◌≡◌, Bool, true, false, List, ◌∷◌, arith, has, discard,
  Below, if◌then◌else◌, Result, ok, err,
}

-- The loop does not watch the pipe's descriptor yet.
abbrev pub IsUnwatched : Result (ℕ × Bool) → List ℕ → Type 0
IsUnwatched (ok (fd, watch)) readers = has fd readers ≡ false
IsUnwatched (err e) readers = Unit

-- What a call that raises leaves open: the pipe is closed once there was a transport.
abbrev pub left_open : Result (ℕ × Bool) → Result (Unit {0}) → List ℕ → List ℕ
left_open (err e) transport opened = opened
left_open (ok x) (err e) opened = opened
left_open (ok (fd, watch)) (ok _) opened = discard fd opened

-- A transport comes with one new descriptor, and with a watch if it asked for one; with a watch the peer's
-- hangup closes it and the pipe and takes the watch away, and without one it runs nothing.
abbrev pub IsPiped : List ℕ → Pipes → Result PipeTransport × Pipes → Type 0
IsPiped left s (ok t, s') =
    (s'.opened ≡ t.duplicate ∷ s.opened)
    × (has t.duplicate s.opened ≡ false)
    × (s'.readers ≡ (if t.has_watch then t.pipe ∷ s.readers else s.readers))
    × ((hangup t s').opened ≡ (if t.has_watch then discard t.pipe s.opened else s'.opened))
    × ((hangup t s').readers ≡ s.readers)
IsPiped left s (err e, s') = (s'.opened ≡ left) × (s'.readers ≡ s.readers)

module _ (w : PipeAnswers) (fd : ℕ) (s : Pipes) (low : Below s.next s.opened)
    (new : has fd s.readers ≡ false) (flushed : w.unsent ≡ 0) where
  -- The state in which the transport is made.
  abbrev opened_one : Pipes
  opened_one = record s { opened = s.next ∷ s.opened; next = s.next + 1 }

  abbrev transport : Bool → PipeTransport
  transport watch = record { pipe = fd; duplicate = s.next; has_watch = watch }

  unwatched-IsPiped :
      (ready : Result (Unit {0}))
      → IsPiped (discard fd s.opened) s (awaited w.unsent ready (transport false) opened_one)
  unfolding close_pipe_transport hangup
  unwatched-IsPiped (ok u) =
      let absent = Below-has s.next s.opened low in (refl, absent, refl, refl, refl)
  unwatched-IsPiped (err e) =
      let absent = Below-has s.next s.opened low in
      rw flushed (ground (arith, discard-absent s.next s.opened), refl)

  watched-IsPiped :
      (add ready : Result (Unit {0}))
      → w.ready ≡ ready
      → IsPiped (discard fd s.opened) s (armed_watch w add (transport true) opened_one)
  unfolding close_pipe_transport hangup
  watched-IsPiped (err e) ready h =
      let absent = Below-has s.next s.opened low in
      rw flushed (ground (arith, discard-absent s.next s.opened), discard-absent fd s.readers new)
  watched-IsPiped (ok u) (ok v) h =
      let absent = Below-has s.next s.opened low in
      rw h (
        refl,
        absent,
        ground (arith, discard-absent fd s.readers),
        ground (arith, discard-absent s.next s.opened),
        ground (arith, discard-absent fd s.readers),
      )
  watched-IsPiped (ok u) (err e) h =
      let absent = Below-has s.next s.opened low in
      rw (h, flushed)
        (
          ground (arith, discard-absent s.next s.opened),
          ground (arith, discard-absent fd s.readers),
        )

  made-IsPiped :
      (watch : Bool) (make : Result (Unit {0}))
      → IsPiped
          (left_open (ok (fd, watch)) make s.opened)
          s
          (made watch w make fd s.next opened_one)
  made-IsPiped true (ok u) = watched-IsPiped w.add_reader w.ready refl
  made-IsPiped false (ok u) = unwatched-IsPiped w.ready
  made-IsPiped watch (err e) =
      let absent = Below-has s.next s.opened low in
      (ground (arith, discard-absent s.next s.opened), refl)

duplicated-IsPiped :
    (w : PipeAnswers) (prepared : Result (ℕ × Bool)) (s : Pipes)
    → Below s.next s.opened
    → IsUnwatched prepared s.readers
    → w.unsent ≡ 0
    → IsPiped (left_open prepared w.make_transport s.opened) s (duplicated w prepared s)
duplicated-IsPiped w (err e) s low new flushed = (refl, refl)
duplicated-IsPiped w (ok (fd, watch)) s low new flushed =
    made-IsPiped w fd s low new flushed watch w.make_transport

-- When the loop does not watch the pipe's descriptor before, and a transport that has to be closed has nothing
-- left to write: if `_connect_pipe` returns, one descriptor more is open, a new one, and the pipe is watched exactly if
-- the transport has a watch for it; with a watch the peer's hangup then closes both descriptors and ends the
-- watch, and without one it closes nothing. If it raises, nothing is watched that was not, and nothing is open that was not; the pipe is closed exactly if there was a transport.
pub connect_pipe_opened :
    (direction : Direction) (w : PipeAnswers) (s : Pipes)
    → Below s.next s.opened
    → IsUnwatched (prepare_pipe direction w) s.readers
    → w.unsent ≡ 0
    → IsPiped
        (left_open (prepare_pipe direction w) w.make_transport s.opened)
        s
        (connect_pipe direction w s)
unfolding connect_pipe
connect_pipe_opened direction w s low new flushed =
    duplicated-IsPiped w (prepare_pipe direction w) s low new flushed
