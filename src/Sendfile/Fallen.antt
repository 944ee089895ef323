-- ===== src/Sendfile/Fallen.antt =====
-- What `_sendfile_fallback` sends, and what it leaves of the stand-in.
use zuvloop.Base.{
  if◌then◌else◌, ◌&&◌, not, ◌==◌, ◌++◌, length, inr, ◌+◌, inl, Bool-cases, ltb, ◌∙◌, refl, ℕ, ◌≡◌,
  Bool, true, false, Option, none, some, List, [], ◌∷◌, arith, Result, ok, err, append-nil,
}
use zuvloop.Sendfile.Defs.{
  transport_chunk, fallback, reads, write_raises, read_raises, block, Round, fallback_rounds,
  Transfer, finish_fallback,
}
use zuvloop.Sendfile.Falling.{
  transport_fallback, fall_from, round_end, round_of, after_reading, bytes_of, rounds_of, falling,
  Block, Fallback, restored_unless, drain_end, falls, then_write,
}
use zuvloop.Sendfile.Protocol.{
  stand_in, drain, unset, raises, returns, awaits, Event, Stand, Drain, deliver, deliver_all,
  restore, deliver_while, waiting, Waiter,
}
use zuvloop.Sendfile.Owning.{deliver-installed}
use zuvloop.Sendfile.Restoring.{deliver_all_keeps}

-- A transfer of which the last `seek` has this answer.
abbrev pub resought : Option ℕ → Result (Unit {0}) → Transfer → Transfer
resought none reseek t = t
resought (some position) (ok _) t = t
resought (some position) (err e) t = record t { seeks = none; outcome = some (err e) }

-- The stand-in while it is installed, and after a call that ended with this seek.
abbrev Stands : Bool → Stand → Type 0
Stands reading s = (s.installed ≡ true) × (s.reading ≡ false) × (s.resume_reading_later ≡ reading)

abbrev pub IsLeft : Bool → Option ℕ → Result (Unit {0}) → Option (Result ℕ) → Stand → Type 0
IsLeft reading seeks reseek none s = (s.installed ≡ true) × (s.reading ≡ false)
IsLeft reading none reseek (some r) s =
    (s.installed ≡ false) × (s.reading ≡ reading) × (s.waiter ≡ unset)
IsLeft reading (some position) (ok _) (some r) s =
    (s.installed ≡ false) × (s.reading ≡ reading) × (s.waiter ≡ unset)
IsLeft reading (some position) (err e) (some r) s = (s.installed ≡ true) × (s.reading ≡ false)

-- The call sends what the loop without a stand-in sends.
abbrev pub Refines : Bool → Result (Unit {0}) → Transfer → Fallback → Type 0
Refines reading reseek t f =
    (f.transfer ≡ resought t.seeks reseek t) × IsLeft reading t.seeks reseek t.outcome f.stand

deliver_all-installed : (es : List Event) (s : Stand) → (deliver_all es s).installed ≡ s.installed
unfolding deliver_all
deliver_all-installed [] s = refl
deliver_all-installed (e ∷ es) s = deliver_all-installed es (deliver e s) ∙ deliver-installed e s

deliver_all-Stands :
    (reading : Bool) (es : List Event) (s : Stand)
    → Stands reading s
    → Stands reading (deliver_all es s)
deliver_all-Stands reading es s h =
    ground (arith, h, deliver_all_keeps es s, deliver_all-installed es s)

deliver_while-Stands :
    (reading : Bool) (es : List Event) (future : Waiter) (s : Stand)
    → Stands reading s
    → Stands reading (deliver_while es future s).1
unfolding deliver_while deliver deliver_all
deliver_while-Stands reading [] future s h = h
deliver_while-Stands reading (e ∷ es) waiting s h =
    deliver_while-Stands reading es (deliver e s).waiter (deliver e s)
      (deliver_all-Stands reading (e ∷ []) s h)
deliver_while-Stands reading (e ∷ es) future s h = ground (
  arith,
  deliver_while-Stands reading es future s h,
  deliver_while-Stands reading es future (deliver e s) (deliver_all-Stands reading (e ∷ []) s h),
)

then_write-Stands :
    (reading : Bool) (write : Result (Unit {0})) (end : Option (Result (Unit {0})) × Stand)
    → Stands reading end.1
    → Stands reading (then_write write end).1
then_write-Stands reading write (none, s) h = h
then_write-Stands reading write (some (err e), s) h = h
then_write-Stands reading write (some (ok u), s) h = h

drain_end-Stands :
    (reading : Bool) (d : Drain) (b : Block) (s : Stand)
    → Stands reading s
    → Stands reading (drain_end d b s).1
drain_end-Stands reading (raises e) b s h = h
drain_end-Stands reading returns b s h = h
drain_end-Stands reading awaits b s h = deliver_while-Stands reading b.while_draining waiting s h

restored_unless-Refines :
    (reading : Bool) (seeks : Option ℕ) (reseek : Result (Unit {0})) (sent : List ℕ) (r : Result ℕ)
    (s : Stand)
    → Stands reading s
    → let t : Transfer = record { sent = sent; seeks = seeks; outcome = some r } in
      Refines reading reseek t (restored_unless seeks reseek t s)
unfolding restore
restored_unless-Refines reading none reseek sent r s h = (refl, ground (arith, h))
restored_unless-Refines reading (some position) (ok u) sent r s h = (refl, ground (arith, h))
restored_unless-Refines reading (some position) (err e) sent r s h = (refl, (h.0, h.1))

positive : (b : ℕ) (bytes : List ℕ) → ltb 0 (length (b ∷ bytes)) ≡ true
positive b bytes = ground arith

module _ (chunk : ℕ) (can_seek : Bool) (count : Option ℕ) (reseek : Result (Unit {0}))
    (reading : Bool) where
  falls-Refines :
      (offset total : ℕ) (sent : List ℕ) (r : Result ℕ) (s : Stand)
      → Stands reading s
      → Refines reading reseek
          (finish_fallback can_seek offset total sent (some r))
          (falls chunk can_seek count reseek offset total sent r s)
  falls-Refines offset total sent r s h =
      let t = finish_fallback can_seek offset total sent (some r) in
      restored_unless-Refines reading t.seeks reseek sent r s h

  -- A loop that has nothing left to read.
  over-Refines :
      (rounds : List Round) (offset total : ℕ) (sent : List ℕ) (s : Stand)
      → ltb 0 (block chunk count total) ≡ false
      → Stands reading s
      → Refines reading reseek
          (fallback_rounds chunk can_seek count offset total sent rounds)
          (falls chunk can_seek count reseek offset total sent (ok total) s)
  unfolding fallback_rounds
  over-Refines [] offset total sent s m h = rw m (falls-Refines offset total sent (ok total) s h)
  over-Refines (read_raises e ∷ rounds) offset total sent s m h =
      rw m (falls-Refines offset total sent (ok total) s h)
  over-Refines (write_raises bytes n e ∷ rounds) offset total sent s m h =
      rw m (falls-Refines offset total sent (ok total) s h)
  over-Refines (reads bytes ∷ rounds) offset total sent s m h =
      rw m (falls-Refines offset total sent (ok total) s h)

  round_end-Refines :
      (c : Result (List ℕ)) (drained : Option (Result (Unit {0}))) (rounds : List Round)
      (offset total : ℕ) (sent : List ℕ) (read_by drained_by : Stand) (rest : Fallback)
      → ltb 0 (block chunk count total) ≡ true
      → Stands reading read_by
      → Stands reading drained_by
      → Refines reading reseek
          (fallback_rounds chunk can_seek count offset
            (total + length (bytes_of c))
            (sent ++ bytes_of c)
            rounds)
          rest
      → Refines reading reseek
          (fallback_rounds chunk can_seek count offset total sent (round_of c drained rounds))
          (round_end chunk can_seek count reseek c drained offset total sent read_by drained_by
            rest)
  unfolding fallback_rounds
  round_end-Refines (err e) drained rounds offset total sent read_by drained_by rest m r d h =
      rw m (falls-Refines offset total sent (err e) read_by r)
  round_end-Refines (ok []) drained rounds offset total sent read_by drained_by rest m r d h =
      rw m (falls-Refines offset total sent (ok total) read_by r)
  round_end-Refines (ok (b ∷ bytes)) none rounds offset total sent read_by drained_by rest m r d h =
      rw m (refl, (d.0, d.1))
  round_end-Refines (ok (b ∷ bytes)) (some (err e)) rounds offset total sent read_by drained_by rest
        m r d h =
      rw m (
        rw (positive b bytes)
          (rw (append-nil sent) (falls-Refines offset total sent (err e) drained_by d)))
  round_end-Refines (ok (b ∷ bytes)) (some (ok u)) rounds offset total sent read_by drained_by rest
        m r d h =
      rw m (rw (positive b bytes) h)

  waits-Refines :
      (offset total : ℕ) (sent : List ℕ) (s : Stand)
      → ltb 0 (block chunk count total) ≡ true
      → Stands reading s
      → Refines reading reseek
          (fallback_rounds chunk can_seek count offset total sent [])
          (record { transfer = record { sent = sent; seeks = none; outcome = none }; stand = s })
  unfolding fallback_rounds
  waits-Refines offset total sent s m h = rw m (refl, (h.0, h.1))

  falling-Refines :
      (blocks : List Block) (offset total : ℕ) (sent : List ℕ) (s : Stand)
      → Stands reading s
      → Refines reading reseek
          (fallback_rounds chunk can_seek count offset total sent (rounds_of blocks s))
          (falling chunk can_seek count reseek offset total sent blocks s)
  unfolding falling rounds_of
  falling-Refines [] offset total sent s h = elim (Bool-cases (ltb 0 (block chunk count total))) [
    | inl m ↦ rw m (waits-Refines offset total sent s m h)
    | inr m ↦ rw m (over-Refines [] offset total sent s m h)
  ]
  falling-Refines (b ∷ blocks) offset total sent s h =
      let read_by = deliver_all b.while_reading s in
      let (drained, drained_by) = after_reading b s in
      let r = deliver_all-Stands reading b.while_reading s h in
      let d =
        then_write-Stands reading b.write (drain_end (drain read_by) b read_by)
          (drain_end-Stands reading (drain read_by) b read_by r) in
      let bytes = bytes_of b.content in
      let rest =
        falling-Refines blocks offset (total + length bytes) (sent ++ bytes) drained_by d in
      elim (Bool-cases (ltb 0 (block chunk count total))) [
        | inl m ↦ rw m (
            round_end-Refines b.content drained (rounds_of blocks drained_by) offset total sent
              read_by drained_by
              (falling chunk can_seek count reseek offset (total + length bytes) (sent ++ bytes)
                blocks drained_by)
              m r d rest)
        | inr m ↦ rw m (
            over-Refines (round_of b.content drained (rounds_of blocks drained_by)) offset total
              sent s m h)
      ]

-- A call with the stand-in does what this transfer does; one that ends before it sends nothing.
abbrev pub RefinesTransfer : Bool → Result (Unit {0}) → Transfer → Transfer × Option Stand → Type 0
RefinesTransfer reading reseek t (moved, none) = (moved.sent ≡ []) × (moved.seeks ≡ none)
RefinesTransfer reading reseek t (moved, some s) =
    Refines reading reseek t (record { transfer = moved; stand = s })

stand_in-Stands : (reading closing paused : Bool) → Stands reading (stand_in reading closing paused)
unfolding stand_in
stand_in-Stands reading closing paused = (refl, refl, refl)

fall_from-Refines :
    (reading : Bool) (reseek first : Result (Unit {0})) (t : Transfer) (f : Fallback)
    → Refines reading reseek t f
    → RefinesTransfer reading reseek t (fall_from first f)
fall_from-Refines reading reseek (ok u) t f h = h
fall_from-Refines reading reseek (err e) t f h = (refl, refl)

-- For any source, transport and events: `_sendfile_fallback` sends what the loop without a stand-in sends over the
-- rounds `rounds_of` that the stand-in leaves of its blocks, with the same end but for a last `seek` that raises; a
-- call that ends puts the protocol back, drops the waiter and lets the transport read exactly if it read before,
-- unless that `seek` raises: then the stand-in stays and the transport does not read. A call that fails before
-- its loop sends nothing.
pub transport_fallback-RefinesTransfer :
    (can_seek : Bool) (count : Option ℕ) (seek reseek : Result (Unit {0})) (offset : ℕ)
    (blocks : List Block) (reading closing paused : Bool)
    → RefinesTransfer reading reseek
        (fallback transport_chunk can_seek count offset
          (rounds_of blocks (stand_in reading closing paused)))
        (transport_fallback can_seek count seek reseek offset blocks reading closing paused)
unfolding transport_fallback fallback
transport_fallback-RefinesTransfer can_seek count seek reseek offset blocks reading closing paused =
    let s = stand_in reading closing paused in
    elim (Bool-cases ((not (offset == 0)) && not can_seek)) [
      | inl c ↦ rw c (refl, refl)
      | inr c ↦ rw c (
          fall_from-Refines reading reseek (if offset == 0 then ok tt else seek)
            (fallback_rounds transport_chunk can_seek count offset 0 [] (rounds_of blocks s))
            (falling transport_chunk can_seek count reseek offset 0 [] blocks s)
            (falling-Refines transport_chunk can_seek count reseek reading blocks offset 0 [] s
              (stand_in-Stands reading closing paused)))
    ]
