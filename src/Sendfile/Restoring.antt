-- ===== src/Sendfile/Restoring.antt =====
-- What the real protocol finds when `restore` has reinstated it.
use zuvloop.Sendfile.Protocol.{
  cancels, loses, resumes, pauses, Stand, unset, Event, stand_in, deliver, restore, deliver_all,
}
use zuvloop.Base.{refl, ◌≡◌, Bool, false, ◌&&◌, List, [], ◌∷◌, arith}

pub deliver_keeps :
    (e : Event) (s : Stand)
    → ((deliver e s).told_paused ≡ s.told_paused)
      × ((deliver e s).resume_reading_later ≡ s.resume_reading_later)
      × ((deliver e s).resume_writing_later ≡ s.resume_writing_later)
      × ((deliver e s).reading ≡ s.reading)
unfolding deliver
deliver_keeps pauses s = ground arith
deliver_keeps resumes s = ground arith
deliver_keeps loses s = ground arith
deliver_keeps cancels s = ground arith

pub deliver_all_keeps :
    (es : List Event) (s : Stand)
    → ((deliver_all es s).told_paused ≡ s.told_paused)
      × ((deliver_all es s).resume_reading_later ≡ s.resume_reading_later)
      × ((deliver_all es s).resume_writing_later ≡ s.resume_writing_later)
      × ((deliver_all es s).reading ≡ s.reading)
unfolding deliver_all
deliver_all_keeps [] s = (refl, refl, refl, refl)
deliver_all_keeps (e ∷ es) s = ground (arith, deliver_all_keeps es (deliver e s), deliver_keeps e s)

-- Whatever the transport does in between, `restore` puts the real protocol back, lets the transport read
-- again exactly if it was reading before, and drops the waiter.
pub restore_reinstates :
    (reading closing paused : Bool) (es : List Event)
    → let s = restore (deliver_all es (stand_in reading closing paused)) in
      (s.installed ≡ false) × (s.reading ≡ reading) × (s.waiter ≡ unset)
unfolding restore stand_in
restore_reinstates reading closing paused es =
    ground (arith, deliver_all_keeps es (stand_in reading closing paused))

-- After `restore` the real protocol was last told to pause exactly if the transport was paused at the start
-- and is paused now: a pause that began in between is not passed on to it.
pub restore_flow :
    (reading closing paused : Bool) (es : List Event)
    → let s = restore (deliver_all es (stand_in reading closing paused)) in
      s.told_paused ≡ (s.protocol_paused && paused)
unfolding restore stand_in
restore_flow reading closing paused es =
    ground (arith, deliver_all_keeps es (stand_in reading closing paused))
