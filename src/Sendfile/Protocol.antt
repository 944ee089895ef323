-- ===== src/Sendfile/Protocol.antt =====
-- `_SendfileProtocol`, which stands in for the transport's protocol, beside the transport's flags and
-- what the real protocol was last told.
use zuvloop.Base.{
  Bool, true, false, not, ◌&&◌, List, [], ◌∷◌, if◌then◌else◌, Exception, os_error, connection,
}

-- The stand-in's waiter: a future that is not set, waits, has an exception, or is
-- cancelled. A result is set only to drop the future at once.
pub data Waiter : Type 0 where
  unset waiting failed_wait dropped : Waiter

-- `installed`: the stand-in is the transport's protocol. `told_paused` is what the real protocol was last
-- told about writing, `protocol_paused` what the transport last told whichever protocol it had, and
-- `invalid_state` that setting the result of a finished waiter raised InvalidStateError.
pub record Stand : Type 0 where
  pub reading : Bool
  pub closing : Bool
  pub protocol_paused : Bool
  pub installed : Bool
  pub told_paused : Bool
  pub told_lost : Bool
  pub resume_reading_later : Bool
  pub resume_writing_later : Bool
  pub waiter : Waiter
  pub invalid_state : Bool

-- `__init__`, for a transport with these flags; a paused transport has told its protocol so.
unfoldable pub stand_in : Bool → Bool → Bool → Stand
stand_in reading closing paused = record {
  reading = false;
  closing = closing;
  protocol_paused = paused;
  installed = true;
  told_paused = paused;
  told_lost = false;
  resume_reading_later = reading;
  resume_writing_later = paused;
  waiter = if paused then waiting else unset;
  invalid_state = false;
}

-- What the transport does while the stand-in is installed, and a cancelled `drain`.
pub data Event : Type 0 where
  pauses resumes loses cancels : Event

-- `pause_writing`, `resume_writing` and `connection_lost`. The transport calls the first only when it is
-- not paused, the second only when it is.
unfoldable pub deliver : Event → Stand → Stand
deliver pauses s = if s.protocol_paused then s else record s {
  protocol_paused = true;
  waiter = elim s.waiter [
    | unset ↦ waiting
    | waiting ↦ waiting
    | failed_wait ↦ failed_wait
    | dropped ↦ dropped
  ];
}
deliver resumes s =
    if s.protocol_paused
    then record s {
      protocol_paused = false;
      waiter = elim s.waiter [
        | waiting ↦ unset
        | unset ↦ unset
        | failed_wait ↦ failed_wait
        | dropped ↦ dropped
      ];
      invalid_state = elim s.waiter [
        | waiting ↦ s.invalid_state
        | unset ↦ s.invalid_state
        | failed_wait ↦ true
        | dropped ↦ true
      ];
    }
    else s
deliver loses s = record s {
  closing = true;
  told_lost = true;
  waiter = elim s.waiter [
    | waiting ↦ failed_wait
    | unset ↦ unset
    | failed_wait ↦ failed_wait
    | dropped ↦ dropped
  ];
}
deliver cancels s = record s {
  waiter = elim s.waiter [
    | waiting ↦ dropped
    | unset ↦ unset
    | failed_wait ↦ failed_wait
    | dropped ↦ dropped
  ];
}

unfoldable pub deliver_all : List Event → Stand → Stand
deliver_all [] s = s
deliver_all (e ∷ es) s = deliver_all es (deliver e s)

-- What happens while a call awaits a future of the stand-in, and how this future stands at the end. Once it is
-- done the call is woken a turn later: a new pause makes another future, and a cancelling reaches none.
unfoldable pub deliver_while : List Event → Waiter → Stand → Waiter × Stand
deliver_while [] future s = (future, s)
deliver_while (e ∷ es) waiting s = deliver_while es (deliver e s).waiter (deliver e s)
deliver_while (cancels ∷ es) unset s = deliver_while es unset s
deliver_while (cancels ∷ es) failed_wait s = deliver_while es failed_wait s
deliver_while (cancels ∷ es) dropped s = deliver_while es dropped s
deliver_while (e ∷ es) unset s = deliver_while es unset (deliver e s)
deliver_while (e ∷ es) failed_wait s = deliver_while es failed_wait (deliver e s)
deliver_while (e ∷ es) dropped s = deliver_while es dropped (deliver e s)

-- `drain`: it raises, returns at once, or waits.
pub data Drain : Type 0 where
  raises : Exception → Drain
  returns awaits : Drain

unfoldable pub drain : Stand → Drain
drain s = if s.closing then raises (os_error connection 0) else elim s.waiter [
  | unset ↦ returns
  | waiting ↦ awaits
  | failed_wait ↦ raises (os_error connection 0)
  | dropped ↦ raises Exception.cancelled
]

-- `restore`
unfoldable pub restore : Stand → Stand
restore s = record s {
  installed = false;
  reading = if s.resume_reading_later then true else s.reading;
  waiter = unset;
  told_paused = if s.resume_writing_later && not s.protocol_paused then false else s.told_paused;
}
