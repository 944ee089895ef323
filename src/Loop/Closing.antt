-- ===== src/Loop/Closing.antt =====
-- `close` and `_teardown_self_pipe` of `_base.py`.
use zuvloop.Base.{
  runtime_error, ℕ, Bool, true, false, Option, none, some, List, ◌∷◌, Result, ok, err,
}

-- Where the write end of the self pipe is: its socket has it, the clean-up of the signals has it, or it is
-- closed.
pub data WriteEnd : Type 0 where
  open_end handed_on closed_end : WriteEnd

-- The loop, its default executor, which is a number, the executors that were told to shut down, and the self
-- pipe with its reader.
pub record Closable : Type 0 where
  pub is_running : Bool
  pub is_closed : Bool
  pub executor : Option ℕ
  pub shut : List ℕ
  pub is_read : Bool
  pub ssock_open : Bool
  pub csock : WriteEnd

-- What one call meets: `signals` is what removing the handlers comes to, `clean_up` what the clean-up of handlers
-- and descriptor that are left does, if there are some, and the rest the answers of the calls of these names.
pub record Closing : Type 0 where
  pub signals : Result (Unit {0})
  pub clean_up : Option (Result (Unit {0}))
  pub remove_reader : Result (Unit {0})
  pub close_ssock : Result (Unit {0})
  pub close_csock : Result (Unit {0})
  pub shutdown : Result (Unit {0})

-- `try: first finally: last`, with both outcomes.
abbrev pub finally : Result (Unit {0}) → Result (Unit {0}) → Result (Unit {0})
finally first (ok _) = first
finally first (err e) = err e

abbrev pub give_up_end : WriteEnd → WriteEnd
give_up_end open_end = closed_end
give_up_end handed_on = handed_on
give_up_end closed_end = closed_end

abbrev pub unread : Result (Unit {0}) → Bool → Bool
unread (ok _) is_read = false
unread (err e) is_read = is_read

-- `_teardown_self_pipe`. A socket whose `close` raises has given up its descriptor all the same.
unfoldable pub teardown_self_pipe : Closing → Closable → Result (Unit {0}) × Closable
teardown_self_pipe w s = (
  finally w.remove_reader (finally w.close_ssock w.close_csock),
  record s {
    is_read = unread w.remove_reader s.is_read;
    ssock_open = false;
    csock = give_up_end s.csock;
  },
)

-- `self._csock.detach()` and the clean-up.
abbrev pub hand_on_csock : Option (Result (Unit {0})) → Closable → Result (Unit {0}) × Closable
hand_on_csock none s = (ok tt, s)
hand_on_csock (some r) s = (r, record s { csock = handed_on })

abbrev pub shut_down : Option ℕ → Result (Unit {0}) → Closable → Result (Unit {0}) × Closable
shut_down none answer s = (ok tt, s)
shut_down (some executor) answer s = (answer, record s { shut = executor ∷ s.shut })

-- From `_close` on: `executor` was the loop's.
abbrev pub closing_on : Closing → Option ℕ → Closable → Result (Unit {0}) × Closable
closing_on w executor s =
    let (cleaned, s1) = hand_on_csock w.clean_up s in
    let (torn, s2) = teardown_self_pipe w s1 in
    let (ended, s3) = shut_down executor w.shutdown s2 in
    (finally w.signals (finally cleaned (finally torn ended)), s3)

-- The C loop's own `close`, with its own tests.
abbrev pub close_natively : Bool → Bool → Closable → Result (Unit {0}) × Closable
close_natively true is_closed s = (err (runtime_error "Cannot close a running event loop"), s)
close_natively false true s = (ok tt, s)
close_natively false false s = (ok tt, record s { is_closed = true })

abbrev pub natively_closed :
    Closing → Option ℕ → Result (Unit {0}) × Closable → Result (Unit {0}) × Closable
natively_closed w executor (err e, s) = (err e, s)
natively_closed w executor (ok _, s) = closing_on w executor s

abbrev pub close_if : Bool → Bool → Closing → Closable → Result (Unit {0}) × Closable
close_if true is_closed w s = (err (runtime_error "Cannot close a running event loop"), s)
close_if false true w s = (ok tt, s)
close_if false false w s =
    natively_closed w s.executor
      (close_natively s.is_running s.is_closed (record s { executor = none }))

-- `close`
unfoldable pub close_loop : Closing → Closable → Result (Unit {0}) × Closable
close_loop w s = close_if s.is_running s.is_closed w s

-- `__del__`: what its calls raise goes nowhere.
abbrev pub closed_unless : Bool → Closing → Closable → Closable
closed_unless true w s = s
closed_unless false w s = (close_loop w s).1

abbrev pub collected_if : Bool → Closing → Closable → Closable
collected_if true w s = s
collected_if false w s = closed_unless s.is_running w s

unfoldable pub collected : Closing → Closable → Closable
collected w s = collected_if s.is_closed w s
