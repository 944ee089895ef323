-- ===== src/Loop/Reporting.antt =====
-- `call_exception_handler` of `zuvloop/_base.py`. What the handlers do is an argument.
use zuvloop.Base.{
  is_exit, ℕ, Option, none, some, List, [], ◌∷◌, if◌then◌else◌, Exception, Result, ok, err,
}

-- The context that is reported: a caller's, or the one about an exception in the custom handler.
pub data Context : Type 0 where
  reported : ℕ → Context
  in_handler : Exception → Context → Context

-- What is called, in this order: the custom handler, the default one, or the logger with one of the two
-- messages on exceptions in a handler.
pub data Call : Type 0 where
  custom default_handler : Context → Call
  logs_default logs_both : Call

-- A handler's answer; the custom one's includes looking up the context to run it in.
abbrev pub Handler : Type 0
Handler = Context → Result (Unit {0})

-- `except SystemExit, KeyboardInterrupt: raise`, and `except BaseException` with what it calls.
abbrev pub unless_exit :
    Result (Unit {0}) → (Exception → Result (Unit {0}) × List Call) → Result (Unit {0}) × List Call
unless_exit (ok _) handle = (ok tt, [])
unless_exit (err e) handle = if is_exit e then (err e, []) else handle e

abbrev pub also : Call → Result (Unit {0}) × List Call → Result (Unit {0}) × List Call
also call (r, calls) = (r, call ∷ calls)

-- The default handler, and the message for what it raises.
unfoldable pub call_default : Handler → Call → Context → Result (Unit {0}) × List Call
call_default default message c =
    also (default_handler c) (unless_exit (default c) (λ e. (ok tt, message ∷ [])))

-- `call_exception_handler`
unfoldable pub call_exception_handler :
    Option Handler → Handler → Context → Result (Unit {0}) × List Call
call_exception_handler none default c = call_default default logs_default c
call_exception_handler (some handler) default c =
    also (custom c) (unless_exit (handler c) (λ e. call_default default logs_both (in_handler e c)))
