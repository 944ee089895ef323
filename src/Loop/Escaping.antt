-- ===== src/Loop/Escaping.antt =====
-- What leaves `call_exception_handler`, and what is reported of an exception in a handler.
use zuvloop.Loop.Reporting.{
  default_handler, logs_both, custom, logs_default, in_handler, Context, Handler, unless_exit, Call,
  call_default, call_exception_handler,
}
use zuvloop.Base.{
  is_exit, refl, ◌≡◌, inl, inr, true, false, Option, none, some, List, [], ◌∷◌, Bool-cases,
  Exception, Result, ok, err,
}

-- Only SystemExit and KeyboardInterrupt are let through.
abbrev pub EscapesOnlyExit : Result (Unit {0}) → Type 0
EscapesOnlyExit (ok u) = Unit
EscapesOnlyExit (err e) = is_exit e ≡ true

unless_exit-EscapesOnlyExit :
    (r : Result (Unit {0})) (handle : Exception → Result (Unit {0}) × List Call)
    → ((e : Exception) → EscapesOnlyExit (handle e).0)
    → EscapesOnlyExit (unless_exit r handle).0
unless_exit-EscapesOnlyExit (ok u) handle h = tt
unless_exit-EscapesOnlyExit (err e) handle h = elim (Bool-cases (is_exit e)) [
  | inl x ↦ rw x x
  | inr other ↦ rw other (h e)
]

call_default-EscapesOnlyExit :
    (default : Handler) (message : Call) (c : Context)
    → EscapesOnlyExit (call_default default message c).0
unfolding call_default
call_default-EscapesOnlyExit default message c =
    unless_exit-EscapesOnlyExit (default c) (λ e. (ok tt, message ∷ [])) (λ e. tt)

-- With any handlers, `call_exception_handler` returns or raises SystemExit or KeyboardInterrupt: no other
-- exception of a handler leaves it.
pub reporting_escapes :
    (handler : Option Handler) (default : Handler) (c : Context)
    → EscapesOnlyExit (call_exception_handler handler default c).0
unfolding call_exception_handler
reporting_escapes none default c = call_default-EscapesOnlyExit default logs_default c
reporting_escapes (some handler) default c =
    unless_exit-EscapesOnlyExit (handler c) (λ e. call_default default logs_both (in_handler e c))
      (λ e. call_default-EscapesOnlyExit default logs_both (in_handler e c))

-- A custom handler that raises anything else than SystemExit or KeyboardInterrupt has this exception
-- reported by the default handler, and if that raises as well, by the logger; the call then returns.
pub reporting_falls_back :
    (handler default : Handler) (c : Context) (e e' : Exception)
    → handler c ≡ err e
    → is_exit e ≡ false
    → default (in_handler e c) ≡ err e'
    → is_exit e' ≡ false
    → call_exception_handler (some handler) default c
      ≡ (ok tt, custom c ∷ default_handler (in_handler e c) ∷ logs_both ∷ [])
unfolding call_exception_handler call_default
reporting_falls_back handler default c e e' h x d x' = rw (h, x, d, x') refl
