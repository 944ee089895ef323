-- ===== src/Signals/Closing.antt =====
-- `remove_signal_handler` and the end of a loop, and the wakeup descriptor.
use zuvloop.Signals.Adding.{Ready-beside}
use zuvloop.Base.{
  ◌||◌, not, [], Option-cases, ◌∷◌, keys, remove, if◌then◌else◌, arith, find, refl, ℕ, ◌≡◌, inl,
  inr, Bool, true, false, Option, none, some, List, Result, ok, err,
}
use zuvloop.Signals.Ownership.{
  Agree-closed, finish_cleanup-IsSettled, Attached-finalized, Attached, IsSettled,
}
use zuvloop.Signals.Wakeup.{is_empty, detach_wakeup_fd}
use zuvloop.Signals.Handlers.{
  close_signals, next_removal, forgetting, torn_down, remove_signal_handler, remove_all, forget,
}
use zuvloop.Signals.Safety.{detach_wakeup_fd-IsSettled}
use zuvloop.Signals.Defs.{default_action, set_at, is_owner, Disposition, Process}

-- Of a loop that is being closed: if it owns the descriptor, it has it attached.
pub record IsClosing (l : ℕ) (s : Process) : Type 0 where
  pub settled : IsSettled s
  pub gone : s.finalized l ≡ true
  pub owned : is_owner s.fd_owner l ≡ true → s.attached l ≡ true

detach_wakeup_fd-IsClosing :
    (on_main : Bool) (l : ℕ) (s : Process)
    → IsClosing l s
    → IsClosing l (detach_wakeup_fd on_main l s)
unfolding detach_wakeup_fd
detach_wakeup_fd-IsClosing on_main l s h = record {
  settled = unfold detach_wakeup_fd in detach_wakeup_fd-IsSettled on_main l s h.settled;
  gone = ground (arith, h.gone);
  owned = λ o. ground (arith, h.owned);
}

IsClosing-beside :
    (l : ℕ) (s : Process) (d : ℕ → Disposition) (o : ℕ → Option ℕ) (hs : ℕ → List (ℕ × ℕ))
    → IsClosing l s
    → IsClosing l (record s { disposition = d; owners = o; handlers = hs })
IsClosing-beside l s d o hs h = record {
  settled = Ready-beside l none s d o hs h.settled;
  gone = h.gone;
  owned = h.owned;
}

-- What a removal keeps: anything that neither dispositions, owners and handlers nor a detached
-- descriptor matter to.
module _ (P : Process → Type 0) (on_main : Bool) (l : ℕ)
    (beside : (s : Process) (d : ℕ → Disposition) (o : ℕ → Option ℕ) (hs : ℕ → List (ℕ × ℕ))
      → P s
      → P (record s { disposition = d; owners = o; handlers = hs }))
    (detached : (s : Process) → P s → P (detach_wakeup_fd on_main l s)) where
  forget_keeps :
      (sig : ℕ) (s : Process) (d : ℕ → Disposition)
      → P s
      → P (forget on_main sig l (record s { disposition = d }))
  forget_keeps sig s d h =
      let o : ℕ → Option ℕ =
        if is_owner (s.owners sig) l then set_at s.owners sig none else s.owners in
      let hs = set_at s.handlers l (remove sig (s.handlers l)) in
      detached (record s { disposition = d; owners = o; handlers = hs }) (beside s d o hs h)

  forgetting_keeps :
      (own takes : Bool) (sig : ℕ) (s : Process) → P s → P (forgetting own takes on_main sig l s).1
  forgetting_keeps true true sig s h =
      forget_keeps sig s (set_at s.disposition sig default_action) h
  forgetting_keeps true false sig s h = h
  forgetting_keeps false takes sig s h = forget_keeps sig s s.disposition h

  remove_signal_handler_keeps :
      (resets : ℕ → Bool) (sig : ℕ) (s : Process)
      → P s
      → P (remove_signal_handler on_main resets sig l s).1
  unfolding remove_signal_handler
  remove_signal_handler_keeps resets sig s h = elim (Option-cases (find sig (s.handlers l))) [
    | inl e ↦ rw e h
    | inr (entry, e) ↦ rw e (forgetting_keeps (is_owner (s.owners sig) l) (resets sig) sig s h)
  ]

remove_signal_handler-IsClosing :
    (on_main : Bool) (resets : ℕ → Bool) (sig l : ℕ) (s : Process)
    → IsClosing l s
    → IsClosing l (remove_signal_handler on_main resets sig l s).1
remove_signal_handler-IsClosing on_main resets sig l s h =
    remove_signal_handler_keeps (IsClosing l) on_main l (IsClosing-beside l)
      (detach_wakeup_fd-IsClosing on_main l) resets sig s h

pub remove_signal_handler-IsSettled :
    (on_main : Bool) (resets : ℕ → Bool) (sig l : ℕ) (s : Process)
    → IsSettled s
    → IsSettled (remove_signal_handler on_main resets sig l s).1
remove_signal_handler-IsSettled on_main resets sig l s h =
    remove_signal_handler_keeps IsSettled on_main l (Ready-beside l none)
      (detach_wakeup_fd-IsSettled on_main l) resets sig s h

next_removal-IsClosing :
    (l : ℕ) (r : Result Bool) (s : Process) (rest : Result (Unit {0}) × Process)
    → IsClosing l s
    → IsClosing l rest.1
    → IsClosing l (next_removal r s rest).1
next_removal-IsClosing l (ok b) s rest h hr = hr
next_removal-IsClosing l (err e) s rest h hr = h

remove_all-IsClosing :
    (on_main : Bool) (resets : ℕ → Bool) (sigs : List ℕ) (l : ℕ) (s : Process)
    → IsClosing l s
    → IsClosing l (remove_all on_main resets sigs l s).1
unfolding remove_all
remove_all-IsClosing on_main resets [] l s h = h
remove_all-IsClosing on_main resets (sig ∷ sigs) l s h =
    let (r, s') = remove_signal_handler on_main resets sig l s in
    let h' = remove_signal_handler-IsClosing on_main resets sig l s h in
    next_removal-IsClosing l r s' (remove_all on_main resets sigs l s') h'
      (remove_all-IsClosing on_main resets sigs l s' h')

Attached-gone :
    (owner : Option ℕ) (attached finalized : ℕ → Bool) (l : ℕ)
    → finalized l ≡ true
    → Attached owner attached finalized
    → Attached owner (set_at attached l false) finalized
Attached-gone none attached finalized l g a = tt
Attached-gone (some k) attached finalized l g a = ground arith

cleared-IsSettled :
    (l : ℕ) (s : Process) (hs : ℕ → List (ℕ × ℕ))
    → IsClosing l s
    → IsSettled (record s { handlers = hs; attached = set_at s.attached l false })
cleared-IsSettled l s hs h = record {
  agrees = h.settled.agrees;
  is_attached = Attached-gone s.fd_owner s.attached s.finalized l h.gone h.settled.is_attached;
  closed_late = h.settled.closed_late;
  pending_late = h.settled.pending_late;
}

torn_down-IsSettled :
    (left on_main : Bool) (resets : ℕ → Bool) (l : ℕ) (s : Process)
    → IsClosing l s
    → (left ≡ false → s.attached l ≡ false)
    → IsSettled (torn_down left on_main resets l s)
torn_down-IsSettled true true resets l s h f =
    let cleared = record s {
      handlers = set_at s.handlers l [];
      attached = set_at s.attached l false;
    } in
    finish_cleanup-IsSettled resets l (keys (s.handlers l)) cleared
      (cleared-IsSettled l s (set_at s.handlers l []) h)
torn_down-IsSettled true false resets l s h f =
    let c = cleared-IsSettled l s (set_at s.handlers l []) h in
    record {
      agrees = c.agrees;
      is_attached = c.is_attached;
      closed_late = c.closed_late;
      pending_late = λ k p. ground (arith, h.gone, h.settled.pending_late k);
    }
torn_down-IsSettled false on_main resets l s h f = record {
  agrees =
      Agree-closed s.wakeup_fd s.fd_owner s.closed l (ground (arith, h.owned, f refl))
        h.settled.agrees;
  is_attached = h.settled.is_attached;
  closed_late = λ k c. ground (arith, h.gone, h.settled.closed_late k);
  pending_late = h.settled.pending_late;
}

Attached-owned :
    (owner : Option ℕ) (attached finalized : ℕ → Bool) (l : ℕ)
    → finalized l ≡ false
    → Attached owner attached finalized
    → is_owner owner l ≡ true
    → attached l ≡ true
Attached-owned none attached finalized l f a o = cc
Attached-owned (some k) attached finalized l f a o = ground arith

start-IsClosing :
    (l : ℕ) (s : Process)
    → s.finalized l ≡ false
    → IsSettled s
    → IsClosing l (record s { finalized = set_at s.finalized l true })
start-IsClosing l s alive h = record {
  settled = record {
    agrees = h.agrees;
    is_attached = Attached-finalized s.fd_owner s.attached s.finalized l h.is_attached;
    closed_late = λ k c. ground (arith, h.closed_late k);
    pending_late = λ k c. ground (arith, h.pending_late k);
  };
  gone = ground arith;
  owned = Attached-owned s.fd_owner s.attached s.finalized l alive h.is_attached;
}

pub close_signals-IsSettled :
    (on_main : Bool) (resets : ℕ → Bool) (l : ℕ) (s : Process)
    → s.finalized l ≡ false
    → IsSettled s
    → IsSettled (close_signals on_main resets l s).1
unfolding close_signals
close_signals-IsSettled on_main resets l s alive h =
    let s1 = record s { finalized = set_at s.finalized l true } in
    let s' = (remove_all on_main resets (keys (s.handlers l)) l s1).1 in
    torn_down-IsSettled (not (is_empty (s'.handlers l)) || s'.attached l) on_main resets l s'
      (remove_all-IsClosing on_main resets (keys (s.handlers l)) l s1 (start-IsClosing l s alive h))
      (λ n. ground (arith, n))
