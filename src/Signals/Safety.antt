-- ===== src/Signals/Safety.antt =====
-- The wakeup descriptor through `_attach_wakeup_fd`, `_restore_wakeup_fd` and `_detach_wakeup_fd`.
use zuvloop.Signals.Wakeup.{
  is_empty, restore_wakeup_fd, attach_wakeup_fd, restore_answered, detach_wakeup_fd,
  attach_answered, WakeupState,
}
use zuvloop.Base.{
  not, ◌&&◌, find, is_some, inr, inl, Bool-cases, refl, ap, ◌∙◌, ℕ, ◌≡◌, Bool, true, false, ◌||◌,
  Option, none, some, List, arith, ◌==◌, if◌then◌else◌, Result, ok, err,
}
use zuvloop.Signals.Defs.{
  is_owner, no_fd, other_fd, is_finalized, csock, run_cleanups, set_at, Process, WakeupFd,
}
use zuvloop.Signals.Ownership.{
  run_cleanups-Keeps, Keeps, run_cleanups-IsSettled, IsSettled, Agree, IsWindow, Attached,
}

-- A descriptor and an owner that were found together.
abbrev pub Pair : WakeupFd → Option ℕ → Type 0
Pair (csock k) none = ⊥
Pair (csock k) (some l) = k ≡ l
Pair no_fd none = Unit
Pair no_fd (some l) = ⊥
Pair (other_fd n) none = Unit
Pair (other_fd n) (some l) = ⊥

-- The owner that is to be put back by loop `l` has the descriptor attached, unless it is finalized.
abbrev pub Prior : Option ℕ → ℕ → Bool → (ℕ → Bool) → (ℕ → Bool) → Type 0
Prior none l was attached finalized = Unit
Prior (some k) l was attached finalized =
    ((if k == l then was else attached k) || finalized k) ≡ true

-- The loop `l` has attached its descriptor and can put back what it found.
pub record IsReady (l : ℕ) (w : WakeupState) (s : Process) : Type 0 where
  pub window : IsWindow l s
  pub fd_is : s.wakeup_fd ≡ csock l
  pub attached_is : s.attached l ≡ true
  pub pair : Pair w.fd w.owner
  pub prior : Prior w.owner l w.was_attached s.attached s.finalized

abbrev pub Ready : ℕ → Option WakeupState → Process → Type 0
Ready l none s = IsSettled s
Ready l (some w) s = IsReady l w s

Agree-Pair :
    (fd : WakeupFd) (owner : Option ℕ) (closed : ℕ → Bool) → Agree fd owner closed → Pair fd owner
Agree-Pair (csock k) none closed a = a
Agree-Pair (csock k) (some l) closed a = a.0
Agree-Pair no_fd none closed a = tt
Agree-Pair no_fd (some l) closed a = a
Agree-Pair (other_fd n) none closed a = tt
Agree-Pair (other_fd n) (some l) closed a = a

-- A pair whose owner is not finalized can be put back.
Pair-Agree :
    (fd : WakeupFd) (owner : Option ℕ) (s : Process)
    → ((k : ℕ) → s.closed k ≡ true → s.finalized k ≡ true)
    → is_finalized owner s.finalized ≡ false
    → Pair fd owner
    → Agree fd owner s.closed
Pair-Agree (csock k) none s c f p = p
Pair-Agree (csock k) (some l) s c f p = (p, ground (arith, c k))
Pair-Agree no_fd none s c f p = tt
Pair-Agree no_fd (some l) s c f p = p
Pair-Agree (other_fd n) none s c f p = tt
Pair-Agree (other_fd n) (some l) s c f p = p

Prior-Attached :
    (owner : Option ℕ) (l : ℕ) (was : Bool) (attached finalized : ℕ → Bool)
    → Prior owner l was attached finalized
    → Attached owner (set_at attached l was) finalized
Prior-Attached none l was attached finalized p = tt
Prior-Attached (some k) l was attached finalized p = p

Attached-Prior :
    (owner : Option ℕ) (l : ℕ) (attached finalized : ℕ → Bool)
    → Attached owner attached finalized
    → Prior owner l (attached l) (set_at attached l true) finalized
Attached-Prior none l attached finalized a = tt
Attached-Prior (some k) l attached finalized a = ground arith

Prior-later :
    (owner : Option ℕ) (l : ℕ) (was : Bool) (attached attached' finalized finalized' : ℕ → Bool)
    → attached' ≡ attached
    → ((k : ℕ) → finalized k ≡ true → finalized' k ≡ true)
    → Prior owner l was attached finalized
    → Prior owner l was attached' finalized'
Prior-later none l was attached attached' finalized finalized' e f p = tt
Prior-later (some k) l was attached attached' finalized finalized' e f p = ground (arith, f k)

pub Ready-IsSettled :
    (l : ℕ) (saved : Option WakeupState) (s : Process) → Ready l saved s → IsSettled s
Ready-IsSettled l none s h = h
Ready-IsSettled l (some w) s h = record {
  agrees =
      rw (h.fd_is, h.window.own) (refl, ground (arith, h.window.alive, h.window.closed_late l));
  is_attached = rw h.window.own (ground (arith, h.attached_is));
  closed_late = h.window.closed_late;
  pending_late = h.window.pending_late;
}

pub run_cleanups-Ready :
    (l : ℕ) (saved : Option WakeupState) (cs : List (ℕ × (ℕ → Bool))) (s : Process)
    → Ready l saved s
    → Ready l saved (run_cleanups cs s)
run_cleanups-Ready l none cs s h = run_cleanups-IsSettled cs s h
run_cleanups-Ready l (some w) cs s h =
    let (w', k) = run_cleanups-Keeps l cs s h.window in
    let s' = run_cleanups cs s in
    record {
      window = w';
      fd_is = k.same_fd ∙ h.fd_is;
      attached_is = ap (λ f. f l) k.same_attached ∙ h.attached_is;
      pair = h.pair;
      prior =
          Prior-later w.owner l w.was_attached s.attached s'.attached s.finalized s'.finalized
            k.same_attached k.still_finalized h.prior;
    }

Attached-later :
    (owner : Option ℕ) (attached attached' finalized finalized' : ℕ → Bool)
    → attached' ≡ attached
    → ((k : ℕ) → finalized k ≡ true → finalized' k ≡ true)
    → Attached owner attached finalized
    → Attached owner attached' finalized'
Attached-later none attached attached' finalized finalized' e f a = tt
Attached-later (some k) attached attached' finalized finalized' e f a = ground (arith, f k)

-- What `_attach_wakeup_fd` leaves.
abbrev pub Answered : ℕ → Result (Option WakeupState) × Process → Type 0
Answered l (ok saved, s) = Ready l saved s
Answered l (err e, s) = IsSettled s

attach_answered-Answered :
    (answer : Result (Unit {0})) (l : ℕ) (s s' : Process)
    → IsSettled s
    → IsWindow l s'
    → Keeps (record s { fd_owner = some l }) s'
    → Answered l (attach_answered answer s.fd_owner (s.attached l) l s')
attach_answered-Answered (ok u) l s s' h w k = record {
  window = record {
    own = w.own;
    alive = w.alive;
    closed_late = w.closed_late;
    pending_late = w.pending_late;
  };
  fd_is = refl;
  attached_is = ground arith;
  pair = rw k.same_fd (Agree-Pair s.wakeup_fd s.fd_owner s.closed h.agrees);
  prior =
      Prior-later s.fd_owner l (s.attached l) (set_at s.attached l true) (set_at s'.attached l true)
        s.finalized s'.finalized (ap (λ f. set_at f l true) k.same_attached) k.still_finalized
        (Attached-Prior s.fd_owner l s.attached s.finalized h.is_attached);
}
attach_answered-Answered (err e) l s s' h w k =
    elim (Bool-cases (is_finalized s.fd_owner s'.finalized)) [
      | inl dead ↦ rw dead (record {
        agrees = tt;
        is_attached = tt;
        closed_late = w.closed_late;
        pending_late = w.pending_late;
      })
      | inr fine ↦ rw fine (record {
        agrees = rw k.same_fd (
            Pair-Agree s.wakeup_fd s.fd_owner s' w.closed_late fine
              (Agree-Pair s.wakeup_fd s.fd_owner s.closed h.agrees));
        is_attached =
            Attached-later s.fd_owner s.attached s'.attached s.finalized s'.finalized
              k.same_attached k.still_finalized h.is_attached;
        closed_late = w.closed_late;
        pending_late = w.pending_late;
      })
    ]

pub attach_wakeup_fd-Answered :
    (on_main : Bool) (answer : Result (Unit {0})) (between : List (ℕ × (ℕ → Bool))) (l : ℕ)
    (s : Process)
    → IsSettled s
    → s.finalized l ≡ false
    → Answered l (attach_wakeup_fd on_main answer between l s)
unfolding attach_wakeup_fd
attach_wakeup_fd-Answered on_main answer between l s h alive =
    elim (Bool-cases (on_main && not (is_empty (s.handlers l)))) [
      | inl tries ↦
          let published = record s { fd_owner = some l } in
          let start : IsWindow l published = record {
            own = refl;
            alive = alive;
            closed_late = h.closed_late;
            pending_late = h.pending_late;
          } in
          let (w, k) = run_cleanups-Keeps l between published start in
          rw tries (attach_answered-Answered answer l s (run_cleanups between published) h w k)
      | inr skips ↦ rw skips h
    ]

put_back-IsSettled :
    (l : ℕ) (w : WakeupState) (s : Process)
    → IsReady l w s
    → is_finalized w.owner s.finalized ≡ false
    → IsSettled (record s {
      wakeup_fd = w.fd;
      fd_owner = w.owner;
      attached = set_at s.attached l w.was_attached;
    })
put_back-IsSettled l w s h fine = record {
  agrees = Pair-Agree w.fd w.owner s h.window.closed_late fine h.pair;
  is_attached = Prior-Attached w.owner l w.was_attached s.attached s.finalized h.prior;
  closed_late = h.window.closed_late;
  pending_late = h.window.pending_late;
}

abandoned-IsSettled :
    (attached : ℕ → Bool) (s : Process)
    → ((k : ℕ) → s.closed k ≡ true → s.finalized k ≡ true)
    → ((k : ℕ) → is_some (find k s.pending) ≡ true → s.finalized k ≡ true)
    → IsSettled (record s { wakeup_fd = no_fd; fd_owner = none; attached = attached })
abandoned-IsSettled attached s c p = record {
  agrees = tt;
  is_attached = tt;
  closed_late = c;
  pending_late = p;
}

restore_answered-IsSettled :
    (abandon : Bool) (w : WakeupState) (l : ℕ) (s : Process)
    → IsReady l w s
    → IsSettled (restore_answered abandon w l s)
restore_answered-IsSettled true w l s h =
    abandoned-IsSettled (set_at s.attached l false) s h.window.closed_late h.window.pending_late
restore_answered-IsSettled false w l s h = elim (Bool-cases (is_finalized w.owner s.finalized)) [
  | inl dead ↦
      rw dead (
        abandoned-IsSettled (set_at s.attached l false) s h.window.closed_late
          h.window.pending_late)
  | inr fine ↦ rw fine (put_back-IsSettled l w s h fine)
]

pub restore_wakeup_fd-IsSettled :
    (saved : Option WakeupState) (taken : Bool) (between : List (ℕ × (ℕ → Bool))) (l : ℕ)
    (s : Process)
    → Ready l saved s
    → IsSettled (restore_wakeup_fd saved taken between l s)
unfolding restore_wakeup_fd
restore_wakeup_fd-IsSettled none taken between l s h = h
restore_wakeup_fd-IsSettled (some w) taken between l s h =
    restore_answered-IsSettled (is_finalized w.owner s.finalized || not taken) w l
      (run_cleanups between s) (run_cleanups-Ready l (some w) between s h)

Attached-drop :
    (owner : Option ℕ) (attached finalized : ℕ → Bool) (l : ℕ)
    → is_owner owner l ≡ false
    → Attached owner attached finalized
    → Attached owner (set_at attached l false) finalized
Attached-drop none attached finalized l n a = tt
Attached-drop (some k) attached finalized l n a = ground arith

pub detach_wakeup_fd-IsSettled :
    (on_main : Bool) (l : ℕ) (s : Process) → IsSettled s → IsSettled (detach_wakeup_fd on_main l s)
unfolding detach_wakeup_fd
detach_wakeup_fd-IsSettled on_main l s h =
    elim (Bool-cases (on_main && s.attached l && is_empty (s.handlers l))) [
      | inl done ↦ rw done (elim (Bool-cases (is_owner s.fd_owner l)) [
        | inl own ↦
            rw own (abandoned-IsSettled (set_at s.attached l false) s h.closed_late h.pending_late)
        | inr other ↦ rw other (record {
          agrees = h.agrees;
          is_attached = Attached-drop s.fd_owner s.attached s.finalized l other h.is_attached;
          closed_late = h.closed_late;
          pending_late = h.pending_late;
        })
      ])
      | inr stays ↦ rw stays h
    ]
