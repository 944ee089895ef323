-- ===== src/Signals/Ownership.antt =====
-- Whose descriptor `signal.set_wakeup_fd` holds.
use zuvloop.Base.{
  inr, inl, Bool-cases, ap, ◌∙◌, find-remove, remove, ◌==◌, find, refl, ℕ, ◌≡◌, Bool, true, false,
  ◌&&◌, ◌||◌, Option, none, some, List, [], ◌∷◌, arith, if◌then◌else◌, is_some,
}
use zuvloop.Signals.Defs.{
  clean_up, run_cleanups, give_up_fd, finish_cleanup, no_fd, default_action, set_at, other_fd,
  csock, is_owner, reset_owned, WakeupFd, Process,
}

-- The descriptor and its owner agree, and it is not closed.
abbrev pub Agree : WakeupFd → Option ℕ → (ℕ → Bool) → Type 0
Agree (csock k) none closed = ⊥
Agree (csock k) (some l) closed = (k ≡ l) × (closed k ≡ false)
Agree no_fd none closed = Unit
Agree no_fd (some l) closed = ⊥
Agree (other_fd n) none closed = Unit
Agree (other_fd n) (some l) closed = ⊥

-- The owner of the descriptor has it attached, unless it is finalized.
abbrev pub Attached : Option ℕ → (ℕ → Bool) → (ℕ → Bool) → Type 0
Attached none attached finalized = Unit
Attached (some l) attached finalized = (attached l || finalized l) ≡ true

-- What holds between the calls of the main thread.
pub record IsSettled (s : Process) : Type 0 where
  pub agrees : Agree s.wakeup_fd s.fd_owner s.closed
  pub is_attached : Attached s.fd_owner s.attached s.finalized
  pub closed_late : (l : ℕ) → s.closed l ≡ true → s.finalized l ≡ true
  pub pending_late : (l : ℕ) → is_some (find l s.pending) ≡ true → s.finalized l ≡ true

reset_owned_fields :
    (resets : ℕ → Bool) (l : ℕ) (sigs : List ℕ) (s : Process)
    → let s' = reset_owned resets l sigs s in
      (s'.wakeup_fd ≡ s.wakeup_fd)
      × (s'.fd_owner ≡ s.fd_owner)
      × (s'.finalized ≡ s.finalized)
      × (s'.attached ≡ s.attached)
      × (s'.closed ≡ s.closed)
      × (s'.pending ≡ s.pending)
      × (s'.handlers ≡ s.handlers)
unfolding reset_owned
reset_owned_fields resets l [] s = (refl, refl, refl, refl, refl, refl, refl)
reset_owned_fields resets l (sig ∷ sigs) s =
    let s' =
      (if is_owner (s.owners sig) l && resets sig
        then record s {
          disposition = set_at s.disposition sig default_action;
          owners = set_at s.owners sig none;
        }
        else s) in
    ground (arith, reset_owned_fields resets l sigs s')

-- Before and after the clean-ups that come while an open loop owns the descriptor.
pub record IsWindow (l : ℕ) (s : Process) : Type 0 where
  pub own : s.fd_owner ≡ some l
  pub alive : s.finalized l ≡ false
  pub closed_late : (k : ℕ) → s.closed k ≡ true → s.finalized k ≡ true
  pub pending_late : (k : ℕ) → is_some (find k s.pending) ≡ true → s.finalized k ≡ true

-- What the clean-ups leave of it.
pub record Keeps (s s' : Process) : Type 0 where
  pub same_fd : s'.wakeup_fd ≡ s.wakeup_fd
  pub same_owner : s'.fd_owner ≡ s.fd_owner
  pub same_attached : s'.attached ≡ s.attached
  pub still_finalized : (k : ℕ) → s.finalized k ≡ true → s'.finalized k ≡ true

module _ (l : ℕ) (resets : ℕ → Bool) (o : ℕ) (sigs : List ℕ) (s : Process) (w : IsWindow l s)
    (found : find o s.pending ≡ some sigs) where
  other : (l == o) ≡ false
  other = ground (arith, w.alive, found, w.pending_late o)

  finish_cleanup-Keeps :
      let s' = finish_cleanup resets o sigs (record s { pending = remove o s.pending }) in
      IsWindow l s' × Keeps s s'
  unfolding finish_cleanup give_up_fd
  finish_cleanup-Keeps =
      let s1 = give_up_fd o (record s { pending = remove o s.pending }) in
      let fields = reset_owned_fields resets o sigs s1 in
      (
        record {
          own = ground (arith, other, w.own, fields);
          alive = ground (arith, other, w.own, w.alive, fields);
          closed_late = λ k h. ground (arith, other, w.own, w.closed_late k, fields);
          pending_late = λ k h.
              ground (arith, other, w.own, w.pending_late k, find-remove o k s.pending, fields);
        },
        record {
          same_fd = ground (arith, other, w.own, fields);
          same_owner = ground (arith, other, w.own, fields);
          same_attached = ground (arith, other, w.own, fields);
          still_finalized = λ k h. ground (arith, other, w.own, fields);
        },
      )

pub Keeps-refl : (s : Process) → Keeps s s
Keeps-refl s = record {
  same_fd = refl;
  same_owner = refl;
  same_attached = refl;
  still_finalized = λ k h. h;
}

Keeps-trans : (s t u : Process) → Keeps s t → Keeps t u → Keeps s u
Keeps-trans s t u a b = record {
  same_fd = b.same_fd ∙ a.same_fd;
  same_owner = b.same_owner ∙ a.same_owner;
  same_attached = b.same_attached ∙ a.same_attached;
  still_finalized = λ k h. b.still_finalized k (a.still_finalized k h);
}

clean_up-Keeps :
    (l : ℕ) (resets : ℕ → Bool) (o : ℕ) (f : Option (List ℕ)) (s : Process)
    → IsWindow l s
    → find o s.pending ≡ f
    → IsWindow l (clean_up f resets o s) × Keeps s (clean_up f resets o s)
clean_up-Keeps l resets o none s w e = (w, Keeps-refl s)
clean_up-Keeps l resets o (some sigs) s w e = finish_cleanup-Keeps l resets o sigs s w e

pub run_cleanups-Keeps :
    (l : ℕ) (cs : List (ℕ × (ℕ → Bool))) (s : Process)
    → IsWindow l s
    → IsWindow l (run_cleanups cs s) × Keeps s (run_cleanups cs s)
unfolding run_cleanups
run_cleanups-Keeps l [] s w = (w, Keeps-refl s)
run_cleanups-Keeps l ((o, resets) ∷ cs) s w =
    let s' = clean_up (find o s.pending) resets o s in
    let (w', k') = clean_up-Keeps l resets o (find o s.pending) s w refl in
    let (w'', k'') = run_cleanups-Keeps l cs s' w' in
    (w'', Keeps-trans s s' (run_cleanups cs s') k' k'')

pub Agree-closed :
    (fd : WakeupFd) (owner : Option ℕ) (closed : ℕ → Bool) (o : ℕ)
    → is_owner owner o ≡ false
    → Agree fd owner closed
    → Agree fd owner (set_at closed o true)
Agree-closed no_fd none closed o n a = tt
Agree-closed no_fd (some l) closed o n a = a
Agree-closed (csock k) none closed o n a = a
Agree-closed (csock k) (some l) closed o n a = ground arith
Agree-closed (other_fd k) none closed o n a = tt
Agree-closed (other_fd k) (some l) closed o n a = a

pub Attached-finalized :
    (owner : Option ℕ) (attached finalized : ℕ → Bool) (o : ℕ)
    → Attached owner attached finalized
    → Attached owner attached (set_at finalized o true)
Attached-finalized none attached finalized o a = tt
Attached-finalized (some l) attached finalized o a = ground arith

-- A state is settled if its fields that matter are those of a settled one.
pub IsSettled-by :
    (s s' : Process)
    → s'.wakeup_fd ≡ s.wakeup_fd
    → s'.fd_owner ≡ s.fd_owner
    → s'.finalized ≡ s.finalized
    → s'.attached ≡ s.attached
    → s'.closed ≡ s.closed
    → s'.pending ≡ s.pending
    → IsSettled s
    → IsSettled s'
IsSettled-by s s' a b c d e f h = record {
  agrees = rw (a, b, e) h.agrees;
  is_attached = rw (b, c, d) h.is_attached;
  closed_late = rw (c, e) h.closed_late;
  pending_late = rw (c, f) h.pending_late;
}

-- A clean-up without its resets.
give_up-IsSettled :
    (o : ℕ) (s : Process)
    → IsSettled s
    → let s' = give_up_fd o s in IsSettled (record s' { closed = set_at s'.closed o true })
unfolding give_up_fd
give_up-IsSettled o s h = elim (Bool-cases (is_owner s.fd_owner o)) [
  | inl own ↦ rw own (record {
    agrees = tt;
    is_attached = tt;
    closed_late = λ k c. ground (arith, h.closed_late k);
    pending_late = λ k c. ground (arith, h.pending_late k);
  })
  | inr other ↦ rw other (record {
    agrees = Agree-closed s.wakeup_fd s.fd_owner s.closed o other h.agrees;
    is_attached = Attached-finalized s.fd_owner s.attached s.finalized o h.is_attached;
    closed_late = λ k c. ground (arith, h.closed_late k);
    pending_late = λ k c. ground (arith, h.pending_late k);
  })
]

-- The clean-up of any loop, at any time.
pub finish_cleanup-IsSettled :
    (resets : ℕ → Bool) (o : ℕ) (sigs : List ℕ) (s : Process)
    → IsSettled s
    → IsSettled (finish_cleanup resets o sigs s)
unfolding finish_cleanup
finish_cleanup-IsSettled resets o sigs s h =
    let s1 = give_up_fd o s in
    let (a, b, c, d, e, f, g) = reset_owned_fields resets o sigs s1 in
    let s2 = reset_owned resets o sigs s1 in
    IsSettled-by (record s1 { closed = set_at s1.closed o true })
      (record s2 { closed = set_at s2.closed o true }) a b c d (ap (λ f'. set_at f' o true) e) f
      (give_up-IsSettled o s h)

clean_up-IsSettled :
    (resets : ℕ → Bool) (o : ℕ) (f : Option (List ℕ)) (s : Process)
    → IsSettled s
    → IsSettled (clean_up f resets o s)
clean_up-IsSettled resets o none s h = h
clean_up-IsSettled resets o (some sigs) s h =
    finish_cleanup-IsSettled resets o sigs (record s { pending = remove o s.pending })
      (record {
        agrees = h.agrees;
        is_attached = h.is_attached;
        closed_late = h.closed_late;
        pending_late = λ k c. ground (arith, h.pending_late k, find-remove o k s.pending);
      })

pub run_cleanups-IsSettled :
    (cs : List (ℕ × (ℕ → Bool))) (s : Process) → IsSettled s → IsSettled (run_cleanups cs s)
unfolding run_cleanups
run_cleanups-IsSettled [] s h = h
run_cleanups-IsSettled ((o, resets) ∷ cs) s h =
    run_cleanups-IsSettled cs (clean_up (find o s.pending) resets o s)
      (clean_up-IsSettled resets o (find o s.pending) s h)
