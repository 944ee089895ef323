-- ===== src/Processes/Descriptors.antt =====
-- Which descriptors `spawn_libuv` and `Popen.__init__` leave open.
use zuvloop.Base.{
  Distinct-append_one, has-discard_any, append-nil, zero, err, ◌+◌, suc, ok, Result, ◌∙◌, refl, ap,
  ℕ, ◌≡◌, true, false, not, ◌&&◌, ◌||◌, Option, none, some, List, [], ◌∷◌, ◌++◌, arith, has,
  discard, Distinct, Below, Below-suc, Below-has, has-append,
}
use mathlib.Core.Path.{sym, subst}
use zuvloop.Processes.Spawning.{
  inherit, devnull, pipe, to_stdout, to_fd, dup_stdout, took, after_round, piped, opened_one, Ends,
  Request, Streams, Answers, open_stream, open_streams, close_open, open_fd, close_fds, held,
  Descriptors,
}

-- All are open.
abbrev pub AllOpen : List ℕ → List ℕ → Type 0
AllOpen [] opened = Unit
AllOpen (n ∷ ns) opened = (has n opened ≡ true) × AllOpen ns opened

AllOpen-discard :
    (n : ℕ) (ns opened : List ℕ)
    → has n ns ≡ false
    → AllOpen ns opened
    → AllOpen ns (discard n opened)
AllOpen-discard n [] opened h a = tt
AllOpen-discard n (m ∷ ns) opened h a =
    ground (arith, AllOpen-discard n ns opened, has-discard_any m n opened)

-- Closing distinct open descriptors closes these and no other, and none twice.
pub close_fds_lem :
    (k : ℕ) (ns : List ℕ) (d : Descriptors)
    → Distinct ns
    → AllOpen ns d.opened
    → (has k (close_fds ns d).opened ≡ (has k d.opened && not (has k ns)))
      × ((close_fds ns d).stray ≡ d.stray)
unfolding close_fds
close_fds_lem k [] d h a = (ground arith, refl)
close_fds_lem k (n ∷ ns) d (new, h) (o, a) =
    let d' : Descriptors = record d { opened = discard n d.opened } in
    let rest = close_fds_lem k ns d' h (AllOpen-discard n ns d.opened new a) in
    let e : close_fds (n ∷ ns) d ≡ close_fds ns d' = ap (λ b. close_fds ns (close_open b n d)) o in
    (
      ap (λ t. has k t.opened) e ∙ ground (arith, rest.0, has-discard_any k n d.opened),
      ap (λ t. t.stray) e ∙ rest.1,
    )

held-append : (xs ys : List (Option ℕ)) → held (xs ++ ys) ≡ held xs ++ held ys
held-append [] ys = refl
held-append (none ∷ xs) ys = held-append xs ys
held-append (some n ∷ xs) ys = ap (λ ns. n ∷ ns) (held-append xs ys)

-- What is open is the child's, ours, or from before, each apart from the others.
pub record IsHeld (base : Descriptors) (child mine : List ℕ) (d : Descriptors) : Type 0 where
  pub opened_are : (k : ℕ) → has k d.opened ≡ (has k child || (has k mine || has k base.opened))
  pub child_apart : (k : ℕ) → (has k child && (has k mine || has k base.opened)) ≡ false
  pub mine_apart : (k : ℕ) → (has k mine && has k base.opened) ≡ false
  pub child_distinct : Distinct child
  pub mine_distinct : Distinct mine
  pub low : Below d.next d.opened
  pub same : d.stray ≡ base.stray

pub new-IsHeld : (d : Descriptors) → Below d.next d.opened → IsHeld d [] [] d
new-IsHeld d b = record {
  opened_are = λ k. refl;
  child_apart = λ k. refl;
  mine_apart = λ k. refl;
  child_distinct = tt;
  mine_distinct = tt;
  low = b;
  same = refl;
}

child-IsHeld :
    (base : Descriptors) (child mine : List ℕ) (d : Descriptors)
    → IsHeld base child mine d
    → IsHeld base (child ++ (d.next ∷ [])) mine (open_fd d)
child-IsHeld base child mine d h = record {
  opened_are = λ k. ground (arith, h.opened_are k, has-append k child (d.next ∷ []));
  child_apart = λ k. ground (
    arith,
    h.opened_are k,
    h.child_apart k,
    has-append k child (d.next ∷ []),
    Below-has d.next d.opened h.low,
  );
  mine_apart = h.mine_apart;
  child_distinct =
      Distinct-append_one d.next child h.child_distinct
        (ground (arith, h.opened_are d.next, Below-has d.next d.opened h.low));
  mine_distinct = h.mine_distinct;
  low = (omega arith, Below-suc d.next d.opened h.low);
  same = h.same;
}

mine-IsHeld :
    (base : Descriptors) (child mine : List ℕ) (d : Descriptors)
    → IsHeld base child mine d
    → IsHeld base child (mine ++ (d.next ∷ [])) (open_fd d)
mine-IsHeld base child mine d h = record {
  opened_are = λ k. ground (arith, h.opened_are k, has-append k mine (d.next ∷ []));
  child_apart = λ k. ground (
    arith,
    h.opened_are k,
    h.child_apart k,
    has-append k mine (d.next ∷ []),
    Below-has d.next d.opened h.low,
  );
  mine_apart = λ k. ground (
    arith,
    h.opened_are k,
    h.mine_apart k,
    has-append k mine (d.next ∷ []),
    Below-has d.next d.opened h.low,
  );
  child_distinct = h.child_distinct;
  mine_distinct =
      Distinct-append_one d.next mine h.mine_distinct
        (ground (arith, h.opened_are d.next, Below-has d.next d.opened h.low));
  low = (omega arith, Below-suc d.next d.opened h.low);
  same = h.same;
}

-- What one stream opened is the child's or ours.
abbrev Opens : Descriptors → Streams → Result Ends × Descriptors → Type 0
Opens base t (err e, d) = IsHeld base (held t.child_fds) t.mine d
Opens base t (ok (c, none), d) = IsHeld base (held (t.child_fds ++ (c ∷ []))) t.mine d
Opens base t (ok (c, some m), d) =
    IsHeld base (held (t.child_fds ++ (c ∷ []))) (t.mine ++ (m ∷ [])) d

append-IsHeld :
    (base : Descriptors) (child_fds : List (Option ℕ)) (c : Option ℕ) (mine : List ℕ)
    (d : Descriptors)
    → IsHeld base (held child_fds ++ held (c ∷ [])) mine d
    → IsHeld base (held (child_fds ++ (c ∷ []))) mine d
append-IsHeld base child_fds c mine d h =
    subst (λ ns. IsHeld base ns mine d) (sym (held-append child_fds (c ∷ []))) h

opened_one-Opens :
    (r : Result (Unit {0})) (base : Descriptors) (t : Streams) (d : Descriptors)
    → IsHeld base (held t.child_fds) t.mine d
    → Opens base t (opened_one r d)
opened_one-Opens (ok u) base t d h =
    append-IsHeld base t.child_fds (some d.next) t.mine (open_fd d)
      (child-IsHeld base (held t.child_fds) t.mine d h)
opened_one-Opens (err e) base t d h = h

piped-Opens :
    (r : Result (Unit {0})) (index : ℕ) (base : Descriptors) (t : Streams) (d : Descriptors)
    → IsHeld base (held t.child_fds) t.mine d
    → Opens base t (piped r (ok tt) index d)
piped-Opens (err e) index base t d h = h
piped-Opens (ok u) zero base t d h =
    append-IsHeld base t.child_fds (some d.next) (t.mine ++ ((d.next + 1) ∷ []))
      (open_fd (open_fd d))
      (mine-IsHeld base (held t.child_fds ++ (d.next ∷ [])) t.mine (open_fd d)
        (child-IsHeld base (held t.child_fds) t.mine d h))
piped-Opens (ok u) (suc index) base t d h =
    append-IsHeld base t.child_fds (some (d.next + 1)) (t.mine ++ (d.next ∷ []))
      (open_fd (open_fd d))
      (child-IsHeld base (held t.child_fds) (t.mine ++ (d.next ∷ [])) (open_fd d)
        (mine-IsHeld base (held t.child_fds) t.mine d h))

nothing-Opens :
    (base : Descriptors) (t : Streams) (d : Descriptors)
    → IsHeld base (held t.child_fds) t.mine d
    → Opens base t (ok (none, none), d)
nothing-Opens base t d h =
    append-IsHeld base t.child_fds none t.mine d
      (subst (λ ns. IsHeld base ns t.mine d) (sym (append-nil (held t.child_fds))) h)

open_stream-Opens :
    (index : ℕ) (request : Request) (a : Answers) (base : Descriptors) (t : Streams)
    (d : Descriptors)
    → a.set_inheritable ≡ ok tt
    → IsHeld base (held t.child_fds) t.mine d
    → Opens base t (open_stream index request t.child_fds a d)
unfolding open_stream
open_stream-Opens zero inherit a base t d sure h = nothing-Opens base t d h
open_stream-Opens (suc index) inherit a base t d sure h = opened_one-Opens a.dup base t d h
open_stream-Opens index devnull a base t d sure h = opened_one-Opens a.open_devnull base t d h
open_stream-Opens index pipe a base t d sure h = rw sure (piped-Opens a.make_pipe index base t d h)
open_stream-Opens index to_stdout a base t d sure h =
    opened_one-Opens (dup_stdout t.child_fds a.dup) base t d h
open_stream-Opens index (to_fd (ok fd)) a base t d sure h = opened_one-Opens a.dup base t d h
open_stream-Opens index (to_fd (err e)) a base t d sure h = h

-- The loop's state, as the `except` and the `finally` find it.
abbrev pub IsReady : Descriptors → (Result (Unit {0}) × Streams) × Descriptors → Type 0
IsReady base ((r, t), d) = IsHeld base (held t.child_fds) t.mine d

took-IsReady :
    (a : Answers) (base : Descriptors) (t : Streams) (end : Result Ends × Descriptors)
    → a.open_file ≡ ok tt
    → Opens base t end
    → IsReady base (took a end t)
took-IsReady a base t (err e, d) sure h = h
took-IsReady a base t (ok (c, none), d) sure h = h
took-IsReady a base t (ok (c, some m), d) sure h = rw sure h

after_round-IsReady :
    (base : Descriptors) (round later : (Result (Unit {0}) × Streams) × Descriptors)
    → IsReady base round
    → IsReady base later
    → IsReady base (after_round round later)
after_round-IsReady base ((ok u, t), d) later h l = l
after_round-IsReady base ((err e, t), d) later h l = h

-- Neither `os.set_inheritable` on an end of a new pipe nor `open` on the other end raises.
abbrev pub IsSure : List (Request × Answers) → Type 0
IsSure [] = Unit
IsSure ((request, a) ∷ rest) = (a.set_inheritable ≡ ok tt) × (a.open_file ≡ ok tt) × IsSure rest

pub open_streams-IsReady :
    (index : ℕ) (streams : List (Request × Answers)) (base : Descriptors) (t : Streams)
    (d : Descriptors)
    → IsSure streams
    → IsHeld base (held t.child_fds) t.mine d
    → IsReady base (open_streams index streams t d)
unfolding open_streams
open_streams-IsReady index [] base t d sure h = h
open_streams-IsReady index ((request, a) ∷ rest) base t d (s, o, sure) h =
    let end = open_stream index request t.child_fds a d in
    let round = took a end t in
    let ready = took-IsReady a base t end o (open_stream-Opens index request a base t d s h) in
    after_round-IsReady base round (open_streams (index + 1) rest round.0.1 round.1) ready
      (open_streams-IsReady (index + 1) rest base round.0.1 round.1 sure ready)
