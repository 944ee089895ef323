-- ===== src/Connect/Raced.antt =====
-- The errors of the race are those of the addresses one after another.
use zuvloop.Connect.Refusing.{go_on-refused}
use mathlib.Core.Path.{subst}
use zuvloop.Connect.Racing.{
  cancel_of, concluded_by, cancels, start, answer_of, answers, race_end, later, starts, new_race,
  errors_of, Reach, started_next, Step, resume, Race, winner_of, begin_one, after_connect,
  bound_runner, ended_as, after_socket, Runner, Progress, waiting, won, failed,
}
use zuvloop.Base.{
  some, append-nil, append_assoc, zero, sym, suc, ◌∙◌, none, arith, cancelled, Bool, refl, ap, ℕ,
  ◌≡◌, true, Option, List, [], ◌∷◌, ◌++◌, is_os_error, OsKind, Exception, Result, ok, err,
}
use zuvloop.Connect.Defs.{
  flatten, complain, tell, connect_each, concluded, bind_any, Attempt, Info, Files, connect_one,
}

-- An attempt ended with an OSError, with this in its slot, whatever the state of the descriptors.
abbrev Fails : (ℕ → OsKind) → Option (List Info) → Runner → Exception → Type 0
Fails kind_of locals t e =
    (f : Files)
    → ((connect_one kind_of locals t.info t.attempt f).0 ≡ err e)
      × ((connect_one kind_of locals t.info t.attempt f).1 ≡ t.slot)

-- An attempt that waits has the errors of its local addresses in its slot.
abbrev Agrees : (ℕ → OsKind) → Option (List Info) → Runner → Progress → Type 0
Agrees kind_of locals t (waiting sock) =
    (t.attempt.socket ≡ ok tt)
    × (bind_any kind_of t.attempt.bind t.info.family locals ≡ (ok tt, t.slot))
Agrees kind_of locals t (failed e) = is_os_error e ≡ true → Fails kind_of locals t e
Agrees kind_of locals t (won sock) = Unit

abbrev AllAgree : (ℕ → OsKind) → Option (List Info) → List Runner → Type 0
AllAgree kind_of locals [] = Unit
AllAgree kind_of locals (t ∷ runners) =
    Agrees kind_of locals t t.status × AllAgree kind_of locals runners

-- Its address, with what the system answers to it.
abbrev own : Runner → Info × Attempt
own t = (t.info, t.attempt)

-- The addresses that were tried, in order.
abbrev tried_by : List Runner → List (Info × Attempt)
tried_by [] = []
tried_by (t ∷ runners) = own t ∷ tried_by runners

AllAgree-append :
    (kind_of : ℕ → OsKind) (locals : Option (List Info)) (runners : List Runner) (t : Runner)
    → AllAgree kind_of locals runners
    → Agrees kind_of locals t t.status
    → AllAgree kind_of locals (runners ++ (t ∷ []))
AllAgree-append kind_of locals [] t all one = (one, tt)
AllAgree-append kind_of locals (t' ∷ runners) t (first, all) one =
    (first, AllAgree-append kind_of locals runners t all one)

tried_by-append :
    (runners : List Runner) (t : Runner)
    → tried_by (runners ++ (t ∷ [])) ≡ tried_by runners ++ (own t ∷ [])
tried_by-append [] t = refl
tried_by-append (t' ∷ runners) t = ap (λ r. own t' ∷ r) (tried_by-append runners t)

-- Each attempt ended with an OSError.
abbrev pub AllFailed : List Runner → Type 0
AllFailed [] = Unit
AllFailed (t ∷ runners) =
    ((e : Exception) × (t.status ≡ failed e) × (is_os_error e ≡ true)) × AllFailed runners

failed-winner : (runners : List Runner) → AllFailed runners → winner_of runners ≡ none
failed-winner [] all = refl
failed-winner (t ∷ runners) ((e, st, os), all) = rw st (failed-winner runners all)

module _ (kind_of : ℕ → OsKind) (locals : Option (List Info)) where
  bound-Agrees :
      (i : Info) (a : Attempt) (bound : Result (Unit {0}) × List Exception) (f : Files)
      → a.socket ≡ ok tt
      → bind_any kind_of a.bind i.family locals ≡ bound
      → let t = (bound_runner kind_of i a bound f).0 in Agrees kind_of locals t t.status
  unfolding connect_one
  bound-Agrees i a (ok u, mine) f s b = (s, b)
  bound-Agrees i a (err e, mine) f s b = λ os f'. rw s (rw b (refl, refl))

  after_socket-Agrees :
      (i : Info) (a : Attempt) (socket : Result (Unit {0})) (f : Files)
      → a.socket ≡ socket
      → let t = (after_socket kind_of i a socket (bind_any kind_of a.bind i.family locals) f).0 in
        Agrees kind_of locals t t.status
  unfolding connect_one
  after_socket-Agrees i a (ok u) f s =
      bound-Agrees i a (bind_any kind_of a.bind i.family locals) f s refl
  after_socket-Agrees i a (err e) f s = λ os f'. rw s (refl, refl)

  bound_own :
      (i : Info) (a : Attempt) (bound : Result (Unit {0}) × List Exception) (f : Files)
      → let t = (bound_runner kind_of i a bound f).0 in own t ≡ (i, a)
  bound_own i a (ok u, mine) f = refl
  bound_own i a (err e, mine) f = refl

  after_socket_own :
      (i : Info) (a : Attempt) (socket : Result (Unit {0})) (f : Files)
      → let t = (after_socket kind_of i a socket (bind_any kind_of a.bind i.family locals) f).0 in
        own t ≡ (i, a)
  after_socket_own i a (ok u) f = bound_own i a (bind_any kind_of a.bind i.family locals) f
  after_socket_own i a (err e) f = refl

  answered-Agrees :
      (t : Runner) (sock : ℕ) (r : Result (Unit {0})) (f : Files)
      → t.attempt.connect ≡ r
      → Agrees kind_of locals t (waiting sock)
      → let t' = (ended_as t.info t.attempt (concluded kind_of r t.slot sock f)).0 in
        Agrees kind_of locals t' t'.status
  unfolding connect_one
  answered-Agrees t sock (ok u) f c g = tt
  answered-Agrees t sock (err e) f c (s, b) = λ os f'. rw s (rw b (rw c (refl, refl)))

  cancelled-Agrees :
      (t : Runner) (sock : ℕ) (f : Files)
      → let t' = (ended_as t.info t.attempt (concluded kind_of (err cancelled) t.slot sock f)).0 in
        Agrees kind_of locals t' t'.status
  cancelled-Agrees t sock f = λ os. cc

  -- A runner that goes on with its answer or is cancelled agrees still.
  abbrev Continues : (Attempt → Result (Unit {0})) → Type 0
  Continues given =
      (t : Runner) (sock : ℕ) (f : Files)
      → Agrees kind_of locals t (waiting sock)
      → let t' =
          (ended_as t.info t.attempt (concluded kind_of (given t.attempt) t.slot sock f)).0 in
        Agrees kind_of locals t' t'.status

  after_connect-Agrees :
      (given : Attempt → Result (Unit {0})) (st : Progress) (t : Runner) (f : Files)
      → Continues given
      → t.status ≡ st
      → Agrees kind_of locals t t.status
      → let t' = (after_connect kind_of (given t.attempt) st t f).0 in
        Agrees kind_of locals t' t'.status × (t'.info ≡ t.info) × (t'.attempt ≡ t.attempt)
  after_connect-Agrees given (waiting sock) t f c e g =
      (c t sock f (subst (λ st. Agrees kind_of locals t st) e g), refl, refl)
  after_connect-Agrees given (won sock) t f c e g = (g, refl, refl)
  after_connect-Agrees given (failed x) t f c e g = (g, refl, refl)

  resume-AllAgree :
      (given : Attempt → Result (Unit {0})) (k : ℕ) (runners : List Runner) (f : Files)
      → Continues given
      → AllAgree kind_of locals runners
      → AllAgree kind_of locals (resume kind_of given k runners f).0
        × (tried_by (resume kind_of given k runners f).0 ≡ tried_by runners)
  unfolding resume
  resume-AllAgree given k [] f c all = (tt, refl)
  resume-AllAgree given zero (t ∷ runners) f c (g, all) =
      let kept = after_connect-Agrees given t.status t f c refl g in
      ((kept.0, all), ground (arith, kept.1, kept.2))
  resume-AllAgree given (suc k) (t ∷ runners) f c (g, all) =
      let rest = resume-AllAgree given k runners f c all in
      ((g, rest.0), ap (λ r. own t ∷ r) rest.1)

  -- All agree, and what was tried and what is left are the addresses, in order.
  abbrev IsFair : List (Info × Attempt) → Race → Type 0
  IsFair infos s = AllAgree kind_of locals s.runners × (tried_by s.runners ++ s.todo ≡ infos)

  started_next-IsFair :
      (infos todo : List (Info × Attempt)) (runners : List Runner) (f : Files)
      → AllAgree kind_of locals runners
      → tried_by runners ++ todo ≡ infos
      → IsFair infos (started_next kind_of locals todo runners f)
  unfolding begin_one
  started_next-IsFair infos [] runners f all e = (all, e)
  started_next-IsFair infos ((i, a) ∷ rest) runners f all e =
      let t = (after_socket kind_of i a a.socket (bind_any kind_of a.bind i.family locals) f).0 in
      let same : own t ≡ (i, a) = after_socket_own i a a.socket f in
      (
        AllAgree-append kind_of locals runners t all (after_socket-Agrees i a a.socket f refl),
        ap (λ l. l ++ rest) (tried_by-append runners t)
            ∙ append_assoc (tried_by runners) (own t ∷ []) rest
            ∙ ap (λ x. tried_by runners ++ (x ∷ rest)) same
            ∙ e,
      )

  Step-IsFair :
      (infos : List (Info × Attempt)) {s t : Race}
      → Step kind_of locals s t
      → IsFair infos s
      → IsFair infos t
  Step-IsFair infos {s} (starts n) (all, e) =
      started_next-IsFair infos s.todo s.runners s.files all e
  Step-IsFair infos {s} (answers k n) (all, e) =
      let kept =
        resume-AllAgree answer_of k s.runners s.files
          (λ t sock f g. answered-Agrees t sock t.attempt.connect f refl g) all in
      (kept.0, ap (λ l. l ++ s.todo) kept.1 ∙ e)
  Step-IsFair infos {s} (cancels k) (all, e) =
      let kept =
        resume-AllAgree cancel_of k s.runners s.files (λ t sock f g. cancelled-Agrees t sock f)
          all in
      (kept.0, ap (λ l. l ++ s.todo) kept.1 ∙ e)

  Reach-IsFair :
      (infos : List (Info × Attempt)) (f : Files) {s : Race}
      → Reach kind_of locals (new_race infos f) s
      → IsFair infos s
  Reach-IsFair infos f start = (tt, refl)
  Reach-IsFair infos f (later r st) = Step-IsFair infos st (Reach-IsFair infos f r)

  -- The loop over the addresses that were tried passes them all.
  failed-each :
      (runners : List Runner) (errors : List (List Exception)) (f : Files)
      → AllAgree kind_of locals runners
      → AllFailed runners
      → let end = connect_each kind_of locals (tried_by runners) errors f in
        (end.0 ≡ ok none) × (end.1 ≡ errors ++ errors_of runners)
  unfolding connect_each
  failed-each [] errors f all every = (refl, sym (append-nil errors))
  failed-each (t ∷ runners) errors f (g, all) ((e, st, os), every) =
      let tried = connect_one kind_of locals t.info t.attempt f in
      let fails : Fails kind_of locals t e = subst (λ x. Agrees kind_of locals t x) st g os in
      let slots = errors ++ (tried.1 ∷ []) in
      let after = connect_each kind_of locals (tried_by runners) slots tried.2 in
      let passes = go_on-refused kind_of tried after errors e os (fails f).0 in
      let rest = failed-each runners slots tried.2 all every in
      (
        ap (λ r. r.0) passes ∙ rest.0,
        ap (λ r. r.1) passes
            ∙ rest.1
            ∙ append_assoc errors (tried.1 ∷ []) (errors_of runners)
            ∙ ap (λ m. errors ++ (m ∷ errors_of runners)) (fails f).1,
      )

  told_by :
      (text : Exception → ℕ) (all_errors : Bool)
      (end : Result (Option ℕ) × List (List Exception) × Files) (errors : List (List Exception))
      → end.0 ≡ ok none
      → end.1 ≡ errors
      → (tell text all_errors end).0 ≡ complain text all_errors (flatten errors)
  told_by text all_errors (ok none, slots, f) errors h e =
      ap (λ l. complain text all_errors (flatten l)) e
  told_by text all_errors (ok (some sock), slots, f) errors h e = cc
  told_by text all_errors (err x, slots, f) errors h e = cc

  -- In whatever order the attempts of the race start, get their answers and are cancelled: when every address
  -- was tried and every attempt ended with an OSError, `_connect_tcp` raises what it raises without
  -- `happy_eyeballs_delay`, where it tries the addresses one after another.
  pub race_agrees :
      (text : Exception → ℕ) (all_errors : Bool) (infos : List (Info × Attempt)) (f : Files)
      {s : Race}
      → Reach kind_of locals (new_race infos f) s
      → s.todo ≡ []
      → AllFailed s.runners
      → race_end text all_errors s.runners
        ≡ (tell text all_errors (connect_each kind_of locals infos [] f)).0
  race_agrees text all_errors infos f {s} r done all =
      let fair = Reach-IsFair infos f r in
      let tried : tried_by s.runners ≡ infos =
        sym (append-nil (tried_by s.runners))
        ∙ ap (λ l. tried_by s.runners ++ l) (sym done)
        ∙ fair.1 in
      let each = failed-each s.runners [] f fair.0 all in
      ap (λ w. concluded_by text all_errors w (errors_of s.runners)) (failed-winner s.runners all)
      ∙ sym (
          told_by text all_errors (connect_each kind_of locals (tried_by s.runners) [] f)
            (errors_of s.runners) each.0 each.1)
      ∙ ap (λ l. (tell text all_errors (connect_each kind_of locals l [] f)).0) tried
