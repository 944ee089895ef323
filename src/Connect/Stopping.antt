-- ===== src/Connect/Stopping.antt =====
-- Which sockets the race leaves open.
use zuvloop.Base.{
  Distinct-append_one, has-append, Below-suc, Below-has, append-nil, discard-absent, Bool,
  has-discard_any, ◌∙◌, Below-discard, Distinct-erase, Below, ◌==◌, false, ◌≤◌, not, none, ◌||◌,
  ◌&&◌, length, Option, refl, ap, ℕ, ◌≡◌, inl, inr, true, List, [], ◌∷◌, ◌++◌, arith, has, erase,
  Distinct, OsKind, Exception, Result, ok, err,
}
use zuvloop.Connect.Racing.{
  cancels, answer_of, start, answers, later, starts, started_next, new_race, after_socket,
  bound_runner, Reach, Step, begin_one, cancel_of, resume, Race, winner_of, Runner, Progress,
  waiting, won, failed,
}
use zuvloop.Connect.Defs.{bind_any, open_socket, Attempt, Info, Files}
use mathlib.Core.Path.{sym, subst}
use zuvloop.Connect.Holding.{
  held_by, holds, won_with, wins, holds-append, wins-append, Releases, resume-Releases, resume-wins,
  cancel-wins, winner-wins,
}

-- What is open is from before or an attempt's, and one attempt at most has connected.
record IsTidy (base : List ℕ) (s : Race) : Type 0 where
  opened_are : (k : ℕ) → has k s.files.opened ≡ (has k (holds s.runners) || has k base)
  apart : (k : ℕ) → (has k (holds s.runners) && has k base) ≡ false
  distinct : Distinct (holds s.runners)
  low : Below s.files.next s.files.opened
  one : length (wins s.runners) ≤ 1

has-erase_any :
    (j a : ℕ) (xs : List ℕ) → Distinct xs → has j (erase a xs) ≡ (has j xs && not (j == a))
has-erase_any j a [] d = refl
has-erase_any j a (x ∷ xs) d = ground (arith, has-erase_any j a xs)

released-IsTidy :
    (base : List ℕ) (s : Race) (runners : List Runner) (f : Files)
    → IsTidy base s
    → length (wins runners) ≤ 1
    → Releases (holds s.runners) s.files (holds runners) f
    → IsTidy base (record s { runners = runners; files = f })
released-IsTidy base s runners f h w (inl (e, same)) = record {
  opened_are = λ k. ground (arith, h.opened_are k, e, same);
  apart = λ k. ground (arith, h.apart k, e);
  distinct = subst Distinct (sym e) h.distinct;
  low = subst (λ (x : Files). Below x.next x.opened) (sym same) h.low;
  one = w;
}
released-IsTidy base s runners f h w (inr (sock, e, i, same)) = record {
  opened_are = λ k. ground (
    arith,
    h.opened_are k,
    h.apart k,
    i,
    e,
    same,
    has-erase_any k sock (holds s.runners) h.distinct,
    has-discard_any k sock s.files.opened,
  );
  apart = λ k. ground (arith, h.apart k, e, has-erase_any k sock (holds s.runners) h.distinct);
  distinct = subst Distinct (sym e) (Distinct-erase sock (holds s.runners) h.distinct);
  low =
      subst (λ (x : Files). Below x.next x.opened) (sym same)
        (Below-discard s.files.next sock s.files.opened h.low);
  one = w;
}

-- What starting an attempt does: it has the new socket, or none and has ended.
abbrev Begins : Files → Progress → Files → Type 0
Begins f (waiting sock) f' = (sock ≡ f.next) × (f' ≡ open_socket f)
Begins f (failed e) f' = (f'.opened ≡ f.opened) × Below f'.next f.opened
Begins f (won sock) f' = ⊥

bound-Begins :
    (kind_of : ℕ → OsKind) (i : Info) (a : Attempt) (bound : Result (Unit {0}) × List Exception)
    (f : Files)
    → Below f.next f.opened
    → let (t, f') = bound_runner kind_of i a bound f in Begins f t.status f'
bound-Begins kind_of i a (ok u, mine) f b = (refl, refl)
bound-Begins kind_of i a (err e, mine) f b = (
  ground (arith, discard-absent f.next f.opened (Below-has f.next f.opened b)),
  Below-suc f.next f.opened b,
)

after_socket-Begins :
    (kind_of : ℕ → OsKind) (i : Info) (a : Attempt) (socket : Result (Unit {0}))
    (bound : Result (Unit {0}) × List Exception) (f : Files)
    → Below f.next f.opened
    → let (t, f') = after_socket kind_of i a socket bound f in Begins f t.status f'
after_socket-Begins kind_of i a (ok u) bound f b = bound-Begins kind_of i a bound f b
after_socket-Begins kind_of i a (err e) bound f b = (refl, b)

after_socket-IsTidy :
    (base : List ℕ) (s : Race) (st : Progress) (t : Runner) (f : Files)
    → t.status ≡ st
    → Begins s.files st f
    → winner_of s.runners ≡ none
    → IsTidy base s
    → IsTidy base (record s { runners = s.runners ++ (t ∷ []); files = f })
after_socket-IsTidy base s (won sock) t f e g n h = absurd g
after_socket-IsTidy base s (failed x) t f e (same, low) n h =
    let held : holds (s.runners ++ (t ∷ [])) ≡ holds s.runners =
      holds-append s.runners t
      ∙ ap (λ st. holds s.runners ++ held_by st []) e
      ∙ append-nil (holds s.runners) in
    let won : wins (s.runners ++ (t ∷ [])) ≡ [] =
      wins-append s.runners t
      ∙ ap (λ st. wins s.runners ++ won_with st []) e
      ∙ append-nil (wins s.runners)
      ∙ winner-wins s.runners n in
    record {
      opened_are = λ k. ground (arith, h.opened_are k, held, same);
      apart = λ k. ground (arith, h.apart k, held);
      distinct = subst Distinct (sym held) h.distinct;
      low = subst (λ l. Below f.next l) (sym same) low;
      one = omega (arith, ap (λ (l : List ℕ). length l) won);
    }
after_socket-IsTidy base s (waiting sock) t f e (new, same) n h =
    let held : holds (s.runners ++ (t ∷ [])) ≡ holds s.runners ++ (s.files.next ∷ []) =
      holds-append s.runners t
      ∙ ap (λ st. holds s.runners ++ held_by st []) e
      ∙ ap (λ (k : ℕ). holds s.runners ++ (k ∷ [])) new in
    let won : wins (s.runners ++ (t ∷ [])) ≡ [] =
      wins-append s.runners t
      ∙ ap (λ st. wins s.runners ++ won_with st []) e
      ∙ append-nil (wins s.runners)
      ∙ winner-wins s.runners n in
    let absent = Below-has s.files.next s.files.opened h.low in
    record {
      opened_are = λ k.
          ground
            (arith, h.opened_are k, held, same, has-append k (holds s.runners) (s.files.next ∷ []));
      apart = λ k. ground (
        arith,
        h.apart k,
        h.opened_are k,
        held,
        absent,
        has-append k (holds s.runners) (s.files.next ∷ []),
      );
      distinct = subst Distinct (sym held) (
          Distinct-append_one s.files.next (holds s.runners) h.distinct
            (ground (arith, h.opened_are s.files.next, absent)));
      low =
          subst (λ (x : Files). Below x.next x.opened) (sym same)
            (omega arith, Below-suc s.files.next s.files.opened h.low);
      one = omega (arith, ap (λ (l : List ℕ). length l) won);
    }

IsTidy-todo :
    (base : List ℕ) (s : Race) (todo : List (Info × Attempt))
    → IsTidy base s
    → IsTidy base (record s { todo = todo })
IsTidy-todo base s todo h = record {
  opened_are = h.opened_are;
  apart = h.apart;
  distinct = h.distinct;
  low = h.low;
  one = h.one;
}

started_next-IsTidy :
    (kind_of : ℕ → OsKind) (locals : Option (List Info)) (base : List ℕ)
    (todo : List (Info × Attempt)) (s : Race)
    → s.todo ≡ todo
    → winner_of s.runners ≡ none
    → IsTidy base s
    → IsTidy base (started_next kind_of locals todo s.runners s.files)
unfolding begin_one
started_next-IsTidy kind_of locals base [] s e n h = IsTidy-todo base s [] h
started_next-IsTidy kind_of locals base ((i, a) ∷ rest) s e n h =
    let bound = bind_any kind_of a.bind i.family locals in
    let begins = after_socket-Begins kind_of i a a.socket bound s.files h.low in
    let (t, f) = after_socket kind_of i a a.socket bound s.files in
    IsTidy-todo base (record s { runners = s.runners ++ (t ∷ []); files = f }) rest
      (after_socket-IsTidy base s t.status t f refl begins n h)

Step-IsTidy :
    (kind_of : ℕ → OsKind) (locals : Option (List Info)) (base : List ℕ) {s t : Race}
    → Step kind_of locals s t
    → IsTidy base s
    → IsTidy base t
Step-IsTidy kind_of locals base {s} (starts n) h =
    started_next-IsTidy kind_of locals base s.todo s refl n h
Step-IsTidy kind_of locals base {s} (answers k n) h =
    let (runners, f) = resume kind_of answer_of k s.runners s.files in
    let none_won = ap (λ (l : List ℕ). length l) (winner-wins s.runners n) in
    released-IsTidy base s runners f h
      (omega (arith, resume-wins kind_of answer_of k s.runners s.files, none_won))
      (resume-Releases kind_of answer_of k s.runners s.files h.distinct)
Step-IsTidy kind_of locals base {s} (cancels k) h =
    let (runners, f) = resume kind_of cancel_of k s.runners s.files in
    released-IsTidy base s runners f h
      (omega (arith, cancel-wins kind_of k s.runners s.files, h.one))
      (resume-Releases kind_of cancel_of k s.runners s.files h.distinct)

Reach-IsTidy :
    (kind_of : ℕ → OsKind) (locals : Option (List Info)) (infos : List (Info × Attempt)) (f : Files)
    {s : Race}
    → Below f.next f.opened
    → Reach kind_of locals (new_race infos f) s
    → IsTidy f.opened s
Reach-IsTidy kind_of locals infos f b start = record {
  opened_are = λ k. refl;
  apart = λ k. refl;
  distinct = tt;
  low = b;
  one = omega arith;
}
Reach-IsTidy kind_of locals infos f b (later r st) =
    Step-IsTidy kind_of locals f.opened st (Reach-IsTidy kind_of locals infos f b r)

-- Every attempt has ended.
abbrev is_over : Progress → Bool
is_over (waiting sock) = false
is_over (won sock) = true
is_over (failed e) = true

abbrev pub AllOver : List Runner → Type 0
AllOver [] = Unit
AllOver (t ∷ runners) = (is_over t.status ≡ true) × AllOver runners

over_one :
    (st : Progress) (xs ys : List ℕ) → is_over st ≡ true → xs ≡ ys → held_by st xs ≡ won_with st ys
over_one (waiting s) xs ys h e = cc
over_one (won s) xs ys h e = ap (λ l. s ∷ l) e
over_one (failed x) xs ys h e = e

over-wins : (runners : List Runner) → AllOver runners → holds runners ≡ wins runners
over-wins [] all = refl
over-wins (t ∷ runners) (h, all) =
    over_one t.status (holds runners) (wins runners) h (over-wins runners all)

-- In whatever order the attempts of the race start, get their answers and are cancelled: once all have ended, at
-- most one has connected, and a socket `k` is open exactly if it was open before or is that attempt's, which
-- was not.
pub race_opened :
    (kind_of : ℕ → OsKind) (locals : Option (List Info)) (infos : List (Info × Attempt)) (f : Files)
    (k : ℕ) {s : Race}
    → Below f.next f.opened
    → Reach kind_of locals (new_race infos f) s
    → AllOver s.runners
    → (length (wins s.runners) ≤ 1)
      × (has k s.files.opened ≡ (has k (wins s.runners) || has k f.opened))
      × ((has k (wins s.runners) && has k f.opened) ≡ false)
race_opened kind_of locals infos f k {s} b r all =
    let h = Reach-IsTidy kind_of locals infos f b r in
    let same = over-wins s.runners all in
    (h.one, ground (arith, h.opened_are k, same), ground (arith, h.apart k, same))
