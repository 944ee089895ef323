-- ===== src/Connect/Racing.antt =====
-- `_attempt` and the race of `_connect_tcp` with `happy_eyeballs_delay`. When an attempt starts, gets its
-- answer or is cancelled is up to `staggered_race`.
use zuvloop.Base.{
  Bool, cancelled, is_os_error, OsKind, ℕ, zero, suc, ◌≡◌, Option, none, some, List, [], ◌∷◌, ◌++◌,
  if◌then◌else◌, Exception, Result, ok, err,
}
use zuvloop.Connect.Defs.{
  complain, flatten, bind_any, open_socket, concluded, connected, Attempt, Info, Files, Ended,
}

-- Where an attempt stands: it waits for its socket to connect, or has ended.
pub data Progress : Type 0 where
  waiting : ℕ → Progress
  won : ℕ → Progress
  failed : Exception → Progress

-- An attempt that was started, with its slot of the shared list of errors.
pub record Runner : Type 0 where
  pub info : Info
  pub attempt : Attempt
  pub slot : List Exception
  pub status : Progress

-- The addresses that are left, the attempts in the order in which they were started, and the sockets.
pub record Race : Type 0 where
  pub todo : List (Info × Attempt)
  pub runners : List Runner
  pub files : Files

abbrev pub new_race : List (Info × Attempt) → Files → Race
new_race infos f = record { todo = infos; runners = []; files = f }

abbrev pub status_of : Result ℕ → Progress
status_of (ok sock) = won sock
status_of (err e) = failed e

-- An attempt that has ended.
abbrev pub ended_as : Info → Attempt → Result ℕ × List Exception × Files → Runner × Files
ended_as i a (r, mine, f) = (record { info = i; attempt = a; slot = mine; status = status_of r }, f)

-- What an attempt that waits is given.
abbrev pub answer_of : Attempt → Result (Unit {0})
answer_of a = a.connect

abbrev pub cancel_of : Attempt → Result (Unit {0})
cancel_of a = err cancelled

module _ (kind_of : ℕ → OsKind) where
  -- `sock_connect` is where the attempt waits.
  abbrev pub bound_runner :
      Info → Attempt → Result (Unit {0}) × List Exception → Files → Runner × Files
  bound_runner i a (ok _, mine) f =
      (record { info = i; attempt = a; slot = mine; status = waiting f.next }, open_socket f)
  bound_runner i a (err e, mine) f =
      ended_as i a (concluded kind_of (err e) mine f.next (open_socket f))

  abbrev pub after_socket :
      Info
      → Attempt
      → Result (Unit {0})
      → Result (Unit {0}) × List Exception
      → Files
      → Runner × Files
  after_socket i a (err e) bound f = ended_as i a (err e, (if is_os_error e then e ∷ [] else []), f)
  after_socket i a (ok _) bound f = bound_runner i a bound f

  -- `_connect_one` up to its await.
  unfoldable pub begin_one : Option (List Info) → Info → Attempt → Files → Runner × Files
  begin_one locals i a f = after_socket i a a.socket (bind_any kind_of a.bind i.family locals) f

  -- `_connect_one` from its await on, if the attempt still waits.
  abbrev pub after_connect : Result (Unit {0}) → Progress → Runner → Files → Runner × Files
  after_connect r (waiting sock) t f = ended_as t.info t.attempt (concluded kind_of r t.slot sock f)
  after_connect r (won sock) t f = (t, f)
  after_connect r (failed e) t f = (t, f)

  -- The attempt with this number goes on, with what it is given.
  unfoldable pub resume :
      (Attempt → Result (Unit {0})) → ℕ → List Runner → Files → List Runner × Files
  resume given k [] f = ([], f)
  resume given zero (t ∷ runners) f =
      let (t', f') = after_connect (given t.attempt) t.status t f in (t' ∷ runners, f')
  resume given (suc k) (t ∷ runners) f =
      let (runners', f') = resume given k runners f in (t ∷ runners', f')

  abbrev pub started_next : Option (List Info) → List (Info × Attempt) → List Runner → Files → Race
  started_next locals [] runners f = record { todo = []; runners = runners; files = f }
  started_next locals ((i, a) ∷ rest) runners f =
      let (t, f') = begin_one locals i a f in
      record { todo = rest; runners = runners ++ (t ∷ []); files = f' }

  -- The next attempt starts.
  abbrev pub start_next : Option (List Info) → Race → Race
  start_next locals s = started_next locals s.todo s.runners s.files

  abbrev pub go_on_with : (Attempt → Result (Unit {0})) → ℕ → Race → Race
  go_on_with given k s =
      let (runners, f) = resume given k s.runners s.files in
      record s { runners = runners; files = f }

-- The socket of the attempt that connected.
abbrev pub won_by : Progress → Option ℕ → Option ℕ
won_by (won sock) rest = some sock
won_by (waiting sock) rest = rest
won_by (failed e) rest = rest

abbrev pub winner_of : List Runner → Option ℕ
winner_of [] = none
winner_of (t ∷ runners) = won_by t.status (winner_of runners)

-- The list of errors that the attempts share.
abbrev pub errors_of : List Runner → List (List Exception)
errors_of [] = []
errors_of (t ∷ runners) = t.slot ∷ errors_of runners

abbrev pub concluded_by : (Exception → ℕ) → Bool → Option ℕ → List (List Exception) → Ended
concluded_by text all_errors (some sock) errors = connected sock
concluded_by text all_errors none errors = complain text all_errors (flatten errors)

-- `_connect_tcp` after the race.
abbrev pub race_end : (Exception → ℕ) → Bool → List Runner → Ended
race_end text all_errors runners =
    concluded_by text all_errors (winner_of runners) (errors_of runners)

-- What `staggered_race` lets happen: until an attempt connects the next one may start and any may get its
-- answer, and at any time it may cancel one.
pub data Step (kind_of : ℕ → OsKind) (locals : Option (List Info)) (s : Race) : Race → Type 0 where
  starts : winner_of s.runners ≡ none → Step kind_of locals s (start_next kind_of locals s)
  answers :
      (k : ℕ)
      → winner_of s.runners ≡ none
      → Step kind_of locals s (go_on_with kind_of answer_of k s)
  cancels : (k : ℕ) → Step kind_of locals s (go_on_with kind_of cancel_of k s)

pub data Reach (kind_of : ℕ → OsKind) (locals : Option (List Info)) (s : Race) : Race → Type 0 where
  start : Reach kind_of locals s s
  later :
      {t u : Race} → Reach kind_of locals s t → Step kind_of locals t u → Reach kind_of locals s u
