-- ===== src/Connect/Defs.antt =====
-- `_connect_one` and `_connect_tcp` of `_connect.py`. What the system answers is an argument.
use zuvloop.Base.{
  plain, is_os_error, os_error, OsKind, ℕ, ◌+◌, Bool, true, false, ◌&&◌, Option, none, some, List,
  [], ◌∷◌, ◌++◌, discard, ◌==◌, if◌then◌else◌, Exception, Result, ok, err,
}

-- The sockets that are open, and the number of the next socket object.
pub record Files : Type 0 where
  pub opened : List ℕ
  pub next : ℕ

abbrev pub open_socket : Files → Files
open_socket f = record { opened = f.next ∷ f.opened; next = f.next + 1 }

abbrev pub close_socket : ℕ → Files → Files
close_socket n f = record f { opened = discard n f.opened }

-- What `getaddrinfo` gives: the family, and the address with kind and protocol as one number.
pub record Info : Type 0 where
  pub family : ℕ
  pub address : ℕ

-- What the system answers to one attempt: to `socket.socket`, to `bind` on each local address, and to
-- `sock_connect`.
pub record Attempt : Type 0 where
  pub socket : Result (Unit {0})
  pub bind : Info → Result (Unit {0})
  pub connect : Result (Unit {0})

-- `mine.pop()` of a list that is not empty.
unfoldable pub pop : Exception → List Exception → Exception × List Exception
pop e [] = (e, [])
pop e (e' ∷ es) = let (last, before) = pop e' es in (last, e ∷ before)

module _ (kind_of : ℕ → OsKind) where
  -- `OSError(exc.errno, message)`: Python takes its class from the number.
  abbrev pub bind_error : Exception → Exception
  bind_error (os_error _ number) = os_error (kind_of number) number
  bind_error e = e

  -- The `else` of the loop over the local addresses.
  abbrev pub no_local : List Exception → Result (Unit {0}) × List Exception
  no_local [] = (err (os_error plain 0), [])
  no_local (e ∷ es) = let (last, before) = pop e es in (err last, before)

  -- One local address of the right family.
  abbrev pub bound :
      Result (Unit {0})
      → List Exception
      → Result (Unit {0}) × List Exception
      → Result (Unit {0}) × List Exception
  bound (ok _) mine later = (ok tt, mine)
  bound (err e) mine later = if is_os_error e then later else (err e, mine)

  -- The loop over the local addresses, with the errors so far.
  unfoldable pub bind_local :
      (Info → Result (Unit {0}))
      → ℕ
      → List Info
      → List Exception
      → Result (Unit {0}) × List Exception
  bind_local bind af [] mine = no_local mine
  bind_local bind af (i ∷ locals) mine =
      let skipped = bind_local bind af locals mine in
      let later =
        bind_local bind af locals
          (mine ++ (elim (bind i) [ ok _ ↦ [] | err e ↦ bind_error e ∷ [] ])) in
      if i.family == af then bound (bind i) mine later else skipped

  abbrev pub bind_any :
      (Info → Result (Unit {0})) → ℕ → Option (List Info) → Result (Unit {0}) × List Exception
  bind_any bind af none = (ok tt, [])
  bind_any bind af (some locals) = bind_local bind af locals []

  -- The `except` clauses round the attempt.
  abbrev pub concluded :
      Result (Unit {0}) → List Exception → ℕ → Files → Result ℕ × List Exception × Files
  concluded (ok _) mine sock f = (ok sock, mine, f)
  concluded (err e) mine sock f =
      (err e, (if is_os_error e then mine ++ (e ∷ []) else mine), close_socket sock f)

  -- `sock_connect`, after the local addresses.
  abbrev pub connected_after :
      Result (Unit {0}) × List Exception
      → Result (Unit {0})
      → ℕ
      → Files
      → Result ℕ × List Exception × Files
  connected_after (ok _, mine) connect sock f = concluded connect mine sock f
  connected_after (err e, mine) connect sock f = concluded (err e) mine sock f

  abbrev pub with_socket :
      Result (Unit {0})
      → Result ℕ × List Exception × Files
      → Files
      → Result ℕ × List Exception × Files
  with_socket (err e) later f = (err e, (if is_os_error e then e ∷ [] else []), f)
  with_socket (ok _) later f = later

  -- `_connect_one`: the socket or the exception, and the errors in the attempt's slot.
  unfoldable pub connect_one :
      Option (List Info) → Info → Attempt → Files → Result ℕ × List Exception × Files
  connect_one locals i a f =
      with_socket a.socket
        (connected_after (bind_any a.bind i.family locals) a.connect f.next (open_socket f)) f

  -- Whether the loop of `_connect_tcp` goes on after an attempt.
  abbrev pub go_on :
      Result ℕ × List Exception × Files
      → Result (Option ℕ) × List (List Exception) × Files
      → List (List Exception)
      → Result (Option ℕ) × List (List Exception) × Files
  go_on (ok sock, mine, f) later errors = (ok (some sock), errors ++ (mine ∷ []), f)
  go_on (err e, mine, f) later errors =
      if is_os_error e then later else (err e, errors ++ (mine ∷ []), f)

  -- The loop of `_connect_tcp` without `happy_eyeballs_delay`: the winner if there is one, and one slot of
  -- errors for each address tried.
  unfoldable pub connect_each :
      Option (List Info)
      → List (Info × Attempt)
      → List (List Exception)
      → Files
      → Result (Option ℕ) × List (List Exception) × Files
  connect_each locals [] errors f = (ok none, errors, f)
  connect_each locals ((i, a) ∷ rest) errors f =
      let tried = connect_one locals i a f in
      let later = connect_each locals rest (errors ++ (tried.1 ∷ [])) tried.2 in
      go_on tried later errors

-- How `_connect_tcp` ends: with a socket, an exception of its own or another's, a group of all, one that
-- joins the messages of all, or one that has no error to tell.
pub data Ended : Type 0 where
  connected : ℕ → Ended
  raised : Exception → Ended
  group joined : List Exception → Ended
  unexplained : Ended

unfoldable pub flatten : List (List Exception) → List Exception
flatten [] = []
flatten (slot ∷ slots) = slot ++ flatten slots

abbrev pub all_same : (Exception → ℕ) → ℕ → List Exception → Bool
all_same text model [] = true
all_same text model (e ∷ es) = text e == model && all_same text model es

-- What is raised when no address connected; `text` is `str` of an exception, as a number.
unfoldable pub complain : (Exception → ℕ) → Bool → List Exception → Ended
complain text true errors = group errors
complain text false [] = unexplained
complain text false (e ∷ []) = raised e
complain text false (e ∷ e' ∷ es) =
    if all_same text (text e) (e ∷ e' ∷ es) then raised e else joined (e ∷ e' ∷ es)

abbrev pub tell :
    (Exception → ℕ) → Bool → Result (Option ℕ) × List (List Exception) × Files → Ended × Files
tell text all_errors (err e, errors, f) = (raised e, f)
tell text all_errors (ok (some sock), errors, f) = (connected sock, f)
tell text all_errors (ok none, errors, f) = (complain text all_errors (flatten errors), f)

-- `staggered.staggered_race` over the attempts: the winner if there is one, with what these leave.
abbrev pub StaggeredRace : Type 0
StaggeredRace =
    Option (List Info)
    → List (Info × Attempt)
    → Files
    → Result (Option ℕ) × List (List Exception) × Files

-- One address after another without `happy_eyeballs_delay`, and the race with it.
abbrev pub attempts_by :
    (ℕ → OsKind)
    → Option StaggeredRace
    → Option (List Info)
    → List (Info × Attempt)
    → Files
    → Result (Option ℕ) × List (List Exception) × Files
attempts_by kind_of none locals infos f = connect_each kind_of locals infos [] f
attempts_by kind_of (some staggered_race) locals infos f = staggered_race locals infos f

-- `_connect_tcp` from the answers of `getaddrinfo` on, the local one's if a local address is given; there is
-- a race if `happy_eyeballs_delay` is given.
unfoldable pub connect_tcp :
    (ℕ → OsKind)
    → Option StaggeredRace
    → (Exception → ℕ)
    → Bool
    → Result (List (Info × Attempt))
    → Option (Result (List Info))
    → Files
    → Ended × Files
connect_tcp kind_of race text all_errors (err e) locals f = (raised e, f)
connect_tcp kind_of race text all_errors (ok []) locals f = (raised (os_error plain 0), f)
connect_tcp kind_of race text all_errors (ok (x ∷ infos)) (some (err e)) f = (raised e, f)
connect_tcp kind_of race text all_errors (ok (x ∷ infos)) (some (ok [])) f =
    (raised (os_error plain 0), f)
connect_tcp kind_of race text all_errors (ok (x ∷ infos)) (some (ok (l ∷ locals))) f =
    tell text all_errors (attempts_by kind_of race (some (l ∷ locals)) (x ∷ infos) f)
connect_tcp kind_of race text all_errors (ok (x ∷ infos)) none f =
    tell text all_errors (attempts_by kind_of race none (x ∷ infos) f)
