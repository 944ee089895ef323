-- ===== src/Connect/Leaving.antt =====
-- Which sockets `_connect_tcp` leaves open.
use zuvloop.Connect.Defs.{
  unexplained, joined, group, raised, all_same, with_socket, open_socket, bind_any, connected_after,
  concluded, Attempt, flatten, tell, go_on, connected, Info, Files, complain, connect_each,
  connect_one, Ended, connect_tcp,
}
use zuvloop.Base.{
  has, inr, ap, inl, Bool-cases, Below-has, discard-absent, Below-suc, is_os_error, Below, OsKind,
  refl, ◌∙◌, ℕ, ◌≡◌, Bool, true, false, Option, none, some, List, [], ◌∷◌, ◌++◌, arith, Exception,
  Result, ok, err,
}
use mathlib.Core.Path.{subst}

-- The sockets that are open after a call that gives a socket or raises.
abbrev left_open : Result ℕ → List ℕ → List ℕ
left_open (ok sock) socks = sock ∷ socks
left_open (err e) socks = socks

abbrev IsNew : Result ℕ → List ℕ → Type 0
IsNew (ok sock) socks = has sock socks ≡ false
IsNew (err e) socks = Unit

abbrev IsClean : Files → Result ℕ × List Exception × Files → Type 0
IsClean f (r, mine, f') =
    (f'.opened ≡ left_open r f.opened) × Below f'.next f'.opened × IsNew r f.opened

concluded-IsClean :
    (kind_of : ℕ → OsKind) (r : Result (Unit {0})) (mine : List Exception) (f : Files)
    → Below f.next f.opened
    → IsClean f (concluded kind_of r mine f.next (open_socket f))
concluded-IsClean kind_of (ok u) mine f b =
    (refl, (omega arith, Below-suc f.next f.opened b), Below-has f.next f.opened b)
concluded-IsClean kind_of (err e) mine f b =
    let absent = discard-absent f.next f.opened (Below-has f.next f.opened b) in
    let low = Below-suc f.next f.opened b in ground (arith, absent, low)

connected_after-IsClean :
    (kind_of : ℕ → OsKind) (bound : Result (Unit {0}) × List Exception) (r : Result (Unit {0}))
    (f : Files)
    → Below f.next f.opened
    → IsClean f (connected_after kind_of bound r f.next (open_socket f))
connected_after-IsClean kind_of (ok u, mine) r f b = concluded-IsClean kind_of r mine f b
connected_after-IsClean kind_of (err e, mine) r f b = concluded-IsClean kind_of (err e) mine f b

with_socket-IsClean :
    (kind_of : ℕ → OsKind) (r : Result (Unit {0})) (later : Result ℕ × List Exception × Files)
    (f : Files)
    → Below f.next f.opened
    → IsClean f later
    → IsClean f (with_socket kind_of r later f)
with_socket-IsClean kind_of (ok u) later f b c = c
with_socket-IsClean kind_of (err e) later f b c = (refl, b, tt)

connect_one-IsClean :
    (kind_of : ℕ → OsKind) (locals : Option (List Info)) (i : Info) (a : Attempt) (f : Files)
    → Below f.next f.opened
    → IsClean f (connect_one kind_of locals i a f)
unfolding connect_one
connect_one-IsClean kind_of locals i a f b =
    let bound = bind_any kind_of a.bind i.family locals in
    let later = connected_after kind_of bound a.connect f.next (open_socket f) in
    with_socket-IsClean kind_of a.socket later f b
      (connected_after-IsClean kind_of bound a.connect f b)

-- The sockets that are open after the loop.
abbrev left_by : Result (Option ℕ) → List ℕ → List ℕ
left_by (ok (some sock)) socks = sock ∷ socks
left_by (ok none) socks = socks
left_by (err e) socks = socks

abbrev NewBy : Result (Option ℕ) → List ℕ → Type 0
NewBy (ok (some sock)) socks = has sock socks ≡ false
NewBy (ok none) socks = Unit
NewBy (err e) socks = Unit

abbrev IsTidy : List ℕ → Result (Option ℕ) × List (List Exception) × Files → Type 0
IsTidy socks (r, errors, f') = (f'.opened ≡ left_by r socks) × NewBy r socks

go_on-IsTidy :
    (kind_of : ℕ → OsKind) (f : Files) (tried : Result ℕ × List Exception × Files)
    (later : Result (Option ℕ) × List (List Exception) × Files) (errors : List (List Exception))
    → IsClean f tried
    → IsTidy tried.2.opened later
    → IsTidy f.opened (go_on kind_of tried later errors)
go_on-IsTidy kind_of f (ok sock, mine, f') later errors (c, b, n) t = (c, n)
go_on-IsTidy kind_of f (err e, mine, f') later errors (c, b, n) t =
    elim (Bool-cases (is_os_error e)) [
      | inl h ↦ rw h (t.0 ∙ ap (left_by later.0) c, subst (NewBy later.0) c t.1)
      | inr h ↦ rw h (c, tt)
    ]

connect_each-IsTidy :
    (kind_of : ℕ → OsKind) (locals : Option (List Info)) (infos : List (Info × Attempt))
    (errors : List (List Exception)) (f : Files)
    → Below f.next f.opened
    → IsTidy f.opened (connect_each kind_of locals infos errors f)
unfolding connect_each
connect_each-IsTidy kind_of locals [] errors f b = (refl, tt)
connect_each-IsTidy kind_of locals ((i, a) ∷ rest) errors f b =
    let tried = connect_one kind_of locals i a f in
    let clean = connect_one-IsClean kind_of locals i a f b in
    let later = connect_each kind_of locals rest (errors ++ (tried.1 ∷ [])) tried.2 in
    go_on-IsTidy kind_of f tried later errors clean
      (connect_each-IsTidy kind_of locals rest (errors ++ (tried.1 ∷ [])) tried.2 clean.1)

-- The sockets that are open once `_connect_tcp` has ended.
abbrev pub left_at_end : Ended → List ℕ → List ℕ
left_at_end (connected sock) socks = sock ∷ socks
left_at_end _ socks = socks

-- A socket that it returns was not open before.
abbrev pub NewAtEnd : Ended → List ℕ → Type 0
NewAtEnd (connected sock) socks = has sock socks ≡ false
NewAtEnd (raised e) socks = Unit
NewAtEnd (group es) socks = Unit
NewAtEnd (joined es) socks = Unit
NewAtEnd unexplained socks = Unit

abbrev pub IsLeft : List ℕ → Ended × Files → Type 0
IsLeft socks (end, f) = (f.opened ≡ left_at_end end socks) × NewAtEnd end socks

complain-IsLeft :
    (text : Exception → ℕ) (all_errors : Bool) (errors : List Exception) (socks : List ℕ)
    (f : Files)
    → f.opened ≡ socks
    → IsLeft socks (complain text all_errors errors, f)
unfolding complain
complain-IsLeft text true errors socks f h = (h, tt)
complain-IsLeft text false [] socks f h = (h, tt)
complain-IsLeft text false (e ∷ []) socks f h = (h, tt)
complain-IsLeft text false (e ∷ e' ∷ es) socks f h =
    elim (Bool-cases (all_same text (text e) (e ∷ e' ∷ es))) [
      | inl same ↦ rw same (h, tt)
      | inr other ↦ rw other (h, tt)
    ]

tell-IsLeft :
    (text : Exception → ℕ) (all_errors : Bool) (socks : List ℕ)
    (r : Result (Option ℕ) × List (List Exception) × Files)
    → IsTidy socks r
    → IsLeft socks (tell text all_errors r)
tell-IsLeft text all_errors socks (ok (some sock), errors, f) t = t
tell-IsLeft text all_errors socks (ok none, errors, f) t =
    complain-IsLeft text all_errors (flatten errors) socks f t.0
tell-IsLeft text all_errors socks (err e, errors, f) t = t

-- However the attempts end, `_connect_tcp` without `happy_eyeballs_delay` leaves open what was open before and the socket that it returns,
-- if it returns one, which was not open before: every other socket that it opened is closed again.
pub connect_tcp_opened :
    (kind_of : ℕ → OsKind) (text : Exception → ℕ) (all_errors : Bool)
    (infos : Result (List (Info × Attempt))) (locals : Option (Result (List Info))) (f : Files)
    → Below f.next f.opened
    → IsLeft f.opened (connect_tcp kind_of none text all_errors infos locals f)
unfolding connect_tcp
connect_tcp_opened kind_of text all_errors (err e) locals f b = (refl, tt)
connect_tcp_opened kind_of text all_errors (ok []) locals f b = (refl, tt)
connect_tcp_opened kind_of text all_errors (ok (x ∷ infos)) (some (err e)) f b = (refl, tt)
connect_tcp_opened kind_of text all_errors (ok (x ∷ infos)) (some (ok [])) f b = (refl, tt)
connect_tcp_opened kind_of text all_errors (ok (x ∷ infos)) (some (ok (l ∷ locals))) f b =
    tell-IsLeft text all_errors f.opened (connect_each kind_of (some (l ∷ locals)) (x ∷ infos) [] f)
      (connect_each-IsTidy kind_of (some (l ∷ locals)) (x ∷ infos) [] f b)
connect_tcp_opened kind_of text all_errors (ok (x ∷ infos)) none f b =
    tell-IsLeft text all_errors f.opened (connect_each kind_of none (x ∷ infos) [] f)
      (connect_each-IsTidy kind_of none (x ∷ infos) [] f b)
