-- ===== src/Connect/Holding.antt =====
-- The sockets that the attempts of the race have, and those that connected.
use zuvloop.Base.{
  ◌+◌, zero, cancelled, ◌≤◌, suc, none, length, Option, refl, ap, ℕ, ◌≡◌, ◌⊎◌, inl, inr, true, List,
  [], ◌∷◌, ◌++◌, arith, has, erase, Distinct, OsKind, Exception, Result, ok, err,
}
use zuvloop.Connect.Racing.{
  won_by, cancel_of, resume, winner_of, after_connect, ended_as, Runner, Progress, waiting, won,
  failed,
}
use zuvloop.Connect.Defs.{Attempt, Info, Files, close_socket, concluded}

-- The sockets that the attempts have, and those of them that connected.
abbrev pub held_by : Progress → List ℕ → List ℕ
held_by (waiting sock) rest = sock ∷ rest
held_by (won sock) rest = sock ∷ rest
held_by (failed e) rest = rest

abbrev pub holds : List Runner → List ℕ
holds [] = []
holds (t ∷ runners) = held_by t.status (holds runners)

abbrev pub won_with : Progress → List ℕ → List ℕ
won_with (won sock) rest = sock ∷ rest
won_with (waiting sock) rest = rest
won_with (failed e) rest = rest

abbrev pub wins : List Runner → List ℕ
wins [] = []
wins (t ∷ runners) = won_with t.status (wins runners)

held_append :
    (st : Progress) (xs ys more : List ℕ) → ys ≡ xs ++ more → held_by st ys ≡ held_by st xs ++ more
held_append (waiting s) xs ys more e = ap (λ l. s ∷ l) e
held_append (won s) xs ys more e = ap (λ l. s ∷ l) e
held_append (failed x) xs ys more e = e

won_append :
    (st : Progress) (xs ys more : List ℕ)
    → ys ≡ xs ++ more
    → won_with st ys ≡ won_with st xs ++ more
won_append (waiting s) xs ys more e = e
won_append (won s) xs ys more e = ap (λ l. s ∷ l) e
won_append (failed x) xs ys more e = e

pub holds-append :
    (runners : List Runner) (t : Runner)
    → holds (runners ++ (t ∷ [])) ≡ holds runners ++ held_by t.status []
holds-append [] t = refl
holds-append (t' ∷ runners) t =
    held_append t'.status (holds runners) (holds (runners ++ (t ∷ []))) (held_by t.status [])
      (holds-append runners t)

pub wins-append :
    (runners : List Runner) (t : Runner)
    → wins (runners ++ (t ∷ [])) ≡ wins runners ++ won_with t.status []
wins-append [] t = refl
wins-append (t' ∷ runners) t =
    won_append t'.status (wins runners) (wins (runners ++ (t ∷ []))) (won_with t.status [])
      (wins-append runners t)

-- One attempt goes on: nothing changes but its status, or its socket is closed.
abbrev pub Releases : List ℕ → Files → List ℕ → Files → Type 0
Releases before f after f' =
    ((after ≡ before) × (f' ≡ f))
    ⊎ ((sock : ℕ) × (after ≡ erase sock before)
        × (has sock before ≡ true)
        × (f' ≡ close_socket sock f))

concluded-Releases :
    (kind_of : ℕ → OsKind) (i : Info) (a : Attempt) (r : Result (Unit {0})) (mine : List Exception)
    (sock : ℕ) (rest : List ℕ) (f : Files)
    → let (t', f') = ended_as i a (concluded kind_of r mine sock f) in
      Releases (sock ∷ rest) f (held_by t'.status rest) f'
concluded-Releases kind_of i a (ok u) mine sock rest f = inl (refl, refl)
concluded-Releases kind_of i a (err e) mine sock rest f =
    inr (sock, ground arith, ground arith, refl)

after_connect-Releases :
    (kind_of : ℕ → OsKind) (r : Result (Unit {0})) (st : Progress) (t : Runner) (rest : List ℕ)
    (f : Files)
    → t.status ≡ st
    → let (t', f') = after_connect kind_of r st t f in
      Releases (held_by st rest) f (held_by t'.status rest) f'
after_connect-Releases kind_of r (waiting sock) t rest f e =
    concluded-Releases kind_of t.info t.attempt r t.slot sock rest f
after_connect-Releases kind_of r (won sock) t rest f e = inl (ap (λ st. held_by st rest) e, refl)
after_connect-Releases kind_of r (failed x) t rest f e = inl (ap (λ st. held_by st rest) e, refl)

behind-Releases :
    (st : Progress) (before after : List ℕ) (f f' : Files)
    → Distinct (held_by st before)
    → Releases before f after f'
    → Releases (held_by st before) f (held_by st after) f'
behind-Releases st before after f f' d (inl (e, same)) = inl (ap (held_by st) e, same)
behind-Releases (failed x) before after f f' d (inr (sock, e, h, c)) = inr (sock, e, h, c)
behind-Releases (waiting s) before after f f' d (inr (sock, e, h, c)) =
    inr (sock, ground (arith, e, h, d), ground (arith, h), c)
behind-Releases (won s) before after f f' d (inr (sock, e, h, c)) =
    inr (sock, ground (arith, e, h, d), ground (arith, h), c)

Distinct-behind : (st : Progress) (rest : List ℕ) → Distinct (held_by st rest) → Distinct rest
Distinct-behind (waiting s) rest d = d.1
Distinct-behind (won s) rest d = d.1
Distinct-behind (failed x) rest d = d

pub resume-Releases :
    (kind_of : ℕ → OsKind) (given : Attempt → Result (Unit {0})) (k : ℕ) (runners : List Runner)
    (f : Files)
    → Distinct (holds runners)
    → let (runners', f') = resume kind_of given k runners f in
      Releases (holds runners) f (holds runners') f'
unfolding resume
resume-Releases kind_of given k [] f d = inl (refl, refl)
resume-Releases kind_of given zero (t ∷ runners) f d =
    after_connect-Releases kind_of (given t.attempt) t.status t (holds runners) f refl
resume-Releases kind_of given (suc k) (t ∷ runners) f d =
    let (runners', f') = resume kind_of given k runners f in
    behind-Releases t.status (holds runners) (holds runners') f f' d
      (resume-Releases kind_of given k runners f (Distinct-behind t.status (holds runners) d))

-- At most one attempt more has connected, and none by being cancelled.
concluded-wins :
    (kind_of : ℕ → OsKind) (i : Info) (a : Attempt) (r : Result (Unit {0})) (mine : List Exception)
    (sock : ℕ) (rest : List ℕ) (f : Files)
    → length (won_with (ended_as i a (concluded kind_of r mine sock f)).0.status rest)
      ≤ length rest + 1
concluded-wins kind_of i a (ok u) mine sock rest f = omega arith
concluded-wins kind_of i a (err e) mine sock rest f = omega arith

after_connect-wins :
    (kind_of : ℕ → OsKind) (r : Result (Unit {0})) (st : Progress) (t : Runner) (rest : List ℕ)
    (f : Files)
    → t.status ≡ st
    → length (won_with (after_connect kind_of r st t f).0.status rest)
      ≤ length (won_with st rest) + 1
after_connect-wins kind_of r (waiting sock) t rest f e =
    concluded-wins kind_of t.info t.attempt r t.slot sock rest f
after_connect-wins kind_of r (won sock) t rest f e =
    omega (arith, ap (λ st. length (won_with st rest)) e)
after_connect-wins kind_of r (failed x) t rest f e =
    omega (arith, ap (λ st. length (won_with st rest)) e)

behind-wins :
    (st : Progress) (before after : List ℕ) (n : ℕ)
    → length after ≤ length before + n
    → length (won_with st after) ≤ length (won_with st before) + n
behind-wins (waiting s) before after n h = h
behind-wins (won s) before after n h = omega (arith, h)
behind-wins (failed x) before after n h = h

pub resume-wins :
    (kind_of : ℕ → OsKind) (given : Attempt → Result (Unit {0})) (k : ℕ) (runners : List Runner)
    (f : Files)
    → length (wins (resume kind_of given k runners f).0) ≤ length (wins runners) + 1
unfolding resume
resume-wins kind_of given k [] f = omega arith
resume-wins kind_of given zero (t ∷ runners) f =
    after_connect-wins kind_of (given t.attempt) t.status t (wins runners) f refl
resume-wins kind_of given (suc k) (t ∷ runners) f =
    behind-wins t.status (wins runners) (wins (resume kind_of given k runners f).0) 1
      (resume-wins kind_of given k runners f)

cancelled_one :
    (kind_of : ℕ → OsKind) (st : Progress) (t : Runner) (rest : List ℕ) (f : Files)
    → t.status ≡ st
    → length (won_with (after_connect kind_of (err cancelled) st t f).0.status rest)
      ≤ length (won_with st rest) + 0
cancelled_one kind_of (waiting sock) t rest f e = omega arith
cancelled_one kind_of (won sock) t rest f e = omega (arith, ap (λ st. length (won_with st rest)) e)
cancelled_one kind_of (failed x) t rest f e = omega (arith, ap (λ st. length (won_with st rest)) e)

pub cancel-wins :
    (kind_of : ℕ → OsKind) (k : ℕ) (runners : List Runner) (f : Files)
    → length (wins (resume kind_of cancel_of k runners f).0) ≤ length (wins runners) + 0
unfolding resume
cancel-wins kind_of k [] f = omega arith
cancel-wins kind_of zero (t ∷ runners) f = cancelled_one kind_of t.status t (wins runners) f refl
cancel-wins kind_of (suc k) (t ∷ runners) f =
    behind-wins t.status (wins runners) (wins (resume kind_of cancel_of k runners f).0) 0
      (cancel-wins kind_of k runners f)

won_none :
    (st : Progress) (w : Option ℕ) (rest : List ℕ)
    → won_by st w ≡ none
    → (w ≡ none → rest ≡ [])
    → won_with st rest ≡ []
won_none (waiting s) w rest h g = g h
won_none (won s) w rest h g = cc
won_none (failed x) w rest h g = g h

pub winner-wins : (runners : List Runner) → winner_of runners ≡ none → wins runners ≡ []
winner-wins [] h = refl
winner-wins (t ∷ runners) h =
    won_none t.status (winner_of runners) (wins runners) h (winner-wins runners)
