-- ===== src/Connect/Blaming.antt =====
-- The errors that `_connect_tcp` collects from the addresses that it tries.
use zuvloop.Base.{
  false, inr, ◌≢◌, inl, Bool-cases, Bool, length-append, is_os_error, OsKind, ℕ, ◌+◌, ◌≤◌, ◌≡◌,
  true, Option, none, some, List, [], ◌∷◌, ◌++◌, arith, length, Exception, Result, ok, err,
}
use zuvloop.Connect.Defs.{
  group, unexplained, tell, connect_tcp, complain, open_socket, bind_any, Attempt, Info, concluded,
  go_on, with_socket, connected_after, Files, connect_one, flatten, connect_each,
}

-- An attempt that ends with an OSError has at least one error in its slot.
abbrev HasError : Result ℕ × List Exception × Files → Type 0
HasError (ok sock, mine, f) = Unit
HasError (err e, mine, f) = is_os_error e ≡ true → 1 ≤ length mine

concluded-HasError :
    (kind_of : ℕ → OsKind) (r : Result (Unit {0})) (mine : List Exception) (sock : ℕ) (f : Files)
    → HasError (concluded kind_of r mine sock f)
concluded-HasError kind_of (ok u) mine sock f = tt
concluded-HasError kind_of (err e) mine sock f = λ h. ground (arith, length-append mine (e ∷ []))

connected_after-HasError :
    (kind_of : ℕ → OsKind) (bound : Result (Unit {0}) × List Exception) (r : Result (Unit {0}))
    (sock : ℕ) (f : Files)
    → HasError (connected_after kind_of bound r sock f)
connected_after-HasError kind_of (ok u, mine) r sock f = concluded-HasError kind_of r mine sock f
connected_after-HasError kind_of (err e, mine) r sock f =
    concluded-HasError kind_of (err e) mine sock f

with_socket-HasError :
    (kind_of : ℕ → OsKind) (r : Result (Unit {0})) (later : Result ℕ × List Exception × Files)
    (f : Files)
    → HasError later
    → HasError (with_socket kind_of r later f)
with_socket-HasError kind_of (ok u) later f h = h
with_socket-HasError kind_of (err e) later f h = λ os. ground arith

connect_one-HasError :
    (kind_of : ℕ → OsKind) (locals : Option (List Info)) (i : Info) (a : Attempt) (f : Files)
    → HasError (connect_one kind_of locals i a f)
unfolding connect_one
connect_one-HasError kind_of locals i a f =
    let bound = bind_any kind_of a.bind i.family locals in
    let later = connected_after kind_of bound a.connect f.next (open_socket f) in
    with_socket-HasError kind_of a.socket later f
      (connected_after-HasError kind_of bound a.connect f.next (open_socket f))

flatten_snoc :
    (slots : List (List Exception)) (slot : List Exception)
    → length (flatten (slots ++ (slot ∷ []))) ≡ length (flatten slots) + length slot
unfolding flatten
flatten_snoc [] slot = ground (arith, length-append slot [])
flatten_snoc (s ∷ slots) slot = omega (
  arith,
  length-append s (flatten (slots ++ (slot ∷ []))),
  length-append s (flatten slots),
  flatten_snoc slots slot,
)

-- Without a winner there is an error for each address tried, `least` in all.
abbrev Counts : ℕ → Result (Option ℕ) × List (List Exception) × Files → Type 0
Counts least (ok none, errors, f) = least ≤ length (flatten errors)
Counts least (ok (some sock), errors, f) = Unit
Counts least (err e, errors, f) = Unit

go_on-Counts :
    (kind_of : ℕ → OsKind) (tried : Result ℕ × List Exception × Files)
    (later : Result (Option ℕ) × List (List Exception) × Files) (errors : List (List Exception))
    (least : ℕ)
    → (1 ≤ length tried.1 → Counts least later)
    → HasError tried
    → Counts least (go_on kind_of tried later errors)
go_on-Counts kind_of (ok sock, mine, f) later errors least c h = tt
go_on-Counts kind_of (err e, mine, f) later errors least c h = elim (Bool-cases (is_os_error e)) [
  | inl os ↦ rw os (c (h os))
  | inr other ↦ rw other tt
]

Counts-weaken :
    (least least' : ℕ) (r : Result (Option ℕ) × List (List Exception) × Files)
    → least ≤ least'
    → Counts least' r
    → Counts least r
Counts-weaken least least' (ok none, errors, f) le c = omega (arith, le, c)
Counts-weaken least least' (ok (some sock), errors, f) le c = tt
Counts-weaken least least' (err e, errors, f) le c = tt

connect_each-Counts :
    (kind_of : ℕ → OsKind) (locals : Option (List Info)) (infos : List (Info × Attempt))
    (errors : List (List Exception)) (f : Files)
    → Counts (length (flatten errors) + length infos) (connect_each kind_of locals infos errors f)
unfolding connect_each
connect_each-Counts kind_of locals [] errors f = omega arith
connect_each-Counts kind_of locals ((i, a) ∷ rest) errors f =
    let tried = connect_one kind_of locals i a f in
    let slots = errors ++ (tried.1 ∷ []) in
    let later = connect_each kind_of locals rest slots tried.2 in
    let least = length (flatten errors) + length ((i, a) ∷ rest) in
    go_on-Counts kind_of tried later errors least
      (λ one.
        Counts-weaken least (length (flatten slots) + length rest) later
          (omega (arith, one, flatten_snoc errors tried.1))
          (connect_each-Counts kind_of locals rest slots tried.2))
      (connect_one-HasError kind_of locals i a f)

complain-explained :
    (text : Exception → ℕ) (all_errors : Bool) (errors : List Exception)
    → 1 ≤ length errors
    → (complain text all_errors errors ≢ unexplained) × (complain text all_errors errors ≢ group [])
unfolding complain
complain-explained text all_errors [] h = absurd (omega (arith, h))
complain-explained text true (e ∷ es) h = (λ u. cc, λ u. ground arith)
complain-explained text false (e ∷ []) h = (λ u. cc, λ u. cc)
complain-explained text false (e ∷ e' ∷ es) h = ground arith

tell-explained :
    (text : Exception → ℕ) (all_errors : Bool) (n : ℕ)
    (r : Result (Option ℕ) × List (List Exception) × Files)
    → 1 ≤ n
    → Counts n r
    → ((tell text all_errors r).0 ≢ unexplained) × ((tell text all_errors r).0 ≢ group [])
tell-explained text all_errors n (ok none, errors, f) one c =
    complain-explained text all_errors (flatten errors) (omega (arith, one, c))
tell-explained text all_errors n (ok (some sock), errors, f) one c = (λ u. cc, λ u. cc)
tell-explained text all_errors n (err e, errors, f) one c = (λ u. cc, λ u. cc)

-- `_connect_tcp` never ends without an error to tell: neither the last resort of its source nor an empty
-- group is ever raised.
pub connect_tcp_explained :
    (kind_of : ℕ → OsKind) (text : Exception → ℕ) (all_errors : Bool)
    (infos : Result (List (Info × Attempt))) (locals : Option (Result (List Info))) (f : Files)
    → let end = connect_tcp kind_of none text all_errors infos locals f in
      (end.0 ≢ unexplained) × (end.0 ≢ group [])
unfolding connect_tcp flatten
connect_tcp_explained kind_of text all_errors (err e) locals f = (λ u. cc, λ u. cc)
connect_tcp_explained kind_of text all_errors (ok []) locals f = (λ u. cc, λ u. cc)
connect_tcp_explained kind_of text all_errors (ok (x ∷ infos)) (some (err e)) f = (λ u. cc, λ u. cc)
connect_tcp_explained kind_of text all_errors (ok (x ∷ infos)) (some (ok [])) f = (λ u. cc, λ u. cc)
connect_tcp_explained kind_of text all_errors (ok (x ∷ infos)) (some (ok (l ∷ locals))) f =
    tell-explained text all_errors (0 + length (x ∷ infos))
      (connect_each kind_of (some (l ∷ locals)) (x ∷ infos) [] f) (omega arith)
      (connect_each-Counts kind_of (some (l ∷ locals)) (x ∷ infos) [] f)
connect_tcp_explained kind_of text all_errors (ok (x ∷ infos)) none f =
    tell-explained text all_errors (0 + length (x ∷ infos))
      (connect_each kind_of none (x ∷ infos) [] f) (omega arith)
      (connect_each-Counts kind_of none (x ∷ infos) [] f)
