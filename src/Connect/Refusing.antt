-- ===== src/Connect/Refusing.antt =====
-- Which address `_connect_tcp` connects to, and what it raises when every address refuses.
use zuvloop.Base.{
  append_assoc, ◌∙◌, append-nil, Bool, some, sym, arith, ◌>>◌, is_os_error, OsKind, refl, ap, ℕ,
  ◌≡◌, true, Option, none, List, [], ◌∷◌, ◌++◌, Exception, Result, ok, err,
}
use zuvloop.Connect.Defs.{
  connected, complain, tell, connect_tcp, concluded, open_socket, with_socket, go_on, Files,
  flatten, connect_each, connect_one, Attempt, Info,
}

-- What an attempt without a local address ends with.
abbrev pub answer : Attempt → Result (Unit {0})
answer a = a.socket >> a.connect

-- Each of the addresses refuses with its OSError.
abbrev pub AllRefuse : List (Info × Attempt) → List Exception → Type 0
AllRefuse [] [] = Unit
AllRefuse [] (e ∷ es) = ⊥
AllRefuse (x ∷ infos) [] = ⊥
AllRefuse ((i, a) ∷ infos) (e ∷ es) =
    (is_os_error e ≡ true) × (answer a ≡ err e) × AllRefuse infos es

refused_one :
    (kind_of : ℕ → OsKind) (r c : Result (Unit {0})) (e : Exception) (sock : ℕ) (f f' : Files)
    → is_os_error e ≡ true
    → (r >> c) ≡ err e
    → let tried = with_socket kind_of r (concluded kind_of c [] sock f') f in
      (tried.0 ≡ err e) × (tried.1 ≡ e ∷ [])
refused_one kind_of (ok u) (ok v) e sock f f' os h = ground arith
refused_one kind_of (ok u) (err x) e sock f f' os h = ground arith
refused_one kind_of (err x) c e sock f f' os h = ground arith

connect_one-refused :
    (kind_of : ℕ → OsKind) (i : Info) (a : Attempt) (e : Exception) (f : Files)
    → is_os_error e ≡ true
    → answer a ≡ err e
    → let tried = connect_one kind_of none i a f in (tried.0 ≡ err e) × (tried.1 ≡ e ∷ [])
unfolding connect_one
connect_one-refused kind_of i a e f os h =
    refused_one kind_of a.socket a.connect e f.next f (open_socket f) os h

pub go_on-refused :
    (kind_of : ℕ → OsKind) (tried : Result ℕ × List Exception × Files)
    (later : Result (Option ℕ) × List (List Exception) × Files) (errors : List (List Exception))
    (e : Exception)
    → is_os_error e ≡ true
    → tried.0 ≡ err e
    → go_on kind_of tried later errors ≡ later
go_on-refused kind_of (ok sock, mine, f) later errors e os h = cc
go_on-refused kind_of (err x, mine, f) later errors e os h = ground arith

-- One slot for each error.
abbrev slots_of : List Exception → List (List Exception)
slots_of [] = []
slots_of (e ∷ es) = (e ∷ []) ∷ slots_of es

flatten_slots : (es : List Exception) → flatten (slots_of es) ≡ es
unfolding flatten
flatten_slots [] = refl
flatten_slots (e ∷ es) = ap (λ r. e ∷ r) (flatten_slots es)

-- The sockets after attempts that all fail.
abbrev passed : (ℕ → OsKind) → List (Info × Attempt) → Files → Files
passed kind_of [] f = f
passed kind_of ((i, a) ∷ infos) f = passed kind_of infos (connect_one kind_of none i a f).2

-- The loop goes on behind addresses that refuse.
connect_each-refused :
    (kind_of : ℕ → OsKind) (infos after : List (Info × Attempt)) (es : List Exception)
    (errors : List (List Exception)) (f : Files)
    → AllRefuse infos es
    → connect_each kind_of none (infos ++ after) errors f
      ≡ connect_each kind_of none after (errors ++ slots_of es) (passed kind_of infos f)
unfolding connect_each
connect_each-refused kind_of [] after [] errors f h =
    ap (λ r. connect_each kind_of none after r f) (sym (append-nil errors))
connect_each-refused kind_of [] after (e ∷ es) errors f h = absurd h
connect_each-refused kind_of (x ∷ infos) after [] errors f h = absurd h
connect_each-refused kind_of ((i, a) ∷ infos) after (e ∷ es) errors f (os, r, h) =
    let tried = connect_one kind_of none i a f in
    let (raises, slot) = connect_one-refused kind_of i a e f os r in
    let slots = errors ++ (tried.1 ∷ []) in
    let later = connect_each kind_of none (infos ++ after) slots tried.2 in
    go_on-refused kind_of tried later errors e os raises
    ∙ connect_each-refused kind_of infos after es slots tried.2 h
    ∙ ap (λ r. connect_each kind_of none after r (passed kind_of infos tried.2))
        (append_assoc errors (tried.1 ∷ []) (slots_of es)
          ∙ ap (λ m. errors ++ (m ∷ slots_of es)) slot)

one_connects :
    (kind_of : ℕ → OsKind) (r c : Result (Unit {0})) (sock : ℕ) (f f' : Files)
    → (r >> c) ≡ ok tt
    → (with_socket kind_of r (concluded kind_of c [] sock f') f).0 ≡ ok sock
one_connects kind_of (ok u) (ok v) sock f f' h = refl
one_connects kind_of (ok u) (err x) sock f f' h = cc
one_connects kind_of (err x) c sock f f' h = cc

go_on-connects :
    (kind_of : ℕ → OsKind) (tried : Result ℕ × List Exception × Files)
    (later later' : Result (Option ℕ) × List (List Exception) × Files)
    (errors : List (List Exception)) (sock : ℕ)
    → tried.0 ≡ ok sock
    → ((go_on kind_of tried later errors).0 ≡ ok (some sock))
      × (go_on kind_of tried later errors ≡ go_on kind_of tried later' errors)
go_on-connects kind_of (ok sock', mine, f) later later' errors sock h = (ground arith, refl)
go_on-connects kind_of (err x, mine, f) later later' errors sock h = cc

tell-wins :
    (text : Exception → ℕ) (all_errors : Bool)
    (r : Result (Option ℕ) × List (List Exception) × Files) (sock : ℕ)
    → r.0 ≡ ok (some sock)
    → (tell text all_errors r).0 ≡ connected sock
tell-wins text all_errors (ok (some sock'), errors, f) sock h = ground arith
tell-wins text all_errors (ok none, errors, f) sock h = cc
tell-wins text all_errors (err e, errors, f) sock h = cc

each-tell :
    (kind_of : ℕ → OsKind) (text : Exception → ℕ) (all_errors : Bool)
    (infos : List (Info × Attempt)) (x : Info × Attempt) (after : List (Info × Attempt)) (f : Files)
    → connect_tcp kind_of none text all_errors (ok (infos ++ (x ∷ after))) none f
      ≡ tell text all_errors (connect_each kind_of none (infos ++ (x ∷ after)) [] f)
unfolding connect_tcp
each-tell kind_of text all_errors [] x after f = refl
each-tell kind_of text all_errors (y ∷ infos) x after f = refl

winning_one :
    (kind_of : ℕ → OsKind) (i : Info) (a : Attempt) (after : List (Info × Attempt))
    (errors : List (List Exception)) (f : Files)
    → answer a ≡ ok tt
    → let end = connect_each kind_of none ((i, a) ∷ after) errors f in
      (end.0 ≡ ok (some f.next)) × (end ≡ connect_each kind_of none ((i, a) ∷ []) errors f)
unfolding connect_each connect_one
winning_one kind_of i a after errors f c =
    let tried = connect_one kind_of none i a f in
    go_on-connects kind_of tried
      (connect_each kind_of none after (errors ++ (tried.1 ∷ [])) tried.2)
      (ok none, errors ++ (tried.1 ∷ []), tried.2) errors f.next
      (one_connects kind_of a.socket a.connect f.next f (open_socket f) c)

module _ (kind_of : ℕ → OsKind) (text : Exception → ℕ) (all_errors : Bool) (f : Files) where
  -- Without a local address, when every address refuses with an OSError, `_connect_tcp` raises what it
  -- makes of these errors in the order of the addresses.
  pub connect_tcp_refused :
      (x : Info × Attempt) (infos : List (Info × Attempt)) (es : List Exception)
      → AllRefuse (x ∷ infos) es
      → (connect_tcp kind_of none text all_errors (ok (x ∷ infos)) none f).0
        ≡ complain text all_errors es
  unfolding connect_tcp connect_each
  connect_tcp_refused x infos es h =
      ap (λ r. (tell text all_errors r).0)
        (ap (λ l. connect_each kind_of none l [] f) (sym (append-nil (x ∷ infos)))
          ∙ connect_each-refused kind_of (x ∷ infos) [] es [] f h)
      ∙ ap (λ es'. complain text all_errors es') (flatten_slots es)

  -- Without `happy_eyeballs_delay` and a local address, when some addresses refuse with an OSError and the next one connects,
  -- `_connect_tcp` returns a socket, and does the same if there are no addresses after that one.
  pub connect_tcp_first :
      (infos after : List (Info × Attempt)) (es : List Exception) (i : Info) (a : Attempt)
      → AllRefuse infos es
      → answer a ≡ ok tt
      → let end =
          connect_tcp kind_of none text all_errors (ok (infos ++ ((i, a) ∷ after))) none f in
        (sock : ℕ) × (end.0 ≡ connected sock)
        × (end ≡ connect_tcp kind_of none text all_errors (ok (infos ++ ((i, a) ∷ []))) none f)
  connect_tcp_first infos after es i a h c =
      let f' = passed kind_of infos f in
      let (wins, same) = winning_one kind_of i a after (slots_of es) f' c in
      let refused = connect_each-refused kind_of infos ((i, a) ∷ after) es [] f h in
      let told = each-tell kind_of text all_errors infos (i, a) after f in
      let told' = each-tell kind_of text all_errors infos (i, a) [] f in
      let refused' = connect_each-refused kind_of infos ((i, a) ∷ []) es [] f h in
      (
        f'.next,
        ap (λ r. r.0) told
            ∙ tell-wins text all_errors (connect_each kind_of none (infos ++ ((i, a) ∷ after)) [] f)
                f'.next (ap (λ r. r.0) refused ∙ wins),
        told ∙ ap (λ r. tell text all_errors r) (refused ∙ same ∙ sym refused') ∙ sym told',
      )
