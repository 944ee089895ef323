-- ===== src/Connect/Tests.antt =====
-- The theorems on setting up connections at concrete data, and some runs.
use zuvloop.Connect.Leaving.{IsLeft, connect_tcp_opened}
use zuvloop.Connect.Defs.{
  raised, flatten, pop, bind_local, connect_one, connect_each, complain, connected, Attempt, Files,
  Info, connect_tcp,
}
use zuvloop.Connect.Binding.{
  close_all, prepare, named, bind_each, one_host, no_host, fromkeys, to_resolve, resolve, Asked,
  System, bind_tcp,
}
use zuvloop.Connect.Listening.{bind_tcp_distinct, Binds, Matches, has_info, AllNew}
use zuvloop.Connect.Refusing.{connect_tcp_first}
use zuvloop.Base.{
  plain, connection, os_error, OsKind, Below, refl, ℕ, ◌≡◌, true, false, Option, none, some, List,
  [], ◌∷◌, arith, length, ◌==◌, if◌then◌else◌, Exception, Result, ok, err,
}

abbrev two_open : Files
two_open = record { opened = 3 ∷ 1 ∷ []; next = 4 }

two_open-Below : Below 4 (3 ∷ 1 ∷ [])
two_open-Below = (omega arith, (omega arith, tt))

abbrev refusal : Exception
refusal = os_error connection 111

-- One address that refuses and one that connects.
abbrev refusing : Info × Attempt
refusing = (
  record { family = 2; address = 20 },
  record { socket = ok tt; bind = λ i. ok tt; connect = err refusal },
)

abbrev accepting : Info × Attempt
accepting = (
  record { family = 2; address = 21 },
  record { socket = ok tt; bind = λ i. ok tt; connect = ok tt },
)

abbrev any_kind : ℕ → OsKind
any_kind number = plain

abbrev text : Exception → ℕ
text e = 0

abbrev candidates : List (Info × Attempt)
candidates = refusing ∷ accepting ∷ []

second_wins :
    connect_tcp any_kind none text false (ok candidates) none two_open
    ≡ (connected 5, record { opened = 5 ∷ 3 ∷ 1 ∷ []; next = 6 })
unfolding connect_tcp connect_each connect_one
second_wins = refl

-- No local address of the family binds.
local_taken :
    connect_tcp any_kind none text false
      (ok (
        (
          refusing.0,
          record { socket = ok tt; bind = λ i. err (os_error plain 98); connect = ok tt },
        )
        ∷ []))
      (some (ok (record { family = 10; address = 1 } ∷ record { family = 2; address = 2 } ∷ [])))
      two_open
    ≡ (raised (os_error plain 98), record { opened = 3 ∷ 1 ∷ []; next = 5 })
unfolding connect_tcp connect_each connect_one bind_local pop complain flatten
local_taken = refl

connect_tcp_opened_example :
    IsLeft (3 ∷ 1 ∷ []) (connect_tcp any_kind none text false (ok candidates) none two_open)
connect_tcp_opened_example =
    connect_tcp_opened any_kind text false (ok candidates) none two_open two_open-Below

connect_tcp_first_example :
    let end = connect_tcp any_kind none text false (ok candidates) none two_open in
    (sock : ℕ) × (end.0 ≡ connected sock)
    × (end ≡ connect_tcp any_kind none text false (ok candidates) none two_open)
connect_tcp_first_example =
    connect_tcp_first any_kind text false two_open (refusing ∷ []) [] (refusal ∷ []) accepting.0
      accepting.1 (refl, refl, tt) refl

abbrev arguments : Asked
arguments = record {
  reuse_address = none;
  reuse_port = false;
  keep_alive = true;
  is_posix = true;
  has_reuse_port = true;
  has_ipv6 = true;
  af_inet6 = 10;
}

-- Binding the second address fails.
abbrev system : System
system = record {
  socket = λ i. ok tt;
  setsockopt = λ i o. ok tt;
  bind = λ i. if i.address == 8 then err (os_error plain 98) else ok tt;
}

abbrev found : Option ℕ → Result (List Info)
found none = ok (record { family = 2; address = 7 } ∷ record { family = 10; address = 8 } ∷ [])
found (some name) =
    ok (record { family = 2; address = 7 } ∷ record { family = 2; address = 7 } ∷ [])

one_for_two :
    bind_tcp found arguments system (one_host (named 1)) two_open
    ≡ (ok (4 ∷ []), record { opened = 4 ∷ 3 ∷ 1 ∷ []; next = 5 })
unfolding bind_tcp resolve fromkeys bind_each prepare
one_for_two = refl

both_closed :
    bind_tcp found arguments system no_host two_open
    ≡ (err (os_error plain 98), record { opened = 3 ∷ 1 ∷ []; next = 6 })
unfolding bind_tcp resolve fromkeys bind_each prepare close_all
both_closed = refl

twice :
    resolve found (to_resolve (one_host (named 1))) []
    ≡ ok (record { family = 2; address = 7 } ∷ record { family = 2; address = 7 } ∷ [])
unfolding resolve
twice = refl

bind_tcp_distinct_example :
    let infos : List Info =
      record { family = 2; address = 7 } ∷ record { family = 2; address = 7 } ∷ [] in
    AllNew (fromkeys infos)
    × (has_info (record { family = 2; address = 7 }) (fromkeys infos) ≡ true)
    × Matches
        (length (fromkeys infos))
        (bind_tcp found arguments system (one_host (named 1)) two_open).0
    × Binds system
        (fromkeys infos)
        (bind_tcp found arguments system (one_host (named 1)) two_open).0
bind_tcp_distinct_example =
    bind_tcp_distinct found arguments system (one_host (named 1))
      (record { family = 2; address = 7 } ∷ record { family = 2; address = 7 } ∷ [])
      (record { family = 2; address = 7 }) two_open two_open-Below twice
