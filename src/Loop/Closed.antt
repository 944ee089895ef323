-- ===== src/Loop/Closed.antt =====
-- What `close` leaves of the loop.
use zuvloop.Loop.Closing.{
  close_natively, natively_closed, close_if, close_loop, closing_on, teardown_self_pipe,
  give_up_end, Closing, Closable, WriteEnd, open_end, handed_on, closed_end,
}
use zuvloop.Base.{
  ◌∙◌, runtime_error, Bool, refl, ℕ, ◌≡◌, ◌≢◌, true, false, Option, none, some, List, [], ◌∷◌, ◌++◌,
  arith, Result, ok, err,
}

-- The last of the calls that raised says what is raised.
abbrev pub last_raised : List (Result (Unit {0})) → Result (Unit {0})
last_raised [] = ok tt
last_raised (r ∷ rs) = elim (last_raised rs) [ ok _ ↦ r | err e ↦ err e ]

abbrev pub given {ℓ} : {A : Type ℓ} → Option A → List A
given none = []
given (some a) = a ∷ []

abbrev pub shutdown_of : Option ℕ → Closing → List (Result (Unit {0}))
shutdown_of none w = []
shutdown_of (some executor) w = w.shutdown ∷ []

-- The calls of `close`, in order; all are made, whichever raise.
abbrev pub calls_of : Closing → Option ℕ → List (Result (Unit {0}))
calls_of w executor =
    w.signals ∷ given w.clean_up
    ++ (w.remove_reader ∷ w.close_ssock ∷ w.close_csock ∷ shutdown_of executor w)

-- The loop is closed, its executor was told to shut down, and the self pipe is given up.
abbrev pub IsReleased : Closing → Closable → Result (Unit {0}) × Closable → Type 0
IsReleased w s (r, s') =
    (r ≡ last_raised (calls_of w s.executor))
    × (s'.is_closed ≡ true)
    × (s'.executor ≡ none)
    × (s'.shut ≡ given s.executor ++ s.shut)
    × (s'.ssock_open ≡ false)
    × (s'.csock ≢ open_end)

give_up_end-ne : (e : WriteEnd) → give_up_end e ≢ open_end
give_up_end-ne open_end = λ h. cc
give_up_end-ne handed_on = λ h. cc
give_up_end-ne closed_end = λ h. cc

closing_on-IsReleased :
    (w : Closing) (clean_up : Option (Result (Unit {0}))) (executor : Option ℕ) (s : Closable)
    → w.clean_up ≡ clean_up
    → s.executor ≡ none
    → s.is_closed ≡ true
    → let (r, s') = closing_on w executor s in
      (r ≡ last_raised (calls_of w executor))
      × (s'.is_closed ≡ true)
      × (s'.executor ≡ none)
      × (s'.shut ≡ given executor ++ s.shut)
      × (s'.ssock_open ≡ false)
      × (s'.csock ≢ open_end)
unfolding teardown_self_pipe
closing_on-IsReleased w none none s c e l =
    rw c (ground arith, l, e, refl, refl, give_up_end-ne s.csock)
closing_on-IsReleased w none (some x) s c e l =
    rw c (ground arith, l, e, refl, refl, give_up_end-ne s.csock)
closing_on-IsReleased w (some r) none s c e l = rw c (ground arith, l, e, refl, refl, λ h. cc)
closing_on-IsReleased w (some r) (some x) s c e l = rw c (ground arith, l, e, refl, refl, λ h. cc)

-- How `close` ends for a loop that runs, one that is closed, and any other.
abbrev pub Closes : Bool → Bool → Closing → Closable → Result (Unit {0}) × Closable → Type 0
Closes true is_closed w s end = end ≡ (err (runtime_error "Cannot close a running event loop"), s)
Closes false true w s end = end ≡ (ok tt, s)
Closes false false w s end = IsReleased w s end

natively_closed-IsReleased :
    (w : Closing) (s : Closable) (running closed : Bool)
    → running ≡ false
    → closed ≡ false
    → IsReleased w s (
        natively_closed w s.executor (close_natively running closed (record s { executor = none })))
natively_closed-IsReleased w s false false a b =
    closing_on-IsReleased w w.clean_up s.executor (record s { executor = none; is_closed = true })
      refl refl refl
natively_closed-IsReleased w s false true a b = cc
natively_closed-IsReleased w s true closed a b = cc

close_if-Closes :
    (running closed : Bool) (w : Closing) (s : Closable)
    → s.is_running ≡ running
    → s.is_closed ≡ closed
    → Closes running closed w s (close_if running closed w s)
close_if-Closes true closed w s a b = refl
close_if-Closes false true w s a b = refl
close_if-Closes false false w s a b = natively_closed-IsReleased w s s.is_running s.is_closed a b

close_if_closed :
    (running closed : Bool) (w : Closing) (s : Closable)
    → running ≡ false
    → closed ≡ true
    → (close_if running closed w s).1 ≡ s
close_if_closed false true w s a b = refl
close_if_closed false false w s a b = cc
close_if_closed true closed w s a b = cc

closing_on_running :
    (w : Closing) (clean_up : Option (Result (Unit {0}))) (executor : Option ℕ) (s : Closable)
    → w.clean_up ≡ clean_up
    → (closing_on w executor s).1.is_running ≡ s.is_running
unfolding teardown_self_pipe
closing_on_running w none none s c = rw c refl
closing_on_running w none (some x) s c = rw c refl
closing_on_running w (some r) none s c = rw c refl
closing_on_running w (some r) (some x) s c = rw c refl

natively_closed_running :
    (w : Closing) (s : Closable) (running closed : Bool)
    → running ≡ false
    → closed ≡ false
    → s.is_running ≡ false
    → (natively_closed w s.executor
        (close_natively running closed (record s { executor = none }))).1.is_running
      ≡ false
natively_closed_running w s false false a b c =
    closing_on_running w w.clean_up s.executor (record s { executor = none; is_closed = true }) refl
    ∙ c
natively_closed_running w s false true a b c = cc
natively_closed_running w s true closed a b c = cc

closed_again :
    (running closed : Bool) (w w' : Closing) (s : Closable)
    → s.is_running ≡ running
    → s.is_closed ≡ closed
    → (close_loop w' (close_if running closed w s).1).1 ≡ (close_if running closed w s).1
unfolding close_loop
closed_again true closed w w' s a b = rw a refl
closed_again false true w w' s a b = rw a (rw b refl)
closed_again false false w w' s a b =
    let after = (close_if false false w s).1 in
    let released = natively_closed-IsReleased w s s.is_running s.is_closed a b in
    let running : after.is_running ≡ false =
      natively_closed_running w s s.is_running s.is_closed a b a in
    close_if_closed after.is_running after.is_closed w' after running released.1

-- However the calls that it makes end: `close` of a running loop raises and changes nothing, of a closed one it
-- does nothing, and any other loop is closed, its executor was told to shut down once, both ends of the self
-- pipe are given up, and what is raised is the exception of the last call that raised; closing again
-- changes nothing.
pub close_releases :
    (w w' : Closing) (s : Closable)
    → Closes s.is_running s.is_closed w s (close_loop w s)
      × ((close_loop w' (close_loop w s).1).1 ≡ (close_loop w s).1)
unfolding close_loop
close_releases w w' s = (
  close_if-Closes s.is_running s.is_closed w s refl refl,
  closed_again s.is_running s.is_closed w w' s refl refl,
)
