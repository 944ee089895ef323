-- ===== src/Processes/Opening.antt =====
-- What `spawn_libuv` and `Popen.__init__` leave open, and what they register.
use zuvloop.Processes.Descriptors.{
  new-IsHeld, open_streams-IsReady, IsSure, close_fds_lem, IsReady, AllOpen, IsHeld,
}
use zuvloop.Processes.Spawning.{
  is_given, open_streams, check_arguments, held, spawned, by_libuv, Answers, Request, by_stdlib,
  Arguments, close_fds, spawn_libuv, Outcome, registered, start_child, Streams, new_popen,
  spawned_child, Descriptors,
}
use zuvloop.Base.{
  refl, ℕ, ◌≡◌, Bool, true, false, not, ◌&&◌, ◌||◌, List, [], ◌∷◌, arith, has, Result, ok, err,
  Below,
}
use zuvloop.Processes.Reaper.{Reaper, register, register_end}

opened-AllOpen :
    (ns opened : List ℕ) → ((k : ℕ) → has k ns ≡ true → has k opened ≡ true) → AllOpen ns opened
opened-AllOpen [] opened h = tt
opened-AllOpen (n ∷ ns) opened h =
    (h n (ground arith), opened-AllOpen ns opened (λ k i. h k (ground arith)))

-- What is open is ours or from before, and no descriptor was closed that was not open.
abbrev Leaves : ℕ → Descriptors → List ℕ → Descriptors → Type 0
Leaves k base mine d = (has k d.opened ≡ (has k mine || has k base.opened)) × (d.stray ≡ base.stray)

child_closed :
    (k : ℕ) (base : Descriptors) (child mine : List ℕ) (d : Descriptors)
    → IsHeld base child mine d
    → Leaves k base mine (close_fds child d)
child_closed k base child mine d h =
    let all = opened-AllOpen child d.opened (λ j i. ground (arith, i, h.opened_are j)) in
    let closed = close_fds_lem k child d h.child_distinct all in
    (ground (arith, closed.0, h.opened_are k, h.child_apart k), ground (arith, closed.1, h.same))

all_closed :
    (k : ℕ) (base : Descriptors) (child mine : List ℕ) (d : Descriptors)
    → IsHeld base child mine d
    → Leaves k base [] (close_fds child (close_fds mine d))
all_closed k base child mine d h =
    let ours = opened-AllOpen mine d.opened (λ j i. ground (arith, i, h.opened_are j)) in
    let first : (j : ℕ)
        → (has j (close_fds mine d).opened ≡ (has j d.opened && not (has j mine)))
          × ((close_fds mine d).stray ≡ d.stray) =
      λ j. close_fds_lem j mine d h.mine_distinct ours in
    let childs =
      opened-AllOpen child (close_fds mine d).opened
        (λ j i. ground (arith, i, (first j).0, h.opened_are j, h.child_apart j)) in
    let closed = close_fds_lem k child (close_fds mine d) h.child_distinct childs in
    (
      ground (arith, closed.0, (first k).0, h.opened_are k, h.child_apart k, h.mine_apart k),
      ground (arith, closed.1, (first k).1, h.same),
    )

-- The files that a spawn hands out.
abbrev pub files : Result (List ℕ) → List ℕ
files (ok mine) = mine
files (err e) = []

spawned-Leaves :
    (k : ℕ) (base : Descriptors) (end : (Result (Unit {0}) × Streams) × Descriptors)
    (spawn : Result (Unit {0}))
    → IsReady base end
    → let (r, d) = spawned end spawn in Leaves k base (files r) d
spawned-Leaves k base ((ok u, t), d) (ok v) h = child_closed k base (held t.child_fds) t.mine d h
spawned-Leaves k base ((ok u, t), d) (err e) h = all_closed k base (held t.child_fds) t.mine d h
spawned-Leaves k base ((err e, t), d) spawn h = all_closed k base (held t.child_fds) t.mine d h

spawn_libuv-Leaves :
    (k : ℕ) (streams : List (Request × Answers)) (spawn : Result (Unit {0})) (base : Descriptors)
    → Below base.next base.opened
    → IsSure streams
    → let (r, d) = spawn_libuv streams spawn base in Leaves k base (files r) d
unfolding spawn_libuv
spawn_libuv-Leaves k streams spawn base b sure =
    let t : Streams = record { child_fds = []; mine = [] } in
    spawned-Leaves k base (open_streams 0 streams t base) spawn
      (open_streams-IsReady 0 streams base t base sure (new-IsHeld base b))

-- The reaper watches the child exactly if the standard library made it.
abbrev pub IsStarted : ℕ → Reaper → Descriptors → Outcome → Type 0
IsStarted k s base (err e, s', d) = Leaves k base [] d × (s' ≡ s)
IsStarted k s base (ok (by_stdlib pid mine), s', d) =
    Leaves k base mine d × (s' ≡ register pid (ok tt) s)
IsStarted k s base (ok (by_libuv mine), s', d) = Leaves k base mine d × (s' ≡ s)

-- What `subprocess.Popen` leaves open: our ends of its pipes, and nothing if it raises.
abbrev pub our_ends : Result (ℕ × List ℕ) → List ℕ
our_ends (ok (pid, mine)) = mine
our_ends (err e) = []

abbrev pub IsTidy : ℕ → Descriptors → Result (ℕ × List ℕ) × Descriptors → Type 0
IsTidy k base (r, d) = Leaves k base (our_ends r) d

started_ok : (s : Reaper) → register_end (ok tt) s ≡ ok tt
unfolding register_end
started_ok s = ground arith

registered-IsStarted :
    (k : ℕ) (base : Descriptors) (end : Result (ℕ × List ℕ) × Descriptors) (s : Reaper)
    → IsTidy k base end
    → IsStarted k s base (registered (ok tt) end s)
registered-IsStarted k base (ok (pid, mine), d) s l = rw (started_ok s) (l, refl)
registered-IsStarted k base (err e, d) s l = (l, refl)

spawned_child-IsStarted :
    (k : ℕ) (base : Descriptors) (end : Result (List ℕ) × Descriptors) (s : Reaper)
    → Leaves k base (files end.0) end.1
    → IsStarted k s base (spawned_child end s)
spawned_child-IsStarted k base (ok mine, d) s l = (l, refl)
spawned_child-IsStarted k base (err e, d) s l = (l, refl)

start_child-IsStarted :
    (k : ℕ) (check : Result (Unit {0})) (use_stdlib : Bool)
    (stdlib : Result (ℕ × List ℕ) × Descriptors) (libuv : Result (List ℕ) × Descriptors)
    (s : Reaper) (base : Descriptors)
    → IsTidy k base stdlib
    → Leaves k base (files libuv.0) libuv.1
    → IsStarted k s base (start_child check use_stdlib (ok tt) stdlib libuv s base)
start_child-IsStarted k (err e) use_stdlib stdlib libuv s base t l = ((refl, refl), refl)
start_child-IsStarted k (ok u) true stdlib libuv s base t l = registered-IsStarted k base stdlib s t
start_child-IsStarted k (ok u) false stdlib libuv s base t l =
    spawned_child-IsStarted k base libuv s l

-- However `Popen.__init__` ends, when `os.set_inheritable` and `open` do not fail on the ends of a new pipe,
-- `subprocess.Popen` closes no descriptor that is not open and leaves open our ends of its pipes or, if it raises,
-- nothing, and the reaper's thread does not fail to start: a descriptor `k` is open exactly if it was open before or is our end of a pipe of the child,
-- so that after an error nothing is left; no descriptor is closed that is not open; and the reaper has one
-- child more if the standard library spawned it, and is unchanged otherwise.
pub new_popen_opened :
    (k : ℕ) (is_linux : Bool) (args : Arguments)
    (stdlib : Descriptors → Result (ℕ × List ℕ) × Descriptors) (streams : List (Request × Answers))
    (spawn : Result (Unit {0})) (s : Reaper) (d : Descriptors)
    → Below d.next d.opened
    → IsSure streams
    → IsTidy k d (stdlib d)
    → IsStarted k s d (new_popen is_linux args (ok tt) stdlib streams spawn s d)
unfolding new_popen
new_popen_opened k is_linux args stdlib streams spawn s d b sure tidy =
    start_child-IsStarted k (check_arguments args) (is_linux || is_given args.pass_fds) (stdlib d)
      (spawn_libuv streams spawn d) s d tidy (spawn_libuv-Leaves k streams spawn d b sure)
