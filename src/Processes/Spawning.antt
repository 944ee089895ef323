-- ===== src/Processes/Spawning.antt =====
-- `open_stream`, `Popen.spawn_libuv` and `Popen.__init__` of `_process.py`.
use zuvloop.Processes.Reaper.{register, register_end, Reaper}
use zuvloop.Base.{
  ◌>>◌, os_error, plain, other, value_error, raise_if, ℕ, zero, suc, ◌+◌, Bool, true, false, ◌||◌,
  Option, none, some, List, [], ◌∷◌, ◌++◌, has, discard, Result, ok, err,
}

-- The descriptors that are open, the number of the next opening, and how often a descriptor was closed
-- that was not open. A number stands for one opening: the system's own numbers come again after a close.
pub record Descriptors : Type 0 where
  pub opened : List ℕ
  pub next : ℕ
  pub stray : ℕ

abbrev pub open_fd : Descriptors → Descriptors
open_fd d = record d { opened = d.next ∷ d.opened; next = d.next + 1 }

abbrev pub close_open : Bool → ℕ → Descriptors → Descriptors
close_open true n d = record d { opened = discard n d.opened }
close_open false n d = record d { stray = d.stray + 1 }

abbrev pub close_fd : ℕ → Descriptors → Descriptors
close_fd n d = close_open (has n d.opened) n d

unfoldable pub close_fds : List ℕ → Descriptors → Descriptors
close_fds [] d = d
close_fds (n ∷ ns) d = close_fds ns (close_fd n d)

-- What is asked for one stream; the descriptor is that of a number or of a file object, whose `fileno` may raise.
pub data Request : Type 0 where
  inherit devnull pipe to_stdout : Request
  to_fd : Result ℕ → Request

-- What the system answers while one stream is opened: `open_file` is `open` on our end of the pipe.
pub record Answers : Type 0 where
  pub dup : Result (Unit {0})
  pub open_devnull : Result (Unit {0})
  pub make_pipe : Result (Unit {0})
  pub set_inheritable : Result (Unit {0})
  pub open_file : Result (Unit {0})

-- The child's descriptor, none for -1, and ours.
abbrev pub Ends : Type 0
Ends = Option ℕ × Option ℕ

abbrev pub opened_one : Result (Unit {0}) → Descriptors → Result Ends × Descriptors
opened_one (ok _) d = (ok (some d.next, none), open_fd d)
opened_one (err e) d = (err e, d)

-- The first two numbers after `os.pipe` are its ends, read and write.
abbrev pub pipe_ends : ℕ → ℕ → Ends
pipe_ends zero n = (some n, some (n + 1))
pipe_ends (suc index) n = (some (n + 1), some n)

abbrev pub piped :
    Result (Unit {0}) → Result (Unit {0}) → ℕ → Descriptors → Result Ends × Descriptors
piped (err e) set index d = (err e, d)
piped (ok _) (err e) index d = (err e, open_fd (open_fd d))
piped (ok _) (ok _) index d = (ok (pipe_ends index d.next), open_fd (open_fd d))

-- `os.dup(child_fds[1])`: the list may have no such entry, or -1 there.
abbrev pub dup_stdout : List (Option ℕ) → Result (Unit {0}) → Result (Unit {0})
dup_stdout (first ∷ some fd ∷ child_fds) dup = dup
dup_stdout (first ∷ none ∷ child_fds) dup = err (os_error plain 9)
dup_stdout (first ∷ []) dup = err (other 0)
dup_stdout [] dup = err (other 0)

-- `open_stream`
unfoldable pub open_stream :
    ℕ → Request → List (Option ℕ) → Answers → Descriptors → Result Ends × Descriptors
open_stream zero inherit child_fds a d = (ok (none, none), d)
open_stream (suc index) inherit child_fds a d = opened_one a.dup d
open_stream index devnull child_fds a d = opened_one a.open_devnull d
open_stream index pipe child_fds a d = piped a.make_pipe a.set_inheritable index d
open_stream index to_stdout child_fds a d = opened_one (dup_stdout child_fds a.dup) d
open_stream index (to_fd (ok fd)) child_fds a d = opened_one a.dup d
open_stream index (to_fd (err e)) child_fds a d = (err e, d)

-- What the loop over the streams has when it ends: the child's descriptors and our files.
pub record Streams : Type 0 where
  pub child_fds : List (Option ℕ)
  pub mine : List ℕ

abbrev pub adopt : Result (Unit {0}) → ℕ → Streams → Result (Unit {0}) × Streams
adopt (ok _) m t = (ok tt, record t { mine = t.mine ++ (m ∷ []) })
adopt (err e) m t = (err e, t)

-- One round of the loop, before the next.
abbrev pub took :
    Answers → Result Ends × Descriptors → Streams → (Result (Unit {0}) × Streams) × Descriptors
took a (err e, d) t = ((err e, t), d)
took a (ok (c, none), d) t = ((ok tt, record t { child_fds = t.child_fds ++ (c ∷ []) }), d)
took a (ok (c, some m), d) t =
    (adopt a.open_file m (record t { child_fds = t.child_fds ++ (c ∷ []) }), d)

abbrev pub after_round :
    (Result (Unit {0}) × Streams) × Descriptors
    → (Result (Unit {0}) × Streams) × Descriptors
    → (Result (Unit {0}) × Streams) × Descriptors
after_round ((ok _, t), d) later = later
after_round ((err e, t), d) later = ((err e, t), d)

unfoldable pub open_streams :
    ℕ
    → List (Request × Answers)
    → Streams
    → Descriptors
    → (Result (Unit {0}) × Streams) × Descriptors
open_streams index [] t d = ((ok tt, t), d)
open_streams index ((request, a) ∷ rest) t d =
    let round = took a (open_stream index request t.child_fds a d) t in
    let later = open_streams (index + 1) rest round.0.1 round.1 in after_round round later

abbrev pub held : List (Option ℕ) → List ℕ
held [] = []
held (none ∷ child_fds) = held child_fds
held (some n ∷ child_fds) = n ∷ held child_fds

-- `loop._spawn_process`, then the `except` and the `finally`. The result has our files.
abbrev pub spawned :
    (Result (Unit {0}) × Streams) × Descriptors → Result (Unit {0}) → Result (List ℕ) × Descriptors
spawned ((ok _, t), d) (ok _) = (ok t.mine, close_fds (held t.child_fds) d)
spawned ((ok _, t), d) (err e) = (err e, close_fds (held t.child_fds) (close_fds t.mine d))
spawned ((err e, t), d) spawn = (err e, close_fds (held t.child_fds) (close_fds t.mine d))

-- `spawn_libuv`
unfoldable pub spawn_libuv :
    List (Request × Answers) → Result (Unit {0}) → Descriptors → Result (List ℕ) × Descriptors
spawn_libuv streams spawn d =
    spawned (open_streams 0 streams (record { child_fds = []; mine = [] }) d) spawn

-- The arguments of `Popen` that it checks. `strings` says of each string whether it has a null byte, and each of
-- `pass_fds` is a number, if it is not negative, with the answer of `os.fstat`.
pub record Arguments : Type 0 where
  pub startupinfo : Bool
  pub creationflags : Bool
  pub unsupported : Bool
  pub strings : List Bool
  pub pass_fds : List (Option (Result (Unit {0})))

unfoldable pub check_strings : List Bool → Result (Unit {0})
check_strings [] = ok tt
check_strings (has_null ∷ strings) =
    raise_if has_null (value_error "embedded null byte") >> check_strings strings

abbrev pub check_fd : Option (Result (Unit {0})) → Result (Unit {0})
check_fd none = err (value_error "bad value(s) in pass_fds")
check_fd (some fstat) = fstat

unfoldable pub check_fds : List (Option (Result (Unit {0}))) → Result (Unit {0})
check_fds [] = ok tt
check_fds (fd ∷ pass_fds) = check_fd fd >> check_fds pass_fds

unfoldable pub check_arguments : Arguments → Result (Unit {0})
check_arguments args =
    raise_if args.startupinfo (value_error "startupinfo is not supported")
    >> (raise_if args.creationflags (value_error "creationflags is not supported")
        >> (raise_if args.unsupported
              (value_error "not supported by zuvloop's subprocess transport")
            >> (check_strings args.strings >> check_fds args.pass_fds)))

abbrev pub is_given : List (Option (Result (Unit {0}))) → Bool
is_given [] = false
is_given (fd ∷ pass_fds) = true

-- What is there once the child runs: our files, and the pid of a child of `subprocess.Popen`.
pub data Child : Type 0 where
  by_stdlib : ℕ → List ℕ → Child
  by_libuv : List ℕ → Child

abbrev pub Outcome : Type 0
Outcome = Result Child × Reaper × Descriptors

-- The end of `__init__` after `register`, which has this result.
abbrev pub unless_unstarted : Result (Unit {0}) → Child → Reaper → Descriptors → Outcome
unless_unstarted (ok _) child s d = (ok child, s, d)
unless_unstarted (err e) child s d = (err e, s, d)

abbrev pub registered : Result (Unit {0}) → Result (ℕ × List ℕ) × Descriptors → Reaper → Outcome
registered start (err e, d) s = (err e, s, d)
registered start (ok (pid, mine), d) s =
    unless_unstarted (register_end start s) (by_stdlib pid mine) (register pid start s) d

abbrev pub spawned_child : Result (List ℕ) × Descriptors → Reaper → Outcome
spawned_child (err e, d) s = (err e, s, d)
spawned_child (ok mine, d) s = (ok (by_libuv mine), s, d)

abbrev pub start_child :
    Result (Unit {0})
    → Bool
    → Result (Unit {0})
    → Result (ℕ × List ℕ) × Descriptors
    → Result (List ℕ) × Descriptors
    → Reaper
    → Descriptors
    → Outcome
start_child (err e) use_stdlib start stdlib libuv s d = (err e, s, d)
start_child (ok _) true start stdlib libuv s d = registered start stdlib s
start_child (ok _) false start stdlib libuv s d = spawned_child libuv s

-- `Popen.__init__`. `subprocess.Popen` is `stdlib`: it gives the pid and our ends of its pipes, or raises, and
-- leaves these descriptors; `start` is the answer of `Thread.start` in `register`.
unfoldable pub new_popen :
    Bool
    → Arguments
    → Result (Unit {0})
    → (Descriptors → Result (ℕ × List ℕ) × Descriptors)
    → List (Request × Answers)
    → Result (Unit {0})
    → Reaper
    → Descriptors
    → Outcome
new_popen is_linux args start stdlib streams spawn s d =
    start_child (check_arguments args) (is_linux || is_given args.pass_fds) start (stdlib d)
      (spawn_libuv streams spawn d) s d
