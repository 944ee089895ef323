-- ===== src/Processes/Tests.antt =====
-- The theorems on child processes at concrete runs.
use zuvloop.Processes.Refining.{reaper_refines, children, Change}
use zuvloop.Base.{
  true, plain, os_error, err, false, arith, ok, Below, List, Result, ℕ, ltb, refl, ◌+◌, ◌≡◌, ◌||◌,
  some, [], ◌∷◌,
}
use zuvloop.Processes.Steps.{
  is_polling, tells, Reach, start, later, deletes, polls, begins, registers, told, is_watched,
  in_hand, one_if,
}
use zuvloop.Processes.Reaping.{exits_once}
use zuvloop.Processes.Spawning.{
  close_fds, open_stream, open_streams, new_popen, Answers, spawn_libuv, Descriptors, Arguments,
  pipe, to_stdout, Request,
}
use zuvloop.Processes.Opening.{new_popen_opened, IsStarted}
use zuvloop.Processes.Descriptors.{IsSure}
use zuvloop.Processes.Reaper.{Reaper, announce, delete, register, poll, begin_round, new_reaper}

-- A child with pid 40 is polled to its end; before its entry is dropped, another child gets the same pid.
abbrev reused : Reaper
reused =
    announce
      (delete (register 40 (ok tt) (poll (some 1) (begin_round (register 40 (ok tt) new_reaper)))))

both_kept : (reused.processes ≡ (40, 1) ∷ []) × (reused.exits ≡ (0, 1) ∷ []) × (reused.threads ≡ 1)
unfolding announce delete register poll begin_round new_reaper
both_kept = (refl, refl, refl)

reused-Reach : Reach reused
unfolding delete register poll begin_round new_reaper
reused-Reach =
    later
      (later
        (later
          (later (later (later start (registers 40 (ok tt) tt)) (begins refl refl refl))
            (polls (some 1) refl))
          (registers 40 (ok tt) refl))
        deletes)
      tells

exits_once_example :
    ((register 60 (ok tt) reused).threads ≡ 1)
    × ((register 60 (ok tt) reused).started ≡ true)
    × ((register 60 (err (os_error plain 11)) reused).threads ≡ reused.threads)
    × (reused.threads ≡ one_if reused.started)
    × (one_if (in_hand 0 reused.phase || is_watched 0 reused) + told 0 reused.exits
        ≡ one_if (ltb 0 reused.next))
exits_once_example = exits_once 0 60 (os_error plain 11) reused-Reach

abbrev fine : Answers
fine = record {
  dup = ok tt;
  open_devnull = ok tt;
  make_pipe = ok tt;
  set_inheritable = ok tt;
  open_file = ok tt;
}

-- The standard library's child has one pipe.
abbrev one_pipe : Descriptors → Result (ℕ × List ℕ) × Descriptors
one_pipe d = (ok (50, d.next ∷ []), record d { opened = d.next ∷ d.opened; next = d.next + 1 })

-- A pipe to the child's stdin, one from its stdout, and stderr to the same place.
abbrev two_pipes : List (Request × Answers)
two_pipes = (pipe, fine) ∷ (pipe, fine) ∷ (to_stdout, fine) ∷ []

abbrev three_open : Descriptors
three_open = record { opened = 2 ∷ 1 ∷ 0 ∷ []; next = 3; stray = 0 }

ours_left :
    spawn_libuv two_pipes (ok tt) three_open
    ≡ (ok (4 ∷ 5 ∷ []), record { opened = 5 ∷ 4 ∷ 2 ∷ 1 ∷ 0 ∷ []; next = 8; stray = 0 })
unfolding spawn_libuv open_streams open_stream close_fds
ours_left = refl

none_left :
    spawn_libuv two_pipes (err (os_error plain 2)) three_open
    ≡ (err (os_error plain 2), record { opened = 2 ∷ 1 ∷ 0 ∷ []; next = 8; stray = 0 })
unfolding spawn_libuv open_streams open_stream close_fds
none_left = refl

abbrev no_options : Arguments
no_options = record {
  startupinfo = false;
  creationflags = false;
  unsupported = false;
  strings = false ∷ [];
  pass_fds = [];
}

three_open-Below : Below 3 (2 ∷ 1 ∷ 0 ∷ [])
three_open-Below = (omega arith, (omega arith, (omega arith, tt)))

two_pipes-IsSure : IsSure two_pipes
two_pipes-IsSure = (refl, refl, (refl, refl, (refl, refl, tt)))

new_popen_opened_example :
    IsStarted 4 reused three_open
      (new_popen false no_options (ok tt) one_pipe two_pipes (ok tt) reused three_open)
new_popen_opened_example =
    new_popen_opened 4 false no_options one_pipe two_pipes (ok tt) reused three_open
      three_open-Below two_pipes-IsSure (refl, refl)

abbrev one_child : Reaper
one_child = begin_round (register 40 (ok tt) new_reaper)

one_child-Reach : Reach one_child
unfolding register begin_round new_reaper
one_child-Reach = later (later start (registers 40 (ok tt) tt)) (begins refl refl refl)

polling_ends : is_polling one_child.phase ≡ true
unfolding begin_round
polling_ends = refl

reaper_refines_example : Change (children one_child) (children (poll (some 1) one_child))
reaper_refines_example = reaper_refines one_child-Reach (polls (some 1) polling_ends)
