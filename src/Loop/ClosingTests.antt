-- ===== src/Loop/ClosingTests.antt =====
-- The theorems on closing a loop and on its executors at concrete data.
use zuvloop.Base.{
  os_error, plain, refl, ◌+◌, ◌≤◌, ◌≡◌, ◌||◌, false, true, none, some, [], ◌∷◌, length, ok, err,
}
use zuvloop.Loop.Closing.{open_end, closed_end, Closable, Closing, close_loop, teardown_self_pipe}
use zuvloop.Loop.Closed.{Closes, close_releases}
use zuvloop.Loop.Executors.{Executors, run_in_executor, begin_shutdown, close_executor}
use zuvloop.Loop.Accounting.{
  Reach, start, later, runs, begins, closes, executors-IsAccounted, IsAccounted, allowance,
}

-- A loop with an executor, of which removing a handler and closing the read end fail.
abbrev failing : Closing
failing = record {
  signals = err (os_error plain 22);
  clean_up = none;
  remove_reader = ok tt;
  close_ssock = err (os_error plain 9);
  close_csock = ok tt;
  shutdown = ok tt;
}

abbrev with_executor : Closable
with_executor = record {
  is_running = false;
  is_closed = false;
  executor = some 4;
  shut = [];
  is_read = true;
  ssock_open = true;
  csock = open_end;
}

last_wins : close_loop failing with_executor ≡ (
  err (os_error plain 9),
  record {
    is_running = false;
    is_closed = true;
    executor = none;
    shut = 4 ∷ [];
    is_read = false;
    ssock_open = false;
    csock = closed_end;
  },
)
unfolding close_loop teardown_self_pipe
last_wins = refl

close_releases_example :
    Closes false false failing with_executor (close_loop failing with_executor)
    × ((close_loop failing (close_loop failing with_executor).1).1
        ≡ (close_loop failing with_executor).1)
close_releases_example = close_releases failing failing with_executor

abbrev no_executors : Executors
no_executors = record {
  is_closed = false;
  default = none;
  shutdown_called = false;
  next = 0;
  made = [];
  shut = [];
  replaced = [];
}

abbrev one_made : Executors
one_made = (begin_shutdown (run_in_executor none (ok tt) no_executors).1).1

one_made-Reach : Reach one_made
one_made-Reach = later (later (start 0) (runs none (ok tt))) begins

told_at_close :
    ((close_executor one_made).shut ≡ 0 ∷ []) × ((close_executor one_made).made ≡ 0 ∷ [])
unfolding close_executor begin_shutdown run_in_executor
told_at_close = (refl, refl)

executors-IsAccounted_example :
    IsAccounted 0 (close_executor one_made)
    × (length (close_executor one_made).made
        ≤ length one_made.made + allowance (one_made.shutdown_called || one_made.is_closed))
executors-IsAccounted_example = executors-IsAccounted 0 one_made-Reach closes
