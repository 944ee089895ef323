-- ===== src/Server/Waiting.antt =====
-- The coroutines `wait_closed` and `serve_forever`, cut where they wait.
use zuvloop.Base.{
  ℕ, ◌+◌, Option, none, some, [], ◌∷◌, ◌++◌, ◌&&◌, erase, if◌then◌else◌, is_none, is_some,
  runtime_error, Result, ok, err,
}
use zuvloop.Server.Defs.{State, pending, update, is_zero, is_closed}
use zuvloop.Server.Accept.{Listening, start_serving}

-- `create_future`
abbrev pub fresh : State → State
fresh s = record s {
  status = update s.status s.next_future pending;
  next_future = s.next_future + 1;
}

-- `wait_closed` up to its `await`: none if it returns at once, or the future that it awaits.
unfoldable pub wait_closed : State → Option ℕ × State
wait_closed s = elim s.waiters [
  | none ↦ (none, s)
  | some ws ↦
      if is_closed s.sockets && is_zero s.active
      then (none, s)
      else let w = s.next_future in
        (some w, record (fresh s) { waiters = some (ws ++ (w ∷ [])); waiting = w ∷ s.waiting })
]

-- Its `finally`, when the future is done or the waiting task was cancelled.
unfoldable pub wait_closed_end : ℕ → State → State
wait_closed_end w s = elim s.waiters [
  | none ↦ record s { waiting = erase w s.waiting }
  | some ws ↦ record s { waiters = some (erase w ws); waiting = erase w s.waiting }
]

-- `serve_forever` up to its first `await`.
unfoldable pub serve_forever : Listening → State → Result ℕ × State
serve_forever w s =
    if is_some s.serving_forever
    then (err (runtime_error "server is already being awaited on serve_forever()"), s)
    else if is_none s.sockets
    then (err (runtime_error "server is closed"), s)
    else let (r, s') = if s.serving then (ok tt, s) else start_serving w s in
      elim r [
        | err e ↦ (err e, s')
        | ok _ ↦ (ok s'.next_future, record (fresh s') { serving_forever = some s'.next_future })
      ]

-- Its last `finally`.
unfoldable pub serve_forever_end : State → State
serve_forever_end s = record s { serving_forever = none }
