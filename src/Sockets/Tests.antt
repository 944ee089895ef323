-- ===== src/Sockets/Tests.antt =====
-- The theorems on the `sock_*` calls at concrete data.
use zuvloop.Sockets.Connecting.{sock_connect_ends}
use zuvloop.Sockets.Dialing.{host_and_port, sock_connect, check_address}
use zuvloop.Base.{
  ◌==◌, if◌then◌else◌, OsKind, os_error, refl, ℕ, ◌≡◌, true, false, none, some, List, [], ◌∷◌,
  arith, Result, ok, err, blocking_io, plain, value_error,
}
use zuvloop.Sockets.Retrying.{
  retry_ready_foreign, sock_sendall_total, sock_sendall-IsPrefix, IsPrefix,
}
use zuvloop.Sockets.Watching.{watch_holds, unwatches, watches, run, Event}
use zuvloop.Sockets.Defs.{
  unwatch, failed, pending, sent_all, settled, sendall_from, watch, Watchers, retry_ready,
  sock_sendall,
}

abbrev nobody : Watchers
nobody = record { owner = λ _ _. none; registered = λ _ _. none; next_token = 0 }

-- A call waits to read descriptor 5 and is cancelled; before its clean-up runs, the next one waits.
abbrev first : Watchers
first = (watch 5 false nobody).1

late : List Event
late = watches 5 true ∷ unwatches 5 false 0 ∷ []

watch_holds_example :
    ((run late (watch 5 false first).1).registered 5 false ≡ some 1)
    × ((unwatch 5 false 1 (run late (watch 5 false first).1)).registered 5 false ≡ none)
unfolding late watch
watch_holds_example = watch_holds 5 false late first (refl, (refl, tt))

blocked : Result ℕ
blocked = err (os_error blocking_io 11)

retry_ready_foreign_example :
    (retry_ready {A = ℕ} (err (value_error "closed") ∷ []) ≡ settled (err (value_error "closed")))
    × (retry_ready (blocked ∷ err (value_error "closed") ∷ []) ≡ pending)
unfolding blocked
retry_ready_foreign_example =
    retry_ready_foreign blocked (value_error "closed") [] refl (refl, refl) tt

sock_sendall-IsPrefix_example :
    IsPrefix (1 ∷ 2 ∷ 3 ∷ []) (sock_sendall (1 ∷ 2 ∷ 3 ∷ []) (ok 2 ∷ err (os_error plain 32) ∷ []))
sock_sendall-IsPrefix_example =
    sock_sendall-IsPrefix (1 ∷ 2 ∷ 3 ∷ []) (ok 2 ∷ err (os_error plain 32) ∷ [])

broken_pipe :
    sock_sendall (1 ∷ 2 ∷ 3 ∷ []) (ok 2 ∷ err (os_error plain 32) ∷ [])
    ≡ failed (os_error plain 32) (1 ∷ 2 ∷ [])
unfolding sock_sendall sendall_from
broken_pipe = refl

sock_sendall_total_example :
    sock_sendall (1 ∷ 2 ∷ 3 ∷ []) (ok 2 ∷ ok 1 ∷ []) ≡ sent_all (1 ∷ 2 ∷ 3 ∷ [])
sock_sendall_total_example = sock_sendall_total (1 ∷ 2 ∷ 3 ∷ []) (ok 2 ∷ ok 1 ∷ []) (omega arith)

-- Every number but 11 is a plain OSError's.
abbrev kinds : ℕ → OsKind
kinds number = if number == 11 then blocking_io else plain

sock_connect_ends_example :
    (sock_connect kinds
        (some 0)
        true
        host_and_port
        (ok tt)
        (err (os_error blocking_io 115))
        (ok 11 ∷ ok 0 ∷ [])
      ≡ settled (ok tt))
    × (sock_connect kinds
          (some 0)
          true
          host_and_port
          (ok tt)
          (err (os_error blocking_io 115))
          (ok 11 ∷ ok 111 ∷ [])
        ≡ settled (err (os_error plain 111)))
unfolding check_address
sock_connect_ends_example =
    sock_connect_ends kinds true host_and_port (ok tt) (os_error blocking_io 115) (ok 11 ∷ []) []
      111 refl refl refl ((refl, refl), tt) refl refl
