-- ===== src/Server/Tests.antt =====
-- The server's theorems at concrete states, and runs of its operations.
use zuvloop.Server.Steps.{
  AllDone, AllFlushed, closed_wakes, woken_is_over, Step, here, next, Reach, active_counts,
}
use zuvloop.Server.Faults.{close-IsOwn, IsOwn, accept_tls_double_detach}
use zuvloop.Server.Defs.{
  Cleanup, wake_if_drained, detach, settle, wakeup, close_transport, shutdown_and_close, attach,
  abort, on_closed, State, new_server,
}
use zuvloop.Server.Accept.{
  report, tls_failed, disown, accept_rounds, is_exhausted, Handshake, refuse, wrap_accepted,
  accept_tls, add_readers, attach_transport, listen_all, accept_connection, Setup, take_in,
  start_serving, Errnos, Listening, accept, Arrival,
}
use zuvloop.Server.Rounds.{accept_retry, accept_bounded}
use zuvloop.Base.{
  os_error, cancelled, refl, ℕ, ◌+◌, ◌≤◌, ◌≡◌, true, false, Option, none, some, List, [], ◌∷◌,
  arith, has, length, is_none, ok, err, plain, runtime_error,
}
use zuvloop.Server.Shut.{close_stops}
use zuvloop.Server.Close.{
  unlink_own, close_sockets, cancel_serving, close_listening, FileSystem, close,
}
use zuvloop.Server.Counting.{IsCounted}
use zuvloop.Server.Waiting.{wait_closed}
use zuvloop.Base.Int.{pos, negsuc, ◌+ℤ◌, ◌-ℤ◌}

abbrev fd_of : ℕ → Option ℕ
fd_of sock = some (sock + 3)

abbrev fresh_server : State
fresh_server = new_server (1 ∷ []) fd_of false 2

abbrev tls_server : State
tls_server = new_server (1 ∷ 2 ∷ []) fd_of true 2

abbrev fs : FileSystem
fs = record { stat = λ _. ok (5, 6); unlink = λ _. ok tt }

abbrev errnos : Errnos
errnos = record { emfile = 24; enfile = 23; enobufs = 105; enomem = 12 }

abbrev listening : Listening
listening = record { listen = λ _. ok tt; add_reader = λ _. ok tt }

-- One connection, whose transport is attached, and a caller of `wait_closed`.
busy : State
busy = (wait_closed (take_in Setup.attached fresh_server).1).1

-- The server is closed, then the connection is aborted, and its close callback runs.
over : State
over = on_closed 0 (abort 0 (close fs busy).1)

busy-Reach : Reach fresh_server busy
unfolding busy new_server
busy-Reach = next (next here (Step.connection Setup.attached refl)) Step.waits

over-Reach : Reach fresh_server over
unfolding busy over new_server take_in accept_connection attach_transport attach wait_closed close
    close_listening cancel_serving close_sockets unlink_own abort shutdown_and_close ◌+ℤ◌
over-Reach =
    next (next (next busy-Reach (Step.closes fs)) (Step.client_aborts 0 refl)) (Step.closed 0 refl)

busy-AllFlushed : AllFlushed busy-Reach
unfolding busy busy-Reach new_server
busy-AllFlushed = ((tt, tt), tt)

over-AllFlushed : AllFlushed over-Reach
unfolding busy over busy-Reach over-Reach new_server take_in accept_connection attach_transport
    attach wait_closed close close_listening cancel_serving close_sockets unlink_own abort
    shutdown_and_close ◌+ℤ◌
over-AllFlushed = ((((((tt, tt), tt)), tt), tt), tt)

active_counts_example : busy.active ≡ pos (length busy.live + length busy.tasks)
active_counts_example = active_counts (1 ∷ []) fd_of false 2 busy-Reach busy-AllFlushed

busy-active : busy.active ≡ pos 1
unfolding busy new_server take_in accept_connection attach_transport attach wait_closed ◌+ℤ◌
busy-active = refl

closed_wakes_example : (over.waiters ≡ none) × AllDone over.status over.waiting
unfolding busy over new_server take_in accept_connection attach_transport attach wait_closed close
    close_listening cancel_serving close_sockets unlink_own abort shutdown_and_close on_closed
    detach wake_if_drained wakeup settle ◌+ℤ◌ ◌-ℤ◌
closed_wakes_example = closed_wakes (1 ∷ []) fd_of false 2 over-Reach over-AllFlushed refl refl refl

woken_is_over_example : (over.sockets ≡ none) × (over.live ≡ []) × (over.tasks ≡ [])
unfolding busy over new_server take_in accept_connection attach_transport attach wait_closed close
    close_listening cancel_serving close_sockets unlink_own abort shutdown_and_close on_closed
    detach wake_if_drained wakeup settle ◌+ℤ◌ ◌-ℤ◌
woken_is_over_example = woken_is_over (1 ∷ []) fd_of false 2 over-Reach over-AllFlushed refl

-- Three connections wait, and one round takes two of them in; the second one's factory raises.
arrivals : List Arrival
arrivals =
    Arrival.connected Setup.attached
    ∷ Arrival.connected (Setup.factory_raises (runtime_error "factory"))
    ∷ Arrival.connected Setup.attached
    ∷ []

accept_bounded_example :
    (accept errnos 1 arrivals fresh_server).1.next_connection
    ≤ fresh_server.next_connection + fresh_server.backlog
accept_bounded_example = accept_bounded errnos 1 arrivals fresh_server

accept-failing_factory : (accept errnos 1 arrivals fresh_server).0 ≡ err (runtime_error "factory")
unfolding arrivals new_server take_in accept_connection attach_transport attach accept accept_rounds
    disown detach ◌+ℤ◌ ◌-ℤ◌ wake_if_drained
accept-failing_factory = refl

serving_server : State
serving_server = (start_serving listening fresh_server).1

accept_retry_example :
    let s' = (refuse errnos 1 (os_error plain 24) serving_server).1 in
    let s'' = (start_serving listening s').1 in
    (has 1 s'.readers ≡ false)
    × (s'.retries ≡ serving_server.retries + 1)
    × (s'.active ≡ serving_server.active)
    × (has 1 s''.readers ≡ true)
    × (s''.listened ≡ serving_server.listened)
unfolding serving_server new_server start_serving listen_all add_readers refuse is_exhausted
accept_retry_example =
    accept_retry errnos listening (1 ∷ []) 1 (os_error plain 24) serving_server refl refl refl refl
      refl refl

close_stops_example :
    let s' = (close fs serving_server).1 in
    (s'.sockets ≡ none)
    × (s'.serving ≡ false)
    × (has 1 s'.readers ≡ false)
    × (is_none (s'.fileno 1) ≡ true)
    × (s'.transports ≡ serving_server.transports)
unfolding serving_server new_server start_serving listen_all add_readers
close_stops_example = close_stops fs (1 ∷ []) 1 serving_server refl refl refl

abbrev unix_server : State
unix_server = record (new_server (1 ∷ []) fd_of false 2) {
  cleanup = some (record { path = 9; device = 5; inode = 6 });
}

close-IsOwn_example : (c : Cleanup) × (unix_server.cleanup ≡ some c) × (c.path ≡ 9) × IsOwn fs c
unfolding new_server close close_listening cancel_serving close_sockets unlink_own wakeup settle
close-IsOwn_example = close-IsOwn fs unix_server 9 refl refl

-- A TLS connection was accepted, and its task has not made the transport yet.
handshaking : State
handshaking = (take_in Setup.attached tls_server).1

handshaking-IsCounted : IsCounted handshaking
unfolding handshaking new_server take_in accept_connection ◌+ℤ◌
handshaking-IsCounted = ground arith

accept_tls_double_detach_example :
    let s' = (accept_tls (Handshake.handshake_raises cancelled 4) 0 handshaking).1 in
    (has 0 s'.live ≡ true) × (s'.active +ℤ pos 1 ≡ pos (length s'.live + length s'.tasks))
unfolding handshaking new_server take_in accept_connection
accept_tls_double_detach_example =
    accept_tls_double_detach cancelled 3 0 handshaking handshaking-IsCounted refl

-- Here the close callback then takes the count below zero.
double_detach_run :
    (on_closed 0 (
      shutdown_and_close 0
        (accept_tls (Handshake.handshake_raises cancelled 4) 0 handshaking).1)).active
    ≡ negsuc 0
unfolding handshaking new_server take_in accept_connection accept_tls wrap_accepted attach_transport
    attach close_transport tls_failed report detach wake_if_drained on_closed shutdown_and_close
    ◌+ℤ◌ ◌-ℤ◌
double_detach_run = refl
