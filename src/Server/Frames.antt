-- ===== src/Server/Frames.antt =====
-- What setting up and closing transports leaves of a server's waiters.
use zuvloop.Base.{ℕ, ◌∷◌, arith, erase, discard}
use zuvloop.Server.Defs.{State, attach, shutdown_and_close, close_transport, abort}
use zuvloop.Server.Accept.{Setup, attach_transport, accept_connection, Handshake, wrap_accepted}
use zuvloop.Server.Waking.{Frame}

pub Frame-refl : (s : State) → Frame s s
Frame-refl s = ground arith

pub shutdown-Frame : (c : ℕ) (s : State) → Frame s (shutdown_and_close c s)
unfolding shutdown_and_close
shutdown-Frame c s = ground arith

pub close_transport-Frame : (buffered c : ℕ) (s : State) → Frame s (close_transport buffered c s)
unfolding close_transport shutdown_and_close
close_transport-Frame buffered c s = ground arith

pub abort-Frame : (c : ℕ) (s : State) → Frame s (abort c s)
unfolding abort shutdown_and_close
abort-Frame c s = ground arith

pub attach_transport-Frame :
    (setup : Setup) (c : ℕ) (s : State) → Frame s (attach_transport setup c s).1
unfolding attach_transport attach
attach_transport-Frame (Setup.factory_raises e) c s = ground arith
attach_transport-Frame (Setup.make_raises e) c s = ground arith
attach_transport-Frame (Setup.adopt_raises e) c s =
    let made = record s {
      live = c ∷ s.live;
      open_handles = c ∷ s.open_handles;
      views = discard c s.views;
    } in
    ground (arith, abort-Frame c made)
attach_transport-Frame Setup.attached c s = ground arith

pub accept_connection-Frame :
    (setup : Setup) (c : ℕ) (s : State) → Frame s (accept_connection setup c s).1
unfolding accept_connection
accept_connection-Frame setup c s = ground (arith, attach_transport-Frame setup c s)

pub wrap_accepted-Frame :
    (handshake : Handshake) (c : ℕ) (s : State) → Frame s (wrap_accepted handshake c s).1
unfolding wrap_accepted
wrap_accepted-Frame (Handshake.setup_raises e) c s =
    let s' = record s { tasks = erase c s.tasks } in
    ground (arith, attach_transport-Frame (Setup.make_raises e) c s')
wrap_accepted-Frame (Handshake.adopt_raises e) c s =
    let s' = record s { tasks = erase c s.tasks } in
    ground (arith, attach_transport-Frame (Setup.adopt_raises e) c s')
wrap_accepted-Frame (Handshake.handshake_raises e buffered) c s =
    let s' = record s { tasks = erase c s.tasks } in
    ground (
      arith,
      attach_transport-Frame Setup.attached c s',
      close_transport-Frame buffered c (attach_transport Setup.attached c s').1,
    )
wrap_accepted-Frame Handshake.established c s =
    let s' = record s { tasks = erase c s.tasks } in
    ground (arith, attach_transport-Frame Setup.attached c s')
