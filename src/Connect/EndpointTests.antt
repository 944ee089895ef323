-- ===== src/Connect/EndpointTests.antt =====
-- The theorem on the calls that make endpoints at concrete data, and some runs.
use zuvloop.Base.{
  Below, ◌||◌, has, Result, os_error, value_error, plain, refl, ◌≡◌, true, false, none, some, [],
  ◌∷◌, arith, ok, err,
}
use zuvloop.Connect.Piping.{
  fifo, write_end, PipeAnswers, Pipes, connect_pipe, prepare_pipe, watches,
}
use zuvloop.Connect.Piped.{left_open, IsPiped, IsUnwatched, connect_pipe_opened}
use zuvloop.Connect.Served.{servers_opened, lost, listens_on}
use zuvloop.Connect.Checks.{
  check_server_ssl, choose, check_ssl_timeouts, check_ssl_args, no_ssl, start_connection,
}
use zuvloop.Connect.Serving.{Surroundings, start_unix_server, create_unix_server, create_server}
use zuvloop.Connect.Binding.{no_host, Asked, named}
use zuvloop.Connect.Defs.{raised, connect_one, connect_each, connect_tcp, Files}
use zuvloop.Connect.Creating.{
  wrap_socket, create_unix_connection, handed_over, before_adoption, create_connection, World,
}
use zuvloop.Connect.Handing.{endpoints_opened, DatagramLeft}
use zuvloop.Connect.Datagram.{
  prepare_datagram, resolve_datagram, datagram_addresses, pair, bind_datagram,
  create_datagram_endpoint, Datagram,
}
use zuvloop.Connect.Leaving.{IsLeft}

abbrev first_opened : Files
first_opened = record { opened = 1 ∷ []; next = 2 }

-- The address connects, but the protocol factory raises.
abbrev failing : World
failing = record {
  kind_of = λ number. plain;
  race = none;
  text = λ e. 0;
  stream = 1;
  infos = ok (
      (
        record { family = 2; address = 20 },
        record { socket = ok tt; bind = λ i. ok tt; connect = ok tt },
      )
      ∷ []);
  locals = none;
  handover = before_adoption (value_error "factory");
}

-- An endpoint with a local address, of which nothing fails.
abbrev bound_here : Datagram
bound_here = record {
  local_addr = some (pair (ok (record { family = 2; address = 7 } ∷ [])));
  remote_addr = none;
  family = 0;
  is_unix = false;
  unix_local = record { family = 1; address = 0 };
  unix_remote = record { family = 1; address = 0 };
  other_modifiers = false;
  reuse_port = true;
  allow_broadcast = false;
  socket = ok tt;
  set_reuse_port = ok tt;
  set_broadcast = ok tt;
  bind = λ i. ok tt;
  connect = λ i. ok tt;
  handover = handed_over;
}

factory_raises :
    create_connection failing no_ssl none
      (some (named 3))
      (some 80)
      none
      none
      none
      false
      first_opened
    ≡ (raised (value_error "factory"), record { opened = 1 ∷ []; next = 3 })
unfolding create_connection start_connection check_ssl_args check_ssl_timeouts choose connect_tcp
    connect_each connect_one wrap_socket
factory_raises = refl

bound_ok :
    create_datagram_endpoint bound_here 2 none first_opened
    ≡ (ok (2, false), record { opened = 2 ∷ 1 ∷ []; next = 3 })
unfolding create_datagram_endpoint bind_datagram datagram_addresses resolve_datagram
    prepare_datagram
bound_ok = refl

endpoints_opened_example :
    IsLeft (1 ∷ []) (
      create_connection failing no_ssl none
        (some (named 3))
        (some 80)
        none
        none
        none
        false
        first_opened)
    × IsLeft (1 ∷ []) (
        create_unix_connection failing 1 true no_ssl none
          (some 5)
          none
          none
          none
          (ok tt)
          (err (os_error plain 2))
          first_opened)
    × DatagramLeft (1 ∷ []) (create_datagram_endpoint bound_here 2 none first_opened)
endpoints_opened_example =
    endpoints_opened failing bound_here no_ssl none (some (named 3)) (some 80) (some 5) none none
      false 1 2 true (ok tt) (err (os_error plain 2)) first_opened (omega arith, tt) refl tt tt

-- Nothing fails but the bind of the Unix path.
abbrev around : Result (Unit {0}) → Surroundings
around bind = record {
  stream = 1;
  unix = 1;
  in_use = 98;
  kind_of = λ number. plain;
  getaddrinfo = λ host. ok (record { family = 2; address = 7 } ∷ []);
  system = record { socket = λ i. ok tt; setsockopt = λ i o. ok tt; bind = λ i. ok tt };
  socket = ok tt;
  bind = bind;
  stat = ok 12;
  started = ok tt;
}

abbrev plainly : Asked
plainly = record {
  reuse_address = none;
  reuse_port = false;
  keep_alive = false;
  is_posix = true;
  has_reuse_port = true;
  has_ipv6 = true;
  af_inet6 = 10;
}

-- A path that is taken leaves nothing open, one that cannot be encoded does.
taken_closed :
    create_unix_server
      (around (err (os_error plain 98)))
      no_ssl
      true
      false
      true
      none
      none
      none
      true
      first_opened
    ≡ (err (os_error plain 98), record { opened = 1 ∷ []; next = 3 })
unfolding create_unix_server start_unix_server check_server_ssl check_ssl_timeouts choose
taken_closed = refl

unencodable_lost :
    create_unix_server
      (around (err (value_error "encode")))
      no_ssl
      true
      false
      true
      none
      none
      none
      true
      first_opened
    ≡ (err (value_error "encode"), record { opened = 2 ∷ 1 ∷ []; next = 3 })
unfolding create_unix_server start_unix_server check_server_ssl check_ssl_timeouts choose
unencodable_lost = refl

servers_opened_example :
    let w = around (err (value_error "encode")) in
    let tcp = create_server w no_ssl no_host (some 80) plainly none none none true first_opened in
    let unix = create_unix_server w no_ssl true false true none none none true first_opened in
    (has 2 tcp.1.opened ≡ (has 2 (listens_on tcp.0) || has 2 (1 ∷ [])))
    × (has 2 unix.1.opened ≡ (
        has 2 (listens_on unix.0)
        || (has 2 (
              lost
                (start_unix_server w no_ssl true none none none)
                (ok tt)
                (err (value_error "encode"))
                2)
            || has 2 (1 ∷ []))))
servers_opened_example =
    servers_opened 2 (around (err (value_error "encode"))) no_ssl no_host (some 80) plainly none
      none true true false true first_opened (omega arith, tt)

-- The write end of a FIFO, of which nothing fails.
abbrev to_reader : PipeAnswers
to_reader = record {
  has_no_event = false;
  is_aix = false;
  fileno = ok 1;
  fstat = ok (fifo, 0);
  set_blocking = ok tt;
  protocol_factory = ok tt;
  dup = ok tt;
  make_transport = ok tt;
  add_reader = ok tt;
  ready = ok tt;
  unsent = 0;
}

abbrev one_pipe : Pipes
one_pipe = record { opened = 1 ∷ 0 ∷ []; next = 2; readers = 0 ∷ [] }

one_pipe-Below : Below 2 (1 ∷ 0 ∷ [])
one_pipe-Below = (omega arith, (omega arith, tt))

hangup_watched : connect_pipe write_end to_reader one_pipe ≡ (
  ok (record { pipe = 1; duplicate = 2; has_watch = true }),
  record { opened = 2 ∷ 1 ∷ 0 ∷ []; next = 3; readers = 1 ∷ 0 ∷ [] },
)
unfolding connect_pipe prepare_pipe watches
hangup_watched = refl

one_pipe-IsUnwatched : IsUnwatched (prepare_pipe write_end to_reader) (0 ∷ [])
unfolding prepare_pipe watches
one_pipe-IsUnwatched = refl

connect_pipe_opened_example :
    IsPiped
      (left_open (prepare_pipe write_end to_reader) (ok tt) (1 ∷ 0 ∷ []))
      one_pipe
      (connect_pipe write_end to_reader one_pipe)
connect_pipe_opened_example =
    connect_pipe_opened write_end to_reader one_pipe one_pipe-Below one_pipe-IsUnwatched refl
