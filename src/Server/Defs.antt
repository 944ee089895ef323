-- ===== src/Server/Defs.antt =====
-- The attributes of `Server`, and of the loop, the transports and the futures around it. Sockets,
-- connections and futures are numbers; a connection's transport has the connection's number.
use zuvloop.Base.{
  ℕ, Bool, true, false, Option, none, some, List, [], ◌∷◌, ◌==◌, has, erase, discard, if◌then◌else◌,
  Exception,
}
use zuvloop.Base.Int.{ℤ, pos, ◌-ℤ◌}

-- An `asyncio.Future`, as far as a server looks at it.
pub data Status : Type 0 where
  pending finished cancelled : Status

-- `future.done()`
abbrev pub is_done : Status → Bool
is_done pending = false
is_done _ = true

-- `_cleanup_path` and `_cleanup_identity` are set together: the path of the listening UNIX socket
-- and the device and inode that it had when it was bound.
pub record Cleanup : Type 0 where
  pub path : ℕ
  pub device : ℕ
  pub inode : ℕ

pub record State : Type 0 where
  -- the server
  pub sockets : Option (List ℕ)
  pub has_ssl : Bool
  pub backlog : ℕ
  pub active : ℤ
  pub transports : List ℕ
  pub serving : Bool
  pub waiters : Option (List ℕ)
  pub serving_forever : Option ℕ
  pub cleanup : Option Cleanup
  -- the listening sockets: `fileno()` (none for -1), the calls of `listen`, and the accept callbacks
  pub fileno : ℕ → Option ℕ
  pub listened : List ℕ
  pub readers : List ℕ
  -- the accepted connections: whose socket object still holds a descriptor; the native transports
  -- with their flags OPEN and CLOSING, and those whose close callback is still to come; the
  -- connections that a TLS task has not yet handed to a transport, and the next connection's number
  pub views : List ℕ
  pub open_handles : List ℕ
  pub closing : List ℕ
  pub live : List ℕ
  pub tasks : List ℕ
  pub next_connection : ℕ
  -- the futures, and those that a `wait_closed` call still awaits
  pub status : ℕ → Status
  pub next_future : ℕ
  pub waiting : List ℕ
  -- the exceptions passed to the loop's handler, the `call_later` calls of `_start_serving`, and the
  -- paths that were unlinked
  pub reports : List Exception
  pub retries : ℕ
  pub unlinked : List ℕ

-- `Server.__init__`, for given listening sockets and their descriptors, before anything has happened.
unfoldable pub new_server : List ℕ → (ℕ → Option ℕ) → Bool → ℕ → State
new_server socks fileno has_ssl backlog = record {
  sockets = some socks;
  has_ssl = has_ssl;
  backlog = backlog;
  active = pos 0;
  transports = [];
  serving = false;
  waiters = some [];
  serving_forever = none;
  cleanup = none;
  fileno = fileno;
  listened = [];
  readers = [];
  views = [];
  open_handles = [];
  closing = [];
  live = [];
  tasks = [];
  next_connection = 0;
  status = λ _. pending;
  next_future = 0;
  waiting = [];
  reports = [];
  retries = 0;
  unlinked = [];
}

abbrev pub update {ℓ} : {A : Type ℓ} → (ℕ → A) → ℕ → A → ℕ → A
update f i v j = if j == i then v else f j

-- The loop at the end of `_wakeup`.
unfoldable pub settle : List ℕ → (ℕ → Status) → ℕ → Status
settle [] f = f
settle (w ∷ ws) f = settle ws (if is_done (f w) then f else update f w finished)

abbrev pub or_empty : Option (List ℕ) → List ℕ
or_empty none = []
or_empty (some ws) = ws

-- `_wakeup`
unfoldable pub wakeup : State → State
wakeup s = record s { waiters = none; status = settle (or_empty s.waiters) s.status }

abbrev pub is_zero : ℤ → Bool
is_zero (pos n) = n == 0
is_zero _ = false

abbrev pub is_closed : Option (List ℕ) → Bool
is_closed none = true
is_closed (some _) = false

-- The end of `_detach`: the last connection of a closed server.
unfoldable pub wake_if_drained : State → State
wake_if_drained s = if is_zero s.active then (if is_closed s.sockets then wakeup s else s) else s

-- `_detach(transport)`, and `_detach()` for none.
unfoldable pub detach : Option ℕ → State → State
detach none s = wake_if_drained (record s { active = s.active -ℤ pos 1 })
detach (some c) s =
    wake_if_drained (record s { transports = discard c s.transports; active = s.active -ℤ pos 1 })

-- `_attach`
unfoldable pub attach : ℕ → State → State
attach c s = record s { transports = c ∷ discard c s.transports }

-- `shutdownAndClose` of the transport: it disarms the socket object and asks libuv to close.
unfoldable pub shutdown_and_close : ℕ → State → State
shutdown_and_close c s =
    if has c s.open_handles
    then record s { open_handles = discard c s.open_handles; views = discard c s.views }
    else s

-- `closeTransport`, where `buffered` is its write buffer's size once it has tried to flush.
unfoldable pub close_transport : ℕ → ℕ → State → State
close_transport buffered c s =
    if has c s.closing
    then s
    else let marked = record s { closing = c ∷ s.closing } in
      if buffered == 0 then shutdown_and_close c marked else marked

-- `abort`, that is `forceClose`: what is buffered is thrown away.
unfoldable pub abort : ℕ → State → State
abort c s = shutdown_and_close c (record s { closing = c ∷ discard c s.closing })

-- `onClosed`, libuv's close callback, for a transport of the server that is still live.
unfoldable pub on_closed : ℕ → State → State
on_closed c s = detach (some c) (record s { live = erase c s.live })
