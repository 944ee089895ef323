-- ===== src/Connect/Upgrading.antt =====
-- `start_tls` of `_connect.py`, up to its await, what the loop does in between, and after it.
use zuvloop.Base.{
  type_error, runtime_error, raise_if, ◌>>◌, ℕ, Bool, true, false, not, ◌&&◌, ◌||◌, List, [], ◌∷◌,
  ◌++◌, Result, ok, err,
}

-- A callback of the call's: `ssl_protocol.connection_made` or `stream.resume_reading`.
pub data Upgrader : Type 0 where
  makes_connection resumes_reading : Upgrader

-- A stream with its protocol: `is_tls` says that the protocol is the SSLProtocol, `is_made` that its
-- `connection_made` was called. The bytes received are in the buffer of the StreamReader, in the incoming buffer of
-- the SSLProtocol or not read yet, and `callbacks` are those of the call that wait to be
-- run.
pub record Upgrade : Type 0 where
  pub is_reading : Bool
  pub is_shut : Bool
  pub is_tls : Bool
  pub is_made : Bool
  pub reader_paused : Bool
  pub reader : List ℕ
  pub incoming : List ℕ
  pub unread_bytes : List ℕ
  pub callbacks : List Upgrader

-- What the call is given: whether `sslcontext` and `transport` have the types that it wants, what the
-- constructor of SSLProtocol answers, the side, and whether the protocol is a StreamReaderProtocol with a reader.
pub record UpgradeCall : Type 0 where
  pub is_context : Bool
  pub is_duplex : Bool
  pub made_protocol : Result (Unit {0})
  pub server_side : Bool
  pub has_reader : Bool

abbrev pub has_bytes : List ℕ → Bool
has_bytes [] = false
has_bytes (b ∷ bytes) = true

-- The bytes that the StreamReader has already read go to the SSLProtocol.
abbrev pub moved_if : Bool → Upgrade → Upgrade
moved_if false s = s
moved_if true s = record s { incoming = s.incoming ++ s.reader; reader = []; reader_paused = false }

-- A new SSLProtocol has an empty buffer and no connection yet.
abbrev pub upgrade_by : UpgradeCall → Result (Unit {0}) → Upgrade → Result (Unit {0}) × Upgrade
upgrade_by w (err e) s = (err e, s)
upgrade_by w (ok _) s =
    let moved =
      moved_if (w.server_side && (w.has_reader && has_bytes s.reader))
        (record s { is_reading = false; is_made = false; incoming = [] }) in
    (ok tt, record moved { is_tls = true; callbacks = makes_connection ∷ resumes_reading ∷ [] })

-- `start_tls` up to its await.
unfoldable pub begin_tls : UpgradeCall → Upgrade → Result (Unit {0}) × Upgrade
begin_tls w s =
    upgrade_by w
      (raise_if (not w.is_context)
          (type_error "sslcontext is expected to be an instance of ssl.SSLContext")
        >> (raise_if (not w.is_duplex)
              (type_error "transport must support both reading and writing")
            >> w.made_protocol))
      s

-- What the loop does meanwhile: it runs the next callback, bytes arrive, and it reads what has arrived.
pub data LoopTurn : Type 0 where
  calls_next reads_ready : LoopTurn
  arrives : List ℕ → LoopTurn

abbrev pub call_next : List Upgrader → Upgrade → Upgrade
call_next [] s = s
call_next (makes_connection ∷ callbacks) s = record s { is_made = true; callbacks = callbacks }
call_next (resumes_reading ∷ callbacks) s = record s {
  is_reading = not s.is_shut || s.is_reading;
  callbacks = callbacks;
}

-- What is read goes to the stream's protocol.
abbrev pub read_to : Bool → Bool → Upgrade → Upgrade
read_to false is_tls s = s
read_to true true s = record s { incoming = s.incoming ++ s.unread_bytes; unread_bytes = [] }
read_to true false s = record s { reader = s.reader ++ s.unread_bytes; unread_bytes = [] }

unfoldable pub turn : LoopTurn → Upgrade → Upgrade
turn calls_next s = call_next s.callbacks s
turn reads_ready s = read_to s.is_reading s.is_tls s
turn (arrives bytes) s = record s { unread_bytes = s.unread_bytes ++ bytes }

unfoldable pub turn_all : List LoopTurn → Upgrade → Upgrade
turn_all [] s = s
turn_all (t ∷ ts) s = turn_all ts (turn t s)

-- `start_tls` after its await: `_app_transport` is a transport or, which asyncio excludes, is not. A handle that is
-- cancelled is not run.
unfoldable pub end_tls : Result (Unit {0}) → Bool → Upgrade → Result (Unit {0}) × Upgrade
end_tls (err e) is_transport s =
    (err e, record s { callbacks = []; is_shut = true; is_reading = false })
end_tls (ok _) is_transport s = (
  raise_if (not is_transport) (runtime_error "TLS setup did not create an application transport"),
  s,
)
