-- ===== src/Connect/Upgraded.antt =====
-- What `start_tls` makes of the bytes of a stream.
use zuvloop.Base.{
  ◌>>◌, if◌then◌else◌, ok, append_assoc, type_error, err, sym, ◌||◌, raise_if, ◌&&◌, not, Result,
  ◌∙◌, refl, ap, ◌≡◌, ℕ, Bool, true, false, List, [], ◌∷◌, ◌++◌, append-nil, arith,
}
use zuvloop.Connect.Upgrading.{
  has_bytes, upgrade_by, end_tls, begin_tls, turn_all, moved_if, UpgradeCall, Upgrade, Upgrader,
  makes_connection, resumes_reading, LoopTurn, calls_next, reads_ready, arrives, call_next, read_to,
  turn,
}

-- The bytes that arrive.
abbrev pub arriving : List LoopTurn → List ℕ
arriving [] = []
arriving (arrives bytes ∷ ts) = bytes ++ arriving ts
arriving (calls_next ∷ ts) = arriving ts
arriving (reads_ready ∷ ts) = arriving ts

-- All bytes, in the order in which they came.
abbrev pub all_bytes : Upgrade → List ℕ
all_bytes s = s.reader ++ (s.incoming ++ s.unread_bytes)

-- The callbacks come in order, and the stream does not read before `connection_made`.
abbrev AreOrdered : List Upgrader → Bool → Bool → Type 0
AreOrdered [] made reading = made ≡ true
AreOrdered (resumes_reading ∷ []) made reading = (made ≡ true) × (reading ≡ false)
AreOrdered (makes_connection ∷ resumes_reading ∷ []) made reading = reading ≡ false
AreOrdered callbacks made reading = ⊥

record IsUnderway (reader : List ℕ) (s : Upgrade) : Type 0 where
  kept : s.reader ≡ reader
  tls : s.is_tls ≡ true
  ordered : AreOrdered s.callbacks s.is_made s.is_reading

call_next-IsUnderway :
    (reader : List ℕ) (callbacks : List Upgrader) (s : Upgrade)
    → s.callbacks ≡ callbacks
    → IsUnderway reader s
    → AreOrdered callbacks s.is_made s.is_reading
    → IsUnderway reader (call_next callbacks s) × (all_bytes (call_next callbacks s) ≡ all_bytes s)
call_next-IsUnderway reader [] s e h o = (h, refl)
call_next-IsUnderway reader (resumes_reading ∷ []) s e h o =
    (record { kept = h.kept; tls = h.tls; ordered = o.0 }, refl)
call_next-IsUnderway reader (makes_connection ∷ resumes_reading ∷ []) s e h o =
    (record { kept = h.kept; tls = h.tls; ordered = (refl, o) }, refl)
call_next-IsUnderway reader (resumes_reading ∷ c ∷ cs) s e h o = absurd o
call_next-IsUnderway reader (makes_connection ∷ []) s e h o = absurd o
call_next-IsUnderway reader (makes_connection ∷ makes_connection ∷ cs) s e h o = absurd o
call_next-IsUnderway reader (makes_connection ∷ resumes_reading ∷ c ∷ cs) s e h o = absurd o

read_to-IsUnderway :
    (reader : List ℕ) (reading tls : Bool) (s : Upgrade)
    → tls ≡ true
    → IsUnderway reader s
    → IsUnderway reader (read_to reading tls s) × (all_bytes (read_to reading tls s) ≡ all_bytes s)
read_to-IsUnderway reader false tls s e h = (h, refl)
read_to-IsUnderway reader true true s e h = (
  record { kept = h.kept; tls = h.tls; ordered = h.ordered },
  ap (λ l. s.reader ++ l) (append-nil (s.incoming ++ s.unread_bytes)),
)
read_to-IsUnderway reader true false s e h = absurd (ground (arith, e))

turn-IsUnderway :
    (reader : List ℕ) (t : LoopTurn) (s : Upgrade)
    → IsUnderway reader s
    → IsUnderway reader (turn t s) × (all_bytes (turn t s) ≡ all_bytes s ++ arriving (t ∷ []))
unfolding turn
turn-IsUnderway reader calls_next s h =
    let (o, e) = call_next-IsUnderway reader s.callbacks s refl h h.ordered in
    (o, e ∙ sym (append-nil (all_bytes s)))
turn-IsUnderway reader reads_ready s h =
    let (o, e) = read_to-IsUnderway reader s.is_reading s.is_tls s h.tls h in
    (o, e ∙ sym (append-nil (all_bytes s)))
turn-IsUnderway reader (arrives bytes) s h =
    (record { kept = h.kept; tls = h.tls; ordered = h.ordered }, simp (append_assoc, append-nil))

arriving-append :
    (t : LoopTurn) (ts : List LoopTurn) → arriving (t ∷ []) ++ arriving ts ≡ arriving (t ∷ ts)
arriving-append calls_next ts = refl
arriving-append reads_ready ts = refl
arriving-append (arrives bytes) ts = ap (λ l. l ++ arriving ts) (append-nil bytes)

turn_all-IsUnderway :
    (reader : List ℕ) (ts : List LoopTurn) (s : Upgrade)
    → IsUnderway reader s
    → IsUnderway reader (turn_all ts s) × (all_bytes (turn_all ts s) ≡ all_bytes s ++ arriving ts)
unfolding turn_all
turn_all-IsUnderway reader [] s h = (h, sym (append-nil (all_bytes s)))
turn_all-IsUnderway reader (t ∷ ts) s h =
    let (o, e) = turn-IsUnderway reader t s h in
    let (o', e') = turn_all-IsUnderway reader ts (turn t s) o in
    (
      o',
      e'
          ∙ ap (λ l. l ++ arriving ts) e
          ∙ append_assoc (all_bytes s) (arriving (t ∷ [])) (arriving ts)
          ∙ ap (λ l. all_bytes s ++ l) (arriving-append t ts),
    )

AreOrdered-made :
    (callbacks : List Upgrader) (made reading : Bool)
    → AreOrdered callbacks made reading
    → (not reading || made) ≡ true
AreOrdered-made [] made reading h = ground (arith, h)
AreOrdered-made (resumes_reading ∷ []) made reading h = ground (arith, h)
AreOrdered-made (makes_connection ∷ resumes_reading ∷ []) made reading h = ground (arith, h)
AreOrdered-made (resumes_reading ∷ c ∷ cs) made reading h = absurd h
AreOrdered-made (makes_connection ∷ []) made reading h = absurd h
AreOrdered-made (makes_connection ∷ makes_connection ∷ cs) made reading h = absurd h
AreOrdered-made (makes_connection ∷ resumes_reading ∷ c ∷ cs) made reading h = absurd h

-- A call that raises has closed the stream and cancelled its callbacks; one that does not has left it as it was.
abbrev pub Ends : Result (Unit {0}) → Upgrade → Result (Unit {0}) × Upgrade → Type 0
Ends (err e) s (r, s') =
    (r ≡ err e)
    × (s'.callbacks ≡ [])
    × (s'.is_shut ≡ true)
    × (s'.is_reading ≡ false)
    × (all_bytes s' ≡ all_bytes s)
Ends (ok u) s (r, s') = s' ≡ s

end_tls-Ends :
    (waiter : Result (Unit {0})) (is_transport : Bool) (s : Upgrade)
    → Ends waiter s (end_tls waiter is_transport s)
unfolding end_tls
end_tls-Ends (err e) is_transport s = (refl, refl, refl, refl, refl)
end_tls-Ends (ok u) is_transport s = refl

-- A call that is refused changes nothing. Otherwise, once the loop has made these turns: no byte is lost, doubled or
-- out of order; a reader of a server's stream has none of them any more, and no other has got one since the call;
-- and the stream reads only after `connection_made`.
abbrev pub Upgrades :
    UpgradeCall
    → Upgrade
    → List LoopTurn
    → Result (Unit {0})
    → Bool
    → Result (Unit {0}) × Upgrade
    → Type 0
Upgrades w s ts waiter is_transport (err e, s') = s' ≡ s
Upgrades w s ts waiter is_transport (ok u, s') =
    let t = turn_all ts s' in
    (all_bytes t ≡ (s.reader ++ s.unread_bytes) ++ arriving ts)
    × (t.reader ≡ (if w.server_side && w.has_reader then [] else s.reader))
    × (t.is_tls ≡ true)
    × ((not t.is_reading || t.is_made) ≡ true)
    × Ends waiter t (end_tls waiter is_transport t)

-- The reader's bytes after they were moved, or not.
moved-reader :
    (server has_reader : Bool) (bytes : List ℕ) (s : Upgrade)
    → s.reader ≡ bytes
    → (moved_if (server && (has_reader && has_bytes bytes)) s).reader
      ≡ (if server && has_reader then [] else bytes)
moved-reader true true [] s e = e
moved-reader true true (b ∷ bytes) s e = refl
moved-reader true false bytes s e = e
moved-reader false has_reader bytes s e = e

moved-all_bytes :
    (b : Bool) (s : Upgrade)
    → s.incoming ≡ []
    → all_bytes (moved_if b s) ≡ s.reader ++ s.unread_bytes
moved-all_bytes true s e = rw e refl
moved-all_bytes false s e = rw e refl

moved-callbacks : (b : Bool) (s : Upgrade) → (moved_if b s).is_reading ≡ s.is_reading
moved-callbacks true s = refl
moved-callbacks false s = refl

upgrade_by-Upgrades :
    (w : UpgradeCall) (check : Result (Unit {0})) (s : Upgrade) (ts : List LoopTurn)
    (waiter : Result (Unit {0})) (is_transport : Bool)
    → Upgrades w s ts waiter is_transport (upgrade_by w check s)
upgrade_by-Upgrades w (err e) s ts waiter is_transport = refl
upgrade_by-Upgrades w (ok u) s ts waiter is_transport =
    let start : Upgrade = record s { is_reading = false; is_made = false; incoming = [] } in
    let moves = w.server_side && (w.has_reader && has_bytes s.reader) in
    let s' : Upgrade = record (moved_if moves start) {
      is_tls = true;
      callbacks = makes_connection ∷ resumes_reading ∷ [];
    } in
    let (o, e) =
      turn_all-IsUnderway s'.reader ts s'
        (record { kept = refl; tls = refl; ordered = moved-callbacks moves start }) in
    let t = turn_all ts s' in
    (
      e ∙ ap (λ l. l ++ arriving ts) (moved-all_bytes moves start refl),
      o.kept ∙ moved-reader w.server_side w.has_reader s.reader start refl,
      o.tls,
      AreOrdered-made t.callbacks t.is_made t.is_reading o.ordered,
      end_tls-Ends waiter is_transport t,
    )

-- Whatever the call is given and the loop does until its handshake ends: a `start_tls` that is refused changes
-- nothing. Otherwise all bytes received are, in order, with the StreamReader, the SSLProtocol or not read yet; the
-- StreamReader of a server's stream has none of them, and any other has what it had; the stream does not read
-- before `connection_made`; and if the handshake raises, this is raised, the stream is closed and neither callback
-- is left to run.
pub begin_tls-Upgrades :
    (w : UpgradeCall) (s : Upgrade) (ts : List LoopTurn) (waiter : Result (Unit {0}))
    (is_transport : Bool)
    → Upgrades w s ts waiter is_transport (begin_tls w s)
unfolding begin_tls
begin_tls-Upgrades w s ts waiter is_transport =
    upgrade_by-Upgrades w
      (raise_if (not w.is_context)
          (type_error "sslcontext is expected to be an instance of ssl.SSLContext")
        >> (raise_if (not w.is_duplex)
              (type_error "transport must support both reading and writing")
            >> w.made_protocol))
      s ts waiter is_transport
