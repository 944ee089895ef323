-- ===== src/Server/Handshakes.antt =====
-- The TLS tasks of `_accept_tls` keep the count of active connections.
use zuvloop.Base.{
  ℕ, ◌≡◌, ◌<◌, true, false, none, arith, has, erase, discard, Exception, Result, ok, err,
  Bool-cases, inl, inr, length-erase, has-erase_self, has-discard_self, Distinct-erase, Below-erase,
  Below-lt, Within-erase, Within-has, Within-discard, Apart-erase, Apart-cons, Apart-has_left,
}
use zuvloop.Server.Counting.{
  Counts, Accounted, detach-Counts, close_transport-Counts, attach_transport-Accounted,
}
use zuvloop.Server.Defs.{State, detach, attach, shutdown_and_close, close_transport}
use zuvloop.Server.Accept.{
  Setup, attach_transport, Handshake, tls_failed, report, wrap_accepted, accept_tls,
}

report-Counts : (e : Exception) (s : State) → Counts 0 s → Counts 0 (report e s).1
unfolding report
report-Counts e s h = ground arith

tls_failed-Counts :
    (e : Exception) (c : ℕ) (s : State) → Accounted c (err e, s) → Counts 0 (tls_failed e c s).1
unfolding tls_failed
tls_failed-Counts e c s (h, free) =
    let s' = record s { views = discard c s.views } in
    elim (Bool-cases (has c s.views)) [
      | inl view ↦
          let h' : Counts 1 s = rw view at h in
          rw view (
            report-Counts e (detach none s')
              (detach-Counts none s' (ground (arith, Within-discard c s.tasks s.views free))))
      | inr gone ↦
          let h' : Counts 0 s = rw gone at h in rw gone (ground (arith, report-Counts e s h'))
    ]

-- A handshake's failure meets an empty write buffer.
abbrev pub IsFlushed : Handshake → Type 0
IsFlushed (Handshake.handshake_raises e buffered) = buffered ≡ 0
IsFlushed _ = Unit

-- A transport that closes with nothing buffered lets go of the socket object at once.
closed_views :
    (c : ℕ) (s : State)
    → has c s.closing ≡ false
    → has c s.open_handles ≡ true
    → (has c (close_transport 0 c s).views ≡ false) × ((close_transport 0 c s).tasks ≡ s.tasks)
unfolding close_transport shutdown_and_close
closed_views c s new handle = ground (arith, has-discard_self c s.views)

lost-Accounted :
    (e : Exception) (c : ℕ) (s : State)
    → has c s.tasks ≡ false
    → c < s.next_connection
    → has c s.closing ≡ false
    → Counts 1 s
    → Accounted c (err e, close_transport 0 c (attach_transport Setup.attached c s).1)
unfolding attach_transport attach
lost-Accounted e c s free below new h =
    let made = (attach_transport Setup.attached c s).1 in
    let h' : Counts 0 made = ground (arith, Apart-cons c s.tasks s.live free) in
    let counts = close_transport-Counts 0 c made free below 0 h' in
    let (gone, same) = closed_views c made new (ground arith) in (rw gone counts, rw same free)

wrap_accepted-Accounted :
    (handshake : Handshake) (c : ℕ) (s : State)
    → has c s.tasks ≡ true
    → IsFlushed handshake
    → Counts 0 s
    → Accounted c (wrap_accepted handshake c s)
unfolding wrap_accepted
wrap_accepted-Accounted handshake c s owned flushed h = wrap handshake flushed
  where
    s' : State
    s' = record s { tasks = erase c s.tasks }

    free : has c (erase c s.tasks) ≡ false
    free = has-erase_self c s.tasks h.distinct

    below : c < s.next_connection
    below = Below-lt s.next_connection c s.tasks h.tasks_below owned

    view : has c s.views ≡ true
    view = Within-has c s.tasks s.views h.viewed owned

    h' : Counts 1 s'
    h' = ground (
      arith,
      length-erase c s.tasks,
      Distinct-erase c s.tasks,
      Within-erase c s.tasks s.views,
      Apart-erase c s.tasks s.closing,
      Apart-erase c s.tasks s.live,
      Below-erase s.next_connection c s.tasks,
    )

    wrap : (t : Handshake) → IsFlushed t → Accounted c (wrap_accepted t c s)
    wrap (Handshake.setup_raises e) _ =
        attach_transport-Accounted c s' free below view (Setup.make_raises e) h'
    wrap (Handshake.adopt_raises e) _ =
        attach_transport-Accounted c s' free below view (Setup.adopt_raises e) h'
    wrap (Handshake.handshake_raises e buffered) f =
        rw f (
          lost-Accounted e c s' free below (Apart-has_left c s.tasks s.closing h.unclosed owned) h')
    wrap Handshake.established _ = attach_transport-Accounted c s' free below view Setup.attached h'

-- A TLS task settles its connection's account, unless the handshake fails over unsent data.
pub accept_tls-Counts :
    (handshake : Handshake) (c : ℕ) (s : State)
    → has c s.tasks ≡ true
    → IsFlushed handshake
    → Counts 0 s
    → Counts 0 (accept_tls handshake c s).1
unfolding accept_tls
accept_tls-Counts handshake c s owned flushed h =
    finish (wrap_accepted handshake c s) (wrap_accepted-Accounted handshake c s owned flushed h)
  where
    finish :
        (p : Result (Unit {0}) × State)
        → Accounted c p
        → Counts 0
            (elim p.0 as (λ _. Result (Unit {0}) × State) [
              | ok _ ↦ (ok tt, p.1)
              | err e ↦ tls_failed e c p.1
            ]).1
    finish (ok _, t) g = g
    finish (err e, t) g = tls_failed-Counts e c t g
