-- ===== src/Connect/UpgradeTests.antt =====
-- The theorem on `start_tls` at concrete data.
use zuvloop.Base.{ℕ, ◌≡◌, refl, true, false, List, [], ◌∷◌, ok, err, value_error, cancelled}
use zuvloop.Connect.Upgrading.{
  Upgrade, UpgradeCall, LoopTurn, calls_next, reads_ready, arrives, begin_tls, turn_all, turn,
}
use zuvloop.Connect.Upgraded.{Upgrades, begin_tls-Upgrades}

-- A server's stream whose reader has read two bytes, with a third one not read yet.
abbrev plain_stream : Upgrade
plain_stream = record {
  is_reading = true;
  is_shut = false;
  is_tls = false;
  is_made = false;
  reader_paused = false;
  reader = 22 ∷ 3 ∷ [];
  incoming = [];
  unread_bytes = 1 ∷ [];
  callbacks = [];
}

abbrev server_call : UpgradeCall
server_call = record {
  is_context = true;
  is_duplex = true;
  made_protocol = ok tt;
  server_side = true;
  has_reader = true;
}

abbrev turns : List LoopTurn
turns = reads_ready ∷ calls_next ∷ arrives (2 ∷ []) ∷ calls_next ∷ reads_ready ∷ []

abbrev incoming_of : Upgrade → List ℕ
incoming_of s = s.incoming

takes_all :
    incoming_of (turn_all turns (begin_tls server_call plain_stream).1) ≡ 22 ∷ 3 ∷ 1 ∷ 2 ∷ []
unfolding begin_tls turn_all turn
takes_all = refl

refuses_timeout :
    begin_tls
      (record server_call { made_protocol = err (value_error "ssl_handshake_timeout") })
      plain_stream
    ≡ (err (value_error "ssl_handshake_timeout"), plain_stream)
unfolding begin_tls
refuses_timeout = refl

begin_tls-Upgrades_example :
    Upgrades server_call plain_stream turns
      (err cancelled)
      true
      (begin_tls server_call plain_stream)
begin_tls-Upgrades_example = begin_tls-Upgrades server_call plain_stream turns (err cancelled) true
