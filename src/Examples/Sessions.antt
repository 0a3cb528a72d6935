-- ===== src/Examples/Sessions.antt =====
-- Runs of the theorems on the tables of sessions on small inputs. Addresses, secrets and keys are numbers.
use ubass_rs.Base.{ℕ, ◌≡◌, refl, arith, true, false, [], ◌∷◌, none, some}
use ubass_rs.Base.Outcome.{ok}
use ubass_rs.Base.Maps.{nat_eq, get, insert, contains_key}
use ubass_rs.State.Streams.{ConnectionStates}
use ubass_rs.State.Addresses.Listed.{listed}
use ubass_rs.State.Sessions.{
  ProtocolState, new_session, session_exists, promote_handshake, close_session,
}
use ubass_rs.State.Sessions.Consistent.{AreConsistent-empty}
use ubass_rs.State.Sessions.Keeps.{TablesAgree}
use ubass_rs.State.Sessions.Calls.{
  call_new_session, call_update_address, Reached, begin, go, apply, Reached-TablesAgree,
  calls_keep_tables,
}
use ubass_rs.State.Sessions.Ends.{close_session_lem, promote_handshake-unlisted}

-- Session 7 has begun at address 1.
abbrev one_session : ProtocolState ℕ ℕ ℕ
one_session = record {
  connections = (7, ConnectionStates.handshake 7 [] 1) ∷ [];
  handshakes = [];
  encryption = [];
  address_session = (1, 7 ∷ []) ∷ [];
}

one_session-Reached : Reached true one_session
unfolding apply new_session
one_session-Reached = go (call_new_session 7 1 []) begin refl refl

calls_keep_tables_example :
    (after : ProtocolState ℕ ℕ ℕ) × (apply true one_session (call_update_address 7 2) ≡ ok after)
    × TablesAgree after
calls_keep_tables_example =
    calls_keep_tables true one_session (call_update_address 7 2) one_session-Reached tt

one_session-TablesAgree : TablesAgree one_session
one_session-TablesAgree = Reached-TablesAgree one_session-Reached

seven_is_there : get 7 one_session.connections ≡ some (ConnectionStates.handshake 7 [] 1)
unfolding get
seven_is_there = refl

close_session_lem_example :
    (session_exists (close_session one_session 7) 7 ≡ false)
    × (((a : ℕ) → listed 7 a (close_session one_session 7).address_session ≡ 0)
        × ((get 7 (close_session one_session 7).encryption ≡ none)
            × ((get 8 (close_session one_session 7).connections ≡ get 8 one_session.connections)
                × (get 8 (close_session one_session 7).encryption ≡ get 8 one_session.encryption))))
close_session_lem_example =
    close_session_lem one_session 7 8 (ConnectionStates.handshake 7 [] 1) one_session-TablesAgree
      seven_is_there (omega arith)

-- A handshake that proposed session 7 waits at the end that began it.
abbrev one_handshake : ProtocolState ℕ ℕ ℕ
one_handshake = record {
  connections = [];
  handshakes = (3, record { peer_address = 1; ephemeral_secret = 5; session_id = 7 }) ∷ [];
  encryption = [];
  address_session = [];
}

handshake_is_there :
    (contains_key 8 one_handshake.connections ≡ false)
    × (get 3 one_handshake.handshakes
        ≡ some (record { peer_address = 1; ephemeral_secret = 5; session_id = 7 }))
unfolding get contains_key
handshake_is_there = (refl, refl)

promote_handshake-unlisted_example :
    (after : ProtocolState ℕ ℕ ℕ) × (promote_handshake true one_handshake 8 1 3 []
      ≡ ok (after, some 5))
    × (session_exists after 8 ≡ true)
    × ((b : ℕ) → listed 8 b after.address_session ≡ 0)
    × (get 8
          (close_session (record after { encryption = insert 8 6 after.encryption }) 8).encryption
        ≡ some 6)
promote_handshake-unlisted_example =
    promote_handshake-unlisted true one_handshake 8 1 3 []
      (record { peer_address = 1; ephemeral_secret = 5; session_id = 7 }) 6 AreConsistent-empty
      handshake_is_there.0 handshake_is_there.1 (omega arith)
