-- ===== src/State/Sessions.antt =====
-- The tables of `ProtocolState` of src/manager/state.rs and the operations on them. Channels to the
-- application are not modelled. What an operation does under several locks is one step. `Addr` is
-- `SocketAddr`, `Secret` and `Key` are what the key exchange and the cipher keep.
pub mod Consistent
pub mod Keeps
pub mod Calls
pub mod Ends
use ubass_rs.Base.{ℕ, Bool, true, false, List, [], ◌∷◌, Option, none, some, if◌then◌else◌}
use ubass_rs.Base.Outcome.{Outcome, ok, panic, ◌>>=◌}
use ubass_rs.Base.Maps.{Eq, HashMap, nat_eq, get, insert, remove, contains_key}
use ubass_rs.Wire.Codec.{Bytes}
use ubass_rs.State.Streams.{
  SessionStates, StreamMessage, ConnectionStates, EstablishedState, established, address,
  update_address,
}
use ubass_rs.State.Addresses.{list_session, remove_session, move_session}

-- `struct HandshakeState`
pub record HandshakeState (Addr Secret : Type 0) : Type 0 where
  pub peer_address : Addr
  pub ephemeral_secret : Secret
  pub session_id : ℕ

-- `struct ProtocolState`: its tables of sessions.
pub record ProtocolState (Addr Secret Key : Type 0) : Type 0 where
  pub connections : HashMap ℕ (ConnectionStates Addr)
  pub handshakes : HashMap ℕ (HandshakeState Addr Secret)
  pub encryption : HashMap ℕ Key
  pub address_session : HashMap Addr (List ℕ)

-- What `handshake_done` inserts for the connection that it removed: the session and the connection.
unfoldable pub done_with : {Addr : Type 0} → ℕ → ConnectionStates Addr → ℕ × ConnectionStates Addr
done_with session (ConnectionStates.handshake s app_id a) = (
  s,
  established (record { session_id = s; state = SessionStates.up; address = a; app_id = app_id }),
)
done_with session (established c) = (session, established c)

-- The connection without its stream, and the message that the stream shows last.
unfoldable pub stop_in_state :
    {Addr : Type 0}
    → EstablishedState Addr
    → SessionStates
    → ConnectionStates Addr × Option StreamMessage
stop_in_state c SessionStates.up = (established c, none)
stop_in_state c SessionStates.down = (established c, none)
stop_in_state c (SessionStates.streaming_state s) =
    (established (record c { state = SessionStates.up }), some (record s.stream { closed = true }))

unfoldable pub stop_stream :
    {Addr : Type 0} → ConnectionStates Addr → ConnectionStates Addr × Option StreamMessage
unfolding stop_in_state
stop_stream (ConnectionStates.handshake s app_id a) = (ConnectionStates.handshake s app_id a, none)
stop_stream (established c) = stop_in_state c c.state

module _ {Addr Secret Key : Type 0} ⦃e : Eq Addr⦄ where
  -- `ProtocolState::new`
  abbrev pub protocol_state : ProtocolState Addr Secret Key
  protocol_state = record {
    connections = [];
    handshakes = [];
    encryption = [];
    address_session = [];
  }

  -- `session_exists`
  unfoldable pub session_exists : ProtocolState Addr Secret Key → ℕ → Bool
  unfolding contains_key
  session_exists st session = contains_key session st.connections

  -- `HandshakeStateTable::new_handshake` and `take`
  unfoldable pub new_handshake :
      ProtocolState Addr Secret Key → ℕ → Addr → Secret → ℕ → ProtocolState Addr Secret Key
  unfolding insert
  new_handshake st handshake_id peer secret session = record st {
    handshakes =
        insert handshake_id
          (record { peer_address = peer; ephemeral_secret = secret; session_id = session })
          st.handshakes;
  }

  unfoldable pub take_handshake :
      ProtocolState Addr Secret Key
      → ℕ
      → ProtocolState Addr Secret Key × Option (HandshakeState Addr Secret)
  unfolding get remove
  take_handshake st handshake_id =
      (record st { handshakes = remove handshake_id st.handshakes }, get handshake_id st.handshakes)

  -- `promote_handshake`, from where the handshake is known.
  unfoldable pub promote :
      Bool
      → ProtocolState Addr Secret Key
      → ℕ
      → Addr
      → Bytes
      → HandshakeState Addr Secret
      → Outcome (ProtocolState Addr Secret Key × Option Secret)
  unfolding contains_key insert list_session
  promote debug st new_session_id a app_id h =
      if contains_key new_session_id st.connections
      then if debug then panic else ok (st, none)
      else ok (
        record st {
          connections =
              insert new_session_id
                (established (record {
                  session_id = h.session_id;
                  state = SessionStates.up;
                  address = a;
                  app_id = app_id;
                }))
                st.connections;
          address_session = list_session a h.session_id st.address_session;
        },
        some h.ephemeral_secret,
      )

  -- `promote_handshake`
  unfoldable pub promote_handshake :
      Bool
      → ProtocolState Addr Secret Key
      → ℕ
      → Addr
      → ℕ
      → Bytes
      → Outcome (ProtocolState Addr Secret Key × Option Secret)
  unfolding take_handshake promote
  promote_handshake debug st new_session_id a handshake_id app_id =
      let taken = take_handshake st handshake_id in
      elim taken.1 [
        | none ↦ ok (taken.0, none)
        | some h ↦ promote debug taken.0 new_session_id a app_id h
      ]

  -- `reuse_handshake`: what `HandshakeId::generate` returns is an argument.
  unfoldable pub reuse_handshake :
      ProtocolState Addr Secret Key → ℕ → ℕ → Secret → ℕ → ProtocolState Addr Secret Key × Option ℕ
  unfolding take_handshake new_handshake
  reuse_handshake st session handshake_id secret generated =
      let taken = take_handshake st handshake_id in
      elim taken.1 [
        | none ↦ (taken.0, none)
        | some h ↦ (new_handshake taken.0 generated h.peer_address secret session, some generated)
      ]

  -- `handshake_done`
  unfoldable pub handshake_done : ProtocolState Addr Secret Key → ℕ → ProtocolState Addr Secret Key
  unfolding get insert remove done_with
  handshake_done st session = elim (get session st.connections) [
    | none ↦ st
    | some c ↦
        let placed = done_with session c in
        record st { connections = insert placed.0 placed.1 (remove session st.connections) }
  ]

  -- `new_session`
  unfoldable pub new_session :
      Bool
      → ProtocolState Addr Secret Key
      → ℕ
      → Addr
      → Bytes
      → Outcome (ProtocolState Addr Secret Key)
  unfolding contains_key insert list_session
  new_session debug st session a app_id =
      if contains_key session st.connections
      then if debug then panic else ok st
      else ok (record st {
        connections = insert session (ConnectionStates.handshake session app_id a) st.connections;
        address_session = list_session a session st.address_session;
      })

  -- `close_session`: the key stays when the session is not listed under its address.
  unfoldable pub close_session : ProtocolState Addr Secret Key → ℕ → ProtocolState Addr Secret Key
  unfolding get remove remove_session address
  close_session st session = elim (get session st.connections) [
    | none ↦ st
    | some c ↦
        let removed = remove_session (address c) session st.address_session in
        record st {
          connections = remove session st.connections;
          address_session = removed.0;
          encryption = elim removed.1 [
            | none ↦ st.encryption
            | some _ ↦ remove session st.encryption
          ];
        }
  ]

  -- `close_stream`
  unfoldable pub close_stream_of :
      ProtocolState Addr Secret Key → ℕ → ProtocolState Addr Secret Key × Option StreamMessage
  unfolding get insert stop_stream
  close_stream_of st session = elim (get session st.connections) [
    | none ↦ (st, none)
    | some c ↦
        let stopped = stop_stream c in
        (record st { connections = insert session stopped.0 st.connections }, stopped.1)
  ]

  -- `update_address`
  unfoldable pub update_address_of :
      Bool
      → ProtocolState Addr Secret Key
      → ℕ
      → Addr
      → Outcome (ProtocolState Addr Secret Key × Option Addr)
  unfolding get insert move_session address update_address
  update_address_of debug st session new = elim (get session st.connections) [
    | none ↦ ok (st, none)
    | some c ↦
        let moved = move_session (address c) session new st.address_session in
        if e.beq new (address c) then ok (st, none) else elim moved.1 [
          | none ↦ if debug then panic else ok (record st { address_session = moved.0 }, none)
          | some _ ↦ ok (
            record st {
              address_session = moved.0;
              connections = insert session (update_address c new) st.connections;
            },
            some new,
          )
        ]
  ]
