-- ===== src/State/Sessions/Keeps.antt =====
-- Each operation on the tables of sessions keeps them in agreement.
use ubass_rs.Base.{
  ℕ, ◌≡◌, refl, sym, subst, ap, ◌∙◌, Bool, false, List, Option, none, some, Option-cases,
  Bool-cases, inl, inr,
}
use ubass_rs.Base.Outcome.{ok}
use ubass_rs.Base.Maps.{Eq, HashMap, nat_eq, get, insert, remove, contains_key, get-none}
use ubass_rs.Wire.Codec.{Bytes}
use ubass_rs.State.Streams.{
  SessionStates, ConnectionStates, EstablishedState, established, address, update_address,
}
use ubass_rs.State.Addresses.{list_session, remove_session, move_session}
use ubass_rs.State.Sessions.{
  HandshakeState, ProtocolState, new_handshake, take_handshake, reuse_handshake, promote,
  promote_handshake, done_with, handshake_done, new_session, close_session, stop_in_state,
  stop_stream, close_stream_of, update_address_of,
}
use ubass_rs.State.Sessions.Consistent.{
  session_of, AreConsistent, AreConsistent-insert_new, AreConsistent-replace, AreConsistent-remove,
  AreConsistent-move, AreConsistent-put_back,
}

-- What is put back for a connection is of the same session and at the same address.
done_with_lem :
    {Addr : Type 0} (session : ℕ) (c : ConnectionStates Addr)
    → session_of c ≡ session
    → ((done_with session c).0 ≡ session)
      × ((session_of (done_with session c).1 ≡ session)
          × (address (done_with session c).1 ≡ address c))
unfolding done_with address
done_with_lem session (ConnectionStates.handshake s app_id a) own = (own, (own, refl))
done_with_lem session (established c) own = (refl, (own, refl))

stop_in_state_lem :
    {Addr : Type 0} (c : EstablishedState Addr) (st : SessionStates)
    → (session_of (stop_in_state c st).0 ≡ c.session_id)
      × (address (stop_in_state c st).0 ≡ c.address)
unfolding stop_in_state address
stop_in_state_lem c SessionStates.up = (refl, refl)
stop_in_state_lem c SessionStates.down = (refl, refl)
stop_in_state_lem c (SessionStates.streaming_state s) = (refl, refl)

stop_stream_lem :
    {Addr : Type 0} (c : ConnectionStates Addr)
    → (session_of (stop_stream c).0 ≡ session_of c) × (address (stop_stream c).0 ≡ address c)
unfolding stop_stream address
stop_stream_lem (ConnectionStates.handshake s app_id a) = (refl, refl)
stop_stream_lem (established c) = stop_in_state_lem c c.state

update_address_lem :
    {Addr : Type 0} (c : ConnectionStates Addr) (a : Addr)
    → (session_of (update_address c a) ≡ session_of c) × (address (update_address c a) ≡ a)
unfolding update_address address
update_address_lem (ConnectionStates.handshake s app_id b) a = (refl, refl)
update_address_lem (established c) a = (refl, refl)

move_session_lem :
    {Addr : Type 0} ⦃e : Eq Addr⦄ (source destination : Addr) (session found : ℕ)
    (table : HashMap Addr (List ℕ))
    → (remove_session source session table).1 ≡ some found
    → move_session source session destination table
      ≡ (list_session destination session (remove_session source session table).0, some destination)
unfolding move_session
move_session_lem source destination session found table h = rw (move_session, h) refl

module _ {Addr Secret Key : Type 0} ⦃e : Eq Addr⦄ where
  abbrev pub TablesAgree : ProtocolState Addr Secret Key → Type 0
  TablesAgree st = AreConsistent st.connections st.address_session

  pub handshake_done-TablesAgree :
      (st : ProtocolState Addr Secret Key) (session : ℕ)
      → TablesAgree st
      → TablesAgree (handshake_done st session)
  unfolding handshake_done
  handshake_done-TablesAgree st session h = elim (Option-cases (get session st.connections)) [
    | inl new ↦ rw (handshake_done, new) h
    | inr (c, old) ↦
        let (key, (own, same)) = done_with_lem session c (h.own session c old) in
        rw (handshake_done, old)
          (subst
            (λ k.
              AreConsistent (insert k (done_with session c).1 (remove session st.connections))
                st.address_session)
            (sym key)
            (AreConsistent-put_back session c (done_with session c).1 st.connections
              st.address_session h old own same))
  ]

  pub close_stream_of-TablesAgree :
      (st : ProtocolState Addr Secret Key) (session : ℕ)
      → TablesAgree st
      → TablesAgree (close_stream_of st session).0
  unfolding close_stream_of
  close_stream_of-TablesAgree st session h = elim (Option-cases (get session st.connections)) [
    | inl new ↦ rw (close_stream_of, new) h
    | inr (c, old) ↦
        let (own, same) = stop_stream_lem c in
        rw (close_stream_of, old)
          (AreConsistent-replace session c (stop_stream c).0 st.connections st.address_session h old
            (own ∙ h.own session c old) same)
  ]

  pub new_session-TablesAgree :
      (debug : Bool) (st : ProtocolState Addr Secret Key) (session : ℕ) (a : Addr) (app_id : Bytes)
      → TablesAgree st
      → contains_key session st.connections ≡ false
      → (after : ProtocolState Addr Secret Key) × (new_session debug st session a app_id ≡ ok after)
        × TablesAgree after
  unfolding new_session address
  new_session-TablesAgree debug st session a app_id h new = (
    record st {
      connections = insert session (ConnectionStates.handshake session app_id a) st.connections;
      address_session = list_session a session st.address_session;
    },
    rw (new_session, new) refl,
    AreConsistent-insert_new session (ConnectionStates.handshake session app_id a) st.connections
        st.address_session h (get-none session st.connections new) refl,
  )

  pub promote_handshake-TablesAgree :
      (debug : Bool) (st : ProtocolState Addr Secret Key) (session : ℕ) (a : Addr) (id : ℕ)
      (app_id : Bytes)
      → TablesAgree st
      → contains_key session st.connections ≡ false
      → ((h : HandshakeState Addr Secret) → get id st.handshakes ≡ some h → h.session_id ≡ session)
      → (after : ProtocolState Addr Secret Key) × (secret : Option Secret) × (promote_handshake
            debug st session a id app_id
          ≡ ok (after, secret))
        × TablesAgree after
  unfolding promote_handshake take_handshake promote address
  promote_handshake-TablesAgree debug st session a id app_id h new proposed =
      elim (Option-cases (get id st.handshakes)) [
        | inl missing ↦ (
          record st { handshakes = remove id st.handshakes },
          none,
          rw (promote_handshake, take_handshake, missing) refl,
          h,
        )
        | inr (shake, found) ↦ (
          record st {
            handshakes = remove id st.handshakes;
            connections =
                insert session
                  (established (record {
                    session_id = shake.session_id;
                    state = SessionStates.up;
                    address = a;
                    app_id = app_id;
                  }))
                  st.connections;
            address_session = list_session a shake.session_id st.address_session;
          },
          some shake.ephemeral_secret,
          rw (promote_handshake, take_handshake, found, promote, new) refl,
          subst
              (λ s.
                AreConsistent
                  (insert session
                    (established (record {
                      session_id = shake.session_id;
                      state = SessionStates.up;
                      address = a;
                      app_id = app_id;
                    }))
                    st.connections)
                  (list_session a s st.address_session))
              (sym (proposed shake found))
              (AreConsistent-insert_new session
                (established (record {
                  session_id = shake.session_id;
                  state = SessionStates.up;
                  address = a;
                  app_id = app_id;
                }))
                st.connections st.address_session h (get-none session st.connections new)
                (proposed shake found)),
        )
      ]

  pub close_session-TablesAgree :
      (st : ProtocolState Addr Secret Key) (session : ℕ)
      → TablesAgree st
      → TablesAgree (close_session st session)
  unfolding close_session
  close_session-TablesAgree st session h = elim (Option-cases (get session st.connections)) [
    | inl new ↦ rw (close_session, new) h
    | inr (c, old) ↦
        rw (close_session, old)
          (AreConsistent-remove session c st.connections st.address_session h old).1
  ]

  pub update_address_of-TablesAgree :
      (debug : Bool) (st : ProtocolState Addr Secret Key) (session : ℕ) (a : Addr)
      → TablesAgree st
      → (after : ProtocolState Addr Secret Key) × (moved : Option Addr) × (update_address_of debug
            st session a
          ≡ ok (after, moved))
        × TablesAgree after
  unfolding update_address_of
  update_address_of-TablesAgree debug st session a h =
      elim (Option-cases (get session st.connections)) [
        | inl new ↦ (st, none, rw (update_address_of, new) refl, h)
        | inr (c, old) ↦ elim (Bool-cases (e.beq a (address c))) [
          | inl same ↦ (st, none, rw (update_address_of, old, same) refl, h)
          | inr other ↦
              let (own, at) = update_address_lem c a in
              let (found, kept) =
                AreConsistent-move session c (update_address c a) st.connections st.address_session
                  h old (own ∙ h.own session c old) in
              let moved = move_session_lem (address c) a session session st.address_session found in
              (
                record st {
                  connections = insert session (update_address c a) st.connections;
                  address_session = (move_session (address c) session a st.address_session).0;
                },
                some a,
                rw (update_address_of, old, other, ap (λ m. m.1) moved) refl,
                subst (λ t. AreConsistent (insert session (update_address c a) st.connections) t)
                    (ap
                        (λ b.
                          list_session b session
                            (remove_session (address c) session st.address_session).0)
                        at
                      ∙ sym (ap (λ m. m.0) moved))
                    kept,
              )
        ]
      ]

  pub reuse_handshake-TablesAgree :
      (st : ProtocolState Addr Secret Key) (session id : ℕ) (secret : Secret) (generated : ℕ)
      → TablesAgree st
      → TablesAgree (reuse_handshake st session id secret generated).0
  unfolding reuse_handshake take_handshake new_handshake
  reuse_handshake-TablesAgree st session id secret generated h =
      elim (Option-cases (get id st.handshakes)) [
        | inl missing ↦ rw (reuse_handshake, take_handshake, missing) h
        | inr (shake, found) ↦ rw (reuse_handshake, take_handshake, found) h
      ]
