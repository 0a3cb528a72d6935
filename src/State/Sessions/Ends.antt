-- ===== src/State/Sessions/Ends.antt =====
-- What `close_session` and `promote_handshake` leave in the tables.
use ubass_rs.Base.{
  ℕ, ◌≡◌, ◌≢◌, refl, ap, ◌∙◌, arith, ◌==◌, ==_iff, Bool, true, false, none, some, Bool-cases, inl,
  inr, if◌then◌else◌,
}
use ubass_rs.Base.Outcome.{ok}
use ubass_rs.Base.Maps.{
  Eq, nat_eq, get, insert, remove, contains_key, get-none, get-remove_self, get-remove,
  get-insert_self, contains_key-none, contains_key-some,
}
use ubass_rs.Wire.Codec.{Bytes}
use ubass_rs.State.Streams.{SessionStates, ConnectionStates, established, address}
use ubass_rs.State.Addresses.{list_session}
use ubass_rs.State.Addresses.Listed.{listed, listed-list_session, remove_session-none}
use ubass_rs.State.Sessions.{
  HandshakeState, ProtocolState, session_exists, take_handshake, promote, promote_handshake,
  close_session,
}
use ubass_rs.State.Sessions.Consistent.{counts_zero, is_at, AreConsistent-remove}
use ubass_rs.State.Sessions.Keeps.{TablesAgree}

differ : (x y : ℕ) → x ≢ y → (x == y) ≡ false
differ x y h = elim (Bool-cases (x == y)) [
  | inl same ↦ absurd (h ((==_iff x y).0 same))
  | inr other ↦ other
]

module _ {Addr Secret Key : Type 0} ⦃e : Eq Addr⦄ where
  unlisted :
      (st : ProtocolState Addr Secret Key) (session : ℕ)
      → TablesAgree st
      → get session st.connections ≡ none
      → (a : Addr) → listed session a st.address_session ≡ 0
  unfolding is_at
  unlisted st session h new a = h.once session a ∙ ap (λ o. is_at a o) new

  -- A session that exists is closed where the tables agree: it does not exist any more, it is listed
  -- under no address, it has no key, and the connection and the key of any other session are as they were.
  pub close_session_lem :
      (st : ProtocolState Addr Secret Key) (session other : ℕ) (c : ConnectionStates Addr)
      → TablesAgree st
      → get session st.connections ≡ some c
      → session ≢ other
      → (session_exists (close_session st session) session ≡ false)
        × (((a : Addr) → listed session a (close_session st session).address_session ≡ 0)
            × ((get session (close_session st session).encryption ≡ none)
                × ((get other (close_session st session).connections ≡ get other st.connections)
                    × (get other (close_session st session).encryption ≡ get other st.encryption))))
  unfolding close_session session_exists is_at
  close_session_lem st session other c h old apart =
      let (found, kept) = AreConsistent-remove session c st.connections st.address_session h old in
      let gone = get-remove_self session st.connections in
      (
        rw (close_session, old) (contains_key-none session (remove session st.connections) gone),
        (
          λ a. rw (close_session, old) (kept.once session a ∙ ap (λ o. is_at a o) gone),
          (
            rw (close_session, old, found) (get-remove_self session st.encryption),
            (
              rw (close_session, old)
                  (get-remove session other st.connections
                    ∙ ap (λ b. if b then none else get other st.connections)
                        (differ session other apart)),
              rw (close_session, old, found)
                  (get-remove session other st.encryption
                    ∙ ap (λ b. if b then none else get other st.encryption)
                        (differ session other apart)),
            ),
          ),
        ),
      )

  -- A handshake is promoted to a session that is new but is not the one it proposed: nothing panics and
  -- the session exists, but it is listed under no address, and when it has got a key and is closed, the
  -- key stays.
  pub promote_handshake-unlisted :
      (debug : Bool) (st : ProtocolState Addr Secret Key) (session : ℕ) (a : Addr) (id : ℕ)
      (app_id : Bytes) (h : HandshakeState Addr Secret) (key : Key)
      → TablesAgree st
      → contains_key session st.connections ≡ false
      → get id st.handshakes ≡ some h
      → h.session_id ≢ session
      → (after : ProtocolState Addr Secret Key) × (promote_handshake debug st session a id app_id
          ≡ ok (after, some h.ephemeral_secret))
        × (session_exists after session ≡ true)
        × ((b : Addr) → listed session b after.address_session ≡ 0)
        × (get session
              (close_session
                (record after { encryption = insert session key after.encryption })
                session).encryption
            ≡ some key)
  unfolding promote_handshake take_handshake promote session_exists close_session address
  promote_handshake-unlisted debug st session a id app_id h key agree new found apart =
      let c : ConnectionStates Addr = established (record {
        session_id = h.session_id;
        state = SessionStates.up;
        address = a;
        app_id = app_id;
      }) in
      let placed = get-insert_self session c st.connections in
      let nowhere : (b : Addr)
          → listed session b (list_session a h.session_id st.address_session) ≡ 0 =
        λ b.
          listed-list_session h.session_id session a b st.address_session
          ∙ rw (differ h.session_id session apart, counts_zero (e.beq a b))
              (omega (arith, unlisted st session agree (get-none session st.connections new) b)) in
      (
        record st {
          handshakes = remove id st.handshakes;
          connections = insert session c st.connections;
          address_session = list_session a h.session_id st.address_session;
        },
        rw (promote_handshake, take_handshake, found, promote, new) refl,
        contains_key-some session c (insert session c st.connections) placed,
        nowhere,
        rw
            (
              close_session,
              placed,
              remove_session-none session a (list_session a h.session_id st.address_session)
                  (nowhere a),
            )
            (get-insert_self session key st.encryption),
      )
