-- ===== src/State/Sessions/Calls.antt =====
-- Sequences of calls on the tables of sessions.
use ubass_rs.Base.{ℕ, ◌≡◌, refl, sym, subst, ◌∙◌, Bool, false, some}
use ubass_rs.Base.Outcome.{Outcome, ok, ◌>>=◌}
use ubass_rs.Base.Maps.{Eq, nat_eq, get, contains_key}
use ubass_rs.Wire.Codec.{Bytes}
use ubass_rs.State.Sessions.{
  HandshakeState, ProtocolState, protocol_state, new_handshake, reuse_handshake, promote_handshake,
  handshake_done, new_session, close_session, close_stream_of, update_address_of,
}
use ubass_rs.State.Sessions.Consistent.{AreConsistent-empty}
use ubass_rs.State.Sessions.Keeps.{
  TablesAgree, handshake_done-TablesAgree, close_stream_of-TablesAgree, new_session-TablesAgree,
  promote_handshake-TablesAgree, close_session-TablesAgree, update_address_of-TablesAgree,
  reuse_handshake-TablesAgree,
}

-- A call with its arguments.
pub data Call (Addr Secret : Type 0) : Type 0 where
  call_new_handshake : ℕ → Addr → Secret → ℕ → Call Addr Secret
  call_reuse_handshake : ℕ → ℕ → Secret → ℕ → Call Addr Secret
  call_promote_handshake : ℕ → Addr → ℕ → Bytes → Call Addr Secret
  call_handshake_done : ℕ → Call Addr Secret
  call_new_session : ℕ → Addr → Bytes → Call Addr Secret
  call_close_session : ℕ → Call Addr Secret
  call_close_stream : ℕ → Call Addr Secret
  call_update_address : ℕ → Addr → Call Addr Secret

module _ {Addr Secret Key : Type 0} ⦃e : Eq Addr⦄ where
  -- The state after the call.
  unfoldable pub apply :
      Bool
      → ProtocolState Addr Secret Key
      → Call Addr Secret
      → Outcome (ProtocolState Addr Secret Key)
  apply debug st (call_new_handshake id peer secret session) =
      ok (new_handshake st id peer secret session)
  apply debug st (call_reuse_handshake session id secret generated) =
      ok (reuse_handshake st session id secret generated).0
  apply debug st (call_promote_handshake session a id app_id) = do
    promoted ← promote_handshake debug st session a id app_id
    ok promoted.0
  apply debug st (call_handshake_done session) = ok (handshake_done st session)
  apply debug st (call_new_session session a app_id) = new_session debug st session a app_id
  apply debug st (call_close_session session) = ok (close_session st session)
  apply debug st (call_close_stream session) = ok (close_stream_of st session).0
  apply debug st (call_update_address session a) = do
    moved ← update_address_of debug st session a
    ok moved.0

  -- A session that begins is new, and a handshake that is promoted proposed the session that it becomes.
  abbrev pub IsAllowed : ProtocolState Addr Secret Key → Call Addr Secret → Type 0
  IsAllowed st (call_promote_handshake session a id app_id) =
      (contains_key session st.connections ≡ false)
      × ((h : HandshakeState Addr Secret) → get id st.handshakes ≡ some h → h.session_id ≡ session)
  IsAllowed st (call_new_session session a app_id) = contains_key session st.connections ≡ false
  IsAllowed st c = Unit

  -- The states that calls lead to from the new one, each allowed where it is made.
  pub data Reached (debug : Bool) : ProtocolState Addr Secret Key → Type 0 where
    begin : Reached debug protocol_state
    go :
        {st after : ProtocolState Addr Secret Key} (c : Call Addr Secret)
        → Reached debug st
        → IsAllowed st c
        → apply debug st c ≡ ok after
        → Reached debug after

  same_ok : (p q : ProtocolState Addr Secret Key) → ok p ≡ ok q → p ≡ q
  same_ok p q h = cc h

  apply-TablesAgree :
      (debug : Bool) (st : ProtocolState Addr Secret Key) (c : Call Addr Secret)
      → TablesAgree st
      → IsAllowed st c
      → (after : ProtocolState Addr Secret Key) × (apply debug st c ≡ ok after) × TablesAgree after
  unfolding apply new_handshake reuse_handshake
  apply-TablesAgree debug st (call_new_handshake id peer secret session) h allowed =
      (new_handshake st id peer secret session, refl, h)
  apply-TablesAgree debug st (call_reuse_handshake session id secret generated) h allowed = (
    (reuse_handshake st session id secret generated).0,
    refl,
    reuse_handshake-TablesAgree st session id secret generated h,
  )
  apply-TablesAgree debug st (call_promote_handshake session a id app_id) h allowed =
      let (after, secret, eq, kept) =
        promote_handshake-TablesAgree debug st session a id app_id h allowed.0 allowed.1 in
      (after, rw (apply, eq) refl, kept)
  apply-TablesAgree debug st (call_handshake_done session) h allowed =
      (handshake_done st session, refl, handshake_done-TablesAgree st session h)
  apply-TablesAgree debug st (call_new_session session a app_id) h allowed =
      new_session-TablesAgree debug st session a app_id h allowed
  apply-TablesAgree debug st (call_close_session session) h allowed =
      (close_session st session, refl, close_session-TablesAgree st session h)
  apply-TablesAgree debug st (call_close_stream session) h allowed =
      ((close_stream_of st session).0, refl, close_stream_of-TablesAgree st session h)
  apply-TablesAgree debug st (call_update_address session a) h allowed =
      let (after, moved, eq, kept) = update_address_of-TablesAgree debug st session a h in
      (after, rw (apply, eq) refl, kept)

  pub Reached-TablesAgree :
      {debug : Bool} {st : ProtocolState Addr Secret Key} → Reached debug st → TablesAgree st
  Reached-TablesAgree begin = AreConsistent-empty
  Reached-TablesAgree {debug} (go {st} {after} c r allowed eq) =
      let (found, eq2, kept) = apply-TablesAgree debug st c (Reached-TablesAgree r) allowed in
      subst (λ t. TablesAgree t) (same_ok found after (sym eq2 ∙ eq)) kept

  -- In every state that calls lead to from the new one - handshakes that begin, are used again or are
  -- promoted, sessions that begin with a number that is new, are done with their handshake, move to another
  -- address or are closed, and streams that are closed - where a promoted handshake becomes the session that
  -- it proposed: the next such call does not panic; then too each connection is listed once under its
  -- address and under no other, no other session is listed, and each connection has the number of its
  -- session.
  pub calls_keep_tables :
      (debug : Bool) (st : ProtocolState Addr Secret Key) (c : Call Addr Secret)
      → Reached debug st
      → IsAllowed st c
      → (after : ProtocolState Addr Secret Key) × (apply debug st c ≡ ok after) × TablesAgree after
  calls_keep_tables debug st c r allowed =
      apply-TablesAgree debug st c (Reached-TablesAgree r) allowed
