-- ===== src/State/FecPrune.antt =====
-- `FecPruneTask` of src/manager/state.rs: what batches that were given up still lack is asked for. What is
-- sent is a list; one round of the task is a function of the time.
pub mod Round
use ubass_rs.Base.{ℕ, ltb, Bool, List, [], ◌∷◌, ◌++◌, map, Option, none, some, if◌then◌else◌}
use ubass_rs.Base.Outcome.{Outcome, ok, ◌>>=◌}
use ubass_rs.Base.Maps.{Eq, HashMap, nat_eq, get, insert}
use ubass_rs.Packets.Streams.{RetransmitPacket}
use ubass_rs.Retransmit.{coalesce_byte_positions}
use ubass_rs.State.Requests.{StreamingFrom, reserve_for_request}
use ubass_rs.State.Dispatch.{dispatch_retransmit_request}
use ubass_rs.State.Streams.{
  Streaming, StreamState, SessionStates, streaming_state, EstablishedState, ConnectionStates,
  established,
}

-- `by_session`: sessions of batches that lack nothing that is known are left out.
unfoldable pub group_by_session : HashMap ℕ (List ℕ) → List (ℕ × ℕ × List ℕ) → HashMap ℕ (List ℕ)
unfolding get insert
group_by_session grouped [] = grouped
group_by_session grouped ((session, batch, []) ∷ expired) = group_by_session grouped expired
group_by_session grouped ((session, batch, p ∷ ps) ∷ expired) =
    group_by_session
      (insert session (elim (get session grouped) [ none ↦ p ∷ ps | some old ↦ old ++ (p ∷ ps) ])
        grouped)
      expired

-- The positions that are accepted, as packets; nothing when none is.
unfoldable pub dispatch_accepted : Bool → ℕ → ℕ → List ℕ → Outcome (List RetransmitPacket)
unfolding coalesce_byte_positions dispatch_retransmit_request
dispatch_accepted debug now session [] = ok []
dispatch_accepted debug now session (p ∷ ps) = do
  ranges ← coalesce_byte_positions debug (p ∷ ps)
  dispatch_retransmit_request debug now session ranges

-- A stream that receives, a state, and a connection; the others are left as they are.
unfoldable pub ask_again :
    Bool → ℕ → ℕ → List ℕ → StreamingFrom → Outcome (StreamingFrom × List RetransmitPacket)
unfolding reserve_for_request dispatch_accepted
ask_again debug now session positions sf = do
  accepted ← reserve_for_request debug now sf positions
  packets ← dispatch_accepted debug now session accepted.1
  ok (accepted.0, packets)

unfoldable pub ask_in_stream :
    Bool
    → ℕ
    → ℕ
    → List ℕ
    → StreamState
    → Streaming
    → Outcome (SessionStates × List RetransmitPacket)
unfolding ask_again
ask_in_stream debug now session positions s (Streaming.to st) = ok (streaming_state s, [])
ask_in_stream debug now session positions s (Streaming.from sf) = do
  asked ← ask_again debug now session positions sf
  ok (streaming_state (record s { streaming = Streaming.from asked.0 }), asked.1)

unfoldable pub ask_in_state :
    Bool → ℕ → ℕ → List ℕ → SessionStates → Outcome (SessionStates × List RetransmitPacket)
unfolding ask_in_stream
ask_in_state debug now session positions SessionStates.up = ok (SessionStates.up, [])
ask_in_state debug now session positions SessionStates.down = ok (SessionStates.down, [])
ask_in_state debug now session positions (streaming_state s) =
    ask_in_stream debug now session positions s s.streaming

module _ {Addr : Type 0} where
  unfoldable pub ask_connection :
      Bool
      → ℕ
      → ℕ
      → List ℕ
      → ConnectionStates Addr
      → Outcome (ConnectionStates Addr × List (RetransmitPacket × Addr))
  unfolding ask_in_state
  ask_connection debug now session positions (ConnectionStates.handshake s app_id a) =
      ok (ConnectionStates.handshake s app_id a, [])
  ask_connection debug now session positions (established c) = do
    asked ← ask_in_state debug now session positions c.state
    ok (established (record c { state = asked.0 }), map (λ p. (p, c.address)) asked.1)

  -- The loop over the sessions.
  unfoldable pub ask_sessions :
      Bool
      → ℕ
      → HashMap ℕ (ConnectionStates Addr)
      → HashMap ℕ (List ℕ)
      → Outcome (HashMap ℕ (ConnectionStates Addr) × List (RetransmitPacket × Addr))
  unfolding get insert ask_connection
  ask_sessions debug now connections [] = ok (connections, [])
  ask_sessions debug now connections (x ∷ grouped) = elim (get x.0 connections) [
    | none ↦ ask_sessions debug now connections grouped
    | some c ↦ do
      asked ← ask_connection debug now x.0 x.1 c
      rest ← ask_sessions debug now (insert x.0 asked.0 connections) grouped
      ok (rest.0, asked.1 ++ rest.1)
  ]

  -- One round of `prune` with what `fec::prune` returned.
  unfoldable pub fec_prune_round :
      Bool
      → ℕ
      → HashMap ℕ (ConnectionStates Addr)
      → List (ℕ × ℕ × List ℕ)
      → Outcome (HashMap ℕ (ConnectionStates Addr) × List (RetransmitPacket × Addr))
  unfolding group_by_session ask_sessions
  fec_prune_round debug now connections expired =
      ask_sessions debug now connections (group_by_session [] expired)
