-- ===== src/State/Addresses.antt =====
-- `AddressSessionIdTable` of src/manager/state.rs: which sessions an address has. `Addr` is `SocketAddr`.
pub mod Listed
use ubass_rs.Base.{
  ℕ, zero, suc, ◌==◌, Bool, true, false, List, [], ◌∷◌, ◌++◌, Option, none, some, if◌then◌else◌,
}
use ubass_rs.Base.Maps.{Eq, HashMap, nat_eq, get, insert, remove}
use ubass_rs.State.Streams.{SessionStates, ConnectionStates, established}

-- `v.iter().position(|e| e.eq(&session_id))`
unfoldable pub position : ℕ → List ℕ → Option ℕ
position x [] = none
position x (y ∷ v) =
    if y == x then some 0 else elim (position x v) [ none ↦ none | some i ↦ some (suc i) ]

-- The last element of `x ∷ v`, and the others.
abbrev pub split_last : ℕ → List ℕ → ℕ × List ℕ
split_last x [] = (x, [])
split_last x (y ∷ v) = let rest = split_last y v in (rest.0, x ∷ rest.1)

-- `Vec::swap_remove`, where the index is in range: the last element takes the place.
unfoldable pub swap_remove : ℕ → List ℕ → List ℕ
swap_remove i [] = []
swap_remove zero (x ∷ []) = []
swap_remove zero (x ∷ y ∷ v) = let rest = split_last y v in rest.0 ∷ rest.1
swap_remove (suc i) (x ∷ v) = x ∷ swap_remove i v

abbrev pub is_empty : List ℕ → Bool
is_empty [] = true
is_empty (x ∷ v) = false

module _ {Addr : Type 0} ⦃e : Eq Addr⦄ where
  -- `.entry(address).and_modify(|v| v.push(session_id)).or_insert(vec![session_id])`
  unfoldable pub list_session : Addr → ℕ → HashMap Addr (List ℕ) → HashMap Addr (List ℕ)
  unfolding get insert
  list_session a session table =
      insert a (elim (get a table) [ none ↦ session ∷ [] | some v ↦ v ++ (session ∷ []) ]) table

  -- The vector of the address without the session; an empty vector leaves the table.
  unfoldable pub put_back : Addr → List ℕ → HashMap Addr (List ℕ) → HashMap Addr (List ℕ)
  unfolding insert remove
  put_back a v table = if is_empty v then remove a table else insert a v table

  -- `remove`
  unfoldable pub remove_session :
      Addr → ℕ → HashMap Addr (List ℕ) → HashMap Addr (List ℕ) × Option ℕ
  unfolding get position swap_remove put_back
  remove_session a session table = elim (get a table) [
    | none ↦ (table, none)
    | some v ↦ elim (position session v) [
      | none ↦ (table, none)
      | some i ↦ (put_back a (swap_remove i v) table, some session)
    ]
  ]

  -- `move_session`
  unfoldable pub move_session :
      Addr → ℕ → Addr → HashMap Addr (List ℕ) → HashMap Addr (List ℕ) × Option Addr
  unfolding remove_session list_session
  move_session source session destination table =
      let removed = remove_session source session table in
      elim removed.1 [
        | none ↦ (removed.0, none)
        | some _ ↦ (list_session destination session removed.0, some destination)
      ]

  -- The test of `free_session`
  unfoldable pub is_free : HashMap ℕ (ConnectionStates Addr) → ℕ → Bool
  unfolding get
  is_free connections session = elim (get session connections) [
    | none ↦ false
    | some (ConnectionStates.handshake s app_id a) ↦ false
    | some (established c) ↦ elim c.state [
      | SessionStates.up ↦ true
      | SessionStates.down ↦ true
      | SessionStates.streaming_state s ↦ false
    ]
  ]

  unfoldable pub find_free : HashMap ℕ (ConnectionStates Addr) → List ℕ → Option ℕ
  unfolding is_free
  find_free connections [] = none
  find_free connections (x ∷ v) = if is_free connections x then some x else find_free connections v

  -- `free_session`
  unfoldable pub free_session :
      HashMap Addr (List ℕ) → HashMap ℕ (ConnectionStates Addr) → Addr → Option ℕ
  unfolding get find_free
  free_session table connections a = elim (get a table) [
    | none ↦ none
    | some v ↦ find_free connections v
  ]
