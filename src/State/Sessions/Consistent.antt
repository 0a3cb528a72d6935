-- ===== src/State/Sessions/Consistent.antt =====
-- The tables of sessions agree, and every operation keeps them so.
use ubass_rs.Base.{
  ℕ, ◌≡◌, refl, sym, ap, ◌∙◌, arith, ◌==◌, ==_iff, Bool, true, false, List, [], Option, none, some,
  Bool-cases, inl, inr, if◌then◌else◌,
}
use ubass_rs.Base.Maps.{
  Eq, HashMap, nat_eq, get, insert, remove, get-insert, get-remove, get-remove_self, beq_refl,
}
use ubass_rs.State.Streams.{ConnectionStates, established, address}
use ubass_rs.State.Addresses.{list_session, remove_session}
use ubass_rs.State.Addresses.Listed.{listed, counted, listed-list_session, remove_session_lem}

-- The session of a connection.
abbrev pub session_of : {Addr : Type 0} → ConnectionStates Addr → ℕ
session_of (ConnectionStates.handshake s app_id a) = s
session_of (established c) = c.session_id

-- A condition under which nothing is counted.
pub counts_zero : (b : Bool) → ◌≡◌ {A = ℕ} (if b then if false then 1 else 0 else 0) 0
counts_zero true = refl
counts_zero false = refl

module _ {Addr : Type 0} ⦃e : Eq Addr⦄ where
  -- Whether a connection is at the address.
  unfoldable pub is_at : Addr → Option (ConnectionStates Addr) → ℕ
  unfolding address
  is_at a none = 0
  is_at a (some c) = if e.beq (address c) a then 1 else 0

  -- Each connection is once under its address, and under no other; nothing else is listed; and each
  -- connection has its own session.
  pub record AreConsistent (connections : HashMap ℕ (ConnectionStates Addr))
      (table : HashMap Addr (List ℕ)) : Type 0 where
    pub once : (session : ℕ) (a : Addr) → listed session a table ≡ is_at a (get session connections)
    pub own :
        (session : ℕ) (c : ConnectionStates Addr)
        → get session connections ≡ some c
        → session_of c ≡ session

  own-insert :
      (session : ℕ) (c : ConnectionStates Addr) (connections : HashMap ℕ (ConnectionStates Addr))
      → ((s : ℕ) (d : ConnectionStates Addr) → get s connections ≡ some d → session_of d ≡ s)
      → session_of c ≡ session
      → (s : ℕ) (d : ConnectionStates Addr) → get s (insert session c connections) ≡ some d
      → session_of d ≡ s
  own-insert session c connections own here s d h = elim (Bool-cases (session == s)) [
    | inl same ↦ cc (
      here,
      (==_iff session s).0 same,
      rw (same) at (sym (get-insert session s c connections) ∙ h),
    )
    | inr other ↦ own s d (rw (other) at (sym (get-insert session s c connections) ∙ h))
  ]

  is_at-insert_same :
      (session z : ℕ) (a : Addr) (c : ConnectionStates Addr)
      (connections : HashMap ℕ (ConnectionStates Addr))
      → (session == z) ≡ true
      → is_at a (get z (insert session c connections)) ≡ (if e.beq (address c) a then 1 else 0)
  unfolding is_at
  is_at-insert_same session z a c connections same =
      ap (λ o. is_at a o) (get-insert session z c connections)
      ∙ ap (λ b. is_at a (if b then some c else get z connections)) same

  is_at-insert_other :
      (session z : ℕ) (a : Addr) (c : ConnectionStates Addr)
      (connections : HashMap ℕ (ConnectionStates Addr))
      → (session == z) ≡ false
      → is_at a (get z (insert session c connections)) ≡ is_at a (get z connections)
  is_at-insert_other session z a c connections other =
      ap (λ o. is_at a o) (get-insert session z c connections)
      ∙ ap (λ b. is_at a (if b then some c else get z connections)) other

  is_at-remove_same :
      (session z : ℕ) (a : Addr) (connections : HashMap ℕ (ConnectionStates Addr))
      → (session == z) ≡ true
      → is_at a (get z (remove session connections)) ≡ 0
  unfolding is_at
  is_at-remove_same session z a connections same =
      ap (λ o. is_at a o) (get-remove session z connections)
      ∙ ap (λ b. is_at a (if b then none else get z connections)) same

  is_at-remove_other :
      (session z : ℕ) (a : Addr) (connections : HashMap ℕ (ConnectionStates Addr))
      → (session == z) ≡ false
      → is_at a (get z (remove session connections)) ≡ is_at a (get z connections)
  is_at-remove_other session z a connections other =
      ap (λ o. is_at a o) (get-remove session z connections)
      ∙ ap (λ b. is_at a (if b then none else get z connections)) other

  -- What is listed for the session that is found, or for one that is not.
  once_some :
      (session z : ℕ) (a : Addr) (c : ConnectionStates Addr)
      (connections : HashMap ℕ (ConnectionStates Addr)) (table : HashMap Addr (List ℕ))
      → AreConsistent connections table
      → get session connections ≡ some c
      → (session == z) ≡ true
      → listed z a table ≡ (if e.beq (address c) a then 1 else 0)
  unfolding is_at
  once_some session z a c connections table h old same =
      h.once z a
      ∙ ap (λ o. is_at a o) (ap (λ k. get k connections) (sym ((==_iff session z).0 same)) ∙ old)

  once_none :
      (session z : ℕ) (a : Addr) (connections : HashMap ℕ (ConnectionStates Addr))
      (table : HashMap Addr (List ℕ))
      → AreConsistent connections table
      → get session connections ≡ none
      → (session == z) ≡ true
      → listed z a table ≡ 0
  unfolding is_at
  once_none session z a connections table h new same =
      h.once z a
      ∙ ap (λ o. is_at a o) (ap (λ k. get k connections) (sym ((==_iff session z).0 same)) ∙ new)

  -- A new connection is listed.
  pub AreConsistent-insert_new :
      (session : ℕ) (c : ConnectionStates Addr) (connections : HashMap ℕ (ConnectionStates Addr))
      (table : HashMap Addr (List ℕ))
      → AreConsistent connections table
      → get session connections ≡ none
      → session_of c ≡ session
      → AreConsistent (insert session c connections) (list_session (address c) session table)
  unfolding is_at
  AreConsistent-insert_new session c connections table h new mine = record {
    once = λ z a.
        listed-list_session session z (address c) a table ∙ (elim (Bool-cases (session == z)) [
          | inl same ↦ rw (same) (
              omega (
                arith,
                once_none session z a connections table h new same,
                is_at-insert_same session z a c connections same,
              ))
          | inr other ↦
              rw (other, counts_zero (e.beq (address c) a))
                (omega (arith, h.once z a, is_at-insert_other session z a c connections other))
        ]);
    own = own-insert session c connections h.own mine;
  }

  -- A connection that is replaced by one of the same session and address stays listed.
  pub AreConsistent-replace :
      (session : ℕ) (c d : ConnectionStates Addr) (connections : HashMap ℕ (ConnectionStates Addr))
      (table : HashMap Addr (List ℕ))
      → AreConsistent connections table
      → get session connections ≡ some c
      → session_of d ≡ session
      → address d ≡ address c
      → AreConsistent (insert session d connections) table
  unfolding is_at
  AreConsistent-replace session c d connections table h old mine same_address = record {
    once = λ z a. elim (Bool-cases (session == z)) [
      | inl same ↦
          once_some session z a c connections table h old same
          ∙ (ap (λ b. if e.beq b a then 1 else 0) (sym same_address)
              ∙ sym (is_at-insert_same session z a d connections same))
      | inr other ↦ h.once z a ∙ sym (is_at-insert_other session z a d connections other)
    ];
    own = own-insert session d connections h.own mine;
  }

  -- A connection that goes is not listed any more.
  pub AreConsistent-remove :
      (session : ℕ) (c : ConnectionStates Addr) (connections : HashMap ℕ (ConnectionStates Addr))
      (table : HashMap Addr (List ℕ))
      → AreConsistent connections table
      → get session connections ≡ some c
      → ((remove_session (address c) session table).1 ≡ some session)
        × AreConsistent (remove session connections) (remove_session (address c) session table).0
  AreConsistent-remove session c connections table h old =
      let there =
        once_some session session (address c) c connections table h old (beq_refl session) in
      let (found, less) =
        remove_session_lem session (address c) table
          (omega (arith, there, rw (beq_refl (address c)) at there)) in
      (
        found,
        record {
          once = λ z a. elim (Bool-cases (session == z)) [
            | inl same ↦ omega (
              arith,
              once_some session z a c connections table h old same,
              rw (same) at (less z a),
              is_at-remove_same session z a connections same,
            )
            | inr other ↦ omega (
              arith,
              rw (other, counts_zero (e.beq (address c) a)) at (less z a),
              h.once z a,
              is_at-remove_other session z a connections other,
            )
          ];
          own = λ z d h2. elim (Bool-cases (session == z)) [
            | inl same ↦ cc (rw (same) at (sym (get-remove session z connections) ∙ h2))
            | inr other ↦ h.own z d (rw (other) at (sym (get-remove session z connections) ∙ h2))
          ];
        },
      )

  AreConsistent-ext :
      (connections others : HashMap ℕ (ConnectionStates Addr)) (table : HashMap Addr (List ℕ))
      → AreConsistent connections table
      → ((s : ℕ) → get s connections ≡ get s others)
      → AreConsistent others table
  AreConsistent-ext connections others table h same = record {
    once = λ s a. h.once s a ∙ ap (λ o. is_at a o) (same s);
    own = λ s c old. h.own s c (same s ∙ old);
  }

  insert-remove :
      (session : ℕ) (d : ConnectionStates Addr) (connections : HashMap ℕ (ConnectionStates Addr))
      (s : ℕ)
      → get s (insert session d (remove session connections)) ≡ get s (insert session d connections)
  insert-remove session d connections s = elim (Bool-cases (session == s)) [
    | inl same ↦
        (get-insert session s d (remove session connections)
          ∙ ap (λ b. if b then some d else get s (remove session connections)) same)
        ∙ sym (
            get-insert session s d connections
            ∙ ap (λ b. if b then some d else get s connections) same)
    | inr other ↦
        (get-insert session s d (remove session connections)
          ∙ ap (λ b. if b then some d else get s (remove session connections)) other)
        ∙ ((get-remove session s connections
              ∙ ap (λ b. if b then none else get s connections) other)
            ∙ sym (
                get-insert session s d connections
                ∙ ap (λ b. if b then some d else get s connections) other))
  ]

  -- A connection that gets another address is listed under that.
  pub AreConsistent-move :
      (session : ℕ) (c d : ConnectionStates Addr) (connections : HashMap ℕ (ConnectionStates Addr))
      (table : HashMap Addr (List ℕ))
      → AreConsistent connections table
      → get session connections ≡ some c
      → session_of d ≡ session
      → ((remove_session (address c) session table).1 ≡ some session)
        × AreConsistent
            (insert session d connections)
            (list_session (address d) session (remove_session (address c) session table).0)
  AreConsistent-move session c d connections table h old mine =
      let (found, less) = AreConsistent-remove session c connections table h old in
      (
        found,
        AreConsistent-ext (insert session d (remove session connections))
            (insert session d connections)
            (list_session (address d) session (remove_session (address c) session table).0)
            (AreConsistent-insert_new session d (remove session connections)
              (remove_session (address c) session table).0 less
              (get-remove_self session connections) mine)
            (insert-remove session d connections),
      )

  -- A connection that is taken out and put back as another one of the same session and address.
  pub AreConsistent-put_back :
      (session : ℕ) (c d : ConnectionStates Addr) (connections : HashMap ℕ (ConnectionStates Addr))
      (table : HashMap Addr (List ℕ))
      → AreConsistent connections table
      → get session connections ≡ some c
      → session_of d ≡ session
      → address d ≡ address c
      → AreConsistent (insert session d (remove session connections)) table
  AreConsistent-put_back session c d connections table h old mine same_address =
      AreConsistent-ext (insert session d connections)
        (insert session d (remove session connections)) table
        (AreConsistent-replace session c d connections table h old mine same_address)
        (λ s. sym (insert-remove session d connections s))

  pub AreConsistent-empty : AreConsistent [] []
  unfolding listed counted get is_at
  AreConsistent-empty = record { once = λ s a. refl; own = λ s c h. cc h }
