-- ===== src/State/Addresses/Listed.antt =====
-- How often a session is listed under an address.
use ubass_rs.Base.{
  ℕ, zero, suc, ◌+◌, ◌<◌, ◌≡◌, refl, sym, ap, ◌∙◌, arith, ◌==◌, ==_iff, true, List, [], ◌∷◌, ◌++◌,
  Option, none, some, Option-cases, Bool-cases, inl, inr, if◌then◌else◌,
}
use ubass_rs.Base.Maps.{Eq, HashMap, nat_eq, get, insert, remove, get-insert, get-remove, beq_refl}
use ubass_rs.State.Addresses.{
  position, split_last, swap_remove, list_session, put_back, remove_session,
}

unfoldable pub count : ℕ → List ℕ → ℕ
count x [] = 0
count x (y ∷ v) = (if y == x then 1 else 0) + count x v

count-append : (x : ℕ) (v w : List ℕ) → count x (v ++ w) ≡ count x v + count x w
unfolding count
count-append x [] w = omega arith
count-append x (y ∷ v) w = omega (arith, count-append x v w)

count-split_last :
    (z x : ℕ) (v : List ℕ) → count z ((split_last x v).0 ∷ (split_last x v).1) ≡ count z (x ∷ v)
unfolding count
count-split_last z x [] = refl
count-split_last z x (y ∷ v) = omega (arith, count-split_last z y v)

position_zero : (x y : ℕ) (v : List ℕ) → position x (y ∷ v) ≡ some 0 → (y == x) ≡ true
unfolding position
position_zero x y v h = elim (Bool-cases (y == x)) [
  | inl here ↦ here
  | inr later ↦ elim (Option-cases (position x v)) [
    | inl away ↦ cc (rw (position, later, away) at h)
    | inr (j, found) ↦ cc (rw (position, later, found) at h)
  ]
]

position_suc : (x y i : ℕ) (v : List ℕ) → position x (y ∷ v) ≡ some (suc i) → position x v ≡ some i
unfolding position
position_suc x y i v h = elim (Bool-cases (y == x)) [
  | inl here ↦ cc (rw (position, here) at h)
  | inr later ↦ elim (Option-cases (position x v)) [
    | inl away ↦ cc (rw (position, later, away) at h)
    | inr (j, found) ↦ found ∙ cc (rw (position, later, found) at h)
  ]
]

-- One occurrence of what was found goes away.
count-swap_remove :
    (z x i : ℕ) (v : List ℕ)
    → position x v ≡ some i
    → count z (swap_remove i v) + (if x == z then 1 else 0) ≡ count z v
unfolding count position swap_remove
count-swap_remove z x i [] h = cc h
count-swap_remove z x zero (y ∷ []) h =
    let same = (==_iff y x).0 (position_zero x y [] h) in
    ap (λ k. 0 + (if k == z then 1 else 0)) (sym same) ∙ omega arith
count-swap_remove z x zero (y ∷ w ∷ v) h =
    let same = (==_iff y x).0 (position_zero x y (w ∷ v) h) in
    ap (λ k. count z ((split_last w v).0 ∷ (split_last w v).1) + (if k == z then 1 else 0))
      (sym same)
    ∙ omega (arith, count-split_last z w v)
count-swap_remove z x (suc i) (y ∷ v) h =
    omega (arith, count-swap_remove z x i v (position_suc x y i v h))

position_none : (x : ℕ) (v : List ℕ) → position x v ≡ none → count x v ≡ 0
unfolding count position
position_none x [] h = refl
position_none x (y ∷ v) h = elim (Bool-cases (y == x)) [
  | inl here ↦ cc (rw (position, here) at h)
  | inr later ↦ elim (Option-cases (position x v)) [
    | inl away ↦ rw (count, later) (omega (arith, position_none x v away))
    | inr (j, found) ↦ cc (rw (position, later, found) at h)
  ]
]

unfoldable pub counted : ℕ → Option (List ℕ) → ℕ
unfolding count
counted x none = 0
counted x (some v) = count x v

module _ {Addr : Type 0} ⦃e : Eq Addr⦄ where
  -- The number of times that the session is listed under the address.
  unfoldable pub listed : ℕ → Addr → HashMap Addr (List ℕ) → ℕ
  unfolding get counted
  listed session a table = counted session (get a table)

  listed-insert :
      (z : ℕ) (a b : Addr) (v : List ℕ) (table : HashMap Addr (List ℕ))
      → listed z b (insert a v table) ≡ (if e.beq a b then count z v else listed z b table)
  unfolding listed counted
  listed-insert z a b v table =
      ap (λ o. counted z o) (get-insert a b v table)
      ∙ elim (Bool-cases (e.beq a b)) [ inl here ↦ rw (here) refl | inr away ↦ rw (away) refl ]

  listed-remove :
      (z : ℕ) (a b : Addr) (table : HashMap Addr (List ℕ))
      → listed z b (remove a table) ≡ (if e.beq a b then 0 else listed z b table)
  unfolding listed counted
  listed-remove z a b table =
      ap (λ o. counted z o) (get-remove a b table)
      ∙ elim (Bool-cases (e.beq a b)) [ inl here ↦ rw (here) refl | inr away ↦ rw (away) refl ]

  listed-put_back :
      (z : ℕ) (a b : Addr) (v : List ℕ) (table : HashMap Addr (List ℕ))
      → listed z b (put_back a v table) ≡ (if e.beq a b then count z v else listed z b table)
  unfolding put_back count
  listed-put_back z a b (x ∷ v) table = listed-insert z a b (x ∷ v) table
  listed-put_back z a b [] table = listed-remove z a b table

  listed_same :
      (z : ℕ) (a b : Addr) (table : HashMap Addr (List ℕ))
      → e.beq a b ≡ true
      → listed z b table ≡ listed z a table
  listed_same z a b table here = ap (λ c. listed z c table) (sym ((e.beq_iff a b).0 here))

  listed-none :
      (z : ℕ) (a : Addr) (table : HashMap Addr (List ℕ)) → get a table ≡ none → listed z a table ≡ 0
  unfolding listed counted
  listed-none z a table new = ap (λ o. counted z o) new

  listed-some :
      (z : ℕ) (a : Addr) (v : List ℕ) (table : HashMap Addr (List ℕ))
      → get a table ≡ some v
      → listed z a table ≡ count z v
  unfolding listed counted
  listed-some z a v table old = ap (λ o. counted z o) old

  pub listed-list_session :
      (session z : ℕ) (a b : Addr) (table : HashMap Addr (List ℕ))
      → listed z b (list_session a session table)
        ≡ listed z b table + (if e.beq a b then if session == z then 1 else 0 else 0)
  unfolding list_session count
  listed-list_session session z a b table = elim (Option-cases (get a table)) [
    | inl new ↦
        rw (list_session, new, listed-insert z a b (session ∷ []) table)
          (elim (Bool-cases (e.beq a b)) [
            | inl here ↦
                rw (here, listed_same z a b table here, listed-none z a table new) (omega arith)
            | inr away ↦ rw (away) (omega arith)
          ])
    | inr (v, old) ↦
        rw (list_session, old, listed-insert z a b (v ++ (session ∷ [])) table)
          (elim (Bool-cases (e.beq a b)) [
            | inl here ↦
                rw (here, listed_same z a b table here, listed-some z a v table old)
                  (count-append z v (session ∷ []) ∙ omega arith)
            | inr away ↦ rw (away) (omega arith)
          ])
  ]

  pub remove_session_lem :
      (session : ℕ) (a : Addr) (table : HashMap Addr (List ℕ))
      → 0 < listed session a table
      → ((remove_session a session table).1 ≡ some session)
        × ((z : ℕ) (b : Addr)
            → listed z b (remove_session a session table).0
                + (if e.beq a b then if session == z then 1 else 0 else 0)
              ≡ listed z b table)
  unfolding remove_session
  remove_session_lem session a table h = elim (Option-cases (get a table)) [
    | inl new ↦ absurd (omega (arith, h, listed-none session a table new))
    | inr (v, old) ↦ elim (Option-cases (position session v)) [
      | inl missing ↦
          absurd
            (omega (arith, h, listed-some session a v table old, position_none session v missing))
      | inr (i, found) ↦ (
        rw (remove_session, old, found) refl,
        λ z b.
            rw (remove_session, old, found, listed-put_back z a b (swap_remove i v) table)
              (elim (Bool-cases (e.beq a b)) [
                | inl here ↦
                    rw (here, listed_same z a b table here, listed-some z a v table old)
                      (count-swap_remove z session i v found)
                | inr away ↦ rw (away) (omega arith)
              ]),
      )
    ]
  ]

  -- A session that is not listed under the address is not removed.
  pub remove_session-none :
      (session : ℕ) (a : Addr) (table : HashMap Addr (List ℕ))
      → listed session a table ≡ 0
      → (remove_session a session table).1 ≡ none
  unfolding remove_session
  remove_session-none session a table h = elim (Option-cases (get a table)) [
    | inl new ↦ rw (remove_session, new) refl
    | inr (v, old) ↦ elim (Option-cases (position session v)) [
      | inl missing ↦ rw (remove_session, old, missing) refl
      | inr (i, found) ↦ absurd (
          omega (
            arith,
            h,
            listed-some session a v table old,
            count-swap_remove session session i v found,
            rw (beq_refl session) at (count-swap_remove session session i v found),
          ))
    ]
  ]
