-- ===== src/State/Requests/Reserve.antt =====
-- What `reserve_for_request` accepts, and that it does not accept it again.
use ubass_rs.Base.{
  ℕ, ◌+◌, ◌/◌, ◌≤◌, ◌≡◌, ◌≢◌, refl, sym, ap, ◌∙◌, arith, ltb, ltb→ge, Bool, true, false, ◌||◌, List,
  [], ◌∷◌, length, get_or, All, All-imp, ◌==◌, ==_iff, ==_false, Bool-cases, inl, inr, Option, none,
  some,
}
use ubass_rs.Base.Outcome.{ok}
use ubass_rs.Base.Maps.{
  HashMap, nat_eq, get, insert, contains_key, get-insert, get-none, contains_key-none,
  contains_key-some, contains_key-none, get-insert_self,
}
use ubass_rs.Clock.{
  recent, ArePast, retain_recent-recent, contains_key-recent, is_recent-get, ArePast-recent,
  ArePast-later, ArePast-insert,
}
use ubass_rs.Buffers.Writeable.{WriteableBuffer, buffer_length, position_occupied}
use ubass_rs.Buffers.Writeable.Writes.{position_occupied_lem, position_occupied-none}
use ubass_rs.State.Requests.{StreamingFrom, is_none_or, reserve_loop, reserve_for_request}

-- A position in the buffer whose chunk is not filled.
abbrev pub IsUnfilled : WriteableBuffer → ℕ → Type 0
IsUnfilled b p = (p ≤ buffer_length b) × (get_or b.map (p / 1368) false ≡ false)

-- Positions of chunks that all differ.
abbrev pub AreApart : List ℕ → Type 0
AreApart [] = Unit
AreApart (p ∷ ps) = All (λ q. p / 1368 ≢ q / 1368) ps × AreApart ps

-- What the loop makes of the pending chunks `before`.
pub record Reserves (b : WriteableBuffer) (now : ℕ) (before : HashMap ℕ ℕ) (accepted : List ℕ)
    (after : HashMap ℕ ℕ) : Type 0 where
  pub unfilled : All (IsUnfilled b) accepted
  pub fresh : All (λ p. get (p / 1368) before ≡ none) accepted
  pub apart : AreApart accepted
  pub marked : All (λ p. get (p / 1368) after ≡ some now) accepted
  pub kept : (i v : ℕ) → get i before ≡ some v → get i after ≡ some v
  pub past : ArePast (λ ts. ts) now before → ArePast (λ ts. ts) now after

pub reserve_refuses :
    (b : WriteableBuffer) (now : ℕ) (before : HashMap ℕ ℕ) (p : ℕ) (ps : List ℕ)
    (occupied : Option Bool)
    → position_occupied b p ≡ ok occupied
    → (is_none_or occupied || contains_key (p / 1368) before) ≡ true
    → (accepted : List ℕ) (after : HashMap ℕ ℕ)
    → reserve_loop b now before ps ≡ ok (accepted, after)
    → reserve_loop b now before (p ∷ ps) ≡ ok (accepted, after)
unfolding reserve_loop
reserve_refuses b now before p ps occupied state refused accepted after eq =
    rw (reserve_loop, state, refused, eq) refl

pub reserve_accepts :
    (b : WriteableBuffer) (now : ℕ) (before : HashMap ℕ ℕ) (p : ℕ) (ps : List ℕ)
    → position_occupied b p ≡ ok (some false)
    → contains_key (p / 1368) before ≡ false
    → (accepted : List ℕ) (after : HashMap ℕ ℕ)
    → reserve_loop b now (insert (p / 1368) now before) ps ≡ ok (accepted, after)
    → reserve_loop b now before (p ∷ ps) ≡ ok (p ∷ accepted, after)
unfolding reserve_loop
reserve_accepts b now before p ps state new accepted after eq =
    rw (reserve_loop, state, new, eq) refl

get-insert-none :
    (i j now : ℕ) (m : HashMap ℕ ℕ) → get j (insert i now m) ≡ none → (i ≢ j) × (get j m ≡ none)
get-insert-none i j now m h = elim (Bool-cases (i == j)) [
  | inl same ↦ cc (h, rw same at (get-insert i j now m))
  | inr other ↦ (==_false i j other, sym (rw other at (get-insert i j now m)) ∙ h)
]

kept_over :
    (i j now v : ℕ) (m : HashMap ℕ ℕ)
    → contains_key i m ≡ false
    → get j m ≡ some v
    → get j (insert i now m) ≡ some v
kept_over i j now v m new h = elim (Bool-cases (i == j)) [
  | inl same ↦ cc ((==_iff i j).0 same, contains_key-some j v m h, new)
  | inr other ↦ rw other at (get-insert i j now m) ∙ h
]

refused_Reserves :
    (b : WriteableBuffer) (now : ℕ) (before : HashMap ℕ ℕ) (p : ℕ) (ps : List ℕ)
    (occupied : Option Bool)
    → ((accepted : List ℕ) × (after : HashMap ℕ ℕ) × (reserve_loop b now before ps
          ≡ ok (accepted, after))
        × Reserves b now before accepted after)
    → position_occupied b p ≡ ok occupied
    → (is_none_or occupied || contains_key (p / 1368) before) ≡ true
    → (accepted : List ℕ) × (after : HashMap ℕ ℕ) × (reserve_loop b now before (p ∷ ps)
        ≡ ok (accepted, after))
      × Reserves b now before accepted after
refused_Reserves b now before p ps occupied (accepted, after, eq, r) state refused =
    (accepted, after, reserve_refuses b now before p ps occupied state refused accepted after eq, r)

-- `p` is accepted in front of positions that are accepted after it.
Reserves-cons :
    (b : WriteableBuffer) (now : ℕ) (before : HashMap ℕ ℕ) (p : ℕ) (accepted : List ℕ)
    (after : HashMap ℕ ℕ)
    → IsUnfilled b p
    → contains_key (p / 1368) before ≡ false
    → Reserves b now (insert (p / 1368) now before) accepted after
    → Reserves b now before (p ∷ accepted) after
Reserves-cons b now before p accepted after open_ new r = record {
  unfilled = (open_, r.unfilled);
  fresh = (
    get-none (p / 1368) before new,
    All-imp (λ q h. (get-insert-none (p / 1368) (q / 1368) now before h).1) accepted r.fresh,
  );
  apart = (
    All-imp (λ q h. (get-insert-none (p / 1368) (q / 1368) now before h).0) accepted r.fresh,
    r.apart,
  );
  marked = (r.kept (p / 1368) now (get-insert_self (p / 1368) now before), r.marked);
  kept = λ i v h. r.kept i v (kept_over (p / 1368) i now v before new h);
  past = λ h. r.past (ArePast-insert (λ ts. ts) now (p / 1368) now before (omega arith) h);
}

pub reserve_loop-Reserves :
    (b : WriteableBuffer) (now : ℕ) (before : HashMap ℕ ℕ) (positions : List ℕ)
    → length b.map ≡ buffer_length b / 1368 + 1
    → (accepted : List ℕ) × (after : HashMap ℕ ℕ) × (reserve_loop b now before positions
        ≡ ok (accepted, after))
      × Reserves b now before accepted after
unfolding reserve_loop
reserve_loop-Reserves b now before [] chunks = (
  [],
  before,
  refl,
  record { unfilled = tt; fresh = tt; apart = tt; marked = tt; kept = λ i v h. h; past = λ h. h },
)
reserve_loop-Reserves b now before (p ∷ ps) chunks = elim (Bool-cases (ltb (buffer_length b) p)) [
  | inl out ↦
      refused_Reserves b now before p ps none (reserve_loop-Reserves b now before ps chunks)
        (position_occupied-none b p out) refl
  | inr inside ↦
      let state = position_occupied_lem b p chunks (ltb→ge (buffer_length b) p inside) in
      elim (Bool-cases (get_or b.map (p / 1368) false)) [
        | inl filled ↦
            refused_Reserves b now before p ps (some true)
              (reserve_loop-Reserves b now before ps chunks) (state ∙ ap (λ f. ok (some f)) filled)
              refl
        | inr open_ ↦ elim (Bool-cases (contains_key (p / 1368) before)) [
          | inl old ↦
              refused_Reserves b now before p ps (some false)
                (reserve_loop-Reserves b now before ps chunks) (state ∙ ap (λ f. ok (some f)) open_)
                old
          | inr new ↦
              let (accepted, after, eq, r) =
                reserve_loop-Reserves b now (insert (p / 1368) now before) ps chunks in
              (
                p ∷ accepted,
                after,
                reserve_accepts b now before p ps (state ∙ ap (λ f. ok (some f)) open_) new accepted
                    after eq,
                Reserves-cons b now before p accepted after
                    (ltb→ge (buffer_length b) p inside, open_) new r,
              )
        ]
      ]
]

-- The buffer has its chunks, and no pending request is of the future.
pub record IsStreaming (now : ℕ) (sf : StreamingFrom) : Type 0 where
  pub chunks : length sf.buffer.map ≡ buffer_length sf.buffer / 1368 + 1
  pub past : ArePast (λ ts. ts) now sf.pending

pub reserve_for_request-Reserves :
    (debug : Bool) (now : ℕ) (sf : StreamingFrom) (positions : List ℕ)
    → IsStreaming now sf
    → (accepted : List ℕ) × (after : HashMap ℕ ℕ) × (reserve_for_request debug now sf positions
        ≡ ok (record sf { pending = after }, accepted))
      × Reserves sf.buffer now (recent (λ ts. ts) now 500 sf.pending) accepted after
unfolding reserve_for_request
reserve_for_request-Reserves debug now sf positions s =
    let (accepted, after, eq, r) =
      reserve_loop-Reserves sf.buffer now (recent (λ ts. ts) now 500 sf.pending) positions
        s.chunks in
    (
      accepted,
      after,
      rw (reserve_for_request, retain_recent-recent (λ ts. ts) debug now 500 sf.pending s.past, eq)
          refl,
      r,
    )

apart_from :
    (later now p : ℕ) (before : HashMap ℕ ℕ) (accepted : List ℕ)
    → later ≤ now + 500
    → get (p / 1368) before ≡ some now
    → All (λ q. get (q / 1368) (recent (λ ts. ts) later 500 before) ≡ none) accepted
    → All (λ q. p / 1368 ≢ q / 1368) accepted
apart_from later now p before accepted soon marked fresh =
    All-imp
      (λ q h e. cc (
        is_recent-get (λ ts. ts) later 500 (p / 1368) now before marked soon,
        contains_key-recent (λ ts. ts) later 500 (p / 1368) before,
        contains_key-none (q / 1368) (recent (λ ts. ts) later 500 before) h,
        e,
      ))
      accepted fresh

-- Positions are asked for at `now`, and others at most 500 ms later, with only the buffer changed
-- in between: no call panics, every position returned is that of an unfilled chunk, and no chunk is
-- returned twice, neither in one answer nor in both.
pub reserved_once :
    (debug : Bool) (now later : ℕ) (sf : StreamingFrom) (buffer : WriteableBuffer) (ps qs : List ℕ)
    → IsStreaming now sf
    → length buffer.map ≡ buffer_length buffer / 1368 + 1
    → now ≤ later
    → later ≤ now + 500
    → (first : StreamingFrom) × (second : StreamingFrom) × (asked : List ℕ) × (again : List ℕ)
      × (reserve_for_request debug now sf ps ≡ ok (first, asked))
      × (reserve_for_request debug later (record first { buffer = buffer }) qs ≡ ok (second, again))
      × All (IsUnfilled sf.buffer) asked
      × All (IsUnfilled buffer) again
      × AreApart asked
      × AreApart again
      × All (λ p. All (λ q. p / 1368 ≢ q / 1368) again) asked
reserved_once debug now later sf buffer ps qs s chunks order soon =
    let (asked, after, eq, r) = reserve_for_request-Reserves debug now sf ps s in
    let first : StreamingFrom = record sf { pending = after; buffer = buffer } in
    let past : ArePast (λ ts. ts) now after =
      r.past (ArePast-recent (λ ts. ts) now 500 sf.pending s.past) in
    let (again, after2, eq2, r2) =
      reserve_for_request-Reserves debug later first qs
        (record { chunks = chunks; past = ArePast-later (λ ts. ts) now later after order past }) in
    (
      record sf { pending = after },
      record first { pending = after2 },
      asked,
      again,
      eq,
      eq2,
      r.unfilled,
      r2.unfilled,
      r.apart,
      r2.apart,
      All-imp (λ p h. apart_from later now p after again soon h r2.fresh) asked r.marked,
    )
