-- ===== src/State/Requests/Wanted.antt =====
-- Which of the positions that are a chunk apart `reserve_for_request` accepts.
use ubass_rs.Base.{
  ℕ, ◌+◌, ◌/◌, ◌^◌, ◌≤◌, ◌<◌, ◌≡◌, refl, sym, subst, ap, ◌∙◌, arith, leb, ltb, ltb→ge, lt→leb_false,
  le→leb, ltb→lt, ◌||◌, ◌⊎◌, Option, Bool, true, false, not, ◌&&◌, if◌then◌else◌, List, [], ◌∷◌,
  get_or, length, All, All-imp, Bool-cases, inl, inr, some, none, ◌==◌,
}
use ubass_rs.Base.Outcome.{ok}
use ubass_rs.Base.Maps.{HashMap, nat_eq, insert, contains_key, contains_key-insert}
use ubass_rs.Clock.{recent, is_recent, contains_key-recent, retain_recent-recent}
use ubass_rs.Buffers.Writeable.{WriteableBuffer, buffer_length, position_occupied}
use ubass_rs.Buffers.Writeable.Writes.{position_occupied_lem, position_occupied-none}
use ubass_rs.Retransmit.Ranges.{IsIncreasing}
use ubass_rs.State.Requests.{StreamingFrom, is_none_or, reserve_loop, reserve_for_request}
use ubass_rs.State.Requests.Reserve.{
  Reserves, reserve_refuses, reserve_accepts, IsStreaming, reserve_loop-Reserves,
}
use ubass_rs.State.Requests.Sweep.{ok_fields}

-- Positions in increasing order, at least a chunk apart.
abbrev pub AreSpaced : List ℕ → Type 0
AreSpaced [] = Unit
AreSpaced (p ∷ ps) = All (λ q. p + 1368 ≤ q) ps × AreSpaced ps

-- The position is in the buffer, and its chunk is neither filled nor asked for.
abbrev pub is_open : WriteableBuffer → (ℕ → Bool) → ℕ → Bool
is_open b asked p =
    leb p (buffer_length b) && (not (get_or b.map (p / 1368) false) && not (asked (p / 1368)))

unfoldable pub open_positions : WriteableBuffer → (ℕ → Bool) → List ℕ → List ℕ
open_positions b asked [] = []
open_positions b asked (p ∷ ps) =
    let rest = open_positions b asked ps in if is_open b asked p then p ∷ rest else rest

-- The positions in the buffer whose chunks are not filled and were not asked for in the last 500 ms.
abbrev pub wanted : ℕ → StreamingFrom → List ℕ → List ℕ
wanted now sf ps = open_positions sf.buffer (λ i. is_recent (λ ts. ts) now 500 i sf.pending) ps

open_positions-ext :
    (b : WriteableBuffer) (asked other : ℕ → Bool) (ps : List ℕ)
    → All (λ p. asked (p / 1368) ≡ other (p / 1368)) ps
    → open_positions b asked ps ≡ open_positions b other ps
unfolding open_positions
open_positions-ext b asked other [] same = refl
open_positions-ext b asked other (p ∷ ps) (same, later) =
    rw (open_positions, same, open_positions-ext b asked other ps later) refl

-- What is asked for at `p` does not matter to positions behind its chunk.
open_positions-insert :
    (b : WriteableBuffer) (pending : HashMap ℕ ℕ) (p now : ℕ) (ps : List ℕ)
    → All (λ q. p + 1368 ≤ q) ps
    → open_positions b (λ i. contains_key i (insert (p / 1368) now pending)) ps
      ≡ open_positions b (λ i. contains_key i pending) ps
open_positions-insert b pending p now ps spaced =
    open_positions-ext b (λ i. contains_key i (insert (p / 1368) now pending))
      (λ i. contains_key i pending) ps
      (All-imp
        (λ q h.
          contains_key-insert (p / 1368) (q / 1368) now pending
          ∙ ap (λ c. if c then true else contains_key (q / 1368) pending) (behind q h))
        ps spaced)
  where
    behind : (q : ℕ) → p + 1368 ≤ q → (p / 1368 == q / 1368) ≡ false
    behind q h = ground arith

closed :
    (b : WriteableBuffer) (asked : ℕ → Bool) (p : ℕ) (ps : List ℕ)
    → is_open b asked p ≡ false
    → open_positions b asked ps ≡ open_positions b asked (p ∷ ps)
unfolding open_positions
closed b asked p ps h = rw (open_positions, h) refl

opened :
    (b : WriteableBuffer) (asked : ℕ → Bool) (p : ℕ) (ps : List ℕ)
    → is_open b asked p ≡ true
    → p ∷ open_positions b asked ps ≡ open_positions b asked (p ∷ ps)
unfolding open_positions
opened b asked p ps h = rw (open_positions, h) refl

outside : (n p : ℕ) (c : Bool) → ltb n p ≡ true → (leb p n && c) ≡ false
outside n p c h = rw (lt→leb_false n p (ltb→lt n p h)) refl

refused_open :
    (b : WriteableBuffer) (now : ℕ) (pending : HashMap ℕ ℕ) (p : ℕ) (ps : List ℕ)
    (occupied : Option Bool)
    → position_occupied b p ≡ ok occupied
    → (is_none_or occupied || contains_key (p / 1368) pending) ≡ true
    → is_open b (λ i. contains_key i pending) p ≡ false
    → (after : HashMap ℕ ℕ) × (reserve_loop b now pending ps
        ≡ ok (open_positions b (λ i. contains_key i pending) ps, after))
    → (after : HashMap ℕ ℕ) × (reserve_loop b now pending (p ∷ ps)
        ≡ ok (open_positions b (λ i. contains_key i pending) (p ∷ ps), after))
refused_open b now pending p ps occupied state refused shut (after, eq) = (
  after,
  reserve_refuses b now pending p ps occupied state refused
        (open_positions b (λ i. contains_key i pending) ps) after eq
      ∙ ap (λ l. ok (l, after)) (closed b (λ i. contains_key i pending) p ps shut),
)

reserve_loop-open_positions :
    (b : WriteableBuffer) (now : ℕ) (pending : HashMap ℕ ℕ) (ps : List ℕ)
    → length b.map ≡ buffer_length b / 1368 + 1
    → AreSpaced ps
    → (after : HashMap ℕ ℕ) × (reserve_loop b now pending ps
        ≡ ok (open_positions b (λ i. contains_key i pending) ps, after))
unfolding reserve_loop open_positions
reserve_loop-open_positions b now pending [] chunks spaced = (pending, refl)
reserve_loop-open_positions b now pending (p ∷ ps) chunks (apart, spaced) =
    let rest = reserve_loop-open_positions b now pending ps chunks spaced in
    elim (Bool-cases (ltb (buffer_length b) p)) [
      | inl out ↦
          refused_open b now pending p ps none (position_occupied-none b p out) refl
            (outside (buffer_length b) p _ out) rest
      | inr inside ↦
          let state = position_occupied_lem b p chunks (ltb→ge (buffer_length b) p inside) in
          let here = le→leb p (buffer_length b) (ltb→ge (buffer_length b) p inside) in
          elim (Bool-cases (get_or b.map (p / 1368) false)) [
            | inl filled ↦
                refused_open b now pending p ps (some true) (state ∙ ap (λ f. ok (some f)) filled)
                  refl (shut here (inl filled)) rest
            | inr open_ ↦ elim (Bool-cases (contains_key (p / 1368) pending)) [
              | inl old ↦
                  refused_open b now pending p ps (some false) (state ∙ ap (λ f. ok (some f)) open_)
                    old (shut here (inr old)) rest
              | inr new ↦
                  let (after, later) =
                    reserve_loop-open_positions b now (insert (p / 1368) now pending) ps chunks
                      spaced in
                  (
                    after,
                    reserve_accepts b now pending p ps (state ∙ ap (λ f. ok (some f)) open_) new
                          (open_positions b (λ i. contains_key i pending) ps) after
                          (later
                            ∙ ap (λ l. ok (l, after))
                                (open_positions-insert b pending p now ps apart))
                        ∙ ap (λ l. ok (l, after))
                            (opened b (λ i. contains_key i pending) p ps (free here open_ new)),
                  )
            ]
          ]
    ]
  where
    shut :
        leb p (buffer_length b) ≡ true
        → (get_or b.map (p / 1368) false ≡ true) ⊎ (contains_key (p / 1368) pending ≡ true)
        → is_open b (λ i. contains_key i pending) p ≡ false
    shut here (inl filled) = rw (here, filled) refl
    shut here (inr old) = ground (arith, old)

    free :
        leb p (buffer_length b) ≡ true
        → get_or b.map (p / 1368) false ≡ false
        → contains_key (p / 1368) pending ≡ false
        → is_open b (λ i. contains_key i pending) p ≡ true
    free here open_ new = rw (here, open_, new) refl

wanted-recent :
    (now : ℕ) (sf : StreamingFrom) (ps : List ℕ)
    → open_positions sf.buffer (λ i. contains_key i (recent (λ ts. ts) now 500 sf.pending)) ps
      ≡ wanted now sf ps
wanted-recent now sf ps =
    open_positions-ext sf.buffer (λ i. contains_key i (recent (λ ts. ts) now 500 sf.pending))
      (λ i. is_recent (λ ts. ts) now 500 i sf.pending) ps (everywhere ps)
  where
    everywhere :
        (qs : List ℕ)
        → All
            (λ q.
              contains_key (q / 1368) (recent (λ ts. ts) now 500 sf.pending)
              ≡ is_recent (λ ts. ts) now 500 (q / 1368) sf.pending)
            qs
    everywhere [] = tt
    everywhere (q ∷ qs) =
        (contains_key-recent (λ ts. ts) now 500 (q / 1368) sf.pending, everywhere qs)

-- Positions at least a chunk apart: those that are wanted are accepted, and pending since `now`.
pub reserve_for_request-wanted :
    (debug : Bool) (now : ℕ) (sf : StreamingFrom) (ps : List ℕ)
    → IsStreaming now sf
    → AreSpaced ps
    → (after : HashMap ℕ ℕ) × (reserve_for_request debug now sf ps
        ≡ ok (record sf { pending = after }, wanted now sf ps))
      × Reserves sf.buffer now (recent (λ ts. ts) now 500 sf.pending) (wanted now sf ps) after
unfolding reserve_for_request
reserve_for_request-wanted debug now sf ps s spaced =
    let kept = recent (λ ts. ts) now 500 sf.pending in
    let (accepted, after, eq, r) = reserve_loop-Reserves sf.buffer now kept ps s.chunks in
    let (after2, eq2) = reserve_loop-open_positions sf.buffer now kept ps s.chunks spaced in
    let same =
      ok_fields (accepted, after) (open_positions sf.buffer (λ i. contains_key i kept) ps, after2)
        (sym eq ∙ eq2)
      ∙ wanted-recent now sf ps in
    (
      after,
      rw
          (
            reserve_for_request,
            retain_recent-recent (λ ts. ts) debug now 500 sf.pending s.past,
            eq,
            same,
          )
          refl,
      subst (λ l. Reserves sf.buffer now kept l after) same r,
    )

open_positions-All :
    (b : WriteableBuffer) (asked : ℕ → Bool) (P : ℕ → Type 0) (ps : List ℕ)
    → All P ps
    → All P (open_positions b asked ps)
unfolding open_positions
open_positions-All b asked P [] all = tt
open_positions-All b asked P (p ∷ ps) (h, all) = elim (Bool-cases (is_open b asked p)) [
  | inl c ↦ rw (open_positions, c) (h, open_positions-All b asked P ps all)
  | inr c ↦ rw (open_positions, c) (open_positions-All b asked P ps all)
]

pub open_positions-AreSpaced :
    (b : WriteableBuffer) (asked : ℕ → Bool) (ps : List ℕ)
    → AreSpaced ps
    → AreSpaced (open_positions b asked ps)
unfolding open_positions
open_positions-AreSpaced b asked [] spaced = tt
open_positions-AreSpaced b asked (p ∷ ps) (apart, spaced) = elim (Bool-cases (is_open b asked p)) [
  | inl c ↦
      rw (open_positions, c)
        (
          open_positions-All b asked (λ q. p + 1368 ≤ q) ps apart,
          open_positions-AreSpaced b asked ps spaced,
        )
  | inr c ↦ rw (open_positions, c) (open_positions-AreSpaced b asked ps spaced)
]

pub AreSpaced-IsIncreasing :
    (p : ℕ) (ps : List ℕ) → AreSpaced (p ∷ ps) → All (λ q. q + 1368 < 2 ^ 32) ps → IsIncreasing p ps
AreSpaced-IsIncreasing p [] spaced small = tt
AreSpaced-IsIncreasing p (q ∷ ps) ((h, _), spaced) (fits, small) =
    (omega (arith, h), (fits, AreSpaced-IsIncreasing q ps spaced small))
