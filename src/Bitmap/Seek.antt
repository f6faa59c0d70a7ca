-- ===== src/Bitmap/Seek.antt =====
-- The search of the iterator of sylar/ds/bitmap.cc for the next bit that is set.
use ynwad.Base.{
  ℕ, zero, suc, ◌+◌, ◌-◌, ◌*◌, ◌/◌, ◌%◌, ◌≤◌, ◌<◌, ◌≡◌, refl, sym, ap, ◌∙◌, Bool, true, false, List,
  [], ◌∷◌, Option, none, some, ltb, ◌==◌, if◌then◌else◌, drop, length, get_elem-some, length-drop,
  lt→ltb, ltb-false, ==-false, ◌⊎◌, inl, inr, arith,
}
use mathlib.Core.Path.{subst}
use native.Mathlib.Decide.{ℕ_discrete}
use ynwad.Bitmap.{Bitmap, done, get, has_bit}
use ynwad.Bitmap.Valid.{IsPlain}
use ynwad.Bitmap.Visit.{positions, zero-has, le_cases}
use ynwad.Bitmap.Steps.{Matches}
use ynwad.Bitmap.Foreach.{get-Matches, get_place, done-≡}
use ynwad.Bitmap.Cursor.{seek_bit, seek_words, seek}

abbrev pub first : List ℕ → Option ℕ
first [] = none
first (p ∷ ps) = some p

module _ (size : ℕ) (test : ℕ → Bool) where
  -- The next position that passes the test.
  abbrev pub next_from : ℕ → Option ℕ
  next_from p = first (positions test p (size - p))

  next-here : (p : ℕ) → p < size → next_from p ≡ (if test p then some p else next_from (p + 1))
  next-here p h = ap (λ n. first (positions test p n)) more ∙ choice (test p)
    where
      more : size - p ≡ suc (size - (p + 1))
      more = omega (arith, h)

      choice :
          (b : Bool)
          → first (
              if b
              then p ∷ positions test (p + 1) (size - (p + 1))
              else positions test (p + 1) (size - (p + 1)))
            ≡ (if b then some p else next_from (p + 1))
      choice true = refl
      choice false = refl

  next-behind : (p : ℕ) → size ≤ p → next_from p ≡ none
  next-behind p h = ap (λ n. first (positions test p n)) nothing
    where
      nothing : size - p ≡ 0
      nothing = omega (arith, h)

  -- A search that stops at a bit, or behind some places without one.
  data Sought (p n : ℕ) : ℕ × Bool → Type 0 where
    hit : {q : ℕ} → q < size → next_from p ≡ some q → Sought p n (q, true)
    miss : {q : ℕ} → (q ≡ p + n) ⊎ (size ≤ q) → next_from p ≡ next_from q → Sought p n (q, false)

  farther :
      (p n : ℕ) (r : ℕ × Bool)
      → next_from p ≡ next_from (p + 1)
      → Sought (p + 1) n r
      → Sought p (suc n) r
  farther p n _ e (hit h found) = hit h (e ∙ found)
  farther p n _ e (miss {q} at same) = miss (ground (arith, at)) (e ∙ same)

  seek_bit-Sought :
      (w left i p : ℕ)
      → ((j : ℕ) → j < left → p + j < size → has_bit w (i + j) ≡ test (p + j))
      → Sought p left (seek_bit size w left i p)
  unfolding seek_bit
  seek_bit-Sought w zero i p same = miss (inl (omega arith)) refl
  seek_bit-Sought w (suc left) i p same = elim (le_cases size p) [
    | inl behind ↦
        subst (Sought p (suc left))
          (sym (
            ap
              (λ t.
                if t
                then (if has_bit w i then (p, true) else seek_bit size w left (i + 1) (p + 1))
                else (p, false))
              (ltb-false p size behind)))
          (miss (inr behind) refl)
    | inr before ↦
        subst (Sought p (suc left))
          (sym (
            ap
              (λ t.
                if t
                then (if has_bit w i then (p, true) else seek_bit size w left (i + 1) (p + 1))
                else (p, false))
              (lt→ltb p size before)))
          (by_bit (has_bit w i)
            (ap (has_bit w) (here i)
              ∙ same 0 (omega arith) (omega (arith, before))
              ∙ ap test (sym (here p)))
            before
            (seek_bit-Sought w left (i + 1) (p + 1) (λ j hj hs.
              ap (has_bit w) (later i j)
              ∙ same (suc j) (omega (arith, hj)) (omega (arith, hs))
              ∙ ap test (sym (later p j)))))
  ]
    where
      here : (a : ℕ) → a ≡ a + 0
      here a = omega arith

      later : (a j : ℕ) → a + 1 + j ≡ a + suc j
      later a j = omega arith

      by_bit :
          (bit : Bool)
          → bit ≡ test p
          → p < size
          → Sought (p + 1) left (seek_bit size w left (i + 1) (p + 1))
          → Sought p (suc left) (if bit then (p, true) else seek_bit size w left (i + 1) (p + 1))
      by_bit true e before rest =
          hit before
            (next-here p before ∙ ap (λ t. if t then some p else next_from (p + 1)) (sym e))
      by_bit false e before rest =
          farther p left _
            (next-here p before ∙ ap (λ t. if t then some p else next_from (p + 1)) (sym e)) rest

  -- The words from `q` on have the bits of the test, as far as the size.
  abbrev Fits : List ℕ → ℕ → Type 0
  Fits ws q = Matches {S = ℕ} (λ i s. (s, true)) size test ws q

  Fits-drop : (k : ℕ) (ws : List ℕ) (q : ℕ) → Fits ws q → Fits (drop k ws) (q + 14 * k)
  Fits-drop zero ws q fits = subst (Fits ws) (omega arith) fits
  Fits-drop (suc k) [] q fits = tt
  Fits-drop (suc k) (w ∷ ws) q fits =
      subst (Fits (drop k ws)) (omega arith) (Fits-drop k ws (q + 14) fits.1)

  -- What a position says: itself, or that there is none.
  abbrev pub answer : ℕ → Option ℕ
  answer q = if ltb q size then some q else none

  answer-behind : (q : ℕ) → size ≤ q → answer q ≡ next_from q
  answer-behind q h =
      ap (λ t. if t then some q else none) (ltb-false q size h) ∙ sym (next-behind q h)

  answer-hit : (p q : ℕ) → q < size → next_from p ≡ some q → answer q ≡ next_from p
  answer-hit p q h e = ap (λ t. if t then some q else none) (lt→ltb q size h) ∙ sym e

  seek_behind : (ws : List ℕ) (q : ℕ) → size ≤ q → seek_words size ws q ≡ q
  unfolding seek_words
  seek_behind [] q h = refl
  seek_behind (w ∷ ws) q h = rw (ltb-false q size h) refl

  blank_next :
      (n p : ℕ)
      → ((j : ℕ) → j < n → p + j < size → test (p + j) ≡ false)
      → next_from p ≡ next_from (p + n)
  blank_next zero p h = ap next_from (omega arith)
  blank_next (suc n) p h = elim (le_cases size p) [
    | inl behind ↦ next-behind p behind ∙ sym (next-behind (p + suc n) (omega (arith, behind)))
    | inr before ↦
        next-here p before
        ∙ ap (λ t. if t then some p else next_from (p + 1))
            (ap test (here p) ∙ h 0 (omega arith) (omega (arith, before)))
        ∙ blank_next n (p + 1)
            (λ j hj hs. ap test (later p j) ∙ h (suc j) (omega (arith, hj)) (omega (arith, hs)))
        ∙ ap next_from (later p n)
  ]
    where
      here : (a : ℕ) → a ≡ a + 0
      here a = omega arith

      later : (a j : ℕ) → a + 1 + j ≡ a + suc j
      later a j = omega arith

  -- The words behind a search in one word.
  after_word :
      (ws : ℕ → List ℕ) (p n : ℕ) (r : ℕ × Bool)
      → Sought p n r
      → answer (seek_words size (ws (p + n)) (p + n)) ≡ next_from (p + n)
      → answer (if r.1 then r.0 else seek_words size (ws r.0) r.0) ≡ next_from p
  after_word ws p n _ (hit {q} h found) rest = answer-hit p q h found
  after_word ws p n _ (miss {q} (inl at) same) rest =
      ap (λ t. answer (seek_words size (ws t) t)) at ∙ rest ∙ ap next_from (sym at) ∙ sym same
  after_word ws p n _ (miss {q} (inr behind) same) rest =
      ap answer (seek_behind (ws q) q behind) ∙ answer-behind q behind ∙ sym same

  words-next :
      (ws : List ℕ) (p : ℕ)
      → Fits ws p
      → size ≤ p + 14 * length ws
      → answer (seek_words size ws p) ≡ next_from p
  unfolding seek_words
  words-next [] p fits enough = answer-behind p (omega (arith, enough))
  words-next (w ∷ ws) p fits enough =
      let rest = words-next ws (p + 14) fits.1 (omega (arith, enough)) in
      elim (le_cases size p) [
        | inl behind ↦ ap answer (seek_behind (w ∷ ws) p behind) ∙ answer-behind p behind
        | inr before ↦ elim (ℕ_discrete w 0) [
          | yes blank ↦
              rw (lt→ltb p size before, ap (λ t. t == 0) blank)
                (rest
                  ∙ sym (
                      blank_next 14 p (λ j hj hs.
                        sym (fits.0 j hj hs) ∙ ap (λ t. has_bit t j) blank ∙ zero-has j)))
          | no other ↦
              rw (lt→ltb p size before, ==-false w 0 other)
                (after_word (λ q. ws) p 14 _
                  (seek_bit-Sought w 14 0 p (λ j hj hs. ap (has_bit w) (start j) ∙ fits.0 j hj hs))
                  rest)
        ]
      ]
    where
      start : (j : ℕ) → 0 + j ≡ j
      start j = omega arith

-- Where `next` stops behind `++m_pos`.
pub seek-next :
    (test : ℕ → Bool) (b : Bitmap) (p : ℕ)
    → IsPlain b
    → ((i : ℕ) → i < b.size → get i b ≡ done (test i))
    → p ≤ b.size
    → (q : ℕ) × (seek p b ≡ done q)
      × ((if ltb q b.size then some q else none) ≡ first (positions test p (b.size - p)))
unfolding seek
seek-next test b p ok bits h =
    let size : ℕ = b.size in
    let fits = get-Matches {S = ℕ} (λ i s. (s, true)) test b bits in
    let from_word : (k : ℕ)
        → answer size test (seek_words size (drop k b.words) (14 * k))
          ≡ next_from size test (14 * k) =
      λ k.
        words-next size test (drop k b.words) (14 * k)
          (subst (Fits size test (drop k b.words)) (start k) (Fits-drop size test k b.words 0 fits))
          (omega (arith, length-drop k b.words, ok.full)) in
    let from_whole : (t : ℕ)
        → t % 14 ≡ 0
        → answer size test (seek_words size (drop (t / 14) b.words) t) ≡ next_from size test t =
      λ t whole.
        subst
          (λ u.
            answer size test (seek_words size (drop (t / 14) b.words) u) ≡ next_from size test u)
          (place t whole) (from_word (t / 14)) in
    elim (ℕ_discrete (p % 14) 0) [
      | yes whole ↦ (
        seek_words size (drop (p / 14) b.words) p,
        rw (ap (λ t. t == 0) whole) refl,
        from_whole p whole,
      )
      | no part ↦
          let (w, e) = get_elem-some (p / 14) b.words (omega (arith, ok.full, h, part)) in
          let n : ℕ = 14 - p % 14 in
          let r : ℕ × Bool = seek_bit size w n (p % 14) p in
          (
            (if r.1 then r.0 else seek_words size (drop (r.0 / 14) b.words) r.0),
            rw (==-false (p % 14) 0 part, e) refl,
            after_word size test (λ q. drop (q / 14) b.words) p n r
                (seek_bit-Sought size test w n (p % 14) p (λ j hj hs. done-≡ _ _ (
                  sym (get_place (p / 14) (p % 14 + j) w b e (omega (arith, hj)))
                  ∙ ap (λ t. get t b) (join p j)
                  ∙ bits (p + j) hs)))
                (from_whole (p + n) (omega (arith, part))),
          )
    ]
  where
    place : (t : ℕ) → t % 14 ≡ 0 → 14 * (t / 14) ≡ t
    place t whole = omega (arith, whole)

    start : (k : ℕ) → 0 + 14 * k ≡ 14 * k
    start k = omega arith

    join : (p j : ℕ) → 14 * (p / 14) + (p % 14 + j) ≡ p + j
    join p j = omega arith
