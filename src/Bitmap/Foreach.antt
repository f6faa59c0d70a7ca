-- ===== src/Bitmap/Foreach.antt =====
-- The loops of `foreach` and `listPosAsc` of sylar/ds/bitmap.cc over the words of a bitmap.
use ynwad.Base.{
  ℕ, zero, suc, ◌+◌, ◌-◌, ◌*◌, ◌/◌, ◌%◌, ◌≤◌, ◌<◌, ◌≡◌, refl, sym, ap, ◌∙◌, Bool, true, List, [],
  ◌∷◌, ◌++◌, some, ◌==◌, if◌then◌else◌, length, get_elem?, ==-false, arith, ◌⊎◌, inl, append-nil,
  append_assoc,
}
use native.Mathlib.Decide.{ℕ_discrete}
use ynwad.Bitmap.{Bitmap, Outcome, done, throws, fault, ◌>>=◌, in_bounds, get, has_bit}
use ynwad.Bitmap.Ops.{pack64}
use ynwad.Bitmap.Valid.{IsPlain}
use ynwad.Bitmap.Walk.{Walk, walk_word, walk_words, walk_groups, foreach, list_pos_asc}
use ynwad.Bitmap.Visit.{positions, visit, IsRest}
use ynwad.Bitmap.Steps.{Matches, word_step, skip_step}

module _ {ℓ} {S : Type ℓ} (cb : ℕ → S → S × Bool) (size : ℕ) (test : ℕ → Bool) where
  -- The last loop from a word on.
  after_words : List ℕ → Walk S → Outcome S
  after_words ws r = done (walk_words cb size ws r).state

  -- The first loop from a group on, and the last one behind it.
  after_groups : ℕ → List ℕ → Walk S → Outcome S
  after_groups groups ws r = walk_groups cb size groups ws r >>= (λ t. done t.state)

  words-IsRest :
      (ws : List ℕ) (q : ℕ)
      → Matches cb size test ws q
      → size ≤ q + 14 * length ws
      → IsRest cb size (after_words ws) test q
  unfolding walk_words after_words
  words-IsRest [] q same enough = record {
    stopped = λ s p. refl;
    from = λ s p place. ap (λ n. done (visit cb (positions test p n) s)) (behind p place);
  }
    where
      behind : (p : ℕ) → (p ≡ q) ⊎ (size ≤ p) → 0 ≡ size - p
      behind p place = ground (arith, place, enough)
  words-IsRest (w ∷ ws) q same enough =
      let rest = words-IsRest ws (q + 14) same.1 (omega (arith, enough)) in
      elim (ℕ_discrete w 0) [
        | yes blank ↦
            let skip = skip_step cb size test (after_words ws) w q blank same.0 rest in
            record {
              stopped = λ s p. refl;
              from = λ s p place.
                  ap
                    (λ t. after_words ws (
                      if t
                      then record { state = s; pos = p + 14; go = true }
                      else walk_word cb size w (record { state = s; pos = p; go = true })))
                    (ap (λ t. t == 0) blank)
                  ∙ skip.from s p place;
            }
        | no other ↦
            let step = word_step cb size test (after_words ws) w q same.0 rest in
            record {
              stopped = λ s p. refl;
              from = λ s p place.
                  ap
                    (λ t. after_words ws (
                      if t
                      then record { state = s; pos = p + 14; go = true }
                      else walk_word cb size w (record { state = s; pos = p; go = true })))
                    (==-false w 0 other)
                  ∙ step.from s p place;
            }
      ]

  -- The words behind a group, by whether the group is passed over.
  next_group : ℕ → ℕ → ℕ → ℕ → ℕ → List ℕ → S → ℕ → Bool → Outcome S
  next_group groups a b c d ws s p blank =
      let r : Walk S = record { state = s; pos = p; go = true } in
      after_groups groups ws (
        if blank
        then record { state = s; pos = p + 56; go = true }
        else walk_word cb size d
            (walk_word cb size c (walk_word cb size b (walk_word cb size a r))))

  fourth : (p : ℕ) → p + 56 ≡ p + 14 + 14 + 14 + 14
  fourth p = omega arith

  groups-IsRest :
      (groups : ℕ) (ws : List ℕ) (q : ℕ)
      → Matches cb size test ws q
      → size ≤ q + 14 * length ws
      → groups * 4 ≤ length ws
      → IsRest cb size (after_groups groups ws) test q
  unfolding walk_groups after_groups after_words next_group
  groups-IsRest zero ws q same enough full = words-IsRest ws q same enough
  groups-IsRest (suc groups) (a ∷ b ∷ c ∷ d ∷ ws) q (sa, (sb, (sc, (sd, same)))) enough full =
      let rest =
        groups-IsRest groups ws (q + 14 + 14 + 14 + 14) same (omega (arith, enough))
          (omega (arith, full)) in
      elim (ℕ_discrete (pack64 a b c d) 0) [
        | yes blank ↦
            let skip = skip_step cb size test _ a q (omega (arith, blank)) sa (
              skip_step cb size test _ b (q + 14) (omega (arith, blank)) sb (
                skip_step cb size test _ c (q + 14 + 14) (omega (arith, blank)) sc (
                  skip_step cb size test (after_groups groups ws) d (q + 14 + 14 + 14)
                    (omega (arith, blank)) sd rest))) in
            record {
              stopped = λ s p. refl;
              from = λ s p place.
                  ap (next_group groups a b c d ws s p) (ap (λ t. t == 0) blank)
                  ∙ ap (λ t. after_groups groups ws (record { state = s; pos = t; go = true }))
                      (fourth p)
                  ∙ skip.from s p place;
            }
        | no other ↦
            let step = word_step cb size test _ a q sa (
              word_step cb size test _ b (q + 14) sb (
                word_step cb size test _ c (q + 14 + 14) sc (
                  word_step cb size test (after_groups groups ws) d (q + 14 + 14 + 14) sd rest))) in
            record {
              stopped = λ s p. refl;
              from = λ s p place.
                  ap (next_group groups a b c d ws s p) (==-false (pack64 a b c d) 0 other)
                  ∙ step.from s p place;
            }
      ]
  groups-IsRest (suc groups) [] q same enough full = absurd (omega (arith, full))
  groups-IsRest (suc groups) (a ∷ []) q same enough full = absurd (omega (arith, full))
  groups-IsRest (suc groups) (a ∷ b ∷ []) q same enough full = absurd (omega (arith, full))
  groups-IsRest (suc groups) (a ∷ b ∷ c ∷ []) q same enough full = absurd (omega (arith, full))

  -- The bits that `get` reads are those of the words.
  words-Matches :
      (ws : List ℕ) (q : ℕ)
      → ((i j w : ℕ)
          → get_elem? ws i ≡ some w
          → j < 14
          → q + (14 * i + j) < size
          → has_bit w j ≡ test (q + (14 * i + j)))
      → Matches cb size test ws q
  words-Matches [] q h = tt
  words-Matches (w ∷ ws) q h = (
    λ j hj hs. h 0 j w refl hj (omega (arith, hs)) ∙ ap test (first j),
    words-Matches ws (q + 14)
        (λ i j x found hj hs. h (suc i) j x found hj (omega (arith, hs)) ∙ ap test (next i j)),
  )
    where
      first : (j : ℕ) → q + (14 * 0 + j) ≡ q + j
      first j = omega arith

      next : (i j : ℕ) → q + (14 * suc i + j) ≡ q + 14 + (14 * i + j)
      next i j = omega arith

pub get_place :
    (i j w : ℕ) (b : Bitmap)
    → get_elem? b.words i ≡ some w
    → j < 14
    → get (14 * i + j) b ≡ done (has_bit w j)
unfolding get
get_place i j w b e hj =
    ap (λ t. in_bounds (get_elem? b.words t) >>= (λ w. done (has_bit w ((14 * i + j) % 14)))) place
    ∙ rw e (ap (λ t. done (has_bit w t)) left)
  where
    place : (14 * i + j) / 14 ≡ i
    place = omega (arith, hj)

    left : (14 * i + j) % 14 ≡ j
    left = omega (arith, hj)

pub done-≡ : (x y : Bool) → done x ≡ done y → x ≡ y
done-≡ x y e = ap (λ m. elim m [ done t ↦ t | throws ↦ x | fault ↦ x ]) e

pub get-Matches {ℓ} :
    {S : Type ℓ} (cb : ℕ → S → S × Bool) (test : ℕ → Bool) (b : Bitmap)
    → ((i : ℕ) → i < b.size → get i b ≡ done (test i))
    → Matches cb b.size test b.words 0
get-Matches cb test b bits = words-Matches cb b.size test b.words 0 (λ i j w found hj hs.
    done-≡ _ _ (sym (get_place i j w b found hj) ∙ bits (14 * i + j) (omega (arith, hs)))
    ∙ ap test (start (14 * i + j)))
  where
    start : (n : ℕ) → n ≡ 0 + n
    start n = omega arith

-- `foreach` on a plain bitmap ends, and calls the callback for the bits that `get` finds set, ascending,
-- until it says to stop.
pub foreach-visit {ℓ} :
    {S : Type ℓ} (cb : ℕ → S → S × Bool) (test : ℕ → Bool) (b : Bitmap) (s : S)
    → IsPlain b
    → ((i : ℕ) → i < b.size → get i b ≡ done (test i))
    → foreach cb b s ≡ done (visit cb (positions test 0 b.size) s)
unfolding foreach after_groups
foreach-visit cb test b s ok bits =
    let rest =
      groups-IsRest cb b.size test (b.size / 56) b.words 0 (get-Matches cb test b bits)
        (omega (arith, ok.full)) (omega (arith, ok.full)) in
    rest.from s 0 (inl refl) ∙ ap (λ n. done (visit cb (positions test 0 n) s)) (omega arith)

visit_push : (ps s : List ℕ) → visit (λ i s. (s ++ (i ∷ []), true)) ps s ≡ s ++ ps
visit_push [] s = sym (append-nil s)
visit_push (p ∷ ps) s = visit_push ps (s ++ (p ∷ [])) ∙ append_assoc s (p ∷ []) ps

-- `listPosAsc` on a plain bitmap appends the positions of the bits that `get` finds set, ascending.
pub list_pos_asc-positions :
    (test : ℕ → Bool) (b : Bitmap) (pos : List ℕ)
    → IsPlain b
    → ((i : ℕ) → i < b.size → get i b ≡ done (test i))
    → list_pos_asc b pos ≡ done (pos ++ positions test 0 b.size)
unfolding list_pos_asc
list_pos_asc-positions test b pos ok bits =
    foreach-visit (λ i s. (s ++ (i ∷ []), true)) test b pos ok bits
    ∙ ap done (visit_push (positions test 0 b.size) pos)
