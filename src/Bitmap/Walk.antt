-- ===== src/Bitmap/Walk.antt =====
-- The set bits of a bitmap one after another, as sylar/ds/bitmap.cc visits them: `foreach`,
-- `listPosAsc`, and the iterator. A callback gives its new state and whether to go on.
-- Positions are below 2 ^ 31, for which `m_pos` is an `int32_t`.
use ynwad.Base.{
  ℕ, zero, suc, ◌+◌, ◌/◌, Bool, true, ◌&&◌, List, [], ◌∷◌, ◌++◌, ltb, ◌==◌, if◌then◌else◌,
}
use ynwad.Bitmap.{Bitmap, Outcome, done, fault, ◌>>=◌, has_bit}
use ynwad.Bitmap.Ops.{pack64}

-- Where `foreach` stands: the callback's state, `cur_pos`, and whether it goes on.
pub record Walk {ℓ} (S : Type ℓ) : Type ℓ where
  pub state : S
  pub pos : ℕ
  pub go : Bool

module _ {ℓ} {S : Type ℓ} (cb : ℕ → S → S × Bool) (size : ℕ) where
  abbrev pub call : Walk S → Walk S
  call r =
      let answer = cb r.pos r.state in
      record { state = answer.0; pos = if answer.1 then r.pos + 1 else r.pos; go = answer.1 }

  -- The innermost loop: `left` bits of a word from `x` on.
  unfoldable pub walk_bits : ℕ → ℕ → ℕ → Walk S → Walk S
  walk_bits w zero x r = r
  walk_bits w (suc left) x r =
      let next = if has_bit w x then call r else record r { pos = r.pos + 1 } in
      if r.go && ltb r.pos size then walk_bits w left (x + 1) next else r

  abbrev pub walk_word : ℕ → Walk S → Walk S
  walk_word w r = walk_bits w 14 0 r

  -- The last loop: a word of 0 is passed over.
  unfoldable pub walk_words : List ℕ → Walk S → Walk S
  walk_words [] r = r
  walk_words (w ∷ ws) r =
      if r.go
      then walk_words ws (if w == 0 then record r { pos = r.pos + 14 } else walk_word w r)
      else r

  -- The first loop: four words of 0 are passed over at once.
  unfoldable pub walk_groups : ℕ → List ℕ → Walk S → Outcome (Walk S)
  walk_groups zero ws r = done (walk_words ws r)
  walk_groups (suc groups) (a ∷ b ∷ c ∷ d ∷ ws) r =
      let next =
        if pack64 a b c d == 0
        then record r { pos = r.pos + 56 }
        else walk_word d (walk_word c (walk_word b (walk_word a r))) in
      if r.go then walk_groups groups ws next else done r
  walk_groups (suc groups) _ r = fault

unfoldable pub foreach {ℓ} : {S : Type ℓ} → (ℕ → S → S × Bool) → Bitmap → S → Outcome S
foreach cb b s = do
  r ← walk_groups cb b.size (b.size / 56) b.words (record { state = s; pos = 0; go = true })
  done r.state

-- The loops are those of `foreach`, with `push_back` for the callback.
unfoldable pub list_pos_asc : Bitmap → List ℕ → Outcome (List ℕ)
list_pos_asc b pos = foreach (λ i s. (s ++ (i ∷ []), true)) b pos
