-- ===== src/Bitmap/Cursor.antt =====
-- The forward iterator of sylar/ds/bitmap.cc. `m_pos` starts at -1; the record has `m_pos + 1`.
use ynwad.Base.{
  ℕ, zero, suc, ◌+◌, ◌-◌, ◌/◌, ◌%◌, Bool, true, false, List, [], ◌∷◌, ltb, ◌==◌, if◌then◌else◌,
  drop, get_elem?,
}
use ynwad.Bitmap.{Bitmap, Outcome, done, ◌>>=◌, in_bounds, has_bit}

-- The bits of a word from `i` on: where it stops, and whether at a bit.
unfoldable pub seek_bit : ℕ → ℕ → ℕ → ℕ → ℕ → ℕ × Bool
seek_bit size w zero i pos = (pos, false)
seek_bit size w (suc left) i pos =
    let rest = seek_bit size w left (i + 1) (pos + 1) in
    if ltb pos size then (if has_bit w i then (pos, true) else rest) else (pos, false)

-- The second loop, over the words left.
unfoldable pub seek_words : ℕ → List ℕ → ℕ → ℕ
seek_words size [] pos = pos
seek_words size (w ∷ ws) pos =
    let r = seek_bit size w 14 0 pos in
    if ltb pos size
    then (if w == 0
        then seek_words size ws (pos + 14)
        else if r.1
        then r.0
        else seek_words size ws r.0)
    else pos

-- `next` behind `++m_pos`.
unfoldable pub seek : ℕ → Bitmap → Outcome ℕ
seek pos b = if pos % 14 == 0 then done (seek_words b.size (drop (pos / 14) b.words) pos) else do
  w ← in_bounds (get_elem? b.words (pos / 14))
  let r = seek_bit b.size w (14 - pos % 14) (pos % 14) pos
  done (if r.1 then r.0 else seek_words b.size (drop (r.0 / 14) b.words) r.0)

pub record Iterator : Type 0 where
  pub after_pos : ℕ
  pub map : Bitmap

unfoldable pub next : Iterator → Outcome Iterator
next it = do q ← seek it.after_pos it.map; done (record it { after_pos = q + 1 })

unfoldable pub begin : Bitmap → Outcome Iterator
begin b = next (record { after_pos = 0; map = b })

-- `!it`, which is true of an iterator that stands at a position of the map.
unfoldable pub is_at : Iterator → Bool
is_at it = if it.after_pos == 0 then false else ltb (it.after_pos - 1) it.map.size
