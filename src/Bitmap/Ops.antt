-- ===== src/Bitmap/Ops.antt =====
-- The operators of sylar/ds/bitmap.cc on whole bitmaps: `&=`, `|=`, `~` and `==`.
-- Four words are read and written as one `uint64_t` as long as whole groups are left.
use ynwad.Base.{
  ℕ, zero, suc, ◌+◌, ◌-◌, ◌*◌, ◌/◌, ◌%◌, ◌^◌, Bool, true, false, not, ◌&&◌, ◌||◌, List, [], ◌∷◌,
  ◌++◌, take, drop, Option, none, some, ltb, leb, ◌==◌, if◌then◌else◌, bit_and, bit_or, length,
  get_elem?,
}
use ynwad.Base
use ynwad.Bitmap.{
  Bitmap, Outcome, done, throws, fault, ◌>>=◌, in_bounds, compress_mask, value_mask, count_mask,
  not_value_mask, mask_of, data_size, set_range, copy,
}

-- Four words as the `uint64_t` at their place, on a little-endian machine.
abbrev pub pack64 : ℕ → ℕ → ℕ → ℕ → ℕ
pack64 a b c d = a + (b + (c + d * 2 ^ 16) * 2 ^ 16) * 2 ^ 16

abbrev pub unpack64 : ℕ → List ℕ → List ℕ
unpack64 w rest =
    w % 2 ^ 16 ∷ w / 2 ^ 16 % 2 ^ 16 ∷ w / 2 ^ 32 % 2 ^ 16 ∷ w / 2 ^ 48 % 2 ^ 16 ∷ rest

-- The second loop: word by word, for the words of the left bitmap.
unfoldable pub each_word : (ℕ → ℕ → ℕ) → List ℕ → List ℕ → Outcome (List ℕ)
each_word op [] bs = done []
each_word op (a ∷ xs) [] = fault
each_word op (a ∷ xs) (b ∷ bs) = do ws ← each_word op xs bs; done (op a b ∷ ws)

-- The first loop, `groups` times, and the second one behind it.
unfoldable pub each_group : (ℕ → ℕ → ℕ) → ℕ → List ℕ → List ℕ → Outcome (List ℕ)
each_group op zero xs bs = each_word op xs bs
each_group op (suc groups) (a ∷ b ∷ c ∷ d ∷ xs) (a' ∷ b' ∷ c' ∷ d' ∷ bs) = do
  ws ← each_group op groups xs bs
  done (unpack64 (op (pack64 a b c d) (pack64 a' b' c' d')) ws)
each_group op (suc groups) _ _ = fault

-- The marked words behind a run's first one that belong to it: the whole count, and the words left. A
-- word has 14 bits of the count, the lowest first; `i` is its place. A shift by 32 or more is a fault.
unfoldable pub run_count : ℕ → Bool → ℕ → List ℕ → Outcome (ℕ × List ℕ)
run_count i v count [] = done (count, [])
run_count i v count (w ∷ ws) =
    let marked = not (bit_and w compress_mask == 0) in
    let same = not (bit_and w value_mask == 0) in
    let shifted = bit_and w count_mask * 2 ^ (14 * i) % 2 ^ 32 in
    let rest = run_count (i + 1) v (bit_or shifted count) ws in
    if marked && (if v then same else not same)
    then (if ltb (14 * i) 32 then rest else fault)
    else done (count, w ∷ ws)

-- The loop over the compressed words: what is done with a run and with a plain word. `fuel` is the
-- number of words.
unfoldable pub each_run {ℓ} :
    {S : Type ℓ}
    → (ℕ → ℕ → Bool → S → Outcome S)
    → (ℕ → ℕ → S → Outcome S)
    → ℕ
    → ℕ
    → List ℕ
    → S
    → Outcome S
each_run on_run on_word fuel cur [] s = done s
each_run on_run on_word zero cur (w ∷ ws) s = fault
each_run on_run on_word (suc fuel) cur (w ∷ ws) s = elim (bit_and w compress_mask == 0) [
  | true ↦
      on_word cur (bit_and w count_mask) s >>= each_run on_run on_word fuel ((cur + 14) % 2 ^ 32) ws
  | false ↦
      let v = not (bit_and w value_mask == 0) in
      run_count 1 v (bit_and w count_mask) ws
      >>= (λ r. on_run cur r.0 v s >>= each_run on_run on_word fuel ((cur + r.0) % 2 ^ 32) r.1)
]

-- `m_data[cur_pos / VALUE_SIZE] op= count`
unfoldable pub update_word : (ℕ → ℕ → ℕ) → ℕ → ℕ → Bitmap → Outcome Bitmap
update_word op cur count b = do
  w ← in_bounds (get_elem? b.words (cur / 14))
  done (record b { words = Base.set b.words (cur / 14) (op w count) })

-- What `&=` and `|=` have in common: `keep` is the value of a run that changes nothing.
unfoldable pub assign_op : (ℕ → ℕ → ℕ) → Bool → Bitmap → Bitmap → Outcome Bitmap
assign_op op keep a b =
    if not (a.size == b.size)
    then throws
    else if a.compressed
    then throws
    else if b.compressed
    then each_run
        (λ cur count v s.
          if (if v then keep else not keep) then done s else set_range cur count v s)
        (update_word op) (data_size b) 0 b.words a
    else do ws ← each_group op (a.size / 56) a.words b.words; done (record a { words = ws })

unfoldable pub and_assign : Bitmap → Bitmap → Outcome Bitmap
unfolding assign_op
and_assign a b = assign_op bit_and true a b

unfoldable pub or_assign : Bitmap → Bitmap → Outcome Bitmap
unfolding assign_op
or_assign a b = assign_op bit_or false a b

-- `operator&` and `operator|`
unfoldable pub and : Bitmap → Bitmap → Outcome Bitmap
and a b = and_assign (copy a) b

unfoldable pub or : Bitmap → Bitmap → Outcome Bitmap
or a b = or_assign (copy a) b

-- The two loops of `~`.
unfoldable pub not_groups : ℕ → List ℕ → Outcome (List ℕ)
not_groups zero ws = done (Base.map (λ w. 2 ^ 16 - 1 - w) ws)
not_groups (suc groups) (a ∷ b ∷ c ∷ d ∷ ws) = do
  rest ← not_groups groups ws
  done (unpack64 (2 ^ 64 - 1 - pack64 a b c d) rest)
not_groups (suc groups) _ = fault

-- A word of the compressed form.
unfoldable pub not_packed : ℕ → ℕ
not_packed w =
    if bit_and w compress_mask == 0
    then bit_and (2 ^ 16 - 1 - w) count_mask
    else if bit_and w value_mask == 0
    then bit_or w value_mask
    else bit_and w not_value_mask

unfoldable pub complement : Bitmap → Outcome Bitmap
complement b =
    if b.compressed
    then done (record b { words = Base.map not_packed b.words })
    else do ws ← not_groups (b.size / 56) b.words; done (record b { words = ws })

-- `memcmp`
unfoldable pub same_words : List ℕ → List ℕ → Bool
same_words [] [] = true
same_words [] (b ∷ bs) = false
same_words (a ∷ xs) [] = false
same_words (a ∷ xs) (b ∷ bs) = if a == b then same_words xs bs else false

-- `operator==` of two objects.
unfoldable pub equals : Bitmap → Bitmap → Outcome Bool
equals a b =
    if (if a.compressed then b.compressed else not b.compressed)
      && (a.size == b.size)
      && (data_size a == data_size b)
      && same_words a.words b.words
    then (if a.size % 14 == 0 then done true else do
      x ← in_bounds (get_elem? a.words ((data_size a + 2 ^ 32 - 1) % 2 ^ 32))
      y ← in_bounds (get_elem? b.words ((data_size b + 2 ^ 32 - 1) % 2 ^ 32))
      done (bit_and x (mask_of (a.size % 14)) == bit_and y (mask_of (a.size % 14))))
    else done false
