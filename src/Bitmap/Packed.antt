-- ===== src/Bitmap/Packed.antt =====
-- The compressed form of sylar/ds/bitmap.cc: `compress` and `uncompress`.
-- A run of two or more words that are all 0 or all 1 is stored as its number of bits, 14 of them in a
-- word that is marked with the run's value.
use ynwad.Base.{
  ℕ, zero, suc, ◌+◌, ◌/◌, ◌%◌, ◌^◌, Bool, true, false, ◌||◌, List, [], ◌∷◌, ◌++◌, ltb, ◌==◌,
  if◌then◌else◌, bit_and, bit_or,
}
use ynwad.Bitmap.{
  Bitmap, Outcome, done, compress_mask, value_mask, count_mask, data_size, new_bitmap, copy,
  set_range,
}
use ynwad.Bitmap.Ops.{each_run, update_word}

-- `__builtin_popcount` of a number of `width` bits.
abbrev pub popcount : ℕ → ℕ → ℕ
popcount zero w = 0
popcount (suc width) w = w % 2 + popcount width (w / 2)

abbrev pub count_bits : ℕ → ℕ
count_bits w = popcount 32 w

-- A whole word of one value.
abbrev pub full_word : Bool → ℕ
full_word v = if v then count_mask else 0

abbrev pub mark : Bool → ℕ → ℕ
mark v count =
    if v
    then bit_or (bit_or compress_mask value_mask) (bit_and count count_mask)
    else bit_or compress_mask (bit_and count count_mask)

-- The loop that writes a run's count; five words hold any `uint64_t`.
unfoldable pub write_count : ℕ → Bool → ℕ → List ℕ
write_count zero v count = []
write_count (suc fuel) v count = elim (count == 0) [
  | true ↦ []
  | false ↦ mark v count ∷ write_count fuel v (count / 2 ^ 14)
]

-- What is written of a run when it ends.
unfoldable pub end_run : Bool → ℕ → List ℕ
end_run v count =
    if ltb 1 (count / 14)
    then write_count 5 v count
    else if count == 0
    then []
    else full_word v ∷ []

-- The loop of `compress`, in a run of `count` bits with the value `v`.
unfoldable pub compress_words : Bool → ℕ → List ℕ → List ℕ
compress_words v count [] = end_run v count
compress_words v count (w ∷ ws) =
    let c = count_bits (bit_and w count_mask) in
    elim (if v then c == 14 else c == 0) [
      | true ↦ compress_words v (count + 14) ws
      | false ↦ end_run v count ++ elim ((c == 0) || (c == 14)) [
        | true ↦ compress_words (c == 14) 14 ws
        | false ↦ w ∷ compress_words v 0 ws
      ]
    ]

unfoldable pub compress : Bitmap → Bitmap
compress b = if b.compressed then copy b else record {
  compressed = true;
  size = b.size;
  words = compress_words false 0 b.words;
  is_null = false;
}

unfoldable pub uncompress : Bitmap → Outcome Bitmap
uncompress b =
    if b.compressed
    then each_run set_range (update_word (λ w count. count)) (data_size b) 0 b.words
        (new_bitmap b.size 0)
    else done (copy b)
