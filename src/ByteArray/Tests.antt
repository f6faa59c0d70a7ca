-- ===== src/ByteArray/Tests.antt =====
-- Runs on a buffer of three-byte blocks, and the theorems about the buffer at concrete inputs.
use ynwad.Base.{ℕ, ◌+◌, ◌≡◌, refl, List, [], ◌∷◌, splice, arith}
use ynwad.ByteArray.{ByteArray, big, done, ◌>>◌, init, new_node, write, read, read_at, set_position}
use ynwad.ByteArray.Valid.{IsValid, contents}
use ynwad.ByteArray.Write.{Wrote, write_lem}
use ynwad.ByteArray.Read.{read_flat, read-read_flat}
use ynwad.ByteArray.Seek.{set_position_flat, set_position-set_position_flat, write-read}

abbrev empty : ByteArray
empty = record {
  base_size = 3;
  position = 0;
  capacity = 3;
  size = 0;
  endian = big;
  nodes = (7 ∷ 7 ∷ 7 ∷ []) ∷ [];
  cur = 0;
  fresh = λ i. 7;
}

empty-IsValid : IsValid empty
empty-IsValid = omega arith

-- Seven bytes over three blocks, read up to the fifth.
abbrev seven : ByteArray
seven = record {
  base_size = 3;
  position = 4;
  capacity = 9;
  size = 7;
  endian = big;
  nodes = (1 ∷ 2 ∷ 3 ∷ []) ∷ (4 ∷ 5 ∷ 6 ∷ []) ∷ (8 ∷ 0 ∷ 0 ∷ []) ∷ [];
  cur = 1;
  fresh = λ i. 0;
}

seven-IsValid : IsValid seven
seven-IsValid = omega arith

abbrev hello : List ℕ
hello = 104 ∷ 101 ∷ 108 ∷ 108 ∷ 111 ∷ []

hello_run :
    (write hello >> (set_position 1 >> read 3)) (init (λ i. 0) 3)
    ≡ done (101 ∷ 108 ∷ 108 ∷ []) (record empty {
      position = 4;
      capacity = 6;
      size = 5;
      nodes = (104 ∷ 101 ∷ 108 ∷ []) ∷ (108 ∷ 111 ∷ 0 ∷ []) ∷ [];
      cur = 1;
      fresh = λ i. 0;
    })
unfolding write set_position read init new_node
hello_run = refl

-- A read at another block's place gives the bytes of the current block.
read_at_run : read_at 1 0 seven ≡ done (4 ∷ []) seven
unfolding read_at
read_at_run = refl

write_lem_example : (b' : ByteArray) × (write hello empty ≡ done tt b') × Wrote hello empty b'
write_lem_example = write_lem hello empty empty-IsValid

read-read_flat_example : read 2 seven ≡ read_flat 2 seven
read-read_flat_example = read-read_flat 2 seven seven-IsValid

set_position-set_position_flat_example : set_position 8 seven ≡ set_position_flat 8 seven
set_position-set_position_flat_example = set_position-set_position_flat 8 seven seven-IsValid

write-read_example :
    (b' : ByteArray) × ((write hello >> (set_position 4 >> read 5)) seven ≡ done hello b')
    × IsValid b'
    × (b'.position ≡ 4 + 5)
    × (contents b' ≡ splice (contents seven) 4 hello)
write-read_example = write-read hello seven seven-IsValid (omega arith)
