-- ===== src/ByteArray.antt =====
-- The chunked buffer of sylar/bytearray.cc and sylar/bytearray.h: the chain of memory blocks, the
-- current block and the operations that move bytes. Integers and strings are in `Codec`.
--
-- A block is its bytes. `m_root` and its successors are the list `nodes`, and `m_cur` is the index of
-- a block in it: the length of the list stands for the null pointer behind the last block.
-- An operation takes the object and returns it, throws `std::out_of_range` with the object as it was
-- left, or has a fault, which is undefined behaviour in the source.
pub mod Bind
pub mod Blocks
pub mod Valid
pub mod Flat
pub mod Write
pub mod Read
pub mod Seek
pub mod Iovec
pub mod Views
mod Tests
use ynwad.Base.{
  ℕ, zero, suc, ◌+◌, ◌-◌, ◌*◌, ◌/◌, ◌%◌, ◌^◌, Bool, true, false, List, [], ◌∷◌, ◌++◌, length, take,
  drop, splice, ltb, leb, ◌==◌, if◌then◌else◌, ◌||◌,
}

pub data Endian : Type 0 where
  little big : Endian

-- `fresh` holds the values that new memory happens to have, by its place in the buffer.
pub record ByteArray : Type 0 where
  pub base_size : ℕ
  pub position : ℕ
  pub capacity : ℕ
  pub size : ℕ
  pub endian : Endian
  pub nodes : List (List ℕ)
  pub cur : ℕ
  pub fresh : ℕ → ℕ

pub data Fault : Type 0 where
  null_deref div_by_zero buffer_overflow : Fault

pub data Outcome {ℓ} (A : Type ℓ) : Type ℓ where
  done : A → ByteArray → Outcome A
  throws : ByteArray → Outcome A
  fault : Fault → Outcome A

abbrev pub M {ℓ} : Type ℓ → Type ℓ
M A = ByteArray → Outcome A

infixl 5 ◌>>=◌ ◌>>◌
abbrev pub ◌>>=◌ {ℓ κ} : {A : Type ℓ} {B : Type κ} → M A → (A → M B) → M B
◌>>=◌ m f b = elim (m b) [ done a b' ↦ f a b' | throws b' ↦ throws b' | fault e ↦ fault e ]

abbrev pub ◌>>◌ {ℓ} : {B : Type ℓ} → M (Unit {0}) → M B → M B
m >> k = m >>= λ _. k

abbrev pub pure {ℓ} : {A : Type ℓ} → A → M A
pure a b = done a b

-- `new Node(s)` at place `i` of the buffer.
unfoldable pub new_node : (ℕ → ℕ) → ℕ → ℕ → List ℕ
new_node fresh i zero = []
new_node fresh i (suc s) = fresh i ∷ new_node fresh (suc i) s

unfoldable pub init : (ℕ → ℕ) → ℕ → ByteArray
init fresh base_size = record {
  base_size = base_size;
  position = 0;
  capacity = base_size;
  size = 0;
  endian = big;
  nodes = new_node fresh 0 base_size ∷ [];
  cur = 0;
  fresh = fresh;
}

unfoldable pub is_little_endian : ByteArray → Bool
is_little_endian b = elim b.endian [ little ↦ true | big ↦ false ]

unfoldable pub set_is_little_endian : Bool → ByteArray → ByteArray
set_is_little_endian val b = record b { endian = if val then little else big }

abbrev pub read_size : ByteArray → ℕ
read_size b = b.size - b.position

-- The private `getCapacity`: what is left behind the position.
abbrev pub capacity_left : ByteArray → ℕ
capacity_left b = b.capacity - b.position

unfoldable pub clear : ByteArray → ByteArray
clear b = record b {
  position = 0;
  size = 0;
  capacity = b.base_size;
  cur = 0;
  nodes = take 1 b.nodes;
}

-- The `for` loop of `addCapacity`: `count` blocks behind the last, the next one at place `i`.
unfoldable pub new_nodes : (ℕ → ℕ) → ℕ → ℕ → ℕ → List (List ℕ)
unfolding new_node
new_nodes fresh base_size i zero = []
new_nodes fresh base_size i (suc count) =
    new_node fresh i base_size ∷ new_nodes fresh base_size (i + base_size) count

-- `ceil(1.0 * size / m_baseSize)` on sizes that a double holds exactly.
unfoldable pub add_capacity : ℕ → M (Unit {0})
unfolding new_nodes
add_capacity size b =
    if size == 0 || leb size (capacity_left b)
    then done tt b
    else if b.base_size == 0
    then fault div_by_zero
    else let count = (size - capacity_left b + b.base_size - 1) / b.base_size in
      done tt (record b {
        nodes = b.nodes ++ new_nodes b.fresh b.base_size b.capacity count;
        capacity = b.capacity + count * b.base_size;
        cur = if capacity_left b == 0 then length b.nodes else b.cur;
      })

-- `m_position % m_baseSize`.
abbrev pub node_offset : M ℕ
node_offset b = if b.base_size == 0 then fault div_by_zero else done (b.position % b.base_size) b

pub data Copy {ℓ} (A : Type ℓ) : Type ℓ where
  copied : A → ℕ → Copy A
  off_end : Copy A

-- The copying loop of `write`, from the current block on: the blocks as they are left, and how many
-- steps `m_cur` has made. `npos` is below the block's size, so `ncap` does not wrap.
unfoldable pub write_nodes : List (List ℕ) → ℕ → List ℕ → Copy (List (List ℕ))
write_nodes [] npos buf = off_end
write_nodes (n ∷ ns) npos buf =
    let ncap = length n - npos in
    let rest : Copy (List (List ℕ)) = elim (write_nodes ns 0 (drop ncap buf)) [
      | copied ns' steps ↦ copied (splice n npos (take ncap buf) ∷ ns') (suc steps)
      | off_end ↦ off_end
    ] in
    if leb (length buf) ncap
    then copied (splice n npos buf ∷ ns) (if length n == npos + length buf then 1 else 0)
    else rest

-- The part of `write` behind `addCapacity`.
unfoldable pub store : List ℕ → ℕ → M (Unit {0})
unfolding write_nodes
store buf npos b = elim (write_nodes (drop b.cur b.nodes) npos buf) [
  | off_end ↦ fault null_deref
  | copied ns steps ↦
      let position = b.position + length buf in
      done tt (record b {
        nodes = take b.cur b.nodes ++ ns;
        cur = b.cur + steps;
        position = position;
        size = if ltb b.size position then position else b.size;
      })
]

unfoldable pub write : List ℕ → M (Unit {0})
unfolding add_capacity store
write buf =
    if length buf == 0
    then pure tt
    else do add_capacity (length buf); npos ← node_offset; store buf npos

-- The copying loop of both `read`s: the bytes, and how many steps the block pointer has made.
-- The first block is looked at (`m_cur->size`) before the loop tests `size > 0`.
unfoldable pub read_nodes : List (List ℕ) → ℕ → ℕ → Copy (List ℕ)
read_nodes [] npos size = off_end
read_nodes (n ∷ ns) npos size =
    let ncap = length n - npos in
    let rest : Copy (List ℕ) = elim (read_nodes ns 0 (size - ncap)) [
      | copied bytes steps ↦ copied (take ncap (drop npos n) ++ bytes) (suc steps)
      | off_end ↦ off_end
    ] in
    if size == 0
    then copied [] 0
    else if leb size ncap
    then copied (take size (drop npos n)) (if length n == npos + size then 1 else 0)
    else rest

-- `read(void* buf, size_t size)`.
unfoldable pub read : ℕ → M (List ℕ)
unfolding read_nodes
read size b =
    if ltb (read_size b) size
    then throws b
    else if b.base_size == 0
    then fault div_by_zero
    else elim (read_nodes (drop b.cur b.nodes) (b.position % b.base_size) size) [
      | off_end ↦ fault null_deref
      | copied bytes steps ↦
          done bytes (record b { position = b.position + size; cur = b.cur + steps })
    ]

-- `read(void* buf, size_t size, size_t position) const`: it starts at `m_cur`, whatever `position` is.
unfoldable pub read_at : ℕ → ℕ → M (List ℕ)
unfolding read_nodes
read_at size position b =
    if ltb ((b.size + 2 ^ 64 - position) % 2 ^ 64) size
    then throws b
    else if b.base_size == 0
    then fault div_by_zero
    else elim (read_nodes (drop b.cur b.nodes) (position % b.base_size) size) [
      | off_end ↦ fault null_deref
      | copied bytes steps ↦ done bytes b
    ]

-- The walk of `setPosition` from the root: the index at which `m_cur` stops.
unfoldable pub seek : List (List ℕ) → ℕ → ℕ → Copy (Unit {0})
seek [] v i = off_end
seek (n ∷ ns) v i =
    let next = seek ns (v - length n) (suc i) in
    if ltb (length n) v then next else copied tt (if v == length n then suc i else i)

unfoldable pub set_position : ℕ → M (Unit {0})
unfolding seek
set_position v b = if ltb b.capacity v then throws b else elim (seek b.nodes v 0) [
  | off_end ↦ fault null_deref
  | copied _ i ↦
      done tt (record b { position = v; size = if ltb b.size v then v else b.size; cur = i })
]

unfoldable pub to_string : M (List ℕ)
unfolding read_at
to_string b = if read_size b == 0 then done [] b else read_at (read_size b) b.position b
