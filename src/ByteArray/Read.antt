-- ===== src/ByteArray/Read.antt =====
-- `read` on the bytes that a buffer holds.
use ynwad.Base.{
  ℕ, ◌+◌, ◌*◌, ◌/◌, ◌%◌, ◌≤◌, ◌<◌, ◌≡◌, refl, sym, ap, ◌∙◌, false, List, [], length, take, drop,
  arith, ◌==◌, All-drop, length-drop, drop-drop, ltb-false, lt→ltb, drop_all, drop_cons, Bool-cases,
  inl, inr, ltb, ltb→lt, ltb→ge, ==_iff, ◌&&◌, if◌then◌else◌,
}
use ynwad.ByteArray.{
  ByteArray, done, throws, fault, read, read_size, read_nodes, null_deref, copied, M,
}
use ynwad.ByteArray.Blocks.{read_nodes-bytes}
use ynwad.ByteArray.Valid.{IsValid, contents}
use ynwad.ByteArray.Flat.{take-drop-take, flatten-drop, room_behind, position_parts, cur_moves}
use mathlib.Core.List.{flatten}
use mathlib.Core.Path.{ap₂}
use native.Mathlib.Nat.{mod-lt, div-lt_iff_lt-mul, le-div_iff_mul-le, add-zero}

-- What is read, and where the position is left, if there are `n` bytes behind the position.
pub record Gave (n : ℕ) (b : ByteArray) (bytes : List ℕ) (b' : ByteArray) : Type 0 where
  pub valid : IsValid b'
  pub bytes_eq : bytes ≡ take n (drop b.position (contents b))
  pub same_contents : contents b' ≡ contents b
  pub same_size : b'.size ≡ b.size
  pub same_capacity : b'.capacity ≡ b.capacity
  pub moved : b'.position ≡ b.position + n
  pub same_base : b'.base_size ≡ b.base_size
  pub same_endian : b'.endian ≡ b.endian

module _ (b : ByteArray) (v : IsValid b) (n : ℕ) (some_byte : 0 < n)
    (enough : b.position + n ≤ b.size) where
  -- The loop of `read`, at the position.
  read_nodes-contents :
      read_nodes (drop b.cur b.nodes) (b.position % b.base_size) n
      ≡ copied
          (take n (drop b.position (contents b)))
          ((b.position % b.base_size + n) / b.base_size)
  read_nodes-contents =
      read_nodes-bytes b.base_size (drop b.cur b.nodes) _ n v.base_pos
        (All-drop _ b.cur b.nodes v.uniform) (mod-lt b.position v.base_pos) some_byte behind
      ∙ ap (λ t. copied (take n t) ((b.position % b.base_size + n) / b.base_size)) start
      ∙ ap (λ t. copied t ((b.position % b.base_size + n) / b.base_size))
          (sym (take-drop-take n b.position b.size (flatten b.nodes) enough))
    where
      behind : b.position % b.base_size + n ≤ length (drop b.cur b.nodes) * b.base_size
      behind = rw (length-drop b.cur b.nodes) (
          room_behind b.base_size (length b.nodes) b.cur _ b.position n (position_parts b v)
            (omega arith) some_byte)

      start :
          drop (b.position % b.base_size) (flatten (drop b.cur b.nodes))
          ≡ drop b.position (flatten b.nodes)
      start =
          ap (drop (b.position % b.base_size)) (flatten-drop b.base_size b.cur b.nodes v.uniform)
          ∙ drop-drop _ (b.cur * b.base_size) (flatten b.nodes)
          ∙ ap (λ t. drop t (flatten b.nodes)) (position_parts b v)

  -- A read of at least one byte that is there gives the bytes behind the position.
  read_lem : (bytes : List ℕ) × (b' : ByteArray) × (read n b ≡ done bytes b') × Gave n b bytes b'
  unfolding read
  read_lem = (
    take n (drop b.position (contents b)),
    record b {
      position = b.position + n;
      cur = b.cur + (b.position % b.base_size + n) / b.base_size;
    },
    rw (ltb-false (read_size b) n (omega arith), base, read_nodes-contents),
    record {
      valid = record {
        base_pos = v.base_pos;
        uniform = v.uniform;
        some_node = v.some_node;
        capacity_eq = v.capacity_eq;
        size_le = v.size_le;
        position_le = enough;
        cur_eq = cur_moves b n v;
      };
      bytes_eq = refl;
      same_contents = refl;
      same_size = refl;
      same_capacity = refl;
      moved = refl;
      same_base = refl;
      same_endian = refl;
    },
  )
    where
      base : (b.base_size == 0) ≡ false
      base = ground arith

read_some :
    (b : ByteArray) (v : IsValid b) (n : ℕ)
    → 0 < n
    → b.position + n ≤ b.size
    → read n b
      ≡ done
          (take n (drop b.position (contents b)))
          (record b { position = b.position + n; cur = (b.position + n) / b.base_size })
unfolding read
read_some b v n pos fits =
    rw (ltb-false (read_size b) n (omega arith), base, read_nodes-contents b v n pos fits)
      (ap
        (λ c.
          done (take n (drop b.position (contents b)))
            (record b { position = b.position + n; cur = c }))
        (cur_moves b n v))
  where
    base : (b.base_size == 0) ≡ false
    base = ground arith

module _ (n : ℕ) (b : ByteArray) (v : IsValid b) where
  read_short : b.size < b.position + n → read n b ≡ throws b
  unfolding read
  read_short h = rw (lt→ltb (read_size b) n (omega arith))

  base_pos : (b.base_size == 0) ≡ false
  base_pos = ground arith

  read_zero : b.position < b.capacity → read 0 b ≡ done [] b
  unfolding read
  read_zero h =
      let (x, ns, e) = drop_cons b.cur b.nodes inside in
      rw (ltb-false (read_size b) 0 (omega arith), base_pos, e)
        (ap₂ (λ p c. done [] (record b { position = p; cur = c })) (add-zero b.position)
          (add-zero b.cur))
    where
      inside : b.cur < length b.nodes
      inside = rw v.cur_eq ((div-lt_iff_lt-mul v.base_pos).1 (omega arith))

  read_none : n ≡ 0 → b.position < b.capacity → read n b ≡ done [] b
  read_none z h = rw z (read_zero h)

  read_none_at_end : n ≡ 0 → b.position ≡ b.capacity → read n b ≡ fault null_deref
  unfolding read
  read_none_at_end z h =
      rw (ltb-false (read_size b) n (omega arith), base_pos, drop_all b.cur b.nodes last)
    where
      last : length b.nodes ≤ b.cur
      last = rw v.cur_eq ((le-div_iff_mul-le v.base_pos).1 (omega arith))

-- `read` on every branch: more bytes than are left are an exception that leaves the buffer alone; if
-- they are there, they come in order and the position moves behind them; and a read of no bytes gives
-- none, but at the capacity, where `m_cur` is null, it is a fault.
pub read_cases :
    (n : ℕ) (b : ByteArray)
    → IsValid b
    → (b.size < b.position + n → read n b ≡ throws b)
      × (0 < n
          → b.position + n ≤ b.size
          → (bytes : List ℕ) × (b' : ByteArray) × (read n b ≡ done bytes b') × Gave n b bytes b')
      × (n ≡ 0 → b.position < b.capacity → read n b ≡ done [] b)
      × (n ≡ 0 → b.position ≡ b.capacity → read n b ≡ fault null_deref)
read_cases n b v = (read_short n b v, read_lem b v n, read_none n b v, read_none_at_end n b v)

-- `read` without the blocks.
unfoldable pub read_flat : ℕ → M (List ℕ)
read_flat n b =
    if ltb (read_size b) n
    then throws b
    else if n == 0 && b.position == b.capacity
    then fault null_deref
    else done (take n (drop b.position (contents b)))
        (record b { position = b.position + n; cur = (b.position + n) / b.base_size })

stays :
    (b : ByteArray) (v : IsValid b) (n : ℕ)
    → n ≡ 0
    → done [] b
      ≡ done
          (take n (drop b.position (contents b)))
          (record b { position = b.position + n; cur = (b.position + n) / b.base_size })
stays b v n z =
    let same : b.position + n ≡ b.position = omega arith in
    ap₂ (λ t u. done t u) (ap (λ k. take k (drop b.position (contents b))) (sym z))
      (ap₂ (λ p c. record b { position = p; cur = c }) (sym same)
        (v.cur_eq ∙ ap (λ t. t / b.base_size) (sym same)))

-- On a valid buffer `read` is `read_flat` on every branch: more bytes than are left are an exception
-- that leaves the buffer as it was; a read of no bytes at the capacity, where `m_cur` is null, is a
-- fault; any other gives the bytes behind the position, in order, moves the position behind them and
-- changes nothing else.
pub read-read_flat : (n : ℕ) (b : ByteArray) → IsValid b → read n b ≡ read_flat n b
unfolding read_flat
read-read_flat n b v = elim (Bool-cases (ltb (read_size b) n)) [
  | inl short ↦ rw short (read_short n b v (omega (arith, v.position_le, ltb→lt _ _ short)))
  | inr enough ↦ elim (Bool-cases (n == 0)) [
    | inl none ↦
        let z : n ≡ 0 = (==_iff n 0).0 none in
        elim (Bool-cases (b.position == b.capacity)) [
          | inl end ↦ rw (enough, none, end) (read_none_at_end n b v z ((==_iff _ _).0 end))
          | inr inside ↦
              rw (enough, none, inside)
                (read_none n b v z (ground (arith, v.position_le, v.size_le)) ∙ stays b v n z)
        ]
    | inr some ↦
        let pos : 0 < n = ground arith in
        let fits : b.position + n ≤ b.size = omega (arith, v.position_le, ltb→ge _ _ enough) in
        rw (enough, some) (read_some b v n pos fits)
  ]
]
