-- ===== src/ByteArray/Iovec.antt =====
-- The scatter lists of sylar/bytearray.cc: which parts of which blocks `getReadBuffers` and
-- `getWriteBuffers` name. A pointer into a block is the block's index and an offset.
use ynwad.Base.{
  ℕ, suc, ◌+◌, ◌-◌, ◌*◌, ◌/◌, ◌%◌, ◌≤◌, ◌<◌, ◌≡◌, refl, sym, ap, ◌∙◌, List, [], ◌∷◌, ◌++◌, inl, inr,
  append-nil, append_assoc, length, take, drop, get_or, arith, ltb, leb, ◌==◌, Bool-cases,
  if◌then◌else◌, length-append, length-take, length-drop, All-drop, take-append-drop, drop-drop,
  leb→le, leb→gt,
}
use ynwad.ByteArray.{
  ByteArray, M, done, fault, null_deref, div_by_zero, Copy, copied, off_end, read_size,
  add_capacity, ◌>>=◌, ◌>>◌, pure, node_offset,
}
use ynwad.ByteArray.Blocks.{IsUniform, take-drop_within, take-drop_across}
use ynwad.ByteArray.Valid.{IsValid}
use ynwad.ByteArray.Flat.{flatten-drop, room_behind}
use mathlib.Core.List.{flatten}
use mathlib.Core.Path.{ap₂, subst}

-- `iov_base` and `iov_len`.
pub record Iovec : Type 0 where
  pub node : ℕ
  pub offset : ℕ
  pub len : ℕ

-- The loop of the three functions, from the block with the index `i` on.
unfoldable pub iovecs : List (List ℕ) → ℕ → ℕ → ℕ → Copy (List Iovec)
iovecs [] i npos len = off_end
iovecs (n ∷ ns) i npos len =
    let ncap = length n - npos in
    let rest : Copy (List Iovec) = elim (iovecs ns (suc i) 0 (len - ncap)) [
      | copied vs steps ↦ copied (record { node = i; offset = npos; len = ncap } ∷ vs) (suc steps)
      | off_end ↦ off_end
    ] in
    if leb len ncap then copied (record { node = i; offset = npos; len = len } ∷ []) 0 else rest

abbrev from_copy : ℕ → Copy (List Iovec) → M (ℕ × List Iovec)
from_copy size c b = elim c [ copied vs _ ↦ done (size, vs) b | off_end ↦ fault null_deref ]

-- `getReadBuffers(buffers, len)`.
unfoldable pub get_read_buffers : ℕ → M (ℕ × List Iovec)
unfolding iovecs
get_read_buffers len b =
    let size = if ltb (read_size b) len then read_size b else len in
    if size == 0
    then done (0, []) b
    else if b.base_size == 0
    then fault div_by_zero
    else from_copy size (iovecs (drop b.cur b.nodes) b.cur (b.position % b.base_size) size) b

-- `getReadBuffers(buffers, len, position)`: `len` is held to what is left behind `m_position`.
unfoldable pub get_read_buffers_at : ℕ → ℕ → M (ℕ × List Iovec)
unfolding iovecs
get_read_buffers_at len position b =
    let size = if ltb (read_size b) len then read_size b else len in
    let count = position / b.base_size in
    if size == 0
    then done (0, []) b
    else if b.base_size == 0
    then fault div_by_zero
    else from_copy size (iovecs (drop count b.nodes) count (position % b.base_size) size) b

-- `getWriteBuffers(buffers, len)`.
unfoldable pub get_write_buffers : ℕ → M (ℕ × List Iovec)
unfolding iovecs add_capacity
get_write_buffers len = if len == 0 then pure (0, []) else do
  add_capacity len
  npos ← node_offset
  (λ b. from_copy len (iovecs (drop b.cur b.nodes) b.cur npos len) b)

-- The bytes that a scatter list stands for.
unfoldable pub gather : List (List ℕ) → List Iovec → List ℕ
gather nodes [] = []
gather nodes (v ∷ vs) = take v.len (drop v.offset (get_or nodes v.node [])) ++ gather nodes vs

get_or-append :
    (pre : List (List ℕ)) (n : List ℕ) (ns : List (List ℕ))
    → get_or (pre ++ n ∷ ns) (length pre) [] ≡ n
get_or-append [] n ns = refl
get_or-append (p ∷ pre) n ns = get_or-append pre n ns

iovecs-gather :
    (k : ℕ) (pre ns : List (List ℕ)) (npos len : ℕ)
    → 0 < k
    → IsUniform k ns
    → npos < k
    → 0 < len
    → npos + len ≤ length ns * k
    → (vs : List Iovec) × (steps : ℕ) × (iovecs ns (length pre) npos len ≡ copied vs steps)
      × (gather (pre ++ ns) vs ≡ take len (drop npos (flatten ns)))
unfolding iovecs gather flatten
iovecs-gather k pre [] npos len hk u hn hl room = absurd (omega arith)
iovecs-gather k pre (n ∷ ns) npos len hk u hn hl room =
    elim (Bool-cases (leb len (length n - npos))) [
      | inl fits ↦
          let le : npos + len ≤ length n = omega (arith, leb→le _ _ fits) in
          (
            record { node = length pre; offset = npos; len = len } ∷ [],
            0,
            rw fits,
            append-nil _
                ∙ ap (λ t. take len (drop npos t)) (get_or-append pre n ns)
                ∙ take-drop_within npos len n (flatten ns) le,
          )
      | inr more ↦
          let c = length n - npos in
          let gt : c < len = leb→gt _ _ more in
          let (vs, steps, e, g) =
            iovecs-gather k (pre ++ n ∷ []) ns 0 (len - c) hk u.1 hk (omega arith) (omega arith) in
          (
            record { node = length pre; offset = npos; len = c } ∷ vs,
            suc steps,
            rw (more, subst (λ i. iovecs ns i 0 (len - c) ≡ copied vs steps) index e),
            ap₂ (λ t u. take c (drop npos t) ++ u) (get_or-append pre n ns)
                  (ap (λ t. gather t vs) (sym (append_assoc pre (n ∷ []) ns)) ∙ g)
                ∙ take-drop_across npos len n (flatten ns) (omega arith) (omega arith),
          )
    ]
  where
    index : length (pre ++ n ∷ []) ≡ suc (length pre)
    index = omega (arith, length-append pre (n ∷ []))

-- From the block of the place `p` on.
pub place-gather :
    (b : ByteArray) (c r p len : ℕ)
    → IsValid b
    → c ≤ length b.nodes
    → c * b.base_size + r ≡ p
    → r < b.base_size
    → 0 < len
    → p + len ≤ b.capacity
    → (vs : List Iovec) × (steps : ℕ) × (iovecs (drop c b.nodes) c r len ≡ copied vs steps)
      × (gather b.nodes vs ≡ take len (drop p (flatten b.nodes)))
place-gather b c r p len v hc hp hr hl room =
    let (vs, steps, e, g) =
      iovecs-gather b.base_size (take c b.nodes) (drop c b.nodes) r len v.base_pos
        (All-drop _ c b.nodes v.uniform) hr hl
        (rw (length-drop c b.nodes) (
          room_behind b.base_size (length b.nodes) c r p len hp (omega (arith, room, v.capacity_eq))
            hl)) in
    (
      vs,
      steps,
      subst (λ i. iovecs (drop c b.nodes) i r len ≡ copied vs steps) front e,
      ap (λ t. gather t vs) (sym (take-append-drop c b.nodes))
          ∙ g
          ∙ ap (λ t. take len (drop r t)) (flatten-drop b.base_size c b.nodes v.uniform)
          ∙ ap (take len) (
              drop-drop r (c * b.base_size) (flatten b.nodes)
              ∙ ap (λ t. drop t (flatten b.nodes)) hp),
    )
  where
    front : length (take c b.nodes) ≡ c
    front = omega (arith, length-take c b.nodes)
