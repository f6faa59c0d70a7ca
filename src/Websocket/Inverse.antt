-- ===== src/Websocket/Inverse.antt =====
-- The parts of a code block of the receiver that ended with a value, and what is known of the data then,
-- also where the sum of lengths wraps around.
use ynwad.Base.{
  ℕ, zero, suc, ◌+◌, ◌-◌, ◌%◌, ◌^◌, ◌≤◌, ◌<◌, ◌≡◌, refl, sym, ap, ◌∙◌, Bool, true, false, not, ◌||◌,
  Option, none, some, List, [], ◌∷◌, ◌++◌, length, length-append, leb, ltb, ◌⊎◌, inl, inr,
  if◌then◌else◌, Bool-cases, ltb→lt, ltb→ge, arith,
}
use mathlib.Core.Path.{subst}
use ynwad.Stream.{ℤ, pos, negsuc, to_int, start_left, transfer, read_fix_size}
use ynwad.Websocket.{
  Device, M, FrameHead, read_step, positive, read_exact, read_length, read_mask, read_payload,
  unmask, xor_mask, guard, ◌>>=◌, pure,
}
use ynwad.Websocket.Wire.{IsByte, length-xor_mask}
use ynwad.Codec.{to_bytes, of_bytes, byteswap}
use ynwad.Codec.Fixed.{length-to_bytes, to_bytes-IsByte}
use ynwad.Base.{◌==◌, All, All-reverse, reverse, length-reverse}
use native.Mathlib.Nat.{pow-suc}

continue_inv :
    {W A B : Type 0} (f : A → M W B) (o : Option (Option A × W)) {b : B} {w'' : W}
    → ◌≡◌ {A = Option (Option B × W)}
        (elim o [ none ↦ none | some r ↦ elim r.0 [ none ↦ some (none, r.1) | some a ↦ f a r.1 ] ])
        (some (some b, w''))
    → (a : A) × (w' : W) × (o ≡ some (some a, w')) × (f a w' ≡ some (some b, w''))
continue_inv f none e = absurd (ground (arith, e))
continue_inv f (some (none, v)) e = absurd (ground (arith, e))
continue_inv f (some (some a, v)) e = (a, v, refl, e)

-- The parts of a code block that ended with a value.
pub bind_inv {ℓ} :
    {W A B : Type 0} {C : Type ℓ} (m : M W A) (f : A → M W B) {b : B} {w w'' : W}
    → (m >>= f) w ≡ some (some b, w'')
    → ((a : A) (w' : W) → m w ≡ some (some a, w') → f a w' ≡ some (some b, w'') → C)
    → C
bind_inv m f {w} e k = let (a, w', first, rest) = continue_inv f (m w) e in k a w' first rest

exact_inv :
    {W : Type 0} (o : Option (ℤ × (W × List ℕ))) (xs : List ℕ) (w' : W)
    → ◌≡◌ {A = Option (Option (List ℕ) × W)}
        (elim o [
          | none ↦ none
          | some r ↦ if positive r.0 then some (some r.1.1, r.1.0) else some (none, r.1.0)
        ])
        (some (some xs, w'))
    → (r : ℤ × (W × List ℕ)) × (o ≡ some r) × (positive r.0 ≡ true) × (r.1.1 ≡ xs)
exact_inv none xs w' e = absurd (ground (arith, e))
exact_inv (some (answer, (v, ys))) xs w' e = elim (Bool-cases (positive answer)) [
  | inl p ↦ ((answer, (v, ys)), refl, p, ground (arith, e, p))
  | inr p ↦ absurd (ground (arith, e, p))
]

-- Which branch gave the value.
pub if_inv :
    {W A : Type 0} (b : Bool) (m k : M W A) {w : W} {v : Option (Option A × W)}
    → (if b then m else k) w ≡ v
    → (m w ≡ v) ⊎ (k w ≡ v)
if_inv true m k e = inl e
if_inv false m k e = inr e

guard_inv :
    {W : Type 0} (b : Bool) (u : Unit {0}) (w w' : W) → guard b w ≡ some (some u, w') → b ≡ true
guard_inv true u w w' e = refl
guard_inv false u w w' e = absurd (ground (arith, e))

of_bytes-lt : (xs : List ℕ) → All IsByte xs → of_bytes xs < 256 ^ length xs
unfolding of_bytes
of_bytes-lt [] h = omega arith
of_bytes-lt (x ∷ xs) h = omega (arith, of_bytes-lt xs h.1, h.0, pow-suc 256 (length xs))

byteswap-lt : (k v : ℕ) → byteswap k v < 256 ^ k
unfolding byteswap
byteswap-lt k v =
    subst (λ n. byteswap k v < 256 ^ n) (length-reverse (to_bytes k v) ∙ length-to_bytes k v)
      (of_bytes-lt (reverse (to_bytes k v))
        (All-reverse IsByte (to_bytes k v) (to_bytes-IsByte k v)))

-- The sum of the lengths did not wrap around.
no_wrap :
    (max_size before len : ℕ)
    → before < max_size
    → max_size ≤ 2 ^ 31
    → len < 2 ^ 64
    → not (leb max_size ((before + len) % 2 ^ 64)) ≡ true
    → (len < 2 ^ 63) ⊎ (positive (to_int len) ≡ true)
    → before + len < max_size
no_wrap max_size before len h small top (fits) (inl mid) = ground (arith, fits)
no_wrap max_size before len h small top fits (inr low) = ground (arith, fits, low)

length-unmask : (mask text : List ℕ) → length (unmask mask text) ≡ length text
unfolding unmask
length-unmask mask text =
    elim (to_int (length text))
      as (λ (t : ℤ).
        length (elim t [ pos n ↦ xor_mask mask 0 text | negsuc n ↦ text ]) ≡ length text) [
          | pos n ↦ length-xor_mask mask 0 text
          | negsuc n ↦ refl
        ]

length-masks :
    (b : Bool) (mask bytes : List ℕ)
    → length (if b then unmask mask bytes else bytes) ≡ length bytes
length-masks true mask bytes = length-unmask mask bytes
length-masks false mask bytes = refl

pub value_of : {W A : Type 0} {a : A} {w w' : W} (b : A) → pure a w ≡ some (some b, w') → a ≡ b
value_of {a} b e = ap (λ o. elim o [ none ↦ a | some r ↦ elim r.0 [ none ↦ a | some c ↦ c ] ]) e

module _ {W : Type 0} (device : Device W) where
  -- A read that gives a number of bytes puts as many into the buffer, and no more than were wanted.
  abbrev pub IsCounting : Type 0
  IsCounting =
      (left n : ℕ) (w : W)
      → (device.read left w).0 ≡ pos n
      → (length (device.read left w).1 ≡ n) × (n ≤ left)

  inv_at :
      (fuel size offset left : ℕ) (buffer : List ℕ) (answer : ℤ × List ℕ × W) (r : ℤ × (W × List ℕ))
      → ((n : ℕ) → answer.0 ≡ pos n → (length answer.1 ≡ n) × (n ≤ suc left))
      → ((n : ℕ)
          → transfer
              (read_step device)
              fuel
              size
              (offset + suc n)
              (left - n)
              (answer.2, buffer ++ answer.1)
            ≡ some r
          → length r.1.1 ≡ length (buffer ++ answer.1) + (left - n))
      → (elim answer.0 [
        | pos zero ↦ some (answer.0, (answer.2, buffer ++ answer.1))
        | pos (suc n) ↦
            transfer
              (read_step device)
              fuel
              size
              (offset + suc n)
              (left - n)
              (answer.2, buffer ++ answer.1)
        | negsuc n ↦ some (answer.0, (answer.2, buffer ++ answer.1))
      ])
        ≡ some r
      → positive r.0 ≡ true
      → length r.1.1 ≡ length buffer + suc left
  inv_at fuel size offset left buffer (pos zero, bs, w') r count rest e p =
      absurd (ground (arith, e, p))
  inv_at fuel size offset left buffer (negsuc n, bs, w') r count rest e p =
      absurd (ground (arith, e, p))
  inv_at fuel size offset left buffer (pos (suc n), bs, w') r count rest e p =
      omega (arith, rest n e, length-append buffer bs, count (suc n) refl)

  transfer_inv :
      (fuel size offset left : ℕ) (buffer : List ℕ) (w : W) (r : ℤ × (W × List ℕ))
      → IsCounting
      → transfer (read_step device) fuel size offset left (w, buffer) ≡ some r
      → positive r.0 ≡ true
      → length r.1.1 ≡ length buffer + left
  unfolding transfer
  transfer_inv fuel size offset zero buffer w r count e p = ground (arith, e)
  transfer_inv zero size offset (suc left) buffer w r count e p = absurd (ground (arith, e))
  transfer_inv (suc fuel) size offset (suc left) buffer w r count e p =
      inv_at fuel size offset left buffer (device.read (suc left) w) r
        (λ n h. count (suc left) n w h)
        (λ n h.
          transfer_inv fuel size (offset + suc n) (left - n)
            (buffer ++ (device.read (suc left) w).1) (device.read (suc left) w).2 r count h p)
        e p

  wanted_some :
      (n : ℕ) (w : W) (r : ℤ × (W × List ℕ))
      → transfer (read_step device) n n 0 n (w, []) ≡ some r
      → positive r.0 ≡ true
      → 0 < n
  unfolding transfer
  wanted_some zero w r e p = absurd (ground (arith, e, p))
  wanted_some (suc n) w r e p = omega arith

  wanted_none :
      (n : ℕ) (w : W) (r : ℤ × (W × List ℕ))
      → transfer (read_step device) 0 n 0 0 (w, []) ≡ some r
      → positive r.0 ≡ true
      → positive (to_int n) ≡ true
  unfolding transfer
  wanted_none n w r e p = ap (λ o. elim o [ none ↦ false | some r ↦ positive r.0 ]) e ∙ p

  -- A transfer of nothing answers with the length as an `int`.
  read_exact_inv :
      (n : ℕ) (w w' : W) (xs : List ℕ)
      → IsCounting
      → read_exact device n w ≡ some (some xs, w')
      → ((length xs ≡ n) × (0 < n) × (n < 2 ^ 63)) ⊎ ((2 ^ 63 ≤ n) × (positive (to_int n) ≡ true))
  unfolding read_exact read_fix_size
  read_exact_inv n w w' xs count e =
      let (r, run, p, same) =
        exact_inv (transfer (read_step device) (start_left n) n 0 (start_left n) (w, [])) xs w' e in
      elim (Bool-cases (ltb n (2 ^ 63))) [
        | inl h ↦
            let start : start_left n ≡ n = ap (λ t. if t then n else 0) h in
            let run' = ap (λ t. transfer (read_step device) t n 0 t (w, [])) (sym start) ∙ run in
            inl (
              omega (arith, ap length same, transfer_inv n n 0 n [] w r count run' p),
              wanted_some n w r run' p,
              ltb→lt n (2 ^ 63) h,
            )
        | inr h ↦
            let start : start_left n ≡ 0 = ap (λ t. if t then n else 0) h in
            let run' = ap (λ t. transfer (read_step device) t n 0 t (w, [])) (sym start) ∙ run in
            inr (ltb→ge n (2 ^ 63) h, wanted_none n w r run' p)
      ]

  read_length_inv :
      (head : FrameHead) (len : ℕ) (w w' : W)
      → head.payload < 128
      → read_length device head w ≡ some (some len, w')
      → len < 2 ^ 64
  unfolding read_length
  read_length_inv head len w w' h e = elim (if_inv (head.payload == 126) _ _ e) [
    | inl e2 ↦ bind_inv (read_exact device 2) _ e2 (λ bs v _ last.
        subst (λ n. n < 2 ^ 64) (value_of len last) (omega (arith, byteswap-lt 2 (of_bytes bs))))
    | inr e1 ↦ elim (if_inv (head.payload == 127) _ _ e1) [
      | inl e2 ↦ bind_inv (read_exact device 8) _ e2 (λ bs v _ last.
          subst (λ n. n < 2 ^ 64) (value_of len last) (omega (arith, byteswap-lt 8 (of_bytes bs))))
      | inr e2 ↦ subst (λ n. n < 2 ^ 64) (value_of len e2) (omega (arith, h))
    ]
  ]

  behind :
      (max_size len : ℕ) (head : FrameHead) (before all mask bytes : List ℕ)
      → length before < max_size
      → max_size ≤ 2 ^ 31
      → len < 2 ^ 64
      → not (leb max_size ((length before + len) % 2 ^ 64)) ≡ true
      → ((length bytes ≡ len) × (0 < len) × (len < 2 ^ 63))
        ⊎ ((2 ^ 63 ≤ len) × (positive (to_int len) ≡ true))
      → before ++ (if head.mask then unmask mask bytes else bytes) ≡ all
      → (0 < length all) × (length all < max_size)
  behind max_size len head before all mask bytes fits small top limit (inl (full, more, mid)) e =
      let all_length : length all ≡ length before + length bytes =
        ap length (sym e)
        ∙ length-append before _
        ∙ ap (λ t. length before + t) (length-masks head.mask mask bytes) in
      (
        omega (arith, all_length, full, more),
        omega (
          arith,
          all_length,
          full,
          no_wrap max_size (length before) len fits small top limit (inl mid),
        ),
      )
  behind max_size len head before all mask bytes fits small top limit (inr (big, low)) e = absurd (
      omega
        (arith, big, small, no_wrap max_size (length before) len fits small top limit (inr low)))

  -- The data behind a payload are more, and below the limit.
  pub read_payload_inv :
      (max_size : ℕ) (client : Bool) (head : FrameHead) (before all : List ℕ) (w w' : W)
      → IsCounting
      → head.payload < 128
      → length before < max_size
      → max_size ≤ 2 ^ 31
      → read_payload device max_size client head before w ≡ some (some all, w')
      → (0 < length all) × (length all < max_size)
  unfolding read_payload
  read_payload_inv max_size client head before all w w' count h fits small e =
      bind_inv (guard (client || head.mask)) _ e (λ _ w1 _ e1.
        bind_inv (read_length device head) _ e1 (λ len w2 run e2.
          bind_inv (guard (not (leb max_size ((length before + len) % 2 ^ 64)))) _ e2
            (λ u w3 limit e3. bind_inv (read_mask device head) _ e3 (λ mask w4 _ e4.
              bind_inv (read_exact device len) _ e4 (λ bytes w5 got last.
                behind max_size len head before all mask bytes fits small
                  (read_length_inv head len w1 w2 h run)
                  (guard_inv (not (leb max_size ((length before + len) % 2 ^ 64))) u w2 w3 limit)
                  (read_exact_inv len w4 w5 bytes count got)
                  (value_of {a = before ++ (if head.mask then unmask mask bytes else bytes)} all
                    last))))))
