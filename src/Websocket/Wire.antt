-- ===== src/Websocket/Wire.antt =====
-- What a frame is on the wire: its head in memory, its length and its mask, and the laws of these.
use ynwad.Base.{
  ℕ, zero, suc, ◌+◌, ◌*◌, ◌%◌, ◌/◌, ◌^◌, ◌<◌, ◌≡◌, refl, ap, ◌∙◌, Bool, true, false, List, [], ◌∷◌,
  ◌++◌, reverse, length, get_or, All, ltb, if◌then◌else◌, bit_xor, arith,
}
use ynwad.Base.Bits.{xor_halves}
use ynwad.Codec.{to_bytes, of_bytes, byteswap, in_order}
use ynwad.Codec.Fixed.{in_order-wire, wire}
use ynwad.Stream.{pos, negsuc}
use ynwad.Websocket.{FrameHead, head_bytes, bytes_head, zero_head, xor_mask, unmask}
use ynwad.Websocket.Pipe.{to_int-pos}
use Prim.Native.Nat.{differ}
use ynwad.ByteArray.{big}
use mathlib.Core.Path.{ap₂}
use native.Mathlib.Nat.{pow-suc}

abbrev pub IsByte : ℕ → Type 0
IsByte x = x < 256

-- The length behind the head, the most significant byte first.
unfoldable pub long_length : ℕ → List ℕ
long_length size =
    if ltb size 126
    then []
    else if ltb size 65536
    then reverse (to_bytes 2 size)
    else reverse (to_bytes 8 size)

-- What stands behind the length.
unfoldable pub body : List ℕ → Bool → List ℕ → List ℕ
body mask true text = mask ++ xor_mask mask 0 text
body mask false text = text

-- The head in memory has all its fields.
pub bytes_head-head_bytes :
    (op len : ℕ) (fin mask : Bool)
    → op < 16
    → len < 128
    → bytes_head
        (head_bytes (record zero_head { opcode = op; fin = fin; payload = len; mask = mask }))
      ≡ record zero_head { opcode = op; fin = fin; payload = len; mask = mask }
unfolding bytes_head head_bytes
bytes_head-head_bytes op len fin mask h k = ground arith

pub length-head_bytes : (h : FrameHead) → length (head_bytes h) ≡ 2
unfolding head_bytes
length-head_bytes h = refl

differ_twice : (a b : ℕ) → a < 2 → b < 2 → differ (differ a b) b ≡ a
differ_twice zero zero h k = refl
differ_twice zero (suc zero) h k = refl
differ_twice (suc zero) zero h k = refl
differ_twice (suc zero) (suc zero) h k = refl
differ_twice zero (suc (suc b)) h k = absurd (omega arith)
differ_twice (suc zero) (suc (suc b)) h k = absurd (omega arith)
differ_twice (suc (suc a)) b h k = absurd (omega arith)

differ_small : (a b : ℕ) → a < 2 → b < 2 → differ a b < 2
differ_small zero b h k = k
differ_small (suc zero) zero h k = omega arith
differ_small (suc zero) (suc b) h k = omega arith
differ_small (suc (suc a)) b h k = absurd (omega arith)

-- A byte that is masked twice is the byte.
pub bit_xor_twice : (k x m : ℕ) → x < 2 ^ k → m < 2 ^ k → bit_xor (bit_xor x m) m ≡ x
bit_xor_twice zero zero zero h g = refl
bit_xor_twice zero zero (suc m) h g = absurd (omega arith)
bit_xor_twice zero (suc x) m h g = absurd (omega arith)
bit_xor_twice (suc k) x m h g =
    xor_halves (bit_xor x m) m
    ∙ ap (λ t. bit_xor t (m / 2) * 2 + differ (bit_xor x m % 2) (m % 2)) high
    ∙ ap (λ t. bit_xor (bit_xor (x / 2) (m / 2)) (m / 2) * 2 + differ t (m % 2)) low
    ∙ omega (
      arith,
      bit_xor_twice k (x / 2) (m / 2) (omega (arith, pow-suc 2 k)) (omega (arith, pow-suc 2 k)),
      differ_twice (x % 2) (m % 2) (omega arith) (omega arith),
    )
  where
    small : differ (x % 2) (m % 2) < 2
    small = differ_small (x % 2) (m % 2) (omega arith) (omega arith)

    high : bit_xor x m / 2 ≡ bit_xor (x / 2) (m / 2)
    high = omega (arith, xor_halves x m, small)

    low : bit_xor x m % 2 ≡ differ (x % 2) (m % 2)
    low = omega (arith, xor_halves x m, small)

get_or-IsByte : (i : ℕ) (xs : List ℕ) → All IsByte xs → get_or xs i 0 < 256
get_or-IsByte i [] h = omega arith
get_or-IsByte zero (x ∷ xs) h = h.0
get_or-IsByte (suc i) (x ∷ xs) h = get_or-IsByte i xs h.1

pub xor_mask_twice :
    (mask : List ℕ) (i : ℕ) (xs : List ℕ)
    → All IsByte mask
    → All IsByte xs
    → xor_mask mask i (xor_mask mask i xs) ≡ xs
unfolding xor_mask
xor_mask_twice mask i [] m h = refl
xor_mask_twice mask i (x ∷ xs) m h =
    ap₂ ◌∷◌ (bit_xor_twice 8 x (get_or mask (i % 4) 0) h.0 (get_or-IsByte (i % 4) mask m))
      (xor_mask_twice mask (suc i) xs m h.1)

pub length-xor_mask :
    (mask : List ℕ) (i : ℕ) (xs : List ℕ) → length (xor_mask mask i xs) ≡ length xs
unfolding xor_mask
length-xor_mask mask i [] = refl
length-xor_mask mask i (x ∷ xs) = ap suc (length-xor_mask mask (suc i) xs)

pub unmask-xor_mask :
    (mask xs : List ℕ)
    → All IsByte mask
    → All IsByte xs
    → length xs < 2 ^ 31
    → unmask mask (xor_mask mask 0 xs) ≡ xs
unfolding unmask
unmask-xor_mask mask xs m h small =
    ap
      (λ t. elim t [ pos n ↦ xor_mask mask 0 (xor_mask mask 0 xs) | negsuc n ↦ xor_mask mask 0 xs ])
      (to_int-pos (length (xor_mask mask 0 xs)) (omega (arith, length-xor_mask mask 0 xs)))
    ∙ xor_mask_twice mask 0 xs m h

-- The length as the receiver reads it.
pub byteswap-of_bytes : (w v : ℕ) → v < 256 ^ w → byteswap w (of_bytes (reverse (to_bytes w v))) ≡ v
unfolding in_order wire
byteswap-of_bytes w v h = in_order-wire w v big h
