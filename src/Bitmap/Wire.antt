-- ===== src/Bitmap/Wire.antt =====
-- A bitmap in a byte buffer: `writeTo` and `readFrom` of sylar/ds/bitmap.cc over the operations of
-- sylar/bytearray.cc. The words go as they stand in memory, the low byte first.
use ynwad.Base.{
  ℕ, ◌+◌, ◌*◌, ◌/◌, ◌%◌, ◌^◌, ◌<◌, ◌≡◌, refl, ap, ◌∙◌, true, false, not, List, [], ◌∷◌, ◌++◌,
  Option, none, some, ◌==◌, if◌then◌else◌, length, All, arith,
}
use ynwad.ByteArray.{
  ByteArray, Endian, M, done, throws, fault, ◌>>=◌, ◌>>◌, pure, write, read, set_position,
}
use ynwad.ByteArray.Valid.{IsValid}
use ynwad.ByteArray.Write.{write_lem}
use ynwad.Codec.{to_bytes, of_bytes, write_fuint8, read_fuint8, write_fixed, read_fixed}
use ynwad.Codec.Chain.{
  Encodes, Decodes, read-Decodes, Decodes-bind, Decodes-pure, Encodes-then, round_trip,
}
use mathlib.Core.Path.{subst}
use ynwad.Codec.Fixed.{wire, write_fixed-Encodes, read_fixed-Decodes}
use ynwad.Bitmap.{Bitmap}
use ynwad.Bitmap.Valid.{IsWord}

unfoldable pub word_bytes : List ℕ → List ℕ
word_bytes [] = []
word_bytes (w ∷ ws) = w % 256 ∷ w / 256 % 256 ∷ word_bytes ws

unfoldable pub bytes_words : List ℕ → List ℕ
bytes_words [] = []
bytes_words (x ∷ []) = []
bytes_words (x ∷ y ∷ bytes) = (x + 256 * y) ∷ bytes_words bytes

unfoldable pub write_to : Bitmap → M (Unit {0})
write_to m =
    write_fuint8 (if m.compressed then 1 else 0)
    >> (write_fixed 4 m.size >> (write_fixed 4 (length m.words) >> write (word_bytes m.words)))

-- The body of `try`.
unfoldable pub read_parts : M Bitmap
read_parts = read_fuint8 >>= (λ c. read_fixed 4 >>= (λ size. read_fixed 4 >>= (λ count.
    read (count * 2) >>= (λ bytes. pure (record {
      compressed = not (c == 0);
      size = size;
      words = bytes_words bytes;
      is_null = false;
    })))))

-- An exception is caught, and gives `none`, the answer false; the members that were read before it keep
-- what they got, which is not modelled.
unfoldable pub read_from : M (Option Bitmap)
read_from b = elim (read_parts b) [
  | done m b' ↦ done (some m) b'
  | throws b' ↦ done none b'
  | fault e ↦ fault e
]

length-word_bytes : (ws : List ℕ) → length (word_bytes ws) ≡ length ws * 2
unfolding word_bytes
length-word_bytes [] = refl
length-word_bytes (w ∷ ws) = omega (arith, length-word_bytes ws)

bytes_words-word_bytes : (ws : List ℕ) → All IsWord ws → bytes_words (word_bytes ws) ≡ ws
unfolding word_bytes bytes_words
bytes_words-word_bytes [] h = refl
bytes_words-word_bytes (w ∷ ws) h =
    ap (λ t. t ∷ bytes_words (word_bytes ws)) (whole w h.0)
    ∙ ap (λ t. w ∷ t) (bytes_words-word_bytes ws h.1)
  where
    whole : (w : ℕ) → IsWord w → w % 256 + 256 * (w / 256 % 256) ≡ w
    whole w h = omega (arith, h)

read_fuint8-Decodes : (e : Endian) (v : ℕ) → v < 256 → Decodes read_fuint8 e (to_bytes 1 v) v
unfolding read_fuint8 to_bytes of_bytes
read_fuint8-Decodes e v h = subst (Decodes read_fuint8 e (to_bytes 1 v)) back (
    Decodes-pure (read 1) of_bytes e (to_bytes 1 v) (to_bytes 1 v)
      (read-Decodes e (to_bytes 1 v) (omega arith)))
  where
    back : of_bytes (to_bytes 1 v) ≡ v
    back = omega (arith, h)

-- What comes out of `try` when nothing is thrown.
caught-Decodes :
    (e : Endian) (xs : List ℕ) (m : Bitmap)
    → Decodes read_parts e xs m
    → Decodes read_from e xs (some m)
unfolding read_from
caught-Decodes e xs m dm b rest ok order front =
    let (b', e', t, h) = dm b rest ok order front in (b', rw (e', read_from) refl, t, h)

flag : Bitmap → ℕ
flag m = if m.compressed then 1 else 0

wire_form : Bitmap → Endian → List ℕ
wire_form m e =
    to_bytes 1 (flag m) ++ (wire 4 m.size e ++ (wire 4 (length m.words) e ++ word_bytes m.words))

write-Encodes : (e : Endian) (s : List ℕ) → Encodes (write s) e s
write-Encodes e s b ok order = write_lem s b ok

write_to-Encodes : (m : Bitmap) (e : Endian) → Encodes (write_to m) e (wire_form m e)
unfolding write_to wire_form flag write_fuint8
write_to-Encodes m e = Encodes-then _ _ e _ _ (write-Encodes e (to_bytes 1 (flag m))) (
    Encodes-then _ _ e _ _ (write_fixed-Encodes 4 m.size e) (
      Encodes-then _ _ e _ _ (write_fixed-Encodes 4 (length m.words) e)
        (write-Encodes e (word_bytes m.words))))

flag_back : (m : Bitmap) → not (flag m == 0) ≡ m.compressed
unfolding flag
flag_back m = elim m.compressed as (λ c. not ((if c then 1 else 0) == 0) ≡ c) [
  | true ↦ refl
  | false ↦ refl
]

flag_bound : (m : Bitmap) → flag m < 256
unfolding flag
flag_bound m = elim m.compressed as (λ c. (if c then 1 else 0) < 256) [
  | true ↦ omega arith
  | false ↦ omega arith
]

read_parts-Decodes :
    (m : Bitmap) (e : Endian)
    → m.size < 2 ^ 32
    → 0 < length m.words
    → length m.words < 2 ^ 32
    → Decodes read_parts e (wire_form m e) (record {
      compressed = not (flag m == 0);
      size = m.size;
      words = bytes_words (word_bytes m.words);
      is_null = false;
    })
unfolding read_parts wire_form
read_parts-Decodes m e small some_words few =
    let bytes : List ℕ = word_bytes m.words in
    let body =
      subst (λ n. Decodes (read n) e bytes bytes) (length-word_bytes m.words)
        (read-Decodes e bytes (omega (arith, length-word_bytes m.words, some_words))) in
    Decodes-bind read_fuint8 _ e _ _ (flag m) _ (read_fuint8-Decodes e (flag m) (flag_bound m)) (
      Decodes-bind (read_fixed 4) _ e _ _ m.size _
        (read_fixed-Decodes 4 m.size e (omega arith) (omega (arith, small)))
        (Decodes-bind (read_fixed 4) _ e _ bytes (length m.words) _
          (read_fixed-Decodes 4 (length m.words) e (omega arith) (omega (arith, few)))
          (Decodes-pure (read (length m.words * 2))
            (λ bytes. record {
              compressed = not (flag m == 0);
              size = m.size;
              words = bytes_words bytes;
              is_null = false;
            })
            e bytes bytes body)))

-- A bitmap with words, written to any valid buffer and read from there, comes back, in either byte order.
pub write_to-read_from :
    (m : Bitmap) (b : ByteArray)
    → IsValid b
    → m.size < 2 ^ 32
    → 0 < length m.words
    → length m.words < 2 ^ 32
    → All IsWord m.words
    → (b' : ByteArray) × ((write_to m >> (set_position b.position >> read_from)) b
        ≡ done (some (record m { is_null = false })) b')
      × IsValid b'
write_to-read_from m b ok small some_words few words =
    let (b', e, valid, _, _) =
      round_trip (write_to m) read_from (wire_form m b.endian) _ b (write_to-Encodes m b.endian)
        (caught-Decodes b.endian (wire_form m b.endian) _
          (read_parts-Decodes m b.endian small some_words few))
        ok in
    (
      b',
      e
          ∙ ap
              (λ t.
                done
                  (some (record {
                    compressed = t;
                    size = m.size;
                    words = bytes_words (word_bytes m.words);
                    is_null = false;
                  }))
                  b')
              (flag_back m)
          ∙ ap
              (λ t.
                done
                  (some (record {
                    compressed = m.compressed;
                    size = m.size;
                    words = t;
                    is_null = false;
                  }))
                  b')
              (bytes_words-word_bytes m.words words),
      valid,
    )
