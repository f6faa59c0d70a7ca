-- ===== src/Bitmap/RoundTrip.antt =====
-- `compress` of sylar/ds/bitmap.cc loses nothing: `uncompress` gives the words back, and `&=` and `|=` do
-- with a compressed bitmap what they do with the bitmap itself.
use ynwad.Base.{
  ℕ, zero, suc, ◌+◌, ◌-◌, ◌*◌, ◌/◌, ◌%◌, ◌^◌, ◌≤◌, ◌<◌, ◌≡◌, refl, sym, ap, ◌∙◌, Bool, true, false,
  not, List, [], ◌∷◌, ◌++◌, Option, none, some, ◌==◌, if◌then◌else◌, bit_and, bit_or, max, length,
  replicate, All, get_elem?, All-get_elem, All-set, length-set, length-replicate, ==_refl, arith,
}
use ynwad.Base
use ynwad.Base.Bits.{or_halves, bit_and_mask}
use mathlib.Core.Path.{subst}
use native.Mathlib.Nat.{pow-suc, one-le-pow}
use ynwad.Bitmap.{
  Bitmap, Outcome, done, throws, fault, ◌>>=◌, in_bounds, set_range, new_bitmap, words_for,
}
use ynwad.Bitmap.Ops.{update_word, each_run, assign_op, and_assign, or_assign}
use ynwad.Bitmap.Packed.{full_word, compress, uncompress, compress_words}
use ynwad.Bitmap.Valid.{IsPlain, bit_and_bound, bit_or_bound}
use ynwad.Bitmap.Count.{IsData, data_mask}
use ynwad.Bitmap.Words.{zip, IsFieldwise, bit_and-IsFieldwise, bit_or-IsFieldwise}
use ynwad.Bitmap.Plain.{assign-zip}
use ynwad.Bitmap.Emit.{zero-bit_or}
use ynwad.Bitmap.Loop.{each_plain}
use ynwad.Bitmap.Transparent.{IsRunwise, each_run-compress}
use ynwad.Bitmap.Runs.{IsTarget, skip-each_plain, set_range-each_plain, each_plain-zip}

-- An operation on words without marks, with the runs that change nothing and those that wipe out.
record IsAssign (op : ℕ → ℕ → ℕ) (keep : Bool) : Type 0 where
  pub keeps : (w : ℕ) → IsData w → op w (full_word keep) ≡ w
  pub wipes : (w : ℕ) → IsData w → op w (full_word (not keep)) ≡ full_word (not keep)
  pub data_bound : (w x : ℕ) → IsData w → IsData x → IsData (op w x)

bit_or_ones : (k w : ℕ) → w < 2 ^ k → bit_or w (2 ^ k - 1) ≡ 2 ^ k - 1
bit_or_ones zero w h = zero-bit_or 0 w h ∙ omega (arith, h)
bit_or_ones (suc k) w h =
    or_halves w (2 ^ suc k - 1)
    ∙ ap (λ t. bit_or (w / 2) t * 2 + max (w % 2) ((2 ^ suc k - 1) % 2)) half
    ∙ omega
        (arith, pow-suc 2 k, one_le-pow k, bit_or_ones k (w / 2) (omega (arith, pow-suc 2 k, h)))
  where
    one_le-pow : (k : ℕ) → 1 ≤ 2 ^ k
    one_le-pow k = one-le-pow k 2 (omega arith)

    half : (2 ^ suc k - 1) / 2 ≡ 2 ^ k - 1
    half = omega (arith, pow-suc 2 k)

bit_and-IsAssign : IsAssign bit_and true
bit_and-IsAssign = record {
  keeps = data_mask;
  wipes = λ w h. bit_and_mask 0 w ∙ omega arith;
  data_bound = λ w x hw hx. bit_and_bound 14 w x hx;
}

bit_or-IsAssign : IsAssign bit_or false
bit_or-IsAssign = record {
  keeps = zero-bit_or 14;
  wipes = bit_or_ones 14;
  data_bound = bit_or_bound 14;
}

update-IsTarget :
    (op : ℕ → ℕ → ℕ) (limit cur x : ℕ) (s s' : Bitmap)
    → ((w : ℕ) → IsData w → IsData (op w x))
    → IsTarget limit s
    → update_word op cur x s ≡ done s'
    → IsTarget limit s'
unfolding update_word
update-IsTarget op limit cur x s s' bound ok e = found (get_elem? s.words (cur / 14)) refl e
  where
    found :
        (o : Option ℕ)
        → get_elem? s.words (cur / 14) ≡ o
        → (in_bounds o >>= (λ w. done (record s { words = Base.set s.words (cur / 14) (op w x) })))
          ≡ done s'
        → IsTarget limit s'
    found none eq e = absurd (ground (arith, e))
    found (some w) eq e =
        subst (IsTarget limit) (ap (λ m. elim m [ done t ↦ t | throws ↦ s | fault ↦ s ]) e)
          (record {
            words =
                All-set IsData (cur / 14) (op w x) s.words ok.words
                  (bound w (All-get_elem IsData (cur / 14) w s.words ok.words eq));
            within = omega (arith, ok.within, length-set s.words (cur / 14) (op w x));
          })

-- The position of a word, for what is stated of the word's index.
at_place : (P : ℕ → Type 0) (cur : ℕ) → cur % 14 ≡ 0 → P (14 * (cur / 14)) → P cur
at_place P cur whole p = subst P (omega (arith, whole)) p

choose_run :
    (op : ℕ → ℕ → ℕ) (keep v : Bool) (n i : ℕ) (s : Bitmap)
    → IsAssign op keep
    → All IsData s.words
    → 1 ≤ n
    → i + n ≤ length s.words
    → 14 * (i + n) < 2 ^ 32
    → (if (if v then keep else not keep) then done s else set_range (14 * i) (14 * n) v s)
      ≡ each_plain (update_word op) (14 * i) (replicate n (full_word v)) s
choose_run op true true n i s ok all pos within small =
    skip-each_plain op n i (full_word true) s ok.keeps all within small
choose_run op false false n i s ok all pos within small =
    skip-each_plain op n i (full_word false) s ok.keeps all within small
choose_run op true false n i s ok all pos within small =
    set_range-each_plain op n i false s ok.wipes all pos within small
choose_run op false true n i s ok all pos within small =
    set_range-each_plain op n i true s ok.wipes all pos within small

assign-IsRunwise :
    (op : ℕ → ℕ → ℕ) (keep : Bool) (limit : ℕ)
    → limit < 2 ^ 32
    → IsAssign op keep
    → IsRunwise limit
        (IsTarget limit)
        (λ cur count v s.
          if (if v then keep else not keep) then done s else set_range cur count v s)
        (update_word op)
assign-IsRunwise op keep limit small ok = record {
  run = λ cur n v s inv whole below pos.
      at_place
        (λ c.
          (if (if v then keep else not keep) then done s else set_range c (14 * n) v s)
          ≡ each_plain (update_word op) c (replicate n (full_word v)) s)
        cur whole
        (choose_run op keep v n (cur / 14) s ok inv.words pos
          (omega (arith, inv.within, below, whole)) (omega (arith, below, small)));
  keeps = λ cur w s s' inv is_data e.
      update-IsTarget op limit cur w s s' (λ t ht. ok.data_bound t w ht is_data) inv e;
}

abbrev put : ℕ → ℕ → ℕ
put w count = count

uncompress-IsRunwise :
    (limit : ℕ) → limit < 2 ^ 32 → IsRunwise limit (IsTarget limit) set_range (update_word put)
uncompress-IsRunwise limit small = record {
  run = λ cur n v s inv whole below pos.
      at_place
        (λ c.
          set_range c (14 * n) v s ≡ each_plain (update_word put) c (replicate n (full_word v)) s)
        cur whole
        (set_range-each_plain put n (cur / 14) v s (λ w h. refl) inv.words pos
          (omega (arith, inv.within, below, whole)) (omega (arith, below, small)));
  keeps = λ cur w s s' inv is_data e. update-IsTarget put limit cur w s s' (λ t ht. is_data) inv e;
}

zip-put : (old ws : List ℕ) → length old ≡ length ws → zip put old ws ≡ ws
zip-put [] [] e = refl
zip-put [] (w ∷ ws) e = absurd (omega (arith, e))
zip-put (o ∷ old) [] e = absurd (omega (arith, e))
zip-put (o ∷ old) (w ∷ ws) e = ap (λ t. w ∷ t) (zip-put old ws (omega (arith, e)))

-- `compress` of a map's words, then a loop over what it wrote.
compressed_run :
    (op : ℕ → ℕ → ℕ) (on_run : ℕ → ℕ → Bool → Bitmap → Outcome Bitmap) (ws : List ℕ) (s : Bitmap)
    → IsRunwise (14 * length ws) (IsTarget (14 * length ws)) on_run (update_word op)
    → All IsData ws
    → All IsData s.words
    → length s.words ≡ length ws
    → 14 * length ws < 2 ^ 32
    → each_run on_run
        (update_word op)
        (length (compress_words false 0 ws))
        0
        (compress_words false 0 ws)
        s
      ≡ done (record s { words = zip op s.words ws })
compressed_run op on_run ws s ok all alls same small =
    each_run-compress (14 * length ws) small (IsTarget (14 * length ws)) on_run (update_word op) ok
      ws (length (compress_words false 0 ws)) 0 0 false s
      (record { words = alls; within = omega (arith, same) }) refl (omega arith) all (omega arith)
    ∙ each_plain-zip op ws [] s.words s refl same (omega (arith, small))

all_zero : (n : ℕ) → All IsData (replicate n 0)
all_zero zero = tt
all_zero (suc n) = (omega arith, all_zero n)

compress-plain :
    (b : Bitmap)
    → IsPlain b
    → compress b ≡ record {
      compressed = true;
      size = b.size;
      words = compress_words false 0 b.words;
      is_null = false;
    }
unfolding compress
compress-plain b ok = rw (ok.plain, compress) refl

-- `uncompress` of `compress` of a plain bitmap whose words have no marks ends, and gives its words back.
pub uncompress-compress :
    (b : Bitmap)
    → IsPlain b
    → All IsData b.words
    → uncompress (compress b) ≡ done (record b { is_null = words_for b.size == 0 })
unfolding uncompress new_bitmap
uncompress-compress b ok all =
    let small : 14 * length b.words < 2 ^ 32 = omega (arith, ok.full, ok.narrow) in
    let zeros : length (replicate (words_for b.size) 0) ≡ length b.words =
      length-replicate (words_for b.size) 0 ∙ sym ok.full in
    ap uncompress (compress-plain b ok)
    ∙ compressed_run put set_range b.words (new_bitmap b.size 0)
        (uncompress-IsRunwise (14 * length b.words) small) all (all_zero (words_for b.size)) zeros
        small
    ∙ ap
        (λ t. done (record {
          compressed = false;
          size = b.size;
          words = t;
          is_null = words_for b.size == 0;
        }))
        (zip-put (replicate (words_for b.size) 0) b.words zeros)
    ∙ ap
        (λ t. done (record {
          compressed = t;
          size = b.size;
          words = b.words;
          is_null = words_for b.size == 0;
        }))
        (sym ok.plain)

assign-compress :
    (op : ℕ → ℕ → ℕ) (keep : Bool) (a b : Bitmap)
    → IsFieldwise op
    → IsAssign op keep
    → IsPlain a
    → IsPlain b
    → All IsData a.words
    → All IsData b.words
    → a.size ≡ b.size
    → assign_op op keep a (compress b) ≡ assign_op op keep a b
unfolding assign_op
assign-compress op keep a b f ok oka okb alla allb e =
    let same : length a.words ≡ length b.words = omega (arith, oka.full, okb.full, e) in
    let small : 14 * length b.words < 2 ^ 32 = omega (arith, okb.full, okb.narrow) in
    let test : (a.size == b.size) ≡ true = rw e (==_refl b.size) in
    ap (assign_op op keep a) (compress-plain b okb)
    ∙ ap (λ t. if not t then throws else (if a.compressed then throws else run_all)) test
    ∙ ap (λ t. if t then throws else run_all) oka.plain
    ∙ compressed_run op _ b.words a (assign-IsRunwise op keep (14 * length b.words) small ok) allb
        alla same small
    ∙ sym (assign-zip op keep a b f oka okb e)
  where
    run_all : Outcome Bitmap
    run_all =
        each_run
          (λ cur count v s.
            if (if v then keep else not keep) then done s else set_range cur count v s)
          (update_word op) (length (compress_words false 0 b.words)) 0
          (compress_words false 0 b.words) a

-- Between plain bitmaps of one size whose words have no marks, `&=` and `|=` with the compressed right side
-- do what they do with the right side itself.
pub assigns-compress :
    (a b : Bitmap)
    → IsPlain a
    → IsPlain b
    → All IsData a.words
    → All IsData b.words
    → a.size ≡ b.size
    → (and_assign a (compress b) ≡ and_assign a b) × (or_assign a (compress b) ≡ or_assign a b)
unfolding and_assign or_assign
assigns-compress a b oka okb alla allb e = (
  assign-compress bit_and true a b bit_and-IsFieldwise bit_and-IsAssign oka okb alla allb e,
  assign-compress bit_or false a b bit_or-IsFieldwise bit_or-IsAssign oka okb alla allb e,
)
