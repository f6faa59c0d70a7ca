-- ===== src/Bitmap/Loop.antt =====
-- One round of the loop over compressed words in sylar/ds/bitmap.cc, and the loop over plain words that it
-- is compared with.
use ynwad.Base.{
  ℕ, zero, suc, ◌+◌, ◌*◌, ◌%◌, ◌^◌, ◌≤◌, ◌<◌, ◌≡◌, refl, sym, ap, ◌∙◌, Bool, true, false, not, List,
  [], ◌∷◌, ◌++◌, length, replicate, All, arith,
}
use ynwad.Bitmap.{Outcome, done, throws, fault, ◌>>=◌}
use ynwad.Bitmap.Ops.{run_count, each_run}
use ynwad.Bitmap.Packed.{full_word, end_run}
use ynwad.Bitmap.Count.{IsData, data_mask}
use ynwad.Bitmap.Emit.{mark_compress, mark_value, mark_count, Stops, run_count-write}
use ynwad.Bitmap.Branch.{full-IsData, data_compress, end_run_many}

-- The words one by one.
abbrev pub each_plain {ℓ} : {S : Type ℓ} → (ℕ → ℕ → S → Outcome S) → ℕ → List ℕ → S → Outcome S
each_plain on_word cur [] s = done s
each_plain on_word cur (w ∷ ws) s = on_word cur w s >>= each_plain on_word ((cur + 14) % 2 ^ 32) ws

pub bind_assoc {ℓ} :
    {A B C : Type ℓ} (m : Outcome A) (f : A → Outcome B) (g : B → Outcome C)
    → ((m >>= f) >>= g) ≡ (m >>= (λ a. f a >>= g))
bind_assoc (done a) f g = refl
bind_assoc throws f g = refl
bind_assoc fault f g = refl

pub bind_same {ℓ} :
    {A B : Type ℓ} (m : Outcome A) (f g : A → Outcome B)
    → ((a : A) → f a ≡ g a)
    → (m >>= f) ≡ (m >>= g)
bind_same (done a) f g h = h a
bind_same throws f g h = refl
bind_same fault f g h = refl

pub plain_step {ℓ} :
    {S : Type ℓ} (on_run : ℕ → ℕ → Bool → S → Outcome S) (on_word : ℕ → ℕ → S → Outcome S)
    (fuel cur w : ℕ) (ws : List ℕ) (s : S)
    → IsData w
    → each_run on_run on_word (suc fuel) cur (w ∷ ws) s
      ≡ (on_word cur w s >>= each_run on_run on_word fuel ((cur + 14) % 2 ^ 32) ws)
unfolding each_run
plain_step on_run on_word fuel cur w ws s h = rw (data_compress w h, data_mask w h, each_run) refl

pub run_step {ℓ} :
    {S : Type ℓ} (on_run : ℕ → ℕ → Bool → S → Outcome S) (on_word : ℕ → ℕ → S → Outcome S)
    (fuel cur n : ℕ) (v : Bool) (rest : List ℕ) (s : S)
    → 2 ≤ n
    → 14 * n < 2 ^ 32
    → Stops v rest
    → each_run on_run on_word (suc fuel) cur (end_run v (14 * n) ++ rest) s
      ≡ (on_run cur (14 * n) v s >>= each_run on_run on_word fuel ((cur + 14 * n) % 2 ^ 32) rest)
unfolding each_run
run_step on_run on_word fuel cur n v rest s h small stops =
    ap (λ t. each_run on_run on_word (suc fuel) cur (t ++ rest) s) (end_run_many v n h)
    ∙ rw
        (
          negate _ (mark_compress v (14 * n)),
          mark_value v (14 * n),
          mark_count v (14 * n),
          run_count-write v (14 * n) rest small stops,
          each_run,
        )
        refl
  where
    negate : (b : Bool) → not b ≡ true → b ≡ false
    negate b e = ground (arith, e)

pub each_plain-append {ℓ} :
    {S : Type ℓ} (on_word : ℕ → ℕ → S → Outcome S) (xs ys : List ℕ) (cur : ℕ) (s : S)
    → cur + 14 * length xs < 2 ^ 32
    → each_plain on_word cur (xs ++ ys) s
      ≡ (each_plain on_word cur xs s >>= each_plain on_word (cur + 14 * length xs) ys)
each_plain-append on_word [] ys cur s h = ap (λ t. each_plain on_word t ys s) (omega arith)
each_plain-append on_word (x ∷ xs) ys cur s h =
    bind_same (on_word cur x s) _ _ (λ t.
      ap (λ c. each_plain on_word c (xs ++ ys) t) next
      ∙ each_plain-append on_word xs ys (cur + 14) t (omega (arith, h))
      ∙ ap (λ c. each_plain on_word (cur + 14) xs t >>= each_plain on_word c ys) last
      ∙ ap (λ c. each_plain on_word c xs t >>= each_plain on_word (cur + 14 * suc (length xs)) ys)
          (sym next))
    ∙ sym (bind_assoc (on_word cur x s) _ _)
  where
    next : (cur + 14) % 2 ^ 32 ≡ cur + 14
    next = omega (arith, h)

    last : cur + 14 + 14 * length xs ≡ cur + 14 * suc (length xs)
    last = omega arith

-- What is given with `done` is known.
pub bind_known {ℓ} :
    {A B : Type ℓ} (m : Outcome A) (f g : A → Outcome B)
    → ((a : A) → m ≡ done a → f a ≡ g a)
    → (m >>= f) ≡ (m >>= g)
bind_known (done a) f g h = h a refl
bind_known throws f g h = refl
bind_known fault f g h = refl

pub bind_done {ℓ κ} :
    {A : Type ℓ} {B : Type κ} (m : Outcome A) (f : A → Outcome B) (b : B)
    → (m >>= f) ≡ done b
    → (a : A) × (m ≡ done a) × (f a ≡ done b)
bind_done (done a) f b e = (a, refl, e)
bind_done throws f b e = absurd (ground (arith, e))
bind_done fault f b e = absurd (ground (arith, e))

pub replicate-IsData : (n : ℕ) (v : Bool) → All IsData (replicate n (full_word v))
replicate-IsData zero v = tt
replicate-IsData (suc n) v = (full-IsData v, replicate-IsData n v)

pub replicate-more {ℓ} :
    {A : Type ℓ} (n : ℕ) (a : A) (xs : List A)
    → replicate n a ++ (a ∷ xs) ≡ replicate (suc n) a ++ xs
replicate-more zero a xs = refl
replicate-more (suc n) a xs = ap (λ t. a ∷ t) (replicate-more n a xs)

pub nil-Stops : (v : Bool) → Stops v []
unfolding run_count
nil-Stops v i count = refl

pub each_run_nil {ℓ} :
    {S : Type ℓ} (on_run : ℕ → ℕ → Bool → S → Outcome S) (on_word : ℕ → ℕ → S → Outcome S)
    (fuel cur : ℕ) (s : S)
    → each_run on_run on_word fuel cur [] s ≡ done s
unfolding each_run
each_run_nil on_run on_word zero cur s = refl
each_run_nil on_run on_word (suc fuel) cur s = refl
