-- ===== src/Bitmap/Transparent.antt =====
-- What runs over the words of a compressed bitmap of sylar/ds/bitmap.cc sees the words that `compress`
-- was given, if it takes a run as its words one by one.
use ynwad.Base.{
  ℕ, zero, suc, ◌+◌, ◌*◌, ◌/◌, ◌%◌, ◌^◌, ◌≤◌, ◌<◌, ◌≡◌, sym, ap, ◌∙◌, Bool, not, List, [], ◌∷◌,
  ◌++◌, length, replicate, All, arith, length-append, length-replicate,
}
use mathlib.Core.Path.{subst}
use mathlib.Core.Bool.{not-not}
use ynwad.Bitmap.{Outcome, done, throws, fault, ◌>>=◌}
use ynwad.Bitmap.Ops.{each_run}
use ynwad.Bitmap.Packed.{full_word, write_count, end_run, compress_words}
use ynwad.Bitmap.Count.{IsData}
use ynwad.Bitmap.Emit.{Stops}
use ynwad.Bitmap.Branch.{
  full-IsData, data-Stops, end_run_none, end_run_one, end_run_many, branch, grows, turns, breaks,
  compress_end, compress-Stops,
}
use ynwad.Bitmap.Loop.{
  each_plain, bind_assoc, bind_known, bind_done, plain_step, run_step, each_plain-append,
  replicate-IsData, replicate-more, nil-Stops, each_run_nil,
}

-- A run is taken as its words one by one up to a limit, in the states with an invariant that the words keep.
pub record IsRunwise {ℓ} (limit : ℕ) {S : Type ℓ} (Inv : S → Type ℓ)
    (on_run : ℕ → ℕ → Bool → S → Outcome S) (on_word : ℕ → ℕ → S → Outcome S) : Type ℓ where
  pub run :
      (cur n : ℕ) (v : Bool) (s : S)
      → Inv s
      → cur % 14 ≡ 0
      → cur + 14 * n ≤ limit
      → 1 ≤ n
      → on_run cur (14 * n) v s ≡ each_plain on_word cur (replicate n (full_word v)) s
  pub keeps : (cur w : ℕ) (s s' : S) → Inv s → IsData w → on_word cur w s ≡ done s' → Inv s'

module _ {ℓ} (limit : ℕ) (small : limit < 2 ^ 32) {S : Type ℓ} (Inv : S → Type ℓ)
    (on_run : ℕ → ℕ → Bool → S → Outcome S) (on_word : ℕ → ℕ → S → Outcome S)
    (ok : IsRunwise limit Inv on_run on_word) where
  each_plain-keeps :
      (xs : List ℕ) (cur : ℕ) (s s' : S)
      → Inv s
      → All IsData xs
      → each_plain on_word cur xs s ≡ done s'
      → Inv s'
  each_plain-keeps [] cur s s' inv all e =
      subst Inv (ap (λ m. elim m [ done t ↦ t | throws ↦ s | fault ↦ s ]) e) inv
  each_plain-keeps (x ∷ xs) cur s s' inv all e =
      let (t, first, rest) =
        bind_done (on_word cur x s) (each_plain on_word ((cur + 14) % 2 ^ 32) xs) s' e in
      each_plain-keeps xs ((cur + 14) % 2 ^ 32) t s' (ok.keeps cur x s t inv all.0 first) all.1 rest

  -- The words of a run that has ended, and what comes behind it.
  ended :
      (n fuel cur : ℕ) (v : Bool) (rest : List ℕ) (s : S)
      → Inv s
      → cur % 14 ≡ 0
      → cur + 14 * n ≤ limit
      → Stops v rest
      → length (end_run v (14 * n) ++ rest) ≤ fuel
      → (fuel' : ℕ) × (length rest ≤ fuel')
        × (each_run on_run on_word fuel cur (end_run v (14 * n) ++ rest) s ≡ (
            each_plain on_word cur (replicate n (full_word v)) s
            >>= each_run on_run on_word fuel' (cur + 14 * n) rest))
  ended zero fuel cur v rest s inv whole below stops enough = (
    fuel,
    omega (arith, enough, ap (λ t. length (t ++ rest)) (end_run_none v)),
    ap (λ t. each_run on_run on_word fuel cur (t ++ rest) s) (end_run_none v)
        ∙ ap (λ c. each_run on_run on_word fuel c rest s) (omega arith),
  )
  ended (suc zero) zero cur v rest s inv whole below stops enough =
      absurd (omega (arith, enough, ap (λ t. length (t ++ rest)) (end_run_one v)))
  ended (suc zero) (suc fuel) cur v rest s inv whole below stops enough =
      let next : (cur + 14) % 2 ^ 32 ≡ cur + 14 * 1 = omega (arith, small, below) in
      (
        fuel,
        omega (arith, enough, ap (λ t. length (t ++ rest)) (end_run_one v)),
        ap (λ t. each_run on_run on_word (suc fuel) cur (t ++ rest) s) (end_run_one v)
            ∙ plain_step on_run on_word fuel cur (full_word v) rest s (full-IsData v)
            ∙ ap (λ c. on_word cur (full_word v) s >>= each_run on_run on_word fuel c rest) next
            ∙ sym (
                bind_assoc (on_word cur (full_word v) s) done
                  (each_run on_run on_word fuel (cur + 14 * 1) rest)),
      )
  ended (suc (suc n)) zero cur v rest s inv whole below stops enough = absurd (
      omega
        (arith, enough, ap (λ t. length (t ++ rest)) (end_run_many v (suc (suc n)) (omega arith))))
  ended (suc (suc n)) (suc fuel) cur v rest s inv whole below stops enough =
      let m : ℕ = suc (suc n) in
      let next : (cur + 14 * m) % 2 ^ 32 ≡ cur + 14 * m = omega (arith, small, below) in
      (
        fuel,
        omega (
          arith,
          enough,
          ap (λ t. length (t ++ rest)) (end_run_many v m (omega arith)),
          length-append (write_count 4 v (14 * m / 2 ^ 14)) rest,
        ),
        run_step on_run on_word fuel cur m v rest s (omega arith) (omega (arith, small, below))
              stops
            ∙ ap (λ c. on_run cur (14 * m) v s >>= each_run on_run on_word fuel c rest) next
            ∙ ap (λ t. t >>= each_run on_run on_word fuel (cur + 14 * m) rest)
                (ok.run cur m v s inv whole below (omega arith)),
      )

  -- A word that stands in no run, then the words behind it.
  word_then :
      (w : ℕ) (packed ws : List ℕ) (fuel cur : ℕ) (s : S)
      → Inv s
      → IsData w
      → cur + 14 ≤ limit
      → length (w ∷ packed) ≤ fuel
      → ((fuel' : ℕ) (t : S)
          → Inv t
          → length packed ≤ fuel'
          → each_run on_run on_word fuel' (cur + 14) packed t ≡ each_plain on_word (cur + 14) ws t)
      → each_run on_run on_word fuel cur (w ∷ packed) s ≡ each_plain on_word cur (w ∷ ws) s
  word_then w packed ws zero cur s inv is_data below enough h = absurd (omega (arith, enough))
  word_then w packed ws (suc fuel) cur s inv is_data below enough h =
      let next : (cur + 14) % 2 ^ 32 ≡ cur + 14 = omega (arith, small, below) in
      plain_step on_run on_word fuel cur w packed s is_data
      ∙ bind_known (on_word cur w s) _ _ (λ t known.
        ap (λ c. each_run on_run on_word fuel c packed t) next
        ∙ h fuel t (ok.keeps cur w s t inv is_data known) (omega (arith, enough))
        ∙ ap (λ c. each_plain on_word c ws t) (sym next))

  each_plain-run :
      (n x : ℕ) (ws : List ℕ) (cur : ℕ) (s : S)
      → cur + 14 * n ≤ limit
      → each_plain on_word cur (replicate n x ++ ws) s
        ≡ (each_plain on_word cur (replicate n x) s >>= each_plain on_word (cur + 14 * n) ws)
  each_plain-run n x ws cur s below =
      each_plain-append on_word (replicate n x) ws cur s
        (omega (arith, small, below, length-replicate n x))
      ∙ ap (λ k. each_plain on_word cur (replicate n x) s >>= each_plain on_word (cur + 14 * k) ws)
          (length-replicate n x)

  -- A run that has ended, and what is left, word by word.
  ended_then :
      (n fuel cur : ℕ) (v : Bool) (packed ws : List ℕ) (s : S)
      → Inv s
      → cur % 14 ≡ 0
      → cur + 14 * n ≤ limit
      → Stops v packed
      → length (end_run v (14 * n) ++ packed) ≤ fuel
      → ((fuel' : ℕ) (t : S)
          → Inv t
          → length packed ≤ fuel'
          → each_run on_run on_word fuel' (cur + 14 * n) packed t
            ≡ each_plain on_word (cur + 14 * n) ws t)
      → each_run on_run on_word fuel cur (end_run v (14 * n) ++ packed) s
        ≡ each_plain on_word cur (replicate n (full_word v) ++ ws) s
  ended_then n fuel cur v packed ws s inv whole below stops enough h =
      let (fuel', left, e) = ended n fuel cur v packed s inv whole below stops enough in
      e
      ∙ bind_known (each_plain on_word cur (replicate n (full_word v)) s) _ _ (λ t known.
        h fuel' t
          (each_plain-keeps (replicate n (full_word v)) cur s t inv (replicate-IsData n v) known)
          left)
      ∙ sym (each_plain-run n (full_word v) ws cur s below)

  -- The loop over the words that `compress` writes does what it does over the words themselves.
  pub each_run-compress :
      (ws : List ℕ) (fuel cur n : ℕ) (v : Bool) (s : S)
      → Inv s
      → cur % 14 ≡ 0
      → cur + 14 * (n + length ws) ≤ limit
      → All IsData ws
      → length (compress_words v (14 * n) ws) ≤ fuel
      → each_run on_run on_word fuel cur (compress_words v (14 * n) ws) s
        ≡ each_plain on_word cur (replicate n (full_word v) ++ ws) s
  each_run-compress [] fuel cur n v s inv whole below all enough =
      ap (λ t. each_run on_run on_word fuel cur t s) (compress_end v (14 * n))
      ∙ ended_then n fuel cur v [] [] s inv whole (omega (arith, small, below)) (nil-Stops v)
          (omega (arith, enough, ap length (compress_end v (14 * n))))
          (λ fuel' t inv' left. each_run_nil on_run on_word fuel' (cur + 14 * n) t)
  each_run-compress (w ∷ ws) fuel cur n v s inv whole below all enough =
      elim (branch v n w ws all.0) [
        | grows same_w c ↦
            ap (λ t. each_run on_run on_word fuel cur t s) c
            ∙ each_run-compress ws fuel cur (suc n) v s inv whole (omega (arith, small, below))
                all.1 (omega (arith, enough, ap length c))
            ∙ ap (λ t. each_plain on_word cur t s)
                (sym (replicate-more n (full_word v) ws)
                  ∙ ap (λ t. replicate n (full_word v) ++ (t ∷ ws)) (sym same_w))
        | turns other_w c ↦
            ap (λ t. each_run on_run on_word fuel cur t s) c
            ∙ ended_then n fuel cur v (compress_words (not v) (14 * 1) ws) (full_word (not v) ∷ ws)
                s inv whole (omega (arith, small, below))
                (subst (λ t. Stops t (compress_words (not v) (14 * 1) ws)) (not-not v)
                  (compress-Stops (not v) 1 ws (omega arith) all.1))
                (omega (arith, enough, ap length c))
                (λ fuel' t inv' left.
                  each_run-compress ws fuel' (cur + 14 * n) 1 (not v) t inv' (omega (arith, whole))
                    (omega (arith, small, below)) all.1 left)
            ∙ ap (λ t. each_plain on_word cur (replicate n (full_word v) ++ (t ∷ ws)) s)
                (sym other_w)
        | breaks c ↦
            ap (λ t. each_run on_run on_word fuel cur t s) c
            ∙ ended_then n fuel cur v (w ∷ compress_words v (14 * 0) ws) (w ∷ ws) s inv whole
                (omega (arith, small, below)) (data-Stops v w (compress_words v (14 * 0) ws) all.0)
                (omega (arith, enough, ap length c))
                (λ fuel' t inv' left.
                  word_then w (compress_words v (14 * 0) ws) ws fuel' (cur + 14 * n) t inv' all.0
                    (omega (arith, small, below)) left
                    (λ fuel'' u inv'' left'.
                      each_run-compress ws fuel'' (cur + 14 * n + 14) 0 v u inv''
                        (omega (arith, whole)) (omega (arith, small, below)) all.1 left'))
      ]
