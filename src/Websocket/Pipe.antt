-- ===== src/Websocket/Pipe.antt =====
-- What a working stream promises, and that the transfers of a fixed size then move exactly their bytes.
use ynwad.Base.{
  ℕ, zero, suc, ◌+◌, ◌-◌, ◌^◌, ◌≤◌, ◌<◌, ◌≡◌, refl, sym, ap, ◌∙◌, none, some, List, [], ◌∷◌, true,
  ◌++◌, append_assoc, append-nil, length, take, drop, length-append, length-drop, take-append_left,
  drop-append_left, take-append-drop, drop-drop, take_all, drop_all, lt→ltb, if◌then◌else◌, arith,
}
use ynwad.Stream.{ℤ, pos, negsuc, to_int, start_left, transfer, read_fix_size, write_fix_size}
use ynwad.Websocket.{Device, read_step, write_step, read_exact, write_exact, positive}

-- A read gives at least one of the bytes that are on the wire, and a write puts at least one of its
-- bytes behind them.
pub record IsPipe {W : Type 0} (device : Device W) (wire : W → List ℕ) : Type 0 where
  pub reads :
      (left : ℕ) (w : W)
      → 0 < left
      → 0 < length (wire w)
      → (n : ℕ) × (w' : W) × (device.read left w ≡ (pos (suc n), take (suc n) (wire w), w'))
        × (suc n ≤ left)
        × (suc n ≤ length (wire w))
        × (wire w' ≡ drop (suc n) (wire w))
  pub writes :
      (bytes : List ℕ) (w : W)
      → 0 < length bytes
      → (n : ℕ) × (w' : W) × (device.write bytes w ≡ (pos (suc n), w'))
        × (suc n ≤ length bytes)
        × (wire w' ≡ wire w ++ take (suc n) bytes)

-- A call that moves something goes on with what is left.
transfer_on {ℓ} :
    {W : Type ℓ} (step : ℕ → ℕ → W → ℤ × W) (fuel size offset left n : ℕ) (w w' : W)
    → step offset (suc left) w ≡ (pos (suc n), w')
    → transfer step (suc fuel) size offset (suc left) w
      ≡ transfer step fuel size (offset + suc n) (left - n) w'
unfolding transfer
transfer_on step fuel size offset left n w w' e =
    ap
      (λ (answer : ℤ × _). elim answer.0 [
        | pos zero ↦ some answer
        | pos (suc n) ↦ transfer step fuel size (offset + suc n) (left - n) answer.1
        | negsuc n ↦ some answer
      ])
      e

pub to_int-pos : (n : ℕ) → n < 2 ^ 31 → to_int n ≡ pos n
to_int-pos n h = ground arith

positive-to_int : (n : ℕ) → 0 < n → n < 2 ^ 31 → positive (to_int n) ≡ true
positive-to_int zero more small = absurd (omega arith)
positive-to_int (suc n) more small = rw (to_int-pos (suc n) small)

start_left-small : (n : ℕ) → n < 2 ^ 31 → start_left n ≡ n
start_left-small n h = ap (λ t. if t then n else 0) (lt→ltb n (2 ^ 63) (omega arith))

module _ {W : Type 0} (device : Device W) (wire : W → List ℕ) (pipe : IsPipe device wire) where
  -- The reads of a transfer.
  reads_all :
      (fuel size offset left : ℕ) (xs rest buffer : List ℕ) (w : W)
      → wire w ≡ xs ++ rest
      → length xs ≡ left
      → left ≤ fuel
      → (w' : W) × (transfer (read_step device) fuel size offset left (w, buffer)
          ≡ some (to_int size, (w', buffer ++ xs)))
        × (wire w' ≡ rest)
  unfolding transfer
  reads_all fuel size offset zero [] rest buffer w e l h =
      (w, ap (λ t. some (to_int size, (w, t))) (sym (append-nil buffer)), e)
  reads_all fuel size offset zero (x ∷ xs) rest buffer w e l h = absurd (omega arith)
  reads_all zero size offset (suc left) xs rest buffer w e l h = absurd (omega arith)
  reads_all (suc fuel) size offset (suc left) xs rest buffer w e l h =
      let some_there : 0 < length (wire w) = omega (arith, ap length e, length-append xs rest) in
      let (n, w', got, small, there, after) = pipe.reads (suc left) w (omega arith) some_there in
      let front : take (suc n) (wire w) ≡ take (suc n) xs =
        ap (take (suc n)) e ∙ take-append_left (suc n) xs rest (omega arith) in
      let (w'', run, final) =
        reads_all fuel size (offset + suc n) (left - n) (drop (suc n) xs) rest
          (buffer ++ take (suc n) xs) w'
          (after ∙ ap (drop (suc n)) e ∙ drop-append_left (suc n) xs rest (omega arith))
          (omega (arith, length-drop (suc n) xs)) (omega arith) in
      (
        w'',
        transfer_on (read_step device) fuel size offset left n (w, buffer)
              (w', buffer ++ take (suc n) xs)
              (ap (λ answer. (answer.0, (answer.2, buffer ++ answer.1))) got
                ∙ ap (λ t. (pos (suc n), (w', buffer ++ t))) front)
            ∙ run
            ∙ ap (λ t. some (to_int size, (w'', t)))
                (append_assoc buffer (take (suc n) xs) (drop (suc n) xs)
                  ∙ ap (λ t. buffer ++ t) (take-append-drop (suc n) xs)),
        final,
      )

  -- The writes of a transfer.
  writes_all :
      (fuel size offset left : ℕ) (bytes : List ℕ) (w : W)
      → offset + left ≡ length bytes
      → left ≤ fuel
      → (w' : W) × (transfer (write_step device bytes) fuel size offset left w
          ≡ some (to_int size, w'))
        × (wire w' ≡ wire w ++ drop offset bytes)
  unfolding transfer
  writes_all fuel size offset zero bytes w l h = (
    w,
    refl,
    sym (append-nil (wire w)) ∙ ap (λ t. wire w ++ t) (sym (drop_all offset bytes (omega arith))),
  )
  writes_all zero size offset (suc left) bytes w l h = absurd (omega arith)
  writes_all (suc fuel) size offset (suc left) bytes w l h =
      let part = take (suc left) (drop offset bytes) in
      let whole : part ≡ drop offset bytes =
        take_all (suc left) (drop offset bytes) (omega (arith, length-drop offset bytes)) in
      let full : length part ≡ suc left =
        omega (arith, ap length whole, length-drop offset bytes) in
      let (n, w', put, small, after) = pipe.writes part w (omega (arith, full)) in
      let (w'', run, final) =
        writes_all fuel size (offset + suc n) (left - n) bytes w' (omega (arith, full, small))
          (omega arith) in
      (
        w'',
        transfer_on (write_step device bytes) fuel size offset left n w w' put ∙ run,
        final
            ∙ ap (λ t. t ++ drop (offset + suc n) bytes) after
            ∙ append_assoc (wire w) (take (suc n) part) (drop (offset + suc n) bytes)
            ∙ ap (λ t. wire w ++ (take (suc n) t ++ drop (offset + suc n) bytes)) whole
            ∙ ap (λ t. wire w ++ (take (suc n) (drop offset bytes) ++ t))
                (sym (drop-drop (suc n) offset bytes))
            ∙ ap (λ t. wire w ++ t) (take-append-drop (suc n) (drop offset bytes)),
      )

  -- A block of `n` bytes that is on the wire is read, and the rest stays.
  pub read_exact_lem :
      (xs rest : List ℕ) (w : W)
      → 0 < length xs
      → length xs < 2 ^ 31
      → wire w ≡ xs ++ rest
      → (w' : W) × (read_exact device (length xs) w ≡ some (some xs, w')) × (wire w' ≡ rest)
  unfolding read_exact read_fix_size
  read_exact_lem xs rest w more small e =
      let (w', run, left) =
        reads_all (length xs) (length xs) 0 (length xs) xs rest [] w e refl (omega arith) in
      let answer =
        ap (λ t. transfer (read_step device) t (length xs) 0 t (w, []))
          (start_left-small (length xs) small)
        ∙ run in
      (
        w',
        ap
              (λ o. elim o [
                | none ↦ none
                | some r ↦ if positive r.0 then some (some r.1.1, r.1.0) else some (none, r.1.0)
              ])
              answer
            ∙ ap (λ t. if t then some (some xs, w') else some (none, w'))
                (positive-to_int (length xs) more small),
        left,
      )

  pub write_exact_lem :
      (xs : List ℕ) (w : W)
      → 0 < length xs
      → length xs < 2 ^ 31
      → (w' : W) × (write_exact device xs w ≡ some (some tt, w')) × (wire w' ≡ wire w ++ xs)
  unfolding write_exact write_fix_size
  write_exact_lem xs w more small =
      let (w', run, final) =
        writes_all (length xs) (length xs) 0 (length xs) xs w (omega arith) (omega arith) in
      let answer =
        ap (λ t. transfer (write_step device xs) t (length xs) 0 t w)
          (start_left-small (length xs) small)
        ∙ run in
      (
        w',
        ap
              (λ o. elim o [
                | none ↦ none
                | some r ↦ if positive r.0 then some (some tt, r.1) else some (none, r.1)
              ])
              answer
            ∙ ap (λ t. if t then some (some tt, w') else some (none, w'))
                (positive-to_int (length xs) more small),
        final,
      )
