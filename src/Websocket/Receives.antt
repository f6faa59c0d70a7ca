-- ===== src/Websocket/Receives.antt =====
-- `WSRecvMessage` on a working stream: what it makes of a frame.
use ynwad.Base.{
  ℕ, ◌+◌, ◌%◌, ◌^◌, ◌≤◌, ◌<◌, ◌≡◌, refl, ap, ◌∙◌, Bool, true, false, not, ◌||◌, some, List, [], ◌∷◌,
  ◌++◌, append_assoc, append-nil, reverse, length, length-reverse, leb, All, if◌then◌else◌, arith,
}
use mathlib.Core.Path.{subst}
use ynwad.Codec.{to_bytes, of_bytes, byteswap}
use ynwad.Codec.Fixed.{length-to_bytes}
use ynwad.Websocket.{
  Device, M, FrameHead, FrameMessage, bytes_head, head_bytes, send_head_of, short_length, xor_mask,
  unmask, ◌>>=◌, pure, guard, read_exact, read_head, read_length, read_mask, read_payload, handle,
  round, take_frame,
}
use ynwad.Websocket.Pipe.{IsPipe, read_exact_lem}
use ynwad.Websocket.Wire.{
  IsByte, long_length, body, length-head_bytes, bytes_head-head_bytes, length-xor_mask,
  unmask-xor_mask, byteswap-of_bytes,
}
use ynwad.Websocket.Sends.{short, medium, long, form, short_length-lt, frame, >>=-some}

module _ {W : Type 0} (device : Device W) (wire : W → List ℕ) (pipe : IsPipe device wire) where
  -- A part of the code takes `xs` from the wire, whatever comes behind, and gives `a`.
  abbrev pub Takes : {A : Type 0} → M W A → List ℕ → A → Type 0
  Takes m xs a =
      (w : W) (rest : List ℕ)
      → wire w ≡ xs ++ rest
      → (w' : W) × (m w ≡ some (some a, w')) × (wire w' ≡ rest)

  Takes-read :
      (xs : List ℕ)
      → 0 < length xs
      → length xs < 2 ^ 31
      → Takes (read_exact device (length xs)) xs xs
  Takes-read xs more small w rest e = read_exact_lem device wire pipe xs rest w more small e

  Takes-pure : {A : Type 0} (a : A) → Takes (pure a) [] a
  Takes-pure a w rest e = (w, refl, e)

  Takes-bind :
      {A B : Type 0} (m : M W A) (f : A → M W B) (xs ys : List ℕ) {a : A} {b : B}
      → Takes m xs a
      → Takes (f a) ys b
      → Takes (m >>= f) (xs ++ ys) b
  Takes-bind m f xs ys first second w rest e =
      let (w', run, left) = first w (ys ++ rest) (e ∙ append_assoc xs ys rest) in
      let (w'', run', left') = second w' rest left in (w'', >>=-some m f run ∙ run', left')

  Takes-guard : (b : Bool) → b ≡ true → Takes (guard b) [] tt
  Takes-guard true h w rest e = (w, refl, e)
  Takes-guard false h w rest e = absurd (ground (arith, h))

  -- The head of a frame that was sent.
  Takes-read_head :
      (msg : FrameMessage) (client fin : Bool)
      → Takes
          (read_head device)
          (head_bytes (send_head_of msg client fin))
          (send_head_of msg client fin)
  unfolding read_head
  Takes-read_head msg client fin =
      subst (λ xs. Takes (read_head device) xs head) (append-nil bytes)
        (Takes-bind (read_exact device 2) (λ bs. pure (bytes_head bs)) bytes []
          (subst (λ n. Takes (read_exact device n) bytes bytes) two
            (Takes-read bytes (omega (arith, two)) (omega (arith, two))))
          (subst (λ h. Takes (pure (bytes_head bytes)) [] h)
            (bytes_head-head_bytes (msg.opcode % 16) (short_length (length msg.text)) fin client
              (omega arith) (short_length-lt (form (length msg.text))))
            (Takes-pure (bytes_head bytes))))
    where
      head : FrameHead
      head = send_head_of msg client fin

      bytes : List ℕ
      bytes = head_bytes head

      two : length bytes ≡ 2
      two = length-head_bytes head

  -- A length in `k` bytes.
  Takes-swapped :
      (k n : ℕ)
      → 0 < k
      → k < 2 ^ 31
      → n < 256 ^ k
      → Takes
          (do bytes ← read_exact device k; pure (byteswap k (of_bytes bytes)))
          (reverse (to_bytes k n))
          n
  Takes-swapped k n more small fits =
      subst (λ xs. Takes (do bs ← read_exact device k; pure (byteswap k (of_bytes bs))) xs n)
        (append-nil bytes)
        (Takes-bind (read_exact device k) (λ bs. pure (byteswap k (of_bytes bs))) bytes []
          (subst (λ t. Takes (read_exact device t) bytes bytes) size
            (Takes-read bytes (omega (arith, size)) (omega (arith, size))))
          (subst (λ t. Takes (pure (byteswap k (of_bytes bytes))) [] t) (byteswap-of_bytes k n fits)
            (Takes-pure (byteswap k (of_bytes bytes)))))
    where
      bytes : List ℕ
      bytes = reverse (to_bytes k n)

      size : length bytes ≡ k
      size = length-reverse (to_bytes k n) ∙ length-to_bytes k n

  Takes-read_length :
      (head : FrameHead) (n : ℕ)
      → head.payload ≡ short_length n
      → n < 2 ^ 31
      → Takes (read_length device head) (long_length n) n
  unfolding read_length long_length
  Takes-read_length head n e small w rest there = elim (form n) [
    | short h ↦ (w, ground (arith, e), ground (arith, there))
    | medium h g ↦
        let (w', run, left) =
          Takes-swapped 2 n (omega arith) (omega arith) (omega arith) w rest
            (ground (arith, there)) in
        (w', ground (arith, run, e), left)
    | long h ↦
        let (w', run, left) =
          Takes-swapped 8 n (omega arith) (omega arith) (omega arith) w rest
            (ground (arith, there)) in
        (w', ground (arith, run, e), left)
  ]

  -- The bytes of a payload, of which `finish` makes the data.
  Takes-text :
      (xs : List ℕ) (finish : List ℕ → List ℕ) (all : List ℕ)
      → 0 < length xs
      → length xs < 2 ^ 31
      → finish xs ≡ all
      → Takes (do bytes ← read_exact device (length xs); pure (finish bytes)) xs all
  Takes-text xs finish all more small e =
      subst (λ ys. Takes (do bytes ← read_exact device (length xs); pure (finish bytes)) ys all)
        (append-nil xs)
        (Takes-bind (read_exact device (length xs)) (λ bytes. pure (finish bytes)) xs []
          (Takes-read xs more small)
          (subst (λ t. Takes (pure (finish xs)) [] t) e (Takes-pure (finish xs))))

  masked_body :
      (mask before text : List ℕ) (masks : Bool)
      → length mask ≡ 4
      → All IsByte mask
      → All IsByte text
      → 0 < length text
      → length text < 2 ^ 31
      → Takes
          (do
            m ← (if masks then read_exact device 4 else pure (0 ∷ 0 ∷ 0 ∷ 0 ∷ []))
            bytes ← read_exact device (length text)
            pure (before ++ (if masks then unmask m bytes else bytes)))
          (body mask masks text)
          (before ++ text)
  unfolding body
  masked_body mask before text false four low bytes more small =
      Takes-text text (λ bytes. before ++ bytes) (before ++ text) more small refl
  masked_body mask before text true four low bytes more small =
      Takes-bind (read_exact device 4)
        (λ m. do bs ← read_exact device (length text); pure (before ++ unmask m bs)) mask out
        (subst (λ n. Takes (read_exact device n) mask mask) four
          (Takes-read mask (omega (arith, four)) (omega (arith, four))))
        (subst
          (λ n.
            Takes (do bs ← read_exact device n; pure (before ++ unmask mask bs)) out
              (before ++ text))
          same
          (Takes-text out (λ bs. before ++ unmask mask bs) (before ++ text)
            (omega (arith, same, more)) (omega (arith, same, small))
            (ap (λ t. before ++ t) (unmask-xor_mask mask text low bytes small))))
    where
      out : List ℕ
      out = xor_mask mask 0 text

      same : length out ≡ length text
      same = length-xor_mask mask 0 text

  -- The mask and the payload behind it.
  Takes-body :
      (mask : List ℕ) (head : FrameHead) (before text : List ℕ)
      → length mask ≡ 4
      → All IsByte mask
      → All IsByte text
      → 0 < length text
      → length text < 2 ^ 31
      → Takes
          (do
            m ← read_mask device head
            bytes ← read_exact device (length text)
            pure (before ++ (if head.mask then unmask m bytes else bytes)))
          (body mask head.mask text)
          (before ++ text)
  unfolding read_mask
  Takes-body mask head before text four low bytes more small =
      masked_body mask before text head.mask four low bytes more small

  guarded :
      (max_size : ℕ) (before text : List ℕ)
      → length before + length text < max_size
      → max_size ≤ 2 ^ 31
      → not (leb max_size ((length before + length text) % 2 ^ 64)) ≡ true
  guarded max_size before text fits small = ground arith

  Takes-read_payload :
      (max_size : ℕ) (client : Bool) (mask : List ℕ) (head : FrameHead) (before text : List ℕ)
      → length mask ≡ 4
      → All IsByte mask
      → All IsByte text
      → 0 < length text
      → head.payload ≡ short_length (length text)
      → (client || head.mask) ≡ true
      → length before + length text < max_size
      → max_size ≤ 2 ^ 31
      → Takes
          (read_payload device max_size client head before)
          (long_length (length text) ++ body mask head.mask text)
          (before ++ text)
  unfolding read_payload
  Takes-read_payload max_size client mask head before text four low bytes more e side fits small =
      Takes-bind (guard (client || head.mask)) _ []
        (long_length (length text) ++ body mask head.mask text)
        (Takes-guard (client || head.mask) side)
        (Takes-bind (read_length device head) _ (long_length (length text))
          (body mask head.mask text) (Takes-read_length head (length text) e (omega arith))
          (Takes-bind (guard (not (leb max_size ((length before + length text) % 2 ^ 64)))) _ []
            (body mask head.mask text) (Takes-guard _ (guarded max_size before text fits small))
            (Takes-body mask head before text four low bytes more (omega arith))))

  -- An opcode of data leads to the payload.
  handle-data :
      (max_size : ℕ) (client : Bool) (kind : ℕ) (before : List ℕ) (head : FrameHead) (w : W)
      → head.opcode < 3
      → handle device max_size client kind before head w
        ≡ (do
          all ← read_payload device max_size client head before
          pure (take_frame head kind all))
            w
  unfolding handle
  handle-data max_size client kind before head w h = ground arith

  -- A frame of data is taken off the wire, and its text goes behind what was there.
  pub Takes-round :
      (max_size : ℕ) (client : Bool) (kind : ℕ) (before mask : List ℕ) (msg : FrameMessage)
      (masks fin : Bool)
      → msg.opcode < 3
      → length mask ≡ 4
      → All IsByte mask
      → All IsByte msg.text
      → 0 < length msg.text
      → (client || masks) ≡ true
      → length before + length msg.text < max_size
      → max_size ≤ 2 ^ 31
      → Takes
          (round device max_size client kind before)
          (frame mask masks fin msg)
          (take_frame (send_head_of msg masks fin) kind (before ++ msg.text))
  unfolding round frame
  Takes-round max_size client kind before mask msg masks fin op four low bytes more side fits
        small =
      Takes-bind (read_head device) (λ head. handle device max_size client kind before head)
        (head_bytes head) (long_length (length msg.text) ++ body mask masks msg.text)
        (Takes-read_head msg masks fin)
        (λ w rest there.
          let (w', run, left) = payload w rest there in
          (w', handle-data max_size client kind before head w (omega (arith, op)) ∙ run, left))
    where
      head : FrameHead
      head = send_head_of msg masks fin

      payload :
          Takes
            (do
              all ← read_payload device max_size client head before
              pure (take_frame head kind all))
            (long_length (length msg.text) ++ body mask masks msg.text)
            (take_frame head kind (before ++ msg.text))
      payload =
          subst
            (λ xs.
              Takes
                (do
                  all ← read_payload device max_size client head before
                  pure (take_frame head kind all))
                xs (take_frame head kind (before ++ msg.text)))
            (append-nil (long_length (length msg.text) ++ body mask masks msg.text))
            (Takes-bind (read_payload device max_size client head before)
              (λ all. pure (take_frame head kind all))
              (long_length (length msg.text) ++ body mask masks msg.text) []
              (Takes-read_payload max_size client mask head before msg.text four low bytes more refl
                side fits small)
              (Takes-pure (take_frame head kind (before ++ msg.text))))
