-- ===== src/Websocket/Sends.antt =====
-- `WSSendMessage` on a working stream: the frame that it puts on the wire.
use ynwad.Base.{
  ℕ, ◌+◌, ◌^◌, ◌≤◌, ◌<◌, ◌≡◌, refl, ap, ◌∙◌, Bool, true, false, none, some, List, [], ◌++◌,
  append_assoc, append-nil, reverse, length, ltb, inl, inr, if◌then◌else◌, Bool-cases, ltb→lt,
  ltb→ge, arith,
}
use mathlib.Core.Path.{subst}
use ynwad.Codec.{to_bytes, byteswap}
use ynwad.Codec.Fixed.{length-to_bytes, to_bytes-byteswap}
use ynwad.Stream.{pos, negsuc, to_int, write_fix_size, transfer}
use ynwad.Websocket.{
  Device, M, FrameMessage, head_bytes, send_head_of, short_length, xor_mask, ◌>>=◌, ◌>>◌,
  write_exact, send_length, send_head, masked, send_text, send_end, send_message,
}
use ynwad.Websocket.Pipe.{IsPipe, write_exact_lem, to_int-pos}
use ynwad.Websocket.Wire.{long_length, body, length-head_bytes, length-xor_mask}

-- The three forms of a length.
pub data Form : ℕ → Type 0 where
  short : {n : ℕ} → n < 126 → Form n
  medium : {n : ℕ} → 126 ≤ n → n < 65536 → Form n
  long : {n : ℕ} → 65536 ≤ n → Form n

pub form : (n : ℕ) → Form n
form n = elim (Bool-cases (ltb n 126)) [
  | inl h ↦ short (ltb→lt n 126 h)
  | inr h ↦ elim (Bool-cases (ltb n 65536)) [
    | inl g ↦ medium (ltb→ge n 126 h) (ltb→lt n 65536 g)
    | inr g ↦ long (ltb→ge n 65536 g)
  ]
]

pub short_length-lt : {n : ℕ} → Form n → short_length n < 128
short_length-lt (short h) = ground arith
short_length-lt (medium h g) = ground arith
short_length-lt (long h) = ground arith

-- A message as one frame.
unfoldable pub frame : List ℕ → Bool → Bool → FrameMessage → List ℕ
frame mask client fin msg =
    head_bytes (send_head_of msg client fin)
    ++ (long_length (length msg.text) ++ body mask client msg.text)

pub >>=-some :
    {W A B : Type 0} (m : M W A) (f : A → M W B) {a : A} {w w' : W}
    → m w ≡ some (some a, w')
    → (m >>= f) w ≡ f a w'
>>=-some m f {w'} e =
    ap
      (λ o. elim o [
        | none ↦ none
        | some r ↦ elim r.0 [ none ↦ some (none, r.1) | some a ↦ f a r.1 ]
      ])
      e

module _ {W : Type 0} (device : Device W) (wire : W → List ℕ) (pipe : IsPipe device wire) where
  -- What a part of the code puts on the wire.
  abbrev pub Puts : M W (Unit {0}) → List ℕ → Type 0
  Puts m xs = (w : W) → (w' : W) × (m w ≡ some (some tt, w')) × (wire w' ≡ wire w ++ xs)

  Puts-write : (xs : List ℕ) → 0 < length xs → length xs < 2 ^ 31 → Puts (write_exact device xs) xs
  Puts-write xs more small w = write_exact_lem device wire pipe xs w more small

  Puts-then :
      (m k : M W (Unit {0})) (xs ys : List ℕ) → Puts m xs → Puts k ys → Puts (m >> k) (xs ++ ys)
  Puts-then m k xs ys first second w =
      let (w', run, put) = first w in
      let (w'', run', put') = second w' in
      (
        w'',
        >>=-some m (λ _. k) run ∙ run',
        put' ∙ ap (λ t. t ++ ys) put ∙ append_assoc (wire w) xs ys,
      )

  Puts-swapped :
      (k n : ℕ)
      → 0 < k
      → k < 2 ^ 31
      → Puts (write_exact device (to_bytes k (byteswap k n))) (reverse (to_bytes k n))
  Puts-swapped k n more small =
      subst (λ xs. Puts (write_exact device (to_bytes k (byteswap k n))) xs) (to_bytes-byteswap k n)
        (Puts-write (to_bytes k (byteswap k n)) (omega (arith, size)) (omega (arith, size)))
    where
      size : length (to_bytes k (byteswap k n)) ≡ k
      size = length-to_bytes k (byteswap k n)

  Puts-send_length : (n : ℕ) → Puts (send_length device n) (long_length n)
  unfolding send_length long_length
  Puts-send_length n = elim (form n) [
    | short h ↦ λ w. (w, ground arith, ground (arith, append-nil (wire w)))
    | medium h g ↦ λ w.
        let (w', run, put) = Puts-swapped 2 n (omega arith) (omega arith) w in
        (w', ground (arith, run), ground (arith, put))
    | long h ↦ λ w.
        let (w', run, put) = Puts-swapped 8 n (omega arith) (omega arith) w in
        (w', ground (arith, run), ground (arith, put))
  ]

  Puts-send_head :
      (msg : FrameMessage) (client fin : Bool)
      → Puts
          (send_head device msg client fin)
          (head_bytes (send_head_of msg client fin) ++ long_length (length msg.text))
  unfolding send_head
  Puts-send_head msg client fin =
      Puts-then (write_exact device head) (send_length device (length msg.text)) head
        (long_length (length msg.text)) (Puts-write head (omega (arith, two)) (omega (arith, two)))
        (Puts-send_length (length msg.text))
    where
      head : List ℕ
      head = head_bytes (send_head_of msg client fin)

      two : length head ≡ 2
      two = length-head_bytes (send_head_of msg client fin)

  Puts-send_text :
      (mask : List ℕ) (client : Bool) (msg : FrameMessage)
      → length mask ≡ 4
      → 0 < length msg.text
      → length msg.text < 2 ^ 31
      → Puts (send_text device mask client (masked mask client msg)) (body mask client msg.text)
  unfolding send_text masked body
  Puts-send_text mask false msg four more small = Puts-write msg.text more small
  Puts-send_text mask true msg four more small =
      Puts-then (write_exact device mask) (write_exact device (xor_mask mask 0 msg.text)) mask
        (xor_mask mask 0 msg.text) (Puts-write mask (omega (arith, four)) (omega (arith, four)))
        (Puts-write (xor_mask mask 0 msg.text) (omega (arith, more, same))
          (omega (arith, small, same)))
    where
      same : length (xor_mask mask 0 msg.text) ≡ length msg.text
      same = length-xor_mask mask 0 msg.text

  behind_head :
      (rand : ℕ) (msg : FrameMessage) (client fin : Bool) (w w' : W)
      → send_head device msg client fin w ≡ some (some tt, w')
      → send_message device rand msg client fin w
        ≡ send_end device
            (to_int (length msg.text + 2))
            (masked (to_bytes 4 rand) client msg)
            (send_text device (to_bytes 4 rand) client (masked (to_bytes 4 rand) client msg) w')
  unfolding send_message
  behind_head rand msg client fin w w' run =
      ap
        (λ o. elim o [
          | none ↦ none
          | some r ↦ elim r.0 [
            | none ↦ send_end device (negsuc 0) msg (some r)
            | some _ ↦
                send_end device (to_int (length msg.text + 2)) (masked (to_bytes 4 rand) client msg)
                  (send_text device (to_bytes 4 rand) client (masked (to_bytes 4 rand) client msg)
                    r.1)
          ]
        ])
        run

  -- A message that is not empty is sent as one frame, and the answer is its length with that of a head.
  pub send_message_lem :
      (rand : ℕ) (msg : FrameMessage) (client fin : Bool) (w : W)
      → 0 < length msg.text
      → length msg.text + 2 < 2 ^ 31
      → (w' : W) × (send_message device rand msg client fin w
          ≡ some (pos (length msg.text + 2), (masked (to_bytes 4 rand) client msg, w')))
        × (wire w' ≡ wire w ++ frame (to_bytes 4 rand) client fin msg)
  unfolding send_end frame
  send_message_lem rand msg client fin w more small =
      let mask = to_bytes 4 rand in
      let (w', run, put) = Puts-send_head msg client fin w in
      let (w'', run', put') =
        Puts-send_text mask client msg (length-to_bytes 4 rand) more (omega (arith, small)) w' in
      (
        w'',
        behind_head rand msg client fin w w' run
            ∙ ap (send_end device (to_int (length msg.text + 2)) (masked mask client msg)) run'
            ∙ ap (λ t. some (t, (masked mask client msg, w'')))
                (to_int-pos (length msg.text + 2) small),
        put'
            ∙ ap (λ t. t ++ body mask client msg.text) put
            ∙ append_assoc (wire w)
                (head_bytes (send_head_of msg client fin) ++ long_length (length msg.text))
                (body mask client msg.text)
            ∙ ap (λ t. wire w ++ t)
                (append_assoc (head_bytes (send_head_of msg client fin))
                  (long_length (length msg.text)) (body mask client msg.text)),
      )

  nothing_written : (w : W) → write_exact device [] w ≡ some (none, w)
  unfolding write_exact write_fix_size transfer
  nothing_written w = refl

  -- An empty message fails on a working stream as well: its head, and a client's mask, are on the wire when
  -- the stream is closed and the answer is -1.
  pub send_message-empty :
      (rand opcode : ℕ) (client fin : Bool) (w : W)
      → (w' : W) × (send_message device rand (record { opcode = opcode; text = [] }) client fin w
          ≡ some (negsuc 0, (record { opcode = opcode; text = [] }, device.close w')))
        × (wire w'
            ≡ wire w
              ++ (head_bytes (send_head_of (record { opcode = opcode; text = [] }) client fin)
                  ++ (if client then to_bytes 4 rand else [])))
  unfolding send_end masked xor_mask send_text long_length head_bytes
  send_message-empty rand opcode false fin w =
      let (w', run, put) = Puts-send_head (record { opcode = opcode; text = [] }) false fin w in
      (
        w',
        behind_head rand (record { opcode = opcode; text = [] }) false fin w w' run
            ∙ ap (send_end device (pos 2) (record { opcode = opcode; text = [] }))
                (nothing_written w'),
        put,
      )
  send_message-empty rand opcode true fin w =
      let (w', run, put) = Puts-send_head (record { opcode = opcode; text = [] }) true fin w in
      let (w'', run', put') =
        Puts-write (to_bytes 4 rand) (omega (arith, length-to_bytes 4 rand))
          (omega (arith, length-to_bytes 4 rand)) w' in
      (
        w'',
        behind_head rand (record { opcode = opcode; text = [] }) true fin w w' run
            ∙ ap (send_end device (pos 2) (record { opcode = opcode; text = [] })) (
                >>=-some (write_exact device (to_bytes 4 rand)) (λ _. write_exact device []) run'
                ∙ nothing_written w''),
        put'
            ∙ ap (λ t. t ++ to_bytes 4 rand) put
            ∙ append_assoc (wire w)
                (head_bytes (send_head_of (record { opcode = opcode; text = [] }) true fin))
                (to_bytes 4 rand),
      )
