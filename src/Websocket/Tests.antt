-- ===== src/Websocket/Tests.antt =====
-- Messages on a stream that moves two or three bytes at a time, and the theorems at concrete inputs.
use ynwad.Base.{
  ℕ, zero, suc, ◌+◌, ◌≤◌, ◌<◌, ◌≡◌, refl, ap, true, false, none, some, List, [], ◌∷◌, ◌++◌, length,
  take, drop, min, length-take, arith,
}
use ynwad.Codec.{to_bytes, of_bytes, byteswap}
use ynwad.Stream.{pos, negsuc, transfer, read_fix_size, write_fix_size}
use ynwad.Websocket.{
  Device, FrameMessage, head_bytes, bytes_head, send_head_of, send_message, recv_message, receive,
  round, handle, read_head, read_exact, read_length, read_mask, read_payload, unmask, xor_mask,
  take_frame, write_exact, send_head, send_length, send_text, send_end, masked, answer_ping,
  control,
}
use ynwad.Websocket.Pipe.{IsPipe}
use ynwad.Websocket.Sends.{send_message-empty}
use ynwad.Websocket.RoundTrip.{send_parts, recv_message-send_parts}
use ynwad.Websocket.Limits.{recv_message-lt}
use ynwad.Websocket.Inverse.{IsCounting}

-- The state is what is on the wire.
abbrev slow : Device (List ℕ)
slow = record {
  read = λ left w. (pos (length (take (min 2 left) w)), take (min 2 left) w, drop (min 2 left) w);
  write = λ bytes w. (pos (length (take 3 bytes)), w ++ take 3 bytes);
  close = λ w. [];
}

abbrev wire : List ℕ → List ℕ
wire w = w

two_more : {A : Type 0} (f : ℕ → A) (left : ℕ) → f (min 2 (suc (suc left))) ≡ f 2
two_more f left = ap f (omega arith)

slow_reads :
    (left : ℕ) (w : List ℕ)
    → 0 < left
    → 0 < length w
    → (n : ℕ) × (w' : List ℕ) × (slow.read left w ≡ (pos (suc n), take (suc n) w, w'))
      × (suc n ≤ left)
      × (suc n ≤ length w)
      × (w' ≡ drop (suc n) w)
slow_reads zero w h k = absurd (omega arith)
slow_reads (suc left) [] h k = absurd (omega arith)
slow_reads (suc zero) (x ∷ xs) h k = (0, xs, refl, omega arith, omega arith, refl)
slow_reads (suc (suc left)) (x ∷ []) h k = (
  0,
  [],
  two_more (λ t. (pos (length (take t (x ∷ []))), take t (x ∷ []), drop t (x ∷ []))) left,
  omega arith,
  omega arith,
  refl,
)
slow_reads (suc (suc left)) (x ∷ y ∷ xs) h k = (
  1,
  xs,
  two_more (λ t. (pos (length (take t (x ∷ y ∷ xs))), take t (x ∷ y ∷ xs), drop t (x ∷ y ∷ xs)))
      left,
  omega arith,
  omega arith,
  refl,
)

slow_writes :
    (bytes w : List ℕ)
    → 0 < length bytes
    → (n : ℕ) × (w' : List ℕ) × (slow.write bytes w ≡ (pos (suc n), w'))
      × (suc n ≤ length bytes)
      × (w' ≡ w ++ take (suc n) bytes)
slow_writes [] w h = absurd (omega arith)
slow_writes (x ∷ []) w h = (0, w ++ x ∷ [], refl, omega arith, refl)
slow_writes (x ∷ y ∷ []) w h = (1, w ++ x ∷ y ∷ [], refl, omega arith, refl)
slow_writes (x ∷ y ∷ z ∷ xs) w h = (2, w ++ x ∷ y ∷ z ∷ [], refl, omega arith, refl)

slow-IsPipe : IsPipe slow wire
slow-IsPipe = record { reads = slow_reads; writes = slow_writes }

slow-IsCounting : IsCounting slow
slow-IsCounting left n w e =
    let counted : length (take (min 2 left) w) ≡ n =
      ap {B = ℕ} (λ r. elim r [ pos k ↦ k | negsuc k ↦ 0 ]) e in
    (counted, omega (arith, counted, length-take (min 2 left) w))

abbrev hello : FrameMessage
hello = record { opcode = 1; text = 104 ∷ 101 ∷ 108 ∷ 108 ∷ 111 ∷ [] }

-- A server sends "hello" as it stands in RFC 6455.
hello_sent : send_message slow 0 hello false true [] ≡ some (pos 7, (hello, 129 ∷ 5 ∷ hello.text))
unfolding send_message send_head write_exact write_fix_size transfer head_bytes send_length
    send_text send_end masked to_bytes
hello_sent = refl

-- A client masks the data in the message that it was given.
masked_sent :
    send_message slow 0x3d21fa37 hello true true []
    ≡ some (
      pos 7,
      (
        record { opcode = 1; text = 0x5f ∷ 0x9f ∷ 0x4d ∷ 0x51 ∷ 0x58 ∷ [] },
        0x81 ∷ 0x85 ∷ 0x37 ∷ 0xfa ∷ 0x21 ∷ 0x3d ∷ 0x5f ∷ 0x9f ∷ 0x4d ∷ 0x51 ∷ 0x58 ∷ [],
      ),
    )
unfolding send_message send_head write_exact write_fix_size transfer head_bytes send_length
    send_text send_end masked to_bytes xor_mask
masked_sent = refl

-- A masked message with a pong and a fragment before its end.
fragments : List ℕ
fragments =
    0x01 ∷ 0x82 ∷ 0 ∷ 0 ∷ 0 ∷ 0 ∷ 104 ∷ 101 ∷ 0x8a ∷ 0 ∷ 0x80 ∷ 0x81 ∷ 1 ∷ 2 ∷ 3 ∷ 4 ∷ 109 ∷ 7 ∷ []

fragments_received :
    recv_message slow 100 false 5 fragments
    ≡ some (some (record { opcode = 1; text = 104 ∷ 101 ∷ 108 ∷ [] }), 7 ∷ [])
unfolding fragments recv_message receive round read_head read_exact read_fix_size transfer
    bytes_head handle read_payload read_length read_mask unmask xor_mask take_frame
fragments_received = refl

-- A server closes at a frame without a mask and at an empty frame.
unmasked_refused : recv_message slow 100 false 5 (0x81 ∷ 1 ∷ 104 ∷ []) ≡ some (none, [])
unfolding recv_message receive round read_head read_exact read_fix_size transfer bytes_head handle
    read_payload
unmasked_refused = refl

empty_refused : recv_message slow 100 false 5 (0x81 ∷ 0x80 ∷ 0 ∷ 0 ∷ 0 ∷ 0 ∷ []) ≡ some (none, [])
unfolding recv_message receive round read_head read_exact read_fix_size transfer bytes_head handle
    read_payload read_length read_mask
empty_refused = refl

-- The mask and the data of a ping are taken for the next frames.
ping_with_text :
    recv_message slow 100 false 9
      (0x89 ∷ 0x82 ∷ 0x88 ∷ 0 ∷ 0 ∷ 0 ∷ 1 ∷ 2 ∷ 0x81 ∷ 0x81 ∷ 0 ∷ 0 ∷ 0 ∷ 0 ∷ 104 ∷ [])
    ≡ some (none, [])
unfolding recv_message receive round read_head read_exact read_fix_size transfer bytes_head handle
    answer_ping control head_bytes write_fix_size
ping_with_text = refl

-- A length that wraps the sum around to 1 passes the test of the limit, and closes the stream all the same.
wrap_refused :
    recv_message slow 100 true 9
      (0x01 ∷ 2 ∷ 7 ∷ 7 ∷ 0x80 ∷ 127 ∷ 255 ∷ 255 ∷ 255 ∷ 255 ∷ 255 ∷ 255 ∷ 255 ∷ 255 ∷ 1 ∷ 2 ∷ [])
    ≡ some (none, [])
unfolding recv_message receive round read_head read_exact read_fix_size transfer bytes_head handle
    read_payload read_length read_mask of_bytes byteswap to_bytes take_frame
wrap_refused = refl

abbrev parts : List (List ℕ)
parts = (1 ∷ 2 ∷ []) ∷ (3 ∷ []) ∷ []

recv_message-send_parts_example :
    (w' w'' : List ℕ) × (send_parts slow (λ n. n + 77) true 2 parts (4 ∷ []) [] ≡ some (pos 3, w'))
    × (recv_message slow 100 false 5 w'
        ≡ some (some (record { opcode = 2; text = 1 ∷ 2 ∷ 3 ∷ 4 ∷ [] }), w''))
    × (w'' ≡ [])
recv_message-send_parts_example =
    recv_message-send_parts slow wire slow-IsPipe (λ n. n + 77) false true 100 5 2 parts (4 ∷ []) []
      (omega arith)
      (((omega arith, (omega arith, tt)), omega arith), (((omega arith, tt), omega arith), tt))
      ((omega arith, tt), omega arith) refl (omega arith) (omega arith) (omega arith) refl

recv_message-lt_example :
    (0 < length {A = ℕ} (104 ∷ 101 ∷ 108 ∷ [])) × (length {A = ℕ} (104 ∷ 101 ∷ 108 ∷ []) < 100)
recv_message-lt_example =
    recv_message-lt slow 100 false 5 fragments (7 ∷ [])
      (record { opcode = 1; text = 104 ∷ 101 ∷ 108 ∷ [] }) slow-IsCounting (omega arith)
      (omega arith) fragments_received

send_message-empty_example :
    (w' : List ℕ) × (send_message slow 5 (record { opcode = 1; text = [] }) true true []
      ≡ some (negsuc 0, (record { opcode = 1; text = [] }, [])))
    × (w' ≡ head_bytes (send_head_of (record { opcode = 1; text = [] }) true true) ++ to_bytes 4 5)
send_message-empty_example = send_message-empty slow wire slow-IsPipe 5 1 true true []
