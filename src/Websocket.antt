-- ===== src/Websocket.antt =====
-- WebSocket frames and messages: sylar/http/ws_session.cc with the types of sylar/http/ws_session.h.
--
-- A stream is a state with its virtual functions `read`, `write` and `close`, which are arguments; the
-- loops that move a fixed size are those of `Stream`. A read gives its answer with the bytes it has put
-- into the buffer, behind those of the reads before it. The limit of a message, `rand` and what the
-- logger prints come from outside: the first two are arguments. A code block that the source leaves by
-- `break` ends without a value; a loop whose fuel is used up is `none`.
pub mod Wire
pub mod Pipe
pub mod Sends
pub mod Receives
pub mod RoundTrip
pub mod Inverse
pub mod Limits
mod Tests
use ynwad.Base.{
  ℕ, zero, suc, ◌+◌, ◌-◌, ◌*◌, ◌/◌, ◌%◌, ◌^◌, Bool, true, false, not, ◌&&◌, ◌||◌, Option, none,
  some, List, [], ◌∷◌, ◌++◌, length, take, drop, get_or, ltb, leb, ◌==◌, if◌then◌else◌, bit_xor,
}
use ynwad.Stream.{ℤ, pos, negsuc, to_int, read_fix_size, write_fix_size}
use ynwad.Codec.{to_bytes, of_bytes, byteswap}

-- `WSFrameHead`, two bytes of bit fields.
pub record FrameHead : Type 0 where
  pub opcode : ℕ
  pub rsv3 : Bool
  pub rsv2 : Bool
  pub rsv1 : Bool
  pub fin : Bool
  pub payload : ℕ
  pub mask : Bool

abbrev pub continue_frame : ℕ
continue_frame = 0

abbrev pub text_frame : ℕ
text_frame = 1

abbrev pub bin_frame : ℕ
bin_frame = 2

abbrev pub close_frame : ℕ
close_frame = 8

abbrev pub ping_frame : ℕ
ping_frame = 9

abbrev pub pong_frame : ℕ
pong_frame = 10

pub record FrameMessage : Type 0 where
  pub opcode : ℕ
  pub text : List ℕ

abbrev pub bit : Bool → ℕ
bit true = 1
bit false = 0

-- The head in memory, and a head from its memory.
unfoldable pub head_bytes : FrameHead → List ℕ
head_bytes h =
    (h.opcode + 16 * bit h.rsv3 + 32 * bit h.rsv2 + 64 * bit h.rsv1 + 128 * bit h.fin)
    ∷ (h.payload + 128 * bit h.mask)
    ∷ []

unfoldable pub bytes_head : List ℕ → FrameHead
bytes_head bytes =
    let first = get_or bytes 0 0 in
    let second = get_or bytes 1 0 in
    record {
      opcode = first % 16;
      rsv3 = first / 16 % 2 == 1;
      rsv2 = first / 32 % 2 == 1;
      rsv1 = first / 64 % 2 == 1;
      fin = first / 128 % 2 == 1;
      payload = second % 128;
      mask = second / 128 % 2 == 1;
    }

-- `memset(&ws_head, 0, sizeof(ws_head))`
abbrev pub zero_head : FrameHead
zero_head = record {
  opcode = 0;
  rsv3 = false;
  rsv2 = false;
  rsv1 = false;
  fin = false;
  payload = 0;
  mask = false;
}

pub record Device (W : Type 0) : Type 0 where
  pub read : ℕ → W → ℤ × List ℕ × W
  pub write : List ℕ → W → ℤ × W
  pub close : W → W

-- `(none, w)` is a `break`.
abbrev pub M : Type 0 → Type 0 → Type 0
M W A = W → Option (Option A × W)

infixl 5 ◌>>=◌ ◌>>◌
abbrev pub ◌>>=◌ : {W A B : Type 0} → M W A → (A → M W B) → M W B
◌>>=◌ m f w = elim (m w) [
  | none ↦ none
  | some r ↦ elim r.0 [ none ↦ some (none, r.1) | some a ↦ f a r.1 ]
]

abbrev pub ◌>>◌ : {W B : Type 0} → M W (Unit {0}) → M W B → M W B
m >> k = m >>= λ _. k

abbrev pub pure : {W A : Type 0} → A → M W A
pure a w = some (some a, w)

abbrev pub guard : {W : Type 0} → Bool → M W (Unit {0})
guard true w = some (some tt, w)
guard false w = some (none, w)

-- `data[i] ^= mask[i % 4]` for the bytes from `i` on.
unfoldable pub xor_mask : List ℕ → ℕ → List ℕ → List ℕ
xor_mask mask i [] = []
xor_mask mask i (x ∷ xs) = bit_xor x (get_or mask (i % 4) 0) ∷ xor_mask mask (suc i) xs

-- The loop of the receiver counts up to `(int)length`.
unfoldable pub unmask : List ℕ → List ℕ → List ℕ
unmask mask text = elim (to_int (length text)) [ pos n ↦ xor_mask mask 0 text | negsuc n ↦ text ]

-- An answer that is not positive is a `break`.
abbrev pub positive : ℤ → Bool
positive (pos zero) = false
positive (pos (suc n)) = true
positive (negsuc n) = false

-- What a round of the loop leads to.
pub data Round : Type 0 where
  again : ℕ → List ℕ → Round
  complete : FrameMessage → Round

abbrev pub is_data : ℕ → Bool
is_data opcode = opcode == continue_frame || opcode == text_frame || opcode == bin_frame

abbrev pub first_opcode : ℕ → ℕ → ℕ
first_opcode opcode now = if opcode == 0 && not (now == continue_frame) then now else opcode

-- Behind the payload of a data frame.
unfoldable pub take_frame : FrameHead → ℕ → List ℕ → Round
take_frame head opcode text =
    let kind = first_opcode opcode head.opcode in
    if head.fin then complete (record { opcode = kind; text = text }) else again kind text

abbrev pub short_length : ℕ → ℕ
short_length size = if ltb size 126 then size else if ltb size 65536 then 126 else 127

abbrev pub send_head_of : FrameMessage → Bool → Bool → FrameHead
send_head_of msg client fin = record zero_head {
  fin = fin;
  opcode = msg.opcode % 16;
  mask = client;
  payload = short_length (length msg.text);
}

-- The data as they go out: a client masks them in the message itself.
unfoldable pub masked : List ℕ → Bool → FrameMessage → FrameMessage
masked mask client msg = if client then record msg { text = xor_mask mask 0 msg.text } else msg

module _ {W : Type 0} (device : Device W) where
  -- One call of `read` into a buffer, and of `write` from one.
  abbrev pub read_step : ℕ → ℕ → W × List ℕ → ℤ × (W × List ℕ)
  read_step offset left (w, buffer) =
      let answer = device.read left w in (answer.0, (answer.2, buffer ++ answer.1))

  abbrev pub write_step : List ℕ → ℕ → ℕ → W → ℤ × W
  write_step bytes offset left w = device.write (take left (drop offset bytes)) w

  -- `if(stream->readFixSize(buffer, n) <= 0) break;` and the same of `writeFixSize`.
  unfoldable pub read_exact : ℕ → M W (List ℕ)
  read_exact n w = elim (read_fix_size read_step n (w, [])) [
    | none ↦ none
    | some r ↦ if positive r.0 then some (some r.1.1, r.1.0) else some (none, r.1.0)
  ]

  unfoldable pub write_exact : List ℕ → M W (Unit {0})
  write_exact bytes w = elim (write_fix_size (write_step bytes) (length bytes) w) [
    | none ↦ none
    | some r ↦ if positive r.0 then some (some tt, r.1) else some (none, r.1)
  ]

  -- `WSPing` and `WSPong`.
  unfoldable pub control : ℕ → W → Option (ℤ × W)
  control opcode w =
      let head = head_bytes (record zero_head { fin = true; opcode = opcode }) in
      elim (write_fix_size (write_step head) 2 w) [
        | none ↦ none
        | some r ↦ some (r.0, if positive r.0 then r.1 else device.close r.1)
      ]

  -- `if(WSPong(stream) <= 0) break;`
  unfoldable pub answer_ping : M W (Unit {0})
  answer_ping w = elim (control pong_frame w) [
    | none ↦ none
    | some r ↦ if positive r.0 then some (some tt, r.1) else some (none, r.1)
  ]

  unfoldable pub read_head : M W FrameHead
  read_head = do bytes ← read_exact 2; pure (bytes_head bytes)

  unfoldable pub read_length : FrameHead → M W ℕ
  read_length head =
      if head.payload == 126
      then (do bytes ← read_exact 2; pure (byteswap 2 (of_bytes bytes)))
      else if head.payload == 127
      then (do bytes ← read_exact 8; pure (byteswap 8 (of_bytes bytes)))
      else pure head.payload

  unfoldable pub read_mask : FrameHead → M W (List ℕ)
  read_mask head = if head.mask then read_exact 4 else pure (0 ∷ 0 ∷ 0 ∷ 0 ∷ [])

  -- The payload of a data frame behind `text`, the data of the frames before it.
  unfoldable pub read_payload : ℕ → Bool → FrameHead → List ℕ → M W (List ℕ)
  read_payload max_size client head text = do
    guard (client || head.mask)
    len ← read_length head
    guard (not (leb max_size ((length text + len) % 2 ^ 64)))
    mask ← read_mask head
    bytes ← read_exact len
    pure (text ++ (if head.mask then unmask mask bytes else bytes))

  -- What is done with a frame by its opcode.
  unfoldable pub handle : ℕ → Bool → ℕ → List ℕ → FrameHead → M W Round
  handle max_size client opcode text head =
      if head.opcode == ping_frame
      then (do answer_ping; pure (again opcode text))
      else if head.opcode == pong_frame
      then pure (again opcode text)
      else if is_data head.opcode
      then (do all ← read_payload max_size client head text; pure (take_frame head opcode all))
      else if head.opcode == close_frame
      then (λ w. some (none, w))
      else pure (again opcode text)

  unfoldable pub round : ℕ → Bool → ℕ → List ℕ → M W Round
  round max_size client opcode text = do head ← read_head; handle max_size client opcode text head

  -- The loop of `WSRecvMessage` from an opcode and data on; `none` is the null pointer, behind `close`.
  unfoldable pub receive : ℕ → Bool → ℕ → ℕ → List ℕ → W → Option (Option FrameMessage × W)
  receive max_size client zero opcode text w = none
  receive max_size client (suc fuel) opcode text w = elim (round max_size client opcode text w) [
    | none ↦ none
    | some r ↦ elim r.0 [
      | none ↦ some (none, device.close r.1)
      | some (complete m) ↦ some (some m, r.1)
      | some (again kind all) ↦ receive max_size client fuel kind all r.1
    ]
  ]

  unfoldable pub recv_message : ℕ → Bool → ℕ → W → Option (Option FrameMessage × W)
  recv_message max_size client fuel = receive max_size client fuel 0 []

  unfoldable pub send_length : ℕ → M W (Unit {0})
  send_length size =
      if short_length size == 126
      then write_exact (to_bytes 2 (byteswap 2 (size % 2 ^ 16)))
      else if short_length size == 127
      then write_exact (to_bytes 8 (byteswap 8 size))
      else pure tt

  unfoldable pub send_head : FrameMessage → Bool → Bool → M W (Unit {0})
  send_head msg client fin = do
    write_exact (head_bytes (send_head_of msg client fin))
    send_length (length msg.text)

  unfoldable pub send_text : List ℕ → Bool → FrameMessage → M W (Unit {0})
  send_text mask client msg =
      if client then (do write_exact mask; write_exact msg.text) else write_exact msg.text

  -- The end of `WSSendMessage`, behind the code block.
  unfoldable pub send_end :
      ℤ → FrameMessage → Option (Option (Unit {0}) × W) → Option (ℤ × (FrameMessage × W))
  send_end answer msg none = none
  send_end answer msg (some (none, w)) = some (negsuc 0, (msg, device.close w))
  send_end answer msg (some (some _, w)) = some (answer, (msg, w))

  -- `WSSendMessage`: the answer, the message as it is left, and the stream.
  unfoldable pub send_message : ℕ → FrameMessage → Bool → Bool → W → Option (ℤ × (FrameMessage × W))
  send_message rand msg client fin w =
      let mask = to_bytes 4 rand in
      let msg' = masked mask client msg in
      elim (send_head msg client fin w) [
        | none ↦ none
        | some r ↦ elim r.0 [
          | none ↦ send_end (negsuc 0) msg (some r)
          | some _ ↦ send_end (to_int (length msg.text + 2)) msg' (send_text mask client msg' r.1)
        ]
      ]
