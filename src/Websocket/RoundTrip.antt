-- ===== src/Websocket/RoundTrip.antt =====
-- Messages in one frame or in several come back from the wire.
use ynwad.Base.{
  ℕ, zero, suc, ◌+◌, ◌-◌, ◌%◌, ◌^◌, ◌≤◌, ◌<◌, ◌≡◌, sym, ap, ◌∙◌, Bool, true, false, ◌||◌, Option,
  none, some, List, [], ◌∷◌, ◌++◌, append_assoc, append-nil, length, length-append, All, arith,
}
use ynwad.Codec.{to_bytes}
use ynwad.Codec.Fixed.{length-to_bytes, to_bytes-IsByte}
use ynwad.Stream.{ℤ, pos}
use ynwad.Websocket.{
  Device, FrameMessage, send_head_of, send_message, receive, recv_message, round, Round, again,
  complete, take_frame, first_opcode, continue_frame,
}
use ynwad.Websocket.Pipe.{IsPipe}
use ynwad.Websocket.Wire.{IsByte}
use ynwad.Websocket.Sends.{frame, send_message_lem}
use ynwad.Websocket.Receives.{Takes-round}

abbrev pub joined : List (List ℕ) → List ℕ → List ℕ
joined [] last = last
joined (part ∷ parts) last = part ++ joined parts last

-- Every part has bytes, at least one.
abbrev pub IsText : List ℕ → Type 0
IsText text = All IsByte text × (0 < length text)

unfoldable pub frames : (ℕ → ℕ) → Bool → ℕ → List (List ℕ) → List ℕ → List ℕ
frames rand client kind [] last =
    frame (to_bytes 4 (rand 0)) client true (record { opcode = kind; text = last })
frames rand client kind (part ∷ parts) last =
    frame (to_bytes 4 (rand (length parts + 1))) client false
      (record { opcode = kind; text = part })
    ++ frames rand client continue_frame parts last

module _ {W : Type 0} (device : Device W) where
  -- `sendMessage` of each part: all but the last one without the end mark, all but the first one as
  -- continuations.
  unfoldable pub send_parts : (ℕ → ℕ) → Bool → ℕ → List (List ℕ) → List ℕ → W → Option (ℤ × W)
  send_parts rand client kind [] last w =
      elim (send_message device (rand 0) (record { opcode = kind; text = last }) client true w) [
        | none ↦ none
        | some r ↦ some (r.0, r.1.1)
      ]
  send_parts rand client kind (part ∷ parts) last w =
      elim (send_message device (rand (length parts + 1)) (record { opcode = kind; text = part })
        client false w) [
          | none ↦ none
          | some r ↦ send_parts rand client continue_frame parts last r.1.1
        ]

module _ {W : Type 0} (device : Device W) (wire : W → List ℕ) (pipe : IsPipe device wire) where
  parts_sent :
      (rand : ℕ → ℕ) (client : Bool) (kind : ℕ) (parts : List (List ℕ)) (last : List ℕ) (w : W)
      → All IsText parts
      → IsText last
      → length (joined parts last) < 2 ^ 31 - 2
      → (w' : W) × (send_parts device rand client kind parts last w
          ≡ some (pos (length last + 2), w'))
        × (wire w' ≡ wire w ++ frames rand client kind parts last)
  unfolding send_parts frames
  parts_sent rand client kind [] last w each good small =
      let (w', run, put) =
        send_message_lem device wire pipe (rand 0) (record { opcode = kind; text = last }) client
          true w good.1 (omega (arith, small)) in
      (w', ap (λ o. elim o [ none ↦ none | some r ↦ some (r.0, r.1.1) ]) run, put)
  parts_sent rand client kind (part ∷ parts) last w each good small =
      let msg : FrameMessage = record { opcode = kind; text = part } in
      let (w', run, put) =
        send_message_lem device wire pipe (rand (length parts + 1)) msg client false w each.0.1
          (omega (arith, small, length-append part (joined parts last))) in
      let (w'', run', put') =
        parts_sent rand client continue_frame parts last w' each.1 good
          (omega (arith, small, length-append part (joined parts last))) in
      (
        w'',
        ap
              (λ o. elim o [
                | none ↦ none
                | some r ↦ send_parts device rand client continue_frame parts last r.1.1
              ])
              run
            ∙ run',
        put'
            ∙ ap (λ t. t ++ frames rand client continue_frame parts last) put
            ∙ append_assoc (wire w) (frame (to_bytes 4 (rand (length parts + 1))) client false msg)
                (frames rand client continue_frame parts last),
      )

  -- What the loop does behind a round.
  abbrev behind_round : ℕ → Bool → ℕ → Option (Option Round × W) → Option (Option FrameMessage × W)
  behind_round max_size client fuel o = elim o [
    | none ↦ none
    | some r ↦ elim r.0 [
      | none ↦ some (none, device.close r.1)
      | some x ↦ elim x [
        | again kind all ↦ receive device max_size client fuel kind all r.1
        | complete m ↦ some (some m, r.1)
      ]
    ]
  ]

  four_bits : (kind now : ℕ) → now < 3 → first_opcode kind (now % 16) ≡ first_opcode kind now
  four_bits kind now h = ap (first_opcode kind) (omega arith)

  goes_on : (kind : ℕ) → first_opcode kind continue_frame ≡ kind
  goes_on kind = ground arith

  -- How a round of the loop ends it, or leads on.
  receive_completes :
      (max_size : ℕ) (client : Bool) (fuel kind now : ℕ) (before text : List ℕ) (msg : FrameMessage)
      (masks : Bool) (w w' : W)
      → now < 3
      → round device max_size client kind before w
        ≡ some (
          some (take_frame (send_head_of (record msg { opcode = now }) masks true) kind text),
          w',
        )
      → receive device max_size client (suc fuel) kind before w
        ≡ some (some (record { opcode = first_opcode kind now; text = text }), w')
  unfolding receive take_frame
  receive_completes max_size client fuel kind now before text msg masks w w' h e =
      ap (behind_round max_size client fuel) e
      ∙ ap (λ t. some (some (record { opcode = t; text = text }), w')) (four_bits kind now h)

  receive_again :
      (max_size : ℕ) (client : Bool) (fuel kind now : ℕ) (before text : List ℕ) (msg : FrameMessage)
      (masks : Bool) (w w' : W)
      → now < 3
      → round device max_size client kind before w
        ≡ some (
          some (take_frame (send_head_of (record msg { opcode = now }) masks false) kind text),
          w',
        )
      → receive device max_size client (suc fuel) kind before w
        ≡ receive device max_size client fuel (first_opcode kind now) text w'
  unfolding receive take_frame
  receive_again max_size client fuel kind now before text msg masks w w' h e =
      ap (behind_round max_size client fuel) e
      ∙ ap (λ t. receive device max_size client fuel t text w') (four_bits kind now h)

  -- From what is received of the parts before on.
  parts_received :
      (rand : ℕ → ℕ) (client masks : Bool) (max_size fuel kind now : ℕ) (before : List ℕ)
      (parts : List (List ℕ)) (last rest : List ℕ) (w : W)
      → now < 3
      → All IsText parts
      → IsText last
      → (client || masks) ≡ true
      → length before + length (joined parts last) < max_size
      → max_size ≤ 2 ^ 31
      → length parts < fuel
      → wire w ≡ frames rand masks now parts last ++ rest
      → (w' : W) × (receive device max_size client fuel kind before w
          ≡ some (
            some (record { opcode = first_opcode kind now; text = before ++ joined parts last }),
            w',
          ))
        × (wire w' ≡ rest)
  unfolding frames
  parts_received rand client masks max_size zero kind now before parts last rest w op each good side
        fits small enough e =
      absurd (omega arith)
  parts_received rand client masks max_size (suc fuel) kind now before [] last rest w op each good
        side fits small enough e =
      let (w', run, left) =
        Takes-round device wire pipe max_size client kind before (to_bytes 4 (rand 0))
          (record { opcode = now; text = last }) masks true op (length-to_bytes 4 (rand 0))
          (to_bytes-IsByte 4 (rand 0)) good.0 good.1 side fits small w rest e in
      (
        w',
        receive_completes max_size client fuel kind now before (before ++ last)
            (record { opcode = now; text = last }) masks w w' op run,
        left,
      )
  parts_received rand client masks max_size (suc fuel) kind now before (part ∷ parts) last rest w op
        each good side fits small enough e =
      let mask = to_bytes 4 (rand (length parts + 1)) in
      let (w', run, left) =
        Takes-round device wire pipe max_size client kind before mask
          (record { opcode = now; text = part }) masks false op
          (length-to_bytes 4 (rand (length parts + 1)))
          (to_bytes-IsByte 4 (rand (length parts + 1))) each.0.0 each.0.1 side
          (omega (arith, fits, length-append part (joined parts last))) small w
          (frames rand masks continue_frame parts last ++ rest)
          (e
            ∙ append_assoc (frame mask masks false (record { opcode = now; text = part }))
                (frames rand masks continue_frame parts last) rest) in
      let (w'', run', left') =
        parts_received rand client masks max_size fuel (first_opcode kind now) continue_frame
          (before ++ part) parts last rest w' (omega arith) each.1 good side
          (omega (arith, fits, length-append part (joined parts last), length-append before part))
          small (omega (arith, enough)) left in
      (
        w'',
        receive_again max_size client fuel kind now before (before ++ part)
              (record { opcode = now; text = part }) masks w w' op run
            ∙ run'
            ∙ ap
                (λ t.
                  some (
                    some (record { opcode = t; text = (before ++ part) ++ joined parts last }),
                    w'',
                  ))
                (goes_on (first_opcode kind now))
            ∙ ap (λ t. some (some (record { opcode = first_opcode kind now; text = t }), w''))
                (append_assoc before part (joined parts last)),
        left',
      )

  -- On a working stream with nothing on its wire, a message with an opcode of data, sent in one or more
  -- parts of at least one byte each, of fewer bytes in all than the limit of a message, at most 2 ^ 31 - 2,
  -- is received as one message: by a server from a client that masks it, or by a client from either.
  -- The last send answers with the length of its part and two, and nothing is left on the wire.
  pub recv_message-send_parts :
      (rand : ℕ → ℕ) (client masks : Bool) (max_size fuel kind : ℕ) (parts : List (List ℕ))
      (last : List ℕ) (w : W)
      → kind < 3
      → All IsText parts
      → IsText last
      → (client || masks) ≡ true
      → length (joined parts last) < max_size
      → max_size ≤ 2 ^ 31 - 2
      → length parts < fuel
      → wire w ≡ []
      → (w' w'' : W) × (send_parts device rand masks kind parts last w
          ≡ some (pos (length last + 2), w'))
        × (recv_message device max_size client fuel w'
            ≡ some (some (record { opcode = kind; text = joined parts last }), w''))
        × (wire w'' ≡ [])
  unfolding recv_message
  recv_message-send_parts rand client masks max_size fuel kind parts last w op each good side fits
        small enough clear =
      let (w', run, put) =
        parts_sent rand masks kind parts last w each good (omega (arith, fits, small)) in
      let (w'', run', left) =
        parts_received rand client masks max_size fuel 0 kind [] parts last [] w' op each good side
          (omega (arith, fits)) (omega (arith, small)) enough
          (put
            ∙ ap (λ t. t ++ frames rand masks kind parts last) clear
            ∙ sym (append-nil (frames rand masks kind parts last))) in
      (
        w',
        w'',
        run,
        run'
            ∙ ap (λ t. some (some (record { opcode = t; text = joined parts last }), w''))
                (ground arith),
        left,
      )
