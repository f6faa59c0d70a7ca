-- ===== src/Websocket/Limits.antt =====
-- What `WSRecvMessage` gives whatever the peer sends: the limit of a message holds, also where the sum of
-- lengths wraps around.
use ynwad.Base.{
  ℕ, zero, suc, ◌^◌, ◌≤◌, ◌<◌, ◌≡◌, refl, ap, Bool, true, false, Option, none, some, List, [],
  length, inl, inr, if◌then◌else◌, arith,
}
use mathlib.Core.Path.{subst}
use ynwad.Websocket.{
  Device, FrameHead, FrameMessage, read_exact, read_payload, pure, ping_frame, pong_frame,
  close_frame, is_data, first_opcode, bytes_head, answer_ping, read_head, handle, round, Round,
  again, complete, take_frame, receive, recv_message,
}
use ynwad.Base.{◌==◌}
use ynwad.Websocket.Inverse.{IsCounting, bind_inv, if_inv, value_of, read_payload_inv}

module _ {W : Type 0} (device : Device W) where
  -- What holds of the data behind a round.
  abbrev Within : ℕ → Round → Type 0
  Within max_size (again kind text) = length text < max_size
  Within max_size (complete m) = (0 < length m.text) × (length m.text < max_size)

  take_frame-Within :
      (max_size : ℕ) (head : FrameHead) (kind : ℕ) (text : List ℕ)
      → (0 < length text) × (length text < max_size)
      → Within max_size (take_frame head kind text)
  unfolding take_frame
  take_frame-Within max_size head kind text h =
      elim head.fin
        as (λ b. Within max_size (
          if b
          then complete (record { opcode = first_opcode kind head.opcode; text = text })
          else again (first_opcode kind head.opcode) text)) [ true ↦ h | false ↦ h.1 ]

  handle-Within :
      (max_size : ℕ) (client : Bool) (kind : ℕ) (before : List ℕ) (head : FrameHead) (w w' : W)
      (x : Round)
      → IsCounting device
      → head.payload < 128
      → length before < max_size
      → max_size ≤ 2 ^ 31
      → handle device max_size client kind before head w ≡ some (some x, w')
      → Within max_size x
  unfolding handle
  handle-Within max_size client kind before head w w' x count h fits small e =
      elim (if_inv (head.opcode == ping_frame) _ _ e) [
        | inl e' ↦
            bind_inv (answer_ping device) _ e'
              (λ _ v _ last. subst (Within max_size) (value_of x last) fits)
        | inr e1 ↦ elim (if_inv (head.opcode == pong_frame) _ _ e1) [
          | inl e' ↦ subst (Within max_size) (value_of x e') fits
          | inr e2 ↦ elim (if_inv (is_data head.opcode) _ _ e2) [
            | inl e' ↦
                bind_inv (read_payload device max_size client head before) _ e' (λ all v run last.
                  subst (Within max_size) (value_of x last) (
                    take_frame-Within max_size head kind all (
                      read_payload_inv device max_size client head before all w v count h fits small
                        run)))
            | inr e3 ↦ elim (if_inv (head.opcode == close_frame) _ _ e3) [
              | inl e' ↦ absurd (ground (arith, e'))
              | inr e' ↦ subst (Within max_size) (value_of x e') fits
            ]
          ]
        ]
      ]

  round-Within :
      (max_size : ℕ) (client : Bool) (kind : ℕ) (before : List ℕ) (w w' : W) (x : Round)
      → IsCounting device
      → length before < max_size
      → max_size ≤ 2 ^ 31
      → round device max_size client kind before w ≡ some (some x, w')
      → Within max_size x
  unfolding round read_head bytes_head
  round-Within max_size client kind before w w' x count fits small e =
      bind_inv (read_head device) (λ head. handle device max_size client kind before head) e
        (λ head w1 run e1.
          bind_inv (read_exact device 2) (λ bytes. pure (bytes_head bytes)) run
            (λ bytes v _ last.
              handle-Within max_size client kind before head w1 w' x count
                (subst (λ (t : FrameHead). t.payload < 128) (value_of head last) (omega arith)) fits
                small e1))

  -- What a round leads to.
  behind_round :
      (max_size : ℕ) (client : Bool) (fuel : ℕ) (o : Option (Option Round × W)) (w' : W)
      (m : FrameMessage)
      → ((x : Round) (v : W) → o ≡ some (some x, v) → Within max_size x)
      → ((kind : ℕ) (text : List ℕ) (v : W)
          → length text < max_size
          → receive device max_size client fuel kind text v ≡ some (some m, w')
          → (0 < length m.text) × (length m.text < max_size))
      → ◌≡◌ {A = Option (Option FrameMessage × W)}
          (elim o [
            | none ↦ none
            | some r ↦ elim r.0 [
              | none ↦ some (none, device.close r.1)
              | some (complete c) ↦ some (some c, r.1)
              | some (again kind all) ↦ receive device max_size client fuel kind all r.1
            ]
          ])
          (some (some m, w'))
      → (0 < length m.text) × (length m.text < max_size)
  behind_round max_size client fuel none w' m within rest e = absurd (ground (arith, e))
  behind_round max_size client fuel (some (none, v)) w' m within rest e = absurd (ground (arith, e))
  behind_round max_size client fuel (some (some (complete c), v)) w' m within rest e =
      subst (λ (t : FrameMessage). (0 < length t.text) × (length t.text < max_size))
        (ap (λ o. elim o [ none ↦ c | some r ↦ elim r.0 [ none ↦ c | some b ↦ b ] ]) e)
        (within (complete c) v refl)
  behind_round max_size client fuel (some (some (again kind all), v)) w' m within rest e =
      rest kind all v (within (again kind all) v refl) e

  received_at :
      (max_size : ℕ) (client : Bool) (fuel kind : ℕ) (before : List ℕ) (w w' : W) (m : FrameMessage)
      → IsCounting device
      → length before < max_size
      → max_size ≤ 2 ^ 31
      → receive device max_size client fuel kind before w ≡ some (some m, w')
      → (0 < length m.text) × (length m.text < max_size)
  unfolding receive
  received_at max_size client zero kind before w w' m count fits small e =
      absurd (ground (arith, e))
  received_at max_size client (suc fuel) kind before w w' m count fits small e =
      behind_round max_size client fuel (round device max_size client kind before w) w' m
        (λ x v run. round-Within max_size client kind before w v x count fits small run)
        (λ kind' text v below run.
          received_at max_size client fuel kind' text v w' m count below small run)
        e

  -- Whatever the peer sends over a stream that counts what it reads, a message that is received under a limit
  -- from 1 to 2 ^ 31 has at least one byte and fewer than the limit.
  pub recv_message-lt :
      (max_size : ℕ) (client : Bool) (fuel : ℕ) (w w' : W) (m : FrameMessage)
      → IsCounting device
      → 0 < max_size
      → max_size ≤ 2 ^ 31
      → recv_message device max_size client fuel w ≡ some (some m, w')
      → (0 < length m.text) × (length m.text < max_size)
  unfolding recv_message
  recv_message-lt max_size client fuel w w' m count some_room small e =
      received_at max_size client fuel 0 [] w w' m count some_room small e
