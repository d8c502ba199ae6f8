-- ===== src/Tests/Calls.antt =====
-- Datagrams and the reorder window of a call (cmd/talk/protocol.go).
use i_lbc_go.Prelude.{
  ℕ, ◌%◌, ◌≡◌, refl, arith, List, [], ◌∷◌, some, none, get_or, replicate, Bool, true, false,
  get_or-replicate,
}
use i_lbc_go.Talk.Wire.{Packet, no_packet, parse_packet}
use i_lbc_go.Talk.Wire.RoundTrip.{IsPacket, Sent, parse_packet-marshal}
use i_lbc_go.Talk.Jitter.{JitterBuffer, no_buffer, insert, take}
use i_lbc_go.Talk.Jitter.Window.{IsValid, no_buffer-IsValid, insert-IsValid}
use i_lbc_go.Talk.Jitter.Playout.{
  arrives, plays, empty, then, Reached-IsValid, take_lem, after, Plays, take-insert,
}

abbrev audio_packet : ℕ → Packet
audio_packet n = record { kind = 3; session = 7; seq = n; audio = replicate 38 129 }

abbrev full_datagram : List ℕ
full_datagram = replicate 58 255

hello_parsed :
    parse_packet
      (73 ∷ 76 ∷ 66 ∷ 84 ∷ 1 ∷ 1 ∷ 0 ∷ 0 ∷ 0 ∷ 0 ∷ 0 ∷ 0 ∷ 0 ∷ 0 ∷ 1 ∷ 2 ∷ 0 ∷ 0 ∷ 0 ∷ 9 ∷ [])
    ≡ some (record { kind = 1; session = 258; seq = 9; audio = replicate 38 0 })
unfolding parse_packet
hello_parsed = refl

no_session :
    parse_packet
      (73 ∷ 76 ∷ 66 ∷ 84 ∷ 1 ∷ 1 ∷ 0 ∷ 0 ∷ 0 ∷ 0 ∷ 0 ∷ 0 ∷ 0 ∷ 0 ∷ 0 ∷ 0 ∷ 0 ∷ 0 ∷ 0 ∷ 9 ∷ [])
    ≡ none
unfolding parse_packet
no_session = refl

audio_packet-IsPacket : IsPacket (audio_packet 40)
audio_packet-IsPacket = record {
  kind_ge = omega arith;
  kind_le = omega arith;
  session_pos = omega arith;
  session_lt = omega arith;
  seq_lt = omega arith;
  audio_size = refl;
  silent = λ h. absurd (h refl);
}

parse_packet-marshal_example :
    (content : List ℕ) × Sent (audio_packet 40) full_datagram content
    × (parse_packet content ≡ some (audio_packet 40))
parse_packet-marshal_example =
    parse_packet-marshal (audio_packet 40) full_datagram audio_packet-IsPacket refl

-- The first packet has number 40.
abbrev started_at_40 : JitterBuffer
started_at_40 = insert (audio_packet 40) no_buffer

started_at_40-IsValid : IsValid started_at_40
started_at_40-IsValid = insert-IsValid (audio_packet 40) no_buffer no_buffer-IsValid (omega arith)

now_started : started_at_40.started ≡ true
unfolding insert
now_started = refl

number_40 : started_at_40.next ≡ 40
unfolding insert
number_40 = refl

wait_3 : started_at_40.wait ≡ 3
unfolding insert
wait_3 = refl

free_41 : get_or started_at_40.valid ((audio_packet 41).seq % 64) false ≡ false
unfolding insert
free_41 = refl

-- A packet that overtook number 40 by 80 starts the window again.
jump : (insert (audio_packet 120) started_at_40).next ≡ 120
unfolding insert
jump = refl

Reached-IsValid_example : IsValid (take started_at_40).buffer
Reached-IsValid_example = Reached-IsValid (take started_at_40).buffer (
    then started_at_40 (take started_at_40).buffer
      (then no_buffer started_at_40 empty (arrives (audio_packet 40) no_buffer (omega arith)))
      (plays started_at_40))

-- After three steps of waiting.
abbrev ready : JitterBuffer
ready = record {
  slots = replicate 64 no_packet;
  valid = replicate 64 false;
  next = 4294967295;
  started = true;
  wait = 0;
}

ready-IsValid : IsValid ready
ready-IsValid = record {
  slots_size = refl;
  valid_size = refl;
  next_lt = omega arith;
  wait_le = omega arith;
  idle = λ e i. get_or-replicate 64 i false;
  held = λ i h. absurd (not_both (get_or-replicate 64 i false) h);
}
  where
    not_both : {b : Bool} → b ≡ false → b ≡ true → ⊥
    not_both a b = cc

take_lem_example :
    ((take ready).active ≡ true)
    × ((take ready).buffer.next ≡ 0)
    × ((take ready).received ≡ false)
    × ((take ready).received ≡ true → (take ready).packet.seq ≡ 4294967295)
take_lem_example = take_lem ready ready-IsValid refl refl

take-insert_example : Plays (audio_packet 1) (after 2 (insert (audio_packet 1) ready))
take-insert_example =
    take-insert (audio_packet 1) ready ready-IsValid refl (omega arith) (omega arith) refl
