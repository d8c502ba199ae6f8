-- ===== src/Tests/Packets.antt =====
-- A 20 ms frame, packed and parsed (src/packing.go, src/ilbc_encode.go, src/ilbc_decode.go).
use i_lbc_go.Prelude.{
  ℕ, ◌<◌, ◌≡◌, refl, arith, List, [], ◌∷◌, ◌++◌, some, none, length, replicate, All, inl, ◌↔◌,
}
use i_lbc_go.Bitstream.{Cursor, packsplit, packcombine, dopack, unpack}
use i_lbc_go.Bitstream.Bits.{bits}
use i_lbc_go.Bitstream.Bytes.{IsByte, all_bits}
use i_lbc_go.Bitstream.Write.{Written, dopack_appends}
use i_lbc_go.Bitstream.Read.{Unread, unpack_reads}
use i_lbc_go.Layout.{frame_shape, shape20}
use mathlib.Core.Option
use i_lbc_go.Frame.{
  Indices, pack_frame, unpack_frame, pack_classes, pack_class, pack_fields, pack_field,
}
use i_lbc_go.Frame.{unpack_classes, unpack_class, unpack_fields, unpack_field}
use i_lbc_go.Frame.Encode.{InRange, frame_bits}
use i_lbc_go.Frame.RoundTrip.{unpack_frame-pack_frame, pack_frame_lem, shape20-IsLayout}
use i_lbc_go.Frame.Total.{unpack_frame_total}
use i_lbc_go.Packet.{
  send, receive, accepted, received_mode, encoder_index, decoder_index, convert_encoder_indices,
  convert_decoder_indices,
}
use i_lbc_go.Packet.Convert.{Reachable, decoder_index-encoder_index}
use i_lbc_go.Packet.Receive.{IsStart, received_mode_lem, receive-send, receive_total}

abbrev indices : List ℕ → Indices
indices cb = record {
  lsf = 5 ∷ 100 ∷ 3 ∷ [];
  start = 2;
  state_first = 1;
  idx_for_max = 33;
  idx_vec = replicate 57 5;
  extra_cb_index = 100 ∷ 77 ∷ 1 ∷ [];
  extra_gain_index = 20 ∷ 9 ∷ 5 ∷ [];
  cb_index = cb;
  gain_index = 17 ∷ 9 ∷ 5 ∷ 30 ∷ 2 ∷ 7 ∷ [];
}

abbrev chosen : List ℕ
chosen = 200 ∷ 120 ∷ 240 ∷ 10 ∷ 255 ∷ 30 ∷ []

abbrev converted : List ℕ
converted = 200 ∷ 56 ∷ 112 ∷ 10 ∷ 255 ∷ 30 ∷ []

abbrev used_buffer : List ℕ
used_buffer = replicate 38 255

is_20 : frame_shape 20 ≡ some shape20
unfolding frame_shape
is_20 = refl

converts : convert_encoder_indices chosen ≡ some converted
unfolding convert_encoder_indices
converts = refl

in_range : InRange shape20 0 (indices converted)
in_range = omega arith

-- Three bits behind five of the byte, and five bits over its end.
dopack_run :
    dopack 0b101 3 (record { bytes = 0b1101_1000 ∷ 7 ∷ []; off = 0; pos = 5 })
    ≡ some (record { bytes = 0b1101_1101 ∷ 7 ∷ []; off = 0; pos = 8 })
unfolding dopack
dopack_run = refl

dopack_over_end :
    dopack 0b10111 5 (record { bytes = 0b1101_1000 ∷ 7 ∷ []; off = 0; pos = 5 })
    ≡ some (record { bytes = 0b1101_1101 ∷ 0b1100_0000 ∷ []; off = 1; pos = 2 })
unfolding dopack
dopack_over_end = refl

dopack_past_end : dopack 1 4 (record { bytes = 3 ∷ []; off = 0; pos = 5 }) ≡ none
unfolding dopack
dopack_past_end = refl

five-Written :
    Written 2 (record { bytes = 0b1101_1000 ∷ 7 ∷ []; off = 0; pos = 5 }) (1 ∷ 1 ∷ 0 ∷ 1 ∷ 1 ∷ [])
unfolding bits
five-Written = record {
  done = [];
  high = 0b11011;
  later = 7 ∷ [];
  p = 5;
  cursor-eq = refl;
  p-le = omega arith;
  high-lt = omega arith;
  size-eq = refl;
  done-IsByte = tt;
  ws-eq = refl;
}

dopack_appends_example :
    (d : Cursor) × (dopack 0b10111 5 (record { bytes = 0b1101_1000 ∷ 7 ∷ []; off = 0; pos = 5 })
      ≡ some d)
    × Written 2 d ((1 ∷ 1 ∷ 0 ∷ 1 ∷ 1 ∷ []) ++ bits 5 0b10111)
dopack_appends_example =
    dopack_appends 2 5 0b10111 (record { bytes = 0b1101_1000 ∷ 7 ∷ []; off = 0; pos = 5 })
      (1 ∷ 1 ∷ 0 ∷ 1 ∷ 1 ∷ []) (inl five-Written) (omega arith) (omega arith)

five_read :
    Unread
      (record { bytes = 0b1101_1101 ∷ 0b1100_0000 ∷ []; off = 0; pos = 5 })
      (bits 5 0b10111 ++ (0 ∷ 0 ∷ 0 ∷ 0 ∷ 0 ∷ 0 ∷ []))
unfolding bits
five_read = record {
  done = [];
  byte = 0b1101_1101;
  later = 0b1100_0000 ∷ [];
  p = 5;
  cursor-eq = refl;
  p-le = omega arith;
  bytes = omega arith;
  stream-eq = refl;
}

unpack_reads_example :
    (d : Cursor) × (unpack 5 (record { bytes = 0b1101_1101 ∷ 0b1100_0000 ∷ []; off = 0; pos = 5 })
      ≡ some (0b10111, d))
    × Unread d (0 ∷ 0 ∷ 0 ∷ 0 ∷ 0 ∷ 0 ∷ [])
unpack_reads_example =
    unpack_reads 5 0b10111 (record { bytes = 0b1101_1101 ∷ 0b1100_0000 ∷ []; off = 0; pos = 5 })
      (0 ∷ 0 ∷ 0 ∷ 0 ∷ 0 ∷ 0 ∷ []) five_read (omega arith)

abbrev packet : List ℕ
packet =
    23 ∷ 32 ∷ 59 ∷ 14 ∷ 87 ∷ 39 ∷ 255 ∷ 255 ∷ 255 ∷ 255 ∷ 255 ∷ 255 ∷ 255 ∷ 132 ∷ 85 ∷ 85 ∷ 85 ∷ 85
    ∷ 85 ∷ 85 ∷ 85 ∷ 85 ∷ 85 ∷ 85 ∷ 85 ∷ 85 ∷ 85 ∷ 85 ∷ 83 ∷ 64 ∷ 198 ∷ 156 ∷ 112 ∷ 10 ∷ 255 ∷ 30
    ∷ 91 ∷ 174 ∷ []

send_run : send shape20 (indices chosen) used_buffer ≡ some packet
unfolding send convert_encoder_indices pack_frame pack_classes pack_class pack_fields pack_field
    packsplit dopack
send_run = refl

receive_run : receive shape20 packet ≡ some (1, indices chosen)
unfolding receive unpack_frame unpack_classes unpack_class unpack_fields unpack_field unpack
    packcombine received_mode accepted convert_decoder_indices
receive_run = refl

-- All ones carry the mark of an empty frame.
receive_empty : Option.map (λ r. r.0) (receive shape20 used_buffer) ≡ some 0
unfolding receive unpack_frame unpack_classes unpack_class unpack_fields unpack_field unpack
    packcombine received_mode accepted
receive_empty = refl

pack_frame_lem_example :
    (p : List ℕ) × (pack_frame shape20 (indices converted) used_buffer ≡ some p)
    × (length p ≡ 38)
    × (all_bits p ≡ frame_bits shape20 (indices converted))
    × All IsByte p
pack_frame_lem_example =
    pack_frame_lem shape20 (indices converted) used_buffer shape20-IsLayout in_range (omega arith)
      refl

unpack_frame-pack_frame_example :
    (p : List ℕ) × (pack_frame shape20 (indices converted) used_buffer ≡ some p)
    × (length p ≡ 38)
    × All IsByte p
    × (unpack_frame shape20 p ≡ some (indices converted, 0))
unpack_frame-pack_frame_example =
    unpack_frame-pack_frame 20 shape20 (indices converted) used_buffer is_20 in_range refl

-- Any bytes, here all ones, parse to indices in range.
unpack_frame_total_example :
    (f : Indices) × (last_bit : ℕ) × (unpack_frame shape20 used_buffer ≡ some (f, last_bit))
    × InRange shape20 0 f
    × (last_bit < 2)
unpack_frame_total_example = unpack_frame_total 20 shape20 used_buffer is_20 refl (omega arith)

decoder_index-encoder_index_example :
    Reachable 240 ↔ ((decoder_index (encoder_index 240) ≡ 240) × (encoder_index 240 < 128))
decoder_index-encoder_index_example = decoder_index-encoder_index 240 (omega arith)

received_mode_lem_example :
    (received_mode shape20 2 0 1 ≡ 1) ↔ (IsStart shape20 2 × (◌≡◌ {A = ℕ} 0 0))
received_mode_lem_example =
    received_mode_lem 20 shape20 (indices converted) 0 is_20 in_range (omega arith)

receive-send_example :
    (p : List ℕ) × (send shape20 (indices chosen) used_buffer ≡ some p)
    × (length p ≡ 38)
    × (receive shape20 p ≡ some (1, indices chosen))
receive-send_example =
    receive-send 20 shape20 (indices chosen) converted used_buffer is_20 converts (omega arith)
      in_range (omega arith) refl

receive_total_example :
    (f : Indices) × (last_bit : ℕ) × (cs : List ℕ) × (unpack_frame shape20 used_buffer
      ≡ some (f, last_bit))
    × (convert_decoder_indices f.cb_index ≡ some cs)
    × (IsStart shape20 f.start × (last_bit ≡ 0)
        → receive shape20 used_buffer ≡ some (1, record f { cb_index = cs }))
    × (¬ (IsStart shape20 f.start × (last_bit ≡ 0)) → receive shape20 used_buffer ≡ some (0, f))
receive_total_example = receive_total 20 shape20 used_buffer is_20 refl (omega arith)
