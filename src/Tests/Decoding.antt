-- ===== src/Tests/Decoding.antt =====
-- The decoder (src/ilbc_decode.go and what it calls), over whole numbers in place of floats.
use i_lbc_go.Prelude.{
  ℕ, ◌+◌, ◌*◌, ◌<◌, ◌≡◌, refl, arith, false, List, [], ◌∷◌, ◌==◌, length, replicate, take, All,
  some, inr,
}
use i_lbc_go.Bitstream.{◌>>=◌}
use i_lbc_go.Arrays.{slice, load, Returns, Sized}
use i_lbc_go.Tests.Whole.{Whole, Whole-IsOrdered}
use i_lbc_go.Layout.{frame_shape, shape20}
use i_lbc_go.Frame.{
  Indices, unpack_frame, unpack_classes, unpack_class, unpack_fields, unpack_field,
}
use i_lbc_go.Bitstream.{unpack, packcombine}
use i_lbc_go.Packet.{receive, received_mode, accepted, convert_decoder_indices, decoder_index}
use i_lbc_go.State.{DecoderState, init_decode, zero_decoder}
use i_lbc_go.State.Initial.{initial_decoder}
use i_lbc_go.State.Decoder.{IsDecoder}
use i_lbc_go.Residual.{decode}
use i_lbc_go.Residual.Received.{receive-decode}
use i_lbc_go.Plc.{do_the_plc}
use i_lbc_go.Plc.History.{do_the_plc-arrived}
use i_lbc_go.Plc.Total.{IsConcealed, do_the_plc-Returns}
use i_lbc_go.Codebook.{get_cb_vec}
use i_lbc_go.Codebook.Vector.{get_cb_vec-Returns}
use i_lbc_go.Lsf.{check_lsf}
use i_lbc_go.Lsf.Range.{IsClamped, check_lsf-IsClamped}
use i_lbc_go.Vectors.{levdurb}
use i_lbc_go.Vectors.Total.{levdurb-Returns}
use i_lbc_go.Decoder.{flush_subnormal_history}
use i_lbc_go.Decoder.Flush.{IsFlushed, flush_subnormal_history_lem}
use i_lbc_go.Api.{
  Use, decode_call, conceal_call, reset_call, use_all, decode_packet, reset_decoder, new_decoder,
}
use i_lbc_go.Api.Safety.{
  Answer, decode_packet-Returns, reset_decoder-new_decoder, use_all-IsDecoder,
}

is_20 : frame_shape 20 ≡ some shape20
unfolding frame_shape
is_20 = refl

-- A start position of 2, and zeros.
abbrev packet : List ℕ
packet = 0 ∷ 0 ∷ 8 ∷ replicate 35 0

abbrev parsed : Indices
parsed = record {
  lsf = 0 ∷ 0 ∷ 0 ∷ [];
  start = 2;
  state_first = 0;
  idx_for_max = 0;
  idx_vec = replicate 57 0;
  extra_cb_index = 0 ∷ 0 ∷ 0 ∷ [];
  extra_gain_index = 0 ∷ 0 ∷ 0 ∷ [];
  cb_index = 0 ∷ 0 ∷ 0 ∷ 0 ∷ 0 ∷ 0 ∷ [];
  gain_index = 0 ∷ 0 ∷ 0 ∷ 0 ∷ 0 ∷ 0 ∷ [];
}

received : receive shape20 packet ≡ some (1, parsed)
unfolding receive unpack_frame unpack_classes unpack_class unpack_fields unpack_field unpack
    packcombine received_mode accepted convert_decoder_indices decoder_index
received = refl

receive-decode_example :
    Returns (Sized 240) (decode Whole shape20 parsed (replicate 66 1000000) (replicate 240 0))
receive-decode_example =
    receive-decode Whole 20 shape20 packet parsed (replicate 66 1000000) (replicate 240 0) is_20
      refl (omega arith) received refl refl

-- A decoder of 20 ms after three lost frames.
abbrev used : DecoderState Whole
used = record {
  shape = shape20;
  synt_mem = replicate 10 0;
  lsfdeqold = replicate 10 1000000;
  last_lag = 20;
  prev_lag = 120;
  cons_pli_count = 3;
  prev_pli = 1;
  prev_enh_pl = 1;
  prev_lpc = 1000000 ∷ replicate 10 0;
  prev_residual = replicate 240 5000000;
  per = 0;
  seed = 777;
  old_syntdenum = replicate 66 0;
  hpomem = replicate 4 0;
  enhancement = 0;
  enh_buf = replicate 640 0;
  enh_period = replicate 8 0;
}

used-IsDecoder : IsDecoder Whole 20 used
used-IsDecoder = record {
  of_mode = is_20;
  synt_mem_size = refl;
  lsfdeqold_size = refl;
  lag = (omega arith, omega arith);
  old_lag = (omega arith, omega arith);
  lost = omega arith;
  prev_lpc_size = refl;
  prev_residual_size = refl;
  seed_bits = omega arith;
  old_syntdenum_size = refl;
  hpomem_size = refl;
  enh_buf_size = refl;
  enh_period_size = refl;
}

abbrev uses : List Use
uses =
    conceal_call (replicate 160 0)
    ∷ decode_call (replicate 160 0) packet
    ∷ decode_call [] (replicate 38 255)
    ∷ reset_call
    ∷ []

use_all-IsDecoder_example :
    Returns
      (IsDecoder Whole 20)
      (init_decode Whole 20 0 (zero_decoder Whole) >>= use_all Whole uses)
use_all-IsDecoder_example =
    use_all-IsDecoder Whole 20 shape20 uses is_20 (tt, (omega arith, (omega arith, (tt, tt))))

decode_packet-Returns_example :
    Returns
      (Answer Whole 20 used (38 == 38) (replicate 160 0))
      (decode_packet Whole (replicate 160 0) packet used)
decode_packet-Returns_example =
    decode_packet-Returns Whole 20 (replicate 160 0) packet used used-IsDecoder (omega arith)

reset_decoder-new_decoder_example :
    (reset_decoder Whole used ≡ some (inr (initial_decoder Whole shape20 0)))
    × (reset_decoder Whole used ≡ new_decoder Whole 20 false)
reset_decoder-new_decoder_example =
    reset_decoder-new_decoder Whole 20 used used-IsDecoder (omega arith)

do_the_plc-Returns_example :
    Returns
      (IsConcealed Whole 20)
      (do_the_plc Whole (replicate 240 0) 1 (replicate 240 0) (replicate 11 0) 0 20 used)
do_the_plc-Returns_example =
    do_the_plc-Returns Whole 20 (replicate 240 0) 1 (replicate 240 0) (replicate 11 0) 0 20 used
      used-IsDecoder (omega arith, omega arith) refl refl (omega arith)

get_cb_vec-Returns_example :
    Returns (Sized 40) (get_cb_vec Whole (replicate 40 0) (replicate 147 3000000) 0 255 147 40)
get_cb_vec-Returns_example =
    get_cb_vec-Returns Whole (replicate 40 0) (replicate 147 3000000) 0 255 147 40 refl
      (omega arith)
      (record {
        size_ge = omega arith;
        size_le = omega arith;
        mem_ge = omega arith;
        mem_le = omega arith;
        index_le = omega arith;
      })

flush_subnormal_history_lem_example :
    All (IsFlushed Whole) (flush_subnormal_history Whole (5 ∷ 0 ∷ 8388608 ∷ []))
    × (All (IsFlushed Whole) (5 ∷ 0 ∷ 8388608 ∷ [])
        → flush_subnormal_history Whole (5 ∷ 0 ∷ 8388608 ∷ []) ≡ 5 ∷ 0 ∷ 8388608 ∷ [])
flush_subnormal_history_lem_example = flush_subnormal_history_lem Whole (5 ∷ 0 ∷ 8388608 ∷ []) refl

check_lsf-IsClamped_example :
    Returns
      (λ s.
        (length s.0 ≡ 1 * 3)
        × ((m k : ℕ)
            → m < 1
            → k + 1 < 3
            → Returns (IsClamped Whole Whole-IsOrdered refl) (load s.0 (m * 3 + k))))
      (check_lsf Whole (4000000 ∷ 1000000 ∷ 1000001 ∷ []) 3 1)
check_lsf-IsClamped_example =
    check_lsf-IsClamped Whole Whole-IsOrdered refl (4000000 ∷ 1000000 ∷ 1000001 ∷ []) 3 1 refl

levdurb-Returns_example :
    Returns
      (λ s. (length s.0 ≡ 2 + 1) × (length s.1 ≡ 2))
      (levdurb Whole (replicate 3 0) (replicate 2 0) (4000000 ∷ 2000000 ∷ 1000000 ∷ []) 2)
levdurb-Returns_example =
    levdurb-Returns Whole (replicate 3 0) (replicate 2 0) (4000000 ∷ 2000000 ∷ 1000000 ∷ []) 2 refl
      refl (omega arith) (omega arith)

do_the_plc-arrived_example :
    Returns
      (λ c.
        (take 160 c.residual ≡ take 160 (replicate 240 2000000))
        × (take 160 c.decoder.prev_residual ≡ take 160 (replicate 240 2000000))
        × (slice (replicate 66 1000000) 33 11 ≡ some c.lpc)
        × (c.decoder.prev_lpc ≡ c.lpc)
        × (c.decoder.cons_pli_count ≡ 0)
        × (c.decoder.prev_pli ≡ 0))
      (do_the_plc Whole
        (replicate 240 0)
        0
        (replicate 240 2000000)
        (replicate 66 1000000)
        33
        20
        used)
do_the_plc-arrived_example =
    do_the_plc-arrived Whole 20 (replicate 240 0) (replicate 240 2000000) (replicate 66 1000000) 33
      20 used used-IsDecoder refl refl (omega arith)
