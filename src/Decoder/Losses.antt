-- ===== src/Decoder/Losses.antt =====
-- A run of lost frames at the decoder (src/ilbc_decode.go and src/docplc.go).
use i_lbc_go.Prelude.{ℕ, ◌+◌, ◌*◌, ◌≤◌, ◌≡◌, [], replicate, Option, some, if◌then◌else◌, ltb}
use i_lbc_go.Bitstream.{◌>>=◌}
use i_lbc_go.Arrays.{for}
use i_lbc_go.Floats.{Floats, nought}
use i_lbc_go.State.{DecoderState}
use i_lbc_go.State.Decoder.{IsDecoder}
use i_lbc_go.Plc.{use_gain}
use i_lbc_go.Decoder.{decode_frame}

module _ (F : Floats) where
  -- The decoder after one lost frame, which has no packet.
  abbrev pub lose : DecoderState F → Option (DecoderState F)
  lose d = decode_frame F (replicate 240 (nought F)) [] d 0 >>= λ r. some r.1

  -- After a run of them.
  abbrev pub lose_all : ℕ → DecoderState F → Option (DecoderState F)
  lose_all n d = for n 0 (λ i e. lose e) d

  -- What a run of `n` lost frames leaves of the decoder `d` before it.
  pub record IsRun (mode n : ℕ) (d e : DecoderState F) : Type 0 where
    pub decoder_ok : IsDecoder F mode e
    pub shape : e.shape ≡ d.shape
    pub filter : e.prev_lpc ≡ d.prev_lpc
    pub count :
        e.cons_pli_count ≡ (if ltb (d.cons_pli_count + n) 9 then d.cons_pli_count + n else 9)
    pub lost : e.prev_pli ≡ 1
    pub lag : (e.prev_lag ≡ d.prev_lag) × (e.per ≡ d.per)

  -- What a run of lost frames leaves, by the decoder before it and the one after its first frame.
  pub record IsConcealing (mode n : ℕ) (d first e : DecoderState F) : Type 0 where
    pub decoder_ok : IsDecoder F mode e
    pub filter : e.prev_lpc ≡ d.prev_lpc
    pub count :
        e.cons_pli_count ≡ (if ltb (d.cons_pli_count + n) 9 then d.cons_pli_count + n else 9)
    pub lag : (e.prev_lag ≡ first.prev_lag) × (e.per ≡ first.per)
    pub muted :
        9 ≤ d.cons_pli_count + n → use_gain F (e.cons_pli_count * e.shape.frame_samples) ≡ nought F
