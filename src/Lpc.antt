-- ===== src/Lpc.antt =====
-- Prediction filters from the indices of a packet: src/lpcdecode.go, with its tables of src/constants.go.
pub mod Table
pub mod Total
use i_lbc_go.Prelude.{
  ℕ, ◌+◌, ◌-◌, ◌*◌, Bool, List, [], ◌∷◌, replicate, map, drop, Option, some, if◌then◌else◌, ltb,
  ◌==◌,
}
use i_lbc_go.Bitstream.{◌>>=◌}
use i_lbc_go.Arrays.{load, store, slice, blit, for}
use i_lbc_go.Floats.{Decimal, plus, Floats, nought}
use i_lbc_go.Vectors.{interpolate, bwexpand}
use i_lbc_go.Lsf.{lsf2a}
use i_lbc_go.State.{DecoderState}
use i_lbc_go.Lpc.Table.{lsf_cb_tbl}

abbrev pub dim_lsf_cb_tbl : List ℕ
dim_lsf_cb_tbl = 3 ∷ 3 ∷ 4 ∷ []

abbrev pub size_lsf_cb_tbl : List ℕ
size_lsf_cb_tbl = 64 ∷ 128 ∷ 128 ∷ []

abbrev pub lsf_weight_tbl_30ms : List Decimal
lsf_weight_tbl_30ms =
    plus 5 1 ∷ plus 1 0 ∷ plus 6666667 7 ∷ plus 33333334 8 ∷ plus 0 0 ∷ plus 0 0 ∷ []

abbrev pub lsf_weight_tbl_20ms : List Decimal
lsf_weight_tbl_20ms = plus 75 2 ∷ plus 5 1 ∷ plus 25 2 ∷ plus 0 0 ∷ []

module _ (F : Floats) where
  unfoldable pub interpolate_decoder_lsf :
      List F.Float → List F.Float → List F.Float → ℕ → F.Float → ℕ → Option (List F.Float)
  unfolding interpolate lsf2a
  interpolate_decoder_lsf a lsf1 lsf2 o2 coef length = do
    lsftmp ← interpolate F (replicate 10 (nought F)) lsf1 lsf2 o2 coef length
    lsf2a F a lsftmp

  -- A part of the frequencies, on `lsfdeq`, `pos` and `cbPos`: from the index at `k`, to `base+pos` on.
  unfoldable pub dequantize_part :
      List ℕ → ℕ → ℕ → List F.Float × ℕ × ℕ → Option (List F.Float × ℕ × ℕ)
  dequantize_part index base i (lsfdeq, pos, cb_pos) = do
    dim ← load dim_lsf_cb_tbl i
    size ← load size_lsf_cb_tbl i
    k ← load index i
    lsfdeq ←
        for dim 0
          (λ j lsfdeq. do
            v ← load (map F.constant lsf_cb_tbl) (cb_pos + k * dim + j)
            store lsfdeq (base + pos + j) v)
          lsfdeq
    some (lsfdeq, pos + dim, cb_pos + size * dim)

  -- `dequantizeLSF`.
  unfoldable pub dequantize_lsf : List F.Float → List ℕ → ℕ → Option (List F.Float)
  unfolding dequantize_part
  dequantize_lsf lsfdeq index lpc_analyses = do
    (lsfdeq, pos, cb_pos) ← for 3 0 (dequantize_part index 0) (lsfdeq, 0, 0)
    (lsfdeq, pos, cb_pos) ←
        (if ltb 1 lpc_analyses
          then for 3 0 (dequantize_part (drop 3 index) 10) (lsfdeq, 0, 0)
          else some (lsfdeq, 0, 0))
    some lsfdeq

  -- A round of the loops of `decoderInterpolateLSF`, on `syntdenum` and `weightdenum`: `lp` is a local array
  -- that every call sets, the filter of the subframe `i` is put at `i*lpLength`.
  unfoldable pub subframe_filter :
      List F.Float
      → List F.Float
      → ℕ
      → List Decimal
      → ℕ
      → ℕ
      → List F.Float × List F.Float
      → Option (List F.Float × List F.Float)
  unfolding interpolate_decoder_lsf bwexpand
  subframe_filter lsf1 lsf2 o2 weights length i (syntdenum, weightdenum) = do
    w ← load (map F.constant weights) i
    lp ← interpolate_decoder_lsf (replicate 11 (nought F)) lsf1 lsf2 o2 w length
    l ← slice lp 0 (length + 1)
    syntdenum ← blit syntdenum (i * (length + 1)) l
    weightdenum ←
        bwexpand F weightdenum (i * (length + 1)) lp (F.constant (plus 4222 4)) (length + 1)
    some (syntdenum, weightdenum)

  -- The branch for 30 ms, and the other one.
  unfoldable pub filters_30 :
      List F.Float
      → ℕ
      → List F.Float
      → List F.Float × List F.Float
      → Option (List F.Float × List F.Float)
  unfolding subframe_filter
  filters_30 lsfdeq length old s = do
    s ← subframe_filter old lsfdeq 0 lsf_weight_tbl_30ms length 0 s
    for 5 1 (subframe_filter lsfdeq lsfdeq length lsf_weight_tbl_30ms length) s

  unfoldable pub filters_20 :
      List F.Float
      → ℕ
      → List F.Float
      → ℕ
      → List F.Float × List F.Float
      → Option (List F.Float × List F.Float)
  unfolding subframe_filter
  filters_20 lsfdeq length old subframes s =
      for subframes 0 (subframe_filter old lsfdeq 0 lsf_weight_tbl_20ms length) s

  -- `decoderInterpolateLSF`: both arrays and the decoder.
  unfoldable pub decoder_interpolate_lsf :
      List F.Float
      → List F.Float
      → List F.Float
      → ℕ
      → DecoderState F
      → Option (List F.Float × List F.Float × DecoderState F)
  unfolding filters_30 filters_20
  decoder_interpolate_lsf syntdenum weightdenum lsfdeq length d = do
    (syntdenum, weightdenum) ←
        (if d.shape.mode == 30
          then filters_30 lsfdeq length d.lsfdeqold (syntdenum, weightdenum)
          else filters_20 lsfdeq length d.lsfdeqold d.shape.subframes (syntdenum, weightdenum))
    l ← slice lsfdeq (if d.shape.mode == 30 then length else 0) length
    old ← blit d.lsfdeqold 0 l
    some (syntdenum, weightdenum, record d { lsfdeqold = old })
