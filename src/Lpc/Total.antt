-- ===== src/Lpc/Total.antt =====
-- The filters of a received frame: src/lpcdecode.go ends with no panic.
use i_lbc_go.Prelude.{
  true, false, ltb→lt, some, ℕ, suc, ◌+◌, ◌*◌, ◌≤◌, ◌<◌, ◌≡◌, refl, ◌∙◌, arith, Bool, List, length,
  map, replicate, ltb, ◌==◌, if◌then◌else◌, drop,
}
use native.Mathlib.Nat.{mul-le-mul_right}
use i_lbc_go.Arrays.{
  load, Returns, returned, Returns-bind, Returns-weaken, Returns-if, Sized, load-Returns,
  store-Returns, slice-Returns, blit-Returns, for, for-Returns,
}
use i_lbc_go.Floats.{Decimal, Floats, nought}
use i_lbc_go.Vectors.Total.{interpolate-Returns, bwexpand-Returns}
use i_lbc_go.State.{DecoderState}
use i_lbc_go.State.Decoder.{IsDecoder, IsDecoder-lsf, frame_shape-HasSize}
use i_lbc_go.Lsf.Total.{lsf2a-Returns}
use i_lbc_go.Lpc.Table.{lsf_cb_tbl}
use i_lbc_go.Lpc.{
  dim_lsf_cb_tbl, size_lsf_cb_tbl, lsf_weight_tbl_30ms, lsf_weight_tbl_20ms,
  interpolate_decoder_lsf, dequantize_part, dequantize_lsf, subframe_filter, filters_30, filters_20,
  decoder_interpolate_lsf,
}

-- The three indices of an analysis.
pub record HasLsf (index : List ℕ) : Type 0 where
  pub lsf_0 : Returns (λ k. k < 64) (load index 0)
  pub lsf_1 : Returns (λ k. k < 128) (load index 1)
  pub lsf_2 : Returns (λ k. k < 128) (load index 2)

module _ (F : Floats) where
  -- One part of the frequencies.
  dequantize_part-Returns :
      (index : List ℕ) (base i n dim size : ℕ) (s : List F.Float × ℕ × ℕ)
      → load dim_lsf_cb_tbl i ≡ some dim
      → load size_lsf_cb_tbl i ≡ some size
      → Returns (λ k. k < size) (load index i)
      → length s.0 ≡ n
      → base + s.1 + dim ≤ n
      → s.2 + size * dim ≤ 1088
      → Returns
          (λ t. (length t.0 ≡ n) × (t.1 ≡ s.1 + dim) × (t.2 ≡ s.2 + size * dim))
          (dequantize_part F index base i s)
  unfolding dequantize_part
  dequantize_part-Returns index base i n dim size (lsfdeq, pos, cb_pos) d z r e a b =
      rw (d, z)
        (Returns-bind r λ k h.
          Returns-bind
            (for-Returns (Sized n) dim 0 _ lsfdeq e λ j xs _ c t.
              Returns-bind
                (load-Returns (map F.constant lsf_cb_tbl) (cb_pos + k * dim + j)
                  (omega (arith, b, c, mul-le-mul_right {m = suc k} {n = size} dim h)))
                λ v _.
                  Returns-weaken (store-Returns xs (base + pos + j) _ (omega arith)) λ ys u. u ∙ t)
            λ xs t. returned (t, refl, refl))

  -- The ten frequencies of an analysis.
  dequantize_analysis :
      (index : List ℕ) (base n : ℕ) (lsfdeq : List F.Float)
      → HasLsf index
      → length lsfdeq ≡ n
      → base + 10 ≤ n
      → Returns (λ t. length t.0 ≡ n) (for 3 0 (dequantize_part F index base) (lsfdeq, 0, 0))
  unfolding for load
  dequantize_analysis index base n lsfdeq w e h =
      Returns-bind
        (dequantize_part-Returns index base 0 n 3 64 (lsfdeq, 0, 0) refl refl w.lsf_0 e
          (omega arith) (omega arith))
        λ s (t, u, v).
          Returns-bind
            (dequantize_part-Returns index base 1 n 3 128 s refl refl w.lsf_1 t (omega arith)
              (omega arith))
            λ s (t, x, y).
              Returns-bind
                (dequantize_part-Returns index base 2 n 4 128 s refl refl w.lsf_2 t (omega arith)
                  (omega arith))
                λ s (t, _, _). returned t

  pub dequantize_lsf-Returns :
      (lsfdeq : List F.Float) (index : List ℕ) (lpc_analyses : ℕ)
      → HasLsf index
      → (1 < lpc_analyses → HasLsf (drop 3 index))
      → length lsfdeq ≡ 20
      → Returns (Sized 20) (dequantize_lsf F lsfdeq index lpc_analyses)
  unfolding dequantize_lsf
  dequantize_lsf-Returns lsfdeq index lpc_analyses w k e =
      Returns-bind (dequantize_analysis index 0 20 lsfdeq w e (omega arith)) λ (xs, _, _) t.
        Returns-bind
          (Returns-if {P = λ (t : List F.Float × ℕ × ℕ). length t.0 ≡ 20} (ltb 1 lpc_analyses)
            (λ b. dequantize_analysis (drop 3 index) 10 20 xs (k (ltb→lt _ _ b)) t (omega arith))
            (λ _. returned t))
          λ (ys, _, _) t. returned t

  interpolate_decoder_lsf-Returns :
      (a lsf1 lsf2 : List F.Float) (o2 : ℕ) (coef : F.Float)
      → length a ≡ 11
      → 10 ≤ length lsf1
      → o2 + 10 ≤ length lsf2
      → Returns (Sized 11) (interpolate_decoder_lsf F a lsf1 lsf2 o2 coef 10)
  unfolding interpolate_decoder_lsf
  interpolate_decoder_lsf-Returns a lsf1 lsf2 o2 coef e h l =
      Returns-bind
        (interpolate-Returns F (replicate 10 (nought F)) lsf1 lsf2 o2 coef 10 10 refl (omega arith)
          h l)
        λ xs t. lsf2a-Returns F a xs e t

  -- `syntdenum` and `weightdenum`.
  abbrev Both : List F.Float × List F.Float → Type 0
  Both s = (length s.0 ≡ 66) × (length s.1 ≡ 66)

  subframe_filter-Returns :
      (lsf1 lsf2 : List F.Float) (o2 : ℕ) (weights : List Decimal) (i : ℕ)
      (s : List F.Float × List F.Float)
      → 10 ≤ length lsf1
      → o2 + 10 ≤ length lsf2
      → i < length (map F.constant weights)
      → i < 6
      → Both s
      → Returns Both (subframe_filter F lsf1 lsf2 o2 weights 10 i s)
  unfolding subframe_filter
  subframe_filter-Returns lsf1 lsf2 o2 weights i (synt, weight) h l b c (s, t) =
      Returns-bind (load-Returns (map F.constant weights) i b) λ w _.
        Returns-bind
          (interpolate_decoder_lsf-Returns (replicate 11 (nought F)) lsf1 lsf2 o2 w refl h l)
          λ lp e. Returns-bind (slice-Returns lp 0 11 (omega arith)) λ k u.
            Returns-bind (blit-Returns synt (i * 11) k (omega arith)) λ xs v.
              Returns-bind
                (bwexpand-Returns F weight (i * 11) lp _ 11 66 t (omega arith) (omega arith)
                  (omega arith))
                λ ys w. returned (v ∙ s, w)

  -- With frequencies for as many analyses as the mode has, `decoderInterpolateLSF` ends with no panic, with
  -- filters for six subframes and a decoder that is well formed.
  pub decoder_interpolate_lsf-Returns :
      (mode : ℕ) (synt weight lsfdeq : List F.Float) (d : DecoderState F)
      → IsDecoder F mode d
      → length synt ≡ 66
      → length weight ≡ 66
      → length lsfdeq ≡ 20
      → Returns
          (λ t. (length t.0 ≡ 66) × (length t.1 ≡ 66) × IsDecoder F mode t.2)
          (decoder_interpolate_lsf F synt weight lsfdeq 10 d)
  unfolding decoder_interpolate_lsf filters_30 filters_20
  decoder_interpolate_lsf-Returns mode synt weight lsfdeq d w s t e =
      let z = frame_shape-HasSize mode d.shape w.of_mode in
      Returns-bind
        (Returns-if {P = Both} (d.shape.mode == 30)
          (λ _.
            Returns-bind
              (subframe_filter-Returns d.lsfdeqold lsfdeq 0 lsf_weight_tbl_30ms 0 (synt, weight)
                (omega (arith, w.lsfdeqold_size)) (omega arith) (omega arith) (omega arith) (s, t))
              λ r v. for-Returns Both 5 1 _ r v λ i r _ b v.
                subframe_filter-Returns lsfdeq lsfdeq 10 lsf_weight_tbl_30ms i r (omega arith)
                  (omega arith) (omega arith) (omega arith) v)
          (λ n.
            for-Returns Both d.shape.subframes 0 _ (synt, weight) (s, t)
              λ i r _ b v.
                subframe_filter-Returns d.lsfdeqold lsfdeq 0 lsf_weight_tbl_20ms i r
                  (omega (arith, w.lsfdeqold_size)) (omega arith) (omega (arith, b, z.others n))
                  (omega (arith, b, z.others n)) v))
        λ (xs, ys) (u, v).
          Returns-bind
            (slice-Returns lsfdeq (if d.shape.mode == 30 then 10 else 0) 10
              (start_le (d.shape.mode == 30)))
            λ l x.
              Returns-bind (blit-Returns d.lsfdeqold 0 l (omega (arith, w.lsfdeqold_size)))
                λ old y. returned (u, v, IsDecoder-lsf old w (y ∙ w.lsfdeqold_size))
    where
      start_le : (b : Bool) → (if b then 10 else 0) + 10 ≤ length lsfdeq
      start_le true = omega arith
      start_le false = omega arith
