-- ===== src/Plc/History.antt =====
-- What the concealment (src/docplc.go) hands on, and what it keeps for the next frame.
use i_lbc_go.Prelude.{
  ℕ, ◌+◌, ◌≤◌, ◌≡◌, refl, ◌∙◌, ap, subst, arith, List, ◌++◌, length, take, drop, take-append,
  length-append, length-take, length-drop, le→ltb, some, if◌then◌else◌, ltb,
}
use i_lbc_go.Arrays.{
  slice, blit, Returns, returned, Returns-bind, Returns-itself, Returns-and, slice-Returns,
  blit-Returns,
}
use i_lbc_go.Floats.{Floats}
use i_lbc_go.State.{DecoderState}
use i_lbc_go.State.Decoder.{IsDecoder, IsLag, frame_shape-HasSize}
use i_lbc_go.Plc.{Concealed, keep_frame, do_the_plc}
use i_lbc_go.Plc.Total.{IsConcealed, conceal-Returns, do_the_plc-Returns}

module _ {ℓ} {A : Type ℓ} where
  slice-take :
      (xs : List A) (n : ℕ)
      → n ≤ length xs
      → Returns (λ ys. (length ys ≡ n) × (ys ≡ take n xs)) (slice xs 0 n)
  unfolding slice
  slice-take xs n h =
      rw (le→ltb (length xs) (0 + n) (omega arith))
        (returned (omega (arith, length-take n xs), refl))

  blit-take :
      (xs ys : List A) (n : ℕ)
      → length ys ≡ n
      → n ≤ length xs
      → Returns (λ out. (length out ≡ length xs) × (take n out ≡ ys)) (blit xs 0 ys)
  unfolding blit
  blit-take xs ys n e h = rw (le→ltb (length xs) (0 + length ys) (omega arith)) (
      returned (
        omega (arith, length-append ys (drop (0 + length ys) xs), length-drop (0 + length ys) xs),
        subst (λ (k : ℕ). take k (ys ++ drop (0 + length ys) xs) ≡ ys) e (take-append ys _),
      ))

module _ (F : Floats) where
  -- A frame that arrives is handed on as it is: its residual and filter are the result and the history, and
  -- the count of lost frames starts again.
  pub do_the_plc-arrived :
      (mode : ℕ) (plc_residual decresidual lpc : List F.Float) (lo inlag : ℕ) (d : DecoderState F)
      → IsDecoder F mode d
      → length plc_residual ≡ 240
      → length decresidual ≡ 240
      → lo + 11 ≤ length lpc
      → Returns
          (λ c.
            (take d.shape.frame_samples c.residual ≡ take d.shape.frame_samples decresidual)
            × (take d.shape.frame_samples c.decoder.prev_residual
                ≡ take d.shape.frame_samples decresidual)
            × (slice lpc lo 11 ≡ some c.lpc)
            × (c.decoder.prev_lpc ≡ c.lpc)
            × (c.decoder.cons_pli_count ≡ 0)
            × (c.decoder.prev_pli ≡ 0))
          (do_the_plc F plc_residual 0 decresidual lpc lo inlag d)
  unfolding do_the_plc keep_frame
  do_the_plc-arrived mode plc_residual decresidual lpc lo inlag d w s t h =
      let z = frame_shape-HasSize mode d.shape w.of_mode in
      let n = d.shape.frame_samples in
      Returns-bind
        {P = λ (c : Concealed F).
          (length c.residual ≡ 240)
          × (take n c.residual ≡ take n decresidual)
          × (slice lpc lo 11 ≡ some c.lpc)
          × (c.decoder ≡ record d { cons_pli_count = 0 })}
        (Returns-bind (slice-take decresidual n (omega (arith, z.samples_le))) λ r (k, same).
          Returns-bind (blit-take plc_residual r n k (omega (arith, z.samples_le))) λ xs (m, front).
            Returns-bind (Returns-itself (slice-Returns lpc lo 11 h))
              λ l e. returned (m ∙ s, front ∙ same, e, refl))
        λ c (a, b, f, g).
          Returns-bind (slice-take c.residual n (omega (arith, a, z.samples_le))) λ r (k, same).
            let size : length c.decoder.prev_residual ≡ 240 =
              ap (λ (x : DecoderState F). length x.prev_residual) g ∙ w.prev_residual_size in
            Returns-bind
              (blit-take c.decoder.prev_residual r n k (omega (arith, size, z.samples_le)))
              λ xs (m, front). returned (
                b,
                front ∙ same ∙ b,
                f,
                refl,
                ap (λ (x : DecoderState F). x.cons_pli_count) g,
                refl,
              )

  -- What a decoder `e` has of the decoder `d` before a lost frame: the shape and the filter, one more lost
  -- frame counted, up to nine, and the lag if the frame before was lost, too.
  pub record Follows (d e : DecoderState F) : Type 0 where
    pub shape : e.shape ≡ d.shape
    pub filter : e.prev_lpc ≡ d.prev_lpc
    pub count :
        e.cons_pli_count
        ≡ (if ltb d.cons_pli_count 9 then d.cons_pli_count + 1 else d.cons_pli_count)
    pub lost : e.prev_pli ≡ 1
    pub lag : d.prev_pli ≡ 1 → (e.prev_lag ≡ d.prev_lag) × (e.per ≡ d.per)

  pub do_the_plc-Follows :
      (mode : ℕ) (plc_residual decresidual lpc : List F.Float) (lo inlag : ℕ) (d : DecoderState F)
      → IsDecoder F mode d
      → IsLag inlag
      → length plc_residual ≡ 240
      → length decresidual ≡ 240
      → lo + 11 ≤ length lpc
      → Returns
          (λ c. IsConcealed F mode c × Follows d c.decoder)
          (do_the_plc F plc_residual 1 decresidual lpc lo inlag d)
  unfolding do_the_plc
  do_the_plc-Follows mode plc_residual decresidual lpc lo inlag d w l s t h =
      let z = frame_shape-HasSize mode d.shape w.of_mode in
      Returns-and (do_the_plc-Returns F mode plc_residual 1 decresidual lpc lo inlag d w l s t h) (
        Returns-bind (conceal-Returns F mode plc_residual inlag d w l s) λ c (v, (a, b, f, g)).
          Returns-bind
            (slice-Returns c.residual 0 d.shape.frame_samples
              (omega (arith, v.residual_size, z.samples_le)))
            λ r k.
              Returns-bind
                (blit-Returns c.decoder.prev_residual 0 r
                  (omega (arith, k, v.decoder_ok.prev_residual_size, z.samples_le)))
                λ xs _.
                  returned (record { shape = b; filter = a; count = g; lost = refl; lag = f }))
