-- ===== src/Decoder/Total.antt =====
-- Decoding a frame ends with no panic, whatever the packet, and keeps the state well formed.
use i_lbc_go.Prelude.{
  ℕ, ◌+◌, ◌-◌, ◌*◌, ◌≤◌, ◌≡◌, refl, ◌∙◌, arith, true, List, length, replicate, if◌then◌else◌, ◌==◌,
  ◌⊎◌, Bool-cases, inl, inr,
}
use i_lbc_go.Arrays.{
  Returns, returned, Returns-bind, Returns-weaken, Any, Sized, load-Returns, load_back-Returns,
  slice-Returns, blit-Returns, for-Returns,
}
use i_lbc_go.Floats.{Floats, nought}
use i_lbc_go.State.{DecoderState, one_then_zeros}
use i_lbc_go.State.Decoder.{IsDecoder, IsDecoder-output, IsLag, SameHistory, frame_shape-HasSize}
use i_lbc_go.Plc.{do_the_plc}
use i_lbc_go.Plc.Total.{IsConcealed, do_the_plc-Returns}
use i_lbc_go.Synthesis.Total.{synt_filter-Returns, hp_output-Returns}
use i_lbc_go.Decoder.{Decoded, x_corr_coef, lag_step, best_lag, lost_frame, synthesis}

module _ (F : Floats) where
  x_corr_coef-Returns :
      (xs : List F.Float) (o lag subl : ℕ)
      → lag ≤ o
      → o + subl ≤ length xs
      → Returns Any (x_corr_coef F xs o lag subl)
  unfolding x_corr_coef
  x_corr_coef-Returns xs o lag subl h l =
      Returns-bind
        (for-Returns Any subl 0 _ _ tt λ i s _ b _.
          Returns-bind (load-Returns xs (o + i) (omega arith)) λ x _.
            Returns-bind (load_back-Returns xs (o + i) lag (omega arith) (omega arith))
              λ y _. returned tt)
        λ s _. returned tt

  -- The lag that the search ends with is one of those it tries, 20 to 119.
  best_lag-Returns :
      (residual : List F.Float) (n : ℕ)
      → length residual ≡ 240
      → 160 ≤ n
      → n ≤ 240
      → (n == 160) ≡ true ⊎ 200 ≤ n
      → Returns IsLag (best_lag F residual n)
  unfolding best_lag lag_step
  best_lag-Returns residual n e h l c =
      let len : ℕ = (if n == 160 then 40 else 80) in
      let (a, b) : (len ≤ n) × (len + 120 ≤ n) = len_le n h c in
      Returns-bind
        (x_corr_coef-Returns residual (n - len) 20 len (omega (arith, b)) (omega (arith, a, e, l)))
        λ cc _.
          Returns-bind
            (for-Returns (λ (s : F.Float × ℕ). IsLag s.1) 99 21 _ (cc, 20)
              (omega arith, omega arith)
              λ i (maxcc, lag) p q v.
                Returns-bind
                  (x_corr_coef-Returns residual (n - len) i len (omega (arith, b, q))
                    (omega (arith, a, e, l)))
                  λ cc _. elim (Bool-cases (F.less maxcc cc)) [
                    | inl y ↦ rw y (returned (omega arith, omega arith))
                    | inr y ↦ rw y (returned v)
                  ])
            λ (_, _) v. returned v
    where
      len_le :
          (n : ℕ)
          → 160 ≤ n
          → (n == 160) ≡ true ⊎ 200 ≤ n
          → ((if n == 160 then 40 else 80) ≤ n) × ((if n == 160 then 40 else 80) + 120 ≤ n)
      len_le n h (inl e) = rw e (omega arith, omega arith)
      len_le n h (inr k) = (ground arith, ground arith)

  -- What the branches on `mode` leave.
  pub record IsDecoded (mode : ℕ) (x : Decoded F) : Type 0 where
    pub residual_size : length x.residual ≡ 240
    pub syntdenum_size : length x.syntdenum ≡ 66
    pub decoder_ok : IsDecoder F mode x.decoder

  -- What holds of the decoder after the concealment holds of the one after the branch.
  pub lost_frame-Keeps {κ} :
      (P : DecoderState F → Type κ) (mode : ℕ) (d : DecoderState F)
      → IsDecoder F mode d
      → Returns
          (λ c. IsConcealed F mode c × P c.decoder)
          (do_the_plc F
            (replicate 240 (nought F))
            1
            (replicate 240 (nought F))
            (one_then_zeros F)
            0
            d.last_lag
            d)
      → Returns (λ x. IsDecoded mode x × P x.decoder) (lost_frame F d)
  unfolding lost_frame
  lost_frame-Keeps P mode d w concealed =
      let z = frame_shape-HasSize mode d.shape w.of_mode in
      Returns-bind concealed λ c (v, kept).
        Returns-bind
          (slice-Returns c.residual 0 d.shape.frame_samples
            (omega (arith, v.residual_size, z.samples_le)))
          λ r e.
            Returns-bind
              (blit-Returns (replicate 240 (nought F)) 0 r (omega (arith, e, z.samples_le)))
              λ xs t. Returns-bind (slice-Returns c.lpc 0 11 (omega (arith, v.lpc_size))) λ l u.
                Returns-bind
                  (for-Returns (Sized 66) d.shape.subframes 0 _ _ refl λ i ys _ b s.
                    Returns-weaken
                      (blit-Returns ys (i * 11) l (omega (arith, u, s, b, z.subframes_le)))
                      λ zs t. t ∙ s)
                  λ ys s. returned (
                    record { residual_size = t; syntdenum_size = s; decoder_ok = v.decoder_ok },
                    kept,
                  )

  pub lost_frame-Returns :
      (mode : ℕ) (d : DecoderState F)
      → IsDecoder F mode d
      → Returns (IsDecoded mode) (lost_frame F d)
  lost_frame-Returns mode d w =
      Returns-weaken
        (lost_frame-Keeps Any mode d w (
          Returns-weaken
            (do_the_plc-Returns F mode (replicate 240 (nought F)) 1 (replicate 240 (nought F))
              (one_then_zeros F) 0 d.last_lag d w w.lag refl refl (omega arith))
            λ c v. (v, tt)))
        λ x v. v.0

  pub synthesis-Returns :
      (mode : ℕ) (decblock : List F.Float) (m : ℕ) (x : Decoded F)
      → IsDecoded mode x
      → length decblock ≡ 240
      → Returns
          (λ r. (length r.0 ≡ 240) × IsDecoder F mode r.1 × SameHistory F x.decoder r.1)
          (synthesis F decblock m x)
  unfolding synthesis
  synthesis-Returns mode decblock m x v e =
      let w = v.decoder_ok in
      let s = x.decoder.shape in
      let z = frame_shape-HasSize mode s w.of_mode in
      Returns-bind
        (best_lag-Returns x.residual s.frame_samples v.residual_size z.samples_ge z.samples_le
          z.one_of)
        λ lag a.
          Returns-bind
            (slice-Returns x.residual 0 s.frame_samples
              (omega (arith, v.residual_size, z.samples_le)))
            λ r b.
              Returns-bind
                (blit-Returns (replicate 240 (nought F)) 0 r (omega (arith, b, z.samples_le)))
                λ out c.
                  Returns-bind
                    (for-Returns
                      (λ (t : List F.Float × List F.Float). (length t.0 ≡ 240) × (length t.1 ≡ 10))
                      s.subframes 0 _ _ (c, w.synt_mem_size)
                      λ i (xs, mem) _ k (p, q).
                        synt_filter-Returns F xs (i * 40) x.syntdenum (i * 11) 40 mem 240 p q
                          (omega arith) (omega (arith, k, z.subframes_le))
                          (omega (arith, k, z.subframes_le, v.syntdenum_size)))
                    λ (out, synt_mem) (p, q).
                      Returns-bind
                        (hp_output-Returns F out s.frame_samples decblock x.decoder.hpomem 240 e
                          w.hpomem_size z.samples_le (omega (arith, p, z.samples_le)))
                        λ (block, hpomem) (g, h).
                          Returns-bind
                            (slice-Returns x.syntdenum 0 (s.subframes * 11)
                              (omega (arith, v.syntdenum_size, z.subframes_le)))
                            λ l i.
                              Returns-bind
                                (blit-Returns x.decoder.old_syntdenum 0 l
                                  (omega (arith, i, w.old_syntdenum_size, z.subframes_le)))
                                λ old j. returned (
                                  g,
                                  IsDecoder-output synt_mem hpomem old lag _ w q h
                                      (j ∙ w.old_syntdenum_size) a,
                                  record {
                                    shape = refl;
                                    filter = refl;
                                    count = refl;
                                    lost = refl;
                                    lag = refl;
                                    per = refl;
                                  },
                                )
