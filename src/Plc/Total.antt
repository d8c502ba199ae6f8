-- ===== src/Plc/Total.antt =====
-- The concealment (src/docplc.go) ends with no panic, and keeps the state well formed.
use i_lbc_go.Prelude.{
  false, ℕ, ◌+◌, ◌*◌, ◌%◌, ◌^◌, ◌≤◌, ◌<◌, ◌≡◌, refl, ◌∙◌, arith, List, length, if◌then◌else◌, ltb,
  ltb→lt, ltb-false→le, ◌==◌,
}
use i_lbc_go.Arrays.{
  Returns, returned, Returns-bind, Returns-weaken, Returns-if, Any, Sized, load-Returns,
  load_back-Returns, store-Returns, slice-Returns, blit-Returns, for-Returns,
}
use i_lbc_go.Floats.{plus, Floats}
use i_lbc_go.State.{DecoderState}
use i_lbc_go.State.Decoder.{IsDecoder, IsDecoder-plc, IsLag, frame_shape-HasSize}
use i_lbc_go.Plc.{
  Mixing, Concealed, next_seed, earlier, mix_sample, noise_sample, lost_lag, conceal, keep_frame,
  do_the_plc,
}
use i_lbc_go.Plc.Search.{best_match-Returns}

-- The generator stays within 31 bits.
next_seed-lt : (seed : ℕ) → next_seed seed < 2 ^ 31
unfolding next_seed
next_seed-lt seed = omega arith

module _ (F : Floats) where
  earlier-Returns :
      (previous written : List F.Float) (n i lag : ℕ)
      → length previous ≡ 240
      → length written ≡ 240
      → n ≤ 240
      → i < n
      → lag ≤ n
      → Returns Any (earlier F previous written n i lag)
  unfolding earlier
  earlier-Returns previous written n i lag p w h j l =
      Returns-if (ltb i lag)
        (λ b. load_back-Returns previous (n + i) lag (omega arith) (omega (arith, ltb→lt i lag b)))
        (λ b. load_back-Returns written i lag (ltb-false→le i lag b) (omega arith))

  record IsMixing (m : Mixing F) : Type 0 where
    seed_bits : m.seed < 2 ^ 31
    randvec_size : length m.randvec ≡ 240
    residual_size : length m.residual ≡ 240

  mix_sample-Returns :
      (previous : List F.Float) (n use_lag : ℕ) (gain pitchfact : F.Float) (i : ℕ) (m : Mixing F)
      → length previous ≡ 240
      → 160 ≤ n
      → n ≤ 240
      → i < n
      → use_lag ≤ n
      → IsMixing m
      → Returns IsMixing (mix_sample F previous n use_lag gain pitchfact i m)
  unfolding mix_sample
  mix_sample-Returns previous n use_lag gain pitchfact i m p g h j l w =
      Returns-bind
        (earlier-Returns previous m.randvec n i (50 + next_seed m.seed % 70) p w.randvec_size h j
          (omega arith))
        λ r _. Returns-bind (store-Returns m.randvec i r (omega (arith, w.randvec_size))) λ rs s.
          Returns-bind (earlier-Returns previous m.residual n i use_lag p w.residual_size h j l)
            λ v _.
              Returns-bind (store-Returns m.residual i _ (omega (arith, w.residual_size))) λ xs t.
                returned (record {
                  seed_bits = next_seed-lt m.seed;
                  randvec_size = s ∙ w.randvec_size;
                  residual_size = t ∙ w.residual_size;
                })

  noise_sample-Returns :
      (gain : F.Float) (randvec : List F.Float) (i : ℕ) (xs : List F.Float)
      → length randvec ≡ 240
      → i < 240
      → length xs ≡ 240
      → Returns (Sized 240) (noise_sample F gain randvec i xs)
  unfolding noise_sample
  noise_sample-Returns gain randvec i xs r h s =
      Returns-bind (load-Returns randvec i (omega arith))
        λ v _. Returns-weaken (store-Returns xs i _ (omega arith)) λ ys t. t ∙ s

  -- What a call leaves: arrays of their sizes and a decoder that is well formed.
  pub record IsConcealed (mode : ℕ) (c : Concealed F) : Type 0 where
    pub residual_size : length c.residual ≡ 240
    pub lpc_size : length c.lpc ≡ 11
    pub decoder_ok : IsDecoder F mode c.decoder

  lost_lag-Returns :
      (mode : ℕ) (d : DecoderState F) (inlag : ℕ)
      → IsDecoder F mode d
      → IsLag inlag
      → Returns
          (λ r. (17 ≤ r.0) × (r.0 ≤ 123) × (d.prev_pli ≡ 1 → (r.0 ≡ d.prev_lag) × (r.1 ≡ d.per)))
          (lost_lag F d inlag)
  unfolding lost_lag
  lost_lag-Returns mode d inlag w l =
      let z = frame_shape-HasSize mode d.shape w.of_mode in
      Returns-if (d.prev_pli == 1) (λ _. returned (w.old_lag.0, w.old_lag.1, λ _. (refl, refl)))
        (λ b.
          Returns-bind
            (best_match-Returns F d.prev_residual d.shape.frame_samples inlag (omega (arith, l.0))
              (omega (arith, l.1, z.samples_ge)) (omega (arith, z.samples_ge))
              (omega (arith, w.prev_residual_size, z.samples_le)))
            λ m n. returned (
              omega (arith, n.0, l.0),
              omega (arith, n.1, l.1),
              λ e. absurd (not_one d.prev_pli b e),
            ))
    where
      not_one : (n : ℕ) → (n == 1) ≡ false → n ≡ 1 → ⊥
      not_one n b e = ground arith

  -- The filter of the last frame, one more lost frame, up to nine, and the lag of a lost frame before it.
  abbrev pub Counted : DecoderState F → Concealed F → Type 0
  Counted d c =
      (c.lpc ≡ d.prev_lpc)
      × (c.decoder.shape ≡ d.shape)
      × (d.prev_pli ≡ 1 → (c.decoder.prev_lag ≡ d.prev_lag) × (c.decoder.per ≡ d.per))
      × (c.decoder.cons_pli_count
          ≡ (if ltb d.cons_pli_count 9 then d.cons_pli_count + 1 else d.cons_pli_count))

  pub conceal-Returns :
      (mode : ℕ) (plc_residual : List F.Float) (inlag : ℕ) (d : DecoderState F)
      → IsDecoder F mode d
      → IsLag inlag
      → length plc_residual ≡ 240
      → Returns (λ c. IsConcealed mode c × Counted d c) (conceal F plc_residual inlag d)
  unfolding conceal
  conceal-Returns mode plc_residual inlag d w l s =
      let z = frame_shape-HasSize mode d.shape w.of_mode in
      Returns-bind (lost_lag-Returns mode d inlag w l) λ (lag, max_per) n.
        Returns-bind
          (for-Returns IsMixing d.shape.frame_samples 0 _ _
            (record { seed_bits = w.seed_bits; randvec_size = refl; residual_size = s })
            λ i m _ b v.
              mix_sample-Returns d.prev_residual d.shape.frame_samples _ _ _ i m
                w.prev_residual_size z.samples_ge z.samples_le (omega arith)
                (lag_le lag _ n.1 z.samples_ge) v)
          λ m v.
            Returns-bind
              (Returns-if
                (F.root_below (F.div m.energy (F.of_int d.shape.frame_samples)) (plus 30 0))
                (λ _.
                  for-Returns (Sized 240) d.shape.frame_samples 0 _ _ v.residual_size λ i xs _ b t.
                    noise_sample-Returns _ m.randvec i xs v.randvec_size
                      (omega (arith, b, z.samples_le)) t)
                (λ _. returned v.residual_size))
              λ xs t. returned (
                record {
                  residual_size = t;
                  lpc_size = w.prev_lpc_size;
                  decoder_ok =
                      IsDecoder-plc _ m.seed lag d.prev_pli max_per d.prev_lpc d.prev_residual w
                        (count_le d.cons_pli_count w.lost) v.seed_bits (n.0, n.1) w.prev_lpc_size
                        w.prev_residual_size;
                },
                (refl, refl, n.2, refl),
              )
    where
      lag_le : (l n : ℕ) → l ≤ 123 → 160 ≤ n → (if ltb l 80 then 2 * l else l) ≤ n
      lag_le l n a b = ground arith

      count_le : (n : ℕ) → n ≤ 9 → (if ltb n 9 then n + 1 else n) ≤ 9
      count_le n a = ground arith

  keep_frame-Returns :
      (mode : ℕ) (plc_residual decresidual lpc : List F.Float) (lo : ℕ) (d : DecoderState F)
      → IsDecoder F mode d
      → length plc_residual ≡ 240
      → length decresidual ≡ 240
      → lo + 11 ≤ length lpc
      → Returns (IsConcealed mode) (keep_frame F plc_residual decresidual lpc lo d)
  unfolding keep_frame
  keep_frame-Returns mode plc_residual decresidual lpc lo d w s t h =
      let z = frame_shape-HasSize mode d.shape w.of_mode in
      Returns-bind (slice-Returns decresidual 0 d.shape.frame_samples (omega (arith, z.samples_le)))
        λ r u. Returns-bind (blit-Returns plc_residual 0 r (omega (arith, z.samples_le, u))) λ xs e.
          Returns-bind (slice-Returns lpc lo 11 h) λ l n. returned (record {
            residual_size = e ∙ s;
            lpc_size = n;
            decoder_ok =
                IsDecoder-plc 0 d.seed d.prev_lag d.prev_pli d.per d.prev_lpc d.prev_residual w
                  (omega arith) w.seed_bits w.old_lag w.prev_lpc_size w.prev_residual_size;
          })

  -- For a decoder that is well formed, a lag in range and arrays of their sizes: `doThePLC` ends with no
  -- panic, for a frame that arrived and for one that is lost, and leaves a residual of 240 samples, a filter
  -- of 11 coefficients and a decoder that is well formed.
  pub do_the_plc-Returns :
      (mode : ℕ) (plc_residual : List F.Float) (pli : ℕ) (decresidual lpc : List F.Float)
      (lo inlag : ℕ) (d : DecoderState F)
      → IsDecoder F mode d
      → IsLag inlag
      → length plc_residual ≡ 240
      → length decresidual ≡ 240
      → lo + 11 ≤ length lpc
      → Returns (IsConcealed mode) (do_the_plc F plc_residual pli decresidual lpc lo inlag d)
  unfolding do_the_plc
  do_the_plc-Returns mode plc_residual pli decresidual lpc lo inlag d w l s t h =
      let z = frame_shape-HasSize mode d.shape w.of_mode in
      Returns-bind
        (Returns-if {P = IsConcealed mode} (pli == 1)
          (λ _. Returns-weaken (conceal-Returns mode plc_residual inlag d w l s) λ c v. v.0)
          (λ _. keep_frame-Returns mode plc_residual decresidual lpc lo d w s t h))
        λ c v.
          Returns-bind
            (slice-Returns c.residual 0 d.shape.frame_samples
              (omega (arith, z.samples_le, v.residual_size)))
            λ r u.
              Returns-bind
                (blit-Returns c.decoder.prev_residual 0 r
                  (omega (arith, z.samples_le, u, v.decoder_ok.prev_residual_size)))
                λ xs e.
                  let k = v.decoder_ok in
                  returned (record {
                    residual_size = v.residual_size;
                    lpc_size = v.lpc_size;
                    decoder_ok =
                        IsDecoder-plc c.decoder.cons_pli_count c.decoder.seed c.decoder.prev_lag pli
                          c.decoder.per c.lpc xs k k.lost k.seed_bits k.old_lag v.lpc_size
                          (e ∙ k.prev_residual_size);
                  })
