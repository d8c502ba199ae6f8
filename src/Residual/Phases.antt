-- ===== src/Residual/Phases.antt =====
-- The phases of `decode` (src/ilbc_decode.go) stay within their arrays.
use i_lbc_go.Prelude.{
  ℕ, ◌+◌, ◌*◌, ◌≤◌, ◌<◌, ◌≡◌, refl, sym, ◌∙◌, subst, arith, List, length, length-replicate,
  replicate, All, if◌then◌else◌, ltb,
}
use i_lbc_go.Arrays.{
  load, Returns, returned, Returns-bind, Returns-weaken, Sized, load-Returns, load-All,
  load_back-Returns, store-Returns, store_back-Returns, slice-Returns, blit-Returns,
  minus_length-Returns, for-Returns, for-Returns_at,
}
use i_lbc_go.Floats.{Floats, nought}
use i_lbc_go.Frame.{Indices}
use i_lbc_go.StartState.Construct.{IsLevel}
use i_lbc_go.Codebook.Construct.{HasCodes, HasGains, construct_codebook-Returns}
use i_lbc_go.Residual.{
  mem_lf_tbl, Decoding, reversed_memory, shifted_memory, extra_after, extra_before, forward_step,
  forward, backward_step, backward,
}

-- Indices with which a frame with so many subframes beside its start state and a state of `len` samples can
-- be decoded.
pub record IsDecodable (adaptive len : ℕ) (f : Indices) : Type 0 where
  pub scale : f.idx_for_max < 64
  pub levels : All IsLevel f.idx_vec
  pub levels_size : len ≤ length f.idx_vec
  pub first : f.state_first < 2
  pub extra_codes : (diff : ℕ) → diff + len ≡ 80 → HasCodes 85 diff f.extra_cb_index 0
  pub extra_gains : HasGains f.extra_gain_index 0
  pub codes : (k : ℕ) → k < adaptive → HasCodes 147 40 f.cb_index (k * 3)
  pub gains : (k : ℕ) → k < adaptive → HasGains f.gain_index (k * 3)

-- The sizes of the arrays, and the number of subframes that are done.
pub record IsDecoding (F : Floats) (done : ℕ) (d : Decoding F) : Type 0 where
  pub mem_size : length d.mem ≡ 147
  pub residual_size : length d.residual ≡ 240
  pub reversed_size : length d.reversed ≡ 240
  pub counted : d.subcount ≡ done

module _ (F : Floats) where
  reversed_memory-Returns :
      (residual : List F.Float) (o count : ℕ) (mem : List F.Float)
      → length mem ≡ 147
      → count ≤ 147
      → o + count ≤ length residual
      → Returns (Sized 147) (reversed_memory F residual o count mem)
  unfolding reversed_memory
  reversed_memory-Returns residual o count mem s h i =
      Returns-bind
        (for-Returns (Sized 147) count 0 _ mem s λ k xs _ b t.
          Returns-bind (load-Returns residual (o + k) (omega arith)) λ v _.
            Returns-weaken (store_back-Returns xs 146 k v (omega arith) (omega arith))
              λ ys u. u ∙ t)
        λ xs t. Returns-bind (minus_length-Returns 147 count h) λ rest e.
          Returns-weaken
            (blit-Returns xs 0 (replicate rest (nought F))
              (omega (arith, length-replicate rest (nought F))))
            λ ys u. u ∙ t

  shifted_memory-Returns :
      (mem from : List F.Float) (o : ℕ)
      → length mem ≡ 147
      → o + 40 ≤ length from
      → Returns (Sized 147) (shifted_memory F mem from o)
  unfolding shifted_memory
  shifted_memory-Returns mem from o s h =
      Returns-bind (slice-Returns mem 40 107 (omega arith)) λ m t.
        Returns-bind (blit-Returns mem 0 m (omega arith)) λ xs u.
          Returns-bind (slice-Returns from o 40 h)
            λ v w. Returns-weaken (blit-Returns xs 107 v (omega arith)) λ ys e. e ∙ u ∙ s

  module _ (adaptive len : ℕ) (f : Indices) (g : IsDecodable adaptive len f) (len_ge : 57 ≤ len)
      (len_le : len ≤ 58) where
    pub extra_after-Returns :
        (start_pos diff done : ℕ) (d : Decoding F)
        → diff + len ≡ 80
        → start_pos + 80 ≤ 240
        → IsDecoding F done d
        → Returns (IsDecoding F done) (extra_after F f start_pos len diff d)
    unfolding extra_after
    extra_after-Returns start_pos diff done d z h s =
        Returns-bind (minus_length-Returns 147 len (omega arith)) λ rest e.
          Returns-bind
            (blit-Returns d.mem 0 (replicate rest (nought F))
              (omega (arith, length-replicate rest (nought F), s.mem_size)))
            λ xs t.
              Returns-bind (slice-Returns d.residual start_pos len (omega (arith, s.residual_size)))
                λ state u.
                  Returns-bind (blit-Returns xs rest state (omega (arith, s.mem_size))) λ ys w.
                    Returns-bind
                      (construct_codebook-Returns F d.residual (start_pos + len) f.extra_cb_index 0
                        f.extra_gain_index 0 ys 62 85 diff 3 240 (g.extra_codes diff z)
                        g.extra_gains (omega (arith, s.mem_size)) (omega arith) (omega arith)
                        s.residual_size (omega arith))
                      λ zs v. returned (record {
                        mem_size = w ∙ t ∙ s.mem_size;
                        residual_size = v;
                        reversed_size = s.reversed_size;
                        counted = s.counted;
                      })

    pub extra_before-Returns :
        (end start_pos diff done : ℕ) (d : Decoding F)
        → diff + len ≡ 80
        → start_pos + len ≡ end
        → diff ≤ start_pos
        → end ≤ 240
        → IsDecoding F done d
        → Returns (IsDecoding F done) (extra_before F f end start_pos len diff d)
    unfolding extra_before
    extra_before-Returns end start_pos diff done d z e h i s =
        Returns-bind
          (for-Returns (Sized 240) diff 0 _ d.reversed s.reversed_size λ k xs _ b t.
            Returns-bind
              (load_back-Returns d.residual end (1 + (k + len)) (omega arith)
                (omega (arith, s.residual_size)))
              λ v _. Returns-weaken (store-Returns xs k v (omega arith)) λ ys u. u ∙ t)
          λ rs r.
            Returns-bind
              (reversed_memory-Returns d.residual start_pos len d.mem s.mem_size (omega arith)
                (omega (arith, s.residual_size)))
              λ mem m.
                Returns-bind
                  (construct_codebook-Returns F rs 0 f.extra_cb_index 0 f.extra_gain_index 0 mem 62
                    85 diff 3 240 (g.extra_codes diff z) g.extra_gains (omega arith) (omega arith)
                    (omega arith) r (omega arith))
                  λ qs q.
                    Returns-bind
                      (for-Returns (Sized 240) diff 0 _ d.residual s.residual_size λ k xs _ b t.
                        Returns-bind (load-Returns qs k (omega arith)) λ v _.
                          Returns-weaken
                            (store_back-Returns xs start_pos (1 + k) v (omega arith) (omega arith))
                            λ ys u. u ∙ t)
                      λ xs t. returned (record {
                        mem_size = m;
                        residual_size = t;
                        reversed_size = q;
                        counted = s.counted;
                      })

    all_147 : (k : ℕ) → k < 4 → Returns (λ l. l ≡ 147) (load mem_lf_tbl k)
    all_147 k h = load-All (λ (l : ℕ). l ≡ 147) mem_lf_tbl k (refl, (refl, (refl, (refl, tt)))) h

    forward_step-Returns :
        (start subframe done : ℕ) (d : Decoding F)
        → adaptive ≤ 4
        → done < adaptive
        → (start + 1 + subframe) * 40 + 40 ≤ 240
        → IsDecoding F done d
        → Returns (IsDecoding F (done + 1)) (forward_step F f start subframe d)
    unfolding forward_step
    forward_step-Returns start subframe done d a b h s =
        Returns-bind (all_147 d.subcount (omega (arith, s.counted))) λ l e.
          Returns-bind (minus_length-Returns 147 l (omega arith)) λ back z.
            Returns-bind
              (construct_codebook-Returns F d.residual ((start + 1 + subframe) * 40) f.cb_index
                (d.subcount * 3) f.gain_index (d.subcount * 3) d.mem back l 40 3 240
                (subst (λ (n : ℕ). HasCodes n 40 f.cb_index (d.subcount * 3)) (sym e)
                  (g.codes d.subcount (omega (arith, s.counted))))
                (g.gains d.subcount (omega (arith, s.counted))) (omega (arith, s.mem_size))
                (omega arith) (omega arith) s.residual_size h)
              λ xs t.
                Returns-bind
                  (shifted_memory-Returns d.mem xs ((start + 1 + subframe) * 40) s.mem_size
                    (omega arith))
                  λ mem m. returned (record {
                    mem_size = m;
                    residual_size = t;
                    reversed_size = s.reversed_size;
                    counted = omega (arith, s.counted);
                  })

    backward_step-Returns :
        (subframe done : ℕ) (d : Decoding F)
        → adaptive ≤ 4
        → done < adaptive
        → subframe * 40 + 40 ≤ 240
        → IsDecoding F done d
        → Returns (IsDecoding F (done + 1)) (backward_step F f subframe d)
    unfolding backward_step
    backward_step-Returns subframe done d a b h s =
        Returns-bind (all_147 d.subcount (omega (arith, s.counted))) λ l e.
          Returns-bind (minus_length-Returns 147 l (omega arith)) λ back z.
            Returns-bind
              (construct_codebook-Returns F d.reversed (subframe * 40) f.cb_index (d.subcount * 3)
                f.gain_index (d.subcount * 3) d.mem back l 40 3 240
                (subst (λ (n : ℕ). HasCodes n 40 f.cb_index (d.subcount * 3)) (sym e)
                  (g.codes d.subcount (omega (arith, s.counted))))
                (g.gains d.subcount (omega (arith, s.counted))) (omega (arith, s.mem_size))
                (omega arith) (omega arith) s.reversed_size h)
              λ xs t.
                Returns-bind
                  (shifted_memory-Returns d.mem xs (subframe * 40) s.mem_size (omega arith))
                  λ mem m. returned (record {
                    mem_size = m;
                    residual_size = s.residual_size;
                    reversed_size = t;
                    counted = omega (arith, s.counted);
                  })

    pub forward-Returns :
        (start previous nfor : ℕ) (d : Decoding F)
        → adaptive ≤ 4
        → nfor ≤ adaptive
        → (start + 1 + nfor) * 40 ≤ 240
        → previous * 40 + 80 ≤ 240
        → IsDecoding F 0 d
        → Returns (IsDecoding F nfor) (forward F f start previous nfor d)
    unfolding forward
    forward-Returns start previous nfor d a b h i s =
        Returns-bind (blit-Returns d.mem 0 (replicate 67 (nought F)) (omega (arith, s.mem_size)))
          λ xs t.
            Returns-bind
              (slice-Returns d.residual (previous * 40) 80 (omega (arith, s.residual_size)))
              λ state u. Returns-bind (blit-Returns xs 67 state (omega (arith, s.mem_size))) λ ys w.
                for-Returns_at (IsDecoding F) nfor 0 nfor _ (record d { mem = ys }) (omega arith)
                  (record {
                    mem_size = w ∙ t ∙ s.mem_size;
                    residual_size = s.residual_size;
                    reversed_size = s.reversed_size;
                    counted = s.counted;
                  })
                  λ k e _ c v. forward_step-Returns start k k e a (omega arith) (omega arith) v

    pub backward-Returns :
        (gotten previous nback done : ℕ) (d : Decoding F)
        → adaptive ≤ 4
        → done + nback ≤ adaptive
        → previous * 40 + gotten ≤ 240
        → IsDecoding F done d
        → Returns (IsDecoding F (done + nback)) (backward F f gotten previous nback d)
    unfolding backward
    backward-Returns gotten previous nback done d a b h s =
        let (few, fits) = capped gotten in
        Returns-bind
          (reversed_memory-Returns d.residual (previous * 40)
            (if ltb 147 gotten then 147 else gotten) d.mem s.mem_size few
            (omega (arith, s.residual_size)))
          λ mem m.
            Returns-bind
              (for-Returns_at (λ k e. IsDecoding F (done + k) e) nback 0 nback _
                (record d { mem = mem }) (omega arith)
                (record {
                  mem_size = m;
                  residual_size = s.residual_size;
                  reversed_size = s.reversed_size;
                  counted = omega (arith, s.counted);
                })
                λ k e _ c v.
                  Returns-weaken
                    (backward_step-Returns k (done + k) e a (omega arith) (omega arith) v) (next k))
              λ e v.
                Returns-bind
                  (for-Returns (Sized 240) (40 * nback) 0 _ e.residual v.residual_size λ i xs _ c t.
                    Returns-bind (load-Returns e.reversed i (omega (arith, v.reversed_size))) λ x _.
                      Returns-weaken
                        (store_back-Returns xs (40 * nback) (1 + i) x (omega arith) (omega arith))
                        λ ys u. u ∙ t)
                  λ xs t. returned (record {
                    mem_size = v.mem_size;
                    residual_size = t;
                    reversed_size = v.reversed_size;
                    counted = v.counted;
                  })
      where
        capped :
            (n : ℕ) → ((if ltb 147 n then 147 else n) ≤ 147) × ((if ltb 147 n then 147 else n) ≤ n)
        capped n = (ground arith, ground arith)

        next :
            (k : ℕ) (e : Decoding F)
            → IsDecoding F (done + k + 1) e
            → IsDecoding F (done + (k + 1)) e
        next k e v = record {
          mem_size = v.mem_size;
          residual_size = v.residual_size;
          reversed_size = v.reversed_size;
          counted = omega (arith, v.counted);
        }
