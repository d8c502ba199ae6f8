-- ===== src/Codebook/Construct.antt =====
-- `constructCodebook` (src/icbconstruct.go) stays within its arrays.
use i_lbc_go.Prelude.{
  ℕ, ◌+◌, ◌-◌, ◌≤◌, ◌<◌, ◌≡◌, refl, ◌∙◌, subst, arith, List, length, map, replicate, get_elem?,
  get_elem?-lt, ltb,
}
use i_lbc_go.Arrays.{
  load, Returns, returned, Returns-bind, Returns-weaken, Returns-if, Sized, Any, load-Returns,
  load_back-Returns, store-Returns, for-Returns,
}
use i_lbc_go.Floats.{Floats, nought, unity}
use i_lbc_go.Gain.{scaled, gaindequant, gain_sq3_tbl, gain_sq4_tbl, gain_sq5_tbl}
use i_lbc_go.Codebook.{
  first_term, next_term, stage_gain, stage_gains, add_stage, construct_codebook,
}
use i_lbc_go.Codebook.Vector.{IsCode, get_cb_vec-Returns}

-- The three indices of a gain from `gi` on.
pub record HasGains (gain_index : List ℕ) (gi : ℕ) : Type 0 where
  pub gain_0 : Returns (λ g. g < 32) (load gain_index gi)
  pub gain_1 : Returns (λ g. g < 16) (load gain_index (gi + 1))
  pub gain_2 : Returns (λ g. g < 8) (load gain_index (gi + 2))

-- Three indices of the codebook from `ci` on.
abbrev pub HasCodes : ℕ → ℕ → List ℕ → ℕ → Type 0
HasCodes l_mem veclen index ci =
    (k : ℕ) → k < 3 → Returns (IsCode l_mem veclen) (load index (ci + k))

module _ (F : Floats) where
  scaled-Returns :
      (scale : F.Float) (xs : List F.Float) (i : ℕ)
      → i < length xs
      → Returns Any (scaled F scale (get_elem? xs i))
  scaled-Returns scale xs i h = let (x, e) = get_elem?-lt xs i h in rw e (returned tt)

  dequant_32 : (i : ℕ) (m : F.Float) → i < 32 → Returns Any (gaindequant F i m 32)
  unfolding gaindequant
  dequant_32 i m h = scaled-Returns _ (map F.constant gain_sq5_tbl) i h

  dequant_16 : (i : ℕ) (m : F.Float) → i < 16 → Returns Any (gaindequant F i m 16)
  unfolding gaindequant
  dequant_16 i m h = scaled-Returns _ (map F.constant gain_sq4_tbl) i h

  dequant_8 : (i : ℕ) (m : F.Float) → i < 8 → Returns Any (gaindequant F i m 8)
  unfolding gaindequant
  dequant_8 i m h = scaled-Returns _ (map F.constant gain_sq3_tbl) i h

  stage_gain-Returns :
      (gain_index : List ℕ) (gi k cblen : ℕ) (gain : List F.Float)
      → 1 ≤ k
      → k < 3
      → length gain ≡ 3
      → Returns (λ g. g < cblen) (load gain_index (gi + k))
      → ((i : ℕ) (m : F.Float) → i < cblen → Returns Any (gaindequant F i m cblen))
      → Returns (Sized 3) (stage_gain F gain_index gi k cblen gain)
  unfolding stage_gain
  stage_gain-Returns gain_index gi k cblen gain a b s r d = Returns-bind r λ i h.
      Returns-bind (load_back-Returns gain k 1 a (omega arith)) λ scale _.
        Returns-bind (d i (F.abs scale) h)
          λ g _. Returns-weaken (store-Returns gain k g (omega arith)) λ ys t. t ∙ s

  stage_gains-Returns :
      (gain_index : List ℕ) (gi n_stages : ℕ)
      → HasGains gain_index gi
      → Returns (Sized 3) (stage_gains F gain_index gi n_stages)
  unfolding stage_gains
  stage_gains-Returns gain_index gi n_stages r = Returns-bind r.gain_0 λ i h.
      Returns-bind (dequant_32 i (unity F) h) λ g _.
        Returns-bind (store-Returns (replicate 3 (nought F)) 0 g (omega arith)) λ xs s.
          Returns-bind
            (Returns-if (ltb 1 n_stages)
              (λ _.
                stage_gain-Returns gain_index gi 1 16 xs (omega arith) (omega arith) s r.gain_1
                  dequant_16)
              (λ _. returned s))
            λ ys t.
              Returns-if (ltb 2 n_stages)
                (λ _.
                  stage_gain-Returns gain_index gi 2 8 ys (omega arith) (omega arith) t r.gain_2
                    dequant_8)
                (λ _. returned t)

  first_term-Returns :
      (gain : F.Float) (cbvec : List F.Float) (o j n : ℕ) (xs : List F.Float)
      → j < length cbvec
      → o + j < n
      → length xs ≡ n
      → Returns (Sized n) (first_term F gain cbvec o j xs)
  unfolding first_term
  first_term-Returns gain cbvec o j n xs h i s =
      Returns-bind (load-Returns cbvec j h)
        λ c _. Returns-weaken (store-Returns xs (o + j) _ (omega arith)) λ ys t. t ∙ s

  next_term-Returns :
      (gain : F.Float) (cbvec : List F.Float) (o j n : ℕ) (xs : List F.Float)
      → j < length cbvec
      → o + j < n
      → length xs ≡ n
      → Returns (Sized n) (next_term F gain cbvec o j xs)
  unfolding next_term
  next_term-Returns gain cbvec o j n xs h i s = Returns-bind (load-Returns cbvec j h) λ c _.
      Returns-bind (load-Returns xs (o + j) (omega arith))
        λ v _. Returns-weaken (store-Returns xs (o + j) _ (omega arith)) λ ys t. t ∙ s

  -- The sizes of `cbvec` and `decvector`.
  abbrev Pair : ℕ → List F.Float × List F.Float → Type 0
  Pair n s = (length s.0 ≡ 40) × (length s.1 ≡ n)

  add_stage-Returns :
      (gain : List F.Float) (index : List ℕ) (ci : ℕ) (mem : List F.Float)
      (mo l_mem veclen o k n : ℕ) (s : List F.Float × List F.Float)
      → length gain ≡ 3
      → k < 3
      → Returns (IsCode l_mem veclen) (load index (ci + k))
      → mo + l_mem ≤ length mem
      → veclen ≤ 40
      → o + veclen ≤ n
      → Pair n s
      → Returns (Pair n) (add_stage F gain index ci mem mo l_mem veclen o k s)
  unfolding add_stage
  add_stage-Returns gain index ci mem mo l_mem veclen o k n (cbvec, xs) g h r m v i (s, t) =
      Returns-bind r λ j c.
        Returns-bind (get_cb_vec-Returns F cbvec mem mo j l_mem veclen s m c) λ ys u.
          Returns-bind (load-Returns gain k (omega arith)) λ d _.
            Returns-bind
              (for-Returns (Sized n) veclen 0 _ xs t
                λ j zs _ b w. next_term-Returns d ys o j n zs (omega arith) (omega arith) w)
              λ zs w. returned (u, w)

  -- For the three indices and gains of a subframe, `constructCodebook` ends with no panic.
  pub construct_codebook-Returns :
      (out : List F.Float) (o : ℕ) (index : List ℕ) (ci : ℕ) (gain_index : List ℕ) (gi : ℕ)
      (mem : List F.Float) (mo l_mem veclen n_stages n : ℕ)
      → HasCodes l_mem veclen index ci
      → HasGains gain_index gi
      → mo + l_mem ≤ length mem
      → veclen ≤ 40
      → n_stages ≤ 3
      → length out ≡ n
      → o + veclen ≤ n
      → Returns
          (Sized n)
          (construct_codebook F out o index ci gain_index gi mem mo l_mem veclen n_stages)
  unfolding construct_codebook
  construct_codebook-Returns out o index ci gain_index gi mem mo l_mem veclen n_stages n c g m v few
        s i =
      Returns-bind (stage_gains-Returns gain_index gi n_stages g) λ gain t.
        Returns-bind (at_first (c 0 (omega arith))) λ j d.
          Returns-bind
            (get_cb_vec-Returns F (replicate 40 (nought F)) mem mo j l_mem veclen refl m d)
            λ ys u. Returns-bind (load-Returns gain 0 (omega arith)) λ g _.
              Returns-bind
                (for-Returns (Sized n) veclen 0 _ out s
                  λ j zs _ b w. first_term-Returns g ys o j n zs (omega arith) (omega arith) w)
                λ zs w.
                  Returns-bind
                    (for-Returns (Pair n) (n_stages - 1) 1 _ (ys, zs) (u, w)
                      λ k r _ b q.
                        add_stage-Returns gain index ci mem mo l_mem veclen o k n r t (omega arith)
                          (c k (omega arith)) m v i q)
                    λ r q. returned q.1
    where
      at_first :
          Returns (IsCode l_mem veclen) (load index (ci + 0))
          → Returns (IsCode l_mem veclen) (load index ci)
      at_first h =
          let e : ci + 0 ≡ ci = omega arith in
          subst (λ (p : ℕ). Returns (IsCode l_mem veclen) (load index p)) e h
