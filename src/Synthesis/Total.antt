-- ===== src/Synthesis/Total.antt =====
-- The filters with a memory stay within arrays that are long enough.
use i_lbc_go.Prelude.{ℕ, ◌+◌, ◌-◌, ◌≤◌, ◌<◌, ◌≡◌, refl, ◌∙◌, arith, List, length, map, leb, false}
use i_lbc_go.Arrays.{
  Returns, returned, Returns-bind, Returns-weaken, Returns-if, Any, Sized, load-Returns,
  load_back-Returns, store-Returns, slice_back-Returns, blit-Returns, for-Returns,
}
use i_lbc_go.Floats.{Decimal, Floats}
use i_lbc_go.Synthesis.{
  history, synt_step, synt_filter, ana_sample, ana_filter, zeros_step, poles_step, highpass,
  hp_input, hp_output, hpi_zero_coefs_tbl, hpi_pole_coefs_tbl, hpo_zero_coefs_tbl,
  hpo_pole_coefs_tbl,
}

module _ (F : Floats) where
  history-Returns :
      (xs mem : List F.Float) (o i j : ℕ)
      → length mem ≡ 10
      → o + i < length xs
      → j ≤ 10
      → Returns Any (history F xs mem o i j)
  unfolding history
  history-Returns xs mem o i j e h l =
      Returns-if (leb j i) (λ b. load-Returns xs (o + i - j) (omega arith))
        (λ b. load_back-Returns mem (10 + i) j (omega arith) (omega (arith, i_lt i j b)))
    where
      i_lt : (i j : ℕ) → leb j i ≡ false → i < j
      i_lt i j b = ground arith

  -- A frame and a memory, with their sizes.
  abbrev pub Sizes : ℕ → ℕ → List F.Float × List F.Float → Type 0
  Sizes n m s = (length s.0 ≡ n) × (length s.1 ≡ m)

  synt_step-Returns :
      (a : List F.Float) (ao : ℕ) (mem : List F.Float) (o i j n : ℕ) (out : List F.Float)
      → length out ≡ n
      → length mem ≡ 10
      → o + i < n
      → j ≤ 10
      → ao + 10 < length a
      → Returns (Sized n) (synt_step F a ao mem o i j out)
  unfolding synt_step
  synt_step-Returns a ao mem o i j n out s e h l c =
      Returns-bind (load-Returns a (ao + j) (omega arith)) λ c _.
        Returns-bind (history-Returns out mem o i j e (omega arith) l) λ y _.
          Returns-bind (load-Returns out (o + i) (omega arith))
            λ x _. Returns-weaken (store-Returns out (o + i) _ (omega arith)) λ ys t. t ∙ s

  pub synt_filter-Returns :
      (out : List F.Float) (o : ℕ) (a : List F.Float) (ao len : ℕ) (mem : List F.Float) (n : ℕ)
      → length out ≡ n
      → length mem ≡ 10
      → 10 ≤ len
      → o + len ≤ n
      → ao + 10 < length a
      → Returns (Sizes n 10) (synt_filter F out o a ao len mem)
  unfolding synt_filter
  synt_filter-Returns out o a ao len mem n s e l h c =
      Returns-bind
        (for-Returns (Sized n) 10 0 _ out s λ i xs _ b t.
          for-Returns (Sized n) 10 1 _ xs t
            λ j ys _ d u. synt_step-Returns a ao mem o i j n ys u e (omega arith) (omega arith) c)
        λ out s.
          Returns-bind
            (for-Returns (Sized n) (len - 10) 10 _ out s λ i xs _ b t.
              for-Returns (Sized n) 10 1 _ xs t λ j ys _ d u.
                synt_step-Returns a ao mem o i j n ys u e (omega arith) (omega arith) c)
            λ out s.
              Returns-bind (slice_back-Returns out (o + len) 10 10 (omega arith) (omega arith))
                λ k t. Returns-bind (blit-Returns mem 0 k (omega arith)) λ m u. returned (s, u ∙ e)

  ana_sample-Returns :
      (input : List F.Float) (o : ℕ) (a : List F.Float) (ao : ℕ) (mem : List F.Float) (oo i n : ℕ)
      (out : List F.Float)
      → length out ≡ n
      → length mem ≡ 10
      → oo + i < n
      → o + i < length input
      → ao + 10 < length a
      → Returns (Sized n) (ana_sample F input o a ao mem oo i out)
  unfolding ana_sample
  ana_sample-Returns input o a ao mem oo i n out s e h l c =
      Returns-bind (store-Returns out (oo + i) _ (omega arith)) λ xs t.
        for-Returns (Sized n) 11 0 _ xs (t ∙ s) λ j ys _ b u.
          Returns-bind (load-Returns a (ao + j) (omega arith)) λ d _.
            Returns-bind (history-Returns input mem o i j e l (omega arith)) λ y _.
              Returns-bind (load-Returns ys (oo + i) (omega arith))
                λ x _. Returns-weaken (store-Returns ys (oo + i) _ (omega arith)) λ zs v. v ∙ u

  pub ana_filter-Returns :
      (input : List F.Float) (o : ℕ) (a : List F.Float) (ao len : ℕ) (out : List F.Float) (oo : ℕ)
      (mem : List F.Float) (n : ℕ)
      → length out ≡ n
      → length mem ≡ 10
      → 10 ≤ len
      → oo + len ≤ n
      → o + len ≤ length input
      → ao + 10 < length a
      → Returns (Sizes n 10) (ana_filter F input o a ao len out oo mem)
  unfolding ana_filter
  ana_filter-Returns input o a ao len out oo mem n s e l h k c =
      Returns-bind
        (for-Returns (Sized n) 10 0 _ out s λ i xs _ b t.
          ana_sample-Returns input o a ao mem oo i n xs t e (omega arith) (omega arith) c)
        λ out s.
          Returns-bind
            (for-Returns (Sized n) (len - 10) 10 _ out s λ i xs _ b t.
              ana_sample-Returns input o a ao mem oo i n xs t e (omega arith) (omega arith) c)
            λ out s.
              Returns-bind (slice_back-Returns input (o + len) 10 10 (omega arith) (omega arith))
                λ r t. Returns-bind (blit-Returns mem 0 r (omega arith)) λ m u. returned (s, u ∙ e)

  zeros_step-Returns :
      (coefs : List Decimal) (input : List F.Float) (i n : ℕ) (s : List F.Float × List F.Float)
      → length (map F.constant coefs) ≡ 3
      → i < n
      → i < length input
      → Sizes n 4 s
      → Returns (Sizes n 4) (zeros_step F coefs input i s)
  unfolding zeros_step
  zeros_step-Returns coefs input i n (out, mem) c h l (s, e) =
      Returns-bind (load-Returns (map F.constant coefs) 0 (omega arith)) λ c0 _.
        Returns-bind (load-Returns (map F.constant coefs) 1 (omega arith)) λ c1 _.
          Returns-bind (load-Returns (map F.constant coefs) 2 (omega arith)) λ c2 _.
            Returns-bind (load-Returns input i l) λ x _.
              Returns-bind (load-Returns mem 0 (omega arith)) λ a _.
                Returns-bind (load-Returns mem 1 (omega arith)) λ b _.
                  Returns-bind (store-Returns out i _ (omega arith)) λ ys t.
                    Returns-bind (store-Returns mem 1 a (omega arith)) λ m u.
                      Returns-bind (store-Returns m 0 x (omega arith))
                        λ k v. returned (t ∙ s, v ∙ u ∙ e)

  poles_step-Returns :
      (coefs : List Decimal) (i n : ℕ) (s : List F.Float × List F.Float)
      → length (map F.constant coefs) ≡ 3
      → i < n
      → Sizes n 4 s
      → Returns (Sizes n 4) (poles_step F coefs i s)
  unfolding poles_step
  poles_step-Returns coefs i n (out, mem) c h (s, e) =
      Returns-bind (load-Returns (map F.constant coefs) 1 (omega arith)) λ c1 _.
        Returns-bind (load-Returns (map F.constant coefs) 2 (omega arith)) λ c2 _.
          Returns-bind (load-Returns out i (omega arith)) λ v _.
            Returns-bind (load-Returns mem 2 (omega arith)) λ a _.
              Returns-bind (load-Returns mem 3 (omega arith)) λ b _.
                Returns-bind (store-Returns out i _ (omega arith)) λ ys t.
                  Returns-bind (store-Returns mem 3 a (omega arith)) λ m u.
                    Returns-bind (store-Returns m 2 _ (omega arith))
                      λ k v. returned (t ∙ s, v ∙ u ∙ e)

  highpass-Returns :
      (zeros poles : List Decimal) (input : List F.Float) (len : ℕ) (out mem : List F.Float) (n : ℕ)
      → length (map F.constant zeros) ≡ 3
      → length (map F.constant poles) ≡ 3
      → length out ≡ n
      → length mem ≡ 4
      → len ≤ n
      → len ≤ length input
      → Returns (Sizes n 4) (highpass F zeros poles input len out mem)
  unfolding highpass
  highpass-Returns zeros poles input len out mem n z p s e h l =
      Returns-bind
        (for-Returns (Sizes n 4) len 0 _ (out, mem) (s, e)
          λ i t _ b v. zeros_step-Returns zeros input i n t z (omega arith) (omega arith) v)
        λ t v.
          for-Returns (Sizes n 4) len 0 _ t v
            λ i t _ b v. poles_step-Returns poles i n t p (omega arith) v

  pub hp_input-Returns :
      (input : List F.Float) (len : ℕ) (out mem : List F.Float) (n : ℕ)
      → length out ≡ n
      → length mem ≡ 4
      → len ≤ n
      → len ≤ length input
      → Returns (Sizes n 4) (hp_input F input len out mem)
  unfolding hp_input
  hp_input-Returns input len out mem n s e h l =
      highpass-Returns hpi_zero_coefs_tbl hpi_pole_coefs_tbl input len out mem n refl refl s e h l

  pub hp_output-Returns :
      (input : List F.Float) (len : ℕ) (out mem : List F.Float) (n : ℕ)
      → length out ≡ n
      → length mem ≡ 4
      → len ≤ n
      → len ≤ length input
      → Returns (Sizes n 4) (hp_output F input len out mem)
  unfolding hp_output
  hp_output-Returns input len out mem n s e h l =
      highpass-Returns hpo_zero_coefs_tbl hpo_pole_coefs_tbl input len out mem n refl refl s e h l
