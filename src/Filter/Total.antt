-- ===== src/Filter/Total.antt =====
-- The filters of src/filter.go stay within arrays that are long enough.
use i_lbc_go.Prelude.{
  ℕ, ◌+◌, ◌-◌, ◌*◌, ◌/◌, if◌then◌else◌, ltb, ◌≤◌, ◌<◌, ◌≡◌, ◌∙◌, arith, List, length,
}
use i_lbc_go.Arrays.{
  Any, returned, minus_length-Returns, Returns, Returns-bind, Returns-weaken, Sized, load-Returns,
  load_back-Returns, store-Returns, for-Returns,
}
use i_lbc_go.Floats.{Floats}
use i_lbc_go.Filter.{
  down_term, down_round, down_sample, pole_step, all_pole_filter, zero_step, zero_round,
  all_zero_filter, zero_pole_filter,
}

module _ (F : Floats) where
  pole_step-Returns :
      (coef : List F.Float) (co i k n : ℕ) (xs : List F.Float)
      → length xs ≡ n
      → i < n
      → k ≤ i
      → co + k < length coef
      → Returns (Sized n) (pole_step F coef co i k xs)
  unfolding pole_step
  pole_step-Returns coef co i k n xs e h j c = Returns-bind (load-Returns xs i (omega arith)) λ x _.
      Returns-bind (load-Returns coef (co + k) c) λ c _.
        Returns-bind (load_back-Returns xs i k j (omega arith)) λ y _.
          Returns-weaken (store-Returns xs i (F.sub x (F.mul c y)) (omega arith)) λ ys s. s ∙ e

  -- `allPoleFilter` needs the `order` samples before the first one.
  pub all_pole_filter-Returns :
      (xs : List F.Float) (io : ℕ) (coef : List F.Float) (co count order n : ℕ)
      → length xs ≡ n
      → order ≤ io
      → io + count ≤ n
      → co + order < length coef
      → Returns (Sized n) (all_pole_filter F xs io coef co count order)
  unfolding all_pole_filter
  all_pole_filter-Returns xs io coef co count order n e h j c =
      for-Returns (Sized n) count 0 _ xs e λ m ys _ b s.
        for-Returns (Sized n) order 1 _ ys s λ k zs _ d t.
          pole_step-Returns coef co (io + m) k n zs t (omega arith) (omega arith) (omega arith)

  zero_step-Returns :
      (input : List F.Float) (i : ℕ) (coef : List F.Float) (co o k n : ℕ) (xs : List F.Float)
      → length xs ≡ n
      → o < n
      → i < length input
      → k ≤ i
      → co + k < length coef
      → Returns (Sized n) (zero_step F input i coef co o k xs)
  unfolding zero_step
  zero_step-Returns input i coef co o k n xs e h l j c =
      Returns-bind (load-Returns xs o (omega arith)) λ v _.
        Returns-bind (load-Returns coef (co + k) c) λ c _.
          Returns-bind (load_back-Returns input i k j (omega arith)) λ y _.
            Returns-weaken (store-Returns xs o (F.add v (F.mul c y)) (omega arith)) λ ys s. s ∙ e

  zero_round-Returns :
      (input : List F.Float) (i : ℕ) (coef : List F.Float) (co order o n : ℕ) (xs : List F.Float)
      → length xs ≡ n
      → o < n
      → i < length input
      → order ≤ i
      → co + order < length coef
      → Returns (Sized n) (zero_round F input i coef co order o xs)
  unfolding zero_round
  zero_round-Returns input i coef co order o n xs e h l j c =
      Returns-bind (load-Returns coef co (omega arith)) λ d _.
        Returns-bind (load-Returns input i l) λ x _.
          Returns-bind (store-Returns xs o (F.mul d x) (omega arith)) λ ys s.
            for-Returns (Sized n) order 1 _ ys (s ∙ e) λ k zs _ b t.
              zero_step-Returns input i coef co o k n zs t h l (omega arith) (omega arith)

  pub all_zero_filter-Returns :
      (input : List F.Float) (ii : ℕ) (coef : List F.Float) (co count order : ℕ)
      (out : List F.Float) (oo n : ℕ)
      → length out ≡ n
      → oo + count ≤ n
      → ii + count ≤ length input
      → order ≤ ii
      → co + order < length coef
      → Returns (Sized n) (all_zero_filter F input ii coef co count order out oo)
  unfolding all_zero_filter
  all_zero_filter-Returns input ii coef co count order out oo n e h l j c =
      for-Returns (Sized n) count 0 _ out e λ m ys _ b s.
        zero_round-Returns input (ii + m) coef co order (oo + m) n ys s (omega arith) (omega arith)
          (omega arith) c

  pub zero_pole_filter-Returns :
      (input : List F.Float) (ii : ℕ) (zs : List F.Float) (zo : ℕ) (ps : List F.Float)
      (po count order : ℕ) (out : List F.Float) (oo n : ℕ)
      → length out ≡ n
      → oo + count ≤ n
      → ii + count ≤ length input
      → order ≤ ii
      → order ≤ oo
      → zo + order < length zs
      → po + order < length ps
      → Returns (Sized n) (zero_pole_filter F input ii zs zo ps po count order out oo)
  unfolding zero_pole_filter
  zero_pole_filter-Returns input ii zs zo ps po count order out oo n e h l j k c d =
      Returns-bind (all_zero_filter-Returns input ii zs zo count order out oo n e h l j c)
        λ ys s. all_pole_filter-Returns ys oo ps po count order n s k h d

  down_term-Returns :
      (coef xs : List F.Float) (c i j : ℕ) (o : F.Float)
      → c + j < length coef
      → j ≤ i
      → i < length xs + j
      → Returns Any (down_term F coef xs c i j o)
  unfolding down_term
  down_term-Returns coef xs c i j o a b d =
      Returns-bind (load-Returns coef (c + j) a)
        λ v _. Returns-bind (load_back-Returns xs i j b d) λ x _. returned tt

  down_round-Returns :
      (input : List F.Float) (ii : ℕ) (coef state : List F.Float) (i p n : ℕ) (out : List F.Float)
      → length coef ≡ 7
      → length state ≡ 6
      → ii + i < length input
      → p < n
      → length out ≡ n
      → Returns (Sized n) (down_round F input ii coef state i p out)
  unfolding down_round
  down_round-Returns input ii coef state i p n out c s h l e =
      let stop : ℕ = (if ltb i 7 then i + 1 else 7) in
      let (a, b) : (stop ≤ 7) × (stop ≤ i + 1) = stop_le i in
      Returns-bind
        (for-Returns Any stop 0 _ _ tt λ j o _ d _.
          down_term-Returns coef input 0 (ii + i) j o (omega (arith, a, d, c)) (omega (arith, b, d))
            (omega arith))
        λ o _.
          Returns-bind
            (for-Returns Any (6 - i) 0 _ o tt λ j o _ d _.
              down_term-Returns coef state (i + 1) 5 j o (omega arith) (omega arith) (omega arith))
            λ o _. Returns-weaken (store-Returns out p o (omega arith)) λ ys t. t ∙ e
    where
      stop_le :
          (i : ℕ) → ((if ltb i 7 then i + 1 else 7) ≤ 7) × ((if ltb i 7 then i + 1 else 7) ≤ i + 1)
      stop_le i = (ground arith, ground arith)

  -- For at least five samples and room for half as many outputs, `downSample` ends with no panic.
  pub down_sample-Returns :
      (input : List F.Float) (ii : ℕ) (coef : List F.Float) (length_in : ℕ)
      (state out : List F.Float) (n : ℕ)
      → length coef ≡ 7
      → length state ≡ 6
      → 5 ≤ length_in
      → ii + length_in ≤ length input
      → length out ≡ n
      → length_in ≤ 2 * n
      → Returns (Sized n) (down_sample F input ii coef length_in state out)
  unfolding down_sample
  down_sample-Returns input ii coef length_in state out n c s a h e l =
      let rounds : ℕ = (length_in - 2) / 2 in
      let r : 2 * rounds + 2 ≤ length_in = halves length_in a in
      Returns-bind
        (for-Returns (Sized n) rounds 0 _ out e λ m out _ b e.
          down_round-Returns input ii coef state (3 + 2 * m) m n out c s (omega (arith, r, b, h))
            (omega (arith, r, b, l)) e)
        λ out e. Returns-bind (minus_length-Returns length_in 1 (omega arith)) λ last z.
          Returns-bind
            (for-Returns Any 5 0 _ _ tt λ j o _ d _.
              down_term-Returns coef input 2 (ii + last) j o (omega arith) (omega arith)
                (omega arith))
            λ o _. Returns-weaken (store-Returns out rounds o (omega (arith, r, l))) λ ys t. t ∙ e
    where
      halves : (n : ℕ) → 5 ≤ n → 2 * ((n - 2) / 2) + 2 ≤ n
      halves n h = omega arith
