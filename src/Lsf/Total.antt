-- ===== src/Lsf/Total.antt =====
-- `checkLSF` and `lsf2a` end with no panic.
use i_lbc_go.Prelude.{ℕ, suc, ◌+◌, ◌-◌, ◌*◌, ◌≤◌, ◌<◌, ◌≡◌, refl, ◌∙◌, arith, List, length, ◌||◌}
use native.Mathlib.Nat.{mul-le-mul_right}
use i_lbc_go.Arrays.{
  Returns, returned, Returns-bind, Returns-weaken, Returns-if, Sized, load-Returns,
  load_back-Returns, store-Returns, for-Returns,
}
use i_lbc_go.Floats.{plus, Floats}
use i_lbc_go.Lsf.{
  apart, raised, lowered, check_pair, check_lsf, spread, scaled_frequencies, Half, half_step,
  half_round, cosines, coefficient, lsf2a,
}

module _ (F : Floats) where
  -- The frequencies of `checkLSF` keep their number.
  abbrev pub Kept : ℕ → List F.Float × ℕ → Type 0
  Kept n s = length s.0 ≡ n

  apart-Returns :
      (pos n : ℕ) (s : List F.Float × ℕ) → pos + 1 < n → Kept n s → Returns (Kept n) (apart F pos s)
  unfolding apart
  apart-Returns pos n (lsf, change) h e = Returns-bind (load-Returns lsf pos (omega arith)) λ x _.
      Returns-bind (load-Returns lsf (pos + 1) (omega arith)) λ y _.
        Returns-if (F.less (F.sub y x) (F.constant (plus 39 3)))
          (λ _.
            Returns-if (F.less y x)
              (λ _. Returns-bind (store-Returns lsf (pos + 1) _ (omega arith)) λ xs t.
                Returns-bind (store-Returns xs pos _ (omega arith)) λ ys u. returned (u ∙ t ∙ e))
              (λ _. Returns-bind (store-Returns lsf pos _ (omega arith)) λ xs t.
                Returns-bind (store-Returns xs (pos + 1) _ (omega arith))
                  λ ys u. returned (u ∙ t ∙ e)))
          (λ _. returned e)

  raised-Returns :
      (pos n : ℕ) (s : List F.Float × ℕ) → pos < n → Kept n s → Returns (Kept n) (raised F pos s)
  unfolding raised
  raised-Returns pos n (lsf, change) h e = Returns-bind (load-Returns lsf pos (omega arith)) λ x _.
      Returns-if (F.less x (F.constant (plus 1 2)))
        (λ _. Returns-bind (store-Returns lsf pos _ (omega arith)) λ xs t. returned (t ∙ e))
        (λ _. returned e)

  lowered-Returns :
      (pos n : ℕ) (s : List F.Float × ℕ) → pos < n → Kept n s → Returns (Kept n) (lowered F pos s)
  unfolding lowered
  lowered-Returns pos n (lsf, change) h e = Returns-bind (load-Returns lsf pos (omega arith)) λ x _.
      Returns-if (F.less (F.constant (plus 314 2)) x)
        (λ _. Returns-bind (store-Returns lsf pos _ (omega arith)) λ xs t. returned (t ∙ e))
        (λ _. returned e)

  pub check_pair-Returns :
      (pos n : ℕ) (s : List F.Float × ℕ)
      → pos + 1 < n
      → Kept n s
      → Returns (Kept n) (check_pair F pos s)
  unfolding check_pair
  check_pair-Returns pos n s h e = Returns-bind (apart-Returns pos n s h e) λ s e.
      Returns-bind (raised-Returns pos n s (omega arith) e)
        λ s e. lowered-Returns pos n s (omega arith) e

  -- The position is of the analysis `m`, and not its last one.
  pub pair_lt :
      (m k dim no_an n : ℕ) → m < no_an → k + 1 < dim → no_an * dim ≤ n → m * dim + k + 1 < n
  pair_lt m k dim no_an n a b c =
      omega (arith, b, c, mul-le-mul_right {m = suc m} {n = no_an} dim a)

  pub check_lsf-Returns :
      (lsf : List F.Float) (dim no_an n : ℕ)
      → length lsf ≡ n
      → no_an * dim ≤ n
      → Returns (Kept n) (check_lsf F lsf dim no_an)
  unfolding check_lsf
  check_lsf-Returns lsf dim no_an n e h =
      for-Returns (Kept n) 2 0 _ (lsf, 0) e
        λ i s _ _ e. for-Returns (Kept n) no_an 0 _ s e λ m s _ a e.
          for-Returns (Kept n) (dim - 1) 0 _ s e λ k s _ b e.
            check_pair-Returns (m * dim + k) n s
              (pair_lt m k dim no_an n (omega arith) (omega arith) h) e

  spread-Returns : (freq : List F.Float) → length freq ≡ 10 → Returns (Sized 10) (spread F freq)
  unfolding spread
  spread-Returns freq e = Returns-bind (load-Returns freq 0 (omega arith)) λ x _.
      Returns-bind
        (Returns-if {P = Sized 10} (F.at_most x (plus 0 0))
          (λ _. Returns-weaken (store-Returns freq 0 _ (omega arith)) λ xs t. t ∙ e)
          (λ _. returned e))
        λ xs e. Returns-bind (load-Returns xs 9 (omega arith)) λ y _.
          Returns-bind
            (Returns-if {P = Sized 10} (F.at_least y (plus 5 1))
              (λ _. Returns-weaken (store-Returns xs 9 _ (omega arith)) λ ys t. t ∙ e)
              (λ _. returned e))
            λ ys e. Returns-bind (load-Returns ys 9 (omega arith)) λ y _.
              Returns-bind (load-Returns ys 0 (omega arith)) λ x _.
                for-Returns (Sized 10) 9 1 _ ys e λ i zs b c e.
                  Returns-bind (load_back-Returns zs i 1 b (omega arith))
                    λ v _. Returns-weaken (store-Returns zs i _ (omega arith)) λ us t. t ∙ e

  scaled_frequencies-Returns :
      (freq : List F.Float) → length freq ≡ 10 → Returns (Sized 10) (scaled_frequencies F freq)
  unfolding scaled_frequencies
  scaled_frequencies-Returns freq e =
      Returns-bind
        (for-Returns (Sized 10) 10 0 _ freq e λ i zs _ c e.
          Returns-bind (load-Returns zs i (omega arith))
            λ v _. Returns-weaken (store-Returns zs i _ (omega arith)) λ us t. t ∙ e)
        λ xs e. Returns-bind (load-Returns xs 0 (omega arith)) λ x _.
          Returns-bind (load-Returns xs 9 (omega arith)) λ y _.
            Returns-if (F.at_most x (plus 0 0) || F.at_least y (plus 5 1))
              (λ _. spread-Returns xs e) (λ _. returned e)

  record IsHalf (h : Half F) : Type 0 where
    sums_size : length h.sums ≡ 6
    one_size : length h.one ≡ 5
    two_size : length h.two ≡ 5

  half_step-Returns :
      (p : List F.Float) (i : ℕ) (h : Half F)
      → length p ≡ 5
      → i < 5
      → IsHalf h
      → Returns IsHalf (half_step F p i h)
  unfolding half_step
  half_step-Returns p i h e b w =
      Returns-bind (load-Returns h.sums i (omega (arith, b, w.sums_size))) λ x _.
        Returns-bind (load-Returns p i (omega arith)) λ c _.
          Returns-bind (load-Returns h.one i (omega (arith, b, w.one_size))) λ x1 _.
            Returns-bind (load-Returns h.two i (omega (arith, b, w.two_size))) λ x2 _.
              Returns-bind (store-Returns h.sums (i + 1) _ (omega (arith, b, w.sums_size))) λ xs r.
                Returns-bind (store-Returns h.two i _ (omega (arith, b, w.two_size))) λ ys s.
                  Returns-bind (store-Returns h.one i _ (omega (arith, b, w.one_size))) λ zs t.
                    returned (record {
                      sums_size = r ∙ w.sums_size;
                      one_size = t ∙ w.one_size;
                      two_size = s ∙ w.two_size;
                    })

  half_round-Returns :
      (p : List F.Float) (x : F.Float) (h : Half F)
      → length p ≡ 5
      → IsHalf h
      → Returns IsHalf (half_round F p x h)
  unfolding half_round
  half_round-Returns p x h e w =
      Returns-bind (store-Returns h.sums 0 x (omega (arith, w.sums_size))) λ xs r.
        for-Returns IsHalf 5 0 _ _
          (record { sums_size = r ∙ w.sums_size; one_size = w.one_size; two_size = w.two_size })
          λ i h _ b w. half_step-Returns p i h e (omega arith) w

  cosines-Returns :
      (freq : List F.Float) (o : ℕ)
      → length freq ≡ 10
      → o < 2
      → Returns (Sized 5) (cosines F freq o)
  unfolding cosines
  cosines-Returns freq o e h = for-Returns (Sized 5) 5 0 _ _ refl λ i xs _ b t.
      Returns-bind (load-Returns freq (2 * i + o) (omega arith))
        λ v _. Returns-weaken (store-Returns xs i _ (omega arith)) λ ys u. u ∙ t

  abbrev IsFilter : List F.Float × Half F × Half F → Type 0
  IsFilter s = (length s.0 ≡ 11) × IsHalf s.1 × IsHalf s.2

  coefficient-Returns :
      (p q : List F.Float) (j : ℕ) (s : List F.Float × Half F × Half F)
      → length p ≡ 5
      → length q ≡ 5
      → j < 10
      → IsFilter s
      → Returns IsFilter (coefficient F p q j s)
  unfolding coefficient
  coefficient-Returns p q j (a_coef, a, b) e f h (t, v, w) =
      Returns-bind (half_round-Returns p _ a e v) λ a v.
        Returns-bind (half_round-Returns q _ b f w) λ b w.
          Returns-bind (load-Returns a.sums 5 (omega (arith, v.sums_size))) λ x _.
            Returns-bind (load-Returns b.sums 5 (omega (arith, w.sums_size))) λ y _.
              Returns-bind (store-Returns a_coef (j + 1) _ (omega arith))
                λ xs u. returned (u ∙ t, v, w)

  -- For ten frequencies `lsf2a` ends with no panic, whatever their values.
  pub lsf2a-Returns :
      (a_coef freq : List F.Float)
      → length a_coef ≡ 11
      → length freq ≡ 10
      → Returns (Sized 11) (lsf2a F a_coef freq)
  unfolding lsf2a
  lsf2a-Returns a_coef freq e f =
      let zeros : IsHalf _ = record { sums_size = refl; one_size = refl; two_size = refl } in
      Returns-bind (scaled_frequencies-Returns freq f) λ freq f.
        Returns-bind (cosines-Returns freq 0 f (omega arith)) λ p r.
          Returns-bind (cosines-Returns freq 1 f (omega arith)) λ q s.
            Returns-bind (half_round-Returns p _ _ r zeros) λ a v.
              Returns-bind (half_round-Returns q _ _ s zeros) λ b w.
                Returns-bind
                  (for-Returns IsFilter 10 0 _ (a_coef, a, b) (e, v, w)
                    λ j t _ c u. coefficient-Returns p q j t r s (omega arith) u)
                  λ (xs, _, _) (t, _, _).
                    Returns-weaken (store-Returns xs 0 _ (omega arith)) λ ys u. u ∙ t
