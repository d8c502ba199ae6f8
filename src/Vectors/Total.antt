-- ===== src/Vectors/Total.antt =====
-- The vector helpers of src/helpfun.go stay within arrays that are long enough.
use i_lbc_go.Prelude.{ℕ, ◌+◌, ◌-◌, ◌/◌, ◌≤◌, ◌<◌, ◌≡◌, ◌∙◌, arith, List, length}
use i_lbc_go.Arrays.{
  Returns, returned, Returns-bind, Returns-weaken, Returns-if, Any, Sized, load-Returns,
  load_back-Returns, store-Returns, store_back-Returns, for-Returns,
}
use i_lbc_go.Floats.{plus, Floats}
use i_lbc_go.Vectors.{
  lag_sum, autocorr, window, interpolate, chirp_step, bwexpand, mirror_step, order_step,
  flat_filter, recursion, levdurb,
}

module _ (F : Floats) where
  pub interpolate-Returns :
      (out in1 in2 : List F.Float) (o2 : ℕ) (coef : F.Float) (len n : ℕ)
      → length out ≡ n
      → len ≤ n
      → len ≤ length in1
      → o2 + len ≤ length in2
      → Returns (Sized n) (interpolate F out in1 in2 o2 coef len)
  unfolding interpolate
  interpolate-Returns out in1 in2 o2 coef len n s h a b =
      for-Returns (Sized n) len 0 _ out s λ i xs _ c t.
        Returns-bind (load-Returns in1 i (omega arith)) λ x _.
          Returns-bind (load-Returns in2 (o2 + i) (omega arith))
            λ y _. Returns-weaken (store-Returns xs i _ (omega arith)) λ ys u. u ∙ t

  pub bwexpand-Returns :
      (out : List F.Float) (oo : ℕ) (input : List F.Float) (coef : F.Float) (len n : ℕ)
      → length out ≡ n
      → 1 ≤ len
      → oo + len ≤ n
      → len ≤ length input
      → Returns (Sized n) (bwexpand F out oo input coef len)
  unfolding bwexpand chirp_step
  bwexpand-Returns out oo input coef len n s a b c =
      Returns-bind (load-Returns input 0 (omega arith)) λ x _.
        Returns-bind (store-Returns out oo x (omega arith)) λ xs t.
          Returns-bind
            (for-Returns (λ (r : List F.Float × F.Float). length r.0 ≡ n) (len - 1) 1 _ _ (t ∙ s)
              λ i (ys, chirp) _ d u. Returns-bind (load-Returns input i (omega arith)) λ x _.
                Returns-bind (store-Returns ys (oo + i) _ (omega arith)) λ zs v. returned (v ∙ u))
            λ (ys, chirp) u. returned u

  pub window-Returns :
      (z x y : List F.Float) (len n : ℕ)
      → length z ≡ n
      → len ≤ n
      → len ≤ length x
      → len ≤ length y
      → Returns (Sized n) (window F z x y len)
  unfolding window
  window-Returns z x y len n s h a b = for-Returns (Sized n) len 0 _ z s λ i xs _ c t.
      Returns-bind (load-Returns x i (omega arith)) λ v _.
        Returns-bind (load-Returns y i (omega arith))
          λ w _. Returns-weaken (store-Returns xs i _ (omega arith)) λ ys u. u ∙ t

  pub autocorr-Returns :
      (r x : List F.Float) (len order n : ℕ)
      → length r ≡ n
      → order < n
      → order ≤ len
      → len ≤ length x
      → Returns (Sized n) (autocorr F r x len order)
  unfolding autocorr lag_sum
  autocorr-Returns r x len order n s h a b =
      for-Returns (Sized n) (order + 1) 0 _ r s λ lag rs _ c t.
        Returns-bind
          (for-Returns Any (len - lag) 0 _ _ tt λ k sum _ d _.
            Returns-bind (load-Returns x k (omega arith))
              λ v _. Returns-bind (load-Returns x (k + lag) (omega arith)) λ w _. returned tt)
          λ sum _. Returns-weaken (store-Returns rs lag sum (omega arith)) λ ys u. u ∙ t

  -- `a` and `k` of the recursion, with sizes.
  abbrev Sizes : ℕ → List F.Float × List F.Float → Type 0
  Sizes order s = (length s.0 ≡ order + 1) × (length s.1 ≡ order)

  abbrev Sizes3 : ℕ → List F.Float × List F.Float × F.Float → Type 0
  Sizes3 order s = (length s.0 ≡ order + 1) × (length s.1 ≡ order)

  mirror_step-Returns :
      (k : F.Float) (m i n : ℕ) (a : List F.Float)
      → length a ≡ n
      → i + 1 < n
      → i ≤ m
      → m < n
      → Returns (Sized n) (mirror_step F k m i a)
  unfolding mirror_step
  mirror_step-Returns k m i n a s h j l = Returns-bind (load-Returns a (i + 1) (omega arith)) λ x _.
      Returns-bind (load_back-Returns a m i j (omega arith)) λ y _.
        Returns-bind (store_back-Returns a m i _ j (omega arith))
          λ b t. Returns-weaken (store-Returns b (i + 1) _ (omega arith)) λ c u. u ∙ t ∙ s

  order_step-Returns :
      (r : List F.Float) (m order : ℕ) (s : List F.Float × List F.Float × F.Float)
      → order < length r
      → m < order
      → Sizes3 order s
      → Returns (Sizes3 order) (order_step F r m s)
  unfolding order_step
  order_step-Returns r m order (a, k, alpha) h j (s, t) =
      Returns-bind (load-Returns r (m + 1) (omega arith)) λ sum _.
        Returns-bind
          (for-Returns Any m 0 _ sum tt λ i acc _ c _.
            Returns-bind (load-Returns a (i + 1) (omega arith)) λ x _.
              Returns-bind (load_back-Returns r m i (omega arith) (omega arith)) λ y _. returned tt)
          λ sum _. Returns-bind (store-Returns k m _ (omega arith)) λ ks u.
            Returns-bind
              (for-Returns (Sized (order + 1)) ((m + 1) / 2) 0 _ a s λ i b _ c v.
                mirror_step-Returns _ m i (order + 1) b v (omega arith) (omega arith) (omega arith))
              λ b v.
                Returns-bind (store-Returns b (m + 1) _ (omega arith))
                  λ c w. returned (w ∙ v, u ∙ t)

  flat_filter-Returns :
      (a k : List F.Float) (order : ℕ)
      → Sizes order (a, k)
      → Returns (Sizes order) (flat_filter F a k order)
  unfolding flat_filter
  flat_filter-Returns a k order s =
      for-Returns (Sizes order) order 0 _ (a, k) s
        λ i (b, l) _ c (t, u). Returns-bind (store-Returns l i _ (omega arith)) λ ls v.
          Returns-bind (store-Returns b (i + 1) _ (omega arith)) λ bs w. returned (w ∙ t, v ∙ u)

  recursion-Returns :
      (a k r : List F.Float) (order : ℕ) (r0 : F.Float)
      → Sizes order (a, k)
      → 1 ≤ order
      → order < length r
      → Returns (Sizes order) (recursion F a k r order r0)
  unfolding recursion
  recursion-Returns a k r order r0 (s, t) h j =
      Returns-bind (load-Returns r 1 (omega arith)) λ r1 _.
        Returns-bind (store-Returns a 1 _ (omega arith)) λ b u.
          Returns-bind (store-Returns k 0 _ (omega arith)) λ l v.
            Returns-bind
              (for-Returns (Sizes3 order) (order - 1) 1 _ (b, l, _) (u ∙ s, v ∙ t)
                λ m p _ c w. order_step-Returns r m order p j (omega arith) w)
              λ (b, l, alpha) w. returned w

  -- For at least one order and arrays of their sizes, `levdurb` ends with no panic and keeps their sizes.
  pub levdurb-Returns :
      (a k r : List F.Float) (order : ℕ)
      → length a ≡ order + 1
      → length k ≡ order
      → 1 ≤ order
      → order < length r
      → Returns (λ s. (length s.0 ≡ order + 1) × (length s.1 ≡ order)) (levdurb F a k r order)
  unfolding levdurb
  levdurb-Returns a k r order s t h j = Returns-bind (store-Returns a 0 _ (omega arith)) λ b u.
      Returns-bind (load-Returns r 0 (omega arith)) λ r0 _.
        Returns-if (F.less r0 (F.constant (plus 2220446 22)))
          (λ _. flat_filter-Returns b k order (u ∙ s, t))
          (λ _. recursion-Returns b k r order r0 (u ∙ s, t) h j)
