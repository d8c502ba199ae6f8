-- ===== src/StartState/Construct.antt =====
-- The decoder's start state (src/stateconstructw.go) stays within its arrays.
use i_lbc_go.Prelude.{
  ℕ, ◌+◌, ◌-◌, ◌*◌, ◌≤◌, ◌<◌, ◌≡◌, refl, ◌∙◌, arith, List, map, length, replicate, All,
}
use i_lbc_go.Arrays.{
  Returns, Returns-bind, Returns-weaken, Sized, load-Returns, load_back-Returns, load_back-All,
  store-Returns, for-Returns,
}
use i_lbc_go.Floats.{Floats, nought}
use i_lbc_go.Filter.Total.{zero_pole_filter-Returns}
use i_lbc_go.StartState.{
  state_sq3_tbl, state_frgq_tbl, reversed_coefficients, state_sample, folded_sample,
  state_construct_w,
}

-- A scalar quantiser index.
abbrev pub IsLevel : ℕ → Type 0
IsLevel q = q < 8

module _ (F : Floats) where
  pub reversed_coefficients-Returns :
      (synt_denum : List F.Float) (sd : ℕ)
      → sd + 10 < length synt_denum
      → Returns (Sized 11) (reversed_coefficients F synt_denum sd)
  unfolding reversed_coefficients
  reversed_coefficients-Returns synt_denum sd h =
      Returns-bind
        (for-Returns (Sized 11) 10 0 _ (replicate 11 (nought F)) refl λ k xs _ b s.
          Returns-bind (load_back-Returns synt_denum (sd + 10) k (omega arith) (omega arith))
            λ c _. Returns-weaken (store-Returns xs k c (omega arith)) λ ys t. t ∙ s)
        λ xs s.
          Returns-bind (load-Returns synt_denum sd (omega arith))
            λ c _. Returns-weaken (store-Returns xs 10 c (omega arith)) λ ys t. t ∙ s

  state_sample-Returns :
      (max_val : F.Float) (idx_vec : List ℕ) (len k : ℕ) (xs : List F.Float)
      → All IsLevel idx_vec
      → len ≤ length idx_vec
      → k < len
      → len ≤ 80
      → length xs ≡ 170
      → Returns (Sized 170) (state_sample F max_val idx_vec len k xs)
  unfolding state_sample
  state_sample-Returns max_val idx_vec len k xs a l h m s =
      Returns-bind (load_back-All IsLevel idx_vec (len - 1) k a (omega arith) (omega arith)) λ q b.
        Returns-bind (load-Returns (map F.constant state_sq3_tbl) q b) λ v _.
          Returns-weaken (store-Returns xs (10 + k) (F.mul max_val v) (omega arith)) λ ys t. t ∙ s

  folded_sample-Returns :
      (foutbuf : List F.Float) (len o k n : ℕ) (xs : List F.Float)
      → length foutbuf ≡ 170
      → k < len
      → len ≤ 80
      → o + len ≤ n
      → length xs ≡ n
      → Returns (Sized n) (folded_sample F foutbuf len o k xs)
  unfolding folded_sample
  folded_sample-Returns foutbuf len o k n xs f h m j s =
      Returns-bind (load_back-Returns foutbuf (10 + len - 1) k (omega arith) (omega arith)) λ a _.
        Returns-bind (load_back-Returns foutbuf (10 + 2 * len - 1) k (omega arith) (omega arith))
          λ b _. Returns-weaken (store-Returns xs (o + k) (F.add a b) (omega arith)) λ ys t. t ∙ s

  -- With a scale index below 64, levels below 8 and 11 coefficients: the state is written, with no panic.
  pub state_construct_w-Returns :
      (idx_for_max : ℕ) (idx_vec : List ℕ) (synt_denum : List F.Float) (sd : ℕ) (out : List F.Float)
      (o len n : ℕ)
      → idx_for_max < 64
      → All IsLevel idx_vec
      → len ≤ length idx_vec
      → len ≤ 80
      → sd + 10 < length synt_denum
      → length out ≡ n
      → o + len ≤ n
      → Returns (Sized n) (state_construct_w F idx_for_max idx_vec synt_denum sd out o len)
  unfolding state_construct_w
  state_construct_w-Returns idx_for_max idx_vec synt_denum sd out o len n i a l m d s j =
      Returns-bind (load-Returns (map F.constant state_frgq_tbl) idx_for_max i) λ v _.
        Returns-bind (reversed_coefficients-Returns synt_denum sd d) λ num t.
          Returns-bind
            (for-Returns (Sized 170) len 0 _ (replicate 170 (nought F)) refl
              λ k xs _ b e. state_sample-Returns _ idx_vec len k xs a l (omega arith) m e)
            λ tmp u.
              Returns-bind
                (zero_pole_filter-Returns F tmp 10 num 0 synt_denum sd (2 * len) 10
                  (replicate 170 (nought F)) 10 170 refl (omega arith) (omega arith) (omega arith)
                  (omega arith) (omega arith) d)
                λ fout w.
                  for-Returns (Sized n) len 0 _ out s
                    λ k xs _ b e. folded_sample-Returns fout len o k n xs w (omega arith) m j e
