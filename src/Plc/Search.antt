-- ===== src/Plc/Search.antt =====
-- The search for a lag (src/docplc.go) stays within the last residual.
use i_lbc_go.Prelude.{
  ℕ, ◌+◌, ◌-◌, ◌≤◌, arith, List, length, if◌then◌else◌, ltb, Bool-cases, inl, inr,
}
use i_lbc_go.Arrays.{Returns, returned, Returns-bind, Any, load_back-Returns, for-Returns}
use i_lbc_go.Floats.{Floats}
use i_lbc_go.Plc.{Match, comp_corr, corr_step, better_match, best_match}

module _ (F : Floats) where
  comp_corr-Returns :
      (buffer : List F.Float) (lag b_len s_range : ℕ)
      → lag + s_range ≤ b_len + s_range
      → s_range ≤ b_len
      → b_len ≤ length buffer
      → Returns Any (comp_corr F buffer lag b_len s_range)
  unfolding comp_corr corr_step
  comp_corr-Returns buffer lag b_len s_range a b h =
      let r = (if ltb b_len (s_range + lag) then b_len - lag else s_range) in
      let le : r + lag ≤ b_len = range_le b_len s_range lag (omega arith) in
      Returns-bind
        (for-Returns Any r 0 _ _ tt λ k t _ c _.
          Returns-bind
            (load_back-Returns buffer (b_len + k) r (omega (arith, le)) (omega (arith, c, h)))
            λ x _.
              Returns-bind
                (load_back-Returns buffer (b_len + k) (r + lag) (omega (arith, le))
                  (omega (arith, c, h)))
                λ y _. returned tt)
        λ t _. returned tt
    where
      range_le : (b s l : ℕ) → l ≤ b → (if ltb b (s + l) then b - l else s) + l ≤ b
      range_le b s l h = ground arith

  -- A lag that the search can end with.
  abbrev pub IsNear : ℕ → Match F → Type 0
  IsNear inlag m = (inlag ≤ m.lag + 3) × (m.lag ≤ inlag + 3)

  better_match-Returns :
      (buffer : List F.Float) (b_len i inlag : ℕ) (m : Match F)
      → i ≤ b_len
      → 60 ≤ b_len
      → b_len ≤ length buffer
      → inlag ≤ i + 3
      → i ≤ inlag + 3
      → IsNear inlag m
      → Returns (IsNear inlag) (better_match F buffer b_len i m)
  unfolding better_match
  better_match-Returns buffer b_len i inlag m a b h c d n =
      Returns-bind (comp_corr-Returns buffer i b_len 60 (omega arith) b h) λ (cc, gain, per) _.
        elim (Bool-cases (F.less m.cc cc)) [
          | inl e ↦ rw e (returned (c, d))
          | inr e ↦ rw e (returned n)
        ]

  pub best_match-Returns :
      (buffer : List F.Float) (b_len inlag : ℕ)
      → 3 ≤ inlag
      → inlag + 3 ≤ b_len
      → 60 ≤ b_len
      → b_len ≤ length buffer
      → Returns (IsNear inlag) (best_match F buffer b_len inlag)
  unfolding best_match
  best_match-Returns buffer b_len inlag a l b h =
      Returns-bind (comp_corr-Returns buffer (inlag - 3) b_len 60 (omega arith) b h)
        λ (cc, gain, per) _.
          for-Returns (IsNear inlag) 6 (inlag - 2) _ _ (omega arith, omega arith)
            λ k m c d n.
              better_match-Returns buffer b_len k inlag m (omega arith) b h (omega arith)
                (omega arith) n
