-- ===== src/Decoder/Flush.antt =====
-- `flushSubnormalHistory` of src/denormal.go.
use i_lbc_go.Prelude.{
  ℕ, ◌%◌, ◌^◌, ◌≤◌, ◌≡◌, refl, arith, false, not, ◌&&◌, List, [], ◌∷◌, All, ltb, ◌==◌, Bool-cases,
  inl, inr, ◌⊎◌,
}
use i_lbc_go.Floats.{Floats, nought}
use i_lbc_go.Decoder.{flushed, flush_subnormal_history}

module _ (F : Floats) where
  -- A zero or a number whose magnitude has at least the bits of 2 ^ -126.
  abbrev pub IsFlushed : F.Float → Type 0
  IsFlushed x = (F.bits x % 2 ^ 31 ≡ 0) ⊎ (2 ^ 23 ≤ F.bits x % 2 ^ 31)

  small : (n : ℕ) → not (n == 0) && ltb n (2 ^ 23) ≡ false → (n ≡ 0) ⊎ (2 ^ 23 ≤ n)
  small n e = ground arith

  flushed-IsFlushed : F.bits (nought F) % 2 ^ 31 ≡ 0 → (x : F.Float) → IsFlushed (flushed F x)
  unfolding flushed
  flushed-IsFlushed z x =
      let n = F.bits x % 2 ^ 31 in
      elim (Bool-cases (not (n == 0) && ltb n (2 ^ 23))) [
        | inl e ↦ rw e (inl z)
        | inr e ↦ rw e (small n e)
      ]

  flushed-id : (x : F.Float) → IsFlushed x → flushed F x ≡ x
  unfolding flushed
  flushed-id x h =
      let n = F.bits x % 2 ^ 31 in
      let e : (not (n == 0) && ltb n (2 ^ 23)) ≡ false = large n h in rw e refl
    where
      large : (n : ℕ) → (n ≡ 0) ⊎ (2 ^ 23 ≤ n) → (not (n == 0) && ltb n (2 ^ 23)) ≡ false
      large n h = ground arith

  -- Where the bits of `float32(0)` are those of a zero: after the flush no entry is subnormal, and a history
  -- without subnormal entries stays as it is.
  pub flush_subnormal_history_lem :
      (history : List F.Float)
      → F.bits (nought F) % 2 ^ 31 ≡ 0
      → All IsFlushed (flush_subnormal_history F history)
        × (All IsFlushed history → flush_subnormal_history F history ≡ history)
  unfolding flush_subnormal_history
  flush_subnormal_history_lem [] z = (tt, λ _. refl)
  flush_subnormal_history_lem (x ∷ xs) z =
      let (a, b) = flush_subnormal_history_lem xs z in
      ((flushed-IsFlushed z x, a), λ (p, q). rw (flushed-id x p, b q) refl)
