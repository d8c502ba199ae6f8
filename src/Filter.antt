-- ===== src/Filter.antt =====
-- The filters of src/filter.go over arrays. A `span` is an array and an offset into it.
pub mod Total
use i_lbc_go.Prelude.{ℕ, ◌+◌, ◌-◌, ◌*◌, ◌/◌, Bool, List, Option, some, if◌then◌else◌, ltb}
use i_lbc_go.Bitstream.{◌>>=◌}
use i_lbc_go.Arrays.{load, load_back, store, minus_length, for}
use i_lbc_go.Floats.{Floats, nought}

module _ (F : Floats) where
  -- A round of the inner loop of `allPoleFilter`: `k`, at the position `i`.
  unfoldable pub pole_step : List F.Float → ℕ → ℕ → ℕ → List F.Float → Option (List F.Float)
  pole_step coef co i k in_out = do
    x ← load in_out i
    c ← load coef (co + k)
    y ← load_back in_out i k
    store in_out i (F.sub x (F.mul c y))

  -- `allPoleFilter` on `in_out` from `io` on, with the coefficients `coef` from `co` on.
  unfoldable pub all_pole_filter :
      List F.Float → ℕ → List F.Float → ℕ → ℕ → ℕ → Option (List F.Float)
  unfolding pole_step
  all_pole_filter in_out io coef co length_in_out order_coef =
      for length_in_out 0 (λ n in_out. for order_coef 1 (pole_step coef co (io + n)) in_out) in_out

  unfoldable pub zero_step :
      List F.Float → ℕ → List F.Float → ℕ → ℕ → ℕ → List F.Float → Option (List F.Float)
  zero_step input i coef co o k out = do
    v ← load out o
    c ← load coef (co + k)
    y ← load_back input i k
    store out o (F.add v (F.mul c y))

  -- The body of the loop of `allZeroFilter`.
  unfoldable pub zero_round :
      List F.Float → ℕ → List F.Float → ℕ → ℕ → ℕ → List F.Float → Option (List F.Float)
  unfolding zero_step
  zero_round input i coef co order_coef o out = do
    c ← load coef co
    x ← load input i
    out ← store out o (F.mul c x)
    for order_coef 1 (zero_step input i coef co o) out

  -- `allZeroFilter` of `input` from `ii` on into `out`, another array, from `oo` on.
  unfoldable pub all_zero_filter :
      List F.Float → ℕ → List F.Float → ℕ → ℕ → ℕ → List F.Float → ℕ → Option (List F.Float)
  unfolding zero_round
  all_zero_filter input ii coef co length_in_out order_coef out oo =
      for length_in_out 0 (λ n out. zero_round input (ii + n) coef co order_coef (oo + n) out) out

  unfoldable pub zero_pole_filter :
      List F.Float
      → ℕ
      → List F.Float
      → ℕ
      → List F.Float
      → ℕ
      → ℕ
      → ℕ
      → List F.Float
      → ℕ
      → Option (List F.Float)
  unfolding all_zero_filter all_pole_filter
  zero_pole_filter input ii zero_coef zo pole_coef po length_in_out order_coef out oo = do
    out ← all_zero_filter input ii zero_coef zo length_in_out order_coef out oo
    all_pole_filter out oo pole_coef po length_in_out order_coef

  -- A term of an output of `downSample`: the product of a coefficient and a sample is added to `o`.
  unfoldable pub down_term : List F.Float → List F.Float → ℕ → ℕ → ℕ → F.Float → Option F.Float
  down_term coef xs c i j o = do
    a ← load coef (c + j)
    x ← load_back xs i j
    some (F.add o (F.mul a x))

  -- A round of its first loop, for `i`: samples of `in` from `ii` on, and of the state before them.
  unfoldable pub down_round :
      List F.Float → ℕ → List F.Float → List F.Float → ℕ → ℕ → List F.Float → Option (List F.Float)
  unfolding down_term
  down_round input ii coef state i p out = do
    let stop = (if ltb i 7 then i + 1 else 7)
    o ← for stop 0 (down_term coef input 0 (ii + i)) (nought F)
    o ← for (6 - i) 0 (down_term coef state (i + 1) 5) o
    store out p o

  -- `downSample` of `length_in` samples into `out`: one output for `i` 3, 5 and so on, and one of the tail.
  unfoldable pub down_sample :
      List F.Float → ℕ → List F.Float → ℕ → List F.Float → List F.Float → Option (List F.Float)
  unfolding down_round
  down_sample input ii coef length_in state out = do
    let rounds = (length_in - 2) / 2
    out ← for rounds 0 (λ m out. down_round input ii coef state (3 + 2 * m) m out) out
    last ← minus_length length_in 1
    o ← for 5 0 (down_term coef input 2 (ii + last)) (nought F)
    store out rounds o
