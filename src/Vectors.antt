-- ===== src/Vectors.antt =====
-- The helpers of src/helpfun.go that work on vectors.
pub mod Total
use i_lbc_go.Prelude.{ℕ, ◌+◌, ◌-◌, ◌/◌, Bool, List, Option, some, if◌then◌else◌}
use i_lbc_go.Bitstream.{◌>>=◌}
use i_lbc_go.Arrays.{load, load_back, store, store_back, for}
use i_lbc_go.Floats.{plus, Floats, nought, unity}

module _ (F : Floats) where
  -- The body of the outer loop of `autocorr`.
  unfoldable pub lag_sum : List F.Float → ℕ → ℕ → List F.Float → Option (List F.Float)
  lag_sum x length lag r = do
    sum ←
        for (length - lag) 0
          (λ n sum. do a ← load x n; b ← load x (n + lag); some (F.add sum (F.mul a b))) (nought F)
    store r lag sum

  unfoldable pub autocorr : List F.Float → List F.Float → ℕ → ℕ → Option (List F.Float)
  unfolding lag_sum
  autocorr r x length order = for (order + 1) 0 (lag_sum x length) r

  unfoldable pub window : List F.Float → List F.Float → List F.Float → ℕ → Option (List F.Float)
  window z x y length = for length 0 (λ i z. do a ← load x i; b ← load y i; store z i (F.mul a b)) z

  unfoldable pub interpolate :
      List F.Float → List F.Float → List F.Float → ℕ → F.Float → ℕ → Option (List F.Float)
  interpolate out in1 in2 o2 coef length =
      for length 0
        (λ i out. do
          a ← load in1 i
          b ← load in2 (o2 + i)
          store out i (F.add (F.mul coef a) (F.mul (F.sub (unity F) coef) b)))
        out

  -- A round of the loop of `bwexpand`, on `out` and `chirp`.
  unfoldable pub chirp_step :
      List F.Float → ℕ → F.Float → ℕ → List F.Float × F.Float → Option (List F.Float × F.Float)
  chirp_step input oo coef i (out, chirp) = do
    x ← load input i
    out ← store out (oo + i) (F.mul chirp x)
    some (out, F.mul chirp coef)

  -- `bwexpand` into `out` from `oo` on.
  unfoldable pub bwexpand : List F.Float → ℕ → List F.Float → F.Float → ℕ → Option (List F.Float)
  unfolding chirp_step
  bwexpand out oo input coef length = do
    x ← load input 0
    out ← store out oo x
    (out, chirp) ← for (length - 1) 1 (chirp_step input oo coef) (out, coef)
    some out

  -- A round of the loop over the coefficients that two ends share.
  unfoldable pub mirror_step : F.Float → ℕ → ℕ → List F.Float → Option (List F.Float)
  mirror_step k m i a = do
    x ← load a (i + 1)
    y ← load_back a m i
    let sum = F.add x (F.mul k y)
    a ← store_back a m i (F.add y (F.mul k x))
    store a (i + 1) sum

  -- The body of the loop of `levdurb` over the orders, on `a`, `k` and `alpha`.
  unfoldable pub order_step :
      List F.Float
      → ℕ
      → List F.Float × List F.Float × F.Float
      → Option (List F.Float × List F.Float × F.Float)
  unfolding mirror_step
  order_step r m (a, k, alpha) = do
    sum ← load r (m + 1)
    sum ←
        for m 0 (λ i sum. do x ← load a (i + 1); y ← load_back r m i; some (F.add sum (F.mul x y)))
          sum
    let km = F.div (F.neg sum) alpha
    k ← store k m km
    a ← for ((m + 1) / 2) 0 (mirror_step km m) a
    a ← store a (m + 1) km
    some (a, k, F.add alpha (F.mul km sum))

  -- The branch of `levdurb` for a signal without energy.
  unfoldable pub flat_filter :
      List F.Float → List F.Float → ℕ → Option (List F.Float × List F.Float)
  flat_filter a k order =
      for order 0
        (λ i s. do k ← store s.1 i (nought F); a ← store s.0 (i + 1) (nought F); some (a, k)) (a, k)

  -- The other branch; `r0` is `r[0]`.
  unfoldable pub recursion :
      List F.Float
      → List F.Float
      → List F.Float
      → ℕ
      → F.Float
      → Option (List F.Float × List F.Float)
  unfolding order_step
  recursion a k r order r0 = do
    r1 ← load r 1
    let k0 = F.div (F.neg r1) r0
    a ← store a 1 k0
    k ← store k 0 k0
    (a, k, alpha) ← for (order - 1) 1 (order_step r) (a, k, F.add r0 (F.mul r1 k0))
    some (a, k)

  -- `levdurb`: `a` and `k`.
  unfoldable pub levdurb :
      List F.Float → List F.Float → List F.Float → ℕ → Option (List F.Float × List F.Float)
  unfolding flat_filter recursion
  levdurb a k r order = do
    a ← store a 0 (unity F)
    r0 ← load r 0
    if F.less r0 (F.constant (plus 2220446 22))
        then flat_filter a k order
        else recursion a k r order r0
