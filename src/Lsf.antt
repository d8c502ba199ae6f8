-- ===== src/Lsf.antt =====
-- Line spectral frequencies: `checkLSF` of src/helpfun.go and `lsf2a` of src/lsf.go.
pub mod Total
pub mod Range
use i_lbc_go.Prelude.{
  ℕ, ◌+◌, ◌-◌, ◌*◌, Bool, ◌||◌, List, [], ◌∷◌, replicate, Option, some, if◌then◌else◌, ◌==◌,
}
use i_lbc_go.Bitstream.{◌>>=◌}
use i_lbc_go.Arrays.{load, load_back, store, for}
use i_lbc_go.Floats.{plus, minus, Floats, nought, unity}

module _ (F : Floats) where
  -- The first test of `checkLSF`: two neighbours that are too close are moved apart.
  unfoldable pub apart : ℕ → List F.Float × ℕ → Option (List F.Float × ℕ)
  apart pos (lsf, change) = do
    x ← load lsf pos
    y ← load lsf (pos + 1)
    let eps2 = F.constant (plus 195 4)
    (if F.less (F.sub y x) (F.constant (plus 39 3))
        then (if F.less y x
            then (store lsf (pos + 1) (F.add x eps2) >>= λ lsf.
                store lsf pos (F.sub (F.add x eps2) eps2) >>= λ lsf. some (lsf, 1))
            else (store lsf pos (F.sub x eps2) >>= λ lsf.
                store lsf (pos + 1) (F.add y eps2) >>= λ lsf. some (lsf, 1)))
        else some (lsf, change))

  -- The two tests on the range.
  unfoldable pub raised : ℕ → List F.Float × ℕ → Option (List F.Float × ℕ)
  raised pos (lsf, change) = do
    x ← load lsf pos
    (if F.less x (F.constant (plus 1 2))
        then (store lsf pos (F.constant (plus 1 2)) >>= λ lsf. some (lsf, 1))
        else some (lsf, change))

  unfoldable pub lowered : ℕ → List F.Float × ℕ → Option (List F.Float × ℕ)
  lowered pos (lsf, change) = do
    x ← load lsf pos
    (if F.less (F.constant (plus 314 2)) x
        then (store lsf pos (F.constant (plus 314 2)) >>= λ lsf. some (lsf, 1))
        else some (lsf, change))

  -- The body of the loops, on `lsf` and `change`.
  unfoldable pub check_pair : ℕ → List F.Float × ℕ → Option (List F.Float × ℕ)
  unfolding apart raised lowered
  check_pair pos s = do s ← apart pos s; s ← raised pos s; lowered pos s

  -- `checkLSF`: the frequencies and the result.
  unfoldable pub check_lsf : List F.Float → ℕ → ℕ → Option (List F.Float × ℕ)
  unfolding check_pair
  check_lsf lsf dim no_an =
      for 2 0 (λ n s. for no_an 0 (λ m s. for (dim - 1) 0 (λ k s. check_pair (m * dim + k) s) s) s)
        (lsf, 0)

  -- The frequencies of `lsf2a` where the first or the last one is out of range.
  unfoldable pub spread : List F.Float → Option (List F.Float)
  spread freq = do
    x ← load freq 0
    freq ← (if F.at_most x (plus 0 0) then store freq 0 (F.constant (plus 22 3)) else some freq)
    y ← load freq 9
    freq ← (if F.at_least y (plus 5 1) then store freq 9 (F.constant (plus 499 3)) else some freq)
    y ← load freq 9
    x ← load freq 0
    let hlp = F.div (F.sub y x) (F.constant (plus 9 0))
    for 9 1 (λ i freq. do v ← load_back freq i 1; store freq i (F.add v hlp)) freq

  -- `freq` in place: scaled, and spread where needed.
  unfoldable pub scaled_frequencies : List F.Float → Option (List F.Float)
  unfolding spread
  scaled_frequencies freq = do
    freq ←
        for 10 0
          (λ i freq. do v ← load freq i; store freq i (F.mul v (F.constant (plus 15915494 8)))) freq
    x ← load freq 0
    y ← load freq 9
    if F.at_most x (plus 0 0) || F.at_least y (plus 5 1) then spread freq else some freq

  -- The arrays `a`, `a1` and `a2`, or `b`, `b1` and `b2`.
  pub record Half : Type 0 where
    pub sums : List F.Float
    pub one : List F.Float
    pub two : List F.Float

  -- What a round of the loop of `lsf2a` does with one half.
  unfoldable pub half_step : List F.Float → ℕ → Half → Option Half
  half_step p i h = do
    x ← load h.sums i
    c ← load p i
    x1 ← load h.one i
    x2 ← load h.two i
    sums ← store h.sums (i + 1) (F.add (F.sub x (F.mul (F.mul (F.constant (plus 2 0)) c) x1)) x2)
    two ← store h.two i x1
    one ← store h.one i x
    some (record { sums = sums; one = one; two = two })

  -- The input of one half, and the loop.
  unfoldable pub half_round : List F.Float → F.Float → Half → Option Half
  unfolding half_step
  half_round p x h = do sums ← store h.sums 0 x; for 5 0 (half_step p) (record h { sums = sums })

  -- `cos` of every other frequency from `o` on: `p` or `q`.
  unfoldable pub cosines : List F.Float → ℕ → Option (List F.Float)
  cosines freq o =
      for 5 0
        (λ i p. do
          v ← load freq (2 * i + o)
          store p i (F.cos (F.mul (F.constant (plus 62831855 7)) v)))
        (replicate 5 (nought F))

  -- The body of the loop over the coefficients.
  unfoldable pub coefficient :
      List F.Float
      → List F.Float
      → ℕ
      → List F.Float × Half × Half
      → Option (List F.Float × Half × Half)
  unfolding half_round
  coefficient p q j (a_coef, a, b) = do
    a ← half_round p (F.constant (if j == 0 then plus 25 2 else plus 0 0)) a
    b ← half_round q (F.constant (if j == 0 then minus 25 2 else plus 0 0)) b
    x ← load a.sums 5
    y ← load b.sums 5
    a_coef ← store a_coef (j + 1) (F.mul (F.constant (plus 2 0)) (F.add x y))
    some (a_coef, a, b)

  -- `lsf2a`: the coefficients.
  unfoldable pub lsf2a : List F.Float → List F.Float → Option (List F.Float)
  unfolding scaled_frequencies cosines coefficient
  lsf2a a_coef freq = do
    freq ← scaled_frequencies freq
    p ← cosines freq 0
    q ← cosines freq 1
    let start : Half = record {
      sums = replicate 6 (nought F);
      one = replicate 5 (nought F);
      two = replicate 5 (nought F);
    }
    a ← half_round p (F.constant (plus 25 2)) start
    b ← half_round q (F.constant (plus 25 2)) start
    (a_coef, a, b) ← for 10 0 (coefficient p q) (a_coef, a, b)
    store a_coef 0 (unity F)
