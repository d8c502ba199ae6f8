-- ===== src/Synthesis.antt =====
-- Filters with a memory: src/syntfilter.go, src/anafilter.go, src/hpinput.go and src/hpoutput.go.
pub mod Total
use i_lbc_go.Prelude.{ℕ, ◌+◌, ◌-◌, Bool, List, [], ◌∷◌, map, Option, some, if◌then◌else◌, leb}
use i_lbc_go.Bitstream.{◌>>=◌}
use i_lbc_go.Arrays.{load, load_back, store, slice, slice_back, blit, for}
use i_lbc_go.Floats.{Decimal, plus, minus, Floats, nought}

abbrev pub hpi_zero_coefs_tbl : List Decimal
hpi_zero_coefs_tbl = plus 92727435 8 ∷ minus 18544941 7 ∷ plus 92727435 8 ∷ []

abbrev pub hpi_pole_coefs_tbl : List Decimal
hpi_pole_coefs_tbl = plus 1 0 ∷ minus 19059465 7 ∷ plus 9114024 7 ∷ []

abbrev pub hpo_zero_coefs_tbl : List Decimal
hpo_zero_coefs_tbl = plus 9398058 7 ∷ minus 18795834 7 ∷ plus 9398058 7 ∷ []

abbrev pub hpo_pole_coefs_tbl : List Decimal
hpo_pole_coefs_tbl = plus 1 0 ∷ minus 19330735 7 ∷ plus 935892 6 ∷ []

module _ (F : Floats) where
  -- The sample `j` before the one at `i` of a frame from `o` on: of the frame, or of the memory before it.
  unfoldable pub history : List F.Float → List F.Float → ℕ → ℕ → ℕ → Option F.Float
  history xs mem o i j = if leb j i then load xs (o + i - j) else load_back mem (10 + i) j

  -- A round of the inner loops of `syntFilter`.
  unfoldable pub synt_step :
      List F.Float → ℕ → List F.Float → ℕ → ℕ → ℕ → List F.Float → Option (List F.Float)
  unfolding history
  synt_step a ao mem o i j out = do
    c ← load a (ao + j)
    y ← history out mem o i j
    x ← load out (o + i)
    store out (o + i) (F.sub x (F.mul c y))

  -- `syntFilter` in place on `len` samples from `o` on, and the new memory.
  unfoldable pub synt_filter :
      List F.Float → ℕ → List F.Float → ℕ → ℕ → List F.Float → Option (List F.Float × List F.Float)
  unfolding synt_step
  synt_filter out o a ao len mem = do
    out ← for 10 0 (λ i out. for 10 1 (synt_step a ao mem o i) out) out
    out ← for (len - 10) 10 (λ i out. for 10 1 (synt_step a ao mem o i) out) out
    l ← slice_back out (o + len) 10 10
    mem ← blit mem 0 l
    some (out, mem)

  -- The body of the outer loops of `anaFilter`.
  unfoldable pub ana_sample :
      List F.Float
      → ℕ
      → List F.Float
      → ℕ
      → List F.Float
      → ℕ
      → ℕ
      → List F.Float
      → Option (List F.Float)
  unfolding history
  ana_sample input o a ao mem oo i out = do
    out ← store out (oo + i) (nought F)
    for 11 0
        (λ j out. do
          c ← load a (ao + j)
          y ← history input mem o i j
          x ← load out (oo + i)
          store out (oo + i) (F.add x (F.mul c y)))
        out

  -- `anaFilter` of `len` samples of `input` from `o` on, into `out` from `oo` on, and the new memory.
  unfoldable pub ana_filter :
      List F.Float
      → ℕ
      → List F.Float
      → ℕ
      → ℕ
      → List F.Float
      → ℕ
      → List F.Float
      → Option (List F.Float × List F.Float)
  unfolding ana_sample
  ana_filter input o a ao len out oo mem = do
    out ← for 10 0 (ana_sample input o a ao mem oo) out
    out ← for (len - 10) 10 (ana_sample input o a ao mem oo) out
    l ← slice_back input (o + len) 10 10
    mem ← blit mem 0 l
    some (out, mem)

  -- A round of the first loop of `hpInput` and of `hpOutput`, on `out` and `mem`.
  unfoldable pub zeros_step :
      List Decimal
      → List F.Float
      → ℕ
      → List F.Float × List F.Float
      → Option (List F.Float × List F.Float)
  zeros_step coefs input i (out, mem) = do
    c0 ← load (map F.constant coefs) 0
    c1 ← load (map F.constant coefs) 1
    c2 ← load (map F.constant coefs) 2
    x ← load input i
    a ← load mem 0
    b ← load mem 1
    out ← store out i (F.add (F.add (F.mul c0 x) (F.mul c1 a)) (F.mul c2 b))
    mem ← store mem 1 a
    mem ← store mem 0 x
    some (out, mem)

  -- A round of the second one.
  unfoldable pub poles_step :
      List Decimal → ℕ → List F.Float × List F.Float → Option (List F.Float × List F.Float)
  poles_step coefs i (out, mem) = do
    c1 ← load (map F.constant coefs) 1
    c2 ← load (map F.constant coefs) 2
    v ← load out i
    a ← load mem 2
    b ← load mem 3
    let y = F.sub (F.sub v (F.mul c1 a)) (F.mul c2 b)
    out ← store out i y
    mem ← store mem 3 a
    mem ← store mem 2 y
    some (out, mem)

  -- Both loops: `out` and `mem`.
  unfoldable pub highpass :
      List Decimal
      → List Decimal
      → List F.Float
      → ℕ
      → List F.Float
      → List F.Float
      → Option (List F.Float × List F.Float)
  unfolding zeros_step poles_step
  highpass zeros poles input len out mem = do
    s ← for len 0 (zeros_step zeros input) (out, mem)
    for len 0 (poles_step poles) s

  unfoldable pub hp_input :
      List F.Float → ℕ → List F.Float → List F.Float → Option (List F.Float × List F.Float)
  unfolding highpass
  hp_input input len out mem = highpass hpi_zero_coefs_tbl hpi_pole_coefs_tbl input len out mem

  unfoldable pub hp_output :
      List F.Float → ℕ → List F.Float → List F.Float → Option (List F.Float × List F.Float)
  unfolding highpass
  hp_output input len out mem = highpass hpo_zero_coefs_tbl hpo_pole_coefs_tbl input len out mem
