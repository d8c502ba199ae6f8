-- ===== src/Tests/Gains.antt =====
-- The quantisers of src/gainquant.go and src/helpfun.go, over whole numbers in place of floats.
use i_lbc_go.Prelude.{ℕ, ◌<◌, ◌≡◌, refl, arith, [], ◌∷◌, some, inl, List, length}
use i_lbc_go.Tests.Whole.{Whole, Whole-IsOrdered}
use i_lbc_go.Gain.{gainquant, gaindequant}
use i_lbc_go.Gain.Agreement.{gaindequant-gainquant}
use i_lbc_go.Gain.Nearest.{Quantised, gainquant_lem}
use i_lbc_go.Quantiser.{split_vq}
use i_lbc_go.Quantiser.Split.{Below, split_vq_lem}

gain_run : gainquant Whole 760000 1000000 8 ≡ some (750000, 6)
unfolding gainquant
gain_run = refl

gaindequant-gainquant_example :
    (g t : ℕ) × (gainquant Whole 760000 1000000 8 ≡ some (g, t))
    × (t < 8)
    × (gaindequant Whole t 1000000 8 ≡ some g)
gaindequant-gainquant_example = gaindequant-gainquant Whole 760000 1000000 8 (inl refl) refl

-- The fourth entry, 0.25, is near enough for the search to end with one.
gainquant_lem_example : Quantised Whole 760000 1000000 8
gainquant_lem_example =
    gainquant_lem Whole Whole-IsOrdered 760000 1000000 8 4 250000 (inl refl) refl refl

-- Two entries of two numbers, then three entries of one.
abbrev codebook : List ℕ
codebook = 9000000 ∷ 9000000 ∷ 4000000 ∷ 5000000 ∷ 1000000 ∷ 2000000 ∷ 3000000 ∷ []

split_vq_run :
    split_vq Whole (4100000 ∷ 5000000 ∷ 3000000 ∷ []) codebook (2 ∷ 1 ∷ []) (2 ∷ 3 ∷ [])
    ≡ some (4000000 ∷ 5000000 ∷ 3000000 ∷ [], 1 ∷ 2 ∷ [])
unfolding split_vq
split_vq_run = refl

split_vq_lem_example :
    (xq index : List ℕ) × (split_vq Whole
        (4100000 ∷ 5000000 ∷ 3000000 ∷ [])
        codebook
        (2 ∷ 1 ∷ [])
        (2 ∷ 3 ∷ [])
      ≡ some (xq, index))
    × (length xq ≡ 3)
    × Below index (2 ∷ 3 ∷ [])
split_vq_lem_example =
    split_vq_lem Whole (4100000 ∷ 5000000 ∷ 3000000 ∷ []) codebook (2 ∷ 1 ∷ []) (2 ∷ 3 ∷ [])
      (omega arith, omega arith, (omega arith, omega arith, tt)) (omega arith) (omega arith)
