-- ===== src/StartState.antt =====
-- The start state of a frame: `stateConstructW` of src/stateconstructw.go, with the tables of
-- src/constants.go. A local array of the source starts with zeros.
pub mod Construct
use i_lbc_go.Prelude.{ℕ, ◌+◌, ◌-◌, ◌*◌, List, [], ◌∷◌, Option, map, replicate}
use i_lbc_go.Bitstream.{◌>>=◌}
use i_lbc_go.Arrays.{load, load_back, store, for}
use i_lbc_go.Floats.{Decimal, plus, minus, Floats, nought}
use i_lbc_go.Filter.{zero_pole_filter}

abbrev pub state_sq3_tbl : List Decimal
state_sq3_tbl =
    minus 3719849 6
    ∷ minus 217749 5
    ∷ minus 1130005 6
    ∷ minus 309692 6
    ∷ plus 444214 6
    ∷ plus 1329712 6
    ∷ plus 2436279 6
    ∷ plus 3983887 6
    ∷ []

abbrev pub state_frgq_tbl : List Decimal
state_frgq_tbl =
    plus 1000085 6
    ∷ plus 1071695 6
    ∷ plus 1140395 6
    ∷ plus 1206868 6
    ∷ plus 1277188 6
    ∷ plus 1351503 6
    ∷ plus 142938 5
    ∷ plus 1500727 6
    ∷ plus 1569049 6
    ∷ plus 1639599 6
    ∷ plus 1707071 6
    ∷ plus 1781531 6
    ∷ plus 1840799 6
    ∷ plus 190155 5
    ∷ plus 1956695 6
    ∷ plus 200675 5
    ∷ plus 2055474 6
    ∷ plus 2102787 6
    ∷ plus 2142819 6
    ∷ plus 2183592 6
    ∷ plus 2217962 6
    ∷ plus 2257177 6
    ∷ plus 2295739 6
    ∷ plus 2332967 6
    ∷ plus 2369248 6
    ∷ plus 2402792 6
    ∷ plus 243508 5
    ∷ plus 2468598 6
    ∷ plus 2503394 6
    ∷ plus 2539284 6
    ∷ plus 2572944 6
    ∷ plus 2605036 6
    ∷ plus 2636331 6
    ∷ plus 2668939 6
    ∷ plus 269878 5
    ∷ plus 2729101 6
    ∷ plus 2759786 6
    ∷ plus 2789834 6
    ∷ plus 2818679 6
    ∷ plus 2848074 6
    ∷ plus 287747 5
    ∷ plus 2906899 6
    ∷ plus 2936655 6
    ∷ plus 2967804 6
    ∷ plus 3000115 6
    ∷ plus 3033367 6
    ∷ plus 3066355 6
    ∷ plus 3104231 6
    ∷ plus 3141499 6
    ∷ plus 3183012 6
    ∷ plus 3222952 6
    ∷ plus 3265433 6
    ∷ plus 3308441 6
    ∷ plus 3350823 6
    ∷ plus 3395275 6
    ∷ plus 3442793 6
    ∷ plus 3490801 6
    ∷ plus 3542514 6
    ∷ plus 3604064 6
    ∷ plus 366605 5
    ∷ plus 3740994 6
    ∷ plus 3830749 6
    ∷ plus 393877 5
    ∷ plus 4101764 6
    ∷ []

module _ (F : Floats) where
  -- `numerator`: the coefficients from `sd` on in the other order.
  unfoldable pub reversed_coefficients : List F.Float → ℕ → Option (List F.Float)
  reversed_coefficients synt_denum sd = do
    numerator ←
        for 10 0 (λ k numerator. do c ← load_back synt_denum (sd + 10) k; store numerator k c)
          (replicate 11 (nought F))
    c ← load synt_denum sd
    store numerator 10 c

  -- A round of the loop that fills `tmp`, which stands at offset 10 of `tmpbuf`.
  unfoldable pub state_sample : F.Float → List ℕ → ℕ → ℕ → List F.Float → Option (List F.Float)
  state_sample max_val idx_vec len k tmpbuf = do
    q ← load_back idx_vec (len - 1) k
    v ← load (map F.constant state_sq3_tbl) q
    store tmpbuf (10 + k) (F.mul max_val v)

  -- A round of the loop that folds `fout`, at offset 10 of `foutbuf`, into `out`.
  unfoldable pub folded_sample : List F.Float → ℕ → ℕ → ℕ → List F.Float → Option (List F.Float)
  folded_sample foutbuf len o k out = do
    a ← load_back foutbuf (10 + len - 1) k
    b ← load_back foutbuf (10 + 2 * len - 1) k
    store out (o + k) (F.add a b)

  -- `stateConstructW`: `out` from `o` on.
  unfoldable pub state_construct_w :
      ℕ → List ℕ → List F.Float → ℕ → List F.Float → ℕ → ℕ → Option (List F.Float)
  unfolding reversed_coefficients state_sample folded_sample zero_pole_filter
  state_construct_w idx_for_max idx_vec synt_denum sd out o len = do
    max_val ← load (map F.constant state_frgq_tbl) idx_for_max
    let max_val = F.div (F.power10 max_val) (F.constant (plus 45 1))
    numerator ← reversed_coefficients synt_denum sd
    tmpbuf ← for len 0 (state_sample max_val idx_vec len) (replicate 170 (nought F))
    foutbuf ←
        zero_pole_filter F tmpbuf 10 numerator 0 synt_denum sd (2 * len) 10
          (replicate 170 (nought F)) 10
    for len 0 (folded_sample foutbuf len o) out
