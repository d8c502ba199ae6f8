-- ===== src/StateSearch.antt =====
-- The quantiser of the start state: src/statesearchw.go, and `sortSq` of src/helpfun.go.
pub mod Levels
use i_lbc_go.Prelude.{
  ℕ, zero, suc, ◌+◌, ◌-◌, ◌*◌, Bool, ◌&&◌, not, List, map, replicate, Option, none, some,
  if◌then◌else◌, ltb, ◌==◌,
}
use i_lbc_go.Bitstream.{◌>>=◌}
use i_lbc_go.Arrays.{load, load_back, store, slice, blit, for}
use i_lbc_go.Floats.{plus, Floats, nought}
use i_lbc_go.Filter.{all_pole_filter, zero_pole_filter}
use i_lbc_go.StartState.{state_sq3_tbl, state_frgq_tbl, reversed_coefficients}

-- The arrays of `absQuantW`, and how far `weightDenum` has moved.
pub record Quantising (F : Floats) : Type 0 where
  pub input : List F.Float
  pub synt_out : List F.Float
  pub out : List ℕ
  pub moved : ℕ

-- Where the second subframe of the state starts.
abbrev pub boundary : ℕ → ℕ → ℕ
boundary short state_first = if state_first == 0 then short - 40 else 40

module _ (F : Floats) where
  -- The loop of `sortSq` from `i` on, by fuel; `none` without fuel.
  unfoldable pub ascend : F.Float → List F.Float → ℕ → ℕ → ℕ → Option ℕ
  ascend x cb cb_size zero i = none
  ascend x cb cb_size (suc fuel) i = do
    c ← load cb i
    if F.less c x && ltb i (cb_size - 1) then ascend x cb cb_size fuel (i + 1) else some i

  -- The choice between the neighbours at `i-1` and `i`.
  unfoldable pub nearer : F.Float → List F.Float → ℕ → Option (F.Float × ℕ)
  nearer x cb i = do
    a ← load cb i
    b ← load_back cb i 1
    some (if F.less (F.div (F.add a b) (F.constant (plus 2 0))) x then (a, i) else (b, i - 1))

  -- `sortSq`: `xq` and `index`.
  unfoldable pub sort_sq : F.Float → List F.Float → ℕ → Option (F.Float × ℕ)
  unfolding ascend nearer
  sort_sq x cb cb_size = do
    c ← load cb 0
    if F.less_eq x c then some (c, 0) else (ascend x cb cb_size cb_size 0 >>= nearer x cb)

  -- A round of the loop of `absQuantW` up to the filtered input.
  unfoldable pub next_subframe :
      ℕ → List F.Float → ℕ → ℕ → ℕ → ℕ → Quantising F → Option (Quantising F)
  unfolding all_pole_filter
  next_subframe io weight wo len split n q =
      if n == split
      then (all_pole_filter F q.input (io + n) weight (wo + (q.moved + 11)) (len - n) 10
          >>= λ input. some (record q { input = input; moved = q.moved + 11 }))
      else some q

  -- The rest of the round: `n` is quantised.
  unfoldable pub quantise_sample : ℕ → List F.Float → ℕ → ℕ → Quantising F → Option (Quantising F)
  unfolding all_pole_filter sort_sq
  quantise_sample io weight wo n q = do
    synt_out ← store q.synt_out (10 + n) (nought F)
    synt_out ← all_pole_filter F synt_out (10 + n) weight (wo + q.moved) 1 10
    x ← load q.input (io + n)
    y ← load synt_out (10 + n)
    (xq, index) ← sort_sq (F.sub x y) (map F.constant state_sq3_tbl) 8
    out ← store q.out n index
    v ← load (map F.constant state_sq3_tbl) index
    synt_out ← store synt_out (10 + n) v
    synt_out ← all_pole_filter F synt_out (10 + n) weight (wo + q.moved) 1 10
    some (record q { synt_out = synt_out; out = out })

  -- `absQuantW`: `out`.
  unfoldable pub abs_quant_w :
      ℕ → List F.Float → ℕ → List F.Float → ℕ → List ℕ → ℕ → ℕ → Option (List ℕ)
  unfolding next_subframe quantise_sample
  abs_quant_w short input io weight wo out len state_first = do
    let split = boundary short state_first
    input ← all_pole_filter F input io weight wo split 10
    q ←
        for len 0
          (λ n q. next_subframe io weight wo len split n q >>= quantise_sample io weight wo n)
          (record { input = input; synt_out = replicate 68 (nought F); out = out; moved = 0 })
    some q.out

  -- The response of the filter to the state, with its tail folded in: `fout`.
  unfoldable pub folded_response : List F.Float → ℕ → List F.Float → ℕ → ℕ → Option (List F.Float)
  unfolding zero_pole_filter reversed_coefficients
  folded_response residual ro synt so len = do
    numerator ← reversed_coefficients F synt so
    r ← slice residual ro len
    tmpbuf ← blit (replicate 126 (nought F)) 10 r
    tmpbuf ← blit tmpbuf (10 + len) (replicate len (nought F))
    fout ←
        zero_pole_filter F tmpbuf 10 numerator 0 synt so (2 * len) 10 (replicate 126 (nought F)) 10
    for len 0
        (λ k fout. do
          x ← load fout (10 + k)
          y ← load fout (10 + k + len)
          store fout (10 + k) (F.add x y))
        fout

  -- The sample of the largest magnitude.
  unfoldable pub largest : List F.Float → ℕ → Option F.Float
  largest fout len = do
    x ← load fout 10
    for (len - 1) 1
        (λ k max_val. do
          y ← load fout (10 + k)
          some (if F.less (F.mul max_val max_val) (F.mul y y) then y else max_val))
        x

  -- `stateSearchW`: `idxForMax` and `idxVec`.
  unfoldable pub state_search_w :
      ℕ
      → List F.Float
      → ℕ
      → List F.Float
      → ℕ
      → List F.Float
      → ℕ
      → List ℕ
      → ℕ
      → ℕ
      → Option (ℕ × List ℕ)
  unfolding folded_response largest sort_sq abs_quant_w
  state_search_w short residual ro synt so weight wo idx_vec len state_first = do
    fout ← folded_response residual ro synt so len
    x ← largest fout len
    let max_val = F.abs x
    let bounded = (if F.below max_val (plus 10 0) then F.constant (plus 10 0) else max_val)
    (xq, idx_for_max) ← sort_sq (F.log10 bounded) (map F.constant state_frgq_tbl) 64
    v ← load (map F.constant state_frgq_tbl) idx_for_max
    let scal = F.div (F.constant (plus 45 1)) (F.power10 v)
    fout ← for len 0 (λ k fout. do x ← load fout (10 + k); store fout (10 + k) (F.mul x scal)) fout
    idx_vec ← abs_quant_w short fout 10 weight wo idx_vec len state_first
    some (idx_for_max, idx_vec)
