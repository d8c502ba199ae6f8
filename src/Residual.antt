-- ===== src/Residual.antt =====
-- The residual of a received frame: `decode` of src/ilbc_decode.go. The start state is rebuilt, then the
-- rest of its two subframes, the subframes after them, and, in reversed time, those before them.
pub mod Phases
pub mod Total
pub mod Fields
pub mod Received
use i_lbc_go.Prelude.{
  ℕ, ◌+◌, ◌-◌, ◌*◌, Bool, List, [], ◌∷◌, Option, some, replicate, if◌then◌else◌, ltb, ◌==◌,
}
use i_lbc_go.Bitstream.{◌>>=◌}
use i_lbc_go.Arrays.{load, load_back, store, store_back, slice, blit, minus_length, for}
use i_lbc_go.Floats.{Floats, nought}
use i_lbc_go.Layout.{FrameShape}
use i_lbc_go.Frame.{Indices}
use i_lbc_go.StartState.{state_construct_w}
use i_lbc_go.Codebook.{construct_codebook}

abbrev pub st_mem_l_tbl : ℕ
st_mem_l_tbl = 85

abbrev pub mem_lf_tbl : List ℕ
mem_lf_tbl = 147 ∷ 147 ∷ 147 ∷ 147 ∷ []

-- The local arrays of `decode`, the residual that it writes, and `subcount`.
pub record Decoding (F : Floats) : Type 0 where
  pub mem : List F.Float
  pub residual : List F.Float
  pub reversed : List F.Float
  pub subcount : ℕ

module _ (F : Floats) where
  -- `mem[146-k] = decresidual[o+k]` for `count` values of `k`, and zeros below.
  unfoldable pub reversed_memory : List F.Float → ℕ → ℕ → List F.Float → Option (List F.Float)
  reversed_memory residual o count mem = do
    mem ← for count 0 (λ k mem. do v ← load residual (o + k); store_back mem 146 k v) mem
    rest ← minus_length 147 count
    blit mem 0 (replicate rest (nought F))

  -- `mem` moves on by the subframe of `from` at `o`.
  unfoldable pub shifted_memory : List F.Float → List F.Float → ℕ → Option (List F.Float)
  shifted_memory mem from o = do
    m ← slice mem 40 107
    mem ← blit mem 0 m
    v ← slice from o 40
    blit mem 107 v

  -- The rest of the two start subframes, where the state comes first.
  unfoldable pub extra_after : Indices → ℕ → ℕ → ℕ → Decoding F → Option (Decoding F)
  unfolding construct_codebook
  extra_after f start_pos len diff d = do
    rest ← minus_length 147 len
    mem ← blit d.mem 0 (replicate rest (nought F))
    state ← slice d.residual start_pos len
    mem ← blit mem rest state
    residual ←
        construct_codebook F d.residual (start_pos + len) f.extra_cb_index 0 f.extra_gain_index 0
          mem (147 - st_mem_l_tbl) st_mem_l_tbl diff 3
    some (record d { mem = mem; residual = residual })

  -- The same where it comes last, in reversed time. `end` is `(start+1)*40`.
  unfoldable pub extra_before : Indices → ℕ → ℕ → ℕ → ℕ → Decoding F → Option (Decoding F)
  unfolding construct_codebook reversed_memory
  extra_before f end start_pos len diff d = do
    reversed ←
        for diff 0
          (λ k reversed. do v ← load_back d.residual end (1 + (k + len)); store reversed k v)
          d.reversed
    mem ← reversed_memory d.residual start_pos len d.mem
    reversed ←
        construct_codebook F reversed 0 f.extra_cb_index 0 f.extra_gain_index 0 mem
          (147 - st_mem_l_tbl) st_mem_l_tbl diff 3
    residual ←
        for diff 0 (λ k residual. do v ← load reversed k; store_back residual start_pos (1 + k) v)
          d.residual
    some (record d { mem = mem; residual = residual; reversed = reversed })

  -- A subframe after the start state.
  unfoldable pub forward_step : Indices → ℕ → ℕ → Decoding F → Option (Decoding F)
  unfolding construct_codebook shifted_memory
  forward_step f start subframe d = do
    let o = (start + 1 + subframe) * 40
    l ← load mem_lf_tbl d.subcount
    back ← minus_length 147 l
    residual ←
        construct_codebook F d.residual o f.cb_index (d.subcount * 3) f.gain_index (d.subcount * 3)
          d.mem back l 40 3
    mem ← shifted_memory d.mem residual o
    some (record d { mem = mem; residual = residual; subcount = d.subcount + 1 })

  unfoldable pub forward : Indices → ℕ → ℕ → ℕ → Decoding F → Option (Decoding F)
  unfolding forward_step
  forward f start previous nfor d = do
    mem ← blit d.mem 0 (replicate 67 (nought F))
    state ← slice d.residual (previous * 40) 80
    mem ← blit mem 67 state
    for nfor 0 (forward_step f start) (record d { mem = mem })

  -- A subframe before the start state, in reversed time.
  unfoldable pub backward_step : Indices → ℕ → Decoding F → Option (Decoding F)
  unfolding construct_codebook shifted_memory
  backward_step f subframe d = do
    let o = subframe * 40
    l ← load mem_lf_tbl d.subcount
    back ← minus_length 147 l
    reversed ←
        construct_codebook F d.reversed o f.cb_index (d.subcount * 3) f.gain_index (d.subcount * 3)
          d.mem back l 40 3
    mem ← shifted_memory d.mem reversed o
    some (record d { mem = mem; reversed = reversed; subcount = d.subcount + 1 })

  unfoldable pub backward : Indices → ℕ → ℕ → ℕ → Decoding F → Option (Decoding F)
  unfolding backward_step reversed_memory
  backward f gotten previous nback d = do
    mem ← reversed_memory d.residual (previous * 40) (if ltb 147 gotten then 147 else gotten) d.mem
    d ← for nback 0 (backward_step f) (record d { mem = mem })
    residual ←
        for (40 * nback) 0
          (λ i residual. do v ← load d.reversed i; store_back residual (40 * nback) (1 + i) v)
          d.residual
    some (record d { residual = residual })

  -- `decode`: the residual. `start` 0 is a panic by a negative offset.
  unfoldable pub decode : FrameShape → Indices → List F.Float → List F.Float → Option (List F.Float)
  unfolding state_construct_w extra_after extra_before forward backward
  decode s f syntdenum residual = do
    let len = s.short_state_samples
    diff ← minus_length 80 len
    previous ← minus_length f.start 1
    let start_pos = (if f.state_first == 1 then previous * 40 else previous * 40 + diff)
    residual ←
        state_construct_w F f.idx_for_max f.idx_vec syntdenum (previous * 11) residual start_pos len
    let d : Decoding F = record {
      mem = replicate 147 (nought F);
      residual = residual;
      reversed = replicate 240 (nought F);
      subcount = 0;
    }
    d ←
        (if f.state_first == 0
          then extra_before f ((f.start + 1) * 40) start_pos len diff d
          else extra_after f start_pos len diff d)
    let nfor = s.subframes - f.start - 1
    d ← (if ltb 0 nfor then forward f f.start previous nfor d else some d)
    d ←
        (if ltb 0 previous
          then backward f (40 * (s.subframes + 1 - f.start)) previous previous d
          else some d)
    some d.residual
