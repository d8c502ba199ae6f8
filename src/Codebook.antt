-- ===== src/Codebook.antt =====
-- The vectors of the adaptive codebook: `getCBvec` of src/getcbvec.go and `constructCodebook` of
-- src/icbconstruct.go. The memory is the part of an array from an offset on; `cbvec` is a local
-- array of 40, of which the first `cbveclen` are the vector.
pub mod Vector
pub mod Construct
use i_lbc_go.Prelude.{
  ℕ, ◌+◌, ◌-◌, ◌*◌, ◌/◌, Bool, List, [], ◌∷◌, Option, none, some, map, replicate, if◌then◌else◌,
  ltb, ◌==◌,
}
use i_lbc_go.Bitstream.{◌>>=◌}
use i_lbc_go.Arrays.{load, load_back, store, slice, slice_back, blit, minus_length, for}
use i_lbc_go.Floats.{Decimal, plus, minus, Floats, nought, unity}
use i_lbc_go.Gain.{gaindequant}

abbrev pub cbfilters_tbl : List Decimal
cbfilters_tbl =
    minus 3418 5
    ∷ plus 108887 6
    ∷ minus 184326 6
    ∷ plus 806152 6
    ∷ plus 713379 6
    ∷ minus 144043 6
    ∷ plus 8374 5
    ∷ minus 33691 6
    ∷ []

-- `baseSize`
abbrev pub base_size : ℕ → ℕ → ℕ
base_size l_mem cbveclen =
    let base = l_mem + 1 - cbveclen in if cbveclen == 40 then base + cbveclen / 2 else base

module _ (F : Floats) where
  -- A round of the loop that fades from one part of the memory to another, on `cbvec` and `alfa`.
  unfoldable pub fade :
      List F.Float → ℕ → ℕ → ℕ → List F.Float × F.Float → Option (List F.Float × F.Float)
  fade mem end k j (cbvec, alfa) = do
    a ← load_back mem (end + j) (k / 2)
    b ← load_back mem (end + j) k
    cbvec ← store cbvec j (F.add (F.mul (F.sub (unity F) alfa) a) (F.mul alfa b))
    some (cbvec, F.add alfa (F.constant (plus 2 1)))

  -- The augmented vector: both copies, and the loop between them. The memory ends at `end`.
  unfoldable pub augmented : List F.Float → ℕ → ℕ → ℕ → List F.Float → Option (List F.Float)
  unfolding fade
  augmented mem end k cbveclen cbvec = do
    let ihigh = k / 2
    ilow ← minus_length ihigh 5
    first ← slice_back mem end (k / 2) ilow
    cbvec ← blit cbvec 0 first
    r ← for 5 ilow (fade mem end k) (cbvec, nought F)
    rest ← minus_length cbveclen ihigh
    last ← slice_back mem (end + ihigh) k rest
    blit r.0 ihigh last

  -- A round of the filter of a sample, at `pos`, over the extended memory from `start` on.
  unfoldable pub filter_tap : List F.Float → ℕ → ℕ → ℕ → List F.Float → Option (List F.Float)
  filter_tap extended start pos j out = do
    v ← load out pos
    x ← load extended (start + j)
    c ← load_back (map F.constant cbfilters_tbl) 7 j
    store out pos (F.add v (F.mul x c))

  -- `tempbuff2`
  unfoldable pub extended_memory : List F.Float → ℕ → ℕ → Option (List F.Float)
  extended_memory mem mo l_mem = do
    tempbuff2 ← blit (replicate 156 (nought F)) 0 (replicate 4 (nought F))
    m ← slice mem mo l_mem
    tempbuff2 ← blit tempbuff2 4 m
    blit tempbuff2 (l_mem + 4) (replicate 5 (nought F))

  -- `count` filtered samples, to `out` from `o` on; the first is that of `sFilt`.
  unfoldable pub filtered : List F.Float → ℕ → ℕ → List F.Float → ℕ → Option (List F.Float)
  unfolding filter_tap
  filtered extended s_filt count out o = do
    out ← blit out o (replicate count (nought F))
    for count 0 (λ n out. for 8 0 (filter_tap extended (s_filt + 1 + n) (o + n)) out) out

  -- The four sections of the codebook.
  unfoldable pub plain_vector : List F.Float → ℕ → ℕ → ℕ → List F.Float → Option (List F.Float)
  plain_vector mem end k cbveclen cbvec = do v ← slice_back mem end k cbveclen; blit cbvec 0 v

  unfoldable pub filtered_vector :
      List F.Float → ℕ → ℕ → ℕ → ℕ → List F.Float → Option (List F.Float)
  unfolding extended_memory filtered
  filtered_vector mem mo l_mem k cbveclen cbvec = do
    extended ← extended_memory mem mo l_mem
    s_filt ← minus_length l_mem k
    filtered extended s_filt cbveclen cbvec 0

  unfoldable pub filtered_augmented :
      List F.Float → ℕ → ℕ → ℕ → ℕ → List F.Float → Option (List F.Float)
  unfolding extended_memory filtered augmented
  filtered_augmented mem mo l_mem k cbveclen cbvec = do
    extended ← extended_memory mem mo l_mem
    s_filt ← minus_length l_mem k
    tmpbuf ← filtered extended s_filt k (replicate 147 (nought F)) s_filt
    augmented tmpbuf l_mem k cbveclen cbvec

  -- `getCBvec`
  unfoldable pub get_cb_vec : List F.Float → List F.Float → ℕ → ℕ → ℕ → ℕ → Option (List F.Float)
  unfolding plain_vector filtered_vector filtered_augmented augmented
  get_cb_vec cbvec mem mo index l_mem cbveclen =
      let plain = l_mem + 1 - cbveclen in
      let base = base_size l_mem cbveclen in
      if ltb index plain
      then plain_vector mem (mo + l_mem) (index + cbveclen) cbveclen cbvec
      else (if ltb index base
          then augmented mem (mo + l_mem) (2 * (index - plain) + cbveclen) cbveclen cbvec
          else (if ltb (index - base) plain
              then filtered_vector mem mo l_mem (index - base + cbveclen) cbveclen cbvec
              else filtered_augmented mem mo l_mem (2 * (index - base - plain) + cbveclen) cbveclen
                  cbvec))

  -- A round of the loop that starts the vector, and one of that which adds a stage.
  unfoldable pub first_term : F.Float → List F.Float → ℕ → ℕ → List F.Float → Option (List F.Float)
  first_term gain cbvec o j decvector = do c ← load cbvec j; store decvector (o + j) (F.mul gain c)

  unfoldable pub next_term : F.Float → List F.Float → ℕ → ℕ → List F.Float → Option (List F.Float)
  next_term gain cbvec o j decvector = do
    c ← load cbvec j
    v ← load decvector (o + j)
    store decvector (o + j) (F.add v (F.mul gain c))

  -- The gain of the stage `k`, whose scale is that of the stage before.
  unfoldable pub stage_gain : List ℕ → ℕ → ℕ → ℕ → List F.Float → Option (List F.Float)
  stage_gain gain_index gi k cblen gain = do
    i ← load gain_index (gi + k)
    scale ← load_back gain k 1
    g ← gaindequant F i (F.abs scale) cblen
    store gain k g

  -- `gain`, from `gain_index` from `gi` on.
  unfoldable pub stage_gains : List ℕ → ℕ → ℕ → Option (List F.Float)
  unfolding stage_gain
  stage_gains gain_index gi n_stages = do
    i ← load gain_index gi
    g ← gaindequant F i (unity F) 32
    gain ← store (replicate 3 (nought F)) 0 g
    gain ← (if ltb 1 n_stages then stage_gain gain_index gi 1 16 gain else some gain)
    if ltb 2 n_stages then stage_gain gain_index gi 2 8 gain else some gain

  -- A round of the loop over the later stages, on `cbvec` and `decvector`.
  unfoldable pub add_stage :
      List F.Float
      → List ℕ
      → ℕ
      → List F.Float
      → ℕ
      → ℕ
      → ℕ
      → ℕ
      → ℕ
      → List F.Float × List F.Float
      → Option (List F.Float × List F.Float)
  unfolding next_term get_cb_vec
  add_stage gain index ci mem mo l_mem veclen o k (cbvec, decvector) = do
    i ← load index (ci + k)
    cbvec ← get_cb_vec cbvec mem mo i l_mem veclen
    g ← load gain k
    decvector ← for veclen 0 (next_term g cbvec o) decvector
    some (cbvec, decvector)

  -- `constructCodebook`: `decvector` from `o` on, `index` from `ci` on, the memory from `mo` on.
  unfoldable pub construct_codebook :
      List F.Float
      → ℕ
      → List ℕ
      → ℕ
      → List ℕ
      → ℕ
      → List F.Float
      → ℕ
      → ℕ
      → ℕ
      → ℕ
      → Option (List F.Float)
  unfolding stage_gains first_term add_stage get_cb_vec
  construct_codebook decvector o index ci gain_index gi mem mo l_mem veclen n_stages = do
    gain ← stage_gains gain_index gi n_stages
    i ← load index ci
    cbvec ← get_cb_vec (replicate 40 (nought F)) mem mo i l_mem veclen
    g ← load gain 0
    decvector ← for veclen 0 (first_term g cbvec o) decvector
    r ← for (n_stages - 1) 1 (add_stage gain index ci mem mo l_mem veclen o) (cbvec, decvector)
    some r.1
