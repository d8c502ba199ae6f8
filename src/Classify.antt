-- ===== src/Classify.antt =====
-- The choice of the start state: src/frameclassify.go.
pub mod Range
use i_lbc_go.Prelude.{
  ℕ, ◌+◌, ◌-◌, ◌*◌, Bool, List, [], ◌∷◌, map, replicate, Option, some, if◌then◌else◌, ◌==◌,
}
use i_lbc_go.Bitstream.{◌>>=◌}
use i_lbc_go.Arrays.{load, load_back, store, for}
use i_lbc_go.Floats.{Decimal, plus, Floats, nought}
use i_lbc_go.Layout.{FrameShape}

abbrev pub ssq_en_win : List Decimal
ssq_en_win = plus 8 1 ∷ plus 9 1 ∷ plus 1 0 ∷ plus 9 1 ∷ plus 8 1 ∷ []

abbrev pub samp_en_win : List Decimal
samp_en_win = plus 16666667 8 ∷ plus 33333334 8 ∷ plus 5 1 ∷ plus 6666667 7 ∷ plus 8333333 7 ∷ []

-- `maxSsqEn`, `maxSsqEnN` and `l`.
pub record Choice (F : Floats) : Type 0 where
  pub energy : F.Float
  pub at : ℕ
  pub window_index : ℕ

module _ (F : Floats) where
  -- A sample is added to the energy of the subframe `n`; the last two with a weight, from the left or from
  -- the right end of the window.
  unfoldable pub add_plain : List F.Float → ℕ → ℕ → List F.Float → Option (List F.Float)
  add_plain residual n l en = do
    v ← load en n
    x ← load residual (n * 40 + l)
    store en n (F.add v (F.mul x x))

  unfoldable pub add_rising : List F.Float → ℕ → ℕ → List F.Float → Option (List F.Float)
  add_rising residual n l en = do
    v ← load en n
    w ← load (map F.constant samp_en_win) l
    x ← load residual (n * 40 + l)
    store en n (F.add v (F.mul (F.mul w x) x))

  unfoldable pub add_falling : List F.Float → ℕ → ℕ → List F.Float → Option (List F.Float)
  add_falling residual n l en = do
    v ← load en n
    w ← load_back (map F.constant samp_en_win) 39 l
    x ← load residual (n * 40 + l)
    store en n (F.add v (F.mul (F.mul w x) x))

  -- The body of the loop over the subframes with both neighbours, on `fssqEn` and `bssqEn`.
  unfoldable pub subframe_energies :
      List F.Float → ℕ → List F.Float × List F.Float → Option (List F.Float × List F.Float)
  unfolding add_plain add_rising add_falling
  subframe_energies residual n s = do
    s ←
        for 5 0
          (λ l s. do f ← add_rising residual n l s.0; b ← add_plain residual n l s.1; some (f, b)) s
    s ←
        for 30 5
          (λ l s. do f ← add_plain residual n l s.0; b ← add_plain residual n l s.1; some (f, b)) s
    for 5 35
        (λ l s. do f ← add_plain residual n l s.0; b ← add_falling residual n l s.1; some (f, b)) s

  -- All energies.
  unfoldable pub energies : ℕ → List F.Float → Option (List F.Float × List F.Float)
  unfolding subframe_energies add_plain add_rising add_falling
  energies subframes residual = do
    f ← for 5 0 (add_rising residual 0) (replicate 6 (nought F))
    f ← for 35 5 (add_plain residual 0) f
    (f, b) ← for (subframes - 2) 1 (subframe_energies residual) (f, replicate 6 (nought F))
    b ← for 35 0 (add_plain residual (subframes - 1)) b
    b ← for 5 35 (add_falling residual (subframes - 1)) b
    some (f, b)

  -- The weighted energy of the two subframes that end with `n`.
  unfoldable pub pair_energy : List F.Float → List F.Float → ℕ → ℕ → Option F.Float
  pair_energy f b n l = do
    x ← load_back f n 1
    y ← load b n
    w ← load (map F.constant ssq_en_win) l
    some (F.mul (F.add x y) w)

  unfoldable pub larger_pair : List F.Float → List F.Float → ℕ → Choice F → Option (Choice F)
  unfolding pair_energy
  larger_pair f b n c = do
    let l = c.window_index + 1
    e ← pair_energy f b n l
    some (
        if F.less c.energy e
        then record { energy = e; at = n; window_index = l }
        else record c { window_index = l })

  -- `frameClassify`
  unfoldable pub frame_classify : FrameShape → List F.Float → Option ℕ
  unfolding energies pair_energy larger_pair
  frame_classify s residual = do
    (f, b) ← energies s.subframes residual
    let l = (if s.mode == 20 then 1 else 0)
    e ← pair_energy f b 1 l
    c ← for (s.subframes - 2) 2 (larger_pair f b) (record { energy = e; at = 1; window_index = l })
    some c.at
