-- ===== src/Gain.antt =====
-- The quantiser of the codebook gains: src/gainquant.go, with its tables of src/constants.go. `none` is
-- the panic of an index out of range.
pub mod Agreement
pub mod Nearest
use i_lbc_go.Prelude.{
  ℕ, zero, suc, ◌+◌, Bool, List, [], ◌∷◌, Option, none, some, map, if◌then◌else◌, ltb, ◌==◌, length,
  get_elem?, take,
}
use i_lbc_go.Floats.{Decimal, plus, minus, Floats}

abbrev pub gain_sq3_tbl : List Decimal
gain_sq3_tbl =
    minus 1 0
    ∷ minus 659973 6
    ∷ minus 330017 6
    ∷ plus 0 0
    ∷ plus 25 2
    ∷ plus 5 1
    ∷ plus 75 2
    ∷ plus 1 0
    ∷ []

abbrev pub gain_sq4_tbl : List Decimal
gain_sq4_tbl =
    minus 1049988 6
    ∷ minus 900024 6
    ∷ minus 75 2
    ∷ minus 599976 6
    ∷ minus 450012 6
    ∷ minus 299988 6
    ∷ minus 150024 6
    ∷ plus 0 0
    ∷ plus 150024 6
    ∷ plus 299988 6
    ∷ plus 450012 6
    ∷ plus 599976 6
    ∷ plus 75 2
    ∷ plus 900024 6
    ∷ plus 1049988 6
    ∷ plus 1200012 6
    ∷ []

abbrev pub gain_sq5_tbl : List Decimal
gain_sq5_tbl =
    plus 37476 6
    ∷ plus 75012 6
    ∷ plus 112488 6
    ∷ plus 150024 6
    ∷ plus 1875 4
    ∷ plus 224976 6
    ∷ plus 262512 6
    ∷ plus 299988 6
    ∷ plus 337524 6
    ∷ plus 375 3
    ∷ plus 412476 6
    ∷ plus 450012 6
    ∷ plus 487488 6
    ∷ plus 525024 6
    ∷ plus 5625 4
    ∷ plus 599976 6
    ∷ plus 637512 6
    ∷ plus 674988 6
    ∷ plus 712524 6
    ∷ plus 75 2
    ∷ plus 787476 6
    ∷ plus 825012 6
    ∷ plus 862488 6
    ∷ plus 900024 6
    ∷ plus 9375 4
    ∷ plus 974976 6
    ∷ plus 1012512 6
    ∷ plus 1049988 6
    ∷ plus 1087524 6
    ∷ plus 1125 3
    ∷ plus 1162476 6
    ∷ plus 1200012 6
    ∷ []

module _ (F : Floats) where
  -- The scale is at least 0.1.
  abbrev pub bounded_scale : F.Float → F.Float
  bounded_scale scale = if F.below scale (plus 1 1) then F.constant (plus 1 1) else scale

  -- `measure` of an entry.
  abbrev pub gain_measure : F.Float → F.Float → F.Float → F.Float
  gain_measure input scale entry =
      F.mul (F.sub input (F.mul scale entry)) (F.sub input (F.mul scale entry))

  -- `if measure < minmeasure { … }`, on `tindex` and `minmeasure`.
  abbrev pub better : F.Float → ℕ → ℕ × F.Float → ℕ × F.Float
  better measure i best = if F.less measure best.1 then (i, measure) else best

  -- The loop over the entries, from the index `i` on.
  unfoldable pub nearest : (F.Float → F.Float) → List F.Float → ℕ → ℕ × F.Float → ℕ × F.Float
  nearest measure [] i best = best
  nearest measure (entry ∷ cb) i best = nearest measure cb (i + 1) (better (measure entry) i best)

  abbrev pub gain_table : ℕ → List F.Float
  gain_table cblen =
      map F.constant
        (if cblen == 8 then gain_sq3_tbl else (if cblen == 16 then gain_sq4_tbl else gain_sq5_tbl))

  -- The quantised gain of an entry, and its index.
  abbrev pub scaled_entry : F.Float → ℕ → Option F.Float → Option (F.Float × ℕ)
  scaled_entry scale tindex none = none
  scaled_entry scale tindex (some entry) = some (F.mul scale entry, tindex)

  -- `gainquant`: the result and `*index`.
  unfoldable pub gainquant : F.Float → F.Float → ℕ → Option (F.Float × ℕ)
  unfolding nearest
  gainquant input max_in cblen =
      let scale = bounded_scale max_in in
      let cb = gain_table cblen in
      let best =
        nearest (gain_measure input scale) (take cblen cb) 0 (0, F.constant (plus 10000000 0)) in
      if ltb (length cb) cblen then none else scaled_entry scale best.0 (get_elem? cb best.0)

  abbrev pub scaled : F.Float → Option F.Float → Option F.Float
  scaled scale none = none
  scaled scale (some entry) = some (F.mul scale entry)

  unfoldable pub gaindequant : ℕ → F.Float → ℕ → Option F.Float
  gaindequant index max_in cblen =
      let scale = bounded_scale (F.abs max_in) in
      if cblen == 8
      then scaled scale (get_elem? (map F.constant gain_sq3_tbl) index)
      else (if cblen == 16
          then scaled scale (get_elem? (map F.constant gain_sq4_tbl) index)
          else (if cblen == 32
              then scaled scale (get_elem? (map F.constant gain_sq5_tbl) index)
              else some (F.constant (plus 0 0))))
