-- ===== src/Quantiser.antt =====
-- The vector quantiser of the LSF: `vq` and `splitVQ` of src/helpfun.go. The list `x` is the part of the
-- array that the quantiser reads, so its length is `dim`. `none` is the panic of an index out of range.
pub mod Split
use i_lbc_go.Prelude.{
  ℕ, zero, suc, ◌+◌, ◌*◌, List, [], ◌∷◌, ◌++◌, Option, none, some, if◌then◌else◌, ltb, length, take,
  drop,
}
use i_lbc_go.Bitstream.{◌>>=◌}
use i_lbc_go.Floats.{plus, Floats}
use i_lbc_go.Gain.{better}

module _ (F : Floats) where
  abbrev pub square : F.Float → F.Float
  square d = F.mul d d

  -- The loop from `i = 1` on.
  unfoldable pub more_distance : F.Float → List F.Float → List F.Float → Option F.Float
  more_distance dist [] cb = some dist
  more_distance dist (x ∷ xs) [] = none
  more_distance dist (x ∷ xs) (c ∷ cb) = more_distance (F.add dist (square (F.sub x c))) xs cb

  -- `dist`, for the entry of the codebook at `pos`.
  unfoldable pub vq_distance : List F.Float → List F.Float → Option F.Float
  unfolding more_distance
  vq_distance [] cb = none
  vq_distance (x ∷ xs) [] = none
  vq_distance (x ∷ xs) (c ∷ cb) = more_distance (square (F.sub x c)) xs cb

  -- The loop over the entries, on `minindex` and `mindist`; `cb` starts at `pos`.
  unfoldable pub vq_loop : List F.Float → ℕ → List F.Float → ℕ → ℕ × F.Float → Option (ℕ × F.Float)
  unfolding vq_distance
  vq_loop x zero cb j best = some best
  vq_loop x (suc n) cb j best = do
    dist ← vq_distance x cb
    vq_loop x n (drop (length x) cb) (j + 1) (better F dist j best)

  -- The entry that is copied to `xq`.
  abbrev pub vq_entry : ℕ → List F.Float → ℕ → Option (List F.Float × ℕ)
  vq_entry dim cb minindex =
      if ltb (length (drop (minindex * dim) cb)) dim
      then none
      else some (take dim (drop (minindex * dim) cb), minindex)

  -- `vq`: `xq` and `*index`. The first `mindist` is 1e+37.
  unfoldable pub vq : List F.Float → List F.Float → ℕ → Option (List F.Float × ℕ)
  unfolding vq_loop
  vq x cb n_cb = do
    best ← vq_loop x n_cb cb 0 (0, F.constant (plus 10000000000000000000000000000000000000 0))
    vq_entry (length x) cb best.0

  -- `splitVQ`, over the splits: `qX` and `index`.
  unfoldable pub split_vq :
      List F.Float → List F.Float → List ℕ → List ℕ → Option (List F.Float × List ℕ)
  unfolding vq
  split_vq x cb [] cbsize = some ([], [])
  split_vq x cb (d ∷ dim) [] = none
  split_vq x cb (d ∷ dim) (size ∷ cbsize) = do
    first ← (if ltb (length x) d then none else vq (take d x) cb size)
    rest ← split_vq (drop d x) (drop (d * size) cb) dim cbsize
    some (first.0 ++ rest.0, first.1 ∷ rest.1)
