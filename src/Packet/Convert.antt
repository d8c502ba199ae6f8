-- ===== src/Packet/Convert.antt =====
-- The conversions of codebook indices in src/icbconstruct.go.
use i_lbc_go.Prelude.{ℕ, ◌≤◌, ◌<◌, ◌≡◌, arith, List, [], ◌∷◌, some, ◌⊎◌, ◌↔◌}
use mathlib.Core.Option.{some-injective}
use i_lbc_go.Packet.{encoder_index, decoder_index, convert_encoder_indices, convert_decoder_indices}

-- The indices that the search can choose in the second and third stage of the first subframe.
abbrev pub Reachable : ℕ → Type 0
Reachable i = (i < 44) ⊎ ((108 ≤ i) × (i < 172)) ⊎ ((236 ≤ i) × (i < 256))

-- Of the indices below 256, those that can be chosen are exactly those whose converted index fits the
-- 7 bits that the layouts have for it and is converted back to them.
pub decoder_index-encoder_index :
    (i : ℕ)
    → i < 256
    → Reachable i ↔ ((decoder_index (encoder_index i) ≡ i) × (encoder_index i < 128))
unfolding encoder_index decoder_index
decoder_index-encoder_index i h = (λ r. ground arith, λ e. ground arith)

-- The second and the third index of a list that has them.
abbrev pub SecondThird : (ℕ → Type 0) → List ℕ → Type 0
SecondThird P (a ∷ b ∷ c ∷ rest) = P b × P c
SecondThird P (a ∷ b ∷ []) = ⊥
SecondThird P (a ∷ []) = ⊥
SecondThird P [] = ⊥

Reachable-lt : (i : ℕ) → Reachable i → i < 256
Reachable-lt i r = ground arith

pub convert_back :
    (index : List ℕ) {cs : List ℕ}
    → SecondThird Reachable index
    → convert_encoder_indices index ≡ some cs
    → convert_decoder_indices cs ≡ some index
unfolding convert_encoder_indices convert_decoder_indices
convert_back [] r e = absurd r
convert_back (a ∷ []) r e = absurd r
convert_back (a ∷ b ∷ []) r e = absurd r
convert_back (a ∷ b ∷ c ∷ rest) r e =
    let second = (decoder_index-encoder_index b (Reachable-lt b r.0)).0 r.0 in
    let third = (decoder_index-encoder_index c (Reachable-lt c r.1)).0 r.1 in
    let same : a ∷ encoder_index b ∷ encoder_index c ∷ rest ≡ _ = some-injective _ _ e in
    rw (← same, second.0, third.0)
