-- ===== src/Gain/Nearest.antt =====
-- What the search of src/gainquant.go finds.
use i_lbc_go.Prelude.{
  ℕ, zero, suc, ◌+◌, ◌≡◌, subst, Bool, true, false, List, [], ◌∷◌, some, get_elem?, inl, inr,
  Bool-cases, ◌⊎◌, refl, sym, ap, ◌∙◌, arith, map,
}
use i_lbc_go.Floats.{Floats, IsOrdered, plus}
use i_lbc_go.Gain.{
  gain_measure, better, nearest, gain_table, bounded_scale, scaled_entry, gainquant, gain_sq3_tbl,
  gain_sq4_tbl, gain_sq5_tbl,
}
use i_lbc_go.Gain.Agreement.{IsBook}

module _ (F : Floats) where
  -- What `gainquant` returns for a codebook.
  abbrev pub Quantised : F.Float → F.Float → ℕ → Type 0
  Quantised input max_in cblen =
      (t : ℕ) × (entry : F.Float) × (gainquant F input max_in cblen
        ≡ some (F.mul (bounded_scale F max_in) entry, t))
      × (get_elem? (gain_table F cblen) t ≡ some entry)
      × ((k : ℕ) (y : F.Float)
          → get_elem? (gain_table F cblen) k ≡ some y
          → F.less (gain_measure F input (bounded_scale F max_in) y)
              (gain_measure F input (bounded_scale F max_in) entry)
            ≡ false)

module _ (F : Floats) (o : IsOrdered F) where
  not_both : {b : Bool} → b ≡ true → b ≡ false → ⊥
  not_both a b = cc

  -- What was no better than the best so far is no better than the next one.
  better-false :
      (x m : F.Float) (i : ℕ) (best : ℕ × F.Float)
      → F.less x best.1 ≡ false
      → F.less x (better F m i best).1 ≡ false
  better-false x m i best h = elim (Bool-cases (F.less m best.1)) [
    | inr e ↦ rw e h
    | inl e ↦ rw e (elim (Bool-cases (F.less x m)) [
      | inr worse ↦ worse
      | inl less ↦ absurd (not_both (o.less_trans x m best.1 less e) h)
    ])
  ]

  better_self : (m : F.Float) (i : ℕ) (best : ℕ × F.Float) → F.less m (better F m i best).1 ≡ false
  better_self m i best = elim (Bool-cases (F.less m best.1)) [
    | inl e ↦ rw e (o.less_irrefl m)
    | inr e ↦ rw e e
  ]

  nearest-false :
      (measure : F.Float → F.Float) (cb : List F.Float) (i : ℕ) (best : ℕ × F.Float) (x : F.Float)
      → F.less x best.1 ≡ false
      → F.less x (nearest F measure cb i best).1 ≡ false
  unfolding nearest
  nearest-false measure [] i best x h = h
  nearest-false measure (entry ∷ cb) i best x h =
      nearest-false measure cb (i + 1) (better F (measure entry) i best) x
        (better-false x (measure entry) i best h)

  -- No entry of the codebook has a smaller measure than the search ends with.
  nearest_lem :
      (measure : F.Float → F.Float) (cb : List F.Float) (i : ℕ) (best : ℕ × F.Float) (j : ℕ)
      (entry : F.Float)
      → get_elem? cb j ≡ some entry
      → F.less (measure entry) (nearest F measure cb i best).1 ≡ false
  unfolding nearest
  nearest_lem measure [] i best j entry e = cc
  nearest_lem measure (x ∷ cb) i best zero entry e =
      nearest-false measure cb (i + 1) (better F (measure x) i best) (measure entry) (
        subst (λ (y : F.Float). F.less (measure y) (better F (measure x) i best).1 ≡ false)
          (some_injective x entry e) (better_self (measure x) i best))
    where
      some_injective : (a b : F.Float) → some a ≡ some b → a ≡ b
      some_injective a b h = cc
  nearest_lem measure (x ∷ cb) i best (suc j) entry e =
      nearest_lem measure cb (i + 1) (better F (measure x) i best) j entry e

  -- The search ends as it began, or with an entry, its index and its measure.
  Chosen : (F.Float → F.Float) → List F.Float → ℕ → ℕ × F.Float → Type 0
  Chosen measure cb i r =
      (k : ℕ) × (entry : F.Float) × (r.0 ≡ i + k)
      × (get_elem? cb k ≡ some entry)
      × (r.1 ≡ measure entry)

  nearest-Chosen :
      (measure : F.Float → F.Float) (cb : List F.Float) (i : ℕ) (best : ℕ × F.Float)
      → (nearest F measure cb i best ≡ best) ⊎ Chosen measure cb i (nearest F measure cb i best)
  unfolding nearest Chosen
  nearest-Chosen measure [] i best = inl refl
  nearest-Chosen measure (x ∷ cb) i best =
      elim (nearest-Chosen measure cb (i + 1) (better F (measure x) i best)) [
        | inr (k, entry, a, b, c) ↦ inr (suc k, entry, omega (arith, a), b, c)
        | inl e ↦ elim (Bool-cases (F.less (measure x) best.1)) [
          | inl less ↦
              let same : better F (measure x) i best ≡ (i, measure x) = rw less refl in
              let e' = e ∙ same in
              let zeroth : i ≡ i + 0 = omega arith in
              inr (
                0,
                x,
                ap (λ (r : ℕ × F.Float). r.0) e' ∙ zeroth,
                refl,
                ap (λ (r : ℕ × F.Float). r.1) e',
              )
          | inr not_less ↦
              let same : better F (measure x) i best ≡ best = rw not_less refl in inl (e ∙ same)
        ]
      ]

  -- What the quantiser chooses in a codebook.
  Nearest : F.Float → F.Float → List F.Float → ℕ → F.Float → Type 0
  Nearest input scale cb t entry =
      (get_elem? cb t ≡ some entry)
      × ((k : ℕ) (y : F.Float)
          → get_elem? cb k ≡ some y
          → F.less (gain_measure F input scale y) (gain_measure F input scale entry) ≡ false)

  -- An entry that is nearer than the limit keeps the search from ending as it began.
  search-Nearest :
      (input scale limit : F.Float) (cb : List F.Float) (j : ℕ) (x : F.Float)
      → get_elem? cb j ≡ some x
      → F.less (gain_measure F input scale x) limit ≡ true
      → (t : ℕ) × (entry : F.Float) × ((nearest F (gain_measure F input scale) cb 0 (0, limit)).0
          ≡ t)
        × Nearest input scale cb t entry
  unfolding Chosen Nearest
  search-Nearest input scale limit cb j x e near =
      let measure : F.Float → F.Float = gain_measure F input scale in
      let r : ℕ × F.Float = nearest F measure cb 0 (0, limit) in
      elim (nearest-Chosen measure cb 0 (0, limit)) [
        | inl same ↦ absurd (
            not_both near (
              ap (λ (s : ℕ × F.Float). F.less (measure x) s.1) (sym same)
              ∙ nearest_lem measure cb 0 (0, limit) j x e))
        | inr (k, entry, a, b, c) ↦ (
          k,
          entry,
          omega (arith, a),
          (
            b,
            λ i y f.
                ap (λ (m : F.Float). F.less (measure y) m) (sym c)
                ∙ nearest_lem measure cb 0 (0, limit) i y f,
          ),
        )
      ]

  -- The whole codebook is searched.
  search_of :
      (input max_in : F.Float) (cblen : ℕ)
      → IsBook F cblen
      → (t : ℕ)
      → (nearest F
          (gain_measure F input (bounded_scale F max_in))
          (gain_table F cblen)
          0
          (0, F.constant (plus 10000000 0))).0
        ≡ t
      → gainquant F input max_in cblen
        ≡ scaled_entry F (bounded_scale F max_in) t (get_elem? (gain_table F cblen) t)
  unfolding gainquant
  search_of input max_in cblen (inl e) t h = rw e (
      ap
        (λ (n : ℕ).
          scaled_entry F (bounded_scale F max_in) n (get_elem? (map F.constant gain_sq3_tbl) n))
        (rw e at h))
  search_of input max_in cblen (inr (inl e)) t h = rw e (
      ap
        (λ (n : ℕ).
          scaled_entry F (bounded_scale F max_in) n (get_elem? (map F.constant gain_sq4_tbl) n))
        (rw e at h))
  search_of input max_in cblen (inr (inr e)) t h = rw e (
      ap
        (λ (n : ℕ).
          scaled_entry F (bounded_scale F max_in) n (get_elem? (map F.constant gain_sq5_tbl) n))
        (rw e at h))

  -- Where the comparison is a strict order: for each of the three codebooks, if some entry has a measure
  -- below 10000000, `gainquant` ends with no panic and returns the index and the scaled value of an entry of
  -- the codebook, and no entry has a smaller measure than that one.
  pub gainquant_lem :
      (input max_in : F.Float) (cblen j : ℕ) (x : F.Float)
      → IsBook F cblen
      → get_elem? (gain_table F cblen) j ≡ some x
      → F.less (gain_measure F input (bounded_scale F max_in) x) (F.constant (plus 10000000 0))
        ≡ true
      → Quantised F input max_in cblen
  unfolding Nearest
  gainquant_lem input max_in cblen j x book f near =
      let (t, entry, a, (b, c)) =
        search-Nearest input (bounded_scale F max_in) (F.constant (plus 10000000 0))
          (gain_table F cblen) j x f near in
      (
        t,
        entry,
        search_of input max_in cblen book t a ∙ ap (scaled_entry F (bounded_scale F max_in) t) b,
        b,
        c,
      )
