-- ===== src/Gain/Agreement.antt =====
-- The two ends of the gain quantiser (src/gainquant.go).
use i_lbc_go.Prelude.{
  ℕ, ◌+◌, ◌<◌, ◌≡◌, refl, sym, ap, ◌∙◌, subst, arith, Bool, true, false, List, [], ◌∷◌, some, map,
  if◌then◌else◌, length, get_elem?, get_elem?-lt, take, ◌⊎◌, inl, inr,
}
use i_lbc_go.Floats.{Floats, plus}
use i_lbc_go.Gain.{
  gain_measure, better, nearest, gain_table, bounded_scale, scaled_entry, scaled, gainquant,
  gaindequant, gain_sq3_tbl, gain_sq4_tbl, gain_sq5_tbl,
}

module _ (F : Floats) where
  -- The index stays below the entries seen.
  nearest_lt :
      (measure : F.Float → F.Float) (cb : List F.Float) (i : ℕ) (best : ℕ × F.Float)
      → best.0 < i + length cb
      → (nearest F measure cb i best).0 < i + length cb
  unfolding nearest
  nearest_lt measure [] i best h = h
  nearest_lt measure (entry ∷ cb) i best h = omega (
    arith,
    nearest_lt measure cb (i + 1) (better F (measure entry) i best)
        (step (F.less (measure entry) best.1)),
  )
    where
      step : (b : Bool) → (if b then (i, measure entry) else best).0 < i + 1 + length cb
      step true = omega arith
      step false = omega (arith, h)

  -- The sizes of a gain codebook.
  abbrev pub IsBook : ℕ → Type 0
  IsBook cblen = (cblen ≡ 8) ⊎ ((cblen ≡ 16) ⊎ (cblen ≡ 32))

  -- The entry that the search chooses.
  chosen : F.Float → F.Float → List F.Float → ℕ
  chosen input max_in cb =
      (nearest F (gain_measure F input (bounded_scale F max_in)) cb 0
        (0, F.constant (plus 10000000 0))).0

  chosen_lt :
      (input max_in : F.Float) (cb : List F.Float)
      → 0 < length cb
      → chosen input max_in cb < length cb
  unfolding chosen
  chosen_lt input max_in cb h = omega (
    arith,
    nearest_lt (gain_measure F input (bounded_scale F max_in)) cb 0
        (0, F.constant (plus 10000000 0)) (omega arith),
  )

  -- A result of the quantiser on a codebook, and what the other end makes of its index.
  Agrees : F.Float → F.Float → ℕ → List F.Float → Type 0
  Agrees input max_in cblen cb =
      (g : F.Float) × (t : ℕ) × (scaled_entry F (bounded_scale F max_in)
          (chosen input max_in (take cblen cb)) (get_elem? cb (chosen input max_in (take cblen cb)))
        ≡ some (g, t))
      × (t < length cb)
      × (scaled F (bounded_scale F max_in) (get_elem? cb t) ≡ some g)

  book-Agrees :
      (input max_in : F.Float) (cblen : ℕ) (cb : List F.Float)
      → 0 < length cb
      → take cblen cb ≡ cb
      → Agrees input max_in cblen cb
  unfolding Agrees
  book-Agrees input max_in cblen cb p whole =
      let t : ℕ = chosen input max_in (take cblen cb) in
      let small : t < length cb =
        subst (λ (xs : List F.Float). chosen input max_in xs < length cb) (sym whole)
          (chosen_lt input max_in cb p) in
      let (entry, e) = get_elem?-lt cb t small in
      (
        F.mul (bounded_scale F max_in) entry,
        t,
        ap (scaled_entry F (bounded_scale F max_in) t) e,
        small,
        ap (scaled F (bounded_scale F max_in)) e,
      )

  three_books :
      (input max_in : F.Float) (cblen : ℕ)
      → IsBook cblen
      → (g : F.Float) × (t : ℕ) × (gainquant F input max_in cblen ≡ some (g, t))
        × (t < cblen)
        × (gaindequant F t max_in cblen
            ≡ scaled F (bounded_scale F (F.abs max_in)) (get_elem? (gain_table F cblen) t))
        × (scaled F (bounded_scale F max_in) (get_elem? (gain_table F cblen) t) ≡ some g)
  unfolding gainquant gaindequant Agrees chosen
  three_books input max_in cblen (inl e) =
      let (g, t, a, b, c) =
        book-Agrees input max_in 8 (map F.constant gain_sq3_tbl) (omega arith) refl in
      rw e (g, t, a, b, refl, c)
  three_books input max_in cblen (inr (inl e)) =
      let (g, t, a, b, c) =
        book-Agrees input max_in 16 (map F.constant gain_sq4_tbl) (omega arith) refl in
      rw e (g, t, a, b, refl, c)
  three_books input max_in cblen (inr (inr e)) =
      let (g, t, a, b, c) =
        book-Agrees input max_in 32 (map F.constant gain_sq5_tbl) (omega arith) refl in
      rw e (g, t, a, b, refl, c)

  -- For each of the three codebooks and a scale that is its own absolute value: the quantiser ends with
  -- no panic, its index is in the codebook, and the dequantiser makes of that index, with the same
  -- scale, exactly the gain that the quantiser returned.
  pub gaindequant-gainquant :
      (input max_in : F.Float) (cblen : ℕ)
      → IsBook cblen
      → F.abs max_in ≡ max_in
      → (g : F.Float) × (t : ℕ) × (gainquant F input max_in cblen ≡ some (g, t))
        × (t < cblen)
        × (gaindequant F t max_in cblen ≡ some g)
  gaindequant-gainquant input max_in cblen book a =
      let (g, t, q, small, d, same) = three_books input max_in cblen book in
      (
        g,
        t,
        q,
        small,
        d
            ∙ ap (λ (m : F.Float). scaled F (bounded_scale F m) (get_elem? (gain_table F cblen) t))
                a
            ∙ same,
      )
