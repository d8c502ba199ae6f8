-- ===== src/Arrays/Overwrite.antt =====
-- Arrays that are overwritten as a whole: by `copy` and `clear`, or by a loop of writes.
use i_lbc_go.Prelude.{
  ℕ, zero, suc, ◌+◌, ◌≡◌, refl, sym, ap, ◌∙◌, arith, List, [], ◌∷◌, ◌++◌, length, take, drop,
  replicate, Option, none, some, true, false, Bool-cases, inl, inr, set, ltb, le→ltb, lt→ltb,
}
use i_lbc_go.Bitstream.{◌>>=◌}
use i_lbc_go.Arrays.Access.{store, blit}
use i_lbc_go.Arrays.Loop.{for}

module _ {ℓ} {A : Type ℓ} where
  drop_all : (xs : List A) (n : ℕ) → length xs ≡ n → drop n xs ≡ []
  drop_all [] zero h = refl
  drop_all [] (suc n) h = refl
  drop_all (x ∷ xs) zero h = absurd (omega arith)
  drop_all (x ∷ xs) (suc n) h = drop_all xs n (omega arith)

  append_nil : (xs : List A) → xs ++ [] ≡ xs
  append_nil [] = refl
  append_nil (x ∷ xs) = ap (◌∷◌ x) (append_nil xs)

  -- An array that is overwritten to its end.
  pub blit-to_end :
      (xs : List A) (i : ℕ) (ys : List A)
      → i + length ys ≡ length xs
      → blit xs i ys ≡ some (take i xs ++ ys)
  unfolding blit
  blit-to_end xs i ys h =
      rw
        (
          le→ltb (length xs) (i + length ys) (omega arith),
          drop_all xs (i + length ys) (sym h),
          append_nil ys,
        )
        refl

  -- The first entry is written, then the rest.
  pub head_and_rest :
      (xs : List A) (v : A) (ys : List A)
      → 1 + length ys ≡ length xs
      → (store xs 0 v >>= λ zs. blit zs 1 ys) ≡ some (v ∷ ys)
  unfolding store
  head_and_rest [] v ys h = absurd (omega arith)
  head_and_rest (x ∷ xs) v ys h =
      rw (lt→ltb 0 (suc (length xs)) (omega arith)) (blit-to_end (v ∷ xs) 1 ys h)

  -- Below an entry that is not written, a write goes to the rest.
  store-cons :
      (x : A) (xs : List A) (i : ℕ) (v : A)
      → store (x ∷ xs) (i + 1) v ≡ (store xs i v >>= λ ys. some (x ∷ ys))
  unfolding store
  store-cons x xs i v = elim (Bool-cases (ltb i (length xs))) [
    | inl e ↦
        let next : i + 1 ≡ suc i = omega arith in
        let k : ltb (i + 1) (suc (length xs)) ≡ true = ground arith in
        let n : set (x ∷ xs) (i + 1) v ≡ x ∷ set xs i v = ap (λ (m : ℕ). set (x ∷ xs) m v) next in
        rw (e, k, n) refl
    | inr e ↦ let k : ltb (i + 1) (suc (length xs)) ≡ false = ground arith in rw (e, k) refl
  ]

  -- The loop that writes `v` to the entries from `i` on.
  abbrev pub fill : A → ℕ → ℕ → List A → Option (List A)
  fill v n i xs = for n i (λ k ys. store ys k v) xs

  fill-cons :
      (v : A) (n i : ℕ) (x : A) (xs : List A)
      → fill v n (i + 1) (x ∷ xs) ≡ (fill v n i xs >>= λ ys. some (x ∷ ys))
  unfolding for
  fill-cons v zero i x xs = refl
  fill-cons v (suc n) i x xs =
      ap (λ (o : Option (List A)). o >>= fill v n (i + 1 + 1)) (store-cons x xs i v)
      ∙ after_store (fill-cons v n (i + 1) x) (store xs i v)
    where
      after_store :
          ((ys : List A)
            → fill v n (i + 1 + 1) (x ∷ ys) ≡ (fill v n (i + 1) ys >>= λ zs. some (x ∷ zs)))
          → (o : Option (List A))
          → ((o >>= λ ys. some (x ∷ ys)) >>= fill v n (i + 1 + 1))
            ≡ ((o >>= fill v n (i + 1)) >>= λ ys. some (x ∷ ys))
      after_store rest none = refl
      after_store rest (some ys) = rest ys

  pub fill_lem :
      (v : A) (n : ℕ) (xs : List A) → length xs ≡ n → fill v n 0 xs ≡ some (replicate n v)
  unfolding for store
  fill_lem v zero [] h = refl
  fill_lem v zero (x ∷ xs) h = absurd (omega arith)
  fill_lem v (suc n) [] h = absurd (omega arith)
  fill_lem v (suc n) (x ∷ xs) h = rw (lt→ltb 0 (suc (length xs)) (omega arith)) (
      fill-cons v n 0 v xs
      ∙ ap (λ (o : Option (List A)). o >>= λ ys. some (v ∷ ys)) (fill_lem v n xs (omega arith)))
