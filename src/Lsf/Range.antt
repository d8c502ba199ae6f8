-- ===== src/Lsf/Range.antt =====
-- The range that `checkLSF` (src/helpfun.go) leaves the frequencies in.
use i_lbc_go.Prelude.{
  ◌⊎◌, ltb→lt, ltb-false→le, get_elem?-set_ne, get_elem?-set_self, length-set, lt→ltb, ℕ, suc, ◌+◌,
  ◌-◌, ◌*◌, ◌≤◌, ◌<◌, ◌≡◌, refl, ◌∙◌, subst, arith, false, List, length, some, ltb, Bool-cases, inl,
  inr,
}
use native.Mathlib.Nat.{mul-le-mul_right}
use i_lbc_go.Arrays.{
  Returns-some, load, store, Returns, returned, Returns-bind, Returns-weaken, Returns-if,
  load-Returns, for, for-Returns_at,
}
use i_lbc_go.Floats.{plus, Floats, IsOrdered}
use i_lbc_go.Lsf.{apart, raised, lowered, check_pair, check_lsf}

le_or_lt : (a b : ℕ) → (a ≤ b) ⊎ (b < a)
le_or_lt a b = elim (Bool-cases (ltb b a)) [
  | inl e ↦ inr (ltb→lt b a e)
  | inr e ↦ inl (ltb-false→le b a e)
]

module _ (F : Floats) (o : IsOrdered F)
    (sound : F.less (F.constant (plus 314 2)) (F.constant (plus 1 2)) ≡ false) where
  -- A frequency that is neither below 0.01 nor above 3.14.
  abbrev pub IsClamped : F.Float → Type 0
  IsClamped x =
      (F.less x (F.constant (plus 1 2)) ≡ false) × (F.less (F.constant (plus 314 2)) x ≡ false)

  -- What is before a position stays.
  abbrev Below : ℕ → List F.Float → List F.Float → Type 0
  Below pos xs ys = (j : ℕ) → j < pos → load ys j ≡ load xs j

  store-Below :
      (xs : List F.Float) (pos i n : ℕ) (v : F.Float)
      → length xs ≡ n
      → pos ≤ i
      → i < n
      → Returns (λ ys. (length ys ≡ n) × Below pos xs ys × (load ys i ≡ some v)) (store xs i v)
  unfolding store load
  store-Below xs pos i n v e h l = rw (lt→ltb i (length xs) (omega arith)) (
      returned (
        length-set xs i v ∙ e,
        λ j b. get_elem?-set_ne xs i j v (λ (q : i ≡ j). omega (arith, q, b, h)),
        get_elem?-set_self xs i v (omega arith),
      ))

  apart-Below :
      (pos n : ℕ) (s : List F.Float × ℕ)
      → length s.0 ≡ n
      → pos + 1 < n
      → Returns (λ t. (length t.0 ≡ n) × Below pos s.0 t.0) (apart F pos s)
  unfolding apart
  apart-Below pos n (xs, change) e h = Returns-bind (load-Returns xs pos (omega arith)) λ x _.
      Returns-bind (load-Returns xs (pos + 1) (omega arith)) λ y _.
        Returns-if (F.less (F.sub y x) (F.constant (plus 39 3)))
          (λ _.
            Returns-if (F.less y x)
              (λ _.
                Returns-bind (store-Below xs pos (pos + 1) n _ e (omega arith) h) λ ys (a, b, _).
                  Returns-bind (store-Below ys pos pos n _ a (omega arith) (omega arith))
                    λ zs (c, d, _). returned (c, λ j l. d j l ∙ b j l))
              (λ _.
                Returns-bind (store-Below xs pos pos n _ e (omega arith) (omega arith))
                  λ ys (a, b, _).
                    Returns-bind (store-Below ys pos (pos + 1) n _ a (omega arith) h)
                      λ zs (c, d, _). returned (c, λ j l. d j l ∙ b j l)))
          (λ _. returned (e, λ j l. refl))

  raised-Below :
      (pos n : ℕ) (s : List F.Float × ℕ)
      → length s.0 ≡ n
      → pos < n
      → Returns
          (λ t.
            (length t.0 ≡ n)
            × Below pos s.0 t.0
            × Returns (λ x. F.less x (F.constant (plus 1 2)) ≡ false) (load t.0 pos))
          (raised F pos s)
  unfolding raised
  raised-Below pos n (xs, change) e h =
      let (x, a, _) = Returns-some (load-Returns xs pos (omega arith)) in
      rw a (
        Returns-if (F.less x (F.constant (plus 1 2)))
          (λ _. Returns-bind (store-Below xs pos pos n _ e (omega arith) h) λ ys (b, c, d).
            returned (b, c, rw d (returned (o.less_irrefl (F.constant (plus 1 2))))))
          (λ l. returned (e, (λ j k. refl), rw a (returned l))))

  lowered-Below :
      (pos n : ℕ) (s : List F.Float × ℕ)
      → length s.0 ≡ n
      → pos < n
      → Returns (λ x. F.less x (F.constant (plus 1 2)) ≡ false) (load s.0 pos)
      → Returns
          (λ t. (length t.0 ≡ n) × Below pos s.0 t.0 × Returns IsClamped (load t.0 pos))
          (lowered F pos s)
  unfolding lowered
  lowered-Below pos n (xs, change) e h r =
      let (x, a, p) = Returns-some r in
      rw a (
        Returns-if (F.less (F.constant (plus 314 2)) x)
          (λ _. Returns-bind (store-Below xs pos pos n _ e (omega arith) h) λ ys (b, c, d).
            returned (b, c, rw d (returned (sound, o.less_irrefl (F.constant (plus 314 2))))))
          (λ l. returned (e, (λ j k. refl), rw a (returned (p, l)))))

  check_pair-Below :
      (pos n : ℕ) (s : List F.Float × ℕ)
      → length s.0 ≡ n
      → pos + 1 < n
      → Returns
          (λ t. (length t.0 ≡ n) × Below pos s.0 t.0 × Returns IsClamped (load t.0 pos))
          (check_pair F pos s)
  unfolding check_pair
  check_pair-Below pos n s e h = Returns-bind (apart-Below pos n s e h) λ t (a, b).
      Returns-bind (raised-Below pos n t a (omega arith)) λ u (c, d, l).
        Returns-weaken (lowered-Below pos n u c (omega arith) l)
          λ v (f, g, k). (f, (λ j x. g j x ∙ d j x ∙ b j x), k)

  -- The frequencies before a position are clamped, but for the last one of each analysis.
  record IsDone (n dim stop : ℕ) (s : List F.Float × ℕ) : Type 0 where
    size : length s.0 ≡ n
    clamped :
        (m k : ℕ) → k + 1 < dim → m * dim + k < stop → Returns IsClamped (load s.0 (m * dim + k))

  check_pair-IsDone :
      (n dim pos : ℕ) (s : List F.Float × ℕ)
      → pos + 1 < n
      → IsDone n dim pos s
      → Returns (IsDone n dim (pos + 1)) (check_pair F pos s)
  check_pair-IsDone n dim pos s h w =
      Returns-weaken (check_pair-Below pos n s w.size h) λ t (a, b, c). record {
        size = a;
        clamped = λ m k l j. elim (le_or_lt pos (m * dim + k)) [
          | inl x ↦
              let e : pos ≡ m * dim + k = omega arith in
              subst (λ (i : ℕ). Returns IsClamped (load t.0 i)) e c
          | inr x ↦ rw (b (m * dim + k) x) (w.clamped m k l x)
        ];
      }

  -- The last position of an analysis is none of those that are asked for.
  skip_last :
      (m k dim i : ℕ)
      → k + 1 < dim
      → m * dim + k < (i + 1) * dim
      → m * dim + k < i * dim + (dim - 1)
  skip_last m k dim i h l = elim (le_or_lt m i) [
    | inl a ↦ omega (arith, h, mul-le-mul_right {m = m} {n = i} dim a)
    | inr a ↦ absurd (omega (arith, l, mul-le-mul_right {m = suc i} {n = m} dim a))
  ]

  IsDone-mono :
      (n dim a b : ℕ) (s : List F.Float × ℕ)
      → ((m k : ℕ) → k + 1 < dim → m * dim + k < b → m * dim + k < a)
      → IsDone n dim a s
      → IsDone n dim b s
  IsDone-mono n dim a b s f w = record {
    size = w.size;
    clamped = λ m k h l. w.clamped m k h (f m k h l);
  }

  pass-IsDone :
      (dim no_an : ℕ) (s : List F.Float × ℕ)
      → length s.0 ≡ no_an * dim
      → Returns
          (IsDone (no_an * dim) dim (no_an * dim))
          (for no_an 0 (λ m s. for (dim - 1) 0 (λ k s. check_pair F (m * dim + k) s) s) s)
  pass-IsDone dim no_an s e =
      let n = no_an * dim in
      for-Returns_at (λ m s. IsDone n dim (m * dim) s) no_an 0 no_an _ s (omega arith)
        (record { size = e; clamped = λ m k h l. absurd (omega (arith, l)) })
        λ m s _ b v.
          Returns-weaken
            (for-Returns_at (λ k s. IsDone n dim (m * dim + k) s) (dim - 1) 0 (dim - 1) _ s
              (omega arith) (IsDone-mono n dim (m * dim) (m * dim + 0) s (λ i k h l. omega arith) v)
              λ k s _ c w.
                Returns-weaken
                  (check_pair-IsDone n dim (m * dim + k) s
                    (omega (arith, c, mul-le-mul_right {m = suc m} {n = no_an} dim b)) w)
                  λ t x.
                    IsDone-mono n dim (m * dim + k + 1) (m * dim + (k + 1)) t
                      (λ i k h l. omega arith) x)
            λ t w.
              IsDone-mono n dim (m * dim + (dim - 1)) ((m + 1) * dim) t
                (λ i k h l. skip_last i k dim m h l) w

  -- For frequencies of `noAn` analyses, `checkLSF` ends with no panic; then each frequency but the last of
  -- its analysis is neither below 0.01 nor above 3.14, where the comparison is a strict order with 0.01 not
  -- above 3.14.
  pub check_lsf-IsClamped :
      (lsf : List F.Float) (dim no_an : ℕ)
      → length lsf ≡ no_an * dim
      → Returns
          (λ s.
            (length s.0 ≡ no_an * dim)
            × ((m k : ℕ) → m < no_an → k + 1 < dim → Returns IsClamped (load s.0 (m * dim + k))))
          (check_lsf F lsf dim no_an)
  unfolding check_lsf for
  check_lsf-IsClamped lsf dim no_an e = Returns-bind (pass-IsDone dim no_an (lsf, 0) e) λ s v.
      Returns-bind (pass-IsDone dim no_an s v.size) λ t w. returned (
        w.size,
        λ m k h l.
            w.clamped m k l (omega (arith, l, mul-le-mul_right {m = suc m} {n = no_an} dim h)),
      )
