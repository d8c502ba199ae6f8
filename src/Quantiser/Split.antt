-- ===== src/Quantiser/Split.antt =====
-- The indices that the vector quantiser of src/helpfun.go returns.
use i_lbc_go.Prelude.{
  ℕ, zero, suc, ◌+◌, ◌*◌, ◌≤◌, ◌<◌, ◌≡◌, refl, sym, ap, ◌∙◌, subst, arith, Bool, true, false, List,
  [], ◌∷◌, ◌++◌, Option, none, some, if◌then◌else◌, le→ltb, length, length-drop, length-take,
  length-append, take, drop,
}
use i_lbc_go.Bitstream.{◌>>=◌}
use i_lbc_go.Floats.{Floats, plus}
use i_lbc_go.Gain.{better}
use i_lbc_go.Quantiser.{more_distance, vq_distance, vq_loop, vq_entry, vq, split_vq, square}

-- The sizes of the parts, and the entries of their codebooks.
abbrev pub total : List ℕ → ℕ
total [] = 0
total (d ∷ dim) = d + total dim

abbrev pub entries : List ℕ → List ℕ → ℕ
entries [] cbsize = 0
entries (d ∷ dim) [] = 0
entries (d ∷ dim) (size ∷ cbsize) = d * size + entries dim cbsize

-- Parts that are not empty, each with a codebook that is not.
abbrev pub IsSplit : List ℕ → List ℕ → Type 0
IsSplit [] [] = Unit
IsSplit [] (size ∷ cbsize) = ⊥
IsSplit (d ∷ dim) [] = ⊥
IsSplit (d ∷ dim) (size ∷ cbsize) = (0 < d) × (0 < size) × IsSplit dim cbsize

-- Each index is one of its codebook.
abbrev pub Below : List ℕ → List ℕ → Type 0
Below [] [] = Unit
Below [] (size ∷ cbsize) = ⊥
Below (i ∷ index) [] = ⊥
Below (i ∷ index) (size ∷ cbsize) = (i < size) × Below index cbsize

module _ (F : Floats) where
  more_distance_total :
      (dist : F.Float) (xs cb : List F.Float)
      → length xs ≤ length cb
      → (e : F.Float) × (more_distance F dist xs cb ≡ some e)
  unfolding more_distance
  more_distance_total dist [] cb h = (dist, refl)
  more_distance_total dist (x ∷ xs) [] h = absurd (omega arith)
  more_distance_total dist (x ∷ xs) (c ∷ cb) h =
      more_distance_total (F.add dist (square F (F.sub x c))) xs cb (omega arith)

  vq_distance_total :
      (x cb : List F.Float)
      → 0 < length x
      → length x ≤ length cb
      → (e : F.Float) × (vq_distance F x cb ≡ some e)
  unfolding vq_distance
  vq_distance_total [] cb p h = absurd (omega arith)
  vq_distance_total (x ∷ xs) [] p h = absurd (omega arith)
  vq_distance_total (x ∷ xs) (c ∷ cb) p h =
      more_distance_total (square F (F.sub x c)) xs cb (omega arith)

  better_lt :
      (dist : F.Float) (j n : ℕ) (best : ℕ × F.Float)
      → j < n
      → best.0 < n
      → (better F dist j best).0 < n
  better_lt dist j n best h i = step (F.less dist best.1)
    where
      step : (b : Bool) → (if b then (j, dist) else best).0 < n
      step true = h
      step false = i

  vq_loop_total :
      (m : ℕ) (x : List F.Float) (n : ℕ) (cb : List F.Float) (j : ℕ) (best : ℕ × F.Float)
      → 0 < length x
      → length x * n ≤ length cb
      → best.0 < m
      → j + n ≤ m
      → (result : ℕ × F.Float) × (vq_loop F x n cb j best ≡ some result) × (result.0 < m)
  unfolding vq_loop
  vq_loop_total m x zero cb j best p h i k = (best, refl, i)
  vq_loop_total m x (suc n) cb j best p h i k =
      let more : length x * suc n ≡ length x + length x * n = Nat_mul_suc (length x) n in
      let (dist, e) = vq_distance_total x cb p (omega (arith, more)) in
      let (result, q, r) =
        vq_loop_total m x n (drop (length x) cb) (j + 1) (better F dist j best) p
          (omega (arith, more, length-drop (length x) cb)) (better_lt dist j m best (omega arith) i)
          (omega arith) in
      (
        result,
        ap
              (λ (o : Option F.Float).
                o >>= λ d. vq_loop F x n (drop (length x) cb) (j + 1) (better F d j best))
              e
            ∙ q,
        r,
      )
    where
      Nat_mul_suc : (a b : ℕ) → a * suc b ≡ a + a * b
      Nat_mul_suc a b = grind arith

  -- A codebook with an entry in it: `vq` ends, with one of its indices and an entry of the right size.
  vq_total :
      (x cb : List F.Float) (n : ℕ)
      → 0 < length x
      → 0 < n
      → length x * n ≤ length cb
      → (xq : List F.Float) × (t : ℕ) × (vq F x cb n ≡ some (xq, t))
        × (length xq ≡ length x)
        × (t < n)
  unfolding vq
  vq_total x cb n p z h =
      let start : ℕ × F.Float = (0, F.constant (plus 10000000000000000000000000000000000000 0)) in
      let (best, e, i) = vq_loop_total n x n cb 0 start p h z (omega arith) in
      let room : length x ≤ length (drop (best.0 * length x) cb) =
        omega (arith, length-drop (best.0 * length x) cb, fits (length x) best.0 n i) in
      (
        take (length x) (drop (best.0 * length x) cb),
        best.0,
        ap (λ (o : Option (ℕ × F.Float)). o >>= λ b. vq_entry F (length x) cb b.0) e
            ∙ ap
                (λ (b : Bool).
                  if b then none else some (take (length x) (drop (best.0 * length x) cb), best.0))
                (le→ltb _ _ room),
        omega (arith, length-take (length x) (drop (best.0 * length x) cb), room),
        i,
      )
    where
      fits : (d t n : ℕ) → t < n → t * d + d ≤ d * n
      fits d t n h = grind arith

  -- Parts that are not empty and codebooks that are not, in arrays that are long enough: `splitVQ` ends with
  -- no panic, each index is one of its codebook, and the quantised parts have the sizes of the parts.
  pub split_vq_lem :
      (x cb : List F.Float) (dim cbsize : List ℕ)
      → IsSplit dim cbsize
      → total dim ≤ length x
      → entries dim cbsize ≤ length cb
      → (xq : List F.Float) × (index : List ℕ) × (split_vq F x cb dim cbsize ≡ some (xq, index))
        × (length xq ≡ total dim)
        × Below index cbsize
  unfolding split_vq
  split_vq_lem x cb [] [] v h k = ([], [], refl, refl, tt)
  split_vq_lem x cb [] (size ∷ cbsize) v h k = absurd v
  split_vq_lem x cb (d ∷ dim) [] v h k = absurd v
  split_vq_lem x cb (d ∷ dim) (size ∷ cbsize) (p, z, v) h k =
      let part : length (take d x) ≡ d = omega (arith, length-take d x) in
      let (q, t, e, n, i) =
        vq_total (take d x) cb size (omega (arith, part)) z
          (subst (λ (l : ℕ). l * size ≤ length cb) (sym part) (omega arith)) in
      let (qs, ts, es, ns, is) =
        split_vq_lem (drop d x) (drop (d * size) cb) dim cbsize v (omega (arith, length-drop d x))
          (omega (arith, length-drop (d * size) cb)) in
      (
        q ++ qs,
        t ∷ ts,
        ap
              (λ (b : Bool). (if b then none else vq F (take d x) cb size) >>= λ first.
                split_vq F (drop d x) (drop (d * size) cb) dim cbsize >>= λ rest.
                some (first.0 ++ rest.0, first.1 ∷ rest.1))
              (le→ltb _ _ (omega arith))
            ∙ ap
                (λ (o : Option (List F.Float × ℕ)). o >>= λ first.
                  split_vq F (drop d x) (drop (d * size) cb) dim cbsize >>= λ rest.
                  some (first.0 ++ rest.0, first.1 ∷ rest.1))
                e
            ∙ ap
                (λ (o : Option (List F.Float × List ℕ)).
                  o >>= λ rest. some (q ++ rest.0, t ∷ rest.1))
                es,
        omega (arith, length-append q qs, n, part, ns),
        (i, is),
      )
