-- ===== src/StateSearch/Levels.antt =====
-- The indices that the quantiser of the start state chooses fit their fields.
use i_lbc_go.Prelude.{
  some, ℕ, zero, suc, ◌+◌, ◌-◌, ◌*◌, ◌≤◌, ◌<◌, ◌≡◌, refl, ◌∙◌, arith, Bool, true, ◌&&◌, List,
  length, map, replicate, All, length-replicate, ltb, ◌==◌, Bool-cases, inl, inr,
}
use i_lbc_go.Arrays.{
  load, Returns, returned, Returns-bind, Returns-weaken, Returns-if, Any, Sized, store-All,
  load-Found, load-Returns, load_back-Returns, store-Returns, slice-Returns, blit-Returns,
  for-Returns, for-Returns_at,
}
use i_lbc_go.Floats.{plus, Floats, IsTotal, nought}
use i_lbc_go.Filter.Total.{all_pole_filter-Returns, zero_pole_filter-Returns}
use i_lbc_go.StartState.{state_sq3_tbl, state_frgq_tbl}
use i_lbc_go.StartState.Construct.{IsLevel, reversed_coefficients-Returns}
use i_lbc_go.StateSearch.{
  Quantising, ascend, nearer, sort_sq, boundary, next_subframe, quantise_sample, abs_quant_w,
  folded_response, largest, state_search_w,
}

module _ (F : Floats) where
  -- With as much fuel as there are entries, the loop ends, with an entry.
  ascend-Returns :
      (x : F.Float) (cb : List F.Float) (size fuel i : ℕ)
      → size ≤ length cb
      → i < size
      → size ≤ fuel + i
      → Returns (λ j. (i ≤ j) × (j < size)) (ascend F x cb size fuel i)
  unfolding ascend
  ascend-Returns x cb size zero i a b c = absurd (omega arith)
  ascend-Returns x cb size (suc fuel) i a b c =
      Returns-bind (load-Returns cb i (omega arith)) λ v _.
        Returns-if (F.less v x && ltb i (size - 1))
          (λ e.
            let l = inner _ i size e in
            Returns-weaken (ascend-Returns x cb size fuel (i + 1) a (omega arith) (omega arith))
              λ j (p, q). (omega arith, q))
          (λ _. returned (omega arith, b))
    where
      inner : (p : Bool) (i n : ℕ) → p && ltb i (n - 1) ≡ true → i < n - 1
      inner p i n e = ground arith

  nearer-Returns :
      (x : F.Float) (cb : List F.Float) (size i : ℕ)
      → size ≤ length cb
      → 1 ≤ i
      → i < size
      → Returns (λ r. r.1 < size) (nearer F x cb i)
  unfolding nearer
  nearer-Returns x cb size i a b c = Returns-bind (load-Returns cb i (omega arith)) λ u _.
      Returns-bind (load_back-Returns cb i 1 b (omega arith)) λ v _.
        elim (Bool-cases (F.less (F.div (F.add u v) (F.constant (plus 2 0))) x)) [
          | inl e ↦ rw e (returned c)
          | inr e ↦ rw e (returned (omega arith))
        ]

  -- Above the first entry the loop leaves it.
  ascend_first :
      (x : F.Float) (cb : List F.Float) (m : ℕ) (c : F.Float)
      → suc (suc m) ≤ length cb
      → load cb 0 ≡ some c
      → F.less c x ≡ true
      → Returns (λ j. (1 ≤ j) × (j < suc (suc m))) (ascend F x cb (suc (suc m)) (suc (suc m)) 0)
  unfolding ascend
  ascend_first x cb m c a e l =
      let first : (F.less c x && ltb 0 (suc (suc m) - 1)) ≡ true = rw l (more m) in
      rw (e, first)
        (Returns-weaken
          (ascend-Returns x cb (suc (suc m)) (suc m) (0 + 1) a (omega arith) (omega arith))
          λ j (p, q). (omega arith, q))
    where
      more : (m : ℕ) → ltb 0 (suc (suc m) - 1) ≡ true
      more m = ground arith

  -- Where no comparison has a NaN, for at least two entries: `sortSq` ends with no panic, with an index of the
  -- codebook.
  pub sort_sq-Returns :
      (x : F.Float) (cb : List F.Float) (m : ℕ)
      → IsTotal F
      → suc (suc m) ≤ length cb
      → Returns (λ r. r.1 < suc (suc m)) (sort_sq F x cb (suc (suc m)))
  unfolding sort_sq
  sort_sq-Returns x cb m o a = Returns-bind (load-Found cb 0 (omega arith)) λ c e.
      Returns-if (F.less_eq x c) (λ _. returned (omega arith))
        (λ n.
          Returns-bind (ascend_first x cb m c a e (o.less_total x c n))
            λ i (p, q). nearer-Returns x cb (suc (suc m)) i a p q)

  -- The arrays in a round of `absQuantW`.
  record IsQuantising (len split n : ℕ) (q : Quantising F) : Type 0 where
    input_size : length q.input ≡ 126
    synt_out_size : length q.synt_out ≡ 68
    out_size : length q.out ≡ 80
    levels : All IsLevel q.out
    before : n ≤ split → q.moved ≡ 0
    moved_le : q.moved ≤ 11

  next_subframe-Returns :
      (weight : List F.Float) (wo len split n : ℕ) (q : Quantising F)
      → wo + 22 ≤ length weight
      → len ≤ 58
      → n < len
      → IsQuantising len split n q
      → Returns (IsQuantising len split (n + 1)) (next_subframe F 10 weight wo len split n q)
  unfolding next_subframe
  next_subframe-Returns weight wo len split n q h l b w =
      Returns-if (n == split)
        (λ e.
          let z = w.before (at_split n split e) in
          Returns-bind
            (all_pole_filter-Returns F q.input (10 + n) weight (wo + (q.moved + 11)) (len - n) 10
              126 w.input_size (omega arith) (omega arith) (omega (arith, z, h)))
            λ xs s. returned (record {
              input_size = s;
              synt_out_size = w.synt_out_size;
              out_size = w.out_size;
              levels = w.levels;
              before = λ k. absurd (past n split e k);
              moved_le = omega (arith, z);
            }))
        (λ e. returned (record {
          input_size = w.input_size;
          synt_out_size = w.synt_out_size;
          out_size = w.out_size;
          levels = w.levels;
          before = λ k. w.before (omega arith);
          moved_le = w.moved_le;
        }))
    where
      at_split : (n s : ℕ) → (n == s) ≡ true → n ≤ s
      at_split n s e = ground arith

      past : (n s : ℕ) → (n == s) ≡ true → n + 1 ≤ s → ⊥
      past n s e k = ground arith

  quantise_sample-Returns :
      (weight : List F.Float) (wo len split n : ℕ) (q : Quantising F)
      → IsTotal F
      → wo + 22 ≤ length weight
      → len ≤ 58
      → n < len
      → IsQuantising len split (n + 1) q
      → Returns (IsQuantising len split (n + 1)) (quantise_sample F 10 weight wo n q)
  unfolding quantise_sample
  quantise_sample-Returns weight wo len split n q o h l b w =
      let m = w.moved_le in
      Returns-bind (store-Returns q.synt_out (10 + n) _ (omega (arith, w.synt_out_size))) λ xs s.
        Returns-bind
          (all_pole_filter-Returns F xs (10 + n) weight (wo + q.moved) 1 10 68 (s ∙ w.synt_out_size)
            (omega arith) (omega arith) (omega arith))
          λ ys t. Returns-bind (load-Returns q.input (10 + n) (omega (arith, w.input_size))) λ x _.
            Returns-bind (load-Returns ys (10 + n) (omega arith)) λ y _.
              Returns-bind
                (sort_sq-Returns (F.sub x y) (map F.constant state_sq3_tbl) 6 o (omega arith))
                λ (xq, index) k.
                  Returns-bind
                    (store-All IsLevel q.out n index w.levels k (omega (arith, w.out_size)))
                    λ out (u, a).
                      Returns-bind (load-Returns (map F.constant state_sq3_tbl) index k) λ v _.
                        Returns-bind (store-Returns ys (10 + n) v (omega arith)) λ zs c.
                          Returns-bind
                            (all_pole_filter-Returns F zs (10 + n) weight (wo + q.moved) 1 10 68
                              (c ∙ t) (omega arith) (omega arith) (omega arith))
                            λ us e. returned (record {
                              input_size = w.input_size;
                              synt_out_size = e;
                              out_size = u ∙ w.out_size;
                              levels = a;
                              before = w.before;
                              moved_le = m;
                            })

  abs_quant_w-Returns :
      (short : ℕ) (input weight : List F.Float) (wo : ℕ) (out : List ℕ) (len state_first : ℕ)
      → IsTotal F
      → length input ≡ 126
      → wo + 22 ≤ length weight
      → length out ≡ 80
      → All IsLevel out
      → len ≤ 58
      → short ≤ 58
      → Returns
          (λ idx. (length idx ≡ 80) × All IsLevel idx)
          (abs_quant_w F short input 10 weight wo out len state_first)
  unfolding abs_quant_w
  abs_quant_w-Returns short input weight wo out len state_first o s h t a l k =
      let split = boundary short state_first in
      Returns-bind
        (all_pole_filter-Returns F input 10 weight wo split 10 126 s (omega arith)
          (omega (arith, split_le short state_first k)) (omega arith))
        λ xs u.
          Returns-bind
            (for-Returns_at (IsQuantising len split) len 0 len _ _ (omega arith)
              (record {
                input_size = u;
                synt_out_size = refl;
                out_size = t;
                levels = a;
                before = λ _. refl;
                moved_le = omega arith;
              })
              λ n q _ b w.
                Returns-bind (next_subframe-Returns weight wo len split n q h l b w)
                  λ r v. quantise_sample-Returns weight wo len split n r o h l b v)
            λ q w. returned (w.out_size, w.levels)
    where
      split_le : (short f : ℕ) → short ≤ 58 → boundary short f ≤ 58
      split_le short f h = ground arith

  folded_response-Returns :
      (residual : List F.Float) (ro : ℕ) (synt : List F.Float) (so len : ℕ)
      → ro + len ≤ length residual
      → so + 10 < length synt
      → len ≤ 58
      → Returns (Sized 126) (folded_response F residual ro synt so len)
  unfolding folded_response
  folded_response-Returns residual ro synt so len h k l =
      Returns-bind (reversed_coefficients-Returns F synt so k) λ num s.
        Returns-bind (slice-Returns residual ro len h) λ r t.
          Returns-bind (blit-Returns (replicate 126 (nought F)) 10 r (omega arith)) λ xs u.
            Returns-bind
              (blit-Returns xs (10 + len) (replicate len (nought F))
                (omega (arith, length-replicate len (nought F))))
              λ ys v.
                Returns-bind
                  (zero_pole_filter-Returns F ys 10 num 0 synt so (2 * len) 10
                    (replicate 126 (nought F)) 10 126 refl (omega arith) (omega arith) (omega arith)
                    (omega arith) (omega arith) k)
                  λ zs w. for-Returns (Sized 126) len 0 _ zs w λ i us _ b e.
                    Returns-bind (load-Returns us (10 + i) (omega arith)) λ x _.
                      Returns-bind (load-Returns us (10 + i + len) (omega arith)) λ y _.
                        Returns-weaken (store-Returns us (10 + i) _ (omega arith)) λ vs f. f ∙ e

  -- Where no comparison has a NaN, for a state of at most 58 samples: `stateSearchW` ends with no panic, with an
  -- index of six bits for the scale and indices of three bits for the samples.
  pub state_search_w-Returns :
      (short : ℕ) (residual : List F.Float) (ro : ℕ) (synt : List F.Float) (so : ℕ)
      (weight : List F.Float) (wo : ℕ) (idx_vec : List ℕ) (len state_first : ℕ)
      → IsTotal F
      → ro + len ≤ length residual
      → so + 10 < length synt
      → wo + 22 ≤ length weight
      → length idx_vec ≡ 80
      → All IsLevel idx_vec
      → len ≤ 58
      → short ≤ 58
      → Returns
          (λ r. (r.0 < 64) × (length r.1 ≡ 80) × All IsLevel r.1)
          (state_search_w F short residual ro synt so weight wo idx_vec len state_first)
  unfolding state_search_w largest
  state_search_w-Returns short residual ro synt so weight wo idx_vec len state_first o h k m s a l
        p =
      Returns-bind (folded_response-Returns residual ro synt so len h k l) λ fout t.
        Returns-bind
          (Returns-bind (load-Returns fout 10 (omega arith)) λ x _.
            for-Returns Any (len - 1) 1 _ x tt λ i v _ b _.
              Returns-bind (load-Returns fout (10 + i) (omega arith)) λ y _. returned tt)
          λ x _.
            Returns-bind (sort_sq-Returns _ (map F.constant state_frgq_tbl) 62 o (omega arith))
              λ (xq, idx) q.
                Returns-bind (load-Returns (map F.constant state_frgq_tbl) idx q) λ v _.
                  Returns-bind
                    (for-Returns (Sized 126) len 0 _ fout t λ i us _ b e.
                      Returns-bind (load-Returns us (10 + i) (omega arith)) λ y _.
                        Returns-weaken (store-Returns us (10 + i) _ (omega arith)) λ vs f. f ∙ e)
                    λ ys u.
                      Returns-bind
                        (abs_quant_w-Returns short ys weight wo idx_vec len state_first o u m s a l
                          p)
                        λ zs w. returned (q, w.0, w.1)
