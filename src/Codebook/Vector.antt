-- ===== src/Codebook/Vector.antt =====
-- `getCBvec` (src/getcbvec.go) stays within its arrays for every index of the codebook.
use i_lbc_go.Prelude.{
  ℕ, ◌+◌, ◌-◌, ◌*◌, ◌/◌, ◌≤◌, ◌<◌, ◌≡◌, refl, ◌∙◌, arith, Bool, true, false, List, length, map,
  replicate, length-replicate, if◌then◌else◌, ltb, ltb→lt, ◌==◌,
}
use i_lbc_go.Arrays.{
  Returns, returned, Returns-bind, Returns-weaken, Returns-if, Sized, load-Returns,
  load_back-Returns, store-Returns, slice-Returns, slice_back-Returns, blit-Returns,
  minus_length-Returns, for-Returns,
}
use i_lbc_go.Floats.{Floats, nought}
use i_lbc_go.Codebook.{
  cbfilters_tbl, base_size, fade, augmented, filter_tap, extended_memory, filtered, plain_vector,
  filtered_vector, filtered_augmented, get_cb_vec,
}

-- A memory, a vector length and an index that go together: 40 samples from 147, or 22 or 23 from 85.
pub record IsCode (l_mem cbveclen index : ℕ) : Type 0 where
  pub size_ge : 10 ≤ cbveclen
  pub size_le : cbveclen ≤ 40
  pub mem_ge : 2 * cbveclen ≤ l_mem
  pub mem_le : l_mem ≤ 147
  pub index_le : index ≤ base_size l_mem cbveclen + (l_mem + 1 - cbveclen) + cbveclen / 2

-- The section between the plain vectors and `baseSize` has half as many as a vector is long.
base_size_le : (l_mem cbveclen : ℕ) → base_size l_mem cbveclen ≤ l_mem + 1 - cbveclen + cbveclen / 2
base_size_le l_mem cbveclen = half (cbveclen == 40)
  where
    half :
        (b : Bool)
        → (if b then l_mem + 1 - cbveclen + cbveclen / 2 else l_mem + 1 - cbveclen)
          ≤ l_mem + 1 - cbveclen + cbveclen / 2
    half true = omega arith
    half false = omega arith

module _ (F : Floats) where
  fade-Returns :
      (mem : List F.Float) (end k j : ℕ) (s : List F.Float × F.Float)
      → length s.0 ≡ 40
      → k ≤ end
      → end + j < length mem + k / 2
      → j < 40
      → Returns (λ t. length t.0 ≡ 40) (fade F mem end k j s)
  unfolding fade
  fade-Returns mem end k j (cbvec, alfa) s h i l =
      Returns-bind (load_back-Returns mem (end + j) (k / 2) (omega arith) i) λ a _.
        Returns-bind (load_back-Returns mem (end + j) k (omega arith) (omega arith))
          λ b _. Returns-bind (store-Returns cbvec j _ (omega arith)) λ ys t. returned (t ∙ s)

  augmented-Returns :
      (mem : List F.Float) (end k cbveclen : ℕ) (cbvec : List F.Float)
      → length cbvec ≡ 40
      → end ≤ length mem
      → k ≤ end
      → 10 ≤ k
      → k / 2 ≤ cbveclen
      → cbveclen ≤ k
      → cbveclen ≤ 40
      → Returns (Sized 40) (augmented F mem end k cbveclen cbvec)
  unfolding augmented
  augmented-Returns mem end k cbveclen cbvec s h i l m v c =
      Returns-bind (minus_length-Returns (k / 2) 5 (omega arith)) λ ilow e.
        Returns-bind (slice_back-Returns mem end (k / 2) ilow (omega arith) (omega arith))
          λ first f. Returns-bind (blit-Returns cbvec 0 first (omega arith)) λ xs t.
            Returns-bind
              (for-Returns (λ r. length r.0 ≡ 40) 5 ilow _ (xs, nought F) (t ∙ s)
                λ j r a b u. fade-Returns mem end k j r u i (omega arith) (omega arith))
              λ r u. Returns-bind (minus_length-Returns cbveclen (k / 2) m) λ rest g.
                Returns-bind
                  (slice_back-Returns mem (end + k / 2) k rest (omega arith) (omega arith))
                  λ last w.
                    Returns-weaken (blit-Returns r.0 (k / 2) last (omega arith)) λ ys q. q ∙ u

  filter_tap-Returns :
      (extended : List F.Float) (start pos j n : ℕ) (out : List F.Float)
      → length out ≡ n
      → pos < n
      → j < 8
      → start + j < length extended
      → Returns (Sized n) (filter_tap F extended start pos j out)
  unfolding filter_tap
  filter_tap-Returns extended start pos j n out e h i l =
      Returns-bind (load-Returns out pos (omega arith)) λ v _.
        Returns-bind (load-Returns extended (start + j) l) λ x _.
          Returns-bind
            (load_back-Returns (map F.constant cbfilters_tbl) 7 j (omega arith) (omega arith))
            λ c _. Returns-weaken (store-Returns out pos _ (omega arith)) λ ys t. t ∙ e

  extended_memory-Returns :
      (mem : List F.Float) (mo l_mem : ℕ)
      → mo + l_mem ≤ length mem
      → l_mem ≤ 147
      → Returns (Sized 156) (extended_memory F mem mo l_mem)
  unfolding extended_memory
  extended_memory-Returns mem mo l_mem h i =
      Returns-bind
        (blit-Returns (replicate 156 (nought F)) 0 (replicate 4 (nought F)) (omega arith))
        λ xs s. Returns-bind (slice-Returns mem mo l_mem h) λ m t.
          Returns-bind (blit-Returns xs 4 m (omega arith)) λ ys u.
            Returns-weaken (blit-Returns ys (l_mem + 4) (replicate 5 (nought F)) (omega arith))
              λ zs w. w ∙ u ∙ s

  filtered-Returns :
      (extended : List F.Float) (s_filt count o n : ℕ) (out : List F.Float)
      → length extended ≡ 156
      → length out ≡ n
      → o + count ≤ n
      → s_filt + count ≤ 147
      → Returns (Sized n) (filtered F extended s_filt count out o)
  unfolding filtered
  filtered-Returns extended s_filt count o n out e s h i =
      Returns-bind
        (blit-Returns out o (replicate count (nought F))
          (omega (arith, length-replicate count (nought F))))
        λ xs t. for-Returns (Sized n) count 0 _ xs (t ∙ s) λ m ys _ b u.
          for-Returns (Sized n) 8 0 _ ys u λ j zs _ d w.
            filter_tap-Returns extended (s_filt + 1 + m) (o + m) j n zs w (omega arith)
              (omega arith) (omega arith)

  plain_vector-Returns :
      (mem : List F.Float) (end k cbveclen : ℕ) (cbvec : List F.Float)
      → length cbvec ≡ 40
      → cbveclen ≤ 40
      → k ≤ end
      → cbveclen ≤ k
      → end ≤ length mem
      → Returns (Sized 40) (plain_vector F mem end k cbveclen cbvec)
  unfolding plain_vector
  plain_vector-Returns mem end k cbveclen cbvec s h i l m =
      Returns-bind (slice_back-Returns mem end k cbveclen i (omega arith))
        λ v e. Returns-weaken (blit-Returns cbvec 0 v (omega arith)) λ ys t. t ∙ s

  filtered_vector-Returns :
      (mem : List F.Float) (mo l_mem k cbveclen : ℕ) (cbvec : List F.Float)
      → length cbvec ≡ 40
      → cbveclen ≤ 40
      → mo + l_mem ≤ length mem
      → l_mem ≤ 147
      → k ≤ l_mem
      → cbveclen ≤ k
      → Returns (Sized 40) (filtered_vector F mem mo l_mem k cbveclen cbvec)
  unfolding filtered_vector
  filtered_vector-Returns mem mo l_mem k cbveclen cbvec s h i l m v =
      Returns-bind (extended_memory-Returns mem mo l_mem i l) λ extended e.
        Returns-bind (minus_length-Returns l_mem k m) λ s_filt g.
          filtered-Returns extended s_filt cbveclen 0 40 cbvec e s (omega arith) (omega arith)

  filtered_augmented-Returns :
      (mem : List F.Float) (mo l_mem k cbveclen : ℕ) (cbvec : List F.Float)
      → length cbvec ≡ 40
      → cbveclen ≤ 40
      → mo + l_mem ≤ length mem
      → l_mem ≤ 147
      → k ≤ l_mem
      → 10 ≤ k
      → k / 2 ≤ cbveclen
      → cbveclen ≤ k
      → Returns (Sized 40) (filtered_augmented F mem mo l_mem k cbveclen cbvec)
  unfolding filtered_augmented
  filtered_augmented-Returns mem mo l_mem k cbveclen cbvec s h i l m v w c =
      Returns-bind (extended_memory-Returns mem mo l_mem i l) λ extended e.
        Returns-bind (minus_length-Returns l_mem k m) λ s_filt g.
          Returns-bind
            (filtered-Returns extended s_filt k s_filt 147 (replicate 147 (nought F)) e refl
              (omega arith) (omega arith))
            λ tmpbuf t. augmented-Returns tmpbuf l_mem k cbveclen cbvec s (omega arith) m v w c h

  -- For a memory, a length and an index that go together, `getCBvec` ends with no panic.
  pub get_cb_vec-Returns :
      (cbvec mem : List F.Float) (mo index l_mem cbveclen : ℕ)
      → length cbvec ≡ 40
      → mo + l_mem ≤ length mem
      → IsCode l_mem cbveclen index
      → Returns (Sized 40) (get_cb_vec F cbvec mem mo index l_mem cbveclen)
  unfolding get_cb_vec
  get_cb_vec-Returns cbvec mem mo index l_mem cbveclen s h c =
      let base = base_size_le l_mem cbveclen in
      Returns-if (ltb index (l_mem + 1 - cbveclen))
        (λ a.
          plain_vector-Returns mem (mo + l_mem) (index + cbveclen) cbveclen cbvec s c.size_le
            (omega (arith, ltb→lt _ _ a)) (omega arith) h)
        (λ a.
          Returns-if (ltb index (base_size l_mem cbveclen))
            (λ b.
              augmented-Returns mem (mo + l_mem) (2 * (index - (l_mem + 1 - cbveclen)) + cbveclen)
                cbveclen cbvec s h (omega (arith, ltb→lt _ _ b, base, c.mem_ge))
                (omega (arith, c.size_ge)) (omega (arith, ltb→lt _ _ b, base)) (omega arith)
                c.size_le)
            (λ b.
              Returns-if (ltb (index - base_size l_mem cbveclen) (l_mem + 1 - cbveclen))
                (λ d.
                  filtered_vector-Returns mem mo l_mem (index - base_size l_mem cbveclen + cbveclen)
                    cbveclen cbvec s c.size_le h c.mem_le (omega (arith, ltb→lt _ _ d, c.mem_ge))
                    (omega arith))
                (λ d.
                  filtered_augmented-Returns mem mo l_mem
                    (2 * (index - base_size l_mem cbveclen - (l_mem + 1 - cbveclen)) + cbveclen)
                    cbveclen cbvec s c.size_le h c.mem_le (omega (arith, c.index_le, c.mem_ge))
                    (omega (arith, c.size_ge)) (omega (arith, c.index_le)) (omega arith))))
