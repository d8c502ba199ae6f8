-- ===== src/Classify/Range.antt =====
-- The start position that `frameClassify` chooses is one that the decoder accepts.
use i_lbc_go.Prelude.{
  some, ℕ, ◌+◌, ◌-◌, ◌*◌, ◌≤◌, ◌<◌, ◌≡◌, refl, ◌∙◌, arith, List, length, map, if◌then◌else◌, ◌==◌,
  Bool-cases, inl, inr,
}
use i_lbc_go.Arrays.{
  Returns, returned, Returns-bind, Returns-weaken, Any, Sized, load-Returns, load_back-Returns,
  store-Returns, for-Returns, for-Returns_at,
}
use i_lbc_go.Floats.{Floats}
use i_lbc_go.Layout.{FrameShape, frame_shape}
use i_lbc_go.Frame.RoundTrip.{frame_shape-cases}
use i_lbc_go.Packet.Receive.{IsStart}
use i_lbc_go.Classify.{
  ssq_en_win, samp_en_win, Choice, add_plain, add_rising, add_falling, subframe_energies, energies,
  pair_energy, larger_pair, frame_classify,
}

module _ (F : Floats) (residual : List F.Float) where
  add_plain-Returns :
      (n l : ℕ) (en : List F.Float)
      → n * 40 + l < length residual
      → n < 6
      → length en ≡ 6
      → Returns (Sized 6) (add_plain F residual n l en)
  unfolding add_plain
  add_plain-Returns n l en h k e = Returns-bind (load-Returns en n (omega arith)) λ v _.
      Returns-bind (load-Returns residual (n * 40 + l) h)
        λ x _. Returns-weaken (store-Returns en n _ (omega arith)) λ ys t. t ∙ e

  add_rising-Returns :
      (n l : ℕ) (en : List F.Float)
      → l < 5
      → n * 40 + l < length residual
      → n < 6
      → length en ≡ 6
      → Returns (Sized 6) (add_rising F residual n l en)
  unfolding add_rising
  add_rising-Returns n l en b h k e = Returns-bind (load-Returns en n (omega arith)) λ v _.
      Returns-bind (load-Returns (map F.constant samp_en_win) l b) λ w _.
        Returns-bind (load-Returns residual (n * 40 + l) h)
          λ x _. Returns-weaken (store-Returns en n _ (omega arith)) λ ys t. t ∙ e

  add_falling-Returns :
      (n l : ℕ) (en : List F.Float)
      → 35 ≤ l
      → l < 40
      → n * 40 + l < length residual
      → n < 6
      → length en ≡ 6
      → Returns (Sized 6) (add_falling F residual n l en)
  unfolding add_falling
  add_falling-Returns n l en a b h k e = Returns-bind (load-Returns en n (omega arith)) λ v _.
      Returns-bind (load_back-Returns (map F.constant samp_en_win) 39 l (omega arith) (omega arith))
        λ w _.
          Returns-bind (load-Returns residual (n * 40 + l) h)
            λ x _. Returns-weaken (store-Returns en n _ (omega arith)) λ ys t. t ∙ e

  abbrev Both : List F.Float × List F.Float → Type 0
  Both s = (length s.0 ≡ 6) × (length s.1 ≡ 6)

  subframe_energies-Returns :
      (n : ℕ) (s : List F.Float × List F.Float)
      → n * 40 + 40 ≤ length residual
      → n < 6
      → Both s
      → Returns Both (subframe_energies F residual n s)
  unfolding subframe_energies
  subframe_energies-Returns n s h k v =
      Returns-bind
        (for-Returns Both 5 0 _ s v λ l s _ b (p, q).
          Returns-bind (add_rising-Returns n l s.0 (omega arith) (omega arith) k p) λ f t.
            Returns-bind (add_plain-Returns n l s.1 (omega arith) k q) λ g u. returned (t, u))
        λ s v.
          Returns-bind
            (for-Returns Both 30 5 _ s v λ l s _ b (p, q).
              Returns-bind (add_plain-Returns n l s.0 (omega arith) k p) λ f t.
                Returns-bind (add_plain-Returns n l s.1 (omega arith) k q) λ g u. returned (t, u))
            λ s v. for-Returns Both 5 35 _ s v λ l s a b (p, q).
              Returns-bind (add_plain-Returns n l s.0 (omega arith) k p) λ f t.
                Returns-bind (add_falling-Returns n l s.1 a (omega arith) (omega arith) k q)
                  λ g u. returned (t, u)

  energies-Returns :
      (subframes : ℕ)
      → 2 ≤ subframes
      → subframes ≤ 6
      → subframes * 40 ≤ length residual
      → Returns Both (energies F subframes residual)
  unfolding energies
  energies-Returns subframes a c h =
      Returns-bind
        (for-Returns (Sized 6) 5 0 _ _ refl
          λ l f _ b t. add_rising-Returns 0 l f (omega arith) (omega arith) (omega arith) t)
        λ f t.
          Returns-bind
            (for-Returns (Sized 6) 35 5 _ f t
              λ l f _ b t. add_plain-Returns 0 l f (omega arith) (omega arith) t)
            λ f t.
              Returns-bind
                (for-Returns Both (subframes - 2) 1 _ (f, _) (t, refl)
                  λ n s _ b v. subframe_energies-Returns n s (omega arith) (omega arith) v)
                λ (f, g) (t, u).
                  Returns-bind
                    (for-Returns (Sized 6) 35 0 _ g u λ l g _ b u.
                      add_plain-Returns (subframes - 1) l g (omega arith) (omega arith) u)
                    λ g u.
                      Returns-bind
                        (for-Returns (Sized 6) 5 35 _ g u λ l g d b u.
                          add_falling-Returns (subframes - 1) l g d (omega arith) (omega arith)
                            (omega arith) u)
                        λ g u. returned (t, u)

  pair_energy-Returns :
      (f b : List F.Float) (n l : ℕ)
      → Both (f, b)
      → 1 ≤ n
      → n < 6
      → l < 5
      → Returns Any (pair_energy F f b n l)
  unfolding pair_energy
  pair_energy-Returns f b n l (t, u) h k j =
      Returns-bind (load_back-Returns f n 1 h (omega arith)) λ x _.
        Returns-bind (load-Returns b n (omega arith))
          λ y _. Returns-bind (load-Returns (map F.constant ssq_en_win) l j) λ w _. returned tt

  -- For each mode, with a residual of a frame: `frameClassify` ends with no panic, with a start position that
  -- the decoder accepts.
  pub frame_classify-IsStart :
      (mode : ℕ) (s : FrameShape)
      → frame_shape mode ≡ some s
      → s.frame_samples ≤ length residual
      → Returns (IsStart s) (frame_classify F s residual)
  unfolding frame_classify larger_pair
  frame_classify-IsStart mode s m h =
      let z = dims mode s m in
      let first : ℕ = (if s.mode == 20 then 1 else 0) in
      Returns-bind
        (energies-Returns s.subframes (omega (arith, z)) (omega (arith, z)) (omega (arith, z, h)))
        λ (f, b) v.
          Returns-bind
            (pair_energy-Returns f b 1 first v (omega arith) (omega arith) (omega (arith, z)))
            λ e _.
              Returns-bind
                (for-Returns_at
                  (λ n (c : Choice F).
                    (1 ≤ c.at) × (c.at < s.subframes) × (c.window_index + 2 ≡ first + n))
                  (s.subframes - 2) 2 s.subframes _ _ (omega (arith, z))
                  (omega arith, omega (arith, z), refl)
                  λ n c p q (x, y, w).
                    Returns-bind
                      (pair_energy-Returns f b n (c.window_index + 1) v (omega arith)
                        (omega (arith, q, z)) (omega (arith, q, z, w)))
                      λ e _. elim (Bool-cases (F.less c.energy e)) [
                        | inl k ↦ rw k (returned (omega arith, q, omega (arith, w)))
                        | inr k ↦ rw k (returned (x, y, omega (arith, w)))
                      ])
                λ c (x, y, _). returned (x, y)
    where
      dims :
          (mode : ℕ) (s : FrameShape)
          → frame_shape mode ≡ some s
          → (4 ≤ s.subframes)
            × (s.subframes ≤ 6)
            × ((if s.mode == 20 then 1 else 0) + s.subframes ≤ 6)
            × (s.subframes * 40 ≡ s.frame_samples)
      dims mode s m = elim (frame_shape-cases mode m) [
        | inl e ↦ rw e (omega arith, omega arith, omega arith, refl)
        | inr e ↦ rw e (omega arith, omega arith, omega arith, refl)
      ]
