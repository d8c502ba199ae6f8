-- ===== src/Residual/Total.antt =====
-- `decode` (src/ilbc_decode.go) ends with no panic.
use i_lbc_go.Prelude.{
  ℕ, ◌+◌, ◌-◌, ◌*◌, ◌≤◌, ◌<◌, ◌≡◌, refl, subst, arith, true, false, List, length, if◌then◌else◌,
  ltb, ◌==◌,
}
use i_lbc_go.Arrays.{
  Returns, returned, Returns-bind, Returns-weaken, Returns-if, Sized, minus_length-Returns,
}
use i_lbc_go.Floats.{Floats}
use i_lbc_go.Layout.{FrameShape}
use i_lbc_go.Frame.{Indices}
use i_lbc_go.StartState.Construct.{state_construct_w-Returns}
use i_lbc_go.Residual.{decode}
use i_lbc_go.Residual.Phases.{
  IsDecodable, IsDecoding, extra_after-Returns, extra_before-Returns, forward-Returns,
  backward-Returns,
}

-- The dimensions of a frame: its start state is two subframes.
pub record IsShape (s : FrameShape) : Type 0 where
  pub subframes_eq : s.subframes ≡ s.adaptive_subframes + 2
  pub adaptive_le : s.adaptive_subframes ≤ 4
  pub state_ge : 57 ≤ s.short_state_samples
  pub state_le : s.short_state_samples ≤ 58

module _ (F : Floats) (s : FrameShape) (w : IsShape s) (f : Indices)
    (g : IsDecodable s.adaptive_subframes s.short_state_samples f) where
  -- With dimensions of a frame, indices that can be decoded, a valid start position and filters for every
  -- subframe: `decode` ends with no panic and leaves the residual of 240 samples.
  pub decode-Returns :
      (syntdenum residual : List F.Float)
      → 1 ≤ f.start
      → f.start < s.subframes
      → length syntdenum ≡ 66
      → length residual ≡ 240
      → Returns (Sized 240) (decode F s f syntdenum residual)
  unfolding decode
  decode-Returns syntdenum residual a b e r =
      Returns-bind (minus_length-Returns 80 s.short_state_samples (omega (arith, w.state_le)))
        λ diff z. Returns-bind (minus_length-Returns f.start 1 a) λ previous p.
          let start_pos = (if f.state_first == 1 then previous * 40 else previous * 40 + diff) in
          let size : diff + s.short_state_samples ≡ 80 = omega (arith, z, w.state_le) in
          let bound : start_pos ≤ previous * 40 + diff = pos_le previous diff f.state_first in
          let inside : previous * 40 + 80 ≤ 240 =
            omega (arith, p, b, w.subframes_eq, w.adaptive_le) in
          Returns-bind
            (state_construct_w-Returns F f.idx_for_max f.idx_vec syntdenum (previous * 11) residual
              start_pos s.short_state_samples 240 g.scale g.levels g.levels_size
              (omega (arith, w.state_le)) (omega (arith, e, inside)) r
              (omega (arith, bound, inside, size)))
            λ xs t.
              Returns-bind
                (Returns-if (f.state_first == 0)
                  (λ h.
                    extra_before-Returns F s.adaptive_subframes s.short_state_samples f g w.state_ge
                      w.state_le ((f.start + 1) * 40) start_pos diff 0 _ size
                      (omega (arith, pos_last previous diff f.state_first h, size, p, a))
                      (omega (arith, pos_last previous diff f.state_first h))
                      (omega (arith, inside, p, a))
                      (record {
                        mem_size = refl;
                        residual_size = t;
                        reversed_size = refl;
                        counted = refl;
                      }))
                  (λ h.
                    extra_after-Returns F s.adaptive_subframes s.short_state_samples f g w.state_ge
                      w.state_le start_pos diff 0 _ size
                      (omega (arith, pos_first previous diff f.state_first h g.first, inside))
                      (record {
                        mem_size = refl;
                        residual_size = t;
                        reversed_size = refl;
                        counted = refl;
                      })))
                λ d v.
                  Returns-bind
                    (Returns-if {P = IsDecoding F (s.subframes - f.start - 1)}
                      (ltb 0 (s.subframes - f.start - 1))
                      (λ h.
                        forward-Returns F s.adaptive_subframes s.short_state_samples f g w.state_ge
                          w.state_le f.start previous (s.subframes - f.start - 1) d w.adaptive_le
                          (omega (arith, w.subframes_eq, a))
                          (omega (arith, w.subframes_eq, w.adaptive_le, b)) inside v)
                      (λ h. returned (subst (λ (n : ℕ). IsDecoding F n d) (none_left _ h) v)))
                    λ d v.
                      Returns-bind
                        (Returns-if (ltb 0 previous)
                          (λ h.
                            Returns-weaken
                              (backward-Returns F s.adaptive_subframes s.short_state_samples f g
                                w.state_ge w.state_le (40 * (s.subframes + 1 - f.start)) previous
                                previous (s.subframes - f.start - 1) d w.adaptive_le
                                (omega (arith, w.subframes_eq, p, a, b))
                                (omega (arith, w.subframes_eq, w.adaptive_le, p, a, b)) v)
                              λ e v. v.residual_size)
                          (λ h. returned v.residual_size))
                        λ d v. returned v
    where
      pos_le : (p d q : ℕ) → (if q == 1 then p * 40 else p * 40 + d) ≤ p * 40 + d
      pos_le p d q = ground arith

      pos_last :
          (p d q : ℕ) → (q == 0) ≡ true → (if q == 1 then p * 40 else p * 40 + d) ≡ p * 40 + d
      pos_last p d q h = ground arith

      pos_first :
          (p d q : ℕ) → (q == 0) ≡ false → q < 2 → (if q == 1 then p * 40 else p * 40 + d) ≡ p * 40
      pos_first p d q h i = ground arith

      none_left : (n : ℕ) → ltb 0 n ≡ false → 0 ≡ n
      none_left n h = ground arith
