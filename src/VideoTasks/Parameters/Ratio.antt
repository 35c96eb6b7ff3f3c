-- ===== src/VideoTasks/Parameters/Ratio.antt =====
-- The loop of greatestCommonDivisor and the ratio that it makes (frontend/src/adapters/video-api.ts).
use Prim.Native.Nat.{◌∣◌}
use native.Mathlib.Nat.{
  dvd_refl, dvd-zero, dvd-mod_iff, mod-lt, div-mul_cancel, le_of_dvd, mul-dvd-mul_right,
  pos_of_dvd_of_pos,
}
use canvas_standalone.Prelude.{
  ℕ, zero, suc, ◌*◌, ◌/◌, ◌%◌, ◌<◌, true, false, some, ◌≡◌, refl, subst, inl, inr, Bool-cases,
  nat_eq, arith,
}
use canvas_standalone.VideoTasks.Parameters.{greatest_common_divisor, reduced}

abbrev IsGreatest : ℕ → ℕ → ℕ → Type 0
IsGreatest left right g = (g ∣ left) × ((g ∣ right) × ((k : ℕ) → k ∣ left → k ∣ right → k ∣ g))

positive : (n : ℕ) → nat_eq n 0 ≡ false → 0 < n
positive n h = ground arith

is_zero : (n : ℕ) → nat_eq n 0 ≡ true → n ≡ 0
is_zero n h = ground arith

IsGreatest-zero : (left right : ℕ) → right ≡ 0 → IsGreatest left right left
IsGreatest-zero left right h = rw h (dvd_refl left, (dvd-zero left, λ k l r. l))

IsGreatest-mod : (left right g : ℕ) → IsGreatest right (left % right) g → IsGreatest left right g
IsGreatest-mod left right g (r, (m, most)) =
    ((dvd-mod_iff g r).0 m, (r, λ k kl kr. most k kr ((dvd-mod_iff k kr).1 kl)))

-- The loop ends after at most one round more than the second number, with the greatest common
-- divisor: it divides both, and every number that divides both divides it.
pub greatest_common_divisor-IsGreatest :
    (fuel left right : ℕ)
    → right < fuel
    → (g : ℕ) × ((greatest_common_divisor fuel left right ≡ some g) × IsGreatest left right g)
unfolding greatest_common_divisor
greatest_common_divisor-IsGreatest zero left right h = absurd (omega (arith, h))
greatest_common_divisor-IsGreatest (suc fuel) left right h = elim (Bool-cases (nat_eq right 0)) [
  | inl e ↦
      rw (e, greatest_common_divisor) (left, (refl, IsGreatest-zero left right (is_zero right e)))
  | inr e ↦
      let below = mod-lt left (positive right e) in
      let (g, (found, greatest)) =
        greatest_common_divisor-IsGreatest fuel right (left % right) (omega (arith, below, h)) in
      rw (e, greatest_common_divisor) (g, (found, IsGreatest-mod left right g greatest))
]

unit_of_mul : (k g : ℕ) → 0 < g → k * g ∣ g → k ≡ 1
unit_of_mul zero g h d = absurd (omega (arith, pos_of_dvd_of_pos d h))
unit_of_mul (suc zero) g h d = refl
unit_of_mul (suc (suc m)) g h d = absurd (omega (arith, h, le_of_dvd h d))

same_ratio : (a b g w h : ℕ) → a * g ≡ w → b * g ≡ h → a * h ≡ b * w
same_ratio a b g w h u v = rw⁻¹ u (rw⁻¹ v (omega arith))

-- The two numbers of a ratio stand in the proportion of the width to the height, and no number but 1
-- divides them both, provided that neither the width nor the height is zero.
pub reduced-lowest :
    (width height : ℕ)
    → 0 < width
    → 0 < height
    → ((reduced width height).0 * height ≡ (reduced width height).1 * width)
      × ((k : ℕ) → k ∣ (reduced width height).0 → k ∣ (reduced width height).1 → k ≡ 1)
unfolding reduced
reduced-lowest width height w h =
    let (g, (found, (dw, (dh, most)))) =
      greatest_common_divisor-IsGreatest (suc height) width height (omega arith) in
    let whole_width = div-mul_cancel g dw in
    let whole_height = div-mul_cancel g dh in
    rw (found, reduced)
      (
        same_ratio (width / g) (height / g) g width height whole_width whole_height,
        λ k ka kb. unit_of_mul k g (pos_of_dvd_of_pos dw w) (
            most (k * g) (subst (λ x. k * g ∣ x) whole_width (mul-dvd-mul_right k ka g))
              (subst (λ x. k * g ∣ x) whole_height (mul-dvd-mul_right k kb g))),
      )
