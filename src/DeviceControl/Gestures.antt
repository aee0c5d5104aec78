-- ===== src/DeviceControl/Gestures.antt =====
-- Where the swipe that stands for a scroll ends.
use open_cuttles.Base.{ltb, Bool-cases, ℕ, ◌-◌, ◌≡◌, ◌≤◌, ◌<◌, ◌∙◌, inl, inr, refl, ap, arith}
use open_cuttles.Base.Int.{negsuc, times, quotient, ◌-ℤ◌, pos, ℤ}
use open_cuttles.Go.Numbers.{wrap}
use open_cuttles.DeviceControl.Drivers.{clamp, scrolled}

clamped :
    (v : ℤ) (high : ℕ)
    → 1 ≤ high
    → (n : ℕ) × (clamp v (pos 1) (pos high) ≡ pos n) × (1 ≤ n) × (n ≤ high)
clamped (negsuc n) high h = (1, refl, omega (arith, h), h)
clamped (pos n) high h = elim (Bool-cases (ltb n 1)) [
  | inl e ↦ (1, rw e refl, omega (arith, h), h)
  | inr e ↦ elim (Bool-cases (ltb high n)) [
    | inl f ↦ (high, rw (e, f) refl, h, omega (arith, h))
    | inr f ↦ (n, rw (e, f) refl, ground (arith, e), ground (arith, f))
  ]
]

last_pixel : (size : ℕ) → 2 ≤ size → pos size -ℤ pos 1 ≡ pos (size - 1)
last_pixel size h = ground (arith, h)

-- The swipe of a scroll ends on the screen, on each axis of two pixels or more.
pub scrolled-on_screen :
    (x notches : ℤ) (size : ℕ)
    → 2 ≤ size
    → (n : ℕ) × (scrolled x notches size ≡ pos n) × (1 ≤ n) × (n < size)
unfolding scrolled
scrolled-on_screen x notches size h =
    let v = wrap (x -ℤ quotient (wrap (times notches size)) 3) in
    let (n, at, above, below) = clamped v (size - 1) (omega (arith, h)) in
    (n, ap (clamp v (pos 1)) (last_pixel size h) ∙ at, above, omega (arith, below, h))
