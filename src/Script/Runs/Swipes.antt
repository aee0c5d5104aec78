-- ===== src/Script/Runs/Swipes.antt =====
-- Where a swipe of the scripted runner goes.
use open_cuttles.Base.{ℕ, String, ◌≤◌, ◌<◌, arith}
use open_cuttles.Script.{gesture}

-- A swipe in any direction starts and ends on the screen.
pub gesture-on_screen :
    (direction : String) (w h : ℕ)
    → 1 ≤ w
    → 1 ≤ h
    → let ((x1, y1), (x2, y2)) = gesture direction (w, h) in
      (x1 < w) × (y1 < h) × (x2 < w) × (y2 < h)
unfolding gesture
gesture-on_screen direction w h a b = ground (arith, a, b)
