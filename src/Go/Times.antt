-- ===== src/Go/Times.antt =====
-- backend/internal/store/sqlite.go: formatTime, and the order in which SQLite compares the texts of
-- times.
use open_cuttles.Base.{◌+◌, ◌*◌, ◌≤◌, ◌<◌, ◌&&◌, if◌then◌else◌, ◌==◌, arith, ℕ, Bool, leb, ◌/◌, ◌%◌}

-- A time as formatTime writes it, RFC 3339 without trailing zeros, compared as text: within one
-- second a digit that is left out counts above the others, since `Z` follows them.
abbrev pub digit_or_end : ℕ → ℕ → ℕ
digit_or_end d rest = if (d == 0) && (rest == 0) then 10 else d

unfoldable pub text_order : ℕ → ℕ
text_order t =
    let ms = t % 1000 in
    (t / 1000) * 1331
    + digit_or_end (ms / 100) (ms % 100) * 121
    + digit_or_end (ms / 10 % 10) (ms % 10) * 11
    + digit_or_end (ms % 10) 0

unfoldable pub written_le : ℕ → ℕ → Bool
unfolding text_order
written_le s t = leb (text_order s) (text_order t)

pub text_order-bounds :
    (t : ℕ) → (t / 1000 * 1331 ≤ text_order t) × (text_order t < t / 1000 * 1331 + 1331)
unfolding text_order
text_order-bounds t = ground arith

-- What is written before another time is in the same second or in an earlier one.
pub text_order-seconds : (s t : ℕ) → text_order s < text_order t → s / 1000 ≤ t / 1000
text_order-seconds s t h = omega (arith, h, (text_order-bounds s).0, (text_order-bounds t).1)

-- A time in an earlier second is written before.
pub text_order_earlier : (s t : ℕ) → s / 1000 < t / 1000 → text_order s < text_order t
text_order_earlier s t h = omega (arith, h, (text_order-bounds s).1, (text_order-bounds t).0)
