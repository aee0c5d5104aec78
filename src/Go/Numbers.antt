-- ===== src/Go/Numbers.antt =====
-- strconv.Atoi and the wrap-around of a 64-bit signed integer.
use open_cuttles.Base.{
  ltb, leb, ◌%◌, Option, ◌^◌, ℕ, List, Bool, ◌+◌, ◌-◌, ◌*◌, ◌≡◌, ◌<◌, ◌&&◌, [], ◌∷◌, if◌then◌else◌,
  ◌==◌, true, false, none, some, refl, arith,
}
use open_cuttles.Base.Int.{pos, ℤ, negsuc}
use open_cuttles.Go.Strings.{codes}

digits_from : ℕ → List ℕ → Option ℕ
digits_from n [] = some n
digits_from n (c ∷ rest) = elim (leb b'0' c && leb c b'9') [
  | true ↦ digits_from (n * 10 + (c - b'0')) rest
  | false ↦ none
]

digits : List ℕ → Option ℕ
unfolding digits_from
digits [] = none
digits (c ∷ rest) = digits_from 0 (c ∷ rest)

in_range : Bool → ℕ → Option ℤ
in_range true n =
    if n == 0 then some (pos 0) else if leb n (2 ^ 63) then some (negsuc (n - 1)) else none
in_range false n = if ltb n (2 ^ 63) then some (pos n) else none

signed : Bool → Option ℕ → Option ℤ
unfolding in_range
signed negative none = none
signed negative (some n) = in_range negative n

-- strconv.Atoi on a 64-bit host; `none` for a syntax or a range error.
unfoldable pub atoi : List ℕ → Option ℤ
unfolding digits signed
atoi [] = none
atoi (c ∷ rest) =
    if c == b'-'
    then signed true (digits rest)
    else if c == b'+'
    then signed false (digits rest)
    else signed false (digits (c ∷ rest))

saturated : Bool → Option ℕ → ℤ
saturated negative none = pos 0
saturated true (some n) =
    if n == 0 then pos 0 else if leb n (2 ^ 63) then negsuc (n - 1) else negsuc (2 ^ 63 - 1)
saturated false (some n) = if ltb n (2 ^ 63) then pos n else pos (2 ^ 63 - 1)

-- The number that strconv.Atoi returns beside its error: 0, or the bound that is exceeded.
unfoldable pub atoi_value : List ℕ → ℤ
unfolding digits saturated
atoi_value [] = pos 0
atoi_value (c ∷ rest) =
    if c == b'-'
    then saturated true (digits rest)
    else if c == b'+'
    then saturated false (digits rest)
    else saturated false (digits (c ∷ rest))

-- The int64 that a product comes to.
unfoldable pub to_int64 : ℕ → ℤ
to_int64 n = let r = n % 2 ^ 64 in if ltb r (2 ^ 63) then pos r else negsuc (2 ^ 64 - 1 - r)

pub to_int64-small : (n : ℕ) → n < 2 ^ 63 → to_int64 n ≡ pos n
unfolding to_int64
to_int64-small n h = ground arith

-- The int64 that a sum, a difference or a product of integers comes to.
unfoldable pub wrap : ℤ → ℤ
unfolding to_int64
wrap (pos n) = to_int64 n
wrap (negsuc n) = neg_one (to_int64 n)
  where
    neg_one : ℤ → ℤ
    neg_one (pos k) = negsuc k
    neg_one (negsuc k) = pos k

reads : atoi (codes "-12") ≡ some (negsuc 11)
unfolding atoi codes
reads = refl
