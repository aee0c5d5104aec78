-- ===== src/Go/Strings.antt =====
-- The functions of package strings that the code uses. Case is folded on ASCII letters only, the
-- letters of the words that the code looks for.
use Prim.Native.Char.{Char, code}
use Prim.Native.String.{◌++◌ as concat}
use open_cuttles.Base.Int.{ℤ, pos, negsuc}
use open_cuttles.Base.{
  zero, suc, ◌/◌, ◌%◌, ltb, ℕ, ◌+◌, String, ◌≡◌, refl, Bool, true, false, ◌&&◌, ◌||◌, List, [], ◌∷◌,
  map, leb, ◌==◌, if◌then◌else◌,
}

-- unicode.IsSpace
unfoldable pub is_space : ℕ → Bool
is_space c =
    (leb 9 c && leb c 13)
    || c == 32
    || c == 0x85
    || c == 0xa0
    || c == 0x1680
    || (leb 0x2000 c && leb c 0x200a)
    || c == 0x2028
    || c == 0x2029
    || c == 0x202f
    || c == 0x205f
    || c == 0x3000

trim_left : String → String
unfolding is_space
trim_left String.[] = String.[]
trim_left (String.◌∷◌ c s) =
    let rest = trim_left s in if is_space (code c) then rest else String.◌∷◌ c s

-- A space is dropped if all behind it is dropped.
drop_space : Char → String → String
unfolding is_space
drop_space c String.[] = if is_space (code c) then String.[] else String.◌∷◌ c String.[]
drop_space c (String.◌∷◌ d s) = String.◌∷◌ c (String.◌∷◌ d s)

trim_right : String → String
unfolding drop_space
trim_right String.[] = String.[]
trim_right (String.◌∷◌ c s) = drop_space c (trim_right s)

-- strings.TrimSpace
unfoldable pub trim_space : String → String
unfolding trim_left trim_right
trim_space s = trim_left (trim_right s)

-- The code points of a text.
unfoldable pub codes : String → List ℕ
codes String.[] = []
codes (String.◌∷◌ c s) = code c ∷ codes s

lower : ℕ → ℕ
lower c = if leb b'A' c && leb c b'Z' then c + 32 else c

-- strings.ToLower
unfoldable pub to_lower : List ℕ → List ℕ
unfolding lower
to_lower s = map lower s

unfoldable pub is_prefix : List ℕ → List ℕ → Bool
is_prefix [] s = true
is_prefix (c ∷ p) [] = false
is_prefix (c ∷ p) (d ∷ s) = (c == d) && is_prefix p s

-- strings.Contains
unfoldable pub contains : List ℕ → List ℕ → Bool
unfolding is_prefix
contains [] p = is_prefix p []
contains (c ∷ s) p = is_prefix p (c ∷ s) || contains s p

trims : trim_space " \t 1\n" ≡ "1"
unfolding trim_space
trims = refl

finds : contains (to_lower (codes "It FAILED")) (codes "fail") ≡ true
unfolding contains to_lower codes
finds = refl

digit : ℕ → String
digit n =
    if n == 0
    then "0"
    else if n == 1
    then "1"
    else if n == 2
    then "2"
    else if n == 3
    then "3"
    else if n == 4
    then "4"
    else if n == 5
    then "5"
    else if n == 6
    then "6"
    else if n == 7
    then "7"
    else if n == 8
    then "8"
    else "9"

-- Each round drops a digit, so `suc n` rounds print any `n`.
show_from : ℕ → ℕ → String
unfolding digit
show_from zero n = ""
show_from (suc f) n = elim (ltb n 10) [
  | true ↦ digit n
  | false ↦ concat (show_from f (n / 10)) (digit (n % 10))
]

-- The verb %d.
unfoldable pub decimal : ℤ → String
unfolding show_from
decimal (pos n) = show_from (suc n) n
decimal (negsuc n) = concat "-" (show_from (suc (suc n)) (suc n))

prints : decimal (pos 6520) ≡ "6520"
unfolding decimal
prints = refl

-- The character of the second text where the first has this one.
swap_case : String → String → Char → Char
swap_case (String.◌∷◌ a s) (String.◌∷◌ b t) c = if code a == code c then b else swap_case s t c
swap_case _ _ c = c

-- strings.ToUpper on ASCII letters
unfoldable pub to_upper : String → String
unfolding swap_case
to_upper String.[] = String.[]
to_upper (String.◌∷◌ c s) =
    String.◌∷◌ (swap_case "abcdefghijklmnopqrstuvwxyz" "ABCDEFGHIJKLMNOPQRSTUVWXYZ" c) (to_upper s)

-- strings.ToLower on a text that stays one, on ASCII letters
unfoldable pub lower_case : String → String
unfolding swap_case
lower_case String.[] = String.[]
lower_case (String.◌∷◌ c s) =
    String.◌∷◌ (swap_case "ABCDEFGHIJKLMNOPQRSTUVWXYZ" "abcdefghijklmnopqrstuvwxyz" c)
      (lower_case s)

raises : to_upper "back_1" ≡ "BACK_1"
unfolding to_upper
raises = refl

slash_first : Char → String → String
slash_first c s = if code c == b'/' then s else String.◌∷◌ c s

trim_slashes_left : String → String
unfolding slash_first
trim_slashes_left String.[] = String.[]
trim_slashes_left (String.◌∷◌ c s) =
    let rest = trim_slashes_left s in if code c == b'/' then rest else String.◌∷◌ c s

drop_slash : Char → String → String
unfolding slash_first
drop_slash c String.[] = slash_first c String.[]
drop_slash c (String.◌∷◌ d s) = String.◌∷◌ c (String.◌∷◌ d s)

trim_slashes_right : String → String
unfolding drop_slash
trim_slashes_right String.[] = String.[]
trim_slashes_right (String.◌∷◌ c s) = drop_slash c (trim_slashes_right s)

-- strings.Trim(s, "/")
unfoldable pub trim_slashes : String → String
unfolding trim_slashes_left trim_slashes_right
trim_slashes s = trim_slashes_left (trim_slashes_right s)
