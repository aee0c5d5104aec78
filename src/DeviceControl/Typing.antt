-- ===== src/DeviceControl/Typing.antt =====
-- backend/internal/devicecontrol/service.go: how a text and a key are handed to Android's `input`.
use open_cuttles.Base.{
  List, str_eq, Bool, ℕ, String, ◌≡◌, ◌||◌, [], ◌∷◌, if◌then◌else◌, ◌==◌, none, some, refl, ap,
}
use open_cuttles.Go.Numbers.{atoi}
use open_cuttles.Go.Strings.{is_prefix, to_upper, trim_space, codes}
use Prim.Native.Char.{Char, char, code}
use Prim.Native.String.{◌++◌ as concat}

-- ' " & < > ( ) | ;
abbrev pub is_meta : ℕ → Bool
is_meta c =
    c == 39 || c == 34 || c == 38 || c == 60 || c == 62 || c == 40 || c == 41 || c == 124 || c == 59

-- What the replacer puts for one character, in front of the rest.
abbrev escape_char : Char → String → String
escape_char c rest =
    if code c == 32
    then String.◌∷◌ (char 37 tt) (String.◌∷◌ (char 115 tt) rest)
    else if is_meta (code c)
    then String.◌∷◌ (char 92 tt) (String.◌∷◌ c rest)
    else String.◌∷◌ c rest

unfoldable pub escape_input_text : String → String
escape_input_text String.[] = ""
escape_input_text (String.◌∷◌ c s) = escape_char c (escape_input_text s)

unfoldable pub normalize_keycode : String → String
unfolding trim_space to_upper codes is_prefix atoi
normalize_keycode text =
    let key = trim_space text in
    let raised = to_upper key in
    if str_eq key "" then "KEYCODE_UNKNOWN" else elim (atoi (codes key)) [
      | some n ↦ key
      | none ↦
          (if is_prefix (codes "KEYCODE_") (codes raised) then raised else concat "KEYCODE_" raised)
    ]

-- The characters in front of a text.
abbrev pub after_chars : List Char → String → String
after_chars [] s = s
after_chars (c ∷ a) s = String.◌∷◌ c (after_chars a s)

-- A space and a literal %s, at the same place in a text, are escaped to the same word.
pub escape_input_text-not_injective :
    (a : List Char) (s : String)
    → escape_input_text (after_chars a (String.◌∷◌ (char 32 tt) s))
      ≡ escape_input_text (after_chars a (String.◌∷◌ (char 37 tt) (String.◌∷◌ (char 115 tt) s)))
unfolding escape_input_text
escape_input_text-not_injective [] s = refl
escape_input_text-not_injective (c ∷ a) s = ap (escape_char c) (escape_input_text-not_injective a s)

keys : normalize_keycode " home" ≡ "KEYCODE_HOME"
unfolding normalize_keycode
keys = refl
