-- ===== src/Go/Text.antt =====
-- Package strings on texts that are taken apart: a text is the list of its code points.
use open_cuttles.Base.{
  arith, not, length, keep, Option, List, Bool, drop, ℕ, ◌≡◌, ◌&&◌, [], ◌∷◌, if◌then◌else◌, ◌==◌,
  true, false, none, some, refl,
}
use open_cuttles.Go.Strings.{codes, is_space, is_prefix}

abbrev pub Text : Type 0
Text = List ℕ

unfoldable pub same_text : Text → Text → Bool
same_text [] [] = true
same_text (c ∷ s) (d ∷ t) = (c == d) && same_text s t
same_text _ _ = false

pub same_text_eq : (s t : Text) → same_text s t ≡ true → s ≡ t
unfolding same_text
same_text_eq [] [] h = refl
same_text_eq [] (d ∷ t) h = cc h
same_text_eq (c ∷ s) [] h = cc h
same_text_eq (c ∷ s) (d ∷ t) h = ground (arith, same_text_eq s t)

abbrev pub is_empty {ℓ} : {A : Type ℓ} → List A → Bool
is_empty [] = true
is_empty (c ∷ s) = false

unfoldable pub trim_front : Text → Text
trim_front [] = []
trim_front (c ∷ s) = elim (is_space c) [ true ↦ trim_front s | false ↦ c ∷ s ]

-- A space at the end is dropped if nothing is left behind it.
unfoldable pub trim_back : Text → Text
trim_back [] = []
trim_back (c ∷ s) = let rest = trim_back s in if is_space c && is_empty rest then [] else c ∷ rest

-- strings.TrimSpace
unfoldable pub trim : Text → Text
unfolding trim_front trim_back
trim s = trim_front (trim_back s)

-- strings.TrimPrefix
unfoldable pub trim_prefix : Text → Text → Text
unfolding is_prefix
trim_prefix p s = if is_prefix p s then drop (length p) s else s

abbrev on_first : ℕ → List Text → List Text
on_first c [] = (c ∷ []) ∷ []
on_first c (s ∷ rest) = (c ∷ s) ∷ rest

-- strings.Split at each character that passes the test.
unfoldable pub split_by : (ℕ → Bool) → Text → List Text
split_by p [] = [] ∷ []
split_by p (c ∷ s) = let rest = split_by p s in if p c then [] ∷ rest else on_first c rest

-- strings.Split(s, "\n")
unfoldable pub split_lines : Text → List Text
unfolding split_by
split_lines s = split_by (λ c. c == 10) s

-- strings.Fields
unfoldable pub fields : Text → List Text
unfolding split_by is_space
fields s = keep (λ w. not (is_empty w)) (split_by is_space s)

-- strings.SplitN(s, sep, 2), where the separator is there.
unfoldable pub cut_at : ℕ → Text → Option (Text × Text)
cut_at sep [] = none
cut_at sep (c ∷ s) = elim (c == sep) [
  | true ↦ some ([], s)
  | false ↦ elim (cut_at sep s) [ none ↦ none | some (a, b) ↦ some (c ∷ a, b) ]
]

-- strings.TrimSuffix of one character
unfoldable pub trim_suffix : ℕ → Text → Text
trim_suffix c [] = []
trim_suffix c (d ∷ s) = if (c == d) && is_empty s then [] else d ∷ trim_suffix c s

splits : split_lines (codes "a\nb") ≡ codes "a" ∷ codes "b" ∷ []
unfolding split_lines codes
splits = refl

trims_both : trim (codes " \t1 2\n") ≡ codes "1 2"
unfolding trim is_space codes
trims_both = refl
