-- ===== src/DeviceControl/Sizes.antt =====
-- Which of the sizes that `wm size` prints is taken.
use open_cuttles.Base.{
  Option-cases, List, Bool-cases, ℕ, Option, ◌≡◌, ◌≢◌, ◌∙◌, inl, inr, [], ◌∷◌, true, false, none,
  some, refl, sym, ap, arith,
}
use open_cuttles.Go.Text.{trim, split_lines, Text}
use open_cuttles.DeviceControl.Readings.{
  sizes_from, or_else, physical_in, size_after, override_in, parse_wm_size,
}
use open_cuttles.Go.Strings.{codes, is_prefix}

-- The last size that the lines give, each read by `read`.
unfoldable pub last_size : (Text → Option (ℕ × ℕ)) → List Text → Option (ℕ × ℕ)
last_size read [] = none
last_size read (l ∷ rest) = or_else (last_size read rest) (read l)

or_else_assoc : {A : Type 0} (a b c : Option A) → or_else (or_else a b) c ≡ or_else a (or_else b c)
or_else_assoc none b c = refl
or_else_assoc (some x) b c = refl

or_else-none : {A : Type 0} (a : Option A) → or_else a none ≡ a
or_else-none none = refl
or_else-none (some x) = refl

pair : {A B : Type 0} (a b : A) (c d : B) → a ≡ b → c ≡ d → ◌≡◌ {A = A × B} (a, c) (b, d)
pair a b c d h k = λ i. (h i, k i)

module _ (override physical : Text → Option (ℕ × ℕ))
    (apart : (l : Text) (size : ℕ × ℕ) → override l ≡ some size → physical l ≡ none) where
  sizes_from-last :
      (o p : Option (ℕ × ℕ)) (lines : List Text)
      → sizes_from override physical o p lines
        ≡ (or_else (last_size override lines) o, or_else (last_size physical lines) p)
  unfolding sizes_from last_size
  sizes_from-last o p [] = refl
  sizes_from-last o p (l ∷ rest) = elim (Option-cases (override l)) [
    | inl e ↦
        rw (e, sizes_from)
          (sizes_from-last o (or_else (physical l) p) rest
            ∙ pair _ _ _ _ (sym (ap (λ x. or_else x o) (or_else-none (last_size override rest))))
                (sym (or_else_assoc (last_size physical rest) (physical l) p)))
    | inr (size, e) ↦
        rw (e, sizes_from, apart l size e)
          (sizes_from-last (some size) p rest
            ∙ pair _ _ _ _ (sym (or_else_assoc (last_size override rest) (some size) o))
                (sym (ap (λ x. or_else x p) (or_else-none (last_size physical rest)))))
  ]

no_prefix : (p s : Text) → is_prefix p s ≡ false → size_after p s ≡ none
unfolding size_after
no_prefix p s h = rw h refl

has_prefix : (p s : Text) (size : ℕ × ℕ) → size_after p s ≡ some size → is_prefix p s ≡ true
has_prefix p s size h = elim (Bool-cases (is_prefix p s)) [
  | inl e ↦ e
  | inr e ↦ cc (no_prefix p s e, h)
]

first_letter :
    (c d : ℕ) (p q s : Text) → c ≢ d → is_prefix (c ∷ p) s ≡ true → is_prefix (d ∷ q) s ≡ false
unfolding is_prefix
first_letter c d p q [] h k = refl
first_letter c d p q (e ∷ s) h k = ground (arith, h, k)

-- No line has both prefixes.
one_prefix : (l : Text) (size : ℕ × ℕ) → override_in l ≡ some size → physical_in l ≡ none
unfolding override_in physical_in codes
one_prefix l size h = no_prefix (codes "Physical size:") (trim l) (
    first_letter 79 80 (codes "verride size:") (codes "hysical size:") (trim l) (omega arith)
      (has_prefix (codes "Override size:") (trim l) size h))

-- The active size is the last override that a line gives, and the last physical size where no line
-- gives an override.
pub parse_wm_size-reference :
    (out : Text)
    → parse_wm_size out
      ≡ or_else (last_size override_in (split_lines out)) (last_size physical_in (split_lines out))
unfolding parse_wm_size
parse_wm_size-reference out =
    ap (λ r. or_else r.0 r.1)
      (sizes_from-last override_in physical_in one_prefix none none (split_lines out)
        ∙ pair _ _ _ _ (or_else-none _) (or_else-none _))
