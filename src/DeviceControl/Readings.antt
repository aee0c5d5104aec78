-- ===== src/DeviceControl/Readings.antt =====
-- backend/internal/devicecontrol/parse.go and ParseWMSize of service.go: what the outputs of adb's
-- commands are read as.
use open_cuttles.Go.Text.{
  is_empty, cut_at, Text, trim_suffix, trim_prefix, fields, trim, split_lines,
}
use open_cuttles.Base.{
  keep, ltb, map, not, first, Bool, List, ℕ, Option, ◌≡◌, ◌&&◌, ◌||◌, [], ◌∷◌, if◌then◌else◌, ◌==◌,
  none, some, refl,
}
use open_cuttles.Base.Int.{negsuc, pos, ℤ}
use open_cuttles.Go.Strings.{is_space, contains, is_prefix, codes}
use open_cuttles.Go.Numbers.{atoi}
use mathlib.Core.Option

abbrev pub replace_with_space : (ℕ → Bool) → Text → Text
replace_with_space p s = map (λ c. if p c then 32 else c) s

-- The first one that there is.
abbrev pub or_else {ℓ} : {A : Type ℓ} → Option A → Option A → Option A
or_else (some a) b = some a
or_else none b = b

is_brace : ℕ → Bool
is_brace c = c == b'{' || c == b'}'

unfoldable pub is_component : Text → Bool
unfolding contains codes
is_component t = contains t (codes "/") && contains t (codes ".") && not (contains t (codes "://"))

unfoldable pub extract_component : Text → Option Text
unfolding fields is_brace is_component trim_suffix
extract_component line =
    Option.map (trim_suffix b'}') (first is_component (fields (replace_with_space is_brace line)))

unfoldable pub names_activity : Text → Bool
unfolding contains codes
names_activity line =
    contains line (codes "ResumedActivity") || contains line (codes "mCurrentFocus")

unfoldable pub resumed_in : List Text → Text
unfolding extract_component names_activity trim
resumed_in [] = []
resumed_in (l ∷ rest) =
    let found = extract_component (trim l) in
    let others = resumed_in rest in
    if names_activity (trim l) then elim found [ some c ↦ c | none ↦ others ] else others

unfoldable pub parse_resumed_activity : Text → Text
unfolding resumed_in split_lines
parse_resumed_activity dump = resumed_in (split_lines dump)

unfoldable pub level_in : List Text → ℤ
unfolding trim trim_prefix is_prefix atoi codes
level_in [] = negsuc 0
level_in (l ∷ rest) =
    let others = level_in rest in
    if is_prefix (codes "level:") (trim l)
    then elim (atoi (trim (trim_prefix (codes "level:") (trim l)))) [ some v ↦ v | none ↦ others ]
    else others

unfoldable pub parse_battery_level : Text → ℤ
unfolding level_in split_lines
parse_battery_level dump = level_in (split_lines dump)

-- The second field of a line whose first field starts with TOTAL.
unfoldable pub total_of : List Text → Option ℤ
unfolding is_prefix atoi codes
total_of (a ∷ b ∷ rest) = if is_prefix (codes "TOTAL") a then atoi b else none
total_of _ = none

unfoldable pub total_in : List Text → ℤ
unfolding total_of fields
total_in [] = pos 0
total_in (l ∷ rest) = elim (total_of (fields l)) [ some v ↦ v | none ↦ total_in rest ]

unfoldable pub parse_total_pss : Text → ℤ
unfolding total_in split_lines
parse_total_pss dump = total_in (split_lines dump)

-- sizeAfter
unfoldable pub positive_pair : Option ℤ → Option ℤ → Option (ℕ × ℕ)
positive_pair (some (pos w)) (some (pos h)) = if ltb 0 w && ltb 0 h then some (w, h) else none
positive_pair _ _ = none

unfoldable pub size_after : Text → Text → Option (ℕ × ℕ)
unfolding trim trim_prefix is_prefix cut_at atoi positive_pair
size_after prefix line =
    if is_prefix prefix line
    then elim (cut_at b'x' (trim (trim_prefix prefix line))) [
      | none ↦ none
      | some (w, h) ↦ positive_pair (atoi (trim w)) (atoi (trim h))
    ]
    else none

unfoldable pub override_in : Text → Option (ℕ × ℕ)
unfolding size_after trim codes
override_in line = size_after (codes "Override size:") (trim line)

unfoldable pub physical_in : Text → Option (ℕ × ℕ)
unfolding size_after trim codes
physical_in line = size_after (codes "Physical size:") (trim line)

-- The override and the physical size, as the lines so far give them.
unfoldable pub sizes_from :
    (Text → Option (ℕ × ℕ))
    → (Text → Option (ℕ × ℕ))
    → Option (ℕ × ℕ)
    → Option (ℕ × ℕ)
    → List Text
    → Option (ℕ × ℕ) × Option (ℕ × ℕ)
sizes_from override physical o p [] = (o, p)
sizes_from override physical o p (l ∷ rest) = elim (override l) [
  | some size ↦ sizes_from override physical (some size) p rest
  | none ↦ sizes_from override physical o (or_else (physical l) p) rest
]

unfoldable pub parse_wm_size : Text → Option (ℕ × ℕ)
unfolding sizes_from split_lines override_in physical_in
parse_wm_size out =
    let (o, p) = sizes_from override_in physical_in none none (split_lines out) in or_else o p

reads_override :
    parse_wm_size (codes "Physical size: 1080x2400\n Override size: 720x1600\n") ≡ some (720, 1600)
unfolding parse_wm_size codes is_space
reads_override = refl

reads_component :
    parse_resumed_activity (codes "a\n  ResumedActivity: Rec{1f u0 com.app/.Main t7}")
    ≡ codes "com.app/.Main"
unfolding parse_resumed_activity codes is_space
reads_component = refl

-- The names of a `pm list packages`.
unfoldable pub package_name : Text → Text
unfolding trim trim_prefix codes
package_name line = trim (trim_prefix (codes "package:") (trim line))

unfoldable pub package_names : Text → List Text
unfolding package_name split_lines
package_names out = keep (λ p. not (is_empty p)) (map package_name (split_lines out))
