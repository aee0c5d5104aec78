-- ===== src/DeviceWatch/Parsing.antt =====
-- backend/internal/devicewatch/parse.go, and parseDensity of devicewatch.go. The model and the
-- product of a line, which are only shown, are left out.
use open_cuttles.Base.{
  not, keep, Option, Bool, List, ◌≡◌, ◌||◌, [], ◌∷◌, if◌then◌else◌, ◌==◌, true, false, none, some,
  refl,
}
use open_cuttles.Base.Int.{ltb_ℤ, pos, ℤ}
use open_cuttles.Go.Text.{is_empty, trim_prefix, Text, trim, split_lines, same_text}
use open_cuttles.Go.Numbers.{atoi_value}
use open_cuttles.Go.Strings.{is_prefix, codes, is_space}
use open_cuttles.DeviceWatch.{AdbState, parse_state}

-- The text up to the first space, and from it.
unfoldable pub split_serial : Text → Option (Text × Text)
unfolding is_space
split_serial [] = none
split_serial (c ∷ s) = elim (is_space c) [
  | true ↦ some ([], c ∷ s)
  | false ↦ elim (split_serial s) [ none ↦ none | some (a, b) ↦ some (c ∷ a, b) ]
]

unfoldable pub is_chatter : Text → Bool
unfolding is_prefix codes
is_chatter line =
    is_empty line
    || is_prefix (codes "List of devices") line
    || is_prefix (codes "*") line
    || is_prefix (codes "adb server") line

unfoldable pub status_of : Text → Text → Option (Text × AdbState)
unfolding parse_state
status_of serial rest =
    if is_empty serial || is_empty rest then none else some (serial, parse_state rest)

unfoldable pub parse_line : Text → Option (Text × AdbState)
unfolding trim is_chatter split_serial status_of
parse_line l =
    let line = trim (keep (λ c. not (c == 13)) l) in
    if is_chatter line
    then none
    else elim (split_serial line) [ none ↦ none | some (a, b) ↦ status_of (trim a) (trim b) ]

-- A later line stands before an earlier one, so that it is found first.
unfoldable pub devices_from : List (Text × AdbState) → List Text → List (Text × AdbState)
unfolding parse_line
devices_from seen [] = seen
devices_from seen (l ∷ rest) = elim (parse_line l) [
  | none ↦ devices_from seen rest
  | some device ↦ devices_from (device ∷ seen) rest
]

unfoldable pub parse_adb_devices : Text → List (Text × AdbState)
unfolding devices_from split_lines
parse_adb_devices out = devices_from [] (split_lines out)

-- A look into the map; a device that is missing has the zero status.
unfoldable pub state_of : Text → List (Text × AdbState) → Option AdbState
unfolding same_text
state_of target [] = none
state_of target ((serial, state) ∷ rest) =
    if same_text serial target then some state else state_of target rest

unfoldable pub densities_from : ℤ → ℤ → List Text → ℤ × ℤ
unfolding trim trim_prefix is_prefix atoi_value codes
densities_from physical override [] = (physical, override)
densities_from physical override (l ∷ rest) =
    let read = λ (p : Text). atoi_value (trim (trim_prefix p (trim l))) in
    elim (is_prefix (codes "Physical density:") (trim l)) [
      | true ↦ densities_from (read (codes "Physical density:")) override rest
      | false ↦ elim (is_prefix (codes "Override density:") (trim l)) [
        | true ↦ densities_from physical (read (codes "Override density:")) rest
        | false ↦ densities_from physical override rest
      ]
    ]

unfoldable pub parse_density : Text → ℤ
unfolding densities_from split_lines
parse_density out =
    let (physical, override) = densities_from (pos 0) (pos 0) (split_lines out) in
    if ltb_ℤ (pos 0) override then override else physical

reads_devices :
    parse_adb_devices
      (codes "List of devices attached\n1234\tno permissions (udev)\n10.0.0.7:5555\tdevice model:x")
    ≡ (codes "10.0.0.7:5555", AdbState.device) ∷ (codes "1234", AdbState.no_permissions) ∷ []
unfolding parse_adb_devices codes is_space parse_state
reads_devices = refl
