-- ===== src/Retention.antt =====
-- backend/internal/retention/retention.go: one pass of the Pruner. Times are nanoseconds since the
-- epoch. The directory listing, the clock and the setting are what the pass finds.
pub mod Cutoff
use open_cuttles.Base.{
  str_eq, ltb, not, Bool, ◌^◌, List, String, ℕ, ◌+◌, ◌*◌, ◌&&◌, ◌||◌, [], ◌∷◌, if◌then◌else◌, zero,
  suc, false, none, some,
}
use open_cuttles.Base.Int.{negsuc, pos, ℤ}
use open_cuttles.Go.{Result, ok, err}
use open_cuttles.Go.Strings.{codes, trim_space, is_prefix}
use open_cuttles.Go.Numbers.{atoi, to_int64}

pub record Entry : Type 0 where
  pub name : String
  pub is_dir : Bool
  pub mod_time : Result ℕ

abbrev pub default_days : ℤ
default_days = pos 30

abbrev pub nanoseconds_per_day : ℕ
nanoseconds_per_day = 24 * 3600 * 10 ^ 9

unfoldable pub parse_days : String → ℤ
unfolding atoi codes
parse_days raw = elim (atoi (codes (trim_space raw))) [ none ↦ default_days | some n ↦ n ]

unfoldable pub retention_days : Result String → ℤ
unfolding parse_days trim_space
retention_days (err e) = default_days
retention_days (ok raw) = if str_eq (trim_space raw) "" then default_days else parse_days raw

-- modTime.Before(now.Add(-d)), where d is a time.Duration, an int64.
unfoldable pub is_older : ℕ → ℤ → ℕ → Bool
is_older now (pos d) mod_time = ltb (mod_time + d) now
is_older now (negsuc d) mod_time = ltb mod_time (now + d + 1)

-- time.Duration(days) * 24 * time.Hour
unfoldable pub retention_period : ℕ → ℤ
unfolding to_int64
retention_period days = to_int64 (days * nanoseconds_per_day)

unfoldable pub is_protected : Entry → Bool
unfolding is_prefix codes
is_protected e = not e.is_dir || (str_eq e.name "builds" || is_prefix (codes ".") (codes e.name))

unfoldable pub is_stale : ℕ → ℤ → Result ℕ → Bool
unfolding is_older
is_stale now period (err e) = false
is_stale now period (ok t) = is_older now period t

-- Whether the pass calls os.RemoveAll on an entry.
unfoldable pub is_removed : ℕ → ℤ → Entry → Bool
unfolding is_protected is_stale
is_removed now period e = not (is_protected e) && is_stale now period e.mod_time

-- The names that are removed, in order.
unfoldable pub prune_entries : ℕ → ℤ → List Entry → List String
unfolding is_removed
prune_entries now period [] = []
prune_entries now period (e ∷ rest) =
    let others = prune_entries now period rest in
    if is_removed now period e then e.name ∷ others else others

unfoldable pub prune_for : ℕ → ℤ → Result (List Entry) → List String
unfolding prune_entries retention_period
prune_for now (pos zero) entries = []
prune_for now (pos (suc n)) (ok entries) = prune_entries now (retention_period (suc n)) entries
prune_for now (pos (suc n)) (err e) = []
prune_for now (negsuc n) entries = []

unfoldable pub prune_once : ℕ → Result String → Result (List Entry) → List String
unfolding prune_for retention_days
prune_once now setting entries = prune_for now (retention_days setting) entries
