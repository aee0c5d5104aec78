-- ===== src/Retention/Cutoff.antt =====
-- Which directories a pass of the pruner removes.
use open_cuttles.Go.Laws.{Result-cases}
use open_cuttles.Go.Numbers.{to_int64-small, to_int64}
use open_cuttles.Base.Int.{negsuc, pos}
use open_cuttles.Go.{Result, ok}
use open_cuttles.Base.{
  eq_iff, ◌↔◌, ℕ, ◌+◌, ◌-◌, ◌*◌, ◌≡◌, ◌≢◌, ◌≤◌, ◌<◌, [], ◌∷◌, zero, suc, true, false, arith,
}
use open_cuttles.Go.Strings.{codes, is_prefix}
use open_cuttles.Retention.{
  is_older, is_stale, is_protected, Entry, is_removed, retention_period, nanoseconds_per_day,
  prune_entries, prune_for,
}
use Prim.Native.Nat.{◌^◌, ◌%◌}

period_small : (days : ℕ) → days ≤ 106751 → retention_period days ≡ pos (days * nanoseconds_per_day)
unfolding retention_period
period_small days h = to_int64-small _ (omega arith)

period_overflow :
    (days : ℕ) → 106751 < days → days ≤ 213503 → (d : ℕ) × (retention_period days ≡ negsuc d)
unfolding retention_period to_int64
period_overflow days large small = (2 ^ 64 - 1 - days * nanoseconds_per_day % 2 ^ 64, ground arith)

is_stale_iff :
    (now d : ℕ) (r : Result ℕ)
    → (is_stale now (pos d) r ≡ true) ↔ ((t : ℕ) × (r ≡ ok t) × (t + d < now))
unfolding is_stale is_older
is_stale_iff now d r = ground (arith, Result-cases r)

is_protected_iff :
    (e : Entry)
    → (is_protected e ≡ false)
      ↔ ((e.is_dir ≡ true) × (e.name ≢ "builds") × (is_prefix (codes ".") (codes e.name) ≡ false))
unfolding is_protected
is_protected_iff e = ground (arith, eq_iff e.name "builds")

-- Up to 106751 days an entry is removed exactly when it is a directory other than builds and not
-- hidden, its modification time can be read, and it is more than that many days old.
pub is_removed-old :
    (now days : ℕ) (e : Entry)
    → days ≤ 106751
    → (is_removed now (retention_period days) e ≡ true) ↔ (
        (e.is_dir ≡ true)
        × (e.name ≢ "builds")
        × (is_prefix (codes ".") (codes e.name) ≡ false)
        × ((t : ℕ) × (e.mod_time ≡ ok t) × (t + days * nanoseconds_per_day < now)))
unfolding is_removed
is_removed-old now days e small =
    rw (period_small days small)
      (ground (arith, is_protected_iff e, is_stale_iff now (days * nanoseconds_per_day) e.mod_time))

-- From 106752 to 213503 days the period overflows to a negative one, and a pass over a directory
-- that is not protected removes it, whatever its age up to the present.
pub prune_for-overflow :
    (now days : ℕ) (e : Entry) (t : ℕ)
    → 106751 < days
    → days ≤ 213503
    → e.is_dir ≡ true
    → e.name ≢ "builds"
    → is_prefix (codes ".") (codes e.name) ≡ false
    → e.mod_time ≡ ok t
    → t ≤ now
    → prune_for now (pos days) (ok (e ∷ [])) ≡ e.name ∷ []
unfolding prune_for prune_entries is_removed is_stale is_older
prune_for-overflow now zero e t large small d n p m past = ground (arith, large)
prune_for-overflow now (suc days) e t large small d n p m past =
    let (over, h) = period_overflow (suc days) large small in
    rw (h, m) (ground (arith, (is_protected_iff e).1 (d, n, p)))
