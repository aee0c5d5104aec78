-- ===== src/CaseStore/Due.antt =====
-- When ListDueCycles lists a cycle, since it compares times as texts.
use open_cuttles.Go.Times.{text_order, written_le, text_order-bounds}
use open_cuttles.CaseStore.Cycles.{is_in_flight, is_past, is_scheduled, is_due}
use open_cuttles.Base.{
  str_eq, not, subst, ℕ, ◌+◌, ◌/◌, ◌%◌, ◌*◌, ◌≡◌, ◌≤◌, ◌<◌, ◌&&◌, false, some, arith,
}
use open_cuttles.CaseStore.{Archive}
use open_cuttles.Domain.{TestCycle}

whole_second : (n : ℕ) → text_order (n * 1000) ≡ n * 1331 + 1330
unfolding text_order
whole_second n =
    let r : (n * 1000) % 1000 ≡ 0 = omega arith in
    let q : (n * 1000) / 1000 ≡ n = omega arith in rw (r, q) (omega arith)

part_second : (n ms : ℕ) → 0 < ms → ms < 1000 → text_order (n * 1000 + ms) < n * 1331 + 1330
unfolding text_order
part_second n ms p h =
    let r : (n * 1000 + ms) % 1000 ≡ ms = omega arith in
    let q : (n * 1000 + ms) / 1000 ≡ n = omega arith in rw (r, q) (ground arith)

later_second : (n m ms : ℕ) → n < m → ms < 1000 → text_order (n * 1000) < text_order (m * 1000 + ms)
later_second n m ms p h =
    let q : (m * 1000 + ms) / 1000 ≡ m = omega arith in
    let b = (text_order-bounds (m * 1000 + ms)).0 in
    rw (whole_second n) (omega (arith, subst (λ k. k * 1331 ≤ text_order (m * 1000 + ms)) q b))

module _ (c : TestCycle) (a : Archive) (n : ℕ) (next : c.next_run_at ≡ some (n * 1000)) (ms : ℕ)
    (in_second : ms < 1000) where
  -- A cycle whose next run is at a whole second is not due in the rest of that second; in every
  -- later second it is due exactly if it is enabled, has a cron spec, and no run of it is
  -- unfinished.
  pub is_due-whole_second :
      (0 < ms → is_due (n * 1000 + ms) a c ≡ false)
      × ((m : ℕ)
          → n < m
          → is_due (m * 1000 + ms) a c
            ≡ (c.enabled && not (str_eq c.cron "")) && not (is_in_flight a.cycle_runs c.id))
  unfolding is_due is_scheduled is_past written_le
  is_due-whole_second = (
    λ p. rw (next, is_past) (ground (arith, part_second n ms p in_second, whole_second n)),
    λ m h. rw (next, is_past) (ground (arith, later_second n m ms h in_second)),
  )
