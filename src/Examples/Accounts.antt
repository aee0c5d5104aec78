-- ===== src/Examples/Accounts.antt =====
-- The theorems about users, image paths and the health of a case, applied.
use open_cuttles.Insights.Health.{has_failed, is_undecided, case_health-counts}
use open_cuttles.Base.{
  keep, drop, arith, List, String, length, ◌+◌, ◌-◌, ◌≡◌, ◌≢◌, ◌≤◌, ◌<◌, [], ◌∷◌, true, false, refl,
}
use open_cuttles.Domain.{TestRun}
use open_cuttles.Go.Times.{text_order}
use open_cuttles.Store.ImagePath.Confined.{IsUnder, validate_image_path-Leads, Leads}
use open_cuttles.Auth.Abstract.{after_changes-refines, seen_after, Change, after_changes}
use open_cuttles.Auth.{query_session, User, AuthTables, Role}
use open_cuttles.Go.Strings.{codes, contains, trim_space}
use open_cuttles.Store.ImagePath.{validate_image_path, FileSystem, root_or_default, is_under}
use open_cuttles.Go.{ok}
use open_cuttles.Examples.{files}
use open_cuttles.Examples.Cycles.{test_run}
use open_cuttles.Insights.{CaseHealth, case_health}

abbrev alice : User
alice = record {
  id = "usr_1";
  username = "alice";
  display_name = "Alice";
  role = Role.operator;
  password_hash = [];
  disabled = false;
}

abbrev pub accounts : AuthTables
accounts = record {
  users = alice ∷ [];
  sessions =
      record { id = "ses_1"; user_id = "usr_1"; token_hash = "secret"; expires_at = 100 } ∷ [];
}

abbrev token : String
token = "secret"

-- The identity stands for the hash.
abbrev plain : String → String
plain t = t

abbrev image : String
image = "/images/a"

validate_image_path-Leads_example :
    (root : String) × (clean : String) × (files.clean_abs (root_or_default files.image_root)
      ≡ ok root)
    × (files.clean_abs image ≡ ok clean)
    × (◌≢◌ {A = String} (trim_space image) "")
    × IsUnder root clean
    × (contains (codes clean) (codes "/../") ≡ false)
    × Leads files root clean
unfolding validate_image_path trim_space open_cuttles.Store.ImagePath.then_
    open_cuttles.Store.ImagePath.annotate contains codes
validate_image_path-Leads_example = validate_image_path-Leads files image refl

abbrev two_runs : List TestRun
two_runs = test_run ∷ test_run ∷ []

abbrev health : CaseHealth
health = case_health "case" two_runs

case_health-counts_example :
    let last = drop (length two_runs - 20) two_runs in
    (health.runs ≡ length last)
    × (health.pass ≡ length (keep (λ (r : TestRun). r.passed) last))
    × (health.fail ≡ length (keep has_failed last))
    × (health.blocked ≡ length (keep is_undecided last))
    × (health.runs ≤ 20)
    × (health.pass + health.fail + health.blocked ≡ health.runs)
    × (length health.history ≡ health.runs)
    × (health.flips ≤ health.runs - 1)
    × (health.flaky ≡ true
        → (3 ≤ health.runs) × (0 < health.pass) × (0 < health.fail + health.blocked))
case_health-counts_example = case_health-counts "case" two_runs

abbrev changes : List Change
changes = Change.sweep 40 ∷ Change.revoke "other" ∷ Change.issue "ses_2" "usr_1" "other" 90 ∷ []

after_changes-refines_example :
    query_session "secret" 50 accounts.users (after_changes changes accounts).sessions
    ≡ seen_after accounts.users changes
        (λ h n. query_session h n accounts.users accounts.sessions)
        "secret"
        50
unfolding text_order
after_changes-refines_example =
    after_changes-refines changes accounts "secret" 50 (omega arith, (tt, (tt, tt)))
