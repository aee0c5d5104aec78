-- ===== src/Script.antt =====
-- backend/internal/scenario/runner.go: the scripted runner, which executes the steps of a test one
-- after another. The store, the device service, the vision client and the file system are the
-- operations of a Stage over any state `W`, within the context of the run.
pub mod Words
pub mod Steps
pub mod Runs
use open_cuttles.Base.Int.{ℤ}
use open_cuttles.Domain.{Instance, TestRun}
use open_cuttles.Base.{
  str_eq, Option, ◌/◌, ℕ, String, List, ◌+◌, ◌-◌, ◌*◌, ◌≡◌, ◌≢◌, ◌≤◌, ◌<◌, ◌&&◌, ◌||◌, ◌⊎◌, ◌∙◌,
  inl, inr, [], ◌∷◌, ◌++◌, if◌then◌else◌, ◌==◌, zero, suc, true, false, none, some, refl, sym, ap,
  arith,
}
use open_cuttles.Go.Text.{Text, same_text}
use open_cuttles.Go.Strings.{codes}
use open_cuttles.Go.{Exec, Result, ◌>>=◌, ◌>>◌, ok, err}
use Prim.Native.String.{◌++◌ as concat}

pub data Verb : Type 0 where
  tap type_text open_app swipe assert_text wait press_key unknown : Verb

pub record Test : Type 0 where
  pub id : String
  pub steps : List String

-- `classify` is Classify, regular expressions of package regexp; `decode_config` is
-- png.DecodeConfig, `locate` answers with the points that vision found and how each one scales to a
-- screenshot's size; `quote` is the verb %q. `pause` waits for a number of milliseconds or for the context.
pub record Stage (W : Type 0) : Type 0 where
  pub get_test : String → Exec W Test
  pub get_instance : String → Exec W Instance
  pub create_test_run : String → String → Exec W TestRun
  pub update_test_run : TestRun → Exec W Unit
  pub mkdir_all : String → Exec W Unit
  pub write_file : String → String → String → Exec W Unit
  pub start_recording : String → Exec W Unit
  pub stop_recording : String → Exec W String
  pub screenshot : String → Exec W String
  pub battery_level : String → Exec W ℤ
  pub key : String → String → Exec W Unit
  pub launch_app : String → String → Exec W Unit
  pub tap : String → ℤ → ℤ → Exec W Unit
  pub swipe : String → ℤ → ℤ → ℤ → ℤ → ℤ → Exec W Unit
  pub type_text : String → String → Exec W Unit
  pub locate : String → String → Exec W (List (ℕ → ℕ → ℤ × ℤ))
  pub query : String → String → Exec W String
  pub pause : ℕ → Exec W Unit
  pub pause_uncancelled : ℕ → W → W
  pub classify : String → Verb × String × String
  pub verb_name : Verb → String
  pub quote : String → String
  pub decode_config : String → Result (ℕ × ℕ)
  pub now : W → ℕ
  pub elapsed_ms : ℕ → ℕ → ℕ

-- An error that the caller drops.
abbrev pub ignore : {W A : Type 0} → Exec W A → Exec W Unit
ignore m w = (ok tt, (m w).1)

-- The directions of a swipe, on a screen of this size.
unfoldable pub gesture : String → ℕ × ℕ → (ℕ × ℕ) × (ℕ × ℕ)
gesture direction (w, h) =
    let cx = w / 2 in
    let cy = h / 2 in
    if str_eq direction "down"
    then ((cx, cy - h / 3), (cx, cy + h / 3))
    else if str_eq direction "left"
    then ((cx + w / 3, cy), (cx - w / 3, cy))
    else if str_eq direction "right"
    then ((cx - w / 3, cy), (cx + w / 3, cy))
    else ((cx, cy + h / 3), (cx, cy - h / 3))

screen_size : Result (ℕ × ℕ) → ℕ × ℕ
screen_size (ok size) = size
screen_size (err e) = (720, 1280)

unfoldable pub swipe_coords : {W : Type 0} → Stage W → String → String → (ℕ × ℕ) × (ℕ × ℕ)
unfolding gesture screen_size
swipe_coords s direction shot = gesture direction (screen_size (s.decode_config shot))

abbrev pub known_packages : List (String × String)
known_packages =
    ("settings", "com.android.settings")
    ∷ ("clock", "com.android.deskclock")
    ∷ ("chrome", "com.android.chrome")
    ∷ ("browser", "com.android.chrome")
    ∷ ("contacts", "com.android.contacts")
    ∷ ("phone", "com.android.dialer")
    ∷ ("dialer", "com.android.dialer")
    ∷ ("messaging", "com.android.messaging")
    ∷ ("messages", "com.android.messaging")
    ∷ ("camera", "com.android.camera2")
    ∷ ("gallery", "com.android.gallery3d")
    ∷ []

unfoldable pub package_in : List (String × String) → Text → Option String
unfolding same_text codes
package_in [] name = none
package_in ((key, app) ∷ rest) name =
    if same_text (codes key) name then some app else package_in rest name
