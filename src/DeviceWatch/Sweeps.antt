-- ===== src/DeviceWatch/Sweeps.antt =====
-- What a poll of the physical devices runs.
use open_cuttles.Base.{String, ◌≡◌, [], ◌∷◌, true}
use open_cuttles.DeviceControl.Effects.{adb_command, Adds}
use open_cuttles.Store.{word, Command}
use open_cuttles.DeviceControl.{is_tcp_target, Lab}
use open_cuttles.Domain.{Source, Instance}
use open_cuttles.DeviceWatch.Polling.{wm_command}
use open_cuttles.Go.{Exec}
use open_cuttles.Go.Text.{Text}
use open_cuttles.Go.Strings.{trim_space}

-- A listing of the devices, a connection to the host and port of one that satisfies `D`, or a
-- question to one that satisfies `D` about its screen.
pub data Polls (D : Instance → Type 0) (c : Command) : Type 0 where
  lists : c ≡ adb_command (word "devices" ∷ word "-l" ∷ []) → Polls D c
  connects :
      (i : Instance)
      → D i
      → is_tcp_target (trim_space i.adb_target) ≡ true
      → c ≡ adb_command (word "connect" ∷ word (trim_space i.adb_target) ∷ [])
      → Polls D c
  asks :
      (i : Instance) (what : String)
      → D i
      → c ≡ adb_command (wm_command (trim_space i.adb_target) what)
      → Polls D c

abbrev pub Asks : {A : Type 0} → (Instance → Type 0) → Exec Lab A → Type 0
Asks D m = Adds (Polls D) (λ _. ⊥) m

abbrev pub IsPhysical : Instance → Type 0
IsPhysical i = i.src ≡ Source.physical
