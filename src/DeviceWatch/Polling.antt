-- ===== src/DeviceWatch/Polling.antt =====
-- backend/internal/devicewatch/devicewatch.go: one poll. Log lines are left out; `order` is the
-- ORDER BY name of the listing.
use open_cuttles.DeviceControl.{within, is_tcp_target, Bench, Lab, invoke, in_world}
use open_cuttles.Domain.{Source, Instance}
use open_cuttles.Base.{
  keep, ℕ, Bool, List, Option, String, ◌&&◌, [], ◌∷◌, if◌then◌else◌, true, false, none, some,
}
use open_cuttles.Store.{
  db, World, word, Database, Argument, update_instance_display, update_instance_state, Context,
  scan_all,
}
use open_cuttles.Go.{branch, pure, Exec, ◌>>=◌, ◌>>◌, ok}
use open_cuttles.Base.Int.{pos, ℤ}
use open_cuttles.DeviceControl.Installs.{ignoring}
use open_cuttles.Go.Text.{Text}
use open_cuttles.Go.Strings.{trim_space, codes}
use open_cuttles.DeviceWatch.Parsing.{parse_adb_devices, parse_density, state_of}
use open_cuttles.DeviceControl.Readings.{parse_wm_size}
use open_cuttles.DeviceWatch.{AdbState, wanted_state, wanted_message, is_current}

unfoldable pub is_physical : Instance → Bool
is_physical i = elim i.src [ Source.physical ↦ true | _ ↦ false ]

unfoldable pub list_physical_android :
    (List Instance → List Instance) → Database → Context → Exec World (List Instance)
unfolding is_physical scan_all
list_physical_android order d ctx =
    db d ctx (λ w. (ok (scan_all (order (keep is_physical w.instances))), w))

-- The map's zero value is a status that is none of the known ones.
abbrev pub or_unknown : Option AdbState → AdbState
or_unknown none = AdbState.unknown
or_unknown (some a) = a

abbrev pub needs_connect : Option AdbState → Bool
needs_connect none = true
needs_connect (some AdbState.offline) = true
needs_connect (some _) = false

abbrev pub wm_command : String → String → List Argument
wm_command target what = word "-s" ∷ word target ∷ word "shell" ∷ word "wm" ∷ word what ∷ []

module _ (b : Bench) (ctx : Context) where
  unfoldable pub adb_devices : Lab → List (Text × AdbState) × Lab
  unfolding parse_adb_devices codes
  adb_devices l =
      branch (invoke b ctx (word "devices" ∷ word "-l" ∷ []) l) (λ e m. ([], m))
        (λ r m. (elim r.failure [ none ↦ parse_adb_devices (codes r.output) | some e ↦ [] ], m))

  unfoldable pub read_density : String → Exec Lab ℤ
  unfolding parse_density codes
  read_density target = do
    r ← invoke b ctx (wm_command target "density")
    pure (elim r.failure [ none ↦ parse_density (codes r.output) | some e ↦ pos 0 ])

  unfoldable pub store_size : Instance → String → Option (ℕ × ℕ) → Exec Lab Unit
  unfolding read_density update_instance_display in_world
  store_size i target none = pure tt
  store_size i target (some (width, height)) = do
    dpi ← read_density target
    in_world (update_instance_display b.database ctx i.id width height dpi)

  unfoldable pub refresh_display : Instance → Exec Lab Unit
  unfolding store_size parse_wm_size codes trim_space
  refresh_display i = do
    r ← invoke b ctx (wm_command (trim_space i.adb_target) "size")
    elim r.failure [
      | some e ↦ pure tt
      | none ↦ store_size i (trim_space i.adb_target) (parse_wm_size (codes r.output))
    ]

  unfoldable pub reconcile_device : Instance → AdbState → Exec Lab Unit
  unfolding is_current wanted_state wanted_message update_instance_state in_world refresh_display
  reconcile_device i a = if is_current i a then pure tt else do
    in_world (update_instance_state b.database ctx i.id (wanted_state a) (wanted_message a))
    elim a [ AdbState.device ↦ refresh_display i | _ ↦ pure tt ]

  -- Errors are only logged.
  unfoldable pub reconcile_all : List (Text × AdbState) → List Instance → Exec Lab Unit
  unfolding reconcile_device state_of codes trim_space
  reconcile_all seen [] = pure tt
  reconcile_all seen (i ∷ rest) = do
    ignoring (reconcile_device i (or_unknown (state_of (codes (trim_space i.adb_target)) seen)))
    reconcile_all seen rest

  unfoldable pub reconnect_one : List (Text × AdbState) → String → Exec Lab Unit
  unfolding is_tcp_target state_of codes ignoring
  reconnect_one seen target =
      if is_tcp_target target && needs_connect (state_of (codes target) seen)
      then ignoring (invoke b ctx (word "connect" ∷ word target ∷ []))
      else pure tt

  unfoldable pub reconnect_all : List (Text × AdbState) → List Instance → Exec Lab Unit
  unfolding reconnect_one trim_space
  reconnect_all seen [] = pure tt
  reconnect_all seen (i ∷ rest) = do
    reconnect_one seen (trim_space i.adb_target)
    reconnect_all seen rest

  unfoldable pub sweep : List Instance → Exec Lab Unit
  unfolding adb_devices reconnect_all reconcile_all
  sweep [] l = (ok tt, l)
  sweep (i ∷ rest) l =
      let (seen, m) = adb_devices l in
      let n = (reconnect_all seen (i ∷ rest) m).1 in
      let (again, k) = adb_devices n in reconcile_all again (i ∷ rest) k

-- pollOnce, and its bound of 20 seconds
unfoldable pub poll_once : (List Instance → List Instance) → Bench → Context → Exec Lab Unit
unfolding list_physical_android in_world sweep within
poll_once order b parent l =
    let ctx = within parent 20000 l.world in
    (in_world (list_physical_android order b.database ctx) >>= sweep b ctx) l
