-- ===== src/Orchestrator/Tools.antt =====
-- The commands of the cvd tool chain: fetching an image, launching, stopping and probing a device.
use open_cuttles.Base.Int.{ltb_ℤ, pos}
use open_cuttles.Go.Strings.{codes, contains, trim_space}
use open_cuttles.Go.{message, error_text, attempt, Error, wrapped, Exec, pure, raise, ◌>>=◌, ◌>>◌}
use open_cuttles.Domain.{fetching, ready, ImageStatus, Image, Instance}
use open_cuttles.Store.ImagePath.{validate_image_path}
use open_cuttles.Orchestrator.{
  lift, run, instance_number, annotated, Machine, CommandResult, run_in_dir,
}
use open_cuttles.Base.{
  ◌&&◌, str_eq, true, Bool, String, false, not, Option, none, some, List, [], ◌∷◌, ◌++◌, ltb,
  if◌then◌else◌,
}
use open_cuttles.Store.{
  get_image, update_image_status, World, Context, Argument, word, number, setting,
}
use Prim.Native.String.{◌++◌ as concat}

-- An error of a step that answers nothing else.
unfoldable pub check : Option Error → Exec World Unit
check none = pure tt
check (some e) = raise e

-- `%s failed: %w: %s`
unfoldable pub command_failed : String → CommandResult → Exec World Unit
command_failed program r = elim r.failure [
  | none ↦ pure tt
  | some e ↦ raise (wrapped (concat program " failed: ") e (concat ": " r.output))
]

unfoldable pub group_setting : Instance → Argument
group_setting i = number "--group_name=cvd_" (instance_number i.adb_port)

unfoldable pub instance_dir : Machine → Instance → String
instance_dir m i = concat m.instance_root (concat "/" i.id)

-- Service.stopCommand
unfoldable pub stop_command : Machine → Instance → String × List Argument
unfolding group_setting
stop_command m i =
    if m.look_path "stop_cvd"
    then ("stop_cvd", number "--instance_num=" (instance_number i.adb_port) ∷ [])
    else ("cvd", word "stop" ∷ group_setting i ∷ [])

-- Service.stop
unfoldable pub stop : Machine → Context → Instance → Exec World Unit
unfolding stop_command instance_dir command_failed
stop m ctx i = if not m.live then pure tt else do
  let (program, arguments) = stop_command m i
  r ← run_in_dir m ctx (instance_dir m i) program arguments
  command_failed program r

-- Service.clearStaleGroup: errors are ignored.
unfoldable pub clear_stale_group : Machine → Context → Instance → Exec World Unit
unfolding group_setting instance_dir
clear_stale_group m ctx i = if m.look_path "launch_cvd" then pure tt else do
  run_in_dir m ctx (instance_dir m i) "cvd" (word "stop" ∷ group_setting i ∷ [])
  run_in_dir m ctx (instance_dir m i) "cvd" (word "remove" ∷ group_setting i ∷ [])
  pure tt

-- The arguments that `launch` derives from the record.
unfoldable pub launch_arguments : Instance → List Argument
launch_arguments i =
    (word "--num_instances=1"
      ∷ number "--base_instance_num=" (instance_number i.adb_port)
      ∷ word "--start_webrtc=true"
      ∷ number "--cpus=" (pos i.cpu_cores)
      ∷ number "--memory_mb=" (pos i.memory_mb)
      ∷ [])
    ++ (if ltb 0 i.display_width && ltb 0 i.display_height
        then number "--x_res=" (pos i.display_width) ∷ number "--y_res=" (pos i.display_height) ∷ []
        else [])
    ++ (if ltb_ℤ (pos 0) i.dpi then number "--dpi=" i.dpi ∷ [] else [])

-- Service.startCommand
unfoldable pub start_command : Machine → List Argument → String → Instance → String × List Argument
unfolding group_setting instance_dir
start_command m arguments path i =
    if m.look_path "launch_cvd"
    then (
      "launch_cvd",
      arguments
          ++ setting "--system_image_dir=" path ∷ setting "--instance_dir=" (instance_dir m i) ∷ [],
    )
    else (
      "cvd",
      word "create" ∷ arguments
          ++ setting "--host_path=" path ∷ setting "--product_path=" path ∷ group_setting i ∷ [],
    )

-- Service.launch
unfoldable pub launch : Machine → Context → Instance → Exec World Unit
unfolding check launch_arguments start_command instance_dir command_failed
launch m ctx i = do
  image ← annotated "image lookup: " (get_image m.database ctx i.image_id)
  lift (validate_image_path m.fs image.path m.live)
  if not m.live then pure tt else do
    annotated "create instance dir: " (check (m.mkdir_all (instance_dir m i)))
    clear_stale_group m ctx i
    let (program, arguments) = start_command m (launch_arguments i) image.path i
    r ← run_in_dir m ctx (instance_dir m i) program arguments
    command_failed program r

-- imagePopulated
unfoldable pub image_populated : Machine → String → Bool
image_populated m path =
    if str_eq (trim_space path) ""
    then false
    else elim (m.entry_count path) [ none ↦ false | some n ↦ ltb 0 n ]

abbrev is_ready : ImageStatus → Bool
is_ready ready = true
is_ready _ = false

-- Service.markImageError: a failed write is logged.
unfoldable pub mark_image_error : Machine → Context → String → String → Exec World Unit
mark_image_error m ctx id text = do
  attempt (update_image_status m.database ctx id ImageStatus.error 0 text)
  pure tt

unfoldable pub mark_ready : Machine → Context → Image → Exec World Unit
mark_ready m ctx image =
    if not (is_ready image.status)
    then update_image_status m.database ctx image.id ready 0 ""
    else pure tt

unfoldable pub create_image_dir : Machine → Context → Image → Exec World Unit
unfolding mark_image_error
create_image_dir m ctx image = elim (m.mkdir_all image.path) [
  | none ↦ pure tt
  | some e ↦ do
    mark_image_error m ctx image.id (error_text e)
    raise (wrapped "create image dir: " e "")
]

unfoldable pub fetch_failed : Machine → Context → Image → CommandResult → Exec World Unit
unfolding mark_image_error
fetch_failed m ctx image r = elim r.failure [
  | none ↦ update_image_status m.database ctx image.id ready 0 ""
  | some e ↦ do
    let text = concat "cvd fetch failed: " (concat (error_text e) (concat ": " r.output))
    mark_image_error m ctx image.id text
    raise (message text)
]

-- Service.ensureImage, without the symlink that keeps cvd's cache on the image volume
unfoldable pub ensure_image : Machine → Context → Image → Exec World Unit
unfolding mark_ready create_image_dir fetch_failed image_populated
ensure_image m ctx image =
    if not m.live
    then mark_ready m ctx image
    else if str_eq (trim_space image.build_target) ""
    then mark_ready m ctx image
    else if is_ready image.status && image_populated m image.path
    then pure tt
    else do
      update_image_status m.database ctx image.id fetching 0 ""
      create_image_dir m ctx image
      r ← run m ctx "cvd" (
          word "fetch"
          ∷ setting "--default_build=" image.build_target
          ∷ setting "--target_directory=" image.path
          ∷ [])
      fetch_failed m ctx image r

unfoldable pub adb_target : Instance → Argument
adb_target i = number "127.0.0.1:" (pos i.adb_port)

-- Service.isADBReachable
unfoldable pub is_adb_reachable : Machine → Context → Instance → Exec World Bool
unfolding adb_target
is_adb_reachable m ctx i = if not m.live then pure true else do
  r ← run m ctx "adb" (word "-s" ∷ adb_target i ∷ word "get-state" ∷ [])
  pure (elim r.failure [ none ↦ contains (codes r.output) (codes "device") | some e ↦ false ])
