-- ===== src/Store/Register.antt =====
-- backend/internal/store/physical.go and sqlite.go: the registration of a physical Android device,
-- and the image that stands for devices without one. `quote` is the verb %q, and `default_path` is
-- OPENCUTTLES_DEFAULT_IMAGE_PATH, or the directory `default` of the image root.
use open_cuttles.Base.{
  all, length, leb, str_eq, ◌&&◌, ◌||◌, [], ◌∷◌, ◌++◌, if◌then◌else◌, ◌==◌, true, false, none, some,
  List, String, Option, Bool, ℕ,
}
use open_cuttles.Go.{
  branch, ◌>>=◌, ok, err, Exec, Result, Error, message, raise, attempt, pure, is_not_found,
}
use Prim.Native.String.{◌++◌ as concat}
use open_cuttles.Store.{Database, Context, World, db, one_row}
use open_cuttles.Store.ImagePath.{FileSystem, validate_image_path}
use open_cuttles.Domain.{Instance, Image, ImageStatus, Source, Platform, State, ConsoleProvider}
use open_cuttles.Go.Strings.{codes, trim_space}
use open_cuttles.Go.Text.{Text}
use open_cuttles.Base.Int.{pos}

unfoldable pub is_letter_or_digit : ℕ → Bool
is_letter_or_digit c =
    (leb b'A' c && leb c b'Z') || (leb b'a' c && leb c b'z') || (leb b'0' c && leb c b'9')

-- adbTargetPattern: ^[A-Za-z0-9][A-Za-z0-9._:\-]{0,127}$
unfoldable pub is_adb_target : Text → Bool
unfolding is_letter_or_digit
is_adb_target [] = false
is_adb_target (c ∷ s) =
    is_letter_or_digit c
    && leb (length s) 127
    && all (λ d. is_letter_or_digit d || (d == b'.') || (d == b'_') || (d == b':') || (d == b'-')) s

module _ (quote : String → String) where
  -- ValidateADBTarget: the error, if there is one.
  unfoldable pub adb_target_error : String → Option Error
  unfolding is_adb_target trim_space codes
  adb_target_error target =
      if str_eq (trim_space target) ""
      then some (message "an ADB target is required (a USB serial, or host:port)")
      else if is_adb_target (codes (trim_space target))
      then none
      else some (
          message (
            concat (quote (trim_space target)) (
              concat " is not a valid ADB target: use a USB serial or host:port "
                "(letters, digits, dot, dash, underscore, colon; must not start with '-')")))

abbrev pub is_physical : Source → Bool
is_physical Source.physical = true
is_physical _ = false

-- The name of the first physical device with this address.
unfoldable pub physical_named : String → List Instance → Option String
physical_named target [] = none
physical_named target (i ∷ rest) =
    if str_eq i.adb_target target && is_physical i.src
    then some i.name
    else physical_named target rest

unfoldable pub image_at : String → List Image → Option Image
image_at path [] = none
image_at path (i ∷ rest) = if str_eq i.path path then some i else image_at path rest

abbrev pub new_image : String → String → Image
new_image id path = record {
  id = id;
  path = path;
  build_target = "";
  version_id = "";
  status = ImageStatus.ready;
  size_bytes = 0;
  last_error = "";
}

abbrev pub new_physical : String → String → String → String → ℕ → Instance
new_physical id name target image_id now = record {
  id = id;
  name = name;
  platform = Platform.android;
  control_endpoint = "";
  image_id = image_id;
  android_version = "";
  state = State.offline;
  cpu_cores = 0;
  memory_mb = 0;
  display_width = 0;
  display_height = 0;
  dpi = pos 0;
  adb_port = 0;
  webrtc_port = 0;
  device_id = "";
  console_provider = ConsoleProvider.screenshot;
  console_url = "";
  last_error = "";
  updated_at = now;
  src = Source.physical;
  adb_target = target;
}

module _ (d : Database) (fs : FileSystem) (quote : String → String) (default_path : String)
    (ctx : Context) where
  -- CreateImage; the rows are in the order in which they were created.
  unfoldable pub create_image : String → Exec World Image
  unfolding validate_image_path
  create_image path w =
      branch (validate_image_path fs path false, w) (λ e. raise e)
        (λ u v.
          let image = new_image (d.new_id v.tick "img") path in
          db d ctx
            (λ x. (
              ok image,
              record x { tables = record x.tables { images = x.tables.images ++ image ∷ [] } },
            ))
            v)

  abbrev pub or_created : Result Image → Exec World Image
  or_created (ok image) = pure image
  or_created (err e) = if is_not_found e then create_image default_path else raise e

  -- GetOrCreateDefaultImage
  unfoldable pub get_or_create_default_image : Exec World Image
  unfolding validate_image_path image_at one_row
  get_or_create_default_image w =
      branch (validate_image_path fs default_path false, w) (λ e. raise e)
        (λ u.
          attempt (db d ctx (λ x. (one_row (image_at default_path x.tables.images), x)))
          >>= or_created)

  unfoldable pub insert_physical : String → String → Image → Exec World Instance
  unfolding db
  insert_physical name target image w =
      let i = new_physical (d.new_id w.tick "phy") name target image.id w.now in
      db d ctx
        (λ x. (ok i, record x { tables = record x.tables { instances = i ∷ x.tables.instances } }))
        w

  -- Any failure of the lookup counts as not finding a device.
  unfoldable pub register_unless : String → String → Result String → Exec World Instance
  unfolding get_or_create_default_image insert_physical
  register_unless name target (ok existing) = raise (
      message (
        concat "ADB target "
          (concat (quote target) (concat " is already registered as " (quote existing)))))
  register_unless name target (err e) = get_or_create_default_image >>= insert_physical name target

  unfoldable pub register : String → String → Exec World Instance
  unfolding physical_named one_row register_unless
  register name target =
      attempt (db d ctx (λ x. (one_row (physical_named target x.tables.instances), x)))
      >>= register_unless name target

  abbrev pub register_if : Option Error → String → String → Exec World Instance
  register_if (some e) name target = raise e
  register_if none name target = register name (trim_space target)

  -- CreatePhysicalAndroid
  unfoldable pub create_physical_android : String → String → Exec World Instance
  unfolding register adb_target_error trim_space
  create_physical_android name target =
      if str_eq (trim_space name) ""
      then raise (message "a device name is required")
      else register_if (adb_target_error quote target) name target
