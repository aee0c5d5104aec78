-- ===== src/Store/ImagePath.antt =====
-- ValidateImagePath of backend/internal/store/sqlite.go. The file system and the environment are
-- parameters; the path separator is `/`, that of the hosts with Cuttlefish.
pub mod Confined
use Prim.Native.String.{◌++◌ as concat}
use text.Mathlib.Text.{starts_with}
use open_cuttles.Base.{String, Bool, true, not, str_eq, if◌then◌else◌}
use open_cuttles.Go.{message, wrapped, Result, ok, err}
use open_cuttles.Go.Strings.{trim_space, contains, codes}

-- OPENCUTTLES_IMAGE_ROOT, filepath.Abs of filepath.Clean, filepath.EvalSymlinks, and os.Stat
-- that finds a directory.
pub record FileSystem : Type 0 where
  pub image_root : String
  pub clean_abs : String → Result String
  pub eval_symlinks : String → Result String
  pub is_dir : String → Bool

-- The error under a text of fmt.Errorf.
unfoldable pub annotate : {A : Type 0} → String → Result A → Result A
annotate text (ok a) = ok a
annotate text (err e) = err (wrapped text e "")

unfoldable pub then_ : {A B : Type 0} → Result A → (A → Result B) → Result B
then_ (ok a) f = f a
then_ (err e) f = err e

unfoldable pub root_or_default : String → String
root_or_default raw =
    let root = trim_space raw in if str_eq root "" then "/var/lib/opencuttles/images" else root

unfoldable pub is_under : String → String → Bool
is_under root path = if str_eq path root then true else starts_with path (concat root "/")

unfoldable pub resolve_existing : FileSystem → String → String → Result (Unit {0})
unfolding is_under
resolve_existing fs root path =
    then_ (annotate "image path is not readable: " (fs.eval_symlinks path)) λ resolved.
      then_ (annotate "invalid resolved image path: " (fs.clean_abs resolved)) λ resolved_abs.
        if not (is_under root resolved_abs)
        then err (message (concat "resolved image path must remain under " root))
        else if not (fs.is_dir resolved_abs)
        then err (message (concat "image path is not a readable directory: " resolved_abs))
        else ok tt

unfoldable pub validate_image_path : FileSystem → String → Bool → Result (Unit {0})
unfolding resolve_existing root_or_default
validate_image_path fs path require_existing =
    if str_eq (trim_space path) ""
    then err (message "image path is required")
    else then_ (annotate "invalid image root: " (fs.clean_abs (root_or_default fs.image_root)))
        λ root. then_ (annotate "invalid image path: " (fs.clean_abs path)) λ clean_path.
          if not (is_under root clean_path)
          then err (message (concat "image path must be under " root))
          else if contains (codes clean_path) (codes "/../")
          then err (message "invalid image path")
          else if require_existing
          then resolve_existing fs root clean_path
          else ok tt
