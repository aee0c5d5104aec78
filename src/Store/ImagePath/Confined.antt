-- ===== src/Store/ImagePath/Confined.antt =====
-- Where a validated image path leads.
use text.Mathlib.TextBridge.{IsPrefix}
use open_cuttles.Go.Strings.{codes, contains, trim_space}
use Prim.Native.String.{◌++◌ as concat}
use text.Mathlib.TextEquality.{starts_with_iff}
use open_cuttles.Base.{
  ◌⊎◌, Bool, eq_iff, str_eq, Bool-cases, String, ◌≡◌, ◌≢◌, inl, inr, if◌then◌else◌, true, false,
  refl, arith,
}
use open_cuttles.Go.{Result, ok, err}
use open_cuttles.Store.ImagePath.{
  FileSystem, annotate, then_, is_under, resolve_existing, validate_image_path, root_or_default,
}

then_annotate-ok :
    {A B : Type 0} (text : String) (r : Result A) (f : A → Result B) (b : B)
    → then_ (annotate text r) f ≡ ok b
    → (a : A) × (r ≡ ok a) × (f a ≡ ok b)
unfolding then_ annotate
then_annotate-ok text (ok a) f b h = (a, refl, h)
then_annotate-ok text (err e) f b h = cc h

else-ok :
    {A : Type 0} (b : Bool) (x y : Result A) (a : A)
    → b ≡ false
    → (if b then x else y) ≡ ok a
    → y ≡ ok a
else-ok b x y a e h = ground arith

-- A path is the root, or begins with the root and a separator.
abbrev pub IsUnder : String → String → Type 0
IsUnder root path = (path ≡ root) ⊎ IsPrefix (concat root "/") path

is_under-IsUnder : (root path : String) → is_under root path ≡ true → IsUnder root path
unfolding is_under
is_under-IsUnder root path h = elim (Bool-cases (str_eq path root)) [
  | inl e ↦ inl ((eq_iff path root).0 e)
  | inr e ↦ inr ((starts_with_iff path (concat root "/")).0 (rw e at h))
]

-- The directory is there and, symbolic links resolved, it is under the root.
abbrev pub Leads : FileSystem → String → String → Type 0
Leads fs root path =
    (link : String) × (resolved : String) × (fs.eval_symlinks path ≡ ok link)
    × (fs.clean_abs link ≡ ok resolved)
    × IsUnder root resolved
    × (fs.is_dir resolved ≡ true)

resolve_existing-Leads :
    (fs : FileSystem) (root path : String)
    → resolve_existing fs root path ≡ ok tt
    → Leads fs root path
unfolding resolve_existing
resolve_existing-Leads fs root path h =
    let (link, e, k) = then_annotate-ok _ (fs.eval_symlinks path) _ tt h in
    let (resolved, f, l) = then_annotate-ok _ (fs.clean_abs link) _ tt k in
    (link, resolved, e, f, is_under-IsUnder root resolved (ground arith), ground arith)

-- A path that is accepted, with the requirement that it exists, is not blank; cleaned, it is under
-- the image root and has no `/../` in it; and resolved, it is a directory under that root.
pub validate_image_path-Leads :
    (fs : FileSystem) (path : String)
    → validate_image_path fs path true ≡ ok tt
    → (root : String) × (clean : String) × (fs.clean_abs (root_or_default fs.image_root) ≡ ok root)
      × (fs.clean_abs path ≡ ok clean)
      × (trim_space path ≢ "")
      × IsUnder root clean
      × (contains (codes clean) (codes "/../") ≡ false)
      × Leads fs root clean
unfolding validate_image_path
validate_image_path-Leads fs path h = elim (Bool-cases (str_eq (trim_space path) "")) [
  | inl e ↦ cc (e, h)
  | inr e ↦
      let (root, p, k) =
        then_annotate-ok _ (fs.clean_abs (root_or_default fs.image_root)) _ tt
          (else-ok (str_eq (trim_space path) "") _ _ tt e h) in
      let (clean, q, l) = then_annotate-ok _ (fs.clean_abs path) _ tt k in
      (
        root,
        clean,
        p,
        q,
        ground (arith, eq_iff (trim_space path) ""),
        is_under-IsUnder root clean (ground arith),
        ground arith,
        resolve_existing-Leads fs root clean (ground arith),
      )
]
