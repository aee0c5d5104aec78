-- ===== src/Store/Registered.antt =====
-- What the registration of a physical device leaves in the tables.
use open_cuttles.Base.{
  All, all, eq_iff, ◌&&◌, ◌||◌, Bool, ◌==◌, length, str_eq, ◌≡◌, ◌≢◌, ◌≤◌, ◌⊎◌, ◌∙◌, inl, inr, [],
  ◌∷◌, true, false, none, some, refl, ap, arith, List, String, Option, ℕ, Bool-cases, Option-cases,
}
use open_cuttles.Store.Register.{
  is_physical, is_adb_target, is_letter_or_digit, adb_target_error, physical_named,
  create_physical_android, register, register_unless, register_if, insert_physical,
  get_or_create_default_image, create_image, or_created, new_physical,
}
use open_cuttles.Go.Laws.{ok_injective, bind-rule, branch-rule}
use open_cuttles.Store.Keeps.{
  Keeps-db, Keeps-if, Keeps-attempt, Keeps, db-cases, Keeps-bind, Keeps-raise, Keeps-pure,
}
use open_cuttles.Go.{◌>>=◌, ◌>>◌, ok, err, Exec, Result, Error, raise, attempt, pure}
use open_cuttles.Store.{Database, Context, World, Tables, db, db_failure, one_row, advance}
use open_cuttles.Store.ImagePath.{FileSystem, validate_image_path}
use open_cuttles.Domain.{Instance, Image, Source, State}
use open_cuttles.Go.Strings.{codes, trim_space}
use open_cuttles.Go.Text.{Text}

-- A letter or a digit of ASCII.
abbrev pub IsLetterOrDigit : ℕ → Type 0
IsLetterOrDigit c = ((65 ≤ c) × (c ≤ 90)) ⊎ ((97 ≤ c) × (c ≤ 122)) ⊎ ((48 ≤ c) × (c ≤ 57))

-- A letter, a digit, a dot, an underscore, a colon or a dash.
abbrev pub IsAddressChar : ℕ → Type 0
IsAddressChar c = IsLetterOrDigit c ⊎ (c ≡ 46) ⊎ (c ≡ 95) ⊎ (c ≡ 58) ⊎ (c ≡ 45)

-- An address begins with a letter or a digit, has no characters but those, and at most 128.
abbrev pub IsAddress : Text → Type 0
IsAddress s =
    (c : ℕ) × (rest : Text) × (s ≡ c ∷ rest)
    × IsLetterOrDigit c
    × All IsAddressChar rest
    × (length s ≤ 128)

-- No physical device has this address.
abbrev pub IsFree : String → List Instance → Type 0
IsFree target rows = All (λ (i : Instance). (i.src ≡ Source.physical) → i.adb_target ≢ target) rows

letter-IsLetterOrDigit : (c : ℕ) → is_letter_or_digit c ≡ true → IsLetterOrDigit c
unfolding is_letter_or_digit
letter-IsLetterOrDigit c h = ground arith

address_char : ℕ → Bool
address_char d = is_letter_or_digit d || (d == b'.') || (d == b'_') || (d == b':') || (d == b'-')

char-IsAddressChar : (c : ℕ) → address_char c ≡ true → IsAddressChar c
unfolding address_char
char-IsAddressChar c h = elim (Bool-cases (is_letter_or_digit c)) [
  | inl e ↦ inl (letter-IsLetterOrDigit c e)
  | inr e ↦ inr (ground arith)
]

all-IsAddressChar : (s : Text) → all address_char s ≡ true → All IsAddressChar s
all-IsAddressChar [] h = tt
all-IsAddressChar (c ∷ s) h =
    (char-IsAddressChar c (ground arith), all-IsAddressChar s (ground arith))

unnamed-IsFree :
    (target : String) (rows : List Instance)
    → physical_named target rows ≡ none
    → IsFree target rows
unfolding physical_named
unnamed-IsFree target [] h = tt
unnamed-IsFree target (i ∷ rest) h =
    elim (Bool-cases (str_eq i.adb_target target && is_physical i.src)) [
      | inl e ↦ cc (rw e at h)
      | inr e ↦ (
        λ phys same. cc (rw (phys, (eq_iff i.adb_target target).1 same) at e),
        unnamed-IsFree target rest (rw e at h),
      )
    ]

target-IsAddress : (s : Text) → is_adb_target s ≡ true → IsAddress s
unfolding is_adb_target address_char
target-IsAddress [] h = cc h
target-IsAddress (c ∷ s) h = (
  c,
  s,
  refl,
  letter-IsLetterOrDigit c (ground arith),
  all-IsAddressChar s (ground arith),
  ground arith,
)

accepted-IsAddress :
    (quote : String → String) (target : String)
    → adb_target_error quote target ≡ none
    → IsAddress (codes (trim_space target))
unfolding adb_target_error
accepted-IsAddress quote target h = elim (Bool-cases (str_eq (trim_space target) "")) [
  | inl b ↦ cc (rw b at h)
  | inr b ↦ elim (Bool-cases (is_adb_target (codes (trim_space target)))) [
    | inl t ↦ target-IsAddress (codes (trim_space target)) t
    | inr t ↦ cc (rw (b, t) at h)
  ]
]

-- A device that was registered: the last row, offline, at an address that no other row had, unless
-- the lookup of that address failed.
pub record Entered (d : Database) (ctx : Context) (target : String) (w v : World) (i : Instance)
    : Type 0 where
  pub added : v.tables.instances ≡ i ∷ w.tables.instances
  pub has_target : i.adb_target ≡ trim_space target
  pub is_address : IsAddress (codes i.adb_target)
  pub is_offline : i.state ≡ State.offline
  pub is_src : i.src ≡ Source.physical
  pub is_new : db_failure d ctx w ≡ none → IsFree (trim_space target) w.tables.instances

abbrev pub IsRegistration : Database → Context → String → World → Result Instance → World → Type 0
IsRegistration d ctx target w r v =
    ((e : Error) × (r ≡ err e) × (v.tables.instances ≡ w.tables.instances))
    ⊎ ((i : Instance) × (r ≡ ok i) × Entered d ctx target w v i)

rows : Tables → List Instance
rows t = t.instances

module _ (d : Database) (fs : FileSystem) (quote : String → String) (default_path : String)
    (ctx : Context) where
  create_image-Keeps : (path : String) → Keeps rows (create_image d fs quote default_path ctx path)
  unfolding create_image rows
  create_image-Keeps path = record {
    at = λ w.
        branch-rule (λ (p : Result Image × World). rows p.1.tables ≡ rows w.tables)
          (validate_image_path fs path false, w) _ _ (λ e h. refl)
          (λ u h. (Keeps-db {f = rows} d ctx _ (record { at = λ x. refl })).at w);
  }

  or_created-Keeps : (r : Result Image) → Keeps rows (or_created d fs quote default_path ctx r)
  or_created-Keeps (ok image) = Keeps-pure image
  or_created-Keeps (err e) =
      Keeps-if (open_cuttles.Go.is_not_found e)
        (create_image d fs quote default_path ctx default_path) (raise e)
        (create_image-Keeps default_path) (Keeps-raise e)

  default_image-Keeps : Keeps rows (get_or_create_default_image d fs quote default_path ctx)
  unfolding get_or_create_default_image
  default_image-Keeps = record {
    at = λ w.
        branch-rule (λ (p : Result Image × World). rows p.1.tables ≡ rows w.tables)
          (validate_image_path fs default_path false, w) _ _ (λ e h. refl)
          (λ u h.
            (Keeps-bind _ (or_created d fs quote default_path ctx)
                (Keeps-attempt _ (Keeps-db {f = rows} d ctx _ (record { at = λ x. refl })))
                or_created-Keeps).at
              w);
  }

  look : String → Exec World String
  look target x = (one_row (physical_named target x.tables.instances), x)

  not_found :
      (target : String) (w : World) (e : Error)
      → (db d ctx (look target) w).0 ≡ err e
      → db_failure d ctx w ≡ none
      → physical_named target w.tables.instances ≡ none
  unfolding db look one_row advance
  not_found target w e h calm = elim (Option-cases (physical_named target w.tables.instances)) [
    | inl n ↦ n
    | inr (s, n) ↦ cc (rw (calm, open_cuttles.Store.run_or_fail, n, one_row) at h)
  ]

  insert-Entered :
      (name target : String) (image : Image) (w v : World)
      → v.tables.instances ≡ w.tables.instances
      → IsAddress (codes (trim_space target))
      → (db_failure d ctx w ≡ none → physical_named (trim_space target) w.tables.instances ≡ none)
      → IsRegistration d ctx target w
          (insert_physical d fs quote default_path ctx name (trim_space target) image v).0
          (insert_physical d fs quote default_path ctx name (trim_space target) image v).1
  unfolding insert_physical advance
  insert-Entered name target image w v same fit new =
      let i = new_physical (d.new_id v.tick "phy") name (trim_space target) image.id v.now in
      elim (db-cases d ctx
        (λ x. (ok i, record x { tables = record x.tables { instances = i ∷ x.tables.instances } }))
        v) [
          | inr (e, h) ↦ rw h (inl (e, refl, same))
          | inl h ↦ rw h (
              inr (
                i,
                refl,
                record {
                  added = ap (λ l. i ∷ l) same;
                  has_target = refl;
                  is_address = fit;
                  is_offline = refl;
                  is_src = refl;
                  is_new = λ calm. unnamed-IsFree (trim_space target) w.tables.instances (new calm);
                },
              ))
        ]

  unless-Entered :
      (name target : String) (found : Result String) (w v : World)
      → v.tables.instances ≡ w.tables.instances
      → IsAddress (codes (trim_space target))
      → ((e : Error)
          → found ≡ err e
          → db_failure d ctx w ≡ none
          → physical_named (trim_space target) w.tables.instances ≡ none)
      → IsRegistration d ctx target w
          (register_unless d fs quote default_path ctx name (trim_space target) found v).0
          (register_unless d fs quote default_path ctx name (trim_space target) found v).1
  unfolding register_unless rows
  unless-Entered name target (ok existing) w v same fit new = inl (_, refl, same)
  unless-Entered name target (err e) w v same fit new =
      let kept = default_image-Keeps.at v ∙ same in
      bind-rule (IsRegistration d ctx target w)
        (get_or_create_default_image d fs quote default_path ctx)
        (insert_physical d fs quote default_path ctx name (trim_space target)) v
        (λ x h. inl (x, refl, kept))
        (λ image h. insert-Entered name target image w _ kept fit (new e refl))

  register-Entered :
      (name target : String) (w : World)
      → IsAddress (codes (trim_space target))
      → IsRegistration d ctx target w
          (register d fs quote default_path ctx name (trim_space target) w).0
          (register d fs quote default_path ctx name (trim_space target) w).1
  unfolding register look
  register-Entered name target w fit =
      let kept =
        (Keeps-db {f = λ t. t.instances} d ctx (look (trim_space target))
            (record { at = λ x. refl })).at
          w in
      bind-rule (IsRegistration d ctx target w) (attempt (db d ctx (look (trim_space target))))
        (register_unless d fs quote default_path ctx name (trim_space target)) w (λ e h. cc h)
        (λ found h.
          unless-Entered name target found w _ kept fit
            (λ e same. not_found (trim_space target) w e (ok_injective h ∙ same)))

  if-Entered :
      (o : Option Error) (name target : String) (w : World)
      → adb_target_error quote target ≡ o
      → IsRegistration d ctx target w
          (register_if d fs quote default_path ctx o name target w).0
          (register_if d fs quote default_path ctx o name target w).1
  if-Entered (some e) name target w h = inl (e, refl, refl)
  if-Entered none name target w h =
      register-Entered name target w (accepted-IsAddress quote target h)

  -- A registration of a physical device either answers an error and adds no device; or it adds one
  -- that is offline, at the trimmed address, which begins with a letter or a digit, has only
  -- letters, digits, dots, underscores, colons and dashes, at most 128, and which no other physical
  -- device had, provided that the look for such a device did not fail.
  pub create_physical_android-Entered :
      (name target : String) (w : World)
      → IsRegistration d ctx target w
          (create_physical_android d fs quote default_path ctx name target w).0
          (create_physical_android d fs quote default_path ctx name target w).1
  unfolding create_physical_android
  create_physical_android-Entered name target w = elim (Bool-cases (str_eq (trim_space name) "")) [
    | inl h ↦ rw h (inl (_, refl, refl))
    | inr h ↦ rw h (if-Entered (adb_target_error quote target) name target w refl)
  ]
