-- ===== src/DeviceControl/Actions.antt =====
-- Every operation that acts on a device goes to that device, and only if it can be driven.
use open_cuttles.Store.Rows.{find-key, find}
use open_cuttles.Domain.{Instance}
use open_cuttles.Base.{
  Option, All, List, String, ◌≡◌, ◌⊎◌, ◌∙◌, inl, inr, [], ◌∷◌, ◌++◌, none, some, refl, sym, ap,
  arith,
}
use open_cuttles.Go.Laws.{bind_ok, ok_injective, bind-rule}
use open_cuttles.Go.{pure, Exec, ◌>>=◌, ok}
use open_cuttles.DeviceControl.Effects.{
  Adds-pure, Adds-lift_result, get_instance-silent, Adds-in_world, Adds-bind, Adds, both, Added,
}
use open_cuttles.DeviceControl.{Call, lift_result, check_resolvable, Lab, in_world, resolve, Bench}
use open_cuttles.Store.{
  scan_row, Command, scan_instance, World, Database, Context, advance, get_instance,
}
use open_cuttles.Store.Keeps.{db_ok}
use open_cuttles.DeviceControl.Reach.{CarriesId, GoesTo, Reaches}
use open_cuttles.Base.Int.{ℤ}
use open_cuttles.DeviceControl.Installs.{ignoring}
use mathlib.Core.Option
use mathlib.Core.List.{append-nil}
use open_cuttles.DeviceControl.Operations

-- The operations that act on a device, and those that take a picture or a video of it.
pub data Action : Type 0 where
  screenshot start_recording stop_recording : Action
  tap : ℤ → ℤ → Action
  click : ℤ → ℤ → String → ℤ → Action
  scroll : ℤ → ℤ → ℤ → ℤ → Action
  swipe : ℤ → ℤ → ℤ → ℤ → ℤ → Action
  long_press : ℤ → ℤ → ℤ → Action
  chord : List String → Action
  type_text press_key launch_app shell install_apk : String → Action
  rotate logcat : ℤ → Action
  install_build : String → String → String → Action

-- The operation, for what it does and not for what it returns.
unfoldable pub perform : Bench → Context → String → Action → Exec Lab (Unit {0})
unfolding ignoring
perform b ctx id Action.screenshot = ignoring (Operations.screenshot b ctx id)
perform b ctx id Action.start_recording =
    open_cuttles.DeviceControl.Installs.start_recording b ctx id
perform b ctx id Action.stop_recording =
    ignoring (open_cuttles.DeviceControl.Installs.stop_recording b ctx id)
perform b ctx id (Action.tap x y) = Operations.tap b ctx id x y
perform b ctx id (Action.click x y button n) = Operations.click b ctx id x y button n
perform b ctx id (Action.scroll x y dx dy) = Operations.scroll b ctx id x y dx dy
perform b ctx id (Action.swipe x1 y1 x2 y2 ms) = Operations.swipe b ctx id x1 y1 x2 y2 ms
perform b ctx id (Action.long_press x y ms) = Operations.long_press b ctx id x y ms
perform b ctx id (Action.chord keys) = Operations.press_chord b ctx id keys
perform b ctx id (Action.type_text s) = Operations.type_text b ctx id s
perform b ctx id (Action.press_key k) = Operations.press_key b ctx id k
perform b ctx id (Action.launch_app app) = Operations.launch_app b ctx id app
perform b ctx id (Action.shell command) = ignoring (Operations.shell b ctx id command)
perform b ctx id (Action.install_apk path) =
    open_cuttles.DeviceControl.Installs.install_apk b ctx id path
perform b ctx id (Action.rotate n) = Operations.rotate b ctx id n
perform b ctx id (Action.logcat n) = ignoring (Operations.logcat b ctx id n)
perform b ctx id (Action.install_build build name arguments) =
    open_cuttles.DeviceControl.Installs.install_desktop_build b ctx id build name arguments

-- Nothing was run or called; or the device is stored, it can be driven, and what was run or called
-- went to it.
abbrev pub AimedBy : (Instance → Call → Type 0) → Bench → String → Lab → Lab → Type 0
AimedBy Q b id l m =
    ((m.world.commands ≡ l.world.commands) × (m.calls ≡ l.calls))
    ⊎ ((i : Instance) × (Option.map scan_instance
            (find (λ (j : Instance). j.id) id l.world.tables.instances)
          ≡ some i)
        × (check_resolvable b i ≡ ok tt)
        × Added (GoesTo i) (Q i) l m)

abbrev pub Aimed : Bench → String → Lab → Lab → Type 0
Aimed b id l m = AimedBy CarriesId b id l m

scanned :
    (o : Option Instance) (i : Instance) → scan_row o ≡ ok i → Option.map scan_instance o ≡ some i
unfolding scan_row
scanned none i h = cc h
scanned (some j) i h = ap some (ok_injective h)

stored :
    (d : Database) (ctx : Context) (id : String) (w : World) (i : Instance)
    → (get_instance d ctx id w).0 ≡ ok i
    → Option.map scan_instance (find (λ (j : Instance). j.id) id w.tables.instances) ≡ some i
unfolding get_instance advance
stored d ctx id w i h =
    let ran = db_ok d ctx (λ v. (scan_row (find (λ j. j.id) id v.instances), v)) w i h in
    scanned (find (λ j. j.id) id w.instances) i (sym (ap (λ r. r.0) ran) ∙ h)

no_change :
    {l m : Lab}
    → Added (λ _. ⊥) (λ _. ⊥) l m
    → (m.world.commands ≡ l.world.commands) × (m.calls ≡ l.calls)
no_change {l} a = (
  a.commands_are ∙ ap (λ s. l.world.commands ++ s) (no_member a.ran a.ran_all) ∙ append-nil _,
  a.calls_are ∙ ap (λ s. l.calls ++ s) (no_member a.called a.called_all) ∙ append-nil _,
)
  where
    no_member : {A : Type 0} (xs : List A) → All (λ _. ⊥) xs → xs ≡ []
    no_member [] h = refl
    no_member (x ∷ xs) h = absurd h.0

module _ (b : Bench) (ctx : Context) (id : String) where
  resolve-Adds : {P : Command → Type 0} {Q : Call → Type 0} → Adds P Q (resolve b ctx id)
  unfolding resolve
  resolve-Adds =
      Adds-bind _ _ (Adds-in_world _ (get_instance-silent b.database ctx id))
        λ i. Adds-bind _ _ (Adds-lift_result (check_resolvable b i)) (λ _. Adds-pure i)

  resolve_ok :
      (l : Lab) (i : Instance)
      → (resolve b ctx id l).0 ≡ ok i
      → ((get_instance b.database ctx id l.world).0 ≡ ok i) × (check_resolvable b i ≡ ok tt)
  unfolding resolve in_world lift_result
  resolve_ok l i h =
      let check : Instance → Exec Lab Instance =
        λ (j : Instance). lift_result (check_resolvable b j) >>= λ u. pure j in
      let (j, found, checked) = bind_ok (in_world (get_instance b.database ctx id)) check l i h in
      let (u, passed, same) =
        bind_ok (lift_result (check_resolvable b j)) (λ u. pure j)
          (in_world (get_instance b.database ctx id) l).1 i checked in
      let j≡i = ok_injective same in (found ∙ same, ap (check_resolvable b) (sym j≡i) ∙ passed)

  pub resolve-AimedBy :
      {A : Type 0} (Q : Instance → Call → Type 0) (body : Instance → Exec Lab A) (l : Lab)
      → ((i : Instance)
          → Option.map scan_instance (find (λ (j : Instance). j.id) id l.world.tables.instances)
            ≡ some i
          → Adds (GoesTo i) (Q i) (body i))
      → AimedBy Q b id l ((resolve b ctx id >>= body) l).1
  resolve-AimedBy Q body l k =
      bind-rule (λ _ m. AimedBy Q b id l m) (resolve b ctx id) body l
        (λ e h. inl (no_change (resolve-Adds.at l)))
        (λ i h.
          let (found, checked) = resolve_ok l i h in
          let row = stored b.database ctx id l.world i found in
          inr (i, row, checked, both (resolve-Adds.at l) ((k i row).at (resolve b ctx id l).1)))

  pub resolve-Aimed :
      {A : Type 0} (body : Instance → Exec Lab A) (l : Lab)
      → ((i : Instance)
          → Option.map scan_instance (find (λ (j : Instance). j.id) id l.world.tables.instances)
            ≡ some i
          → Reaches i (body i))
      → Aimed b id l ((resolve b ctx id >>= body) l).1
  resolve-Aimed body l k = resolve-AimedBy CarriesId body l k

scan-id : (j : Instance) → (scan_instance j).id ≡ j.id
unfolding scan_instance
scan-id j = ground arith

scanned-id :
    (id : String) (rows : List Instance) (i : Instance) (o : Option Instance)
    → find (λ (j : Instance). j.id) id rows ≡ o
    → Option.map scan_instance o ≡ some i
    → id ≡ i.id
scanned-id id rows i none e h = cc h
scanned-id id rows i (some j) e h = cc (find-key (λ (k : Instance). k.id) id rows j e, scan-id j, h)

pub row_id :
    (id : String) (rows : List Instance) (i : Instance)
    → Option.map scan_instance (find (λ (j : Instance). j.id) id rows) ≡ some i
    → id ≡ i.id
row_id id rows i h = scanned-id id rows i _ refl h
