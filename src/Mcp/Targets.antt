-- ===== src/Mcp/Targets.antt =====
-- Which device the commands and calls of a tool go to.
use open_cuttles.DeviceControl.{
  unsupported, lift_result, is_runner, adb, interactive_timeout, text, within, adb_shell, Lab,
  Parameter, Bench,
}
use open_cuttles.Go.{raise, pure, Result, Exec, ◌>>=◌}
use open_cuttles.DeviceControl.Hierarchy.{parse_ui_hierarchy, XmlNodes}
use open_cuttles.Domain.{source, Instance}
use open_cuttles.Store.{word, Argument, Context}
use open_cuttles.DeviceControl.Drivers.{is_android}
use open_cuttles.Go.Strings.{codes}
use open_cuttles.DeviceControl.Effects.{
  Adds-pure, Adds-lift_result, Adds-bind, Adds-if, Adds-call_tunnel, Adds-raise, Adds,
}
use open_cuttles.DeviceControl.Reach.{adb-Reaches, adb_shell-Reaches, GoesTo}
use open_cuttles.DeviceControl.Readings.{parse_wm_size}
use open_cuttles.Base.{
  Bool, Option-cases, ℕ, List, String, ◌≡◌, inl, inr, [], ◌∷◌, if◌then◌else◌, refl,
}
use open_cuttles.DeviceControl.Operations.{
  list_desktop_apps, foreground_window, read_size, list_packages, resumed_activity,
  open_desktop_app, timed, call_runner,
}
use open_cuttles.Go.Text.{Text}
use open_cuttles.DeviceControl.Actions.{row_id, resolve-AimedBy, perform, Action}
use open_cuttles.Mcp.Acting.{still, step, weaken-Adds, HasId, Acting-of, Acting}
use open_cuttles.DeviceControl.Installs.{ignoring}
use open_cuttles.DeviceControl.Addressed.{perform-Aimed}
use open_cuttles.DeviceControl.Operations

abbrev dump_command : List Argument
dump_command = word "exec-out" ∷ word "uiautomator" ∷ word "dump" ∷ word "/dev/tty" ∷ []

-- The operations that the handlers use.
module _ (b : Bench) (ctx : Context) (id : String) where
  timed-Acting :
      {A : Type 0} (ms : ℕ) (body : Context → Instance → Exec Lab A)
      → ((until : Context) (i : Instance) → id ≡ i.id → Adds (GoesTo i) (HasId i) (body until i))
      → Acting b id (timed ms b ctx id body)
  unfolding timed
  timed-Acting ms body k = record {
    at = λ l.
        let until = within ctx ms l.world in
        step (still refl refl) (
          resolve-AimedBy b until id HasId (body until) l
            (λ i row. k until i (row_id id l.world.tables.instances i row)));
  }

  pub screenshot-Acting : Acting b id (Operations.screenshot b ctx id)
  screenshot-Acting =
      Acting-of _ (λ l. unfold perform ignoring in perform-Aimed b ctx id Action.screenshot l)

  pub act-Acting : (a : Action) → Acting b id (perform b ctx id a)
  act-Acting a = Acting-of _ (perform-Aimed b ctx id a)

  call_runner-HasId :
      (until : Context) (i : Instance) (method : String) (parameters : List (String × Parameter))
      → id ≡ i.id
      → Adds (GoesTo i) (HasId i) (call_runner b ctx id until method parameters)
  unfolding call_runner
  call_runner-HasId until i method parameters e = elim (Option-cases b.tunnel) [
    | inl h ↦ rw h (Adds-raise _)
    | inr (t, h) ↦ rw h (Adds-call_tunnel b t until _ e)
  ]

  adb_shell-HasId :
      (until : Context) (i : Instance) (arguments : List Argument)
      → Adds (GoesTo i) (HasId i) (adb_shell b until i arguments)
  adb_shell-HasId until i arguments = weaken-Adds i _ (adb_shell-Reaches i b until arguments)

  module _ (until : Context) (i : Instance) where
    read_size-HasId : Adds (GoesTo i) (HasId i) (read_size b ctx id until i)
    unfolding read_size
    read_size-HasId = Adds-bind _ _ (adb_shell-HasId until i _) λ out.
        elim (Option-cases (parse_wm_size (codes out))) [
          | inl h ↦ rw h (Adds-raise _)
          | inr (size, h) ↦ rw h (Adds-pure size)
        ]

    list_packages-HasId :
        (third_party_only : Bool)
        → Adds (GoesTo i) (HasId i) (list_packages b ctx id until i third_party_only)
    unfolding list_packages
    list_packages-HasId third_party_only =
        Adds-bind _ _ (adb_shell-HasId until i _) (λ out. Adds-pure _)

    resumed_activity-HasId : Adds (GoesTo i) (HasId i) (resumed_activity b ctx id until i)
    unfolding resumed_activity
    resumed_activity-HasId = Adds-bind _ _ (adb_shell-HasId until i _) (λ out. Adds-pure _)

    module _ (e : id ≡ i.id) where
      list_desktop_apps-HasId : Adds (GoesTo i) (HasId i) (list_desktop_apps b ctx id until)
      unfolding list_desktop_apps
      list_desktop_apps-HasId =
          Adds-bind _ _ (call_runner-HasId until i _ _ e)
            λ raw. Adds-bind _ _ (Adds-lift_result _) (λ names. Adds-pure _)

      foreground_window-HasId : Adds (GoesTo i) (HasId i) (foreground_window b ctx id until)
      unfolding foreground_window
      foreground_window-HasId =
          Adds-bind _ _ (call_runner-HasId until i _ _ e)
            λ raw. Adds-bind _ _ (Adds-lift_result _) (λ title. Adds-pure _)

      open_desktop_app-HasId :
          (name : String) → Adds (GoesTo i) (HasId i) (open_desktop_app b ctx id until name)
      unfolding open_desktop_app
      open_desktop_app-HasId name =
          Adds-bind _ _ (call_runner-HasId until i _ _ e)
            λ raw. Adds-bind _ _ (Adds-lift_result _) (λ opened. Adds-pure _)

  pub input_size-Acting : Acting b id (Operations.input_size b ctx id)
  unfolding open_cuttles.DeviceControl.Operations.input_size
  input_size-Acting =
      timed-Acting interactive_timeout
        (λ until i. if is_android i.platform then read_size b ctx id until i else pure (0, 0))
        (λ until i e. Adds-if _ _ _ (read_size-HasId until i) (Adds-pure (0, 0)))

  pub list_apps-Acting :
      (third_party_only : Bool) → Acting b id (Operations.list_apps b ctx id third_party_only)
  unfolding open_cuttles.DeviceControl.Operations.list_apps
  list_apps-Acting third_party_only =
      timed-Acting interactive_timeout
        (λ until i.
          if is_android i.platform
          then list_packages b ctx id until i third_party_only
          else list_desktop_apps b ctx id until)
        (λ until i e.
          Adds-if _ _ _ (list_packages-HasId until i third_party_only)
            (list_desktop_apps-HasId until i e))

  pub current_activity-Acting : Acting b id (Operations.current_activity b ctx id)
  unfolding open_cuttles.DeviceControl.Operations.current_activity
  current_activity-Acting =
      timed-Acting interactive_timeout
        (λ until i.
          if is_android i.platform
          then resumed_activity b ctx id until i
          else foreground_window b ctx id until)
        (λ until i e.
          Adds-if _ _ _ (resumed_activity-HasId until i) (foreground_window-HasId until i e))

  pub open_app-Acting : (name : String) → Acting b id (Operations.open_app b ctx id name)
  unfolding open_cuttles.DeviceControl.Operations.open_app
  open_app-Acting name =
      timed-Acting interactive_timeout
        (λ until i.
          if is_runner (source i)
          then open_desktop_app b ctx id until name
          else raise (unsupported "open_app needs a desktop runner; use launch_app for Android"))
        (λ until i e. Adds-if _ _ _ (open_desktop_app-HasId until i e name) (Adds-raise _))

  pub ui_tree-Acting :
      (unmarshal : Text → Result XmlNodes) → Acting b id (Operations.ui_tree b ctx id unmarshal)
  unfolding open_cuttles.DeviceControl.Operations.ui_tree
  ui_tree-Acting unmarshal =
      timed-Acting interactive_timeout
        (λ until i. adb b until i dump_command >>= λ out.
          lift_result (parse_ui_hierarchy unmarshal (codes out)))
        (λ until i e.
          Adds-bind _ _ (weaken-Adds i _ (adb-Reaches i b until _)) (λ out. Adds-lift_result _))
