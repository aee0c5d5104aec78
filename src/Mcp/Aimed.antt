-- ===== src/Mcp/Aimed.antt =====
-- What a tool does on the device that was found goes to that device.
use open_cuttles.Mcp.Handled.{
  look_and_answer-Acting, locate-Acting, tap_described-Acting, open_named-Acting,
  launch_package-Acting, scroll_at-Acting,
}
use open_cuttles.Mcp.Targets.{current_activity-Acting, list_apps-Acting, act-Acting, ui_tree-Acting}
use open_cuttles.DeviceControl.Actions.{Action, perform}
use open_cuttles.Mcp.Acting.{Acts-trans, Acts, Acting, Acting-in_world, still}
use open_cuttles.Go.{continue, Result, raise, Exec, pure, Error, ◌>>=◌, ok, err}
use open_cuttles.DeviceControl.Effects.{get_instance-silent}
use open_cuttles.Mcp.Tools.{Tool}
use open_cuttles.Mcp.Calls.{read_tree, done_on, android_only, act_on}
use open_cuttles.Mcp.{Desk, require_android, in_lab, Gear}
use open_cuttles.DeviceControl.{Lab, Bench}
use open_cuttles.Base.{Bool, String, if◌then◌else◌, true, false, refl}
use open_cuttles.Store.{Context}

pub record DeskActing {A : Type 0} (b : Bench) (id : String) (m : Exec Desk A) : Type 0 where
  pub at : (s : Desk) → Acts b id s.lab (m s).1.lab

module _ {b : Bench} {id : String} where
  pub DeskActing-pure : {A : Type 0} (a : A) → DeskActing b id (pure a)
  DeskActing-pure a = record { at = λ s. still refl refl }

  pub DeskActing-raise : {A : Type 0} (e : Error) → DeskActing b id (raise {A = A} e)
  DeskActing-raise e = record { at = λ s. still refl refl }

  DeskActing-in_lab : {A : Type 0} (m : Exec Lab A) → Acting b id m → DeskActing b id (in_lab m)
  unfolding in_lab
  DeskActing-in_lab m k = record { at = λ s. k.at s.lab }

  DeskActing-if :
      {A : Type 0} (t : Bool) (m n : Exec Desk A)
      → DeskActing b id m
      → DeskActing b id n
      → DeskActing b id (if t then m else n)
  DeskActing-if true m n km kn = km
  DeskActing-if false m n km kn = kn

  pub DeskActing-bind :
      {A B : Type 0} (m : Exec Desk A) (f : A → Exec Desk B)
      → DeskActing b id m
      → ((a : A) → DeskActing b id (f a))
      → DeskActing b id (m >>= f)
  unfolding ◌>>=◌
  DeskActing-bind {A} {B} m f km kf = record { at = λ s. Acts-trans (km.at s) (go (m s).0 (m s).1) }
    where
      go : (r : Result A) (s : Desk) → Acts b id s.lab (continue r f s).1.lab
      go (ok a) s = (kf a).at s
      go (err e) s = still refl refl

module _ (g : Gear) (ctx : Context) (id : String) where
  done_on-Acting :
      (m : Exec Lab (Unit {0})) → Acting g.bench id m → DeskActing g.bench id (done_on g ctx id m)
  unfolding done_on
  done_on-Acting m k = DeskActing-bind _ _ (DeskActing-in_lab m k) (λ u. DeskActing-pure _)

  android_only-Acting :
      {A : Type 0} (m : Exec Desk A)
      → DeskActing g.bench id m
      → DeskActing g.bench id (android_only g ctx id m)
  unfolding android_only require_android
  android_only-Acting m k =
      DeskActing-bind _ _
        (DeskActing-bind _ _
          (DeskActing-in_lab _ (Acting-in_world _ (get_instance-silent g.bench.database ctx id)))
          (λ i. DeskActing-if _ _ _ (DeskActing-pure tt) (DeskActing-raise _)))
        (λ u. k)

  pub act_on-Acting : (t : Tool) → DeskActing g.bench id (act_on g ctx t id)
  unfolding act_on perform read_tree
  act_on-Acting (Tool.get_ui_tree ref) = android_only-Acting _ (
      DeskActing-bind _ _ (DeskActing-in_lab _ (ui_tree-Acting g.bench ctx id g.unmarshal))
        (λ tree. DeskActing-pure _))
  act_on-Acting (Tool.scroll ref direction amount x y) =
      done_on-Acting _ (scroll_at-Acting g ctx id direction amount x y)
  act_on-Acting (Tool.click ref x y button count) =
      done_on-Acting _ (act-Acting g.bench ctx id (Action.click x y button count))
  act_on-Acting (Tool.press_chord ref keys) =
      DeskActing-if _ _ _ (DeskActing-raise _)
        (done_on-Acting _ (act-Acting g.bench ctx id (Action.chord keys)))
  act_on-Acting (Tool.type_text ref s) =
      done_on-Acting _ (act-Acting g.bench ctx id (Action.type_text s))
  act_on-Acting (Tool.press_key ref k) =
      done_on-Acting _ (act-Acting g.bench ctx id (Action.press_key k))
  act_on-Acting (Tool.launch_app ref app) =
      android_only-Acting _ (done_on-Acting _ (launch_package-Acting g ctx id app))
  act_on-Acting (Tool.open_app ref name) =
      DeskActing-bind _ _ (DeskActing-in_lab _ (open_named-Acting g ctx id name))
        (λ said. DeskActing-pure _)
  act_on-Acting (Tool.list_apps ref third_party_only) =
      DeskActing-bind _ _ (DeskActing-in_lab _ (list_apps-Acting g.bench ctx id third_party_only))
        (λ names. DeskActing-pure _)
  act_on-Acting (Tool.current_activity ref) =
      DeskActing-bind _ _ (DeskActing-in_lab _ (current_activity-Acting g.bench ctx id))
        (λ name. DeskActing-pure _)
  act_on-Acting (Tool.tap_element ref description) =
      done_on-Acting _ (tap_described-Acting g ctx id description)
  act_on-Acting (Tool.tap ref x y) = done_on-Acting _ (act-Acting g.bench ctx id (Action.tap x y))
  act_on-Acting (Tool.find_element ref description) =
      DeskActing-bind _ _ (DeskActing-in_lab _ (locate-Acting g ctx id description))
        (λ at. DeskActing-pure _)
  act_on-Acting (Tool.ask_screen ref question) =
      DeskActing-bind _ _ (DeskActing-in_lab _ (look_and_answer-Acting g ctx id question))
        (λ said. DeskActing-pure _)
  act_on-Acting Tool.list_devices = DeskActing-raise _
  act_on-Acting Tool.get_active_device = DeskActing-raise _
  act_on-Acting (Tool.select_device id) = DeskActing-raise _
  act_on-Acting (Tool.wait ms) = DeskActing-raise _
  act_on-Acting (Tool.report_step_result index status note) = DeskActing-raise _
