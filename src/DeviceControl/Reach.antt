-- ===== src/DeviceControl/Reach.antt =====
-- Which device the commands and calls of an operation go to.
use open_cuttles.DeviceControl.Effects.{
  Adds-lift_bind, Adds-invoke, Adds-if, adds_rules, Adds-pure, Adds-call_tunnel, Adds, Adds-bind,
}
use open_cuttles.Go.Strings.{trim_space}
use open_cuttles.DeviceControl.{
  to_device, invoke, reconnect, adb_at, adb_address, Parameter, Lab, lift_result, Tunnel, is_runner,
  conclude, adb, adb_shell, Call, Bench,
}
use open_cuttles.Base.{
  Option-cases, Bool-cases, List, String, ◌≡◌, ◌⊎◌, inl, inr, [], ◌∷◌, true, false, refl,
}
use open_cuttles.Store.{word, Argument, Context, Command}
use open_cuttles.Orchestrator.{CommandResult}
use open_cuttles.Domain.{source, Instance}
use open_cuttles.Go.{Exec, ok}
use open_cuttles.DeviceControl.Drivers.{adb_do, call_do}

-- adb is told the device's address, and only devices that are not desktops have one; the calls of
-- a desktop carry its id.
pub record GoesTo (i : Instance) (c : Command) : Type 0 where
  pub target : String
  pub arguments : List Argument
  pub not_runner : is_runner (source i) ≡ false
  pub is_address : adb_address i ≡ ok target
  pub is_command :
      (c ≡ record { dir = ""; program = "adb"; arguments = to_device target arguments })
      ⊎ (c ≡ record { dir = ""; program = "adb"; arguments = word "connect" ∷ word target ∷ [] })

pub record CarriesId (i : Instance) (c : Call) : Type 0 where
  pub desktop : is_runner (source i) ≡ true
  pub is_id : c.device_id ≡ i.id

abbrev pub Reaches : {A : Type 0} → Instance → Exec Lab A → Type 0
Reaches i m = Adds (GoesTo i) (CarriesId i) m

module _ (i : Instance) (b : Bench) (ctx : Context) where
  conclude-Reaches :
      (arguments : List Argument) (r : CommandResult) → Reaches i (conclude arguments r)
  unfolding conclude
  conclude-Reaches arguments r = elim (Option-cases r.failure) [
    | inl e ↦ rw e (search adds_rules)
    | inr (x, e) ↦ rw e (search adds_rules)
  ]

  module _ (target : String) (not_desktop : is_runner (source i) ≡ false)
      (here : adb_address i ≡ ok target) where
    attempt-Reaches :
        (arguments : List Argument) → Reaches i (invoke b ctx (to_device target arguments))
    attempt-Reaches arguments = Adds-invoke b ctx (to_device target arguments) (record {
      target = target;
      arguments = arguments;
      not_runner = not_desktop;
      is_address = here;
      is_command = inl refl;
    })

    connect-Reaches : Reaches i (invoke b ctx (word "connect" ∷ word target ∷ []))
    connect-Reaches = Adds-invoke b ctx (word "connect" ∷ word target ∷ []) (record {
      target = target;
      arguments = [];
      not_runner = not_desktop;
      is_address = here;
      is_command = inr refl;
    })

    reconnect-Reaches :
        (arguments : List Argument) (r : CommandResult)
        → Reaches i (reconnect b ctx target arguments r)
    unfolding reconnect
    reconnect-Reaches arguments r = Adds-bind _ _ connect-Reaches λ c.
        elim (Option-cases c.failure) [
          | inl e ↦
              rw e (Adds-bind _ _ (attempt-Reaches arguments) (λ s. conclude-Reaches arguments s))
          | inr (x, e) ↦ rw e (conclude-Reaches arguments r)
        ]

    adb_at-Reaches : (arguments : List Argument) → Reaches i (adb_at b ctx target arguments)
    unfolding adb_at
    adb_at-Reaches arguments = Adds-bind _ _ (attempt-Reaches arguments) λ r.
        elim (Option-cases r.failure) [
          | inl e ↦ rw e (search adds_rules)
          | inr (x, e) ↦
              rw e (Adds-if _ _ _ (reconnect-Reaches arguments r) (conclude-Reaches arguments r))
        ]

  pub adb-Reaches : (arguments : List Argument) → Reaches i (adb b ctx i arguments)
  unfolding adb lift_result
  adb-Reaches arguments = elim (Bool-cases (is_runner (source i))) [
    | inl e ↦ rw e (search adds_rules)
    | inr e ↦
        rw e
          (Adds-lift_bind (adb_address i) _ λ target here. adb_at-Reaches target e here arguments)
  ]

  pub adb_shell-Reaches : (arguments : List Argument) → Reaches i (adb_shell b ctx i arguments)
  unfolding adb_shell
  adb_shell-Reaches arguments =
      Adds-bind _ _ (adb-Reaches (word "shell" ∷ arguments)) (λ out. Adds-pure (trim_space out))

  pub adb_do-Reaches : (arguments : List Argument) → Reaches i (adb_do b ctx i arguments)
  unfolding adb_do
  adb_do-Reaches arguments = Adds-bind _ _ (adb_shell-Reaches arguments) (λ out. Adds-pure tt)

  pub call_do-Reaches :
      (t : Tunnel) (method : String) (parameters : List (String × Parameter))
      → is_runner (source i) ≡ true
      → Reaches i (call_do b t ctx i method parameters)
  unfolding call_do
  call_do-Reaches t method parameters e =
      Adds-bind _ _ (Adds-call_tunnel b t ctx _ (record { desktop = e; is_id = refl }))
        (λ out. Adds-pure tt)
