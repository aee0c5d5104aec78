-- ===== src/DeviceControl/Retry.antt =====
-- How often adb is tried for one operation.
use open_cuttles.DeviceControl.Effects.{adb_command}
use open_cuttles.DeviceControl.{
  is_device_not_found, is_tcp_target, to_device, reconnect, adb_at, Lab, invoke, conclude, Bench,
}
use open_cuttles.Base.{
  Bool, Bool-cases, Option-cases, String, List, ◌≡◌, ◌&&◌, ◌⊎◌, ◌∙◌, inl, inr, [], ◌∷◌, ◌++◌,
  if◌then◌else◌, true, some, refl, ap, arith,
}
use open_cuttles.Go.{deadline_exceeded, ◌>>=◌, ok}
use open_cuttles.Store.{advance, expired, word, Command, Argument, Context}
use open_cuttles.Orchestrator.{CommandResult}
use mathlib.Core.List.{append_assoc}

-- What a command comes to at a lab.
answer : Bench → Context → List Argument → Lab → CommandResult
unfolding invoke
answer b ctx arguments l = record {
  output = b.stdout l.world.tick (adb_command arguments);
  failure =
      if expired ctx (advance b.database l.world).now
      then some deadline_exceeded
      else b.command_error l.world.tick (adb_command arguments);
}

conclude-same :
    (arguments : List Argument) (r : CommandResult) (l : Lab) → (conclude arguments r l).1 ≡ l
unfolding conclude
conclude-same arguments r l = elim (Option-cases r.failure) [
  | inl e ↦ rw e refl
  | inr (x, e) ↦ rw e refl
]

after : Bench → Context → List Argument → Lab → Lab
after b ctx arguments l = (invoke b ctx arguments l).1

invoke_is :
    (b : Bench) (ctx : Context) (arguments : List Argument) (l : Lab)
    → invoke b ctx arguments l ≡ (ok (answer b ctx arguments l), after b ctx arguments l)
unfolding answer after invoke
invoke_is b ctx arguments l = refl

after-commands :
    (b : Bench) (ctx : Context) (arguments : List Argument) (l : Lab)
    → (after b ctx arguments l).world.commands ≡ l.world.commands ++ adb_command arguments ∷ []
unfolding after invoke
after-commands b ctx arguments l = refl

twice :
    (b : Bench) (ctx : Context) (first second : List Argument) (l : Lab)
    → (after b ctx second (after b ctx first l)).world.commands
      ≡ l.world.commands ++ adb_command first ∷ adb_command second ∷ []
twice b ctx first second l =
    after-commands b ctx second (after b ctx first l)
    ∙ ap (λ s. s ++ adb_command second ∷ []) (after-commands b ctx first l)
    ∙ append_assoc l.world.commands (adb_command first ∷ []) (adb_command second ∷ [])

left_true : (p q : Bool) → p && q ≡ true → p ≡ true
left_true p q h = ground (arith, h)

abbrev pub attempt_command : String → List Argument → Command
attempt_command target arguments = adb_command (to_device target arguments)

abbrev pub connect_command : String → Command
connect_command target = adb_command (word "connect" ∷ word target ∷ [])

module _ (b : Bench) (ctx : Context) (target : String) (arguments : List Argument) where
  reconnect-commands :
      (r : CommandResult) (l : Lab)
      → ((reconnect b ctx target arguments r l).1.world.commands
          ≡ l.world.commands ++ connect_command target ∷ [])
        ⊎ ((reconnect b ctx target arguments r l).1.world.commands
            ≡ l.world.commands ++ connect_command target ∷ attempt_command target arguments ∷ [])
  unfolding reconnect ◌>>=◌
  reconnect-commands r l =
      let connect = word "connect" ∷ word target ∷ [] in
      let l' = after b ctx connect l in
      elim (Option-cases (answer b ctx connect l).failure) [
        | inr (x, e) ↦ inl (
            rw (invoke_is b ctx connect l, e, conclude-same arguments r l')
              (after-commands b ctx connect l))
        | inl e ↦ inr (
            rw (invoke_is b ctx connect l, e, invoke_is b ctx (to_device target arguments) l')
              (ap (λ m. m.world.commands)
                  (conclude-same arguments (answer b ctx (to_device target arguments) l')
                    (after b ctx (to_device target arguments) l'))
                ∙ twice b ctx connect (to_device target arguments) l))
      ]

  append_reconnect :
      (l : Lab) (r : CommandResult)
      → let l' = after b ctx (to_device target arguments) l in
        ((reconnect b ctx target arguments r l').1.world.commands
          ≡ l.world.commands ++ attempt_command target arguments ∷ connect_command target ∷ [])
        ⊎ ((reconnect b ctx target arguments r l').1.world.commands
            ≡ l.world.commands
              ++ attempt_command target arguments
                ∷ connect_command target
                ∷ attempt_command target arguments
                ∷ [])
  append_reconnect l r =
      let l' = after b ctx (to_device target arguments) l in
      let start = after-commands b ctx (to_device target arguments) l in
      let joined = λ (s : List Command).
        ap (λ t. t ++ s) start
        ∙ append_assoc l.world.commands (attempt_command target arguments ∷ []) s in
      elim (reconnect-commands r l') [
        | inl e ↦ inl (e ∙ joined (connect_command target ∷ []))
        | inr e ↦ inr (e ∙ joined (connect_command target ∷ attempt_command target arguments ∷ []))
      ]

  -- Of an operation for which adb fails, at most one reconnection and one more attempt follow the
  -- first, and only for a target that is a host and a port.
  pub adb_at-attempts :
      (l : Lab)
      → ((adb_at b ctx target arguments l).1.world.commands
          ≡ l.world.commands ++ attempt_command target arguments ∷ [])
        ⊎ ((is_tcp_target target ≡ true)
            × (((adb_at b ctx target arguments l).1.world.commands
                  ≡ l.world.commands
                    ++ attempt_command target arguments ∷ connect_command target ∷ [])
                ⊎ ((adb_at b ctx target arguments l).1.world.commands
                    ≡ l.world.commands
                      ++ attempt_command target arguments
                        ∷ connect_command target
                        ∷ attempt_command target arguments
                        ∷ [])))
  unfolding adb_at ◌>>=◌
  adb_at-attempts l =
      let first = answer b ctx (to_device target arguments) l in
      let l' = after b ctx (to_device target arguments) l in
      elim (Option-cases first.failure) [
        | inl e ↦ inl (
            rw (invoke_is b ctx (to_device target arguments) l, e)
              (after-commands b ctx (to_device target arguments) l))
        | inr (x, e) ↦
            elim (Bool-cases (is_tcp_target target && is_device_not_found first.output x)) [
              | inr f ↦ inl (
                  rw (invoke_is b ctx (to_device target arguments) l, e, f)
                    (after-commands b ctx (to_device target arguments) l))
              | inl f ↦ inr (
                left_true _ _ f,
                rw (invoke_is b ctx (to_device target arguments) l, e, f)
                    (append_reconnect l (record { output = first.output; failure = some x })),
              )
            ]
      ]
