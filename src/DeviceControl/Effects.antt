-- ===== src/DeviceControl/Effects.antt =====
-- What an operation on a device adds to the commands that were run and to the calls made through
-- the tunnel, one rule for each way to build an operation.
use open_cuttles.Store.{
  with_state, db, set_instance, update_instance_state, Argument, World, Database, advance, Context,
  Command, get_instance,
}
use open_cuttles.Go.Laws.{bind-rule}
use open_cuttles.Domain.{Instance, State}
use open_cuttles.Base.{
  All, List, All-append, Bool, String, ℕ, ◌≡◌, ◌∙◌, inl, inr, [], ◌∷◌, ◌++◌, if◌then◌else◌, true,
  false, none, some, refl, sym, ap, arith,
}
use open_cuttles.Go.{continue, raise, Result, attempt, Exec, pure, Error, ◌>>=◌, ok, err}
use open_cuttles.DeviceControl.{
  Tunnel, Bench, Lab, lift_result, in_world, invoke, call_tunnel, Call,
}
use open_cuttles.Store.Keeps.{db-cases}
use open_cuttles.Orchestrator.{sleep}
use mathlib.Core.List.{append-nil, append_assoc}

abbrev pub adb_command : List Argument → Command
adb_command arguments = record { dir = ""; program = "adb"; arguments = arguments }

-- `ran` and `called` are added, each member of which satisfies its predicate.
pub record Added (P : Command → Type 0) (Q : Call → Type 0) (l m : Lab) : Type 0 where
  pub ran : List Command
  pub called : List Call
  pub commands_are : m.world.commands ≡ l.world.commands ++ ran
  pub calls_are : m.calls ≡ l.calls ++ called
  pub ran_all : All P ran
  pub called_all : All Q called

pub record Adds {A : Type 0} (P : Command → Type 0) (Q : Call → Type 0) (m : Exec Lab A)
    : Type 0 where
  pub at : (l : Lab) → Added P Q l (m l).1

module _ {P : Command → Type 0} {Q : Call → Type 0} where
  pub nothing :
      (l m : Lab) → m.world.commands ≡ l.world.commands → m.calls ≡ l.calls → Added P Q l m
  nothing l m a c = record {
    ran = [];
    called = [];
    commands_are = a ∙ sym (append-nil _);
    calls_are = c ∙ sym (append-nil _);
    ran_all = tt;
    called_all = tt;
  }

  pub both : {l m n : Lab} → Added P Q l m → Added P Q m n → Added P Q l n
  both {l = l} a c = record {
    ran = a.ran ++ c.ran;
    called = a.called ++ c.called;
    commands_are =
        c.commands_are
        ∙ ap (λ s. s ++ c.ran) a.commands_are
        ∙ append_assoc l.world.commands a.ran c.ran;
    calls_are =
        c.calls_are ∙ ap (λ s. s ++ c.called) a.calls_are ∙ append_assoc l.calls a.called c.called;
    ran_all = All-append P a.ran c.ran a.ran_all c.ran_all;
    called_all = All-append Q a.called c.called a.called_all c.called_all;
  }

  pub Adds-pure : {A : Type 0} (a : A) → Adds P Q (pure a)
  Adds-pure a = record { at = λ l. nothing l l refl refl }

  pub Adds-raise : {A : Type 0} (e : Error) → Adds P Q (raise {A = A} e)
  Adds-raise e = record { at = λ l. nothing l l refl refl }

  pub Adds-lift_result : {A : Type 0} (r : Result A) → Adds P Q (lift_result r)
  unfolding lift_result
  Adds-lift_result r = record { at = λ l. nothing l l refl refl }

  pub Adds-bind :
      {A B : Type 0} (m : Exec Lab A) (g : A → Exec Lab B)
      → Adds P Q m
      → ((a : A) → Adds P Q (g a))
      → Adds P Q (m >>= g)
  unfolding ◌>>=◌
  Adds-bind {A} {B} m g km kg = record { at = λ l. both (km.at l) (go (m l).0 (m l).1) }
    where
      go : (r : Result A) (l : Lab) → Added P Q l (continue r g l).1
      go (ok a) l = (kg a).at l
      go (err e) l = nothing l l refl refl

  pub Adds-attempt : {A : Type 0} (m : Exec Lab A) → Adds P Q m → Adds P Q (attempt m)
  Adds-attempt m k = record { at = λ l. k.at l }

  pub Adds-if :
      {A : Type 0} (t : Bool) (m n : Exec Lab A)
      → Adds P Q m
      → Adds P Q n
      → Adds P Q (if t then m else n)
  Adds-if true m n km kn = km
  Adds-if false m n km kn = kn

  pub Adds-in_world :
      {A : Type 0} (m : Exec World A)
      → ((w : World) → (m w).1.commands ≡ w.commands)
      → Adds P Q (in_world m)
  unfolding in_world
  Adds-in_world m silent = record { at = λ l. nothing l _ (silent l.world) refl }

  pub Adds-invoke :
      (b : Bench) (ctx : Context) (arguments : List Argument)
      → P (record { dir = ""; program = "adb"; arguments = arguments })
      → Adds P Q (invoke b ctx arguments)
  unfolding invoke
  Adds-invoke b ctx arguments p = record {
    at = λ l. record {
      ran = record { dir = ""; program = "adb"; arguments = arguments } ∷ [];
      called = [];
      commands_are = refl;
      calls_are = sym (append-nil _);
      ran_all = (p, tt);
      called_all = tt;
    };
  }

  pub Adds-call_tunnel :
      (b : Bench) (t : Tunnel) (ctx : Context) (c : Call) → Q c → Adds P Q (call_tunnel b t ctx c)
  unfolding call_tunnel advance
  Adds-call_tunnel b t ctx c q = record {
    at = λ l. record {
      ran = [];
      called = c ∷ [];
      commands_are = sym (append-nil _);
      calls_are = refl;
      ran_all = tt;
      called_all = (q, tt);
    };
  }

  pub Adds-lift_bind :
      {A B : Type 0} (r : Result A) (g : A → Exec Lab B)
      → ((a : A) → r ≡ ok a → Adds P Q (g a))
      → Adds P Q (lift_result r >>= g)
  unfolding lift_result ◌>>=◌
  Adds-lift_bind (ok a) g k = record { at = λ l. (k a refl).at l }
  Adds-lift_bind (err e) g k = record { at = λ l. nothing l l refl refl }

pub ruleset adds_rules = (Adds-pure, Adds-raise, Adds-lift_result, Adds-bind, Adds-attempt, Adds-if)

pub db-silent :
    {A : Type 0} (d : Database) (ctx : Context) (body : Exec World A)
    → ((v : World) → (body v).1.commands ≡ v.commands)
    → (w : World) → (db d ctx body w).1.commands ≡ w.commands
unfolding advance
db-silent d ctx body h w = elim (db-cases d ctx body w) [
  | inl e ↦ rw e (h (advance d w))
  | inr (x, e) ↦ rw e refl
]

pub get_instance-silent :
    (d : Database) (ctx : Context) (id : String) (w : World)
    → (get_instance d ctx id w).1.commands ≡ w.commands
unfolding get_instance
get_instance-silent d ctx id w = db-silent d ctx _ (λ v. refl) w

pub set_instance-silent :
    (d : Database) (ctx : Context) (id : String) (change : ℕ → Instance → Instance) (w : World)
    → (set_instance d ctx id change w).1.commands ≡ w.commands
unfolding set_instance
set_instance-silent d ctx id change w = db-silent d ctx _ (λ v. refl) w

pub update_instance_state-silent :
    (d : Database) (ctx : Context) (id : String) (s : State) (text : String) (w : World)
    → (update_instance_state d ctx id s text w).1.commands ≡ w.commands
unfolding update_instance_state
update_instance_state-silent d ctx id s text w =
    bind-rule (λ _ v. v.commands ≡ w.commands) (set_instance d ctx id (with_state s text))
      (λ _. get_instance d ctx id) w (λ e h. set_instance-silent d ctx id _ w)
      (λ a h. get_instance-silent d ctx id _ ∙ set_instance-silent d ctx id _ w)

pub sleep-silent : (ctx : Context) (ms : ℕ) (w : World) → (sleep ctx ms w).1.commands ≡ w.commands
unfolding sleep
sleep-silent none ms w = refl
sleep-silent (some deadline) ms w = ground arith
