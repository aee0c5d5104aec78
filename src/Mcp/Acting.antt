-- ===== src/Mcp/Acting.antt =====
-- Which device the commands and calls of a tool go to.
use open_cuttles.DeviceControl.Reach.{CarriesId, GoesTo, Reaches}
use open_cuttles.Base.{
  ℕ, All, List, Bool, String, ◌≡◌, inl, inr, [], ◌∷◌, if◌then◌else◌, true, false, refl,
}
use open_cuttles.Store.{Context, advance, World}
use open_cuttles.DeviceControl.Effects.{Adds}
use open_cuttles.DeviceControl.{Call, Lab, lift_result, in_world, Bench}
use open_cuttles.DeviceControl.Actions.{Aimed, AimedBy}
use open_cuttles.Go.{continue, raise, Result, attempt, Exec, pure, Error, ◌>>=◌, ok, err}
use open_cuttles.Mcp.{Gear, ask_model}
use open_cuttles.Domain.{Instance}

abbrev pub HasId : Instance → Call → Type 0
HasId i c = c.device_id ≡ i.id

-- A sequence of operations on the device with this id: each runs and calls nothing, or finds that
-- device stored and fit to be driven, and all that it runs and calls goes to it.
pub data Acts (b : Bench) (id : String) (l : Lab) : Lab → Type 0 where
  still : {m : Lab} → m.world.commands ≡ l.world.commands → m.calls ≡ l.calls → Acts b id l m
  step : {m n : Lab} → Acts b id l m → AimedBy HasId b id m n → Acts b id l n

pub Acts-trans :
    {b : Bench} {id : String} {l m n : Lab} → Acts b id l m → Acts b id m n → Acts b id l n
Acts-trans p (still a c) = step p (inl (a, c))
Acts-trans p (step q t) = step (Acts-trans p q) t

weaken-ids : (i : Instance) (cs : List Call) → All (CarriesId i) cs → All (HasId i) cs
weaken-ids i [] h = tt
weaken-ids i (c ∷ rest) (h, k) = (h.is_id, weaken-ids i rest k)

of_Aimed : (b : Bench) (id : String) {l m : Lab} → Aimed b id l m → AimedBy HasId b id l m
of_Aimed b id (inl h) = inl h
of_Aimed b id (inr (i, row, fit, a)) = inr (
  i,
  row,
  fit,
  record {
    ran = a.ran;
    called = a.called;
    commands_are = a.commands_are;
    calls_are = a.calls_are;
    ran_all = a.ran_all;
    called_all = weaken-ids i a.called a.called_all;
  },
)

pub weaken-Adds :
    {A : Type 0} (i : Instance) (m : Exec Lab A) → Reaches i m → Adds (GoesTo i) (HasId i) m
weaken-Adds i m k = record {
  at = λ l.
      let a = k.at l in
      record {
        ran = a.ran;
        called = a.called;
        commands_are = a.commands_are;
        calls_are = a.calls_are;
        ran_all = a.ran_all;
        called_all = weaken-ids i a.called a.called_all;
      };
}

pub record Acting {A : Type 0} (b : Bench) (id : String) (m : Exec Lab A) : Type 0 where
  pub at : (l : Lab) → Acts b id l (m l).1

module _ {b : Bench} {id : String} where
  pub Acting-pure : {A : Type 0} (a : A) → Acting b id (pure a)
  Acting-pure a = record { at = λ l. still refl refl }

  pub Acting-raise : {A : Type 0} (e : Error) → Acting b id (raise {A = A} e)
  Acting-raise e = record { at = λ l. still refl refl }

  pub Acting-lift_result : {A : Type 0} (r : Result A) → Acting b id (lift_result r)
  unfolding lift_result
  Acting-lift_result r = record { at = λ l. still refl refl }

  pub Acting-attempt : {A : Type 0} (m : Exec Lab A) → Acting b id m → Acting b id (attempt m)
  Acting-attempt m k = record { at = λ l. k.at l }

  pub Acting-if :
      {A : Type 0} (t : Bool) (m n : Exec Lab A)
      → Acting b id m
      → Acting b id n
      → Acting b id (if t then m else n)
  Acting-if true m n km kn = km
  Acting-if false m n km kn = kn

  pub Acting-bind :
      {A B : Type 0} (m : Exec Lab A) (f : A → Exec Lab B)
      → Acting b id m
      → ((a : A) → Acting b id (f a))
      → Acting b id (m >>= f)
  unfolding ◌>>=◌
  Acting-bind {A} {B} m f km kf = record { at = λ l. Acts-trans (km.at l) (go (m l).0 (m l).1) }
    where
      go : (r : Result A) (l : Lab) → Acts b id l (continue r f l).1
      go (ok a) l = (kf a).at l
      go (err e) l = still refl refl

  pub Acting-ask_model :
      {A : Type 0} (g : Gear) (ctx : Context) (answer : ℕ → Result A)
      → Acting b id (ask_model g ctx answer)
  unfolding ask_model advance
  Acting-ask_model g ctx answer = record { at = λ l. still refl refl }

  pub Acting-in_world :
      {A : Type 0} (m : Exec World A)
      → ((w : World) → (m w).1.commands ≡ w.commands)
      → Acting b id (in_world m)
  unfolding in_world
  Acting-in_world m silent = record { at = λ l. still (silent l.world) refl }

  pub Acting-of : {A : Type 0} (m : Exec Lab A) → ((l : Lab) → Aimed b id l (m l).1) → Acting b id m
  Acting-of m h = record { at = λ l. step (still refl refl) (of_Aimed b id (h l)) }

pub ruleset acting_rules = (
  Acting-pure, Acting-raise, Acting-lift_result, Acting-attempt, Acting-if, Acting-bind,
  Acting-ask_model,
)
