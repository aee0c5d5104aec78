-- ===== src/Store/Keeps.antt =====
-- Which part of the tables a call leaves alone, one rule for each way to build a call.
use open_cuttles.Base.{
  ◌≡◌, refl, ap, ◌∙◌, ◌⊎◌, inl, inr, Bool, true, false, Option-cases, if◌then◌else◌,
}
use open_cuttles.Go.{Error, Result, ok, err, Exec, pure, raise, attempt, continue, ◌>>=◌}
use open_cuttles.Store.{World, Tables, Database, Context, advance, db_failure, run_or_fail, db}

-- The part `f` of the tables is the same before and after `m`.
pub record Keeps {X A : Type 0} (f : Tables → X) (m : Exec World A) : Type 0 where
  pub at : (w : World) → f (m w).1.tables ≡ f w.tables

-- The two ways in which a database call ends.
pub db-cases :
    {A : Type 0} (d : Database) (ctx : Context) (body : Exec World A) (w : World)
    → (db d ctx body w ≡ body (advance d w))
      ⊎ ((e : Error) × (db d ctx body w ≡ (err e, advance d w)))
unfolding db
db-cases d ctx body w = elim (Option-cases (db_failure d ctx w)) [
  | inl h ↦ inl (rw (h, run_or_fail))
  | inr (e, h) ↦ inr (e, rw (h, run_or_fail))
]

-- A call that succeeds has run its body.
pub db_ok :
    {A : Type 0} (d : Database) (ctx : Context) (body : Exec World A) (w : World) (a : A)
    → (db d ctx body w).0 ≡ ok a
    → db d ctx body w ≡ body (advance d w)
db_ok d ctx body w a h = elim (db-cases d ctx body w) [
  | inl e ↦ e
  | inr (x, e) ↦ cc (ap (λ r. r.0) e)
]

module _ {X : Type 0} {f : Tables → X} where
  pub Keeps-pure : {A : Type 0} (a : A) → Keeps f (pure a)
  Keeps-pure a = record { at = λ w. refl }

  pub Keeps-raise : {A : Type 0} (e : Error) → Keeps f (raise {A = A} e)
  Keeps-raise e = record { at = λ w. refl }

  pub Keeps-bind :
      {A B : Type 0} (m : Exec World A) (g : A → Exec World B)
      → Keeps f m
      → ((a : A) → Keeps f (g a))
      → Keeps f (m >>= g)
  unfolding ◌>>=◌
  Keeps-bind {A} {B} m g km kg = record { at = λ w. go (m w).0 (m w).1 ∙ km.at w }
    where
      go : (r : Result A) (w : World) → f (continue r g w).1.tables ≡ f w.tables
      go (ok a) w = (kg a).at w
      go (err e) w = refl

  pub Keeps-attempt : {A : Type 0} (m : Exec World A) → Keeps f m → Keeps f (attempt m)
  Keeps-attempt m km = record { at = λ w. km.at w }

  pub Keeps-if :
      {A : Type 0} (b : Bool) (m n : Exec World A)
      → Keeps f m
      → Keeps f n
      → Keeps f (if b then m else n)
  Keeps-if true m n km kn = km
  Keeps-if false m n km kn = kn

  pub Keeps-db :
      {A : Type 0} (d : Database) (ctx : Context) (body : Exec World A)
      → Keeps f body
      → Keeps f (db d ctx body)
  unfolding advance
  Keeps-db d ctx body k = record {
    at = λ w. elim (db-cases d ctx body w) [
      | inl h ↦ rw h (k.at (advance d w))
      | inr (e, h) ↦ rw h refl
    ];
  }

pub ruleset keeps_rules = (Keeps-pure, Keeps-raise, Keeps-bind, Keeps-attempt, Keeps-if, Keeps-db)

-- The tables after `m >>= g` are those after `m`, where `g` only reads.
pub bind-tables :
    {A B : Type 0} (m : Exec World A) (g : A → Exec World B)
    → ((a : A) → Keeps (λ t. t) (g a))
    → (w : World) → ((m >>= g) w).1.tables ≡ (m w).1.tables
unfolding ◌>>=◌
bind-tables {A} {B} m g k w = go (m w).0 (m w).1
  where
    go : (r : Result A) (v : World) → (continue r g v).1.tables ≡ v.tables
    go (ok a) v = (k a).at v
    go (err e) v = refl
