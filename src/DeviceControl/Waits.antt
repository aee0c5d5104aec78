-- ===== src/DeviceControl/Waits.antt =====
-- The rounds of fuel that the wait for a desktop install is given are enough.
use open_cuttles.DeviceControl.{Tunnel, Parameter, call_tunnel, lift_result, Lab, in_world, Bench}
use open_cuttles.Base.{
  Option, List, str_eq, ltb, Bool-cases, ge→ltb, ℕ, String, ◌+◌, ◌*◌, ◌≡◌, ◌≤◌, inl, inr, zero, suc,
  none, some, refl, arith,
}
use open_cuttles.Store.{advance, Context}
use open_cuttles.DeviceControl.Installs.{after_status, install_status, poll_install}
use open_cuttles.DeviceControl.Operations.{call_runner}
use open_cuttles.Go.{continue, Result, Exec, ◌>>=◌, ok, err}
use open_cuttles.Orchestrator.{sleep}

bind-cong :
    {A B : Type 0} (x : Exec Lab A) (f g : A → Exec Lab B) (l : Lab)
    → ((a : A) → (x l).0 ≡ ok a → f a (x l).1 ≡ g a (x l).1)
    → (x >>= f) l ≡ (x >>= g) l
unfolding ◌>>=◌
bind-cong {A} {B} x f g l h = go (x l).0 (x l).1 h
  where
    go :
        (r : Result A) (v : Lab)
        → ((a : A) → r ≡ ok a → f a v ≡ g a v)
        → continue r f v ≡ continue r g v
    go (ok a) v h = h a refl
    go (err e) v h = refl

sleep_passes :
    (ctx : Context) (ms : ℕ) (l : Lab)
    → (in_world (sleep ctx ms) l).0 ≡ ok tt
    → (in_world (sleep ctx ms) l).1.world.now ≡ l.world.now + ms
unfolding in_world sleep
sleep_passes none ms l h = refl
sleep_passes (some deadline) ms l h = ground (arith, h)

-- The clock does not go back.
record IsLater {A : Type 0} (m : Exec Lab A) : Type 0 where
  at : (l : Lab) → l.world.now ≤ (m l).1.world.now

IsLater-bind :
    {A B : Type 0} (m : Exec Lab A) (f : A → Exec Lab B)
    → IsLater m
    → ((a : A) → IsLater (f a))
    → IsLater (m >>= f)
unfolding ◌>>=◌
IsLater-bind {A} m f km kf = record { at = λ l. go (m l).0 (m l).1 l (km.at l) }
  where
    go :
        (r : Result A) (v l : Lab)
        → l.world.now ≤ v.world.now
        → l.world.now ≤ (continue r f v).1.world.now
    go (ok a) v l h = omega (arith, h, (kf a).at v)
    go (err e) v l h = h

IsLater-lift_result : {A : Type 0} (r : Result A) → IsLater (lift_result r)
unfolding lift_result
IsLater-lift_result r = record { at = λ l. omega arith }

call_runner-IsLater :
    (b : Bench) (ctx : Context) (id method : String) (parameters : List (String × Parameter))
    (o : Option Tunnel)
    → b.tunnel ≡ o
    → IsLater (call_runner b ctx id ctx method parameters)
unfolding call_runner call_tunnel advance
call_runner-IsLater b ctx id method parameters none e = record { at = λ l. rw e (omega arith) }
call_runner-IsLater b ctx id method parameters (some t) e = record { at = λ l. rw e (omega arith) }

after_status-cong :
    (status detail : String) (f g : Exec Lab (Unit {0})) (l : Lab)
    → f l ≡ g l
    → after_status status detail f l ≡ after_status status detail g l
unfolding after_status
after_status-cong status detail f g l h = elim (Bool-cases (str_eq status "done")) [
  | inl e ↦ rw e refl
  | inr e ↦ elim (Bool-cases (str_eq status "error")) [
    | inl x ↦ rw (e, x) refl
    | inr x ↦ rw (e, x) h
  ]
]

module _ (b : Bench) (ctx : Context) (id build : String) (deadline : ℕ) where
  status_later : (l : Lab) → l.world.now ≤ (install_status b ctx id build l).1.world.now
  unfolding install_status
  status_later l =
      (IsLater-bind _ _ (call_runner-IsLater b ctx id _ _ b.tunnel refl) λ raw.
          IsLater-bind _ _ (IsLater-lift_result _) λ status.
            IsLater-bind _ _ (IsLater-lift_result _) λ detail. record { at = λ v. omega arith }).at
        l

  -- More rounds than the time that is left needs change nothing.
  poll_install-enough :
      (n j : ℕ) (l : Lab)
      → n ≤ j
      → deadline ≤ l.world.now + n * 3000
      → poll_install b ctx id j deadline build l ≡ poll_install b ctx id n deadline build l
  unfolding poll_install
  poll_install-enough zero zero l _ h = refl
  poll_install-enough zero (suc j) l _ h =
      rw (ge→ltb l.world.now deadline (omega (arith, h)), poll_install) refl
  poll_install-enough (suc n) zero l le h = absurd (omega (arith, le))
  poll_install-enough (suc n) (suc j) l le h = elim (Bool-cases (ltb l.world.now deadline)) [
    | inr e ↦ rw (e, poll_install) refl
    | inl e ↦
        rw (e, poll_install)
          (bind-cong (in_world (sleep ctx 3000)) _ _ l λ u p.
            bind-cong (install_status b ctx id build) _ _ (in_world (sleep ctx 3000) l).1 λ r q.
              let v = (in_world (sleep ctx 3000) l).1 in
              after_status-cong r.0 r.1 _ _ (install_status b ctx id build v).1 (
                poll_install-enough n j (install_status b ctx id build v).1 (omega (arith, le))
                  (omega (arith, h, status_later v, sleep_passes ctx 3000 l p))))
  ]

-- The wait for a desktop install looks at the clock at least until its six minutes are over: with
-- more than its 120 rounds it does the same.
pub poll_install-fuel :
    (b : Bench) (ctx : Context) (id build : String) (n : ℕ) (l : Lab)
    → 120 ≤ n
    → poll_install b ctx id n (l.world.now + 360000) build l
      ≡ poll_install b ctx id 120 (l.world.now + 360000) build l
poll_install-fuel b ctx id build n l h =
    poll_install-enough b ctx id build (l.world.now + 360000) 120 n l h (omega arith)
