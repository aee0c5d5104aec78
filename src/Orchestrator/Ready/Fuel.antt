-- ===== src/Orchestrator/Ready/Fuel.antt =====
-- The rounds of fuel that the two waiting loops are given are enough.
use open_cuttles.Orchestrator.Tools.{adb_target}
use open_cuttles.Domain.{Instance}
use open_cuttles.Store.{Argument, World, Context, advance}
use open_cuttles.Base.{
  ltb, List, Bool-cases, String, ge→ltb, ℕ, ◌+◌, ◌*◌, ◌≡◌, ◌≤◌, inl, inr, [], ◌∷◌, zero, suc, none,
  some, refl, arith,
}
use open_cuttles.Go.{continue, Result, Exec, ◌>>=◌, ok, err}
use open_cuttles.Orchestrator.{Machine, sleep, run}
use open_cuttles.Orchestrator.Ready.{
  wait_web_rtc_from, wait_web_rtc, wait_boot_from, wait_boot, get_status, answered, boot_completed,
}

bind-cong :
    {A B : Type 0} (x : Exec World A) (f g : A → Exec World B) (w : World)
    → ((a : A) → (x w).0 ≡ ok a → f a (x w).1 ≡ g a (x w).1)
    → (x >>= f) w ≡ (x >>= g) w
unfolding ◌>>=◌
bind-cong {A} {B} x f g w h = go (x w).0 (x w).1 h
  where
    go :
        (r : Result A) (v : World)
        → ((a : A) → r ≡ ok a → f a v ≡ g a v)
        → continue r f v ≡ continue r g v
    go (ok a) v h = h a refl
    go (err e) v h = refl

sleep_passes :
    (ctx : Context) (ms : ℕ) (w : World)
    → (sleep ctx ms w).0 ≡ ok tt
    → (sleep ctx ms w).1.now ≡ w.now + ms
unfolding sleep
sleep_passes none ms w h = refl
sleep_passes (some deadline) ms w h = ground arith

get_status_later : (m : Machine) (ctx : Context) (w : World) → w.now ≤ (get_status m ctx w).1.now
unfolding get_status advance
get_status_later m ctx w = omega arith

run_later :
    (m : Machine) (ctx : Context) (program : String) (arguments : List Argument) (w : World)
    → w.now ≤ (run m ctx program arguments w).1.now
unfolding run advance
run_later m ctx program arguments w = omega arith

web_rtc-fuel :
    (n j : ℕ) (m : Machine) (ctx : Context) (deadline : ℕ) (w : World)
    → n ≤ j
    → deadline ≤ w.now + n * 2000
    → wait_web_rtc_from j m ctx deadline w ≡ wait_web_rtc_from n m ctx deadline w
unfolding wait_web_rtc_from
web_rtc-fuel zero zero m ctx deadline w l h = refl
web_rtc-fuel zero (suc j) m ctx deadline w l h =
    rw (ge→ltb w.now deadline (omega (arith, h)), wait_web_rtc_from) refl
web_rtc-fuel (suc n) zero m ctx deadline w l h = absurd (omega (arith, l))
web_rtc-fuel (suc n) (suc j) m ctx deadline w l h = elim (Bool-cases (ltb w.now deadline)) [
  | inl e ↦
      rw (e, wait_web_rtc_from)
        (bind-cong (get_status m ctx) _ _ w λ s _. elim (Bool-cases (answered s)) [
          | inl a ↦ rw a refl
          | inr a ↦
              let v = (get_status m ctx w).1 in
              rw a (
                bind-cong (sleep ctx 2000) _ _ v λ u p.
                  web_rtc-fuel n j m ctx deadline (sleep ctx 2000 v).1 (omega (arith, l))
                    (omega (arith, h, get_status_later m ctx w, sleep_passes ctx 2000 v p)))
        ])
  | inr e ↦ rw (e, wait_web_rtc_from) refl
]

abbrev probe : Instance → List Argument
probe i =
    Argument.word "-s"
    ∷ adb_target i
    ∷ Argument.word "shell"
    ∷ Argument.word "getprop"
    ∷ Argument.word "sys.boot_completed"
    ∷ []

boot-fuel :
    (n j : ℕ) (m : Machine) (ctx : Context) (i : Instance) (deadline : ℕ) (w : World)
    → n ≤ j
    → deadline ≤ w.now + n * 3000
    → wait_boot_from j m ctx i deadline w ≡ wait_boot_from n m ctx i deadline w
unfolding wait_boot_from
boot-fuel zero zero m ctx i deadline w l h = refl
boot-fuel zero (suc j) m ctx i deadline w l h =
    rw (ge→ltb w.now deadline (omega (arith, h)), wait_boot_from) refl
boot-fuel (suc n) zero m ctx i deadline w l h = absurd (omega (arith, l))
boot-fuel (suc n) (suc j) m ctx i deadline w l h = elim (Bool-cases (ltb w.now deadline)) [
  | inl e ↦
      rw (e, wait_boot_from)
        (bind-cong (run m ctx "adb" (probe i)) _ _ w λ r _. elim (Bool-cases (boot_completed r)) [
          | inl a ↦ rw a refl
          | inr a ↦
              let v = (run m ctx "adb" (probe i) w).1 in
              rw a (
                bind-cong (sleep ctx 3000) _ _ v λ u p.
                  boot-fuel n j m ctx i deadline (sleep ctx 3000 v).1 (omega (arith, l)) (
                    omega (arith, h, run_later m ctx "adb" (probe i) w, sleep_passes ctx 3000 v p)))
        ])
  | inr e ↦ rw (e, wait_boot_from) refl
]

-- The four minutes for the boot and the 45 seconds for the endpoint end before the loops run out of
-- rounds, whatever the host answers: any larger number of rounds gives the same run.
pub wait_boot-fuel :
    (m : Machine) (ctx : Context) (i : Instance) (w : World) (rounds : ℕ)
    → 80 ≤ rounds
    → (wait_boot_from rounds m ctx i (w.now + 240000) w ≡ wait_boot m ctx i w)
      × (wait_web_rtc_from rounds m ctx (w.now + 45000) w ≡ wait_web_rtc m ctx w)
unfolding wait_boot wait_web_rtc
wait_boot-fuel m ctx i w rounds h = (
  boot-fuel 80 rounds m ctx i (w.now + 240000) w h (omega arith),
  web_rtc-fuel 23 rounds m ctx (w.now + 45000) w (omega (arith, h)) (omega arith),
)
