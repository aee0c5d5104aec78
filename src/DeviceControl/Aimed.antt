-- ===== src/DeviceControl/Aimed.antt =====
-- Every operation that acts on a device goes to that device, and only if it can be driven.
use open_cuttles.DeviceControl.Operations.{rotate_on}
use open_cuttles.DeviceControl.Effects.{
  nothing, sleep-silent, Adds-in_world, Adds-pure, Adds-attempt, Adds-raise, Adds-if, Adds-bind,
}
use open_cuttles.Base.{
  Bool-cases, Option, String, ℕ, ◌≡◌, inl, inr, zero, suc, true, none, some, refl,
}
use open_cuttles.DeviceControl.Drivers.{
  mcp_driver, extra_taps, adb_driver, tunnel_driver, driver_for, Driver, adb_tap, adb_swipe,
  adb_taps, adb_click, adb_scroll,
}
use open_cuttles.DeviceControl.{Tunnel, is_runner, Lab, in_world, Bench}
use open_cuttles.Domain.{source, Instance}
use open_cuttles.Go.{pure, Exec, ◌>>=◌, ok, err}
use open_cuttles.Base.Int.{ℤ}
use open_cuttles.Orchestrator.{sleep}
use open_cuttles.DeviceControl.Installs.{
  disable_install_verification, install_on, checked_video, pull_recording, ignoring,
}
use open_cuttles.Store.{Context}
use open_cuttles.DeviceControl.Reach.{Reaches, adb-Reaches, adb_shell-Reaches, adb_do-Reaches}

pub ignoring-Reaches :
    {A : Type 0} (i : Instance) (m : Exec Lab A) → Reaches i m → Reaches i (ignoring m)
unfolding ignoring
ignoring-Reaches i m k = record { at = λ l. k.at l }

pub pause-Reaches : (i : Instance) (ctx : Context) (ms : ℕ) → Reaches i (in_world (sleep ctx ms))
pause-Reaches i ctx ms = Adds-in_world _ (sleep-silent ctx ms)

module _ {A : Type 0} (i : Instance) (body : Driver → Exec Lab A) where
  adb_driver-Reaches : Reaches i (body (adb_driver i)) → Reaches i (pure (adb_driver i) >>= body)
  unfolding ◌>>=◌
  adb_driver-Reaches k = record { at = λ l. k.at l }

  tunnel_driver-Reaches :
      (o : Option Tunnel)
      → ((t : Tunnel) → Reaches i (body (mcp_driver t i)))
      → Reaches i (tunnel_driver o i >>= body)
  unfolding tunnel_driver ◌>>=◌
  tunnel_driver-Reaches none k = record { at = λ l. nothing l l refl refl }
  tunnel_driver-Reaches (some t) k = record {
    at = λ l. elim (Bool-cases (t.is_online l.world.tick i.id)) [
      | inl e ↦ rw e ((k t).at l)
      | inr e ↦ rw e (nothing l l refl refl)
    ];
  }

  pub driver_for-Reaches :
      (b : Bench)
      → Reaches i (body (adb_driver i))
      → (is_runner (source i) ≡ true → (t : Tunnel) → Reaches i (body (mcp_driver t i)))
      → Reaches i (driver_for b i >>= body)
  unfolding driver_for
  driver_for-Reaches b ka km = elim (Bool-cases (is_runner (source i))) [
    | inr e ↦ rw e (adb_driver-Reaches ka)
    | inl e ↦ rw e (tunnel_driver-Reaches b.tunnel (km e))
  ]

module _ (b : Bench) (ctx : Context) (i : Instance) where
  pub taps-Reaches : (n : ℕ) (x y : ℤ) → Reaches i (adb_taps n b ctx i x y)
  unfolding adb_taps adb_tap
  taps-Reaches zero x y = Adds-pure tt
  taps-Reaches (suc n) x y =
      Adds-bind _ _ (pause-Reaches i none 60)
        λ _. Adds-bind _ _ (adb_do-Reaches i b ctx _) (λ _. taps-Reaches n x y)

  pub click-Reaches :
      (x y : ℤ) (button : String) (n : ℤ) → Reaches i (adb_click b ctx i x y button n)
  unfolding adb_click adb_tap
  click-Reaches x y button n =
      Adds-if _ _ _
        (Adds-bind _ _ (adb_do-Reaches i b ctx _) (λ _. taps-Reaches (extra_taps n) x y))
        (Adds-raise _)

  pub scroll-Reaches : (x y dx dy : ℤ) → Reaches i (adb_scroll b ctx i x y dx dy)
  unfolding adb_scroll adb_swipe
  scroll-Reaches x y dx dy = Adds-if _ _ _ (Adds-pure tt) (adb_do-Reaches i b ctx _)

  pub rotate_on-Reaches : (n : ℤ) → Reaches i (rotate_on b ctx i n)
  unfolding rotate_on
  rotate_on-Reaches n =
      Adds-if _ _ _ (Adds-raise _)
        (Adds-bind _ _ (adb_do-Reaches i b ctx _) (λ _. adb_do-Reaches i b ctx _))

  pub disable-Reaches : Reaches i (disable_install_verification b ctx i)
  unfolding disable_install_verification
  disable-Reaches =
      Adds-if _ _ _
        (Adds-bind _ _ (ignoring-Reaches i _ (adb_shell-Reaches i b ctx _))
          (λ _. ignoring-Reaches i _ (adb_shell-Reaches i b ctx _)))
        (Adds-pure tt)

  pub install_on-Reaches : (path : String) → Reaches i (install_on b ctx path i)
  unfolding install_on
  install_on-Reaches path = Adds-bind _ _ disable-Reaches λ _.
      Adds-bind _ _ (Adds-attempt _ (adb-Reaches i b ctx _))
        (elim [ ok out ↦ Adds-pure tt | err e ↦ Adds-raise _ ])

  checked_video-Reaches : (video : String) → Reaches i (checked_video video)
  unfolding checked_video
  checked_video-Reaches video = Adds-if _ _ _ (Adds-raise _) (Adds-pure video)

  pub pull_recording-Reaches : Reaches i (pull_recording b ctx i)
  unfolding pull_recording
  pull_recording-Reaches = Adds-bind _ _ (adb-Reaches i b ctx _) λ video.
      Adds-bind _ _ (ignoring-Reaches i _ (adb_shell-Reaches i b ctx _))
        (λ _. checked_video-Reaches video)
