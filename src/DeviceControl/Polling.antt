-- ===== src/DeviceControl/Polling.antt =====
-- Every operation that acts on a device goes to that device, and only if it can be driven.
use open_cuttles.DeviceControl.Installs.{
  install_build_on, install_status, poll_install, after_status,
}
use open_cuttles.Base.{
  ltb, Bool-cases, ℕ, Option-cases, List, String, ◌+◌, ◌≡◌, inl, inr, zero, suc, true, refl,
}
use open_cuttles.DeviceControl.Aimed.{pause-Reaches}
use open_cuttles.DeviceControl.Effects.{
  Adds-call_tunnel, Adds-lift_result, nothing, Adds-raise, Adds-pure, Adds-bind, Adds-if,
}
use open_cuttles.DeviceControl.{Parameter, Lab, is_runner, Bench}
use open_cuttles.Domain.{source, Instance}
use open_cuttles.Go.{Exec}
use open_cuttles.Store.{Context}
use open_cuttles.DeviceControl.Operations.{call_runner}
use open_cuttles.DeviceControl.Reach.{Reaches}

call_runner-Reaches :
    (i : Instance) (b : Bench) (ctx : Context) (id : String) (method : String)
    (parameters : List (String × Parameter))
    → is_runner (source i) ≡ true
    → id ≡ i.id
    → Reaches i (call_runner b ctx id ctx method parameters)
unfolding call_runner
call_runner-Reaches i b ctx id method parameters desktop same = elim (Option-cases b.tunnel) [
  | inl e ↦ rw e (Adds-raise _)
  | inr (t, e) ↦ rw e (Adds-call_tunnel b t ctx _ (record { desktop = desktop; is_id = same }))
]

after_status-Reaches :
    (i : Instance) (status detail : String) (rest : Exec Lab (Unit {0}))
    → Reaches i rest
    → Reaches i (after_status status detail rest)
unfolding after_status
after_status-Reaches i status detail rest k =
    Adds-if _ _ _ (Adds-pure tt) (Adds-if _ _ _ (Adds-raise _) k)

module _ (b : Bench) (ctx : Context) (id : String) (i : Instance)
    (desktop : is_runner (source i) ≡ true) (same : id ≡ i.id) where
  install_status-Reaches : (build : String) → Reaches i (install_status b ctx id build)
  unfolding install_status
  install_status-Reaches build =
      Adds-bind _ _ (call_runner-Reaches i b ctx id _ _ desktop same) λ raw.
        Adds-bind _ _ (Adds-lift_result _)
          λ status. Adds-bind _ _ (Adds-lift_result _) (λ detail. Adds-pure _)

  poll_install-Reaches :
      (n deadline : ℕ) (build : String) → Reaches i (poll_install b ctx id n deadline build)
  unfolding poll_install
  poll_install-Reaches zero deadline build = record { at = λ l. nothing l l refl refl }
  poll_install-Reaches (suc n) deadline build =
      let round = Adds-bind _ _ (pause-Reaches i ctx 3000) λ _.
        Adds-bind _ _ (install_status-Reaches build)
          λ r. after_status-Reaches i r.0 r.1 _ (poll_install-Reaches n deadline build) in
      record {
        at = λ l. elim (Bool-cases (ltb l.world.now deadline)) [
          | inl e ↦ rw e (round.at l)
          | inr e ↦ rw e (nothing l l refl refl)
        ];
      }

pub install_build_on-Reaches :
    (b : Bench) (ctx : Context) (id : String) (i : Instance) (build filename arguments : String)
    → id ≡ i.id
    → Reaches i (install_build_on b ctx id i build filename arguments)
unfolding install_build_on
install_build_on-Reaches b ctx id i build filename arguments same =
    elim (Bool-cases (is_runner (source i))) [
      | inl e ↦ rw e (
          Adds-bind _ _ (call_runner-Reaches i b ctx id _ _ e same) λ raw. record {
            at =
                λ l. (poll_install-Reaches b ctx id i e same 120 (l.world.now + 360000) build).at l;
          })
      | inr e ↦ rw e (Adds-raise _)
    ]
