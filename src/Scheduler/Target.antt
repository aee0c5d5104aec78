-- ===== src/Scheduler/Target.antt =====
-- The device that a scheduled cycle runs on.
use open_cuttles.Base.{
  Bool-cases, All, ◌↔◌, List, ◌≡◌, ◌⊎◌, inl, inr, [], ◌∷◌, ◌++◌, true, refl, ap, arith,
}
use open_cuttles.Go.{Error, ok, err}
use open_cuttles.Domain.{Instance, Platform, State}
use open_cuttles.Scheduler.{same_platform, suits, pick_target, resolve_target, platform_of, is_up}

abbrev pub IsFit : Platform → Instance → Type 0
IsFit p i = (platform_of i.platform ≡ p) × ((i.state ≡ State.running) ⊎ (i.state ≡ State.online))

same_platform_iff : (p q : Platform) → (same_platform p q ≡ true) ↔ (p ≡ q)
unfolding same_platform
same_platform_iff p q = ground arith

is_up_iff : (s : State) → (is_up s ≡ true) ↔ ((s ≡ State.running) ⊎ (s ≡ State.online))
unfolding is_up
is_up_iff s = ground arith

suits_iff : (p : Platform) (i : Instance) → (suits p i ≡ true) ↔ IsFit p i
unfolding suits
suits_iff p i = ground (arith, same_platform_iff (platform_of i.platform) p, is_up_iff i.state)

-- A cycle runs on the first listed device of its platform, Android where a device names none, that
-- is running or online. It has no target exactly when no listed device is of that kind.
pub resolve_target-first :
    (p : Platform) (instances : List Instance)
    → ((before : List Instance) × (i : Instance) × (after : List Instance) × (instances
          ≡ before ++ i ∷ after)
        × All (λ j. ¬ (IsFit p j)) before
        × IsFit p i
        × (resolve_target p (ok instances) ≡ ok i.id))
      ⊎ (All (λ j. ¬ (IsFit p j)) instances
          × ((e : Error) × (resolve_target p (ok instances) ≡ err e)))
unfolding resolve_target pick_target
resolve_target-first p [] = inr (tt, (_, refl))
resolve_target-first p (i ∷ rest) = elim (Bool-cases (suits p i)) [
  | inl h ↦ inl ([], i, rest, refl, tt, (suits_iff p i).0 h, rw h refl)
  | inr h ↦
      let unfit : ¬ (IsFit p i) = λ fit. cc ((suits_iff p i).1 fit, h) in
      elim (resolve_target-first p rest) [
        | inl (before, j, after, e, b, f, r) ↦
            inl (i ∷ before, j, after, ap (λ l. i ∷ l) e, (unfit, b), f, rw h r)
        | inr (none_fit, (e, r)) ↦ inr ((unfit, none_fit), (e, rw h r))
      ]
]
