-- ===== src/Scheduler/Advance.antt =====
-- What a tick does for the cycles that are due.
use open_cuttles.Base.{
  ℕ, Option, some, none, All, ◌⊎◌, inl, inr, Bool-cases, keep, String, Bool, map, List, ◌≡◌, ◌∙◌,
  [], ◌∷◌, ◌++◌, if◌then◌else◌, refl, sym, ap,
}
use open_cuttles.Scheduler.{
  parse, next_run, next_in, start_on, fire, fire_all, resolve_target, Calendar, Tick, Effect, tick,
}
use open_cuttles.Scheduler.Target.{IsFit, resolve_target-first}
use open_cuttles.Go.{Error, ok, err, is_ok}
use open_cuttles.Domain.{Instance, TestCycle}
use open_cuttles.Go.Laws.{Result-cases}

abbrev pub advanced : List Effect → List String
advanced [] = []
advanced (Effect.schedule id last next ∷ rest) = id ∷ advanced rest
advanced (Effect.start id device build ∷ rest) = advanced rest

abbrev pub started : List Effect → List String
started [] = []
started (Effect.schedule id last next ∷ rest) = started rest
started (Effect.start id device build ∷ rest) = id ∷ started rest

abbrev pub has_target : Tick → TestCycle → Bool
has_target t c = is_ok (resolve_target c.platform (t.instances c))

-- One more due cycle.
started-fire :
    (c : Calendar) (t : Tick) (k : TestCycle) (later : List Effect)
    → (advanced (fire c t k ++ later) ≡ k.id ∷ advanced later)
      × (started (fire c t k ++ later)
          ≡ (if has_target t k then k.id ∷ started later else started later))
unfolding fire start_on is_ok
started-fire c t k later = elim (Result-cases (resolve_target k.platform (t.instances k))) [
  | inl (d, h) ↦ rw h (refl, refl)
  | inr (e, h) ↦ rw h (refl, refl)
]

map-keep :
    {A B : Type 0} (f : A → B) (p : A → Bool) (x : A) (xs : List A)
    → map f (keep p (x ∷ xs)) ≡ (if p x then f x ∷ map f (keep p xs) else map f (keep p xs))
map-keep f p x xs = elim (Bool-cases (p x)) [ inl h ↦ rw h refl | inr h ↦ rw h refl ]

started-fire_all :
    (c : Calendar) (t : Tick) (due : List TestCycle)
    → (advanced (fire_all c t due) ≡ map (λ k. k.id) due)
      × (started (fire_all c t due) ≡ map (λ k. k.id) (keep (has_target t) due))
unfolding fire_all
started-fire_all c t [] = (refl, refl)
started-fire_all c t (k ∷ rest) =
    let later = fire_all c t rest in
    let (a, s) = started-fire_all c t rest in
    let (b, r) = started-fire c t k later in
    (
      b ∙ ap (λ l. k.id ∷ l) a,
      r
          ∙ ap (λ l. if has_target t k then k.id ∷ l else l) s
          ∙ sym (map-keep (λ (x : TestCycle). x.id) (has_target t) k rest),
    )

-- The next run of a cycle: what its schedule gives after the present, none where its cron spec or
-- its time zone cannot be read.
abbrev pub IsNext : Calendar → Tick → TestCycle → Option ℕ → Type 0
IsNext c t k next =
    ((f : ℕ → ℕ) × (parse c k.cron k.timezone ≡ ok f) × (next ≡ some (f t.now)))
    ⊎ ((e : Error) × (parse c k.cron k.timezone ≡ err e) × (next ≡ none))

-- A start on the first listed device that fits, or none where the devices cannot be listed or no
-- listed one fits.
abbrev pub IsStart : Tick → TestCycle → List Effect → Type 0
IsStart t k es =
    ((rows : List Instance) × (before : List Instance) × (i : Instance) × (after : List Instance)
      × (t.instances k ≡ ok rows)
      × (rows ≡ before ++ i ∷ after)
      × All (λ j. ¬ (IsFit k.platform j)) before
      × IsFit k.platform i
      × (es ≡ Effect.start k.id i.id k.build_id ∷ []))
    ⊎ ((es ≡ [])
        × (((e : Error) × (t.instances k ≡ err e))
            ⊎ ((rows : List Instance) × (t.instances k ≡ ok rows)
                × All (λ j. ¬ (IsFit k.platform j)) rows)))

-- The schedule is written first.
abbrev pub Fired : Calendar → Tick → TestCycle → List Effect → Type 0
Fired c t k es =
    (next : Option ℕ) × (later : List Effect) × (es ≡ Effect.schedule k.id t.now next ∷ later)
    × IsNext c t k next
    × IsStart t k later

-- The effects of all, one cycle after the other.
abbrev pub AllFired : Calendar → Tick → List TestCycle → List Effect → Type 0
AllFired c t [] es = es ≡ []
AllFired c t (k ∷ rest) es =
    (mine : List Effect) × (others : List Effect) × (es ≡ mine ++ others)
    × Fired c t k mine
    × AllFired c t rest others

next_run-IsNext :
    (c : Calendar) (t : Tick) (k : TestCycle)
    → IsNext c t k (next_run (next_in c k.cron k.timezone t.now))
unfolding next_in next_run
next_run-IsNext c t k = elim (Result-cases (parse c k.cron k.timezone)) [
  | inl (f, h) ↦ inl (f, h, rw (next_in, h, next_run) refl)
  | inr (e, h) ↦ inr (e, h, rw (next_in, h, next_run) refl)
]

start_on-IsStart :
    (t : Tick) (k : TestCycle)
    → IsStart t k (start_on k (resolve_target k.platform (t.instances k)))
unfolding start_on resolve_target
start_on-IsStart t k = elim (Result-cases (t.instances k)) [
  | inr (e, h) ↦ inr (rw h refl, inl (e, h))
  | inl (rows, h) ↦ elim (resolve_target-first k.platform rows) [
    | inl (before, i, after, split, unfit, fit, r) ↦
        inl (rows, before, i, after, h, split, unfit, fit, rw (h, r) refl)
    | inr (unfit, (e, r)) ↦ inr (rw (h, r) refl, inr (rows, h, unfit))
  ]
]

fire_all-AllFired :
    (c : Calendar) (t : Tick) (due : List TestCycle) → AllFired c t due (fire_all c t due)
unfolding fire_all fire
fire_all-AllFired c t [] = refl
fire_all-AllFired c t (k ∷ rest) = (
  fire c t k,
  fire_all c t rest,
  refl,
  (_, _, refl, next_run-IsNext c t k, start_on-IsStart t k),
  fire_all-AllFired c t rest,
)

-- Where the due cycles can be listed, a tick moves every one of them on, once, in their order,
-- whether or not its cron spec parses or a device is found, and starts exactly those that have a
-- device: it writes the present and what the schedule gives next, or no next run where the spec
-- cannot be read, and then starts the cycle on the first listed device that fits, if there is one.
pub tick-advances :
    (c : Calendar) (t : Tick) (due : List TestCycle)
    → t.due ≡ ok due
    → (advanced (tick c t) ≡ map (λ k. k.id) due)
      × (started (tick c t) ≡ map (λ k. k.id) (keep (has_target t) due))
      × AllFired c t due (tick c t)
unfolding tick
tick-advances c t due h =
    let (moved, begun) = started-fire_all c t due in rw h (moved, begun, fire_all-AllFired c t due)
