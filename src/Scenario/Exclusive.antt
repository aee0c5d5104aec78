-- ===== src/Scenario/Exclusive.antt =====
-- CycleExecutor.execute: one cycle run per device. Each run is a goroutine; the map is read and
-- written under the mutex, so a claim and a release are one step each.
use open_cuttles.Base.{
  eq_iff, Bool-cases, str_eq, Bool, String, ℕ, ◌≡◌, ◌⊎◌, inl, inr, if◌then◌else◌, ◌==◌, true, false,
  sym, arith,
}
use open_cuttles.Scenario.{Backend, finish_cycle, use_device}
use open_cuttles.Domain.{RunStatus, CycleRun, TestCycle}

abbrev pub Running : Type 0
Running = String → Bool

unfoldable pub mark : String → Bool → Running → Running
mark id b running d = if str_eq d id then b else running d

-- Whether the device was busy, and the map after it.
unfoldable pub claim : String → Running → Bool × Running
unfolding mark
claim id running = if running id then (true, running) else (false, mark id true running)

unfoldable pub release : String → Running → Running
unfolding mark
release id running = mark id false running

-- A run with no other beside it.
unfoldable pub execute :
    {W : Type 0} → Backend W → TestCycle → CycleRun → String → Running × W → Running × W
unfolding claim release use_device finish_cycle
execute b cycle run id (running, w) =
    let (busy, claimed) = claim id running in
    let refused = finish_cycle b run RunStatus.failed w in
    let served = use_device b cycle run id w in
    if busy then (running, refused) else (release id claimed, served)

pub data Phase : Type 0 where
  waiting holding done : Phase

pub record Executor : Type 0 where
  pub phase : ℕ → Phase
  pub running : Running

unfoldable pub set_phase : ℕ → Phase → (ℕ → Phase) → ℕ → Phase
set_phase i p phase j = if j == i then p else phase j

module _ (device : ℕ → String) where
  unfoldable pub enter_run : ℕ → Executor → Executor
  unfolding set_phase claim
  enter_run i s =
      let (busy, running) = claim (device i) s.running in
      record { phase = set_phase i (if busy then done else holding) s.phase; running = running }

  unfoldable pub leave_run : ℕ → Executor → Executor
  unfolding set_phase release
  leave_run i s = record {
    phase = set_phase i done s.phase;
    running = release (device i) s.running;
  }

  -- The runs in any interleaving; run `i` is for `device i`.
  pub data Step (s : Executor) : Executor → Type 0 where
    enter : (i : ℕ) → s.phase i ≡ waiting → Step s (enter_run i s)
    leave : (i : ℕ) → s.phase i ≡ holding → Step s (leave_run i s)

  abbrev pub initial : Executor
  initial = record { phase = λ _. waiting; running = λ _. false }

  pub data Reach : Executor → Type 0 where
    here : Reach initial
    next : {s t : Executor} → Reach s → Step s t → Reach t

  pub record Inv (s : Executor) : Type 0 where
    pub marked : (i : ℕ) → s.phase i ≡ holding → s.running (device i) ≡ true
    pub alone : (i j : ℕ) → s.phase i ≡ holding → s.phase j ≡ holding → device i ≡ device j → i ≡ j
    pub held : (d : String) → s.running d ≡ true → (i : ℕ) × (s.phase i ≡ holding) × (device i ≡ d)

  phase_self : (i : ℕ) (p : Phase) (phase : ℕ → Phase) → set_phase i p phase i ≡ p
  unfolding set_phase
  phase_self i p phase = ground arith

  phase_other :
      (i j : ℕ) (p : Phase) (phase : ℕ → Phase) → (j ≡ i) ⊎ (set_phase i p phase j ≡ phase j)
  unfolding set_phase
  phase_other i j p phase = ground arith

  refuse-Inv :
      (s : Executor) (i : ℕ)
      → s.phase i ≡ waiting
      → Inv s
      → Inv (record s { phase = set_phase i done s.phase })
  refuse-Inv s i h inv =
      let other = λ (j : ℕ). phase_other i j done s.phase in
      let self = phase_self i done s.phase in
      record {
        marked = λ j e. ground (arith, inv.marked j, other j, self);
        alone = λ j k e f same. ground (arith, inv.alone j k, other j, other k, self);
        held = λ d e. let (x, p, q) = inv.held d e in (x, ground (arith, other x), q);
      }

  grant-Inv :
      (s : Executor) (i : ℕ)
      → s.running (device i) ≡ false
      → Inv s
      → Inv
          (record { phase = set_phase i holding s.phase; running = mark (device i) true s.running })
  unfolding mark
  grant-Inv s i free inv =
      let other = λ (j : ℕ). phase_other i j holding s.phase in
      let self = phase_self i holding s.phase in
      record {
        marked = λ j e. ground (arith, inv.marked j, other j, eq_iff (device j) (device i));
        alone = λ j k e f same.
            ground (arith, inv.alone j k, inv.marked j, inv.marked k, other j, other k);
        held = λ d e. elim (Bool-cases (str_eq d (device i))) [
          | inl hit ↦ (i, self, sym ((eq_iff d (device i)).0 hit))
          | inr miss ↦ let (x, p, q) = inv.held d (ground arith) in (x, ground (arith, other x), q)
        ];
      }

  leave-Inv : (s : Executor) (i : ℕ) → s.phase i ≡ holding → Inv s → Inv (leave_run i s)
  unfolding leave_run release mark
  leave-Inv s i h inv =
      let other = λ (j : ℕ). phase_other i j done s.phase in
      let self = phase_self i done s.phase in
      record {
        marked = λ j e.
            ground
              (arith, inv.marked j, inv.alone j i, other j, self, eq_iff (device j) (device i));
        alone = λ j k e f same. ground (arith, inv.alone j k, other j, other k, self);
        held = λ d e. elim (Bool-cases (str_eq d (device i))) [
          | inl hit ↦ ground arith
          | inr miss ↦
              let (x, p, q) = inv.held d (ground arith) in
              (x, ground (arith, other x, eq_iff d (device i)), q)
        ];
      }

  enter-Inv : (s : Executor) (i : ℕ) → s.phase i ≡ waiting → Inv s → Inv (enter_run i s)
  unfolding enter_run claim
  enter-Inv s i h inv = elim (Bool-cases (s.running (device i))) [
    | inl busy ↦ rw busy (refuse-Inv s i h inv)
    | inr free ↦ rw free (grant-Inv s i free inv)
  ]

  Step-Inv : {s t : Executor} → Step s t → Inv s → Inv t
  Step-Inv (enter i h) inv = enter-Inv _ i h inv
  Step-Inv (leave i h) inv = leave-Inv _ i h inv

  Reach-Inv : {s : Executor} → Reach s → Inv s
  Reach-Inv here = record { marked = λ i e. cc; alone = λ i j e f same. cc; held = λ d e. cc }
  Reach-Inv (next r step) = Step-Inv step (Reach-Inv r)

  -- However the runs interleave, two of them that hold one device are the same run, the device of
  -- a run that holds it is marked busy, and a device that is marked busy is held by a run.
  pub Reach-exclusive :
      {s : Executor}
      → Reach s
      → ((i j : ℕ) → s.phase i ≡ holding → s.phase j ≡ holding → device i ≡ device j → i ≡ j)
        × ((i : ℕ) → s.phase i ≡ holding → s.running (device i) ≡ true)
        × ((d : String) → s.running d ≡ true → (i : ℕ) × (s.phase i ≡ holding) × (device i ≡ d))
  Reach-exclusive r = let inv = Reach-Inv r in (inv.alone, inv.marked, inv.held)
