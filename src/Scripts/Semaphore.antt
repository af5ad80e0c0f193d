-- ===== src/Scripts/Semaphore.antt =====
-- scripts/start_workflows.go: the semaphore, with the counts of the starts.
use tempura.Common.{
  ℕ, ◌+◌, ◌≤◌, ◌≡◌, refl, ap, List, [], ◌∷◌, arith, length, length-append, ◌⊎◌, inl, inr, ltb,
  Bool-cases,
}
use tempura.Scripts.{
  num_workflows, capacity, workflow_id, Run, Step, acquire, finish, Reachable, start, then,
}

abbrev pub Counted : Run → Type 0
Counted s =
    (length s.in_flight ≤ capacity)
    × (s.next ≤ num_workflows)
    × (length s.in_flight + length s.started ≡ s.next)

Step-Counted : (s t : Run) → Step s t → Counted s → Counted t
Step-Counted _ _ (acquire s more room) (few, upto, count) = (
  omega (arith, length-append s.in_flight (s.next ∷ [])),
  omega arith,
  omega (arith, length-append s.in_flight (s.next ∷ [])),
)
Step-Counted _ _ (finish s before after index now at) (few, upto, count) =
    let held = ap {B = ℕ} length at in
    (
      omega (arith, held, length-append before (index ∷ after), length-append before after),
      upto,
      omega (
        arith,
        held,
        length-append before (index ∷ after),
        length-append before after,
        length-append s.started (workflow_id now index ∷ []),
      ),
    )

-- Whatever the order of the goroutines, at most two starts are in flight, and each that the loop
-- spawned is in flight or done.
pub Reachable-Counted : (s : Run) → Reachable s → Counted s
Reachable-Counted s start = (omega arith, omega arith, refl)
Reachable-Counted s (then {s = before} reached step) =
    Step-Counted before s step (Reachable-Counted before reached)

-- A run that is not over, with all workflows started, can take a step.
pub Reachable-progress :
    (s : Run) → Reachable s → (length s.started ≡ num_workflows) ⊎ ((t : Run) × Step s t)
Reachable-progress s reached = by_held s.in_flight refl
  where
    by_next : length s.in_flight ≡ 0 → (length s.started ≡ num_workflows) ⊎ ((t : Run) × Step s t)
    by_next idle =
        let (few, upto, count) = Reachable-Counted s reached in
        elim (Bool-cases (ltb s.next num_workflows)) [
          | inl more ↦ inr (_, acquire s (ground (arith, more)) (omega (arith, idle)))
          | inr over ↦ inl (ground (arith, over, idle, count, upto))
        ]

    by_held :
        (held : List ℕ)
        → s.in_flight ≡ held
        → (length s.started ≡ num_workflows) ⊎ ((t : Run) × Step s t)
    by_held [] at = by_next (ap {B = ℕ} length at)
    by_held (index ∷ more) at = inr (_, finish s [] more index 0 at)
