-- ===== src/Tests/Thread.antt =====
-- Two threads that end one after the other.
use libnhr.Base.{ℕ, ◌≡◌, ◌⊎◌, refl, none, some, List, [], ◌∷◌, inl, inr, Option-cases}
use libnhr.Thread.{exited, joining, Threads, no_threads, clean, acquire, join, move, step}
use libnhr.Thread.Safety.{Reach, start, later, Reach-once, Reach-freed}
use libnhr.Thread.Progress.{Moves, Reach-Moves}

-- the state behind a list of moves, each given by its thread; one that has to wait does nothing
unfoldable run : List ℕ → Threads → Threads
run [] s = s
run (i ∷ is) s = run is (elim (step i s) [ none ↦ s | some t ↦ t ])

run-Reach : (is : List ℕ) (s : Threads) → Reach s → Reach (run is s)
unfolding run
run-Reach [] s r = r
run-Reach (i ∷ is) s r = elim (Option-cases (step i s)) [
  | inl e ↦ rw e (run-Reach is s r)
  | inr (t, e) ↦ rw e (run-Reach is t (later r i e))
]

-- thread 1 has ended and is kept, thread 2 is about to join it
abbrev contended : Threads
contended = run (1 ∷ 1 ∷ 1 ∷ 1 ∷ 1 ∷ 1 ∷ 2 ∷ 2 ∷ 2 ∷ 2 ∷ []) no_threads

contended-Reach : Reach contended
contended-Reach = run-Reach (1 ∷ 1 ∷ 1 ∷ 1 ∷ 1 ∷ 1 ∷ 2 ∷ 2 ∷ 2 ∷ 2 ∷ []) no_threads start

-- thread 1 has been joined and freed, thread 2 is kept
abbrev quiet : Threads
quiet = run (1 ∷ 2 ∷ 2 ∷ 2 ∷ 2 ∷ 2 ∷ []) contended

quiet-Reach : Reach quiet
quiet-Reach = run-Reach (1 ∷ 2 ∷ 2 ∷ 2 ∷ 2 ∷ 2 ∷ []) contended contended-Reach

contended_lem : contended.pc 2 ≡ joining 1
unfolding run step move acquire clean join
contended_lem = refl

Reach-once_example : (quiet.frees 1 ≡ 0) ⊎ ((quiet.frees 1 ≡ 1) × (quiet.pc 1 ≡ exited))
Reach-once_example = Reach-once quiet-Reach 1

Reach-freed_example : quiet.frees 1 ≡ 1
unfolding run step move acquire clean join
Reach-freed_example = Reach-freed quiet-Reach refl 1 refl (cc)

Reach-Moves_example : Moves contended
Reach-Moves_example = Reach-Moves contended-Reach 2 (rw contended_lem (cc)) (rw contended_lem (cc))
