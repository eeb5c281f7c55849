-- ===== src/Thread/Progress.antt =====
-- The joiner is never in a deadlock.
use libnhr.Base.{ℕ, ◌≡◌, ◌≢◌, refl, ap, ◌∙◌, some, true, false, inl, inr, Bool-cases, Option-cases}
use libnhr.Thread.{
  Pc, absent, running, finished, locked, joining, joined, cleaned, stored, unlocked, exited,
  Threads, goes, is_exited, clean, acquire, join, move, step,
}
use libnhr.Thread.Inv.{Inv, holds, released}
use libnhr.Thread.Safety.{Reach, Reach-Inv}

-- Some thread that was created has a move.
abbrev pub Moves : Threads → Type 0
Moves s = (j : ℕ) × (s' : Threads) × (s.pc j ≢ absent) × (step j s ≡ some s')

step-at : (s : Threads) (i : ℕ) (p : Pc) → s.pc i ≡ p → step i s ≡ move i p s
unfolding step
step-at s i p at = ap (λ q. move i q s) at

Moves-at :
    (s : Threads) (i : ℕ) (p : Pc) (s' : Threads)
    → s.pc i ≡ p
    → p ≢ absent
    → move i p s ≡ some s'
    → Moves s
Moves-at s i p s' at created e = (i, s', rw at created, step-at s i p at ∙ e)

joining-Moves : (s : Threads) → Inv s → (i t : ℕ) → s.pc i ≡ joining t → Moves s
unfolding move join
joining-Moves s v i t at = elim (Bool-cases (is_exited (s.pc t))) [
  | inl over ↦ Moves-at s i (joining t) (goes i (joined t) s) at (cc) (rw over refl)
  | inr waits ↦
      let free = (v.aimed i t (rw at refl)).0 in
      Moves-at s t unlocked (goes t exited s) (released_lem (s.pc t) free waits) (cc) refl
]
  where
    released_lem : (p : Pc) → released p ≡ true → is_exited p ≡ false → p ≡ unlocked
    released_lem unlocked h k = refl
    released_lem exited h k = cc
    released_lem _ h k = cc

holder-Moves : (s : Threads) → Inv s → (i : ℕ) (p : Pc) → s.pc i ≡ p → holds p ≡ true → Moves s
unfolding move
holder-Moves s v i locked at h = Moves-at s i locked (clean i s.thread s) at (cc) refl
holder-Moves s v i (joining t) at h = joining-Moves s v i t at
holder-Moves s v i (joined t) at h = Moves-at s i (joined t) _ at (cc) refl
holder-Moves s v i cleaned at h = Moves-at s i cleaned _ at (cc) refl
holder-Moves s v i stored at h = Moves-at s i stored _ at (cc) refl
holder-Moves s v i _ at h = cc

thread-Moves :
    (s : Threads) → Inv s → (i : ℕ) (p : Pc) → s.pc i ≡ p → p ≢ absent → p ≢ exited → Moves s
unfolding move acquire
thread-Moves s v i absent at created over = absurd (created refl)
thread-Moves s v i running at created over = Moves-at s i running _ at (cc) refl
thread-Moves s v i finished at created over = elim (Option-cases s.lock) [
  | inl free ↦
      Moves-at s i finished (goes i locked (record s { lock = some i })) at (cc)
        (ap (λ o. acquire i o s) free)
  | inr (j, taken) ↦ holder-Moves s v j (s.pc j) refl (v.held j taken)
]
thread-Moves s v i unlocked at created over = Moves-at s i unlocked _ at (cc) refl
thread-Moves s v i exited at created over = absurd (over refl)
thread-Moves s v i p at created over = holder-Moves s v i p at refl

-- In every reachable state in which some thread has been created and has not ended, some thread that
-- has been created has a move: the threads never all wait for the mutex and for each other's end.
pub Reach-Moves : {s : Threads} → Reach s → (i : ℕ) → s.pc i ≢ absent → s.pc i ≢ exited → Moves s
Reach-Moves {s} r i created over = thread-Moves s (Reach-Inv r) i (s.pc i) refl created over
