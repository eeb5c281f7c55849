-- ===== src/Thread/Safety.antt =====
-- What the joiner promises, whatever the order in which the threads move.
use libnhr.Base.{
  ℕ, ◌≡◌, ◌≢◌, ◌⊎◌, inl, inr, refl, subst, arith, Option, none, some, true, ◌==◌, Bool-cases,
}
use libnhr.Thread.{
  Pc, absent, running, finished, locked, joining, joined, cleaned, stored, unlocked, exited,
  Threads, no_threads, goes, is_exited, clean, acquire, join, move, step,
}
use libnhr.Thread.Inv.{
  Inv, holds, target, no_threads-Inv, create-Inv, return-Inv, lock-Inv, clean_none-Inv,
  clean_some-Inv, join-Inv, free-Inv, store-Inv, unlock-Inv, exit-Inv,
}

-- the states that some order of moves leads to
pub data Reach : Threads → Type 0 where
  start : Reach no_threads
  later : {s s' : Threads} → Reach s → (i : ℕ) → step i s ≡ some s' → Reach s'

some-Inv : {s s' : Threads} → Inv s → ◌≡◌ {A = Option Threads} (some s) (some s') → Inv s'
some-Inv {s} v e = subst (elim [ none ↦ Unit | some t ↦ Inv t ]) e v

pub is_exited_lem : (p : Pc) → is_exited p ≡ true → p ≡ exited
is_exited_lem exited h = refl
is_exited_lem _ h = cc

clean-Inv :
    (s : Threads) (i : ℕ) (o : Option ℕ)
    → Inv s
    → s.pc i ≡ locked
    → s.thread ≡ o
    → Inv (clean i o s)
unfolding clean
clean-Inv s i none v at e = clean_none-Inv s v i at e
clean-Inv s i (some u) v at e = clean_some-Inv s v i u at e

acquire-Inv :
    (s s' : Threads) (i : ℕ) (o : Option ℕ)
    → Inv s
    → s.pc i ≡ finished
    → s.lock ≡ o
    → acquire i o s ≡ some s'
    → Inv s'
unfolding acquire
acquire-Inv s s' i none v at free e = some-Inv (lock-Inv s v i at free) e
acquire-Inv s s' i (some j) v at taken e = cc

join-some :
    (s s' : Threads) (i u : ℕ)
    → join i u s ≡ some s'
    → (is_exited (s.pc u) ≡ true) × (some (goes i (joined u) s) ≡ some s')
unfolding join
join-some s s' i u e = elim (Bool-cases (is_exited (s.pc u))) [
  | inl over ↦ (over, rw over at e)
  | inr waits ↦ absurd (let e' = rw waits at e in cc)
]

move-Inv : (p : Pc) (s s' : Threads) (i : ℕ) → Inv s → s.pc i ≡ p → move i p s ≡ some s' → Inv s'
unfolding move
move-Inv absent s s' i v at e = some-Inv (create-Inv s v i at) e
move-Inv running s s' i v at e = some-Inv (return-Inv s v i at) e
move-Inv finished s s' i v at e = acquire-Inv s s' i s.lock v at refl e
move-Inv locked s s' i v at e = some-Inv (clean-Inv s i s.thread v at refl) e
move-Inv (joining u) s s' i v at e =
    let (over, e') = join-some s s' i u e in
    some-Inv (join-Inv s v i u at (is_exited_lem (s.pc u) over)) e'
move-Inv (joined u) s s' i v at e = some-Inv (free-Inv s v i u at) e
move-Inv cleaned s s' i v at e = some-Inv (store-Inv s v i at) e
move-Inv stored s s' i v at e = some-Inv (unlock-Inv s v i at) e
move-Inv unlocked s s' i v at e = some-Inv (exit-Inv s v i at) e
move-Inv exited s s' i v at e = cc

pub Reach-Inv : {s : Threads} → Reach s → Inv s
unfolding step
Reach-Inv start = no_threads-Inv
Reach-Inv (later {s} {s'} r i e) = move-Inv (s.pc i) s s' i (Reach-Inv r) refl e

-- In every reachable state, no two threads have the joiner's mutex.
pub Reach-exclusive :
    {s : Threads} → Reach s → (i j : ℕ) → holds (s.pc i) ≡ true → holds (s.pc j) ≡ true → i ≡ j
Reach-exclusive r i j h k = let v = Reach-Inv r in grind (arith, v.own i h, v.own j k)

-- In every reachable state, the structure of each thread has not been freed, or has been freed once
-- and its thread has ended.
pub Reach-once :
    {s : Threads} → Reach s → (t : ℕ) → (s.frees t ≡ 0) ⊎ ((s.frees t ≡ 1) × (s.pc t ≡ exited))
Reach-once {s} r t =
    let v = Reach-Inv r in
    elim (Bool-cases (s.frees t == 0)) [
      | inl z ↦ inl (grind (arith, z))
      | inr nonzero ↦ inr (grind (arith, v.once t, nonzero), v.freed t (grind (arith, nonzero)))
    ]

holds-target : (p : Pc) (t : ℕ) → target p ≡ some t → holds p ≡ true
holds-target (joining u) t e = refl
holds-target (joined u) t e = refl
holds-target _ t e = cc

-- In every reachable state in which no thread has the joiner's mutex, every thread that has ended
-- has been joined and freed, exactly once, but for the one that the joiner keeps.
pub Reach-freed :
    {s : Threads}
    → Reach s
    → s.lock ≡ none
    → (t : ℕ) → s.pc t ≡ exited
    → s.thread ≢ some t
    → s.frees t ≡ 1
Reach-freed {s} r free t over other =
    let v = Reach-Inv r in
    elim (Bool-cases (s.frees t == 0)) [
      | inr nonzero ↦ grind (arith, v.once t, nonzero)
      | inl z ↦ elim (v.kept t (grind (arith, over)) (grind (arith, z))) [
        | inl e ↦ absurd (other e)
        | inr (i, e) ↦ absurd (let h = holds-target (s.pc i) t e in grind (arith, v.own i h, free))
      ]
    ]
