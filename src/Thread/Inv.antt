-- ===== src/Thread/Inv.antt =====
-- What holds of the threads and their joiner in every reachable state.
use libnhr.Base.{
  ℕ, suc, ◌≤◌, ◌≡◌, ◌≢◌, ◌⊎◌, inl, inr, refl, ap, arith, Option, none, some, Bool, true, false,
  ◌==◌, Bool-cases,
}
use libnhr.Thread.{
  Pc, absent, running, finished, locked, joining, joined, cleaned, stored, unlocked, exited,
  Threads, update, no_threads, goes,
}

-- has the mutex
abbrev pub holds : Pc → Bool
holds locked = true
holds (joining t) = true
holds (joined t) = true
holds cleaned = true
holds stored = true
holds _ = false

-- has put itself into `_threads_joiner->thread`
abbrev pub past : Pc → Bool
past stored = true
past unlocked = true
past exited = true
past _ = false

-- has given the mutex back
abbrev pub released : Pc → Bool
released unlocked = true
released exited = true
released _ = false

-- has found `_threads_joiner->thread`, if any, and not yet stored itself
abbrev pub empties : Pc → Bool
empties (joining t) = true
empties (joined t) = true
empties cleaned = true
empties _ = false

-- the thread that is being joined and freed
abbrev pub target : Pc → Option ℕ
target (joining t) = some t
target (joined t) = some t
target _ = none

pub record Inv (s : Threads) : Type 0 where
  pub own : (i : ℕ) → holds (s.pc i) ≡ true → s.lock ≡ some i
  pub held : (i : ℕ) → s.lock ≡ some i → holds (s.pc i) ≡ true
  pub waiting : (t : ℕ) → s.thread ≡ some t → (past (s.pc t) ≡ true) × (s.frees t ≡ 0)
  pub aimed : (i t : ℕ) → target (s.pc i) ≡ some t → (released (s.pc t) ≡ true) × (s.frees t ≡ 0)
  pub ended : (i t : ℕ) → s.pc i ≡ joined t → s.pc t ≡ exited
  pub emptied : (i : ℕ) → empties (s.pc i) ≡ true → s.thread ≡ none
  pub once : (t : ℕ) → s.frees t ≤ 1
  pub freed : (t : ℕ) → s.frees t ≢ 0 → s.pc t ≡ exited
  pub kept :
      (t : ℕ)
      → past (s.pc t) ≡ true
      → s.frees t ≡ 0
      → (s.thread ≡ some t) ⊎ ((i : ℕ) × (target (s.pc i) ≡ some t))

pub no_threads-Inv : Inv no_threads
no_threads-Inv = record {
  own = λ i h. cc;
  held = λ i h. cc;
  waiting = λ t h. cc;
  aimed = λ i t h. cc;
  ended = λ i t h. cc;
  emptied = λ i h. cc;
  once = λ t. omega arith;
  freed = λ t h. absurd (h refl);
  kept = λ t h. cc;
}

module _ (s : Threads) (v : Inv s) (i : ℕ) where
  -- A move that changes where thread `i` is, and who has the mutex, but nothing else that the
  -- invariant asks of it.
  relock-Inv :
      (p q : Pc) (lock : Option ℕ)
      → s.pc i ≡ p
      → p ≢ exited
      → past p ≡ past q
      → (released p ≡ true → released q ≡ true)
      → target p ≡ target q
      → (empties q ≡ true → s.thread ≡ none)
      → ((t : ℕ) → q ≡ joined t → s.pc t ≡ exited)
      → ((j : ℕ) → holds (update s.pc i q j) ≡ true → lock ≡ some j)
      → ((j : ℕ) → lock ≡ some j → holds (update s.pc i q j) ≡ true)
      → Inv (goes i q (record s { lock = lock }))
  relock-Inv p q lock at moves same_past kept_released same_target empty over owns held = record {
    own = owns;
    held = held;
    waiting = λ t h. grind (arith, v.waiting t h);
    aimed = λ j t h. grind (arith, v.aimed j t, kept_released);
    ended = λ j t h. grind (arith, v.ended j t, over t);
    emptied = λ j h. grind (arith, v.emptied j, empty);
    once = v.once;
    freed = λ t h. grind (arith, v.freed t h);
    kept = λ t h z. elim (v.kept t (grind (arith, at, same_past)) z) [
      | inl e ↦ inl e
      | inr (j, e) ↦ inr (j, grind (arith, e, at, same_target))
    ];
  }

  -- A move that leaves the mutex, too.
  goes-Inv :
      (p q : Pc)
      → s.pc i ≡ p
      → p ≢ exited
      → holds p ≡ holds q
      → past p ≡ past q
      → (released p ≡ true → released q ≡ true)
      → target p ≡ target q
      → (empties q ≡ true → s.thread ≡ none)
      → ((t : ℕ) → q ≡ joined t → s.pc t ≡ exited)
      → Inv (goes i q s)
  goes-Inv p q at moves same_holds same_past released_still same_target empty over =
      relock-Inv p q s.lock at moves same_past released_still same_target empty over
        (λ j h. grind (arith, v.own j, at, same_holds))
        (λ j h. grind (arith, v.held j, at, same_holds))

  pub create-Inv : s.pc i ≡ absent → Inv (goes i running s)
  create-Inv at = goes-Inv absent running at (λ e. cc) refl refl (λ e. e) refl (λ e. cc) (λ t e. cc)

  pub return-Inv : s.pc i ≡ running → Inv (goes i finished s)
  return-Inv at =
      goes-Inv running finished at (λ e. cc) refl refl (λ e. e) refl (λ e. cc) (λ t e. cc)

  pub lock-Inv :
      s.pc i ≡ finished → s.lock ≡ none → Inv (goes i locked (record s { lock = some i }))
  lock-Inv at free =
      relock-Inv finished locked (some i) at (λ e. cc) refl (λ e. e) refl (λ e. cc) (λ t e. cc)
        (λ j h. grind (arith, v.own j, free)) (λ j h. grind (arith, h))

  pub clean_none-Inv : s.pc i ≡ locked → s.thread ≡ none → Inv (goes i cleaned s)
  clean_none-Inv at empty =
      goes-Inv locked cleaned at (λ e. cc) refl refl (λ e. e) refl (λ e. empty) (λ t e. cc)

  pub clean_some-Inv :
      (u : ℕ)
      → s.pc i ≡ locked
      → s.thread ≡ some u
      → Inv (goes i (joining u) (record s { thread = none }))
  clean_some-Inv u at found = record {
    own = λ j h. grind (arith, v.own j);
    held = λ j h. grind (arith, v.held j);
    waiting = λ t h. cc;
    aimed = λ j t h. grind (arith, v.aimed j t);
    ended = λ j t h. grind (arith, v.ended j t);
    emptied = λ j h. grind (arith, v.emptied j);
    once = v.once;
    freed = λ t h. grind (arith, v.freed t h);
    kept = λ t h z. elim (v.kept t (grind (arith, at)) z) [
      | inl e ↦ inr (i, grind (arith, e, found))
      | inr (j, e) ↦ inr (j, grind (arith, e, at))
    ];
  }

  pub join-Inv : (u : ℕ) → s.pc i ≡ joining u → s.pc u ≡ exited → Inv (goes i (joined u) s)
  join-Inv u at over =
      goes-Inv (joining u) (joined u) at (λ e. cc) refl refl (λ e. e) refl
        (λ e. v.emptied i (ap empties at)) (λ t e. grind (arith, over, e))

  pub free-Inv :
      (u : ℕ)
      → s.pc i ≡ joined u
      → Inv (goes i cleaned (record s { frees = update s.frees u (suc (s.frees u)) }))
  free-Inv u at = record {
    own = λ j h. grind (arith, v.own j);
    held = λ j h. grind (arith, v.held j);
    waiting = λ t h. grind (arith, v.waiting t h);
    aimed = λ j t h. grind (arith, v.aimed j t);
    ended = λ j t h. grind (arith, v.ended j t);
    emptied = λ j h. grind (arith, v.emptied j);
    once = λ t. grind (arith, v.once t, v.aimed i u);
    freed = λ t h. grind (arith, v.freed t, v.ended i u at);
    kept = λ t h z. elim (v.kept t (grind (arith, at)) (grind (arith, z))) [
      | inl e ↦ inl e
      | inr (j, e) ↦ inr (j, grind (arith, e, at, z))
    ];
  }

  pub store-Inv : s.pc i ≡ cleaned → Inv (goes i stored (record s { thread = some i }))
  store-Inv at = record {
    own = λ j h. grind (arith, v.own j);
    held = λ j h. grind (arith, v.held j);
    waiting = λ t h. grind (arith, v.freed i);
    aimed = λ j t h. grind (arith, v.aimed j t);
    ended = λ j t h. grind (arith, v.ended j t);
    emptied = λ j h. grind (arith, v.emptied j);
    once = v.once;
    freed = λ t h. grind (arith, v.freed t h);
    kept = λ t h z. elim (Bool-cases (i == t)) [
      | inl here ↦ inl (grind (arith, here))
      | inr other ↦ elim (v.kept t (grind (arith, other)) z) [
        | inl e ↦ absurd (grind (arith, e, at, v.emptied i))
        | inr (j, e) ↦ inr (j, grind (arith, e, at))
      ]
    ];
  }

  pub unlock-Inv : s.pc i ≡ stored → Inv (goes i unlocked (record s { lock = none }))
  unlock-Inv at =
      relock-Inv stored unlocked none at (λ e. cc) refl (λ e. refl) refl (λ e. cc) (λ t e. cc)
        (λ j h. grind (arith, v.own j, v.own i (ap holds at))) (λ j h. cc)

  pub exit-Inv : s.pc i ≡ unlocked → Inv (goes i exited s)
  exit-Inv at = goes-Inv unlocked exited at (λ e. cc) refl refl (λ e. e) refl (λ e. cc) (λ t e. cc)
