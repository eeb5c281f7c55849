-- ===== src/Owner/Owns.antt =====
-- Memory as what one owner has and a rest, and what freeing and allocating do to it.
use libnhr.Base.{
  ℕ, ◌+◌, ◌-◌, ◌≤◌, ◌<◌, ◌≡◌, ◌≢◌, refl, ap, ◌∙◌, arith, false, List, [], ◌∷◌, ◌++◌, if◌then◌else◌,
  ◌==◌, Bool-cases, inl, inr,
}
use libnhr.Exec.{Exec, done, ◌>>=◌}
use libnhr.Owner.{Memory, set_live, allocate, free}

-- how often an address stands in a list
abbrev pub count : ℕ → List ℕ → ℕ
count p [] = 0
count p (q ∷ qs) = (if q == p then 1 else 0) + count p qs

pub count-append : (p : ℕ) (xs ys : List ℕ) → count p (xs ++ ys) ≡ count p xs + count p ys
count-append p [] ys = omega arith
count-append p (x ∷ xs) ys = omega (arith, count-append p xs ys)

-- Apart from NULL, the addresses allocated are those of `rest` and those of the list `o`, each as
-- often as it stands there; the next address is free.
pub record Owns (rest : ℕ → ℕ) (o : List ℕ) (m : Memory) : Type 0 where
  pub lives : (p : ℕ) → p ≢ 0 → m.live p ≡ rest p + count p o
  pub fresh : (p : ℕ) → m.next ≤ p → m.live p ≡ 0
  pub some_next : 0 < m.next

-- A run that gives memory that the owner has less of.
abbrev pub Leaves : (ℕ → ℕ) → List ℕ → Exec Memory → Type 0
Leaves rest o run = (m : Memory) × (run ≡ done m) × Owns rest o m

module _ (rest : ℕ → ℕ) where
  pub Owns-count :
      (o o' : List ℕ) (m : Memory)
      → ((p : ℕ) → p ≢ 0 → count p o ≡ count p o')
      → Owns rest o m
      → Owns rest o' m
  Owns-count o o' m same v = record {
    lives = λ p h. omega (arith, v.lives p h, same p h);
    fresh = v.fresh;
    some_next = v.some_next;
  }

  pub free-Owns : (p : ℕ) (o : List ℕ) (m : Memory) → Owns rest (p ∷ o) m → Leaves rest o (free p m)
  unfolding free
  free-Owns p o m v = elim (Bool-cases (p == 0)) [
    | inl null ↦ (m, rw null refl, Owns-count (p ∷ o) o m (λ q h. ground (arith, null)) v)
    | inr there ↦
        let has : (m.live p == 0) ≡ false = ground (arith, v.lives p, there) in
        (
          record m { live = set_live m.live p (m.live p - 1) },
          rw (there, has) refl,
          record {
            lives = λ q h. ground (arith, v.lives q h, v.lives p);
            fresh = λ q h. ground (arith, v.fresh q h);
            some_next = v.some_next;
          },
        )
  ]

  pub allocate-Owns :
      (o : List ℕ) (m : Memory) → Owns rest o m → Owns rest ((allocate m).0 ∷ o) (allocate m).1
  unfolding allocate
  allocate-Owns o m v = record {
    lives = λ p h. ground (arith, v.lives p h);
    fresh = λ p h. ground (arith, v.fresh p);
    some_next = omega arith;
  }

  -- Freeing after a run.
  pub then-Leaves :
      (run : Exec Memory) (f : Memory → Exec Memory) (o o' : List ℕ)
      → Leaves rest o run
      → ((m : Memory) → Owns rest o m → Leaves rest o' (f m))
      → Leaves rest o' (run >>= f)
  then-Leaves run f o o' (m, e, v) k =
      let (m', e', v') = k m v in (m', ap (λ r. r >>= f) e ∙ e', v')
