-- ===== src/Tests/Owner.antt =====
-- The allocations of a request that is used and deleted.
use libnhr.Base.{◌+◌, List, length, ℕ, suc, ◌≡◌, refl, arith, true, false, [], ◌∷◌}
use libnhr.Exec.{done}
use libnhr.Owner.{Memory}
use libnhr.Owner.Calls.{
  sets_url, adds_header, adds_text, adds_data, receives_first, receives_more, live_and_die, Step,
  starts_thread, connects,
}
use libnhr.Owner.Owns.{count}
use libnhr.Owner.Runs.{live_and_die-Owns, leftovers}

-- nothing is allocated yet
abbrev fresh_memory : Memory
fresh_memory = record { next = 1; live = λ p. 0 }

-- a first request whose first connecting times out
abbrev calls : List Step
calls =
    sets_url true true false
    ∷ adds_header
    ∷ adds_data
    ∷ adds_text
    ∷ sets_url true true true
    ∷ starts_thread true
    ∷ connects true
    ∷ connects false
    ∷ receives_first false
    ∷ receives_more
    ∷ []

live_and_die-Owns_example :
    (left : List ℕ) × (m' : Memory) × (live_and_die calls fresh_memory ≡ done (left, m'))
    × (length left ≡ leftovers calls)
    × ((p : ℕ) → m'.live (suc p) ≡ 0 + count (suc p) left)
live_and_die-Owns_example = live_and_die-Owns calls fresh_memory (λ p h. refl) (omega arith)
