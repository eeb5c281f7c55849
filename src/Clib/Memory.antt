-- ===== src/Clib/Memory.antt =====
-- Memory, and `malloc`, `realloc`, `memcpy` on it. A pointer into an allocation is the list of the
-- bytes from there to the end of the allocation, so an access past the end is a fault. A byte that
-- was never written is `unset`, which is no byte.
use libnhr.Base.{
  ℕ, zero, suc, ◌+◌, ◌-◌, ◌^◌, ◌%◌, ◌≤◌, ◌<◌, ◌≡◌, refl, arith, List, [], ◌∷◌, ◌++◌, Option, none,
  some, length, take, drop, replicate, length-append, length-take, length-drop, length-replicate,
  if◌then◌else◌, ltb,
}
use libnhr.Exec.{Exec, done, fault, ◌>>=◌}

abbrev pub Bytes : Type 0
Bytes = List ℕ

-- `size_t` arithmetic
abbrev pub u64 : ℕ → ℕ
u64 n = n % 2 ^ 64

abbrev pub unset : ℕ
unset = 256

-- the memory behind a pointer that may be NULL
abbrev pub bytes_of : Option Bytes → Bytes
bytes_of none = []
bytes_of (some m) = m

-- the `n` bytes that a `memcpy` reads at a pointer
unfoldable pub read : ℕ → Bytes → Exec Bytes
read zero m = done []
read (suc n) [] = fault
read (suc n) (c ∷ m) = do s ← read n m; done (c ∷ s)

-- `p + n`, which stays inside the allocation or points just past it
unfoldable pub skip : ℕ → Bytes → Exec Bytes
skip zero m = done m
skip (suc n) [] = fault
skip (suc n) (c ∷ m) = skip n m

-- the allocation `m` after a `memcpy` of `s` to offset `i`
unfoldable pub write : Bytes → ℕ → Bytes → Exec Bytes
write m i s =
    if ltb (length m) (i + length s) then fault else done (take i m ++ (s ++ drop (i + length s) m))

-- the first `n` bytes survive, what is new is unset
unfoldable pub resize : Bytes → ℕ → Bytes
resize m n = take n m ++ replicate (n - length m) unset

pub read-append : (s rest : Bytes) → read (length s) (s ++ rest) ≡ done s
unfolding read
read-append [] rest = refl
read-append (c ∷ s) rest = rw (read-append s rest)

pub read_self : (s : Bytes) → read (length s) s ≡ done s
unfolding read
read_self [] = refl
read_self (c ∷ s) = rw (read_self s)

pub read_le : (n : ℕ) (m : Bytes) → n ≤ length m → read n m ≡ done (take n m)
unfolding read
read_le zero m h = refl
read_le (suc n) [] h = absurd (omega arith)
read_le (suc n) (c ∷ m) h = rw (read_le n m (omega arith))

pub read_lt : (n : ℕ) (m : Bytes) → length m < n → read n m ≡ fault
unfolding read
read_lt zero m h = absurd (omega arith)
read_lt (suc n) [] h = refl
read_lt (suc n) (c ∷ m) h = rw (read_lt n m (omega arith))

pub skip-append : (s rest : Bytes) → skip (length s) (s ++ rest) ≡ done rest
unfolding skip
skip-append [] rest = refl
skip-append (c ∷ s) rest = skip-append s rest

pub length-resize : (m : Bytes) (n : ℕ) → length (resize m n) ≡ n
unfolding resize
length-resize m n = omega (
  arith,
  length-append (take n m) (replicate (n - length m) unset),
  length-take n m,
  length-replicate {0} (n - length m) unset,
)

pub write_le :
    (m : Bytes) (i : ℕ) (s : Bytes)
    → i + length s ≤ length m
    → write m i s ≡ done (take i m ++ (s ++ drop (i + length s) m))
unfolding write
write_le m i s h = ground arith

pub write_lt : (m : Bytes) (i : ℕ) (s : Bytes) → length m < i + length s → write m i s ≡ fault
unfolding write
write_lt m i s h = ground arith

-- What a write that fits leaves in memory.
pub length_written :
    (m : Bytes) (i : ℕ) (s : Bytes)
    → i + length s ≤ length m
    → length (take i m ++ (s ++ drop (i + length s) m)) ≡ length m
length_written m i s h = omega (
  arith,
  length-append (take i m) (s ++ drop (i + length s) m),
  length-append s (drop (i + length s) m),
  length-take i m,
  length-drop (i + length s) m,
)
