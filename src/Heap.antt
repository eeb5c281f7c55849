-- ===== src/Heap.antt =====
-- src/nhr_memory.c and src/nhr_string.c: allocation, and copies of C strings. That `malloc` finds no
-- memory is not modelled. `free` leaves nothing to model but the pointer that its caller clears.
use libnhr.Base.{
  ℕ, suc, ◌-◌, ◌≡◌, ◌≢◌, refl, arith, [], ◌∷◌, ◌++◌, Option, none, some, length, replicate,
  if◌then◌else◌, ltb,
}
use libnhr.Exec.{Exec, done, ◌>>=◌}
use libnhr.Clib.Memory.{Bytes, unset, bytes_of, read, resize, read-append}
use libnhr.Clib.Strings.{cstr, NoNul, strlen, strlen-append}

unfoldable pub malloc : ℕ → Option Bytes
malloc size = if ltb 0 size then some (replicate size unset) else none

unfoldable pub malloc_zero : ℕ → Option Bytes
malloc_zero size = if ltb 0 size then some (replicate size 0) else none

-- `realloc(NULL, n)` is `malloc(n)`.
unfoldable pub realloc : Option Bytes → ℕ → Option Bytes
realloc mem new_size = if ltb 0 new_size then some (resize (bytes_of mem) new_size) else none

-- `str ? strlen(str) : 0`
unfoldable pub len_of : Option Bytes → Exec ℕ
len_of none = done 0
len_of (some m) = strlen m

unfoldable pub string_copy_len : Option Bytes → ℕ → Exec (Option Bytes)
string_copy_len none len = done none
string_copy_len (some m) len =
    if ltb 0 len then (do s ← read len m; done (some (cstr s))) else done none

unfoldable pub string_copy : Option Bytes → Exec (Option Bytes)
unfolding string_copy_len
string_copy none = done none
string_copy (some m) = do len ← strlen m; string_copy_len (some m) len

-- The byte at an index in the allocation.
unfoldable pub byte_at : ℕ → Bytes → Exec ℕ
byte_at i [] = Exec.fault
byte_at i (c ∷ m) = elim i [ ℕ.zero ↦ done c | suc j ↦ byte_at j m ]

unfoldable pub string_last_char : Option Bytes → Exec ℕ
unfolding len_of byte_at
string_last_char str = do
  len ← len_of str
  if ltb 0 len then byte_at (len - 1) (bytes_of str) else done 0

-- A string is copied whole, with its NUL.
pub string_copy_len-cstr :
    (s rest : Bytes) → s ≢ [] → string_copy_len (some (s ++ rest)) (length s) ≡ done (some (cstr s))
unfolding string_copy_len
string_copy_len-cstr [] rest h = absurd (h refl)
string_copy_len-cstr (c ∷ s) rest h = rw (read-append (c ∷ s) rest) (ground arith)

pub len_of-cstr : (s : Bytes) → NoNul s → len_of (some (cstr s)) ≡ done (length s)
unfolding len_of
len_of-cstr s h = strlen-append s [] h
