-- ===== src/Clib/Strings.antt =====
-- `strlen`, `strstr`, `strncmp`, `strcmp` and the `ctype.h` tests (C locale).
use Prim.Native.Char.{code}
use Prim.Native.String.{String}
use libnhr.Base.{
  ℕ, suc, ◌≡◌, ◌≢◌, refl, [], ◌∷◌, ◌++◌, Option, none, some, Bool, true, false, ◌&&◌, ◌||◌, length,
  if◌then◌else◌, leb, ◌==◌, ne→==,
}
use libnhr.Exec.{Exec, done, fault, ◌>>=◌}
use libnhr.Clib.Memory.{Bytes}

-- The bytes of a literal. `String` has its own `[]` and `∷`.
abbrev pub codes : String → Bytes
codes String.[] = []
codes (String.◌∷◌ c s) = code c ∷ codes s

-- a C string in an allocation of its own
abbrev pub cstr : Bytes → Bytes
cstr s = s ++ (0 ∷ [])

abbrev pub NoNul : Bytes → Type 0
NoNul [] = Unit
NoNul (c ∷ s) = (c ≢ 0) × NoNul s

unfoldable pub strlen : Bytes → Exec ℕ
strlen [] = fault
strlen (c ∷ m) = if c == 0 then done 0 else (do n ← strlen m; done (suc n))

-- the string that `%s` prints
unfoldable pub text : Bytes → Exec Bytes
text [] = fault
text (c ∷ m) = if c == 0 then done [] else (do s ← text m; done (c ∷ s))

-- Does the string at a pointer begin with `needle`? It is read up to the first difference.
unfoldable pub begins : Bytes → Bytes → Exec Bool
begins [] m = done true
begins (n ∷ ns) [] = fault
begins (n ∷ ns) (c ∷ m) = if n == c then begins ns m else done false

-- `strncmp(m, needle, strlen(needle)) == 0`
abbrev pub strncmp_eq : Bytes → Bytes → Exec Bool
strncmp_eq m needle = begins needle m

-- `strcmp(m, s) == 0`
unfoldable pub strcmp_eq : Bytes → Bytes → Exec Bool
strcmp_eq m s = begins (cstr s) m

unfoldable pub strstr : Bytes → Bytes → Exec (Option Bytes)
strstr [] needle = fault
strstr (c ∷ m) needle = do
  here ← begins needle (c ∷ m)
  if here then done (some (c ∷ m)) else if c == 0 then done none else strstr m needle

abbrev within : ℕ → ℕ → ℕ → Bool
within lo hi c = leb lo c && leb c hi

abbrev pub is_space : ℕ → Bool
is_space c = c == b' ' || within 9 13 c

abbrev pub is_digit : ℕ → Bool
is_digit c = within b'0' b'9' c

abbrev pub is_alnum : ℕ → Bool
is_alnum c = is_digit c || within b'a' b'z' c || within b'A' b'Z' c

abbrev pub is_xdigit : ℕ → Bool
is_xdigit c = is_digit c || within b'a' b'f' c || within b'A' b'F' c

pub strlen-append : (s rest : Bytes) → NoNul s → strlen (s ++ (0 ∷ rest)) ≡ done (length s)
unfolding strlen
strlen-append [] rest h = refl
strlen-append (c ∷ s) rest h = rw (ne→== c 0 h.0, strlen-append s rest h.1)

pub text-append : (s rest : Bytes) → NoNul s → text (s ++ (0 ∷ rest)) ≡ done s
unfolding text
text-append [] rest h = refl
text-append (c ∷ s) rest h = rw (ne→== c 0 h.0, text-append s rest h.1)

-- Memory that holds no NUL is no string.
pub strlen-fault : (m : Bytes) → NoNul m → strlen m ≡ fault
unfolding strlen
strlen-fault [] h = refl
strlen-fault (c ∷ m) h = rw (ne→== c 0 h.0, strlen-fault m h.1)

pub NoNul-append : (s t : Bytes) → NoNul s → NoNul t → NoNul (s ++ t)
NoNul-append [] t hs ht = ht
NoNul-append (c ∷ s) t hs ht = (hs.0, NoNul-append s t hs.1 ht)
