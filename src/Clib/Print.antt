-- ===== src/Clib/Print.antt =====
-- Writing a message into a buffer from left to right, as the builders do with `sprintf(buff +
-- writed, …)`, `memcpy(buff + writed, …)` and `buff[writed] = 0`.
use libnhr.Base.{ℕ, ◌+◌, ◌≤◌, ◌<◌, ◌≡◌, arith, [], ◌++◌, length, if◌then◌else◌, ltb}
use libnhr.Exec.{Exec, done, fault}
use libnhr.Clib.Memory.{Bytes}
use libnhr.Clib.Strings.{cstr}

-- An allocation of `cap` bytes whose first `length text`, the variable `writed`, are in place.
pub record Buffer : Type 0 where
  pub cap : ℕ
  pub text : Bytes

-- `malloc`
abbrev pub empty_buffer : ℕ → Buffer
empty_buffer n = record { cap = n; text = [] }

-- `sprintf(buff + writed, …)` with the output `s`: a NUL follows it. `memcpy` writes none.
unfoldable pub print : Bytes → Buffer → Exec Buffer
print s b =
    if ltb (length b.text + length s) b.cap then done (record b { text = b.text ++ s }) else fault

unfoldable pub copy : Bytes → Buffer → Exec Buffer
copy s b =
    if ltb b.cap (length b.text + length s) then fault else done (record b { text = b.text ++ s })

-- `buff[writed] = 0`. The memory behind the NUL is never read, and left out.
unfoldable pub close : Buffer → Exec Bytes
close b = if ltb (length b.text) b.cap then done (cstr b.text) else fault

pub print_lem :
    (s : Bytes) (b : Buffer)
    → length b.text + length s < b.cap
    → print s b ≡ done (record { cap = b.cap; text = b.text ++ s })
unfolding print
print_lem s b h = ground arith

pub copy_lem :
    (s : Bytes) (b : Buffer)
    → length b.text + length s ≤ b.cap
    → copy s b ≡ done (record { cap = b.cap; text = b.text ++ s })
unfolding copy
copy_lem s b h = ground arith

pub close_lem : (b : Buffer) → length b.text < b.cap → close b ≡ done (cstr b.text)
unfolding close
close_lem b h = ground arith
