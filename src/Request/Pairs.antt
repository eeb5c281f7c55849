-- ===== src/Request/Pairs.antt =====
-- src/nhr_request_method_common.c: a map printed as header lines, and as URL encoded parameters.
use libnhr.Base.{ℕ, ◌+◌, Option, none, some, List, [], ◌∷◌, ◌++◌, length, if◌then◌else◌, ltb, ◌==◌}
use libnhr.Exec.{Exec, done, fault, ◌>>=◌}
use libnhr.Clib.Memory.{Bytes, u64, bytes_of}
use libnhr.Clib.Strings.{codes, strlen, text}
use libnhr.Clib.Print.{Buffer, empty_buffer, print, close}
use libnhr.Map.{Node}
use libnhr.Response.Chunks.{crlf}

-- the loop of `nhr_request_map_strings_length`, from the length so far
unfoldable pub strings_length_from : ℕ → List Node → ℕ → Exec ℕ
strings_length_from len [] increment = done len
strings_length_from len (cur ∷ next) increment = do
  k ← strlen (bytes_of cur.key)
  v ← strlen (bytes_of cur.value)
  strings_length_from (u64 (len + k + v + increment)) next increment

unfoldable pub map_strings_length : List Node → ℕ → Exec ℕ
unfolding strings_length_from
map_strings_length map increment = strings_length_from 0 map increment

-- The two loops over `cur`, with the format `lead%smiddle%s`, or `%smiddle%s` at the front.
unfoldable pub print_pairs : Bytes → Bytes → List Node → Buffer → Exec Buffer
print_pairs lead middle [] buff = done buff
print_pairs lead middle (cur ∷ next) buff = do
  k ← text (bytes_of cur.key)
  v ← text (bytes_of cur.value)
  printed ← print ((if ltb 0 (length buff.text) then lead else []) ++ (k ++ (middle ++ v))) buff
  print_pairs lead middle next printed

abbrev pub colon : Bytes
colon = codes ": "

abbrev pub ampersand : Bytes
ampersand = codes "&"

abbrev pub equals : Bytes
equals = codes "="

-- The string, NULL for an empty map, and `*length`, which is left at 0 there.
unfoldable pub http_headers : List Node → Exec (Option Bytes × ℕ)
unfolding map_strings_length print_pairs
http_headers map = do
  buff_size ← map_strings_length map 4
  if buff_size == 0 then done (none, 0) else (do
    buff ← print_pairs crlf colon map (empty_buffer buff_size)
    checked ← if ltb (length buff.text) buff_size then done buff else fault
    s ← close checked
    done (some s, length buff.text))

unfoldable pub url_encoded_parameters : List Node → Exec (Option Bytes × ℕ)
unfolding map_strings_length print_pairs
url_encoded_parameters map = do
  buff_size ← map_strings_length map 2
  if buff_size == 0 then done (none, 0) else (do
    buff ← print_pairs ampersand equals map (empty_buffer buff_size)
    s ← close buff
    done (some s, length buff.text))
