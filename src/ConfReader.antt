-- ===== src/ConfReader.antt =====
-- `CConfReader` (src/common/CConfReader.cpp): the configuration file. A position in `_buffer` is the
-- list of the bytes from there on; behind the last byte of the array lies a fault. The reader does
-- not clear the array, so that the bytes behind the file's are whatever the memory held.
pub mod Total
pub mod Written
pub mod Scan
pub mod Lookup
pub mod Back
pub mod Sections
pub mod Searches
pub mod RoundTrip
mod Tests
use g_max_linked.Base.{
  ℕ, zero, suc, ◌+◌, ◌-◌, ◌*◌, ◌^◌, ◌%◌, Bool, true, false, not, ◌&&◌, ◌||◌, Option, none, some,
  List, [], ◌∷◌, ◌++◌, leb, ltb, ◌==◌, if◌then◌else◌, ◌>>=◌, length, take, drop, min, u32,
}

abbrev pub max_config_file_size : ℕ
max_config_file_size = 0x8000

pub record ConfReader : Type 0 where
  pub buffer : List ℕ
  pub buffer_size : ℕ

-- `(c1_)EOF`, which is also a byte that a file may hold.
abbrev pub end_of_file : ℕ
end_of_file = 255

unfoldable pub until_end : List ℕ → List ℕ
until_end [] = []
until_end (c ∷ cs) = let rest = until_end cs in if c == end_of_file then [] else c ∷ rest

-- The constructor, over the memory of the new object, for a file that is there. A file that is too big
-- ends the program, `none`.
unfoldable pub load : List ℕ → List ℕ → Option ConfReader
load memory file =
    let text = until_end file in
    if leb max_config_file_size (length text)
    then none
    else some (record {
      buffer = text ++ end_of_file ∷ drop (length text + 1) memory;
      buffer_size = length text;
    })

abbrev pub is_newline : ℕ → Bool
is_newline c = c == b'\n' || c == b'\r'

-- `isspace`.
abbrev pub is_space : ℕ → Bool
is_space c = c == b' ' || (leb 9 c && leb c 13)

-- `strncmp` of a string and as many bytes of the buffer, none of them 0, gives 0.
unfoldable pub starts_with : List ℕ → List ℕ → Bool
starts_with s [] = true
starts_with [] (x ∷ xs) = x == 0
starts_with (c ∷ s) (x ∷ xs) = c == x && starts_with s xs

-- The loop for the `]`: the bytes before it, or before the end of the text, and the position there.
unfoldable pub find_close : List ℕ → Option (List ℕ × List ℕ)
find_close [] = none
find_close (c ∷ cs) =
    let rest = find_close cs in
    if c == b']' || c == 0 then some ([], c ∷ cs) else do (name, at) ← rest; some (c ∷ name, at)

-- The byte before a position, and the position.
abbrev pub Place : Type 0
Place = ℕ × List ℕ

-- `i++`.
unfoldable pub advance : List ℕ → Option Place
advance [] = none
advance (c ∷ cs) = some (c, cs)

unfoldable pub skip_space : ℕ → List ℕ → Option Place
skip_space before [] = none
skip_space before (c ∷ cs) = elim (is_space c) [
  | true ↦ skip_space c cs
  | false ↦ some (before, c ∷ cs)
]

-- The loop for the end of the line.
unfoldable pub take_line : List ℕ → Option (List ℕ × List ℕ)
take_line [] = none
take_line (c ∷ cs) =
    let rest = take_line cs in
    if is_newline c || c == 0 then some ([], c ∷ cs) else do (line, at) ← rest; some (c ∷ line, at)

-- The bytes before the first `=` of a line, and those behind it.
unfoldable pub split_equals : List ℕ → Option (List ℕ × List ℕ)
split_equals [] = none
split_equals (c ∷ cs) =
    let rest = split_equals cs in
    if c == b'=' then some ([], cs) else do (key, value) ← rest; some (c ∷ key, value)

abbrev pub first : List ℕ → ℕ
first [] = 0
first (c ∷ cs) = c

-- What a line says of a key. An `=` at the start of a line is never looked at.
unfoldable pub match_line : List ℕ → List ℕ → Option (List ℕ)
match_line key line =
    if first line == b';' || first line == b'='
    then none
    else do (name, value) ← split_equals line; if starts_with key name then some value else none

-- The loop over the lines of a section has found the key, has come to the next section or the end of
-- the text, or its fuel is out.
pub data Lines : Type 0 where
  found : List ℕ → Lines
  left : Place → Lines
  unfinished : Lines

unfoldable pub read_lines : ℕ → List ℕ → Place → Option Lines
read_lines zero key place = some unfinished
read_lines (suc fuel) key (before, []) = none
read_lines (suc fuel) key (before, c ∷ cs) = elim ((is_newline before && c == b'[') || c == 0) [
  | true ↦ some (left (before, c ∷ cs))
  | false ↦
      (take_line (c ∷ cs) >>= λ r. elim (match_line key r.0) [
        | some value ↦ some (found value)
        | none ↦ (advance r.1 >>= λ place. read_lines fuel key place)
      ])
]

abbrev pub last_or : ℕ → List ℕ → ℕ
last_or c [] = c
last_or c (x ∷ xs) = last_or x xs

-- `_parseFile`: the value, if it is there.
pub data Parsed : Type 0 where
  value : List ℕ → Parsed
  missing : Parsed
  out_of_fuel : Parsed

-- What the outer loop does behind the lines of a section; `next` is its next round.
unfoldable pub after_lines : (Bool → List ℕ → Option Parsed) → Lines → Option Parsed
after_lines next (found v) = some (value v)
after_lines next (left (before, rest)) = next (is_newline before) rest
after_lines next unfinished = some out_of_fuel

-- A section header has been read up to its `]`.
unfoldable pub enter_section :
    ℕ → (Bool → List ℕ → Option Parsed) → List ℕ → List ℕ → List ℕ → List ℕ → Option Parsed
enter_section fuel next section key name at =
    if starts_with section name
    then (do
      (close, behind) ← advance at
      place ← skip_space close behind
      lines ← read_lines fuel key place
      after_lines next lines)
    else next (is_newline (last_or b'[' name)) at

-- The outer loop. `fresh` tells whether the position is the start of the buffer or of a line.
unfoldable pub parse_file : ℕ → List ℕ → List ℕ → Bool → List ℕ → Option Parsed
parse_file zero section key fresh at = some out_of_fuel
parse_file (suc fuel) section key fresh [] = none
parse_file (suc fuel) section key fresh (c ∷ cs) = elim (c == 0) [
  | true ↦ some missing
  | false ↦ elim (fresh && c == b'[') [
    | true ↦
        (find_close cs >>= λ r.
        enter_section fuel (parse_file fuel section key) section key r.0 r.1)
    | false ↦ parse_file fuel section key (is_newline c) cs
  ]
]

-- What `readString` and the others return: the value, or the number of the error.
pub data Result (A : Type 0) : Type 0 where
  ok : A → Result A
  error : ℕ → Result A

-- The value, cut to `size - 1` bytes.
abbrev pub cut : ℕ → Option Parsed → Option (Result (List ℕ))
cut size none = none
cut size (some (value v)) = some (ok (take (min (size - 1) (length v)) v))
cut size (some missing) = some (error 3)
cut size (some out_of_fuel) = none

-- `readString`, with a place for `size` bytes.
unfoldable pub read_string : ConfReader → List ℕ → List ℕ → ℕ → Option (Result (List ℕ))
read_string conf section key size =
    if (length section == 0 || length key == 0) || size == 0
    then some (error 1)
    else if conf.buffer_size == 0
    then some (error 2)
    else cut size (parse_file (length conf.buffer + 1) section key true conf.buffer)

-- `strtol`: blanks, a sign and digits, as a `long` that stops at its limits, here its 64 bits.
unfoldable pub digits : ℕ → List ℕ → ℕ
digits n [] = n
digits n (c ∷ cs) = elim (leb b'0' c && leb c b'9') [
  | true ↦ digits (n * 10 + (c - b'0')) cs
  | false ↦ n
]

unfoldable pub strtol : List ℕ → ℕ
unfolding digits
strtol [] = 0
strtol (c ∷ cs) =
    let rest = strtol cs in
    if is_space c
    then rest
    else if c == b'-'
    then (2 ^ 64 - min (digits 0 cs) (2 ^ 63)) % 2 ^ 64
    else if c == b'+'
    then min (digits 0 cs) (2 ^ 63 - 1)
    else min (digits 0 (c ∷ cs)) (2 ^ 63 - 1)

-- `atoi`, cut to the `size` values of its target's type.
unfoldable pub number : ℕ → Option (Result (List ℕ)) → Option (Result ℕ)
number size none = none
number size (some (ok v)) = some (ok (u32 (strtol v) % size))
number size (some (error e)) = some (error e)

unfoldable pub read_byte : ConfReader → List ℕ → List ℕ → Option (Result ℕ)
unfolding number
read_byte conf section key = number (2 ^ 8) (read_string conf section key 32)

unfoldable pub read_short : ConfReader → List ℕ → List ℕ → Option (Result ℕ)
unfolding number
read_short conf section key = number (2 ^ 16) (read_string conf section key 32)

unfoldable pub read_int : ConfReader → List ℕ → List ℕ → Option (Result ℕ)
unfolding number
read_int conf section key = number (2 ^ 32) (read_string conf section key 32)
