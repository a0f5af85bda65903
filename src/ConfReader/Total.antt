-- ===== src/ConfReader/Total.antt =====
-- The reader of the configuration file comes to an end: every round of its loops moves forward.
use g_max_linked.Base.{
  ℕ, zero, suc, ◌≤◌, ◌<◌, ◌≢◌, subst, Bool, inl, inr, ◌&&◌, ◌||◌, Option, none, some, List, [], ◌∷◌,
  ◌==◌, ◌>>=◌, length, arith, Bool-cases,
}
use g_max_linked.ConfReader.{
  Place, Lines, found, left, unfinished, Parsed, value, missing, out_of_fuel, is_newline,
  starts_with, last_or, find_close, take_line, skip_space, advance, match_line, read_lines,
  after_lines, enter_section, parse_file,
}

-- What a scan stops at is no longer than where it began.
abbrev pub StaysIn : ℕ → Option (List ℕ × List ℕ) → Type 0
StaysIn n none = Unit
StaysIn n (some (text, at)) = length at ≤ n

pub find_close-StaysIn : (cs : List ℕ) → StaysIn (length cs) (find_close cs)
unfolding find_close
find_close-StaysIn [] = tt
find_close-StaysIn (c ∷ cs) = ground (arith, find_close-StaysIn cs)

pub take_line-StaysIn : (cs : List ℕ) → StaysIn (length cs) (take_line cs)
unfolding take_line
take_line-StaysIn [] = tt
take_line-StaysIn (c ∷ cs) = ground (arith, take_line-StaysIn cs)

abbrev pub PlaceIn : ℕ → Option Place → Type 0
PlaceIn n none = Unit
PlaceIn n (some (before, at)) = length at ≤ n

pub skip_space-PlaceIn : (before : ℕ) (cs : List ℕ) → PlaceIn (length cs) (skip_space before cs)
unfolding skip_space
skip_space-PlaceIn before [] = tt
skip_space-PlaceIn before (c ∷ cs) = ground (arith, skip_space-PlaceIn c cs)

abbrev pub LinesIn : ℕ → Option Lines → Type 0
LinesIn n none = Unit
LinesIn n (some (found v)) = Unit
LinesIn n (some (left (before, at))) = length at ≤ n
LinesIn n (some unfinished) = ⊥

pub LinesIn-le : (m n : ℕ) (o : Option Lines) → LinesIn m o → m ≤ n → LinesIn n o
LinesIn-le m n none h l = tt
LinesIn-le m n (some (found v)) h l = tt
LinesIn-le m n (some (left (before, at))) h l = omega arith
LinesIn-le m n (some unfinished) h l = h

-- A line of a section, where `next` is the rest of the loop.
module _ (next : Place → Option Lines) (n : ℕ)
    (ih : (x : ℕ) (xs : List ℕ) → length xs ≤ n → LinesIn (length xs) (next (x, xs))) where
  line_value-LinesIn :
      (m : Option (List ℕ)) (rest : List ℕ)
      → length rest ≤ suc n
      → LinesIn (suc n) (elim m [ some v ↦ some (found v) | none ↦ (advance rest >>= next) ])
  unfolding advance
  line_value-LinesIn (some v) rest l = tt
  line_value-LinesIn none [] l = tt
  line_value-LinesIn none (x ∷ xs) l =
      LinesIn-le (length xs) (suc n) (next (x, xs)) (ih x xs (omega arith)) (omega arith)

  line-LinesIn :
      (key : List ℕ) (o : Option (List ℕ × List ℕ))
      → StaysIn (suc n) o
      → LinesIn (suc n) (
          o >>= λ r. elim (match_line key r.0) [
            | some v ↦ some (found v)
            | none ↦ (advance r.1 >>= next)
          ])
  line-LinesIn key none l = tt
  line-LinesIn key (some (line, rest)) l = line_value-LinesIn (match_line key line) rest l

pub PlaceIn-le : (m n : ℕ) (o : Option Place) → PlaceIn m o → m ≤ n → PlaceIn n o
PlaceIn-le m n none h l = tt
PlaceIn-le m n (some (before, at)) h l = omega arith

pub read_lines-LinesIn :
    (fuel : ℕ) (key : List ℕ) (before : ℕ) (at : List ℕ)
    → length at < fuel
    → LinesIn (length at) (read_lines fuel key (before, at))
unfolding read_lines
read_lines-LinesIn zero key before at h = absurd (omega arith)
read_lines-LinesIn (suc fuel) key before [] h = tt
read_lines-LinesIn (suc fuel) key before (c ∷ cs) h =
    elim (Bool-cases ((is_newline before && c == b'[') || c == 0)) [
      | inl e ↦ rw (e, read_lines) (omega arith)
      | inr e ↦
          rw (e, read_lines)
            (line-LinesIn (read_lines fuel key) (length cs)
              (λ x xs l. read_lines-LinesIn fuel key x xs (omega arith)) key (take_line (c ∷ cs))
              (take_line-StaysIn (c ∷ cs)))
    ]

abbrev pub Ends : Option Parsed → Type 0
Ends none = Unit
Ends (some (value v)) = Unit
Ends (some missing) = Unit
Ends (some out_of_fuel) = ⊥

module _ (fuel n : ℕ) (section key : List ℕ) (l : suc n ≤ fuel)
    (ih : (fresh : Bool) (at : List ℕ)
      → length at ≤ n
      → Ends (parse_file fuel section key fresh at)) where
  after_lines-Ends :
      (m : ℕ) (o : Option Lines)
      → LinesIn m o
      → m ≤ n
      → Ends (o >>= after_lines (parse_file fuel section key))
  unfolding after_lines
  after_lines-Ends m none h k = tt
  after_lines-Ends m (some (found v)) h k = tt
  after_lines-Ends m (some (left (before, at))) h k = ih (is_newline before) at (omega arith)
  after_lines-Ends m (some unfinished) h k = absurd h

  section_place-Ends :
      (o : Option Place)
      → PlaceIn n o
      → Ends
          (o >>= λ place. read_lines fuel key place >>= after_lines (parse_file fuel section key))
  section_place-Ends none h = tt
  section_place-Ends (some (before, at)) h =
      after_lines-Ends (length at) (read_lines fuel key (before, at))
        (read_lines-LinesIn fuel key before at (omega arith)) h

  enter_section-Ends :
      (o : Option (List ℕ × List ℕ))
      → StaysIn n o
      → Ends (o >>= λ r. enter_section fuel (parse_file fuel section key) section key r.0 r.1)
  unfolding enter_section advance
  enter_section-Ends none h = tt
  enter_section-Ends (some (name, [])) h = elim (Bool-cases (starts_with section name)) [
    | inl e ↦ rw e tt
    | inr e ↦ rw e (ih (is_newline (last_or b'[' name)) [] h)
  ]
  enter_section-Ends (some (name, c ∷ cs)) h = elim (Bool-cases (starts_with section name)) [
    | inl e ↦ rw e (
        section_place-Ends (skip_space c cs)
          (PlaceIn-le (length cs) n (skip_space c cs) (skip_space-PlaceIn c cs) (omega arith)))
    | inr e ↦ rw e (ih (is_newline (last_or b'[' name)) (c ∷ cs) h)
  ]

pub parse_file-Ends :
    (fuel : ℕ) (section key : List ℕ) (fresh : Bool) (at : List ℕ)
    → length at < fuel
    → Ends (parse_file fuel section key fresh at)
unfolding parse_file
parse_file-Ends zero section key fresh at h = absurd (omega arith)
parse_file-Ends (suc fuel) section key fresh [] h = tt
parse_file-Ends (suc fuel) section key fresh (c ∷ cs) h = elim (Bool-cases (c == 0)) [
  | inl e ↦ rw (e, parse_file) tt
  | inr e ↦
      rw (e, parse_file)
        (elim (Bool-cases (fresh && c == b'[')) [
          | inl d ↦
              rw (d, parse_file)
                (enter_section-Ends fuel (length cs) section key (omega arith)
                  (λ f at l. parse_file-Ends fuel section key f at (omega arith)) (find_close cs)
                  (find_close-StaysIn cs))
          | inr d ↦
              rw (d, parse_file) (parse_file-Ends fuel section key (is_newline c) cs (omega arith))
        ])
]

-- The two loops that look for a setting, the one over the file and the one over the lines of a
-- section, come to an end: with more rounds allowed than there are bytes up to the end of the buffer,
-- they never run out of them.
pub parse_file-total :
    (fuel : ℕ) (section key : List ℕ) (fresh : Bool) (at : List ℕ)
    → length at < fuel
    → parse_file fuel section key fresh at ≢ some out_of_fuel
parse_file-total fuel section key fresh at h e =
    subst Ends e (parse_file-Ends fuel section key fresh at h)
