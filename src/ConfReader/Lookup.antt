-- ===== src/ConfReader/Lookup.antt =====
-- The settings of a section, written line by line, read back by the loop over lines.
use g_max_linked.Base.{
  ℕ, zero, suc, ◌<◌, ◌≡◌, refl, false, inl, inr, Option, none, some, List, [], ◌∷◌, ◌++◌, ◌==◌, ◌∙◌,
  length, length-append, arith, Bool-cases,
}
use g_max_linked.ConfReader.{
  Place, Lines, found, left, starts_with, advance, match_line, read_lines,
}
use g_max_linked.ConfReader.Written.{
  Setting, line, write_settings, value_of, IsText, StartsName, IsSetting, AreSettings,
}
use g_max_linked.ConfReader.Scan.{take_line-text, line-IsText, match_line-line}

abbrev pub or_else : {A : Type 0} → Option A → Option A → Option A
or_else none o = o
or_else (some a) o = some a

pub value_of-append :
    (key : List ℕ) (a b : List Setting)
    → value_of key (a ++ b) ≡ or_else (value_of key a) (value_of key b)
unfolding value_of
value_of-append key [] b = refl
value_of-append key (s ∷ ss) b = elim (Bool-cases (starts_with key s.name)) [
  | inl e ↦ rw e refl
  | inr e ↦ rw e (value_of-append key ss b)
]

abbrev pub lines_of : Option (List ℕ) → Place → Lines
lines_of (some v) place = found v
lines_of none place = left place

-- From `at` on, with any fuel that covers what is left, the loop over lines comes to `place`.
abbrev pub LeavesAt : List ℕ → List ℕ → Place → Type 0
LeavesAt key at place =
    (fuel : ℕ) → length at < fuel → read_lines fuel key (b'\n', at) ≡ some (left place)

-- A byte that starts no section and does not end the text.
abbrev StartsLine : List ℕ → Type 0
StartsLine [] = ⊥
StartsLine (c ∷ cs) = ((c == b'[') ≡ false) × ((c == 0) ≡ false)

read_lines-line :
    (fuel : ℕ) (key text rest : List ℕ) (before : ℕ)
    → IsText text
    → StartsLine text
    → read_lines (suc fuel) key (before, text ++ b'\n' ∷ rest) ≡ elim (match_line key text) [
      | some v ↦ some (found v)
      | none ↦ read_lines fuel key (b'\n', rest)
    ]
unfolding read_lines advance
read_lines-line fuel key [] rest before h k = absurd k
read_lines-line fuel key (c ∷ cs) rest before h k =
    ground (arith, take_line-text (c ∷ cs) rest h, k.0, k.1)

line-StartsLine : (s : Setting) → IsSetting s → StartsLine (line s)
line-StartsLine s h = named s.name s.text h.starts h.is_name
  where
    named : (name text : List ℕ) → StartsName name → IsText name → StartsLine (name ++ b'=' ∷ text)
    named [] text k t = absurd k
    named (c ∷ cs) text k t = (k.2, ground (arith, t.0))

pub read_lines-settings :
    (key : List ℕ) (ss : List Setting) (rest : List ℕ) (place : Place)
    → AreSettings ss
    → LeavesAt key rest place
    → (fuel : ℕ) → length (write_settings ss rest) < fuel
    → read_lines fuel key (b'\n', write_settings ss rest) ≡ some (lines_of (value_of key ss) place)
unfolding value_of
read_lines-settings key [] rest place h k fuel l = k fuel l
read_lines-settings key (s ∷ ss) rest place h k zero l = absurd (omega arith)
read_lines-settings key (s ∷ ss) rest place h k (suc fuel) l =
    read_lines-line fuel key (line s) (write_settings ss rest) b'\n' (line-IsText s h.0)
      (line-StartsLine s h.0)
    ∙ rw (match_line-line key s h.0) (elim (Bool-cases (starts_with key s.name)) [
      | inl e ↦ rw e refl
      | inr e ↦ rw e (
          read_lines-settings key ss rest place h.1 k fuel
            (omega (arith, length-append {0} (line s) (b'\n' ∷ write_settings ss rest))))
    ])
