-- ===== src/ConfReader/Scan.antt =====
-- The scans of the configuration file's reader on what a file holds: titles, lines, names.
use g_max_linked.Base.{ℕ, ◌≡◌, refl, false, none, some, List, [], ◌∷◌, ◌++◌, if◌then◌else◌}
use g_max_linked.ConfReader.{
  is_space, starts_with, find_close, take_line, split_equals, match_line, skip_space,
}
use g_max_linked.ConfReader.Written.{
  Setting, line, IsText, IsTitle, HasNoEquals, StartsName, IsSetting,
}

pub find_close-title :
    (title rest : List ℕ)
    → IsTitle title
    → find_close (title ++ b']' ∷ rest) ≡ some (title, b']' ∷ rest)
unfolding find_close
find_close-title [] rest h = refl
find_close-title (c ∷ cs) rest h = rw (h.0, find_close-title cs rest h.2)

pub take_line-text :
    (text rest : List ℕ)
    → IsText text
    → take_line (text ++ b'\n' ∷ rest) ≡ some (text, b'\n' ∷ rest)
unfolding take_line
take_line-text [] rest h = refl
take_line-text (c ∷ cs) rest h = rw (h.0, take_line-text cs rest h.2)

pub split_equals-name :
    (name text : List ℕ) → HasNoEquals name → split_equals (name ++ b'=' ∷ text) ≡ some (name, text)
unfolding split_equals
split_equals-name [] text h = refl
split_equals-name (c ∷ cs) text h = rw (h.0, split_equals-name cs text h.1)

pub IsText-append : (a b : List ℕ) → IsText a → IsText b → IsText (a ++ b)
IsText-append [] b h k = k
IsText-append (c ∷ cs) b h k = (h.0, h.1, IsText-append cs b h.2 k)

pub line-IsText : (s : Setting) → IsSetting s → IsText (line s)
line-IsText s h = IsText-append s.name (b'=' ∷ s.text) h.is_name (refl, refl, h.is_text)

pub match_line-line :
    (key : List ℕ) (s : Setting)
    → IsSetting s
    → match_line key (line s) ≡ (if starts_with key s.name then some s.text else none)
unfolding match_line starts_with
match_line-line key s h = named s.name s.text h.no_equals h.starts
  where
    named :
        (name text : List ℕ)
        → HasNoEquals name
        → StartsName name
        → match_line key (name ++ b'=' ∷ text) ≡ (if starts_with key name then some text else none)
    named [] text n k = absurd k
    named (c ∷ cs) text n k = rw (k.1, n.0, split_equals-name (c ∷ cs) text n)

pub skip_space-newline :
    (c : ℕ) (cs : List ℕ)
    → is_space c ≡ false
    → skip_space b']' (b'\n' ∷ c ∷ cs) ≡ some (b'\n', c ∷ cs)
unfolding skip_space
skip_space-newline c cs h = rw (h, skip_space)
