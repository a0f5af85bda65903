-- ===== src/ConfReader/Back.antt =====
-- The outer loop of a lookup on the settings of a section that it does not enter, and what it needs
-- of the text behind a section.
use g_max_linked.Base.{
  ℕ, zero, suc, ◌≤◌, ◌<◌, ◌≡◌, refl, sym, subst, Bool, true, false, ◌&&◌, Option, none, some, List,
  [], ◌∷◌, ◌++◌, ◌==◌, length, length-append, arith,
}
use g_max_linked.ConfReader.{Parsed, value, missing, is_newline, is_space, parse_file}
use g_max_linked.ConfReader.Written.{
  Setting, line, write_settings, IsText, StartsName, IsSetting, AreSettings,
}
use g_max_linked.ConfReader.Scan.{line-IsText}
use g_max_linked.ConfReader.Lookup.{LeavesAt}

module _ (section key : List ℕ) where
  -- From `at` on, with any fuel that covers what is left, the lookup gives `r`.
  abbrev pub Reads : Bool → List ℕ → Parsed → Type 0
  Reads fresh at r = (fuel : ℕ) → length at < fuel → parse_file fuel section key fresh at ≡ some r

  pub Reads-skip :
      (fresh : Bool) (c : ℕ) (cs : List ℕ) (r : Parsed)
      → (c == 0) ≡ false
      → (fresh && c == b'[') ≡ false
      → Reads (is_newline c) cs r
      → Reads fresh (c ∷ cs) r
  unfolding parse_file
  Reads-skip fresh c cs r z n h zero l = absurd (omega arith)
  Reads-skip fresh c cs r z n h (suc fuel) l = rw (z, n, parse_file) (h fuel (omega arith))

  Reads-text :
      (text rest : List ℕ) (r : Parsed)
      → IsText text
      → Reads true rest r
      → Reads false (text ++ b'\n' ∷ rest) r
  Reads-text [] rest r t h = Reads-skip false b'\n' rest r refl refl h
  Reads-text (c ∷ cs) rest r t h =
      Reads-skip false c (cs ++ b'\n' ∷ rest) r (ground (arith, t.0)) refl (
        let e : is_newline c ≡ false = ground (arith, t.0) in
        subst (λ b. Reads b (cs ++ b'\n' ∷ rest) r) (sym e) (Reads-text cs rest r t.2 h))

  Reads-line :
      (s : Setting) (rest : List ℕ) (r : Parsed)
      → IsSetting s
      → Reads true rest r
      → Reads true (line s ++ b'\n' ∷ rest) r
  Reads-line s rest r h k = named s.name s.text h.starts (line-IsText s h)
    where
      named :
          (name text : List ℕ)
          → StartsName name
          → IsText (name ++ b'=' ∷ text)
          → Reads true ((name ++ b'=' ∷ text) ++ b'\n' ∷ rest) r
      named [] text n t = absurd n
      named (c ∷ cs) text n t =
          Reads-skip true c ((cs ++ b'=' ∷ text) ++ b'\n' ∷ rest) r (ground (arith, t.0)) n.2 (
            let e : is_newline c ≡ false = ground (arith, t.0) in
            subst (λ b. Reads b ((cs ++ b'=' ∷ text) ++ b'\n' ∷ rest) r) (sym e)
              (Reads-text (cs ++ b'=' ∷ text) rest r t.2 k))

  pub Reads-settings :
      (ss : List Setting) (rest : List ℕ) (r : Parsed)
      → AreSettings ss
      → Reads true rest r
      → Reads true (write_settings ss rest) r
  Reads-settings [] rest r h k = k
  Reads-settings (s ∷ ss) rest r h k =
      Reads-line s (write_settings ss rest) r h.0 (Reads-settings ss rest r h.1 k)

abbrev pub parsed : Option (List ℕ) → Parsed
parsed none = missing
parsed (some v) = value v

abbrev pub StartsPlain : List ℕ → Type 0
StartsPlain [] = ⊥
StartsPlain (c ∷ cs) = is_space c ≡ false

-- What follows a section: there the loop over lines stops, and the lookup goes on to `r`.
pub record Tail (section key rest : List ℕ) (r : Parsed) : Type 0 where
  pub before : ℕ
  pub at : List ℕ
  pub plain : StartsPlain rest
  pub leaves : LeavesAt key rest (before, at)
  pub shorter : length at ≤ length rest
  pub goes_on : Reads section key (is_newline before) at r
  pub skips : Reads section key true rest r

pub write_settings-StartsPlain :
    (ss : List Setting) (rest : List ℕ)
    → AreSettings ss
    → StartsPlain rest
    → StartsPlain (write_settings ss rest)
write_settings-StartsPlain [] rest h k = k
write_settings-StartsPlain (s ∷ ss) rest h k = named s.name s.text h.0.starts
  where
    named :
        (name text : List ℕ)
        → StartsName name
        → StartsPlain ((name ++ b'=' ∷ text) ++ b'\n' ∷ write_settings ss rest)
    named [] text n = absurd n
    named (c ∷ cs) text n = n.0

pub length-write_settings :
    (ss : List Setting) (rest : List ℕ) → length rest ≤ length (write_settings ss rest)
length-write_settings [] rest = omega arith
length-write_settings (s ∷ ss) rest = omega (
  arith,
  length-write_settings ss rest,
  length-append {0} (line s) (b'\n' ∷ write_settings ss rest),
)
