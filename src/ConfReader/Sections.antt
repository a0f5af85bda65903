-- ===== src/ConfReader/Sections.antt =====
-- A written configuration file read back: what a lookup gives.
use g_max_linked.Base.{
  ℕ, zero, suc, ◌<◌, ◌≡◌, refl, Bool, true, false, inl, inr, Option, none, some, List, [], ◌∷◌,
  ◌++◌, if◌then◌else◌, ◌>>=◌, ◌∙◌, length, length-append, arith, Bool-cases,
}
use g_max_linked.ConfReader.{
  Lines, Parsed, is_newline, starts_with, last_or, find_close, advance, read_lines, after_lines,
  enter_section, parse_file,
}
use g_max_linked.ConfReader.Written.{Section, write_settings, value_of, IsTitle, AreSettings}
use g_max_linked.ConfReader.Scan.{find_close-title, skip_space-newline}
use g_max_linked.ConfReader.Lookup.{or_else, lines_of, read_lines-settings}
use g_max_linked.ConfReader.Back.{
  Reads, Reads-skip, Reads-settings, parsed, StartsPlain, Tail, write_settings-StartsPlain,
  length-write_settings,
}

module _ (section key : List ℕ) where
  parse_file-title :
      (fuel : ℕ) (cs : List ℕ)
      → parse_file (suc fuel) section key true (b'[' ∷ cs) ≡ (
          find_close cs >>= λ r.
          enter_section fuel (parse_file fuel section key) section key r.0 r.1)
  unfolding parse_file
  parse_file-title fuel cs = refl

  enter_section-skipped :
      (fuel : ℕ) (title body : List ℕ) (r : Parsed)
      → starts_with section title ≡ false
      → Reads section key true body r
      → suc (suc (length body)) < fuel
      → enter_section fuel (parse_file fuel section key) section key title (b']' ∷ b'\n' ∷ body)
        ≡ some r
  unfolding enter_section
  enter_section-skipped fuel title body r e h l = rw e (
      Reads-skip section key fresh b']' (b'\n' ∷ body) r refl (ground arith)
        (Reads-skip section key false b'\n' body r refl refl h) fuel l)
    where
      fresh : Bool
      fresh = is_newline (last_or b'[' title)

  enter_section-entered :
      (fuel : ℕ) (title body : List ℕ) (lines : Lines)
      → starts_with section title ≡ true
      → StartsPlain body
      → read_lines fuel key (b'\n', body) ≡ some lines
      → enter_section fuel (parse_file fuel section key) section key title (b']' ∷ b'\n' ∷ body)
        ≡ after_lines (parse_file fuel section key) lines
  unfolding enter_section advance
  enter_section-entered fuel title [] lines e p h = absurd p
  enter_section-entered fuel title (c ∷ cs) lines e p h = rw (e, skip_space-newline c cs p, h)

  after_lines-lines_of :
      (fuel : ℕ) (rest : List ℕ) (v o : Option (List ℕ)) (t : Tail section key rest (parsed o))
      → length rest < fuel
      → after_lines (parse_file fuel section key) (lines_of v (t.before, t.at))
        ≡ some (parsed (or_else v o))
  unfolding after_lines
  after_lines-lines_of fuel rest none o t l = t.goes_on fuel (omega (arith, t.shorter))
  after_lines-lines_of fuel rest (some v) o t l = refl

  pub Reads-section :
      (x : Section) (rest : List ℕ) (o : Option (List ℕ))
      → IsTitle x.title
      → AreSettings x.settings
      → Tail section key rest (parsed o)
      → Reads section key true
          (b'[' ∷ (x.title ++ b']' ∷ b'\n' ∷ write_settings x.settings rest))
          (parsed (if starts_with section x.title then or_else (value_of key x.settings) o else o))
  unfolding parse_file
  Reads-section x rest o h k t zero l = absurd (omega arith)
  Reads-section x rest o h k t (suc fuel) l =
      rw
        (
          parse_file-title fuel (x.title ++ b']' ∷ b'\n' ∷ body),
          find_close-title x.title (b'\n' ∷ body) h,
        )
        (elim (Bool-cases (starts_with section x.title)) [
          | inl e ↦ rw e (
              enter_section-entered fuel x.title body
                (lines_of (value_of key x.settings) (t.before, t.at)) e
                (write_settings-StartsPlain x.settings rest k t.plain)
                (read_lines-settings key x.settings rest (t.before, t.at) k t.leaves fuel
                  (omega (arith, size)))
              ∙ after_lines-lines_of fuel rest (value_of key x.settings) o t
                  (omega (arith, size, length-write_settings x.settings rest)))
          | inr e ↦ rw e (
              enter_section-skipped fuel x.title body (parsed o) e
                (Reads-settings section key x.settings rest (parsed o) k t.skips)
                (omega (arith, size)))
        ])
    where
      body : List ℕ
      body = write_settings x.settings rest

      size : suc (suc (length body)) < fuel
      size = omega (arith, length-append {0} x.title (b']' ∷ b'\n' ∷ body))
