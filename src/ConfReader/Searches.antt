-- ===== src/ConfReader/Searches.antt =====
-- What the search for a setting finds in written sections.
use g_max_linked.Base.{
  ℕ, zero, suc, ◌≡◌, refl, sym, subst, Bool, true, false, inl, inr, List, [], ◌∷◌, ◌++◌,
  if◌then◌else◌, arith, Bool-cases,
}
use g_max_linked.ConfReader.{
  missing, starts_with, end_of_file, read_lines, advance, take_line, match_line, split_equals,
  parse_file,
}
use g_max_linked.ConfReader.Written.{
  Section, write_settings, write_sections, settings_of, value_of, IsTitle, AreSettings, AreSections,
}
use g_max_linked.ConfReader.Lookup.{or_else, value_of-append, LeavesAt}
use g_max_linked.ConfReader.Back.{Reads, Reads-skip, parsed, Tail}
use g_max_linked.ConfReader.Sections.{Reads-section}

pub section-LeavesAt : (key cs : List ℕ) → LeavesAt key (b'[' ∷ cs) (b'\n', b'[' ∷ cs)
unfolding read_lines
section-LeavesAt key cs zero l = absurd (omega arith)
section-LeavesAt key cs (suc fuel) l = refl

-- The byte for the end of the file is a line of its own, with the first 0 behind it.
pub end-LeavesAt : (key more : List ℕ) → LeavesAt key (end_of_file ∷ 0 ∷ 0 ∷ more) (0, 0 ∷ more)
unfolding read_lines take_line match_line split_equals advance
end-LeavesAt key more zero l = absurd (omega arith)
end-LeavesAt key more (suc zero) l = absurd (omega arith)
end-LeavesAt key more (suc (suc fuel)) l = refl

module _ (section key : List ℕ) where
  pub zero-Reads : (fresh : Bool) (cs : List ℕ) → Reads section key fresh (0 ∷ cs) missing
  unfolding parse_file
  zero-Reads fresh cs zero l = absurd (omega arith)
  zero-Reads fresh cs (suc fuel) l = refl

  pub value_of-sections :
      (x : Section) (xs : List Section)
      → (if starts_with section x.title
          then or_else (value_of key x.settings) (value_of key (settings_of section xs))
          else value_of key (settings_of section xs))
        ≡ value_of key (settings_of section (x ∷ xs))
  unfolding settings_of
  value_of-sections x xs = elim (Bool-cases (starts_with section x.title)) [
    | inl e ↦ rw e (sym (value_of-append key x.settings (settings_of section xs)))
    | inr e ↦ rw e refl
  ]

  pub section_Tail :
      (x : Section) (xs : List Section) (rest : List ℕ)
      → IsTitle x.title
      → AreSettings x.settings
      → Tail section key rest (parsed (value_of key (settings_of section xs)))
      → Tail section key
          (b'[' ∷ (x.title ++ b']' ∷ b'\n' ∷ write_settings x.settings rest))
          (parsed (value_of key (settings_of section (x ∷ xs))))
  section_Tail x xs rest h k t = record {
    before = b'\n';
    at = text;
    plain = refl;
    leaves = section-LeavesAt key (x.title ++ b']' ∷ b'\n' ∷ write_settings x.settings rest);
    shorter = omega arith;
    goes_on = reads;
    skips = reads;
  }
    where
      text : List ℕ
      text = b'[' ∷ (x.title ++ b']' ∷ b'\n' ∷ write_settings x.settings rest)

      reads : Reads section key true text (parsed (value_of key (settings_of section (x ∷ xs))))
      reads =
          subst (λ o. Reads section key true text (parsed o)) (value_of-sections x xs)
            (Reads-section section key x rest (value_of key (settings_of section xs)) h k t)

  pub sections-Tail :
      (xs : List Section) (more : List ℕ)
      → AreSections xs
      → Tail section key
          (write_sections xs (end_of_file ∷ 0 ∷ 0 ∷ more))
          (parsed (value_of key (settings_of section xs)))
  unfolding settings_of value_of
  sections-Tail [] more h = record {
    before = 0;
    at = 0 ∷ more;
    plain = refl;
    leaves = end-LeavesAt key more;
    shorter = omega arith;
    goes_on = zero-Reads false more;
    skips =
        Reads-skip section key true end_of_file (0 ∷ 0 ∷ more) missing refl refl
          (zero-Reads false (0 ∷ more));
  }
  sections-Tail (x ∷ xs) more h =
      section_Tail x xs (write_sections xs (end_of_file ∷ 0 ∷ 0 ∷ more)) h.0 h.1
        (sections-Tail xs more h.2)
