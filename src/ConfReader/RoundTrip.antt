-- ===== src/ConfReader/RoundTrip.antt =====
-- A written configuration file is loaded and read back: what `readString` gives.
use g_max_linked.Base.{
  ℕ, ◌+◌, ◌-◌, ◌<◌, ◌≡◌, ◌≢◌, refl, ap, true, false, Option, none, some, List, [], ◌∷◌, ◌++◌,
  append_assoc, ◌==◌, ◌>>=◌, ◌∙◌, length, take, drop, min, lt→not_leb, ne→not_==, arith,
}
use g_max_linked.ConfReader.{
  ConfReader, Result, ok, error, end_of_file, until_end, load, max_config_file_size, read_string,
  cut,
}
use g_max_linked.ConfReader.Written.{
  Setting, Section, line, write_settings, write_sections, settings_of, value_of, IsText, IsTitle,
  AreSettings, AreSections,
}
use g_max_linked.ConfReader.Scan.{line-IsText}
use g_max_linked.ConfReader.Back.{Reads, parsed}
use g_max_linked.ConfReader.Searches.{sections-Tail}

-- Bytes that a file may hold: all but the one for its end.
abbrev HasNoEnd : List ℕ → Type 0
HasNoEnd [] = Unit
HasNoEnd (c ∷ cs) = ((c == end_of_file) ≡ false) × HasNoEnd cs

until_end-whole : (cs : List ℕ) → HasNoEnd cs → until_end cs ≡ cs
unfolding until_end
until_end-whole [] h = refl
until_end-whole (c ∷ cs) h = rw (h.0, until_end-whole cs h.1)

HasNoEnd-append : (a b : List ℕ) → HasNoEnd a → HasNoEnd b → HasNoEnd (a ++ b)
HasNoEnd-append [] b h k = k
HasNoEnd-append (c ∷ cs) b h k = (h.0, HasNoEnd-append cs b h.1 k)

text-HasNoEnd : (t : List ℕ) → IsText t → HasNoEnd t
text-HasNoEnd [] h = tt
text-HasNoEnd (c ∷ cs) h = (h.1, text-HasNoEnd cs h.2)

title-HasNoEnd : (t : List ℕ) → IsTitle t → HasNoEnd t
title-HasNoEnd [] h = tt
title-HasNoEnd (c ∷ cs) h = (h.1, title-HasNoEnd cs h.2)

settings-HasNoEnd :
    (ss : List Setting) (rest : List ℕ)
    → AreSettings ss
    → HasNoEnd rest
    → HasNoEnd (write_settings ss rest)
settings-HasNoEnd [] rest h k = k
settings-HasNoEnd (s ∷ ss) rest h k =
    HasNoEnd-append (line s) (b'\n' ∷ write_settings ss rest)
      (text-HasNoEnd (line s) (line-IsText s h.0)) (refl, settings-HasNoEnd ss rest h.1 k)

sections-HasNoEnd : (xs : List Section) → AreSections xs → HasNoEnd (write_sections xs [])
sections-HasNoEnd [] h = tt
sections-HasNoEnd (x ∷ xs) h = (
  refl,
  HasNoEnd-append x.title (b']' ∷ b'\n' ∷ write_settings x.settings (write_sections xs []))
      (title-HasNoEnd x.title h.0)
      (
        refl,
        (refl, settings-HasNoEnd x.settings (write_sections xs []) h.1 (sections-HasNoEnd xs h.2)),
      ),
)

write_settings-rest :
    (ss : List Setting) (a b : List ℕ) → write_settings ss a ++ b ≡ write_settings ss (a ++ b)
write_settings-rest [] a b = refl
write_settings-rest (s ∷ ss) a b =
    append_assoc (line s) (b'\n' ∷ write_settings ss a) b
    ∙ ap (λ r. line s ++ b'\n' ∷ r) (write_settings-rest ss a b)

write_sections-rest :
    (xs : List Section) (b : List ℕ) → write_sections xs [] ++ b ≡ write_sections xs b
write_sections-rest [] b = refl
write_sections-rest (x ∷ xs) b = ap (◌∷◌ b'[') (
    append_assoc x.title (b']' ∷ b'\n' ∷ write_settings x.settings (write_sections xs [])) b
    ∙ ap (λ r. x.title ++ b']' ∷ b'\n' ∷ r)
        (write_settings-rest x.settings (write_sections xs []) b
          ∙ ap (write_settings x.settings) (write_sections-rest xs b)))

abbrev answer : ℕ → Option (List ℕ) → Result (List ℕ)
answer size none = error 3
answer size (some v) = ok (take (min (size - 1) (length v)) v)

cut-parsed : (size : ℕ) (o : Option (List ℕ)) → cut size (some (parsed o)) ≡ some (answer size o)
cut-parsed size none = refl
cut-parsed size (some v) = refl

read_string-Reads :
    (conf : ConfReader) (section key : List ℕ) (size : ℕ) (o : Option (List ℕ))
    → conf.buffer_size ≢ 0
    → length section ≢ 0
    → length key ≢ 0
    → size ≢ 0
    → Reads section key true conf.buffer (parsed o)
    → read_string conf section key size ≡ some (answer size o)
unfolding read_string
read_string-Reads conf section key size o n s k z h =
    rw
      (
        ne→not_== conf.buffer_size 0 n,
        ne→not_== (length section) 0 s,
        ne→not_== (length key) 0 k,
        ne→not_== size 0 z,
        h (length conf.buffer + 1) (omega arith),
      )
      (cut-parsed size o)

load-sections :
    (xs : List Section) (memory more : List ℕ)
    → AreSections xs
    → length (write_sections xs []) < max_config_file_size
    → drop (length (write_sections xs []) + 1) memory ≡ 0 ∷ 0 ∷ more
    → load memory (write_sections xs [])
      ≡ some (record {
        buffer = write_sections xs (end_of_file ∷ 0 ∷ 0 ∷ more);
        buffer_size = length (write_sections xs []);
      })
unfolding load
load-sections xs memory more h l m =
    rw
      (
        until_end-whole (write_sections xs []) (sections-HasNoEnd xs h),
        lt→not_leb max_config_file_size (length (write_sections xs [])) l,
        m,
        write_sections-rest xs (end_of_file ∷ 0 ∷ 0 ∷ more),
      )
      refl

-- A file of sections, their titles and the names and texts of their settings written so that none
-- of them looks like the syntax around it, is loaded, as long as it has at least one section, is
-- shorter than the buffer, and two bytes 0 follow the byte for the file's end in the buffer.
-- `readString` then gives, cut to the place for it, the text of the first setting of the file whose
-- name is the start of the key and whose section's title is the start of the section asked for, and
-- error 3 if there is none.
pub read_string-load :
    (x : Section) (xs : List Section) (memory more section key : List ℕ) (size : ℕ)
    → AreSections (x ∷ xs)
    → length (write_sections (x ∷ xs) []) < max_config_file_size
    → drop (length (write_sections (x ∷ xs) []) + 1) memory ≡ 0 ∷ 0 ∷ more
    → length section ≢ 0
    → length key ≢ 0
    → size ≢ 0
    → (load memory (write_sections (x ∷ xs) []) >>= λ conf. read_string conf section key size)
      ≡ some (answer size (value_of key (settings_of section (x ∷ xs))))
read_string-load x xs memory more section key size h l m s k z =
    rw (load-sections (x ∷ xs) memory more h l m) (
      read_string-Reads
        (record {
          buffer = write_sections (x ∷ xs) (end_of_file ∷ 0 ∷ 0 ∷ more);
          buffer_size = length (write_sections (x ∷ xs) []);
        })
        section key size (value_of key (settings_of section (x ∷ xs))) (λ e. omega arith) s k z
        (sections-Tail section key (x ∷ xs) more h).skips)
