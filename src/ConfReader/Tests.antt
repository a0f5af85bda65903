-- ===== src/ConfReader/Tests.antt =====
-- Runs of the reader, and the claims about it at concrete files.
use g_max_linked.Base.{ℕ, ◌≡◌, ◌≢◌, refl, true, some, List, [], ◌∷◌, ◌++◌, ◌>>=◌, arith}
use g_max_linked.Config.{codes}
use g_max_linked.ConfReader.{
  ok, out_of_fuel, until_end, load, starts_with, find_close, take_line, split_equals, match_line,
  advance, skip_space, read_lines, after_lines, enter_section, parse_file, read_string, strtol,
  digits, number, read_short,
}
use g_max_linked.ConfReader.Written.{
  Section, write_sections, settings_of, value_of, AreSections, IsSetting,
}
use g_max_linked.ConfReader.Total.{parse_file-total}
use g_max_linked.ConfReader.RoundTrip.{read_string-load}

abbrev x : Section
x = record {
  title = codes "msg";
  settings =
      record { name = codes "valid_number"; text = codes "9" }
      ∷ record { name = codes "valid_duration"; text = codes "-12h" }
      ∷ [];
}

abbrev xs : List Section
xs =
    record {
      title = codes "redis";
      settings = record { name = codes "port"; text = codes " 6380" } ∷ [];
    }
    ∷ []

abbrev memory : List ℕ
memory = write_sections (x ∷ xs) [] ++ 7 ∷ 0 ∷ 0 ∷ 7 ∷ []

sections-AreSections : AreSections (x ∷ xs)
sections-AreSections = (ground arith, (valid, (valid', tt)), (ground arith, (port, tt), tt))
  where
    valid : IsSetting (record { name = codes "valid_number"; text = codes "9" })
    valid = record {
      is_name = ground arith;
      no_equals = ground arith;
      starts = ground arith;
      is_text = ground arith;
    }

    valid' : IsSetting (record { name = codes "valid_duration"; text = codes "-12h" })
    valid' = record {
      is_name = ground arith;
      no_equals = ground arith;
      starts = ground arith;
      is_text = ground arith;
    }

    port : IsSetting (record { name = codes "port"; text = codes " 6380" })
    port = record {
      is_name = ground arith;
      no_equals = ground arith;
      starts = ground arith;
      is_text = ground arith;
    }

read_string-load_example :
    (load memory (write_sections (x ∷ xs) []) >>= λ conf.
    read_string conf (codes "redis") (codes "port") 32)
    ≡ some (ok (codes " 6380"))
unfolding value_of settings_of starts_with
read_string-load_example =
    read_string-load x xs memory (7 ∷ []) (codes "redis") (codes "port") 32 sections-AreSections
      (omega arith) refl (λ e. omega arith) (λ e. omega arith) (λ e. omega arith)

-- A section or a key is found by its start: `msg` is one of `msgs`.
prefix_test :
    (load memory (write_sections (x ∷ xs) []) >>= λ conf.
    read_string conf (codes "msgs") (codes "valid_numbers") 32)
    ≡ some (ok (codes "9"))
unfolding load read_string parse_file until_end starts_with find_close take_line split_equals
    match_line advance skip_space read_lines after_lines enter_section
prefix_test = refl

short_test :
    (load memory (write_sections (x ∷ xs) []) >>= λ conf.
    read_short conf (codes "redis") (codes "port"))
    ≡ some (ok 6380)
unfolding load read_short number strtol digits read_string parse_file until_end starts_with
    find_close take_line split_equals match_line advance skip_space read_lines after_lines
    enter_section
short_test = refl

minus_test : strtol (codes "\t-12h") ≡ 18446744073709551604
unfolding strtol digits
minus_test = refl

parse_file-total_example :
    parse_file 5 (codes "a") (codes "b") true (b'[' ∷ b'a' ∷ b']' ∷ 0 ∷ []) ≢ some out_of_fuel
parse_file-total_example =
    parse_file-total 5 (codes "a") (codes "b") true (b'[' ∷ b'a' ∷ b']' ∷ 0 ∷ []) (omega arith)
