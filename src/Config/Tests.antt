-- ===== src/Config/Tests.antt =====
-- Runs of the configuration, and the claims about it at concrete files.
use g_max_linked.Base.{◌^◌, ◌<◌, ◌≡◌, ◌⊎◌, refl, some, [], ◌∷◌, ◌++◌}
use g_max_linked.ConfReader.{
  ConfReader, read_string, read_int, read_byte, number, strtol, digits, starts_with, find_close,
  take_line, split_equals, match_line, advance, skip_space, read_lines, after_lines, enter_section,
  parse_file,
}
use g_max_linked.Config.{Msg, codes, initialize_msg, number_or, duration}
use g_max_linked.Config.Bounds.{Holds}
use g_max_linked.Config.Ranges.{initialize_msg-bounds}

abbrev conf : ConfReader
conf = record {
  buffer = codes "[msg]\nvalid_duration=24\nvalid_number=0\n" ++ 255 ∷ 0 ∷ 0 ∷ [];
  buffer_size = 39;
}

-- A day is taken for 500654080 microseconds, the default of 0 for a number for 8.
duration_test : initialize_msg conf ≡ some (record { valid_duration = 500654080; valid_number = 8 })
unfolding initialize_msg read_int read_byte duration number_or number strtol digits read_string
    parse_file starts_with find_close take_line split_equals match_line advance skip_space
    read_lines after_lines enter_section
duration_test = refl

initialize_msg-bounds_example :
    Holds
      (λ (m : Msg).
        ((m.valid_duration ≡ 15892094820647174144) ⊎ (m.valid_duration < 2 ^ 32))
        × (0 < m.valid_number)
        × (m.valid_number < 2 ^ 8))
      (initialize_msg conf)
initialize_msg-bounds_example = initialize_msg-bounds conf
