-- ===== src/Config/Ranges.antt =====
-- The ranges of the settings of the program.
use g_max_linked.Base.{
  ℕ, ◌*◌, ◌^◌, ◌<◌, ◌≤◌, ◌≡◌, ◌⊎◌, Option, none, some, List, length, u32, arith,
}
use g_max_linked.ConfReader.{ConfReader, read_string, read_short, read_int}
use g_max_linked.Config.{
  App, Msg, text_or, number_or, initialize_app, initialize_msg, codes, size_name, size_ip_v4,
}
use g_max_linked.Config.Bounds.{
  Holds, Fits, read_byte-Fits, read_short-Fits, read_int-Fits, read_string-StoresIn,
  text_or-shorter, duration-cases,
}

-- The settings of the program: what its texts fit in, and the numbers that sizes are taken from.
pub record AppFits (a : App) : Type 0 where
  pub name : length a.name < size_name
  pub listen_ip : length a.listen_ip < size_ip_v4
  pub listen_port : (0 < a.listen_port) × (a.listen_port < 2 ^ 16)
  pub epoll_wait_event_num : (0 < a.epoll_wait_event_num) × (a.epoll_wait_event_num < 2 ^ 32)
  pub node_group_num : (0 < a.node_group_num) × (a.node_group_num < 2 ^ 32)
  pub node_group_size : (0 < a.node_group_size) × (a.node_group_size < 2 ^ 32)
  pub total_support_user_num : a.total_support_user_num ≤ a.node_group_num * a.node_group_size
  pub thread_stack_size : (0 < a.thread_stack_size) × (a.thread_stack_size < 2 ^ 32)
  pub heartbeat_interval : (0 < a.heartbeat_interval) × (a.heartbeat_interval < 2 ^ 32)

Holds-any : {A : Type 0} (o : Option A) → Holds (λ (a : A). Unit {0}) o
Holds-any none = tt
Holds-any (some a) = tt

-- In the range of its type and not 0.
abbrev Positive : ℕ → ℕ → Type 0
Positive size n = (0 < n) × (n < size)

Fits-Positive :
    (size default : ℕ) (o : Option ℕ)
    → 0 < default
    → Holds (Fits size default) o
    → Holds (Positive size) o
Fits-Positive size default none h k = tt
Fits-Positive size default (some n) h k = ground arith

module _ (conf : ConfReader) (section key : List ℕ) where
  text-shorter :
      (size : ℕ) (default : List ℕ)
      → length default < size
      → Holds
          (λ (t : List ℕ). length t < size)
          (text_or default (read_string conf section key size))
  text-shorter size default h =
      text_or-shorter size default (read_string conf section key size) h
        (read_string-StoresIn conf section key size)

  int-Positive :
      (default : ℕ)
      → Positive (2 ^ 32) default
      → Holds (Positive (2 ^ 32)) (number_or default (read_int conf section key))
  int-Positive default h =
      Fits-Positive (2 ^ 32) default (number_or default (read_int conf section key)) h.0
        (read_int-Fits default conf section key h.1)

  short-Positive :
      (default : ℕ)
      → Positive (2 ^ 16) default
      → Holds (Positive (2 ^ 16)) (number_or default (read_short conf section key))
  short-Positive default h =
      Fits-Positive (2 ^ 16) default (number_or default (read_short conf section key)) h.0
        (read_short-Fits default conf section key h.1)

mod_le : (n : ℕ) → u32 n ≤ n
mod_le n = omega arith

-- Whatever the configuration file says, when the settings of the program have been read the name and
-- the address fit their places; the port, the number of events, the number of groups, their size, the
-- stack size and the heartbeat's interval are in the range of their types and not 0; and the number
-- of users is at most the product of the number of groups and their size.
pub initialize_app-AppFits : (conf : ConfReader) → Holds AppFits (initialize_app conf)
unfolding initialize_app
initialize_app-AppFits conf = ground (
  arith,
  text-shorter conf (codes "app") (codes "name") size_name (codes "gMaxLinked") (omega arith),
  text-shorter conf (codes "app") (codes "listen_ip") size_ip_v4 (codes "0.0.0.0") (omega arith),
  short-Positive conf (codes "app") (codes "listen_port") 10505 (omega arith),
  int-Positive conf (codes "app") (codes "epoll_wait_event_number") 16 (omega arith),
  int-Positive conf (codes "app") (codes "node_group_num") 4 (omega arith),
  int-Positive conf (codes "app") (codes "node_group_size") 16 (omega arith),
  int-Positive conf (codes "app") (codes "thread_stack_size") 4096 (omega arith),
  int-Positive conf (codes "app") (codes "heartbeat_interval") 10 (omega arith),
)

-- Whatever the configuration file says, the time for which messages are kept is read as one of two: the
-- default, whose product with the microseconds of an hour has overflowed 64 bits to more than five
-- hundred thousand years, or less than 2^32 microseconds, which is less than 72 minutes; and the
-- number of messages that are kept is from 1 to 255.
pub initialize_msg-bounds :
    (conf : ConfReader)
    → Holds
        (λ (m : Msg).
          ((m.valid_duration ≡ 15892094820647174144) ⊎ (m.valid_duration < 2 ^ 32))
          × (0 < m.valid_number)
          × (m.valid_number < 2 ^ 8))
        (initialize_msg conf)
unfolding initialize_msg
initialize_msg-bounds conf = ground (
  arith,
  duration-cases (read_int conf (codes "msg") (codes "valid_duration")),
  read_byte-Fits 8 conf (codes "msg") (codes "valid_number") (omega arith),
)
