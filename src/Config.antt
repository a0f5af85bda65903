-- ===== src/Config.antt =====
-- `Config` (src/config/Config.cpp, DefaultConfig.h, Size.h): the settings, from the file or by default.
pub mod Bounds
pub mod Ranges
mod Tests
use g_max_linked.Base.{
  ℕ, ◌+◌, ◌*◌, ◌^◌, ◌%◌, Bool, true, false, ◌&&◌, Option, none, some, List, [], ◌∷◌, ltb, ◌==◌,
  if◌then◌else◌, ◌>>=◌, length, u32, u64, add32,
}
use Prim.Native.Char.{code}
use Prim.Native.String.{String}
use g_max_linked.ConfReader.{
  ConfReader, Result, ok, error, first, load, read_string, read_byte, read_short, read_int,
}

-- A text of the source, as its bytes.
abbrev pub codes : String → List ℕ
codes String.[] = []
codes (String.◌∷◌ c s) = code c ∷ codes s

abbrev pub size_name : ℕ
size_name = 33

abbrev pub size_password : ℕ
size_password = 33

abbrev pub size_ip_v4 : ℕ
size_ip_v4 = 16

abbrev pub size_url : ℕ
size_url = 257

abbrev pub size_path : ℕ
size_path = 257

pub record App : Type 0 where
  pub run_as_daemon : ℕ
  pub name : List ℕ
  pub base_build : ℕ
  pub protocol_version : ℕ
  pub listen_ip : List ℕ
  pub listen_port : ℕ
  pub epoll_wait_event_num : ℕ
  pub node_group_num : ℕ
  pub node_group_size : ℕ
  pub total_support_user_num : ℕ
  pub total_thread_num : ℕ
  pub message_max_num_in_queue : ℕ
  pub thread_stack_size : ℕ
  pub heartbeat_interval : ℕ

pub record Msg : Type 0 where
  pub valid_duration : ℕ
  pub valid_number : ℕ

pub record Redis : Type 0 where
  pub host : List ℕ
  pub port : ℕ
  pub timeout : ℕ
  pub auth : List ℕ
  pub db : ℕ

-- What was read, or the default if there was an error or it is 0.
unfoldable pub number_or : ℕ → Option (Result ℕ) → Option ℕ
number_or default none = none
number_or default (some (ok n)) = some (if n == 0 then default else n)
number_or default (some (error e)) = some default

-- What was read, or the default if there was an error or it is empty.
unfoldable pub text_or : List ℕ → Option (Result (List ℕ)) → Option (List ℕ)
text_or default none = none
text_or default (some (ok t)) = some (if first t == 0 then default else t)
text_or default (some (error e)) = some default

unfoldable pub initialize_app : ConfReader → Option App
initialize_app conf =
    let section = codes "app" in
    do
      daemon ← number_or 0 (read_int conf section (codes "run_as_daemon"))
      name ← text_or (codes "gMaxLinked") (read_string conf section (codes "name") size_name)
      build ← number_or 0 (read_int conf section (codes "base_build"))
      version ← number_or 0x0100 (read_short conf section (codes "protocol_version"))
      ip ← text_or (codes "0.0.0.0") (read_string conf section (codes "listen_ip") size_ip_v4)
      port ← number_or 10505 (read_short conf section (codes "listen_port"))
      events ← number_or 16 (read_int conf section (codes "epoll_wait_event_number"))
      groups ← number_or 4 (read_int conf section (codes "node_group_num"))
      size ← number_or 16 (read_int conf section (codes "node_group_size"))
      queue ← number_or (u32 (size * 8)) (read_int conf section (codes "message_max_num_in_queue"))
      stack ← number_or 4096 (read_int conf section (codes "thread_stack_size"))
      heartbeat ← number_or 10 (read_int conf section (codes "heartbeat_interval"))
      some (record {
        run_as_daemon = daemon;
        name = name;
        base_build = build;
        protocol_version = version;
        listen_ip = ip;
        listen_port = port;
        epoll_wait_event_num = events;
        node_group_num = groups;
        node_group_size = size;
        total_support_user_num = u32 (groups * size);
        total_thread_num = add32 groups 4;
        message_max_num_in_queue = queue;
        thread_stack_size = stack;
        heartbeat_interval = heartbeat;
      })

-- `DefaultConfig::Msg::VALID_DURATION`, which is in microseconds already.
abbrev pub default_valid_duration : ℕ
default_valid_duration = 86400000000

-- The product with a `ub8_` wraps at 64 bits, the one with a `ub4_` at 32.
unfoldable pub duration : Option (Result ℕ) → Option ℕ
duration none = none
duration (some (ok n)) =
    some (if n == 0 then u64 (default_valid_duration * 3600000000) else u32 (n * 3600000000))
duration (some (error e)) = some (u64 (default_valid_duration * 3600000000))

unfoldable pub initialize_msg : ConfReader → Option Msg
initialize_msg conf =
    let section = codes "msg" in
    do
      valid_for ← duration (read_int conf section (codes "valid_duration"))
      count ← number_or 8 (read_byte conf section (codes "valid_number"))
      some (record { valid_duration = valid_for; valid_number = count })

-- What was read, 0 too, or the default if there was an error.
unfoldable pub number_or_error : ℕ → Option (Result ℕ) → Option ℕ
number_or_error default none = none
number_or_error default (some (ok n)) = some n
number_or_error default (some (error e)) = some default

unfoldable pub initialize_redis : ConfReader → Option Redis
initialize_redis conf =
    let section = codes "redis" in
    do
      host ← text_or (codes "localhost") (read_string conf section (codes "host") size_url)
      port ← number_or 6379 (read_short conf section (codes "port"))
      timeout ← number_or 1 (read_int conf section (codes "timeout"))
      auth ← text_or (codes "123456") (read_string conf section (codes "auth") size_password)
      db ← number_or_error 0 (read_byte conf section (codes "db"))
      some (record { host = host; port = port; timeout = timeout; auth = auth; db = db })

unfoldable pub conf_file : List ℕ → List ℕ
conf_file name =
    if ltb 0 (length name) && ltb (length name) size_path then name else codes "gMaxLinked.conf"

-- `initialize`, where `files` are the files there are; without the one that is asked for, the
-- program ends.
unfoldable pub initialize :
    (List ℕ → Option (List ℕ)) → List ℕ → List ℕ → Option (App × Msg × Redis)
initialize files memory name = do
  file ← files (conf_file name)
  conf ← load memory file
  app ← initialize_app conf
  msg ← initialize_msg conf
  redis ← initialize_redis conf
  some (app, msg, redis)
