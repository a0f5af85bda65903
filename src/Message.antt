-- ===== src/Message.antt =====
-- The messages of src/traffic/Message.h. A message is the packed bytes of its struct; the fields are
-- little-endian, as on the 64-bit x86 that the program is built for.
pub mod Codec
mod Tests
use g_max_linked.Base.{
  ℕ, zero, suc, ◌+◌, ◌*◌, ◌/◌, ◌%◌, ◌^◌, ◌≤◌, ◌<◌, ◌≡◌, List, [], ◌∷◌, ◌++◌, length,
}
use g_max_linked.Base.Bytes.{slice, splice}

abbrev pub msg_max_length : ℕ
msg_max_length = 512

-- `type` values.
abbrev pub mt_control : ℕ
mt_control = 0x0001

abbrev pub mt_account : ℕ
mt_account = 0x0002

abbrev pub mt_service : ℕ
mt_service = 0x0003

abbrev pub mt_sign_ack : ℕ
mt_sign_ack = 0x0010

-- `cmd` values.
abbrev pub mc_hand_shake : ℕ
mc_hand_shake = 0x0001

abbrev pub mc_heart_beat : ℕ
mc_heart_beat = 0x0002

abbrev pub mc_send_msg : ℕ
mc_send_msg = 0x0003

abbrev pub mc_push_msg : ℕ
mc_push_msg = 0x0004

abbrev pub mc_on_timer : ℕ
mc_on_timer = 0x8001

abbrev pub mc_on_over : ℕ
mc_on_over = 0x8002

abbrev pub ml_cn : ℕ
ml_cn = 0x01

-- The `k` bytes of an unsigned number, the low one first, and back.
unfoldable pub to_bytes : ℕ → ℕ → List ℕ
to_bytes zero n = []
to_bytes (suc k) n = n % 256 ∷ to_bytes k (n / 256)

unfoldable pub of_bytes : List ℕ → ℕ
of_bytes [] = 0
of_bytes (b ∷ bs) = b + 256 * of_bytes bs

-- The number in the `n` bytes at `off`.
unfoldable pub field : List ℕ → ℕ → ℕ → ℕ
unfolding of_bytes
field msg off n = of_bytes (slice msg off n)

-- `THeader`.
pub record Header : Type 0 where
  pub size : ℕ
  pub type : ℕ
  pub cmd : ℕ
  pub ver : ℕ
  pub lang : ℕ
  pub seq : ℕ
  pub stmp : ℕ
  pub ext : ℕ

abbrev pub header_size : ℕ
header_size = 29

abbrev pub ext_offset : ℕ
ext_offset = 21

unfoldable pub encode : Header → List ℕ
unfolding to_bytes
encode h =
    to_bytes 2 h.size
    ++ (to_bytes 2 h.type
        ++ (to_bytes 2 h.cmd
            ++ (to_bytes 2 h.ver
                ++ (to_bytes 1 h.lang
                    ++ (to_bytes 4 h.seq ++ (to_bytes 8 h.stmp ++ to_bytes 8 h.ext))))))

-- `(Message::TMsg *)buffer`.
unfoldable pub decode : List ℕ → Header
unfolding field
decode msg = record {
  size = field msg 0 2;
  type = field msg 2 2;
  cmd = field msg 4 2;
  ver = field msg 6 2;
  lang = field msg 8 1;
  seq = field msg 9 4;
  stmp = field msg 13 8;
  ext = field msg 21 8;
}

-- `*(ub2_ *)buffer` and `msg->size`.
unfoldable pub size_of : List ℕ → ℕ
unfolding field
size_of msg = field msg 0 2

-- `msg->ext = ext`.
unfoldable pub set_ext : List ℕ → ℕ → List ℕ
unfolding to_bytes
set_ext msg ext = splice msg ext_offset (to_bytes 8 ext)
