-- ===== src/Message/Tests.antt =====
-- The layout of one message.
use g_max_linked.Base.{ℕ, List, [], ◌∷◌, arith}
use g_max_linked.Message.{Header}
use g_max_linked.Message.Codec.{Fits}

abbrev push_ack : Header
push_ack = record {
  size = 31;
  type = 0x13;
  cmd = 4;
  ver = 1;
  lang = 1;
  seq = 0xfffffffe;
  stmp = 1500000000000;
  ext = 0;
}

abbrev code : List ℕ
code = 0 ∷ 0 ∷ []

push_ack-Fits : Fits push_ack
push_ack-Fits = ground arith
