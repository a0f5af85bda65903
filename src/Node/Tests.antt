-- ===== src/Node/Tests.antt =====
-- A node that receives a message in pieces, one that is promised too much, and one that sends.
use g_max_linked.Base.{
  ℕ, zero, suc, ◌≤◌, ◌<◌, ◌≡◌, refl, true, sym, ap, inl, false, none, some, List, [], ◌∷◌, ◌++◌,
  ◌>>=◌, arith, length, take, drop, min, take-append-drop, length-take,
}
use g_max_linked.Base.Bytes.{splice}
use g_max_linked.Message.{encode, size_of, set_ext, msg_max_length}
use g_max_linked.LoopBuffer.{LoopBuffer}
use g_max_linked.Socket.{consumed, ReadResult, data_read, again, Reader}
use g_max_linked.Socket.Samples.{sips}
use g_max_linked.Node.{Node, Round, goes_on, wanted, on_read, recv, Sending, send}
use g_max_linked.Node.Packets.{IsPacket}
use g_max_linked.Transaction.Act.{over_status, connected, Transaction, Answers, Settings}
use g_max_linked.Transaction.Reach.{create}
use g_max_linked.Transaction.Lifecycle.{IsValid}
use g_max_linked.Node.Attach.{on_attach, on_detach, recycle_lem}
use g_max_linked.Node.Ready.{Ready}
use g_max_linked.Node.Recv.{Listed, Received, recv_lem}
use g_max_linked.Node.Send.{Known, Sent, send_lem}
use g_max_linked.Node.Overrun.{overrun_lem}

-- A peer whose bytes come at most ten at a time.
abbrev next_read : List ℕ → ℕ → ReadResult × List ℕ
next_read [] n = (again, [])
next_read (x ∷ s) zero = (again, x ∷ s)
next_read (x ∷ s) (suc n) = (data_read (x ∷ take (min n 9) s), drop (min n 9) s)

next_read-in_order : (s : List ℕ) (n : ℕ) → s ≡ consumed (next_read s n).0 ++ (next_read s n).1
next_read-in_order [] n = refl
next_read-in_order (x ∷ s) zero = refl
next_read-in_order (x ∷ s) (suc n) = ap (◌∷◌ x) (sym (take-append-drop (min n 9) s))

next_read-bounded :
    (s : List ℕ) (n : ℕ) (bytes : List ℕ)
    → (next_read s n).0 ≡ data_read bytes
    → (0 < length bytes) × (length bytes ≤ n)
next_read-bounded [] n bytes e = ground arith
next_read-bounded (x ∷ s) zero bytes e = ground arith
next_read-bounded (x ∷ s) (suc n) bytes e = ground (arith, length-take (min n 9) s)

abbrev drips : Reader
drips = record {
  State = List ℕ;
  read = next_read;
  pending = λ s. s;
  read_in_order = next_read-in_order;
  read_bounded = next_read-bounded;
}

drips-Listed : Listed drips
drips-Listed [] n e h = ground arith
drips-Listed (x ∷ s) zero e h = ground arith
drips-Listed (x ∷ s) (suc n) e h = ground arith

abbrev heart_beat : List ℕ
heart_beat =
    encode
      (record { size = 29; type = 0x11; cmd = 2; ver = 1; lang = 1; seq = 0; stmp = 0; ext = 0 })

-- The header of a message that claims 600 bytes.
abbrev oversized : List ℕ
oversized =
    encode (record { size = 600; type = 2; cmd = 1; ver = 1; lang = 1; seq = 0; stmp = 0; ext = 0 })

abbrev zeros : ℕ → List ℕ
zeros zero = []
zeros (suc n) = 0 ∷ zeros n

length-zeros : (n : ℕ) → length (zeros n) ≡ n
length-zeros zero = refl
length-zeros (suc n) = ap suc (length-zeros n)

abbrev node : Node
node = record {
  ip = [];
  port = 0;
  fd = 5;
  transaction = 4096;
  group = 64;
  recv_offset = 0;
  recv_due_size = 0;
  recv_buffer = zeros msg_max_length;
}

abbrev queue : LoopBuffer
queue = record {
  buffer = zeros 64;
  total_size = 64;
  actual_size = 64;
  used_size = 0;
  free_size = 64;
  is_padding = false;
  padding = 0;
  write_pos = 0;
  read_pos = 0;
}

heart_beat-IsPacket : IsPacket heart_beat
unfolding encode size_of
heart_beat-IsPacket = record { sized = refl; headed = omega arith; shorter = omega arith }

-- A whole message on its way, and half of another that will follow.
node-Ready :
    Ready node queue
      (heart_beat ++ take 12 heart_beat)
      (heart_beat ∷ heart_beat ∷ [])
      (drop 12 heart_beat)
unfolding encode
node-Ready = record {
  sized = length-zeros msg_max_length;
  phase = inl (record { no_size = refl; short = omega arith });
  valid = ground (arith, length-zeros 64);
  packets = (heart_beat-IsPacket, (heart_beat-IsPacket, tt));
  stream = refl;
}

on_their_way : length (heart_beat ++ take 12 heart_beat) < 50
unfolding encode
on_their_way = omega arith

recv_lem_example :
    (r : Round (List ℕ)) × (recv drips 50 node queue (heart_beat ++ take 12 heart_beat) ≡ some r)
    × Received drips 4096 queue (heart_beat ∷ heart_beat ∷ []) (drop 12 heart_beat) r
recv_lem_example =
    recv_lem drips drips-Listed 50 node queue (heart_beat ++ take 12 heart_beat)
      (heart_beat ∷ heart_beat ∷ []) (drop 12 heart_beat) node-Ready on_their_way

overrun_lem_example :
    (m : Node) × (on_read {S = ℕ} node queue (data_read oversized) 0 ≡ some (goes_on m queue 0))
    × (wanted m ≡ 571)
    × (on_read {S = ℕ} m queue (data_read (zeros 571)) 0 ≡ none)
unfolding encode size_of splice
overrun_lem_example =
    overrun_lem {S = ℕ} node queue 0 oversized (zeros 571) (length-zeros msg_max_length) refl refl
      (omega arith) (omega arith) (omega (arith, length-zeros 571))

sips-Known : Known sips
sips-Known (out, zero) [] e h = ground arith
sips-Known (out, zero) (x ∷ bytes) e h = ground arith
sips-Known (out, suc k) bytes e h = ground arith

send_lem_example :
    (r : Sending (List ℕ × ℕ)) × (send sips 40 heart_beat ([], 2) ≡ some r)
    × Sent sips [] (set_ext heart_beat 0) r
unfolding encode size_of
send_lem_example =
    send_lem sips sips-Known 40 heart_beat ([], 2) refl (omega arith) (omega arith) (omega arith)

abbrev env : Answers
env calls c = 7

abbrev cfg : Settings
cfg = record { heartbeat_interval = 20; protocol_version = 1; base_build = 5 }

abbrev ended : Transaction
ended = record (create 4096) { status = over_status }

ended-IsValid : IsValid ended
unfolding create
ended-IsValid = ground arith

-- The node had got half a message of its last client.
abbrev used_node : Node
used_node = record node { recv_offset = 14 }

recycle_lem_example :
    (t' : Transaction) × (n' : Node) × ((on_detach env cfg used_node ended >>= λ r.
    on_attach env cfg 128 (b'1' ∷ 0 ∷ []) 80 6 r.0 r.1)
      ≡ some (true, n', t'))
    × IsValid t'
    × (t'.status ≡ connected)
    × (t'.keep_live_timer_id ≡ 7)
    × (n'.fd ≡ 6)
    × (n'.group ≡ 128)
    × (n'.transaction ≡ 4096)
    × Ready n' queue
        (heart_beat ++ take 12 heart_beat)
        (heart_beat ∷ heart_beat ∷ [])
        (drop 12 heart_beat)
unfolding encode
recycle_lem_example =
    recycle_lem env cfg 128 (b'1' ∷ 0 ∷ []) 80 6 used_node ended queue
      (heart_beat ++ take 12 heart_beat) (drop 12 heart_beat) (heart_beat ∷ heart_beat ∷ [])
      ended-IsValid refl (length-zeros msg_max_length) node-Ready.valid
      (heart_beat-IsPacket, (heart_beat-IsPacket, tt)) refl
