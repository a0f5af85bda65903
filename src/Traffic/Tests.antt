-- ===== src/Traffic/Tests.antt =====
-- A pool of two nodes and three groups.
use g_max_linked.Base.{
  ℕ, ◌<◌, ◌≤◌, zero, suc, List, length, inr, ap, arith, ◌≡◌, refl, if◌then◌else◌, true, false, some,
  [], ◌∷◌,
}
use g_max_linked.Transaction.Act.{connected, over_status}
use g_max_linked.LoopBuffer.{LoopBuffer}
use g_max_linked.LoopBuffer.Invariant as Buffer
use g_max_linked.Socket.{Reader, ReadResult, data_read, closed}
use g_max_linked.Node.{Node, returns}
use g_max_linked.Transaction.Act.{ready, cannot_recv_data, Transaction, Answers, Settings}
use g_max_linked.Transaction.Reach.{create}
use g_max_linked.NodeGroup.Dispatch.{Group, rolling_queue}
use g_max_linked.Traffic.Events.{Flags, on_event}
use g_max_linked.Traffic.Over.{Gone}
use g_max_linked.Traffic.Broken.{is_closed, broken_lem}
use g_max_linked.Resource.{create as create_units, is_unit, allocate, reclaim}
use g_max_linked.Transaction.Act.{free}
use g_max_linked.Transaction.Handlers.{is_free}
use g_max_linked.Traffic.{
  Traffic, Client, set_node, recycle_node, allocate_group, add_node, add_nodes, del_node, del_nodes,
}
use g_max_linked.Traffic.Pool.{copies}
use g_max_linked.Traffic.Histories.{
  AreOnce, Reach, starts, recycles, deletes, accepts, serves, Reach-copies,
}

-- Every node is over, in the last group.
abbrev traffic : Traffic
traffic = record {
  resource = record { units = 16 ∷ 32 ∷ []; free_units = 32 ∷ [] };
  nodes = λ node. record { fd = 5; group = 2; status = over_status };
  group_count = 3;
  cur_group = 3;
  node_queue = 16 ∷ 16 ∷ [];
}

gone-bounded :
    (s n : ℕ) (bytes : List ℕ)
    → ◌≡◌ {A = ReadResult} closed (data_read bytes)
    → (0 < length bytes) × (length bytes ≤ n)
gone-bounded s n bytes e = absurd (cc)

-- A peer that has closed its connection, and a group with nothing in its queue.
abbrev gone_peer : Reader
gone_peer = record {
  State = ℕ;
  read = λ s n. (closed, s);
  pending = λ s. [];
  read_in_order = λ s n. refl;
  read_bounded = gone-bounded;
}

abbrev zero_bytes : ℕ → List ℕ
zero_bytes zero = []
zero_bytes (suc n) = 0 ∷ zero_bytes n

length-zero_bytes : (n : ℕ) → length (zero_bytes n) ≡ n
length-zero_bytes zero = refl
length-zero_bytes (suc n) = ap suc (length-zero_bytes n)

abbrev idle_queue : LoopBuffer
idle_queue = record {
  buffer = zero_bytes 64;
  total_size = 64;
  actual_size = 64;
  used_size = 0;
  free_size = 64;
  is_padding = false;
  padding = 0;
  write_pos = 0;
  read_pos = 0;
}

abbrev online : Transaction
online = record (create 4096) {
  status = ready;
  keep_live_timer_id = 7;
  session_id = 65 ∷ [];
  id = 9;
}

abbrev group : Group
group = record {
  queue = idle_queue;
  buffer = zero_bytes 512;
  transactions = λ a. online;
  recycled = [];
}

abbrev node : Node
node = record {
  ip = [];
  port = 0;
  fd = 5;
  transaction = 4096;
  group = 64;
  recv_offset = 14;
  recv_due_size = 0;
  recv_buffer = zero_bytes 512;
}

abbrev readable : Flags
readable = record { is_broken = false; has_error = false; is_readable = true }

abbrev env : Answers
env calls c = 7

abbrev cfg : Settings
cfg = record { heartbeat_interval = 20; protocol_version = 1; base_build = 5 }

idle_queue-IsValid : Buffer.IsValid idle_queue
idle_queue-IsValid = ground (arith, length-zero_bytes 64)

broken_lem_example :
    (q' : LoopBuffer) × (s' : ℕ) × (on_event gone_peer 2 1 60 readable node idle_queue 0
      ≡ some (returns true node q' s'))
    × ((g' : Group) × (rolling_queue env cfg (record group { queue = q' }) ≡ some (true, g'))
        × Gone group 4096 g')
unfolding Buffer.contents
broken_lem_example =
    broken_lem env cfg gone_peer 1 1 60 readable node 0 group cannot_recv_data
      (is_closed refl refl refl refl) (omega arith) (omega arith) (omega arith) (omega arith)
      idle_queue-IsValid refl refl (length-zero_bytes 512) (inr refl)

abbrev fresh : Traffic
fresh = record {
  resource = record { units = 16 ∷ 32 ∷ []; free_units = 16 ∷ 32 ∷ [] };
  nodes = λ node. record { fd = 0; group = 0; status = free };
  group_count = 3;
  cur_group = 0;
  node_queue = [];
}

abbrev visitor : Client
visitor = record { fd = 7; has_timer = true; is_watched = true }

units-AreOnce : AreOnce (16 ∷ 32 ∷ [])
unfolding is_unit
units-AreOnce n u = ground arith

-- A client comes, its session ends, and its node is recycled, though it was asked for twice.
visit : Reach (16 ∷ 32 ∷ []) (record fresh {
  resource = record { units = 16 ∷ 32 ∷ []; free_units = 32 ∷ 16 ∷ [] };
  nodes =
      set_node
        (set_node
          (set_node fresh.nodes 16 (record { fd = 7; group = 0; status = connected }))
          16
          (record { fd = 7; group = 0; status = over_status }))
        16
        (record { fd = 0; group = 0; status = free });
  cur_group = 1;
})
unfolding create_units add_nodes add_node allocate allocate_group recycle_node del_nodes del_node
    reclaim is_unit
visit =
    deletes
      (recycles 16
        (recycles 16
          (serves 16 over_status
            (accepts (visitor ∷ []) (starts {t = fresh} refl units-AreOnce (λ n. refl)) (refl, tt)
              refl)
            refl refl)
          refl)
        refl)
      refl

Reach-copies_example : copies 16 (32 ∷ 16 ∷ []) ≡ (if is_free free then 1 else 0)
unfolding is_unit
Reach-copies_example = Reach-copies visit 16 refl
