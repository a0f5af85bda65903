-- ===== src/Traffic/Isolated/Tests.antt =====
-- A client comes while the node of another is in use.
use g_max_linked.Base.{refl, true, false, [], ◌∷◌, ◌==◌, if◌then◌else◌}
use g_max_linked.Resource.{allocate}
use g_max_linked.Socket.Samples.{floods}
use g_max_linked.LoopBuffer.{LoopBuffer}
use g_max_linked.Node.{Node}
use g_max_linked.Transaction.Act.{free, connected, ready}
use g_max_linked.Traffic.{Traffic, Client, set_node, allocate_group, add_node}
use g_max_linked.Traffic.Working.{
  World, at_listener, ready as found_ready, give_all, give_node, take_clients, then_found, on_found,
  all_found, working,
}
use g_max_linked.Traffic.Apart.{Apart}
use g_max_linked.Traffic.Isolated.{working-Apart}

abbrev traffic : Traffic
traffic = record {
  resource = record { units = 16 ∷ 32 ∷ []; free_units = 32 ∷ [] };
  nodes =
      set_node (λ n. record { fd = 0; group = 0; status = free }) 16
        (record { fd = 5; group = 2; status = ready });
  group_count = 3;
  cur_group = 0;
  node_queue = [];
}

abbrev node : Node
node = record {
  ip = [];
  port = 0;
  fd = 5;
  transaction = 4096;
  group = 2;
  recv_offset = 2;
  recv_due_size = 0;
  recv_buffer = 29 ∷ 0 ∷ [];
}

abbrev queue : LoopBuffer
queue = record {
  buffer = [];
  total_size = 0;
  actual_size = 0;
  used_size = 0;
  free_size = 0;
  is_padding = false;
  padding = 0;
  write_pos = 0;
  read_pos = 0;
}

abbrev world : World floods.State
world = record {
  traffic = traffic;
  node_of = λ n. node;
  queue_of = λ group. queue;
  socket_of = λ n. (true, 29 ∷ []);
}

abbrev visitor : Client
visitor = record { fd = 7; has_timer = true; is_watched = true }

abbrev visited : World floods.State
visited = record {
  traffic = record traffic {
    resource = record { units = 16 ∷ 32 ∷ []; free_units = [] };
    nodes = set_node traffic.nodes 32 (record { fd = 7; group = 0; status = connected });
    cur_group = 1;
  };
  node_of = λ n.
      if n == 32
      then record node { group = 0; fd = 7; recv_offset = 0; recv_due_size = 0 }
      else node;
  queue_of = λ group. queue;
  socket_of = λ n. if n == 32 then (true, []) else (true, 29 ∷ []);
}

working-Apart_example : Apart 16 world visited
unfolding working give_all all_found on_found then_found take_clients give_node add_node allocate
    allocate_group
working-Apart_example =
    working-Apart floods 1 1 60 16 true true
      (found_ready (at_listener true ((visitor, (true, [])) ∷ []) ∷ [])) world visited refl tt tt
      refl
