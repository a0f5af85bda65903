-- ===== src/Node/Attach.antt =====
-- `CNode::onAttach` and `onDetach`: a node is given to a client, and taken back.
use g_max_linked.Base.{
  ℕ, ◌+◌, ◌-◌, ◌≡◌, refl, Bool, not, inl, Option, some, List, ◌++◌, ◌==◌, ◌>>=◌, length, take, drop,
  arith,
}
use g_max_linked.Message.{msg_max_length}
use g_max_linked.LoopBuffer.{LoopBuffer}
use g_max_linked.LoopBuffer.Invariant as Buffer
use g_max_linked.MessageQueue.History.{joined}
use g_max_linked.Transaction.Act.{
  free, connected, over_status, status_code, set_timer, Transaction, Answers, Settings, c_string,
}
use g_max_linked.Transaction.Pdu.{zeros}
use g_max_linked.Transaction.Handlers as Handlers
use g_max_linked.Transaction.Lifecycle.{IsValid, on_attach_lem, on_detach_lem}
use g_max_linked.Node.{Node}
use g_max_linked.Node.Packets.{AllPackets}
use g_max_linked.Node.Ready.{Ready}

abbrev pub length_ip : ℕ
length_ip = 15

module _ (env : Answers) (cfg : Settings) where
  -- `onAttach`, with the transaction of the node. `strncpy` leaves the last byte of `_ip` alone.
  unfoldable pub on_attach :
      ℕ → List ℕ → ℕ → ℕ → Node → Transaction → Option (Bool × Node × Transaction)
  on_attach group ip port fd n t =
      let text = take length_ip (c_string ip) in
      do
        (done, t') ← Handlers.on_attach env cfg t
        some (
          done,
          record n {
            group = group;
            recv_offset = 0;
            recv_due_size = 0;
            ip = (text ++ zeros (length_ip - length text)) ++ drop length_ip n.ip;
            port = port;
            fd = fd;
          },
          t',
        )

  unfoldable pub on_detach : Node → Transaction → Option (Node × Transaction)
  on_detach n t = do
    (_, t') ← Handlers.on_detach env cfg t
    some (
      record n {
        fd = 0;
        port = 0;
        ip = zeros (length_ip + 1);
        recv_offset = 0;
        recv_due_size = 0;
        group = 0;
      },
      t',
    )

-- A node that is taken from a client whose session is over and given to another starts afresh. For a
-- valid transaction that is over, neither call faults, and the answer is whether the manager had a
-- timer. The transaction is then valid and connected, and the node, whatever it held of the client
-- before, is ready for all the messages of the next one, and for these only.
pub recycle_lem :
    (env : Answers) (cfg : Settings) (group : ℕ) (ip : List ℕ) (port fd : ℕ) (n : Node)
    (t : Transaction) (q : LoopBuffer) (pend future : List ℕ) (ms : List (List ℕ))
    → IsValid t
    → t.status ≡ over_status
    → length n.recv_buffer ≡ msg_max_length
    → Buffer.IsValid q
    → AllPackets ms
    → pend ++ future ≡ joined ms
    → let timer = env t.calls (set_timer cfg.heartbeat_interval (status_code connected) 1) in
      (t' : Transaction) × (n' : Node) × ((on_detach env cfg n t >>= λ r.
      on_attach env cfg group ip port fd r.0 r.1)
        ≡ some (not (timer == 0), n', t'))
      × IsValid t'
      × (t'.status ≡ connected)
      × (t'.keep_live_timer_id ≡ timer)
      × (n'.fd ≡ fd)
      × (n'.group ≡ group)
      × (n'.transaction ≡ n.transaction)
      × Ready n' q pend ms future
unfolding on_attach on_detach
recycle_lem env cfg group ip port fd n t q pend future ms v o sized valid packets stream =
    let (gone, free_one) = on_detach_lem env cfg t v o in
    let t0 : Transaction = record t { status = free } in
    let (t', run, v', c, k) = on_attach_lem env cfg t0 free_one refl in
    let text : List ℕ = take length_ip (c_string ip) in
    let n' : Node = record n {
      group = group;
      recv_offset = 0;
      recv_due_size = 0;
      ip = (text ++ zeros (length_ip - length text)) ++ drop length_ip (zeros (length_ip + 1));
      port = port;
      fd = fd;
    } in
    (
      t',
      n',
      rw (gone, run) refl,
      v',
      c,
      k,
      refl,
      refl,
      refl,
      record {
        sized = sized;
        phase = inl (record { no_size = refl; short = omega arith });
        valid = valid;
        packets = packets;
        stream = stream;
      },
    )
