-- ===== src/Node/Recv.antt =====
-- `recv`, for every way in which the bytes of well-formed messages may arrive.
use g_max_linked.Base.{
  ℕ, zero, suc, ◌+◌, ◌<◌, ◌≡◌, refl, sym, ap, subst, ◌∙◌, Bool, true, false, false≢true, some, List,
  [], ◌∷◌, ◌++◌, arith, length, length-append, append-nil, append_assoc,
}
use g_max_linked.Message.{set_ext}
use g_max_linked.LoopBuffer.{LoopBuffer}
use g_max_linked.LoopBuffer.Invariant.{IsValid, contents}
use g_max_linked.MessageQueue.{put_message}
use g_max_linked.MessageQueue.History.{joined}
use g_max_linked.Socket.{Errno, ReadResult, data_read, closed, again, failed, consumed, Reader}
use g_max_linked.LoopBuffer.Write.{fits}
use g_max_linked.Node.{Node, Round, goes_on, returns, handle_recv_errors, on_read, wanted, recv}
use g_max_linked.Node.Packets.{stamped}
use g_max_linked.Node.Ready.{Ready, Takes, all_in, one_in, After, on, off}
use g_max_linked.Node.Rounds.{data_round}

-- Why `recv` has stopped, in the state `s'`, with the messages `rest` still to come. It answers true when
-- the system has nothing more for now, and false when the peer has hung up, the system reports an
-- error, or the queue, once it has taken the messages of `done`, refuses the next one for want of room.
pub data Cause (k : Reader) (self : ℕ) (q : LoopBuffer) (done rest : List (List ℕ))
    (q' : LoopBuffer) (s' : k.State) : Bool → Type 0 where
  ran_dry :
      (s : k.State) (n : ℕ)
      → (k.read s n).0 ≡ again
      → (k.read s n).1 ≡ s'
      → Cause k self q done rest q' s' true
  hung_up :
      (s : k.State) (n : ℕ)
      → (k.read s n).0 ≡ closed
      → (k.read s n).1 ≡ s'
      → Cause k self q done rest q' s' false
  broken :
      (s : k.State) (n : ℕ) (e : Errno)
      → (k.read s n).0 ≡ failed e
      → (k.read s n).1 ≡ s'
      → Cause k self q done rest q' s' false
  no_room :
      (q0 : LoopBuffer) (m : List ℕ) (more : List (List ℕ))
      → rest ≡ m ∷ more
      → Takes q (stamped self done) q0
      → IsValid q0
      → fits q0 (length m) ≡ false
      → put_message q0 (set_ext m self) ≡ some (false, q')
      → Cause k self q done rest q' s' false

-- `recv` has returned. The messages of `done` went to the queue in order, stamped with the
-- transaction's address. If it returned true, the node is ready for the rest.
pub data Received (k : Reader) (self : ℕ) (q : LoopBuffer) (ms : List (List ℕ)) (future : List ℕ)
    : Round k.State → Type 0 where
  received :
      {b : Bool} {n' : Node} {q' : LoopBuffer} {s' : k.State} (done rest : List (List ℕ))
      → ms ≡ done ++ rest
      → IsValid q'
      → contents q' ≡ contents q ++ joined (stamped self done)
      → Cause k self q done rest q' s' b
      → (b ≡ true → Ready n' q' (k.pending s') rest future)
      → Received k self q ms future (returns b n' q' s')

joined-stamped :
    (self : ℕ) (xs ys : List (List ℕ))
    → joined (stamped self (xs ++ ys)) ≡ joined (stamped self xs) ++ joined (stamped self ys)
joined-stamped self [] ys = refl
joined-stamped self (x ∷ xs) ys =
    ap (◌++◌ (set_ext x self)) (joined-stamped self xs ys)
    ∙ sym (append_assoc (set_ext x self) (joined (stamped self xs)) (joined (stamped self ys)))

stamped-append :
    (self : ℕ) (xs ys : List (List ℕ))
    → stamped self (xs ++ ys) ≡ stamped self xs ++ stamped self ys
stamped-append self [] ys = refl
stamped-append self (x ∷ xs) ys = ap (◌∷◌ (set_ext x self)) (stamped-append self xs ys)

Takes-append :
    {q q' q'' : LoopBuffer} {xs ys : List (List ℕ)}
    → Takes q xs q'
    → Takes q' ys q''
    → Takes q (xs ++ ys) q''
Takes-append all_in u = u
Takes-append (one_in p t) u = one_in p (Takes-append t u)

Cause-after :
    {k : Reader} {self : ℕ} {q q' : LoopBuffer} (first : List (List ℕ)) {done rest : List (List ℕ)}
    {q'' : LoopBuffer} {s' : k.State} {b : Bool}
    → Takes q (stamped self first) q'
    → Cause k self q' done rest q'' s' b
    → Cause k self q (first ++ done) rest q'' s' b
Cause-after first t (ran_dry s n e f) = ran_dry s n e f
Cause-after first t (hung_up s n e f) = hung_up s n e f
Cause-after first t (broken s n err e f) = broken s n err e f
Cause-after {self = self} {q = q} first {done = done} t (no_room q0 m more e u v full p) =
    no_room q0 m more e
      (subst (λ x. Takes q x q0) (sym (stamped-append self first done)) (Takes-append t u)) v full p

-- The messages of one round, then those of the others.
Received-after :
    (k : Reader) (self : ℕ) (q q' : LoopBuffer) (first ms rest : List (List ℕ)) (future : List ℕ)
    (r : Round k.State)
    → ms ≡ first ++ rest
    → Takes q (stamped self first) q'
    → contents q' ≡ contents q ++ joined (stamped self first)
    → Received k self q' rest future r
    → Received k self q ms future r
Received-after k self q q' first ms rest future r e t c (received done more e' v c' why rd) =
    received (first ++ done) more (e ∙ ap (◌++◌ first) e' ∙ sym (append_assoc first done more)) v
      (c'
        ∙ ap (λ x. x ++ joined (stamped self done)) c
        ∙ append_assoc (contents q) (joined (stamped self first)) (joined (stamped self done))
        ∙ ap (◌++◌ (contents q)) (sym (joined-stamped self first done)))
      (Cause-after first t why) rd

module _ (k : Reader) where
  -- The system fails a read only with an error that `_handleRecvErrors` knows.
  abbrev pub Listed : Type 0
  Listed =
      (s : k.State) (n : ℕ) (e : Errno) → (k.read s n).0 ≡ failed e → handle_recv_errors e ≡ some tt

  recv-goes :
      (fuel : ℕ) (n n' : Node) (q q' : LoopBuffer) (s s' : k.State)
      → on_read n q (k.read s (wanted n)).0 (k.read s (wanted n)).1 ≡ some (goes_on n' q' s')
      → recv k (suc fuel) n q s ≡ recv k fuel n' q' s'
  unfolding recv
  recv-goes fuel n n' q q' s s' e = rw e

  recv-returns :
      (fuel : ℕ) (n n' : Node) (q q' : LoopBuffer) (s s' : k.State) (b : Bool)
      → on_read n q (k.read s (wanted n)).0 (k.read s (wanted n)).1 ≡ some (returns b n' q' s')
      → recv k (suc fuel) n q s ≡ some (returns b n' q' s')
  unfolding recv
  recv-returns fuel n n' q q' s s' b e = rw e

  -- With fuel above the number of bytes on their way, `recv` returns.
  abbrev Returns : ℕ → Type 0
  Returns fuel =
      (n : Node) (q : LoopBuffer) (s : k.State) (ms : List (List ℕ)) (future : List ℕ)
      → Ready n q (k.pending s) ms future
      → length (k.pending s) < fuel
      → (r : Round k.State) × (recv k fuel n q s ≡ some r) × Received k n.transaction q ms future r

  on_read-stop :
      (n : Node) (q : LoopBuffer) (s : k.State) (e : Errno)
      → handle_recv_errors e ≡ some tt
      → on_read n q (failed e) s ≡ some (returns false n q s)
  unfolding on_read
  on_read-stop n q s e h = rw h

  After-data :
      (fuel : ℕ) (n : Node) (q : LoopBuffer) (s s' : k.State) (ms : List (List ℕ)) (future : List ℕ)
      (r : Round k.State)
      → Returns fuel
      → length (k.pending s') < fuel
      → After n.transaction q s' (k.pending s') ms future r
      → (k.read s (wanted n)).1 ≡ s'
      → on_read n q (k.read s (wanted n)).0 (k.read s (wanted n)).1 ≡ some r
      → (r' : Round k.State) × (recv k (suc fuel) n q s ≡ some r')
        × Received k n.transaction q ms future r'
  After-data fuel n q s s' ms future _ ih lt (on {n' = n'} {q' = q'} first rest e rd same t c) _ o =
      let (r', run, got) = ih n' q' s' rest future rd lt in
      (
        r',
        recv-goes fuel n n' q q' s s' o ∙ run,
        Received-after k n.transaction q q' first ms rest future r' e t c
            (subst (λ x. Received k x q' rest future r') same got),
      )
  After-data fuel n q s s' ms future _ ih lt (off {n' = n'} {q' = q'} m more next w full put v c) _
        o =
      (
        returns false n' q' s',
        recv-returns fuel n n' q q' s s' false o,
        received [] ms refl v (c ∙ sym (append-nil (contents q)))
            (no_room q m more next all_in w full put) (λ e. absurd (false≢true e)),
      )

  -- The three results that end the loop: nothing has gone to the queue in this round.
  stopped :
      (fuel : ℕ) (n : Node) (q : LoopBuffer) (s : k.State) (ms : List (List ℕ)) (future : List ℕ)
      (b : Bool)
      → Ready n q (k.pending (k.read s (wanted n)).1) ms future
      → Cause k n.transaction q [] ms q (k.read s (wanted n)).1 b
      → on_read n q (k.read s (wanted n)).0 (k.read s (wanted n)).1
        ≡ some (returns b n q (k.read s (wanted n)).1)
      → (r' : Round k.State) × (recv k (suc fuel) n q s ≡ some r')
        × Received k n.transaction q ms future r'
  stopped fuel n q s ms future b rd why o = (
    returns b n q (k.read s (wanted n)).1,
    recv-returns fuel n n q q s _ b o,
    received [] ms refl rd.valid (sym (append-nil (contents q))) why (λ _. rd),
  )

  recv_round :
      (fuel : ℕ) (listed : Listed) (n : Node) (q : LoopBuffer) (s : k.State) (ms : List (List ℕ))
      (future : List ℕ) (x : ReadResult)
      → Returns fuel
      → length (k.pending s) < suc fuel
      → Ready n q (consumed x ++ k.pending (k.read s (wanted n)).1) ms future
      → length (k.pending s) ≡ length (consumed x) + length (k.pending (k.read s (wanted n)).1)
      → (k.read s (wanted n)).0 ≡ x
      → (r' : Round k.State) × (recv k (suc fuel) n q s ≡ some r')
        × Received k n.transaction q ms future r'
  unfolding on_read
  recv_round fuel listed n q s ms future (data_read bytes) ih lt rd split e =
      let (some_byte, most) = k.read_bounded s (wanted n) bytes e in
      let (r, o, a) =
        data_round n q (k.read s (wanted n)).1 bytes (k.pending (k.read s (wanted n)).1) future ms
          rd some_byte most in
      After-data fuel n q s _ ms future r ih (omega arith) a refl
        (ap (λ y. on_read n q y (k.read s (wanted n)).1) e ∙ o)
  recv_round fuel listed n q s ms future closed ih lt rd split e =
      stopped fuel n q s ms future false rd (hung_up s (wanted n) e refl)
        (ap (λ y. on_read n q y (k.read s (wanted n)).1) e)
  recv_round fuel listed n q s ms future again ih lt rd split e =
      stopped fuel n q s ms future true rd (ran_dry s (wanted n) e refl)
        (ap (λ y. on_read n q y (k.read s (wanted n)).1) e)
  recv_round fuel listed n q s ms future (failed err) ih lt rd split e =
      stopped fuel n q s ms future false rd (broken s (wanted n) err e refl) (
        ap (λ y. on_read n q y (k.read s (wanted n)).1) e
        ∙ on_read-stop n q (k.read s (wanted n)).1 err (listed s (wanted n) err e))

  -- Let the node be ready: what it holds, what is on its way and what the peer has yet to send are
  -- well-formed messages. Let each error of the system be a listed one. Then `recv`, with fuel
  -- above the number of bytes on their way, returns without a fault, however the system cuts the
  -- bytes. Some of the messages have gone to the group's queue, in order, each once and unchanged
  -- but for the stamp, and the queue is valid. It returned true only when the system had nothing
  -- more for now, and the node is then ready for the others; it returned false only when the peer
  -- had hung up, the system reported an error or the queue, after those messages, had no room for the
  -- next one and `putMessage` refused it.
  pub recv_lem :
      Listed
      → (fuel : ℕ) (n : Node) (q : LoopBuffer) (s : k.State) (ms : List (List ℕ)) (future : List ℕ)
      → Ready n q (k.pending s) ms future
      → length (k.pending s) < fuel
      → (r : Round k.State) × (recv k fuel n q s ≡ some r) × Received k n.transaction q ms future r
  recv_lem listed zero n q s ms future rd lt = elim lt [ ]
  recv_lem listed (suc fuel) n q s ms future rd lt =
      let split = k.read_in_order s (wanted n) in
      recv_round fuel listed n q s ms future (k.read s (wanted n)).0 (recv_lem listed fuel) lt
        (subst (λ x. Ready n q x ms future) split rd)
        (ap length split
          ∙ length-append (consumed (k.read s (wanted n)).0) (k.pending (k.read s (wanted n)).1))
        refl
