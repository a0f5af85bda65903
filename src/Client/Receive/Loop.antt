-- ===== src/Client/Receive/Loop.antt =====
-- The loop over `recv`, for every way in which the bytes of well-formed messages may arrive.
use g_max_linked.Base.{
  ℕ, zero, suc, ◌+◌, ◌≤◌, ◌<◌, ◌≡◌, refl, sym, ap, subst, ◌∙◌, inl, inr, Bool, true, false,
  Bool-cases, ◌==◌, ◌⊎◌, some, List, [], ◌++◌, append_assoc, arith, length, length-append,
}
use g_max_linked.Message.{header_size}
use g_max_linked.Socket.{Errno, ReadResult, data_read, closed, again, failed, consumed, Reader}
use g_max_linked.Client.Receive.{
  Link, sized, wanted, on_bytes, Receiving, ends, after, on_recv, receive,
}
use g_max_linked.Client.Receive.Ready.{InHeader, InBody, Ready, Goes}
use g_max_linked.Client.Receive.Rounds.{header_round, body_round}

-- The last read says why the loop has ended: the connection is lost when the peer has hung up or the
-- system reports an error, and not when there is nothing more for now.
pub data Cause (k : Reader) (s' : k.State) : Bool → Type 0 where
  ran_dry : (s : k.State) (n : ℕ) → (k.read s n).0 ≡ again → (k.read s n).1 ≡ s' → Cause k s' false
  hung_up : (s : k.State) (n : ℕ) → (k.read s n).0 ≡ closed → (k.read s n).1 ≡ s' → Cause k s' true
  broken :
      (s : k.State) (n : ℕ) (e : Errno)
      → (k.read s n).0 ≡ failed e
      → (k.read s n).1 ≡ s'
      → Cause k s' true

-- The loop has ended. It has handed over the first of the messages, and the link is ready for the rest.
pub data Received (k : Reader) (ms : List (List ℕ)) (future : List ℕ)
    : Receiving k.State → Type 0 where
  received :
      {lost : Bool} {msgs : List (List ℕ)} {link : Link} {s : k.State} (rest : List (List ℕ))
      → ms ≡ msgs ++ rest
      → Ready link (k.pending s ++ future) rest
      → Cause k s lost
      → Received k ms future (ends lost msgs link s)

Received-after :
    (k : Reader) (first ms rest : List (List ℕ)) (future : List ℕ) (r : Receiving k.State)
    → ms ≡ first ++ rest
    → Received k rest future r
    → Received k ms future (after first r)
unfolding after
Received-after k first ms rest future _ e (received {msgs = msgs} more e' ready why) =
    received more (e ∙ ap (λ x. first ++ x) e' ∙ sym (append_assoc first msgs more)) ready why

sized_phase :
    (link : Link)
    → InHeader (sized link) ⊎ InBody link
    → InHeader (sized link) ⊎ InBody (sized link)
unfolding sized
sized_phase link (inl i) = inl i
sized_phase link (inr i) = inr (ground (arith, i))

sized-Ready :
    (link : Link) (flow : List ℕ) (ms : List (List ℕ))
    → Ready link flow ms
    → Ready (sized link) flow ms
unfolding sized
sized-Ready link flow ms ready = elim (Bool-cases (link.pending_size == 0)) [
  | inl none_yet ↦ rw none_yet (record {
    room = ready.room;
    phase = elim ready.phase [
      | inl i ↦ inl (record { due = refl; short = short_of none_yet i })
      | inr i ↦ absurd (ground (arith, i))
    ];
    packets = ready.packets;
    stream = ready.stream;
  })
  | inr begun ↦ rw begun ready
]
  where
    short_of : (link.pending_size == 0) ≡ true → InHeader (sized link) → link.offset < header_size
    short_of e i = omega (arith, rw e at i.short)

-- The number of bytes that a round asks for, and that they are within the message that has begun.
asked :
    (link : Link) (n : ℕ)
    → InHeader link ⊎ InBody link
    → n ≤ wanted link
    → ((i : InHeader link) → link.offset + n ≤ header_size)
      × ((i : InBody link) → link.offset + n ≤ link.pending_size)
unfolding wanted
asked link n phase h = (λ i. ground (arith, i), λ i. ground (arith, i))

data_round :
    (link : Link) (bytes flow : List ℕ) (ms : List (List ℕ))
    → Ready link (bytes ++ flow) ms
    → InHeader link ⊎ InBody link
    → 0 < length bytes
    → length bytes ≤ wanted link
    → Goes link bytes flow ms
data_round link bytes flow ms ready phase some_byte h =
    let within = asked link (length bytes) phase h in
    elim phase [
      | inl i ↦
          header_round link bytes flow ms ready some_byte (omega (arith, within.0 i)) i (within.0 i)
      | inr i ↦
          body_round link bytes flow ms ready some_byte (omega (arith, within.1 i, i)) i
            (within.1 i)
    ]

module _ (k : Reader) where
  -- With fuel above the number of bytes on their way, the loop ends.
  abbrev Ends : ℕ → Type 0
  Ends fuel =
      (link : Link) (s : k.State) (ms : List (List ℕ)) (future : List ℕ)
      → Ready link (k.pending s ++ future) ms
      → length (k.pending s) < fuel
      → (r : Receiving k.State) × (receive k fuel link s ≡ some r) × Received k ms future r

  stops :
      (fuel : ℕ) (link : Link) (s : k.State) (ms : List (List ℕ)) (future : List ℕ) (lost : Bool)
      → Ready (sized link) (k.pending (k.read s (wanted (sized link))).1 ++ future) ms
      → Cause k (k.read s (wanted (sized link))).1 lost
      → receive k (suc fuel) link s
        ≡ some (ends lost [] (sized link) (k.read s (wanted (sized link))).1)
      → (r : Receiving k.State) × (receive k (suc fuel) link s ≡ some r) × Received k ms future r
  stops fuel link s ms future lost ready why run = (
    ends lost [] (sized link) (k.read s (wanted (sized link))).1,
    run,
    received ms refl ready why,
  )

  pub receive-data :
      (fuel : ℕ) (link link' : Link) (s : k.State) (bytes : List ℕ) (msgs : List (List ℕ))
      (r : Receiving k.State)
      → (k.read s (wanted (sized link))).0 ≡ data_read bytes
      → on_bytes (sized link) bytes ≡ some (msgs, link')
      → receive k fuel link' (k.read s (wanted (sized link))).1 ≡ some r
      → receive k (suc fuel) link s ≡ some (after msgs r)
  unfolding receive on_recv
  receive-data fuel link link' s bytes msgs r e b run =
      ap (λ y. on_recv (receive k fuel) (sized link) y (k.read s (wanted (sized link))).1) e
      ∙ rw b (rw run refl)

  round :
      (fuel : ℕ) (link : Link) (s : k.State) (ms : List (List ℕ)) (future : List ℕ) (x : ReadResult)
      → Ends fuel
      → length (k.pending s) < suc fuel
      → Ready
          (sized link)
          (consumed x ++ (k.pending (k.read s (wanted (sized link))).1 ++ future))
          ms
      → InHeader (sized link) ⊎ InBody (sized link)
      → length (k.pending s)
        ≡ length (consumed x) + length (k.pending (k.read s (wanted (sized link))).1)
      → (k.read s (wanted (sized link))).0 ≡ x
      → (r : Receiving k.State) × (receive k (suc fuel) link s ≡ some r) × Received k ms future r
  unfolding receive on_recv
  round fuel link s ms future (data_read bytes) ih lt ready phase split e =
      let (some_byte, most) = k.read_bounded s (wanted (sized link)) bytes e in
      let (msgs, link', b, next) = data_round (sized link) bytes _ ms ready phase some_byte most in
      let (r, run, got) = ih link' _ next.rest future next.ready (omega arith) in
      (
        after msgs r,
        receive-data fuel link link' s bytes msgs r e b run,
        Received-after k msgs ms next.rest future r next.split got,
      )
  round fuel link s ms future closed ih lt ready phase split e =
      stops fuel link s ms future true ready (hung_up s _ e refl)
        (ap (λ y. on_recv (receive k fuel) (sized link) y (k.read s (wanted (sized link))).1) e)
  round fuel link s ms future again ih lt ready phase split e =
      stops fuel link s ms future false ready (ran_dry s _ e refl)
        (ap (λ y. on_recv (receive k fuel) (sized link) y (k.read s (wanted (sized link))).1) e)
  round fuel link s ms future (failed err) ih lt ready phase split e =
      stops fuel link s ms future true ready (broken s _ err e refl)
        (ap (λ y. on_recv (receive k fuel) (sized link) y (k.read s (wanted (sized link))).1) e)

  -- The client cuts the bytes of the socket as the server has put the messages together. When what is
  -- held, what is on its way and what the server has yet to send are well-formed messages, the loop
  -- over `recv`, with fuel above the number of bytes on their way, ends without a fault, however the
  -- system cuts the bytes. It has handed the first of the messages to `on_received`, in order, each once
  -- and unchanged, and the link is ready for the rest. The connection counts as lost when the last read
  -- found it closed or failed, and not when there was nothing more for now.
  pub receive_lem :
      (fuel : ℕ) (link : Link) (s : k.State) (ms : List (List ℕ)) (future : List ℕ)
      → Ready link (k.pending s ++ future) ms
      → length (k.pending s) < fuel
      → (r : Receiving k.State) × (receive k fuel link s ≡ some r) × Received k ms future r
  receive_lem zero link s ms future ready lt = elim lt [ ]
  receive_lem (suc fuel) link s ms future ready lt =
      let n = wanted (sized link) in
      let split = k.read_in_order s n in
      round fuel link s ms future (k.read s n).0 (receive_lem fuel) lt
        (subst (λ x. Ready (sized link) x ms)
          (ap (λ x. x ++ future) split ∙ append_assoc (consumed (k.read s n).0) _ future)
          (sized-Ready link _ ms ready))
        (sized_phase link ready.phase)
        (ap length split ∙ length-append (consumed (k.read s n).0) (k.pending (k.read s n).1)) refl
