-- ===== src/Node/Send.antt =====
-- `send`: what has gone out when it returns.
use g_max_linked.Base.{
  ℕ, zero, suc, ◌+◌, ◌-◌, ◌%◌, ◌^◌, ◌≤◌, ◌<◌, ◌≡◌, refl, sym, ap, subst, ◌∙◌, inl, inr, true, false,
  Bool-cases, Option, some, List, ◌++◌, arith, length, take, append-nil, append_assoc, ltb,
  if◌then◌else◌, le→leb, lt→ltb, take_all,
}
use g_max_linked.Base.Bytes.{slice, slice-append, length-slice, take-slice}
use g_max_linked.Message.{size_of, set_ext}
use g_max_linked.Message.Codec.{length-set_ext, size_of-set_ext}
use g_max_linked.Socket.{Errno, WriteResult, wrote, shut, full, refused, written, Writer}
use g_max_linked.Node.{Sending, ends, handle_send_errors, on_write, send_from, send}

-- Why a send has given up: the peer has hung up, or the system reported an error.
pub data GivenUp (w : Writer) (s' : w.State) : Type 0 where
  hung_up :
      (s : w.State) (bytes : List ℕ)
      → (w.write s bytes).0 ≡ shut
      → (w.write s bytes).1 ≡ s'
      → GivenUp w s'
  broken :
      (s : w.State) (bytes : List ℕ) (e : Errno)
      → (w.write s bytes).0 ≡ refused e
      → (w.write s bytes).1 ≡ s'
      → GivenUp w s'

-- How a send ends that had to put out `bytes`: all of them have gone, or it answered false and a
-- front of them has.
pub data Sent (w : Writer) (before bytes : List ℕ) : Sending w.State → Type 0 where
  whole : {s : w.State} → w.sent s ≡ before ++ bytes → Sent w before bytes (ends true s)
  part :
      {s : w.State} (n : ℕ)
      → n ≤ length bytes
      → w.sent s ≡ before ++ take n bytes
      → GivenUp w s
      → Sent w before bytes (ends false s)

module _ (w : Writer) where
  -- The system refuses a write only with an error that `send` knows.
  abbrev pub Known : Type 0
  Known =
      (s : w.State) (bytes : List ℕ) (e : Errno)
      → (w.write s bytes).0 ≡ refused e
      → handle_send_errors e ≡ some tt

  module _ (known : Known) (msg : List ℕ) (sized : size_of msg ≡ length msg)
      (small : length msg < 2 ^ 32) where
    -- What is left of the message at an offset.
    abbrev left : ℕ → List ℕ
    left offset = slice msg offset (length msg - offset)

    abbrev Ends : ℕ → Type 0
    Ends fuel =
        (offset : ℕ) (s : w.State)
        → offset < length msg
        → (length msg - offset) + w.patience s < fuel
        → (r : Sending w.State) × (send_from w fuel msg offset s ≡ some r)
          × Sent w (w.sent s) (left offset) r

    send_step :
        (fuel offset : ℕ) (s : w.State) (x : WriteResult)
        → offset < length msg
        → (w.write s (left offset)).0 ≡ x
        → send_from w (suc fuel) msg offset s
          ≡ on_write (send_from w fuel msg) msg offset x (w.write s (left offset)).1
    unfolding send_from
    send_step fuel offset s x lt e =
        let n : (length msg + 2 ^ 32 - offset) % 2 ^ 32 ≡ length msg - offset = omega arith in
        rw (sized, n, le→leb (offset + (length msg - offset)) (length msg) (omega arith), e)

    length-left : (offset : ℕ) → offset ≤ length msg → length (left offset) ≡ length msg - offset
    length-left offset h = length-slice msg offset (length msg - offset) (omega arith)

    -- A write in the middle: what it took, and the rest.
    sent_more :
        (offset n : ℕ) (s s' : w.State)
        → offset + n ≤ length msg
        → w.sent s' ≡ w.sent s ++ take n (left offset)
        → (r : Sending w.State) → Sent w (w.sent s') (left (offset + n)) r
        → Sent w (w.sent s) (left offset) r
    sent_more offset n s s' h e _ (whole g) = whole (
        g
        ∙ ap (λ x. x ++ left (offset + n)) (e ∙ ap (◌++◌ (w.sent s)) cut)
        ∙ append_assoc (w.sent s) (slice msg offset n) (left (offset + n))
        ∙ ap (◌++◌ (w.sent s)) joins)
      where
        cut : take n (left offset) ≡ slice msg offset n
        cut = take-slice msg offset n (length msg - offset) (omega arith)

        joins : slice msg offset n ++ left (offset + n) ≡ left offset
        joins =
            slice-append msg offset n (length msg - (offset + n))
            ∙ ap (slice msg offset) (omega arith)
    sent_more offset n s s' h e _ (part m l g why) =
        part (n + m) (omega (arith, most, length-left offset (omega arith)))
          (g
            ∙ ap (λ x. x ++ take m (left (offset + n))) (e ∙ ap (◌++◌ (w.sent s)) cut)
            ∙ append_assoc (w.sent s) (slice msg offset n) (take m (left (offset + n)))
            ∙ ap (◌++◌ (w.sent s)) joins)
          why
      where
        cut : take n (left offset) ≡ slice msg offset n
        cut = take-slice msg offset n (length msg - offset) (omega arith)

        most : m ≤ length msg - (offset + n)
        most = omega (arith, length-left (offset + n) h)

        joins : slice msg offset n ++ take m (left (offset + n)) ≡ take (n + m) (left offset)
        joins =
            ap (◌++◌ (slice msg offset n))
              (take-slice msg (offset + n) m (length msg - (offset + n)) most)
            ∙ slice-append msg offset n m
            ∙ sym (take-slice msg offset (n + m) (length msg - offset) (omega (arith, most)))

    on_write-wrote :
        (next : ℕ → w.State → Option (Sending w.State)) (offset n : ℕ) (s : w.State)
        → offset + n ≤ length msg
        → on_write next msg offset (wrote n) s
          ≡ (if ltb (offset + n) (length msg) then next (offset + n) s else some (ends true s))
    unfolding on_write
    on_write-wrote next offset n s h =
        let e : (offset + n) % 2 ^ 32 ≡ offset + n = omega arith in rw (e, sized) (ground arith)

    on_write-full :
        (next : ℕ → w.State → Option (Sending w.State)) (offset : ℕ) (s : w.State)
        → offset < length msg
        → on_write next msg offset full s ≡ next offset s
    unfolding on_write
    on_write-full next offset s h = rw (sized, lt→ltb offset (length msg) h)

    send_round :
        (fuel offset : ℕ) (s : w.State) (x : WriteResult)
        → Ends fuel
        → offset < length msg
        → (length msg - offset) + w.patience s < suc fuel
        → (w.write s (left offset)).0 ≡ x
        → (r : Sending w.State) × (send_from w (suc fuel) msg offset s ≡ some r)
          × Sent w (w.sent s) (left offset) r
    unfolding on_write
    send_round fuel offset s (wrote n) ih lt f e =
        elim (Bool-cases (ltb (offset + n) (length msg))) [
          | inl more ↦
              let (r, run, g) = ih (offset + n) s' (ground arith) (omega (arith, bounds)) in
              (
                r,
                step ∙ goes ∙ rw more run,
                sent_more offset n s s' (omega (arith, bounds, long)) out r g,
              )
          | inr done ↦ (
            ends true s',
            step ∙ goes ∙ rw done,
            whole (out ∙ ap (λ y. w.sent s ++ y) (take_all n (left offset) (ground (arith, long)))),
          )
        ]
      where
        s' : w.State
        s' = (w.write s (left offset)).1

        bounds : (0 < n) × (n ≤ length (left offset)) × (w.patience s' ≤ w.patience s)
        bounds = w.write_bounded s (left offset) n e

        long : length (left offset) ≡ length msg - offset
        long = length-left offset (omega arith)

        goes : on_write (send_from w fuel msg) msg offset (wrote n) s' ≡ (
            if ltb (offset + n) (length msg)
            then send_from w fuel msg (offset + n) s'
            else some (ends true s'))
        goes = on_write-wrote (send_from w fuel msg) offset n s' (omega (arith, bounds, long))

        out : w.sent s' ≡ w.sent s ++ take n (left offset)
        out =
            w.write_in_order s (left offset)
            ∙ ap (λ y. w.sent s ++ take (written y) (left offset)) e

        step :
            send_from w (suc fuel) msg offset s
            ≡ on_write (send_from w fuel msg) msg offset (wrote n) s'
        step = send_step fuel offset s (wrote n) lt e
    send_round fuel offset s shut ih lt f e = (
      ends false (w.write s (left offset)).1,
      send_step fuel offset s shut lt e,
      part 0 (omega arith)
          (w.write_in_order s (left offset)
            ∙ ap (λ y. w.sent s ++ take (written y) (left offset)) e)
          (hung_up s (left offset) e refl),
    )
    send_round fuel offset s full ih lt f e =
        let s' = (w.write s (left offset)).1 in
        let same : w.sent s' ≡ w.sent s =
          w.write_in_order s (left offset)
          ∙ ap (λ y. w.sent s ++ take (written y) (left offset)) e
          ∙ append-nil (w.sent s) in
        let (r, run, g) = ih offset s' lt (omega (arith, w.write_full s (left offset) e)) in
        (
          r,
          send_step fuel offset s full lt e
              ∙ on_write-full (send_from w fuel msg) offset s' lt
              ∙ run,
          subst (λ y. Sent w y (left offset) r) same g,
        )
    send_round fuel offset s (refused err) ih lt f e = (
      ends false (w.write s (left offset)).1,
      send_step fuel offset s (refused err) lt e ∙ rw (known s (left offset) err e),
      part 0 (omega arith)
          (w.write_in_order s (left offset)
            ∙ ap (λ y. w.sent s ++ take (written y) (left offset)) e)
          (broken s (left offset) err e refl),
    )

    send_from_lem : (fuel : ℕ) → Ends fuel
    send_from_lem zero offset s lt f = absurd (omega arith)
    send_from_lem (suc fuel) offset s lt f =
        send_round fuel offset s (w.write s (left offset)).0 (send_from_lem fuel) lt f refl

  -- Let each error of the system be one that `send` knows. Then `send` of a message of its stated
  -- size, with fuel above its length and the system's patience, returns without a fault. If it
  -- answers true, the whole message has gone out, in order and with `ext` cleared; if it answers
  -- false, only a front of it has, and the peer has hung up or the system reported an error.
  pub send_lem :
      Known
      → (fuel : ℕ) (msg : List ℕ) (s : w.State) → size_of msg ≡ length msg
      → 0 < length msg
      → length msg < 2 ^ 32
      → length msg + w.patience s < fuel
      → (r : Sending w.State) × (send w fuel msg s ≡ some r) × Sent w (w.sent s) (set_ext msg 0) r
  unfolding send
  send_lem known fuel msg s sized some_byte small f =
      let clear = set_ext msg 0 in
      let l : length clear ≡ length msg = length-set_ext msg 0 in
      let (r, run, g) =
        send_from_lem known clear (size_of-set_ext msg 0 ∙ sized ∙ sym l) (omega (arith, l)) fuel 0
          s (omega (arith, l)) (omega (arith, l)) in
      (
        r,
        run,
        subst (λ x. Sent w (w.sent s) x r) (take_all (length clear - 0) clear (omega arith)) g,
      )
