-- ===== src/Client/Connection.antt =====
-- `cnn_send` (clients/c/connection.c), and what has gone out when it returns.
use g_max_linked.Base.{
  ℕ, zero, suc, ◌+◌, ◌≤◌, ◌<◌, ◌≡◌, refl, ap, subst, ◌∙◌, Bool, true, false, inl, inr, List, ◌++◌,
  append-nil, append_assoc, length, take, drop, take_all, take-add, take-append-drop, length-drop,
  leb, if◌then◌else◌, Bool-cases, arith,
}
use g_max_linked.Socket.{WriteResult, wrote, shut, full, refused, written, Writer}

-- `cnn_send` has returned 0, -1 or -2, or its fuel has run out.
pub data Sending (S : Type 0) : Type 0 where
  whole : S → Sending S
  unconnected : S → Sending S
  broken : S → Sending S
  unfinished : Sending S

-- What the loop does with the result of its `write`; `next` is its next round, `left` what was offered.
unfoldable pub on_write :
    {S : Type 0} → (List ℕ → S → Sending S) → List ℕ → WriteResult → S → Sending S
on_write next left (wrote n) s =
    let more = next (drop n left) s in if leb (length left) n then whole s else more
on_write next left shut s = broken s
on_write next left full s = next left s
on_write next left (refused e) s = broken s

module _ (w : Writer) where
  open w use {State, write}

  -- The loop, with what is left of the buffer, on fuel.
  unfoldable pub send_left : ℕ → List ℕ → State → Sending State
  unfolding on_write
  send_left zero left s = unfinished
  send_left (suc fuel) left s = on_write (send_left fuel) left (write s left).0 (write s left).1

  unfoldable pub cnn_send : ℕ → Bool → List ℕ → State → Sending State
  unfolding send_left
  cnn_send fuel is_connected buffer s = elim is_connected [
    | true ↦ send_left fuel buffer s
    | false ↦ unconnected s
  ]

  -- 0 when all has gone out, in order, and -2 when only a front has; it ends.
  abbrev pub Sent : List ℕ → List ℕ → Sending w.State → Type 0
  Sent before bytes (whole s) = w.sent s ≡ before ++ bytes
  Sent before bytes (broken s) = (n : ℕ) × (n ≤ length bytes) × (w.sent s ≡ before ++ take n bytes)
  Sent before bytes (unconnected s) = ⊥
  Sent before bytes unfinished = ⊥

  Sent-more :
      (before left : List ℕ) (n : ℕ) (r : Sending w.State)
      → n ≤ length left
      → Sent (before ++ take n left) (drop n left) r
      → Sent before left r
  Sent-more before left n (whole s) l e =
      e
      ∙ append_assoc before (take n left) (drop n left)
      ∙ ap (λ x. before ++ x) (take-append-drop n left)
  Sent-more before left n (broken s) l (m, k, e) = (
    n + m,
    omega (arith, length-drop n left),
    e
        ∙ append_assoc before (take n left) (take m (drop n left))
        ∙ ap (λ x. before ++ x) (take-add n m left),
  )
  Sent-more before left n (unconnected s) l e = e
  Sent-more before left n unfinished l e = e

  send_round :
      (fuel : ℕ) (left : List ℕ) (s : w.State) (x : WriteResult)
      → ((rest : List ℕ) (t : w.State)
          → 0 < length rest
          → length rest + w.patience t < fuel
          → Sent (w.sent t) rest (send_left fuel rest t))
      → 0 < length left
      → length left + w.patience s < suc fuel
      → (w.write s left).0 ≡ x
      → Sent (w.sent s) left (on_write (send_left fuel) left x (w.write s left).1)
  unfolding on_write
  send_round fuel left s (wrote n) ih z f e = elim (Bool-cases (leb (length left) n)) [
    | inl done ↦ rw done (out ∙ ap (λ y. w.sent s ++ y) (take_all n left (ground arith)))
    | inr more ↦ rw more (
        Sent-more (w.sent s) left n (send_left fuel (drop n left) s') bounds.1 (
          subst (λ y. Sent y (drop n left) (send_left fuel (drop n left) s')) out
            (ih (drop n left) s' (ground (arith, length-drop n left))
              (omega (arith, bounds, length-drop n left)))))
  ]
    where
      s' : w.State
      s' = (w.write s left).1

      bounds : (0 < n) × (n ≤ length left) × (w.patience s' ≤ w.patience s)
      bounds = w.write_bounded s left n e

      out : w.sent s' ≡ w.sent s ++ take n left
      out = w.write_in_order s left ∙ ap (λ y. w.sent s ++ take (written y) left) e
  send_round fuel left s shut ih z f e =
      (0, omega arith, w.write_in_order s left ∙ ap (λ y. w.sent s ++ take (written y) left) e)
  send_round fuel left s full ih z f e =
      let s' = (w.write s left).1 in
      let same : w.sent s' ≡ w.sent s =
        w.write_in_order s left
        ∙ ap (λ y. w.sent s ++ take (written y) left) e
        ∙ append-nil (w.sent s) in
      subst (λ y. Sent y left (send_left fuel left s')) same
        (ih left s' z (omega (arith, w.write_full s left e)))
  send_round fuel left s (refused err) ih z f e =
      (0, omega arith, w.write_in_order s left ∙ ap (λ y. w.sent s ++ take (written y) left) e)

  send_left-Sent :
      (fuel : ℕ) (left : List ℕ) (s : w.State)
      → 0 < length left
      → length left + w.patience s < fuel
      → Sent (w.sent s) left (send_left fuel left s)
  unfolding send_left
  send_left-Sent zero left s z f = absurd (omega arith)
  send_left-Sent (suc fuel) left s z f =
      send_round fuel left s (w.write s left).0 (send_left-Sent fuel) z f refl

  -- On a connection the client's `cnn_send` of some bytes, with fuel above their number and the system's
  -- patience, returns: with 0, and then all of them have gone out, in order, or with -2, and then only
  -- a front of them has.
  pub cnn_send-Sent :
      (fuel : ℕ) (buffer : List ℕ) (s : w.State)
      → 0 < length buffer
      → length buffer + w.patience s < fuel
      → Sent (w.sent s) buffer (cnn_send fuel true buffer s)
  unfolding cnn_send
  cnn_send-Sent fuel buffer s z f = send_left-Sent fuel buffer s z f
