-- ===== src/TransactionManager/Internal.antt =====
-- The messages that the program sends to itself, and what a transaction does with them.
use g_max_linked.Base.{ℕ, ◌^◌, ◌≡◌, ◌<◌, refl, ap, ◌∙◌, List, ◌++◌, arith}
use g_max_linked.Message.{
  Header, encode, decode, field, to_bytes, mt_control, mc_on_timer, mc_on_over, ml_cn,
}
use g_max_linked.Message.Codec.{decode-encode, of_bytes-to_bytes}
use g_max_linked.Transaction.Act.{Transaction, Answers, Settings, ExitReason, reason_code}
use g_max_linked.Transaction.Pdu.{over_message}
use g_max_linked.Transaction.Handlers.{on_stop}
use g_max_linked.Transaction.Messages.{on_message, on_timer}
use g_max_linked.TransactionManager.{timer_message}

on_message-on_timer :
    (env : Answers) (cfg : Settings) (msg : List ℕ) (t : Transaction)
    → (decode msg).type ≡ mt_control
    → (decode msg).cmd ≡ mc_on_timer
    → on_message env cfg msg t ≡ on_timer env cfg msg t
unfolding on_message
on_message-on_timer env cfg msg t p q = rw (p, q) refl

pub on_message-on_stop :
    (env : Answers) (cfg : Settings) (msg : List ℕ) (t : Transaction)
    → (decode msg).type ≡ mt_control
    → (decode msg).cmd ≡ mc_on_over
    → on_message env cfg msg t ≡ on_stop env cfg (field msg 29 4) t
unfolding on_message
on_message-on_stop env cfg msg t p q = rw (p, q) refl

field-timer :
    (h : Header) (timer parameter : ℕ)
    → timer < 2 ^ 64
    → parameter < 2 ^ 64
    → (field (encode h ++ (to_bytes 8 timer ++ to_bytes 8 parameter)) 29 8 ≡ timer)
      × (field (encode h ++ (to_bytes 8 timer ++ to_bytes 8 parameter)) 37 8 ≡ parameter)
unfolding field encode to_bytes
field-timer h timer parameter i p = (of_bytes-to_bytes 8 timer i, of_bytes-to_bytes 8 parameter p)

field-over :
    (h : Header) (reason : ℕ)
    → reason < 2 ^ 32
    → field (encode h ++ to_bytes 4 reason) 29 4 ≡ reason
unfolding field encode to_bytes
field-over h reason r = of_bytes-to_bytes 4 reason r

pub reason_code-small : (reason : ExitReason) → reason_code reason < 2 ^ 32
reason_code-small reason = ground arith

-- The message of a timer reaches `__onTimer`, which reads back the timer and its parameter, and the
-- message carries the address of its transaction.
pub timer_message_lem :
    (env : Answers) (cfg : Settings) (version stmp transaction timer parameter : ℕ)
    (t : Transaction)
    → version < 2 ^ 16
    → stmp < 2 ^ 64
    → transaction < 2 ^ 64
    → timer < 2 ^ 64
    → parameter < 2 ^ 64
    → let msg = timer_message version stmp transaction timer parameter in
      (on_message env cfg msg t ≡ on_timer env cfg msg t)
      × (field msg 29 8 ≡ timer)
      × (field msg 37 8 ≡ parameter)
      × ((decode msg).ext ≡ transaction)
unfolding timer_message
timer_message_lem env cfg version stmp transaction timer parameter t v s a i p =
    let h : Header = record {
      size = 45;
      type = mt_control;
      cmd = mc_on_timer;
      ver = version;
      lang = 1;
      seq = 0;
      stmp = stmp;
      ext = transaction;
    } in
    let read : decode (encode h ++ (to_bytes 8 timer ++ to_bytes 8 parameter)) ≡ h =
      decode-encode h (to_bytes 8 timer ++ to_bytes 8 parameter) (ground arith) in
    let (timer_back, parameter_back) = field-timer h timer parameter i p in
    (
      on_message-on_timer env cfg (timer_message version stmp transaction timer parameter) t
          (ap (λ x. x.type) read) (ap (λ x. x.cmd) read),
      timer_back,
      parameter_back,
      ap (λ x. x.ext) read,
    )

-- What the message of `over` says, to whoever reads it.
pub over_message-parts :
    (self version stmp : ℕ) (reason : ExitReason)
    → self < 2 ^ 64
    → version < 2 ^ 16
    → stmp < 2 ^ 64
    → let msg = over_message self version stmp reason in
      ((decode msg).type ≡ mt_control)
      × ((decode msg).cmd ≡ mc_on_over)
      × ((decode msg).ext ≡ self)
      × (field msg 29 4 ≡ reason_code reason)
unfolding over_message
over_message-parts self version stmp reason a v s =
    let h : Header = record {
      size = 33;
      type = mt_control;
      cmd = mc_on_over;
      ver = version;
      lang = ml_cn;
      seq = 0;
      stmp = stmp;
      ext = self;
    } in
    let read : decode (encode h ++ to_bytes 4 (reason_code reason)) ≡ h =
      decode-encode h (to_bytes 4 (reason_code reason)) (ground arith) in
    (
      ap (λ x. x.type) read,
      ap (λ x. x.cmd) read,
      ap (λ x. x.ext) read,
      field-over h (reason_code reason) (reason_code-small reason),
    )

-- A transaction that handles the message of `over` ends as with `over` on its own thread: it runs
-- `__onStop` with the same reason.
pub over_message_lem :
    (env : Answers) (cfg : Settings) (self version stmp : ℕ) (reason : ExitReason) (t : Transaction)
    → self < 2 ^ 64
    → version < 2 ^ 16
    → stmp < 2 ^ 64
    → (on_message env cfg (over_message self version stmp reason) t
        ≡ on_stop env cfg (reason_code reason) t)
      × ((decode (over_message self version stmp reason)).ext ≡ self)
over_message_lem env cfg self version stmp reason t a v s =
    let (type, cmd, ext, code) = over_message-parts self version stmp reason a v s in
    (
      on_message-on_stop env cfg (over_message self version stmp reason) t type cmd
          ∙ ap (λ k. on_stop env cfg k t) code,
      ext,
    )
