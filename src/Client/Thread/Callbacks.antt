-- ===== src/Client/Thread/Callbacks.antt =====
-- What the callbacks tell of the connection, for each part of a round.
use mathlib.Core.List.{map}
use g_max_linked.Base.{
  ℕ, ◌≡◌, refl, ap, ◌∙◌, Bool, true, false, not, ◌&&◌, Bool-cases, inl, inr, Option, none, some,
  List, [], ◌∷◌, ◌++◌, ◌==◌, if◌then◌else◌, arith,
}
use g_max_linked.Client.Receive.{Receiving, ends}
use g_max_linked.Client.Thread.{
  Act, connected, received, has_error, closed, fini_socket, sleeps, init_socket, of_thread,
  connecting, selecting, Thread, ConnectResult, at_once, in_progress, refused, Found, Turned,
  turned, unfinished, says, renew, loses, finish, on_connect, on_writable, on_received,
}

-- Whether there is a connection after some calls, to one who hears only the callbacks, and `none` if
-- `on_connected` comes when there is one already.
unfoldable pub told : Bool → List Act → Option Bool
told c [] = some c
told c (connected p b ∷ log) = if c then none else told true log
told c (has_error p ∷ log) = told false log
told c (closed ∷ log) = told false log
told c (received msg ∷ log) = told c log
told c (fini_socket ∷ log) = told c log
told c (sleeps n ∷ log) = told c log
told c (init_socket ∷ log) = told c log

pub told-append :
    (c d : Bool) (log more : List Act) → told c log ≡ some d → told c (log ++ more) ≡ told d more
unfolding told
told-append c d [] more e = ground arith
told-append true d (connected p b ∷ log) more e = absurd (cc)
told-append false d (connected p b ∷ log) more e = told-append true d log more e
told-append c d (has_error p ∷ log) more e = told-append false d log more e
told-append c d (closed ∷ log) more e = told-append false d log more e
told-append c d (received msg ∷ log) more e = told-append c d log more e
told-append c d (fini_socket ∷ log) more e = told-append c d log more e
told-append c d (sleeps n ∷ log) more e = told-append c d log more e
told-append c d (init_socket ∷ log) more e = told-append c d log more e

pub told-received : (c : Bool) (msgs : List (List ℕ)) → told c (map received msgs) ≡ some c
unfolding told
told-received c [] = refl
told-received c (m ∷ msgs) = told-received c msgs

-- The callbacks tell whether there is a connection, and there is none before `connect`.
pub record IsTold (t : Thread) : Type 0 where
  pub same : told false t.log ≡ some t.is_connected
  pub before : t.position ≡ connecting → t.is_connected ≡ false

abbrev pub Tells : {S : Type 0} → Turned S → Type 0
Tells (turned t s) = IsTold t
Tells unfinished = Unit {0}

pub loses-IsTold :
    (act : Act) (t : Thread)
    → ((c : Bool) → told c (act ∷ renew t) ≡ some false)
    → IsTold t
    → IsTold (loses act t)
loses-IsTold act t e i = record {
  same = told-append false t.is_connected t.log (act ∷ renew t) i.same ∙ e t.is_connected;
  before = λ _. refl;
}

pub loses-closed : (t : Thread) → IsTold t → IsTold (loses closed t)
unfolding told
loses-closed t i = loses-IsTold closed t (λ c. refl) i

pub finish-IsTold : (t : Thread) → IsTold t → IsTold (finish t)
unfolding told
finish-IsTold t i = record {
  same = told-append false t.is_connected t.log (closed ∷ fini_socket ∷ []) i.same;
  before = λ _. refl;
}

pub on_connect-IsTold :
    {S : Type 0} (x : ConnectResult S) (t : Thread) (s : S)
    → t.position ≡ connecting
    → IsTold t
    → Tells (on_connect x t s)
unfolding on_connect told
on_connect-IsTold (at_once s') t s p i = record {
  same = told-append false false t.log _ (i.same ∙ ap some (i.before p));
  before = λ e. cc;
}
on_connect-IsTold (in_progress s') t s p i = record { same = i.same; before = λ e. cc }
on_connect-IsTold refused t s p i = record {
  same = told-append false t.is_connected t.log _ i.same;
  before = i.before;
}

pub on_writable-IsTold :
    (f : Found) (t : Thread) → t.position ≡ selecting → IsTold t → IsTold (on_writable f t)
unfolding on_writable told
on_writable-IsTold f t p i = elim (Bool-cases (f.is_writable && not t.is_connected)) [
  | inr away ↦ rw away i
  | inl new ↦ rw new (elim (Bool-cases (f.so_error == 0)) [
    | inl well ↦ rw well (record {
      same = told-append false false t.log _ (i.same ∙ ap some (unconnected new)) ∙ connects;
      before = λ e. cc;
    })
    | inr failed ↦ rw failed (record { same = i.same; before = λ _. unconnected new })
  ])
]
  where
    unconnected : (f.is_writable && not t.is_connected) ≡ true → t.is_connected ≡ false
    unconnected e = ground arith

    connects : told false (connected of_thread true ∷ []) ≡ some true
    connects = refl

pub on_received-IsTold :
    {S : Type 0} (r : Receiving S) (t : Thread)
    → t.position ≡ selecting
    → IsTold t
    → Tells (on_received r t)
unfolding on_received
on_received-IsTold Receiving.out_of_fuel t p i = tt
on_received-IsTold (ends lost msgs link s) t p i = elim (Bool-cases lost) [
  | inl e ↦ rw e (loses-closed (says (record t { link = link }) (map received msgs)) still)
  | inr e ↦ rw e still
]
  where
    still : IsTold (says (record t { link = link }) (map received msgs))
    still = record {
      same = told-append false t.is_connected t.log _ i.same ∙ told-received t.is_connected msgs;
      before = i.before;
    }
