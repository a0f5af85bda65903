-- ===== src/Database/Run.antt =====
-- Commands to the database, its replies, and code that has both. `none` is a fault: a failed `assert`,
-- or a recursion that is too deep for the stack.
use g_max_linked.Base.{ℕ, Bool, true, false, Option, none, some, List, ◌∷◌}

-- The commands of the source with their arguments, and the call that connects.
pub data Command : Type 0 where
  connect_to : List ℕ → ℕ → ℕ → Command
  auth : List ℕ → Command
  select : ℕ → Command
  zscore_session : List ℕ → Command
  hincrby_message_id : Command
  hmset_message : ℕ → ℕ → ℕ → ℕ → List ℕ → Command
  zadd_user : ℕ → ℕ → ℕ → Command
  zadd_group : ℕ → ℕ → ℕ → Command
  zrange_members : ℕ → Command
  zcount_user : ℕ → Command
  zrange_user : ℕ → ℕ → ℕ → Command
  zrange_user_after : ℕ → ℕ → ℕ → Command
  hmget_message : List ℕ → Command

-- `redisReply`: without a reply the connection is lost. A number is the 64 bits of a `long long`.
pub data Element : Type 0 where
  nil_element : Element
  string_element : List ℕ → Element
  other_element : Element

pub data Reply : Type 0 where
  no_reply : Reply
  failed : Reply
  nil : Reply
  status : Reply
  integer : ℕ → Reply
  string : List ℕ → Reply
  array : List Element → Reply

-- `redisConnectWithTimeout` gives no context, one with an error, or one that is open.
pub data Connection : Type 0 where
  no_memory : Connection
  refused : Connection
  open_connection : Connection

-- What comes from outside, given all the commands before, the last first.
pub record Outside : Type 0 where
  pub connects : List Command → Connection
  pub replies : List Command → Command → Reply
  pub clock : List Command → ℕ

-- `context` tells whether `_context` is there; `log` is what was sent so far, the last first.
pub record Operator : Type 0 where
  pub context : Bool
  pub log : List Command

abbrev pub Code : Type 0 → Type 0 → Type 0
Code S A = S → Option (A × S)

infixl 5 ◌>>=◌ ◌>>◌
abbrev pub ◌>>=◌ : {S A B : Type 0} → Code S A → (A → Code S B) → Code S B
◌>>=◌ m f s = elim (m s) [ none ↦ none | some (a, s') ↦ f a s' ]

abbrev pub ◌>>◌ : {S B : Type 0} → Code S (Unit {0}) → Code S B → Code S B
m >> k = m >>= λ _. k

abbrev pub pure : {S A : Type 0} → A → Code S A
pure a s = some (a, s)

abbrev pub get : {S : Type 0} → Code S S
get s = some (s, s)

abbrev pub put : {S : Type 0} → S → Code S (Unit {0})
put s' s = some (tt, s')

abbrev pub fault : {S A : Type 0} → Code S A
fault s = none

abbrev pub assert_that : {S : Type 0} → Bool → Code S (Unit {0})
assert_that true s = some (tt, s)
assert_that false s = none

-- `redisCommand`.
abbrev pub command : Outside → Command → Code Operator Reply
command out c s = some (out.replies s.log c, record s { log = c ∷ s.log })
