-- ===== src/Database/Check.antt =====
-- `checkMessages`: the messages queued for a user are pushed to its transaction.
use g_max_linked.Base.{
  ℕ, ◌-◌, ◌%◌, ◌^◌, Bool, true, false, not, ◌||◌, Option, none, some, List, [], ◌∷◌, if◌then◌else◌,
  ◌==◌, ltb, leb, length, u32, u16,
}
use g_max_linked.ConfReader.{strtol}
use g_max_linked.Config.{Redis, Msg}
use g_max_linked.Transaction.Act.{Transaction, Answers, Settings, Act, c_string}
use g_max_linked.Transaction.Pdu.{Push}
use g_max_linked.Transaction.Messages.{handle_push_message}
use g_max_linked.Database.Run.{
  zcount_user, zrange_user, zrange_user_after, hmget_message, Element, nil_element, string_element,
  other_element, Reply, no_reply, failed, nil, status, integer, string, array, Outside, Operator,
  Code, ◌>>=◌, ◌>>◌, pure, get, fault, assert_that, command,
}
use g_max_linked.Database.Operator.{error_handler, connect}

-- The database and the transaction that messages are pushed to.
pub record Session : Type 0 where
  pub operator : Operator
  pub transaction : Transaction

abbrev pub on_operator : {A : Type 0} → Code Operator A → Code Session A
on_operator m s = elim (m s.operator) [
  | none ↦ none
  | some (a, o) ↦ some (a, record s { operator = o })
]

abbrev pub on_transaction : {A : Type 0} → Act A → Code Session A
on_transaction m s = elim (m s.transaction) [
  | none ↦ none
  | some (a, t) ↦ some (a, record s { transaction = t })
]

abbrev pub is_nil : Element → Bool
is_nil nil_element = true
is_nil (string_element s) = false
is_nil other_element = false

-- `str` of an element that is no string is no text.
abbrev pub text : Element → Option (List ℕ)
text nil_element = none
text (string_element s) = some s
text other_element = none

-- A message with the length of its text, from the parts that are stored under `key`: without one of
-- them it is passed over, `some none`.
unfoldable pub four_parts :
    List ℕ → Element → Element → Element → Element → Option (Option (Push × ℕ))
four_parts key a b c d =
    if (is_nil a || is_nil b) || (is_nil c || is_nil d) then some none else elim (text a) [
      | none ↦ none
      | some x ↦ elim (text b) [
        | none ↦ none
        | some y ↦ elim (text c) [
          | none ↦ none
          | some z ↦ elim (text d) [
            | none ↦ none
            | some w ↦ some (
                some (
                  record {
                    orn_type = strtol x % 2 ^ 8;
                    orn_id = strtol y;
                    orn_ext_id = strtol z;
                    message_id = strtol key;
                    json = c_string w;
                  },
                  u16 (length w),
                ))
          ]
        ]
      ]
    ]

unfoldable pub stored : List ℕ → Reply → Option (Option (Push × ℕ))
unfolding four_parts
stored key (array (a ∷ b ∷ c ∷ d ∷ [])) = four_parts key a b c d
stored key other = none

module _ (out : Outside) (cfg : Redis) (msg : Msg) (depth : ℕ) (env : Answers)
    (app : Settings) where
  unfoldable pub push_stored : ℕ → Option (Option (Push × ℕ)) → Code Session Bool
  push_stored score none = fault
  push_stored score (some none) = pure true
  push_stored score (some (some (p, size))) =
      on_transaction (handle_push_message env app p size score)

  -- One round of the loop: whether it goes on.
  unfoldable pub push_one : Element → Element → Code Session Bool
  unfolding error_handler connect stored push_stored
  push_one (string_element key) (string_element score) = do
    r ← on_operator (command out (hmget_message (c_string key)))
    ok ← on_operator (error_handler (connect out cfg depth) r)
    if not ok then pure false else push_stored (strtol score) (stored key r)
  push_one key score = fault

  -- The loop over the ids and scores; a last element without its score is left out.
  unfoldable pub push_all : List Element → Code Session Bool
  unfolding push_one
  push_all [] = pure true
  push_all (key ∷ []) = pure true
  push_all (key ∷ score ∷ es) =
      let rest = push_all es in push_one key score >>= λ on. if on then rest else pure false

  unfoldable pub push_listed : Reply → Code Session Bool
  unfolding push_all
  push_listed nil = pure false
  push_listed (array es) = push_all es
  push_listed no_reply = fault
  push_listed failed = fault
  push_listed status = fault
  push_listed (integer n) = fault
  push_listed (string t) = fault

  unfoldable pub push_reply : Reply → Code Session Bool
  unfolding error_handler connect push_listed
  push_reply r = do
    ok ← on_operator (error_handler (connect out cfg depth) r)
    if not ok then pure false else push_listed r

  -- The number of messages that are skipped, or nothing if there are none.
  unfoldable pub skipped : ℕ → Option ℕ
  skipped n =
      let num = u32 n in
      if num == 0 || leb (2 ^ 31) num
      then none
      else some (if leb msg.valid_number num then num - msg.valid_number else 0)

  -- The newest messages, at most `VALID_NUMBER`.
  unfoldable pub push_from : Option ℕ → Code Session Bool
  unfolding push_reply
  push_from none = pure false
  push_from (some offset) = do
    s ← get
    r ← on_operator (command out (zrange_user s.transaction.id offset msg.valid_number))
    push_reply r

  unfoldable pub push_counted : Reply → Code Session Bool
  unfolding push_from skipped
  push_counted (integer n) = push_from (skipped n)
  push_counted no_reply = fault
  push_counted failed = fault
  push_counted nil = fault
  push_counted status = fault
  push_counted (string t) = fault
  push_counted (array es) = fault

  unfoldable pub push_newest : Reply → Code Session Bool
  unfolding error_handler connect push_counted
  push_newest r = do
    ok ← on_operator (error_handler (connect out cfg depth) r)
    if not ok then pure false else push_counted r

  -- The limit of the second query is the duration's lower 32 bits, as `%u` prints it.
  unfoldable pub check_messages : Code Session Bool
  unfolding push_reply push_newest
  check_messages = do
    s ← get
    assert_that s.operator.context
    let time = out.clock s.operator.log
    let last = s.transaction.last_update
    assert_that (ltb last time)
    if last == 0 || ltb msg.valid_duration (time - last)
        then (do r ← on_operator (command out (zcount_user s.transaction.id)); push_newest r)
        else (do
          r ←
              on_operator
                (command out (zrange_user_after s.transaction.id last (u32 msg.valid_duration)))
          push_reply r)
