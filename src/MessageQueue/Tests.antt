-- ===== src/MessageQueue/Tests.antt =====
-- The group's queue on two small messages.
use g_max_linked.Base.{ℕ, zero, suc, ◌≡◌, refl, ap, false, some, List, [], ◌∷◌, ◌++◌, arith, length}
use g_max_linked.Message.{size_of, msg_max_length}
use g_max_linked.LoopBuffer.{LoopBuffer}
use g_max_linked.LoopBuffer.Invariant.{IsValid, contents}
use g_max_linked.MessageQueue.Order.{IsFrame}
use g_max_linked.MessageQueue.History.{Call, put, roll, run, queue_run, history_refines}

-- A message of four bytes, wrapped round the end, and two bytes of the next.
abbrev queue : LoopBuffer
queue = record {
  buffer = 0 ∷ 9 ∷ 8 ∷ 3 ∷ 0 ∷ 7 ∷ 0 ∷ 4 ∷ [];
  total_size = 8;
  actual_size = 8;
  used_size = 7;
  free_size = 1;
  is_padding = false;
  padding = 0;
  write_pos = 6;
  read_pos = 7;
}

abbrev zeros : ℕ → List ℕ
zeros zero = []
zeros (suc n) = 0 ∷ zeros n

length-zeros : (n : ℕ) → length (zeros n) ≡ n
length-zeros zero = refl
length-zeros (suc n) = ap suc (length-zeros n)

abbrev first_msg : List ℕ
first_msg = 4 ∷ 0 ∷ 9 ∷ 8 ∷ []

abbrev second_msg : List ℕ
second_msg = 3 ∷ 0 ∷ 7 ∷ []

queue-IsValid : IsValid queue
queue-IsValid = ground arith

queue_holds : contents queue ≡ first_msg ++ second_msg
unfolding contents
queue_holds = refl

first-IsFrame : IsFrame first_msg
unfolding size_of
first-IsFrame = ground arith

second-IsFrame : IsFrame second_msg
unfolding size_of
second-IsFrame = ground arith

abbrev script : List Call
script = put second_msg ∷ roll ∷ put first_msg ∷ roll ∷ roll ∷ roll ∷ []

history_refines_example :
    run queue (zeros msg_max_length) script
    ≡ some (queue_run 8 (first_msg ∷ second_msg ∷ []) script)
history_refines_example =
    history_refines queue (zeros msg_max_length) (first_msg ∷ second_msg ∷ []) script queue-IsValid
      refl (length-zeros msg_max_length) queue_holds (first-IsFrame, (second-IsFrame, tt))
      (second-IsFrame, (first-IsFrame, tt))
