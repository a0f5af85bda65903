-- ===== src/LoopBuffer/Tests.antt =====
-- `CLoopBuffer` on small buffers.
use g_max_linked.Base.{◌≡◌, refl, true, false, some, List, [], ◌∷◌, arith}
use g_max_linked.LoopBuffer.{LoopBuffer}
use g_max_linked.LoopBuffer.Invariant.{IsValid, contents}
use g_max_linked.LoopBuffer.Fifo.{Call, put, get, stored, got, run, queue_run, run_refines}

abbrev fresh : LoopBuffer
fresh = record {
  buffer = 0 ∷ 0 ∷ 0 ∷ 0 ∷ 0 ∷ [];
  total_size = 5;
  actual_size = 5;
  used_size = 0;
  free_size = 5;
  is_padding = false;
  padding = 0;
  write_pos = 0;
  read_pos = 0;
}

-- 1 and 2 at the end, and 3 behind them at the start.
abbrev wrapped : LoopBuffer
wrapped = record {
  buffer = 3 ∷ 0 ∷ 0 ∷ 1 ∷ 2 ∷ [];
  total_size = 5;
  actual_size = 5;
  used_size = 3;
  free_size = 2;
  is_padding = false;
  padding = 0;
  write_pos = 1;
  read_pos = 3;
}

-- The same bytes, with the last place given up as padding.
abbrev padded : LoopBuffer
padded = record {
  buffer = 2 ∷ 3 ∷ 0 ∷ 1 ∷ 0 ∷ [];
  total_size = 5;
  actual_size = 4;
  used_size = 3;
  free_size = 1;
  is_padding = true;
  padding = 1;
  write_pos = 2;
  read_pos = 3;
}

wrapped-IsValid : IsValid wrapped
wrapped-IsValid = ground arith

padded-IsValid : IsValid padded
padded-IsValid = ground arith

contents-small : (contents wrapped ≡ 1 ∷ 2 ∷ 3 ∷ []) × (contents padded ≡ 1 ∷ 2 ∷ 3 ∷ [])
unfolding contents
contents-small = (refl, refl)

abbrev script : List Call
script = put (4 ∷ 5 ∷ 6 ∷ []) ∷ put (4 ∷ 5 ∷ []) ∷ get 4 ∷ get 4 ∷ get 1 ∷ []

queue_run-script :
    queue_run 5 (1 ∷ 2 ∷ 3 ∷ []) script
    ≡ stored false ∷ stored true ∷ got 4 (1 ∷ 2 ∷ 3 ∷ 4 ∷ []) ∷ got 1 (5 ∷ []) ∷ got 0 [] ∷ []
unfolding queue_run
queue_run-script = refl

run_refines_example : run wrapped script ≡ some (queue_run 5 (contents wrapped) script)
run_refines_example = run_refines wrapped script wrapped-IsValid refl (ground arith)
