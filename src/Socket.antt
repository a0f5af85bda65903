-- ===== src/Socket.antt =====
-- What the program asks of a connected socket: `read` and `write`, with the `errno` values that
-- src/traffic/CNode.cpp tells apart. The system's side is a parameter with the documented
-- behaviour of the two calls.
pub mod Samples
use g_max_linked.Base.{ℕ, ◌≤◌, ◌<◌, ◌≡◌, List, [], ◌++◌, length, take}

pub data Errno : Type 0 where
  ebadf efault efbig eintr einval eio eisdir enospc epipe other : Errno

-- `closed` is a result of 0, `again` is -1 with EAGAIN.
pub data ReadResult : Type 0 where
  data_read : List ℕ → ReadResult
  closed : ReadResult
  again : ReadResult
  failed : Errno → ReadResult

abbrev pub consumed : ReadResult → List ℕ
consumed (data_read bytes) = bytes
consumed _ = []

-- `read` returns some of the bytes that are on their way, in order, and at most as many as asked for.
pub record Reader : Type 1 where
  pub State : Type 0
  pub read : State → ℕ → ReadResult × State
  pub pending : State → List ℕ
  pub read_in_order :
      (s : State) (n : ℕ) → pending s ≡ consumed (read s n).0 ++ pending (read s n).1
  pub read_bounded :
      (s : State) (n : ℕ) (bytes : List ℕ)
      → (read s n).0 ≡ data_read bytes
      → (0 < length bytes) × (length bytes ≤ n)

pub data WriteResult : Type 0 where
  wrote : ℕ → WriteResult
  shut : WriteResult
  full : WriteResult
  refused : Errno → WriteResult

abbrev pub written : WriteResult → ℕ
written (wrote n) = n
written _ = 0

-- `write` takes a front of the bytes that it is offered. `patience` bounds how often in a row it will
-- still answer EAGAIN: a peer that never reads again would keep `send` in its loop.
pub record Writer : Type 1 where
  pub State : Type 0
  pub write : State → List ℕ → WriteResult × State
  pub sent : State → List ℕ
  pub patience : State → ℕ
  pub write_in_order :
      (s : State) (bytes : List ℕ)
      → sent (write s bytes).1 ≡ sent s ++ take (written (write s bytes).0) bytes
  pub write_bounded :
      (s : State) (bytes : List ℕ) (n : ℕ)
      → (write s bytes).0 ≡ wrote n
      → (0 < n) × (n ≤ length bytes) × (patience (write s bytes).1 ≤ patience s)
  pub write_full :
      (s : State) (bytes : List ℕ)
      → (write s bytes).0 ≡ full
      → patience (write s bytes).1 < patience s
