-- ===== src/Socket/Samples.antt =====
-- A peer that takes what it is offered in small parts, and one that sends.
use g_max_linked.Base.{
  ℕ, zero, suc, ◌≤◌, ◌<◌, ◌≡◌, refl, sym, ap, Bool, true, false, List, [], ◌∷◌, ◌++◌, append-nil,
  length, take, drop, take-append-drop, length-take, min, arith,
}
use g_max_linked.Socket.{
  ReadResult, data_read, closed, again, consumed, Reader, WriteResult, wrote, shut, full, written,
  Writer,
}

-- A peer that takes at most ten bytes at a time, after some refusals for want of room.
abbrev pub next_write : List ℕ × ℕ → List ℕ → WriteResult × (List ℕ × ℕ)
next_write (out, zero) [] = (shut, (out, zero))
next_write (out, zero) (x ∷ bytes) =
    (wrote (suc (min (length bytes) 9)), (out ++ x ∷ take (min (length bytes) 9) bytes, zero))
next_write (out, suc k) bytes = (full, (out, k))

pub next_write-in_order :
    (s : List ℕ × ℕ) (bytes : List ℕ)
    → (next_write s bytes).1.0 ≡ s.0 ++ take (written (next_write s bytes).0) bytes
next_write-in_order (out, zero) [] = sym (append-nil out)
next_write-in_order (out, zero) (x ∷ bytes) = refl
next_write-in_order (out, suc k) bytes = sym (append-nil out)

pub next_write-bounded :
    (s : List ℕ × ℕ) (bytes : List ℕ) (n : ℕ)
    → (next_write s bytes).0 ≡ wrote n
    → (0 < n) × (n ≤ length bytes) × ((next_write s bytes).1.1 ≤ s.1)
next_write-bounded (out, zero) [] n e = ground arith
next_write-bounded (out, zero) (x ∷ bytes) n e = ground arith
next_write-bounded (out, suc k) bytes n e = ground arith

pub next_write-full :
    (s : List ℕ × ℕ) (bytes : List ℕ)
    → (next_write s bytes).0 ≡ full
    → (next_write s bytes).1.1 < s.1
next_write-full (out, zero) [] e = ground arith
next_write-full (out, zero) (x ∷ bytes) e = ground arith
next_write-full (out, suc k) bytes e = ground arith

abbrev pub sips : Writer
sips = record {
  State = List ℕ × ℕ;
  write = next_write;
  sent = λ s. s.0;
  patience = λ s. s.1;
  write_in_order = next_write-in_order;
  write_bounded = next_write-bounded;
  write_full = next_write-full;
}

-- A peer whose bytes all come as soon as they are asked for, and that has hung up or not.
abbrev pub next_read : Bool × List ℕ → ℕ → ReadResult × (Bool × List ℕ)
next_read (true, []) n = (again, (true, []))
next_read (false, []) n = (closed, (false, []))
next_read (b, x ∷ s) zero = (again, (b, x ∷ s))
next_read (b, x ∷ s) (suc n) = (data_read (x ∷ take n s), (b, drop n s))

pub next_read-in_order :
    (s : Bool × List ℕ) (n : ℕ) → s.1 ≡ consumed (next_read s n).0 ++ (next_read s n).1.1
next_read-in_order (true, []) n = refl
next_read-in_order (false, []) n = refl
next_read-in_order (true, x ∷ s) zero = refl
next_read-in_order (false, x ∷ s) zero = refl
next_read-in_order (true, x ∷ s) (suc n) = ap (◌∷◌ x) (sym (take-append-drop n s))
next_read-in_order (false, x ∷ s) (suc n) = ap (◌∷◌ x) (sym (take-append-drop n s))

pub next_read-bounded :
    (s : Bool × List ℕ) (n : ℕ) (bytes : List ℕ)
    → (next_read s n).0 ≡ data_read bytes
    → (0 < length bytes) × (length bytes ≤ n)
next_read-bounded (true, []) n bytes e = ground arith
next_read-bounded (false, []) n bytes e = ground arith
next_read-bounded (true, x ∷ s) zero bytes e = ground arith
next_read-bounded (false, x ∷ s) zero bytes e = ground arith
next_read-bounded (true, x ∷ s) (suc n) bytes e = ground (arith, length-take n s)
next_read-bounded (false, x ∷ s) (suc n) bytes e = ground (arith, length-take n s)

abbrev pub floods : Reader
floods = record {
  State = Bool × List ℕ;
  read = next_read;
  pending = λ s. s.1;
  read_in_order = next_read-in_order;
  read_bounded = next_read-bounded;
}
