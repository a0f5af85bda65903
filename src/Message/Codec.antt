-- ===== src/Message/Codec.antt =====
-- The layout of a message: its fields read back what was written, and the setters touch one field.
use g_max_linked.Base.{
  ◌-◌, drop-take, ℕ, zero, suc, ◌+◌, ◌/◌, ◌^◌, ◌≤◌, ◌<◌, ◌≡◌, refl, ap, ◌∙◌, List, ◌++◌, arith,
  length, take, take-append_le,
}
use native.Mathlib.Nat.{pow-suc}
use g_max_linked.Base.Bytes.{
  take-slice, slice, splice, length-splice, slice-splice_before, slice-splice_self,
  take-splice_inside,
}
use g_max_linked.Message.{
  Header, to_bytes, of_bytes, encode, decode, size_of, set_ext, ext_offset, header_size,
}

pub length-to_bytes : (k n : ℕ) → length (to_bytes k n) ≡ k
unfolding to_bytes
length-to_bytes zero n = refl
length-to_bytes (suc k) n = ap suc (length-to_bytes k (n / 256))

pub of_bytes-to_bytes : (k n : ℕ) → n < 256 ^ k → of_bytes (to_bytes k n) ≡ n
unfolding to_bytes of_bytes
of_bytes-to_bytes zero n h = omega arith
of_bytes-to_bytes (suc k) n h =
    omega (arith, of_bytes-to_bytes k (n / 256) (omega (arith, pow-suc 256 k)))

-- Each field holds what its C type can.
pub record Fits (h : Header) : Type 0 where
  pub size_u16 : h.size < 2 ^ 16
  pub type_u16 : h.type < 2 ^ 16
  pub cmd_u16 : h.cmd < 2 ^ 16
  pub ver_u16 : h.ver < 2 ^ 16
  pub lang_u8 : h.lang < 2 ^ 8
  pub seq_u32 : h.seq < 2 ^ 32
  pub stmp_u64 : h.stmp < 2 ^ 64
  pub ext_u64 : h.ext < 2 ^ 64

pub length-encode : (h : Header) → length (encode h) ≡ header_size
unfolding encode
length-encode h = refl

-- Whatever follows it, an encoded header is read back field by field.
pub decode-encode : (h : Header) (rest : List ℕ) → Fits h → decode (encode h ++ rest) ≡ h
unfolding decode encode
decode-encode h rest f = ground arith

-- A new `ext` is read back, and the message keeps its size, its length and the other fields.
pub decode-set_ext :
    (msg : List ℕ) (ext : ℕ)
    → header_size ≤ length msg
    → ext < 2 ^ 64
    → decode (set_ext msg ext) ≡ record (decode msg) { ext = ext }
unfolding decode set_ext
decode-set_ext msg ext h e = λ i. record {
  size = of_bytes (kept 0 2 (omega arith) i);
  type = of_bytes (kept 2 2 (omega arith) i);
  cmd = of_bytes (kept 4 2 (omega arith) i);
  ver = of_bytes (kept 6 2 (omega arith) i);
  lang = of_bytes (kept 8 1 (omega arith) i);
  seq = of_bytes (kept 9 4 (omega arith) i);
  stmp = of_bytes (kept 13 8 (omega arith) i);
  ext =
      (ap of_bytes (slice-splice_self msg ext_offset (to_bytes 8 ext) h)
          ∙ of_bytes-to_bytes 8 ext e)
        i;
}
  where
    kept :
        (off n : ℕ)
        → off + n ≤ ext_offset
        → slice (splice msg ext_offset (to_bytes 8 ext)) off n ≡ slice msg off n
    kept off n p = slice-splice_before msg ext_offset (to_bytes 8 ext) off n p

pub length-set_ext : (msg : List ℕ) (ext : ℕ) → length (set_ext msg ext) ≡ length msg
unfolding set_ext
length-set_ext msg ext = length-splice msg ext_offset (to_bytes 8 ext)

pub size_of-set_ext : (msg : List ℕ) (ext : ℕ) → size_of (set_ext msg ext) ≡ size_of msg
unfolding size_of set_ext
size_of-set_ext msg ext =
    ap of_bytes (slice-splice_before msg ext_offset (to_bytes 8 ext) 0 2 (omega arith))

-- The size is in the first two bytes.
pub size_of-append : (h t : List ℕ) → 2 ≤ length h → size_of (h ++ t) ≡ size_of h
unfolding size_of
size_of-append h t l = ap of_bytes (take-append_le 2 h t l)

pub take-set_ext :
    (msg : List ℕ) (ext n : ℕ)
    → header_size ≤ n
    → take n (set_ext msg ext) ≡ set_ext (take n msg) ext
unfolding set_ext
take-set_ext msg ext n h =
    take-splice_inside msg ext_offset (to_bytes 8 ext) n (omega (arith, length-to_bytes 8 ext))

pub slice-take : (b : List ℕ) (n off k : ℕ) → off + k ≤ n → slice (take n b) off k ≡ slice b off k
slice-take b n off k h =
    ap (take k) (drop-take off n b) ∙ take-slice b off k (n - off) (omega arith)

-- The header is in the front of a message.
pub decode-take : (b : List ℕ) (n : ℕ) → header_size ≤ n → decode (take n b) ≡ decode b
unfolding decode
decode-take b n h = λ i. record {
  size = of_bytes (slice-take b n 0 2 (omega arith) i);
  type = of_bytes (slice-take b n 2 2 (omega arith) i);
  cmd = of_bytes (slice-take b n 4 2 (omega arith) i);
  ver = of_bytes (slice-take b n 6 2 (omega arith) i);
  lang = of_bytes (slice-take b n 8 1 (omega arith) i);
  seq = of_bytes (slice-take b n 9 4 (omega arith) i);
  stmp = of_bytes (slice-take b n 13 8 (omega arith) i);
  ext = of_bytes (slice-take b n 21 8 (omega arith) i);
}
