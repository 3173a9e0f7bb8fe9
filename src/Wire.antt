-- ===== src/Wire.antt =====
-- The byte order and the buffers of the protocol: the class `BufWriter` and `BufReader` of
-- server_main.cpp and client_main.cpp. A buffer is a list of bytes, a pointer into it an offset.
pub mod Order
pub mod Blobs
pub mod Reading
use khipu_v_fhe.Prelude.{ℕ, zero, suc, ◌+◌, ◌-◌, ◌*◌, ◌/◌, ◌%◌, ◌^◌, List, [], ◌∷◌, ◌++◌}
use khipu_v_fhe.Prelude.{Bytes, Outcome, ok, throw, fault, ◌>>=◌, ltb, leb, if◌then◌else◌}
use khipu_v_fhe.Prelude.{length, take, drop}

abbrev pub size_mod : ℕ
size_mod = 2 ^ 64

-- `for (int i = 7; i >= 0; i--) { b[i] = n & 0xFF; n >>= 8; }`: the rounds left, what is left of
-- `n`, and the bytes that are written already.
unfoldable pub be_loop : ℕ → ℕ → Bytes → Bytes
be_loop zero n written = written
be_loop (suc k) n written = be_loop k (n / 256) ((n % 256) ∷ written)

-- The 8-byte big-endian length prefix.
unfoldable pub be64 : ℕ → Bytes
be64 n = be_loop 8 n []

-- `n = (n << 8) | b` on a uint64_t. The low byte of the shifted number is 0, so `|` is `+`.
abbrev pub shift_in : ℕ → ℕ → ℕ
shift_in n b = n * 256 % size_mod + b

-- `for (int i = 0; i < 8; i++) { n = (n << 8) | b[i]; }`
unfoldable pub from_be : ℕ → Bytes → ℕ
from_be n [] = n
from_be n (b ∷ bs) = from_be (shift_in n b) bs

-- The four bytes that `write_u32_be` appends.
unfoldable pub be32 : ℕ → Bytes
be32 v = (v / 2 ^ 24 % 256) ∷ (v / 2 ^ 16 % 256) ∷ (v / 2 ^ 8 % 256) ∷ (v % 256) ∷ []

unfoldable pub write_u32_be : Bytes → ℕ → Bytes
unfolding be32
write_u32_be w v = w ++ be32 v

unfoldable pub write_blob : Bytes → Bytes → Bytes
write_blob w v = (w ++ be64 (length v)) ++ v

pub record BufReader : Type 0 where
  pub buf : Bytes
  pub pos : ℕ

-- Copying `n` bytes from the pointer `p` into the buffer: undefined past the buffer's end.
unfoldable pub copy : ℕ → ℕ → Bytes → Outcome Bytes
copy p n buf = if leb (p + n) (length buf) then ok (take n (drop p buf)) else fault

-- `read(n)`: the pointer to the next `n` bytes. `pos_ + n` is a sum of size_t.
unfoldable pub read : List ℕ → ℕ → BufReader → Outcome (ℕ × BufReader)
read what n r =
    let end_pos = (r.pos + n) % size_mod in
    if ltb (length r.buf) end_pos then throw what else ok (r.pos, record r { pos = end_pos })

-- `(p[0] << 24) | (p[1] << 16) | (p[2] << 8) | p[3]`; the shifted bytes do not overlap.
abbrev pub u32_of : Bytes → ℕ
u32_of (a ∷ b ∷ c ∷ d ∷ _) = a * 2 ^ 24 + b * 2 ^ 16 + c * 2 ^ 8 + d
u32_of _ = 0

unfoldable pub read_u32_be : List ℕ → BufReader → Outcome (ℕ × BufReader)
unfolding read copy
read_u32_be what r = do (p, r') ← read what 4 r; b ← copy p 4 r.buf; ok (u32_of b, r')

-- The eight bytes of the length are copied with no look at what is left of the buffer.
unfoldable pub read_blob : List ℕ → BufReader → Outcome (Bytes × BufReader)
unfolding read copy
read_blob what r = do
  len_bytes ← copy r.pos 8 r.buf
  let n = from_be 0 len_bytes
  (p, r') ← read what n (record r { pos = (r.pos + 8) % size_mod })
  v ← copy p n r.buf
  ok (v, r')

-- `read_string`: the bytes of a blob as a string.
abbrev pub read_string : List ℕ → BufReader → Outcome (List ℕ × BufReader)
read_string = read_blob

-- `buf_.size() - pos_`, a difference of size_t.
unfoldable pub remaining : BufReader → ℕ
remaining r = (length r.buf + size_mod - r.pos) % size_mod
