-- ===== src/Wire/Order.antt =====
-- The big-endian encodings of Wire.antt and their readers are inverse to one another.
use khipu_v_fhe.Prelude.{
  ℕ, zero, suc, ◌/◌, ◌%◌, ◌^◌, ◌<◌, ◌≡◌, refl, sym, ◌∙◌, arith, [], ◌∷◌, ◌++◌, append_assoc, Bytes,
  IsByte, All, All-append, length, length-append,
}
use khipu_v_fhe.Wire.{be_loop, be64, shift_in, from_be, be32, u32_of}
use native.Mathlib.Nat.{pow-suc}

-- The lowest `k` bytes of `n`, highest first.
be : ℕ → ℕ → Bytes
be zero n = []
be (suc k) n = be k (n / 256) ++ ((n % 256) ∷ [])

be_loop-be : (k n : ℕ) (bs : Bytes) → be_loop k n bs ≡ be k n ++ bs
unfolding be be_loop
be_loop-be zero n bs = refl
be_loop-be (suc k) n bs =
    be_loop-be k (n / 256) ((n % 256) ∷ bs) ∙ sym (append_assoc (be k (n / 256)) _ bs)

length-be : (k n : ℕ) → length (be k n) ≡ k
unfolding be
length-be zero n = refl
length-be (suc k) n =
    omega (arith, length-append (be k (n / 256)) ((n % 256) ∷ []), length-be k (n / 256))

be-IsByte : (k n : ℕ) → All IsByte (be k n)
unfolding be
be-IsByte zero n = tt
be-IsByte (suc k) n =
    All-append IsByte (be k (n / 256)) ((n % 256) ∷ []) (be-IsByte k (n / 256)) (omega arith)

from_be-append : (n : ℕ) (xs ys : Bytes) → from_be n (xs ++ ys) ≡ from_be (from_be n xs) ys
unfolding from_be
from_be-append n [] ys = refl
from_be-append n (x ∷ xs) ys = from_be-append (shift_in n x) xs ys

from_be-be : (k n : ℕ) → n < 256 ^ k → n < 2 ^ 64 → from_be 0 (be k n) ≡ n
unfolding be from_be
from_be-be zero n h m = omega arith
from_be-be (suc k) n h m =
    from_be-append 0 (be k (n / 256)) ((n % 256) ∷ [])
    ∙ rw (from_be-be k (n / 256) (omega (arith, pow-suc 256 k)) (omega arith)) (omega arith)

pub length-be64 : (n : ℕ) → length (be64 n) ≡ 8
unfolding be64
length-be64 n = rw (be_loop-be 8 n []) (omega (arith, length-append (be 8 n) [], length-be 8 n))

pub be64-IsByte : (n : ℕ) → All IsByte (be64 n)
unfolding be64
be64-IsByte n = rw (be_loop-be 8 n []) (All-append IsByte (be 8 n) [] (be-IsByte 8 n) tt)

pub from_be-be64 : (n : ℕ) → n < 2 ^ 64 → from_be 0 (be64 n) ≡ n
unfolding be64 from_be
from_be-be64 n h = rw (be_loop-be 8 n [], from_be-append 0 (be 8 n) []) (from_be-be 8 n h h)

-- Eight bytes are the encoding of the number that they are read as.
pub be64-from_be :
    (b0 b1 b2 b3 b4 b5 b6 b7 : ℕ)
    → All IsByte (b0 ∷ b1 ∷ b2 ∷ b3 ∷ b4 ∷ b5 ∷ b6 ∷ b7 ∷ [])
    → be64 (from_be 0 (b0 ∷ b1 ∷ b2 ∷ b3 ∷ b4 ∷ b5 ∷ b6 ∷ b7 ∷ []))
      ≡ b0 ∷ b1 ∷ b2 ∷ b3 ∷ b4 ∷ b5 ∷ b6 ∷ b7 ∷ []
unfolding be64 be_loop from_be
be64-from_be b0 b1 b2 b3 b4 b5 b6 b7 h = ground arith

pub u32_of-be32 : (v : ℕ) → v < 2 ^ 32 → u32_of (be32 v) ≡ v
unfolding be32
u32_of-be32 v h = omega arith
