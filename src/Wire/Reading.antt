-- ===== src/Wire/Reading.antt =====
-- What `BufReader` does on every buffer, well formed or not.
use khipu_v_fhe.Prelude.{
  ℕ, zero, suc, ◌+◌, ◌-◌, ◌%◌, ◌^◌, ◌<◌, ◌≤◌, ◌≡◌, refl, sym, ◌∙◌, arith, List, [], ◌∷◌, ◌++◌,
  Bytes, IsByte, All, Outcome, ok, throw, fault, ◌>>=◌, ltb, leb, if◌then◌else◌, length, take, drop,
  append_assoc, length-append, drop-append, Bool-cases, inl, inr,
}
use Prim.Native.Nat.add
use khipu_v_fhe.Wire.{
  size_mod, shift_in, from_be, u32_of, BufReader, copy, read, read_u32_be, read_blob,
}

-- The bytes `rest` lie ahead of the reader, in a buffer of at most PTRDIFF_MAX bytes.
pub record Ahead (r : BufReader) (rest : Bytes) : Type 0 where
  pub front : Bytes
  pub split : r.buf ≡ front ++ rest
  pub at : r.pos ≡ length front
  pub fits : length r.buf < 2 ^ 63

pub start-Ahead : (buf : Bytes) → length buf < 2 ^ 63 → Ahead (record { buf = buf; pos = 0 }) buf
start-Ahead buf h = record { front = []; split = refl; at = refl; fits = h }

module _ {r : BufReader} {rest : Bytes} (a : Ahead r rest) where
  pub length-buf : length r.buf ≡ r.pos + length rest
  length-buf = rw (a.split, a.at) (length-append a.front rest)

  pub drop-pos : drop r.pos r.buf ≡ rest
  drop-pos = rw (a.split, a.at) (drop-append a.front rest)

pub Ahead-advance :
    {r : BufReader} (xs rest : Bytes)
    → Ahead r (xs ++ rest)
    → Ahead (record r { pos = r.pos + length xs }) rest
Ahead-advance xs rest a = record {
  front = a.front ++ xs;
  split = a.split ∙ sym (append_assoc a.front xs rest);
  at = omega (arith, length-append a.front xs, a.at);
  fits = a.fits;
}

-- A copy gives the bytes ahead, or is undefined where fewer are left.
pub copy-Ahead :
    (n : ℕ) {r : BufReader} {rest : Bytes}
    → Ahead r rest
    → copy r.pos n r.buf ≡ (if leb n (length rest) then ok (take n rest) else fault)
unfolding copy
copy-Ahead n a = rw (drop-pos a) (ground (arith, length-buf a))

pub from_be-lt : (bs : Bytes) (n : ℕ) → n < size_mod → All IsByte bs → from_be n bs < size_mod
unfolding from_be
from_be-lt [] n h b = h
from_be-lt (x ∷ bs) n h (hx, hb) = from_be-lt bs (shift_in n x) (omega arith) hb

-- What the bytes ahead say of the blob that starts there: its length, and what follows the prefix.
abbrev pub blob_size : Bytes → ℕ
blob_size rest = from_be 0 (take 8 rest)

abbrev pub moved : BufReader → ℕ → BufReader
moved r n = record r { pos = r.pos + n }

take-IsByte : (n : ℕ) (bs : Bytes) → All IsByte bs → All IsByte (take n bs)
take-IsByte zero bs h = tt
take-IsByte (suc n) [] h = tt
take-IsByte (suc n) (b ∷ bs) (hb, h) = (hb, take-IsByte n bs h)

drop-drop {ℓ} : {A : Type ℓ} (m n : ℕ) (xs : List A) → drop m (drop n xs) ≡ drop (n + m) xs
drop-drop m zero xs = rw add.zero refl
drop-drop zero (suc n) [] = rw add.suc refl
drop-drop (suc m) (suc n) [] = rw add.suc refl
drop-drop m (suc n) (x ∷ xs) = rw add.suc (drop-drop m n xs)

copy_past : (p n : ℕ) (buf : Bytes) → length buf < p + n → copy p n buf ≡ fault
unfolding copy
copy_past p n buf h = ground arith

-- The value of `read_blob` with `n` for the length that the prefix spells.
unfoldable pub after_prefix : List ℕ → ℕ → BufReader → Bytes → Outcome (Bytes × BufReader)
after_prefix what n r rest =
    if leb size_mod (r.pos + 8 + n)
    then (if leb (r.pos + 8 + n - size_mod) (length r.buf) then fault else throw what)
    else if ltb (length rest) (8 + n)
    then throw what
    else ok (take n (drop 8 rest), moved r (8 + n))

copy_at :
    (m n : ℕ) {r : BufReader} {rest : Bytes}
    → Ahead r rest
    → copy (r.pos + m) n r.buf
      ≡ (if leb (m + n) (length rest) then ok (take n (drop m rest)) else fault)
unfolding copy
copy_at m n {r} {rest} a =
    rw (sym (drop-drop m r.pos r.buf), drop-pos a) (ground (arith, length-buf a))

-- The sum of the pointer and the length wraps at most once.
after_prefix_lem :
    (what : List ℕ) (n : ℕ) {r : BufReader} {rest : Bytes}
    → Ahead r rest
    → n < size_mod
    → 8 ≤ length rest
    → (read what n (record r { pos = (r.pos + 8) % size_mod }) >>= λ (p, r').
        copy p n r.buf >>= λ v. ok (v, r'))
      ≡ after_prefix what n r rest
unfolding after_prefix read
after_prefix_lem what n {r} {rest} a hn h =
    let e : (r.pos + 8) % size_mod ≡ r.pos + 8 = omega (arith, length-buf a, a.fits) in
    rw e (ground (arith, length-buf a, a.fits, copy_past (r.pos + 8) n r.buf, copy_at 8 n a))

pub read_blob_lem :
    (what : List ℕ) {r : BufReader} {rest : Bytes}
    → Ahead r rest
    → blob_size rest < size_mod
    → read_blob what r
      ≡ (if ltb (length rest) 8 then fault else after_prefix what (blob_size rest) r rest)
unfolding read_blob
read_blob_lem what {r} {rest} a b = elim (Bool-cases (ltb (length rest) 8)) [
  | inl few ↦ rw (copy-Ahead 8 a) (ground arith)
  | inr enough ↦
      let h : 8 ≤ length rest = ground arith in
      rw (copy-Ahead 8 a, enough) (ground (arith, after_prefix_lem what (blob_size rest) a b h))
]

pub blob_size-lt : (rest : Bytes) → All IsByte rest → blob_size rest < size_mod
blob_size-lt rest b = from_be-lt (take 8 rest) 0 (omega arith) (take-IsByte 8 rest b)

-- Every outcome of `read_blob`, with these bytes ahead of the reader in a buffer that fits a vector. It copies the length prefix unchecked, so fewer than eight bytes
-- ahead are undefined behaviour; so is a length that wraps the sum of size_t back into the buffer.
-- Any other length beyond the buffer throws, and else the blob is returned.
pub read_blob_cases :
    (what : List ℕ) {r : BufReader} {rest : Bytes}
    → Ahead r rest
    → All IsByte rest
    → read_blob what r
      ≡ (if ltb (length rest) 8 then fault else after_prefix what (blob_size rest) r rest)
read_blob_cases what {r} {rest} a b = read_blob_lem what a (blob_size-lt rest b)

-- Every outcome of `read_u32_be`: unlike a length prefix, its four bytes are checked.
pub read_u32_be_lem :
    (what : List ℕ) {r : BufReader} {rest : Bytes}
    → Ahead r rest
    → read_u32_be what r
      ≡ (if ltb (length rest) 4 then throw what else ok (u32_of (take 4 rest), moved r 4))
unfolding read_u32_be
read_u32_be_lem what {r} {rest} a = ground (arith, length-buf a, drop-pos a, a.fits)
