-- ===== src/Wire/Blobs.antt =====
-- Reading what `BufWriter` wrote, and writing what `BufReader` accepted.
use khipu_v_fhe.Prelude.{
  ℕ, zero, suc, ◌+◌, ◌^◌, ◌<◌, ◌≤◌, ◌≡◌, refl, sym, ap, subst, ◌∙◌, arith, List, [], ◌∷◌, ◌++◌,
  append_assoc, Bytes, IsByte, All, ok, length, take, drop, take-append-drop, length-take,
  length-drop, length-append, take-append, drop-append,
}
use khipu_v_fhe.Wire.{be64, be32, BufReader, read_u32_be, read_blob}
use khipu_v_fhe.Wire.Order.{length-be64, from_be-be64, be64-from_be}
use khipu_v_fhe.Wire.Reading.{
  Ahead, Ahead-advance, length-buf, blob_size, moved, after_prefix, read_blob_cases, read_blob_lem,
  read_u32_be_lem,
}

-- A blob on the wire: its length, then its bytes.
abbrev pub blob : Bytes → Bytes
blob v = be64 (length v) ++ v

pub length-blob : (v : Bytes) → length (blob v) ≡ 8 + length v
length-blob v = omega (arith, length-append (be64 (length v)) v, length-be64 (length v))

take-blob : (v rest : Bytes) → take 8 (blob v ++ rest) ≡ be64 (length v)
take-blob v rest = rw append_assoc (
    subst (λ k. take k (be64 (length v) ++ (v ++ rest)) ≡ be64 (length v)) (length-be64 (length v))
      (take-append (be64 (length v)) (v ++ rest)))

drop-blob : (v rest : Bytes) → drop 8 (blob v ++ rest) ≡ v ++ rest
drop-blob v rest = rw append_assoc (
    subst (λ k. drop k (be64 (length v) ++ (v ++ rest)) ≡ v ++ rest) (length-be64 (length v))
      (drop-append (be64 (length v)) (v ++ rest)))

blob_size-blob : (v rest : Bytes) → length v < 2 ^ 64 → blob_size (blob v ++ rest) ≡ length v
blob_size-blob v rest h = rw (take-blob v rest) (from_be-be64 (length v) h)

-- A blob that lies ahead is read, and the reader is past it.
pub read_blob-Ahead :
    (what : List ℕ) (v rest : Bytes) {r : BufReader}
    → Ahead r (blob v ++ rest)
    → (read_blob what r ≡ ok (v, moved r (length (blob v))))
      × Ahead (moved r (length (blob v))) rest
unfolding after_prefix
read_blob-Ahead what v rest {r} a =
    let size : length (blob v ++ rest) ≡ 8 + length v + length rest =
      omega (arith, length-append (blob v) rest, length-blob v) in
    let e = blob_size-blob v rest (omega (arith, length-buf a, a.fits)) in
    (
      read_blob_lem what a (omega (arith, e, length-buf a, a.fits))
          ∙ rw (e, drop-blob v rest, take-append v rest, length-blob v)
              (ground (arith, size, length-buf a, a.fits)),
      Ahead-advance (blob v) rest a,
    )

pub read_u32_be-Ahead :
    (what : List ℕ) (n : ℕ) (rest : Bytes) {r : BufReader}
    → n < 2 ^ 32
    → Ahead r (be32 n ++ rest)
    → (read_u32_be what r ≡ ok (n, moved r 4)) × Ahead (moved r 4) rest
unfolding be32
read_u32_be-Ahead what n rest {r} h a =
    (read_u32_be_lem what a ∙ ground (arith, length-buf a, a.fits), Ahead-advance (be32 n) rest a)

-- Eight bytes ahead are the prefix that their number is written as.
be64-take : (xs : Bytes) → All IsByte xs → 8 ≤ length xs → be64 (blob_size xs) ≡ take 8 xs
be64-take (b0 ∷ b1 ∷ b2 ∷ b3 ∷ b4 ∷ b5 ∷ b6 ∷ b7 ∷ xs) b h =
    be64-from_be b0 b1 b2 b3 b4 b5 b6 b7 (omega arith)
be64-take _ b h = absurd (omega arith)

-- A reading of `xs` took the bytes `w` and left the reader `r'` behind them.
pub record Took (w xs : Bytes) (r' : BufReader) : Type 0 where
  pub rest : Bytes
  pub split : xs ≡ w ++ rest
  pub ahead : Ahead r' rest
  pub bytes : All IsByte rest

pub All-drop {ℓ κ} :
    {A : Type ℓ} (P : A → Type κ) (n : ℕ) (xs : List A) → All P xs → All P (drop n xs)
All-drop P zero xs h = h
All-drop P (suc n) [] h = h
All-drop P (suc n) (x ∷ xs) (hx, h) = All-drop P n xs h

-- A blob is accepted from the bytes that the writer would have written, and no others.
pub read_blob-ok :
    (what : List ℕ) (xs v : Bytes) (r r' : BufReader)
    → Ahead r xs
    → All IsByte xs
    → read_blob what r ≡ ok (v, r')
    → Took (blob v) xs r'
unfolding after_prefix
read_blob-ok what xs v r r' a b h =
    let n = blob_size xs in
    let c = sym (read_blob_cases what a b) ∙ h in
    let enough : 8 + n ≤ length xs = ground (arith, c, length-buf a, a.fits) in
    let value : v ≡ take n (drop 8 xs) = ground (arith, c, length-buf a, a.fits) in
    let place : r' ≡ moved r (8 + n) = ground (arith, c, length-buf a, a.fits) in
    let size : length v ≡ n =
      rw value (omega (arith, length-take n (drop 8 xs), length-drop 8 xs, enough)) in
    let whole : xs ≡ blob v ++ drop n (drop 8 xs) =
      rw
        (
          size,
          be64-take xs b (omega (arith, enough)),
          value,
          append_assoc,
          take-append-drop n (drop 8 xs),
          take-append-drop 8 xs,
        )
        refl in
    record {
      rest = drop n (drop 8 xs);
      split = whole;
      ahead =
          subst (λ q. Ahead q (drop n (drop 8 xs)))
            (ap (moved r) (omega (arith, length-blob v, size)) ∙ sym place)
            (Ahead-advance (blob v) (drop n (drop 8 xs)) (subst (Ahead r) whole a));
      bytes = All-drop IsByte n (drop 8 xs) (All-drop IsByte 8 xs b);
    }
