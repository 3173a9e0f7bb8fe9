-- ===== src/Attestation/ReportData.antt =====
-- What the client expects is the report data of the quote, byte for byte in reverse.
use khipu_v_fhe.Prelude.{
  ℕ, zero, suc, ◌*◌, ◌/◌, ◌<◌, ◌≤◌, ◌≡◌, refl, sym, ap, subst, ◌∙◌, arith, List, [], ◌∷◌, ◌++◌,
  append_assoc, append-nil, reverse, Bytes, length, take, drop, replicate,
}
use mathlib.Core.List.{reverse-append}
use khipu_v_fhe.Hex.{to_hex}
use khipu_v_fhe.Hex.RoundTrip.{length-to_hex}
use khipu_v_fhe.Attestation.{report_data, reverse_pairs, expected_report_data}

to_hex-append : (xs ys : Bytes) → to_hex (xs ++ ys) ≡ to_hex xs ++ to_hex ys
unfolding to_hex
to_hex-append [] ys = refl
to_hex-append (x ∷ xs) ys = rw (to_hex-append xs ys) refl

-- The byte at `k`, and its two characters.
record ByteAt (k : ℕ) (bs : Bytes) : Type 0 where
  byte : ℕ
  front : take (suc k) bs ≡ take k bs ++ (byte ∷ [])
  digits : take 2 (drop (2 * k) (to_hex bs)) ≡ to_hex (byte ∷ [])

drop_pair :
    (k : ℕ) (b : ℕ) (bs : Bytes) → drop (2 * suc k) (to_hex (b ∷ bs)) ≡ drop (2 * k) (to_hex bs)
unfolding to_hex
drop_pair k b bs = let e : 2 * suc k ≡ suc (suc (2 * k)) = omega arith in rw e refl

byte_at : (k : ℕ) (bs : Bytes) → k < length bs → ByteAt k bs
byte_at k [] h = elim h [ ]
byte_at zero (b ∷ bs) h = record { byte = b; front = refl; digits = unfold to_hex in refl }
byte_at (suc k) (b ∷ bs) h =
    let r = byte_at k bs (omega arith) in
    record {
      byte = r.byte;
      front = ap (λ t. b ∷ t) r.front;
      digits = ap (take 2) (drop_pair k b bs) ∙ r.digits;
    }

reverse_pairs_lem :
    (k : ℕ) (bs : Bytes) (rev : List ℕ)
    → k ≤ length bs
    → reverse_pairs k (to_hex bs) rev ≡ rev ++ to_hex (reverse (take k bs))
unfolding reverse_pairs
reverse_pairs_lem zero bs rev h = unfold to_hex in sym (append-nil rev)
reverse_pairs_lem (suc k) bs rev h =
    let r = byte_at k bs h in
    reverse_pairs_lem k bs (rev ++ take 2 (drop (2 * k) (to_hex bs))) (omega arith)
    ∙ rw (r.digits, r.front, reverse-append (take k bs) (r.byte ∷ []))
        (append_assoc rev (to_hex (r.byte ∷ [])) (to_hex (reverse (take k bs)))
          ∙ ap (λ t. rev ++ t) (sym (to_hex-append (r.byte ∷ []) (reverse (take k bs)))))

take-all : (xs : Bytes) → take (length xs) xs ≡ xs
take-all [] = refl
take-all (x ∷ xs) = ap (λ (t : Bytes). x ∷ t) (take-all xs)

-- For a digest of 32 bytes, the text that the client compares with is the hexadecimal form of the 64 bytes of report data
-- that the server put under the quote, last byte first.
pub expected_report_data_lem :
    (digest : Bytes)
    → length digest ≡ 32
    → expected_report_data digest ≡ to_hex (reverse (report_data digest))
unfolding expected_report_data report_data
expected_report_data_lem digest h =
    let pairs : length (to_hex digest) / 2 ≡ length digest = omega (arith, length-to_hex digest) in
    let whole : take 32 digest ≡ digest = subst (λ n. take n digest ≡ digest) h (take-all digest) in
    rw
      (
        pairs,
        reverse_pairs_lem (length digest) digest [] (omega arith),
        take-all digest,
        whole,
        reverse-append digest (replicate 32 0),
        to_hex-append (reverse (replicate 32 0)) (reverse digest),
      )
      (unfold to_hex in refl)
