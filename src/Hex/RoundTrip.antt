-- ===== src/Hex/RoundTrip.antt =====
-- `to_hex` and `from_hex` are inverse to one another, up to the case of the digits.
use khipu_v_fhe.Prelude.{
  ℕ, ◌+◌, ◌*◌, ◌/◌, ◌%◌, ◌<◌, ◌≡◌, ◌↔◌, refl, sym, ap, ◌∙◌, arith, List, [], ◌∷◌, Bytes, IsByte,
  All, Bool, true, false, ◌&&◌, ok, throw, fault, >>=-eq-ok, length, ltb, ◌==◌, ==_iff, all_below,
  all_below→, bytes_eq→eq, bytes_eq_refl,
}
use khipu_v_fhe.Hex.{
  hex_chars, char_at, hex_val, to_hex, hex_pairs, from_hex, hash_from_hex, lower_char, to_lower,
  hex_match,
}

-- Whether the character for the digit `d` is read as `d`, and has no case to lose.
abbrev reads_back : ℕ → Bool
reads_back d = elim (hex_val (char_at hex_chars d)) [
  | ok v ↦ v == d
  | throw e ↦ false
  | fault ↦ false
]

abbrev is_lower : ℕ → Bool
is_lower d = lower_char (char_at hex_chars d) == char_at hex_chars d

reads_back→ : (d : ℕ) → reads_back d ≡ true → hex_val (char_at hex_chars d) ≡ ok d
reads_back→ d h = ground arith

digit_ok : (d : ℕ) → d < 16 → hex_val (char_at hex_chars d) ≡ ok d
unfolding all_below hex_val
digit_ok d h = reads_back→ d (all_below→ 16 reads_back refl d h)

digit_lower : (d : ℕ) → d < 16 → lower_char (char_at hex_chars d) ≡ char_at hex_chars d
unfolding all_below lower_char
digit_lower d h = (==_iff _ _).0 (all_below→ 16 is_lower refl d h)

pub length-to_hex : (bs : Bytes) → length (to_hex bs) ≡ length bs + length bs
unfolding to_hex
length-to_hex [] = refl
length-to_hex (b ∷ bs) = omega (arith, length-to_hex bs)

hex_pairs-to_hex : (bs : Bytes) → All IsByte bs → hex_pairs (to_hex bs) ≡ ok bs
unfolding to_hex hex_pairs
hex_pairs-to_hex [] h = refl
hex_pairs-to_hex (b ∷ bs) (hb, h) =
    let whole : (b / 16 * 16 + b % 16) % 256 ≡ b = omega arith in
    rw
      (
        digit_ok (b / 16) (omega arith),
        digit_ok (b % 16) (omega arith),
        hex_pairs-to_hex bs h,
        whole,
      )
      refl

-- Bytes written in hexadecimal are read back.
pub from_hex-to_hex : (bs : Bytes) → All IsByte bs → from_hex (to_hex bs) ≡ ok bs
unfolding from_hex
from_hex-to_hex bs h =
    let even : (length (to_hex bs) % 2 == 0) ≡ true = ground (arith, length-to_hex bs) in
    rw even (hex_pairs-to_hex bs h)

-- So is a digest of 32 bytes.
pub hash_from_hex-to_hex :
    (bs : Bytes) → All IsByte bs → length bs ≡ 32 → hash_from_hex (to_hex bs) ≡ ok bs
unfolding hash_from_hex
hash_from_hex-to_hex bs h n =
    let size : (length (to_hex bs) == 64) ≡ true = ground (arith, length-to_hex bs) in
    rw size (hex_pairs-to_hex bs h)

pub to_lower-to_hex : (bs : Bytes) → All IsByte bs → to_lower (to_hex bs) ≡ to_hex bs
unfolding to_lower to_hex
to_lower-to_hex [] h = refl
to_lower-to_hex (b ∷ bs) (hb, h) =
    rw
      (digit_lower (b / 16) (omega arith), digit_lower (b % 16) (omega arith), to_lower-to_hex bs h)
      refl

-- A hexadecimal character stands for a digit, and lowering it gives the digit's own character.
pub record Digit (c d : ℕ) : Type 0 where
  pub small : d < 16
  pub written : lower_char c ≡ char_at hex_chars d

abbrev is_digit : ℕ → Bool
is_digit c = elim (hex_val c) [
  | ok d ↦ ltb d 16 && (lower_char c == char_at hex_chars d)
  | throw e ↦ true
  | fault ↦ true
]

hex_val-lt : (c d : ℕ) → hex_val c ≡ ok d → c < 128
unfolding hex_val
hex_val-lt c d h = ground arith

is_digit→ : (c d : ℕ) → is_digit c ≡ true → hex_val c ≡ ok d → Digit c d
is_digit→ c d t h =
    let both : (ltb d 16 && (lower_char c == char_at hex_chars d)) ≡ true = rw (h, is_digit) at t in
    record { small = ground (arith, both); written = ground (arith, both) }

hex_val-Digit : (c d : ℕ) → hex_val c ≡ ok d → Digit c d
unfolding all_below hex_val lower_char
hex_val-Digit c d h = is_digit→ c d (all_below→ 128 is_digit refl c (hex_val-lt c d h)) h

-- The bytes that a text was read as: written again, they give the text in lower case.
pub record Read (s : List ℕ) (bs : Bytes) : Type 0 where
  pub bytes : All IsByte bs
  pub written : to_hex bs ≡ to_lower s

hex_pairs-Read : (s : List ℕ) (bs : Bytes) → hex_pairs s ≡ ok bs → Read s bs
unfolding hex_pairs to_hex to_lower
hex_pairs-Read [] bs h =
    let empty : [] ≡ bs = cc in rw (← empty) (record { bytes = tt; written = refl })
hex_pairs-Read (c ∷ []) bs h = cc
hex_pairs-Read (c ∷ c' ∷ s) bs h =
    let (d, e, h1) = >>=-eq-ok (hex_val c) _ h in
    let (d', e', h2) = >>=-eq-ok (hex_val c') _ h1 in
    let (rest, e'', h3) = >>=-eq-ok (hex_pairs s) _ h2 in
    let hi = hex_val-Digit c d e in
    let lo = hex_val-Digit c' d' e' in
    let ih = hex_pairs-Read s rest e'' in
    let whole : ((d * 16 + d') % 256) ∷ rest ≡ bs = cc h3 in
    let high : (d * 16 + d') % 256 / 16 ≡ d = omega (arith, hi.small, lo.small) in
    let low : (d * 16 + d') % 256 % 16 ≡ d' = omega (arith, lo.small) in
    rw (← whole) (record {
      bytes = (omega arith, ih.bytes);
      written = rw (high, low, ih.written, hi.written, lo.written) refl;
    })

-- What `from_hex` accepts is bytes, and `to_hex` writes them as the text in lower case.
pub from_hex-Read : (s : List ℕ) (bs : Bytes) → from_hex s ≡ ok bs → Read s bs
unfolding from_hex
from_hex-Read s bs h = hex_pairs-Read s bs (ground arith)

to_hex-injective : (xs ys : Bytes) → All IsByte xs → All IsByte ys → to_hex xs ≡ to_hex ys → xs ≡ ys
to_hex-injective xs ys hx hy e =
    cc (sym (from_hex-to_hex xs hx) ∙ ap from_hex e ∙ from_hex-to_hex ys hy)

-- The hexadecimal texts of two byte buffers match exactly when the buffers are equal.
pub hex_match-to_hex :
    (xs ys : Bytes)
    → All IsByte xs
    → All IsByte ys
    → (hex_match (to_hex xs) (to_hex ys) ≡ true) ↔ (xs ≡ ys)
unfolding hex_match
hex_match-to_hex xs ys hx hy =
    rw (to_lower-to_hex xs hx, to_lower-to_hex ys hy)
      (
        λ e. to_hex-injective xs ys hx hy (bytes_eq→eq (to_hex xs) (to_hex ys) e),
        λ e. rw e (bytes_eq_refl (to_hex ys)),
      )
