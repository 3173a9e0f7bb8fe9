-- ===== src/Hex.antt =====
-- Hexadecimal texts: hashing.cpp, and the comparison of verifier.cpp that ignores case.
pub mod RoundTrip
use khipu_v_fhe.Prelude.{
  ℕ, zero, suc, ◌+◌, ◌-◌, ◌*◌, ◌/◌, ◌%◌, List, [], ◌∷◌, map, Bytes, Bool, true, false, ◌&&◌,
  Outcome, ok, throw, fault, ◌>>=◌, text, length, leb, ◌==◌, if◌then◌else◌, bytes_eq,
}

-- `kHexChars`
abbrev pub hex_chars : List ℕ
hex_chars = text "0123456789abcdef"

-- Indexing an array of characters; the terminating NUL stands behind it.
abbrev pub char_at : List ℕ → ℕ → ℕ
char_at [] i = 0
char_at (c ∷ cs) zero = c
char_at (c ∷ cs) (suc i) = char_at cs i

unfoldable pub hex_val : ℕ → Outcome ℕ
hex_val c =
    if leb b'0' c && leb c b'9'
    then ok (c - b'0')
    else if leb b'a' c && leb c b'f'
    then ok (c - b'a' + 10)
    else if leb b'A' c && leb c b'F'
    then ok (c - b'A' + 10)
    else throw (text "invalid hex character")

-- `hash[i] >> 4`, then `hash[i] & 0x0F`.
unfoldable pub to_hex : Bytes → List ℕ
to_hex [] = []
to_hex (b ∷ bs) = char_at hex_chars (b / 16) ∷ char_at hex_chars (b % 16) ∷ to_hex bs

-- The loop of `from_hex` and `hash_from_hex` over pairs of characters. The shifted digit and the
-- other do not overlap, so `|` is `+`. A single last character never comes: the callers test the size.
unfoldable pub hex_pairs : List ℕ → Outcome Bytes
unfolding hex_val
hex_pairs [] = ok []
hex_pairs (h ∷ []) = fault
hex_pairs (h ∷ l ∷ rest) = do
  hi ← hex_val h
  lo ← hex_val l
  bs ← hex_pairs rest
  ok (((hi * 16 + lo) % 256) ∷ bs)

unfoldable pub from_hex : List ℕ → Outcome Bytes
unfolding hex_pairs
from_hex hex =
    if length hex % 2 == 0 then hex_pairs hex else throw (text "hex string has odd length")

unfoldable pub hash_from_hex : List ℕ → Outcome Bytes
unfolding hex_pairs
hash_from_hex hex =
    if length hex == 64
    then hex_pairs hex
    else throw (text "expected 64 hex chars for 32-byte hash")

-- `std::tolower` in the C locale.
unfoldable pub lower_char : ℕ → ℕ
lower_char c = if leb b'A' c && leb c b'Z' then c + 32 else c

unfoldable pub to_lower : List ℕ → List ℕ
unfolding lower_char
to_lower s = map lower_char s

unfoldable pub hex_match : List ℕ → List ℕ → Bool
unfolding to_lower
hex_match a b = bytes_eq (to_lower a) (to_lower b)
