-- ===== src/Client/Arguments.antt =====
-- The arguments of the client: the loop over `argv` in main of tee-vfhe/src/client/client_main.cpp.
pub mod Reading
use khipu_v_fhe.Prelude.{
  ℕ, zero, suc, ◌+◌, ◌-◌, ◌*◌, ◌%◌, List, [], ◌∷◌, Bool, true, false, ◌&&◌, ◌||◌, Outcome, ok,
  throw, ◌>>=◌, text, bytes_eq, leb, ltb, ◌==◌, if◌then◌else◌, ℤ, pos, negsuc,
}

-- `isspace` and `isdigit` of the C locale.
abbrev pub is_space : ℕ → Bool
is_space c = c == 32 || (leb 9 c && leb c 13)

abbrev pub is_digit : ℕ → Bool
is_digit c = leb b'0' c && leb c b'9'

unfoldable pub skip_spaces : List ℕ → List ℕ
skip_spaces [] = []
skip_spaces (c ∷ cs) = let rest = skip_spaces cs in if is_space c then rest else c ∷ cs

-- The number that the leading digits stand for, behind those that make `n`.
unfoldable pub leading_digits : ℕ → List ℕ → ℕ
leading_digits n [] = n
leading_digits n (c ∷ cs) =
    let more = leading_digits (10 * n + (c - b'0')) cs in if is_digit c then more else n

abbrev pub positive : ℕ → Outcome ℤ
positive n = if ltb 2_147_483_647 n then throw (text "stoi") else ok (pos n)

abbrev pub negated : ℕ → Outcome ℤ
negated zero = ok (pos 0)
negated (suc n) = if ltb 2_147_483_647 n then throw (text "stoi") else ok (negsuc n)

abbrev pub unsigned_digits : List ℕ → (ℕ → Outcome ℤ) → Outcome ℤ
unsigned_digits [] next = throw (text "stoi")
unsigned_digits (c ∷ cs) next =
    if is_digit c then next (leading_digits 0 (c ∷ cs)) else throw (text "stoi")

abbrev pub signed_digits : List ℕ → Outcome ℤ
signed_digits [] = throw (text "stoi")
signed_digits (c ∷ cs) =
    if c == b'-'
    then unsigned_digits cs negated
    else if c == b'+'
    then unsigned_digits cs positive
    else unsigned_digits (c ∷ cs) positive

-- `std::stoi`: an exception without digits or out of the range of an `int`; what follows is not read.
unfoldable pub stoi : List ℕ → Outcome ℤ
stoi s = signed_digits (skip_spaces s)

-- `static_cast<uint16_t>`
abbrev pub to_uint16 : ℤ → ℕ
to_uint16 (pos n) = n % 65_536
to_uint16 (negsuc n) = 65_535 - n % 65_536

pub record Options : Type 0 where
  pub host : List ℕ
  pub port : ℕ
  pub workload_id : List ℕ
  pub expected_mr_td : List ℕ

abbrev pub defaults : Options
defaults = record {
  host = text "127.0.0.1";
  port = 8080;
  workload_id = text "noop";
  expected_mr_td = [];
}

-- Whether the program goes on, or returns this exit code.
pub data Parsed : Type 0 where
  run_with : Options → Parsed
  exit_with : ℕ → Parsed

-- An argument without a value behind it that counts: `--help`, or an unknown one.
abbrev pub alone : List ℕ → Parsed
alone a = if bytes_eq a (text "--help") || bytes_eq a (text "-h") then exit_with 0 else exit_with 1

-- From `argv[i]` on. The exception of a port that is no number leaves main.
unfoldable pub parse_args : Options → List (List ℕ) → Outcome Parsed
parse_args o [] = ok (run_with o)
parse_args o (a ∷ []) = ok (alone a)
parse_args o (a ∷ v ∷ args) =
    let go_on : Options → Outcome Parsed = λ o'. parse_args o' args in
    if bytes_eq a (text "--host")
    then go_on (record o { host = v })
    else if bytes_eq a (text "--port")
    then (stoi v >>= λ n. go_on (record o { port = to_uint16 n }))
    else if bytes_eq a (text "--workload")
    then go_on (record o { workload_id = v })
    else if bytes_eq a (text "--expected-mr-td")
    then go_on (record o { expected_mr_td = v })
    else ok (alone a)
