-- ===== src/Client/Arguments/Reading.antt =====
-- Options are read back as they are written, and the port always fits its type.
use khipu_v_fhe.Prelude.{
  ℕ, zero, suc, ◌+◌, ◌*◌, ◌/◌, ◌%◌, ◌^◌, ◌≤◌, ◌<◌, ◌≡◌, refl, sym, ap, subst, ◌∙◌, arith, List, [],
  ◌∷◌, All, true, false, ◌||◌, ok, >>=-eq-ok, text, bytes_eq, ltb, ltb→lt, ◌==◌, Bool-cases, inl,
  inr, ℤ, pos, negsuc,
}
use native.Mathlib.Nat.{pow-suc}
use khipu_v_fhe.Attestation.{decimal, to_string}
use khipu_v_fhe.Client.Arguments.{
  is_space, is_digit, skip_spaces, leading_digits, stoi, to_uint16, Options, run_with, alone,
  parse_args,
}

to_uint16_bound : (n : ℤ) → to_uint16 n < 65_536
to_uint16_bound (pos n) = omega arith
to_uint16_bound (negsuc n) = omega arith

exits : {C : Type 0} (a : List ℕ) (o : Options) → ok (alone a) ≡ ok (run_with o) → C
exits a o e = elim (Bool-cases (bytes_eq a (text "--help") || bytes_eq a (text "-h"))) [
  | inl help ↦ absurd (cc (rw help at e))
  | inr other ↦ absurd (cc (rw other at e))
]

-- Whatever the arguments are, the port of the options that the client runs with fits 16 bits, if that
-- of the options before them does.
pub parse_args_port :
    (o o' : Options) (args : List (List ℕ))
    → o.port < 65_536
    → parse_args o args ≡ ok (run_with o')
    → o'.port < 65_536
unfolding parse_args
parse_args_port o o' [] h e = let same : o ≡ o' = cc e in subst (λ o. o.port < 65_536) same h
parse_args_port o o' (a ∷ []) h e = exits a o' e
parse_args_port o o' (a ∷ v ∷ args) h e = elim (Bool-cases (bytes_eq a (text "--host"))) [
  | inl host ↦ parse_args_port (record o { host = v }) o' args h (rw host at e)
  | inr a1 ↦ elim (Bool-cases (bytes_eq a (text "--port"))) [
    | inl port ↦
        let (n, read, e') = >>=-eq-ok (stoi v) _ (rw (a1, port) at e) in
        parse_args_port (record o { port = to_uint16 n }) o' args (to_uint16_bound n) e'
    | inr a2 ↦ elim (Bool-cases (bytes_eq a (text "--workload"))) [
      | inl workload ↦
          parse_args_port (record o { workload_id = v }) o' args h (rw (a1, a2, workload) at e)
      | inr a3 ↦ elim (Bool-cases (bytes_eq a (text "--expected-mr-td"))) [
        | inl mr_td ↦
            parse_args_port (record o { expected_mr_td = v }) o' args h
              (rw (a1, a2, a3, mr_td) at e)
        | inr a4 ↦ exits a o' (rw (a1, a2, a3, a4) at e)
      ]
    ]
  ]
]

-- Decimal digits are read back.
leading_digits-decimal :
    (fuel n : ℕ) (ds : List ℕ)
    → n < 10 ^ fuel
    → leading_digits 0 (decimal fuel n ds) ≡ leading_digits n ds
unfolding leading_digits decimal
leading_digits-decimal zero n ds h = ap (λ m. leading_digits m ds) (omega arith)
leading_digits-decimal (suc fuel) n ds h = elim (Bool-cases (ltb n 10)) [
  | inl one ↦ rw one (last n one)
  | inr more ↦ rw more (
      leading_digits-decimal fuel (n / 10) ((b'0' + n % 10) ∷ ds) (tenth h)
      ∙ digit (n % 10) (n / 10) (omega arith)
      ∙ ap (λ m. leading_digits m ds) (omega arith))
]
  where
    tenth : n < 10 ^ suc fuel → n / 10 < 10 ^ fuel
    tenth h = let ten = pow-suc 10 fuel in omega arith

    digit : (d m : ℕ) → d < 10 → leading_digits m ((b'0' + d) ∷ ds) ≡ leading_digits (10 * m + d) ds
    digit d m h =
        let here : is_digit (b'0' + d) ≡ true = ground arith in
        rw here (ap (λ k. leading_digits (10 * m + k) ds) (omega arith))

    last : (n : ℕ) → ltb n 10 ≡ true → leading_digits 0 ((b'0' + n % 10) ∷ ds) ≡ leading_digits n ds
    last n h =
        let small = ltb→lt n 10 h in
        digit (n % 10) 0 (omega arith) ∙ ap (λ m. leading_digits m ds) (omega arith)

-- Decimal digits begin with a digit.
decimal-head :
    (fuel n : ℕ) (ds : List ℕ)
    → (c : ℕ) × (cs : List ℕ) × (decimal (suc fuel) n ds ≡ c ∷ cs) × (b'0' ≤ c) × (c ≤ b'9')
unfolding decimal
decimal-head zero n ds = elim (Bool-cases (ltb n 10)) [
  | inl one ↦ (b'0' + n % 10, ds, rw one refl, omega arith, omega arith)
  | inr more ↦ (b'0' + n % 10, ds, rw more refl, omega arith, omega arith)
]
decimal-head (suc fuel) n ds = elim (Bool-cases (ltb n 10)) [
  | inl one ↦ (b'0' + n % 10, ds, rw one refl, omega arith, omega arith)
  | inr more ↦
      let (c, cs, e, low, high) = decimal-head fuel (n / 10) ((b'0' + n % 10) ∷ ds) in
      (c, cs, rw more e, low, high)
]

digits_read :
    (n c : ℕ) (cs : List ℕ)
    → b'0' ≤ c
    → c ≤ b'9'
    → n < 65_536
    → leading_digits 0 (c ∷ cs) ≡ n
    → stoi (c ∷ cs) ≡ ok (pos n)
unfolding stoi skip_spaces
digits_read n c cs low high h e =
    let no_space : is_space c ≡ false = ground arith in
    let no_minus : (c == b'-') ≡ false = ground arith in
    let no_plus : (c == b'+') ≡ false = ground arith in
    let a_digit : is_digit c ≡ true = ground arith in
    let in_range : ltb 2_147_483_647 n ≡ false = ground arith in
    rw (no_space, no_minus, no_plus, a_digit, e, in_range) refl

no_more : (n : ℕ) → leading_digits n [] ≡ n
unfolding leading_digits
no_more n = refl

stoi-to_string : (n : ℕ) → n < 65_536 → stoi (to_string n) ≡ ok (pos n)
unfolding to_string
stoi-to_string n h =
    let (c, cs, e, low, high) = decimal-head 9 n [] in
    let value : leading_digits 0 (decimal 10 n []) ≡ n =
      leading_digits-decimal 10 n [] (omega arith) ∙ no_more n in
    ap stoi e ∙ digits_read n c cs low high h (ap (leading_digits 0) (sym e) ∙ value)

-- An option that is given, and the two arguments that give it.
pub data Given : Type 0 where
  a_host a_workload an_mr_td : List ℕ → Given
  a_port : ℕ → Given

abbrev pub render : List Given → List (List ℕ)
render [] = []
render (a_host v ∷ gs) = text "--host" ∷ v ∷ render gs
render (a_workload v ∷ gs) = text "--workload" ∷ v ∷ render gs
render (an_mr_td v ∷ gs) = text "--expected-mr-td" ∷ v ∷ render gs
render (a_port n ∷ gs) = text "--port" ∷ to_string n ∷ render gs

-- The last one of a kind counts.
abbrev pub given : List Given → Options → Options
given [] o = o
given (a_host v ∷ gs) o = given gs (record o { host = v })
given (a_workload v ∷ gs) o = given gs (record o { workload_id = v })
given (an_mr_td v ∷ gs) o = given gs (record o { expected_mr_td = v })
given (a_port n ∷ gs) o = given gs (record o { port = n })

abbrev pub IsPort : Given → Type 0
IsPort (a_port n) = n < 65_536
IsPort _ = Unit {0}

-- Options in any order, with ports that fit 16 bits, are read as they were given, and the last one of
-- a kind counts.
pub parse_args-render :
    (o : Options) (gs : List Given)
    → All IsPort gs
    → parse_args o (render gs) ≡ ok (run_with (given gs o))
unfolding parse_args
parse_args-render o [] h = refl
parse_args-render o (a_host v ∷ gs) (p, h) = parse_args-render (record o { host = v }) gs h
parse_args-render o (a_workload v ∷ gs) (p, h) =
    parse_args-render (record o { workload_id = v }) gs h
parse_args-render o (an_mr_td v ∷ gs) (p, h) =
    parse_args-render (record o { expected_mr_td = v }) gs h
parse_args-render o (a_port n ∷ gs) (p, h) =
    let small : n % 65_536 ≡ n = omega arith in
    rw (stoi-to_string n p, small) (parse_args-render (record o { port = n }) gs h)
