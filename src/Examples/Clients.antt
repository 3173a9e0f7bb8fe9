-- ===== src/Examples/Clients.antt =====
-- A client's arguments, and a file of rows for the logistic regression.
use khipu_v_fhe.Prelude.{
  ℕ, zero, suc, ◌-◌, ◌≤◌, ◌≡◌, refl, arith, List, [], ◌∷◌, replicate, length, length-replicate,
  Outcome, ok, fault, text, some, ltb→lt,
}
use khipu_v_fhe.Workloads.{logistic_rotations}
use khipu_v_fhe.Workloads.Sums.{entry_at}
use khipu_v_fhe.Workloads.Slots.{Gives}
use khipu_v_fhe.Workloads.Logistic.{logistic_eval}
use khipu_v_fhe.Workloads.Logistic.Steps.{descent_step}
use khipu_v_fhe.Client.Arguments.{
  Options, defaults, run_with, skip_spaces, leading_digits, stoi, parse_args,
}
use khipu_v_fhe.Client.Arguments.Reading.{Given, a_host, a_port, render, given, parse_args-render}
use khipu_v_fhe.Client.Mnist.{
  Encryption, Row, resize, cut_at, getline, read_cells, read_row, read_rows, read_mnist,
  gen_logreg_inputs,
}
use khipu_v_fhe.Client.Mnist.Trained.{data_of, labels_of, logistic_eval-gen_logreg_inputs}
use khipu_v_fhe.Client.Mnist.Short.{gen_logreg_inputs_short}
use khipu_v_fhe.Examples.Circuits.{numbers, numbers-IsScalars, Clear}
use khipu_v_fhe.Examples.Regressions.{flex_base, flex, flex_reading, flex-IsFlex, whole}

-- A port that does not fit 16 bits.
abbrev wrapped : Options
wrapped = record defaults { port = 4464 }

wrapped_port : parse_args defaults (text "--port" ∷ text "70000" ∷ []) ≡ ok (run_with wrapped)
unfolding parse_args stoi skip_spaces leading_digits
wrapped_port = refl

abbrev options : List Given
options = a_port 9000 ∷ a_host (text "server") ∷ a_port 9001 ∷ []

parse_args-render_example :
    parse_args defaults (render options) ≡ ok (run_with (given options defaults))
parse_args-render_example =
    parse_args-render defaults options (ltb→lt _ _ refl, (tt, (ltb→lt _ _ refl, tt)))

abbrev pub first_digit : List ℕ → Outcome ℕ
first_digit [] = ok 0
first_digit (c ∷ cs) = ok (c - b'0')

abbrev clear_encryption : Encryption (flex_base 32_768)
clear_encryption = record {
  stod = first_digit;
  encrypt_packed = λ v noise lvl. ok (record { values = entry_at numbers v; left_over = 9 });
}

clear_encrypts :
    (v : List ℕ)
    → length v ≡ 32_768
    → Gives
        (flex_base 32_768)
        (flex_reading 32_768)
        32_768
        (clear_encryption.encrypt_packed v 2 13)
        9
        (entry_at numbers v)
clear_encrypts v h = record { ct = _; returned = refl; level_eq = refl; value_eq = λ i hi. refl }

-- Lines of one cell, which is read again for each column.
abbrev lines : ℕ → List ℕ
lines zero = []
lines (suc n) = b'5' ∷ 10 ∷ lines n

abbrev content : ℕ → List ℕ
content n = b'x' ∷ 10 ∷ lines n

abbrev fives : Row numbers
fives = record { features = resize numbers 256 (replicate 196 5); label = 5 }

read_five : read_row clear_encryption (b'5' ∷ []) ≡ ok fives
unfolding read_row read_cells getline cut_at
read_five = refl

read_lines :
    (k n : ℕ) (line : List ℕ)
    → n ≤ k
    → read_rows clear_encryption k line (some (lines n)) ≡ ok (replicate n fives)
unfolding read_rows getline cut_at
read_lines zero zero line h = refl
read_lines zero (suc n) line h = absurd (omega arith)
read_lines (suc k) zero line h = refl
read_lines (suc k) (suc n) line h = rw (read_five, read_lines k n (b'5' ∷ []) (omega arith)) refl

read_content : (n : ℕ) → n ≤ 1280 → read_mnist clear_encryption (content n) ≡ ok (replicate n fives)
unfolding read_mnist getline cut_at
read_content n h = read_lines 1280 n (b'x' ∷ []) h

logistic_eval-gen_logreg_inputs_example :
    (inputs : List Clear) × (gen_logreg_inputs clear_encryption (some (content 1280)) ≡ ok inputs)
    × Gives
        (flex_base 32_768)
        (flex_reading 32_768)
        32_768
        (logistic_eval (flex 32_768) whole inputs)
        1
        (descent_step numbers whole 1
          (data_of numbers whole (replicate 1280 fives) 1)
          (labels_of numbers whole (replicate 1280 fives) 1)
          (descent_step numbers whole 0
            (data_of numbers whole (replicate 1280 fives) 0)
            (labels_of numbers whole (replicate 1280 fives) 0)
            (λ i. 0)))
logistic_eval-gen_logreg_inputs_example =
    logistic_eval-gen_logreg_inputs (flex 32_768) clear_encryption whole (flex_reading 32_768) 9
      clear_encrypts numbers-IsScalars (flex-IsFlex 32_768 logistic_rotations) (content 1280)
      (replicate 1280 fives) 1 (read_content 1280 (omega arith)) (length-replicate 1280 fives) refl

gen_logreg_inputs_short_example : gen_logreg_inputs clear_encryption (some (content 3)) ≡ fault
gen_logreg_inputs_short_example =
    gen_logreg_inputs_short clear_encryption (flex_reading 32_768) 9 clear_encrypts (content 3)
      (replicate 3 fives) (read_content 3 (omega arith)) (ltb→lt _ _ refl)
