-- ===== src/Examples/Circuits.antt =====
-- A CKKS in the clear: the slots are a function, and the level counts down.
use khipu_v_fhe.Prelude.{
  ℕ, zero, suc, ◌+◌, ◌-◌, ◌*◌, ◌%◌, ◌≡◌, refl, arith, List, [], ◌∷◌, Outcome, ok, throw, text,
}
use khipu_v_fhe.Workloads.{
  Scalars, Rotation, left, right, Ckks, medium_eval, medium_rotations, app_inference_rotations, Mlp,
  app_inference_eval,
}
use khipu_v_fhe.Workloads.Sums.{IsScalars, sum, entry_at}
use khipu_v_fhe.Workloads.Slots.{Interpretation, IsRotating, IsCkks, Gives}
use khipu_v_fhe.Workloads.Matvec.{medium_eval-Gives}
use khipu_v_fhe.Workloads.Inference.{network, app_inference_eval-Gives}

abbrev pub numbers : Scalars
numbers = record {
  Scalar = ℕ;
  zero_s = 0;
  one_s = 1;
  half_s = 2;
  add = λ x y. x + y;
  mul = λ x y. x * y;
  sub = λ x y. x - y;
}

pub numbers-IsScalars : IsScalars numbers
numbers-IsScalars = record {
  add_assoc = λ x y z. omega arith;
  add_comm = λ x y. omega arith;
  zero_add = λ x. omega arith;
  mul_zero = λ x. omega arith;
  sub_zero = refl;
}

pub record Clear : Type 0 where
  pub values : ℕ → ℕ
  pub left_over : ℕ

abbrev pub turned : ℕ → Rotation → (ℕ → ℕ) → ℕ → ℕ
turned n (left d) v i = v ((i + d) % n)
turned n (right d) v i = v ((i + (n - d % n)) % n)

abbrev pub lower : (ℕ → ℕ) → ℕ → Outcome Clear
lower v zero = throw (text "no level left")
lower v (suc l) = ok (record { values = v; left_over = l })

abbrev pub clear_ckks : ℕ → Ckks numbers
clear_ckks n = record {
  Ciphertext = Clear;
  Plaintext = ℕ → ℕ;
  make_packed_plaintext = entry_at numbers;
  eval_rotate = λ x r. ok (record { values = turned n r x.values; left_over = x.left_over });
  eval_add = λ x y. ok (record { values = λ i. x.values i + y.values i; left_over = x.left_over });
  eval_add_plain = λ x p. ok (record { values = λ i. x.values i + p i; left_over = x.left_over });
  eval_mult = λ x y. ok (record { values = λ i. x.values i * y.values i; left_over = x.left_over });
  eval_mult_plain = λ x p. ok (record { values = λ i. x.values i * p i; left_over = x.left_over });
  eval_sum = λ x k. ok (record { values = λ i. sum numbers k x.values; left_over = x.left_over });
  rescale = λ x. lower x.values x.left_over;
}

abbrev reading : (n : ℕ) → Interpretation (clear_ckks n)
reading n = record { value = λ x. x.values; level = λ x. x.left_over; entry = λ p. p }

lowered :
    (n : ℕ) (v : ℕ → ℕ) (k l : ℕ) → k ≡ suc l → Gives (clear_ckks n) (reading n) n (lower v k) l v
lowered n v zero l h = absurd (omega arith)
lowered n v (suc k) l h = record {
  ct = record { values = v; left_over = k };
  returned = refl;
  level_eq = omega arith;
  value_eq = λ i hi. refl;
}

clear_ckks-IsRotating :
    (n : ℕ) (rotations : List Rotation) → IsRotating (clear_ckks n) (reading n) n rotations
clear_ckks-IsRotating n rotations = record {
  rotate_left =
      λ x d h. record { ct = _; returned = refl; level_eq = refl; value_eq = λ i hi. refl };
  rotate_right =
      λ x d h. record { ct = _; returned = refl; level_eq = refl; value_eq = λ i hi. refl };
  adds = λ x y h. record { ct = _; returned = refl; level_eq = refl; value_eq = λ i hi. refl };
}

clear_ckks-IsCkks :
    (n : ℕ) (rotations : List Rotation) → IsCkks (clear_ckks n) (reading n) n rotations
clear_ckks-IsCkks n rotations = record {
  rotating = clear_ckks-IsRotating n rotations;
  packed = λ v i h. refl;
  adds_plain = λ x p. record { ct = _; returned = refl; level_eq = refl; value_eq = λ i hi. refl };
  mults = λ x y l h h'. record { ct = _; returned = refl; level_eq = h; value_eq = λ i hi. refl };
  mults_plain =
      λ x p l h. record { ct = _; returned = refl; level_eq = h; value_eq = λ i hi. refl };
  sums = λ x. record { ct = _; returned = refl; level_eq = refl; value_eq = λ i hi. refl };
  rescales = λ x l h. lowered n x.values x.left_over l h;
}

abbrev pub counting : ℕ → Clear
counting l = record { values = λ i. i; left_over = l }

abbrev ascending : ℕ → ℕ → ℕ
ascending i j = i + 2 * j

medium_eval-Gives_example :
    Gives
      (clear_ckks 64)
      (reading 64)
      64
      (medium_eval (clear_ckks 64) ascending (counting 3 ∷ []))
      2
      (λ i. sum numbers 64 (λ j. j * ascending i j))
medium_eval-Gives_example =
    medium_eval-Gives (clear_ckks 64) (reading 64) numbers-IsScalars
      (clear_ckks-IsCkks 64 medium_rotations) ascending (counting 3) 2 refl

abbrev weights : Mlp (clear_ckks 128)
weights = record { w1 = ascending; b1 = λ i. i; w2 = ascending; b2 = λ i. 3 }

app_inference_eval-Gives_example :
    Gives
      (clear_ckks 128)
      (reading 128)
      128
      (app_inference_eval (clear_ckks 128) weights (counting 5 ∷ []))
      1
      (network (clear_ckks 128) weights (λ i. i))
app_inference_eval-Gives_example =
    app_inference_eval-Gives (clear_ckks 128) (reading 128) numbers-IsScalars
      (clear_ckks-IsCkks 128 app_inference_rotations) weights (counting 5) 1 refl
