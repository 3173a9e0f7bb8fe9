-- ===== src/Workloads/Logistic/Descent.antt =====
-- The whole logistic regression: two steps of the gradient descent.
use khipu_v_fhe.Prelude.{
  ℕ, zero, suc, ◌+◌, ◌*◌, ◌%◌, ◌≤◌, ◌<◌, ◌≡◌, ◌≢◌, ==_iff, refl, ap, ◌∙◌, arith, List, [], ◌∷◌,
  Outcome, ok, length, Option, none, some,
}
use khipu_v_fhe.Workloads.{Scalars, logistic_rotations}
use khipu_v_fhe.Workloads.Sums.{IsScalars, sum, sum_ext}
use khipu_v_fhe.Workloads.Slots.{Interpretation, Gives}
use khipu_v_fhe.Workloads.Logistic.{
  FlexCkks, Coefficients, iteration, at_index, descend, logistic_eval, IsFlex,
}
use khipu_v_fhe.Workloads.Logistic.Steps.{sigmoid, prediction_error, descent_step, iteration-Gives}

-- `inputs[i]`, if it is there.
abbrev pub lookup {ℓ} : {X : Type ℓ} → List X → ℕ → Option X
lookup [] i = none
lookup (x ∷ xs) zero = some x
lookup (x ∷ xs) (suc i) = lookup xs i

module _ (A : Scalars) (k : Coefficients A) (L : IsScalars A) where
  open A use {Scalar, mul, sub}

  -- A step reads the slots only.
  pub descent_step_ext :
      (iter : ℕ) (d d' y y' v v' : ℕ → Scalar) (i : ℕ)
      → ((j : ℕ) → j < 32768 → d j ≡ d' j)
      → ((j : ℕ) → j < 32768 → y j ≡ y' j)
      → ((j : ℕ) → j < 32768 → v j ≡ v' j)
      → i < 32768
      → descent_step A k iter d y v i ≡ descent_step A k iter d' y' v' i
  descent_step_ext iter d d' y y' v v' i hd hy hv hi =
      ap
        (λ u. sub u (
          sum A 128
            (λ r. mul (prediction_error A k d y v r) (mul (d (r * 256 + i % 256)) (k.scale iter)))))
        (hv i hi)
      ∙ ap (sub (v' i)) (
          sum_ext A L 128 _ _ (λ r hr.
            ap (λ e. mul e (mul (d (r * 256 + i % 256)) (k.scale iter))) (error_ext r hr)
            ∙ ap (λ u. mul (prediction_error A k d' y' v' r) (mul u (k.scale iter)))
                (hd (r * 256 + i % 256) (omega arith))))
    where
      error_ext : (r : ℕ) → r < 128 → prediction_error A k d y v r ≡ prediction_error A k d' y' v' r
      error_ext r hr =
          ap (λ s. sub (sigmoid A k s) (y (r * 256)))
            (sum_ext A L 256 _ _ (λ c hc.
              ap (λ u. mul u (v (r * 256 + c))) (hd (r * 256 + c) (omega arith))
              ∙ ap (mul (d' (r * 256 + c))) (hv (r * 256 + c) (omega arith))))
          ∙ ap (sub (sigmoid A k (sum A 256 (λ c. mul (d' (r * 256 + c)) (v' (r * 256 + c))))))
              (hy (r * 256) (omega arith))

module _ {A : Scalars} (C : FlexCkks A) (I : Interpretation C.base) where
  open A use {zero_s}
  open C.base use {Ciphertext}
  open I use {value, level}

  -- A batch: labels stand in the first slots of the rows, and there is room for the weights' levels.
  pub record IsBatch (weights_level : ℕ) (data_ct labels : Ciphertext) : Type 0 where
    pub data_level : weights_level ≤ level data_ct
    pub labels_level : weights_level ≤ level labels
    pub only_heads : (i : ℕ) → i < 32768 → i % 256 ≢ 0 → value labels i ≡ zero_s

module _ {A : Scalars} (C : FlexCkks A) (k : Coefficients A) where
  open C.base use {Ciphertext}

  pub at_index_lem :
      (xs : List Ciphertext) (i : ℕ) (next : Ciphertext → Outcome Ciphertext) {x : Ciphertext}
      → lookup xs i ≡ some x
      → at_index C k xs i next ≡ next x
  at_index_lem [] i next h = cc
  at_index_lem (y ∷ xs) zero next h = ap next (cc h)
  at_index_lem (y ∷ xs) (suc i) next h = at_index_lem xs i next h

module _ {A : Scalars} (C : FlexCkks A) (k : Coefficients A) (I : Interpretation C.base)
    (L : IsScalars A) (K : IsFlex C I 32768 logistic_rotations) where
  open A use {Scalar, zero_s}
  open C.base use {Ciphertext}
  open I use {value, level}

  step-Gives :
      (iter m l : ℕ) (d y w : Ciphertext)
      → level w ≡ m
      → m ≡ suc (suc (suc (suc l)))
      → IsBatch C I m d y
      → Gives C.base I 32768
          (iteration C k iter d y w)
          l
          (descent_step A k iter (value d) (value y) (value w))
  step-Gives iter m l d y w h hm b =
      iteration-Gives C k I L K iter l d y w (h ∙ hm) (omega (arith, b.data_level, h))
        (omega (arith, b.labels_level, h)) b.only_heads

  -- With the rotation keys that its `gen_keys` makes and eight levels to spare, the logistic regression
  -- on 21 ciphertexts returns the weights after two steps of the gradient descent, the first on the
  -- batch in the inputs 0 and 10, the second on that in 1 and 11.
  pub logistic_eval-Gives :
      (inputs : List Ciphertext) (l : ℕ) (d0 y0 d1 y1 w : Ciphertext)
      → length inputs ≡ 21
      → lookup inputs 0 ≡ some d0
      → lookup inputs 10 ≡ some y0
      → lookup inputs 1 ≡ some d1
      → lookup inputs 11 ≡ some y1
      → lookup inputs 20 ≡ some w
      → level w ≡ 8 + l
      → IsBatch C I (8 + l) d0 y0
      → IsBatch C I (4 + l) d1 y1
      → Gives C.base I 32768 (logistic_eval C k inputs) l (
          descent_step A k 1
            (value d1)
            (value y1)
            (descent_step A k 0 (value d0) (value y0) (value w)))
  unfolding logistic_eval descend
  logistic_eval-Gives inputs l d0 y0 d1 y1 w size h0 h10 h1 h11 h20 hw b0 b1 =
      let first = step-Gives 0 (8 + l) (4 + l) d0 y0 w hw (omega arith) b0 in
      let second = step-Gives 1 (4 + l) l d1 y1 first.ct first.level_eq (omega arith) b1 in
      record {
        ct = second.ct;
        returned =
            rw
              (
                (==_iff (length inputs) 21).1 size,
                at_index_lem C k inputs 20 (λ weights. descend C k inputs 2 0 weights) h20,
              )
              (descended first.ct second.ct first.returned second.returned);
        level_eq = second.level_eq;
        value_eq = λ i hi.
            second.value_eq i hi
            ∙ descent_step_ext A k L 1 (value d1) (value d1) (value y1) (value y1) (value first.ct)
                (descent_step A k 0 (value d0) (value y0) (value w)) i (λ j hj. refl) (λ j hj. refl)
                first.value_eq hi;
      }
    where
      round :
          (n iter : ℕ) (d y v v' : Ciphertext)
          → lookup inputs iter ≡ some d
          → lookup inputs (10 + iter) ≡ some y
          → iteration C k iter d y v ≡ ok v'
          → descend C k inputs (suc n) iter v ≡ descend C k inputs n (suc iter) v'
      round n iter d y v v' hd hy e =
          at_index_lem C k inputs iter _ hd ∙ at_index_lem C k inputs (10 + iter) _ hy ∙ rw e refl

      descended :
          (v v' : Ciphertext)
          → iteration C k 0 d0 y0 w ≡ ok v
          → iteration C k 1 d1 y1 v ≡ ok v'
          → descend C k inputs 2 0 w ≡ ok v'
      descended v v' e e' = round 1 0 d0 y0 w v h0 h10 e ∙ round 0 1 d1 y1 v v' h1 h11 e'
