-- ===== src/Workloads/Logistic/Steps.antt =====
-- One iteration of the logistic regression is a step of a gradient descent.
use khipu_v_fhe.Prelude.{
  ℕ, zero, suc, ◌+◌, ◌-◌, ◌*◌, ◌/◌, ◌%◌, ◌≤◌, ◌<◌, ◌≡◌, ◌≢◌, refl, ap, ◌∙◌, arith, min, List, ◌∷◌,
  replicate, Outcome, ◌>>=◌,
}
use khipu_v_fhe.Workloads.{
  Scalars, Rotation, logistic_rotations, row_accumulate, row_propagate, col_accumulate,
}
use khipu_v_fhe.Workloads.Sums.{IsScalars, sum, sum_ext, entry_at}
use khipu_v_fhe.Workloads.Slots.{Interpretation, Gives}
use khipu_v_fhe.Workloads.Rotations.{
  row_accumulate-Gives, row_propagate-Gives, col_accumulate-Gives,
}
use khipu_v_fhe.Workloads.Logistic.{
  FlexCkks, Coefficients, mask, masked_activation, score, residual, gradient, iteration, IsFlex,
}

-- The specification, on the 128 rows of 256 columns of the data, the label of each row in its first
-- slot, and weights that are repeated in each row.
module _ (A : Scalars) (k : Coefficients A) where
  open A use {Scalar, add, mul, sub}

  -- `0.5 + 0.15 v - 0.0015 v ^ 3`
  abbrev pub sigmoid : Scalar → Scalar
  sigmoid v = add (add (mul v k.linear_c) (mul (mul v v) (mul v k.cubic_c))) k.constant_c

  abbrev pub prediction_error : (ℕ → Scalar) → (ℕ → Scalar) → (ℕ → Scalar) → ℕ → Scalar
  prediction_error data_v labels weights r =
      sub (sigmoid (sum A 256 (λ c. mul (data_v (r * 256 + c)) (weights (r * 256 + c)))))
        (labels (r * 256))

  abbrev pub descent_step : ℕ → (ℕ → Scalar) → (ℕ → Scalar) → (ℕ → Scalar) → ℕ → Scalar
  descent_step iter data_v labels weights i = sub (weights i) (
      sum A 128 (λ r.
        mul (prediction_error data_v labels weights r)
          (mul (data_v (r * 256 + i % 256)) (k.scale iter))))

  pub entry_at_zeros : (n i : ℕ) → entry_at A (replicate n A.zero_s) i ≡ A.zero_s
  entry_at_zeros zero i = refl
  entry_at_zeros (suc n) zero = refl
  entry_at_zeros (suc n) (suc i) = entry_at_zeros n i

  head_entry : (c : Scalar) (j : ℕ) → j ≡ 0 → entry_at A (c ∷ replicate 255 A.zero_s) j ≡ c
  head_entry c zero h = refl
  head_entry c (suc j) h = absurd (omega arith)

  pub tail_entry :
      (c : Scalar) (j : ℕ) → j ≢ 0 → entry_at A (c ∷ replicate 255 A.zero_s) j ≡ A.zero_s
  tail_entry c zero h = absurd (h refl)
  tail_entry c (suc j) h = entry_at_zeros 255 j

module _ {A : Scalars} (C : FlexCkks A) (I : Interpretation C.base) where
  open A use {Scalar, zero_s}
  open C.base use {Ciphertext}
  open I use {value, level}

  -- Three functions that sum over the rows from their first slots on, copy the first slots over the
  -- rows, and sum over the columns.
  pub record AreSums (sum_rows spread sum_columns : Ciphertext → Outcome Ciphertext) : Type 0 where
    pub over_rows :
        (x : Ciphertext)
        → Gives C.base I 32768
            (sum_rows x)
            (level x)
            (λ i. sum A 256 (λ t. value x ((i + t) % 32768)))
    pub spreads :
        (x : Ciphertext)
        → ((i : ℕ) → i < 32768 → i % 256 ≢ 0 → value x i ≡ zero_s)
        → Gives C.base I 32768 (spread x) (level x) (λ i. value x (i / 256 * 256))
    pub over_columns :
        (x : Ciphertext)
        → Gives C.base I 32768
            (sum_columns x)
            (level x)
            (λ i. sum A 128 (λ r. value x (r * 256 + i % 256)))

module _ {A : Scalars} (C : FlexCkks A) (k : Coefficients A) (I : Interpretation C.base)
    (L : IsScalars A) {rotations : List Rotation} (K : IsFlex C I 32768 rotations) where
  open A use {Scalar, zero_s, add, mul, sub}
  open C use {eval_mult_const, eval_sub}
  open C.base use {Ciphertext, eval_mult}
  open I use {value, level, entry}

  mask_head : (c : Scalar) (i : ℕ) → i < 32768 → i % 256 ≡ 0 → entry (mask C k c) i ≡ c
  mask_head c i hi h = K.repeated (c ∷ replicate 255 zero_s) i hi ∙ head_entry A k c (i % 256) h

  mask_tail : (c : Scalar) (i : ℕ) → i < 32768 → i % 256 ≢ 0 → entry (mask C k c) i ≡ zero_s
  mask_tail c i hi h = K.repeated (c ∷ replicate 255 zero_s) i hi ∙ tail_entry A k c (i % 256) h

  -- The activation under its masks.
  abbrev masked : Ciphertext → ℕ → Scalar
  masked ct i =
      add
        (add (mul (value ct i) (entry (mask C k k.linear_c) i))
          (mul (mul (value ct i) (value ct i)) (mul (value ct i) (entry (mask C k k.cubic_c) i))))
        (entry (mask C k k.constant_c) i)

  masked_activation-Gives :
      (ct : Ciphertext) (l : ℕ)
      → level ct ≡ suc (suc l)
      → Gives C.base I 32768 (masked_activation C k ct) l (masked ct)
  unfolding masked_activation
  masked_activation-Gives ct l h =
      let square = K.squares ct (suc l) h in
      let aux = K.mults_plain ct (mask C k k.cubic_c) (suc l) h in
      let ct3 = K.mults square.ct aux.ct l (omega (arith, square.level_eq, aux.level_eq)) in
      let linear = K.mults_plain ct (mask C k k.linear_c) (suc l) h in
      let both = K.adds linear.ct ct3.ct in
      let last = K.adds_plain both.ct (mask C k k.constant_c) in
      record {
        ct = last.ct;
        returned =
            rw (square.returned, aux.returned, ct3.returned, linear.returned, both.returned)
              last.returned;
        level_eq = omega (arith, last.level_eq, both.level_eq, linear.level_eq, ct3.level_eq);
        value_eq = λ i hi.
            last.value_eq i hi
            ∙ ap (λ v. add v (entry (mask C k k.constant_c) i))
                (both.value_eq i hi
                  ∙ ap (λ v. add v (value ct3.ct i)) (linear.value_eq i hi)
                  ∙ ap (add (mul (value ct i) (entry (mask C k k.linear_c) i))) (
                      ct3.value_eq i hi
                      ∙ ap (λ v. mul v (value aux.ct i)) (square.value_eq i hi)
                      ∙ ap (mul (mul (value ct i) (value ct i))) (aux.value_eq i hi)));
      }

  masked-head :
      (ct : Ciphertext) (i : ℕ) → i < 32768 → i % 256 ≡ 0 → masked ct i ≡ sigmoid A k (value ct i)
  masked-head ct i hi h =
      let linear = mask_head k.linear_c i hi h in
      let cubic = mask_head k.cubic_c i hi h in let constant = mask_head k.constant_c i hi h in cc

  masked-tail : (ct : Ciphertext) (i : ℕ) → i < 32768 → i % 256 ≢ 0 → masked ct i ≡ zero_s
  masked-tail ct i hi h =
      let v = value ct i in
      let linear = mask_tail k.linear_c i hi h in
      let cubic = mask_tail k.cubic_c i hi h in
      let constant = mask_tail k.constant_c i hi h in
      let none = L.mul_zero v in
      let none' = L.mul_zero (mul v v) in let nothing = L.zero_add zero_s in cc

  module _ (sum_rows spread sum_columns : Ciphertext → Outcome Ciphertext)
      (S : AreSums C I sum_rows spread sum_columns) where
    -- The parts of an iteration over these three functions.
    abbrev scored : Ciphertext → Ciphertext → Outcome Ciphertext
    scored data_ct weights = eval_mult data_ct weights >>= sum_rows

    abbrev remaining : Ciphertext → Ciphertext → Outcome Ciphertext
    remaining rows labels = do
      active ← masked_activation C k rows
      error ← eval_sub active labels
      spread error

    abbrev sloped : ℕ → Ciphertext → Ciphertext → Outcome Ciphertext
    sloped iter data_ct error = do
      data_scaled ← eval_mult_const data_ct (k.scale iter)
      product ← eval_mult error data_scaled
      sum_columns product

    abbrev pub round : ℕ → Ciphertext → Ciphertext → Ciphertext → Outcome Ciphertext
    round iter data_ct labels weights = do
      rows ← scored data_ct weights
      error ← remaining rows labels
      columns ← sloped iter data_ct error
      eval_sub weights columns

    scored-Gives :
        (data_ct weights : Ciphertext) (l : ℕ)
        → min (level data_ct) (level weights) ≡ suc l
        → Gives C.base I 32768 (scored data_ct weights) l (λ i.
          sum A 256 (λ t. mul (value data_ct ((i + t) % 32768)) (value weights ((i + t) % 32768))))
    scored-Gives data_ct weights l h =
        let product = K.mults data_ct weights l h in
        let rows = S.over_rows product.ct in
        record {
          ct = rows.ct;
          returned = rw product.returned rows.returned;
          level_eq = rows.level_eq ∙ product.level_eq;
          value_eq = λ i hi.
              rows.value_eq i hi
              ∙ sum_ext A L 256 (λ t. value product.ct ((i + t) % 32768))
                  (λ t. mul (value data_ct ((i + t) % 32768)) (value weights ((i + t) % 32768)))
                  (λ t ht. product.value_eq ((i + t) % 32768) (omega arith));
        }

    remaining-Gives :
        (rows labels : Ciphertext) (l : ℕ)
        → level rows ≡ suc (suc l)
        → l ≤ level labels
        → ((i : ℕ) → i < 32768 → i % 256 ≢ 0 → value labels i ≡ zero_s)
        → Gives C.base I 32768
            (remaining rows labels)
            l
            (λ i. sub (sigmoid A k (value rows (i / 256 * 256))) (value labels (i / 256 * 256)))
    remaining-Gives rows labels l h hl only_heads =
        let active = masked_activation-Gives rows l h in
        let error = K.subs active.ct labels in
        let tail : (i : ℕ) → i < 32768 → i % 256 ≢ 0 → value error.ct i ≡ zero_s = λ i hi ne.
          error.value_eq i hi
          ∙ ap (λ v. sub v (value labels i)) (active.value_eq i hi ∙ masked-tail rows i hi ne)
          ∙ ap (sub zero_s) (only_heads i hi ne)
          ∙ L.sub_zero in
        let spread = S.spreads error.ct tail in
        record {
          ct = spread.ct;
          returned = rw (active.returned, error.returned) spread.returned;
          level_eq = omega (arith, spread.level_eq, error.level_eq, active.level_eq);
          value_eq = λ i hi.
              spread.value_eq i hi
              ∙ error.value_eq (i / 256 * 256) (omega arith)
              ∙ ap (λ v. sub v (value labels (i / 256 * 256)))
                  (active.value_eq (i / 256 * 256) (omega arith)
                    ∙ masked-head rows (i / 256 * 256) (omega arith) (omega arith));
        }

    sloped-Gives :
        (iter : ℕ) (data_ct error : Ciphertext) (l : ℕ)
        → level error ≡ suc l
        → level error < level data_ct
        → Gives C.base I 32768 (sloped iter data_ct error) l (λ i. sum A 128 (λ r.
          mul
            (value error (r * 256 + i % 256))
            (mul (value data_ct (r * 256 + i % 256)) (k.scale iter))))
    sloped-Gives iter data_ct error l h hd =
        let below : level data_ct ≡ suc (level data_ct - 1) = omega arith in
        let scaled = K.mults_const data_ct (k.scale iter) (level data_ct - 1) below in
        let product = K.mults error scaled.ct l (omega (arith, scaled.level_eq)) in
        let columns = S.over_columns product.ct in
        record {
          ct = columns.ct;
          returned = rw (scaled.returned, product.returned) columns.returned;
          level_eq = columns.level_eq ∙ product.level_eq;
          value_eq = λ i hi.
              columns.value_eq i hi
              ∙ sum_ext A L 128 (λ r. value product.ct (r * 256 + i % 256))
                  (λ r.
                    mul (value error (r * 256 + i % 256))
                      (mul (value data_ct (r * 256 + i % 256)) (k.scale iter)))
                  (λ r hr.
                    product.value_eq (r * 256 + i % 256) (omega arith)
                    ∙ ap (mul (value error (r * 256 + i % 256)))
                        (scaled.value_eq (r * 256 + i % 256) (omega arith)));
        }

    pub round-Gives :
        (iter l : ℕ) (data_ct labels weights : Ciphertext)
        → level weights ≡ suc (suc (suc (suc l)))
        → level weights ≤ level data_ct
        → level weights ≤ level labels
        → ((i : ℕ) → i < 32768 → i % 256 ≢ 0 → value labels i ≡ zero_s)
        → Gives C.base I 32768
            (round iter data_ct labels weights)
            l
            (descent_step A k iter (value data_ct) (value labels) (value weights))
    round-Gives iter l data_ct labels weights hw hd hl only_heads =
        let rows = scored-Gives data_ct weights (suc (suc (suc l))) (omega arith) in
        let error = remaining-Gives rows.ct labels (suc l) rows.level_eq (omega arith) only_heads in
        let columns =
          sloped-Gives iter data_ct error.ct l error.level_eq (omega (arith, error.level_eq)) in
        let spread_eq : (r i : ℕ)
            → r < 128
            → value error.ct (r * 256 + i % 256)
              ≡ prediction_error A k (value data_ct) (value labels) (value weights) r =
          λ r i hr.
            error.value_eq (r * 256 + i % 256) (omega arith)
            ∙ ap (λ m. sub (sigmoid A k (value rows.ct m)) (value labels m)) (start r i hr)
            ∙ ap (λ v. sub (sigmoid A k v) (value labels (r * 256)))
                (rows.value_eq (r * 256) (omega arith)
                  ∙ sum_ext A L 256
                      (λ t.
                        mul (value data_ct ((r * 256 + t) % 32768))
                          (value weights ((r * 256 + t) % 32768)))
                      (λ c. mul (value data_ct (r * 256 + c)) (value weights (r * 256 + c)))
                      (λ t ht.
                        ap (λ m. mul (value data_ct m) (value weights m)) (inside r t hr ht))) in
        let last = K.subs weights columns.ct in
        record {
          ct = last.ct;
          returned = rw (rows.returned, error.returned, columns.returned) last.returned;
          level_eq = omega (arith, last.level_eq, columns.level_eq);
          value_eq = λ i hi.
              last.value_eq i hi
              ∙ ap (sub (value weights i)) (
                  columns.value_eq i hi
                  ∙ sum_ext A L 128
                      (λ r.
                        mul (value error.ct (r * 256 + i % 256))
                          (mul (value data_ct (r * 256 + i % 256)) (k.scale iter)))
                      (λ r.
                        mul (prediction_error A k (value data_ct) (value labels) (value weights) r)
                          (mul (value data_ct (r * 256 + i % 256)) (k.scale iter)))
                      (λ r hr.
                        ap (λ v. mul v (mul (value data_ct (r * 256 + i % 256)) (k.scale iter)))
                          (spread_eq r i hr)));
        }
      where
        start : (r i : ℕ) → r < 128 → (r * 256 + i % 256) / 256 * 256 ≡ r * 256
        start r i hr = omega arith

        inside : (r t : ℕ) → r < 128 → t < 256 → (r * 256 + t) % 32768 ≡ r * 256 + t
        inside r t hr ht = omega arith

module _ {A : Scalars} (C : FlexCkks A) (k : Coefficients A) (I : Interpretation C.base)
    (L : IsScalars A) (K : IsFlex C I 32768 logistic_rotations) where
  open A use {zero_s}
  open C use {relinearize}
  open C.base use {Ciphertext}
  open I use {value, level}

  relinearized-Gives :
      {m : Ciphertext → Outcome Ciphertext} {f : (ℕ → A.Scalar) → ℕ → A.Scalar} (x : Ciphertext)
      → ((y : Ciphertext) → Gives C.base I 32768 (m y) (level y) (f (value y)))
      → ((v : ℕ → A.Scalar) (i : ℕ)
          → ((j : ℕ) → j < 32768 → v j ≡ value x j)
          → i < 32768
          → f v i ≡ f (value x) i)
      → Gives C.base I 32768 (relinearize x >>= m) (level x) (f (value x))
  relinearized-Gives x gives same =
      let relin = K.relinearizes x in
      let last = gives relin.ct in
      record {
        ct = last.ct;
        returned = rw relin.returned last.returned;
        level_eq = last.level_eq ∙ relin.level_eq;
        value_eq = λ i hi. last.value_eq i hi ∙ same (value relin.ct) i relin.value_eq hi;
      }

  rotations-AreSums :
      AreSums C I
        (λ x. relinearize x >>= row_accumulate C.base)
        (row_propagate C.base)
        (λ x. relinearize x >>= col_accumulate C.base)
  rotations-AreSums = record {
    over_rows = λ x.
        relinearized-Gives {f = λ v i. sum A 256 (λ t. v ((i + t) % 32768))} x
          (row_accumulate-Gives C.base I L K.rotating)
          (λ v i same hi. sum_ext A L 256 _ _ (λ t ht. same ((i + t) % 32768) (omega arith)));
    spreads = row_propagate-Gives C.base I L K.rotating;
    over_columns = λ x.
        relinearized-Gives {f = λ v i. sum A 128 (λ r. v (r * 256 + i % 256))} x
          (col_accumulate-Gives C.base I L K.rotating)
          (λ v i same hi. sum_ext A L 128 _ _ (λ r hr. same (r * 256 + i % 256) (omega arith)));
  }

  -- With the rotation keys that its `gen_keys` makes, four levels of the weights to spare, and the data
  -- and labels at least as high, an iteration returns the weights of one step of the gradient
  -- descent. The labels stand in the first slots of the rows, and all their other slots are zero.
  pub iteration-Gives :
      (iter l : ℕ) (data_ct labels weights : Ciphertext)
      → level weights ≡ suc (suc (suc (suc l)))
      → level weights ≤ level data_ct
      → level weights ≤ level labels
      → ((i : ℕ) → i < 32768 → i % 256 ≢ 0 → value labels i ≡ zero_s)
      → Gives C.base I 32768
          (iteration C k iter data_ct labels weights)
          l
          (descent_step A k iter (value data_ct) (value labels) (value weights))
  unfolding iteration score residual gradient
  iteration-Gives = round-Gives C k I L K _ _ _ rotations-AreSums
