-- ===== src/Client/Mnist/Trained.antt =====
-- The inputs that the client generates are what the logistic regression of the server wants.
use khipu_v_fhe.Prelude.{
  ℕ, zero, suc, ◌+◌, ◌*◌, ◌/◌, ◌%◌, ◌<◌, ◌≡◌, ◌≢◌, refl, subst, ap, ◌∙◌, arith, List, [], ◌∷◌, ◌++◌,
  All, ok, length, length-append, length-replicate, replicate, Option, none, some,
}
use khipu_v_fhe.Workloads.{Scalars, logistic_rotations}
use khipu_v_fhe.Workloads.Sums.{IsScalars, entry_at}
use khipu_v_fhe.Workloads.Slots.{Interpretation, Gives, Gives-ext}
use khipu_v_fhe.Workloads.Logistic.{FlexCkks, Coefficients, IsFlex, logistic_eval}
use khipu_v_fhe.Workloads.Logistic.Steps.{descent_step, entry_at_zeros, tail_entry}
use khipu_v_fhe.Workloads.Logistic.Descent.{lookup, descent_step_ext, logistic_eval-Gives}
use khipu_v_fhe.Client.Mnist.{
  Encryption, Row, read_mnist, data_columns, label_columns, encrypt_inputs, gen_logreg_inputs,
}
use khipu_v_fhe.Client.Mnist.Reading.{IsFull, read_mnist-IsFull}
use khipu_v_fhe.Client.Mnist.Batches.{columns_of, batch_values, encrypt_batches-Encrypted}

lookup-left {ℓ} :
    {X : Type ℓ} (xs ys : List X) (j : ℕ) {x : X}
    → lookup xs j ≡ some x
    → lookup (xs ++ ys) j ≡ some x
lookup-left [] ys j h = cc
lookup-left (x ∷ xs) ys zero h = h
lookup-left (x ∷ xs) ys (suc j) h = lookup-left xs ys j h

lookup-right {ℓ} :
    {X : Type ℓ} (xs ys : List X) (m j : ℕ) → j ≡ length xs + m → lookup (xs ++ ys) j ≡ lookup ys m
lookup-right [] ys m j h = ap (lookup ys) (omega arith)
lookup-right (x ∷ xs) ys m zero h = absurd (omega arith)
lookup-right (x ∷ xs) ys m (suc j) h = lookup-right xs ys m j (omega arith)

pub lookup-All {ℓ κ} :
    {X : Type ℓ} (P : X → Type κ) (xs : List X) (i : ℕ) {x : X}
    → All P xs
    → lookup xs i ≡ some x
    → P x
lookup-All P [] i h e = absurd (cc e)
lookup-All P (x ∷ xs) zero (p, h) e = subst P (cc e) p
lookup-All P (x ∷ xs) (suc i) (p, h) e = lookup-All P xs i h e

module _ (A : Scalars) (k : Coefficients A) where
  open A use {Scalar, zero_s}

  -- The data, and the labels in the first columns, of a batch.
  abbrev pub data_of : List (Row A) → ℕ → ℕ → Scalar
  data_of = batch_values A (data_columns A)

  abbrev pub labels_of : List (Row A) → ℕ → ℕ → Scalar
  labels_of = batch_values A (label_columns A)

  labels_of-tail : (rows : List (Row A)) (b i : ℕ) → i % 256 ≢ 0 → labels_of rows b i ≡ zero_s
  labels_of-tail rows b i h = tail (lookup rows (b * 128 + i / 256))
    where
      tail : (o : Option (Row A)) → entry_at A (columns_of A (label_columns A) o) (i % 256) ≡ zero_s
      tail none = refl
      tail (some row) = tail_entry A k row.label (i % 256) h

module _ {A : Scalars} (C : FlexCkks A) (E : Encryption C.base) (k : Coefficients A)
    (I : Interpretation C.base) (fresh : ℕ)
    (encrypts : (v : List A.Scalar)
      → length v ≡ 32_768
      → Gives C.base I 32_768 (E.encrypt_packed v 2 13) fresh (entry_at A v)) where
  open A use {Scalar, zero_s}
  open C.base use {Ciphertext}
  open I use {value, level}

  -- The 21 ciphertexts of the rows.
  record Sends (rows : List (Row A)) : Type 0 where
    inputs : List Ciphertext
    returned : encrypt_inputs E rows ≡ ok inputs
    size : length inputs ≡ 21
    data_at :
        (b : ℕ)
        → b < 10
        → (ct : Ciphertext) × (lookup inputs b ≡ some ct)
          × (level ct ≡ fresh)
          × ((i : ℕ) → i < 32_768 → value ct i ≡ data_of A k rows b i)
    labels_at :
        (b : ℕ)
        → b < 10
        → (ct : Ciphertext) × (lookup inputs (10 + b) ≡ some ct)
          × (level ct ≡ fresh)
          × ((i : ℕ) → i < 32_768 → value ct i ≡ labels_of A k rows b i)
    weights_at :
        (ct : Ciphertext) × (lookup inputs 20 ≡ some ct)
        × (level ct ≡ fresh)
        × ((i : ℕ) → i < 32_768 → value ct i ≡ zero_s)

  encrypt_inputs-Sends :
      (rows : List (Row A)) → All (IsFull A) rows → length rows ≡ 1280 → Sends rows
  unfolding encrypt_inputs
  encrypt_inputs-Sends rows full size =
      let data_cts =
        encrypt_batches-Encrypted E (data_columns A) rows
          (λ i row found. lookup-All (IsFull A) rows i full found) I fresh encrypts 10 0
          (omega arith) in
      let label_cts =
        encrypt_batches-Encrypted E (label_columns A) rows
          (λ i row found. ap suc (length-replicate 255 zero_s)) I fresh encrypts 10 0
          (omega arith) in
      let w = encrypts (replicate 32_768 zero_s) (length-replicate 32_768 zero_s) in
      let rest = label_cts.cts ++ (w.ct ∷ []) in
      record {
        inputs = data_cts.cts ++ rest;
        returned = rw (data_cts.returned, label_cts.returned, w.returned) refl;
        size =
            length-append data_cts.cts rest
            ∙ omega (arith, data_cts.size, label_cts.size, length-append label_cts.cts (w.ct ∷ []));
        data_at = λ b hb.
            let (ct, found, holds) = data_cts.holds b hb in
            (
              ct,
              lookup-left data_cts.cts rest b found,
              holds.level_eq,
              λ i hi. holds.value_eq i hi ∙ ap (λ m. data_of A k rows m i) (from_zero b),
            );
        labels_at = λ b hb.
            let (ct, found, holds) = label_cts.holds b hb in
            (
              ct,
              lookup-right data_cts.cts rest b (10 + b) (omega (arith, data_cts.size))
                  ∙ lookup-left label_cts.cts (w.ct ∷ []) b found,
              holds.level_eq,
              λ i hi. holds.value_eq i hi ∙ ap (λ m. labels_of A k rows m i) (from_zero b),
            );
        weights_at = (
          w.ct,
          lookup-right data_cts.cts rest 10 20 (omega (arith, data_cts.size))
              ∙ lookup-right label_cts.cts (w.ct ∷ []) 0 10 (omega (arith, label_cts.size)),
          w.level_eq,
          λ i hi. w.value_eq i hi ∙ entry_at_zeros A k 32_768 i,
        );
      }
    where
      from_zero : (b : ℕ) → 0 + b ≡ b
      from_zero b = omega arith

  -- From a file with 1280 rows the client generates 21 inputs, and on these the logistic regression
  -- returns the weights of two steps of the gradient descent on the first two batches of the file,
  -- from weights of zero on: if encryption keeps the values at a level with eight to spare, for the
  -- rotation keys that the workload's `gen_keys` makes.
  pub logistic_eval-gen_logreg_inputs :
      IsScalars A
      → IsFlex C I 32_768 logistic_rotations
      → (content : List ℕ) (rows : List (Row A)) (l : ℕ) → read_mnist E content ≡ ok rows
      → length rows ≡ 1280
      → fresh ≡ 8 + l
      → (inputs : List Ciphertext) × (gen_logreg_inputs E (some content) ≡ ok inputs)
        × Gives C.base I 32_768 (logistic_eval C k inputs) l (
            descent_step A k 1
              (data_of A k rows 1)
              (labels_of A k rows 1)
              (descent_step A k 0 (data_of A k rows 0) (labels_of A k rows 0) (λ i. zero_s)))
  unfolding gen_logreg_inputs
  logistic_eval-gen_logreg_inputs L K content rows l read size levels =
      let made = encrypt_inputs-Sends rows (read_mnist-IsFull E content rows read) size in
      let (d0, at0, ld0, vd0) = made.data_at 0 (omega arith) in
      let (y0, at10, ly0, vy0) = made.labels_at 0 (omega arith) in
      let (d1, at1, ld1, vd1) = made.data_at 1 (omega arith) in
      let (y1, at11, ly1, vy1) = made.labels_at 1 (omega arith) in
      let (w, at20, lw, vw) = made.weights_at in
      let trained =
        logistic_eval-Gives C k I L K made.inputs l d0 y0 d1 y1 w made.size at0 at10 at1 at11 at20
          (lw ∙ levels)
          (record {
            data_level = omega (arith, ld0, levels);
            labels_level = omega (arith, ly0, levels);
            only_heads = λ i hi ne. vy0 i hi ∙ labels_of-tail A k rows 0 i ne;
          })
          (record {
            data_level = omega (arith, ld1, levels);
            labels_level = omega (arith, ly1, levels);
            only_heads = λ i hi ne. vy1 i hi ∙ labels_of-tail A k rows 1 i ne;
          }) in
      (
        made.inputs,
        rw read made.returned,
        Gives-ext C.base I 32_768 trained refl (λ i hi.
            descent_step_ext A k L 1 (value d1) (data_of A k rows 1) (value y1)
              (labels_of A k rows 1) (descent_step A k 0 (value d0) (value y0) (value w))
              (descent_step A k 0 (data_of A k rows 0) (labels_of A k rows 0) (λ i. zero_s)) i vd1
              vy1
              (λ j hj.
                descent_step_ext A k L 0 (value d0) (data_of A k rows 0) (value y0)
                  (labels_of A k rows 0) (value w) (λ i. zero_s) j vd0 vy0 vw hj)
              hi),
      )
