-- ===== src/Client/Mnist/Short.antt =====
-- A file with too few rows: `features[sample_idx]` is read behind the end of the vector.
use khipu_v_fhe.Prelude.{
  ℕ, zero, suc, ◌+◌, ◌*◌, ◌≤◌, ◌<◌, ◌≡◌, refl, arith, List, [], ◌∷◌, All, false, ok, fault, length,
  leb, leb→le, Bool-cases, inl, inr, some,
}
use khipu_v_fhe.Workloads.{Scalars}
use khipu_v_fhe.Workloads.Sums.{entry_at}
use khipu_v_fhe.Workloads.Slots.{Interpretation, Gives}
use khipu_v_fhe.Workloads.{Ckks}
use khipu_v_fhe.Client.Mnist.{
  Encryption, Row, read_mnist, row_at, filled, data_columns, encrypt_batches, encrypt_inputs,
  gen_logreg_inputs,
}
use khipu_v_fhe.Client.Mnist.Reading.{IsFull, read_mnist-IsFull}
use khipu_v_fhe.Client.Mnist.Batches.{row_at-found, filled-Packs}
use khipu_v_fhe.Client.Mnist.Trained.{lookup-All}

module _ {A : Scalars} {C : Ckks A} (E : Encryption C) where
  row_at_missing : (rows : List (Row A)) (i : ℕ) → length rows ≤ i → row_at E rows i ≡ fault
  unfolding row_at
  row_at_missing [] i h = refl
  row_at_missing (row ∷ rows) zero h = absurd (omega arith)
  row_at_missing (row ∷ rows) (suc i) h = row_at_missing rows i (omega arith)

  filled_short :
      (columns : Row A → List A.Scalar) (rows : List (Row A)) (k i : ℕ)
      → length rows < i + k
      → i ≤ length rows
      → filled E columns rows k i ≡ fault
  unfolding filled
  filled_short columns rows zero i h h' = absurd (omega arith)
  filled_short columns rows (suc k) i h h' = elim (Bool-cases (leb (length rows) i)) [
    | inl missing ↦ rw (row_at_missing rows i (leb→le (length rows) i missing)) refl
    | inr there ↦
        let below = before i there in
        let (row, found, e) = row_at-found E rows i below in
        rw (e, filled_short columns rows k (suc i) (omega arith) (omega arith)) refl
  ]
    where
      before : (i : ℕ) → leb (length rows) i ≡ false → i < length rows
      before i h = ground arith

  module _ (I : Interpretation C) (fresh : ℕ)
      (encrypts : (v : List A.Scalar)
        → length v ≡ 32_768
        → Gives C I 32_768 (E.encrypt_packed v 2 13) fresh (entry_at A v)) where
    encrypt_batches_short :
        (rows : List (Row A)) (k b : ℕ)
        → All (IsFull A) rows
        → length rows < (b + k) * 128
        → b * 128 ≤ length rows
        → encrypt_batches E (data_columns A) rows k b ≡ fault
    unfolding encrypt_batches
    encrypt_batches_short rows zero b full h h' = absurd (omega arith)
    encrypt_batches_short rows (suc k) b full h h' =
        elim (Bool-cases (leb (b * 128 + 128) (length rows))) [
          | inl enough ↦
              let room = leb→le (b * 128 + 128) (length rows) enough in
              let batch =
                filled-Packs E (data_columns A) rows
                  (λ i row found. lookup-All (IsFull A) rows i full found) 128 (b * 128) room in
              let first = encrypts batch.vals batch.size in
              rw
                (
                  batch.returned,
                  first.returned,
                  encrypt_batches_short rows k (suc b) full (omega arith) (omega arith),
                )
                refl
          | inr short ↦
              rw (filled_short (data_columns A) rows 128 (b * 128) (lacking b short) h') refl
        ]
      where
        lacking : (b : ℕ) → leb (b * 128 + 128) (length rows) ≡ false → length rows < b * 128 + 128
        lacking b h = ground arith

    -- From a file with fewer than 1280 rows behind its header the client reads behind the end of the
    -- vector of rows, if encryption succeeds.
    pub gen_logreg_inputs_short :
        (content : List ℕ) (rows : List (Row A))
        → read_mnist E content ≡ ok rows
        → length rows < 1280
        → gen_logreg_inputs E (some content) ≡ fault
    unfolding gen_logreg_inputs encrypt_inputs
    gen_logreg_inputs_short content rows read short =
        rw
          (
            read,
            encrypt_batches_short rows 10 0 (read_mnist-IsFull E content rows read) (omega arith)
                (omega arith),
          )
          refl
