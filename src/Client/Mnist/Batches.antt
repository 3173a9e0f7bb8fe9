-- ===== src/Client/Mnist/Batches.antt =====
-- What the ciphertexts of the batches hold.
use khipu_v_fhe.Prelude.{
  ℕ, zero, suc, ◌+◌, ◌-◌, ◌*◌, ◌/◌, ◌%◌, ◌≤◌, ◌<◌, ◌≡◌, refl, sym, ap, subst, ◌∙◌, arith, List, [],
  ◌∷◌, ◌++◌, false, ok, length, length-append, ltb, ltb→lt, Bool-cases, inl, inr, Option, none,
  some,
}
use khipu_v_fhe.Workloads.{Scalars, Ckks}
use khipu_v_fhe.Workloads.Sums.{entry_at}
use khipu_v_fhe.Workloads.Slots.{Interpretation, Gives}
use khipu_v_fhe.Workloads.Logistic.Descent.{lookup}
use khipu_v_fhe.Client.Mnist.{Encryption, Row, row_at, filled, encrypt_batches}

module _ (A : Scalars) where
  open A use {Scalar, zero_s}

  entry_at-left :
      (xs ys : List Scalar) (m : ℕ) → m < length xs → entry_at A (xs ++ ys) m ≡ entry_at A xs m
  entry_at-left [] ys m h = absurd (omega arith)
  entry_at-left (x ∷ xs) ys zero h = refl
  entry_at-left (x ∷ xs) ys (suc m) h = entry_at-left xs ys m (omega arith)

  entry_at-right :
      (xs ys : List Scalar) (m j : ℕ)
      → j ≡ length xs + m
      → entry_at A (xs ++ ys) j ≡ entry_at A ys m
  entry_at-right [] ys m j h = ap (entry_at A ys) (omega arith)
  entry_at-right (x ∷ xs) ys m zero h = absurd (omega arith)
  entry_at-right (x ∷ xs) ys m (suc j) h = entry_at-right xs ys m j (omega arith)

  -- The columns of a row that may be missing.
  abbrev pub columns_of : (Row A → List Scalar) → Option (Row A) → List Scalar
  columns_of columns none = []
  columns_of columns (some row) = columns row

  -- The slots of batch `b`: 128 rows of 256 columns.
  abbrev pub batch_values : (Row A → List Scalar) → List (Row A) → ℕ → ℕ → Scalar
  batch_values columns rows b i =
      entry_at A (columns_of columns (lookup rows (b * 128 + i / 256))) (i % 256)

module _ {A : Scalars} {C : Ckks A} (E : Encryption C) where
  open A use {Scalar, zero_s}

  pub row_at-found :
      (rows : List (Row A)) (i : ℕ)
      → i < length rows
      → (row : Row A) × (lookup rows i ≡ some row) × (row_at E rows i ≡ ok row)
  unfolding row_at
  row_at-found [] i h = absurd (omega arith)
  row_at-found (row ∷ rows) zero h = (row, refl, refl)
  row_at-found (row ∷ rows) (suc i) h = row_at-found rows i (omega arith)

  module _ (columns : Row A → List Scalar) (rows : List (Row A))
      (wide : (i : ℕ) (row : Row A) → lookup rows i ≡ some row → length (columns row) ≡ 256) where
    pub record Packs (k i : ℕ) : Type 0 where
      pub vals : List Scalar
      pub returned : filled E columns rows k i ≡ ok vals
      pub size : length vals ≡ k * 256
      entries :
          (m : ℕ)
          → m < k * 256
          → entry_at A vals m
            ≡ entry_at A (columns_of A columns (lookup rows (i + m / 256))) (m % 256)

    pub filled-Packs : (k i : ℕ) → i + k ≤ length rows → Packs k i
    unfolding filled
    filled-Packs zero i h = record {
      vals = [];
      returned = refl;
      size = omega arith;
      entries = λ m hm. absurd (omega arith);
    }
    filled-Packs (suc k) i h =
        let (row, found, e) = row_at-found rows i (omega arith) in
        let rest = filled-Packs k (suc i) (omega arith) in
        let full = wide i row found in
        record {
          vals = columns row ++ rest.vals;
          returned = rw (e, rest.returned) refl;
          size = length-append (columns row) rest.vals ∙ omega (arith, full, rest.size);
          entries = λ m hm. elim (Bool-cases (ltb m 256)) [
            | inl first ↦
                let below = ltb→lt m 256 first in
                entry_at-left A (columns row) rest.vals m (omega (arith, full))
                ∙ ap (λ o. entry_at A (columns_of A columns o) m) (sym found)
                ∙ ap (λ j. entry_at A (columns_of A columns (lookup rows j)) m) {y = i + m / 256}
                    (omega arith)
                ∙ ap (entry_at A (columns_of A columns (lookup rows (i + m / 256)))) {y = m % 256}
                    (omega arith)
            | inr later ↦
                let above = past m later in
                entry_at-right A (columns row) rest.vals (m - 256) m (omega (arith, full))
                ∙ rest.entries (m - 256) (omega arith)
                ∙ ap (λ j. entry_at A (columns_of A columns (lookup rows j)) ((m - 256) % 256))
                    {y = i + m / 256} (omega arith)
                ∙ ap (entry_at A (columns_of A columns (lookup rows (i + m / 256)))) {y = m % 256}
                    (omega arith)
          ];
        }
      where
        past : (m : ℕ) → ltb m 256 ≡ false → 256 ≤ m
        past m h = ground arith

    -- Encryption at a fresh level keeps the values of a full vector.
    module _ (I : Interpretation C) (fresh : ℕ)
        (encrypts : (v : List Scalar)
          → length v ≡ 32_768
          → Gives C I 32_768 (E.encrypt_packed v 2 13) fresh (entry_at A v)) where
      open I use {value, level}

      -- The ciphertext of batch `b`.
      pub record Holds (b : ℕ) (ct : C.Ciphertext) : Type 0 where
        pub level_eq : level ct ≡ fresh
        pub value_eq : (i : ℕ) → i < 32_768 → value ct i ≡ batch_values A columns rows b i

      pub record Encrypted (k b : ℕ) : Type 0 where
        pub cts : List C.Ciphertext
        pub returned : encrypt_batches E columns rows k b ≡ ok cts
        pub size : length cts ≡ k
        pub holds :
            (j : ℕ) → j < k → (ct : C.Ciphertext) × (lookup cts j ≡ some ct) × Holds (b + j) ct

      encrypted_first :
          (ct : C.Ciphertext) (cts : List C.Ciphertext) (k b : ℕ)
          → Holds b ct
          → ((j : ℕ)
              → j < k
              → (ct : C.Ciphertext) × (lookup cts j ≡ some ct) × Holds (suc b + j) ct)
          → (j : ℕ) → j < suc k
          → (x : C.Ciphertext) × (lookup (ct ∷ cts) j ≡ some x) × Holds (b + j) x
      encrypted_first ct cts k b first rest zero h =
          (ct, refl, subst (λ m. Holds m ct) (omega arith) first)
      encrypted_first ct cts k b first rest (suc j) h =
          let (x, found, x_holds) = rest j (omega arith) in
          (x, found, subst (λ m. Holds m x) (omega arith) x_holds)

      pub encrypt_batches-Encrypted : (k b : ℕ) → (b + k) * 128 ≤ length rows → Encrypted k b
      unfolding encrypt_batches
      encrypt_batches-Encrypted zero b h = record {
        cts = [];
        returned = refl;
        size = refl;
        holds = λ j hj. absurd (omega arith);
      }
      encrypt_batches-Encrypted (suc k) b h =
          let batch = filled-Packs 128 (b * 128) (omega arith) in
          let first = encrypts batch.vals batch.size in
          let rest = encrypt_batches-Encrypted k (suc b) (omega arith) in
          record {
            cts = first.ct ∷ rest.cts;
            returned = rw (batch.returned, first.returned, rest.returned) refl;
            size = ap suc rest.size;
            holds =
                encrypted_first first.ct rest.cts k b
                  (record {
                    level_eq = first.level_eq;
                    value_eq = λ i hi. first.value_eq i hi ∙ batch.entries i hi;
                  })
                  rest.holds;
          }
