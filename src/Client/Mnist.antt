-- ===== src/Client/Mnist.antt =====
-- The inputs of the logistic regression: gen_logreg_inputs of tee-vfhe/src/client/client_main.cpp. The
-- file is its content, if it can be opened; `std::stod` and the encryption are parameters.
pub mod Reading
pub mod Batches
pub mod Trained
pub mod Short
use khipu_v_fhe.Prelude.{
  ℕ, zero, suc, ◌+◌, ◌*◌, List, [], ◌∷◌, ◌++◌, Bool, true, false, not, Outcome, ok, throw, fault,
  ◌>>=◌, text, is_empty, replicate, ◌==◌, if◌then◌else◌, Option, none, some,
}
use khipu_v_fhe.Workloads.{Scalars, Ckks}

-- An input stream: what is left of it, or `none` behind its end.
abbrev pub Stream : Type 0
Stream = Option (List ℕ)

-- The text up to the separator, and what follows it, if it is there.
unfoldable pub cut_at : ℕ → List ℕ → List ℕ × Stream
cut_at sep [] = ([], none)
cut_at sep (c ∷ cs) =
    let (before, after) = cut_at sep cs in if c == sep then ([], some cs) else (c ∷ before, after)

-- At the end of the stream, `std::getline` fails if it has read nothing.
abbrev pub got : List ℕ × Stream → Bool × List ℕ × Stream
got (before, some rest) = (true, before, some rest)
got (before, none) = (not (is_empty before), before, none)

-- `std::getline(is, str, sep)`: whether it succeeds, the new `str`, which stays as it is behind the end
-- of the stream, and the stream.
unfoldable pub getline : ℕ → List ℕ → Stream → Bool × List ℕ × Stream
getline sep str none = (false, str, none)
getline sep str (some cs) = got (cut_at sep cs)

-- `std::stod`, and `MakeCKKSPackedPlaintext` with a noise degree and a level, then `Encrypt`.
pub record Encryption {A : Scalars} (C : Ckks A) : Type 0 where
  pub stod : List ℕ → Outcome A.Scalar
  pub encrypt_packed : List A.Scalar → ℕ → ℕ → Outcome C.Ciphertext

module _ (A : Scalars) where
  open A use {Scalar, zero_s}

  pub record Row : Type 0 where
    pub features : List Scalar
    pub label : Scalar

  -- `feat.resize(n, 0.0)`
  abbrev pub resize : ℕ → List Scalar → List Scalar
  resize zero xs = []
  resize (suc n) [] = zero_s ∷ resize n []
  resize (suc n) (x ∷ xs) = x ∷ resize n xs

  abbrev pub data_columns : Row → List Scalar
  data_columns row = row.features

  -- The label in the first column.
  abbrev pub label_columns : Row → List Scalar
  label_columns row = row.label ∷ replicate 255 zero_s

module _ {A : Scalars} {C : Ckks A} (E : Encryption C) where
  open A use {Scalar, zero_s}
  open C use {Ciphertext}
  open E use {stod, encrypt_packed}

  -- The next cells of a line. A call that fails at the end of the line leaves `cell` as it is.
  unfoldable pub read_cells :
      ℕ → List ℕ → Stream → (List Scalar → List ℕ → Stream → Outcome (Row A)) → Outcome (Row A)
  read_cells zero cell iss next = next [] cell iss
  read_cells (suc k) cell iss next =
      let (success, cell', iss') = getline b',' cell iss in
      stod cell' >>= λ x. read_cells k cell' iss' (λ xs. next (x ∷ xs))

  unfoldable pub read_row : List ℕ → Outcome (Row A)
  read_row line = read_cells 196 [] (some line) (λ feat cell iss.
      let (success, cell', iss') = getline b',' cell iss in
      stod cell' >>= λ label. ok (record { features = resize A 256 feat; label = label }))

  -- `for (int row = 0; row < 1280 && std::getline(ifs, line); ++row)`, with so many rows to go.
  unfoldable pub read_rows : ℕ → List ℕ → Stream → Outcome (List (Row A))
  read_rows zero line ifs = ok []
  read_rows (suc n) line ifs =
      let (success, line', ifs') = getline 10 line ifs in
      let rest = read_rows n line' ifs' in
      if success then (read_row line' >>= λ row. rest >>= λ rows. ok (row ∷ rows)) else ok []

  -- Behind the header.
  unfoldable pub read_mnist : List ℕ → Outcome (List (Row A))
  read_mnist content =
      let (success, header, ifs) = getline 10 [] (some content) in read_rows 1280 header ifs

  -- `rows[i]`
  unfoldable pub row_at : List (Row A) → ℕ → Outcome (Row A)
  row_at [] i = fault
  row_at (row ∷ rows) zero = ok row
  row_at (row ∷ rows) (suc i) = row_at rows i

  -- The vector that is filled row by row from row `i` on.
  unfoldable pub filled : (Row A → List Scalar) → List (Row A) → ℕ → ℕ → Outcome (List Scalar)
  filled columns rows zero i = ok []
  filled columns rows (suc k) i = do
    row ← row_at rows i
    vals ← filled columns rows k (suc i)
    ok (columns row ++ vals)

  -- The ciphertexts of the batches from `b` on, of 128 rows each.
  unfoldable pub encrypt_batches :
      (Row A → List Scalar) → List (Row A) → ℕ → ℕ → Outcome (List Ciphertext)
  encrypt_batches columns rows zero b = ok []
  encrypt_batches columns rows (suc k) b = do
    vals ← filled columns rows 128 (b * 128)
    ct ← encrypt_packed vals 2 13
    cts ← encrypt_batches columns rows k (suc b)
    ok (ct ∷ cts)

  unfoldable pub encrypt_inputs : List (Row A) → Outcome (List Ciphertext)
  encrypt_inputs rows = do
    data_cts ← encrypt_batches (data_columns A) rows 10 0
    label_cts ← encrypt_batches (label_columns A) rows 10 0
    weights_ct ← encrypt_packed (replicate 32_768 zero_s) 2 13
    ok (data_cts ++ (label_cts ++ (weights_ct ∷ [])))

  unfoldable pub gen_logreg_inputs : Stream → Outcome (List Ciphertext)
  gen_logreg_inputs none = throw (text "Cannot open mnist_data_train.csv")
  gen_logreg_inputs (some content) = read_mnist content >>= encrypt_inputs
