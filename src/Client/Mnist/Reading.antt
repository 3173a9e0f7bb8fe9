-- ===== src/Client/Mnist/Reading.antt =====
-- Every row that is read from the file has 256 features.
use khipu_v_fhe.Prelude.{
  ℕ, zero, suc, ◌≡◌, refl, ap, subst, List, [], ◌∷◌, All, Bool, true, false, Outcome, ok, ◌>>=◌,
  >>=-eq-ok, length, some, if◌then◌else◌,
}
use khipu_v_fhe.Workloads.{Scalars, Ckks}
use khipu_v_fhe.Client.Mnist.{
  Stream, getline, Encryption, Row, resize, read_cells, read_row, read_rows, read_mnist,
}

module _ (A : Scalars) where
  length-resize : (n : ℕ) (xs : List A.Scalar) → length (resize A n xs) ≡ n
  length-resize zero xs = refl
  length-resize (suc n) [] = ap suc (length-resize n [])
  length-resize (suc n) (x ∷ xs) = ap suc (length-resize n xs)

  -- A row as wide as the ciphertext's.
  abbrev pub IsFull : Row A → Type 0
  IsFull row = length row.features ≡ 256

module _ {A : Scalars} {C : Ckks A} (E : Encryption C) where
  open A use {Scalar}

  read_cells-keeps :
      (k : ℕ) (cell : List ℕ) (iss : Stream)
      (next : List Scalar → List ℕ → Stream → Outcome (Row A)) (row : Row A)
      → ((xs : List Scalar) (cell : List ℕ) (iss : Stream)
          → next xs cell iss ≡ ok row
          → IsFull A row)
      → read_cells E k cell iss next ≡ ok row
      → IsFull A row
  unfolding read_cells
  read_cells-keeps zero cell iss next row keeps h = keeps [] cell iss h
  read_cells-keeps (suc k) cell iss next row keeps h =
      let read = getline b',' cell iss in
      let (x, e, h') = >>=-eq-ok (E.stod read.1) _ h in
      read_cells-keeps k read.1 read.2 _ row (λ xs cell iss. keeps (x ∷ xs) cell iss) h'

  read_row-IsFull : (line : List ℕ) (row : Row A) → read_row E line ≡ ok row → IsFull A row
  unfolding read_row
  read_row-IsFull line row h =
      read_cells-keeps 196 [] (some line) _ row
        (λ xs cell iss h.
          let (label, e, last) = >>=-eq-ok (E.stod (getline b',' cell iss).1) _ h in
          let made : record { features = resize A 256 xs; label = label } ≡ row = cc last in
          subst (IsFull A) made (length-resize A 256 xs))
        h

  rest_rows :
      (success : Bool) (first : Outcome (Row A)) (rest : Outcome (List (Row A)))
      (rows : List (Row A))
      → ((row : Row A) → first ≡ ok row → IsFull A row)
      → ((rows : List (Row A)) → rest ≡ ok rows → All (IsFull A) rows)
      → (if success then (first >>= λ row. rest >>= λ rows. ok (row ∷ rows)) else ok []) ≡ ok rows
      → All (IsFull A) rows
  rest_rows false first rest rows h h' e =
      let none : [] ≡ rows = cc e in subst (All (IsFull A)) none tt
  rest_rows true first rest rows h h' e =
      let (row, read, e1) = >>=-eq-ok first _ e in
      let (others, read', e2) = >>=-eq-ok rest _ e1 in
      let all : row ∷ others ≡ rows = cc e2 in
      subst (All (IsFull A)) all (h row read, h' others read')

  read_rows-IsFull :
      (n : ℕ) (line : List ℕ) (ifs : Stream) (rows : List (Row A))
      → read_rows E n line ifs ≡ ok rows
      → All (IsFull A) rows
  unfolding read_rows
  read_rows-IsFull zero line ifs rows h =
      let none : [] ≡ rows = cc h in subst (All (IsFull A)) none tt
  read_rows-IsFull (suc n) line ifs rows h =
      let read = getline 10 line ifs in
      rest_rows read.0 (read_row E read.1) (read_rows E n read.1 read.2) rows
        (read_row-IsFull read.1) (read_rows-IsFull n read.1 read.2) h

  pub read_mnist-IsFull :
      (content : List ℕ) (rows : List (Row A))
      → read_mnist E content ≡ ok rows
      → All (IsFull A) rows
  unfolding read_mnist
  read_mnist-IsFull content rows h =
      let read = getline 10 [] (some content) in read_rows-IsFull 1280 read.1 read.2 rows h
