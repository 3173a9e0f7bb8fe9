-- ===== src/Zk/Inputs.antt =====
-- Public inputs that are serialized are read back.
use khipu_v_fhe.Prelude.{
  ℕ, ◌+◌, ◌*◌, ◌^◌, ◌<◌, ◌≡◌, refl, ap, arith, List, [], ◌∷◌, ◌++◌, append_assoc, append-nil, Bytes,
  true, ok, length, length-append, take, take-append, drop, drop-append, leb, lt→ltb, subst,
}
use khipu_v_fhe.Evidence.{le32, of_le32}
use khipu_v_fhe.Zk.{
  Snark, IsSnark, element, element_bytes, serialize_public_inputs, read_elements,
  deserialize_public_inputs,
}

take-all : (xs : Bytes) → take (length xs) xs ≡ xs
take-all [] = refl
take-all (x ∷ xs) = ap (λ (t : Bytes). x ∷ t) (take-all xs)

of_le32_lem : (n : ℕ) (rest : Bytes) → n < 2 ^ 32 → of_le32 (le32 n ++ rest) ≡ n
unfolding le32
of_le32_lem n rest h = omega arith

module _ (S : Snark) (L : IsSnark S) where
  open S use {Field, write_field, read_field}

  element_lem : (x : Field) → element S x ≡ write_field x
  unfolding element
  element_lem x =
      let whole : take 32 (write_field x) ≡ write_field x =
        subst (λ n. take n (write_field x) ≡ write_field x) (L.length-write_field x)
          (take-all (write_field x)) in
      rw (whole, L.length-write_field x) (append-nil (write_field x))

  length-element_bytes : (xs : List Field) → length (element_bytes S xs) ≡ length xs * 32
  length-element_bytes [] = refl
  length-element_bytes (x ∷ xs) = rw (element_lem x) (
      omega (
        arith,
        length-append (write_field x) (element_bytes S xs),
        L.length-write_field x,
        length-element_bytes xs,
      ))

  read_elements-element_bytes :
      (xs : List Field) (rest : Bytes)
      → read_elements S (length xs) (element_bytes S xs ++ rest) ≡ xs
  unfolding read_elements
  read_elements-element_bytes [] rest = refl
  read_elements-element_bytes (x ∷ xs) rest =
      let tail = element_bytes S xs ++ rest in
      let first : take 32 (write_field x ++ tail) ≡ write_field x =
        subst (λ n. take n (write_field x ++ tail) ≡ write_field x) (L.length-write_field x)
          (take-append (write_field x) tail) in
      let later : drop 32 (write_field x ++ tail) ≡ tail =
        subst (λ n. drop n (write_field x ++ tail) ≡ tail) (L.length-write_field x)
          (drop-append (write_field x) tail) in
      rw
        (
          element_lem x,
          append_assoc (write_field x) (element_bytes S xs) rest,
          first,
          later,
          L.read-write_field x,
          read_elements-element_bytes xs rest,
        )
        refl

  -- Fewer than 2 ^ 32 public inputs can be serialized and are read back as they were, whatever
  -- bytes follow.
  pub deserialize_public_inputs-serialize_public_inputs :
      (xs : List Field) (rest : Bytes)
      → length xs < 2 ^ 32
      → (bytes : Bytes) × (serialize_public_inputs S xs ≡ ok bytes)
        × (deserialize_public_inputs S (bytes ++ rest) ≡ ok xs)
  unfolding serialize_public_inputs deserialize_public_inputs
  deserialize_public_inputs-serialize_public_inputs xs rest h =
      let bytes : Bytes = le32 (length xs) ++ element_bytes S xs in
      let whole : bytes ++ rest ≡ le32 (length xs) ++ (element_bytes S xs ++ rest) =
        append_assoc (le32 (length xs)) (element_bytes S xs) rest in
      let count = of_le32_lem (length xs) (element_bytes S xs ++ rest) h in
      let size : length (le32 (length xs) ++ (element_bytes S xs ++ rest))
          ≡ 4 + (length xs * 32 + length rest) =
        unfold le32 in
        omega (arith, length-append (element_bytes S xs) rest, length-element_bytes xs) in
      let body : drop 4 (le32 (length xs) ++ (element_bytes S xs ++ rest))
          ≡ element_bytes S xs ++ rest =
        unfold le32 in refl in
      let enough : leb 4 (4 + (length xs * 32 + length rest)) ≡ true = ground arith in
      let room : leb (4 + length xs * 32) (4 + (length xs * 32 + length rest)) ≡ true =
        ground arith in
      (
        bytes,
        rw (lt→ltb (length xs) (2 ^ 32) h) refl,
        rw (whole, size, count, body, enough, room, read_elements-element_bytes xs rest) refl,
      )
