-- ===== src/Evidence/Package.antt =====
-- A package that is serialized is read back, and what the verifier accepts.
use khipu_v_fhe.Prelude.{
  ℕ, ◌+◌, ◌%◌, ◌^◌, ◌<◌, ◌≡◌, ◌≢◌, ◌↔◌, refl, sym, ap, subst, ◌∙◌, arith, [], ◌∷◌, ◌++◌,
  append_assoc, Bytes, true, false, not, Outcome, ok, throw, fault, length, length-append, take,
  drop, take-append, drop-append, is_empty, leb, bytes_eq, bytes_eq→eq, bytes_eq_refl, Bool-cases,
  inl, inr,
}
use khipu_v_fhe.Evidence.{
  GpuEvidencePackage, le32, of_le32, write_part, serialize, read_part, deserialize, nonce_array,
  check_package, verify_gpu_evidence,
}

-- A part on the wire.
abbrev part : Bytes → Bytes
part blob = le32 (length blob % 2 ^ 32) ++ blob

write_part_lem : (buf blob : Bytes) → write_part buf blob ≡ buf ++ part blob
unfolding write_part
write_part_lem buf blob = append_assoc buf (le32 (length blob % 2 ^ 32)) blob

-- The bytes from an offset on, in a buffer that has that many before it.
record From (buf : Bytes) (offset : ℕ) (rest : Bytes) : Type 0 where
  front : Bytes
  split : buf ≡ front ++ rest
  at : offset ≡ length front

module _ {buf : Bytes} {offset : ℕ} {rest : Bytes} (f : From buf offset rest) where
  drop-From : drop offset buf ≡ rest
  drop-From = rw (f.split, f.at) (drop-append f.front rest)

  length-From : length buf ≡ offset + length rest
  length-From = rw (f.split, f.at) (length-append f.front rest)

From-advance :
    {buf : Bytes} {offset : ℕ} (xs rest : Bytes)
    → From buf offset (xs ++ rest)
    → From buf (offset + length xs) rest
From-advance xs rest f = record {
  front = f.front ++ xs;
  split = f.split ∙ sym (append_assoc f.front xs rest);
  at = omega (arith, f.at, length-append f.front xs);
}

of_le32-le32 : (n : ℕ) (rest : Bytes) → n < 2 ^ 32 → of_le32 (take 4 (le32 n ++ rest)) ≡ n
unfolding le32
of_le32-le32 n rest h = omega arith

read_part-From :
    (blob rest : Bytes) {buf : Bytes} {offset : ℕ}
    → length blob < 2 ^ 32
    → From buf offset (part blob ++ rest)
    → (read_part buf offset ≡ ok (blob, offset + 4 + length blob))
      × From buf (offset + 4 + length blob) rest
unfolding read_part
read_part-From blob rest {buf} {offset} h f =
    let n : length blob % 2 ^ 32 ≡ length blob = omega arith in
    let header = le32 (length blob % 2 ^ 32) in
    let f0 = subst (From buf offset) (append_assoc header blob rest) f in
    let f1 : From buf (offset + 4) (blob ++ rest) =
      unfold le32 in From-advance header (blob ++ rest) f0 in
    let size : of_le32 (take 4 (drop offset buf)) ≡ length blob =
      rw (drop-From f0) (of_le32-le32 (length blob % 2 ^ 32) (blob ++ rest) (omega arith) ∙ n) in
    let space : length buf ≡ offset + 4 + (length blob + length rest) =
      omega (arith, length-From f1, length-append blob rest) in
    let value : take (length blob) (drop (offset + 4) buf) ≡ blob =
      rw (drop-From f1) (take-append blob rest) in
    (rw (size, value) (ground (arith, space)), From-advance blob rest f1)

-- What was serialized is read back, with anything behind it, if the sizes of the parts fit 32 bits and
-- the nonce has 32 bytes.
pub deserialize-serialize :
    (pkg : GpuEvidencePackage) (rest : Bytes)
    → length pkg.evidence_json < 2 ^ 32
    → length pkg.detached_eat < 2 ^ 32
    → length pkg.claims_json < 2 ^ 32
    → length pkg.nonce ≡ 32
    → deserialize (serialize pkg ++ rest) ≡ ok pkg
unfolding deserialize serialize
deserialize-serialize pkg rest h1 h2 h3 h4 =
    let wire =
      part pkg.evidence_json
      ++ (part pkg.detached_eat ++ (part pkg.claims_json ++ (pkg.nonce ++ rest))) in
    let whole : serialize pkg ++ rest ≡ wire = simp (write_part_lem, append_assoc) in
    let f0 : From wire 0 wire = record { front = []; split = refl; at = refl } in
    let (e1, f1) = read_part-From pkg.evidence_json _ h1 f0 in
    let (e2, f2) = read_part-From pkg.detached_eat _ h2 f1 in
    let (e3, f3) = read_part-From pkg.claims_json _ h3 f2 in
    let offset3 : ℕ =
      0 + 4 + length pkg.evidence_json + 4 + length pkg.detached_eat + 4 + length pkg.claims_json in
    let value : take 32 (pkg.nonce ++ rest) ≡ pkg.nonce =
      subst (λ n. take n (pkg.nonce ++ rest) ≡ pkg.nonce) h4 (take-append pkg.nonce rest) in
    let room : leb (offset3 + 32) (length wire) ≡ true =
      ground (arith, length-From f3, length-append pkg.nonce rest, h4) in
    rw (whole, e1, e2, e3, room, drop-From f3, value) refl

is_empty→ : (xs : Bytes) → not (is_empty xs) ≡ true → xs ≢ []
is_empty→ [] h e = cc
is_empty→ (x ∷ xs) h e = cc

→is_empty : (xs : Bytes) → xs ≢ [] → not (is_empty xs) ≡ true
→is_empty [] h = absurd (h refl)
→is_empty (x ∷ xs) h = refl

check_package_iff :
    (pkg : GpuEvidencePackage) (nonce : Bytes)
    → (check_package pkg nonce ≡ true)
      ↔ ((pkg.nonce ≡ nonce_array nonce) × (pkg.evidence_json ≢ []))
unfolding check_package
check_package_iff pkg nonce = (
  λ h. elim (Bool-cases (bytes_eq pkg.nonce (nonce_array nonce))) [
    | inl same ↦ (bytes_eq→eq _ _ same, is_empty→ pkg.evidence_json (rw same at h))
    | inr other ↦ absurd (cc (rw other at h))
  ],
  λ (e, n).
      let same : bytes_eq pkg.nonce (nonce_array nonce) ≡ true =
        rw e (bytes_eq_refl (nonce_array nonce)) in
      rw same (→is_empty pkg.evidence_json n),
)

accepted :
    (r : Outcome GpuEvidencePackage) (nonce : Bytes)
    → elim r [ ok pkg ↦ check_package pkg nonce | throw e ↦ false | fault ↦ false ] ≡ true
    → (pkg : GpuEvidencePackage) × (r ≡ ok pkg) × (check_package pkg nonce ≡ true)
accepted (ok pkg) nonce h = (pkg, refl, h)
accepted (throw e) nonce h = cc
accepted fault nonce h = cc

-- The evidence is accepted exactly when it is read as a package that has the client's nonce, cut or
-- padded to 32 bytes, and some JSON. The JSON itself is not looked at.
pub verify_gpu_evidence_iff :
    (serialized nonce : Bytes)
    → (verify_gpu_evidence serialized nonce ≡ true) ↔ (
        (pkg : GpuEvidencePackage) × (deserialize serialized ≡ ok pkg)
        × (pkg.nonce ≡ nonce_array nonce)
        × (pkg.evidence_json ≢ []))
unfolding verify_gpu_evidence deserialize read_part
verify_gpu_evidence_iff [] nonce = (λ h. cc, λ (pkg, e, n, j). cc)
verify_gpu_evidence_iff (b ∷ bs) nonce = (
  λ h.
      let (pkg, e, c) = accepted (deserialize (b ∷ bs)) nonce h in
      let (n, j) = (check_package_iff pkg nonce).0 c in (pkg, e, n, j),
  λ (pkg, e, n, j).
      ap (λ r. elim r [ ok pkg ↦ check_package pkg nonce | throw e ↦ false | fault ↦ false ]) e
      ∙ (check_package_iff pkg nonce).1 (n, j),
)
