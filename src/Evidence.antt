-- ===== src/Evidence.antt =====
-- GPU evidence of Prototype D: h100_evidence_adapter.cpp and `Verifier::verify_gpu_evidence`. The
-- NVTrust SDK is a parameter.
pub mod Package
pub mod Adapter
use khipu_v_fhe.Prelude.{
  ℕ, zero, suc, ◌+◌, ◌*◌, ◌/◌, ◌%◌, ◌^◌, ◌≡◌, min, List, [], ◌∷◌, ◌++◌, Bytes, Bool, true, false,
  not, Outcome, ok, throw, fault, ◌>>=◌, ◌>>◌, require, text, length, take, drop, replicate,
  is_empty, ltb, leb, bytes_eq, if◌then◌else◌, ◌⊎◌, inl, inr,
}

pub record GpuEvidencePackage : Type 0 where
  pub evidence_json : Bytes
  pub detached_eat : Bytes
  pub claims_json : Bytes
  pub nonce : Bytes

-- The four bytes of a uint32_t in memory, on a little-endian machine.
unfoldable pub le32 : ℕ → Bytes
le32 v = (v % 256) ∷ (v / 2 ^ 8 % 256) ∷ (v / 2 ^ 16 % 256) ∷ (v / 2 ^ 24 % 256) ∷ []

abbrev pub of_le32 : Bytes → ℕ
of_le32 (a ∷ b ∷ c ∷ d ∷ _) = a + b * 2 ^ 8 + c * 2 ^ 16 + d * 2 ^ 24
of_le32 _ = 0

-- The lambda `write_blob` of `serialize`. The size is cut to 32 bits.
unfoldable pub write_part : Bytes → Bytes → Bytes
write_part buf blob = (buf ++ le32 (length blob % 2 ^ 32)) ++ blob

unfoldable pub serialize : GpuEvidencePackage → Bytes
serialize pkg =
    write_part (write_part (write_part [] pkg.evidence_json) pkg.detached_eat) pkg.claims_json
    ++ pkg.nonce

-- The lambda `read_blob` of `deserialize`: the blob, and the offset behind it.
unfoldable pub read_part : Bytes → ℕ → Outcome (Bytes × ℕ)
read_part buf offset = do
  require (leb (offset + 4) (length buf)) (text "deserialize: truncated")
  let sz = of_le32 (take 4 (drop offset buf))
  require (leb (offset + 4 + sz) (length buf)) (text "deserialize: truncated blob")
  ok (take sz (drop (offset + 4) buf), offset + 4 + sz)

-- Bytes behind the nonce are not looked at.
unfoldable pub deserialize : Bytes → Outcome GpuEvidencePackage
deserialize buf = do
  (evidence_json, o1) ← read_part buf 0
  (detached_eat, o2) ← read_part buf o1
  (claims_json, o3) ← read_part buf o2
  require (leb (o3 + 32) (length buf)) (text "deserialize: truncated nonce")
  ok (record {
    evidence_json = evidence_json;
    detached_eat = detached_eat;
    claims_json = claims_json;
    nonce = take 32 (drop o3 buf);
  })

-- An array of 32 zero bytes, with the first 32 bytes of the nonce copied into it.
unfoldable pub nonce_array : Bytes → Bytes
nonce_array nonce =
    let copy_len = min (length nonce) 32 in take copy_len nonce ++ drop copy_len (replicate 32 0)

-- The checks of `Verifier::verify_gpu_evidence` on a package that was read.
unfoldable pub check_package : GpuEvidencePackage → Bytes → Bool
check_package pkg expected_nonce =
    if not (bytes_eq pkg.nonce (nonce_array expected_nonce))
    then false
    else not (is_empty pkg.evidence_json)

unfoldable pub verify_gpu_evidence : Bytes → Bytes → Bool
verify_gpu_evidence gpu_evidence_serialized expected_nonce =
    if is_empty gpu_evidence_serialized then false else elim (deserialize gpu_evidence_serialized) [
      | ok pkg ↦ check_package pkg expected_nonce
      | throw e ↦ false
      | fault ↦ false
    ]

-- `H100EvidenceAdapter::verify`
unfoldable pub verify : GpuEvidencePackage → Bytes → Bool
verify evidence expected_nonce =
    if not (bytes_eq evidence.nonce expected_nonce)
    then false
    else not (is_empty evidence.evidence_json)
