-- ===== src/Zk/Messages/RoundTrip.antt =====
-- The transcript and the response of Prototype B are read back as they were written.
use khipu_v_fhe.Prelude.{
  ℕ, ◌^◌, ◌<◌, ◌≡◌, refl, ap, arith, List, [], ◌++◌, append_assoc, append-nil, map, Bytes, All, ok,
  length, text, false, is_empty,
}
use khipu_v_fhe.Wire.{be_loop, be64}
use khipu_v_fhe.Wire.Reading.{start-Ahead}
use khipu_v_fhe.Wire.Blobs.{blob, read_blob-Ahead}
use khipu_v_fhe.Protocol.Requests.{write_blob_lem, remaining-nil}
use khipu_v_fhe.Hex.{to_hex}
use khipu_v_fhe.Hex.RoundTrip.{from_hex-to_hex}
use khipu_v_fhe.Libraries.{JsonLib, IsJson, str, strs, Field, IsAscii, FieldIsFine}
use khipu_v_fhe.Transcript.RoundTrip.{
  to_hex-IsAscii, map-to_hex-IsAscii, read_hashes_lem, read_hash_lem,
}
use khipu_v_fhe.Zk.Messages.{
  ZkTranscript, IsTyped, counters, zk_fields, zk_to_json, zk_from_json, ZkResponse,
  build_zk_response, parse_zk_response,
}

abbrev Fine : List ℕ × Field → Type 0
Fine (k, v) = IsAscii k × FieldIsFine v

counters-IsFine : (t : ZkTranscript) → IsTyped t → All Fine (counters t)
counters-IsFine t h = (
  (omega arith, h.eval_time),
  (
    (omega arith, h.witness_time),
    (
      (omega arith, h.proof_time),
      (
        (omega arith, h.transcript_time),
        (
          (omega arith, h.quote_time),
          (
            (omega arith, h.loading_time),
            ((omega arith, h.packaging_time), ((omega arith, h.memory), tt)),
          ),
        ),
      ),
    ),
  ),
)

zk_fields-IsFine : (t : ZkTranscript) → IsTyped t → All Fine (zk_fields t)
unfolding zk_fields
zk_fields-IsFine t h = (
  (omega arith, to_hex-IsAscii t.nonce h.nonce),
  (
    (omega arith, to_hex-IsAscii t.eval_key_hash h.eval_key.bytes),
    (
      (omega arith, map-to_hex-IsAscii t.input_ct_hashes h.inputs),
      ((omega arith, to_hex-IsAscii t.output_ct_hash h.output.bytes), counters-IsFine t h),
    ),
  ),
)

module _ (J : JsonLib) (L : IsJson J) where
  open J use {object, elements, value}

  -- A transcript of bytes, 32-byte digests and 64-bit counters can be written to JSON by Prototype B,
  -- and reading the text gives it back with all eight counters. The JSON library must have its
  -- documented behaviour.
  pub zk_from_json-zk_to_json :
      (t : ZkTranscript)
      → IsTyped t
      → (s : List ℕ) × (zk_to_json J t ≡ ok s) × (zk_from_json J s ≡ ok t)
  unfolding zk_to_json zk_from_json zk_fields
  zk_from_json-zk_to_json t h =
      let fs = zk_fields t in
      let (s, dumped, parsed) = L.parse-dump fs (zk_fields-IsFine t h) in
      let (j1, at1, holds1) = L.at-object fs (text "nonce") (str (to_hex t.nonce)) refl in
      let (j2, at2, holds2) =
        L.at-object fs (text "input_ct_hashes") (strs (map to_hex t.input_ct_hashes)) refl in
      (
        s,
        dumped,
        rw
            (
              parsed,
              at1,
              holds1,
              from_hex-to_hex t.nonce h.nonce,
              read_hash_lem J L fs (text "eval_key_hash") t.eval_key_hash h.eval_key refl,
              at2,
              read_hashes_lem J L (elements j2) t.input_ct_hashes h.inputs holds2,
              read_hash_lem J L fs (text "output_ct_hash") t.output_ct_hash h.output refl,
              L.value-object fs (text "fhe_eval_us") t.fhe_eval_us 0 refl h.eval_time,
              L.value-object fs (text "witness_us") t.witness_us 0 refl h.witness_time,
              L.value-object fs (text "proof_us") t.proof_us 0 refl h.proof_time,
              L.value-object fs (text "transcript_us") t.transcript_us 0 refl h.transcript_time,
              L.value-object fs (text "quote_us") t.quote_us 0 refl h.quote_time,
              L.value-object fs (text "input_loading_us") t.input_loading_us 0 refl h.loading_time,
              L.value-object fs (text "packaging_us") t.packaging_us 0 refl h.packaging_time,
              L.value-object fs (text "peak_mem_kb") t.peak_mem_kb 0 refl h.memory,
            )
            refl,
      )

abbrev zk_response_wire : ZkResponse → Bytes
zk_response_wire p =
    blob p.output_ct
    ++ (blob p.transcript_json ++ (blob p.proof ++ (blob p.public_inputs ++ (blob p.vk ++ []))))

build_zk_response-zk_response_wire : (p : ZkResponse) → build_zk_response p ≡ zk_response_wire p
unfolding build_zk_response
build_zk_response-zk_response_wire p = simp (write_blob_lem, append_assoc, append-nil)

-- The client of Prototype B reads from a response the five parts that the server put in, an error
-- included, if the message fits a vector.
pub parse_zk_response-build_zk_response :
    (what trailing : List ℕ) (p : ZkResponse)
    → length (build_zk_response p) < 2 ^ 63
    → parse_zk_response what trailing (build_zk_response p) ≡ ok p
unfolding parse_zk_response
parse_zk_response-build_zk_response what trailing p h =
    let a0 =
      start-Ahead (zk_response_wire p)
        (omega (arith, h, ap length (build_zk_response-zk_response_wire p))) in
    let (e1, a1) = read_blob-Ahead what p.output_ct _ a0 in
    let (e2, a2) = read_blob-Ahead what p.transcript_json _ a1 in
    let (e3, a3) = read_blob-Ahead what p.proof _ a2 in
    let (e4, a4) = read_blob-Ahead what p.public_inputs _ a3 in
    let (e5, a5) = read_blob-Ahead what p.vk [] a4 in
    rw (build_zk_response-zk_response_wire p, e1, e2, e3, e4, e5, remaining-nil a5) refl

pub build_zk_response_filled : (p : ZkResponse) → is_empty (build_zk_response p) ≡ false
build_zk_response_filled p = rw (build_zk_response-zk_response_wire p) (unfold be64 be_loop in refl)
