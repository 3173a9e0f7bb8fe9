-- ===== src/Zk/Messages.antt =====
-- What Prototype B sends back: transcript.h and transcript.cpp of zk-vfhe, and the response of five
-- parts that its server_main.cpp writes and its client_main.cpp reads.
pub mod RoundTrip
use khipu_v_fhe.Prelude.{
  ℕ, ◌≡◌, ◌<◌, ◌^◌, List, [], ◌∷◌, ◌++◌, map, Bytes, Bool, IsByte, All, Outcome, ok, throw, fault,
  ◌>>=◌, ◌>>◌, require, text, is_empty, replicate, ◌==◌, if◌then◌else◌,
}
use khipu_v_fhe.Hex.{to_hex, from_hex}
use khipu_v_fhe.Libraries.{Blake3, JsonLib, str, num, strs, Fields}
use khipu_v_fhe.Wire.{BufReader, write_blob, read_blob, read_string, remaining}
use khipu_v_fhe.Transcript.{IsHash, read_hashes, read_hash, concatenated}

pub record ZkTranscript : Type 0 where
  pub nonce : Bytes
  pub eval_key_hash : Bytes
  pub input_ct_hashes : List Bytes
  pub output_ct_hash : Bytes
  pub fhe_eval_us : ℕ
  pub witness_us : ℕ
  pub proof_us : ℕ
  pub transcript_us : ℕ
  pub quote_us : ℕ
  pub input_loading_us : ℕ
  pub packaging_us : ℕ
  pub peak_mem_kb : ℕ

-- What the C++ types say of one.
pub record IsTyped (t : ZkTranscript) : Type 0 where
  pub nonce : All IsByte t.nonce
  pub eval_key : IsHash t.eval_key_hash
  pub inputs : All IsHash t.input_ct_hashes
  pub output : IsHash t.output_ct_hash
  pub eval_time : t.fhe_eval_us < 2 ^ 64
  pub witness_time : t.witness_us < 2 ^ 64
  pub proof_time : t.proof_us < 2 ^ 64
  pub transcript_time : t.transcript_us < 2 ^ 64
  pub quote_time : t.quote_us < 2 ^ 64
  pub loading_time : t.input_loading_us < 2 ^ 64
  pub packaging_time : t.packaging_us < 2 ^ 64
  pub memory : t.peak_mem_kb < 2 ^ 64

-- The counters, in the order of `to_json`.
abbrev pub counters : ZkTranscript → Fields
counters t =
    (text "fhe_eval_us", num t.fhe_eval_us)
    ∷ (text "witness_us", num t.witness_us)
    ∷ (text "proof_us", num t.proof_us)
    ∷ (text "transcript_us", num t.transcript_us)
    ∷ (text "quote_us", num t.quote_us)
    ∷ (text "input_loading_us", num t.input_loading_us)
    ∷ (text "packaging_us", num t.packaging_us)
    ∷ (text "peak_mem_kb", num t.peak_mem_kb)
    ∷ []

unfoldable pub zk_fields : ZkTranscript → Fields
zk_fields t =
    (text "nonce", str (to_hex t.nonce))
    ∷ (text "eval_key_hash", str (to_hex t.eval_key_hash))
    ∷ (text "input_ct_hashes", strs (map to_hex t.input_ct_hashes))
    ∷ (text "output_ct_hash", str (to_hex t.output_ct_hash))
    ∷ counters t

module _ (J : JsonLib) where
  open J use {object, dump, parse, at, get_string, elements, value}

  unfoldable pub zk_to_json : ZkTranscript → Outcome (List ℕ)
  zk_to_json t = dump (object (zk_fields t))

  unfoldable pub zk_from_json : List ℕ → Outcome ZkTranscript
  zk_from_json json_str = do
    j ← parse json_str
    v ← at j (text "nonce")
    s ← get_string v
    nonce ← from_hex s
    eval_key_hash ← read_hash J j (text "eval_key_hash")
    hashes ← at j (text "input_ct_hashes")
    input_ct_hashes ← read_hashes J (elements hashes)
    output_ct_hash ← read_hash J j (text "output_ct_hash")
    fhe_eval_us ← value j (text "fhe_eval_us") 0
    witness_us ← value j (text "witness_us") 0
    proof_us ← value j (text "proof_us") 0
    transcript_us ← value j (text "transcript_us") 0
    quote_us ← value j (text "quote_us") 0
    input_loading_us ← value j (text "input_loading_us") 0
    packaging_us ← value j (text "packaging_us") 0
    peak_mem_kb ← value j (text "peak_mem_kb") 0
    ok (record {
      nonce = nonce;
      eval_key_hash = eval_key_hash;
      input_ct_hashes = input_ct_hashes;
      output_ct_hash = output_ct_hash;
      fhe_eval_us = fhe_eval_us;
      witness_us = witness_us;
      proof_us = proof_us;
      transcript_us = transcript_us;
      quote_us = quote_us;
      input_loading_us = input_loading_us;
      packaging_us = packaging_us;
      peak_mem_kb = peak_mem_kb;
    })

module _ (B : Blake3) where
  open B use {hash}

  -- Without key blobs the digest stays `Hash32 ekh{}`.
  abbrev pub key_digest : List Bytes → Bytes
  key_digest [] = replicate 32 0
  key_digest (kb ∷ kbs) = hash (concatenated (kb ∷ kbs))

  unfoldable pub build_transcript : Bytes → List Bytes → List Bytes → Bytes → ZkTranscript
  build_transcript nonce eval_key_blobs input_ct_blobs output_ct_bytes = record {
    nonce = nonce;
    eval_key_hash = key_digest eval_key_blobs;
    input_ct_hashes = map hash input_ct_blobs;
    output_ct_hash = hash output_ct_bytes;
    fhe_eval_us = 0;
    witness_us = 0;
    proof_us = 0;
    transcript_us = 0;
    quote_us = 0;
    input_loading_us = 0;
    packaging_us = 0;
    peak_mem_kb = 0;
  }

pub record ZkResponse : Type 0 where
  pub output_ct : Bytes
  pub transcript_json : List ℕ
  pub proof : Bytes
  pub public_inputs : Bytes
  pub vk : Bytes

unfoldable pub build_zk_response : ZkResponse → Bytes
build_zk_response p =
    let w1 = write_blob [] p.output_ct in
    let w2 = write_blob w1 p.transcript_json in
    let w3 = write_blob w2 p.proof in let w4 = write_blob w3 p.public_inputs in write_blob w4 p.vk

-- An error has five parts too.
abbrev pub zk_error : List ℕ → ZkResponse
zk_error msg = record {
  output_ct = [];
  transcript_json = text "{\"error\":\"" ++ (msg ++ text "\"}");
  proof = [];
  public_inputs = [];
  vk = [];
}

unfoldable pub build_zk_error_response : List ℕ → Bytes
build_zk_error_response msg = build_zk_response (zk_error msg)

-- The client's reading of it; `trailing` stands for `return 1`.
unfoldable pub parse_zk_response : List ℕ → List ℕ → Bytes → Outcome ZkResponse
parse_zk_response what trailing buf = do
  (output_ct, r1) ← read_blob what (record { buf = buf; pos = 0 })
  (transcript_json, r2) ← read_string what r1
  (proof, r3) ← read_blob what r2
  (public_inputs, r4) ← read_blob what r3
  (vk, r5) ← read_blob what r4
  require (remaining r5 == 0) trailing
  ok (record {
    output_ct = output_ct;
    transcript_json = transcript_json;
    proof = proof;
    public_inputs = public_inputs;
    vk = vk;
  })
