-- ===== src/Transcript.antt =====
-- The evidence of one evaluation: transcript.h and transcript.cpp of Prototypes A, C and D, and the
-- functions of attestation.cpp that make it and hash it.
pub mod RoundTrip
pub mod Binding
use khipu_v_fhe.Prelude.{
  ℕ, ◌≡◌, ◌<◌, ◌^◌, List, [], ◌∷◌, ◌++◌, map, Bytes, IsByte, All, Outcome, ok, throw, fault, ◌>>=◌,
  text, length,
}
use khipu_v_fhe.Hex.{to_hex, from_hex, hash_from_hex}
use khipu_v_fhe.Libraries.{Blake3, JsonLib, Field, str, num, strs, Fields}

pub record Transcript : Type 0 where
  pub nonce : Bytes
  pub eval_key_hash : Bytes
  pub input_ct_hashes : List Bytes
  pub output_ct_hash : Bytes
  pub fhe_eval_us : ℕ
  pub transcript_us : ℕ
  pub quote_us : ℕ

-- A `Hash32` is an array of 32 bytes.
pub record IsHash (h : Bytes) : Type 0 where
  pub bytes : All IsByte h
  pub size : length h ≡ 32

-- What the C++ types say of a transcript.
pub record IsTyped (t : Transcript) : Type 0 where
  pub nonce : All IsByte t.nonce
  pub eval_key : IsHash t.eval_key_hash
  pub inputs : All IsHash t.input_ct_hashes
  pub output : IsHash t.output_ct_hash
  pub eval_time : t.fhe_eval_us < 2 ^ 64
  pub transcript_time : t.transcript_us < 2 ^ 64
  pub quote_time : t.quote_us < 2 ^ 64

-- The assignments of `to_json`, in order.
unfoldable pub to_fields : Transcript → Fields
to_fields t =
    (text "nonce", str (to_hex t.nonce))
    ∷ (text "eval_key_hash", str (to_hex t.eval_key_hash))
    ∷ (text "input_ct_hashes", strs (map to_hex t.input_ct_hashes))
    ∷ (text "output_ct_hash", str (to_hex t.output_ct_hash))
    ∷ (text "fhe_eval_us", num t.fhe_eval_us)
    ∷ (text "transcript_us", num t.transcript_us)
    ∷ (text "quote_us", num t.quote_us)
    ∷ []

-- The timings are left out of what is hashed.
unfoldable pub without_timings : Transcript → Transcript
without_timings t = record t { fhe_eval_us = 0; transcript_us = 0; quote_us = 0 }

module _ (J : JsonLib) where
  open J use {Json, object, dump, parse, at, get_string, elements, value}

  unfoldable pub to_json : Transcript → Outcome (List ℕ)
  to_json t = dump (object (to_fields t))

  -- `for (const auto& h : …) hashes.push_back(hash_from_hex(h.get<std::string>()))`
  unfoldable pub read_hashes : List Json → Outcome (List Bytes)
  read_hashes [] = ok []
  read_hashes (j ∷ js) = do s ← get_string j; h ← hash_from_hex s; hs ← read_hashes js; ok (h ∷ hs)

  unfoldable pub read_hash : Json → List ℕ → Outcome Bytes
  read_hash j key = do v ← at j key; s ← get_string v; hash_from_hex s

  -- The members of the object that was parsed.
  unfoldable pub read_transcript : Json → Outcome Transcript
  read_transcript j = do
    v ← at j (text "nonce")
    s ← get_string v
    nonce ← from_hex s
    eval_key_hash ← read_hash j (text "eval_key_hash")
    hashes ← at j (text "input_ct_hashes")
    input_ct_hashes ← read_hashes (elements hashes)
    output_ct_hash ← read_hash j (text "output_ct_hash")
    fhe_eval_us ← value j (text "fhe_eval_us") 0
    transcript_us ← value j (text "transcript_us") 0
    quote_us ← value j (text "quote_us") 0
    ok (record {
      nonce = nonce;
      eval_key_hash = eval_key_hash;
      input_ct_hashes = input_ct_hashes;
      output_ct_hash = output_ct_hash;
      fhe_eval_us = fhe_eval_us;
      transcript_us = transcript_us;
      quote_us = quote_us;
    })

  unfoldable pub from_json : List ℕ → Outcome Transcript
  from_json json_str = do j ← parse json_str; read_transcript j

-- `buf.insert(buf.end(), p.begin(), p.end())` for every part.
abbrev pub concatenated : List Bytes → Bytes
concatenated [] = []
concatenated (p ∷ ps) = p ++ concatenated ps

module _ (B : Blake3) where
  open B use {hash}

  unfoldable pub hash_concatenated : List Bytes → Bytes
  hash_concatenated parts = hash (concatenated parts)

  -- The overload over a digest of the keys, and that over the keys.
  unfoldable pub transcript_of_hash : Bytes → Bytes → List Bytes → Bytes → Transcript
  transcript_of_hash nonce eval_key_hash input_cts output_ct = record {
    nonce = nonce;
    eval_key_hash = eval_key_hash;
    input_ct_hashes = map hash input_cts;
    output_ct_hash = hash output_ct;
    fhe_eval_us = 0;
    transcript_us = 0;
    quote_us = 0;
  }

  unfoldable pub generate_transcript : Bytes → List Bytes → List Bytes → Bytes → Transcript
  unfolding hash_concatenated transcript_of_hash
  generate_transcript nonce eval_keys input_cts output_ct =
      transcript_of_hash nonce (hash_concatenated eval_keys) input_cts output_ct

  unfoldable pub compute_transcript_hash : JsonLib → Transcript → Outcome Bytes
  unfolding to_json without_timings
  compute_transcript_hash J t = do json_str ← to_json J (without_timings t); ok (hash json_str)
