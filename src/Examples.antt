-- ===== src/Examples.antt =====
-- The inputs of the examples: concrete messages, connections, and libraries outside of the program.
pub mod Wires
pub mod Threads
pub mod Streams
pub mod Evidences
pub mod Exchanges
pub mod Proofs
pub mod Adapters
pub mod Circuits
pub mod ZkServing
pub mod ZkClients
pub mod ZkCircuits
pub mod Clients
pub mod ClientRuns
pub mod BgvRunning
pub mod BgvClients
pub mod GpuServing
pub mod GpuClients
pub mod Regressions
use khipu_v_fhe.Prelude.{
  ℕ, zero, suc, ◌+◌, ◌≡◌, ◌<◌, refl, List, [], ◌∷◌, ◌++◌, reverse, Bytes, IsByte, All, Bool, true,
  false, ◌&&◌, Outcome, ok, throw, text, length, replicate, ltb, ltb→lt, Bool-cases, Option, none,
  some, inl, inr,
}
use khipu_v_fhe.Hex.{to_hex}
use khipu_v_fhe.Libraries.{JsonLib, Fields, str, num, strs}
use khipu_v_fhe.Libraries.Instances.{
  flat_json, Value, object, leaf, number, get_text, write_fields, short_blake3,
}
use khipu_v_fhe.Transcript.{Transcript}
use khipu_v_fhe.Protocol.{Request}
use khipu_v_fhe.Transport.{Call, moved, eintr}
use khipu_v_fhe.Verifier.{JsonNav, Dcap}
use khipu_v_fhe.Attestation.{Tdx}
use khipu_v_fhe.Server.{Fhe, Workload, Times}

abbrev pub are_bytes : Bytes → Bool
are_bytes [] = true
are_bytes (b ∷ bs) = ltb b 256 && are_bytes bs

and_true : (a b : Bool) → (a && b) ≡ true → (a ≡ true) × (b ≡ true)
and_true true true h = (refl, refl)
and_true true false h = cc
and_true false b h = cc

-- To check a concrete buffer by computing.
pub are_bytes→ : (bs : Bytes) → are_bytes bs ≡ true → All IsByte bs
are_bytes→ [] h = tt
are_bytes→ (b ∷ bs) h =
    let (first, rest) = and_true (ltb b 256) (are_bytes bs) h in
    (ltb→lt b 256 first, are_bytes→ bs rest)

abbrev pub sample_request : Request
sample_request = record {
  nonce = 7 ∷ 200 ∷ 0 ∷ [];
  eval_keys = (1 ∷ 2 ∷ []) ∷ (3 ∷ []) ∷ [];
  input_cts = (4 ∷ 5 ∷ 6 ∷ []) ∷ [];
  workload_id = text "noop";
}

abbrev pub moves_of : ℕ → List Call
moves_of zero = []
moves_of (suc n) = moved 2 ∷ moves_of n

-- Sixteen calls that move up to three bytes each, and one that a signal interrupts.
abbrev pub calm_calls : List Call
calm_calls = moved 2 ∷ eintr ∷ moves_of 15

abbrev pub text_or : Outcome Value → List ℕ → Outcome (List ℕ)
text_or (ok j) d = get_text j
text_or _ d = ok d

abbrev pub transparent : Value → List ℕ → Outcome Value
transparent j k = ok j

-- An object stands for what lies on the way to it; a text is looked up.
abbrev pub flat_nav : JsonNav flat_json
flat_nav = record {
  index = λ j i. ok j;
  field = transparent;
  contains = λ j k. true;
  value_string = λ j k d. text_or (flat_json.at j k) d;
}

abbrev pub flat_text : Fields → List ℕ
flat_text fs = length fs ∷ write_fields fs

-- A DCAP library that takes every quote for genuine, with this report data.
abbrev pub trusting_dcap : Bytes → Dcap
trusting_dcap rd =
    let result = flat_text ((text "tdx_reportdata", str (to_hex (reverse rd))) ∷ []) in
    record {
      verify_quote = λ quote size. (0, quote);
      policy_file = some [];
      appraise = λ token policy. (0, b'.' ∷ (token ++ (b'.' ∷ [])));
      decode_block = λ s. some (flat_text ((text "appraisal_result", str result) ∷ []));
    }

abbrev pub sample_quote : Bytes
sample_quote = text "quot"

abbrev pub sample_tdx : Tdx
sample_tdx = record { get_quote = λ rd. inl sample_quote }

-- Keys are kept as they come, ciphertexts are bytes.
abbrev pub plain_fhe : Fhe
plain_fhe = record {
  Context = Unit {0};
  Keys = List Bytes;
  Ciphertext = Bytes;
  deserialize_eval_mult_key = λ kb keys. ok (kb ∷ keys);
  deserialize_eval_sum_key = λ kb keys. throw (text "sum");
  deserialize_eval_automorphism_key = λ kb keys. throw (text "automorphism");
  deserialize_ciphertext = λ b. ok b;
  serialize_ciphertext = λ c. ok c;
}

abbrev pub first_input : List Bytes → Outcome Bytes
first_input [] = throw (text "no input")
first_input (c ∷ cs) = ok c

abbrev pub noop : Workload plain_fhe
noop = record { make_context = ok tt; eval = λ cc keys inputs. first_input inputs }

abbrev pub sample_registry : List (List ℕ × Workload plain_fhe)
sample_registry = (text "noop", noop) ∷ []

abbrev pub sample_times : Times
sample_times = record { eval_us = 1500; transcript_us = 20; quote_us = 9 }
