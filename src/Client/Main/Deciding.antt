-- ===== src/Client/Main/Deciding.antt =====
-- What the client has checked before it decrypts.
use khipu_v_fhe.Prelude.{ℕ, ◌≡◌, List, Bytes, ok, Option, some}
use khipu_v_fhe.Libraries.{Blake3, JsonLib}
use khipu_v_fhe.Protocol.{build_request}
use khipu_v_fhe.Verifier.{JsonNav, Dcap}
use khipu_v_fhe.Server.{find_workload}
use khipu_v_fhe.Workloads.{Scalars, Ckks}
use khipu_v_fhe.Client.{check_response}
use khipu_v_fhe.Client.Arguments.{Options, defaults, run_with, parse_args}
use khipu_v_fhe.Client.Main.{ClientFhe, ClientWorkload, Outside, Prepared, prepare}

module _ {A : Scalars} {C : Ckks A} (F : ClientFhe C) (J : JsonLib) (N : JsonNav J) (D : Dcap)
    (B : Blake3) (registry : List (List ℕ × ClientWorkload F)) (world : Outside F) where
  -- The steps of a run that decrypts: the options, the workload, what was sent, what came back, and the
  -- output that the client accepted.
  pub record Decrypts (args : List (List ℕ)) (dec : List A.Scalar) : Type 0 where
    pub o : Options
    pub read : parse_args defaults args ≡ ok (run_with o)
    pub workload : ClientWorkload F
    pub found : find_workload o.workload_id registry ≡ some workload
    pub p : Prepared F
    pub prepared : prepare F world o.workload_id workload ≡ ok p
    pub resp : Bytes
    pub received : world.exchange o.host o.port (build_request p.request) ≡ ok resp
    pub out : Bytes
    pub accepted : check_response J N D B p.request o.expected_mr_td resp ≡ ok (some out)
    pub output_ct : C.Ciphertext
    pub deserialized : F.deserialize_ciphertext out ≡ ok output_ct
    pub decrypted : F.decrypt p.cc p.kp output_ct ≡ ok dec

  -- The output that was accepted, behind a run that decrypts.
  record Opened (p : Prepared F) (output : Option Bytes) (dec : List A.Scalar) : Type 0 where
    out : Bytes
    accepted : output ≡ some out
    output_ct : C.Ciphertext
    deserialized : F.deserialize_ciphertext out ≡ ok output_ct
    decrypted : F.decrypt p.cc p.kp output_ct ≡ ok dec
