-- ===== src/Zk/Client.antt =====
-- The client of Prototype B: zk-vfhe/src/client/client_main.cpp from the response on to the point
-- where it decrypts.
pub mod Accepting
pub mod Options
pub mod Main
use khipu_v_fhe.Prelude.{
  Bytes, Bool, true, not, ◌&&◌, Outcome, ok, ◌>>=◌, catch, text, is_empty, if◌then◌else◌, Option,
  none, some,
}
use khipu_v_fhe.Client.{contains_text}
use khipu_v_fhe.Zk.{Snark, verify_proof}
use khipu_v_fhe.Zk.Messages.{ZkResponse, parse_zk_response}
use khipu_v_fhe.Zk.Server.{zk_reader_error, zk_trailing_error}

module _ (S : Snark) where
  -- `if (!proof_bytes.empty() && !vk_bytes.empty() && !pi_bytes.empty())`: only then is there a proof
  -- to verify.
  unfoldable pub proof_ok : ZkResponse → Outcome Bool
  proof_ok p =
      if not (is_empty p.proof) && (not (is_empty p.vk) && not (is_empty p.public_inputs))
      then verify_proof S p.proof p.public_inputs p.vk
      else ok true

  -- The ciphertext to decrypt, or `none` where `main` returns 1.
  unfoldable pub check_zk_parsed : ZkResponse → Outcome (Option Bytes)
  check_zk_parsed p =
      if contains_text (text "\"error\"") p.transcript_json
      then ok none
      else (proof_ok p >>= λ accepted. ok (if accepted then some p.output_ct else none))

  unfoldable pub check_zk_response : Bytes → Outcome (Option Bytes)
  check_zk_response resp =
      if is_empty resp
      then ok none
      else catch
          (parse_zk_response zk_reader_error zk_trailing_error resp >>= λ p. check_zk_parsed p)
          (λ e. ok none)
