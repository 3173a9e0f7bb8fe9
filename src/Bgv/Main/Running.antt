-- ===== src/Bgv/Main/Running.antt =====
-- A whole run of the client of Prototype E against an honest server.
use khipu_v_fhe.Prelude.{◌≡◌, All, false, is_empty}
use khipu_v_fhe.Client.Main.{random_nonce}
use khipu_v_fhe.Bgv.Main.{BgvClientFhe, BgvOutside, BgvPrepared}

module _ (F : BgvClientFhe) where
  -- What a prepared request is known to hold.
  record Prepares (world : BgvOutside F) (p : BgvPrepared F) : Type 0 where
    nonce : p.request.nonce ≡ random_nonce world.urandom 16
    filled : All (λ kb. is_empty kb ≡ false) p.request.eval_keys
