-- ===== src/Zk/Client/Main.antt =====
-- The whole client of Prototype B: main of zk-vfhe/src/client/client_main.cpp. OpenFHE, the
-- pseudo-random numbers of the standard library and the connection are parameters. An `int` is a ℤ whose
-- range the code checks, and an `int` that overflows is undefined.
pub mod Deciding
pub mod Overriding
pub mod Seeds
pub mod Sending
use khipu_v_fhe.Prelude.{
  ℕ, zero, suc, ◌+◌, ◌-◌, ◌*◌, List, [], ◌∷◌, Bytes, Bool, true, false, Outcome, ok, throw, fault,
  ◌>>=◌, catch, text, ltb, leb, if◌then◌else◌, Option, none, some, ℤ, pos, negsuc,
}
use khipu_v_fhe.Protocol.{Request, build_request}
use khipu_v_fhe.Server.{find_workload}
use khipu_v_fhe.Client.Main.{random_nonce}
use khipu_v_fhe.Zk.{Snark}
use khipu_v_fhe.Zk.Client.{check_zk_response}
use khipu_v_fhe.Zk.Client.Options.{
  ZkOptions, zk_defaults, ZkParsed, zk_run_with, zk_exit_with, zk_parse_args, zk_workload_defaults,
  overridden,
}

abbrev pub int_max : ℕ
int_max = 2_147_483_647

-- The sum of an `int` and one that is not negative.
abbrev pub add_int : ℤ → ℕ → Outcome ℤ
add_int (pos a) n = if ltb int_max (a + n) then fault else ok (pos (a + n))
add_int (negsuc a) n = ok (if leb n a then negsuc (a - n) else pos (n - suc a))

-- `int seed = seed_a + i * seed_b;` with `int seed_b = 123;`
unfoldable pub zk_seed : ℤ → ℕ → Outcome ℤ
zk_seed seed_a i = if ltb int_max (i * 123) then fault else add_int seed_a (i * 123)

-- The rounds of `for (int i = 0; i < n; ++i)`.
abbrev pub rounds : ℤ → ℕ
rounds (pos n) = n
rounds (negsuc n) = 0

-- `(size_t)slots`
abbrev pub to_size : ℤ → ℕ
to_size (pos n) = n
to_size (negsuc n) = 18_446_744_073_709_551_615 - n

-- What the client calls of OpenFHE, and `draws`: so many numbers up to 65536 from a generator with a
-- seed. `Keys` are the maps of evaluation keys that all contexts share.
pub record ZkClientFhe : Type 1 where
  pub Context : Type 0
  pub KeyPair : Type 0
  pub Keys : Type 0
  pub Ciphertext : Type 0
  pub no_keys : Keys
  pub key_gen : Context → Outcome KeyPair
  pub eval_mult_key_gen : Context → KeyPair → Keys → Outcome Keys
  pub serialize_eval_mult_key : Keys → Context → Outcome (Bool × Bytes)
  pub serialize_eval_sum_key : Keys → Context → Outcome (Bool × Bytes)
  pub serialize_eval_automorphism_key : Keys → Context → Outcome (Bool × Bytes)
  pub draws : ℕ → ℤ → List ℤ
  pub encrypt : Context → KeyPair → List ℤ → Outcome Ciphertext
  pub serialize_ciphertext : Ciphertext → Outcome Bytes
  pub deserialize_ciphertext : Bytes → Outcome Ciphertext
  pub decrypt : Context → KeyPair → Ciphertext → ℕ → Outcome (List ℤ)

-- The exit code, and the values that were decrypted, if it came to that.
pub record ZkExit : Type 0 where
  pub code : ℕ
  pub decrypted : Option (List ℤ)

abbrev pub failed : ZkExit
failed = record { code = 1; decrypted = none }

-- A blob that could not be written stays empty.
abbrev pub written : Bool × Bytes → Bytes
written (success, s) = if success then s else []

module _ (F : ZkClientFhe) where
  open F use {
    Context, KeyPair, Keys, Ciphertext, no_keys, key_gen, eval_mult_key_gen,
    serialize_eval_mult_key, serialize_eval_sum_key, serialize_eval_automorphism_key, draws,
    encrypt, serialize_ciphertext, deserialize_ciphertext, decrypt,
  }

  -- An entry of the client's registry; `gen_keys` may be empty.
  pub record ZkClientWorkload : Type 0 where
    pub make_context : Outcome Context
    pub gen_keys : Option (Context → KeyPair → Keys → Outcome Keys)

  -- A vector of a negative size cannot be made.
  unfoldable pub zk_gen_input_vec : ℤ → ℤ → Outcome (List ℤ)
  zk_gen_input_vec (pos slots) seed = ok (draws slots seed)
  zk_gen_input_vec (negsuc slots) seed = throw (text "cannot create std::vector")

  -- Always three blobs, which the server tells apart by their index.
  unfoldable pub zk_serialize_all_eval_keys : Keys → Context → Outcome (List Bytes)
  zk_serialize_all_eval_keys keys cc = do
    mult ← serialize_eval_mult_key keys cc
    sums ← serialize_eval_sum_key keys cc
    auto ← serialize_eval_automorphism_key keys cc
    ok (written mult ∷ written sums ∷ written auto ∷ [])

  -- The inputs from `i` on.
  unfoldable pub zk_inputs : Context → KeyPair → ZkOptions → ℕ → ℕ → Outcome (List Bytes)
  zk_inputs cc kp o zero i = ok []
  zk_inputs cc kp o (suc n) i = do
    seed ← zk_seed o.seed_a i
    v ← zk_gen_input_vec o.slots seed
    ct ← encrypt cc kp v
    s ← serialize_ciphertext ct
    blobs ← zk_inputs cc kp o n (suc i)
    ok (s ∷ blobs)

  -- The maps of keys are cleared first.
  abbrev pub zk_generated :
      Option (Context → KeyPair → Keys → Outcome Keys) → Context → KeyPair → Outcome Keys
  zk_generated none cc kp = ok no_keys
  zk_generated (some gen_keys) cc kp = gen_keys cc kp no_keys

  -- What is outside of the program: the random bytes, and what comes back from a host and a port for a
  -- message.
  pub record ZkOutside : Type 0 where
    pub urandom : Option Bytes
    pub exchange : List ℕ → ℕ → Bytes → Outcome Bytes

  -- The secrets of a run and what it sends.
  pub record ZkPrepared : Type 0 where
    pub cc : Context
    pub kp : KeyPair
    pub request : Request

  unfoldable pub zk_prepare : ZkOutside → ZkOptions → ZkClientWorkload → Outcome ZkPrepared
  zk_prepare world o workload = do
    cc ← workload.make_context
    kp ← key_gen cc
    keys ← zk_generated workload.gen_keys cc kp
    keys' ← eval_mult_key_gen cc kp keys
    eval_keys ← zk_serialize_all_eval_keys keys' cc
    input_cts ← zk_inputs cc kp o (rounds o.num_inputs) 0
    ok (record {
      cc = cc;
      kp = kp;
      request = record {
        nonce = random_nonce world.urandom 16;
        eval_keys = eval_keys;
        input_cts = input_cts;
        workload_id = o.workload_id;
      };
    })

  -- From the output that is accepted on.
  unfoldable pub zk_decrypt_output : ZkPrepared → ℤ → Option Bytes → Outcome ZkExit
  zk_decrypt_output p slots none = ok failed
  zk_decrypt_output p slots (some out_bytes) = do
    out_ct ← deserialize_ciphertext out_bytes
    dec ← decrypt p.cc p.kp out_ct (to_size slots)
    ok (record { code = 0; decrypted = some dec })

  module _ (S : Snark) where
    -- The `try` block for a workload of the registry. What it prints of the times has no effect.
    unfoldable pub zk_run_workload : ZkOutside → ZkOptions → ZkClientWorkload → Outcome ZkExit
    zk_run_workload world o workload = do
      p ← zk_prepare world o workload
      resp ← world.exchange o.host o.port (build_request p.request)
      output ← check_zk_response S resp
      zk_decrypt_output p o.slots output

    abbrev pub zk_run_found : ZkOutside → ZkOptions → Option ZkClientWorkload → Outcome ZkExit
    zk_run_found world o none = ok failed
    zk_run_found world o (some workload) = zk_run_workload world o workload

    -- With the options behind the defaults of the workload.
    unfoldable pub zk_run_client :
        List (List ℕ × ZkClientWorkload) → ZkOutside → ZkOptions → Outcome ZkExit
    zk_run_client registry world o =
        catch (zk_run_found world o (find_workload o.workload_id registry)) (λ e. ok failed)

    abbrev pub zk_started : List (List ℕ × ZkClientWorkload) → ZkOutside → ZkParsed → Outcome ZkExit
    zk_started registry world (zk_exit_with code) = ok (record { code = code; decrypted = none })
    zk_started registry world (zk_run_with o) =
        zk_run_client registry world (overridden zk_workload_defaults o)

    unfoldable pub zk_client_main :
        List (List ℕ × ZkClientWorkload) → ZkOutside → List (List ℕ) → Outcome ZkExit
    zk_client_main registry world args =
        zk_parse_args zk_defaults args >>= zk_started registry world
