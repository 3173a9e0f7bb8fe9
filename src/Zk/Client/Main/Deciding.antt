-- ===== src/Zk/Client/Main/Deciding.antt =====
-- What the client of Prototype B has checked before it decrypts.
use khipu_v_fhe.Prelude.{
  ℕ, ◌≡◌, refl, sym, ap, ◌∙◌, List, Bytes, Outcome, ok, throw, fault, catch, >>=-eq-ok, Option,
  none, some, ℤ, pos, negsuc, ◌+◌, ◌^◌, ◌<◌, suc, arith,
}
use khipu_v_fhe.Protocol.{build_request}
use khipu_v_fhe.Server.{find_workload}
use khipu_v_fhe.Zk.{Snark}
use khipu_v_fhe.Zk.Client.{check_zk_response}
use khipu_v_fhe.Zk.Client.Options.{
  ZkOptions, zk_defaults, ZkParsed, zk_run_with, zk_exit_with, zk_parse_args, overridden,
  zk_workload_defaults,
}
use khipu_v_fhe.Zk.Client.Main.Overriding.{Adjusts, overridden-Adjusts}
use khipu_v_fhe.Zk.Client.Main.Sending.{ZkSends, zk_prepare-ZkSends}
use khipu_v_fhe.Zk.Client.Main.{
  to_size, ZkClientFhe, ZkExit, failed, ZkClientWorkload, ZkOutside, ZkPrepared, zk_prepare,
  zk_decrypt_output, zk_run_workload, zk_run_found, zk_run_client, zk_started, zk_client_main,
}

-- No run decrypts that ends like this.
ends :
    {C : Type 0} (code : ℕ) (e : ZkExit) {dec : List ℤ}
    → ok (record { code = code; decrypted = none }) ≡ ok e
    → e.decrypted ≡ some dec
    → C
ends code e h h' =
    let same : record { code = code; decrypted = none } ≡ e = cc h in
    absurd (cc (ap (λ (e : ZkExit). e.decrypted) same ∙ h'))

caught :
    (m : Outcome ZkExit) (e : ZkExit) {dec : List ℤ}
    → catch m (λ msg. ok failed) ≡ ok e
    → e.decrypted ≡ some dec
    → m ≡ ok e
caught (ok a) e h h' = h
caught (throw msg) e h h' = ends 1 e h h'
caught fault e h h' = absurd (cc h)

-- A number of slots as a size, which wraps around at 2 ^ 64 if it is negative.
abbrev pub IsSize : ℤ → ℕ → Type 0
IsSize (pos n) m = m ≡ n
IsSize (negsuc n) m = n < 2 ^ 64 → m + suc n ≡ 2 ^ 64

to_size-IsSize : (z : ℤ) → IsSize z (to_size z)
to_size-IsSize (pos n) = refl
to_size-IsSize (negsuc n) = λ small. omega (arith, small)

module _ (F : ZkClientFhe) where
  -- The output that was accepted, behind a run that decrypts.
  pub record ZkOpened (p : ZkPrepared F) (slots : ℤ) (output : Option Bytes) (dec : List ℤ)
      : Type 0 where
    pub out : Bytes
    pub accepted : output ≡ some out
    pub out_ct : F.Ciphertext
    pub deserialized : F.deserialize_ciphertext out ≡ ok out_ct
    pub size : ℕ
    pub sized : IsSize slots size
    pub opened : F.decrypt p.cc p.kp out_ct size ≡ ok dec

  zk_decrypt_output→ :
      (p : ZkPrepared F) (slots : ℤ) (output : Option Bytes) (e : ZkExit) (dec : List ℤ)
      → zk_decrypt_output F p slots output ≡ ok e
      → e.decrypted ≡ some dec
      → ZkOpened p slots output dec × (e.code ≡ 0)
  unfolding zk_decrypt_output
  zk_decrypt_output→ p slots none e dec h h' = ends 1 e h h'
  zk_decrypt_output→ p slots (some out) e dec h h' =
      let (ct, read, h1) = >>=-eq-ok (F.deserialize_ciphertext out) _ h in
      let (dec', opened, h2) = >>=-eq-ok (F.decrypt p.cc p.kp ct (to_size slots)) _ h1 in
      let done : record { code = 0; decrypted = some dec' } ≡ e = cc h2 in
      let same : dec' ≡ dec = cc (ap (λ (e : ZkExit). e.decrypted) done ∙ h') in
      (
        record {
          out = out;
          accepted = refl;
          out_ct = ct;
          deserialized = read;
          size = to_size slots;
          sized = to_size-IsSize slots;
          opened = opened ∙ ap ok same;
        },
        ap (λ (e : ZkExit). e.code) (sym done),
      )

  module _ (S : Snark) (registry : List (List ℕ × ZkClientWorkload F)) (world : ZkOutside F) where
    -- The steps of a run that decrypts: the options that are read, those behind the defaults of the
    -- workload, what was sent, what came back, and the output that the client accepted.
    pub record ZkDecrypts (args : List (List ℕ)) (dec : List ℤ) : Type 0 where
      pub given : ZkOptions
      pub read : zk_parse_args zk_defaults args ≡ ok (zk_run_with given)
      pub o : ZkOptions
      pub adjusted : Adjusts zk_workload_defaults given o
      pub workload : ZkClientWorkload F
      pub found : find_workload o.workload_id registry ≡ some workload
      pub p : ZkPrepared F
      pub prepared : zk_prepare F world o workload ≡ ok p
      pub sends : ZkSends F world o workload p
      pub resp : Bytes
      pub received : world.exchange o.host o.port (build_request p.request) ≡ ok resp
      pub output : Option Bytes
      pub checked : check_zk_response S resp ≡ ok output
      pub result : ZkOpened p o.slots output dec

    zk_run_workload→ :
        (args : List (List ℕ)) (given o : ZkOptions) (workload : ZkClientWorkload F) (e : ZkExit)
        (dec : List ℤ)
        → zk_parse_args zk_defaults args ≡ ok (zk_run_with given)
        → Adjusts zk_workload_defaults given o
        → find_workload o.workload_id registry ≡ some workload
        → zk_run_workload F S world o workload ≡ ok e
        → e.decrypted ≡ some dec
        → ZkDecrypts args dec × (e.code ≡ 0)
    unfolding zk_run_workload
    zk_run_workload→ args given o workload e dec read adjusted found h h' =
        let (p, prepared, h1) = >>=-eq-ok (zk_prepare F world o workload) _ h in
        let (resp, received, h2) =
          >>=-eq-ok (world.exchange o.host o.port (build_request p.request)) _ h1 in
        let (output, checked, h3) = >>=-eq-ok (check_zk_response S resp) _ h2 in
        let (result, code) = zk_decrypt_output→ p o.slots output e dec h3 h' in
        (
          record {
            given = given;
            read = read;
            o = o;
            adjusted = adjusted;
            workload = workload;
            found = found;
            p = p;
            prepared = prepared;
            sends = zk_prepare-ZkSends F world o workload p prepared;
            resp = resp;
            received = received;
            output = output;
            checked = checked;
            result = result;
          },
          code,
        )

    zk_run_found→ :
        (args : List (List ℕ)) (given o : ZkOptions) (w : Option (ZkClientWorkload F)) (e : ZkExit)
        (dec : List ℤ)
        → zk_parse_args zk_defaults args ≡ ok (zk_run_with given)
        → Adjusts zk_workload_defaults given o
        → find_workload o.workload_id registry ≡ w
        → zk_run_found F S world o w ≡ ok e
        → e.decrypted ≡ some dec
        → ZkDecrypts args dec × (e.code ≡ 0)
    zk_run_found→ args given o none e dec read adjusted found h h' = ends 1 e h h'
    zk_run_found→ args given o (some w) e dec read adjusted found h h' =
        zk_run_workload→ args given o w e dec read adjusted found h h'

    zk_started→ :
        (args : List (List ℕ)) (parsed : ZkParsed) (e : ZkExit) (dec : List ℤ)
        → zk_parse_args zk_defaults args ≡ ok parsed
        → zk_started F S registry world parsed ≡ ok e
        → e.decrypted ≡ some dec
        → ZkDecrypts args dec × (e.code ≡ 0)
    unfolding zk_run_client
    zk_started→ args (zk_exit_with code) e dec read h h' = ends code e h h'
    zk_started→ args (zk_run_with given) e dec read h h' =
        let o : ZkOptions = overridden zk_workload_defaults given in
        zk_run_found→ args given o (find_workload o.workload_id registry) e dec read
          (overridden-Adjusts zk_workload_defaults given) refl (caught _ e h h') h'

    -- A run of the client of Prototype B that decrypts anything has read options, which the first entry of
    -- its workload in the table of defaults has adjusted. It has sent a request with the three blobs of
    -- the keys of this run and as many inputs as the options say, each encrypted from as many numbers as
    -- there are slots and from its own seed, 123 after the last one. It has accepted an output in the
    -- answer to exactly that request, decrypts that output with the key pair of this run and in the same
    -- number of slots, and exits with 0.
    pub zk_client_main-ZkDecrypts :
        (args : List (List ℕ)) (e : ZkExit) (dec : List ℤ)
        → zk_client_main F S registry world args ≡ ok e
        → e.decrypted ≡ some dec
        → ZkDecrypts args dec × (e.code ≡ 0)
    unfolding zk_client_main
    zk_client_main-ZkDecrypts args e dec h h' =
        let (parsed, read, h1) = >>=-eq-ok (zk_parse_args zk_defaults args) _ h in
        zk_started→ args parsed e dec read h1 h'
