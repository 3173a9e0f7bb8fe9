-- ===== src/Zk/Client/Main/Sending.antt =====
-- What a prepared request of the client of Prototype B holds: the keys of the run, and the inputs of its
-- options.
use khipu_v_fhe.Prelude.{
  ℕ, zero, suc, ◌+◌, ◌*◌, ◌≡◌, refl, sym, ap, ◌∙◌, subst, arith, List, [], ◌∷◌, Bytes, Bool, true,
  false, Outcome, ok, >>=-eq-ok, ok_same, length, ltb, Bool-cases, inl, inr, Option, none, some, ℤ,
  pos, negsuc,
}
use khipu_v_fhe.Client.Main.{random_nonce}
use khipu_v_fhe.Zk.Client.Options.{ZkOptions}
use khipu_v_fhe.Zk.Client.Main.{
  int_max, add_int, zk_seed, rounds, ZkClientFhe, ZkClientWorkload, ZkOutside, ZkPrepared, written,
  zk_generated, zk_gen_input_vec, zk_serialize_all_eval_keys, zk_inputs, zk_prepare,
}

-- The sum of an integer and a number, as a relation.
abbrev pub IsSum : ℤ → ℕ → ℤ → Type 0
IsSum (pos a) n z = z ≡ pos (a + n)
IsSum (negsuc a) n (pos m) = m + suc a ≡ n
IsSum (negsuc a) n (negsuc m) = m + n ≡ a

-- A list has as many elements as the integer says, and none if it is negative.
abbrev pub HasCount : ℤ → List Bytes → Type 0
HasCount (pos n) bs = length bs ≡ n
HasCount (negsuc n) bs = bs ≡ []

-- A blob is what was written, and empty if the writing failed.
abbrev pub IsBlob : Bool × Bytes → Bytes → Type 0
IsBlob (true, s) b = b ≡ s
IsBlob (false, s) b = b ≡ []

written-IsBlob : (w : Bool × Bytes) → IsBlob w (written w)
written-IsBlob (true, s) = refl
written-IsBlob (false, s) = refl

add_int-IsSum : (a : ℤ) (n : ℕ) (z : ℤ) → add_int a n ≡ ok z → IsSum a n z
add_int-IsSum (pos a) n z h = elim (Bool-cases (ltb int_max (a + n))) [
  | inl large ↦ absurd (cc (rw large at h))
  | inr small ↦ sym (ok_same (rw small at h))
]
add_int-IsSum (negsuc a) n (pos m) h = ground (arith, ok_same h)
add_int-IsSum (negsuc a) n (negsuc m) h = ground (arith, ok_same h)

zk_seed-IsSum : (a : ℤ) (i : ℕ) (z : ℤ) → zk_seed a i ≡ ok z → IsSum a (i * 123) z
unfolding zk_seed
zk_seed-IsSum a i z h = elim (Bool-cases (ltb int_max (i * 123))) [
  | inl large ↦ absurd (cc (rw large at h))
  | inr small ↦ add_int-IsSum a (i * 123) z (rw small at h)
]

module _ (F : ZkClientFhe) where
  -- The `i`-th input: an encryption of as many numbers as there are slots, from the seed of the options
  -- and 123 times `i`.
  pub record IsInput (cc : F.Context) (kp : F.KeyPair) (o : ZkOptions) (i : ℕ) (b : Bytes)
      : Type 0 where
    pub slots : ℕ
    pub slots_given : o.slots ≡ pos slots
    pub seed : ℤ
    pub seed_sum : IsSum o.seed_a (i * 123) seed
    pub ct : F.Ciphertext
    pub encrypted : F.encrypt cc kp (F.draws slots seed) ≡ ok ct
    pub serialized : F.serialize_ciphertext ct ≡ ok b

  abbrev pub AreInputs : F.Context → F.KeyPair → ZkOptions → ℕ → List Bytes → Type 0
  AreInputs cc kp o i [] = Unit
  AreInputs cc kp o i (b ∷ bs) = IsInput cc kp o i b × AreInputs cc kp o (suc i) bs

  vector_of :
      (slots seed : ℤ) (v : List ℤ)
      → zk_gen_input_vec F slots seed ≡ ok v
      → (n : ℕ) × (slots ≡ pos n) × (v ≡ F.draws n seed)
  unfolding zk_gen_input_vec
  vector_of (pos n) seed v h = (n, refl, sym (ok_same h))
  vector_of (negsuc n) seed v h = cc

  zk_inputs-AreInputs :
      (cc : F.Context) (kp : F.KeyPair) (o : ZkOptions) (n i : ℕ) (bs : List Bytes)
      → zk_inputs F cc kp o n i ≡ ok bs
      → AreInputs cc kp o i bs × (length bs ≡ n)
  unfolding zk_inputs
  zk_inputs-AreInputs cc kp o zero i bs h =
      let none_left : [] ≡ bs = ok_same h in
      subst (λ bs. AreInputs cc kp o i bs × (length bs ≡ 0)) none_left (tt, refl)
  zk_inputs-AreInputs cc kp o (suc n) i bs h =
      let (seed, e1, h1) = >>=-eq-ok (zk_seed o.seed_a i) _ h in
      let (v, e2, h2) = >>=-eq-ok (zk_gen_input_vec F o.slots seed) _ h1 in
      let (ct, e3, h3) = >>=-eq-ok (F.encrypt cc kp v) _ h2 in
      let (b, e4, h4) = >>=-eq-ok (F.serialize_ciphertext ct) _ h3 in
      let (rest, e5, h5) = >>=-eq-ok (zk_inputs F cc kp o n (suc i)) _ h4 in
      let (slots, given, drawn) = vector_of o.slots seed v e2 in
      let (inputs, size) = zk_inputs-AreInputs cc kp o n (suc i) rest e5 in
      let first : IsInput cc kp o i b = record {
        slots = slots;
        slots_given = given;
        seed = seed;
        seed_sum = zk_seed-IsSum o.seed_a i seed e1;
        ct = ct;
        encrypted = ap (F.encrypt cc kp) (sym drawn) ∙ e3;
        serialized = e4;
      } in
      subst (λ bs. AreInputs cc kp o i bs × (length bs ≡ suc n)) (ok_same h5)
        ((first, inputs), ap suc size)

  count_of : (z : ℤ) (bs : List Bytes) → length bs ≡ rounds z → HasCount z bs
  count_of (pos n) bs h = h
  count_of (negsuc n) [] h = refl
  count_of (negsuc n) (b ∷ bs) h = absurd (omega (arith, h))

  -- The hook of the workload, if it has one, makes keys where there were none.
  abbrev pub GivesKeys :
      Option (F.Context → F.KeyPair → F.Keys → Outcome F.Keys)
      → F.Context
      → F.KeyPair
      → F.Keys
      → Type 0
  GivesKeys none cc kp keys = keys ≡ F.no_keys
  GivesKeys (some gen_keys) cc kp keys = gen_keys cc kp F.no_keys ≡ ok keys

  gives_keys :
      (hook : Option (F.Context → F.KeyPair → F.Keys → Outcome F.Keys)) (cc : F.Context)
      (kp : F.KeyPair) (keys : F.Keys)
      → zk_generated F hook cc kp ≡ ok keys
      → GivesKeys hook cc kp keys
  gives_keys none cc kp keys h = sym (ok_same h)
  gives_keys (some gen_keys) cc kp keys h = h

  -- The three blobs of the keys, as they are written.
  pub record AreKeys (keys : F.Keys) (cc : F.Context) (blobs : List Bytes) : Type 0 where
    pub mult : Bytes
    pub sums : Bytes
    pub auto : Bytes
    pub all : blobs ≡ mult ∷ sums ∷ auto ∷ []
    pub mult_written :
        (w : Bool × Bytes) × (F.serialize_eval_mult_key keys cc ≡ ok w) × IsBlob w mult
    pub sums_written :
        (w : Bool × Bytes) × (F.serialize_eval_sum_key keys cc ≡ ok w) × IsBlob w sums
    pub auto_written :
        (w : Bool × Bytes) × (F.serialize_eval_automorphism_key keys cc ≡ ok w) × IsBlob w auto

  zk_serialize_all_eval_keys-AreKeys :
      (keys : F.Keys) (cc : F.Context) (blobs : List Bytes)
      → zk_serialize_all_eval_keys F keys cc ≡ ok blobs
      → AreKeys keys cc blobs
  unfolding zk_serialize_all_eval_keys
  zk_serialize_all_eval_keys-AreKeys keys cc blobs h =
      let (mult, e0, h0) = >>=-eq-ok (F.serialize_eval_mult_key keys cc) _ h in
      let (sums, e1, h1) = >>=-eq-ok (F.serialize_eval_sum_key keys cc) _ h0 in
      let (auto, e2, h2) = >>=-eq-ok (F.serialize_eval_automorphism_key keys cc) _ h1 in
      record {
        mult = written mult;
        sums = written sums;
        auto = written auto;
        all = sym (ok_same h2);
        mult_written = (mult, e0, written-IsBlob mult);
        sums_written = (sums, e1, written-IsBlob sums);
        auto_written = (auto, e2, written-IsBlob auto);
      }

  -- The request of a run: its keys are generated and written in this run, from the context and the key
  -- pair that decrypt, and its inputs are those of the options.
  pub record ZkSends (world : ZkOutside F) (o : ZkOptions) (workload : ZkClientWorkload F)
      (p : ZkPrepared F) : Type 0 where
    pub made : workload.make_context ≡ ok p.cc
    pub paired : F.key_gen p.cc ≡ ok p.kp
    pub hook_keys : F.Keys
    pub hooked : GivesKeys workload.gen_keys p.cc p.kp hook_keys
    pub keys : F.Keys
    pub completed : F.eval_mult_key_gen p.cc p.kp hook_keys ≡ ok keys
    pub eval_keys : AreKeys keys p.cc p.request.eval_keys
    pub input_cts : AreInputs p.cc p.kp o 0 p.request.input_cts
    pub num_inputs : HasCount o.num_inputs p.request.input_cts
    pub workload_id : p.request.workload_id ≡ o.workload_id
    pub nonce : p.request.nonce ≡ random_nonce world.urandom 16

  pub zk_prepare-ZkSends :
      (world : ZkOutside F) (o : ZkOptions) (workload : ZkClientWorkload F) (p : ZkPrepared F)
      → zk_prepare F world o workload ≡ ok p
      → ZkSends world o workload p
  unfolding zk_prepare
  zk_prepare-ZkSends world o workload p h =
      let (cc, e0, h0) = >>=-eq-ok workload.make_context _ h in
      let (kp, e1, h1) = >>=-eq-ok (F.key_gen cc) _ h0 in
      let (hook_keys, e2, h2) = >>=-eq-ok (zk_generated F workload.gen_keys cc kp) _ h1 in
      let (keys, e3, h3) = >>=-eq-ok (F.eval_mult_key_gen cc kp hook_keys) _ h2 in
      let (blobs, e4, h4) = >>=-eq-ok (zk_serialize_all_eval_keys F keys cc) _ h3 in
      let (cts, e5, h5) = >>=-eq-ok (zk_inputs F cc kp o (rounds o.num_inputs) 0) _ h4 in
      let (inputs, size) = zk_inputs-AreInputs cc kp o (rounds o.num_inputs) 0 cts e5 in
      subst (ZkSends world o workload) (ok_same h5) (record {
        made = e0;
        paired = e1;
        hook_keys = hook_keys;
        hooked = gives_keys workload.gen_keys cc kp hook_keys e2;
        keys = keys;
        completed = e3;
        eval_keys = zk_serialize_all_eval_keys-AreKeys keys cc blobs e4;
        input_cts = inputs;
        num_inputs = count_of o.num_inputs cts size;
        workload_id = refl;
        nonce = refl;
      })
