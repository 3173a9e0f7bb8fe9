-- ===== src/Zk/Client/Options.antt =====
-- The options of the client of Prototype B: the loop over `argv` and the defaults of the workloads in
-- main of zk-vfhe/src/client/client_main.cpp.
use khipu_v_fhe.Prelude.{
  ℕ, List, [], ◌∷◌, ◌||◌, Outcome, ok, ◌>>=◌, text, bytes_eq, if◌then◌else◌, ℤ, pos,
}
use khipu_v_fhe.Client.Arguments.{stoi, to_uint16}

pub record ZkOptions : Type 0 where
  pub host : List ℕ
  pub port : ℕ
  pub workload_id : List ℕ
  pub num_inputs : ℤ
  pub slots : ℤ
  pub seed_a : ℤ

abbrev pub zk_defaults : ZkOptions
zk_defaults = record {
  host = text "127.0.0.1";
  port = 8080;
  workload_id = text "toy";
  num_inputs = pos 2;
  slots = pos 64;
  seed_a = pos 42;
}

-- Whether the program goes on, or returns this exit code.
pub data ZkParsed : Type 0 where
  zk_run_with : ZkOptions → ZkParsed
  zk_exit_with : ℕ → ZkParsed

abbrev pub zk_alone : List ℕ → ZkParsed
zk_alone a =
    if bytes_eq a (text "--help") || bytes_eq a (text "-h") then zk_exit_with 0 else zk_exit_with 1

-- From `argv[i]` on. The exception of a number that cannot be read leaves main.
unfoldable pub zk_parse_args : ZkOptions → List (List ℕ) → Outcome ZkParsed
zk_parse_args o [] = ok (zk_run_with o)
zk_parse_args o (a ∷ []) = ok (zk_alone a)
zk_parse_args o (a ∷ v ∷ args) =
    let go_on : ZkOptions → Outcome ZkParsed = λ o'. zk_parse_args o' args in
    if bytes_eq a (text "--host")
    then go_on (record o { host = v })
    else if bytes_eq a (text "--port")
    then (stoi v >>= λ n. go_on (record o { port = to_uint16 n }))
    else if bytes_eq a (text "--workload")
    then go_on (record o { workload_id = v })
    else if bytes_eq a (text "--inputs")
    then (stoi v >>= λ n. go_on (record o { num_inputs = n }))
    else if bytes_eq a (text "--slots")
    then (stoi v >>= λ n. go_on (record o { slots = n }))
    else if bytes_eq a (text "--seed")
    then (stoi v >>= λ n. go_on (record o { seed_a = n }))
    else ok (zk_alone a)

pub record WorkloadDefaults : Type 0 where
  pub id : List ℕ
  pub num_inputs : ℕ
  pub slots : ℕ

abbrev pub defaults_of : List ℕ → ℕ → ℕ → WorkloadDefaults
defaults_of id num_inputs slots = record { id = id; num_inputs = num_inputs; slots = slots }

-- `kWorkloadDefaults`
abbrev pub zk_workload_defaults : List WorkloadDefaults
zk_workload_defaults =
    defaults_of (text "noop") 1 64
    ∷ defaults_of (text "toy") 2 64
    ∷ defaults_of (text "small") 4 64
    ∷ defaults_of (text "medium") 6 64
    ∷ defaults_of (text "BGV-Add-4K") 2 4096
    ∷ defaults_of (text "BGV-Mul-4K") 2 4096
    ∷ []

-- The loop over the defaults: the first entry of the workload counts.
unfoldable pub overridden : List WorkloadDefaults → ZkOptions → ZkOptions
overridden [] o = o
overridden (wd ∷ wds) o =
    let rest = overridden wds o in
    if bytes_eq o.workload_id wd.id
    then record o { num_inputs = pos wd.num_inputs; slots = pos wd.slots }
    else rest
