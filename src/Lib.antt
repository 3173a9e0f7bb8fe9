-- ===== src/Lib.antt =====
-- Khipu-vFHE: verifiable evaluation of homomorphically encrypted data. A client encrypts its inputs,
-- sends them with its evaluation keys to a server, and decrypts the output only if the evidence
-- that comes with it holds. The repository has a client and a server for each of several prototypes:
-- tee-vfhe (A, a TDX enclave), gpucc-vfhe (C and D, with a confidential GPU), tee-vfhe-bgvrns (E) and
-- zk-vfhe (B, a zero-knowledge proof). Files of the same name mostly agree between them.
--
-- Parts, and the files they model:
-- - Wire, Protocol: the classes BufReader and BufWriter and the messages that they read and write
--   (tee-vfhe/src/server/server_main.cpp, tee-vfhe/src/client/client_main.cpp, and the messages
--   of gpucc-vfhe). A buffer is a list of bytes.
-- - Transport: tee-vfhe/src/common/tcp_transport.cpp. The calls of send and recv follow a script that
--   says how much each moves or how it fails; a run whose script is used up waits. The descriptors
--   that an object owns and those that were closed are lists.
-- - Hex: tee-vfhe/src/common/hashing.cpp. Transcript: tee-vfhe/src/common/transcript.cpp and the
--   transcripts of gpucc-vfhe/src/common/attestation.cpp. Attestation: the quotes of that file.
-- - Evidence: gpucc-vfhe/src/common/h100_evidence_adapter.cpp, with the NVTrust SDK as a
--   parameter.
-- - Verifier: gpucc-vfhe/src/client/verifier.cpp, whose first three methods are those of the other
--   prototypes with a quote.
-- - Zk: zk-vfhe/src/common/proof_generation.cpp and zk-vfhe/src/client/verifier.cpp, with libsnark as a
--   parameter.
--   Zk.Messages, Zk.Server and Zk.Client: the transcript, handle_client and the response of Prototype
--   B, and its client, all of whose main is in Zk.Client.Main. The state of its server is the maps of keys and the
--   cached key pair. Zk.Circuits: zk-vfhe/workloads, the circuits on the context and those that are proved.
-- - GpuServer: handle_client of gpucc-vfhe/src/server/server_main.cpp, whose state is the maps of keys
--   and the client's public key.
-- - Workloads: the circuits of tee-vfhe/workloads over the operations of CKKS. What is proved of
--   them takes the arithmetic of the slots as exact; the loop that doubles its index needs at most nine
--   tests for 256 and has fuel for 33. Workloads.Gpu: gpucc-vfhe/workloads/logistic_regression.cpp,
--   with FIDESlib as a parameter; the loops that list the rotations are passed after 16 rounds for any
--   int and have fuel for 17.
-- - Server: handle_client of tee-vfhe/src/server/server_main.cpp. Server.Threads: its accept loop, with
--   the ways in which its threads may end as a list of events. Client: main of
--   tee-vfhe/src/client/client_main.cpp from the response to the decryption, and Client.Gpu
--   that of gpucc-vfhe. Client.Arguments and Client.Mnist: the arguments of main, and the inputs of the
--   logistic regression, with std::stod as a parameter. Client.Main and Client.Gpu.Main: the whole main of both, with what the
--   connection brings back for a message as a parameter.
-- - Bgv: the server, the transcript and the client's checks of tee-vfhe-bgvrns, where they differ from those
--   of tee-vfhe. Bgv.Main: the whole main of its client.
-- The server parses a request (Protocol), evaluates it, makes a transcript and a quote (Transcript,
-- Attestation) and answers; the client parses the answer and asks the verifier.
--
-- A call returns, throws, or is undefined in C++ (the type Outcome). Machine integers are natural
-- numbers with the wrap-around written out. BLAKE3, nlohmann/json, OpenFHE, the TDX and DCAP libraries
-- and the base64 decoder of OpenSSL are parameters; Libraries has the laws that proofs assume of the
-- first two, and Libraries.Instances libraries that meet them. Nearly all loops are structural; the one that
-- pads base64 text needs at most three rounds and has three. Allocation is taken to succeed, and
-- the system's clock is an argument. Log output is left out.
--
-- Not modelled: how OpenFHE computes, the noise of CKKS, what the threads of the servers share but for
-- the descriptors of Server.Threads, the pseudo-random vectors of the clients and what they print, the
-- contexts of the workloads, the simulations, the benchmarks and the scripts.
pub mod Prelude
pub mod Wire
pub mod Transport
pub mod Protocol
pub mod Hex
pub mod Libraries
pub mod Transcript
pub mod Attestation
pub mod Evidence
pub mod Verifier
pub mod Server
pub mod Client
pub mod Bgv
pub mod GpuServer
pub mod Workloads
pub mod Zk
pub mod Examples
