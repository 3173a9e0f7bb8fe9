-- ===== src/Transport.antt =====
-- Message framing over a stream socket: `write_all`, `read_all`, `send_message` and `recv_message`
-- of tcp_transport.cpp. What the system does is a script: the outcomes of the coming calls of
-- `send` or `recv`, in order. A run whose script is used up waits in a call that has not returned.
pub mod Sending
pub mod Receiving
pub mod Truncation
pub mod Descriptors
use khipu_v_fhe.Prelude.{
  ℕ, zero, suc, ◌-◌, min, List, [], ◌∷◌, ◌++◌, Bytes, Bool, true, false, not, ◌&&◌, text, length,
  take, drop, is_empty, ◌==◌, ◌≡◌, ap, if◌then◌else◌,
}
use khipu_v_fhe.Wire.{be64, from_be}

-- `moved k`: up to `k + 1` bytes go over. `closed`: the call returns 0. `failed`: it sets errno,
-- whose message is given.
pub data Call : Type 0 where
  moved : ℕ → Call
  eintr : Call
  closed : Call
  failed : List ℕ → Call

pub data Io {ℓ} (A : Type ℓ) : Type ℓ where
  done : A → Io A
  raised : List ℕ → Io A
  waiting : Io A

-- One end of a connection: the calls to come, the bytes handed to the peer, and those that the
-- peer sends before it closes.
pub record Conn : Type 0 where
  pub calls : List Call
  pub sent : Bytes
  pub incoming : Bytes

-- An operation on a connection.
abbrev pub Op : Type 0 → Type 0
Op A = Conn → Io A × Conn

abbrev pub and_then : {A B : Type 0} → Io A × Conn → (A → Op B) → Io B × Conn
and_then (done a, c) f = f a c
and_then (raised e, c) f = (raised e, c)
and_then (waiting, c) f = (waiting, c)

infixl 5 ◌>>=◌ ◌>>◌
abbrev pub ◌>>=◌ : {A B : Type 0} → Op A → (A → Op B) → Op B
◌>>=◌ m f c = and_then (m c) f

abbrev pub ◌>>◌ : {B : Type 0} → Op (Unit {0}) → Op B → Op B
m >> k = m >>= λ _. k

abbrev pub pure : {A : Type 0} → A → Op A
pure a c = (done a, c)

-- A first operation that is done hands its value and the connection to the second.
pub >>=-done :
    {A B : Type 0} (m : Op A) (f : A → Op B) (c : Conn) {a : A} {c' : Conn}
    → m c ≡ (done a, c')
    → (m >>= f) c ≡ f a c'
>>=-done m f c e = ap (λ r. and_then r f) e

-- The loop of `write_all`: the bytes from `buf + sent` on, the calls to come, the bytes handed over.
unfoldable pub send_loop : Bytes → List Call → Bytes → Io (Unit {0}) × List Call × Bytes
send_loop [] calls out = (done tt, calls, out)
send_loop (b ∷ bs) [] out = (waiting, [], out)
send_loop (b ∷ bs) (moved k ∷ calls) out = send_loop (drop k bs) calls (out ++ (b ∷ take k bs))
send_loop (b ∷ bs) (eintr ∷ calls) out = send_loop (b ∷ bs) calls out
send_loop (b ∷ bs) (closed ∷ calls) out =
    (raised (text "send failed: peer closed connection during write"), calls, out)
send_loop (b ∷ bs) (failed e ∷ calls) out = (raised (text "send failed: " ++ e), calls, out)

unfoldable pub write_all : Bytes → Op (Unit {0})
unfolding send_loop
write_all buf c =
    let (r, calls, out) = send_loop buf c.calls c.sent in
    (r, record c { calls = calls; sent = out })

-- The loop of `read_all`: the bytes still wanted, those got, the calls to come, the peer's bytes.
unfoldable pub recv_loop : Bool → ℕ → Bytes → List Call → Bytes → Io Bytes × List Call × Bytes
recv_loop throw_on_eof zero got calls inc = (done got, calls, inc)
recv_loop throw_on_eof (suc n) got [] inc = (waiting, [], inc)
recv_loop throw_on_eof (suc n) got (moved k ∷ calls) [] = (
  if is_empty got && not throw_on_eof
      then done []
      else raised (text "recv failed: unexpected EOF from peer (truncated message)"),
  calls,
  [],
)
recv_loop throw_on_eof (suc n) got (moved k ∷ calls) (b ∷ bs) =
    let more = take (min k n) bs in
    recv_loop throw_on_eof (n - length more) (got ++ (b ∷ more)) calls (drop (min k n) bs)
recv_loop throw_on_eof (suc n) got (eintr ∷ calls) inc =
    recv_loop throw_on_eof (suc n) got calls inc
recv_loop throw_on_eof (suc n) got (closed ∷ calls) inc = (
  if is_empty got && not throw_on_eof
      then done []
      else raised (text "recv failed: unexpected EOF from peer (truncated message)"),
  calls,
  inc,
)
recv_loop throw_on_eof (suc n) got (failed e ∷ calls) inc =
    (raised (text "recv failed: " ++ e), calls, inc)

-- The bytes that fill the buffer; the count that `read_all` returns is their number.
unfoldable pub read_all : ℕ → Bool → Op Bytes
unfolding recv_loop
read_all len throw_on_eof c =
    let (r, calls, inc) = recv_loop throw_on_eof len [] c.calls c.incoming in
    (r, record c { calls = calls; incoming = inc })

-- An eight-byte big-endian length, then the payload, if there is any.
unfoldable pub send_message : Bytes → Op (Unit {0})
send_message payload = do
  write_all (be64 (length payload))
  if is_empty payload then pure tt else write_all payload

-- What `recv_message` does with the length prefix that it got.
unfoldable pub recv_body : Bytes → Op Bytes
recv_body net_len =
    let len = from_be 0 net_len in
    if is_empty net_len then pure [] else if len == 0 then pure [] else read_all len true

unfoldable pub recv_message : Op Bytes
recv_message = do net_len ← read_all 8 true; recv_body net_len
