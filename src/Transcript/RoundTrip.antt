-- ===== src/Transcript/RoundTrip.antt =====
-- A transcript that is written to JSON is read back as it was.
use khipu_v_fhe.Prelude.{
  ℕ, ◌/◌, ◌%◌, ◌≡◌, ◌<◌, refl, arith, List, [], ◌∷◌, map, Bytes, IsByte, All, ok, text, some, ltb,
  all_below, all_below→, ltb→lt,
}
use khipu_v_fhe.Hex.{hex_chars, char_at, to_hex}
use khipu_v_fhe.Hex.RoundTrip.{from_hex-to_hex, hash_from_hex-to_hex}
use khipu_v_fhe.Libraries.{JsonLib, IsJson, str, num, strs, Fields, assigned, IsAscii, FieldIsFine}
use khipu_v_fhe.Transcript.{
  Transcript, IsTyped, IsHash, to_fields, to_json, read_hashes, read_hash, read_transcript,
  from_json,
}

hex_char_ascii : (d : ℕ) → d < 16 → char_at hex_chars d < 128
unfolding all_below
hex_char_ascii d h = ltb→lt _ _ (all_below→ 16 (λ d. ltb (char_at hex_chars d) 128) refl d h)

pub to_hex-IsAscii : (bs : Bytes) → All IsByte bs → IsAscii (to_hex bs)
unfolding to_hex
to_hex-IsAscii [] h = tt
to_hex-IsAscii (b ∷ bs) (hb, h) = (
  hex_char_ascii (b / 16) (omega arith),
  (hex_char_ascii (b % 16) (omega arith), to_hex-IsAscii bs h),
)

pub map-to_hex-IsAscii : (hs : List Bytes) → All IsHash hs → All IsAscii (map to_hex hs)
map-to_hex-IsAscii [] h = tt
map-to_hex-IsAscii (x ∷ hs) (hx, h) = (to_hex-IsAscii x hx.bytes, map-to_hex-IsAscii hs h)

-- Everything that `to_json` stores can be dumped.
pub to_fields-IsFine :
    (t : Transcript) → IsTyped t → All (λ (k, v). IsAscii k × FieldIsFine v) (to_fields t)
unfolding to_fields
to_fields-IsFine t h =
    let nonce = to_hex-IsAscii t.nonce h.nonce in
    let key = to_hex-IsAscii t.eval_key_hash h.eval_key.bytes in
    let inputs = map-to_hex-IsAscii t.input_ct_hashes h.inputs in
    let output = to_hex-IsAscii t.output_ct_hash h.output.bytes in
    (
      (omega arith, nonce),
      (
        (omega arith, key),
        (
          (omega arith, inputs),
          (
            (omega arith, output),
            (
              (omega arith, h.eval_time),
              ((omega arith, h.transcript_time), ((omega arith, h.quote_time), tt)),
            ),
          ),
        ),
      ),
    )

module _ (J : JsonLib) (L : IsJson J) where
  open J use {Json, object, dump, parse, at, get_string, elements, value}

  pub read_hashes_lem :
      (js : List Json) (hs : List Bytes)
      → All IsHash hs
      → map get_string js ≡ map ok (map to_hex hs)
      → read_hashes J js ≡ ok hs
  unfolding read_hashes
  read_hashes_lem [] [] h e = refl
  read_hashes_lem [] (x ∷ hs) h e = cc
  read_hashes_lem (j ∷ js) [] h e = cc
  read_hashes_lem (j ∷ js) (x ∷ hs) (hx, h) e =
      let first : get_string j ≡ ok (to_hex x) = cc e in
      let others : map get_string js ≡ map ok (map to_hex hs) = cc e in
      rw (first, hash_from_hex-to_hex x hx.bytes hx.size, read_hashes_lem js hs h others) refl

  pub read_hash_lem :
      (fs : Fields) (k : List ℕ) (h : Bytes)
      → IsHash h
      → assigned k fs ≡ some (str (to_hex h))
      → read_hash J (object fs) k ≡ ok h
  unfolding read_hash
  read_hash_lem fs k h typed e =
      let (j, found, holds) = L.at-object fs k (str (to_hex h)) e in
      rw (found, holds) (hash_from_hex-to_hex h typed.bytes typed.size)

  -- What the members of an object must be for a transcript to be read.
  pub record HasTranscript (fs : Fields) (t : Transcript) : Type 0 where
    pub nonce : assigned (text "nonce") fs ≡ some (str (to_hex t.nonce))
    pub eval_key : assigned (text "eval_key_hash") fs ≡ some (str (to_hex t.eval_key_hash))
    pub inputs : assigned (text "input_ct_hashes") fs ≡ some (strs (map to_hex t.input_ct_hashes))
    pub output : assigned (text "output_ct_hash") fs ≡ some (str (to_hex t.output_ct_hash))
    pub eval_time : assigned (text "fhe_eval_us") fs ≡ some (num t.fhe_eval_us)
    pub transcript_time : assigned (text "transcript_us") fs ≡ some (num t.transcript_us)
    pub quote_time : assigned (text "quote_us") fs ≡ some (num t.quote_us)

  pub read_transcript_lem :
      (fs : Fields) (t : Transcript)
      → IsTyped t
      → HasTranscript fs t
      → read_transcript J (object fs) ≡ ok t
  unfolding read_transcript
  read_transcript_lem fs t h a =
      let (j1, at1, holds1) = L.at-object fs (text "nonce") (str (to_hex t.nonce)) a.nonce in
      let (j2, at2, holds2) =
        L.at-object fs (text "input_ct_hashes") (strs (map to_hex t.input_ct_hashes)) a.inputs in
      let key = read_hash_lem fs (text "eval_key_hash") t.eval_key_hash h.eval_key a.eval_key in
      let inputs = read_hashes_lem (elements j2) t.input_ct_hashes h.inputs holds2 in
      let output = read_hash_lem fs (text "output_ct_hash") t.output_ct_hash h.output a.output in
      let time1 = L.value-object fs (text "fhe_eval_us") t.fhe_eval_us 0 a.eval_time h.eval_time in
      let time2 =
        L.value-object fs (text "transcript_us") t.transcript_us 0 a.transcript_time
          h.transcript_time in
      let time3 = L.value-object fs (text "quote_us") t.quote_us 0 a.quote_time h.quote_time in
      rw
        (
          at1,
          holds1,
          from_hex-to_hex t.nonce h.nonce,
          key,
          at2,
          inputs,
          output,
          time1,
          time2,
          time3,
        )
        refl

  -- A transcript of bytes, 32-byte digests and 64-bit timings can be written to JSON, and reading the
  -- text gives it back, timings included. The JSON library must have its documented behaviour.
  pub from_json-to_json :
      (t : Transcript) → IsTyped t → (s : List ℕ) × (to_json J t ≡ ok s) × (from_json J s ≡ ok t)
  unfolding to_json from_json to_fields
  from_json-to_json t h =
      let fs = to_fields t in
      let (s, dumped, parsed) = L.parse-dump fs (to_fields-IsFine t h) in
      let read = read_transcript_lem fs t h (record {
        nonce = refl;
        eval_key = refl;
        inputs = refl;
        output = refl;
        eval_time = refl;
        transcript_time = refl;
        quote_time = refl;
      }) in
      (s, dumped, rw parsed read)
