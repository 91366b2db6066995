-- ===== src/Networking/Protocol/RoundTrip.antt =====
-- The parser gives back what `encode` wrote, however many messages there are.
use velox_quant.Base.{
  ℕ, ◌+◌, ◌%◌, ◌^◌, ◌<◌, ◌≤◌, ◌≡◌, refl, sym, ◌∙◌, ap, false, ltb, List, [], ◌∷◌, ◌++◌, length,
  length-append, All, arith, ◌⊎◌, inl, inr, Bool-cases, ltb→lt, take_append,
}
use velox_quant.Networking.Crc.{crc32}
use velox_quant.Networking.Protocol.{
  BinaryParser, DecodedMessage, tick, bar, heartbeat, subscribe, ack, ParseResult, accepted,
  payload_of, type_code, encode, write_frame, frame_body, write_u32le, frame_overhead, decode,
  decode_heartbeat, try_decode, deliver, accept, push, reset, size_of_tick, size_of_bar,
  size_of_heartbeat, size_of_subscribe, size_of_ack,
}
use velox_quant.Networking.Protocol.Framing.{push-append, good_frame}

-- The bytes of the struct, in number.
abbrev pub size_of : DecodedMessage → ℕ
size_of (tick _) = size_of_tick
size_of (bar _) = size_of_bar
size_of (heartbeat _) = size_of_heartbeat
size_of (subscribe _) = size_of_subscribe
size_of (ack _) = size_of_ack

abbrev pub IsWhole : DecodedMessage → Type 0
IsWhole msg = length (payload_of msg) ≡ size_of msg

-- The largest frame.
abbrev pub max_frame_size : ℕ
max_frame_size = frame_overhead + size_of_tick

-- The messages encoded one after the other, each to a buffer of `room` bytes.
abbrev pub stream : ℕ → List DecodedMessage → List ℕ
stream room [] = []
stream room (msg ∷ msgs) = encode msg room ++ stream room msgs

-- The results that the callback gets, on top of those that it had.
abbrev pub results : List DecodedMessage → List ParseResult → List ParseResult
results [] log = log
results (msg ∷ msgs) log = results msgs (accepted msg ∷ log)

taken :
    (size : ℕ) (make : List ℕ → DecodedMessage) (payload tail : List ℕ)
    → length payload ≡ size
    → try_decode size make (length payload) (payload ++ tail) ≡ accepted (make payload)
unfolding try_decode
taken size make payload tail e =
    let enough : ltb (length payload) size ≡ false = ground arith in
    rw enough (ap (λ bytes. accepted (make bytes)) (take_append payload tail size (sym e)))

decode-own :
    (msg : DecodedMessage) (tail : List ℕ)
    → IsWhole msg
    → decode (type_code msg) (length (payload_of msg)) (payload_of msg ++ tail) ≡ accepted msg
unfolding decode decode_heartbeat
decode-own (tick bytes) tail e = taken size_of_tick tick bytes tail e
decode-own (bar bytes) tail e = taken size_of_bar bar bytes tail e
decode-own (heartbeat bytes) tail e =
    let enough : ltb (length bytes) size_of_heartbeat ≡ false = ground arith in
    rw enough
      (ap (λ own. accepted (heartbeat own)) (take_append bytes tail size_of_heartbeat (sym e)))
decode-own (subscribe bytes) tail e = taken size_of_subscribe subscribe bytes tail e
decode-own (ack bytes) tail e = taken size_of_ack ack bytes tail e

size_of_small : (msg : DecodedMessage) → size_of msg ≤ 128
size_of_small (tick _) = omega arith
size_of_small (bar _) = omega arith
size_of_small (heartbeat _) = omega arith
size_of_small (subscribe _) = omega arith
size_of_small (ack _) = omega arith

-- A message that fits is written whole.
encode-fits :
    (msg : DecodedMessage) (room : ℕ)
    → IsWhole msg
    → max_frame_size ≤ room
    → encode msg room
      ≡ frame_body (type_code msg) (payload_of msg)
        ++ write_u32le (crc32 (frame_body (type_code msg) (payload_of msg)))
unfolding encode write_frame
encode-fits msg room e fits =
    let enough : ltb room (frame_overhead + length (payload_of msg)) ≡ false =
      ground (arith, size_of_small msg) in
    rw enough refl

-- One encoded message is accepted as it was.
pub push-encode :
    (msg : DecodedMessage) (room : ℕ) (p : BinaryParser)
    → IsWhole msg
    → max_frame_size ≤ room
    → push (encode msg room) (reset p) ≡ accept msg p
unfolding deliver
push-encode msg room p e fits = rw (encode-fits msg room e fits) (
    good_frame (type_code msg) (payload_of msg) p (omega (arith, size_of_small msg))
    ∙ rw (decode-own msg _ e) refl)

-- (For messages of the size of their structs, each encoded with room for the largest frame.)
-- The bytes of any number of encoded messages, pushed at once into a parser that is between two
-- frames: the callback gets every message as it was, in order, none is refused, and the parser is
-- between two frames again.
pub push-stream :
    (msgs : List DecodedMessage) (room : ℕ) (p : BinaryParser)
    → All IsWhole msgs
    → max_frame_size ≤ room
    → p.frames_decoded < 2 ^ 64
    → let q = push (stream room msgs) (reset p) in
      (q.log ≡ results msgs p.log)
      × (q.frames_decoded ≡ (p.frames_decoded + length msgs) % 2 ^ 64)
      × (q.frames_rejected ≡ p.frames_rejected)
      × (q ≡ reset q)
unfolding push accept
push-stream [] room p whole fits small = (refl, omega arith, refl, refl)
push-stream (msg ∷ msgs) room p whole fits small =
    let q = accept msg p in
    let first : push (stream room (msg ∷ msgs)) (reset p) ≡ push (stream room msgs) (reset q) =
      push-append (encode msg room) (stream room msgs) (reset p)
      ∙ ap (push (stream room msgs)) (push-encode msg room p whole.0 fits) in
    let (got, count, bad, ready) = push-stream msgs room q whole.1 fits (omega arith) in
    rw first (got, omega (arith, count), bad, ready)

-- `encode` writes the whole frame, or nothing at all if the buffer is too small for it.
pub length-encode :
    (msg : DecodedMessage) (room : ℕ)
    → ((frame_overhead + length (payload_of msg) ≤ room)
        × (length (encode msg room) ≡ frame_overhead + length (payload_of msg)))
      ⊎ ((room < frame_overhead + length (payload_of msg)) × (encode msg room ≡ []))
unfolding encode write_frame frame_body
length-encode msg room = elim (Bool-cases (ltb room (frame_overhead + length (payload_of msg)))) [
  | inl short ↦ inr (ltb→lt _ _ short, rw short refl)
  | inr enough ↦ inl (
    ground arith,
    rw enough (
        omega (
          arith,
          length-append (payload_of msg)
              (write_u32le (crc32 (frame_body (type_code msg) (payload_of msg)))),
        )),
  )
]
