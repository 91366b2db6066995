-- ===== src/Networking/Protocol/Framing.antt =====
-- What the parser does with the bytes of one frame.
use velox_quant.Base.{
  ℕ, suc, ◌+◌, ◌%◌, ◌^◌, ◌<◌, ◌≡◌, refl, sym, ◌∙◌, ap, true, false, if◌then◌else◌, ltb, ◌==◌, List,
  [], ◌∷◌, ◌++◌, append_assoc, append-nil, length, length-append, drop, take_append, drop_append,
  arith, ==_iff, ◌≢◌, add64,
}
use velox_quant.Networking.Crc.{crc32, crc32_small}
use velox_quant.Networking.Protocol.{
  BinaryParser, read_payload, read_trailer, State, push, process_byte, advance, take_header,
  dispatch_frame, check_magic, reset, refuse, deliver, decode, frame_body, write_u16le, write_u32le,
  read_u16le, read_u32le, wire_magic, hdr_size, trl_size, max_payload, bad_crc, ParseResult,
  accepted, refused, accept,
}

pub push-append : (xs ys : List ℕ) (p : BinaryParser) → push (xs ++ ys) p ≡ push ys (push xs p)
unfolding push
push-append [] ys p = refl
push-append (x ∷ xs) ys p = push-append xs ys (process_byte x p)

-- The parser in the middle of a frame.
abbrev pub midway : State → List ℕ → ℕ → ℕ → BinaryParser → BinaryParser
midway s b type len p = record p { state = s; buf = b; msg_type = type; payload_len = len }

abbrev pub head_bytes : ℕ → ℕ → List ℕ
head_bytes type len = write_u32le wire_magic ++ type ∷ write_u16le (len % 65536)

header_read :
    (type len : ℕ) (p : BinaryParser)
    → len < 65536
    → push (head_bytes type len) (reset p)
      ≡ midway (if ltb 0 len then read_payload else read_trailer) (head_bytes type len) type len p
unfolding push process_byte advance check_magic take_header
header_read type len p h =
    let exact : read_u16le (write_u16le (len % 65536)) ≡ len = omega arith in
    let fits : ltb max_payload len ≡ false = ground arith in rw exact (rw fits refl)

payload_read :
    (xs b : List ℕ) (type len : ℕ) (p : BinaryParser)
    → 0 < length xs
    → length b + length xs ≡ hdr_size + len
    → push xs (midway read_payload b type len p) ≡ midway read_trailer (b ++ xs) type len p
unfolding push process_byte advance
payload_read [] b type len p h e = absurd (omega arith)
payload_read (x ∷ []) b type len p h e =
    let done : ltb (length (b ++ x ∷ [])) (hdr_size + len) ≡ false =
      ground (arith, length-append b (x ∷ [])) in
    rw done refl
payload_read (x ∷ y ∷ xs) b type len p h e =
    let more : ltb (length (b ++ x ∷ [])) (hdr_size + len) ≡ true =
      ground (arith, length-append b (x ∷ [])) in
    rw more (
      payload_read (y ∷ xs) (b ++ x ∷ []) type len p (omega arith)
        (omega (arith, length-append b (x ∷ [])))
      ∙ ap (λ l. midway read_trailer l type len p) (append_assoc b (x ∷ []) (y ∷ xs)))

-- The payload, which may be empty: then the parser waits for the trailer at once.
body_read :
    (payload b : List ℕ) (type : ℕ) (p : BinaryParser)
    → length b ≡ hdr_size
    → push payload (
        midway
          (if ltb 0 (length payload) then read_payload else read_trailer)
          b
          type
          (length payload)
          p)
      ≡ midway read_trailer (b ++ payload) type (length payload) p
unfolding push
body_read [] b type p e = ap (λ l. midway read_trailer l type 0 p) (sym (append-nil b))
body_read (x ∷ xs) b type p e =
    let some_left : ltb 0 (suc (length xs)) ≡ true = ground arith in
    rw some_left (payload_read (x ∷ xs) b type (suc (length xs)) p (omega arith) (omega (arith, e)))

-- Three bytes of the trailer wait, the fourth ends the frame.
trailer_read :
    (c d e f : ℕ) (b : List ℕ) (type len : ℕ) (p : BinaryParser)
    → length b ≡ hdr_size + len
    → push (c ∷ d ∷ e ∷ f ∷ []) (midway read_trailer b type len p)
      ≡ dispatch_frame (midway read_trailer (b ++ c ∷ d ∷ e ∷ f ∷ []) type len p)
unfolding push process_byte advance
trailer_read c d e f b type len p h =
    let b1 = b ++ c ∷ [] in
    let b2 = b1 ++ d ∷ [] in
    let b3 = b2 ++ e ∷ [] in
    let n1 : length b1 ≡ hdr_size + len + 1 = omega (arith, length-append b (c ∷ [])) in
    let n2 : length b2 ≡ hdr_size + len + 2 = omega (arith, length-append b1 (d ∷ [])) in
    let n3 : length b3 ≡ hdr_size + len + 3 = omega (arith, length-append b2 (e ∷ [])) in
    let n4 : length (b3 ++ f ∷ []) ≡ hdr_size + len + 4 =
      omega (arith, length-append b3 (f ∷ [])) in
    let t1 : ltb (length b1) (hdr_size + len + trl_size) ≡ true = ground arith in
    let t2 : ltb (length b2) (hdr_size + len + trl_size) ≡ true = ground arith in
    let t3 : ltb (length b3) (hdr_size + len + trl_size) ≡ true = ground arith in
    let t4 : ltb (length (b3 ++ f ∷ [])) (hdr_size + len + trl_size) ≡ false = ground arith in
    let whole : b3 ++ f ∷ [] ≡ b ++ c ∷ d ∷ e ∷ f ∷ [] =
      append_assoc b2 (e ∷ []) (f ∷ [])
      ∙ append_assoc b1 (d ∷ []) (e ∷ f ∷ [])
      ∙ append_assoc b (c ∷ []) (d ∷ e ∷ f ∷ []) in
    rw t1
      (rw t2 (rw t3 (rw t4 (ap (λ l. dispatch_frame (midway read_trailer l type len p)) whole))))

length-frame_body :
    (type : ℕ) (payload : List ℕ) → length (frame_body type payload) ≡ hdr_size + length payload
unfolding frame_body
length-frame_body type payload = omega (arith)

-- A frame of any type and payload with any trailer of four bytes is taken apart, and dispatched.
frame_read :
    (type : ℕ) (payload : List ℕ) (c d e f : ℕ) (p : BinaryParser)
    → length payload < 65536
    → push (frame_body type payload ++ c ∷ d ∷ e ∷ f ∷ []) (reset p)
      ≡ dispatch_frame (
          midway read_trailer
            (frame_body type payload ++ c ∷ d ∷ e ∷ f ∷ [])
            type
            (length payload)
            p)
unfolding frame_body
frame_read type payload c d e f p h =
    let head = head_bytes type (length payload) in
    let tail = c ∷ d ∷ e ∷ f ∷ [] in
    push-append (head ++ payload) tail (reset p)
    ∙ ap (push tail) (
        push-append head payload (reset p)
        ∙ ap (push payload) (header_read type (length payload) p h)
        ∙ body_read payload head type p refl)
    ∙ trailer_read c d e f (head ++ payload) type (length payload) p
        (length-frame_body type payload)

-- The frame is in the buffer: the checksum decides.
dispatched :
    (type : ℕ) (payload tail : List ℕ) (p : BinaryParser)
    → dispatch_frame (midway read_trailer (frame_body type payload ++ tail) type (length payload) p)
      ≡ (let q = midway read_trailer (frame_body type payload ++ tail) type (length payload) p in
          if read_u32le tail == crc32 (frame_body type payload)
          then deliver (decode type (length payload) (payload ++ tail)) q
          else refuse bad_crc q)
unfolding dispatch_frame frame_body
dispatched type payload tail p =
    let size = sym (length-frame_body type payload) in
    rw (drop_append (frame_body type payload) tail _ size)
      (rw (take_append (frame_body type payload) tail _ size) (rw payload_there refl))
  where
    payload_there : drop hdr_size (frame_body type payload ++ tail) ≡ payload ++ tail
    payload_there = refl

pub read-write_u32le : (v : ℕ) → v < 2 ^ 32 → read_u32le (write_u32le v) ≡ v
read-write_u32le v h = omega arith

deliver-midway :
    (r : ParseResult) (s : State) (b : List ℕ) (type len : ℕ) (p : BinaryParser)
    → deliver r (midway s b type len p) ≡ deliver r p
unfolding deliver accept refuse
deliver-midway (accepted m) s b type len p = refl
deliver-midway (refused why) s b type len p = refl

-- A frame with its own checksum is decoded.
pub good_frame :
    (type : ℕ) (payload : List ℕ) (p : BinaryParser)
    → length payload < 65536
    → push (frame_body type payload ++ write_u32le (crc32 (frame_body type payload))) (reset p)
      ≡ deliver
          (decode type (length payload) (payload ++ write_u32le (crc32 (frame_body type payload))))
          p
good_frame type payload p h =
    let body = frame_body type payload in
    let right : (read_u32le (write_u32le (crc32 body)) == crc32 body) ≡ true =
      (==_iff _ _).1 (read-write_u32le (crc32 body) (crc32_small body)) in
    frame_read type payload _ _ _ _ p h
    ∙ dispatched type payload (write_u32le (crc32 body)) p
    ∙ rw right (deliver-midway _ _ _ _ _ p)

-- A frame whose trailer is not its checksum is refused, whatever its type and payload: the error is
-- reported and counted, nothing is decoded, and the parser waits for the next frame.
pub push-corrupt :
    (type : ℕ) (payload : List ℕ) (c d e f : ℕ) (p : BinaryParser)
    → length payload < 65536
    → read_u32le (c ∷ d ∷ e ∷ f ∷ []) ≢ crc32 (frame_body type payload)
    → push (frame_body type payload ++ c ∷ d ∷ e ∷ f ∷ []) (reset p) ≡ record (reset p) {
      frames_rejected = add64 p.frames_rejected 1;
      log = refused bad_crc ∷ p.log;
    }
unfolding refuse
push-corrupt type payload c d e f p h ne =
    let wrong : (read_u32le (c ∷ d ∷ e ∷ f ∷ []) == crc32 (frame_body type payload)) ≡ false =
      ground arith in
    frame_read type payload c d e f p h
    ∙ dispatched type payload (c ∷ d ∷ e ∷ f ∷ []) p
    ∙ rw wrong refl
