-- ===== src/Networking/Protocol.antt =====
-- The wire format and the streaming parser of networking/include/networking/binary_protocol.hpp and
-- networking/src/binary_protocol.cpp. A byte is a number below 256. The structs are copied with
-- `memcpy`, so that a message is the list of the bytes of its struct, of the struct's size on a
-- 64-bit target (Tick and Bar are aligned to 64).
pub mod Framing
pub mod RoundTrip
use velox_quant.Base.{
  ℕ, ◌+◌, ◌*◌, ◌/◌, ◌%◌, Bool, true, false, if◌then◌else◌, ltb, ◌==◌, List, [], ◌∷◌, ◌++◌, length,
  take, drop, get_or, replicate, add64,
}
use velox_quant.Networking.Crc.{crc32}

abbrev pub wire_magic : ℕ
wire_magic = 0xFEED0001

-- magic(4) + type(1) + len(2), and the checksum(4)
abbrev pub hdr_size : ℕ
hdr_size = 7

abbrev pub trl_size : ℕ
trl_size = 4

abbrev pub frame_overhead : ℕ
frame_overhead = hdr_size + trl_size

abbrev pub max_payload : ℕ
max_payload = 65535

pub data DecodedMessage : Type 0 where
  tick bar heartbeat subscribe ack : List ℕ → DecodedMessage

-- `sizeof` of the structs
abbrev pub size_of_tick : ℕ
size_of_tick = 128

abbrev pub size_of_bar : ℕ
size_of_bar = 128

abbrev pub size_of_heartbeat : ℕ
size_of_heartbeat = 8

abbrev pub size_of_subscribe : ℕ
size_of_subscribe = 8

abbrev pub size_of_ack : ℕ
size_of_ack = 16

-- The values of `MessageType`
abbrev pub type_code : DecodedMessage → ℕ
type_code (tick _) = 0x01
type_code (bar _) = 0x02
type_code (heartbeat _) = 0x03
type_code (subscribe _) = 0x10
type_code (ack _) = 0x11

abbrev pub unknown_type : ℕ
unknown_type = 0xFF

pub data ParseError : Type 0 where
  bad_magic bad_crc wrong_type payload_too_large truncated : ParseError

pub data ParseResult : Type 0 where
  accepted : DecodedMessage → ParseResult
  refused : ParseError → ParseResult

abbrev pub write_u16le : ℕ → List ℕ
write_u16le v = v % 256 ∷ v / 256 % 256 ∷ []

abbrev pub write_u32le : ℕ → List ℕ
write_u32le v = v % 256 ∷ v / 256 % 256 ∷ v / 65536 % 256 ∷ v / 16777216 % 256 ∷ []

abbrev pub read_u16le : List ℕ → ℕ
read_u16le p = get_or p 0 0 + get_or p 1 0 * 256

abbrev pub read_u32le : List ℕ → ℕ
read_u32le p = get_or p 0 0 + get_or p 1 0 * 256 + get_or p 2 0 * 65536 + get_or p 3 0 * 16777216

-- The bytes that the checksum is over. The length is cast to `uint16_t`.
unfoldable pub frame_body : ℕ → List ℕ → List ℕ
frame_body type payload =
    write_u32le wire_magic ++ type ∷ write_u16le (length payload % 65536) ++ payload

-- The bytes written to a buffer of `room` bytes: none if they do not fit. The function returns
-- their number.
unfoldable pub write_frame : ℕ → List ℕ → ℕ → List ℕ
write_frame type payload room =
    if ltb room (frame_overhead + length payload)
    then []
    else frame_body type payload ++ write_u32le (crc32 (frame_body type payload))

abbrev pub payload_of : DecodedMessage → List ℕ
payload_of (tick bytes) = bytes
payload_of (bar bytes) = bytes
payload_of (heartbeat bytes) = bytes
payload_of (subscribe bytes) = bytes
payload_of (ack bytes) = bytes

-- The five overloads of `encode`
unfoldable pub encode : DecodedMessage → ℕ → List ℕ
encode msg room = write_frame (type_code msg) (payload_of msg) room

pub data State : Type 0 where
  seek_magic read_header read_payload read_trailer : State

-- `log` is what the callback got, newest first.
pub record BinaryParser : Type 0 where
  pub state : State
  pub buf : List ℕ
  pub payload_len : ℕ
  pub msg_type : ℕ
  pub frames_decoded : ℕ
  pub frames_rejected : ℕ
  pub log : List ParseResult

abbrev pub new_parser : BinaryParser
new_parser = record {
  state = seek_magic;
  buf = [];
  payload_len = 0;
  msg_type = unknown_type;
  frames_decoded = 0;
  frames_rejected = 0;
  log = [];
}

abbrev pub reset : BinaryParser → BinaryParser
reset p = record p { state = seek_magic; buf = []; payload_len = 0; msg_type = unknown_type }

unfoldable pub check_magic : List ℕ → Bool
check_magic buf = if ltb (length buf) 4 then false else read_u32le buf == wire_magic

-- A frame that is refused: counted, reported, and the parser starts anew.
unfoldable pub refuse : ParseError → BinaryParser → BinaryParser
refuse why p =
    reset (record p { frames_rejected = add64 p.frames_rejected 1; log = refused why ∷ p.log })

unfoldable pub accept : DecodedMessage → BinaryParser → BinaryParser
accept msg p =
    reset (record p { frames_decoded = add64 p.frames_decoded 1; log = accepted msg ∷ p.log })

unfoldable pub deliver : ParseResult → BinaryParser → BinaryParser
deliver (accepted msg) p = accept msg p
deliver (refused why) p = refuse why p

-- `try_decode`: `payload` starts at the payload and may run beyond it.
unfoldable pub try_decode : ℕ → (List ℕ → DecodedMessage) → ℕ → List ℕ → ParseResult
try_decode size make len payload =
    if ltb len size then refused truncated else accepted (make (take size payload))

unfoldable pub decode_heartbeat : ℕ → List ℕ → ParseResult
decode_heartbeat len payload = accepted (
    heartbeat (
      if ltb len size_of_heartbeat
      then replicate size_of_heartbeat 0
      else take size_of_heartbeat payload))

-- The `switch` of `dispatch_frame`
unfoldable pub decode : ℕ → ℕ → List ℕ → ParseResult
decode type len payload =
    if type == 0x01
    then try_decode size_of_tick tick len payload
    else if type == 0x02
    then try_decode size_of_bar bar len payload
    else if type == 0x03
    then decode_heartbeat len payload
    else if type == 0x10
    then try_decode size_of_subscribe subscribe len payload
    else if type == 0x11
    then try_decode size_of_ack ack len payload
    else refused wrong_type

unfoldable pub dispatch_frame : BinaryParser → BinaryParser
dispatch_frame p =
    let crc_offset = hdr_size + p.payload_len in
    if read_u32le (drop crc_offset p.buf) == crc32 (take crc_offset p.buf)
    then deliver (decode p.msg_type p.payload_len (drop hdr_size p.buf)) p
    else refuse bad_crc p

-- The first seven bytes are there.
unfoldable pub take_header : BinaryParser → BinaryParser
take_header p =
    let len = read_u16le (drop 5 p.buf) in
    let p' : BinaryParser = record p { msg_type = get_or p.buf 4 0; payload_len = len } in
    if ltb max_payload len
    then refuse payload_too_large p'
    else record p' { state = if ltb 0 len then read_payload else read_trailer }

-- The byte is in the buffer already.
unfoldable pub advance : State → BinaryParser → BinaryParser
advance seek_magic p =
    if ltb (length p.buf) 4
    then p
    else if check_magic p.buf
    then record p { state = read_header }
    else record p { buf = drop 1 p.buf }
advance read_header p = if ltb (length p.buf) hdr_size then p else take_header p
advance read_payload p =
    if ltb (length p.buf) (hdr_size + p.payload_len) then p else record p { state = read_trailer }
advance read_trailer p =
    if ltb (length p.buf) (hdr_size + p.payload_len + trl_size) then p else dispatch_frame p

unfoldable pub process_byte : ℕ → BinaryParser → BinaryParser
process_byte b p = advance p.state (record p { buf = p.buf ++ b ∷ [] })

unfoldable pub push : List ℕ → BinaryParser → BinaryParser
push [] p = p
push (b ∷ bytes) p = push bytes (process_byte b p)
