-- ===== src/Networking/Udp.antt =====
-- AsyncUdpFeed of networking/include/networking/udp_feed.hpp and networking/src/udp_feed.cpp: what a
-- publisher puts in its datagrams, and what a subscriber does with one. The sockets are left out.
-- The callbacks are the `log`, newest first.
pub mod Delivery
use velox_quant.Base.{
  ℕ, zero, suc, ◌+◌, ◌*◌, ◌/◌, ◌%◌, ◌^◌, Bool, if◌then◌else◌, ltb, ◌==◌, Option, none, some, List,
  [], ◌∷◌, ◌++◌, length, take, drop, Assoc, lookup, insert, erase, add64,
}
use velox_quant.Networking.Protocol.{
  DecodedMessage, tick, bar, heartbeat, subscribe, ack, ParseResult, accepted, refused,
  BinaryParser, new_parser, encode, push, write_u32le, read_u32le,
}
use velox_quant.Networking.Protocol.RoundTrip.{max_frame_size}

abbrev pub udp_prefix_size : ℕ
udp_prefix_size = 12

pub data FeedEvent : Type 0 where
  tick_received bar_received : List ℕ → FeedEvent
  gap : ℕ → ℕ → ℕ → FeedEvent

-- `pending` is the reorder buffer: the frames that came early, by their sequence number.
pub record SeqState : Type 0 where
  pub expected : ℕ
  pub pending : Assoc (List ℕ)

pub record UdpFeed : Type 0 where
  pub reorder_window : ℕ
  pub seq_map : Assoc SeqState
  pub gaps_detected : ℕ
  pub next_seq : ℕ
  pub log : List FeedEvent

-- `p[i] = v >> (8 * i)` for `n` bytes
unfoldable pub write_le : ℕ → ℕ → List ℕ
write_le zero v = []
write_le (suc n) v = v % 256 ∷ write_le n (v / 256)

unfoldable pub read_le : ℕ → List ℕ → ℕ
read_le zero p = 0
read_le (suc n) [] = 0
read_le (suc n) (b ∷ p) = b + read_le n p * 256

-- The datagram of a message, and the feed with its counter advanced; `encode` has room for any.
unfoldable pub publish : ℕ → DecodedMessage → UdpFeed → List ℕ × UdpFeed
publish symbol_id msg feed = (
  write_u32le symbol_id ++ write_le 8 feed.next_seq ++ encode msg max_frame_size,
  record feed { next_seq = add64 feed.next_seq 1 },
)

unfoldable pub dispatch_decoded : ParseResult → List FeedEvent → List FeedEvent
dispatch_decoded (accepted (tick bytes)) log = tick_received bytes ∷ log
dispatch_decoded (accepted (bar bytes)) log = bar_received bytes ∷ log
dispatch_decoded _ log = log

-- The results of a parser, newest first, are dispatched from the oldest on.
unfoldable pub dispatch_all : List ParseResult → List FeedEvent → List FeedEvent
dispatch_all [] log = log
dispatch_all (r ∷ rs) log = dispatch_decoded r (dispatch_all rs log)

-- A new parser for each frame.
unfoldable pub parse_frame : List ℕ → List FeedEvent → List FeedEvent
parse_frame frame log = dispatch_all ((push frame new_parser).log) log

unfoldable pub state_of : ℕ → UdpFeed → SeqState
state_of symbol_id feed = elim (lookup symbol_id feed.seq_map) [
  | none ↦ record { expected = 0; pending = [] }
  | some s ↦ s
]

unfoldable pub put_state : ℕ → SeqState → List FeedEvent → UdpFeed → UdpFeed
put_state symbol_id s log feed = record feed {
  seq_map = insert symbol_id s feed.seq_map;
  log = log;
}

-- A frame that came early is kept while there is room in the window.
unfoldable pub keep_early : ℕ → ℕ → List ℕ → SeqState → SeqState
keep_early window seq_no frame s =
    if ltb (length s.pending) window
    then record s { pending = insert seq_no frame s.pending }
    else s

-- The frame that was expected is parsed, or one that had come early.
unfoldable pub consume : List ℕ → SeqState × List FeedEvent → SeqState × List FeedEvent
consume frame (s, log) = (record s { expected = add64 s.expected 1 }, parse_frame frame log)

-- Each round takes a frame out of the buffer.
unfoldable pub drain : ℕ → SeqState × List FeedEvent → SeqState × List FeedEvent
drain zero (s, log) = (s, log)
drain (suc fuel) (s, log) = elim (lookup s.expected s.pending) [
  | none ↦ (s, log)
  | some frame ↦ drain fuel (consume frame (record s { pending = erase s.expected s.pending }, log))
]

unfoldable pub accept_frame : ℕ → ℕ → List ℕ → SeqState → UdpFeed → UdpFeed
accept_frame symbol_id seq_no frame s feed =
    let out = drain (length s.pending) (consume frame (s, feed.log)) in
    let early =
      record (put_state symbol_id (keep_early feed.reorder_window seq_no frame s)
        (gap symbol_id s.expected seq_no ∷ feed.log) feed) {
          gaps_detected = add64 feed.gaps_detected 1;
        } in
    let late = put_state symbol_id s feed.log feed in
    if ltb seq_no s.expected
    then late
    else if ltb s.expected seq_no
    then early
    else put_state symbol_id (out.0) (out.1) feed

unfoldable pub handle_datagram : List ℕ → UdpFeed → UdpFeed
handle_datagram dgram feed =
    if ltb (length dgram) udp_prefix_size
    then feed
    else (let symbol_id = read_u32le dgram in
        accept_frame symbol_id (read_le 8 (drop 4 dgram)) (drop udp_prefix_size dgram)
          (state_of symbol_id feed) feed)
