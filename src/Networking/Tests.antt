-- ===== src/Networking/Tests.antt =====
-- Runs of the wire protocol: two messages in one stream, and a broken frame.
use velox_quant.Base.{lookup, ◌+◌, ◌%◌, ◌^◌, ◌≡◌, refl, [], ◌∷◌, ◌++◌, replicate, arith, add64}
use velox_quant.Networking.Crc.{crc32, crc_over, crc_update, crc_entry, crc_round}
use velox_quant.Networking.Protocol.{
  DecodedMessage, tick, heartbeat, ack, new_parser, push, reset, refused, bad_crc, frame_body,
}
use velox_quant.Networking.Protocol.Framing.{push-corrupt}
use velox_quant.Networking.Udp.{UdpFeed, gap, publish, handle_datagram, state_of}
use velox_quant.Networking.Udp.Delivery.{Reports, handle_datagram-publish, handle_datagram-ahead}
use velox_quant.Networking.Protocol.RoundTrip.{stream, results, push-stream}

abbrev beat : DecodedMessage
beat = heartbeat (1 ∷ 2 ∷ 3 ∷ 4 ∷ 5 ∷ 6 ∷ 7 ∷ 8 ∷ [])

abbrev reply : DecodedMessage
reply = ack (replicate 16 9)

push-stream_example :
    let q = push (stream 139 (beat ∷ reply ∷ [])) (reset new_parser) in
    (q.log ≡ results (beat ∷ reply ∷ []) [])
    × (q.frames_decoded ≡ (0 + 2) % 2 ^ 64)
    × (q.frames_rejected ≡ 0)
    × (q ≡ reset q)
push-stream_example =
    push-stream (beat ∷ reply ∷ []) 139 new_parser (refl, (refl, tt)) (omega arith) (omega arith)

empty_sum : crc32 (frame_body 3 []) ≡ 2409629801
unfolding crc32 crc_over crc_update crc_entry crc_round frame_body
empty_sum = refl

push-corrupt_example :
    push (frame_body 3 [] ++ 0 ∷ 0 ∷ 0 ∷ 0 ∷ []) (reset new_parser)
    ≡ record (reset new_parser) { frames_rejected = add64 0 1; log = refused bad_crc ∷ [] }
push-corrupt_example = push-corrupt 3 [] 0 0 0 0 new_parser (omega arith) (omega (arith, empty_sum))

abbrev quote : DecodedMessage
quote = tick (replicate 128 5)

-- A publisher that has sent two messages, and a subscriber that has received none.
abbrev sender : UdpFeed
sender = record { reorder_window = 16; seq_map = []; gaps_detected = 0; next_seq = 2; log = [] }

abbrev newcomer : UdpFeed
newcomer = record { reorder_window = 16; seq_map = []; gaps_detected = 0; next_seq = 0; log = [] }

-- One that expects the third message of symbol 7.
abbrev follower : UdpFeed
follower = record newcomer { seq_map = (7, record { expected = 2; pending = [] }) ∷ [] }

handle_datagram-publish_example :
    let out = handle_datagram (publish 7 quote sender).0 follower in
    Reports quote [] out.log × ((state_of 7 out).expected ≡ add64 2 1) × (out.gaps_detected ≡ 0)
unfolding state_of lookup
handle_datagram-publish_example =
    handle_datagram-publish 7 quote sender follower (omega arith) (omega arith) refl next empty
  where
    next : (state_of 7 follower).expected ≡ 2
    next = refl

    empty : (state_of 7 follower).pending ≡ []
    empty = refl

handle_datagram-ahead_example :
    let out = handle_datagram (publish 7 quote sender).0 newcomer in
    (out.log ≡ gap 7 0 2 ∷ []) × ((state_of 7 out).expected ≡ 0)
unfolding state_of lookup
handle_datagram-ahead_example =
    handle_datagram-ahead 7 quote sender newcomer (omega arith) (omega arith) (omega arith)
