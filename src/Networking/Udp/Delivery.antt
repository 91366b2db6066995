-- ===== src/Networking/Udp/Delivery.antt =====
-- What becomes of a published datagram at a subscriber.
use velox_quant.Base.{
  ℕ, zero, suc, ◌/◌, ◌^◌, ◌<◌, ◌≡◌, refl, sym, ◌∙◌, ap, subst, true, false, ltb, some, List, [],
  ◌∷◌, ◌++◌, length, length-append, drop, drop_append, lookup, insert, lookup-insert, add64, arith,
}
use velox_quant.Networking.Protocol.{
  DecodedMessage, tick, bar, heartbeat, subscribe, ack, encode, write_u32le, read_u32le, new_parser,
  accepted, accept,
}
use velox_quant.Networking.Protocol.RoundTrip.{IsWhole, max_frame_size, push-encode}
use velox_quant.Networking.Udp.{
  UdpFeed, SeqState, FeedEvent, gap, tick_received, bar_received, publish, handle_datagram,
  accept_frame, write_le, read_le, state_of, put_state, keep_early, consume, drain, parse_frame,
  dispatch_all, dispatch_decoded, udp_prefix_size,
}

read_le-write_le : (n v : ℕ) (rest : List ℕ) → v < 256 ^ n → read_le n (write_le n v ++ rest) ≡ v
unfolding read_le write_le
read_le-write_le zero v rest h = omega arith
read_le-write_le (suc n) v rest h = omega (arith, read_le-write_le n (v / 256) rest (omega arith))

length-write_le : (n v : ℕ) → length (write_le n v) ≡ n
unfolding write_le
length-write_le zero v = refl
length-write_le (suc n) v = ap suc (length-write_le n (v / 256))

-- A datagram of a number and a frame is taken apart again.
handled :
    (symbol seq : ℕ) (frame : List ℕ) (feed : UdpFeed)
    → symbol < 2 ^ 32
    → seq < 2 ^ 64
    → handle_datagram (write_u32le symbol ++ write_le 8 seq ++ frame) feed
      ≡ accept_frame symbol seq frame (state_of symbol feed) feed
unfolding handle_datagram
handled symbol seq frame feed h k =
    let body = write_le 8 seq ++ frame in
    let number : read_u32le (write_u32le symbol ++ body) ≡ symbol = omega arith in
    let long : ltb (length (write_u32le symbol ++ body)) udp_prefix_size ≡ false =
      ground (arith, length-append (write_le 8 seq) frame, length-write_le 8 seq) in
    let seq_read : read_le 8 body ≡ seq = read_le-write_le 8 seq frame (omega arith) in
    let frame_read : drop 8 body ≡ frame =
      drop_append (write_le 8 seq) frame 8 (sym (length-write_le 8 seq)) in
    rw long (rw (number, seq_read, frame_read) refl)

parsed :
    (msg : DecodedMessage) (log : List FeedEvent)
    → IsWhole msg
    → parse_frame (encode msg max_frame_size) log ≡ dispatch_decoded (accepted msg) log
unfolding parse_frame dispatch_all accept
parsed msg log whole = rw (push-encode msg max_frame_size new_parser whole (omega arith)) refl

stored :
    (symbol : ℕ) (s : SeqState) (feed : UdpFeed)
    → lookup symbol (insert symbol s feed.seq_map) ≡ some s
stored symbol s feed = ground (arith, lookup-insert symbol symbol s feed.seq_map)

state_of-stored :
    (symbol : ℕ) (s : SeqState) (feed out : UdpFeed)
    → out.seq_map ≡ insert symbol s feed.seq_map
    → state_of symbol out ≡ s
unfolding state_of
state_of-stored symbol s feed out e =
    let found : lookup symbol out.seq_map ≡ some s = rw e (stored symbol s feed) in
    rw (found, state_of) refl

drain-nothing :
    (s : SeqState) (log : List FeedEvent)
    → s.pending ≡ []
    → drain (length s.pending) (s, log) ≡ (s, log)
unfolding drain
drain-nothing s log e = rw e refl

accepted_now :
    (symbol seq : ℕ) (frame : List ℕ) (s : SeqState) (feed : UdpFeed)
    → s.expected ≡ seq
    → s.pending ≡ []
    → accept_frame symbol seq frame s feed
      ≡ put_state symbol
          (record s { expected = add64 s.expected 1 })
          (parse_frame frame feed.log)
          feed
unfolding accept_frame consume
accepted_now symbol seq frame s feed e empty =
    let not_late : ltb seq s.expected ≡ false = ground arith in
    let not_early : ltb s.expected seq ≡ false = ground arith in
    let out =
      drain-nothing (record s { expected = add64 s.expected 1 }) (parse_frame frame feed.log)
        empty in
    rw not_late (rw not_early (rw out refl))

accepted_early :
    (symbol seq : ℕ) (frame : List ℕ) (s : SeqState) (feed : UdpFeed)
    → s.expected < seq
    → accept_frame symbol seq frame s feed
      ≡ record (put_state symbol
          (keep_early feed.reorder_window seq frame s)
          (gap symbol s.expected seq ∷ feed.log)
          feed) { gaps_detected = add64 feed.gaps_detected 1 }
unfolding accept_frame
accepted_early symbol seq frame s feed ahead =
    let not_late : ltb seq s.expected ≡ false = ground arith in
    let early : ltb s.expected seq ≡ true = ground arith in rw not_late (rw early refl)

keep_early-expected :
    (window seq : ℕ) (frame : List ℕ) (s : SeqState)
    → (keep_early window seq frame s).expected ≡ s.expected
unfolding keep_early
keep_early-expected window seq frame s = ground arith

-- What a message does to the log of the callbacks: a tick and a bar reach theirs as they are, and no
-- callback takes the other messages.
abbrev pub Reports : DecodedMessage → List FeedEvent → List FeedEvent → Type 0
Reports (tick bytes) before after = after ≡ tick_received bytes ∷ before
Reports (bar bytes) before after = after ≡ bar_received bytes ∷ before
Reports (heartbeat bytes) before after = after ≡ before
Reports (subscribe bytes) before after = after ≡ before
Reports (ack bytes) before after = after ≡ before

Reports-dispatch_decoded :
    (msg : DecodedMessage) (log : List FeedEvent)
    → Reports msg log (dispatch_decoded (accepted msg) log)
unfolding dispatch_decoded
Reports-dispatch_decoded (tick bytes) log = refl
Reports-dispatch_decoded (bar bytes) log = refl
Reports-dispatch_decoded (heartbeat bytes) log = refl
Reports-dispatch_decoded (subscribe bytes) log = refl
Reports-dispatch_decoded (ack bytes) log = refl

-- (For a message of the size of its struct, a 32-bit symbol and a 64-bit number.)
-- A published message whose number is the one that the subscriber expects of the symbol, with no
-- frame waiting: a tick reaches the tick callback and a bar the bar callback, once and as it was, any
-- other message no callback; no gap is counted, and the subscriber expects the next number.
pub handle_datagram-publish :
    (symbol : ℕ) (msg : DecodedMessage) (sender feed : UdpFeed)
    → symbol < 2 ^ 32
    → sender.next_seq < 2 ^ 64
    → IsWhole msg
    → (state_of symbol feed).expected ≡ sender.next_seq
    → (state_of symbol feed).pending ≡ []
    → let out = handle_datagram (publish symbol msg sender).0 feed in
      Reports msg feed.log out.log
      × ((state_of symbol out).expected ≡ add64 sender.next_seq 1)
      × (out.gaps_detected ≡ feed.gaps_detected)
unfolding publish put_state
handle_datagram-publish symbol msg sender feed h k whole next empty =
    let s = state_of symbol feed in
    let out =
      handled symbol sender.next_seq (encode msg max_frame_size) feed h k
      ∙ accepted_now symbol sender.next_seq (encode msg max_frame_size) s feed next empty in
    rw out (
      subst (Reports msg feed.log) (sym (parsed msg feed.log whole))
          (Reports-dispatch_decoded msg feed.log),
      ap (λ t. t.expected) (state_of-stored symbol _ feed _ refl) ∙ ap (λ n. add64 n 1) next,
      refl,
    )

-- (For a 32-bit symbol and a 64-bit number.)
-- A published message whose number is beyond the one that the subscriber expects of the symbol: a
-- gap is reported, nothing is dispatched, and the subscriber expects the same number as before.
pub handle_datagram-ahead :
    (symbol : ℕ) (msg : DecodedMessage) (sender feed : UdpFeed)
    → symbol < 2 ^ 32
    → sender.next_seq < 2 ^ 64
    → (state_of symbol feed).expected < sender.next_seq
    → let out = handle_datagram (publish symbol msg sender).0 feed in
      (out.log ≡ gap symbol (state_of symbol feed).expected sender.next_seq ∷ feed.log)
      × ((state_of symbol out).expected ≡ (state_of symbol feed).expected)
unfolding publish put_state
handle_datagram-ahead symbol msg sender feed h k ahead =
    let s = state_of symbol feed in
    let out =
      handled symbol sender.next_seq (encode msg max_frame_size) feed h k
      ∙ accepted_early symbol sender.next_seq (encode msg max_frame_size) s feed ahead in
    rw out (
      refl,
      ap (λ t. t.expected) (state_of-stored symbol _ feed _ refl)
          ∙ keep_early-expected feed.reorder_window sender.next_seq (encode msg max_frame_size) s,
    )
