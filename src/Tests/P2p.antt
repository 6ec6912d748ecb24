-- ===== src/Tests/P2p.antt =====
-- The peer-to-peer protocol of crates/wolfe-p2p on concrete messages.
use bitcoin_wolfe.Prelude.{
  ℕ, ◌+◌, ◌*◌, ◌≤◌, ◌<◌, ◌≡◌, ◌≢◌, ◌⊎◌, refl, true, false, none, some, List, [], ◌∷◌, ◌++◌, arith,
  length, drop, replicate, take, ltb, if◌then◌else◌, ℕ_discrete,
}
use bitcoin_wolfe.Bytes.{Bytes, bytes_discrete, to_le_bytes}
use bitcoin_wolfe.P2p.Stream.{
  Stream, err, ok, message_too_large, unexpected_eof, read, read_exact, piece,
}
use bitcoin_wolfe.P2p.Codec.{
  read_message, read_header, payload_len, max_message_size, decoded, position, tail,
}
use bitcoin_wolfe.P2p.Codec.Frames.{read_message-frame, write_all, read_all, read_all-write_all}
use bitcoin_wolfe.P2p.Codec.Resync.{Found, read_header-Found}
use bitcoin_wolfe.P2p.Codec.Drops.{second_window, read_header_drops}
use bitcoin_wolfe.P2p.Peer.{VersionMessage, NetworkMessage, verack, ping, tx, Peer}
use bitcoin_wolfe.P2p.Connection
use bitcoin_wolfe.P2p.Connection.{Socket, connect_on, accept_inner, peer_connection}
use bitcoin_wolfe.P2p.Connection.Sound.{Greeted, connect_on-Greeted}
use bitcoin_wolfe.P2p.Connection.Verack.{incoming, greeting, handshake_both}
use bitcoin_wolfe.P2p.Loop.{Loop, Event, write, received, tick, run, max_protocol_messages_per_sec}
use bitcoin_wolfe.P2p.Loop.Forward.{forwarded}
use bitcoin_wolfe.P2p.Loop.Reads.{
  Branch, receives, sends, for_node, read_events, MayEnd, run-write_all,
}
use bitcoin_wolfe.P2p.Loop.Liveness.{run-unanswered}
use bitcoin_wolfe.P2p.Loop.Rate.{handled, run-rate}
use bitcoin_wolfe.Tests.Wire.{codec, handshake}

abbrev magic₀ : Bytes
magic₀ = 249 ∷ 190 ∷ 180 ∷ 217 ∷ []

abbrev stream : Bytes → Stream
stream b = record { bytes = b; pieces = [] }

-- A frame whose header counts 5 bytes of payload, of which three come.
abbrev cut_short : Stream
cut_short = stream (magic₀ ++ (replicate 12 0 ++ (5 ∷ 0 ∷ 0 ∷ 0 ∷ 1 ∷ 1 ∷ 1 ∷ 1 ∷ 2 ∷ 9 ∷ 9 ∷ [])))

read_message-frame_example : read_message codec magic₀ cut_short ≡ (
    if ltb (length cut_short.bytes) 24
    then err unexpected_eof (record cut_short { bytes = [] })
    else if ltb max_message_size (payload_len (take 24 cut_short.bytes))
    then err
        (message_too_large (payload_len (take 24 cut_short.bytes)))
        (record cut_short { bytes = drop 24 cut_short.bytes })
    else if ltb (length cut_short.bytes) (24 + payload_len (take 24 cut_short.bytes))
    then err unexpected_eof (record cut_short { bytes = [] })
    else decoded codec
        (codec.consensus_decode (take (24 + payload_len (take 24 cut_short.bytes)) cut_short.bytes))
        (record cut_short {
          bytes = drop (24 + payload_len (take 24 cut_short.bytes)) cut_short.bytes;
        }))
read_message-frame_example = read_message-frame codec magic₀ cut_short refl

abbrev two_messages : List NetworkMessage
two_messages = ping 5 ∷ tx (1 ∷ 2 ∷ []) ∷ []

read_all-write_all_example :
    read_all codec magic₀ 2 (stream (write_all codec magic₀ [] two_messages ++ 7 ∷ []))
    ≡ ok (two_messages, stream (7 ∷ []))
read_all-write_all_example =
    read_all-write_all codec magic₀ two_messages (7 ∷ []) [] refl (omega arith, (omega arith, tt))

-- 25 bytes before a frame that arrives with six bytes more than its header.
abbrev shifted : Stream
shifted = stream (replicate 25 1 ++ (magic₀ ++ replicate 26 0))

read_header-Found_example : Found magic₀ shifted.bytes (read_header magic₀ shifted)
read_header-Found_example = read_header-Found magic₀ shifted refl

unfoldable search_window : Unit {0}
unfolding position tail read piece bytes_discrete ℕ_discrete
search_window = tt

no_magic : position magic₀ (take 24 shifted.bytes) ≡ none
unfolding search_window
no_magic = refl

magic_at : position magic₀ (second_window shifted) ≡ some 4
unfolding search_window
magic_at = refl

window_fits : 4 + 24 < length (second_window shifted)
unfolding search_window
window_fits = omega arith

read_header_drops_example :
    (lost : Bytes) × (lost ≢ [])
    × (read_header magic₀ shifted
        ≡ ok (
          take 24 (drop 4 (second_window shifted)),
          (read 512 (record shifted { bytes = drop 24 shifted.bytes })).1,
        ))
    × (drop 4 (second_window shifted) ≡ take 24 (drop 4 (second_window shifted)) ++ lost)
read_header_drops_example =
    read_header_drops magic₀ shifted 4 (omega arith) (ground arith) no_magic magic_at window_fits

abbrev ours : VersionMessage
ours = record {
  version = 70016;
  services = 9;
  user_agent = [];
  start_height = 100;
  relay = true;
  nonce = 11;
}

abbrev theirs : VersionMessage
theirs = record ours { start_height = 200; nonce = 22 }

handshake_both_example :
    (connect_on handshake magic₀ [] 1 50 ours
        (incoming handshake magic₀ (greeting handshake theirs) [] [] [])
      ≡ Connection.ok (
        peer_connection handshake false [] 1 50 ours theirs,
        incoming handshake magic₀ [] [] [] (write_all codec magic₀ [] (greeting handshake ours)),
      ))
    × (accept_inner handshake magic₀ [] 2 60 theirs
          (incoming handshake magic₀ (greeting handshake ours) [] [] [])
        ≡ Connection.ok (
          peer_connection handshake true [] 2 60 theirs ours,
          incoming handshake magic₀ [] [] []
              (write_all codec magic₀ [] (greeting handshake theirs)),
        ))
handshake_both_example =
    handshake_both handshake magic₀ [] [] 1 2 50 60 [] [] ours theirs refl (omega arith)
      (omega arith) (omega arith)

connect_on-Greeted_example :
    (v : VersionMessage) × (peer_connection handshake false [] 1 50 ours theirs
      ≡ peer_connection handshake false [] 1 50 ours v)
    × Greeted handshake magic₀ v
        (stream (write_all codec magic₀ [] (greeting handshake theirs) ++ []))
        (stream (write_all codec magic₀ [] [] ++ []))
connect_on-Greeted_example =
    connect_on-Greeted handshake magic₀ [] 1 50 ours
      (incoming handshake magic₀ (greeting handshake theirs) [] [] [])
      (incoming handshake magic₀ [] [] [] (write_all codec magic₀ [] (greeting handshake ours)))
      (peer_connection handshake false [] 1 50 ours theirs) handshake_both_example.0

abbrev connected : Peer
connected = record {
  info = record {
    id = 1;
    addr = [];
    user_agent = [];
    version = 70016;
    services = 9;
    start_height = 200;
    relay = true;
    inbound = false;
    v2_transport = false;
    connected_at = 0;
  };
  last_seen = 0;
  last_ping = none;
  ping_nonce = none;
  ping_latency_ms = none;
  bytes_sent = 0;
  bytes_received = 0;
  misbehavior_score = 0;
  syncing_headers = false;
  syncing_blocks = false;
}

abbrev start : Loop
start = record { peer = some connected; rate_window_start = 0; rate_count = 0 }

abbrev rounds : List (ℕ × Event)
rounds = (5, received (ping 3) true) ∷ (6, received (tx []) true) ∷ (7, received verack true) ∷ []

abbrev branches : List (ℕ × Branch)
branches = (5, receives true) ∷ (6, sends 0 verack true) ∷ (7, receives true) ∷ []

run-write_all_example :
    (left : List NetworkMessage) × (for_node handshake two_messages
      ≡ forwarded
          (run start (
            read_events handshake magic₀
              (stream (write_all codec magic₀ [] two_messages ++ []))
              branches)).0
        ++ left)
    × ((((run start (
              read_events handshake magic₀
                (stream (write_all codec magic₀ [] two_messages ++ []))
                branches)).1
            ≡ none)
          × MayEnd handshake 0 branches)
        ⊎ (left ≡ []))
run-write_all_example =
    run-write_all handshake magic₀ two_messages [] [] branches start refl
      (omega arith, (omega arith, tt)) (refl, tt) (omega arith)

-- A `recv` that is dropped behind the header takes the message with it, and the loop ends.
header_lost :
    run start (
      read_events handshake magic₀
        (stream (write_all codec magic₀ [] (tx (1 ∷ 2 ∷ []) ∷ [])))
        ((5, sends 24 verack true) ∷ (6, receives true) ∷ []))
    ≡ (write verack ∷ [], none)
unfolding run read_events write_all search_window read_exact to_le_bytes
header_lost = refl

run-unanswered_example :
    (run start ((120000000000, tick 77 true) ∷ (rounds ++ (240000000000, tick 78 true) ∷ []))).1
    ≡ none
run-unanswered_example =
    run-unanswered 120000000000 77 240000000000 78 true true rounds [] start connected refl
      (tt, (tt, (tt, tt))) (omega arith)

nothing_before : (run start []).1 ≡ some start
unfolding run
nothing_before = refl

run-rate_example : handled (run start rounds).0 ≤ 2 * max_protocol_messages_per_sec
run-rate_example =
    run-rate 0 start start [] rounds refl nothing_before
      ((omega arith, omega arith), ((omega arith, omega arith), ((omega arith, omega arith), tt)))
