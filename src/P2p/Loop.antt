-- ===== src/P2p/Loop.antt =====
-- `run_peer_loop` of crates/wolfe-p2p/src/manager.rs: one event for each round of `tokio::select!`,
-- which are the branch that it takes, and whether the send of that branch succeeds.
pub mod Liveness
pub mod Rate
pub mod Forward
pub mod Ending
pub mod Reads
use bitcoin_wolfe.Prelude.{
  ℕ, ◌+◌, ◌-◌, ◌*◌, ◌/◌, ◌==◌, ◌≡◌, ◌⊎◌, inl, inr, refl, Bool, true, false, ◌&&◌, Option, none,
  some, List, [], ◌∷◌, ◌++◌, ltb, leb, if◌then◌else◌,
}
use bitcoin_wolfe.P2p.Stream.{P2pError, encode}
use bitcoin_wolfe.P2p.Peer.{NetworkMessage, block, tx, headers, ping, pong, Peer, second}

abbrev pub ping_timeout : ℕ
ping_timeout = 60 * second

abbrev pub max_protocol_messages_per_sec : ℕ
max_protocol_messages_per_sec = 2000

-- The entry of the peer in `peers`, and the variables of the loop.
pub record Loop : Type 0 where
  pub peer : Option Peer
  pub rate_window_start : ℕ
  pub rate_count : ℕ

-- `received` has a message, and whether the pong or the event after it is sent; `tick` has the random
-- nonce of its ping.
pub data Event : Type 0 where
  read_timed_out : Event
  received : NetworkMessage → Bool → Event
  recv_failed : P2pError → Event
  outbound : NetworkMessage → Bool → Event
  tick : ℕ → Bool → Event

-- What the loop has sent: a pong, a ping, a message of the node, or a message to the node.
pub data Action : Type 0 where
  reply probe : ℕ → Action
  write forward : NetworkMessage → Action

pub data Outcome : Type 0 where
  next : Loop → List Action → Outcome
  break : Outcome

unfoldable pub is_data_msg : NetworkMessage → Bool
is_data_msg (block b) = true
is_data_msg (tx b) = true
is_data_msg (headers b) = true
is_data_msg _ = false

-- The window that a message at `now` falls in.
unfoldable pub window_at : ℕ → Loop → Loop
window_at now l =
    if leb second (now - l.rate_window_start)
    then record l { rate_window_start = now; rate_count = 0 }
    else l

-- The rate limit, none where it is exceeded.
unfoldable pub limit : ℕ → Loop → Option Loop
unfolding window_at
limit now l =
    let w = window_at now l in
    if ltb max_protocol_messages_per_sec (w.rate_count + 1)
    then none
    else some (record w { rate_count = w.rate_count + 1 })

unfoldable pub limited : ℕ → Loop → NetworkMessage → Option Loop
unfolding is_data_msg limit
limited now l msg = if is_data_msg msg then some l else limit now l

unfoldable pub with_peer : (Peer → Peer) → Loop → Loop
with_peer f l = record l { peer = elim l.peer [ none ↦ none | some p ↦ some (f p) ] }

unfoldable pub see : ℕ → Peer → Peer
see now p = record p { last_seen = now }

-- The time since the ping, in milliseconds.
unfoldable pub latency : ℕ → Option ℕ → Option ℕ → Option ℕ
latency now none before = before
latency now (some sent) before = some ((now - sent) / 1000000)

unfoldable pub is_nonce : Option ℕ → ℕ → Bool
is_nonce none nonce = false
is_nonce (some n) nonce = n == nonce

unfoldable pub on_pong : ℕ → ℕ → Peer → Peer
unfolding latency is_nonce
on_pong now nonce p =
    if is_nonce p.ping_nonce nonce
    then record p { ping_latency_ms = latency now p.last_ping p.ping_latency_ms; ping_nonce = none }
    else p

unfoldable pub sent : Loop → Bool → Action → Outcome
sent l true action = next l (action ∷ [])
sent l false action = break

unfoldable pub dispatch : ℕ → Loop → NetworkMessage → Bool → Outcome
unfolding sent with_peer on_pong
dispatch now l (ping nonce) success = sent l success (reply nonce)
dispatch now l (pong nonce) success = next (with_peer (on_pong now nonce) l) []
dispatch now l msg success = sent l success (forward msg)

unfoldable pub on_message : ℕ → Option Loop → NetworkMessage → Bool → Outcome
unfolding dispatch with_peer see
on_message now none msg success = break
on_message now (some l) msg success = dispatch now (with_peer (see now) l) msg success

unfoldable pub on_error : Loop → P2pError → Outcome
on_error l encode = next l []
on_error l _ = break

unfoldable pub outstanding : ℕ → Option ℕ → Option ℕ → Bool
outstanding now (some last_ping) (some nonce) = ltb ping_timeout (now - last_ping)
outstanding now _ _ = false

unfoldable pub is_stale : ℕ → Option Peer → Bool
unfolding outstanding
is_stale now none = false
is_stale now (some p) = outstanding now p.last_ping p.ping_nonce

unfoldable pub pinged : ℕ → ℕ → Peer → Peer
pinged now nonce p = record p { last_ping = some now; ping_nonce = some nonce }

unfoldable pub on_tick : ℕ → Loop → ℕ → Bool → Outcome
unfolding is_stale with_peer pinged sent
on_tick now l nonce success =
    if is_stale now l.peer
    then break
    else sent (with_peer (pinged now nonce) l) success (probe nonce)

unfoldable pub step : ℕ → Loop → Event → Outcome
unfolding limited on_message on_error sent on_tick
step now l read_timed_out = break
step now l (received msg success) = on_message now (limited now l msg) msg success
step now l (recv_failed e) = on_error l e
step now l (outbound msg success) = sent l success (write msg)
step now l (tick nonce success) = on_tick now l nonce success

-- The actions of the rounds at their times, and the state after them, none where the loop has ended.
unfoldable pub run : Loop → List (ℕ × Event) → List Action × Option Loop
unfolding step
run l [] = ([], some l)
run l ((now, e) ∷ events) = elim (step now l e) [
  | break ↦ ([], none)
  | next l' actions ↦ let r = run l' events in (actions ++ r.0, r.1)
]

pub Outcome-cases :
    (o : Outcome) → (o ≡ break) ⊎ ((l : Loop) × (actions : List Action) × (o ≡ next l actions))
Outcome-cases break = inl refl
Outcome-cases (next l actions) = inr (l, actions, refl)

pub run-break :
    (now : ℕ) (l : Loop) (e : Event) (events : List (ℕ × Event))
    → step now l e ≡ break
    → run l ((now, e) ∷ events) ≡ ([], none)
unfolding run
run-break now l e events b = rw (b, run) refl

pub run-next :
    (now : ℕ) (l l' : Loop) (e : Event) (actions : List Action) (events : List (ℕ × Event))
    → step now l e ≡ next l' actions
    → run l ((now, e) ∷ events) ≡ (actions ++ (run l' events).0, (run l' events).1)
unfolding run
run-next now l l' e actions events n = rw (n, run) refl
