-- ===== src/P2p/Manager.antt =====
-- The registry of crates/wolfe-p2p/src/manager.rs: the tables that the tasks of `PeerManager` share,
-- and the tasks themselves, one for each connection. A task is known by its peer id. Its operations
-- on the tables are separate steps, and steps of different tasks interleave in any order.
pub mod View
pub mod Lifecycle
pub mod SelfConnection
use bitcoin_wolfe.Prelude.{
  ℕ, zero, suc, ◌+◌, ◌%◌, ◌^◌, ◌<◌, ◌≡◌, Bool, true, false, not, Option, none, some, List, [], ◌∷◌,
  ◌++◌, ite, if◌then◌else◌, ℕ_discrete,
}
use bitcoin_wolfe.Bytes.{Bytes}
use bitcoin_wolfe.Map.{MapOps}
use bitcoin_wolfe.P2p.Stream.{P2pError, channel_closed, disconnected}
use bitcoin_wolfe.P2p.Peer.{VersionMessage, NetworkMessage, PeerInfo, Peer, new_peer}
use bitcoin_wolfe.P2p.Connection.{HandshakeLib, PeerConnection, peer_connection}

-- `Banned` is declared in the source, and sent nowhere.
pub data PeerEvent : Type 0 where
  connected_event : PeerInfo → PeerEvent
  disconnected_event : ℕ → PeerEvent
  message_event : ℕ → NetworkMessage → PeerEvent
  banned_event : ℕ → Bytes → PeerEvent

-- Where the task of a peer id stands: what it does next.
pub data Stage : Type 0 where
  idle dialing failed closed : Stage
  shaken noted dropping passed listed open_to looping closing unsent unlisted unnoted :
      PeerConnection → Stage

abbrev pub is_some {ℓ} : {A : Type ℓ} → Option A → Bool
is_some none = false
is_some (some a) = true

abbrev pub update : (ℕ → Stage) → ℕ → Stage → ℕ → Stage
update f id st k = ite (ℕ_discrete id k) st (f k)

module _ (P : HandshakeLib) (Peers : MapOps ℕ_discrete Peer)
    (Marks : MapOps ℕ_discrete (Unit {0})) where
  pub record PeerManager : Type 0 where
    pub max_inbound : ℕ
    pub max_outbound : ℕ
    pub peers : Peers.Map
    pub peer_senders : Marks.Map
    pub our_nonces : Marks.Map
    pub next_peer_id : ℕ
    pub events : List PeerEvent
    pub stage : ℕ → Stage

  unfoldable pub new : ℕ → ℕ → PeerManager
  new max_inbound max_outbound = record {
    max_inbound = max_inbound;
    max_outbound = max_outbound;
    peers = Peers.empty;
    peer_senders = Marks.empty;
    our_nonces = Marks.empty;
    next_peer_id = 1;
    events = [];
    stage = λ k. idle;
  }

  -- `peers.iter().filter(|p| p.info.inbound).count()`, or its negation.
  unfoldable pub count_peers : Bool → List (ℕ × Peer) → ℕ
  count_peers inbound [] = 0
  count_peers inbound ((id, p) ∷ rest) =
      (if (if inbound then p.info.inbound else not p.info.inbound) then 1 else 0)
      + count_peers inbound rest

  unfoldable pub inbound_count : PeerManager → ℕ
  unfolding count_peers
  inbound_count s = count_peers true (Peers.iter s.peers)

  unfoldable pub outbound_count : PeerManager → ℕ
  unfolding count_peers
  outbound_count s = count_peers false (Peers.iter s.peers)

  -- `next_id`, and the task that then shakes hands under this id.
  unfoldable pub spawn : PeerManager → PeerManager
  spawn s = record s {
    next_peer_id = (s.next_peer_id + 1) % 2 ^ 64;
    stage = update s.stage s.next_peer_id dialing;
  }

  unfoldable pub put_stage : ℕ → Stage → PeerManager → PeerManager
  put_stage id st s = record s { stage = update s.stage id st }

  -- One operation of a task that waits for nobody.
  unfoldable pub advance_from : ℕ → Stage → PeerManager → PeerManager
  unfolding put_stage
  advance_from id (shaken c) s =
      put_stage id (noted c) (record s { our_nonces = Marks.insert s.our_nonces c.our_nonce tt })
  advance_from id (noted c) s =
      put_stage id (if is_some (Marks.get s.our_nonces c.their_nonce) then dropping c else passed c)
        s
  advance_from id (dropping c) s =
      put_stage id failed (record s { our_nonces = Marks.remove s.our_nonces c.our_nonce })
  advance_from id (passed c) s =
      put_stage id (listed c) (record s { peers = Peers.insert s.peers id (new_peer c.info) })
  advance_from id (listed c) s =
      put_stage id (open_to c) (record s { peer_senders = Marks.insert s.peer_senders id tt })
  advance_from id (open_to c) s =
      put_stage id (looping c) (record s { events = s.events ++ connected_event c.info ∷ [] })
  advance_from id (closing c) s =
      put_stage id (unsent c) (record s { peer_senders = Marks.remove s.peer_senders id })
  advance_from id (unsent c) s =
      put_stage id (unlisted c) (record s { peers = Peers.remove s.peers id })
  advance_from id (unlisted c) s =
      put_stage id (unnoted c) (record s { our_nonces = Marks.remove s.our_nonces c.our_nonce })
  advance_from id (unnoted c) s =
      put_stage id closed (record s { events = s.events ++ disconnected_event id ∷ [] })
  advance_from id _ s = s

  unfoldable pub advance : ℕ → PeerManager → PeerManager
  unfolding advance_from
  advance id s = advance_from id (s.stage id) s

  -- A connection is taken, or dialed, after a count of the peers in the state `before`, from which
  -- other tasks may have moved on. `nonce` gives the random nonce of each task. `heard` and `updated`
  -- are the loop of the peer, which passes messages on and writes the entry of the peer, and `ended`
  -- is its end.
  pub data Step (nonce : ℕ → ℕ) : PeerManager → PeerManager → Type 0 where
    accepted :
        {s : PeerManager} (before : PeerManager)
        → inbound_count before < s.max_inbound
        → Step nonce s (spawn s)
    dialed :
        {s : PeerManager} (before : PeerManager)
        → outbound_count before < s.max_outbound
        → Step nonce s (spawn s)
    shook :
        {s : PeerManager} (id : ℕ) (inbound : Bool) (addr : Bytes) (now : ℕ)
        (ours theirs : VersionMessage)
        → s.stage id ≡ dialing
        → ours.nonce ≡ nonce id
        → Step nonce s (put_stage id (shaken (peer_connection P inbound addr id now ours theirs)) s)
    refused :
        {s : PeerManager} (id : ℕ) → s.stage id ≡ dialing → Step nonce s (put_stage id failed s)
    advanced : (s : PeerManager) (id : ℕ) → Step nonce s (advance id s)
    heard :
        {s : PeerManager} (id : ℕ) (c : PeerConnection) (msg : NetworkMessage)
        → s.stage id ≡ looping c
        → Step nonce s (record s { events = s.events ++ message_event id msg ∷ [] })
    updated :
        {s : PeerManager} (id : ℕ) (c : PeerConnection) (p : Peer)
        → s.stage id ≡ looping c
        → Step nonce s (record s { peers = Peers.insert s.peers id p })
    ended :
        {s : PeerManager} (id : ℕ) (c : PeerConnection)
        → s.stage id ≡ looping c
        → Step nonce s (put_stage id (closing c) s)

  -- The states of a manager from its start on.
  pub data Reach (nonce : ℕ → ℕ) (start : PeerManager) : PeerManager → Type 0 where
    here : Reach nonce start start
    next : {s t : PeerManager} → Reach nonce start s → Step nonce s t → Reach nonce start t

  -- With whether the receiver of the channel is still there; none is success.
  unfoldable pub send_result : Option (Unit {0}) → Bool → Option P2pError
  send_result none alive = some disconnected
  send_result (some sender) alive = if alive then none else some channel_closed

  unfoldable pub send_to_peer : PeerManager → ℕ → Bool → Option P2pError
  unfolding send_result
  send_to_peer s peer_id alive = send_result (Marks.get s.peer_senders peer_id) alive
