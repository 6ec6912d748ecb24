-- ===== src/Tests/Manager.antt =====
-- The registry of crates/wolfe-p2p/src/manager.rs: an inbound and an outbound connection.
use bitcoin_wolfe.Prelude.{
  ℕ, ◌+◌, ◌^◌, ◌<◌, ◌≡◌, ◌≢◌, refl, true, false, some, [], arith, ℕ_discrete,
}
use bitcoin_wolfe.Map.{MapOps}
use bitcoin_wolfe.Map.Assoc.{lookup, without}
use bitcoin_wolfe.Map.Entries.{entries_map, dedup, insert_entry}
use bitcoin_wolfe.P2p.Peer.{Peer, VersionMessage}
use bitcoin_wolfe.P2p.Connection.{PeerConnection, peer_connection}
use bitcoin_wolfe.P2p.Manager.{
  Stage, PeerManager, new, spawn, put_stage, advance, accepted, dialed, shook, advanced, Reach,
  here, next, inbound_count, outbound_count,
}
use bitcoin_wolfe.P2p.Manager.View.{view, view_of, Orderly}
use bitcoin_wolfe.P2p.Manager.Lifecycle.{handed_out, Reach-Orderly}
use bitcoin_wolfe.P2p.Manager.SelfConnection.{accepted_as, self_connection_dropped}
use bitcoin_wolfe.Tests.Wire.{handshake}

abbrev peers : MapOps ℕ_discrete Peer
peers = entries_map ℕ_discrete

abbrev marks : MapOps ℕ_discrete (Unit {0})
marks = entries_map ℕ_discrete

abbrev nonce : ℕ → ℕ
nonce k = k + 100

nonces_distinct : (i j : ℕ) → nonce i ≡ nonce j → i ≡ j
nonces_distinct i j e = omega arith

abbrev hello : ℕ → VersionMessage
hello n = record {
  version = 70016;
  services = 9;
  user_agent = [];
  start_height = 100;
  relay = true;
  nonce = n;
}

abbrev Manager : Type 0
Manager = PeerManager handshake peers marks

abbrev s₀ : Manager
s₀ = new handshake peers marks 125 10

abbrev s₁ : Manager
s₁ = spawn handshake peers marks s₀

abbrev s₂ : Manager
s₂ = spawn handshake peers marks s₁

-- The peer of task 1 has the nonce of task 2, but the peer of task 2 has its own.
abbrev first : PeerConnection
first = peer_connection handshake true [] 1 50 (hello 101) (hello 102)

abbrev second : PeerConnection
second = peer_connection handshake false [] 2 50 (hello 102) (hello 7)

abbrev s₃ : Manager
s₃ = put_stage handshake peers marks 1 (Stage.shaken first) s₂

abbrev s₄ : Manager
s₄ = put_stage handshake peers marks 2 (Stage.shaken second) s₃

abbrev s₆ : Manager
s₆ = advance handshake peers marks 1 (advance handshake peers marks 1 s₄)

abbrev s₈ : Manager
s₈ = advance handshake peers marks 2 (advance handshake peers marks 2 s₆)

unfoldable program : Unit {0}
unfolding new spawn put_stage advance inbound_count outbound_count lookup without dedup insert_entry
    ℕ_discrete peer_connection
program = tt

dialing_1 : s₂.stage 1 ≡ Stage.dialing
unfolding program
dialing_1 = refl

dialing_2 : s₃.stage 2 ≡ Stage.dialing
unfolding program
dialing_2 = refl

room₀ : inbound_count handshake peers marks s₀ < s₀.max_inbound
unfolding program
room₀ = omega arith

room₁ : outbound_count handshake peers marks s₁ < s₁.max_outbound
unfolding program
room₁ = omega arith

abbrev history : Reach handshake peers marks nonce s₀ s₈
history =
    next
      (next
        (next
          (next
            (next
              (next (next (next here (accepted s₀ room₀)) (dialed s₁ room₁))
                (shook 1 true [] 50 (hello 101) (hello 102) dialing_1 refl))
              (shook 2 false [] 50 (hello 102) (hello 7) dialing_2 refl))
            (advanced s₄ 1))
          (advanced (advance handshake peers marks 1 s₄) 1))
        (advanced s₆ 2))
      (advanced (advance handshake peers marks 2 s₆) 2)

few : handed_out handshake peers marks nonce nonces_distinct history + 1 < 2 ^ 64
few = omega arith

Reach-Orderly_example :
    (view handshake peers marks nonce nonces_distinct s₈ 1 ≡ view_of (s₈.stage 1))
    × Orderly (view handshake peers marks nonce nonces_distinct s₈ 1)
Reach-Orderly_example =
    Reach-Orderly handshake peers marks nonce nonces_distinct 125 10 1 history few

accepted_1 : accepted_as (s₈.stage 1) ≡ some first
unfolding program
accepted_1 = refl

accepted_2 : accepted_as (s₈.stage 2) ≡ some second
unfolding program
accepted_2 = refl

their_nonce_1 : first.their_nonce ≡ nonce 2
unfolding program
their_nonce_1 = refl

self_connection_dropped_example : second.their_nonce ≢ nonce 1
self_connection_dropped_example =
    self_connection_dropped handshake peers marks nonce nonces_distinct 125 10 1 2 first second
      history few accepted_1 accepted_2 their_nonce_1
