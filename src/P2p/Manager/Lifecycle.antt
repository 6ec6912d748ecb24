-- ===== src/P2p/Manager/Lifecycle.antt =====
-- What the tasks of crates/wolfe-p2p/src/manager.rs keep in the shared tables, and which events they
-- send, in every interleaving.
use bitcoin_wolfe.Prelude.{
  ℕ, ◌+◌, ◌^◌, ◌≤◌, ◌<◌, ◌≡◌, ◌≢◌, refl, sym, ap, ◌∙◌, [], ◌∷◌, ◌++◌, if_neg, arith, ℕ_discrete,
}
use mathlib.Core.Path.{subst}
use bitcoin_wolfe.Map.{MapOps, get-insert_self, get-insert_ne}
use bitcoin_wolfe.P2p.Peer.{Peer}
use bitcoin_wolfe.P2p.Connection.{HandshakeLib, PeerConnection, peer_connection}
use bitcoin_wolfe.P2p.Manager.{
  message_event, Stage, idle, dialing, failed, shaken, looping, closing, PeerManager, new, spawn,
  put_stage, advance, advance_from, Step, accepted, dialed, shook, refused, advanced, heard,
  updated, ended, Reach, here, next,
}
use bitcoin_wolfe.P2p.Manager.View.{
  unknown, follow_all, follow_all-snoc, view_of, Orderly, view_of-Orderly, Owned, view, IsKept,
  Stands, advance_from-others, update_self, put_stage-Stands, advance_from_self, advance_from-next,
}

module _ (P : HandshakeLib) (Peers : MapOps ℕ_discrete Peer) (Marks : MapOps ℕ_discrete (Unit {0}))
    (nonce : ℕ → ℕ) (distinct : (i j : ℕ) → nonce i ≡ nonce j → i ≡ j) where
  -- A step that only the task `id` sees.
  step-IsKept :
      (id : ℕ) (s t : PeerManager P Peers Marks)
      → IsKept P Peers Marks nonce distinct s
      → s.next_peer_id ≤ t.next_peer_id
      → ((k : ℕ)
          → id ≢ k
          → (view P Peers Marks nonce distinct t k ≡ view P Peers Marks nonce distinct s k)
            × (t.stage k ≡ s.stage k))
      → Stands P Peers Marks nonce distinct id (t.stage id) t
      → (t.next_peer_id ≤ id → t.stage id ≡ idle)
      → IsKept P Peers Marks nonce distinct t
  step-IsKept id s t i grows others here_ quiet = record {
    kept = λ k. elim (ℕ_discrete id k) [
      | yes e ↦ subst (λ j. view P Peers Marks nonce distinct t j ≡ view_of (t.stage j)) e here_.0
      | no ne ↦ (others k ne).0 ∙ i.kept k ∙ ap view_of (sym (others k ne).1)
    ];
    owned = λ k. elim (ℕ_discrete id k) [
      | yes e ↦ subst (λ j. Owned j (nonce j) (t.stage j)) e here_.1
      | no ne ↦ subst (Owned k (nonce k)) (sym (others k ne).1) (i.owned k)
    ];
    fresh = λ k above. elim (ℕ_discrete id k) [
      | yes e ↦
          subst (λ j. t.stage j ≡ idle) e (quiet (subst (λ j. t.next_peer_id ≤ j) (sym e) above))
      | no ne ↦ (others k ne).1 ∙ i.fresh k (omega (arith, grows, above))
    ];
  }

  advance-IsKept :
      (id : ℕ) (s : PeerManager P Peers Marks)
      → IsKept P Peers Marks nonce distinct s
      → IsKept P Peers Marks nonce distinct (advance P Peers Marks id s)
  unfolding advance
  advance-IsKept id s i =
      let st = s.stage id in
      step-IsKept id s (advance_from P Peers Marks id st s) i
        (omega (arith, advance_from-next P Peers Marks nonce distinct id st s))
        (λ k ne. advance_from-others P Peers Marks nonce distinct id st s k ne (i.owned id))
        (advance_from_self P Peers Marks nonce distinct id st s refl (i.kept id, i.owned id))
        λ above.
          let unused =
            i.fresh id
              (omega (arith, advance_from-next P Peers Marks nonce distinct id st s, above)) in
          ap (λ x. (advance_from P Peers Marks id x s).stage id) unused ∙ unused

  -- A task that moves to another stage, which says the same of the tables.
  put_stage-IsKept :
      (id : ℕ) (st : Stage) (s : PeerManager P Peers Marks)
      → IsKept P Peers Marks nonce distinct s
      → s.stage id ≢ idle
      → view_of (s.stage id) ≡ view_of st
      → Owned id (nonce id) st
      → IsKept P Peers Marks nonce distinct (put_stage P Peers Marks id st s)
  unfolding put_stage
  put_stage-IsKept id st s i busy same o =
      step-IsKept id s (put_stage P Peers Marks id st s) i (omega arith)
        (λ k ne. (refl, if_neg (ℕ_discrete id k) ne st (s.stage k)))
        (put_stage-Stands P Peers Marks nonce distinct id st s (i.kept id ∙ same, o))
        λ above. absurd (busy (i.fresh id above))

  spawn-IsKept :
      (s : PeerManager P Peers Marks)
      → IsKept P Peers Marks nonce distinct s
      → s.next_peer_id + 1 < 2 ^ 64
      → IsKept P Peers Marks nonce distinct (spawn P Peers Marks s)
  unfolding spawn
  spawn-IsKept s i small =
      let id = s.next_peer_id in
      step-IsKept id s (spawn P Peers Marks s) i (omega (arith, small))
        (λ k ne. (refl, if_neg (ℕ_discrete id k) ne dialing (s.stage k)))
        (rw (update_self P Peers Marks nonce distinct s.stage id dialing)
          (i.kept id ∙ ap view_of (i.fresh id (omega arith)), tt))
        λ above. absurd (omega (arith, small, above))

  -- A step of a loop, which stays in its stage.
  loop-IsKept :
      (id : ℕ) (c : PeerConnection) (s t : PeerManager P Peers Marks)
      → IsKept P Peers Marks nonce distinct s
      → s.stage id ≡ looping c
      → t.stage ≡ s.stage
      → t.next_peer_id ≡ s.next_peer_id
      → ((k : ℕ)
          → id ≢ k
          → view P Peers Marks nonce distinct t k ≡ view P Peers Marks nonce distinct s k)
      → (view P Peers Marks nonce distinct s id ≡ view_of (looping c)
          → view P Peers Marks nonce distinct t id ≡ view_of (looping c))
      → IsKept P Peers Marks nonce distinct t
  loop-IsKept id c s t i at same count others self =
      let there : t.stage id ≡ looping c = ap (λ f. f id) same ∙ at in
      step-IsKept id s t i (omega (arith, count)) (λ k ne. (others k ne, ap (λ f. f k) same))
        (
          self (i.kept id ∙ ap view_of at) ∙ ap view_of (sym there),
          subst (Owned id (nonce id)) (sym (ap (λ f. f id) same)) (i.owned id),
        )
        λ above. ap (λ f. f id) same ∙ i.fresh id (omega (arith, count, above))

  looping-apart : (c : PeerConnection) → Stage.looping c ≢ idle
  looping-apart c e = ground (arith, e)

  dialing-apart : Stage.dialing ≢ idle
  dialing-apart e = ground (arith, e)

  -- The number of ids that a step takes.
  abbrev pub cost : {s t : PeerManager P Peers Marks} → Step P Peers Marks nonce s t → ℕ
  cost (accepted before room) = 1
  cost (dialed before room) = 1
  cost _ = 0

  Step-IsKept :
      {s t : PeerManager P Peers Marks} (step : Step P Peers Marks nonce s t)
      → IsKept P Peers Marks nonce distinct s
      → s.next_peer_id + cost step < 2 ^ 64
      → IsKept P Peers Marks nonce distinct t × (t.next_peer_id ≡ s.next_peer_id + cost step)
  unfolding spawn put_stage advance
  Step-IsKept {s} (accepted before room) i small = (spawn-IsKept s i small, omega (arith, small))
  Step-IsKept {s} (dialed before room) i small = (spawn-IsKept s i small, omega (arith, small))
  Step-IsKept {s} (shook id inbound addr now ours theirs at own) i small =
      let c = peer_connection P inbound addr id now ours theirs in
      (
        put_stage-IsKept id (shaken c) s i (λ e. dialing-apart (sym at ∙ e)) (ap view_of at)
            (unfold peer_connection in (refl, own)),
        omega arith,
      )
  Step-IsKept {s} (refused id at) i small = (
    put_stage-IsKept id failed s i (λ e. dialing-apart (sym at ∙ e)) (ap view_of at) tt,
    omega arith,
  )
  Step-IsKept (advanced s id) i small = (
    advance-IsKept id s i,
    omega (arith, advance_from-next P Peers Marks nonce distinct id (s.stage id) s),
  )
  Step-IsKept {s} (heard id c msg at) i small = (
    loop-IsKept id c s (record s { events = s.events ++ message_event id msg ∷ [] }) i at refl refl
        (λ k ne. ground (arith, ne, follow_all-snoc k unknown s.events (message_event id msg)))
        (λ v. ground (arith, v, follow_all-snoc id unknown s.events (message_event id msg))),
    omega arith,
  )
  Step-IsKept {s} (updated id c p at) i small = (
    loop-IsKept id c s (record s { peers = Peers.insert s.peers id p }) i at refl refl
        (λ k ne. ground (arith, get-insert_ne Peers s.peers id k p ne))
        (λ v. ground (arith, v, get-insert_self Peers s.peers id p)),
    omega arith,
  )
  Step-IsKept {s} (ended id c at) i small = (
    put_stage-IsKept id (closing c) s i (λ e. looping-apart c (sym at ∙ e)) (ap view_of at)
        (subst (Owned id (nonce id)) at (i.owned id)),
    omega arith,
  )

  -- The number of peer ids that have been handed out.
  abbrev pub handed_out : {s t : PeerManager P Peers Marks} → Reach P Peers Marks nonce s t → ℕ
  handed_out here = 0
  handed_out (next r step) = handed_out r + cost step

  new-IsKept :
      (max_inbound max_outbound : ℕ)
      → IsKept P Peers Marks nonce distinct (new P Peers Marks max_inbound max_outbound)
  unfolding new follow_all
  new-IsKept max_inbound max_outbound = record {
    kept = λ k. ground (arith, Peers.get-empty k, Marks.get-empty k, Marks.get-empty (nonce k));
    owned = λ k. tt;
    fresh = λ k above. refl;
  }

  pub Reach-IsKept :
      (max_inbound max_outbound : ℕ) {s : PeerManager P Peers Marks}
      (r : Reach P Peers Marks nonce (new P Peers Marks max_inbound max_outbound) s)
      → handed_out r + 1 < 2 ^ 64
      → IsKept P Peers Marks nonce distinct s × (s.next_peer_id ≡ handed_out r + 1)
  unfolding new
  Reach-IsKept max_inbound max_outbound here small = (new-IsKept max_inbound max_outbound, refl)
  Reach-IsKept max_inbound max_outbound (next r step) small =
      let (i, count) = Reach-IsKept max_inbound max_outbound r (omega (arith, small)) in
      let (i', count') = Step-IsKept step i (omega (arith, small, count)) in
      (i', omega (arith, count, count'))

  -- In every interleaving of the tasks, whatever peers connect, send and leave, the tables and the
  -- events say of each peer id what the stage of its task says: the node hears that the peer is
  -- connected, then its messages, then that it is gone; a peer with a sender is in `peers`; and
  -- when it is gone, its entries and its nonce are. The nonces of the tasks are distinct, and fewer
  -- than 2^64 - 1 ids have been handed out.
  pub Reach-Orderly :
      (max_inbound max_outbound id : ℕ) {s : PeerManager P Peers Marks}
      (r : Reach P Peers Marks nonce (new P Peers Marks max_inbound max_outbound) s)
      → handed_out r + 1 < 2 ^ 64
      → (view P Peers Marks nonce distinct s id ≡ view_of (s.stage id))
        × Orderly (view P Peers Marks nonce distinct s id)
  Reach-Orderly max_inbound max_outbound id {s} r small =
      let at = (Reach-IsKept max_inbound max_outbound r small).0.kept id in
      (at, subst Orderly (sym at) (view_of-Orderly (s.stage id)))
