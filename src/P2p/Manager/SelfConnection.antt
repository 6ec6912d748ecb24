-- ===== src/P2p/Manager/SelfConnection.antt =====
-- How the tasks of crates/wolfe-p2p/src/manager.rs recognise a connection of the node with itself.
use bitcoin_wolfe.Prelude.{
  ℕ, ◌+◌, ◌^◌, ◌<◌, ◌≡◌, ◌≢◌, ◌⊎◌, inl, inr, refl, sym, ap, ◌∙◌, true, false, Option, none, some,
  [], ◌∷◌, ◌++◌, Bool-cases, if_pos, if_neg, arith, ℕ_discrete,
}
use mathlib.Core.Path.{subst}
use mathlib.Core.Bool.{true≢false}
use mathlib.Core.Option.{some-injective}
use bitcoin_wolfe.Map.{MapOps}
use bitcoin_wolfe.P2p.Peer.{Peer, new_peer}
use bitcoin_wolfe.P2p.Connection.{HandshakeLib, PeerConnection, peer_connection}
use bitcoin_wolfe.P2p.Manager.{
  connected_event, disconnected_event, Stage, idle, dialing, failed, closed, shaken, noted,
  dropping, passed, listed, open_to, looping, closing, unsent, unlisted, unnoted, is_some,
  PeerManager, new, spawn, put_stage, advance, advance_from, Step, accepted, dialed, shook, refused,
  advanced, heard, updated, ended, Reach, here, next,
}
use bitcoin_wolfe.P2p.Manager.View.{view_of, IsKept}
use bitcoin_wolfe.P2p.Manager.Lifecycle.{handed_out, Reach-IsKept}

-- The connection of a task that has passed the check of nonces, until its nonce is given up.
abbrev pub accepted_as : Stage → Option PeerConnection
accepted_as (passed c) = some c
accepted_as (listed c) = some c
accepted_as (open_to c) = some c
accepted_as (looping c) = some c
accepted_as (closing c) = some c
accepted_as (unsent c) = some c
accepted_as (unlisted c) = some c
accepted_as _ = none

accepted_nonce :
    (st : Stage) (c : PeerConnection) → accepted_as st ≡ some c → (view_of st).has_nonce ≡ true
accepted_nonce (passed d) c h = refl
accepted_nonce (listed d) c h = refl
accepted_nonce (open_to d) c h = refl
accepted_nonce (looping d) c h = refl
accepted_nonce (closing d) c h = refl
accepted_nonce (unsent d) c h = refl
accepted_nonce (unlisted d) c h = refl
accepted_nonce _ c h = absurd (ground (arith, h))

module _ (P : HandshakeLib) (Peers : MapOps ℕ_discrete Peer) (Marks : MapOps ℕ_discrete (Unit {0}))
    (nonce : ℕ → ℕ) where
  abbrev Manager : Type 0
  Manager = PeerManager P Peers Marks

  -- The check of the task has just let it pass.
  abbrev Checked : Manager → ℕ → PeerConnection → Type 0
  Checked s i c = (s.stage i ≡ noted c) × (is_some (Marks.get s.our_nonces c.their_nonce) ≡ false)

  put_stage-accepted :
      (id : ℕ) (st : Stage) (s : Manager) (i : ℕ) (c : PeerConnection)
      → accepted_as ((put_stage P Peers Marks id st s).stage i) ≡ some c
      → (accepted_as (s.stage i) ≡ some c) ⊎ ((id ≡ i) × (accepted_as st ≡ some c))
  unfolding put_stage
  put_stage-accepted id st s i c h = elim (ℕ_discrete id i) [
    | yes e ↦ inr (e, sym (ap accepted_as (if_pos (ℕ_discrete id i) e st (s.stage i))) ∙ h)
    | no ne ↦ inl (sym (ap accepted_as (if_neg (ℕ_discrete id i) ne st (s.stage i))) ∙ h)
  ]

  -- A task that moves to a stage which accepts no more than the one before.
  moved-accepted :
      (id : ℕ) (st : Stage) (s t : Manager) (i : ℕ) (c : PeerConnection)
      → t.stage ≡ s.stage
      → ((d : PeerConnection) → accepted_as st ≡ some d → accepted_as (s.stage id) ≡ some d)
      → accepted_as ((put_stage P Peers Marks id st t).stage i) ≡ some c
      → accepted_as (s.stage i) ≡ some c
  moved-accepted id st s t i c same less h = elim (put_stage-accepted id st t i c h) [
    | inl old ↦ sym (ap (λ f. accepted_as (f i)) same) ∙ old
    | inr (e, now) ↦ subst (λ j. accepted_as (s.stage j) ≡ some c) e (less c now)
  ]

  nothing : (o : Option PeerConnection) (d : PeerConnection) → Option.none ≡ some d → o ≡ some d
  nothing o d h = absurd (ground (arith, h))

  advance_from-accepted :
      (id : ℕ) (st : Stage) (s : Manager) (i : ℕ) (c : PeerConnection)
      → s.stage id ≡ st
      → accepted_as ((advance_from P Peers Marks id st s).stage i) ≡ some c
      → (accepted_as (s.stage i) ≡ some c) ⊎ Checked s i c
  unfolding advance_from
  advance_from-accepted id (shaken d) s i c at h = inl (
      moved-accepted id (noted d) s
        (record s { our_nonces = Marks.insert s.our_nonces d.our_nonce tt }) i c refl
        (nothing (accepted_as (s.stage id))) h)
  advance_from-accepted id (noted d) s i c at h =
      elim (Bool-cases (is_some (Marks.get s.our_nonces d.their_nonce))) [
        | inl own ↦
            let h' : accepted_as ((put_stage P Peers Marks id (dropping d) s).stage i) ≡ some c =
              rw own at h in
            inl
              (moved-accepted id (dropping d) s s i c refl (nothing (accepted_as (s.stage id))) h')
        | inr free ↦
            let h' : accepted_as ((put_stage P Peers Marks id (passed d) s).stage i) ≡ some c =
              rw free at h in
            elim (put_stage-accepted id (passed d) s i c h') [
              | inl old ↦ inl old
              | inr (e, same) ↦ inr (
                  let eq = some-injective _ _ same in
                  (
                    subst (λ j. s.stage j ≡ noted c) e (at ∙ ap Stage.noted eq),
                    subst (λ q. is_some (Marks.get s.our_nonces q.their_nonce) ≡ false) eq free,
                  ))
            ]
      ]
  advance_from-accepted id (dropping d) s i c at h = inl (
      moved-accepted id failed s (record s { our_nonces = Marks.remove s.our_nonces d.our_nonce }) i
        c refl (nothing (accepted_as (s.stage id))) h)
  advance_from-accepted id (passed d) s i c at h = inl (
      moved-accepted id (listed d) s
        (record s { peers = Peers.insert s.peers id (new_peer d.info) }) i c refl
        (λ e h'. ap accepted_as at ∙ h') h)
  advance_from-accepted id (listed d) s i c at h = inl (
      moved-accepted id (open_to d) s
        (record s { peer_senders = Marks.insert s.peer_senders id tt }) i c refl
        (λ e h'. ap accepted_as at ∙ h') h)
  advance_from-accepted id (open_to d) s i c at h = inl (
      moved-accepted id (looping d) s
        (record s { events = s.events ++ connected_event d.info ∷ [] }) i c refl
        (λ e h'. ap accepted_as at ∙ h') h)
  advance_from-accepted id (closing d) s i c at h = inl (
      moved-accepted id (unsent d) s (record s { peer_senders = Marks.remove s.peer_senders id }) i
        c refl (λ e h'. ap accepted_as at ∙ h') h)
  advance_from-accepted id (unsent d) s i c at h = inl (
      moved-accepted id (unlisted d) s (record s { peers = Peers.remove s.peers id }) i c refl
        (λ e h'. ap accepted_as at ∙ h') h)
  advance_from-accepted id (unlisted d) s i c at h = inl (
      moved-accepted id (unnoted d) s
        (record s { our_nonces = Marks.remove s.our_nonces d.our_nonce }) i c refl
        (nothing (accepted_as (s.stage id))) h)
  advance_from-accepted id (unnoted d) s i c at h = inl (
      moved-accepted id closed s (record s { events = s.events ++ disconnected_event id ∷ [] }) i c
        refl (nothing (accepted_as (s.stage id))) h)
  advance_from-accepted id (looping d) s i c at h = inl h
  advance_from-accepted id idle s i c at h = inl h
  advance_from-accepted id dialing s i c at h = inl h
  advance_from-accepted id failed s i c at h = inl h
  advance_from-accepted id closed s i c at h = inl h

  -- What a step newly accepts has just been checked.
  Step-accepted :
      {s t : Manager}
      → Step P Peers Marks nonce s t
      → (i : ℕ) (c : PeerConnection) → accepted_as (t.stage i) ≡ some c
      → (accepted_as (s.stage i) ≡ some c) ⊎ Checked s i c
  unfolding spawn advance put_stage
  Step-accepted {s} (accepted before room) i c h = inl (
      moved-accepted s.next_peer_id dialing s s i c refl
        (nothing (accepted_as (s.stage s.next_peer_id))) h)
  Step-accepted {s} (dialed before room) i c h = inl (
      moved-accepted s.next_peer_id dialing s s i c refl
        (nothing (accepted_as (s.stage s.next_peer_id))) h)
  Step-accepted {s} (shook id inbound addr now ours theirs at own) i c h = inl (
      moved-accepted id (shaken (peer_connection P inbound addr id now ours theirs)) s s i c refl
        (nothing (accepted_as (s.stage id))) h)
  Step-accepted {s} (refused id at) i c h =
      inl (moved-accepted id failed s s i c refl (nothing (accepted_as (s.stage id))) h)
  Step-accepted (advanced s id) i c h = advance_from-accepted id (s.stage id) s i c refl h
  Step-accepted (heard id d msg at) i c h = inl h
  Step-accepted (updated id d p at) i c h = inl h
  Step-accepted {s} (ended id d at) i c h =
      inl (moved-accepted id (closing d) s s i c refl (λ e h'. ap accepted_as at ∙ h') h)

module _ (P : HandshakeLib) (Peers : MapOps ℕ_discrete Peer) (Marks : MapOps ℕ_discrete (Unit {0}))
    (nonce : ℕ → ℕ) (distinct : (i j : ℕ) → nonce i ≡ nonce j → i ≡ j) where
  -- No two accepted connections name the nonces of each other.
  abbrev Apart : PeerManager P Peers Marks → Type 0
  Apart s =
      (i j : ℕ) (c d : PeerConnection)
      → accepted_as (s.stage i) ≡ some c
      → accepted_as (s.stage j) ≡ some d
      → c.their_nonce ≡ nonce j
      → d.their_nonce ≡ nonce i
      → ⊥

  -- The nonce of a task that is accepted, or about to be, is registered.
  registered :
      (s : PeerManager P Peers Marks) (i : ℕ) (c : PeerConnection)
      → IsKept P Peers Marks nonce distinct s
      → (accepted_as (s.stage i) ≡ some c) ⊎ Checked P Peers Marks nonce s i c
      → is_some (Marks.get s.our_nonces (nonce i)) ≡ true
  registered s i c k (inl old) = ap (λ v. v.has_nonce) (k.kept i) ∙ accepted_nonce (s.stage i) c old
  registered s i c k (inr (at, free)) =
      ap (λ v. v.has_nonce) (k.kept i) ∙ ap (λ st. (view_of st).has_nonce) at

  clash :
      (s : PeerManager P Peers Marks) (i j : ℕ) (c : PeerConnection)
      → Checked P Peers Marks nonce s i c
      → c.their_nonce ≡ nonce j
      → is_some (Marks.get s.our_nonces (nonce j)) ≡ true
      → ⊥
  clash s i j c (at, free) names there =
      true≢false (sym there ∙ ap (λ n. is_some (Marks.get s.our_nonces n)) (sym names) ∙ free)

  Step-Apart :
      {s t : PeerManager P Peers Marks}
      → Step P Peers Marks nonce s t
      → IsKept P Peers Marks nonce distinct s
      → Apart s
      → Apart t
  Step-Apart {s} {t} step k apart i j c d hi hj ci dj =
      let old_i = Step-accepted P Peers Marks nonce step i c hi in
      let old_j = Step-accepted P Peers Marks nonce step j d hj in go old_i old_j
    where
      go :
          (accepted_as (s.stage i) ≡ some c) ⊎ Checked P Peers Marks nonce s i c
          → (accepted_as (s.stage j) ≡ some d) ⊎ Checked P Peers Marks nonce s j d
          → ⊥
      go (inl a) (inl b) = apart i j c d a b ci dj
      go (inr a) b = clash s i j c a ci (registered s j d k b)
      go (inl a) (inr b) = clash s j i d b dj (registered s i c k (inl a))

  Reach-Apart :
      (max_inbound max_outbound : ℕ) {s : PeerManager P Peers Marks}
      (r : Reach P Peers Marks nonce (new P Peers Marks max_inbound max_outbound) s)
      → handed_out P Peers Marks nonce distinct r + 1 < 2 ^ 64
      → Apart s
  unfolding new
  Reach-Apart max_inbound max_outbound here small i j c d hi hj ci dj = absurd (ground (arith, hi))
  Reach-Apart max_inbound max_outbound (next r step) small i j c d hi hj ci dj =
      let less : handed_out P Peers Marks nonce distinct r + 1 < 2 ^ 64 = omega (arith, small) in
      Step-Apart step (Reach-IsKept P Peers Marks nonce distinct max_inbound max_outbound r less).0
        (Reach-Apart max_inbound max_outbound r less) i j c d hi hj ci dj

  -- When the node connects to itself, its outbound and its inbound task are never both accepted,
  -- whichever finishes its handshake first: where one of two accepted tasks has got the nonce of the
  -- other, the other has not got the nonce of the one. The nonces of the tasks are distinct, and
  -- fewer than 2^64 - 1 ids have been handed out.
  pub self_connection_dropped :
      (max_inbound max_outbound i j : ℕ) (c d : PeerConnection) {s : PeerManager P Peers Marks}
      (r : Reach P Peers Marks nonce (new P Peers Marks max_inbound max_outbound) s)
      → handed_out P Peers Marks nonce distinct r + 1 < 2 ^ 64
      → accepted_as (s.stage i) ≡ some c
      → accepted_as (s.stage j) ≡ some d
      → c.their_nonce ≡ nonce j
      → d.their_nonce ≢ nonce i
  self_connection_dropped max_inbound max_outbound i j c d r small hi hj ci dj =
      Reach-Apart max_inbound max_outbound r small i j c d hi hj ci dj
