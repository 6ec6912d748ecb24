-- ===== src/P2p/Manager/View.antt =====
-- What one operation of a task of crates/wolfe-p2p/src/manager.rs changes in the shared tables and
-- the events.
use bitcoin_wolfe.Prelude.{
  ℕ, ◌≤◌, ◌≡◌, ◌≢◌, ◌⊎◌, inl, inr, refl, sym, ◌∙◌, Bool, true, false, List, [], ◌∷◌, ◌++◌, ite,
  if_pos, Bool-cases, arith, ℕ_discrete,
}
use bitcoin_wolfe.Map.{MapOps, get-insert_self, get-insert_ne, get-remove_self, get-remove_ne}
use bitcoin_wolfe.P2p.Peer.{Peer, new_peer}
use bitcoin_wolfe.P2p.Connection.{HandshakeLib, PeerConnection}
use bitcoin_wolfe.P2p.Manager.{
  PeerEvent, connected_event, disconnected_event, message_event, banned_event, Stage, idle, dialing,
  failed, closed, shaken, noted, dropping, passed, listed, open_to, looping, closing, unsent,
  unlisted, unnoted, is_some, update, PeerManager, put_stage, advance_from,
}

-- What the events say of a peer: nothing yet, that it is connected, that it has left, or something out
-- of order.
pub data Phase : Type 0 where
  unknown known gone disorder : Phase

-- Connected, then messages, then disconnected.
abbrev pub on_connected : Phase → Phase
on_connected unknown = known
on_connected _ = disorder

abbrev pub on_message_of : Phase → Phase
on_message_of known = known
on_message_of _ = disorder

abbrev pub on_disconnected : Phase → Phase
on_disconnected known = gone
on_disconnected _ = disorder

abbrev pub follow : ℕ → Phase → PeerEvent → Phase
follow k ph (connected_event info) = ite (ℕ_discrete info.id k) (on_connected ph) ph
follow k ph (disconnected_event id) = ite (ℕ_discrete id k) (on_disconnected ph) ph
follow k ph (message_event id msg) = ite (ℕ_discrete id k) (on_message_of ph) ph
follow k ph (banned_event id reason) = ph

unfoldable pub follow_all : ℕ → Phase → List PeerEvent → Phase
follow_all k ph [] = ph
follow_all k ph (e ∷ rest) = follow_all k (follow k ph e) rest

pub follow_all-snoc :
    (k : ℕ) (ph : Phase) (events : List PeerEvent) (e : PeerEvent)
    → follow_all k ph (events ++ e ∷ []) ≡ follow k (follow_all k ph events) e
unfolding follow_all
follow_all-snoc k ph [] e = refl
follow_all-snoc k ph (x ∷ events) e = follow_all-snoc k (follow k ph x) events e

-- Whether a peer is in `peers`, whether it has a sender, whether its nonce is registered, and what
-- the events say of it.
pub record View : Type 0 where
  pub has_peer : Bool
  pub has_sender : Bool
  pub has_nonce : Bool
  pub phase : Phase

abbrev pub seen : Bool → Bool → Bool → Phase → View
seen p s n ph = record { has_peer = p; has_sender = s; has_nonce = n; phase = ph }

-- What a task at this stage has left in the tables.
abbrev pub view_of : Stage → View
view_of idle = seen false false false unknown
view_of dialing = seen false false false unknown
view_of failed = seen false false false unknown
view_of closed = seen false false false gone
view_of (shaken c) = seen false false false unknown
view_of (noted c) = seen false false true unknown
view_of (dropping c) = seen false false true unknown
view_of (passed c) = seen false false true unknown
view_of (listed c) = seen true false true unknown
view_of (open_to c) = seen true true true unknown
view_of (looping c) = seen true true true known
view_of (closing c) = seen true true true known
view_of (unsent c) = seen true false true known
view_of (unlisted c) = seen false false true known
view_of (unnoted c) = seen false false false known

-- The events of the peer are in order; a peer with a sender is in `peers`; and nothing is left of a
-- peer that has gone.
pub record Orderly (v : View) : Type 0 where
  pub ordered : v.phase ≢ disorder
  pub listed_first : (v.has_sender ≡ false) ⊎ (v.has_peer ≡ true)
  pub released : (v.phase ≢ gone) ⊎ (v ≡ seen false false false gone)

pub view_of-Orderly : (st : Stage) → Orderly (view_of st)
view_of-Orderly closed = record { ordered = λ e. cc; listed_first = inl refl; released = inr refl }
view_of-Orderly (listed c) = record {
  ordered = λ e. cc;
  listed_first = inr refl;
  released = inl (λ e. cc);
}
view_of-Orderly (open_to c) = record {
  ordered = λ e. cc;
  listed_first = inr refl;
  released = inl (λ e. cc);
}
view_of-Orderly (looping c) = record {
  ordered = λ e. cc;
  listed_first = inr refl;
  released = inl (λ e. cc);
}
view_of-Orderly (closing c) = record {
  ordered = λ e. cc;
  listed_first = inr refl;
  released = inl (λ e. cc);
}
view_of-Orderly st = record { ordered = λ e. cc; listed_first = inl refl; released = inl (λ e. cc) }

-- The connection of a task that has one carries its peer id and its nonce.
abbrev pub Owns : ℕ → ℕ → PeerConnection → Type 0
Owns id nonce c = (c.info.id ≡ id) × (c.our_nonce ≡ nonce)

abbrev pub Owned : ℕ → ℕ → Stage → Type 0
Owned id nonce (shaken c) = Owns id nonce c
Owned id nonce (noted c) = Owns id nonce c
Owned id nonce (dropping c) = Owns id nonce c
Owned id nonce (passed c) = Owns id nonce c
Owned id nonce (listed c) = Owns id nonce c
Owned id nonce (open_to c) = Owns id nonce c
Owned id nonce (looping c) = Owns id nonce c
Owned id nonce (closing c) = Owns id nonce c
Owned id nonce (unsent c) = Owns id nonce c
Owned id nonce (unlisted c) = Owns id nonce c
Owned id nonce (unnoted c) = Owns id nonce c
Owned id nonce _ = Unit

module _ (P : HandshakeLib) (Peers : MapOps ℕ_discrete Peer) (Marks : MapOps ℕ_discrete (Unit {0}))
    (nonce : ℕ → ℕ) (distinct : (i j : ℕ) → nonce i ≡ nonce j → i ≡ j) where
  abbrev pub view : PeerManager P Peers Marks → ℕ → View
  view s k = record {
    has_peer = is_some (Peers.get s.peers k);
    has_sender = is_some (Marks.get s.peer_senders k);
    has_nonce = is_some (Marks.get s.our_nonces (nonce k));
    phase = follow_all k unknown s.events;
  }

  -- Every task has left in the tables what its stage says, and ids that are not taken are idle.
  pub record IsKept (s : PeerManager P Peers Marks) : Type 0 where
    pub kept : (k : ℕ) → view s k ≡ view_of (s.stage k)
    pub owned : (k : ℕ) → Owned k (nonce k) (s.stage k)
    pub fresh : (k : ℕ) → s.next_peer_id ≤ k → s.stage k ≡ idle

  -- The task of another id sees nothing of an operation of the task `id`.
  pub advance_from-others :
      (id : ℕ) (st : Stage) (s : PeerManager P Peers Marks) (k : ℕ)
      → id ≢ k
      → Owned id (nonce id) st
      → (view (advance_from P Peers Marks id st s) k ≡ view s k)
        × ((advance_from P Peers Marks id st s).stage k ≡ s.stage k)
  unfolding advance_from
  advance_from-others id (shaken c) s k ne o =
      let apart : c.our_nonce ≢ nonce k = λ e. ne (distinct id k (sym o.1 ∙ e)) in
      (
        ground (arith, get-insert_ne Marks s.our_nonces c.our_nonce (nonce k) tt apart),
        ground arith,
      )
  advance_from-others id (noted c) s k ne o = ground arith
  advance_from-others id (dropping c) s k ne o =
      let apart : c.our_nonce ≢ nonce k = λ e. ne (distinct id k (sym o.1 ∙ e)) in
      (ground (arith, get-remove_ne Marks s.our_nonces c.our_nonce (nonce k) apart), ground arith)
  advance_from-others id (passed c) s k ne o =
      (ground (arith, get-insert_ne Peers s.peers id k (new_peer c.info) ne), ground arith)
  advance_from-others id (listed c) s k ne o =
      (ground (arith, get-insert_ne Marks s.peer_senders id k tt ne), ground arith)
  advance_from-others id (open_to c) s k ne o =
      (ground (arith, follow_all-snoc k unknown s.events (connected_event c.info)), ground arith)
  advance_from-others id (closing c) s k ne o =
      (ground (arith, get-remove_ne Marks s.peer_senders id k ne), ground arith)
  advance_from-others id (unsent c) s k ne o =
      (ground (arith, get-remove_ne Peers s.peers id k ne), ground arith)
  advance_from-others id (unlisted c) s k ne o =
      let apart : c.our_nonce ≢ nonce k = λ e. ne (distinct id k (sym o.1 ∙ e)) in
      (ground (arith, get-remove_ne Marks s.our_nonces c.our_nonce (nonce k) apart), ground arith)
  advance_from-others id (unnoted c) s k ne o =
      (ground (arith, follow_all-snoc k unknown s.events (disconnected_event id)), ground arith)
  advance_from-others id (looping c) s k ne o = (refl, refl)
  advance_from-others id idle s k ne o = (refl, refl)
  advance_from-others id dialing s k ne o = (refl, refl)
  advance_from-others id failed s k ne o = (refl, refl)
  advance_from-others id closed s k ne o = (refl, refl)

  pub update_self : (f : ℕ → Stage) (id : ℕ) (st : Stage) → update f id st id ≡ st
  update_self f id st = if_pos (ℕ_discrete id id) refl st (f id)

  -- A task that stands where its stage says does so after its operation.
  abbrev pub Stands : ℕ → Stage → PeerManager P Peers Marks → Type 0
  Stands id st s = (view s id ≡ view_of st) × Owned id (nonce id) st

  pub put_stage-Stands :
      (id : ℕ) (st : Stage) (s : PeerManager P Peers Marks)
      → Stands id st s
      → Stands id ((put_stage P Peers Marks id st s).stage id) (put_stage P Peers Marks id st s)
  unfolding put_stage
  put_stage-Stands id st s h = rw (update_self s.stage id st) h

  pub advance_from_self :
      (id : ℕ) (st : Stage) (s : PeerManager P Peers Marks)
      → s.stage id ≡ st
      → Stands id st s
      → Stands id
          ((advance_from P Peers Marks id st s).stage id)
          (advance_from P Peers Marks id st s)
  unfolding advance_from
  advance_from_self id (shaken c) s at (v, o) =
      put_stage-Stands id (noted c)
        (record s { our_nonces = Marks.insert s.our_nonces c.our_nonce tt })
        (ground (arith, v, o, get-insert_self Marks s.our_nonces c.our_nonce tt), o)
  advance_from_self id (noted c) s at (v, o) =
      elim (Bool-cases (is_some (Marks.get s.our_nonces c.their_nonce))) [
        | inl own ↦ rw own (put_stage-Stands id (dropping c) s (v, o))
        | inr other ↦ rw other (put_stage-Stands id (passed c) s (v, o))
      ]
  advance_from_self id (dropping c) s at (v, o) =
      put_stage-Stands id failed (record s { our_nonces = Marks.remove s.our_nonces c.our_nonce })
        (ground (arith, v, o, get-remove_self Marks s.our_nonces c.our_nonce), tt)
  advance_from_self id (passed c) s at (v, o) =
      put_stage-Stands id (listed c)
        (record s { peers = Peers.insert s.peers id (new_peer c.info) })
        (ground (arith, v, get-insert_self Peers s.peers id (new_peer c.info)), o)
  advance_from_self id (listed c) s at (v, o) =
      put_stage-Stands id (open_to c)
        (record s { peer_senders = Marks.insert s.peer_senders id tt })
        (ground (arith, v, get-insert_self Marks s.peer_senders id tt), o)
  advance_from_self id (open_to c) s at (v, o) =
      put_stage-Stands id (looping c)
        (record s { events = s.events ++ connected_event c.info ∷ [] })
        (ground (arith, v, o, follow_all-snoc id unknown s.events (connected_event c.info)), o)
  advance_from_self id (closing c) s at (v, o) =
      put_stage-Stands id (unsent c) (record s { peer_senders = Marks.remove s.peer_senders id })
        (ground (arith, v, get-remove_self Marks s.peer_senders id), o)
  advance_from_self id (unsent c) s at (v, o) =
      put_stage-Stands id (unlisted c) (record s { peers = Peers.remove s.peers id })
        (ground (arith, v, get-remove_self Peers s.peers id), o)
  advance_from_self id (unlisted c) s at (v, o) =
      put_stage-Stands id (unnoted c)
        (record s { our_nonces = Marks.remove s.our_nonces c.our_nonce })
        (ground (arith, v, o, get-remove_self Marks s.our_nonces c.our_nonce), o)
  advance_from_self id (unnoted c) s at (v, o) =
      put_stage-Stands id closed (record s { events = s.events ++ disconnected_event id ∷ [] })
        (ground (arith, v, follow_all-snoc id unknown s.events (disconnected_event id)), tt)
  advance_from_self id (looping c) s at (v, o) = rw at (v, o)
  advance_from_self id idle s at (v, o) = rw at (v, o)
  advance_from_self id dialing s at (v, o) = rw at (v, o)
  advance_from_self id failed s at (v, o) = rw at (v, o)
  advance_from_self id closed s at (v, o) = rw at (v, o)

  pub advance_from-next :
      (id : ℕ) (st : Stage) (s : PeerManager P Peers Marks)
      → (advance_from P Peers Marks id st s).next_peer_id ≡ s.next_peer_id
  unfolding advance_from
  advance_from-next id (shaken c) s = refl
  advance_from-next id st s = refl
