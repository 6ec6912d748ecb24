-- ===== src/P2p/Loop/Ending.antt =====
-- What ends `run_peer_loop` of crates/wolfe-p2p/src/manager.rs.
use bitcoin_wolfe.Prelude.{
  ℕ, suc, ◌+◌, ◌-◌, ◌≤◌, ◌≡◌, ◌⊎◌, inl, inr, refl, sym, ap, ◌∙◌, true, false, Bool-cases, none,
  List, [], ◌∷◌, leb, ltb, ltb→lt, arith,
}
use bitcoin_wolfe.P2p.Stream.{encode}
use bitcoin_wolfe.P2p.Peer.{
  NetworkMessage, version, verack, send_headers, block, tx, headers, ping, pong, other, second,
}
use bitcoin_wolfe.P2p.Loop.{
  Loop, Event, read_timed_out, received, recv_failed, outbound, tick, Action, write, Outcome, next,
  is_data_msg, window_at, limit, limited, with_peer, see, sent, dispatch, on_message, on_error,
  step, run, max_protocol_messages_per_sec, run-next,
}

-- With this count of the rate limit, one of the rounds may end the loop: a time out, an error, a send
-- that fails, a ping, or a message above the limit, when each message counts.
abbrev pub MayStop : ℕ → List (ℕ × Event) → Type 0
MayStop count [] = ⊥
MayStop count ((now, received msg true) ∷ events) =
    (max_protocol_messages_per_sec ≤ count) ⊎ MayStop (suc count) events
MayStop count ((now, outbound msg true) ∷ events) = MayStop count events
MayStop count ((now, recv_failed encode) ∷ events) = MayStop count events
MayStop count ((now, e) ∷ events) = Unit

-- The round goes on, with a count of at most this.
abbrev GoesOn : ℕ → Outcome → Type 0
GoesOn count o =
    (l : Loop) × (actions : List Action) × (o ≡ next l actions) × (l.rate_count ≤ count)

window_at-count : (now : ℕ) (l : Loop) → (window_at now l).rate_count ≤ l.rate_count
unfolding window_at
window_at-count now l = elim (Bool-cases (leb second (now - l.rate_window_start))) [
  | inl e ↦ rw (e) (omega arith)
  | inr e ↦ rw (e) (omega arith)
]

dispatch-GoesOn :
    (now : ℕ) (l : Loop) (msg : NetworkMessage) → GoesOn l.rate_count (dispatch now l msg true)
unfolding dispatch sent with_peer
dispatch-GoesOn now l (ping n) = (l, _, refl, omega arith)
dispatch-GoesOn now l (pong n) = (_, _, refl, omega arith)
dispatch-GoesOn now l (version v) = (l, _, refl, omega arith)
dispatch-GoesOn now l verack = (l, _, refl, omega arith)
dispatch-GoesOn now l send_headers = (l, _, refl, omega arith)
dispatch-GoesOn now l (block b) = (l, _, refl, omega arith)
dispatch-GoesOn now l (tx b) = (l, _, refl, omega arith)
dispatch-GoesOn now l (headers b) = (l, _, refl, omega arith)
dispatch-GoesOn now l (other b) = (l, _, refl, omega arith)

GoesOn-le : (a b : ℕ) (o : Outcome) → a ≤ b → GoesOn a o → GoesOn b o
GoesOn-le a b o h (l, actions, e, le) = (l, actions, e, omega (arith, h, le))

limit-GoesOn :
    (now : ℕ) (l : Loop) (msg : NetworkMessage)
    → (max_protocol_messages_per_sec ≤ l.rate_count)
      ⊎ GoesOn (suc l.rate_count) (on_message now (limit now l) msg true)
unfolding limit on_message
limit-GoesOn now l msg =
    let w = window_at now l in
    let below = window_at-count now l in
    elim (Bool-cases (ltb max_protocol_messages_per_sec (w.rate_count + 1))) [
      | inl over ↦ inl (omega (arith, below, ltb→lt _ _ over))
      | inr fits ↦ inr (
          let l' = with_peer (see now) (record w { rate_count = w.rate_count + 1 }) in
          rw (fits) (
            GoesOn-le (w.rate_count + 1) (suc l.rate_count) _ (omega (arith, below))
              (unfold with_peer in dispatch-GoesOn now l' msg)))
    ]

received-GoesOn :
    (now : ℕ) (l : Loop) (msg : NetworkMessage)
    → (max_protocol_messages_per_sec ≤ l.rate_count)
      ⊎ GoesOn (suc l.rate_count) (step now l (received msg true))
unfolding step limited on_message with_peer
received-GoesOn now l msg = elim (Bool-cases (is_data_msg msg)) [
  | inl data_msg ↦ inr (
      rw (data_msg) (
        GoesOn-le l.rate_count (suc l.rate_count) _ (omega arith)
          (dispatch-GoesOn now (with_peer (see now) l) msg)))
  | inr counted ↦ rw (counted) (limit-GoesOn now l msg)
]

-- A loop that ends has had a round that may end it.
pub run-MayStop :
    (count : ℕ) (l : Loop) (events : List (ℕ × Event))
    → l.rate_count ≤ count
    → (run l events).1 ≡ none
    → MayStop count events
unfolding run
run-MayStop count l [] le e = absurd (ground (arith, e))
run-MayStop count l ((now, received msg true) ∷ events) le e = elim (received-GoesOn now l msg) [
  | inl over ↦ inl (omega (arith, over, le))
  | inr goes ↦
      let (l', actions, same, le') = goes in
      inr (
        run-MayStop (suc count) l' events (omega (arith, le, le'))
          (sym (ap (λ r. r.1) (run-next now l l' (received msg true) actions events same)) ∙ e))
]
run-MayStop count l ((now, received msg false) ∷ events) le e = tt
run-MayStop count l ((now, outbound msg true) ∷ events) le e =
    let same : step now l (outbound msg true) ≡ next l (write msg ∷ []) =
      (unfold step sent in refl) in
    run-MayStop count l events le
      (sym (ap (λ r. r.1) (run-next now l l (outbound msg true) (write msg ∷ []) events same)) ∙ e)
run-MayStop count l ((now, outbound msg false) ∷ events) le e = tt
run-MayStop count l ((now, recv_failed encode) ∷ events) le e =
    let same : step now l (recv_failed encode) ≡ next l [] = (unfold step on_error in refl) in
    run-MayStop count l events le
      (sym (ap (λ r. r.1) (run-next now l l (recv_failed encode) [] events same)) ∙ e)
run-MayStop count l ((now, recv_failed _) ∷ events) le e = tt
run-MayStop count l ((now, read_timed_out) ∷ events) le e = tt
run-MayStop count l ((now, tick n success) ∷ events) le e = tt
