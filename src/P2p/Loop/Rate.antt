-- ===== src/P2p/Loop/Rate.antt =====
-- The rate limit of `run_peer_loop` of crates/wolfe-p2p/src/manager.rs.
use bitcoin_wolfe.Prelude.{
  ℕ, ◌+◌, ◌-◌, ◌*◌, ◌≤◌, ◌<◌, ◌≡◌, ◌⊎◌, inl, inr, refl, sym, ap, ◌∙◌, Bool, true, false, Bool-cases,
  ltb-false, leb→le, none, some, List, [], ◌∷◌, ◌++◌, ltb, leb, if◌then◌else◌, All, arith,
}
use mathlib.Core.Path.{subst}
use bitcoin_wolfe.P2p.Stream.{encode}
use bitcoin_wolfe.P2p.Peer.{
  NetworkMessage, version, verack, send_headers, block, tx, headers, ping, pong, other, second,
}
use bitcoin_wolfe.P2p.Loop.{
  max_protocol_messages_per_sec, Loop, Event, read_timed_out, received, recv_failed, outbound, tick,
  Action, reply, probe, write, forward, Outcome, next, break, is_data_msg, window_at, limit,
  limited, with_peer, see, sent, dispatch, on_message, on_error, is_stale, pinged, on_tick, step,
  run, Outcome-cases, run-break, run-next,
}

-- 1 for a message that counts against the limit.
abbrev pub cost : NetworkMessage → ℕ
unfolding is_data_msg
cost msg = if is_data_msg msg then 0 else 1

-- The pongs and the messages to the node that the limit is for.
abbrev pub weight : Action → ℕ
weight (reply n) = 1
weight (forward msg) = cost msg
weight _ = 0

abbrev pub handled : List Action → ℕ
handled [] = 0
handled (a ∷ actions) = weight a + handled actions

handled-append : (xs ys : List Action) → handled (xs ++ ys) ≡ handled xs + handled ys
handled-append [] ys = omega arith
handled-append (x ∷ xs) ys = omega (arith, handled-append xs ys)

abbrev Goes : (Loop → List Action → Type 0) → Outcome → Type 0
Goes Q break = Unit
Goes Q (next l actions) = Q l actions

-- What a round at `now` has handled is in the count of its window.
abbrev Counted : ℕ → Loop → Loop → List Action → Type 0
Counted now l l' actions =
    (l'.rate_count ≤ max_protocol_messages_per_sec)
    × (((l'.rate_window_start ≡ l.rate_window_start)
          × (l.rate_count + handled actions ≤ l'.rate_count))
        ⊎ ((second ≤ now - l.rate_window_start)
            × (l'.rate_window_start ≡ now)
            × (handled actions ≤ l'.rate_count)))

-- No change, and at most `n` handled.
abbrev Kept : ℕ → Loop → Loop → List Action → Type 0
Kept n l l' actions =
    (l'.rate_window_start ≡ l.rate_window_start)
    × (l'.rate_count ≡ l.rate_count)
    × (handled actions ≤ n)

sent-Kept :
    (n : ℕ) (l : Loop) (success : Bool) (a : Action)
    → weight a ≤ n
    → Goes (Kept n l) (sent l success a)
unfolding sent
sent-Kept n l true a h = (refl, refl, omega (arith, h))
sent-Kept n l false a h = tt

dispatch-Kept :
    (now : ℕ) (l : Loop) (msg : NetworkMessage) (success : Bool)
    → Goes (Kept (cost msg) l) (dispatch now l msg success)
unfolding dispatch with_peer is_data_msg
dispatch-Kept now l (ping n) success = sent-Kept 1 l success (reply n) (omega arith)
dispatch-Kept now l (pong n) success = (refl, refl, omega arith)
dispatch-Kept now l (version v) success = sent-Kept 1 l success (forward (version v)) (omega arith)
dispatch-Kept now l verack success = sent-Kept 1 l success (forward verack) (omega arith)
dispatch-Kept now l send_headers success =
    sent-Kept 1 l success (forward send_headers) (omega arith)
dispatch-Kept now l (block b) success = sent-Kept 0 l success (forward (block b)) (omega arith)
dispatch-Kept now l (tx b) success = sent-Kept 0 l success (forward (tx b)) (omega arith)
dispatch-Kept now l (headers b) success = sent-Kept 0 l success (forward (headers b)) (omega arith)
dispatch-Kept now l (other b) success = sent-Kept 1 l success (forward (other b)) (omega arith)

-- The state after the limit has counted a message of this cost.
abbrev Charged : ℕ → ℕ → Loop → Loop → Type 0
Charged now n l l' =
    (l'.rate_count ≤ max_protocol_messages_per_sec)
    × (((l'.rate_window_start ≡ l.rate_window_start) × (l.rate_count + n ≤ l'.rate_count))
        ⊎ ((second ≤ now - l.rate_window_start)
            × (l'.rate_window_start ≡ now)
            × (n ≤ l'.rate_count)))

window_at-either :
    (now : ℕ) (l : Loop)
    → ((window_at now l).rate_window_start ≡ l.rate_window_start)
        × ((window_at now l).rate_count ≡ l.rate_count)
      ⊎ (second ≤ now - l.rate_window_start)
        × ((window_at now l).rate_window_start ≡ now)
        × ((window_at now l).rate_count ≡ 0)
unfolding window_at
window_at-either now l = elim (Bool-cases (leb second (now - l.rate_window_start))) [
  | inl later ↦ rw (later) (inr (leb→le _ _ later, refl, refl))
  | inr soon ↦ rw (soon) (inl (refl, refl))
]

limit-Charged :
    (now : ℕ) (l : Loop)
    → (limit now l ≡ none) ⊎ ((l' : Loop) × (limit now l ≡ some l') × Charged now 1 l l')
unfolding limit
limit-Charged now l =
    let w = window_at now l in
    elim (Bool-cases (ltb max_protocol_messages_per_sec (w.rate_count + 1))) [
      | inl over ↦ inl (rw (over) refl)
      | inr under ↦
          let bound : w.rate_count + 1 ≤ max_protocol_messages_per_sec = ltb-false _ _ under in
          inr (
            record w { rate_count = w.rate_count + 1 },
            rw (under) refl,
            (
              bound,
              elim (window_at-either now l) [
                | inl (start, count) ↦ inl (start, omega (arith, count))
                | inr (late, start, count) ↦ inr (late, start, omega arith)
              ],
            ),
          )
    ]

limited-Charged :
    (now : ℕ) (l : Loop) (msg : NetworkMessage)
    → l.rate_count ≤ max_protocol_messages_per_sec
    → (limited now l msg ≡ none)
      ⊎ ((l' : Loop) × (limited now l msg ≡ some l') × Charged now (cost msg) l l')
unfolding limited
limited-Charged now l msg bound = elim (Bool-cases (is_data_msg msg)) [
  | inl data_msg ↦
      inr (l, rw (data_msg) refl, (bound, inl (refl, (rw (data_msg, cost) omega arith))))
  | inr protocol ↦ elim (limit-Charged now l) [
    | inl over ↦ inl (rw (protocol) over)
    | inr (l', e, charged) ↦ inr (l', rw (protocol) e, (rw (protocol, cost) charged))
  ]
]

Kept-Counted :
    (now n : ℕ) (l l' : Loop) (o : Outcome)
    → Charged now n l l'
    → Goes (Kept n l') o
    → Goes (Counted now l) o
Kept-Counted now n l l' break c k = tt
Kept-Counted now n l l' (next l'' actions) (bound, c) (start, count, few) = (
  omega (arith, bound, count),
  elim c [
    | inl (s, m) ↦ inl (start ∙ s, omega (arith, m, few, count))
    | inr (late, s, m) ↦ inr (late, start ∙ s, omega (arith, m, few, count))
  ],
)

on_message-Counted :
    (now : ℕ) (l : Loop) (msg : NetworkMessage) (success : Bool)
    → l.rate_count ≤ max_protocol_messages_per_sec
    → Goes (Counted now l) (on_message now (limited now l msg) msg success)
unfolding on_message with_peer
on_message-Counted now l msg success bound = elim (limited-Charged now l msg bound) [
  | inl over ↦ rw (over, on_message) tt
  | inr (l', e, charged) ↦
      rw (e, on_message)
        (Kept-Counted now (cost msg) l l' (dispatch now (with_peer (see now) l') msg success)
          charged (dispatch-Kept now (with_peer (see now) l') msg success))
]

unchanged : (now : ℕ) (l : Loop) → l.rate_count ≤ max_protocol_messages_per_sec → Charged now 0 l l
unchanged now l bound = (bound, inl (refl, omega arith))

on_tick-Kept :
    (now nonce : ℕ) (l : Loop) (success : Bool) → Goes (Kept 0 l) (on_tick now l nonce success)
unfolding on_tick with_peer
on_tick-Kept now nonce l success = elim (Bool-cases (is_stale now l.peer)) [
  | inl stale ↦ rw (stale) tt
  | inr fresh ↦
      rw (fresh) (sent-Kept 0 (with_peer (pinged now nonce) l) success (probe nonce) (omega arith))
]

step-Counted :
    (now : ℕ) (l : Loop) (e : Event)
    → l.rate_count ≤ max_protocol_messages_per_sec
    → Goes (Counted now l) (step now l e)
unfolding step on_error
step-Counted now l read_timed_out bound = tt
step-Counted now l (received msg success) bound = on_message-Counted now l msg success bound
step-Counted now l (recv_failed encode) bound = unchanged now l bound
step-Counted now l (recv_failed _) bound = tt
step-Counted now l (outbound msg success) bound =
    Kept-Counted now 0 l l (sent l success (write msg)) (unchanged now l bound)
      (sent-Kept 0 l success (write msg) (omega arith))
step-Counted now l (tick n success) bound =
    Kept-Counted now 0 l l (on_tick now l n success) (unchanged now l bound)
      (on_tick-Kept now n l success)

-- The round falls in the second that begins at `start`.
abbrev pub Within : ℕ → ℕ × Event → Type 0
Within start (now, e) = (start ≤ now) × (now < start + second)

run-one_window :
    (start : ℕ) (l : Loop) (events : List (ℕ × Event))
    → l.rate_count ≤ max_protocol_messages_per_sec
    → start ≤ l.rate_window_start
    → All (Within start) events
    → handled (run l events).0 + l.rate_count ≤ max_protocol_messages_per_sec
unfolding run
run-one_window start l [] bound window all = omega (arith, bound)
run-one_window start l ((now, e) ∷ events) bound window ((from, to), all) =
    elim (Outcome-cases (step now l e)) [
      | inl stop ↦ rw (run-break now l e events stop) (omega (arith, bound))
      | inr (l', actions, more) ↦
          let (bound', counted) = subst (Goes (Counted now l)) more (step-Counted now l e bound) in
          elim counted [
            | inl (same, m) ↦
                let rest =
                  run-one_window start l' events bound' (omega (arith, same, window)) all in
                rw (run-next now l l' e actions events more)
                  (omega (arith, rest, m, handled-append actions (run l' events).0))
            | inr (late, s, m) ↦ absurd (omega (arith, late, window, from, to))
          ]
    ]

run-two_windows :
    (start : ℕ) (l : Loop) (events : List (ℕ × Event))
    → l.rate_count ≤ max_protocol_messages_per_sec
    → All (Within start) events
    → handled (run l events).0 + l.rate_count ≤ 2 * max_protocol_messages_per_sec
unfolding run
run-two_windows start l [] bound all = omega (arith, bound)
run-two_windows start l ((now, e) ∷ events) bound ((from, to), all) =
    elim (Outcome-cases (step now l e)) [
      | inl stop ↦ rw (run-break now l e events stop) (omega (arith, bound))
      | inr (l', actions, more) ↦
          let (bound', counted) = subst (Goes (Counted now l)) more (step-Counted now l e bound) in
          let sum = handled-append actions (run l' events).0 in
          elim counted [
            | inl (same, m) ↦
                let rest = run-two_windows start l' events bound' all in
                rw (run-next now l l' e actions events more) (omega (arith, rest, m, sum))
            | inr (late, s, m) ↦
                let rest = run-one_window start l' events bound' (omega (arith, s, from)) all in
                rw (run-next now l l' e actions events more) (omega (arith, rest, m, sum, bound))
          ]
    ]

run-rate_count :
    (l l' : Loop) (events : List (ℕ × Event))
    → l.rate_count ≤ max_protocol_messages_per_sec
    → (run l events).1 ≡ some l'
    → l'.rate_count ≤ max_protocol_messages_per_sec
unfolding run
run-rate_count l l' [] bound e =
    let same : l ≡ l' = ground (arith, e) in
    subst (λ k. k.rate_count ≤ max_protocol_messages_per_sec) same bound
run-rate_count l l' ((now, e) ∷ events) bound ended = elim (Outcome-cases (step now l e)) [
  | inl stop ↦
      let gone : none ≡ some l' = sym (ap (λ r. r.1) (run-break now l e events stop)) ∙ ended in
      absurd (ground (arith, gone))
  | inr (l₁, actions, more) ↦
      let (bound', _) = subst (Goes (Counted now l)) more (step-Counted now l e bound) in
      run-rate_count l₁ l' events bound'
        (sym (ap (λ r. r.1) (run-next now l l₁ e actions events more)) ∙ ended)
]

-- From the start of the loop on, in every second at most 4000 pings are answered and messages
-- other than blocks, transactions and headers passed on to the node: twice the limit, since the
-- second can meet two windows of the limiter.
pub run-rate :
    (start : ℕ) (first l : Loop) (before events : List (ℕ × Event))
    → first.rate_count ≡ 0
    → (run first before).1 ≡ some l
    → All (Within start) events
    → handled (run l events).0 ≤ 2 * max_protocol_messages_per_sec
run-rate start first l before events zeroed reached all =
    let bound = run-rate_count first l before (omega (arith, zeroed)) reached in
    omega (arith, run-two_windows start l events bound all)
