-- ===== src/P2p/Loop/Liveness.antt =====
-- `run_peer_loop` of crates/wolfe-p2p/src/manager.rs and a peer that does not answer a ping.
use bitcoin_wolfe.Prelude.{
  ℕ, ◌+◌, ◌-◌, ◌<◌, ◌≡◌, ◌≢◌, ◌⊎◌, inl, inr, refl, sym, ap, ◌∙◌, Bool, true, false, Bool-cases,
  Option, none, some, List, [], ◌∷◌, ◌++◌, ◌==◌, ltb, leb, All, arith,
}
use mathlib.Core.Path.{subst}
use bitcoin_wolfe.P2p.Stream.{encode}
use bitcoin_wolfe.P2p.Peer.{
  NetworkMessage, version, verack, send_headers, block, tx, headers, ping, pong, other, Peer,
  second,
}
use bitcoin_wolfe.P2p.Loop.{
  ping_timeout, max_protocol_messages_per_sec, Loop, Event, read_timed_out, received, recv_failed,
  outbound, tick, Action, reply, probe, write, forward, Outcome, next, break, is_data_msg,
  window_at, limit, limited, with_peer, see, is_nonce, on_pong, sent, dispatch, on_message,
  on_error, outstanding, is_stale, pinged, on_tick, step, run, Outcome-cases, run-break, run-next,
}

-- The predicate holds of the state where the loop goes on.
abbrev pub After : (Loop → Type 0) → Outcome → Type 0
After Q break = Unit
After Q (next l actions) = Q l

-- The ping of the time and the nonce is still unanswered.
abbrev pub Waits : ℕ → ℕ → Option Peer → Type 0
Waits time nonce none = ⊥
Waits time nonce (some p) = (p.last_ping ≡ some time) × (p.ping_nonce ≡ some nonce)

abbrev Waiting : ℕ → ℕ → Loop → Type 0
Waiting time nonce l = Waits time nonce l.peer

-- A message that does not answer the nonce, and a round without a ping.
abbrev pub NoAnswer : ℕ → NetworkMessage → Type 0
NoAnswer nonce (pong n) = n ≢ nonce
NoAnswer nonce _ = Unit

abbrev pub Quiet : ℕ → ℕ × Event → Type 0
Quiet nonce (now, received msg success) = NoAnswer nonce msg
Quiet nonce (now, tick n success) = ⊥
Quiet nonce (now, _) = Unit

window_at-peer : (now : ℕ) (l : Loop) → (window_at now l).peer ≡ l.peer
unfolding window_at
window_at-peer now l = elim (Bool-cases (leb second (now - l.rate_window_start))) [
  | inl new ↦ rw (new) refl
  | inr old ↦ rw (old) refl
]

pub limit-peer :
    (now : ℕ) (l : Loop)
    → (limit now l ≡ none) ⊎ ((l' : Loop) × (limit now l ≡ some l') × (l'.peer ≡ l.peer))
unfolding limit
limit-peer now l =
    elim (Bool-cases (ltb max_protocol_messages_per_sec ((window_at now l).rate_count + 1))) [
      | inl over ↦ inl (rw (over) refl)
      | inr under ↦ inr (
        record (window_at now l) { rate_count = (window_at now l).rate_count + 1 },
        rw (under) refl,
        window_at-peer now l,
      )
    ]

pub limited-peer :
    (now : ℕ) (l : Loop) (msg : NetworkMessage)
    → (limited now l msg ≡ none)
      ⊎ ((l' : Loop) × (limited now l msg ≡ some l') × (l'.peer ≡ l.peer))
unfolding limited
limited-peer now l msg = elim (Bool-cases (is_data_msg msg)) [
  | inl data_msg ↦ inr (l, rw (data_msg) refl, refl)
  | inr protocol ↦ elim (limit-peer now l) [
    | inl over ↦ inl (rw (protocol) over)
    | inr (l', e, same) ↦ inr (l', rw (protocol) e, same)
  ]
]

with_option-Waits :
    (time nonce : ℕ) (f : Peer → Peer) (o : Option Peer)
    → ((p : Peer) → Waits time nonce (some p) → Waits time nonce (some (f p)))
    → Waits time nonce o
    → Waits time nonce (elim o [ none ↦ none | some p ↦ some (f p) ])
with_option-Waits time nonce f none keeps w = w
with_option-Waits time nonce f (some p) keeps w = keeps p w

with_peer-Waits :
    (time nonce : ℕ) (f : Peer → Peer) (l : Loop)
    → ((p : Peer) → Waits time nonce (some p) → Waits time nonce (some (f p)))
    → Waiting time nonce l
    → Waiting time nonce (with_peer f l)
unfolding with_peer
with_peer-Waits time nonce f l keeps w = with_option-Waits time nonce f l.peer keeps w

on_pong-Waits :
    (now time nonce n : ℕ) (p : Peer)
    → n ≢ nonce
    → Waits time nonce (some p)
    → Waits time nonce (some (on_pong now n p))
unfolding on_pong is_nonce
on_pong-Waits now time nonce n p differs (sent_at, asked) =
    let other_nonce : (nonce == n) ≡ false = ground (arith, differs) in
    rw (asked, is_nonce) (rw (other_nonce) (sent_at, refl))

sent-Waits :
    (time nonce : ℕ) (l : Loop) (success : Bool) (a : Action)
    → Waiting time nonce l
    → After (Waiting time nonce) (sent l success a)
unfolding sent
sent-Waits time nonce l true a w = w
sent-Waits time nonce l false a w = tt

dispatch-Waits :
    (now time nonce : ℕ) (l : Loop) (msg : NetworkMessage) (success : Bool)
    → NoAnswer nonce msg
    → Waiting time nonce l
    → After (Waiting time nonce) (dispatch now l msg success)
unfolding dispatch
dispatch-Waits now time nonce l (ping n) success q w = sent-Waits time nonce l success (reply n) w
dispatch-Waits now time nonce l (pong n) success q w =
    with_peer-Waits time nonce (on_pong now n) l (λ p v. on_pong-Waits now time nonce n p q v) w
dispatch-Waits now time nonce l (version v) success q w =
    sent-Waits time nonce l success (forward (version v)) w
dispatch-Waits now time nonce l verack success q w =
    sent-Waits time nonce l success (forward verack) w
dispatch-Waits now time nonce l send_headers success q w =
    sent-Waits time nonce l success (forward send_headers) w
dispatch-Waits now time nonce l (block b) success q w =
    sent-Waits time nonce l success (forward (block b)) w
dispatch-Waits now time nonce l (tx b) success q w =
    sent-Waits time nonce l success (forward (tx b)) w
dispatch-Waits now time nonce l (headers b) success q w =
    sent-Waits time nonce l success (forward (headers b)) w
dispatch-Waits now time nonce l (other b) success q w =
    sent-Waits time nonce l success (forward (other b)) w

on_message-Waits :
    (now time nonce : ℕ) (l : Loop) (msg : NetworkMessage) (success : Bool)
    → NoAnswer nonce msg
    → Waiting time nonce l
    → After (Waiting time nonce) (on_message now (limited now l msg) msg success)
unfolding on_message see
on_message-Waits now time nonce l msg success q w = elim (limited-peer now l msg) [
  | inl over ↦ rw (over, on_message) tt
  | inr (l', e, same) ↦
      let kept : Waiting time nonce l' = subst (Waits time nonce) (sym same) w in
      rw (e, on_message)
        (dispatch-Waits now time nonce (with_peer (see now) l') msg success q
          (with_peer-Waits time nonce (see now) l' (λ p v. v) kept))
]

step-Waits :
    (now time nonce : ℕ) (l : Loop) (e : Event)
    → Quiet nonce (now, e)
    → Waiting time nonce l
    → After (Waiting time nonce) (step now l e)
unfolding step on_error
step-Waits now time nonce l read_timed_out q w = tt
step-Waits now time nonce l (received msg success) q w =
    on_message-Waits now time nonce l msg success q w
step-Waits now time nonce l (recv_failed encode) q w = w
step-Waits now time nonce l (recv_failed _) q w = tt
step-Waits now time nonce l (outbound msg success) q w =
    sent-Waits time nonce l success (write msg) w
step-Waits now time nonce l (tick n success) q w = absurd q

on_tick-Waits :
    (now nonce : ℕ) (l : Loop) (success : Bool)
    → ((p : Peer) × (l.peer ≡ some p))
    → After (Waiting now nonce) (on_tick now l nonce success)
unfolding on_tick with_peer pinged
on_tick-Waits now nonce l success (p, there) = elim (Bool-cases (is_stale now l.peer)) [
  | inl stale ↦ rw (stale) tt
  | inr fresh ↦ rw (fresh) (
      sent-Waits now nonce (with_peer (pinged now nonce) l) success (probe nonce)
        (rw (there) (refl, refl)))
]

is_stale-Waits :
    (time nonce now : ℕ) (o : Option Peer)
    → Waits time nonce o
    → time + ping_timeout < now
    → is_stale now o ≡ true
unfolding is_stale outstanding
is_stale-Waits time nonce now none w late = absurd w
is_stale-Waits time nonce now (some p) (sent_at, asked) late =
    rw (sent_at, outstanding) (rw (asked) (ground (arith, late)))

on_tick-stale :
    (now n : ℕ) (l : Loop) (success : Bool)
    → is_stale now l.peer ≡ true
    → on_tick now l n success ≡ break
unfolding on_tick
on_tick-stale now n l success stale = rw (stale) refl

-- Rounds that do not answer, and then a ping that comes too late.
run-Waits :
    (time nonce now n : ℕ) (success : Bool) (events rest : List (ℕ × Event)) (l : Loop)
    → time + ping_timeout < now
    → All (Quiet nonce) events
    → Waiting time nonce l
    → (run l (events ++ (now, tick n success) ∷ rest)).1 ≡ none
unfolding step
run-Waits time nonce now n success [] rest l late quiet w =
    ap (λ r. r.1)
      (run-break now l (tick n success) rest
        (on_tick-stale now n l success (is_stale-Waits time nonce now l.peer w late)))
run-Waits time nonce now n success ((at', e) ∷ events) rest l late (q, quiet) w =
    let all = events ++ (now, tick n success) ∷ rest in
    elim (Outcome-cases (step at' l e)) [
      | inl stop ↦ ap (λ r. r.1) (run-break at' l e all stop)
      | inr (l', actions, more) ↦
          let kept = subst (After (Waiting time nonce)) more (step-Waits at' time nonce l e q w) in
          ap (λ r. r.1) (run-next at' l l' e actions all more)
          ∙ run-Waits time nonce now n success events rest l' late quiet kept
    ]

-- A connected peer that is pinged and does not answer with the nonce of that ping is disconnected:
-- its loop has ended by the next ping, when that is more than 60 seconds later, whatever other
-- messages, errors and sends come between the two pings.
pub run-unanswered :
    (time nonce now n : ℕ) (pinged_ok success : Bool) (events rest : List (ℕ × Event)) (l : Loop)
    (p : Peer)
    → l.peer ≡ some p
    → All (Quiet nonce) events
    → time + ping_timeout < now
    → (run l ((time, tick nonce pinged_ok) ∷ (events ++ (now, tick n success) ∷ rest))).1 ≡ none
unfolding step
run-unanswered time nonce now n pinged_ok success events rest l p there quiet late =
    let all = events ++ (now, tick n success) ∷ rest in
    elim (Outcome-cases (step time l (tick nonce pinged_ok))) [
      | inl stop ↦ ap (λ r. r.1) (run-break time l (tick nonce pinged_ok) all stop)
      | inr (l', actions, more) ↦
          let kept =
            subst (After (Waiting time nonce)) more
              (on_tick-Waits time nonce l pinged_ok (p, there)) in
          ap (λ r. r.1) (run-next time l l' (tick nonce pinged_ok) actions all more)
          ∙ run-Waits time nonce now n success events rest l' late quiet kept
    ]
