-- ===== src/P2p/Loop/Forward.antt =====
-- What `run_peer_loop` of crates/wolfe-p2p/src/manager.rs passes on to the node.
use mathlib.Core.List.{append_assoc}
use mathlib.Core.Path.{subst}
use bitcoin_wolfe.Prelude.{
  ℕ, ◌≡◌, ◌⊎◌, inl, inr, refl, sym, ap, ◌∙◌, Bool, true, false, Bool-cases, Option, none, some,
  List, [], ◌∷◌, ◌++◌,
}
use bitcoin_wolfe.P2p.Stream.{encode}
use bitcoin_wolfe.P2p.Peer.{
  NetworkMessage, version, verack, send_headers, block, tx, headers, ping, pong, other,
}
use bitcoin_wolfe.P2p.Loop.{
  Loop, Event, read_timed_out, received, recv_failed, outbound, tick, Action, reply, probe, write,
  forward, Outcome, next, break, limited, with_peer, see, sent, dispatch, on_message, on_error,
  is_stale, pinged, on_tick, step, run, Outcome-cases, run-break, run-next,
}

abbrev pub forwarded : List Action → List NetworkMessage
forwarded [] = []
forwarded (forward msg ∷ actions) = msg ∷ forwarded actions
forwarded (_ ∷ actions) = forwarded actions

-- The messages that the rounds bring in, without pings and pongs.
abbrev pub due : List (ℕ × Event) → List NetworkMessage
due [] = []
due ((now, received (ping n) success) ∷ events) = due events
due ((now, received (pong n) success) ∷ events) = due events
due ((now, received msg success) ∷ events) = msg ∷ due events
due ((now, e) ∷ events) = due events

-- What the outcome of a round forwards, before the rest that is due.
abbrev Passes : List NetworkMessage → List NetworkMessage → Outcome → Type 0
Passes all rest break = Unit
Passes all rest (next l actions) = all ≡ forwarded actions ++ rest

forwarded-append : (xs ys : List Action) → forwarded (xs ++ ys) ≡ forwarded xs ++ forwarded ys
forwarded-append [] ys = refl
forwarded-append (forward msg ∷ xs) ys = ap (λ r. msg ∷ r) (forwarded-append xs ys)
forwarded-append (reply n ∷ xs) ys = forwarded-append xs ys
forwarded-append (probe n ∷ xs) ys = forwarded-append xs ys
forwarded-append (write msg ∷ xs) ys = forwarded-append xs ys

sent-Passes :
    (l : Loop) (success : Bool) (a : Action) (rest : List NetworkMessage)
    → Passes (forwarded (a ∷ []) ++ rest) rest (sent l success a)
unfolding sent
sent-Passes l true a rest = refl
sent-Passes l false a rest = tt

dispatch-Passes :
    (now at' : ℕ) (l : Loop) (msg : NetworkMessage) (success : Bool) (events : List (ℕ × Event))
    → Passes (due ((at', received msg success) ∷ events)) (due events) (dispatch now l msg success)
unfolding dispatch
dispatch-Passes now at' l (ping n) success events = sent-Passes l success (reply n) (due events)
dispatch-Passes now at' l (pong n) success events = refl
dispatch-Passes now at' l (version v) success events =
    sent-Passes l success (forward (version v)) (due events)
dispatch-Passes now at' l verack success events =
    sent-Passes l success (forward verack) (due events)
dispatch-Passes now at' l send_headers success events =
    sent-Passes l success (forward send_headers) (due events)
dispatch-Passes now at' l (block b) success events =
    sent-Passes l success (forward (block b)) (due events)
dispatch-Passes now at' l (tx b) success events =
    sent-Passes l success (forward (tx b)) (due events)
dispatch-Passes now at' l (headers b) success events =
    sent-Passes l success (forward (headers b)) (due events)
dispatch-Passes now at' l (other b) success events =
    sent-Passes l success (forward (other b)) (due events)

on_message-Passes :
    (now : ℕ) (o : Option Loop) (msg : NetworkMessage) (success : Bool) (events : List (ℕ × Event))
    → Passes
        (due ((now, received msg success) ∷ events))
        (due events)
        (on_message now o msg success)
unfolding on_message
on_message-Passes now none msg success events = tt
on_message-Passes now (some l) msg success events =
    dispatch-Passes now now (with_peer (see now) l) msg success events

on_tick-Passes :
    (now nonce : ℕ) (l : Loop) (success : Bool) (rest : List NetworkMessage)
    → Passes rest rest (on_tick now l nonce success)
unfolding on_tick
on_tick-Passes now nonce l success rest = elim (Bool-cases (is_stale now l.peer)) [
  | inl stale ↦ rw (stale) tt
  | inr fresh ↦ rw (fresh) (sent-Passes (with_peer (pinged now nonce) l) success (probe nonce) rest)
]

step-Passes :
    (now : ℕ) (l : Loop) (e : Event) (events : List (ℕ × Event))
    → Passes (due ((now, e) ∷ events)) (due events) (step now l e)
unfolding step on_error
step-Passes now l read_timed_out events = tt
step-Passes now l (received msg success) events =
    on_message-Passes now (limited now l msg) msg success events
step-Passes now l (recv_failed encode) events = refl
step-Passes now l (recv_failed _) events = tt
step-Passes now l (outbound msg success) events = sent-Passes l success (write msg) (due events)
step-Passes now l (tick n success) events = on_tick-Passes now n l success (due events)

-- The messages that `recv` returns are passed on in order, without the pings and the pongs, up to
-- the end of the loop.
pub run-forwarded :
    (l : Loop) (events : List (ℕ × Event))
    → (rest : List NetworkMessage) × (due events ≡ forwarded (run l events).0 ++ rest)
      × (((run l events).1 ≡ none) ⊎ (rest ≡ []))
unfolding run
run-forwarded l [] = ([], refl, inr refl)
run-forwarded l ((now, e) ∷ events) = elim (Outcome-cases (step now l e)) [
  | inl stop ↦
      let ends = run-break now l e events stop in
      (due ((now, e) ∷ events), rw (ends) refl, inl (ap (λ r. r.1) ends))
  | inr (l', actions, more) ↦
      let (rest, all, end) = run-forwarded l' events in
      let goes = run-next now l l' e actions events more in
      let here : due ((now, e) ∷ events) ≡ forwarded actions ++ due events =
        subst (Passes (due ((now, e) ∷ events)) (due events)) more (step-Passes now l e events) in
      (
        rest,
        here
            ∙ ap (λ d. forwarded actions ++ d) all
            ∙ sym (append_assoc (forwarded actions) (forwarded (run l' events).0) rest)
            ∙ ap (λ f. f ++ rest)
                (sym (forwarded-append actions (run l' events).0)
                  ∙ ap (λ r. forwarded r.0) (sym goes)),
        elim end [ inl none_left ↦ inl (ap (λ r. r.1) goes ∙ none_left) | inr whole ↦ inr whole ],
      )
]
