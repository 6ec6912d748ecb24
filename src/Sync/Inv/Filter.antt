-- ===== src/Sync/Inv/Filter.antt =====
-- The filter on known transactions of `handle_inv` in crates/wolfe-node/src/sync.rs.
use bitcoin_wolfe.Prelude.{
  ℕ, ◌≡◌, refl, sym, ap, ◌∙◌, Bool, true, false, ◌&&◌, ◌||◌, Bool-cases, inl, inr, some, none, List,
  [], ◌∷◌, ◌++◌, map, if◌then◌else◌,
}
use bitcoin_wolfe.Prelude.{In, ◌↔◌, ◌≢◌, if_pos, if_neg, arith}
use mathlib.Core.List.{append-nil, append_assoc}
use bitcoin_wolfe.Bytes.{Bytes, bytes_discrete}
use bitcoin_wolfe.Store.Tables.{HeaderLib, Redb}
use bitcoin_wolfe.Sync.State.{
  SyncEngine, TxLib, Response, Inventory, contains, get_data, witness_transaction,
}
use bitcoin_wolfe.Sync.Request.{getheaders_from}
use bitcoin_wolfe.Sync.Inv.{
  Announced, announce_tx, announce, announce_all, is_synced, request_txs, handle_inv,
}

-- A block is announced.
abbrev pub announces_block : Inventory → Bool
announces_block (Inventory.block h) = true
announces_block (Inventory.compact_block h) = true
announces_block _ = false

unfoldable pub any_block : List Inventory → Bool
any_block [] = false
any_block (inv ∷ rest) = announces_block inv || any_block rest

-- The ids of the transactions that are announced.
abbrev pub announced_ids : List Inventory → List Bytes
announced_ids [] = []
announced_ids (Inventory.transaction id ∷ rest) = id ∷ announced_ids rest
announced_ids (Inventory.wtx id ∷ rest) = id ∷ announced_ids rest
announced_ids (inv ∷ rest) = announced_ids rest

-- The ids are those of the announced ones that are not known.
abbrev pub AreNewOf : List Bytes → List Bytes → List Bytes → Type 0
AreNewOf known announced ids =
    (id : Bytes) → In id ids ↔ (In id announced × (contains known id ≡ false))

-- The ids are known from now on.
unfoldable pub remember : List Bytes → List Bytes → List Bytes
remember [] known = known
remember (id ∷ rest) known = remember rest (id ∷ known)

-- Each id is new when its turn comes: none is known, and none comes twice.
abbrev pub AllNew : List Bytes → List Bytes → Type 0
AllNew known [] = Unit
AllNew known (id ∷ rest) = (contains known id ≡ false) × AllNew (id ∷ known) rest

contains_other :
    (known : List Bytes) (id i : Bytes) → id ≢ i → contains (id ∷ known) i ≡ contains known i
unfolding contains
contains_other known id i ne = if_neg (bytes_discrete id i) ne true (contains known i)

contains_self : (known : List Bytes) (id : Bytes) → contains (id ∷ known) id ≡ true
unfolding contains
contains_self known id = if_pos (bytes_discrete id id) refl true (contains known id)

-- A known one is announced before the others.
AreNewOf-known :
    (known announced ids : List Bytes) (id : Bytes)
    → contains known id ≡ true
    → AreNewOf known announced ids
    → AreNewOf known (id ∷ announced) ids
AreNewOf-known known announced ids id there new i =
    let (to, from) = new i in
    (
      λ m. (inr (to m).0, (to m).1),
      λ (m, fresh). elim m [
        | inl e ↦ absurd (ground (arith, sym there ∙ ap (contains known) e ∙ fresh))
        | inr m' ↦ from (m', fresh)
      ],
    )

-- A new one is announced before the others, and known to them.
AreNewOf-new :
    (known announced ids : List Bytes) (id : Bytes)
    → contains known id ≡ false
    → AreNewOf (id ∷ known) announced ids
    → AreNewOf known (id ∷ announced) (id ∷ ids)
AreNewOf-new known announced ids id fresh new i =
    let (to, from) = new i in
    (
      λ m. elim m [
        | inl e ↦ (inl e, ap (contains known) (sym e) ∙ fresh)
        | inr m' ↦ elim (bytes_discrete id i) [
          | yes e ↦ (inl e, ap (contains known) (sym e) ∙ fresh)
          | no ne ↦ (inr (to m').0, sym (contains_other known id i ne) ∙ (to m').1)
        ]
      ],
      λ (m, unseen). elim (bytes_discrete id i) [
        | yes e ↦ inl e
        | no ne ↦ elim m [
          | inl e ↦ inl e
          | inr m' ↦ inr (from (m', contains_other known id i ne ∙ unseen))
        ]
      ],
    )

or_assoc : (x y z : Bool) → ((x || y) || z) ≡ (x || (y || z))
or_assoc true y z = refl
or_assoc false y z = refl

or_false : (x : Bool) → x ≡ (x || false)
or_false true = refl
or_false false = refl

or_true : (x : Bool) → true ≡ (x || true)
or_true true = refl
or_true false = refl

-- The loop has added the requests of `ids`.
pub record Added (a : Announced) (txs ids : List Bytes) (block : Bool) (a' : Announced)
    : Type 0 where
  pub requests : a'.tx_requests ≡ a.tx_requests ++ map witness_transaction ids
  pub known : a'.known ≡ remember ids a.known
  pub new : AllNew a.known ids
  pub exact : AreNewOf a.known txs ids
  pub has_block : a'.has_block ≡ a.has_block || block

nothing_before :
    (a b a' : Announced) (txs ids : List Bytes) (here later : Bool)
    → b.tx_requests ≡ a.tx_requests
    → b.known ≡ a.known
    → b.has_block ≡ a.has_block || here
    → Added b txs ids later a'
    → Added a txs ids (here || later) a'
nothing_before a b a' txs ids here later e f g r = record {
  requests = rw (← e) r.requests;
  known = rw (← f) r.known;
  new = rw (← f) r.new;
  exact = rw (← f) r.exact;
  has_block = r.has_block ∙ ap (λ x. x || later) g ∙ or_assoc a.has_block here later;
}

tx_before :
    (a a' : Announced) (id : Bytes) (txs ids : List Bytes) (later : Bool)
    → contains a.known id ≡ false
    → Added
        (record a {
          tx_requests = a.tx_requests ++ witness_transaction id ∷ [];
          known = id ∷ a.known;
        })
        txs
        ids
        later
        a'
    → Added a (id ∷ txs) (id ∷ ids) later a'
unfolding remember
tx_before a a' id txs ids later fresh r = record {
  requests =
      r.requests
      ∙ append_assoc a.tx_requests (witness_transaction id ∷ []) (map witness_transaction ids);
  known = r.known;
  new = (fresh, r.new);
  exact = AreNewOf-new a.known txs ids id fresh r.exact;
  has_block = r.has_block;
}

-- One announced transaction, before announcements that add `ids`.
announce_tx-Added :
    (a : Announced) (id : Bytes) (txs : List Bytes) (l : List Inventory) (later : Bool)
    → ((b : Announced) → (ids : List Bytes) × Added b txs ids later (announce_all b l))
    → (ids : List Bytes) × Added a (id ∷ txs) ids later (announce_all (announce_tx a id) l)
unfolding announce_tx
announce_tx-Added a id txs l later rest = elim (Bool-cases (contains a.known id)) [
  | inl e ↦
      let (ids, r) = rest a in
      rw (e, announce_tx)
        (
          ids,
          record {
            requests = r.requests;
            known = r.known;
            new = r.new;
            exact = AreNewOf-known a.known txs ids id e r.exact;
            has_block = r.has_block;
          },
        )
  | inr e ↦
      let next = record a {
        tx_requests = a.tx_requests ++ witness_transaction id ∷ [];
        known = id ∷ a.known;
      } in
      let (ids, r) = rest next in
      rw (e, announce_tx) (id ∷ ids, tx_before a (announce_all next l) id txs ids later e r)
]

block_before :
    (a : Announced) (l : List Inventory)
    → (ids : List Bytes) × Added
        (record a { has_block = true })
        (announced_ids l)
        ids
        (any_block l)
        (announce_all (record a { has_block = true }) l)
    → (ids : List Bytes) × Added a
        (announced_ids l)
        ids
        true
        (announce_all (record a { has_block = true }) l)
block_before a l (ids, r) = (
  ids,
  nothing_before a (record a { has_block = true }) (announce_all (record a { has_block = true }) l)
      (announced_ids l) ids true (any_block l) refl refl (or_true a.has_block) r,
)

announce_all-Added :
    (a : Announced) (l : List Inventory)
    → (ids : List Bytes) × Added a (announced_ids l) ids (any_block l) (announce_all a l)
unfolding announce_all announce any_block
announce_all-Added a [] = (
  [],
  record {
    requests = sym (append-nil a.tx_requests);
    known = unfold remember in refl;
    new = tt;
    exact = λ id. (λ m. absurd m, λ m. absurd m.0);
    has_block = or_false a.has_block;
  },
)
announce_all-Added a (Inventory.block h ∷ l) =
    block_before a l (announce_all-Added (record a { has_block = true }) l)
announce_all-Added a (Inventory.compact_block h ∷ l) =
    block_before a l (announce_all-Added (record a { has_block = true }) l)
announce_all-Added a (Inventory.witness_block h ∷ l) = announce_all-Added a l
announce_all-Added a (Inventory.transaction h ∷ l) =
    announce_tx-Added a h (announced_ids l) l (any_block l) (λ b. announce_all-Added b l)
announce_all-Added a (Inventory.wtx h ∷ l) =
    announce_tx-Added a h (announced_ids l) l (any_block l) (λ b. announce_all-Added b l)
announce_all-Added a (Inventory.witness_transaction h ∷ l) = announce_all-Added a l
announce_all-Added a (Inventory.other ∷ l) = announce_all-Added a l

module _ (M : Redb) (L : HeaderLib) (T : TxLib) where
  -- A request for transactions, if there are any.
  abbrev pub ask_for : ℕ → List Bytes → Response L T
  ask_for peer [] = none
  ask_for peer (id ∷ ids) = some (peer, get_data (map witness_transaction (id ∷ ids)))

  request_txs-ask_for :
      (s : SyncEngine M L T) (peer : ℕ) (ids : List Bytes)
      → request_txs M L T s peer (map witness_transaction ids) ≡ (s, ask_for peer ids)
  unfolding request_txs
  request_txs-ask_for s peer [] = refl
  request_txs-ask_for s peer (id ∷ ids) = refl

  -- What `handle_inv` does with the new ids of an inventory.
  pub record Filtered (s : SyncEngine M L T) (peer : ℕ) (inventory : List Inventory)
      (ids : List Bytes) (s' : SyncEngine M L T) (r : Response L T) : Type 0 where
    pub exact : AreNewOf s.known_txids (announced_ids inventory) ids
    pub new : AllNew s.known_txids ids
    pub known : s'.known_txids ≡ remember ids s.known_txids
    pub answer : r ≡ (
        if any_block inventory && is_synced s.state
        then getheaders_from M L T s peer
        else ask_for peer ids)

  -- `handle_inv` makes known exactly the transactions of the inventory, announced by either kind of
  -- id, that were not, each once. It asks the peer for them, unless a block is announced while the
  -- engine is synced: then it asks for headers alone, and the transactions are known without having
  -- been asked for.
  pub handle_inv-Filtered :
      (now : ℕ) (s : SyncEngine M L T) (peer : ℕ) (inventory : List Inventory)
      → (ids : List Bytes) × Filtered s peer inventory ids
          (handle_inv M L T now s peer inventory).0
          (handle_inv M L T now s peer inventory).1
  unfolding handle_inv
  handle_inv-Filtered now s peer inventory =
      let (ids, a) =
        announce_all-Added (record { tx_requests = []; has_block = false; known = s.known_txids })
          inventory in
      elim (Bool-cases (any_block inventory && is_synced s.state)) [
        | inl e ↦ (
          ids,
          rw (a.has_block) (
              rw (e)
                (record { exact = a.exact; new = a.new; known = a.known; answer = rw e refl })),
        )
        | inr e ↦ (
          ids,
          rw (a.has_block) (
              rw (e) (
                rw (a.requests) (
                  rw (request_txs-ask_for) (record {
                    exact = a.exact;
                    new = a.new;
                    known = a.known;
                    answer = rw e refl;
                  })))),
        )
      ]
