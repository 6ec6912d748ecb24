-- ===== src/Mempool/Pool.antt =====
-- crates/wolfe-mempool/src/pool.rs: `Mempool`. The counters are usize (64 bits) and wrap around;
-- an operation takes the mempool and returns the new one, and one that fails returns none.
pub mod Size
pub mod Parents
pub mod Admission
pub mod History
use mathlib.Core.List.{reverse}
use bitcoin_wolfe.Prelude.{
  ℕ, ◌+◌, ◌-◌, ◌*◌, ◌/◌, ◌%◌, ◌^◌, Bool, true, false, ◌&&◌, ◌||◌, not, Option, none, some, List, [],
  ◌∷◌, ◌++◌, map, ltb, leb, ◌==◌, if◌then◌else◌, get_elem?, length,
}
use bitcoin_wolfe.Sort.{sort_by}
use bitcoin_wolfe.Mempool.Types.{
  F64, lt, OutPoint, TxOut, TxLib, Tx, MempoolConfig, MempoolEntry, MempoolError, Result, ok, err,
  ◌>>=◌, ◌>>◌, Entries, full, too_many_ancestors, too_many_descendants, duplicate,
}
use bitcoin_wolfe.Mempool.Policy.{check, check_fee_rate, fee_rate_sat_per_vb}

-- Addition of u64 and usize.
abbrev pub add64 : ℕ → ℕ → ℕ
add64 a b = (a + b) % 2 ^ 64

abbrev pub sub64 : ℕ → ℕ → ℕ
sub64 a b = (a + 2 ^ 64 - b) % 2 ^ 64

module _ (F : F64) (B : TxLib) (E : Entries F B) where
  pub record Mempool : Type 0 where
    pub entries : E.Map
    pub total_bytes : ℕ
    pub config : MempoolConfig F
    pub max_bytes : ℕ

  unfoldable pub new : MempoolConfig F → Mempool
  new config = record {
    entries = E.empty;
    total_bytes = 0;
    config = config;
    max_bytes = config.max_size_mb * 1024 * 1024 % 2 ^ 64;
  }

  -- The value of the output that an input spends, if its transaction is in the mempool.
  unfoldable pub output_value : ℕ → Option (MempoolEntry F B) → Option ℕ
  output_value vout none = none
  output_value vout (some parent) = elim (get_elem? parent.tx.output vout) [
    | none ↦ none
    | some output ↦ some output.value
  ]

  -- The sum of the resolved inputs, and whether all are resolved.
  unfoldable pub resolve_inputs : E.Map → ℕ → Bool → List OutPoint → ℕ × Bool
  unfolding output_value
  resolve_inputs entries sum all [] = (sum, all)
  resolve_inputs entries sum all (o ∷ rest) =
      let value = output_value o.vout (E.get entries o.txid) in
      resolve_inputs entries (elim value [ none ↦ sum | some v ↦ add64 sum v ])
        (elim value [ none ↦ false | some v ↦ all ]) rest

  unfoldable pub output_sum : List (TxOut B.Script) → ℕ
  output_sum [] = 0
  output_sum (o ∷ rest) = add64 o.value (output_sum rest)

  -- `saturating_sub` is the subtraction of ℕ.
  unfoldable pub effective_fee : E.Map → Tx B → ℕ → ℕ
  unfolding resolve_inputs output_sum
  effective_fee entries tx fee =
      let (input_sum, all) = resolve_inputs entries 0 true tx.input in
      if fee == 0
      then (if all && ltb 0 input_sum then input_sum - output_sum tx.output else fee)
      else fee

  unfoldable pub parent_count : Option (MempoolEntry F B) → ℕ
  parent_count none = 0
  parent_count (some parent) = add64 1 parent.ancestor_count

  unfoldable pub count_ancestors : E.Map → ℕ → List OutPoint → ℕ
  unfolding parent_count
  count_ancestors entries n [] = n
  count_ancestors entries n (o ∷ rest) =
      count_ancestors entries (add64 n (parent_count (E.get entries o.txid))) rest

  unfoldable pub check_parent : ℕ → Option (MempoolEntry F B) → Result F (Unit {0})
  check_parent limit none = ok tt
  check_parent limit (some parent) =
      if leb limit parent.descendant_count
      then err (too_many_descendants (add64 parent.descendant_count 1) limit)
      else ok tt

  unfoldable pub check_descendants : E.Map → ℕ → List OutPoint → Result F (Unit {0})
  unfolding check_parent
  check_descendants entries limit [] = ok tt
  check_descendants entries limit (o ∷ rest) = do
    check_parent limit (E.get entries o.txid)
    check_descendants entries limit rest

  -- `get_mut` on a parent, and `descendant_count += 1`.
  unfoldable pub bump : E.Map → ℕ → Option (MempoolEntry F B) → E.Map
  bump entries txid none = entries
  bump entries txid (some parent) =
      E.insert entries txid (record parent { descendant_count = add64 parent.descendant_count 1 })

  unfoldable pub bump_parents : E.Map → List OutPoint → E.Map
  unfolding bump
  bump_parents entries [] = entries
  bump_parents entries (o ∷ rest) = bump_parents (bump entries o.txid (E.get entries o.txid)) rest

  unfoldable pub duplicate_rule : ℕ → Option (MempoolEntry F B) → Result F (Unit {0})
  duplicate_rule txid none = ok tt
  duplicate_rule txid (some _) = err (duplicate txid)

  unfoldable pub fee_rule : MempoolConfig F → ℕ → ℕ → F.Float → Result F (Unit {0})
  unfolding check_fee_rate
  fee_rule c fee effective rate =
      if ltb 0 fee || ltb 0 effective then check_fee_rate F B c rate else ok tt

  unfoldable pub capacity_rule : Mempool → ℕ → Result F (Unit {0})
  capacity_rule p size =
      if ltb p.max_bytes (add64 p.total_bytes size)
      then err (full p.total_bytes (p.max_bytes / (1024 * 1024)))
      else ok tt

  unfoldable pub ancestor_rule : ℕ → ℕ → Result F (Unit {0})
  ancestor_rule limit count =
      if ltb limit count then err (too_many_ancestors count limit) else ok tt

  -- The entry that `add` stores.
  unfoldable pub new_entry : ℕ → Mempool → Tx B → ℕ → MempoolEntry F B
  unfolding effective_fee fee_rate_sat_per_vb count_ancestors
  new_entry now p tx fee =
      let effective = effective_fee p.entries tx fee in
      record {
        tx = tx;
        txid = B.compute_txid tx;
        fee = effective;
        fee_rate = fee_rate_sat_per_vb F B tx effective;
        size_vbytes = B.vbytes_ceil tx;
        added_at = now;
        ancestor_count = count_ancestors p.entries 0 tx.input;
        descendant_count = 0;
      }

  -- The checks of `add`, in its order.
  unfoldable pub admit : Mempool → Tx B → ℕ → MempoolEntry F B → Result F (Unit {0})
  unfolding check duplicate_rule fee_rule capacity_rule ancestor_rule check_descendants
  admit p tx fee entry = do
    duplicate_rule entry.txid (E.get p.entries entry.txid)
    check F B p.config tx
    fee_rule p.config fee entry.fee entry.fee_rate
    capacity_rule p entry.size_vbytes
    ancestor_rule p.config.max_ancestors entry.ancestor_count
    check_descendants p.entries p.config.max_descendants tx.input

  -- The mempool after the entry is inserted and its parents are counted up.
  unfoldable pub stored : Mempool → Tx B → MempoolEntry F B → Mempool
  unfolding bump_parents
  stored p tx entry = record p {
    entries = bump_parents (E.insert p.entries entry.txid entry) tx.input;
    total_bytes = add64 p.total_bytes entry.size_vbytes;
  }

  unfoldable pub add : ℕ → Mempool → Tx B → ℕ → Result F (Mempool × ℕ)
  unfolding new_entry admit stored
  add now p tx fee = do
    let entry = new_entry now p tx fee
    admit p tx fee entry
    ok (stored p tx entry, entry.txid)

  unfoldable pub remove_found : Mempool → ℕ → Option (MempoolEntry F B) → Mempool
  remove_found p txid none = p
  remove_found p txid (some entry) = record p {
    entries = E.remove p.entries txid;
    total_bytes = sub64 p.total_bytes entry.size_vbytes;
  }

  -- The mempool after `remove`; the source returns the entry that `get` gives before it.
  unfoldable pub remove : Mempool → ℕ → Mempool
  unfolding remove_found
  remove p txid = remove_found p txid (E.get p.entries txid)

  unfoldable pub remove_for_block : Mempool → List ℕ → Mempool
  unfolding remove
  remove_for_block p [] = p
  remove_for_block p (txid ∷ rest) = remove_for_block (remove p txid) rest

  unfoldable pub values : List (ℕ × MempoolEntry F B) → List (MempoolEntry F B)
  values [] = []
  values ((k, e) ∷ rest) = e ∷ values rest

  -- `b.partial_cmp(a).unwrap_or(Equal)` is not `Greater`: not `a < b`.
  abbrev pub rate_ge : MempoolEntry F B → MempoolEntry F B → Bool
  rate_ge a b = not (lt F a.fee_rate b.fee_rate)

  unfoldable pub get_sorted_by_fee_rate : Mempool → List (MempoolEntry F B)
  unfolding values
  get_sorted_by_fee_rate p = sort_by rate_ge (values (E.iter p.entries))

  -- The loop of `trim`, over the entries in the order in which they are popped.
  unfoldable pub trim_loop : Mempool → List (MempoolEntry F B) → Mempool
  unfolding remove
  trim_loop p [] = p
  trim_loop p (e ∷ rest) =
      let next = trim_loop (remove p e.txid) rest in
      if ltb p.max_bytes p.total_bytes then next else p

  unfoldable pub trim : Mempool → Mempool
  unfolding trim_loop get_sorted_by_fee_rate
  trim p =
      if leb p.total_bytes p.max_bytes then p else trim_loop p (reverse (get_sorted_by_fee_rate p))

  unfoldable pub expired : ℕ → ℕ → List (ℕ × MempoolEntry F B) → List ℕ
  expired now max_age [] = []
  expired now max_age ((k, e) ∷ rest) =
      let more = expired now max_age rest in
      if ltb max_age (now - e.added_at) then e.txid ∷ more else more

  unfoldable pub expire : ℕ → Mempool → ℕ → Mempool
  unfolding expired remove_for_block
  expire now p max_age = remove_for_block p (expired now max_age (E.iter p.entries))

  unfoldable pub len : Mempool → ℕ
  len p = length (E.iter p.entries)

  -- The first bucket whose boundary the rate reaches.
  unfoldable pub count_in : F.Float → List (F.Float × ℕ) → List (F.Float × ℕ)
  count_in rate [] = []
  count_in rate ((bound, n) ∷ rest) =
      let more = count_in rate rest in
      if F.le bound rate then (bound, n + 1) ∷ rest else (bound, n) ∷ more

  unfoldable pub count_all : List (MempoolEntry F B) → List (F.Float × ℕ) → List (F.Float × ℕ)
  unfolding count_in
  count_all [] buckets = buckets
  count_all (e ∷ rest) buckets = count_all rest (count_in e.fee_rate buckets)

  unfoldable pub non_empty : List (F.Float × ℕ) → List (F.Float × ℕ)
  non_empty [] = []
  non_empty ((bound, n) ∷ rest) =
      let more = non_empty rest in if ltb 0 n then (bound, n) ∷ more else more

  abbrev pub boundaries : List ℕ
  boundaries = 500 ∷ 200 ∷ 100 ∷ 50 ∷ 20 ∷ 10 ∷ 5 ∷ 2 ∷ 1 ∷ []

  unfoldable pub fee_histogram : Mempool → List (F.Float × ℕ)
  unfolding count_all non_empty values
  fee_histogram p =
      non_empty (count_all (values (E.iter p.entries)) (map (λ b. (F.of_ℕ b, 0)) boundaries))
