-- ===== src/Tests/Mempool.antt =====
-- The mempool of crates/wolfe-mempool on concrete transactions.
use bitcoin_wolfe.Prelude.{ℕ, ◌≡◌, ◌↔◌, refl, true, [], ◌∷◌, arith, ℕ_discrete}
use bitcoin_wolfe.Map.Assoc.{lookup, without}
use bitcoin_wolfe.Map.Entries.{insert_entry, dedup}
use bitcoin_wolfe.Mempool.Types.{Tx, MempoolConfig, MempoolEntry, ok}
use bitcoin_wolfe.Mempool.Policy.{check}
use bitcoin_wolfe.Mempool.Policy.Check.{IsStandard, check-IsStandard}
use bitcoin_wolfe.Mempool.Pool.{Mempool, new, new_entry, stored, add, remove_for_block}
use bitcoin_wolfe.Mempool.Pool.Size.{IsCounted}
use bitcoin_wolfe.Mempool.Pool.History.{Reach, here, next, added, confirmed, Reach-IsCounted}
use bitcoin_wolfe.Tests.Sample.{whole, mempool_txs, pool_map}

abbrev config : MempoolConfig whole
config = record {
  max_size_mb = 1;
  min_fee_rate = 1;
  max_datacarrier_bytes = 80;
  datacarrier = true;
  max_ancestors = 25;
  max_descendants = 25;
}

-- Transaction `id` spends output 0 of `parent`.
abbrev spend : ℕ → ℕ → Tx mempool_txs
spend id parent = record {
  input = record { txid = parent; vout = 0 } ∷ [];
  output = record { value = 1000; script_pubkey = 25 } ∷ [];
  rest = id;
}

abbrev pool₀ : Mempool whole mempool_txs pool_map
pool₀ = record { entries = []; total_bytes = 0; config = config; max_bytes = 1048576 }

abbrev entry₁ : MempoolEntry whole mempool_txs
entry₁ = new_entry whole mempool_txs pool_map 5 pool₀ (spend 11 1) 300

abbrev pool₁ : Mempool whole mempool_txs pool_map
pool₁ = stored whole mempool_txs pool_map pool₀ (spend 11 1) entry₁

unfoldable program : Unit {0}
unfolding lookup insert_entry dedup without ℕ_discrete add check
program = tt

added_once : add whole mempool_txs pool_map 5 pool₀ (spend 11 1) 300 ≡ ok (pool₁, 11)
unfolding program
added_once = refl

check-IsStandard_example :
    (check whole mempool_txs config (spend 12 11) ≡ ok tt)
    ↔ IsStandard whole mempool_txs config (spend 12 11)
check-IsStandard_example = check-IsStandard whole mempool_txs config (spend 12 11)

from_new : new whole mempool_txs pool_map config ≡ pool₀
unfolding new
from_new = refl

-- A transaction comes in, and leaves in a block.
history :
    Reach whole mempool_txs pool_map
      (new whole mempool_txs pool_map config)
      (remove_for_block whole mempool_txs pool_map pool₁ (11 ∷ []))
history =
    next (next here (added 5 (spend 11 1) 300 11 (rw from_new added_once)))
      (confirmed pool₁ (11 ∷ []))

Reach-IsCounted_example :
    IsCounted whole mempool_txs pool_map
      (remove_for_block whole mempool_txs pool_map pool₁ (11 ∷ []))
Reach-IsCounted_example =
    Reach-IsCounted whole mempool_txs pool_map config (omega arith) (λ tx. omega arith) history
