-- ===== src/Store/Node.antt =====
-- crates/wolfe-store/src/lib.rs: `NodeStore`. A write transaction works on the committed tables,
-- and its tables become the committed ones only where the function returns `ok`.
pub mod Reorg
pub mod Batch
use bitcoin_wolfe.Prelude.{ℕ, ◌+◌, ◌%◌, ◌^◌, Option, none, some, List, [], ◌∷◌, replicate}
use bitcoin_wolfe.Bytes.{Bytes}
use bitcoin_wolfe.Store.Error.{StoreResult, ok, err, panic, ◌>>=◌}
use bitcoin_wolfe.Store.Tables.{HeaderLib, Redb, Tables, no_tables}
use bitcoin_wolfe.Store.Headers
use bitcoin_wolfe.Store.Meta

-- What a caller sees: the tables after the call, and the result.
abbrev pub committed {ℓ} : {T : Type 0} {A : Type ℓ} → T → StoreResult (T × A) → T
committed before (ok (after, a)) = after
committed before (err e) = before
committed before panic = before

module _ (M : Redb) (L : HeaderLib) where
  -- A database that was just created.
  unfoldable pub open_new : Tables M
  unfolding Meta.init_if_needed
  open_new = (Meta.init_if_needed M (no_tables M)).0

  unfoldable pub insert_header_and_update_sync : Tables M → L.Header → ℕ → Tables M
  insert_header_and_update_sync t header height =
      Meta.set_sync_progress M (Headers.insert M L t header height) height (L.block_hash header)

  unfoldable pub insert_all : Tables M → List (L.Header × ℕ) → Tables M
  insert_all t [] = t
  insert_all t ((header, height) ∷ rest) = insert_all (Headers.insert M L t header height) rest

  unfoldable pub insert_headers_batch : Tables M → List (L.Header × ℕ) → Tables M
  unfolding insert_all
  insert_headers_batch t headers = elim (Headers.next_back headers) [
    | none ↦ t
    | some (last_header, last_height) ↦
        Meta.set_sync_progress M (insert_all t headers) last_height (L.block_hash last_header)
  ]

  -- The height and the hash of the tip that the connect phase leaves.
  unfoldable pub new_tip : ℕ × Bytes → List (L.Header × ℕ) → ℕ × Bytes
  new_tip acc [] = acc
  new_tip acc ((header, height) ∷ rest) = new_tip (height, L.block_hash header) rest

  unfoldable pub reorganize :
      Tables M → ℕ → ℕ → List (L.Header × ℕ) → StoreResult (Tables M × List Bytes)
  unfolding insert_all new_tip
  reorganize t current_height fork_height new_headers = do
    (t', disconnected) ← Headers.disconnect_range M L t current_height ((fork_height + 1) % 2 ^ 32)
    let tip = new_tip (fork_height, replicate 32 0) new_headers
    ok (Meta.set_sync_progress M (insert_all t' new_headers) tip.0 tip.1, disconnected)
