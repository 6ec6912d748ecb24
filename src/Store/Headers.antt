-- ===== src/Store/Headers.antt =====
-- crates/wolfe-store/src/headers.rs: `HeaderStore`. A write transaction is a value of the tables
-- that each operation takes and returns.
pub mod Index
pub mod Lookup
pub mod Disconnect
use bitcoin_wolfe.Prelude.{ℕ, zero, suc, ◌+◌, ◌-◌, Option, none, some, List, [], ◌∷◌, ◌++◌, length}
use bitcoin_wolfe.Bytes.{Bytes, to_be_bytes, from_be_bytes}
use bitcoin_wolfe.Store.Error.{
  StoreResult, ok, err, panic, ◌>>=◌, corruption, bitcoin_encode, copy_from_slice,
}
use bitcoin_wolfe.Store.Tables.{HeaderLib, Redb, Tables}

-- A stored block header together with its chain height.
pub record StoredHeader (L : HeaderLib) : Type 0 where
  pub header : L.Header
  pub height : ℕ
  pub hash : Bytes

-- The last element of an iteration, `iter.next_back()`.
unfoldable pub next_back {ℓ} : {A : Type ℓ} → List A → Option A
next_back [] = none
next_back (x ∷ xs) = elim (next_back xs) [ none ↦ some x | some y ↦ some y ]

module _ (M : Redb) (L : HeaderLib) where
  unfoldable pub insert : Tables M → L.Header → ℕ → Tables M
  insert t header height =
      let hash = L.block_hash header in
      record t {
        headers = M.insert t.headers hash (L.serialize header);
        height_to_hash = M.insert t.height_to_hash (to_be_bytes 4 height) hash;
        hash_to_height = M.insert t.hash_to_height hash (to_be_bytes 4 height);
      }

  -- A value that a table may lack, copied into a buffer of `n` bytes.
  unfoldable pub copy_found : ℕ → Option Bytes → StoreResult (Option Bytes)
  copy_found n none = ok none
  copy_found n (some val) = do buf ← copy_from_slice n val; ok (some buf)

  unfoldable pub drop_height : Tables M → Option Bytes → Tables M
  drop_height t none = t
  drop_height t (some hb) = record t { height_to_hash = M.remove t.height_to_hash hb }

  unfoldable pub remove : Tables M → Bytes → StoreResult (Tables M)
  unfolding copy_found drop_height
  remove t hash = do
    height_bytes ← copy_found 4 (M.get t.hash_to_height hash)
    let removed = record t {
      headers = M.remove t.headers hash;
      hash_to_height = M.remove t.hash_to_height hash;
    }
    ok (drop_height removed height_bytes)

  unfoldable pub decode : Bytes → StoreResult L.Header
  decode val = elim (L.deserialize val) [ none ↦ err bitcoin_encode | some header ↦ ok header ]

  -- The height index of a stored header: it must be there.
  unfoldable pub height_index : Option Bytes → StoreResult ℕ
  height_index none = err corruption
  height_index (some val) = do buf ← copy_from_slice 4 val; ok (from_be_bytes buf)

  unfoldable pub read_header :
      Tables M → Bytes → Option Bytes → StoreResult (Option (StoredHeader L))
  unfolding decode height_index
  read_header t hash none = ok none
  read_header t hash (some val) = do
    header ← decode val
    height ← height_index (M.get t.hash_to_height hash)
    ok (some (record { header = header; height = height; hash = hash }))

  unfoldable pub get_by_hash : Tables M → Bytes → StoreResult (Option (StoredHeader L))
  unfolding read_header
  get_by_hash t hash = read_header t hash (M.get t.headers hash)

  unfoldable pub follow_hash : Tables M → Option Bytes → StoreResult (Option (StoredHeader L))
  unfolding get_by_hash
  follow_hash t none = ok none
  follow_hash t (some val) = do hash ← copy_from_slice 32 val; get_by_hash t hash

  unfoldable pub get_by_height : Tables M → ℕ → StoreResult (Option (StoredHeader L))
  unfolding follow_hash
  get_by_height t height = follow_hash t (M.get t.height_to_hash (to_be_bytes 4 height))

  unfoldable pub last_entry :
      Tables M → Option (Bytes × Bytes) → StoreResult (Option (StoredHeader L))
  unfolding get_by_hash
  last_entry t none = ok none
  last_entry t (some (key, val)) = do
    height_buf ← copy_from_slice 4 key
    hash ← copy_from_slice 32 val
    get_by_hash t hash

  unfoldable pub tip : Tables M → StoreResult (Option (StoredHeader L))
  unfolding last_entry
  tip t = last_entry t (next_back (M.iter t.height_to_hash))

  unfoldable pub count : Tables M → ℕ
  count t = length (M.iter t.headers)

  unfoldable pub stored_at : ℕ → Bytes → Option Bytes → StoreResult (Option (StoredHeader L))
  unfolding decode
  stored_at height hash none = err corruption
  stored_at height hash (some val) = do
    header ← decode val
    ok (some (record { header = header; height = height; hash = hash }))

  unfoldable pub follow_hash_write :
      Tables M → ℕ → Option Bytes → StoreResult (Option (StoredHeader L))
  unfolding stored_at
  follow_hash_write t height none = ok none
  follow_hash_write t height (some val) = do
    hash ← copy_from_slice 32 val
    stored_at height hash (M.get t.headers hash)

  unfoldable pub get_by_height_write : Tables M → ℕ → StoreResult (Option (StoredHeader L))
  unfolding follow_hash_write
  get_by_height_write t height =
      follow_hash_write t height (M.get t.height_to_hash (to_be_bytes 4 height))

  -- The body of the loop of `disconnect_range`, after the lookup.
  unfoldable pub disconnect_found :
      Tables M → List Bytes → Option (StoredHeader L) → StoreResult (Tables M × List Bytes)
  disconnect_found t removed none = ok (t, removed)
  disconnect_found t removed (some stored) = do
    t' ← remove t stored.hash
    ok (t', removed ++ stored.hash ∷ [])

  -- The body of the loop at one height.
  unfoldable pub disconnect_round : Tables M → List Bytes → ℕ → StoreResult (Tables M × List Bytes)
  unfolding disconnect_found
  disconnect_round t removed h = do
    found ← get_by_height_write t h
    disconnect_found t removed found

  -- `k` rounds are left, at the heights `to_height + k - 1` down to `to_height`.
  unfoldable pub disconnect_loop :
      ℕ → ℕ → Tables M → List Bytes → StoreResult (Tables M × List Bytes)
  unfolding disconnect_round
  disconnect_loop zero to_height t removed = ok (t, removed)
  disconnect_loop (suc k) to_height t removed = do
    (t', removed') ← disconnect_round t removed (to_height + k)
    disconnect_loop k to_height t' removed'

  unfoldable pub disconnect_range : Tables M → ℕ → ℕ → StoreResult (Tables M × List Bytes)
  disconnect_range t from_height to_height =
      disconnect_loop (from_height + 1 - to_height) to_height t []
