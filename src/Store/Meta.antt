-- ===== src/Store/Meta.antt =====
-- crates/wolfe-store/src/meta.rs: `MetaStore`, node metadata and sync progress.
use bitcoin_wolfe.Prelude.{
  ℕ, ◌^◌, ◌<◌, ◌≡◌, ◌≢◌, ap, ◌∙◌, Bool, true, false, Option, none, some, ◌==◌, if◌then◌else◌,
  length, arith, Option-cases, inl, inr,
}
use bitcoin_wolfe.Bytes.{Bytes, to_be_bytes, from_be_bytes, length-to_be, from_be-to_be, str}
use bitcoin_wolfe.Map.{get-insert_self, get-insert_ne}
use bitcoin_wolfe.Store.Error.{StoreResult, ok, err, meta_key_not_found, corruption}
use bitcoin_wolfe.Store.Tables.{Redb, Tables}

abbrev pub key_sync_height : Bytes
key_sync_height = str "sync_height"

abbrev pub key_sync_hash : Bytes
key_sync_hash = str "sync_hash"

abbrev pub key_node_id : Bytes
key_node_id = str "node_id"

abbrev pub key_user_agent : Bytes
key_user_agent = str "user_agent"

abbrev pub key_network : Bytes
key_network = str "network"

abbrev pub key_db_version : Bytes
key_db_version = str "db_version"

abbrev pub current_db_version : ℕ
current_db_version = 1

-- `Some(bytes) if bytes.len() == n => Some(..)`, `_ => None`.
unfoldable pub sized : ℕ → Option Bytes → Option Bytes
sized n none = none
sized n (some bytes) = if length bytes == n then some bytes else none

unfoldable pub be_value : Option Bytes → Option ℕ
be_value none = none
be_value (some buf) = some (from_be_bytes buf)

module _ (M : Redb) where
  unfoldable pub set : Tables M → Bytes → Bytes → Tables M
  set t key value = record t { meta = M.insert t.meta key value }

  unfoldable pub get : Tables M → Bytes → Option Bytes
  get t key = M.get t.meta key

  unfoldable pub get_required : Tables M → Bytes → StoreResult Bytes
  unfolding get
  get_required t key = elim (get t key) [ none ↦ err (meta_key_not_found key) | some v ↦ ok v ]

  unfoldable pub remove : Tables M → Bytes → Tables M
  remove t key = record t { meta = M.remove t.meta key }

  unfoldable pub set_sync_progress : Tables M → ℕ → Bytes → Tables M
  unfolding set
  set_sync_progress t height hash =
      set (set t key_sync_height (to_be_bytes 4 height)) key_sync_hash hash

  unfoldable pub sync_height : Tables M → Option ℕ
  unfolding get sized be_value
  sync_height t = be_value (sized 4 (get t key_sync_height))

  unfoldable pub sync_hash : Tables M → Option Bytes
  unfolding get sized
  sync_hash t = sized 32 (get t key_sync_hash)

  unfoldable pub set_node_id : Tables M → Bytes → Tables M
  unfolding set
  set_node_id t id = set t key_node_id id

  unfoldable pub node_id : Tables M → Option Bytes
  unfolding get
  node_id t = get t key_node_id

  unfoldable pub set_db_version : Tables M → ℕ → Tables M
  unfolding set
  set_db_version t version = set t key_db_version (to_be_bytes 4 version)

  unfoldable pub db_version : Tables M → Option ℕ
  unfolding get sized be_value
  db_version t = be_value (sized 4 (get t key_db_version))

  -- `true` if the initialisation was performed.
  unfoldable pub init_if_needed : Tables M → Tables M × Bool
  unfolding get set_db_version
  init_if_needed t = elim (get t key_db_version) [
    | none ↦ (set_db_version t current_db_version, true)
    | some _ ↦ (t, false)
  ]

  -- Texts are stored as their UTF-8 bytes; `is_utf8` is the test of `String::from_utf8`.
  module _ (is_utf8 : Bytes → Bool) where
    unfoldable pub utf8_value : Option Bytes → StoreResult (Option Bytes)
    utf8_value none = ok none
    utf8_value (some bytes) = if is_utf8 bytes then ok (some bytes) else err corruption

    unfoldable pub user_agent : Tables M → StoreResult (Option Bytes)
    unfolding get utf8_value
    user_agent t = utf8_value (get t key_user_agent)

    unfoldable pub network : Tables M → StoreResult (Option Bytes)
    unfolding get utf8_value
    network t = utf8_value (get t key_network)

  unfoldable pub set_user_agent : Tables M → Bytes → Tables M
  unfolding set
  set_user_agent t ua = set t key_user_agent ua

  unfoldable pub set_network : Tables M → Bytes → Tables M
  unfolding set
  set_network t name = set t key_network name

  sized_be : (x : ℕ) → x < 2 ^ 32 → be_value (sized 4 (some (to_be_bytes 4 x))) ≡ some x
  unfolding sized be_value
  sized_be x small = ground (arith, length-to_be 4 x, from_be-to_be 4 x small)

  -- Reading the sync progress back gives what was set: the height, if it is below 2^32, and the hash
  -- if it has 32 bytes.
  pub sync_progress-set_self :
      (t : Tables M) (height : ℕ) (hash : Bytes)
      → height < 2 ^ 32
      → (sync_height (set_sync_progress t height hash) ≡ some height)
        × (sync_hash (set_sync_progress t height hash)
            ≡ (if length hash == 32 then some hash else none))
  unfolding sync_height sync_hash set_sync_progress
  sync_progress-set_self t height hash small = (
    ap (λ o. be_value (sized 4 o))
          (get-insert_ne M (M.insert t.meta key_sync_height (to_be_bytes 4 height)) key_sync_hash
              key_sync_height hash (λ e. omega (arith, ap length e))
            ∙ get-insert_self M t.meta key_sync_height (to_be_bytes 4 height))
        ∙ sized_be height small,
    ap (sized 32) (
        get-insert_self M (M.insert t.meta key_sync_height (to_be_bytes 4 height)) key_sync_hash
          hash),
  )

  -- Setting the sync progress leaves every other key as it is.
  pub get-set_sync_progress_ne :
      (t : Tables M) (height : ℕ) (hash key : Bytes)
      → key_sync_height ≢ key
      → key_sync_hash ≢ key
      → get (set_sync_progress t height hash) key ≡ get t key
  unfolding get set_sync_progress
  get-set_sync_progress_ne t height hash key n₁ n₂ =
      get-insert_ne M _ key_sync_hash key hash n₂
      ∙ get-insert_ne M t.meta key_sync_height key (to_be_bytes 4 height) n₁

  -- A second initialisation changes nothing, and says so.
  pub init_if_needed_idempotent :
      (t : Tables M) → init_if_needed (init_if_needed t).0 ≡ ((init_if_needed t).0, false)
  unfolding init_if_needed
  init_if_needed_idempotent t = elim (Option-cases (M.get t.meta key_db_version)) [
    | inl e ↦
        ground (arith, get-insert_self M t.meta key_db_version (to_be_bytes 4 current_db_version))
    | inr (v, e) ↦ ground arith
  ]
