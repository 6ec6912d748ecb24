-- ===== src/Sync/Search.antt =====
-- The searches of crates/wolfe-node/src/sync.rs through the header store: the fork point, the
-- common ancestor of kernel and store, and the block locator.
pub mod Ancestor
pub mod Fork
pub mod Locator
use bitcoin_wolfe.Prelude.{
  ℕ, zero, suc, ◌+◌, ◌-◌, ◌*◌, ◌%◌, ◌^◌, Bool, true, false, Option, none, some, List, [], ◌∷◌, ◌++◌,
  ite, ltb, leb, ◌==◌, if◌then◌else◌, length, ◌&&◌, replicate,
}
use bitcoin_wolfe.Bytes.{Bytes, bytes_discrete}
use bitcoin_wolfe.Store.Error.{StoreResult, ok, err, panic}
use bitcoin_wolfe.Store.Tables.{HeaderLib, Redb, Tables}
use bitcoin_wolfe.Store.Headers.{StoredHeader, get_by_height, next_back}
use bitcoin_wolfe.Sync.State.{Inventory, Message, get_headers, TxLib}

-- `Ok(Some(stored))` of a lookup, with `none` for all else.
unfoldable pub found {ℓ} : {A : Type ℓ} → StoreResult (Option A) → Option A
found (ok (some a)) = some a
found _ = none

module _ (M : Redb) (L : HeaderLib) where
  -- The hash that the store gives for a height, cast to u32.
  unfoldable pub stored_hash : Tables M → ℕ → Option Bytes
  unfolding found
  stored_hash t height = elim (found (get_by_height M L t (height % 2 ^ 32))) [
    | none ↦ none
    | some s ↦ some s.hash
  ]

  unfoldable pub is_hash : Option Bytes → Bytes → Bool
  is_hash none h = false
  is_hash (some x) h = ite (bytes_discrete x h) true false

  -- The loop of `find_fork_point`, from a height down.
  unfoldable pub fork_search : Tables M → ℕ → Bytes → ℕ → Option ℕ
  unfolding is_hash
  fork_search t tip_height prev_hash zero =
      if is_hash (stored_hash t 0) prev_hash then some 0 else none
  fork_search t tip_height prev_hash (suc h) =
      let rest = fork_search t tip_height prev_hash h in
      if is_hash (stored_hash t (suc h)) prev_hash
      then some (suc h)
      else if ltb 2016 (tip_height - suc h)
      then none
      else rest

  unfoldable pub find_fork_point : Tables M → ℕ → Bytes → Option ℕ
  unfolding fork_search
  find_fork_point t tip_height prev_hash = fork_search t tip_height prev_hash tip_height

  module _ (to_hex : Bytes → Bytes) (get_block_at_height : ℕ → Option Bytes) where
    -- `if let (Some(kb), Some(sb))` and the comparison of the two hashes in hexadecimal.
    unfoldable pub agree : Option Bytes → Option Bytes → Bool
    agree (some kernel_hex) (some hash) = ite (bytes_discrete kernel_hex (to_hex hash)) true false
    agree _ _ = false

    unfoldable pub ancestor_search : Tables M → ℕ → ℕ → ℕ
    unfolding agree
    ancestor_search t start_height zero = 0
    ancestor_search t start_height (suc h) =
        let rest = ancestor_search t start_height h in
        if agree (get_block_at_height (suc h % 2 ^ 32)) (stored_hash t (suc h))
        then suc h
        else if ltb 1000 (start_height - suc h)
        then 0
        else rest

    unfoldable pub find_kernel_store_common_ancestor : Tables M → ℕ → ℕ
    unfolding ancestor_search
    find_kernel_store_common_ancestor t start_height = ancestor_search t start_height start_height

  unfoldable pub push_found : List Bytes → Option Bytes → List Bytes
  push_found locator none = locator
  push_found locator (some hash) = locator ++ hash ∷ []

  -- The loop of `build_locator`; `none` means that the fuel ran out.
  unfoldable pub locator_loop : ℕ → Tables M → ℕ → ℕ → List Bytes → Option (List Bytes)
  unfolding push_found
  locator_loop zero t height step locator = none
  locator_loop (suc fuel) t height step locator =
      let locator' = push_found locator (stored_hash t height) in
      let step' = if leb 10 (length locator') then step * 2 else step in
      let height' = if ltb height step' then 0 else height - step' in
      let rest = locator_loop fuel t height' step' locator' in
      if height == 0 then some locator' else rest

  unfoldable pub with_genesis : Bytes → List Bytes → List Bytes
  unfolding next_back is_hash
  with_genesis genesis locator =
      if is_hash (next_back locator) genesis then locator else locator ++ genesis ∷ []

  -- The height falls in every round, so the fuel does not run out.
  unfoldable pub build_locator : Tables M → ℕ → Bytes → List Bytes
  unfolding locator_loop with_genesis
  build_locator t tip_height genesis = elim (locator_loop (suc tip_height) t tip_height 1 []) [
    | none ↦ []
    | some locator ↦ with_genesis genesis locator
  ]

  module _ (T : TxLib) where
    unfoldable pub build_getheaders : Tables M → ℕ → Bytes → Message L T
    unfolding build_locator
    build_getheaders t tip_height genesis =
        get_headers 70016 (build_locator t tip_height genesis) (replicate 32 0)
