-- ===== src/Store/Peers.antt =====
-- crates/wolfe-store/src/peers.rs: `PeerStore`, known and banned peers. Addresses are the bytes of
-- their text.
pub mod Bans
pub mod Records
use bitcoin_wolfe.Prelude.{
  ◌≡◌, ℕ, ◌+◌, ◌*◌, ◌%◌, ◌^◌, Bool, not, Option, none, some, List, [], ◌∷◌, leb, ltb, if◌then◌else◌,
  length, take,
}
use bitcoin_wolfe.Bytes.{Bytes, to_be_bytes, from_be_bytes}
use bitcoin_wolfe.Sort.{sort_by}
use bitcoin_wolfe.Store.Error.{StoreResult, ok, err, json, ◌>>=◌, copy_from_slice}
use bitcoin_wolfe.Store.Tables.{Redb, Tables}

-- `count` is the field `connection_count`, and so on: all fields of the source.
pub record PeerRecord : Type 0 where
  pub addr : Bytes
  pub services : ℕ
  pub last_seen : ℕ
  pub first_seen : ℕ
  pub connection_count : ℕ
  pub fail_count : ℕ
  pub user_agent : Bytes

-- `serde_json` on peer records: a record is read back from its own JSON.
pub record JsonLib : Type 0 where
  pub to_vec : PeerRecord → Bytes
  pub from_slice : Bytes → Option PeerRecord
  pub from_slice-to_vec : (r : PeerRecord) → from_slice (to_vec r) ≡ some r

-- The ban expiry that a stored value encodes.
unfoldable pub until : Bytes → StoreResult ℕ
until val = do buf ← copy_from_slice 8 val; ok (from_be_bytes buf)

unfoldable pub simple_hash : ℕ → Bytes → ℕ
simple_hash h [] = h
simple_hash h (b ∷ rest) = simple_hash ((h * 6364136223846793005 % 2 ^ 64 + b) % 2 ^ 64) rest

module _ (M : Redb) where
  unfoldable pub ban : Tables M → Bytes → ℕ → Tables M
  ban t addr until_unix = record t {
    banned_peers = M.insert t.banned_peers addr (to_be_bytes 8 until_unix);
  }

  unfoldable pub unban : Tables M → Bytes → Tables M
  unban t addr = record t { banned_peers = M.remove t.banned_peers addr }

  -- The first loop of `purge_expired_bans`: the addresses whose ban has expired.
  unfoldable pub expired_of : ℕ → List (Bytes × Bytes) → StoreResult (List Bytes)
  unfolding until
  expired_of now [] = ok []
  expired_of now ((addr, val) ∷ entries) = do
    u ← until val
    rest ← expired_of now entries
    ok (if leb u now then addr ∷ rest else rest)

  unfoldable pub remove_keys : M.Map → List Bytes → M.Map
  remove_keys m [] = m
  remove_keys m (addr ∷ rest) = remove_keys (M.remove m addr) rest

  unfoldable pub purge_expired_bans : Tables M → ℕ → StoreResult (Tables M × ℕ)
  unfolding expired_of remove_keys
  purge_expired_bans t now_unix = do
    expired ← expired_of now_unix (M.iter t.banned_peers)
    ok (record t { banned_peers = remove_keys t.banned_peers expired }, length expired)

  unfoldable pub ban_at : ℕ → Option Bytes → StoreResult (Option ℕ)
  unfolding until
  ban_at now none = ok none
  ban_at now (some val) = do u ← until val; ok (if ltb now u then some u else none)

  unfoldable pub is_banned : Tables M → Bytes → ℕ → StoreResult (Option ℕ)
  unfolding ban_at
  is_banned t addr now_unix = ban_at now_unix (M.get t.banned_peers addr)

  unfoldable pub banned_count : Tables M → ℕ
  banned_count t = length (M.iter t.banned_peers)

  unfoldable pub count : Tables M → ℕ
  count t = length (M.iter t.peers)

  module _ (J : JsonLib) where
    unfoldable pub upsert : Tables M → PeerRecord → Tables M
    upsert t r = record t { peers = M.insert t.peers r.addr (J.to_vec r) }

    unfoldable pub parse : Bytes → StoreResult PeerRecord
    parse val = elim (J.from_slice val) [ none ↦ err json | some r ↦ ok r ]

    unfoldable pub parse_found : Option Bytes → StoreResult (Option PeerRecord)
    unfolding parse
    parse_found none = ok none
    parse_found (some val) = do r ← parse val; ok (some r)

    unfoldable pub get : Tables M → Bytes → StoreResult (Option PeerRecord)
    unfolding parse_found
    get t addr = parse_found (M.get t.peers addr)

    unfoldable pub parse_all : List (Bytes × Bytes) → StoreResult (List PeerRecord)
    unfolding parse
    parse_all [] = ok []
    parse_all ((key, val) ∷ entries) = do r ← parse val; rest ← parse_all entries; ok (r ∷ rest)

    -- `sort_by_key(|r| Reverse(r.last_seen))`
    abbrev pub seen_later : PeerRecord → PeerRecord → Bool
    seen_later a b = leb b.last_seen a.last_seen

    unfoldable pub list_all : Tables M → StoreResult (List PeerRecord)
    unfolding parse_all
    list_all t = do records ← parse_all (M.iter t.peers); ok (sort_by seen_later records)

    unfoldable pub ban_holds : ℕ → Option Bytes → StoreResult Bool
    unfolding until
    ban_holds now none = ok Bool.false
    ban_holds now (some val) = do u ← until val; ok (ltb now u)

    -- The records whose address is not banned.
    unfoldable pub candidates : Tables M → ℕ → List PeerRecord → StoreResult (List PeerRecord)
    unfolding ban_holds
    candidates t now [] = ok []
    candidates t now (r ∷ rs) = do
      banned ← ban_holds now (M.get t.banned_peers r.addr)
      rest ← candidates t now rs
      ok (if banned then rest else r ∷ rest)

    abbrev pub hash_le : ℕ → PeerRecord → PeerRecord → Bool
    hash_le now a b = leb (simple_hash now a.addr) (simple_hash now b.addr)

    unfoldable pub get_random : Tables M → ℕ → ℕ → StoreResult (List PeerRecord)
    unfolding list_all candidates
    get_random t n now_unix = do
      all ← list_all t
      found ← candidates t now_unix all
      ok (take n (sort_by (hash_le now_unix) found))

  unfoldable pub remove : Tables M → Bytes → Tables M
  remove t addr = record t { peers = M.remove t.peers addr }
