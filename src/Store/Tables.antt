-- ===== src/Store/Tables.antt =====
-- The tables of the database, and what the store uses of the `bitcoin` crate's block header.
use bitcoin_wolfe.Prelude.{◌≡◌, Bool, Option, some, length}
use bitcoin_wolfe.Bytes.{Bytes, bytes_discrete}
use bitcoin_wolfe.Map.{MapOps}

-- `bitcoin::block::Header` and the functions of it that the program calls. A header is decoded
-- from its own encoding, and a block hash has 32 bytes.
pub record HeaderLib : Type 1 where
  pub Header : Type 0
  pub serialize : Header → Bytes
  pub deserialize : Bytes → Option Header
  pub block_hash : Header → Bytes
  pub prev_blockhash : Header → Bytes
  -- `header.validate_pow(header.target()).is_ok()`
  pub validate_pow : Header → Bool
  pub deserialize-serialize : (h : Header) → deserialize (serialize h) ≡ some h
  pub length-block_hash : (h : Header) → length (block_hash h) ≡ 32

-- A redb table from byte strings to byte strings.
abbrev pub Redb : Type 1
Redb = MapOps bytes_discrete Bytes

-- The `TableDefinition`s of headers.rs, meta.rs and peers.rs.
pub record Tables (M : Redb) : Type 0 where
  pub headers : M.Map
  pub height_to_hash : M.Map
  pub hash_to_height : M.Map
  pub meta : M.Map
  pub peers : M.Map
  pub banned_peers : M.Map

abbrev pub no_tables : (M : Redb) → Tables M
no_tables M = record {
  headers = M.empty;
  height_to_hash = M.empty;
  hash_to_height = M.empty;
  meta = M.empty;
  peers = M.empty;
  banned_peers = M.empty;
}
