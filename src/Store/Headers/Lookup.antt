-- ===== src/Store/Headers/Lookup.antt =====
-- What the lookups of crates/wolfe-store/src/headers.rs return, by hash and by height.
use bitcoin_wolfe.Prelude.{
  ℕ, ◌^◌, ◌<◌, ◌≡◌, ◌≢◌, refl, inl, inr, Option, none, some, Option-cases, length,
}
use bitcoin_wolfe.Bytes.{Bytes, to_be_bytes, length-to_be, from_be-to_be, to_be-injective}
use bitcoin_wolfe.Map.{get-insert_self, get-insert_ne}
use bitcoin_wolfe.Store.Error.{ok, copy_from_slice-ok}
use bitcoin_wolfe.Store.Tables.{HeaderLib, Redb, Tables}
use bitcoin_wolfe.Store.Headers.{
  StoredHeader, insert, decode, height_index, read_header, get_by_hash, follow_hash, get_by_height,
  stored_at, follow_hash_write, get_by_height_write,
}
use bitcoin_wolfe.Store.Headers.Index.{IsStored, IsIndexed}

module _ (M : Redb) (L : HeaderLib) where
  -- The block hash that a height names.
  abbrev pub hash_at : Tables M → ℕ → Option Bytes
  hash_at t height = M.get t.height_to_hash (to_be_bytes 4 height)

  decode-serialize : (h : L.Header) → decode M L (L.serialize h) ≡ ok h
  unfolding decode
  decode-serialize h = rw (L.deserialize-serialize h, decode)

  height_index-to_be :
      (height : ℕ) → height < 2 ^ 32 → height_index M L (some (to_be_bytes 4 height)) ≡ ok height
  unfolding height_index
  height_index-to_be height small =
      rw (copy_from_slice-ok 4 (to_be_bytes 4 height) (length-to_be 4 height))
        (rw (from_be-to_be 4 height small))

  module _ (t : Tables M) (height : ℕ) (small : height < 2 ^ 32) {hash : Bytes}
      (s : IsStored M L t (to_be_bytes 4 height) hash) where
    pub get_by_hash_stored :
        get_by_hash M L t hash
        ≡ ok (some (record { header = s.header; height = height; hash = hash }))
    unfolding get_by_hash
    get_by_hash_stored =
        rw (s.bytes, read_header)
          (rw (decode-serialize s.header) (rw (s.height) (rw (height_index-to_be height small))))

    length-hash : length hash ≡ 32
    length-hash = rw (← s.hashed) (L.length-block_hash s.header)

    pub get_by_height_stored :
        hash_at t height ≡ some hash
        → get_by_height M L t height
          ≡ ok (some (record { header = s.header; height = height; hash = hash }))
    unfolding get_by_height
    get_by_height_stored e =
        rw (e, follow_hash) (rw (copy_from_slice-ok 32 hash length-hash) get_by_hash_stored)

    pub get_by_height_write_stored :
        hash_at t height ≡ some hash
        → get_by_height_write M L t height
          ≡ ok (some (record { header = s.header; height = height; hash = hash }))
    unfolding get_by_height_write
    get_by_height_write_stored e =
        rw (e, follow_hash_write)
          (rw (copy_from_slice-ok 32 hash length-hash)
            (rw (s.bytes, stored_at) (rw (decode-serialize s.header))))

  pub get_by_height-none :
      (t : Tables M) (height : ℕ) → hash_at t height ≡ none → get_by_height M L t height ≡ ok none
  unfolding get_by_height
  get_by_height-none t height e = rw (e, follow_hash)

  pub get_by_height_write-none :
      (t : Tables M) (height : ℕ)
      → hash_at t height ≡ none
      → get_by_height_write M L t height ≡ ok none
  unfolding get_by_height_write
  get_by_height_write-none t height e = rw (e, follow_hash_write)

  -- On indexed tables, at a height below 2^32, the two copies of the lookup by height agree, and
  -- neither fails.
  pub get_by_height_write-eq_get_by_height :
      (t : Tables M) (height : ℕ)
      → height < 2 ^ 32
      → IsIndexed M L t
      → (found : Option (StoredHeader L)) × (get_by_height M L t height ≡ ok found)
        × (get_by_height_write M L t height ≡ ok found)
  get_by_height_write-eq_get_by_height t height small v = elim (Option-cases (hash_at t height)) [
    | inl e ↦ (none, get_by_height-none t height e, get_by_height_write-none t height e)
    | inr (hash, e) ↦
        let s = v.indexed (to_be_bytes 4 height) hash e in
        (
          some (record { header = s.header; height = height; hash = hash }),
          get_by_height_stored t height small s e,
          get_by_height_write_stored t height small s e,
        )
  ]

  pub hash_at-insert_self :
      (t : Tables M) (header : L.Header) (height : ℕ)
      → hash_at (insert M L t header height) height ≡ some (L.block_hash header)
  unfolding insert
  hash_at-insert_self t header height =
      get-insert_self M t.height_to_hash (to_be_bytes 4 height) (L.block_hash header)

  pub hash_at-insert_ne :
      (t : Tables M) (header : L.Header) (height j : ℕ)
      → height < 2 ^ 32
      → j < 2 ^ 32
      → height ≢ j
      → hash_at (insert M L t header height) j ≡ hash_at t j
  unfolding insert
  hash_at-insert_ne t header height j hh hj ne =
      get-insert_ne M t.height_to_hash (to_be_bytes 4 height) (to_be_bytes 4 j)
        (L.block_hash header) (λ e. ne (to_be-injective 4 height j hh hj e))

  pub inserted-IsStored :
      (t : Tables M) (header : L.Header) (height : ℕ)
      → IsStored M L (insert M L t header height) (to_be_bytes 4 height) (L.block_hash header)
  unfolding insert
  inserted-IsStored t header height = record {
    header = header;
    bytes = get-insert_self M t.headers (L.block_hash header) (L.serialize header);
    hashed = refl;
    height = get-insert_self M t.hash_to_height (L.block_hash header) (to_be_bytes 4 height);
  }

  -- A header that was just inserted, at a height below 2^32, is found at its height and by its hash.
  pub get-insert_stored :
      (t : Tables M) (header : L.Header) (height : ℕ)
      → height < 2 ^ 32
      → let stored : StoredHeader L = record {
        header = header;
        height = height;
        hash = L.block_hash header;
      } in
        (get_by_height M L (insert M L t header height) height ≡ ok (some stored))
        × (get_by_hash M L (insert M L t header height) (L.block_hash header) ≡ ok (some stored))
  unfolding inserted-IsStored
  get-insert_stored t header height small = (
    get_by_height_stored (insert M L t header height) height small
        (inserted-IsStored t header height) (hash_at-insert_self t header height),
    get_by_hash_stored (insert M L t header height) height small
        (inserted-IsStored t header height),
  )
