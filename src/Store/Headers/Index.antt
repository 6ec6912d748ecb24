-- ===== src/Store/Headers/Index.antt =====
-- The index tables of crates/wolfe-store/src/headers.rs agree: what `HEIGHT_TO_HASH` names is
-- stored, under the height that names it.
use bitcoin_wolfe.Prelude.{ℕ, ◌≡◌, sym, ◌≢◌, inl, inr, Option-cases, none, some, length, arith, ite}
use bitcoin_wolfe.Bytes.{Bytes, bytes_discrete, to_be_bytes, length-to_be}
use bitcoin_wolfe.Store.Error.{ok, copy_from_slice-ok}
use bitcoin_wolfe.Store.Tables.{HeaderLib, Redb, Tables, no_tables}
use bitcoin_wolfe.Store.Headers.{insert, copy_found, drop_height, remove}

module _ (M : Redb) (L : HeaderLib) where
  -- `hash` is stored with its header, at the height that `hb` encodes.
  pub record IsStored (t : Tables M) (hb hash : Bytes) : Type 0 where
    pub header : L.Header
    pub bytes : M.get t.headers hash ≡ some (L.serialize header)
    pub hashed : L.block_hash header ≡ hash
    pub height : M.get t.hash_to_height hash ≡ some hb

  pub record IsIndexed (t : Tables M) : Type 0 where
    pub indexed : (hb hash : Bytes) → M.get t.height_to_hash hb ≡ some hash → IsStored t hb hash
    pub four : (hash hb : Bytes) → M.get t.hash_to_height hash ≡ some hb → length hb ≡ 4

  pub no_tables-IsIndexed : IsIndexed (no_tables M)
  no_tables-IsIndexed = record {
    indexed = λ hb hash e. absurd (ground (arith, M.get-empty hb));
    four = λ hash hb e. absurd (ground (arith, M.get-empty hash));
  }

  insert-indexed :
      (t : Tables M) (header : L.Header) (height : ℕ)
      → IsIndexed t
      → ((hb : Bytes)
          → M.get t.hash_to_height (L.block_hash header) ≡ some hb
          → hb ≡ to_be_bytes 4 height)
      → (hb hash : Bytes) → M.get (insert M L t header height).height_to_hash hb ≡ some hash
      → IsStored (insert M L t header height) hb hash
  unfolding insert
  insert-indexed t header height v fresh hb hash e =
      elim (bytes_discrete (to_be_bytes 4 height) hb) [
        | yes p ↦
            let q : L.block_hash header ≡ hash = ground (
              arith,
              M.get-insert t.height_to_hash (to_be_bytes 4 height) hb (L.block_hash header),
            ) in
            record {
              header = header;
              bytes = ground (
                arith,
                q,
                M.get-insert t.headers (L.block_hash header) hash (L.serialize header),
              );
              hashed = q;
              height = ground (
                arith,
                q,
                p,
                M.get-insert t.hash_to_height (L.block_hash header) hash (to_be_bytes 4 height),
              );
            }
        | no p ↦
            let s : IsStored t hb hash = v.indexed hb hash (
              ground (
                arith,
                M.get-insert t.height_to_hash (to_be_bytes 4 height) hb (L.block_hash header),
              )) in
            let ne : L.block_hash header ≢ hash = λ q. p (sym (fresh hb (rw q s.height))) in
            record {
              header = s.header;
              bytes = ground (
                arith,
                s.bytes,
                M.get-insert t.headers (L.block_hash header) hash (L.serialize header),
              );
              hashed = s.hashed;
              height = ground (
                arith,
                s.height,
                M.get-insert t.hash_to_height (L.block_hash header) hash (to_be_bytes 4 height),
              );
            }
      ]

  -- Inserting a header that is new, or stored at this height already, keeps the index.
  pub insert-IsIndexed :
      (t : Tables M) (header : L.Header) (height : ℕ)
      → IsIndexed t
      → ((hb : Bytes)
          → M.get t.hash_to_height (L.block_hash header) ≡ some hb
          → hb ≡ to_be_bytes 4 height)
      → IsIndexed (insert M L t header height)
  unfolding insert
  insert-IsIndexed t header height v fresh = record {
    indexed = insert-indexed t header height v fresh;
    four = λ hash hb e. ground (
      arith,
      v.four hash hb,
      length-to_be 4 height,
      M.get-insert t.hash_to_height (L.block_hash header) hash (to_be_bytes 4 height),
    );
  }

  -- The tables after `remove`, which cannot fail on indexed tables.
  unfoldable pub removed : Tables M → Bytes → Tables M
  unfolding drop_height
  removed t hash =
      drop_height M L
        (record t {
          headers = M.remove t.headers hash;
          hash_to_height = M.remove t.hash_to_height hash;
        })
        (M.get t.hash_to_height hash)

  pub remove-eq-removed :
      (t : Tables M) (hash : Bytes) → IsIndexed t → remove M L t hash ≡ ok (removed t hash)
  unfolding remove removed
  remove-eq-removed t hash v = elim (Option-cases (M.get t.hash_to_height hash)) [
    | inl e ↦ rw (e, copy_found)
    | inr (hb, e) ↦ rw (e, copy_found) (rw (copy_from_slice-ok 4 hb (v.four hash hb e)))
  ]

  pub get-removed-headers :
      (t : Tables M) (hash j : Bytes)
      → M.get (removed t hash).headers j ≡ ite (bytes_discrete hash j) none (M.get t.headers j)
  unfolding removed
  get-removed-headers t hash j = elim (Option-cases (M.get t.hash_to_height hash)) [
    | inl e ↦ rw (e, drop_height) (M.get-remove t.headers hash j)
    | inr (hb, e) ↦ rw (e, drop_height) (M.get-remove t.headers hash j)
  ]

  pub get-removed-hash_to_height :
      (t : Tables M) (hash j : Bytes)
      → M.get (removed t hash).hash_to_height j
        ≡ ite (bytes_discrete hash j) none (M.get t.hash_to_height j)
  unfolding removed
  get-removed-hash_to_height t hash j = elim (Option-cases (M.get t.hash_to_height hash)) [
    | inl e ↦ rw (e, drop_height) (M.get-remove t.hash_to_height hash j)
    | inr (hb, e) ↦ rw (e, drop_height) (M.get-remove t.hash_to_height hash j)
  ]

  -- At a height of which `hash` is the block, nothing is left; all other heights keep theirs.
  pub get-removed-height_to_hash :
      (t : Tables M) (hash hb j : Bytes)
      → M.get t.hash_to_height hash ≡ some hb
      → M.get (removed t hash).height_to_hash j
        ≡ ite (bytes_discrete hb j) none (M.get t.height_to_hash j)
  unfolding removed
  get-removed-height_to_hash t hash hb j e =
      rw (e, drop_height) (M.get-remove t.height_to_hash hb j)

  get-removed_unknown :
      (t : Tables M) (hash j : Bytes)
      → M.get t.hash_to_height hash ≡ none
      → M.get (removed t hash).height_to_hash j ≡ M.get t.height_to_hash j
  unfolding removed
  get-removed_unknown t hash j e = rw (e, drop_height)

  -- What a height still names after `remove` it named before, and it is another block.
  survives :
      (t : Tables M) (hash hb h : Bytes)
      → IsIndexed t
      → M.get (removed t hash).height_to_hash hb ≡ some h
      → (M.get t.height_to_hash hb ≡ some h) × (hash ≢ h)
  survives t hash hb h v e = elim (Option-cases (M.get t.hash_to_height hash)) [
    | inl u ↦
        let old : M.get t.height_to_hash hb ≡ some h =
          ground (arith, get-removed_unknown t hash hb u) in
        (old, λ q. cc (u, q, (v.indexed hb h old).height))
    | inr (hb', u) ↦
        let old : M.get t.height_to_hash hb ≡ some h =
          ground (arith, get-removed-height_to_hash t hash hb' hb u) in
        (
          old,
          λ q. ground (
            arith,
            q,
            u,
            (v.indexed hb h old).height,
            get-removed-height_to_hash t hash hb' hb u,
          ),
        )
  ]

  pub removed-IsIndexed : (t : Tables M) (hash : Bytes) → IsIndexed t → IsIndexed (removed t hash)
  removed-IsIndexed t hash v = record {
    indexed = λ hb h e.
        let (old, ne) = survives t hash hb h v e in
        let s = v.indexed hb h old in
        record {
          header = s.header;
          bytes = ground (arith, s.bytes, get-removed-headers t hash h);
          hashed = s.hashed;
          height = ground (arith, s.height, get-removed-hash_to_height t hash h);
        };
    four = λ h hb e. ground (arith, v.four h hb, get-removed-hash_to_height t hash h);
  }
