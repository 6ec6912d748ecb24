-- ===== src/Store/Node/Batch.antt =====
-- `insert_headers_batch` of crates/wolfe-store/src/lib.rs.
use bitcoin_wolfe.Prelude.{
  ℕ, ◌+◌, ◌-◌, ◌^◌, ◌<◌, ◌≤◌, ◌≡◌, refl, ◌∙◌, some, List, [], ◌∷◌, length, arith,
}
use bitcoin_wolfe.Bytes.{Bytes, to_be_bytes}
use bitcoin_wolfe.Store.Tables.{HeaderLib, Redb, Tables}
use bitcoin_wolfe.Store.Headers.{insert, next_back}
use bitcoin_wolfe.Store.Headers.Index.{IsIndexed, insert-IsIndexed}
use bitcoin_wolfe.Store.Headers.Lookup.{hash_at, hash_at-insert_self, hash_at-insert_ne}
use bitcoin_wolfe.Store.Meta
use bitcoin_wolfe.Store.Node.{insert_headers_batch, insert_all}

module _ (M : Redb) (L : HeaderLib) where
  -- The heights of the batch count up from `start`.
  abbrev pub CountsUp : ℕ → List (L.Header × ℕ) → Type 0
  CountsUp start [] = Unit
  CountsUp start ((header, height) ∷ rest) = (height ≡ start) × CountsUp (start + 1) rest

  -- Each header is new when its turn comes, or was stored at the same height.
  abbrev pub Insertable : Tables M → List (L.Header × ℕ) → Type 0
  Insertable t [] = Unit
  Insertable t ((header, height) ∷ rest) =
      ((hb : Bytes)
        → M.get t.hash_to_height (L.block_hash header) ≡ some hb
        → hb ≡ to_be_bytes 4 height)
      × Insertable (insert M L t header height) rest

  -- Each header of the batch is the block that its height names.
  abbrev pub Connected : Tables M → List (L.Header × ℕ) → Type 0
  Connected t [] = Unit
  Connected t ((header, height) ∷ rest) =
      (hash_at M L t height ≡ some (L.block_hash header)) × Connected t rest

  hash_at-insert_all :
      (start j : ℕ) (t : Tables M) (l : List (L.Header × ℕ))
      → start + length l ≤ 2 ^ 32
      → j < start
      → CountsUp start l
      → hash_at M L (insert_all M L t l) j ≡ hash_at M L t j
  unfolding insert_all
  hash_at-insert_all start j t [] h below c = refl
  hash_at-insert_all start j t ((header, height) ∷ l) h below (e, c) =
      hash_at-insert_all (start + 1) j (insert M L t header height) l (omega arith) (omega arith) c
      ∙ hash_at-insert_ne M L t header height j (omega arith) (omega arith) (omega arith)

  insert_all-Connected :
      (start : ℕ) (t : Tables M) (l : List (L.Header × ℕ))
      → start + length l ≤ 2 ^ 32
      → CountsUp start l
      → Connected (insert_all M L t l) l
  unfolding insert_all
  insert_all-Connected start t [] h c = tt
  insert_all-Connected start t ((header, height) ∷ l) h (e, c) = (
    hash_at-insert_all (start + 1) height (insert M L t header height) l (omega arith) (omega arith)
          c
        ∙ hash_at-insert_self M L t header height,
    insert_all-Connected (start + 1) (insert M L t header height) l (omega arith) c,
  )

  insert_all-IsIndexed :
      (t : Tables M) (l : List (L.Header × ℕ))
      → IsIndexed M L t
      → Insertable t l
      → IsIndexed M L (insert_all M L t l)
  unfolding insert_all
  insert_all-IsIndexed t [] v f = v
  insert_all-IsIndexed t ((header, height) ∷ l) v (f, fs) =
      insert_all-IsIndexed (insert M L t header height) l (insert-IsIndexed M L t header height v f)
        fs

  pub next_back-cons :
      (x y : L.Header × ℕ) (l : List (L.Header × ℕ)) → next_back (x ∷ y ∷ l) ≡ next_back (y ∷ l)
  unfolding next_back
  next_back-cons x y l = ground arith

  pub next_back-one : (x : L.Header × ℕ) → next_back (x ∷ []) ≡ some x
  unfolding next_back
  next_back-one x = refl

  -- The last element of a list that counts up.
  pub last_height :
      (start : ℕ) (x : L.Header × ℕ) (l : List (L.Header × ℕ))
      → CountsUp start (x ∷ l)
      → (h : L.Header) × (next_back (x ∷ l) ≡ some (h, start + length l))
  last_height start (h, n) [] (e, c) =
      let q : n ≡ start + 0 = omega arith in (h, next_back-one (h, n) ∙ rw q)
  last_height start (h, n) (y ∷ l) (e, c) =
      let (h', found) = last_height (start + 1) y l c in
      let q : start + 1 + length l ≡ start + length (y ∷ l) = omega arith in
      (h', next_back-cons (h, n) y l ∙ found ∙ rw q)

  -- What a batch of headers that counts up from `start` leaves.
  pub record Extended (t : Tables M) (start : ℕ) (l : List (L.Header × ℕ)) (t' : Tables M)
      : Type 0 where
    pub connected : Connected t' l
    pub kept : (j : ℕ) → j < start → hash_at M L t' j ≡ hash_at M L t j
    pub indexed : IsIndexed M L t'
    pub progress : Meta.sync_height M t' ≡ some (start + length l - 1)

  IsIndexed-set_sync_progress :
      (t : Tables M) (height : ℕ) (hash : Bytes)
      → IsIndexed M L t
      → IsIndexed M L (Meta.set_sync_progress M t height hash)
  unfolding Meta.set_sync_progress
  IsIndexed-set_sync_progress t height hash v = record {
    indexed = λ hb h e.
        let s = v.indexed hb h e in
        record { header = s.header; bytes = s.bytes; hashed = s.hashed; height = s.height };
    four = v.four;
  }

  extend :
      (t : Tables M) (start : ℕ) (x : L.Header × ℕ) (l : List (L.Header × ℕ)) (hash : Bytes)
      → start + length (x ∷ l) ≤ 2 ^ 32
      → CountsUp start (x ∷ l)
      → IsIndexed M L t
      → Insertable t (x ∷ l)
      → Extended t start
          (x ∷ l)
          (Meta.set_sync_progress M (insert_all M L t (x ∷ l)) (start + length l) hash)
  extend t start x l hash small c v f =
      let t' = insert_all M L t (x ∷ l) in
      let sync = Meta.sync_progress-set_self M t' (start + length l) hash (omega arith) in
      let last : start + length l ≡ start + length (x ∷ l) - 1 = omega arith in
      record {
        connected = unfold Meta.set_sync_progress in insert_all-Connected start t (x ∷ l) small c;
        kept = λ j below.
            unfold Meta.set_sync_progress in hash_at-insert_all start j t (x ∷ l) small below c;
        indexed =
            IsIndexed-set_sync_progress t' (start + length l) hash
              (insert_all-IsIndexed t (x ∷ l) v f);
        progress = sync.0 ∙ rw last;
      }

  -- On indexed tables a batch of headers, each new or stored at its height already, that counts up
  -- from `start` within 32 bits extends the chain: every header of it is at its height, the
  -- heights below `start` keep their blocks, the index stays sound, and the stored sync height is
  -- the last height of the batch.
  pub insert_headers_batch-Extended :
      (t : Tables M) (start : ℕ) (x : L.Header × ℕ) (l : List (L.Header × ℕ))
      → start + length (x ∷ l) ≤ 2 ^ 32
      → CountsUp start (x ∷ l)
      → IsIndexed M L t
      → Insertable t (x ∷ l)
      → Extended t start (x ∷ l) (insert_headers_batch M L t (x ∷ l))
  unfolding insert_headers_batch
  insert_headers_batch-Extended t start x l small c v f =
      let (h, found) = last_height start x l c in
      rw (found, insert_headers_batch) (extend t start x l (L.block_hash h) small c v f)
