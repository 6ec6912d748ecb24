-- ===== src/Store/Peers/Bans.antt =====
-- Bans of crates/wolfe-store/src/peers.rs: purging expired bans changes no answer of `is_banned`.
use bitcoin_wolfe.Prelude.{
  ℕ, ◌^◌, ◌<◌, ◌≤◌, ◌≡◌, refl, Bool, true, false, Option, none, some, List, [], ◌∷◌, leb, ltb,
  if◌then◌else◌, length, arith, ite, if_pos, if_neg,
}
use bitcoin_wolfe.Bytes.{
  Bytes, bytes_discrete, to_be_bytes, from_be_bytes, length-to_be, from_be-to_be,
}
use bitcoin_wolfe.Map.{get-insert_self, get-remove_self}
use bitcoin_wolfe.Map.Assoc.{lookup, Distinct}
use bitcoin_wolfe.Store.Error.{ok, copy_from_slice-ok}
use bitcoin_wolfe.Store.Tables.{Redb, Tables}
use bitcoin_wolfe.Store.Peers.{
  ban, unban, until, expired_of, remove_keys, purge_expired_bans, ban_at, is_banned,
}

module _ (M : Redb) where
  -- Every stored expiry has the eight bytes of a u64.
  pub record BansAreU64 (t : Tables M) : Type 0 where
    pub eight : (addr val : Bytes) → M.get t.banned_peers addr ≡ some val → length val ≡ 8

  pub until-ok : (val : Bytes) → length val ≡ 8 → until val ≡ ok (from_be_bytes val)
  unfolding until
  until-ok val h = rw (copy_from_slice-ok 8 val h)

  pub ban-BansAreU64 :
      (t : Tables M) (addr : Bytes) (u : ℕ) → BansAreU64 t → BansAreU64 (ban M t addr u)
  unfolding ban
  ban-BansAreU64 t addr u v = record {
    eight = λ a val e. ground (
      arith,
      v.eight a val,
      length-to_be 8 u,
      M.get-insert t.banned_peers addr a (to_be_bytes 8 u),
    );
  }

  -- A ban with a 64-bit expiry holds before its expiry, and not from it on; lifting it ends it at
  -- once.
  pub is_banned-ban :
      (t : Tables M) (addr : Bytes) (u now : ℕ)
      → u < 2 ^ 64
      → (is_banned M (ban M t addr u) addr now ≡ ok (if ltb now u then some u else none))
        × (is_banned M (unban M (ban M t addr u) addr) addr now ≡ ok none)
  unfolding is_banned ban unban
  is_banned-ban t addr u now small = (
    rw (get-insert_self M t.banned_peers addr (to_be_bytes 8 u), ban_at)
        (rw (until-ok (to_be_bytes 8 u) (length-to_be 8 u), from_be-to_be 8 u small)),
    rw (get-remove_self M (M.insert t.banned_peers addr (to_be_bytes 8 u)) addr, ban_at),
  )

  has : Bytes → List Bytes → Bool
  has a [] = false
  has a (k ∷ ks) = ite (bytes_discrete k a) true (has a ks)

  get-remove_keys :
      (m : M.Map) (ks : List Bytes) (a : Bytes)
      → M.get (remove_keys M m ks) a ≡ (if has a ks then none else M.get m a)
  unfolding remove_keys has
  get-remove_keys m [] a = refl
  get-remove_keys m (k ∷ ks) a =
      ground (arith, get-remove_keys (M.remove m k) ks a, M.get-remove m k a)

  -- Whether a stored expiry has passed.
  abbrev passed : ℕ → Option Bytes → Bool
  passed now none = false
  passed now (some val) = leb (from_be_bytes val) now

  lookup-older :
      (k v a val : Bytes) (l : List (Bytes × Bytes))
      → lookup bytes_discrete k l ≡ none
      → lookup bytes_discrete a l ≡ some val
      → lookup bytes_discrete a ((k, v) ∷ l) ≡ some val
  unfolding lookup
  lookup-older k v a val l absent e = ground arith

  has-passed :
      (now : ℕ) (k v a : Bytes) (l : List (Bytes × Bytes)) (ks : List Bytes)
      → lookup bytes_discrete k l ≡ none
      → has a ks ≡ passed now (lookup bytes_discrete a l)
      → has a (if leb (from_be_bytes v) now then k ∷ ks else ks)
        ≡ passed now (lookup bytes_discrete a ((k, v) ∷ l))
  unfolding lookup has
  has-passed now k v a l ks absent same = elim (bytes_discrete k a) [
    | yes p ↦
        let gone : lookup bytes_discrete a l ≡ none = rw (← p) absent in
        rw (if_pos _ p) (ground (arith, gone))
    | no p ↦ rw (if_neg _ p) (ground arith)
  ]

  lookup-first :
      (k v : Bytes) (l : List (Bytes × Bytes)) → lookup bytes_discrete k ((k, v) ∷ l) ≡ some v
  unfolding lookup
  lookup-first k v l = ground arith

  ban_at-purged :
      (now later : ℕ) (o : Option Bytes)
      → now ≤ later
      → ((val : Bytes) → o ≡ some val → length val ≡ 8)
      → ban_at M later (if passed now o then none else o) ≡ ban_at M later o
  unfolding ban_at
  ban_at-purged now later none le h = refl
  ban_at-purged now later (some val) le h = ground (arith, until-ok val (h val refl))

  -- The expired addresses are the ones whose stored expiry has passed.
  expired_of_lem :
      (now : ℕ) (l : List (Bytes × Bytes))
      → Distinct bytes_discrete l
      → ((a val : Bytes) → lookup bytes_discrete a l ≡ some val → length val ≡ 8)
      → (ks : List Bytes) × (expired_of M now l ≡ ok ks)
        × ((a : Bytes) → has a ks ≡ passed now (lookup bytes_discrete a l))
  unfolding expired_of lookup has
  expired_of_lem now [] d h = ([], refl, λ a. refl)
  expired_of_lem now ((k, v) ∷ l) (absent, d) h =
      let (ks, run, same) =
        expired_of_lem now l d (λ a val e. h a val (lookup-older k v a val l absent e)) in
      (
        (if leb (from_be_bytes v) now then k ∷ ks else ks),
        rw (until-ok v (h k v (lookup-first k v l)), run),
        λ a. has-passed now k v a l ks absent (same a),
      )

  -- Where every stored expiry has 8 bytes, purging cannot fail, and no address changes its answer,
  -- at the time of the purge or later.
  pub is_banned-purge_expired_bans :
      (t : Tables M) (now later : ℕ) (addr : Bytes)
      → now ≤ later
      → BansAreU64 t
      → (t' : Tables M) × (n : ℕ) × (purge_expired_bans M t now ≡ ok (t', n))
        × (is_banned M t' addr later ≡ is_banned M t addr later)
  unfolding purge_expired_bans is_banned
  is_banned-purge_expired_bans t now later addr le v =
      let (ks, run, same) =
        expired_of_lem now (M.iter t.banned_peers) (M.iter-Distinct t.banned_peers)
          (λ a val e. v.eight a val (rw (M.lookup-iter t.banned_peers a) at e)) in
      (
        record t { banned_peers = remove_keys M t.banned_peers ks },
        length ks,
        rw run,
        rw (get-remove_keys t.banned_peers ks addr, same addr, M.lookup-iter t.banned_peers addr)
            (ban_at-purged now later (M.get t.banned_peers addr) le (v.eight addr)),
      )
