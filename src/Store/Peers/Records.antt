-- ===== src/Store/Peers/Records.antt =====
-- Peer records of crates/wolfe-store/src/peers.rs: reading back, listing and choosing peers.
use mathlib.Core.List.{Perm}
use bitcoin_wolfe.Prelude.{
  ℕ, zero, suc, Option-cases, ◌≤◌, ◌≡◌, ◌≢◌, ◌⊎◌, refl, true, false, none, some, inl, inr, List, [],
  ◌∷◌, length, take, All, arith,
}
use bitcoin_wolfe.Bytes.{Bytes}
use bitcoin_wolfe.Map.{get-insert_self, get-insert_ne}
use bitcoin_wolfe.Sort.{sort_by, sort_by-IsSorted, sort_by-perm, sort_by-All, IsSorted}
use bitcoin_wolfe.Store.Error.{ok}
use bitcoin_wolfe.Store.Tables.{Redb, Tables}
use bitcoin_wolfe.Store.Peers.Bans.{BansAreU64, until-ok}
use bitcoin_wolfe.Store.Peers.{
  PeerRecord, JsonLib, upsert, get, parse, parse_found, seen_later, parse_all, list_all, candidates,
  hash_le, get_random, is_banned, ban_at, ban_holds,
}

module _ (M : Redb) (J : JsonLib) where
  -- The last record written for an address is read back, and any other address keeps its own.
  pub get-upsert :
      (t : Tables M) (r : PeerRecord) (addr : Bytes)
      → r.addr ≢ addr
      → (get M J (upsert M J t r) r.addr ≡ ok (some r))
        × (get M J (upsert M J t r) addr ≡ get M J t addr)
  unfolding get upsert
  get-upsert t r addr ne = (
    rw (get-insert_self M t.peers r.addr (J.to_vec r), parse_found)
        (rw (J.from_slice-to_vec r, parse)),
    rw (get-insert_ne M t.peers r.addr addr (J.to_vec r) ne),
  )

  All-trivial : (rs : List PeerRecord) → All (λ r. Unit {0}) rs
  All-trivial [] = tt
  All-trivial (r ∷ rs) = (tt, All-trivial rs)

  -- Where all stored records parse, `list_all` returns them, the most recently seen first.
  pub list_all-IsSorted :
      (t : Tables M) (records : List PeerRecord)
      → parse_all M J (M.iter t.peers) ≡ ok records
      → (sorted : List PeerRecord) × (list_all M J t ≡ ok sorted)
        × IsSorted (seen_later M J) sorted
        × Perm sorted records
  unfolding list_all
  list_all-IsSorted t records parsed = (
    sort_by (seen_later M J) records,
    rw parsed,
    sort_by-IsSorted (seen_later M J) (λ r. Unit {0}) (λ a b _ _. ground arith)
        (λ a b c p q. ground arith) records (All-trivial records),
    sort_by-perm (seen_later M J) records,
  )

  abbrev pub NotBanned : Tables M → ℕ → PeerRecord → Type 0
  NotBanned t now r = is_banned M t r.addr now ≡ ok none

  candidates-keep :
      (t : Tables M) (now : ℕ) (r : PeerRecord) (rs found : List PeerRecord)
      → ban_holds M J now (M.get t.banned_peers r.addr) ≡ ok false
      → candidates M J t now rs ≡ ok found
      → candidates M J t now (r ∷ rs) ≡ ok (r ∷ found)
  unfolding candidates
  candidates-keep t now r rs found b e = rw (b, e)

  candidates-skip :
      (t : Tables M) (now : ℕ) (r : PeerRecord) (rs found : List PeerRecord)
      → ban_holds M J now (M.get t.banned_peers r.addr) ≡ ok true
      → candidates M J t now rs ≡ ok found
      → candidates M J t now (r ∷ rs) ≡ ok found
  unfolding candidates
  candidates-skip t now r rs found b e = rw (b, e)

  -- Whether a ban holds, by the loop of `get_random` and by `is_banned`.
  ban_holds-cases :
      (t : Tables M) (now : ℕ) (r : PeerRecord)
      → BansAreU64 M t
      → (ban_holds M J now (M.get t.banned_peers r.addr) ≡ ok true)
        ⊎ ((ban_holds M J now (M.get t.banned_peers r.addr) ≡ ok false) × NotBanned t now r)
  unfolding ban_holds is_banned
  ban_holds-cases t now r v = elim (Option-cases (M.get t.banned_peers r.addr)) [
    | inl e ↦ rw (e, ban_holds, ban_at) (inr (refl, refl))
    | inr (val, e) ↦ ground (arith, until-ok M val (v.eight r.addr val e))
  ]

  candidates_lem :
      (t : Tables M) (now : ℕ) (rs : List PeerRecord)
      → BansAreU64 M t
      → (found : List PeerRecord) × (candidates M J t now rs ≡ ok found)
        × All (NotBanned t now) found
  candidates_lem t now [] v = ([], unfold candidates in refl, tt)
  candidates_lem t now (r ∷ rs) v =
      let (found, run, free) = candidates_lem t now rs v in
      elim (ban_holds-cases t now r v) [
        | inl b ↦ (found, candidates-skip t now r rs found b run, free)
        | inr (b, n) ↦ (r ∷ found, candidates-keep t now r rs found b run, (n, free))
      ]

  take-All : (P : PeerRecord → Type 0) (n : ℕ) (l : List PeerRecord) → All P l → All P (take n l)
  take-All P zero l a = tt
  take-All P (suc n) [] a = tt
  take-All P (suc n) (x ∷ l) (a, as') = (a, take-All P n l as')

  length-take-le : (n : ℕ) (l : List PeerRecord) → length (take n l) ≤ n
  length-take-le zero l = omega arith
  length-take-le (suc n) [] = omega arith
  length-take-le (suc n) (x ∷ l) = omega (arith, length-take-le n l)

  -- Where the peers can be listed and every stored expiry has 8 bytes, `get_random` succeeds with at
  -- most `n` peers, none of them banned.
  pub get_random-NotBanned :
      (t : Tables M) (n now : ℕ) (all : List PeerRecord)
      → list_all M J t ≡ ok all
      → BansAreU64 M t
      → (chosen : List PeerRecord) × (get_random M J t n now ≡ ok chosen)
        × (length chosen ≤ n)
        × All (NotBanned t now) chosen
  unfolding get_random
  get_random-NotBanned t n now all listed v =
      let (found, run, free) = candidates_lem t now all v in
      let shuffled = sort_by (hash_le M J now) found in
      (
        take n shuffled,
        rw (listed, run),
        length-take-le n shuffled,
        take-All (NotBanned t now) n shuffled
            (sort_by-All (hash_le M J now) (NotBanned t now) found free),
      )
