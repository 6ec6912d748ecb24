-- ===== src/Tests/Store.antt =====
-- crates/wolfe-store on concrete headers, peers and settings.
use bitcoin_wolfe.Prelude.{
  ℕ, ◌≡◌, ◌≤◌, refl, none, some, List, [], ◌∷◌, arith, length, ℕ_discrete, All,
}
use bitcoin_wolfe.Bytes.{Bytes, bytes_discrete, to_be_bytes}
use bitcoin_wolfe.Map.Assoc.{lookup, without}
use bitcoin_wolfe.Map.Entries.{insert_entry, dedup}
use bitcoin_wolfe.Sort.{sort_by}
use bitcoin_wolfe.Store.Error.{ok}
use bitcoin_wolfe.Store.Tables.{Tables, no_tables}
use bitcoin_wolfe.Store.Headers.{StoredHeader, insert, get_by_hash, get_by_height, disconnect_range}
use bitcoin_wolfe.Store.Headers.Index.{IsIndexed, no_tables-IsIndexed, insert-IsIndexed}
use bitcoin_wolfe.Store.Headers.Lookup.{get-insert_stored}
use bitcoin_wolfe.Store.Headers.Disconnect.{hashes_down, Disconnected, disconnect_range_lem}
use bitcoin_wolfe.Store.Node.{reorganize, insert_headers_batch}
use bitcoin_wolfe.Store.Node.Reorg.{Rewound, reorganize_rewinds}
use bitcoin_wolfe.Store.Node.Batch.{Insertable, Extended, insert_headers_batch-Extended}
use bitcoin_wolfe.Store.Peers
use bitcoin_wolfe.Store.Peers.Bans.{BansAreU64, ban-BansAreU64, is_banned-purge_expired_bans}
use bitcoin_wolfe.Store.Peers.Records.{NotBanned, get_random-NotBanned}
use bitcoin_wolfe.Tests.Sample.{redb, links, link, Link, json, peer}

-- Blocks 1, 2 and 3 at the heights 0, 1 and 2.
abbrev pub empty : Tables redb
empty = no_tables redb

abbrev pub one : Tables redb
one = insert redb links empty (link 1 0) 0

abbrev pub two : Tables redb
two = insert redb links one (link 2 1) 1

abbrev pub three : Tables redb
three = insert redb links two (link 3 2) 2

new_header :
    (t : Tables redb) (h : Link) (height : ℕ)
    → lookup bytes_discrete (to_be_bytes 32 h.id) t.hash_to_height ≡ none
    → IsIndexed redb links t
    → IsIndexed redb links (insert redb links t h height)
new_header t h height e v =
    insert-IsIndexed redb links t h height v (λ hb f. absurd (ground (arith, e, f)))

unfoldable pub program : Unit {0}
unfolding insert insert_entry lookup bytes_discrete ℕ_discrete to_be_bytes
program = tt

one-IsIndexed : IsIndexed redb links one
unfolding lookup
one-IsIndexed = new_header empty (link 1 0) 0 refl (no_tables-IsIndexed redb links)

two-IsIndexed : IsIndexed redb links two
two-IsIndexed = new_header one (link 2 1) 1 (unfold program in refl) one-IsIndexed

pub three-IsIndexed : IsIndexed redb links three
three-IsIndexed = new_header two (link 3 2) 2 (unfold program in refl) two-IsIndexed

disconnect_range_lem_example :
    (t' : Tables redb) × (disconnect_range redb links three 2 1
      ≡ ok (t', hashes_down redb links 2 1 three))
    × Disconnected redb links three 1 3 t'
disconnect_range_lem_example =
    disconnect_range_lem redb links three 2 1 (omega arith) (omega arith) three-IsIndexed

reorganize_rewinds_example :
    (t' : Tables redb) × (reorganize redb links three 2 0 []
      ≡ ok (t', hashes_down redb links 2 1 three))
    × Rewound redb links three 2 0 t'
reorganize_rewinds_example =
    reorganize_rewinds redb links three 2 0 (omega arith) (omega arith) three-IsIndexed

abbrev pub next_two : List (Link × ℕ)
next_two = (link 4 3, 3) ∷ (link 5 4, 4) ∷ []

-- A header that no table names may be inserted at any height.
pub absent :
    (m : List (Bytes × Bytes)) (key value : Bytes)
    → lookup bytes_discrete key m ≡ none
    → (hb : Bytes) → lookup bytes_discrete key m ≡ some hb
    → hb ≡ value
absent m key value e hb f = absurd (ground (arith, e, f))

abbrev pub four : Tables redb
four = insert redb links three (link 4 3) 3

pub next_two-Insertable : Insertable redb links three next_two
next_two-Insertable = (
  absent three.hash_to_height (to_be_bytes 32 4) (to_be_bytes 4 3) (unfold program in refl),
  (absent four.hash_to_height (to_be_bytes 32 5) (to_be_bytes 4 4) (unfold program in refl), tt),
)

insert_headers_batch-Extended_example :
    Extended redb links three 3 next_two (insert_headers_batch redb links three next_two)
insert_headers_batch-Extended_example =
    insert_headers_batch-Extended redb links three 3 (link 4 3, 3) ((link 5 4, 4) ∷ [])
      (omega arith) (refl, (refl, tt)) three-IsIndexed next_two-Insertable

get-insert_stored_example :
    let stored : StoredHeader links = record {
      header = link 4 3;
      height = 3;
      hash = to_be_bytes 32 4;
    } in
    (get_by_height redb links (insert redb links three (link 4 3) 3) 3 ≡ ok (some stored))
    × (get_by_hash redb links (insert redb links three (link 4 3) 3) (to_be_bytes 32 4)
        ≡ ok (some stored))
get-insert_stored_example = get-insert_stored redb links three (link 4 3) 3 (omega arith)

abbrev peers : Tables redb
peers =
    Peers.upsert redb json
      (Peers.upsert redb json (Peers.upsert redb json empty (peer 1 30)) (peer 2 50)) (peer 3 40)

abbrev banned : Tables redb
banned = Peers.ban redb peers (2 ∷ []) 1000

peers-BansAreU64 : BansAreU64 redb peers
unfolding Peers.upsert lookup
peers-BansAreU64 = record { eight = λ addr val e. absurd (ground (arith, e)) }

banned-BansAreU64 : BansAreU64 redb banned
banned-BansAreU64 = ban-BansAreU64 redb peers (2 ∷ []) 1000 peers-BansAreU64

is_banned-purge_expired_bans_example :
    (t' : Tables redb) × (n : ℕ) × (Peers.purge_expired_bans redb banned 500 ≡ ok (t', n))
    × (Peers.is_banned redb t' (2 ∷ []) 600 ≡ Peers.is_banned redb banned (2 ∷ []) 600)
is_banned-purge_expired_bans_example =
    is_banned-purge_expired_bans redb banned 500 600 (2 ∷ []) (omega arith) banned-BansAreU64

all_peers : Peers.list_all redb json banned ≡ ok (peer 2 50 ∷ peer 3 40 ∷ peer 1 30 ∷ [])
unfolding program Peers.list_all Peers.upsert Peers.ban dedup without sort_by
all_peers = refl

get_random-NotBanned_example :
    (chosen : List Peers.PeerRecord) × (Peers.get_random redb json banned 2 600 ≡ ok chosen)
    × (length chosen ≤ 2)
    × All (NotBanned redb json banned 600) chosen
get_random-NotBanned_example =
    get_random-NotBanned redb json banned 2 600 _ all_peers banned-BansAreU64

stored_peers :
    Peers.parse_all redb json (redb.iter banned.peers) ≡ ok (peer 3 40 ∷ peer 2 50 ∷ peer 1 30 ∷ [])
unfolding program Peers.upsert Peers.ban dedup without Peers.parse_all
stored_peers = refl
