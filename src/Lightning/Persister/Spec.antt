-- ===== src/Lightning/Persister/Spec.antt =====
-- What the store of crates/wolfe-lightning/src/persister.rs promises to the Lightning node: a map from
-- names, with the calls of `KVStoreSync` on it.
use bitcoin_wolfe.Prelude.{◌≡◌, ◌≢◌, ◌↔◌, ◌⊎◌, Option, none, some, List, [], ◌∷◌, ◌++◌, In, ite}
use bitcoin_wolfe.Bytes.{Bytes, bytes_discrete}
use bitcoin_wolfe.Lightning.Persister.{
  slash, Call, read, write, remove, list, Reply, done, keys, by_entry,
}
use bitcoin_wolfe.Lightning.Persister.Names.{IsPlain}
use bitcoin_wolfe.Lightning.Persister.Listing.{Once}

-- A primary and a secondary namespace, and a key.
abbrev pub Name : Type 0
Name = Bytes × Bytes × Bytes

unfoldable pub name_discrete : Discrete Name
name_discrete = hlevel bytes_discrete

abbrev pub Spec : Type 0
Spec = Name → Option Bytes

-- The map after a call.
unfoldable pub apply : Spec → Call → Spec
unfolding name_discrete
apply spec (read p s k) n = spec n
apply spec (write p s k buf) n = ite (name_discrete (p, s, k) n) (some buf) (spec n)
apply spec (remove p s k) n = ite (name_discrete (p, s, k) n) none (spec n)
apply spec (list p s) n = spec n

-- What is stored in a namespace: the keys of its names, and where the secondary namespace is empty the
-- names of the secondary namespaces too, each a namespace, a slash and a key.
abbrev pub Stored : Spec → Bytes → Bytes → Bytes → Type 0
Stored spec p [] k =
    (spec (p, [], k) ≢ none)
    ⊎ ((s : Bytes) × (k' : Bytes) × (s ≢ []) × (k ≡ s ++ slash ∷ k') × (spec (p, s, k') ≢ none))
Stored spec p (c ∷ s) k = spec (p, c ∷ s, k) ≢ none

-- The reply that a call promises.
abbrev pub Promised : Spec → Call → Reply → Type 0
Promised spec (read p s k) reply = reply ≡ by_entry (spec (p, s, k))
Promised spec (write p s k buf) reply = reply ≡ done
Promised spec (remove p s k) reply = reply ≡ done
Promised spec (list p s) reply =
    (ks : List Bytes) × (reply ≡ keys ks) × Once ks × ((k : Bytes) → In k ks ↔ Stored spec p s k)

-- The replies to calls on the map, each call promising its reply.
abbrev pub Implements : Spec → List Call → List Reply → Type 0
Implements spec [] [] = Unit
Implements spec [] (reply ∷ replies) = ⊥
Implements spec (c ∷ calls) [] = ⊥
Implements spec (c ∷ calls) (reply ∷ replies) =
    Promised spec c reply × Implements (apply spec c) calls replies

-- The names of a call are without slashes.
abbrev pub IsPlainCall : Call → Type 0
IsPlainCall (read p s k) = IsPlain p × IsPlain s × IsPlain k
IsPlainCall (write p s k buf) = IsPlain p × IsPlain s × IsPlain k
IsPlainCall (remove p s k) = IsPlain p × IsPlain s × IsPlain k
IsPlainCall (list p s) = IsPlain p × IsPlain s

abbrev pub IsPlainName : Name → Type 0
IsPlainName n = IsPlain n.0 × IsPlain n.1 × IsPlain n.2
