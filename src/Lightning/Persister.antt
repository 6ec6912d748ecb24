-- ===== src/Lightning/Persister.antt =====
-- `WolfeKVStore` of crates/wolfe-lightning/src/persister.rs: the key-value store of the Lightning node
-- in one redb table. Texts are their bytes; the errors of redb itself are left out.
pub mod Names
pub mod Listing
pub mod Spec
pub mod Refines
use bitcoin_wolfe.Prelude.{
  ℕ, ◌+◌, ◌%◌, ◌≡◌, Bool, true, false, ◌&&◌, not, Option, none, some, List, [], ◌∷◌, ◌++◌,
  if◌then◌else◌,
}
use bitcoin_wolfe.Bytes.{Bytes, bytes_discrete}
use bitcoin_wolfe.Bytes.Prefix.{strip_prefix, is_less}
use bitcoin_wolfe.Map.Assoc.{lookup, Distinct}
use bitcoin_wolfe.Map.{MapOps}

-- `range(low..high)` of a redb table with texts for keys: every entry from `low` on and below `high`,
-- once.
pub record RangeOps (M : MapOps bytes_discrete Bytes) : Type 0 where
  pub range : M.Map → Bytes → Bytes → List (Bytes × Bytes)
  pub lookup-range :
      (m : M.Map) (low high key : Bytes)
      → lookup bytes_discrete key (range m low high)
        ≡ (if not (is_less key low) && is_less key high then M.get m key else none)
  pub range-Distinct : (m : M.Map) (low high : Bytes) → Distinct bytes_discrete (range m low high)

abbrev pub slash : ℕ
slash = 47

-- `format!("{}/{}", ..)`, or `format!("{}/{}/{}", ..)`.
unfoldable pub make_key : Bytes → Bytes → Bytes → Bytes
make_key primary_namespace [] key = primary_namespace ++ slash ∷ key
make_key primary_namespace (c ∷ secondary) key =
    primary_namespace ++ slash ∷ ((c ∷ secondary) ++ slash ∷ key)

unfoldable pub make_prefix : Bytes → Bytes → Bytes
make_prefix primary_namespace [] = primary_namespace ++ slash ∷ []
make_prefix primary_namespace (c ∷ secondary) =
    primary_namespace ++ slash ∷ ((c ∷ secondary) ++ slash ∷ [])

-- The prefix with one added to its last byte.
unfoldable pub range_end : Bytes → Bytes
range_end [] = []
range_end (c ∷ []) = (c + 1) % 256 ∷ []
range_end (c ∷ d ∷ rest) = c ∷ range_end (d ∷ rest)

-- `push` of the suffix of a key that has the prefix.
abbrev pub push_suffix : Option Bytes → List Bytes → List Bytes
push_suffix none keys = keys
push_suffix (some suffix) keys = suffix ∷ keys

-- The loop of `list`: the suffixes, in the order of the entries.
unfoldable pub short_keys : Bytes → List (Bytes × Bytes) → List Bytes
unfolding strip_prefix
short_keys prefix [] = []
short_keys prefix ((full_key, value) ∷ rest) =
    push_suffix (strip_prefix prefix full_key) (short_keys prefix rest)

-- A call of the store, with its arguments.
pub data Call : Type 0 where
  read remove : Bytes → Bytes → Bytes → Call
  write : Bytes → Bytes → Bytes → Bytes → Call
  list : Bytes → Bytes → Call

-- What a call returns: `not_found` is the error `ErrorKind::NotFound`, `done` is `Ok(())`.
pub data Reply : Type 0 where
  bytes : Bytes → Reply
  not_found done : Reply
  keys : List Bytes → Reply

abbrev pub by_entry : Option Bytes → Reply
by_entry none = not_found
by_entry (some value) = bytes value

module _ (M : MapOps bytes_discrete Bytes) (R : RangeOps M) where
  unfoldable pub call : M.Map → Call → M.Map × Reply
  unfolding make_key make_prefix range_end short_keys
  call m (read p s k) = (m, by_entry (M.get m (make_key p s k)))
  call m (write p s k buf) = (M.insert m (make_key p s k) buf, done)
  call m (remove p s k) = (M.remove m (make_key p s k), done)
  call m (list p s) =
      let prefix = make_prefix p s in
      (m, keys (short_keys prefix (R.range m prefix (range_end prefix))))

  -- The replies to calls that are made one after the other.
  unfoldable pub call_all : M.Map → List Call → List Reply
  unfolding call
  call_all m [] = []
  call_all m (c ∷ rest) = let (m', reply) = call m c in reply ∷ call_all m' rest
