-- ===== src/Map.antt =====
-- What the program relies on of a keyed container that it does not implement: a redb table
-- (crates/wolfe-store) and a DashMap (crates/wolfe-mempool). A container is used through these
-- operations and their documented laws. `iter` lists every entry once, in an order that the laws
-- leave open.
pub mod Assoc
pub mod Entries
use bitcoin_wolfe.Prelude.{◌≡◌, ◌≢◌, arith, Option, none, some, List, ite}
use Assoc.{lookup, Distinct}

pub record MapOps {K : Type 0} (dec : Discrete K) (V : Type 0) : Type 1 where
  pub Map : Type 0
  pub empty : Map
  pub get : Map → K → Option V
  pub insert : Map → K → V → Map
  pub remove : Map → K → Map
  pub iter : Map → List (K × V)
  pub get-empty : (k : K) → get empty k ≡ none
  pub get-insert :
      (m : Map) (k j : K) (v : V) → get (insert m k v) j ≡ ite (dec k j) (some v) (get m j)
  pub get-remove : (m : Map) (k j : K) → get (remove m k) j ≡ ite (dec k j) none (get m j)
  pub lookup-iter : (m : Map) (k : K) → lookup dec k (iter m) ≡ get m k
  pub iter-Distinct : (m : Map) → Distinct dec (iter m)

module _ {K V : Type 0} {dec : Discrete K} (M : MapOps dec V) where
  pub get-insert_self : (m : M.Map) (k : K) (v : V) → M.get (M.insert m k v) k ≡ some v
  get-insert_self m k v = ground (arith, M.get-insert m k k v)

  pub get-insert_ne : (m : M.Map) (k j : K) (v : V) → k ≢ j → M.get (M.insert m k v) j ≡ M.get m j
  get-insert_ne m k j v ne = ground (arith, M.get-insert m k j v)

  pub get-remove_self : (m : M.Map) (k : K) → M.get (M.remove m k) k ≡ none
  get-remove_self m k = ground (arith, M.get-remove m k k)

  pub get-remove_ne : (m : M.Map) (k j : K) → k ≢ j → M.get (M.remove m k) j ≡ M.get m j
  get-remove_ne m k j ne = ground (arith, M.get-remove m k j)
