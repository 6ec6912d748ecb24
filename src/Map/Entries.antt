-- ===== src/Map/Entries.antt =====
-- A container that is the list of its entries: it meets the laws, so they can hold.
use bitcoin_wolfe.Prelude.{◌≡◌, refl, Option, List, [], ◌∷◌, arith, ite}
use bitcoin_wolfe.Map.{MapOps}
use bitcoin_wolfe.Map.Assoc.{lookup, without, Distinct, lookup-without, without-Distinct}

module _ {K V : Type 0} (dec : Discrete K) where
  unfoldable pub dedup : List (K × V) → List (K × V)
  dedup [] = []
  dedup ((k, v) ∷ l) = (k, v) ∷ without dec k (dedup l)

  pub lookup-dedup : (l : List (K × V)) (k : K) → lookup dec k (dedup l) ≡ lookup dec k l
  unfolding lookup dedup
  lookup-dedup [] k = refl
  lookup-dedup ((j, v) ∷ l) k = ground (arith, lookup-without dec j k (dedup l), lookup-dedup l k)

  pub dedup-Distinct : (l : List (K × V)) → Distinct dec (dedup l)
  unfolding dedup
  dedup-Distinct [] = tt
  dedup-Distinct ((j, v) ∷ l) = (
    ground (arith, lookup-without dec j j (dedup l)),
    without-Distinct dec j (dedup l) (dedup-Distinct l),
  )

  unfoldable pub insert_entry : List (K × V) → K → V → List (K × V)
  insert_entry l k v = (k, v) ∷ l

  pub get-insert_entry :
      (l : List (K × V)) (k j : K) (v : V)
      → lookup dec j (insert_entry l k v) ≡ ite (dec k j) (Option.some v) (lookup dec j l)
  unfolding lookup insert_entry
  get-insert_entry l k j v = refl

  pub lookup-nil : (k : K) → lookup {V = V} dec k [] ≡ Option.none
  unfolding lookup
  lookup-nil k = refl

  abbrev pub entries_map : MapOps dec V
  entries_map = record {
    Map = List (K × V);
    empty = [];
    get = λ m k. lookup dec k m;
    insert = insert_entry;
    remove = λ m k. without dec k m;
    iter = dedup;
    get-empty = lookup-nil;
    get-insert = get-insert_entry;
    get-remove = λ m k j. lookup-without dec k j m;
    lookup-iter = lookup-dedup;
    iter-Distinct = dedup-Distinct;
  }
