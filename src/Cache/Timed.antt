-- ===== src/Cache/Timed.antt =====
-- `TimedCache` of sylar/ds/timed_cache.h.
-- `m_timed` is the list of its elements in their order. Each element has a number of its own, `node`, which
-- no later element gets again; an iterator is the number of its element, and `m_cache` has these. An
-- operation returns `none` where the source's behaviour is undefined: at an iterator whose element is gone,
-- at the first element of an empty set, and where `del` ends without its value. `now` is the clock's
-- answer, and `less` the order of the keys.
pub mod Order
pub mod Live
pub mod Valid
pub mod Back
pub mod Expired
pub mod Keeps
pub mod Run
pub mod Timeout
pub mod Laws
mod Tests
use ynwad.Base.{
  ℕ, zero, suc, ◌+◌, ◌%◌, ◌^◌, Bool, true, false, List, [], ◌∷◌, Option, none, some, ltb, leb, ◌==◌,
  ◌||◌, if◌then◌else◌,
}
use ynwad.Cache.Status.{CacheStatus, new_status, inc_get, inc_set, inc_del, inc_hit, inc_prune}
use ynwad.Cache.Dict.{Dict, empty_dict, insert, erase, assign}

pub record Item {ℓ} (K V : Type ℓ) : Type ℓ where
  pub key : K
  pub val : V
  pub ts : ℕ
  pub node : ℕ

-- `next_node` is the number of the next element, `called` are the calls of the prune callback, the last one first.
pub record TimedCache {ℓ} (K V : Type ℓ) : Type ℓ where
  pub cache : Dict K ℕ
  pub timed : List (Item K V)
  pub next_node : ℕ
  pub max_size : ℕ
  pub elasticity : ℕ
  pub callback : Bool
  pub called : List (K × V)
  pub status : CacheStatus

module _ {ℓ} {K V : Type ℓ} where
  abbrev pub new_cache : ℕ → ℕ → TimedCache K V
  new_cache max_size elasticity = record {
    cache = empty_dict;
    timed = [];
    next_node = 0;
    max_size = max_size;
    elasticity = elasticity;
    callback = false;
    called = [];
    status = new_status;
  }

  abbrev pub max_allowed_size : TimedCache K V → ℕ
  max_allowed_size c = (c.max_size + c.elasticity) % 2 ^ 64

  abbrev pub size : TimedCache K V → ℕ
  size c = c.cache.size

  abbrev pub empty : TimedCache K V → Bool
  empty c = c.cache.size == 0

  abbrev pub clear : TimedCache K V → TimedCache K V
  clear c = record c { cache = empty_dict; timed = [] }

  abbrev pub set_max_size : ℕ → TimedCache K V → TimedCache K V
  set_max_size v c = record c { max_size = v }

  abbrev pub set_elasticity : ℕ → TimedCache K V → TimedCache K V
  set_elasticity v c = record c { elasticity = v }

  abbrev pub set_prune_callback : TimedCache K V → TimedCache K V
  set_prune_callback c = record c { callback = true }

module _ {ℓ} {K V : Type ℓ} (less : K → K → Bool) where
  -- `Item::operator<`
  abbrev pub before : Item K V → Item K V → Bool
  before x y = if x.ts == y.ts then less x.key y.key else ltb x.ts y.ts

  -- `m_timed.insert`: an item that is there already stays.
  unfoldable pub insert_item : Item K V → List (Item K V) → List (Item K V)
  insert_item x [] = x ∷ []
  insert_item x (y ∷ ys) =
      if before x y then x ∷ y ∷ ys else if before y x then y ∷ insert_item x ys else y ∷ ys

  -- The iterator that it returns.
  unfoldable pub inserted_at : Item K V → List (Item K V) → ℕ
  inserted_at x [] = x.node
  inserted_at x (y ∷ ys) =
      if before x y then x.node else if before y x then inserted_at x ys else y.node

module _ {ℓ} {K V : Type ℓ} where
  -- `*it`
  unfoldable pub deref : ℕ → List (Item K V) → Option (Item K V)
  deref n [] = none
  deref n (x ∷ xs) = if x.node == n then some x else deref n xs

  -- `m_timed.erase(it)`
  unfoldable pub remove : ℕ → List (Item K V) → List (Item K V)
  remove n [] = []
  remove n (x ∷ xs) = if x.node == n then xs else x ∷ remove n xs

module _ {ℓ} {K V : Type ℓ} (dec : Discrete K) where
  -- An item goes, but for its place in the set.
  abbrev pub evict : Item K V → TimedCache K V → TimedCache K V
  evict x c = record c {
    called = if c.callback then (x.key, x.val) ∷ c.called else c.called;
    cache = erase dec x.key c.cache;
  }

  -- The loop of `prune` over the items.
  unfoldable pub prune_loop : ℕ → List (Item K V) → TimedCache K V → Option (TimedCache K V × ℕ)
  prune_loop count [] c =
      if ltb c.max_size c.cache.size then none else some (record c { timed = [] }, count)
  prune_loop count (x ∷ xs) c = elim (ltb c.max_size c.cache.size) [
    | true ↦ prune_loop (count + 1) xs (evict x c)
    | false ↦ some (record c { timed = x ∷ xs }, count)
  ]

  unfoldable pub prune : TimedCache K V → Option (TimedCache K V × ℕ)
  prune c =
      if (c.max_size == 0) || ltb c.cache.size (max_allowed_size c)
      then some (c, 0)
      else (elim (prune_loop 0 c.timed c) [
        | none ↦ none
        | some r ↦ some (record r.0 { status = inc_prune r.1 r.0.status }, r.1)
      ])

  -- `get(k, v)`: what is stored in `v` when it returns true.
  unfoldable pub get : K → TimedCache K V → Option (TimedCache K V × Option V)
  get k c = elim (c.cache.find k) [
    | none ↦ some (record c { status = inc_get c.status }, none)
    | some n ↦ elim (deref n c.timed) [
      | none ↦ none
      | some x ↦ some (record c { status = inc_hit (inc_get c.status) }, some x.val)
    ]
  ]

  -- Of a key that is there the source ends without a `return`.
  unfoldable pub del : K → TimedCache K V → Option (TimedCache K V × Bool)
  del k c = elim (c.cache.find k) [
    | none ↦ some (record c { status = inc_del c.status }, false)
    | some n ↦ none
  ]

  unfoldable pub exists : K → TimedCache K V → Bool
  exists k c = elim (c.cache.find k) [ none ↦ false | some _ ↦ true ]

  -- The loop of `checkTimeout`.
  unfoldable pub timeout_loop : ℕ → ℕ → List (Item K V) → TimedCache K V → TimedCache K V × ℕ
  timeout_loop ts count [] c = (record c { timed = [] }, count)
  timeout_loop ts count (x ∷ xs) c = elim (leb x.ts ts) [
    | true ↦ timeout_loop ts (count + 1) xs (evict x c)
    | false ↦ (record c { timed = x ∷ xs }, count)
  ]

  unfoldable pub check_timeout : ℕ → TimedCache K V → TimedCache K V × ℕ
  check_timeout ts c = timeout_loop ts 0 c.timed c

module _ {ℓ} {K V : Type ℓ} (dec : Discrete K) (less : K → K → Bool) where
  -- `set` up to `prune()`.
  unfoldable pub store : ℕ → K → V → ℕ → TimedCache K V → TimedCache K V
  store now k v expired c =
      let x : Item K V = record {
        key = k;
        val = v;
        ts = (expired + now) % 2 ^ 64;
        node = c.next_node;
      } in
      record c {
        status = inc_set c.status;
        timed = insert_item less x c.timed;
        next_node = suc c.next_node;
        cache = insert dec k (inserted_at less x c.timed) (erase dec k c.cache);
      }

  unfoldable pub set : ℕ → K → V → ℕ → TimedCache K V → Option (TimedCache K V)
  set now k v expired c = elim (prune dec (store now k v expired c)) [
    | none ↦ none
    | some r ↦ some r.0
  ]

  -- `expired(k, ts)`: a copy of the item is put back in the place of its element.
  unfoldable pub expired : ℕ → K → ℕ → TimedCache K V → Option (TimedCache K V × Bool)
  expired now k ts c = elim (c.cache.find k) [
    | none ↦ some (c, false)
    | some n ↦ elim (deref n c.timed) [
      | none ↦ none
      | some x ↦
          let item : Item K V = record x { node = c.next_node } in
          let rest = remove n c.timed in
          if x.ts == (ts + now) % 2 ^ 64
          then some (c, true)
          else some (
            record c {
              timed = insert_item less item rest;
              next_node = suc c.next_node;
              cache = assign dec k (inserted_at less item rest) c.cache;
            },
            true,
          )
    ]
  ]
