-- ===== src/Cache/Lru.antt =====
-- `LruCache` of sylar/ds/lru_cache.h.
-- A node of `m_keys` has a handle, which stands for the iterators at this node. `m_cache` holds
-- handles. An operation returns `none` where the source's behaviour is undefined: at an iterator
-- whose node is gone, and at the last node of an empty list.
pub mod Nodes
pub mod Order
pub mod Valid
pub mod Located
pub mod Agree
pub mod Reads
pub mod Prune
pub mod Set
pub mod Laws
use ynwad.Base.{
  ℕ, zero, suc, ◌+◌, ◌%◌, ◌^◌, Bool, true, false, List, [], ◌∷◌, Option, none, some, ltb, ◌==◌,
  ◌||◌, if◌then◌else◌,
}
use ynwad.Cache.Status.{CacheStatus, new_status, inc_get, inc_set, inc_del, inc_hit, inc_prune}
use ynwad.Cache.Dict.{Dict, empty_dict, insert, erase}
use mathlib.Core.Logic.{ite}

pub record Node {ℓ} (K V : Type ℓ) : Type ℓ where
  pub handle : ℕ
  pub key : K
  pub value : V

-- `called` are the calls of the prune callback, the last one first.
pub record LruCache {ℓ} (K V : Type ℓ) : Type ℓ where
  pub cache : Dict K ℕ
  pub keys : List (Node K V)
  pub next : ℕ
  pub max_size : ℕ
  pub elasticity : ℕ
  pub callback : Bool
  pub called : List (K × V)
  pub status : CacheStatus

module _ {ℓ} {K V : Type ℓ} where
  -- `*it`
  unfoldable pub deref : ℕ → List (Node K V) → Option (Node K V)
  deref h [] = none
  deref h (n ∷ ns) = if n.handle == h then some n else deref h ns

  -- `it->second = v`
  unfoldable pub store : ℕ → V → List (Node K V) → List (Node K V)
  store h v [] = []
  store h v (n ∷ ns) = if n.handle == h then record n { value = v } ∷ ns else n ∷ store h v ns

  -- `erase(it)` of a list
  unfoldable pub unlink : ℕ → List (Node K V) → List (Node K V)
  unlink h [] = []
  unlink h (n ∷ ns) = if n.handle == h then ns else n ∷ unlink h ns

  -- `m_keys.splice(m_keys.begin(), m_keys, it)`
  unfoldable pub to_front : ℕ → List (Node K V) → Option (List (Node K V))
  to_front h ns = elim (deref h ns) [ none ↦ none | some n ↦ some (n ∷ unlink h ns) ]

  unfoldable pub back : List (Node K V) → Option (Node K V)
  back [] = none
  back (n ∷ []) = some n
  back (n ∷ m ∷ ns) = back (m ∷ ns)

  unfoldable pub pop_back : List (Node K V) → List (Node K V)
  pop_back [] = []
  pop_back (n ∷ []) = []
  pop_back (n ∷ m ∷ ns) = n ∷ pop_back (m ∷ ns)

  abbrev pub new_cache : ℕ → ℕ → LruCache K V
  new_cache max_size elasticity = record {
    cache = empty_dict;
    keys = [];
    next = 0;
    max_size = max_size;
    elasticity = elasticity;
    callback = false;
    called = [];
    status = new_status;
  }

  abbrev pub max_allowed_size : LruCache K V → ℕ
  max_allowed_size c = (c.max_size + c.elasticity) % 2 ^ 64

  abbrev pub size : LruCache K V → ℕ
  size c = c.cache.size

  abbrev pub empty : LruCache K V → Bool
  empty c = c.cache.size == 0

  unfoldable pub clear : LruCache K V → LruCache K V
  clear c = record c { cache = empty_dict; keys = [] }

  abbrev pub set_max_size : ℕ → LruCache K V → LruCache K V
  set_max_size v c = record c { max_size = v }

  abbrev pub set_elasticity : ℕ → LruCache K V → LruCache K V
  set_elasticity v c = record c { elasticity = v }

  abbrev pub set_prune_callback : LruCache K V → LruCache K V
  set_prune_callback c = record c { callback = true }

module _ {ℓ} {K V : Type ℓ} (dec : Discrete K) where
  -- The body of the loop of `prune`.
  unfoldable pub evict : LruCache K V → Option (LruCache K V)
  evict c = elim (back c.keys) [
    | none ↦ none
    | some n ↦ some (record c {
      called = if c.callback then (n.key, n.value) ∷ c.called else c.called;
      cache = erase dec n.key c.cache;
      keys = pop_back c.keys;
    })
  ]

  unfoldable pub prune_loop : ℕ → ℕ → LruCache K V → Option (LruCache K V × ℕ)
  prune_loop zero count c = if ltb c.max_size c.cache.size then none else some (c, count)
  prune_loop (suc fuel) count c = elim (ltb c.max_size c.cache.size) [
    | false ↦ some (c, count)
    | true ↦ elim (evict c) [ none ↦ none | some c' ↦ prune_loop fuel (count + 1) c' ]
  ]

  -- Each round takes an entry out of the map, so its size is enough fuel.
  unfoldable pub prune : LruCache K V → Option (LruCache K V × ℕ)
  prune c =
      if (c.max_size == 0) || ltb c.cache.size (max_allowed_size c)
      then some (c, 0)
      else (elim (prune_loop c.cache.size 0 c) [
        | none ↦ none
        | some r ↦ some (record r.0 { status = inc_prune r.1 r.0.status }, r.1)
      ])

  unfoldable pub set : K → V → LruCache K V → Option (LruCache K V)
  set k v c = elim (c.cache.find k) [
    | none ↦
        elim (prune (record c {
          status = inc_set c.status;
          keys = record { handle = c.next; key = k; value = v } ∷ c.keys;
          cache = insert dec k c.next c.cache;
          next = suc c.next;
        })) [ none ↦ none | some r ↦ some r.0 ]
    | some h ↦ elim (to_front h (store h v c.keys)) [
      | none ↦ none
      | some ns ↦ some (record c { status = inc_set c.status; keys = ns })
    ]
  ]

  -- `get(k, v)`: what is stored in `v` when it returns true.
  unfoldable pub get : K → LruCache K V → Option (LruCache K V × Option V)
  get k c = elim (c.cache.find k) [
    | none ↦ some (record c { status = inc_get c.status }, none)
    | some h ↦ elim (to_front h c.keys) [
      | none ↦ none
      | some ns ↦ elim (deref h ns) [
        | none ↦ none
        | some n ↦ some (record c { status = inc_hit (inc_get c.status); keys = ns }, some n.value)
      ]
    ]
  ]

  unfoldable pub del : K → LruCache K V → Option (LruCache K V × Bool)
  del k c = elim (c.cache.find k) [
    | none ↦ some (record c { status = inc_del c.status }, false)
    | some h ↦ elim (deref h c.keys) [
      | none ↦ none
      | some _ ↦ some (
        record c { status = inc_del c.status; keys = unlink h c.keys; cache = erase dec k c.cache },
        true,
      )
    ]
  ]

  unfoldable pub exists : K → LruCache K V → Bool
  exists k c = elim (c.cache.find k) [ none ↦ false | some _ ↦ true ]
