-- ===== src/Cache/HashLru.antt =====
-- `HashLruCache` of sylar/ds/lru_cache.h: a cache for each remainder of the keys' hash.
-- The caches share the counters, so one of them gets these before it runs and leaves them after it.
-- `hash` is the hash function, and `ceil_div` the quotient of two `double`s rounded up. An operation
-- returns `none` where the source's behaviour is undefined: with no caches the remainder divides by 0.
pub mod Laws
use ynwad.Base.{
  ℕ, zero, suc, ◌+◌, ◌*◌, ◌%◌, Bool, true, false, List, [], ◌∷◌, Option, none, some, map, get_elem?,
  ◌==◌, ◌&&◌, ◌||◌, if◌then◌else◌,
}
use ynwad.Base
use ynwad.Cache.Status.{CacheStatus, new_status}
use ynwad.Cache.Lru.{LruCache, new_cache}
use ynwad.Cache.Lru

pub record HashLruCache {ℓ} (K V : Type ℓ) : Type ℓ where
  pub datas : List (LruCache K V)
  pub max_size : ℕ
  pub bucket : ℕ
  pub elasticity : ℕ
  pub status : CacheStatus

module _ {ℓ} {A : Type ℓ} where
  unfoldable pub repeat : ℕ → A → List A
  repeat zero a = []
  repeat (suc n) a = a ∷ repeat n a

module _ {ℓ} {K V : Type ℓ} where
  unfoldable pub new_hash_cache : (ℕ → ℕ → ℕ) → ℕ → ℕ → ℕ → Option (HashLruCache K V)
  new_hash_cache ceil_div bucket max_size elasticity =
      if bucket == 0
      then none
      else some (record {
        datas = repeat bucket (new_cache (ceil_div max_size bucket) (ceil_div elasticity bucket));
        max_size = ceil_div max_size bucket * bucket;
        bucket = bucket;
        elasticity = ceil_div elasticity bucket * bucket;
        status = new_status;
      })

  -- The cache at `i`, with the shared counters.
  unfoldable pub select : ℕ → HashLruCache K V → Option (LruCache K V)
  select i c = elim (get_elem? c.datas i) [
    | none ↦ none
    | some d ↦ some (record d { status = c.status })
  ]

  unfoldable pub replace : ℕ → LruCache K V → HashLruCache K V → HashLruCache K V
  replace i d c = record c { datas = Base.set c.datas i d; status = d.status }

  -- `m_hash(k) % m_bucket`
  unfoldable pub bucket_of : (K → ℕ) → K → HashLruCache K V → Option ℕ
  bucket_of hash k c = if c.bucket == 0 then none else some (hash k % c.bucket)

  -- `m_datas[m_hash(k) % m_bucket]`
  unfoldable pub cache_of : (K → ℕ) → K → HashLruCache K V → Option (ℕ × LruCache K V)
  cache_of hash k c = elim (bucket_of hash k c) [
    | none ↦ none
    | some i ↦ elim (select i c) [ none ↦ none | some d ↦ some (i, d) ]
  ]

  unfoldable pub total_size : List (LruCache K V) → ℕ
  total_size [] = 0
  total_size (d ∷ ds) = Lru.size d + total_size ds

  abbrev pub size : HashLruCache K V → ℕ
  size c = total_size c.datas

  unfoldable pub all_empty : List (LruCache K V) → Bool
  all_empty [] = true
  all_empty (d ∷ ds) = if Lru.empty d then all_empty ds else false

  abbrev pub empty : HashLruCache K V → Bool
  empty c = all_empty c.datas

  abbrev pub clear : HashLruCache K V → HashLruCache K V
  clear c = record c { datas = map Lru.clear c.datas }

  unfoldable pub set_max_size : (ℕ → ℕ → ℕ) → ℕ → HashLruCache K V → Option (HashLruCache K V)
  set_max_size ceil_div v c =
      if c.bucket == 0
      then none
      else some (record c {
        max_size = ceil_div v c.bucket * c.bucket;
        datas = map (Lru.set_max_size (ceil_div v c.bucket)) c.datas;
      })

  unfoldable pub set_elasticity : (ℕ → ℕ → ℕ) → ℕ → HashLruCache K V → Option (HashLruCache K V)
  set_elasticity ceil_div v c =
      if c.bucket == 0
      then none
      else some (record c {
        elasticity = ceil_div v c.bucket * c.bucket;
        datas = map (Lru.set_elasticity (ceil_div v c.bucket)) c.datas;
      })

  abbrev pub set_prune_callback : HashLruCache K V → HashLruCache K V
  set_prune_callback c = record c { datas = map Lru.set_prune_callback c.datas }

module _ {ℓ} {K V : Type ℓ} (dec : Discrete K) (hash : K → ℕ) where
  unfoldable pub set : K → V → HashLruCache K V → Option (HashLruCache K V)
  set k v c = elim (cache_of hash k c) [
    | none ↦ none
    | some e ↦ elim (Lru.set dec k v e.1) [ none ↦ none | some d ↦ some (replace e.0 d c) ]
  ]

  unfoldable pub get : K → HashLruCache K V → Option (HashLruCache K V × Option V)
  get k c = elim (cache_of hash k c) [
    | none ↦ none
    | some e ↦ elim (Lru.get dec k e.1) [ none ↦ none | some r ↦ some (replace e.0 r.0 c, r.1) ]
  ]

  unfoldable pub del : K → HashLruCache K V → Option (HashLruCache K V × Bool)
  del k c = elim (cache_of hash k c) [
    | none ↦ none
    | some e ↦ elim (Lru.del dec k e.1) [ none ↦ none | some r ↦ some (replace e.0 r.0 c, r.1) ]
  ]

  unfoldable pub exists : K → HashLruCache K V → Option Bool
  exists k c = elim (cache_of hash k c) [ none ↦ none | some e ↦ some (Lru.exists dec k e.1) ]
