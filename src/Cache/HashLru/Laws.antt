-- ===== src/Cache/HashLru/Laws.antt =====
-- `HashLruCache` of sylar/ds/lru_cache.h as a map from keys to values: each operation works on the
-- cache of its key and leaves the others.
use ynwad.Base.{
  get_elem-some, get_elem-set, get_elem-set_other, length-set, All-get_elem, All-set, ℕ, zero, suc,
  ◌*◌, ◌%◌, ◌≡◌, ◌≢◌, ◌<◌, refl, sym, ap, ◌∙◌, Option, none, some, All, get_elem?, length, arith,
  ==-false,
}
use ynwad.Cache.Status.{new_status}
use ynwad.Cache.Lru.{LruCache, new_cache}
use ynwad.Base
use ynwad.Cache.Lru
use ynwad.Cache.Lru.Order.{entries, lookup-get_entries}
use ynwad.Cache.Lru.Valid.{Agree}
use ynwad.Cache.Lru.Agree.{Agree-empty}
use ynwad.Cache.Lru.Reads.{get-get_entries}
use ynwad.Cache.Lru.Laws.{set-lookup}
use ynwad.Cache.HashLru.{
  HashLruCache, repeat, new_hash_cache, select, replace, bucket_of, cache_of, set, get,
}
use mathlib.Core.List.{lookup}
use native.Mathlib.Decide.{ℕ_discrete}
use native.Mathlib.Nat.{mod-lt}

module _ {ℓ} {K V : Type ℓ} (dec : Discrete K) (hash : K → ℕ) where
  -- The value of a key in the cache for its hash.
  unfoldable pub seen : K → HashLruCache K V → Option V
  seen k c = elim (get_elem? c.datas (hash k % c.bucket)) [
    | none ↦ none
    | some d ↦ lookup dec k (entries d.keys)
  ]

  pub record IsValid (c : HashLruCache K V) : Type ℓ where
    pub full : length c.datas ≡ c.bucket
    pub positive : 0 < c.bucket
    pub each : All (Lru.Valid.IsValid dec) c.datas

  cache_of-some :
      (k : K) (c : HashLruCache K V)
      → IsValid c
      → (d : LruCache K V) × (get_elem? c.datas (hash k % c.bucket) ≡ some d)
        × (cache_of hash k c ≡ some (hash k % c.bucket, record d { status = c.status }))
        × Lru.Valid.IsValid dec d
  unfolding cache_of bucket_of select
  cache_of-some k c ok =
      let below = mod-lt (hash k) ok.positive in
      let (d, found) = get_elem-some (hash k % c.bucket) c.datas (omega (arith, below, ok.full)) in
      (
        d,
        found,
        rw (==-false c.bucket 0 (λ e. absurd (omega (arith, e, ok.positive))), cache_of, bucket_of)
            (rw (found, select) refl),
        All-get_elem _ (hash k % c.bucket) d c.datas ok.each found,
      )

  replace-IsValid :
      (i : ℕ) (d : LruCache K V) (c : HashLruCache K V)
      → IsValid c
      → Lru.Valid.IsValid dec d
      → IsValid (replace i d c)
  unfolding replace
  replace-IsValid i d c ok valid = record {
    full = length-set c.datas i d ∙ ok.full;
    positive = ok.positive;
    each = All-set _ i d c.datas ok.each valid;
  }

  seen-replace :
      (i : ℕ) (j : K) (d d' : LruCache K V) (c : HashLruCache K V)
      → get_elem? c.datas i ≡ some d
      → hash j % c.bucket ≡ i
      → seen j (replace i d' c) ≡ lookup dec j (entries d'.keys)
  unfolding seen replace
  seen-replace i j d d' c found same =
      rw (ap (get_elem? (Base.set c.datas i d')) same ∙ get_elem-set i d d' c.datas found, seen)
        refl

  seen-replace_other :
      (i : ℕ) (j : K) (d' : LruCache K V) (c : HashLruCache K V)
      → hash j % c.bucket ≢ i
      → seen j (replace i d' c) ≡ seen j c
  unfolding seen replace
  seen-replace_other i j d' c other =
      rw (get_elem-set_other i (hash j % c.bucket) d' c.datas other, seen) refl

  seen_kept :
      (i : ℕ) (j : K) (d d' : LruCache K V) (c : HashLruCache K V)
      → get_elem? c.datas i ≡ some d
      → lookup dec j (entries d'.keys) ≡ lookup dec j (entries d.keys)
      → seen j (replace i d' c) ≡ seen j c
  unfolding seen
  seen_kept i j d d' c found alike = elim (ℕ_discrete (hash j % c.bucket) i) [
    | yes same ↦
        seen-replace i j d d' c found same
        ∙ alike
        ∙ sym (rw (ap (get_elem? c.datas) same ∙ found, seen) refl)
    | no other ↦ seen-replace_other i j d' c other
  ]

  -- `get` of a valid cache ends with the value that the cache holds for the key, and the result is
  -- valid and shows the same values for all keys.
  pub get-seen :
      (k : K) (c : HashLruCache K V)
      → IsValid c
      → (c' : HashLruCache K V) × (get dec hash k c ≡ some (c', seen k c))
        × IsValid c'
        × ((j : K) → seen j c' ≡ seen j c)
  unfolding get seen
  get-seen k c ok =
      let (d, found, here, valid) = cache_of-some k c ok in
      let (d', run, valid', order, _) =
        get-get_entries dec k (record d { status = c.status }) valid in
      (
        replace (hash k % c.bucket) d' c,
        rw (found, seen) (rw (here, get) (rw run refl)),
        replace-IsValid (hash k % c.bucket) d' c ok valid',
        λ j.
            seen_kept (hash k % c.bucket) j d d' c found
              (ap (lookup dec j) order ∙ lookup-get_entries dec k j (entries d.keys)),
      )

  -- `set` of a valid cache ends. The result is valid, has the value under the key, and shows the same
  -- value for a key `j` of another bucket.
  pub set-seen :
      (k j : K) (v : V) (c : HashLruCache K V)
      → IsValid c
      → hash j % c.bucket ≢ hash k % c.bucket
      → (c' : HashLruCache K V) × (set dec hash k v c ≡ some c')
        × IsValid c'
        × (seen k c' ≡ some v)
        × (seen j c' ≡ seen j c)
  unfolding set
  set-seen k j v c ok other =
      let (d, found, here, valid) = cache_of-some k c ok in
      let (d', run, valid', first) = set-lookup dec k v (record d { status = c.status }) valid in
      (
        replace (hash k % c.bucket) d' c,
        rw (here, set) (rw run refl),
        replace-IsValid (hash k % c.bucket) d' c ok valid',
        seen-replace (hash k % c.bucket) k d d' c found refl ∙ first,
        seen-replace_other (hash k % c.bucket) j d' c other,
      )

  repeat-IsValid :
      (n : ℕ) (d : LruCache K V)
      → Lru.Valid.IsValid dec d
      → (length (repeat n d) ≡ n) × All (Lru.Valid.IsValid dec) (repeat n d)
  unfolding repeat
  repeat-IsValid zero d ok = (refl, tt)
  repeat-IsValid (suc n) d ok =
      let (long, each) = repeat-IsValid n d ok in (ap suc long, (ok, each))

  -- With at least one bucket the constructor gives a valid cache, however it rounds the limits.
  pub new_hash_cache-IsValid :
      (ceil_div : ℕ → ℕ → ℕ) (bucket max_size elasticity : ℕ)
      → 0 < bucket
      → (c : HashLruCache K V) × (new_hash_cache ceil_div bucket max_size elasticity ≡ some c)
        × IsValid c
        × (c.bucket ≡ bucket)
  unfolding new_hash_cache
  new_hash_cache-IsValid ceil_div bucket max_size elasticity positive =
      let fresh : LruCache K V =
        new_cache (ceil_div max_size bucket) (ceil_div elasticity bucket) in
      let (long, each) = repeat-IsValid bucket fresh (Agree-empty dec 0) in
      let made : HashLruCache K V = record {
        datas = repeat bucket fresh;
        max_size = ceil_div max_size bucket * bucket;
        bucket = bucket;
        elasticity = ceil_div elasticity bucket * bucket;
        status = new_status;
      } in
      (
        made,
        rw (==-false bucket 0 (λ e. absurd (omega (arith, e, positive))), new_hash_cache) refl,
        record { full = long; positive = positive; each = each },
        refl,
      )
