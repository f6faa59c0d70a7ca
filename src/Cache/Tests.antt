-- ===== src/Cache/Tests.antt =====
-- Runs of the caches on small inputs.
use ynwad.Base.{ℕ, ◌+◌, ◌-◌, ◌≡◌, refl, true, List, [], ◌∷◌, Option, none, some, length, arith, ◌/◌}
use ynwad.Cache.Lru.{
  LruCache, new_cache, set, get, del, exists, prune, evict, prune_loop, deref, store, unlink,
  to_front, back, pop_back,
}
use ynwad.Cache.Lru.Order.{entries, trim, remove, get_entries, set_entries}
use ynwad.Cache.Lru.Valid.{IsValid, handle_of}
use ynwad.Cache.Lru.Agree.{Agree-empty, Agree-new}
use ynwad.Cache.Lru.Reads.{SameSettings, get-get_entries, del-remove}
use ynwad.Cache.Lru.Prune.{Pruned, dropped, prune-trim}
use ynwad.Cache.Lru.Set.{set_dropped, set-set_entries}
use ynwad.Cache.Lru.Laws.{get-set}
use ynwad.Cache.Dict.{empty_dict, insert, erase}
use ynwad.Cache.HashLru.{HashLruCache}
use ynwad.Cache.HashLru
use ynwad.Cache.HashLru.Laws.{seen, get-seen, set-seen, new_hash_cache-IsValid}
use ynwad.Cache.HashLru.Laws
use mathlib.Core.List.{lookup}
use native.Mathlib.Decide.{ℕ_discrete}

-- Two entries, of two that may stay and three that are allowed.
abbrev pair : LruCache ℕ ℕ
pair = record (new_cache 2 1) {
  callback = true;
  next = 2;
  keys =
      record { handle = 1; key = 8; value = 80 } ∷ record { handle = 0; key = 7; value = 70 } ∷ [];
  cache = insert ℕ_discrete 8 1 (insert ℕ_discrete 7 0 empty_dict);
}

pair-IsValid : IsValid ℕ_discrete pair
unfolding handle_of ℕ_discrete
pair-IsValid =
    Agree-new ℕ_discrete (Agree-new ℕ_discrete (Agree-empty ℕ_discrete 0) 7 70 refl) 8 80 refl

pair_size : pair.cache.size ≡ 2
unfolding insert ℕ_discrete
pair_size = refl

-- The third entry makes the cache prune itself to two.
abbrev shown : Option (LruCache ℕ ℕ) → List (ℕ × ℕ) × List (ℕ × ℕ)
shown none = ([], [])
shown (some c) = (entries c.keys, c.called)

set_third : shown (set ℕ_discrete 9 90 pair) ≡ ((9, 90) ∷ (8, 80) ∷ [], (7, 70) ∷ [])
unfolding set prune prune_loop evict insert erase deref store unlink to_front back pop_back entries
    ℕ_discrete
set_third = refl

get-get_entries_example :
    (c' : LruCache ℕ ℕ) × (get ℕ_discrete 7 pair
      ≡ some (c', lookup ℕ_discrete 7 (entries pair.keys)))
    × IsValid ℕ_discrete c'
    × (entries c'.keys ≡ get_entries ℕ_discrete 7 (entries pair.keys))
    × SameSettings pair c'
get-get_entries_example = get-get_entries ℕ_discrete 7 pair pair-IsValid

del-remove_example :
    (c' : LruCache ℕ ℕ) × (del ℕ_discrete 7 pair ≡ some (c', exists ℕ_discrete 7 pair))
    × IsValid ℕ_discrete c'
    × (entries c'.keys ≡ remove ℕ_discrete 7 (entries pair.keys))
    × SameSettings pair c'
del-remove_example = del-remove ℕ_discrete 7 pair pair-IsValid

prune-trim_example :
    (c' : LruCache ℕ ℕ) × (prune ℕ_discrete pair
      ≡ some (c', length (dropped 2 3 (entries pair.keys))))
    × Pruned ℕ_discrete (trim 2 3 (entries pair.keys)) (dropped 2 3 (entries pair.keys)) pair c'
prune-trim_example = prune-trim ℕ_discrete pair pair-IsValid

set-set_entries_example :
    (c' : LruCache ℕ ℕ) × (set ℕ_discrete 9 90 pair ≡ some c')
    × Pruned ℕ_discrete
        (set_entries ℕ_discrete 2 3 9 90 (entries pair.keys))
        (set_dropped ℕ_discrete 2 3 9 90 (entries pair.keys))
        pair
        c'
set-set_entries_example = set-set_entries ℕ_discrete 9 90 pair pair-IsValid

get-set_example :
    (c' c'' : LruCache ℕ ℕ) × (set ℕ_discrete 9 90 pair ≡ some c')
    × (get ℕ_discrete 9 c' ≡ some (c'', some 90))
get-set_example = get-set ℕ_discrete 9 90 pair pair-IsValid

-- Two buckets, for the even and the odd keys.
abbrev parity : HashLruCache ℕ ℕ
parity = record {
  datas = pair ∷ pair ∷ [];
  max_size = 4;
  bucket = 2;
  elasticity = 2;
  status = pair.status;
}

abbrev same_hash : ℕ → ℕ
same_hash k = k

parity-IsValid : HashLru.Laws.IsValid ℕ_discrete same_hash parity
parity-IsValid = record {
  full = refl;
  positive = omega arith;
  each = (pair-IsValid, (pair-IsValid, tt));
}

abbrev round_up : ℕ → ℕ → ℕ
round_up a b = (a + (b - 1)) / b
