-- ===== src/Cache/Status.antt =====
-- The counters of sylar/ds/cache_status.h. An `int64_t` is its 64 bits, so an addition wraps.
use ynwad.Base.{ℕ, ◌+◌, ◌%◌, ◌^◌}

pub record CacheStatus : Type 0 where
  pub gets : ℕ
  pub sets : ℕ
  pub dels : ℕ
  pub timeouts : ℕ
  pub prunes : ℕ
  pub hits : ℕ

abbrev pub new_status : CacheStatus
new_status = record { gets = 0; sets = 0; dels = 0; timeouts = 0; prunes = 0; hits = 0 }

-- `Atomic::addFetch`
abbrev pub add64 : ℕ → ℕ → ℕ
add64 a v = (a + v) % 2 ^ 64

abbrev pub inc_get : CacheStatus → CacheStatus
inc_get s = record s { gets = add64 s.gets 1 }

abbrev pub inc_set : CacheStatus → CacheStatus
inc_set s = record s { sets = add64 s.sets 1 }

abbrev pub inc_del : CacheStatus → CacheStatus
inc_del s = record s { dels = add64 s.dels 1 }

abbrev pub inc_prune : ℕ → CacheStatus → CacheStatus
inc_prune v s = record s { prunes = add64 s.prunes v }

abbrev pub inc_hit : CacheStatus → CacheStatus
inc_hit s = record s { hits = add64 s.hits 1 }
