-- ===== src/Cache/Lru/Laws.antt =====
-- What clients of `LruCache` rely on: a value that was set is found, and the size is bounded.
use ynwad.Base.{
  ℕ, zero, suc, ◌-◌, ◌≡◌, ◌≤◌, ◌<◌, max, refl, sym, ap, ◌∙◌, true, inl, inr, List, [], ◌∷◌, some,
  Bool-cases, Option-cases, arith, length, take, ltb, ◌==◌, ◌||◌, length-take,
}
use ynwad.Cache.Lru.{LruCache, set, get, max_allowed_size}
use ynwad.Cache.Lru.Order.{entries, length-entries, trim, remove, set_entries}
use ynwad.Cache.Lru.Valid.{IsValid}
use ynwad.Cache.Lru.Reads.{get-get_entries}
use ynwad.Cache.Lru.Prune.{trim_idle, trim_full}
use ynwad.Cache.Lru.Set.{set-set_entries}
use mathlib.Core.List.{lookup}
use mathlib.Core.Logic.{if_pos, if_neg}

module _ {ℓ} {K V : Type ℓ} (dec : Discrete K) where
  lookup_first : (k : K) (v : V) (es : List (K × V)) → lookup dec k ((k, v) ∷ es) ≡ some v
  unfolding lookup
  lookup_first k v es = if_pos (dec k k) refl _ _

  -- The entry that comes first stays.
  trim_first :
      (max_size allowed : ℕ) (e : K × V) (es : List (K × V))
      → (rest : List (K × V)) × (trim max_size allowed (e ∷ es) ≡ e ∷ rest)
  trim_first zero allowed e es = (es, (trim_idle zero allowed (e ∷ es) refl).0)
  trim_first (suc n) allowed e es =
      elim (Bool-cases ((suc n == 0) || ltb (length (e ∷ es)) allowed)) [
        | inl test ↦ (es, (trim_idle (suc n) allowed (e ∷ es) test).0)
        | inr test ↦ (take n es, (trim_full (suc n) allowed (e ∷ es) test).0)
      ]

  lookup-set_entries :
      (max_size allowed : ℕ) (k : K) (v : V) (es : List (K × V))
      → lookup dec k (set_entries dec max_size allowed k v es) ≡ some v
  unfolding set_entries
  lookup-set_entries max_size allowed k v es = elim (Option-cases (lookup dec k es)) [
    | inl gone ↦
        let (rest, kept) = trim_first max_size allowed (k, v) es in
        rw (gone, set_entries) (ap (lookup dec k) kept ∙ lookup_first k v rest)
    | inr (old, found) ↦ rw (found, set_entries) (lookup_first k v (remove dec k es))
  ]

  pub set-lookup :
      (k : K) (v : V) (c : LruCache K V)
      → IsValid dec c
      → (c' : LruCache K V) × (set dec k v c ≡ some c')
        × IsValid dec c'
        × (lookup dec k (entries c'.keys) ≡ some v)
  set-lookup k v c ok =
      let (c', stored, p) = set-set_entries dec k v c ok in
      (
        c',
        stored,
        p.ok,
        ap (lookup dec k) p.kept
            ∙ lookup-set_entries c.max_size (max_allowed_size c) k v (entries c.keys),
      )

  -- In a valid cache, `get` finds the value that `set` just stored, whatever was pruned.
  pub get-set :
      (k : K) (v : V) (c : LruCache K V)
      → IsValid dec c
      → (c' c'' : LruCache K V) × (set dec k v c ≡ some c') × (get dec k c' ≡ some (c'', some v))
  get-set k v c ok =
      let (c', stored, valid, first) = set-lookup k v c ok in
      let (c'', found, _, _, _) = get-get_entries dec k c' valid in
      (c', c'', stored, found ∙ ap (λ t. some (c'', t)) first)

  -- With the key there, it is the removal that makes room for the entry.
  length-remove-some :
      (k : K) (v : V) (es : List (K × V))
      → lookup dec k es ≡ some v
      → suc (length (remove dec k es)) ≤ length es
  unfolding remove lookup
  length-remove-some k v [] h = absurd (ground (arith, h))
  length-remove-some k v (e ∷ es) h = elim (dec k e.0) [
    | yes p ↦ omega (arith, ap length (if_pos (dec k e.0) p es (e ∷ remove dec k es)))
    | no p ↦ omega (
      arith,
      ap length (if_neg (dec k e.0) p es (e ∷ remove dec k es)),
      length-remove-some k v es (sym (if_neg (dec k e.0) p (some e.1) (lookup dec k es)) ∙ h),
    )
  ]

  length-trim :
      (max_size allowed : ℕ) (es : List (K × V))
      → 0 < max_size
      → length (trim max_size allowed es) ≤ max max_size (allowed - 1)
  length-trim zero allowed es h = absurd (omega arith)
  length-trim (suc n) allowed es h = elim (Bool-cases ((suc n == 0) || ltb (length es) allowed)) [
    | inl test ↦ omega (arith, below test, ap length (trim_idle (suc n) allowed es test).0)
    | inr test ↦
        omega (arith, ap length (trim_full (suc n) allowed es test).0, length-take (suc n) es)
  ]
    where
      below : ((suc n == 0) || ltb (length es) allowed) ≡ true → length es < allowed
      below test = ground (arith, test)

  length-set_entries :
      (max_size allowed : ℕ) (k : K) (v : V) (es : List (K × V))
      → 0 < max_size
      → length es ≤ max max_size (allowed - 1)
      → length (set_entries dec max_size allowed k v es) ≤ max max_size (allowed - 1)
  unfolding set_entries
  length-set_entries max_size allowed k v es limited h = elim (Option-cases (lookup dec k es)) [
    | inl gone ↦ rw (gone, set_entries) (length-trim max_size allowed ((k, v) ∷ es) limited)
    | inr (old, found) ↦ rw (found, set_entries) (omega (arith, length-remove-some k old es found))
  ]

  -- A valid cache with a limit that has at most the larger of `max_size` and one less than the allowed
  -- size has no more after `set`.
  pub size-set :
      (k : K) (v : V) (c : LruCache K V)
      → IsValid dec c
      → 0 < c.max_size
      → c.cache.size ≤ max c.max_size (max_allowed_size c - 1)
      → (c' : LruCache K V) × (set dec k v c ≡ some c')
        × (c'.cache.size ≤ max c'.max_size (max_allowed_size c' - 1))
  size-set k v c ok limited h =
      let (c', stored, p) = set-set_entries dec k v c ok in
      let small =
        length-set_entries c.max_size (max_allowed_size c) k v (entries c.keys) limited
          (omega (arith, ok.counts, length-entries c.keys)) in
      let sizes = p.ok.counts ∙ sym (length-entries c'.keys) ∙ ap length p.kept in
      (c', stored, rw (sizes) (rw (p.settings.0) (rw (p.settings.1) small)))
