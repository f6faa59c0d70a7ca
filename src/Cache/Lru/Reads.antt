-- ===== src/Cache/Lru/Reads.antt =====
-- `get` and `del` of sylar/ds/lru_cache.h do what they do on the list of entries.
use ynwad.Base.{ℕ, ◌≡◌, ◌↔◌, refl, sym, ◌∙◌, true, inl, inr, ◌∷◌, some, Option-cases, arith}
use ynwad.Cache.Status.{inc_get, inc_hit, inc_del}
use ynwad.Cache.Dict.{erase}
use ynwad.Cache.Lru.{LruCache, get, del, exists}
use ynwad.Cache.Lru.Order.{entries, remove, remove_absent, get_entries}
use ynwad.Cache.Lru.Valid.{handle_of, handle_of-none, IsValid}
use ynwad.Cache.Lru.Located.{Located, handle_of-Located}
use ynwad.Cache.Lru.Agree.{Agree-rest, Agree-front}
use mathlib.Core.List.{lookup}

module _ {ℓ} {K V : Type ℓ} where
  -- The limits and the callback, which only their setters change.
  abbrev pub SameSettings : LruCache K V → LruCache K V → Type 0
  SameSettings c c' =
      (c'.max_size ≡ c.max_size) × (c'.elasticity ≡ c.elasticity) × (c'.callback ≡ c.callback)

  module _ (dec : Discrete K) (k : K) (c : LruCache K V) (ok : IsValid dec c) where
    get_hit :
        (h : ℕ)
        → c.cache.find k ≡ some h
        → (l : Located dec k h c.keys)
        → get dec k c
          ≡ some (
            record c { status = inc_hit (inc_get c.status); keys = l.node ∷ l.rest },
            some l.node.value,
          )
    unfolding get
    get_hit h found l = rw (found, get) (rw (l.fronts) (rw (l.again) refl))

    -- `get` gives the value of the key in a valid cache and makes its entry the first one; without
    -- the key it leaves the entries as they are. It ends, valid, and the settings stay.
    pub get-get_entries :
        (c' : LruCache K V) × (get dec k c ≡ some (c', lookup dec k (entries c.keys)))
        × IsValid dec c'
        × (entries c'.keys ≡ get_entries dec k (entries c.keys))
        × SameSettings c c'
    unfolding get_entries entries get
    get-get_entries = elim (Option-cases (handle_of dec k c.keys)) [
      | inl missing ↦
          let gone = (handle_of-none dec k c.keys missing).1 in
          (
            record c { status = inc_get c.status },
            rw (gone) (rw (ok.finds k ∙ missing, get) refl),
            ok,
            rw (gone, get_entries) refl,
            (refl, refl, refl),
          )
      | inr (h, found) ↦
          let l = handle_of-Located dec k h c.keys ok.distinct found in
          (
            record c { status = inc_hit (inc_get c.status); keys = l.node ∷ l.rest },
            rw (l.looks) (get_hit h (ok.finds k ∙ found) l),
            Agree-front dec ok l l.node.value,
            rw (l.looks, get_entries) (rw (l.removes) (rw (l.same_key) refl)),
            (refl, refl, refl),
          )
    ]

    -- `del` says whether the key is in a valid cache and takes its entry out. It ends, valid, and the
    -- settings stay.
    pub del-remove :
        (c' : LruCache K V) × (del dec k c ≡ some (c', exists dec k c))
        × IsValid dec c'
        × (entries c'.keys ≡ remove dec k (entries c.keys))
        × SameSettings c c'
    unfolding del exists
    del-remove = elim (Option-cases (handle_of dec k c.keys)) [
      | inl missing ↦ (
        record c { status = inc_del c.status },
        rw (ok.finds k ∙ missing, del, exists) refl,
        ok,
        sym (remove_absent dec k c.keys (handle_of-none dec k c.keys missing).0),
        (refl, refl, refl),
      )
      | inr (h, found) ↦
          let l = handle_of-Located dec k h c.keys ok.distinct found in
          (
            record c { status = inc_del c.status; keys = l.rest; cache = erase dec k c.cache },
            rw (ok.finds k ∙ found, del, exists) (rw (l.derefs) (rw (l.unlinks) refl)),
            Agree-rest dec ok l,
            sym l.removes,
            (refl, refl, refl),
          )
    ]

    -- `exists` says whether a valid cache has an entry of the key.
    pub exists-lookup :
        (exists dec k c ≡ true) ↔ ((v : V) × (lookup dec k (entries c.keys) ≡ some v))
    unfolding exists
    exists-lookup = elim (Option-cases (handle_of dec k c.keys)) [
      | inl missing ↦
          let gone = (handle_of-none dec k c.keys missing).1 in
          rw (ok.finds k ∙ missing, exists)
            ((λ e. absurd (ground (arith, e))), (λ e. absurd (ground (arith, gone, e.1))))
      | inr (h, found) ↦
          let l = handle_of-Located dec k h c.keys ok.distinct found in
          rw (ok.finds k ∙ found, exists) ((λ e. (l.node.value, l.looks)), (λ e. refl))
    ]
