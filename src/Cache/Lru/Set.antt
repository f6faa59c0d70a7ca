-- ===== src/Cache/Lru/Set.antt =====
-- `set` of sylar/ds/lru_cache.h on the list of entries, and with `get` after it.
use ynwad.Base.{ℕ, suc, ◌≡◌, refl, ◌∙◌, inl, inr, List, [], ◌∷◌, none, some, Option-cases}
use ynwad.Cache.Status.{inc_set}
use ynwad.Cache.Dict.{insert}
use ynwad.Cache.Lru.{LruCache, set, max_allowed_size}
use ynwad.Cache.Lru.Order.{entries, set_entries}
use ynwad.Cache.Lru.Valid.{handle_of, handle_of-none, IsValid}
use ynwad.Cache.Lru.Located.{handle_of-Located}
use ynwad.Cache.Lru.Agree.{Agree-front, Agree-new}
use ynwad.Cache.Lru.Prune.{Pruned, dropped, logged_none, prune-trim}
use mathlib.Core.List.{lookup}

module _ {ℓ} {K V : Type ℓ} (dec : Discrete K) where
  -- The entries that go when `k` is set.
  unfoldable pub set_dropped : ℕ → ℕ → K → V → List (K × V) → List (K × V)
  set_dropped max_size allowed k v es = elim (lookup dec k es) [
    | none ↦ dropped max_size allowed ((k, v) ∷ es)
    | some _ ↦ []
  ]

  module _ (k : K) (v : V) (c : LruCache K V) (ok : IsValid dec c) where
    -- `set` of a valid cache ends. It puts the entry first, in place of the key's old entry; a new
    -- entry makes the cache prune itself. The callback, if there is one, gets the entries that go. The
    -- cache is valid, and the settings stay.
    pub set-set_entries :
        (c' : LruCache K V) × (set dec k v c ≡ some c')
        × Pruned dec
            (set_entries dec c.max_size (max_allowed_size c) k v (entries c.keys))
            (set_dropped c.max_size (max_allowed_size c) k v (entries c.keys))
            c
            c'
    unfolding set set_entries set_dropped entries
    set-set_entries = elim (Option-cases (handle_of dec k c.keys)) [
      | inl missing ↦
          let gone = (handle_of-none dec k c.keys missing).1 in
          let added : LruCache K V = record c {
            status = inc_set c.status;
            keys = record { handle = c.next; key = k; value = v } ∷ c.keys;
            cache = insert dec k c.next c.cache;
            next = suc c.next;
          } in
          let (c', run, p) = prune-trim dec added (Agree-new dec ok k v missing) in
          (
            c',
            rw (ok.finds k ∙ missing, set) (rw run refl),
            record {
              ok = p.ok;
              kept = rw (gone, set_entries) p.kept;
              calls = rw (gone, set_dropped) p.calls;
              settings = p.settings;
            },
          )
      | inr (h, found) ↦
          let l = handle_of-Located dec k h c.keys ok.distinct found in
          (
            record c { status = inc_set c.status; keys = record l.node { value = v } ∷ l.rest },
            rw (ok.finds k ∙ found, set) (rw (l.stores v) refl),
            record {
              ok = Agree-front dec ok l v;
              kept = rw (l.looks, set_entries) (rw (l.removes) (rw (l.same_key) refl));
              calls = rw (l.looks, set_dropped) (logged_none c.callback c.called);
              settings = (refl, refl, refl);
            },
          )
    ]
