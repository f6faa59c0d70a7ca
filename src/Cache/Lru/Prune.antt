-- ===== src/Cache/Lru/Prune.antt =====
-- `prune` of sylar/ds/lru_cache.h: which entries it keeps, and which ones the callback sees.
use ynwad.Base.{
  ℕ, zero, suc, ◌+◌, ◌-◌, ◌≡◌, ◌≤◌, ◌<◌, refl, sym, ap, ◌∙◌, Bool, true, false, inl, inr, List, [],
  ◌∷◌, ◌++◌, append-nil, append_assoc, some, Bool-cases, arith, All-split, length, take, drop, ltb,
  ltb→lt, ltb→ge, ltb-false, ◌==◌, ◌||◌, if◌then◌else◌, take-append_left, drop-append_left,
  take_all, drop_all, length-append, length-drop,
}
use ynwad.Cache.Status.{inc_prune}
use ynwad.Cache.Dict.{erase}
use ynwad.Cache.Lru.{Node, LruCache, unlink, pop_back, evict, prune_loop, prune, max_allowed_size}
use ynwad.Cache.Lru.Nodes.{Distinct, Distinct-middle, unlink-middle, back-pop_back}
use ynwad.Cache.Lru.Order.{entry, entries, entries-append, length-entries, trim}
use ynwad.Cache.Lru.Valid.{Agree, IsValid}
use ynwad.Cache.Lru.Located.{Located, Located-middle}
use ynwad.Cache.Lru.Agree.{Agree-rest}
use ynwad.Cache.Lru.Reads.{SameSettings}
use mathlib.Core.Path.{subst}

module _ {ℓ} {K V : Type ℓ} where
  -- The entries that `trim` leaves out.
  unfoldable pub dropped : ℕ → ℕ → List (K × V) → List (K × V)
  dropped max_size allowed es =
      if (max_size == 0) || ltb (length es) allowed then [] else drop max_size es

  pub trim_idle :
      (max_size allowed : ℕ) (es : List (K × V))
      → ((max_size == 0) || ltb (length es) allowed) ≡ true
      → (trim max_size allowed es ≡ es) × (dropped max_size allowed es ≡ [])
  unfolding trim dropped
  trim_idle max_size allowed es h = (rw (h, trim) refl, rw (h, dropped) refl)

  pub trim_full :
      (max_size allowed : ℕ) (es : List (K × V))
      → ((max_size == 0) || ltb (length es) allowed) ≡ false
      → (trim max_size allowed es ≡ take max_size es)
        × (dropped max_size allowed es ≡ drop max_size es)
  unfolding trim dropped
  trim_full max_size allowed es h = (rw (h, trim) refl, rw (h, dropped) refl)

  -- The callback's calls after it got the entries `es` from the last one on.
  abbrev pub logged : Bool → List (K × V) → List (K × V) → List (K × V)
  logged callback es called = if callback then es ++ called else called

  logged_last :
      (callback : Bool) (m : ℕ) (es : List (K × V)) (e : K × V) (called : List (K × V))
      → m ≤ length es
      → logged callback (drop m es) (if callback then e ∷ called else called)
        ≡ logged callback (drop m (es ++ e ∷ [])) called
  logged_last false m es e called h = refl
  logged_last true m es e called h =
      sym (append_assoc (drop m es) (e ∷ []) called)
      ∙ ap (λ t. t ++ called) (sym (drop-append_left m es (e ∷ []) h))

  pub logged_none : (callback : Bool) (called : List (K × V)) → called ≡ logged callback [] called
  logged_none false called = refl
  logged_none true called = refl

  -- The cache without the last node `n` of its list.
  abbrev without_last : Discrete K → LruCache K V → Node K V → LruCache K V
  without_last dec c n = record c {
    called = if c.callback then entry n ∷ c.called else c.called;
    cache = erase dec n.key c.cache;
    keys = pop_back c.keys;
  }

module _ {ℓ} {K V : Type ℓ} (dec : Discrete K) where
  Agree-last :
      (c : LruCache K V) (n : Node K V)
      → IsValid dec c
      → c.keys ≡ pop_back c.keys ++ n ∷ []
      → IsValid dec (without_last dec c n)
  Agree-last c n ok whole =
      subst (λ t. Agree dec (erase dec n.key c.cache) t c.next) rest (Agree-rest dec ok l)
    where
      parts : Distinct (pop_back c.keys ++ n ∷ [])
      parts = subst Distinct whole ok.distinct

      l : Located dec n.key n.handle c.keys
      l =
          subst (Located dec n.key n.handle) (sym whole)
            (Located-middle dec n (pop_back c.keys) [] parts)

      rest : l.rest ≡ pop_back c.keys
      rest =
          sym l.unlinks
          ∙ ap (unlink n.handle) whole
          ∙ unlink-middle n (pop_back c.keys) []
              (All-split _ (pop_back c.keys) [] (Distinct-middle n (pop_back c.keys) [] parts).1).0
          ∙ append-nil _

  evict-last :
      (c : LruCache K V)
      → IsValid dec c
      → 0 < c.cache.size
      → (n : Node K V) × (evict dec c ≡ some (without_last dec c n))
        × (c.keys ≡ pop_back c.keys ++ n ∷ [])
        × IsValid dec (without_last dec c n)
  unfolding evict
  evict-last c ok h =
      let (n, found, whole) = back-pop_back c.keys (omega (arith, ok.counts)) in
      (n, rw (found, evict) refl, whole, Agree-last c n ok whole)

  -- What the loop leaves of a valid cache.
  pub record Pruned (es : List (K × V)) (gone : List (K × V)) (c c' : LruCache K V) : Type ℓ where
    pub ok : IsValid dec c'
    pub kept : entries c'.keys ≡ es
    pub calls : c'.called ≡ logged c.callback gone c.called
    pub settings : SameSettings c c'

  no_round :
      (c : LruCache K V)
      → IsValid dec c
      → c.cache.size ≤ c.max_size
      → Pruned (take c.max_size (entries c.keys)) (drop c.max_size (entries c.keys)) c c
  no_round c ok h = record {
    ok = ok;
    kept = sym (take_all c.max_size (entries c.keys) short);
    calls =
        logged_none c.callback c.called ∙ ap (λ t. logged c.callback t c.called) (sym none_left);
    settings = (refl, refl, refl);
  }
    where
      short : length (entries c.keys) ≤ c.max_size
      short = omega (arith, ok.counts, length-entries c.keys)

      none_left : drop c.max_size (entries c.keys) ≡ []
      none_left = drop_all c.max_size (entries c.keys) short

  one_round :
      (c c' : LruCache K V) (n : Node K V)
      → c.keys ≡ pop_back c.keys ++ n ∷ []
      → c.max_size ≤ length (pop_back c.keys)
      → Pruned
          (take c.max_size (entries (pop_back c.keys)))
          (drop c.max_size (entries (pop_back c.keys)))
          (without_last dec c n)
          c'
      → Pruned (take c.max_size (entries c.keys)) (drop c.max_size (entries c.keys)) c c'
  unfolding entries
  one_round c c' n whole room p = record {
    ok = p.ok;
    kept =
        p.kept
        ∙ sym (take-append_left c.max_size front (entry n ∷ []) enough)
        ∙ ap (take c.max_size) (sym parts);
    calls =
        p.calls
        ∙ logged_last c.callback c.max_size front (entry n) c.called enough
        ∙ ap (λ t. logged c.callback (drop c.max_size t) c.called) (sym parts);
    settings = p.settings;
  }
    where
      front : List (K × V)
      front = entries (pop_back c.keys)

      enough : c.max_size ≤ length front
      enough = omega (arith, room, length-entries (pop_back c.keys))

      parts : entries c.keys ≡ front ++ entry n ∷ []
      parts = ap entries whole ∙ entries-append (pop_back c.keys) (n ∷ [])

  loop-take :
      (fuel count : ℕ) (c : LruCache K V)
      → IsValid dec c
      → c.cache.size ≤ fuel
      → (c' : LruCache K V) × (prune_loop dec fuel count c
          ≡ some (c', count + (c.cache.size - c.max_size)))
        × Pruned (take c.max_size (entries c.keys)) (drop c.max_size (entries c.keys)) c c'
  unfolding prune_loop
  loop-take zero count c ok h =
      let room = ltb-false c.max_size c.cache.size (omega arith) in
      (c, rw (room) (ap (λ t. some (c, t)) (omega arith)), no_round c ok (omega arith))
  loop-take (suc fuel) count c ok h = elim (Bool-cases (ltb c.max_size c.cache.size)) [
    | inl e ↦
        let more = ltb→lt c.max_size c.cache.size e in
        let (n, evicted, whole, valid) = evict-last c ok (omega arith) in
        let fewer = ok.counts ∙ ap length whole ∙ length-append (pop_back c.keys) (n ∷ []) in
        let (c', run, p) =
          loop-take fuel (count + 1) (without_last dec c n) valid
            (omega (arith, valid.counts, fewer)) in
        (
          c',
          rw (e, prune_loop)
              (rw (evicted) (run ∙ ap (λ t. some (c', t)) (omega (arith, valid.counts, fewer)))),
          one_round c c' n whole (omega (arith, fewer)) p,
        )
    | inr e ↦
        let room = ltb→ge c.max_size c.cache.size e in
        (c, rw (e, prune_loop) (ap (λ t. some (c, t)) (omega arith)), no_round c ok room)
  ]

  -- `prune` of a valid cache ends. It leaves the most recent `max_size` entries when the cache is
  -- limited and has as many as allowed, else all of them; the callback, if there is one, gets every
  -- entry that goes, from the last one on; the result is their number.
  pub prune-trim :
      (c : LruCache K V)
      → IsValid dec c
      → (c' : LruCache K V) × (prune dec c
          ≡ some (c', length (dropped c.max_size (max_allowed_size c) (entries c.keys))))
        × Pruned
            (trim c.max_size (max_allowed_size c) (entries c.keys))
            (dropped c.max_size (max_allowed_size c) (entries c.keys))
            c
            c'
  unfolding prune
  prune-trim c ok = elim (Bool-cases ((c.max_size == 0) || ltb c.cache.size (max_allowed_size c))) [
    | inl e ↦
        let (all, nothing) = trim_idle c.max_size (max_allowed_size c) es (same_test ∙ e) in
        (
          c,
          rw (e, prune) (ap (λ t. some (c, length t)) (sym nothing)),
          record {
            ok = ok;
            kept = sym all;
            calls =
                logged_none c.callback c.called
                ∙ ap (λ t. logged c.callback t c.called) (sym nothing);
            settings = (refl, refl, refl);
          },
        )
    | inr e ↦
        let (few, rest) = trim_full c.max_size (max_allowed_size c) es (same_test ∙ e) in
        let (c', run, p) = loop-take c.cache.size 0 c ok (omega arith) in
        let count = 0 + (c.cache.size - c.max_size) in
        let number : count ≡ length (dropped c.max_size (max_allowed_size c) es) =
          omega (arith, ap length rest, length-drop c.max_size es, sizes) in
        (
          record c' { status = inc_prune count c'.status },
          rw (e, prune)
              (rw (run)
                (ap (λ t. some (record c' { status = inc_prune count c'.status }, t)) number)),
          record {
            ok = p.ok;
            kept = p.kept ∙ sym few;
            calls = p.calls ∙ ap (λ t. logged c.callback t c.called) (sym rest);
            settings = p.settings;
          },
        )
  ]
    where
      es : List (K × V)
      es = entries c.keys

      sizes : c.cache.size ≡ length es
      sizes = ok.counts ∙ sym (length-entries c.keys)

      same_test :
          ((c.max_size == 0) || ltb (length es) (max_allowed_size c))
          ≡ ((c.max_size == 0) || ltb c.cache.size (max_allowed_size c))
      same_test = ap (λ t. (c.max_size == 0) || ltb t (max_allowed_size c)) (sym sizes)
