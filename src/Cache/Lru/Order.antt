-- ===== src/Cache/Lru/Order.antt =====
-- The LRU cache as one list of entries, the most recent first: what `LruCache` promises.
use ynwad.Base.{
  ℕ, suc, ◌≡◌, ◌≢◌, refl, sym, ap, ◌∙◌, List, [], ◌∷◌, ◌++◌, inl, inr, Option-cases, none, some,
  ltb, ◌==◌, ◌||◌, if◌then◌else◌, All, take, length,
}
use ynwad.Cache.Lru.{Node}
use ynwad.Cache.Lru.Nodes.{Apart}
use mathlib.Core.List.{lookup}
use mathlib.Core.Logic.{ite, if_pos, if_neg}

module _ {ℓ} {K V : Type ℓ} where
  abbrev pub entry : Node K V → K × V
  entry n = (n.key, n.value)

  -- What the program can see of the nodes.
  unfoldable pub entries : List (Node K V) → List (K × V)
  entries [] = []
  entries (n ∷ ns) = entry n ∷ entries ns

  pub entries-append : (ns ms : List (Node K V)) → entries (ns ++ ms) ≡ entries ns ++ entries ms
  unfolding entries
  entries-append [] ms = refl
  entries-append (n ∷ ns) ms = ap (λ t. entry n ∷ t) (entries-append ns ms)

  pub length-entries : (ns : List (Node K V)) → length (entries ns) ≡ length ns
  unfolding entries
  length-entries [] = refl
  length-entries (n ∷ ns) = ap suc (length-entries ns)

  -- At most `max_size` of the entries stay when there are `allowed` of them or more.
  unfoldable pub trim : ℕ → ℕ → List (K × V) → List (K × V)
  trim max_size allowed es =
      if (max_size == 0) || ltb (length es) allowed then es else take max_size es

module _ {ℓ} {K V : Type ℓ} (dec : Discrete K) where
  unfoldable pub remove : K → List (K × V) → List (K × V)
  remove k [] = []
  remove k (e ∷ es) = ite (dec k e.0) es (e ∷ remove k es)

  unfoldable pub set_entries : ℕ → ℕ → K → V → List (K × V) → List (K × V)
  set_entries max_size allowed k v es = elim (lookup dec k es) [
    | none ↦ trim max_size allowed ((k, v) ∷ es)
    | some _ ↦ (k, v) ∷ remove k es
  ]

  unfoldable pub get_entries : K → List (K × V) → List (K × V)
  get_entries k es = elim (lookup dec k es) [ none ↦ es | some v ↦ (k, v) ∷ remove k es ]

  pub lookup-middle :
      (n : Node K V) (before after : List (Node K V))
      → All (Apart n) before
      → lookup dec n.key (entries (before ++ n ∷ after)) ≡ some n.value
  unfolding lookup entries
  lookup-middle n [] after h = if_pos (dec n.key n.key) refl _ _
  lookup-middle n (m ∷ before) after h =
      if_neg (dec n.key m.key) (λ e. h.0.0 (sym e)) _ _ ∙ lookup-middle n before after h.1

  pub remove-middle :
      (n : Node K V) (before after : List (Node K V))
      → All (Apart n) before
      → remove n.key (entries (before ++ n ∷ after)) ≡ entries (before ++ after)
  unfolding remove entries
  remove-middle n [] after h = if_pos (dec n.key n.key) refl _ _
  remove-middle n (m ∷ before) after h =
      if_neg (dec n.key m.key) (λ e. h.0.0 (sym e)) _ _
      ∙ ap (λ t. entry m ∷ t) (remove-middle n before after h.1)

  pub remove_absent :
      (k : K) (ns : List (Node K V)) → All (λ n. n.key ≢ k) ns → remove k (entries ns) ≡ entries ns
  unfolding remove entries
  remove_absent k [] h = refl
  remove_absent k (m ∷ ns) h =
      if_neg (dec k m.key) (λ e. h.0 (sym e)) _ _ ∙ ap (λ t. entry m ∷ t) (remove_absent k ns h.1)

  lookup-remove :
      (k j : K) (es : List (K × V)) → j ≢ k → lookup dec j (remove k es) ≡ lookup dec j es
  unfolding lookup remove
  lookup-remove k j [] h = refl
  lookup-remove k j (e ∷ es) h = elim (dec k e.0) [
    | yes p ↦
        ap (lookup dec j) (if_pos (dec k e.0) p es (e ∷ remove k es))
        ∙ sym (if_neg (dec j e.0) (λ q. h (q ∙ sym p)) (some e.1) (lookup dec j es))
    | no p ↦
        ap (lookup dec j) (if_neg (dec k e.0) p es (e ∷ remove k es))
        ∙ ap (ite (dec j e.0) (some e.1)) (lookup-remove k j es h)
  ]

  -- To bring an entry to the front changes no key's value.
  pub lookup-get_entries :
      (k j : K) (es : List (K × V)) → lookup dec j (get_entries k es) ≡ lookup dec j es
  unfolding get_entries lookup
  lookup-get_entries k j es = elim (Option-cases (lookup dec k es)) [
    | inl gone ↦ rw (gone, get_entries) refl
    | inr (v, found) ↦
        rw (found, get_entries)
          (elim (dec j k) [
            | yes p ↦
                if_pos (dec j k) p (some v) (lookup dec j (remove k es))
                ∙ sym (ap (λ t. lookup dec t es) p ∙ found)
            | no p ↦
                if_neg (dec j k) p (some v) (lookup dec j (remove k es)) ∙ lookup-remove k j es p
          ])
  ]
