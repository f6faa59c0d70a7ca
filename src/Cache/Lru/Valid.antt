-- ===== src/Cache/Lru/Valid.antt =====
-- The invariant of `LruCache`: the map and the list agree.
use ynwad.Base.{
  ℕ, ◌≡◌, ◌≢◌, ◌<◌, refl, sym, ap, ◌∙◌, List, [], ◌∷◌, ◌++◌, Option, none, some, All, length, arith,
}
use ynwad.Cache.Dict.{Dict}
use ynwad.Cache.Lru.{Node, LruCache}
use ynwad.Cache.Lru.Nodes.{Distinct}
use ynwad.Cache.Lru.Order.{entries}
use mathlib.Core.List.{lookup}
use mathlib.Core.Logic.{ite, if_pos, if_neg}

module _ {ℓ} {K V : Type ℓ} (dec : Discrete K) where
  -- The iterator at the node with a key.
  unfoldable pub handle_of : K → List (Node K V) → Option ℕ
  handle_of k [] = none
  handle_of k (n ∷ ns) = ite (dec k n.key) (some n.handle) (handle_of k ns)

  -- The map has the iterators at the nodes, the keys and the iterators are different, and iterators
  -- that `next` will give are new.
  pub record Agree (d : Dict K ℕ) (ns : List (Node K V)) (next : ℕ) : Type ℓ where
    pub finds : (k : K) → d.find k ≡ handle_of k ns
    pub counts : d.size ≡ length ns
    pub distinct : Distinct ns
    pub older : All (λ n. n.handle < next) ns

  abbrev pub IsValid : LruCache K V → Type ℓ
  IsValid c = Agree c.cache c.keys c.next

  -- Where the node of a key is.
  pub record Found (k : K) (h : ℕ) (ns : List (Node K V)) : Type ℓ where
    pub before : List (Node K V)
    pub node : Node K V
    pub after : List (Node K V)
    pub whole : ns ≡ before ++ node ∷ after
    pub same_key : node.key ≡ k
    pub same_handle : node.handle ≡ h

  pub handle_of-none :
      (k : K) (ns : List (Node K V))
      → handle_of k ns ≡ none
      → All (λ n. n.key ≢ k) ns × (lookup dec k (entries ns) ≡ none)
  unfolding handle_of lookup entries
  handle_of-none k [] h = (tt, refl)
  handle_of-none k (n ∷ ns) h = elim (dec k n.key) [
    | yes p ↦ absurd (ground (arith, h, if_pos (dec k n.key) p (some n.handle) (handle_of k ns)))
    | no p ↦
        let (others, missing) =
          handle_of-none k ns (sym (if_neg (dec k n.key) p (some n.handle) (handle_of k ns)) ∙ h) in
        (((λ e. p (sym e)), others), if_neg (dec k n.key) p _ _ ∙ missing)
  ]

  pub handle_of-some :
      (k : K) (h : ℕ) (ns : List (Node K V)) → handle_of k ns ≡ some h → Found k h ns
  unfolding handle_of
  handle_of-some k h [] e = absurd (ground arith)
  handle_of-some k h (n ∷ ns) e = elim (dec k n.key) [
    | yes p ↦ record {
      before = [];
      node = n;
      after = ns;
      whole = refl;
      same_key = sym p;
      same_handle = ground (arith, e, if_pos (dec k n.key) p (some n.handle) (handle_of k ns));
    }
    | no p ↦
        let rest =
          handle_of-some k h ns
            (sym (if_neg (dec k n.key) p (some n.handle) (handle_of k ns)) ∙ e) in
        record {
          before = n ∷ rest.before;
          node = rest.node;
          after = rest.after;
          whole = ap (λ t. n ∷ t) rest.whole;
          same_key = rest.same_key;
          same_handle = rest.same_handle;
        }
  ]

  -- Of a key that no node has, there is no iterator.
  pub handle_of-absent :
      (k : K) (ns : List (Node K V)) → All (λ n. n.key ≢ k) ns → handle_of k ns ≡ none
  unfolding handle_of
  handle_of-absent k [] h = refl
  handle_of-absent k (n ∷ ns) h =
      if_neg (dec k n.key) (λ e. h.0 (sym e)) _ _ ∙ handle_of-absent k ns h.1

  -- A node does not matter for the other keys, wherever it is.
  pub handle_of-middle :
      (k : K) (n : Node K V) (before after : List (Node K V))
      → k ≢ n.key
      → handle_of k (before ++ n ∷ after) ≡ handle_of k (before ++ after)
  unfolding handle_of
  handle_of-middle k n [] after h = if_neg (dec k n.key) h _ _
  handle_of-middle k n (m ∷ before) after h =
      ap (ite (dec k m.key) (some m.handle)) (handle_of-middle k n before after h)
