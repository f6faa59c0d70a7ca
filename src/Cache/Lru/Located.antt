-- ===== src/Cache/Lru/Located.antt =====
-- The node of a key in the list of `Cache.Lru`, and what the list is without it.
use ynwad.Base.{
  ℕ, suc, ◌≡◌, ◌≢◌, ◌<◌, refl, sym, ap, ◌∙◌, List, [], ◌∷◌, ◌++◌, none, some, All, All-append,
  All-split, length, arith, length-append,
}
use ynwad.Cache.Lru.{Node, deref, store, unlink, to_front}
use ynwad.Cache.Lru.Nodes.{
  Apart, Distinct, Distinct-middle, deref-middle, unlink-middle, store-middle, to_front-middle,
}
use ynwad.Cache.Lru.Order.{entries, remove, lookup-middle, remove-middle}
use ynwad.Cache.Lru.Valid.{handle_of, handle_of-absent, handle_of-middle, handle_of-some}
use mathlib.Core.List.{lookup}
use mathlib.Core.Logic.{ite, if_pos, if_neg}
use mathlib.Core.Path.{subst}

module _ {ℓ} {K V : Type ℓ} (dec : Discrete K) where
  pub record Located (k : K) (h : ℕ) (ns : List (Node K V)) : Type ℓ where
    pub node : Node K V
    pub rest : List (Node K V)
    pub same_key : node.key ≡ k
    pub same_handle : node.handle ≡ h
    pub derefs : deref h ns ≡ some node
    pub again : deref h (node ∷ rest) ≡ some node
    pub unlinks : unlink h ns ≡ rest
    pub fronts : to_front h ns ≡ some (node ∷ rest)
    pub stores : (v : V) → to_front h (store h v ns) ≡ some (record node { value = v } ∷ rest)
    pub looks : lookup dec k (entries ns) ≡ some node.value
    pub removes : remove dec k (entries ns) ≡ entries rest
    pub fewer : length ns ≡ suc (length rest)
    pub here : (j : K) → handle_of dec j ns ≡ ite (dec j k) (some h) (handle_of dec j rest)
    pub absent : handle_of dec k rest ≡ none
    pub others : Distinct (node ∷ rest)
    pub older :
        (next : ℕ) → All (λ n. n.handle < next) ns → All (λ n. n.handle < next) (node ∷ rest)

  handle_of-here :
      (j : K) (n : Node K V) (before after : List (Node K V))
      → j ≡ n.key
      → All (Apart n) before
      → handle_of dec j (before ++ n ∷ after) ≡ some n.handle
  unfolding handle_of
  handle_of-here j n [] after e h = if_pos (dec j n.key) e _ _
  handle_of-here j n (m ∷ before) after e h =
      if_neg (dec j m.key) (λ e'. h.0.0 (sym e' ∙ e)) _ _ ∙ handle_of-here j n before after e h.1

  handle_of-split :
      (j : K) (n : Node K V) (before after : List (Node K V))
      → All (Apart n) before
      → handle_of dec j (before ++ n ∷ after)
        ≡ ite (dec j n.key) (some n.handle) (handle_of dec j (before ++ after))
  handle_of-split j n before after h = elim (dec j n.key) [
    | yes e ↦ handle_of-here j n before after e h ∙ sym (if_pos (dec j n.key) e _ _)
    | no e ↦ handle_of-middle dec j n before after e ∙ sym (if_neg (dec j n.key) e _ _)
  ]

  only_keys : (n : Node K V) (ns : List (Node K V)) → All (Apart n) ns → All (λ m. m.key ≢ n.key) ns
  only_keys n [] h = tt
  only_keys n (m ∷ ns) h = (h.0.0, only_keys n ns h.1)

  older_middle :
      (n : Node K V) (before after : List (Node K V)) (next : ℕ)
      → All (λ m. m.handle < next) (before ++ n ∷ after)
      → All (λ m. m.handle < next) (n ∷ before ++ after)
  older_middle n before after next h =
      let (front, back) = All-split (λ m. m.handle < next) before (n ∷ after) h in
      (back.0, All-append (λ m. m.handle < next) before after front back.1)

  pub Located-middle :
      (n : Node K V) (before after : List (Node K V))
      → Distinct (before ++ n ∷ after)
      → Located n.key n.handle (before ++ n ∷ after)
  Located-middle n before after d =
      let (rest, away) = Distinct-middle n before after d in
      let near = (All-split (Apart n) before after away).0 in
      record {
        node = n;
        rest = before ++ after;
        same_key = refl;
        same_handle = refl;
        derefs = deref-middle n before after near;
        again = deref-middle n [] (before ++ after) tt;
        unlinks = unlink-middle n before after near;
        fronts = to_front-middle n before after near;
        stores = λ v.
            ap (to_front n.handle) (store-middle n v before after near)
            ∙ to_front-middle (record n { value = v }) before after near;
        looks = lookup-middle dec n before after near;
        removes = remove-middle dec n before after near;
        fewer = omega (arith, length-append before (n ∷ after), length-append before after);
        here = λ j. handle_of-split j n before after near;
        absent = handle_of-absent dec n.key (before ++ after) (only_keys n (before ++ after) away);
        others = (away, rest);
        older = older_middle n before after;
      }

  pub handle_of-Located :
      (k : K) (h : ℕ) (ns : List (Node K V))
      → Distinct ns
      → handle_of dec k ns ≡ some h
      → Located k h ns
  handle_of-Located k h ns d e =
      let f = handle_of-some dec k h ns e in
      subst (λ t. Located t h ns) f.same_key
        (subst (λ t. Located f.node.key t ns) f.same_handle
          (subst (Located f.node.key f.node.handle) (sym f.whole)
            (Located-middle f.node f.before f.after (subst Distinct f.whole d))))
