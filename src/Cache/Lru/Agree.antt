-- ===== src/Cache/Lru/Agree.antt =====
-- The map and the list of `Cache.Lru` agree after a node is moved, taken out or put in.
use ynwad.Base.{
  ℕ, suc, ◌-◌, ◌≡◌, ◌≢◌, ◌<◌, refl, sym, ap, ◌∙◌, List, [], ◌∷◌, none, some, All, arith,
}
use ynwad.Cache.Dict.{Dict, empty_dict, insert, erase}
use ynwad.Cache.Lru.{Node}
use ynwad.Cache.Lru.Nodes.{Apart}
use ynwad.Cache.Lru.Valid.{handle_of, handle_of-none, Agree}
use ynwad.Cache.Lru.Located.{Located}
use mathlib.Core.Logic.{ite, if_pos, if_neg}

module _ {ℓ κ} {K : Type ℓ} {A : Type κ} (dec : Discrete K) where
  erase-some :
      (k : K) (d : Dict K A) (a : A)
      → d.find k ≡ some a
      → erase dec k d ≡ record { find = λ j. ite (dec j k) none (d.find j); size = d.size - 1 }
  unfolding erase
  erase-some k d a h = rw (h, erase) refl

  insert-none :
      (k : K) (a : A) (d : Dict K A)
      → d.find k ≡ none
      → insert dec k a d
        ≡ record { find = λ j. ite (dec j k) (some a) (d.find j); size = suc d.size }
  unfolding insert
  insert-none k a d h = rw (h, insert) refl

module _ {ℓ} {K V : Type ℓ} (dec : Discrete K) where
  pub Agree-empty : (next : ℕ) → Agree {V = V} dec empty_dict [] next
  unfolding handle_of
  Agree-empty next = record { finds = λ k. refl; counts = refl; distinct = tt; older = tt }

  module _ {d : Dict K ℕ} {ns : List (Node K V)} {next : ℕ} (ok : Agree dec d ns next) where
    module _ {k : K} {h : ℕ} (l : Located dec k h ns) where
      find_here : d.find k ≡ some h
      find_here = ok.finds k ∙ l.here k ∙ if_pos (dec k k) refl _ _

      find_rest : (j : K) → ite (dec j k) none (d.find j) ≡ handle_of dec j l.rest
      find_rest j = elim (dec j k) [
        | yes p ↦ if_pos (dec j k) p _ _ ∙ sym (ap (λ t. handle_of dec t l.rest) p ∙ l.absent)
        | no p ↦ if_neg (dec j k) p _ _ ∙ ok.finds j ∙ l.here j ∙ if_neg (dec j k) p _ _
      ]

      pub Agree-rest : Agree dec (erase dec k d) l.rest next
      Agree-rest = rw (erase-some dec k d h find_here) (record {
        finds = find_rest;
        counts = omega (arith, ok.counts, l.fewer);
        distinct = l.others.1;
        older = (l.older next ok.older).1;
      })

      pub Agree-front : (v : V) → Agree dec d (record l.node { value = v } ∷ l.rest) next
      unfolding handle_of
      Agree-front v = record {
        finds = λ j.
            ok.finds j
            ∙ l.here j
            ∙ ap (λ t. ite (dec j t) (some h) (handle_of dec j l.rest)) (sym l.same_key)
            ∙ ap (λ t. ite (dec j l.node.key) (some t) (handle_of dec j l.rest))
                (sym l.same_handle);
        counts = ok.counts ∙ l.fewer;
        distinct = l.others;
        older = l.older next ok.older;
      }

    Apart-new :
        (k : K) (v : V) (ms : List (Node K V))
        → All (λ n. n.key ≢ k) ms
        → All (λ n. n.handle < next) ms
        → All (Apart (record { handle = next; key = k; value = v })) ms
    Apart-new k v [] h o = tt
    Apart-new k v (m ∷ ms) h o =
        ((h.0, λ e. absurd (omega (arith, e, o.0))), Apart-new k v ms h.1 o.1)

    older_suc :
        (ms : List (Node K V)) → All (λ n. n.handle < next) ms → All (λ n. n.handle < suc next) ms
    older_suc [] o = tt
    older_suc (m ∷ ms) o = (omega (arith, o.0), older_suc ms o.1)

    pub Agree-new :
        (k : K) (v : V)
        → handle_of dec k ns ≡ none
        → Agree dec
            (insert dec k next d)
            (record { handle = next; key = k; value = v } ∷ ns)
            (suc next)
    unfolding handle_of
    Agree-new k v missing = rw (insert-none dec k next d (ok.finds k ∙ missing)) (record {
      finds = λ j. ap (ite (dec j k) (some next)) (ok.finds j);
      counts = ap suc ok.counts;
      distinct = (Apart-new k v ns (handle_of-none dec k ns missing).0 ok.older, ok.distinct);
      older = (omega arith, older_suc ns ok.older);
    })
