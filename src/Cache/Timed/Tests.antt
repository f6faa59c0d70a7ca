-- ===== src/Cache/Timed/Tests.antt =====
-- Runs of `TimedCache` with numbers for keys, and the theorems at concrete inputs.
use ynwad.Base.{ℕ, ◌<◌, ◌≡◌, refl, List, [], ◌∷◌, Option, none, some, ltb, arith}
use native.Mathlib.Decide.{ℕ_discrete}
use ynwad.Cache.Dict.{empty_dict, insert, erase, assign}
use ynwad.Cache.Timed.{
  Item, TimedCache, new_cache, insert_item, deref, remove, prune_loop, prune, get, del, exists,
  timeout_loop, check_timeout, store, set, expired, inserted_at,
}
use ynwad.Cache.Timed.Order.{IsOrder}
use ynwad.Cache.Timed.Valid.{IsValid, Agree-insert}
use ynwad.Cache.Timed.Keeps.{empty_Agree}
use ynwad.Cache.Timed.Back.{plain}
use ynwad.Cache.Timed.Expired.{expired-exists}
use ynwad.Cache.Timed.Run.{
  Op, set_op, get_op, del_op, expired_op, timeout_op, step, run, Runs, run-IsValid,
}
use ynwad.Cache.Timed.Laws.{seen, seen-set}
use ynwad.Cache.Timed.Timeout.{Timeout, check_timeout-Timeout}

ltb-IsOrder : IsOrder ltb
ltb-IsOrder = record {
  irrefl = λ a. ground arith;
  trans = λ a b c h k. ground (arith, h, k);
  total = λ a b h k. ground (arith, h, k);
}

abbrev Numbers : Type 0
Numbers = TimedCache ℕ ℕ

-- The value of a key at the end of a run.
abbrev value : Option Numbers → ℕ → Option ℕ
value none k = none
value (some c) k = elim (get ℕ_discrete k c) [ none ↦ none | some r ↦ r.1 ]

abbrev play : List (Op ℕ ℕ) → Option Numbers
play ops = run ℕ_discrete ltb ops (new_cache 2 0)

kept : value (play (set_op 0 7 70 5 ∷ set_op 0 8 80 9 ∷ timeout_op 6 ∷ [])) 8 ≡ some 80
unfolding run step set store prune prune_loop insert_item inserted_at insert erase check_timeout
    timeout_loop get deref ℕ_discrete
kept = refl

-- The item of an earlier `set` stays in the set, and takes the entry of the key along when its time comes.
lost : value (play (set_op 0 7 70 5 ∷ set_op 0 7 71 9 ∷ timeout_op 6 ∷ [])) 7 ≡ none
unfolding run step set store prune prune_loop insert_item inserted_at insert erase check_timeout
    timeout_loop get deref ℕ_discrete
lost = refl

-- A second `set` at the same time leaves the old value.
old_value : value (play (set_op 0 7 70 5 ∷ set_op 0 7 71 5 ∷ [])) 7 ≡ some 70
unfolding run step set store prune prune_loop insert_item inserted_at insert erase get deref
    ℕ_discrete
old_value = refl

-- `expired` does not put the end off.
not_extended : value (play (set_op 0 7 70 5 ∷ expired_op 0 7 100 ∷ timeout_op 6 ∷ [])) 7 ≡ none
unfolding run step set store prune prune_loop insert_item inserted_at insert erase expired remove
    assign check_timeout timeout_loop get deref ℕ_discrete
not_extended = refl

abbrev early : Item ℕ ℕ
early = record { key = 7; val = 70; ts = 5; node = 0 }

abbrev late : Item ℕ ℕ
late = record { key = 8; val = 80; ts = 9; node = 1 }

abbrev two_items : Numbers
two_items = record (new_cache 2 0) {
  cache = insert ℕ_discrete 8 1 (insert ℕ_discrete 7 0 empty_dict);
  timed = insert_item ltb late (insert_item ltb early []);
  next_node = 2;
}

two_items-IsValid : IsValid ℕ_discrete ltb ltb-IsOrder two_items
unfolding insert insert_item inserted_at ℕ_discrete
two_items-IsValid = (
  Agree-insert ℕ_discrete ltb ltb-IsOrder late (insert ℕ_discrete 7 0 empty_dict)
      (insert_item ltb early [])
      (Agree-insert ℕ_discrete ltb ltb-IsOrder early empty_dict []
        (empty_Agree ℕ_discrete ltb ltb-IsOrder) refl tt)
      refl ((λ e. absurd (omega (arith, e))), tt),
  (omega arith, (omega arith, tt)),
)

-- `del` of a key that is there.
no_answer : del ℕ_discrete 7 two_items ≡ none
unfolding del insert ℕ_discrete
no_answer = refl

run-IsValid_example :
    Runs {V = ℕ} ℕ_discrete ltb ltb-IsOrder
      (set_op 0 7 70 5
        ∷ set_op 0 7 71 9
        ∷ expired_op 3 7 4
        ∷ get_op 7
        ∷ del_op 8
        ∷ timeout_op 6
        ∷ [])
      (new_cache 2 0)
run-IsValid_example =
    run-IsValid ℕ_discrete ltb ltb-IsOrder 2 0 (
      set_op 0 7 70 5
      ∷ set_op 0 7 71 9
      ∷ expired_op 3 7 4
      ∷ get_op 7
      ∷ del_op 8
      ∷ timeout_op 6
      ∷ [])

expired-exists_example :
    (c : Numbers) × (expired ℕ_discrete ltb 3 7 100 two_items
      ≡ some (c, exists ℕ_discrete 7 two_items))
    × IsValid ℕ_discrete ltb ltb-IsOrder c
    × (plain c.timed ≡ plain (TimedCache.timed two_items))
    × ((j : ℕ) → seen ℕ_discrete j c ≡ seen ℕ_discrete j two_items)
expired-exists_example =
    expired-exists ℕ_discrete ltb ltb-IsOrder 3 7 100 two_items two_items-IsValid

check_timeout-Timeout_example :
    let r = check_timeout ℕ_discrete 6 two_items in
    Timeout ℕ_discrete 6 0 two_items.timed two_items r
    × IsValid ℕ_discrete ltb ltb-IsOrder r.0
    × ((k : ℕ) (n : ℕ)
        → r.0.cache.find k ≡ some n
        → (x : Item ℕ ℕ) × (deref n r.0.timed ≡ some x) × (x.key ≡ k) × (6 < x.ts))
check_timeout-Timeout_example =
    check_timeout-Timeout ℕ_discrete ltb ltb-IsOrder 6 two_items two_items-IsValid

seen-set_example :
    (c : Numbers) × (set ℕ_discrete ltb 3 7 71 9 (record two_items { max_size = 0 }) ≡ some c)
    × (seen ℕ_discrete 7 c ≡ some (some 71))
unfolding ℕ_discrete insert_item
seen-set_example =
    seen-set ℕ_discrete ltb ltb-IsOrder 3 7 71 9 (record two_items { max_size = 0 }) 7
      two_items-IsValid refl
      ((λ _ e. absurd (omega (arith, e))), ((λ e _. absurd (omega (arith, e))), tt))
