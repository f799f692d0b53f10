-- ===== src/IntrusiveList/Tests.antt =====
-- Runs of the intrusive list, and its theorems at concrete inputs.
use async_tcp.Prelude.{ℕ, ◌≡◌, refl, Bool, true, some, List, [], ◌∷◌, arith, ltb}
use async_tcp.IntrusiveList.{
  Store, next_slot, update, push_back, push_front, pop_front, remove_if, clear, validate_tail,
  list_size,
}
use async_tcp.IntrusiveList.Chain.{IsList}
use async_tcp.IntrusiveList.Push.{
  push_back-snoc, push_front-cons, pop_front-cons, clear-nil, validate_tail-IsList,
}
use async_tcp.IntrusiveList.Refinement.{
  Op, back, front, pop, remove, run, specs, Refines, run-Refines,
}
use async_tcp.IntrusiveList.Remove.{Removed, remove_if-kept}

-- The nodes 10, 20 and 30 in a row; node 40 is fresh.
abbrev three : Store
three = record {
  next = update (update (λ _. 0) 10 20) 20 30;
  head = 10;
  tail = next_slot 30;
  size = 3;
}

three-IsList : IsList three (10 ∷ 20 ∷ 30 ∷ [])
three-IsList = record {
  chain = ground arith;
  distinct = (refl, (refl, (refl, tt)));
  tail = refl;
  size = refl;
}

push_back-snoc_test : IsList (push_back three 40) (10 ∷ 20 ∷ 30 ∷ 40 ∷ [])
push_back-snoc_test =
    push_back-snoc three (10 ∷ 20 ∷ 30 ∷ []) 40 three-IsList (omega arith) refl refl

push_front-cons_test : IsList (push_front three 40) (40 ∷ 10 ∷ 20 ∷ 30 ∷ [])
push_front-cons_test = push_front-cons three (10 ∷ 20 ∷ 30 ∷ []) 40 three-IsList (omega arith) refl

pop_front-cons_test : ((pop_front three).0 ≡ 10) × IsList (pop_front three).1 (20 ∷ 30 ∷ [])
pop_front-cons_test = pop_front-cons three 10 (20 ∷ 30 ∷ []) three-IsList

validate_tail_test :
    (validate_tail 4 three ≡ some true) × (list_size 4 three.next three.head 0 ≡ some three.size)
validate_tail_test = validate_tail-IsList three (10 ∷ 20 ∷ 30 ∷ []) three-IsList

abbrev past_15 : ℕ → Bool
past_15 x = ltb 15 x

remove_if-kept_test : Removed (remove_if past_15 9 three) (10 ∷ []) (30 ∷ 20 ∷ [])
remove_if-kept_test = remove_if-kept past_15 9 three (10 ∷ 20 ∷ 30 ∷ []) three-IsList (omega arith)

clear-nil_test : (t : Store) × (clear 4 three ≡ some (10 ∷ 20 ∷ 30 ∷ [], t)) × IsList t []
clear-nil_test = clear-nil three (10 ∷ 20 ∷ 30 ∷ []) three-IsList

-- A node at the back, one off the front, those past 15 removed, and a node at the front again.
abbrev busy : List Op
busy = back 40 ∷ pop ∷ remove past_15 ∷ front 30 ∷ back 20 ∷ []

run-Refines_example : Refines (run 20 busy three) (specs busy (10 ∷ 20 ∷ 30 ∷ []))
run-Refines_example =
    run-Refines 20 busy three (10 ∷ 20 ∷ 30 ∷ [])
      ((omega arith, refl), (tt, (tt, ((omega arith, refl), ((omega arith, refl), tt)))))
      (omega arith) three-IsList
