-- ===== src/IntrusiveList/Refinement.antt =====
-- Any sequence of the list's operations (src/AsyncTCPSimpleIntrusiveList.h), against the same
-- operations on lists.
use mathlib.Core.List.{reverse, reverse_aux}
use async_tcp.Prelude.{
  ℕ, ◌+◌, ◌<◌, ◌≤◌, ◌≡◌, refl, ap, ◌∙◌, ◌≢◌, Bool, false, Option, none, some, List, [], ◌∷◌, ◌++◌,
  arith, ◌==◌, if◌then◌else◌, length, length-append, ==_ne,
}
use async_tcp.IntrusiveList.{
  Store, head_slot, update, push_back, push_front, pop_front, delete_list, clear, remove_if,
}
use async_tcp.IntrusiveList.Chain.{has, Chain-frame, IsList}
use async_tcp.IntrusiveList.Push.{
  push_back-snoc, push_front-cons, pop_front-cons, pop_front-nil, delete_list_all,
}
use async_tcp.IntrusiveList.Remove.{kept, met, Removed, remove_if-kept}

pub data Op : Type 0 where
  back front : (obj : ℕ) → Op
  pop : Op
  remove : (ℕ → Bool) → Op
  free_all : Op

-- `new` of an object, whose `next` is null.
abbrev pub new : ℕ → Store → Store
new obj s = record s { next = update s.next obj 0 }

abbrev unless_null : ℕ → List ℕ
unless_null p = if p == 0 then [] else p ∷ []

abbrev with_store : Store → Option (List ℕ) → Option (List ℕ × Store)
with_store s none = none
with_store s (some out) = some (out, s)

-- The walk of the caller over the chain that `remove_if` gives back.
abbrev walk : ℕ → Option (Store × ℕ) → Option (List ℕ × Store)
walk k none = none
walk k (some (t, removed)) = with_store t (delete_list k t.next removed)

-- What the caller gets: the node taken off, those of the chain that `remove_if` gives back, which
-- it walks and frees, or those that `clear` frees.
pub exec : ℕ → Op → Store → Option (List ℕ × Store)
exec k (back obj) s = some ([], push_back (new obj s) obj)
exec k (front obj) s = some ([], push_front (new obj s) obj)
exec k pop s = let (p, t) = pop_front s in some (unless_null p, t)
exec k (remove condition) s = walk k (remove_if condition k s)
exec k free_all s = clear k s

abbrev prepend : List ℕ → Option (List ℕ × Store) → Option (List ℕ × Store)
prepend out none = none
prepend out (some (rest, s)) = some (out ++ rest, s)

abbrev and_then :
    (Store → Option (List ℕ × Store)) → Option (List ℕ × Store) → Option (List ℕ × Store)
and_then rest none = none
and_then rest (some (out, t)) = prepend out (rest t)

pub run : ℕ → List Op → Store → Option (List ℕ × Store)
run k [] s = some ([], s)
run k (op ∷ ops) s = and_then (λ t. run k ops t) (exec k op s)

-- The same on lists.
abbrev pub spec : Op → List ℕ → List ℕ × List ℕ
spec (back obj) xs = ([], xs ++ obj ∷ [])
spec (front obj) xs = ([], obj ∷ xs)
spec pop [] = ([], [])
spec pop (x ∷ xs) = (x ∷ [], xs)
spec (remove condition) xs = (reverse (met condition xs), kept condition xs)
spec free_all xs = (xs, [])

abbrev pub specs : List Op → List ℕ → List ℕ × List ℕ
specs [] xs = ([], xs)
specs (op ∷ ops) xs =
    let (out, ys) = spec op xs in let (rest, zs) = specs ops ys in (out ++ rest, zs)

-- A new object is not null and not at the address of one in the list.
abbrev pub IsLegal : Op → List ℕ → Type 0
IsLegal (back obj) xs = (obj ≢ 0) × (has obj xs ≡ false)
IsLegal (front obj) xs = (obj ≢ 0) × (has obj xs ≡ false)
IsLegal pop xs = Unit {0}
IsLegal (remove condition) xs = Unit {0}
IsLegal free_all xs = Unit {0}

abbrev pub AreLegal : List Op → List ℕ → Type 0
AreLegal [] xs = Unit {0}
AreLegal (op ∷ ops) xs = IsLegal op xs × AreLegal ops (spec op xs).1

-- The operation ends, gives what the one on lists gives, and leaves a list in order.
abbrev pub Refines : Option (List ℕ × Store) → List ℕ × List ℕ → Type 0
Refines r (out, ys) = (t : Store) × (r ≡ some (out, t)) × IsList t ys

new-IsList :
    (obj : ℕ) (s : Store) (xs : List ℕ) → has obj xs ≡ false → IsList s xs → IsList (new obj s) xs
new-IsList obj s xs out l = record {
  chain = Chain-frame s.next obj 0 s.head xs out l.chain;
  distinct = l.distinct;
  tail = l.tail;
  size = l.size;
}

length-reverse_aux : (xs ys : List ℕ) → length (reverse_aux xs ys) ≡ length xs + length ys
length-reverse_aux [] ys = omega arith
length-reverse_aux (x ∷ xs) ys = omega (arith, length-reverse_aux xs (x ∷ ys))

length-met : (condition : ℕ → Bool) (xs : List ℕ) → length (met condition xs) ≤ length xs
length-met condition [] = omega arith
length-met condition (x ∷ xs) = ground (arith, length-met condition xs)

remove-Refines :
    (k : ℕ) (condition : ℕ → Bool) (xs : List ℕ) (s : Store)
    → length xs < k
    → Removed (remove_if condition k s) (kept condition xs) (reverse (met condition xs))
    → Refines (exec k (remove condition) s) (reverse (met condition xs), kept condition xs)
unfolding exec
remove-Refines k condition xs s h r =
    let short = length-reverse_aux (met condition xs) [] in
    let freed =
      delete_list_all k r.left.next r.removed (reverse (met condition xs))
        (omega (arith, short, length-met condition xs)) r.chain in
    (r.left, ap (walk k) r.returns ∙ ap (with_store r.left) freed, r.list)

exec-Refines :
    (k : ℕ) (op : Op) (s : Store) (xs : List ℕ)
    → IsLegal op xs
    → length xs < k
    → IsList s xs
    → Refines (exec k op s) (spec op xs)
unfolding exec clear
exec-Refines k (back obj) s xs (ne, out) h l = (
  push_back (new obj s) obj,
  refl,
  push_back-snoc (new obj s) xs obj (new-IsList obj s xs out l) ne out (ground arith),
)
exec-Refines k (front obj) s xs (ne, out) h l = (
  push_front (new obj s) obj,
  refl,
  push_front-cons (new obj s) xs obj (new-IsList obj s xs out l) ne out,
)
exec-Refines k pop s [] legal h l = (s, rw (pop_front-nil s l), l)
exec-Refines k pop s (x ∷ xs) legal h l =
    let (taken, rest) = pop_front-cons s x xs l in
    ((pop_front s).1, rw (taken, ==_ne x 0 l.chain.1), rest)
exec-Refines k (remove condition) s xs legal h l =
    remove-Refines k condition xs s h (remove_if-kept condition k s xs l h)
exec-Refines k free_all s xs legal h l = (
  record s { head = 0; tail = head_slot; size = 0 },
  rw (delete_list_all k s.next s.head xs h l.chain, clear),
  record { chain = refl; distinct = tt; tail = refl; size = refl },
)

length-spec : (op : Op) (xs : List ℕ) → length (spec op xs).1 ≤ length xs + 1
length-spec (back obj) xs = omega (arith, length-append xs (obj ∷ []))
length-spec (front obj) xs = omega arith
length-spec pop [] = omega arith
length-spec pop (x ∷ xs) = omega arith
length-spec (remove condition) [] = omega arith
length-spec (remove condition) (x ∷ xs) = ground (arith, length-spec (remove condition) xs)
length-spec free_all xs = omega arith

-- On a list in order, any sequence of pushes at either end of new objects (not null, not in the
-- list), of pops, of `remove_if` with any conditions and of `clear`, ends, gives the nodes that
-- the same operations on lists give, in order, and leaves a list in order that stands for their
-- result. Fuel beyond the number of nodes and of operations is enough.
pub run-Refines :
    (k : ℕ) (ops : List Op) (s : Store) (xs : List ℕ)
    → AreLegal ops xs
    → length xs + length ops < k
    → IsList s xs
    → Refines (run k ops s) (specs ops xs)
unfolding run
run-Refines k [] s xs legal h l = (s, refl, l)
run-Refines k (op ∷ ops) s xs (legal, more) h l =
    let (t, done, left) = exec-Refines k op s xs legal (omega arith) l in
    let short = length-spec op xs in
    let (u, ran, rest) = run-Refines k ops t (spec op xs).1 more (omega (arith, short)) left in
    (u, ap (and_then (λ t. run k ops t)) done ∙ ap (prepend (spec op xs).0) ran, rest)
