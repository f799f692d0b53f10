-- ===== src/Session/Der/Inside.antt =====
-- The DER reader stays inside its bytes.
use async_tcp.Prelude.{
  ℕ, ◌≤◌, ◌%◌, ◌≡◌, refl, sym, ap, subst, arith, Bool, true, false, ◌||◌, Option, none, some, List,
  [], ◌∷◌, ◌++◌, ◌==◌, ltb, if◌then◌else◌, length, take, drop, take-append-drop, length-take,
}
use async_tcp.Session.Der.{Element, big_endian, take_value, take_long, brssl_der_take}

-- The element's value and what is left are the bytes behind a header of 2 to 6 bytes.
pub record IsInside (bytes : List ℕ) (r : Element) : Type 0 where
  pub header : List ℕ
  pub split : bytes ≡ header ++ (r.value ++ r.rest)
  pub least : 2 ≤ length header
  pub most : length header ≤ 6

-- The bytes behind a header that was read already.
IsBehind : (header bytes : List ℕ) → Option Element → Type 0
IsBehind header bytes o = (r : Element) → o ≡ some r → IsInside (header ++ bytes) r

none-IsBehind : (header bytes : List ℕ) → IsBehind header bytes none
unfolding IsBehind
none-IsBehind header bytes r p = absurd cc

if-IsBehind :
    (b : Bool) (header bytes : List ℕ) (x y : Option Element)
    → (b ≡ true → IsBehind header bytes x)
    → (b ≡ false → IsBehind header bytes y)
    → IsBehind header bytes (if b then x else y)
if-IsBehind true header bytes x y k l = k refl
if-IsBehind false header bytes x y k l = l refl

value-IsBehind :
    (tag l : ℕ) (header bytes : List ℕ)
    → 2 ≤ length header
    → length header ≤ 6
    → IsBehind header bytes (some (record { tag = tag; value = take l bytes; rest = drop l bytes }))
unfolding IsBehind
value-IsBehind tag l header bytes least most r p =
    let e : Element = record { tag = tag; value = take l bytes; rest = drop l bytes } in
    let q : e ≡ r = cc in
    subst (IsInside (header ++ bytes)) q (record {
      header = header;
      split = ap (λ t. header ++ t) (sym (take-append-drop l bytes));
      least = least;
      most = most;
    })

take_value-IsBehind :
    (tag l : ℕ) (header bytes : List ℕ)
    → 2 ≤ length header
    → length header ≤ 6
    → IsBehind header bytes (take_value tag l bytes)
unfolding take_value
take_value-IsBehind tag l header bytes least most =
    if-IsBehind (ltb (length bytes) l) header bytes _ _ (λ _. none-IsBehind header bytes)
      (λ _. value-IsBehind tag l header bytes least most)

take_long-IsBehind :
    (tag nb t l : ℕ) (bytes : List ℕ) → IsBehind (t ∷ l ∷ []) bytes (take_long tag nb bytes)
unfolding take_long IsBehind
take_long-IsBehind tag nb t l bytes =
    let header = t ∷ l ∷ take nb bytes in
    let digits : ℕ = length (take nb bytes) in
    if-IsBehind ((nb == 0) || (ltb 4 nb || ltb (length bytes) nb)) (t ∷ l ∷ []) bytes _ _
      (λ _. none-IsBehind (t ∷ l ∷ []) bytes)
      (λ ok r p.
        subst (λ bs. IsInside (t ∷ l ∷ bs) r) (take-append-drop nb bytes)
          (take_value-IsBehind tag (big_endian 0 (take nb bytes)) header (drop nb bytes)
            (omega arith) (ground (arith, length-take nb bytes)) r p))

-- The value of an element that is read and the bytes left are the bytes behind a header of 2 to 6.
pub brssl_der_take-IsInside :
    (bytes : List ℕ) (r : Element) → brssl_der_take bytes ≡ some r → IsInside bytes r
unfolding brssl_der_take IsBehind
brssl_der_take-IsInside [] r p = absurd cc
brssl_der_take-IsInside (t ∷ []) r p = absurd cc
brssl_der_take-IsInside (t ∷ l ∷ bytes) r p =
    if-IsBehind (t == 31) (t ∷ l ∷ []) bytes none
      (if ltb 127 l then take_long t (l % 128) bytes else take_value t l bytes)
      (λ _. none-IsBehind (t ∷ l ∷ []) bytes)
      (λ _.
        if-IsBehind (ltb 127 l) (t ∷ l ∷ []) bytes _ _
          (λ _. take_long-IsBehind t (l % 128) t l bytes)
          (λ _. take_value-IsBehind t l (t ∷ l ∷ []) bytes (omega arith) (omega arith)))
      r p
