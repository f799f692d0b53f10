-- ===== src/Session/Der.antt =====
-- The DER reader of src/AsyncSecureSession.cpp (ESP8266): `brssl_der_take` and
-- `brssl_der_peek_tag`. A reader is the list of the bytes that are left, each under 256; a `size_t`
-- has 32 bits.
pub mod Inside
use async_tcp.Prelude.{
  ℕ, zero, suc, ◌+◌, ◌-◌, ◌*◌, ◌/◌, ◌%◌, ◌^◌, ◌≤◌, ◌<◌, ◌≡◌, ◌≢◌, refl, sym, ap, ◌∙◌, inl, inr, ◌⊎◌,
  arith, Bool, true, false, ◌||◌, Option, none, some, List, [], ◌∷◌, ◌++◌, ◌==◌, ==_ne, ltb,
  Bool-cases, if◌then◌else◌, length, take, drop, append_assoc, take-append, length-append,
}

-- An element that was consumed, and the reader behind it.
pub record Element : Type 0 where
  pub tag : ℕ
  pub value : List ℕ
  pub rest : List ℕ

-- `l = (l << 8) | byte`, over bytes.
abbrev pub big_endian : ℕ → List ℕ → ℕ
big_endian l [] = l
big_endian l (b ∷ bs) = big_endian (l * 2 ^ 8 % 2 ^ 32 + b) bs

-- The end of `brssl_der_take`, for a value of l bytes.
unfoldable pub take_value : (tag l : ℕ) → List ℕ → Option Element
take_value tag l bytes =
    if ltb (length bytes) l
    then none
    else some (record { tag = tag; value = take l bytes; rest = drop l bytes })

-- The long form of the length, in nb bytes.
unfoldable pub take_long : (tag nb : ℕ) → List ℕ → Option Element
take_long tag nb bytes =
    if (nb == 0) || (ltb 4 nb || ltb (length bytes) nb)
    then none
    else take_value tag (big_endian 0 (take nb bytes)) (drop nb bytes)

unfoldable pub brssl_der_take : List ℕ → Option Element
brssl_der_take [] = none
brssl_der_take (t ∷ []) = none
brssl_der_take (t ∷ l ∷ bytes) =
    if t == 31
    then none
    else (if ltb 127 l then take_long t (l % 128) bytes else take_value t l bytes)

unfoldable pub brssl_der_peek_tag : List ℕ → ℕ
brssl_der_peek_tag [] = 0
brssl_der_peek_tag (t ∷ bytes) = t

-- The length octets of DER, the shortest that hold n.
abbrev pub encode_length : ℕ → List ℕ
encode_length n =
    if ltb n (2 ^ 7)
    then n ∷ []
    else (if ltb n (2 ^ 8)
        then 129 ∷ n ∷ []
        else (if ltb n (2 ^ 16)
            then 130 ∷ n / 2 ^ 8 ∷ n % 2 ^ 8 ∷ []
            else (if ltb n (2 ^ 24)
                then 131 ∷ n / 2 ^ 16 ∷ n / 2 ^ 8 % 2 ^ 8 ∷ n % 2 ^ 8 ∷ []
                else 132 ∷ n / 2 ^ 24 ∷ n / 2 ^ 16 % 2 ^ 8 ∷ n / 2 ^ 8 % 2 ^ 8 ∷ n % 2 ^ 8 ∷ [])))

pub take-append_all : (v rest : List ℕ) → take (length v) (v ++ rest) ≡ v
take-append_all [] rest = refl
take-append_all (x ∷ v) rest = ap (λ t. x ∷ t) (take-append_all v rest)

drop-append_all : (v rest : List ℕ) → drop (length v) (v ++ rest) ≡ rest
drop-append_all [] rest = refl
drop-append_all (x ∷ v) rest = drop-append_all v rest

take_value-append :
    (tag l : ℕ) (v rest : List ℕ)
    → l ≡ length v
    → take_value tag l (v ++ rest) ≡ some (record { tag = tag; value = v; rest = rest })
unfolding take_value
take_value-append tag l v rest p =
    let fits : ltb (length (v ++ rest)) (length v) ≡ false = ground (arith, length-append v rest) in
    rw (p, fits, take-append_all v rest, drop-append_all v rest) refl

take_long-append :
    (tag nb : ℕ) (ds bytes : List ℕ)
    → nb ≡ length ds
    → 0 < nb
    → nb ≤ 4
    → take_long tag nb (ds ++ bytes) ≡ take_value tag (big_endian 0 ds) bytes
unfolding take_long
take_long-append tag nb ds bytes p some_digits few =
    let fits : ((length ds == 0) || (ltb 4 (length ds) || ltb (length (ds ++ bytes)) (length ds)))
        ≡ false =
      ground (arith, length-append ds bytes) in
    rw (p, fits, take-append_all ds bytes, drop-append_all ds bytes) refl

-- An element whose length is written in the long form with the digits ds.
take-long_form :
    (tag nb : ℕ) (ds v rest : List ℕ)
    → tag ≢ 31
    → nb ≡ length ds
    → 0 < nb
    → nb ≤ 4
    → big_endian 0 ds ≡ length v
    → brssl_der_take (tag ∷ (128 + nb) ∷ ds ++ (v ++ rest))
      ≡ some (record { tag = tag; value = v; rest = rest })
unfolding brssl_der_take
take-long_form tag nb ds v rest ne p some_digits few q =
    let long : ltb 127 (128 + nb) ≡ true = ground arith in
    let digits : (128 + nb) % 128 ≡ nb = omega arith in
    rw (==_ne tag 31 ne, long, digits)
      (take_long-append tag nb ds (v ++ rest) p some_digits few
        ∙ take_value-append tag (big_endian 0 ds) v rest q)

-- Reading an element that an encoder wrote, with a tag other than 0x1f and a value of less than
-- 2^32 bytes, gives the element back, and the bytes behind it.
pub brssl_der_take-encode :
    (tag : ℕ) (v rest : List ℕ)
    → tag ≢ 31
    → length v < 2 ^ 32
    → brssl_der_take (tag ∷ encode_length (length v) ++ (v ++ rest))
      ≡ some (record { tag = tag; value = v; rest = rest })
unfolding brssl_der_take
brssl_der_take-encode tag v rest ne small =
    let n = length v in
    elim (Bool-cases (ltb n (2 ^ 7))) [
      | inl a ↦
          let short : ltb 127 n ≡ false = ground arith in
          rw (a, ==_ne tag 31 ne, short) (take_value-append tag n v rest refl)
      | inr a ↦ elim (Bool-cases (ltb n (2 ^ 8))) [
        | inl b ↦
            rw (a, b)
              (take-long_form tag 1 (n ∷ []) v rest ne refl (omega arith) (omega arith)
                (omega arith))
        | inr b ↦ elim (Bool-cases (ltb n (2 ^ 16))) [
          | inl c ↦
              rw (a, b, c)
                (take-long_form tag 2 (n / 2 ^ 8 ∷ n % 2 ^ 8 ∷ []) v rest ne refl (omega arith)
                  (omega arith) (ground arith))
          | inr c ↦ elim (Bool-cases (ltb n (2 ^ 24))) [
            | inl d ↦
                rw (a, b, c, d)
                  (take-long_form tag 3 (n / 2 ^ 16 ∷ n / 2 ^ 8 % 2 ^ 8 ∷ n % 2 ^ 8 ∷ []) v rest ne
                    refl (omega arith) (omega arith) (ground arith))
            | inr d ↦
                rw (a, b, c, d)
                  (take-long_form tag 4
                    (n / 2 ^ 24 ∷ n / 2 ^ 16 % 2 ^ 8 ∷ n / 2 ^ 8 % 2 ^ 8 ∷ n % 2 ^ 8 ∷ []) v rest ne
                    refl (omega arith) (omega arith) (ground arith))
          ]
        ]
      ]
    ]
