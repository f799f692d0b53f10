-- ===== src/Session/Tests.antt =====
-- The DER reader and the padding: their theorems at concrete inputs.
use async_tcp.Prelude.{◌≡◌, refl, arith, ℕ, some, List, [], ◌∷◌, ◌++◌, length, replicate}
use async_tcp.Session.Der.{
  Element, brssl_der_take, take_long, take_value, encode_length, brssl_der_take-encode,
}
use async_tcp.Session.Pkcs7.{brssl_strip_pkcs7, padded, brssl_strip_pkcs7-padded}
use async_tcp.Session.Der.Inside.{IsInside, brssl_der_take-IsInside}

-- An OCTET STRING of 200 bytes, whose length takes the long form, and 2 bytes behind it.
abbrev long_value : List ℕ
long_value = replicate 200 7

brssl_der_take-encode_test :
    brssl_der_take (4 ∷ encode_length (length long_value) ++ (long_value ++ 5 ∷ 0 ∷ []))
    ≡ some (record { tag = 4; value = long_value; rest = 5 ∷ 0 ∷ [] })
brssl_der_take-encode_test =
    brssl_der_take-encode 4 long_value (5 ∷ 0 ∷ []) (omega arith) (omega arith)

-- The INTEGER 9 in the long form.
abbrev nine : Element
nine = record { tag = 2; value = 9 ∷ []; rest = 48 ∷ [] }

brssl_der_take-IsInside_test : IsInside (2 ∷ 129 ∷ 1 ∷ 9 ∷ 48 ∷ []) nine
unfolding brssl_der_take take_long take_value
brssl_der_take-IsInside_test = brssl_der_take-IsInside (2 ∷ 129 ∷ 1 ∷ 9 ∷ 48 ∷ []) nine refl

-- A block of 16 with 5 bytes of padding.
brssl_strip_pkcs7-padded_test :
    brssl_strip_pkcs7 (padded (1 ∷ 2 ∷ 3 ∷ 4 ∷ 5 ∷ 6 ∷ 7 ∷ 8 ∷ 9 ∷ 10 ∷ 11 ∷ []) 5) 16 ≡ 11
brssl_strip_pkcs7-padded_test =
    brssl_strip_pkcs7-padded (1 ∷ 2 ∷ 3 ∷ 4 ∷ 5 ∷ 6 ∷ 7 ∷ 8 ∷ 9 ∷ 10 ∷ 11 ∷ []) 5 16 (omega arith)
      (omega arith) (omega arith)
