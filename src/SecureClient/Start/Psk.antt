-- ===== src/SecureClient/Start/Psk.antt =====
-- The pre-shared key that `_startSSLClient` reads from its text.
use Prim.Native.Nat.{bit_or}
use async_tcp.Prelude.{
  ℕ, zero, suc, ◌+◌, ◌*◌, ◌/◌, ◌%◌, ◌≤◌, ◌<◌, ◌≡◌, refl, arith, Bool, true, false, not, ◌&&◌, ◌||◌,
  some, List, [], ◌∷◌, ◌==◌, ==_iff, ltb, if◌then◌else◌, length,
}
use async_tcp.SecureClient.Start.{Calls, hex_digit, add_byte, psk_bytes, decode_psk}

-- A digit in lower case, or in upper case.
abbrev pub hex_char : Bool → ℕ → ℕ
hex_char upper n = if ltb n 10 then n + b'0' else (if upper then n + 55 else n + 87)

-- Two digits for each byte.
abbrev pub hex_text : Bool → List ℕ → List ℕ
hex_text upper [] = []
hex_text upper (b ∷ bytes) =
    hex_char upper (b / 16) ∷ hex_char upper (b % 16) ∷ hex_text upper bytes

abbrev pub AreBytes : List ℕ → Type 0
AreBytes [] = Unit {0}
AreBytes (b ∷ bytes) = (b < 256) × AreBytes bytes

hex_digit-hex_char : (upper : Bool) (n : ℕ) → n < 16 → hex_digit (hex_char upper n) ≡ some n
unfolding hex_digit
hex_digit-hex_char true n h = ground arith
hex_digit-hex_char false n h = ground arith

all_below : ℕ → (ℕ → Bool) → Bool
all_below zero p = true
all_below (suc n) p = p n && all_below n p

all_below-holds : (n : ℕ) (p : ℕ → Bool) (x : ℕ) → all_below n p ≡ true → x < n → p x ≡ true
unfolding all_below
all_below-holds zero p x h lt = absurd (omega arith)
all_below-holds (suc n) p x h lt = ground (arith, all_below-holds n p x)

nibbles_table : all_below 256 (λ b. bit_or (b / 16 * 16 % 256) (b % 16) == b) ≡ true
unfolding all_below
nibbles_table = refl

nibbles : (b : ℕ) → b < 256 → bit_or (b / 16 * 16 % 256) (b % 16) ≡ b
nibbles b h =
    (==_iff (bit_or (b / 16 * 16 % 256) (b % 16)) b).0
      (all_below-holds 256 (λ b. bit_or (b / 16 * 16 % 256) (b % 16) == b) b nibbles_table h)

psk_bytes-hex_text :
    (upper : Bool) (bytes : List ℕ) → AreBytes bytes → psk_bytes (hex_text upper bytes) ≡ some bytes
unfolding psk_bytes add_byte
psk_bytes-hex_text upper [] all = refl
psk_bytes-hex_text upper (b ∷ bytes) all =
    rw
      (
        hex_digit-hex_char upper (b / 16) (omega (arith, all.0)),
        hex_digit-hex_char upper (b % 16) (omega arith),
        psk_bytes-hex_text upper bytes all.1,
        nibbles b all.0,
      )
      refl

length-hex_text : (upper : Bool) (bytes : List ℕ) → length (hex_text upper bytes) ≡ 2 * length bytes
length-hex_text upper [] = refl
length-hex_text upper (b ∷ bytes) = omega (arith, length-hex_text upper bytes)

-- A pre-shared key of at most MBEDTLS_PSK_MAX_LEN bytes is read back from its text of two
-- hexadecimal digits for each byte, in upper or in lower case.
pub decode_psk-hex_text :
    (c : Calls) (upper : Bool) (bytes : List ℕ)
    → AreBytes bytes
    → length bytes ≤ c.psk_max_len
    → decode_psk c (hex_text upper bytes) ≡ some bytes
unfolding decode_psk
decode_psk-hex_text c upper bytes all fits =
    let n = length-hex_text upper bytes in
    let short : (not (length (hex_text upper bytes) % 2 == 0)
          || ltb (2 * c.psk_max_len) (length (hex_text upper bytes)))
        ≡ false =
      ground (arith, n) in
    rw short (psk_bytes-hex_text upper bytes all)
