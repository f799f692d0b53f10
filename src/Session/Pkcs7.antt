-- ===== src/Session/Pkcs7.antt =====
-- `brssl_strip_pkcs7` of src/AsyncSecureSession.cpp (ESP8266), on a buffer that is the list of its
-- bytes.
use async_tcp.Prelude.{
  ℕ, zero, suc, ◌+◌, ◌-◌, ◌%◌, ◌≤◌, ◌<◌, ◌≡◌, refl, ap, ◌∙◌, arith, Bool, true, false, ◌||◌, not,
  List, [], ◌∷◌, ◌++◌, ◌==◌, ==_refl, ltb, if◌then◌else◌, length, replicate, length-append,
  length-replicate,
}

-- `data[i]`; 0 out of range, where the code does not read.
abbrev pub byte_at : List ℕ → ℕ → ℕ
byte_at [] i = 0
byte_at (b ∷ bs) zero = b
byte_at (b ∷ bs) (suc i) = byte_at bs i

-- The loop, over the last k bytes.
unfoldable pub ends_in : (pad : ℕ) → List ℕ → (k : ℕ) → Bool
ends_in pad block zero = true
ends_in pad block (suc k) =
    let rest = ends_in pad block k in
    if byte_at block (length block - suc k) == pad then rest else false

-- The length without the padding, 0 if it is invalid.
unfoldable pub brssl_strip_pkcs7 : List ℕ → (blocksize : ℕ) → ℕ
brssl_strip_pkcs7 block blocksize =
    let len = length block in
    let pad = byte_at block (len - 1) in
    if (len == 0) || not (len % blocksize == 0)
    then 0
    else (if (pad == 0) || (ltb blocksize pad || ltb len pad)
        then 0
        else (if ends_in pad block pad then len - pad else 0))

byte_at-append : (xs ys : List ℕ) (j : ℕ) → byte_at (xs ++ ys) (length xs + j) ≡ byte_at ys j
byte_at-append [] ys j = let e : 0 + j ≡ j = omega arith in ap (byte_at ys) e
byte_at-append (x ∷ xs) ys j =
    let e : length (x ∷ xs) + j ≡ suc (length xs + j) = omega arith in
    ap (byte_at (x ∷ xs ++ ys)) e ∙ byte_at-append xs ys j

byte_at-replicate : (n x j : ℕ) → j < n → byte_at (replicate n x) j ≡ x
byte_at-replicate zero x j h = absurd (omega arith)
byte_at-replicate (suc n) x zero h = refl
byte_at-replicate (suc n) x (suc j) h = byte_at-replicate n x j (omega arith)

-- A buffer that ends in its padding.
abbrev pub padded : List ℕ → ℕ → List ℕ
padded bytes pad = bytes ++ replicate pad pad

pub length-padded : (bytes : List ℕ) (pad : ℕ) → length (padded bytes pad) ≡ length bytes + pad
length-padded bytes pad =
    length-append bytes (replicate pad pad) ∙ ap (λ n. length bytes + n) (length-replicate pad pad)

byte_at-padded :
    (bytes : List ℕ) (pad k : ℕ)
    → k < pad
    → byte_at (padded bytes pad) (length (padded bytes pad) - suc k) ≡ pad
byte_at-padded bytes pad k h =
    let e : length (padded bytes pad) - suc k ≡ length bytes + (pad - suc k) =
      omega (arith, length-padded bytes pad) in
    ap (byte_at (padded bytes pad)) e
    ∙ byte_at-append bytes (replicate pad pad) (pad - suc k)
    ∙ byte_at-replicate pad pad (pad - suc k) (omega arith)

ends_in-padded : (bytes : List ℕ) (pad k : ℕ) → k ≤ pad → ends_in pad (padded bytes pad) k ≡ true
unfolding ends_in
ends_in-padded bytes pad zero h = refl
ends_in-padded bytes pad (suc k) h =
    rw (byte_at-padded bytes pad k (omega arith), ==_refl pad)
      (ends_in-padded bytes pad k (omega arith))

-- Stripping a buffer that ends in its padding, of 1 to `blocksize` bytes, and whose length is a
-- multiple of the block size gives the length before the padding.
pub brssl_strip_pkcs7-padded :
    (bytes : List ℕ) (pad blocksize : ℕ)
    → 0 < pad
    → pad ≤ blocksize
    → (length bytes + pad) % blocksize ≡ 0
    → brssl_strip_pkcs7 (padded bytes pad) blocksize ≡ length bytes
unfolding brssl_strip_pkcs7
brssl_strip_pkcs7-padded bytes pad blocksize some_pad small whole =
    let last : byte_at (padded bytes pad) (length (padded bytes pad) - 1) ≡ pad =
      byte_at-padded bytes pad 0 some_pad in
    rw (last, ends_in-padded bytes pad pad (omega arith), length-padded bytes pad, whole)
      (ground arith)
