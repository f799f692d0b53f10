-- ===== src/Session/Pem.antt =====
-- The reading of PEM texts on ESP8266: `parse_certificates` and `brssl_pem_extract_object` of
-- src/AsyncSecureSession.cpp, with the callbacks that gather an object's bytes. BearSSL's decoder
-- and realloc are parameters. `heap` is the number of blocks that are allocated.
pub mod Ends
pub mod Objects
pub mod Tests
use async_tcp.Prelude.{
  ℕ, zero, suc, ◌+◌, ◌-◌, Bool, true, false, not, ◌&&◌, ◌||◌, Option, none, some, List, [], ◌∷◌,
  ◌++◌, ◌==◌, ltb, if◌then◌else◌, length, drop,
}

-- BR_PEM_BEGIN_OBJ, BR_PEM_END_OBJ, and no event or BR_PEM_ERROR.
pub data Event : Type 0 where
  begin_obj end_obj other : Event

-- br_pem_decoder_push, with the number of bytes that it takes and what it hands to the callback,
-- br_pem_decoder_event and br_pem_decoder_name.
pub record Decoder (P : Type 0) : Type 0 where
  pub init : P
  pub push : P → List ℕ → ℕ × List (List ℕ) × P
  pub event : P → Event × P
  pub name : P → List ℕ

-- What is done with an object: `S` is the state of the reader and `R` what its function returns.
pub data Flow (S R : Type 0) : Type 0 where
  continue : S → Flow S R
  return : R → Flow S R

pub record Reader (S R : Type 0) : Type 0 where
  pub append : List ℕ → S → S
  pub failed : S → Option R
  pub begin : List ℕ → S → S
  pub end : S → Flow S R

-- After the events are drained: the function returned, or goes on, with `made_progress`.
pub data Turn (P S R : Type 0) : Type 0 where
  over : R → Turn P S R
  going : P → S → Bool → Turn P S R

module _ {P S R : Type 0} (d : Decoder P) (r : Reader S R) where
  unfoldable pub after_end : (S → Option (Turn P S R)) → Flow S R → Option (Turn P S R)
  after_end rest (continue s) = rest s
  after_end rest (return x) = some (over x)

  unfoldable pub on_event :
      (P → S → Option (Turn P S R)) → Event × P → S → Bool → Option (Turn P S R)
  on_event rest (begin_obj, p) s made_progress = rest p (r.begin (d.name p) s)
  on_event rest (end_obj, p) s made_progress = after_end (rest p) (r.end s)
  on_event rest (other, p) s made_progress = some (going p s made_progress)

  unfoldable pub unless_failed : Option R → Option (Turn P S R) → Option (Turn P S R)
  unless_failed none t = t
  unless_failed (some x) t = some (over x)

  -- The inner loop, on fuel.
  unfoldable pub drain : ℕ → P → S → Bool → Option (Turn P S R)
  drain zero p s made_progress = none
  drain (suc n) p s made_progress =
      unless_failed (r.failed s) (on_event (λ q t. drain n q t true) (d.event p) s made_progress)

  unfoldable pub appends : List (List ℕ) → S → S
  appends [] s = s
  appends (bytes ∷ more) s = appends more (r.append bytes s)

  unfoldable pub is_empty : List ℕ → Bool
  is_empty [] = true
  is_empty (b ∷ bytes) = false

  unfoldable pub go_on :
      (P → List ℕ → S → Option (Flow S R)) → List ℕ → Option (Turn P S R) → Option (Flow S R)
  go_on rest bytes none = none
  go_on rest bytes (some (over x)) = some (return x)
  go_on rest bytes (some (going p s made_progress)) =
      if is_empty bytes || not made_progress then some (continue s) else rest p bytes s

  -- The outer loop, on fuel, over the bytes that are left; `k` is the inner loop's fuel.
  unfoldable pub loop : ℕ → ℕ → P → List ℕ → S → Option (Flow S R)
  loop k zero p bytes s = none
  loop k (suc n) p bytes s =
      let (taken, chunks, q) = d.push p bytes in
      go_on (λ p' bytes' t. loop k n p' bytes' t) (drop taken bytes)
        (drain k q (appends chunks s) (ltb 0 taken))

-- The bytes of the object, `error`, and whether the object is one that is looked for.
pub record Gathered : Type 0 where
  pub buf : Option (List ℕ)
  pub error : Bool
  pub in_object : Bool
  pub heap : ℕ

abbrev pub blocks : Option (List ℕ) → ℕ
blocks none = 0
blocks (some bytes) = 1

abbrev pub bytes_of : Option (List ℕ) → List ℕ
bytes_of none = []
bytes_of (some bytes) = bytes

unfoldable pub free_buf : Gathered → Gathered
free_buf g = record g { buf = none; heap = g.heap - blocks g.buf }

-- A name as a text, equal byte for byte.
unfoldable pub same_name : List ℕ → List ℕ → Bool
same_name [] [] = true
same_name [] (y ∷ ys) = false
same_name (x ∷ xs) [] = false
same_name (x ∷ xs) (y ∷ ys) = (x == y) && same_name xs ys

unfoldable pub begin_object : List ℕ → List ℕ → Gathered → Gathered
begin_object label name g = record (free_buf g) { in_object = same_name name label }

-- The object that ends, where it is looked for and has bytes.
unfoldable pub found : Gathered → Option (List ℕ)
found g = if g.in_object && ltb 0 (length (bytes_of g.buf)) then g.buf else none

-- `realloc` says whether a block of that size can be had.
module _ (realloc : ℕ → Bool) where
  -- `append_to_cert_vector` and `brssl_pem_append`, which have one body.
  unfoldable pub append_bytes : List ℕ → Gathered → Gathered
  append_bytes bytes g =
      if g.error
      then g
      else (if realloc (length (bytes_of g.buf) + length bytes)
          then (record g { buf = some (bytes_of g.buf ++ bytes); heap = g.heap - blocks g.buf + 1 })
          else record (free_buf g) { error = true })

-- `certs` and the object being read.
pub record Parsing : Type 0 where
  pub certs : List (List ℕ)
  pub gathered : Gathered

-- What `parse_certificates` returns in `certs`, and the blocks that are allocated.
pub record Parsed : Type 0 where
  pub certs : List (List ℕ)
  pub heap : ℕ

-- "CERTIFICATE"
abbrev pub certificate_label : List ℕ
certificate_label = 67 ∷ 69 ∷ 82 ∷ 84 ∷ 73 ∷ 70 ∷ 73 ∷ 67 ∷ 65 ∷ 84 ∷ 69 ∷ []

unfoldable pub keep : Option (List ℕ) → Parsing → Parsing
keep none s = record s { gathered = record (free_buf s.gathered) { in_object = false } }
keep (some cert) s = record {
  certs = s.certs ++ cert ∷ [];
  gathered = record s.gathered { buf = none; in_object = false };
}

unfoldable pub drop_all : Parsing → Option Parsed
drop_all s =
    if s.gathered.error
    then some
        (record { certs = []; heap = s.gathered.heap - length s.certs - blocks s.gathered.buf })
    else none

unfoldable pub cert_reader : (ℕ → Bool) → Reader Parsing Parsed
cert_reader realloc = record {
  append = λ bytes s. record s { gathered = append_bytes realloc bytes s.gathered };
  failed = drop_all;
  begin = λ name s. record s { gathered = begin_object certificate_label name s.gathered };
  end = λ s. continue (keep (found s.gathered) s);
}

unfoldable pub no_bytes : Gathered
no_bytes = record { buf = none; error = false; in_object = false; heap = 0 }

unfoldable pub finish_certs : Flow Parsing Parsed → Parsed
finish_certs (return x) = x
finish_certs (continue s) =
    let t = keep (found s.gathered) s in record { certs = t.certs; heap = t.gathered.heap }

-- Whether the function found the object, whose block is then the caller's.
pub record Extracted : Type 0 where
  pub out : Option (List ℕ)
  pub heap : ℕ

unfoldable pub give : Option (List ℕ) → Gathered → Flow Gathered Extracted
give none g = continue (record (free_buf g) { in_object = false })
give (some bytes) g = return (record { out = some bytes; heap = g.heap })

unfoldable pub drop_object : Gathered → Option Extracted
drop_object g = if g.error then some (record { out = none; heap = g.heap - blocks g.buf }) else none

unfoldable pub object_reader : (ℕ → Bool) → List ℕ → Reader Gathered Extracted
object_reader realloc label = record {
  append = append_bytes realloc;
  failed = drop_object;
  begin = begin_object label;
  end = λ g. give (found g) g;
}

unfoldable pub given : Flow Gathered Extracted → Extracted
given (return x) = x
given (continue g) = record { out = none; heap = g.heap }

-- The object that was still being read, if it is the one.
unfoldable pub finish_object : Flow Gathered Extracted → Extracted
finish_object (return x) = x
finish_object (continue g) = given (give (found g) g)

abbrev pub map_some : {A B : Type 0} → (A → B) → Option A → Option B
map_some f none = none
map_some f (some a) = some (f a)

module _ {P : Type 0} (d : Decoder P) (realloc : ℕ → Bool) (k n : ℕ) where
  -- `parse_certificates`, with none where the fuel runs out.
  unfoldable pub parse_certificates : List ℕ → Option Parsed
  parse_certificates pem =
      map_some finish_certs
        (loop d (cert_reader realloc) k n d.init pem (record { certs = []; gathered = no_bytes }))

  -- `brssl_pem_extract_object`
  unfoldable pub brssl_pem_extract_object : List ℕ → List ℕ → Option Extracted
  brssl_pem_extract_object pem label =
      map_some finish_object (loop d (object_reader realloc label) k n d.init pem no_bytes)
