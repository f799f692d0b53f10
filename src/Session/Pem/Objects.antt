-- ===== src/Session/Pem/Objects.antt =====
-- What the readers of certificates and of an object return, and the blocks that they leave.
use async_tcp.Prelude.{
  subst, ℕ, ◌+◌, ◌-◌, ◌*◌, ◌<◌, ◌≡◌, refl, ap, arith, Bool, true, false, ◌&&◌, Option, none, some,
  List, [], ◌∷◌, ◌++◌, ltb, if◌then◌else◌, length, length-append, if_holds,
}
use async_tcp.Session.Pem.{
  Decoder, Flow, continue, return, Gathered, blocks, bytes_of, free_buf, begin_object, found,
  append_bytes, Parsing, Parsed, keep, drop_all, cert_reader, no_bytes, finish_certs, Extracted,
  give, drop_object, object_reader, given, finish_object, map_some, parse_certificates,
  brssl_pem_extract_object,
}
use async_tcp.Session.Pem.Ends.{IsLawful, Keeps, Ended, loop-Ended}

-- `others` blocks besides the object's own.
abbrev pub Holds : ℕ → Gathered → Type 0
Holds others g = g.heap ≡ others + blocks g.buf

free_buf-Holds : (others : ℕ) (g : Gathered) → Holds others g → Holds others (free_buf g)
unfolding free_buf
free_buf-Holds others g h = omega arith

begin_object-Holds :
    (others : ℕ) (label name : List ℕ) (g : Gathered)
    → Holds others g
    → Holds others (begin_object label name g)
unfolding begin_object
begin_object-Holds others label name g h = free_buf-Holds others g h

append_bytes-Holds :
    (others : ℕ) (realloc : ℕ → Bool) (bytes : List ℕ) (g : Gathered)
    → Holds others g
    → Holds others (append_bytes realloc bytes g)
unfolding append_bytes
append_bytes-Holds others realloc bytes g h =
    if_holds (Holds others) g.error _ _ (λ _. h)
      (λ _.
        if_holds (Holds others) (realloc (length (bytes_of g.buf) + length bytes)) _ _
          (λ _. omega arith) (λ _. free_buf-Holds others g h))

if_some {ℓ} :
    {A : Type ℓ} (b : Bool) (o : Option A) (a : A)
    → (if b then o else none) ≡ some a
    → (b ≡ true) × (o ≡ some a)
if_some true o a e = (refl, e)
if_some false o a e = absurd cc

-- An object that is found has bytes, and is what was gathered.
found-filled :
    (g : Gathered) (bytes : List ℕ)
    → found g ≡ some bytes
    → (g.buf ≡ some bytes) × (0 < length bytes)
unfolding found
found-filled g bytes e =
    let (p, q) = if_some (g.in_object && ltb 0 (length (bytes_of g.buf))) g.buf bytes e in
    (q, ground (arith, p, ap bytes_of q))

abbrev pub AreFilled : List (List ℕ) → Type 0
AreFilled [] = Unit {0}
AreFilled (c ∷ cs) = (0 < length c) × AreFilled cs

AreFilled-snoc :
    (cs : List (List ℕ)) (c : List ℕ) → AreFilled cs → 0 < length c → AreFilled (cs ++ c ∷ [])
AreFilled-snoc [] c a h = (h, tt)
AreFilled-snoc (x ∷ cs) c a h = (a.0, AreFilled-snoc cs c a.1 h)

abbrev Owned : Parsing → Type 0
Owned s = Holds (length s.certs) s.gathered × AreFilled s.certs

-- One block for each certificate and no other, and no certificate that is empty.
abbrev pub IsTidy : Parsed → Type 0
IsTidy x = (x.heap ≡ length x.certs) × AreFilled x.certs

keep-Owned : (o : Option (List ℕ)) (s : Parsing) → found s.gathered ≡ o → Owned s → Owned (keep o s)
unfolding keep
keep-Owned none s e (h, a) = (free_buf-Holds (length s.certs) s.gathered h, a)
keep-Owned (some cert) s e (h, a) =
    let (q, filled) = found-filled s.gathered cert e in
    (
      omega (arith, ap blocks q, length-append s.certs (cert ∷ [])),
      AreFilled-snoc s.certs cert a filled,
    )

keep-blocks : (o : Option (List ℕ)) (s : Parsing) → blocks (keep o s).gathered.buf ≡ 0
unfolding keep free_buf
keep-blocks none s = refl
keep-blocks (some cert) s = refl

drop_all-IsTidy : (s : Parsing) (x : Parsed) → drop_all s ≡ some x → Owned s → IsTidy x
unfolding drop_all
drop_all-IsTidy s x e (h, a) =
    let none_left : Parsed = record {
      certs = [];
      heap = s.gathered.heap - length s.certs - blocks s.gathered.buf;
    } in
    let (p, q) = if_some s.gathered.error (some none_left) x e in
    let same : none_left ≡ x = cc in subst IsTidy same (omega arith, tt)

same_state : {S R : Type 0} (s t : S) → ◌≡◌ {A = Flow S R} (continue s) (continue t) → s ≡ t
same_state s t e = cc

cert_reader-Keeps : (realloc : ℕ → Bool) → Keeps (cert_reader realloc) Owned IsTidy
unfolding cert_reader
cert_reader-Keeps realloc = record {
  append = λ bytes s i. (append_bytes-Holds (length s.certs) realloc bytes s.gathered i.0, i.1);
  failed = drop_all-IsTidy;
  begin = λ name s i. (begin_object-Holds (length s.certs) _ name s.gathered i.0, i.1);
  continued = λ s t e i.
      subst Owned (same_state (keep (found s.gathered) s) t e)
        (keep-Owned (found s.gathered) s refl i);
  returned = λ s x e i. absurd cc;
}

finish_certs-IsTidy :
    (f : Flow Parsing Parsed) → Ended Owned IsTidy (some f) → IsTidy (finish_certs f)
unfolding finish_certs
finish_certs-IsTidy (return x) h = h
finish_certs-IsTidy (continue s) h =
    let o = found s.gathered in
    let kept = keep-Owned o s refl h in (omega (arith, kept.0, keep-blocks o s), kept.1)

-- A function that ends, with a result of which `Good` holds.
abbrev pub Gives : {R : Type 0} → (R → Type 0) → Option R → Type 0
Gives Good none = ⊥
Gives Good (some x) = Good x

Gives-map :
    {S R : Type 0} (Inv : S → Type 0) (Good : R → Type 0) (f : Flow S R → R) (o : Option (Flow S R))
    → ((g : Flow S R) → Ended Inv Good (some g) → Good (f g))
    → Ended Inv Good o
    → Gives Good (map_some f o)
Gives-map Inv Good f none h e = e
Gives-map Inv Good f (some (continue s)) h e = h (continue s) e
Gives-map Inv Good f (some (return x)) h e = h (return x) e

-- One block for the object where there is one, which has bytes.
abbrev pub IsGiven : Extracted → Type 0
IsGiven x = (x.heap ≡ blocks x.out) × ((bytes : List ℕ) → x.out ≡ some bytes → 0 < length bytes)

drop_object-IsGiven :
    (g : Gathered) (x : Extracted) → drop_object g ≡ some x → Holds 0 g → IsGiven x
unfolding drop_object
drop_object-IsGiven g x e h =
    let nothing : Extracted = record { out = none; heap = g.heap - blocks g.buf } in
    let (p, q) = if_some g.error (some nothing) x e in
    let same : nothing ≡ x = cc in subst IsGiven same (omega arith, λ bytes f. absurd cc)

give-continued :
    (o : Option (List ℕ)) (g t : Gathered)
    → give o g ≡ continue t
    → Holds 0 g
    → (t.heap ≡ 0) × Holds 0 t
unfolding give free_buf
give-continued none g t e h =
    let same : record (free_buf g) { in_object = false } ≡ t = cc in
    subst (λ (u : Gathered). (u.heap ≡ 0) × Holds 0 u) same (omega arith, omega arith)
give-continued (some bytes) g t e h = absurd cc

give-returned :
    (o : Option (List ℕ)) (g : Gathered) (x : Extracted)
    → found g ≡ o
    → give o g ≡ return x
    → Holds 0 g
    → IsGiven x
unfolding give
give-returned none g x e f h = absurd cc
give-returned (some bytes) g x e f h =
    let (q, filled) = found-filled g bytes e in
    let y : Extracted = record { out = some bytes; heap = g.heap } in
    let same : y ≡ x = cc in
    subst IsGiven same (
      omega (arith, ap blocks q),
      λ b p. let eq : bytes ≡ b = cc in subst (λ c. 0 < length c) eq filled,
    )

object_reader-Keeps :
    (realloc : ℕ → Bool) (label : List ℕ) → Keeps (object_reader realloc label) (Holds 0) IsGiven
unfolding object_reader
object_reader-Keeps realloc label = record {
  append = append_bytes-Holds 0 realloc;
  failed = drop_object-IsGiven;
  begin = begin_object-Holds 0 label;
  continued = λ g t e h. (give-continued (found g) g t e h).1;
  returned = λ g x e h. give-returned (found g) g x refl e h;
}

given-IsGiven :
    (g : Gathered) (f : Flow Gathered Extracted)
    → give (found g) g ≡ f
    → Holds 0 g
    → IsGiven (given f)
unfolding given
given-IsGiven g (return x) e h = give-returned (found g) g x refl e h
given-IsGiven g (continue t) e h = ((give-continued (found g) g t e h).0, λ bytes p. absurd cc)

finish_object-IsGiven :
    (f : Flow Gathered Extracted) → Ended (Holds 0) IsGiven (some f) → IsGiven (finish_object f)
unfolding finish_object
finish_object-IsGiven (return x) h = h
finish_object-IsGiven (continue g) h = given-IsGiven g (give (found g) g) refl h

module _ {P : Type 0} (d : Decoder P) (pending : P → ℕ) (law : IsLawful d pending)
    (realloc : ℕ → Bool) (k n : ℕ) (pem : List ℕ) where
  -- The reading of certificates ends, and leaves one block for each, none of which is empty.
  pub parse_certificates-IsTidy :
      pending d.init + length pem < k
      → 2 * length pem + pending d.init < n
      → Gives IsTidy (parse_certificates d realloc k n pem)
  unfolding parse_certificates no_bytes
  parse_certificates-IsTidy h f = Gives-map Owned IsTidy finish_certs _ finish_certs-IsTidy (
      loop-Ended d (cert_reader realloc) pending law Owned IsTidy (cert_reader-Keeps realloc) k n
        d.init pem (record { certs = []; gathered = no_bytes }) h f (refl, tt))

  -- So does the reader of one object, which leaves a block for it where it finds it.
  pub brssl_pem_extract_object-IsGiven :
      (label : List ℕ)
      → pending d.init + length pem < k
      → 2 * length pem + pending d.init < n
      → Gives IsGiven (brssl_pem_extract_object d realloc k n pem label)
  unfolding brssl_pem_extract_object no_bytes
  brssl_pem_extract_object-IsGiven label h f =
      Gives-map (Holds 0) IsGiven finish_object _ finish_object-IsGiven (
        loop-Ended d (object_reader realloc label) pending law (Holds 0) IsGiven
          (object_reader-Keeps realloc label) k n d.init pem no_bytes h f refl)
