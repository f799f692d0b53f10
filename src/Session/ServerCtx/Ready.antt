-- ===== src/Session/ServerCtx/Ready.antt =====
-- What `tcp_ssl_new_server_ctx` of src/AsyncSecureSession.cpp gives and leaves, on every branch.
use async_tcp.Prelude.{
  ℕ, ◌+◌, ◌-◌, ◌*◌, ◌≤◌, ◌<◌, ◌≡◌, ◌⊎◌, inl, inr, refl, sym, ap, arith, Bool, true, false, not,
  ◌&&◌, ◌||◌, Option, none, some, List, [], ◌∷◌, ◌++◌, ◌==◌, if◌then◌else◌, length, length-append,
  if_holds,
}
use async_tcp.Session.Pbes2.{Result, ok, err, Crypto, brssl_pbes2_decrypt}
use async_tcp.Session.Pem.{Decoder, blocks, bytes_of, map_some, Parsed, parse_certificates}
use async_tcp.Session.Pem.Ends.{IsLawful}
use async_tcp.Session.Pem.Objects.{
  AreFilled, IsTidy, IsGiven, Gives, parse_certificates-IsTidy, brssl_pem_extract_object-IsGiven,
}
use async_tcp.Session.ServerCtx.{
  Keys, Suites, ecdsa_suites, rsa_suites, Ctx, Made, strstr, encrypted_label, has_nl, delete_ctx,
  fail, Build, normalize_pem, password_fits, br_ssl_server_init_lean, with_key, decrypted,
  with_object, encrypted_key, load_key, with_chain, nothing, with_texts, tcp_ssl_new_server_ctx,
}

-- The certificates are in place, and the key is not.
record IsLoaded {K : Type 0} (x : Ctx K) (heap : ℕ) : Type 0 where
  some_certs : 0 < length x.chain_vector
  filled : AreFilled x.chain_vector
  no_key : x.pk ≡ none
  counted : heap ≡ length x.chain_vector + 1

suites-chosen :
    (rsa ec : Bool) (s : Suites)
    → (not rsa && not ec) ≡ false
    → (if ec then ecdsa_suites else (if rsa then rsa_suites else s))
      ≡ (if ec then ecdsa_suites else rsa_suites)
suites-chosen rsa true s e = refl
suites-chosen true false s e = refl
suites-chosen false false s e = absurd cc

-- A text whose last line ends.
abbrev pub lined : List ℕ → List ℕ
lined src = if has_nl src then src else src ++ 10 ∷ []

length-lined : (src : List ℕ) → length (lined src) ≤ length src + 1
length-lined src =
    if_holds (λ t. length t ≤ length src + 1) (has_nl src) _ _ (λ _. omega arith)
      (λ _. omega (arith, length-append src (10 ∷ [])))

module _ {K P : Type 0} (b : Keys K) (c : Crypto) (d : Decoder P) (m : Build) (k n : ℕ) where
  -- Where a key comes from: its text, or what the password decrypts of it.
  abbrev pub IsFrom : Option (List ℕ) → List ℕ → K → Type 0
  IsFrom password pem key =
      (((m.with_password && strstr encrypted_label pem) ≡ false) × (b.key_of_pem pem ≡ some key))
      ⊎ ((word der plain : List ℕ) × (password ≡ some word)
          × (brssl_pbes2_decrypt c der word ≡ ok plain)
          × (b.key_of_der plain ≡ some key))

  -- A context to serve with, of which `pem` and `password` gave the key.
  pub record IsReady (password : Option (List ℕ)) (pem : List ℕ) (x : Ctx K) : Type 0 where
    pub some_certs : 0 < length x.chain_vector
    pub filled : AreFilled x.chain_vector
    pub has_cache : x.has_cache ≡ true
    pub key :
        (key : K) × (x.pk ≡ some key)
        × IsFrom password pem key
        × ((b.get_rsa key || b.get_ec key) ≡ true)
        × (x.suites ≡ (if b.get_ec key then ecdsa_suites else rsa_suites))

  abbrev pub Outcome : Option (List ℕ) → List ℕ → ℕ → Option (Ctx K) → ℕ → ℕ → Type 0
  Outcome password pem refs none heap thunk_refs = (heap ≡ 0) × (thunk_refs ≡ refs)
  Outcome password pem refs (some x) heap thunk_refs =
      IsReady password pem x × (heap ≡ length x.chain_vector + 2) × (thunk_refs ≡ refs + 1)

  -- Nothing is left of a context that failed; one that is given holds its certificates and a key.
  abbrev pub Good : Option (List ℕ) → List ℕ → ℕ → Made K → Type 0
  Good password pem refs made = Outcome password pem refs made.ctx made.heap made.thunk_refs

  module _ (password : Option (List ℕ)) (pem : List ℕ) (refs : ℕ) where
    fail-Good : (x : Ctx K) (heap : ℕ) → IsLoaded x heap → Good password pem refs (fail x heap refs)
    unfolding fail delete_ctx
    fail-Good x heap l = (ground (arith, l.no_key, l.counted), refl)

    with_key-Good :
        (o : Option K) (x : Ctx K) (heap : ℕ)
        → IsLoaded x heap
        → ((key : K) → o ≡ some key → IsFrom password pem key)
        → Good password pem refs (with_key b c d m k n o x heap refs)
    unfolding with_key fail delete_ctx br_ssl_server_init_lean
    with_key-Good none x heap l from = fail-Good x heap l
    with_key-Good (some key) x heap l from =
        if_holds (Good password pem refs) (not (b.get_rsa key) && not (b.get_ec key)) _ _
          (λ _. (omega (arith, l.counted), refl))
          (λ e. (
            record {
              some_certs = l.some_certs;
              filled = l.filled;
              has_cache = refl;
              key = (key, refl, from key refl, ground (arith, e), suites-chosen _ _ x.suites e);
            },
            omega (arith, l.counted),
            refl,
          ))

    decrypted-Good :
        (r : Result (List ℕ)) (x : Ctx K) (heap : ℕ) (word der : List ℕ)
        → IsLoaded x (heap - 1)
        → 0 < heap
        → password ≡ some word
        → brssl_pbes2_decrypt c der word ≡ r
        → Good password pem refs (decrypted b c d m k n r x heap refs)
    unfolding decrypted
    decrypted-Good (err why) x heap word der l h e f = fail-Good x (heap - 1) l
    decrypted-Good (ok plain) x heap word der l h e f =
        with_key-Good (b.key_of_der plain) x (heap + 1 - 1 - 1)
          (record {
            some_certs = l.some_certs;
            filled = l.filled;
            no_key = l.no_key;
            counted = omega (arith, l.counted);
          })
          (λ key g. inr (word, der, plain, e, f, g))

    with_object-Good :
        (o : Option (List ℕ)) (x : Ctx K) (heap heap' : ℕ) (word : List ℕ)
        → IsLoaded x heap
        → heap' ≡ heap + blocks o
        → password ≡ some word
        → Good password pem refs (with_object b c d m k n o word x heap' refs)
    unfolding with_object
    with_object-Good none x heap heap' word l e f = fail-Good x heap' (record {
      some_certs = l.some_certs;
      filled = l.filled;
      no_key = l.no_key;
      counted = omega (arith, l.counted, e);
    })
    with_object-Good (some der) x heap heap' word l e f =
        decrypted-Good (brssl_pbes2_decrypt c der word) x heap' word der
          (record {
            some_certs = l.some_certs;
            filled = l.filled;
            no_key = l.no_key;
            counted = omega (arith, l.counted, e);
          })
          (omega (arith, e)) f refl

  map_some-Gives :
      {A R : Type 0} (Good : A → Type 0) (Fine : R → Type 0) (f : A → R) (o : Option A)
      → ((a : A) → Good a → Fine (f a))
      → Gives Good o
      → Gives Fine (map_some f o)
  map_some-Gives Good Fine f none h g = g
  map_some-Gives Good Fine f (some a) h g = h a g

  module _ (pending : P → ℕ) (law : IsLawful d pending) (password : Option (List ℕ)) (pem : List ℕ)
      (refs : ℕ) (inner : pending d.init + length pem < k)
      (outer : 2 * length pem + pending d.init < n) where
    encrypted_key-Good :
        (given : Option (List ℕ)) (x : Ctx K) (heap : ℕ)
        → given ≡ password
        → IsLoaded x heap
        → Gives (Good password pem refs) (encrypted_key b c d m k n given pem x heap refs)
    unfolding encrypted_key
    encrypted_key-Good none x heap e l = fail-Good password pem refs x heap l
    encrypted_key-Good (some []) x heap e l = fail-Good password pem refs x heap l
    encrypted_key-Good (some (w ∷ word)) x heap e l =
        map_some-Gives IsGiven (Good password pem refs) _ _
          (λ g h.
            with_object-Good password pem refs g.out x heap (heap + g.heap) (w ∷ word) l
              (ap (λ t. heap + t) h.0) (sym e))
          (brssl_pem_extract_object-IsGiven d pending law m.realloc k n pem encrypted_label inner
            outer)

    load_key-Good :
        (x : Ctx K) (heap : ℕ)
        → IsLoaded x heap
        → Gives (Good password pem refs) (load_key b c d m k n password pem x heap refs)
    unfolding load_key
    load_key-Good x heap l =
        if_holds (Gives (Good password pem refs)) (m.with_password && strstr encrypted_label pem) _
          _ (λ _. encrypted_key-Good password x heap refl l)
          (λ e. with_key-Good password pem refs (b.key_of_pem pem) x heap l (λ key f. inl (e, f)))

    with_chain-Good :
        (o : Option Parsed)
        → Gives IsTidy o
        → Gives (Good password pem refs) (with_chain b c d m k n password pem refs o)
    unfolding with_chain fail delete_ctx
    with_chain-Good none h = h
    with_chain-Good (some parsed) (h, filled) =
        if_holds (Gives (Good password pem refs)) (length parsed.certs == 0) _ _
          (λ e. (ground (arith, e, h), refl))
          (λ e. load_key-Good _ (parsed.heap + 1) (record {
            some_certs = ground (arith, e);
            filled = filled;
            no_key = refl;
            counted = omega (arith, h);
          }))

  module _ (pending : P → ℕ) (law : IsLawful d pending) where
    with_texts-Good :
        (cert key : List ℕ) (password : Option (List ℕ)) (refs : ℕ)
        → pending d.init + length cert < k
        → 2 * length cert + pending d.init < n
        → pending d.init + length key < k
        → 2 * length key + pending d.init < n
        → Gives
            (Good password key refs)
            (with_texts b c d m k n (some cert) (some key) password refs)
    unfolding with_texts nothing
    with_texts-Good cert key password refs h1 h2 h3 h4 =
        if_holds (Gives (Good password key refs)) (m.ctx_alloc && password_fits m password) _ _
          (λ _.
            with_chain-Good pending law password key refs h3 h4
              (parse_certificates d m.realloc k n cert)
              (parse_certificates-IsTidy d pending law m.realloc k n cert h1 h2))
          (λ _. (refl, refl))

    -- With a PEM decoder that takes no more bytes than it is offered and tells of at most one edge
    -- of an object for each byte, on fuel beyond the bytes of each text and the edges that it has
    -- to tell, `tcp_ssl_new_server_ctx` ends on every branch: it gives nothing, and leaves no
    -- block and no reference on the thunk stack; or a context with one certificate at least, none
    -- of them empty, with the session cache, and with an RSA or EC key and the suites that fit it,
    -- made of the key's text, or decrypted from it with the password that was given; then there is
    -- one block for each certificate and two for the context and the key, and one more reference.
    pub tcp_ssl_new_server_ctx-Good :
        (cert key password : Option (List ℕ)) (refs : ℕ)
        → pending d.init + length (bytes_of cert) + 1 < k
        → 2 * length (bytes_of cert) + 2 + pending d.init < n
        → pending d.init + length (bytes_of key) + 1 < k
        → 2 * length (bytes_of key) + 2 + pending d.init < n
        → Gives
            (Good password (lined (bytes_of key)) refs)
            (tcp_ssl_new_server_ctx b c d m k n cert key password refs)
    unfolding tcp_ssl_new_server_ctx with_texts nothing normalize_pem
    tcp_ssl_new_server_ctx-Good none key password refs h1 h2 h3 h4 = (refl, refl)
    tcp_ssl_new_server_ctx-Good (some cert) none password refs h1 h2 h3 h4 =
        if_holds
          (λ t. Gives (Good password (lined []) refs) (with_texts b c d m k n t none password refs))
          (m.alloc (length cert + 2)) _ _ (λ _. (refl, refl)) (λ _. (refl, refl))
    tcp_ssl_new_server_ctx-Good (some cert) (some key) password refs h1 h2 h3 h4 =
        let made = λ (t u : Option (List ℕ)).
          Gives (Good password (lined key) refs) (with_texts b c d m k n t u password refs) in
        if_holds (λ t. made t (normalize_pem m (some key))) (m.alloc (length cert + 2)) _ _
          (λ _.
            if_holds (made (some (lined cert))) (m.alloc (length key + 2)) _ _
              (λ _.
                with_texts-Good (lined cert) (lined key) password refs
                  (omega (arith, length-lined cert)) (omega (arith, length-lined cert))
                  (omega (arith, length-lined key)) (omega (arith, length-lined key)))
              (λ _. (refl, refl)))
          (λ _. (refl, refl))
