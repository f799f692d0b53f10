-- ===== src/Session/ServerCtx/Tests.antt =====
-- The context of a TLS server for concrete texts.
use async_tcp.Prelude.{ℕ, ◌≡◌, refl, arith, true, none, some, List, [], ◌∷◌, ltb}
use async_tcp.Session.Pbes2.Tests.{toy_crypto}
use async_tcp.Session.Pem.Objects.{Gives}
use async_tcp.Session.Pem.Tests.{toy, waiting, toy-IsLawful, text}
use async_tcp.Session.ServerCtx.{
  Keys, ecdsa_suites, encrypted_label, Build, tcp_ssl_new_server_ctx, with_texts, normalize_pem,
  has_nl, password_fits, with_chain, load_key, strstr, starts_with, with_key,
  br_ssl_server_init_lean, encrypted_key, fail, delete_ctx,
}
use async_tcp.Session.Pem.{
  parse_certificates, loop, drain, on_event, unless_failed, after_end, appends, is_empty, go_on,
  cert_reader, append_bytes, free_buf, begin_object, same_name, found, keep, drop_all, finish_certs,
  no_bytes,
}
use async_tcp.Session.ServerCtx.Ready.{lined, Good, tcp_ssl_new_server_ctx-Good}

-- Every text is a key of elliptic curves.
abbrev pub ec_keys : Keys (List ℕ)
ec_keys = record {
  key_of_pem = λ pem. some pem;
  key_of_der = λ der. some der;
  get_rsa = λ key. ltb 1 0;
  get_ec = λ key. true;
}

abbrev pub roomy : Build
roomy = record {
  alloc = λ n. ltb n 100;
  ctx_alloc = true;
  realloc = λ n. ltb n 100;
  with_password = true;
}

tcp_ssl_new_server_ctx-Good_example :
    Gives (Good ec_keys toy_crypto toy roomy 10 20 none (lined (5 ∷ 6 ∷ [])) 0) (
      tcp_ssl_new_server_ctx ec_keys toy_crypto toy roomy 10 20
        (some text)
        (some (5 ∷ 6 ∷ []))
        none
        0)
tcp_ssl_new_server_ctx-Good_example =
    tcp_ssl_new_server_ctx-Good ec_keys toy_crypto toy roomy 10 20 waiting toy-IsLawful (some text)
      (some (5 ∷ 6 ∷ [])) none 0 (omega arith) (omega arith) (omega arith) (omega arith)

-- Two certificates and the key, whose line is ended.
two_certificates :
    tcp_ssl_new_server_ctx ec_keys toy_crypto toy roomy 10 20 (some text) (some (5 ∷ 6 ∷ [])) none 0
    ≡ some (record {
      ctx = some (record {
        chain_vector = (5 ∷ 6 ∷ []) ∷ (7 ∷ 8 ∷ []) ∷ [];
        pk = some (5 ∷ 6 ∷ 10 ∷ []);
        suites = ecdsa_suites;
        has_cache = true;
      });
      heap = 4;
      thunk_refs = 1;
    })
unfolding tcp_ssl_new_server_ctx with_texts normalize_pem has_nl password_fits with_chain load_key
    strstr starts_with with_key br_ssl_server_init_lean parse_certificates loop drain on_event
    unless_failed after_end appends is_empty go_on cert_reader append_bytes free_buf begin_object
    same_name found keep drop_all finish_certs no_bytes
two_certificates = refl

-- An encrypted key without a password gives nothing, and leaves nothing.
no_password :
    tcp_ssl_new_server_ctx ec_keys toy_crypto toy roomy 10 60
      (some text)
      (some encrypted_label)
      none
      0
    ≡ some (record { ctx = none; heap = 0; thunk_refs = 0 })
unfolding tcp_ssl_new_server_ctx with_texts normalize_pem has_nl password_fits with_chain load_key
    strstr starts_with encrypted_key fail delete_ctx parse_certificates loop drain on_event
    unless_failed after_end appends is_empty go_on cert_reader append_bytes free_buf begin_object
    same_name found keep drop_all finish_certs no_bytes
no_password = refl
