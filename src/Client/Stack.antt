-- ===== src/Client/Stack.antt =====
-- The stack of callback contexts of a client, seen from the context on top.
use async_tcp.Prelude.{
  ◌≡◌, refl, sym, ap, ◌∙◌, arith, ℕ, suc, true, List, [], ◌∷◌, ==_refl, some, length,
}
use async_tcp.Client.State.{Sys, Context, context_at, set_context, drop_to, is_valid_at}
use async_tcp.Client.Api.{set_contexts}
use async_tcp.Client.Handlers.{set_context_at}

pub context_top :
    (d : ℕ) (c : Context) (cs : List Context) → length cs ≡ d → context_at d (c ∷ cs) ≡ some c
context_top d c cs p = rw (p, ==_refl d) refl

pub set_context_top :
    (d : ℕ) (v c : Context) (cs : List Context) → length cs ≡ d → set_context d v (c ∷ cs) ≡ v ∷ cs
set_context_top d v c cs p = rw (p, ==_refl d) refl

pub drop_to_top :
    (d : ℕ) (c : Context) (cs : List Context) → length cs ≡ d → drop_to d (c ∷ cs) ≡ cs
drop_to_top d c cs p = rw (p, ==_refl d) refl

pub context-valid :
    (d : ℕ) (cs : List Context) (c : Context)
    → context_at d cs ≡ some c
    → is_valid_at d cs ≡ c.client_is_valid
context-valid d cs c p = rw (is_valid_at, p) refl

-- A stack of d + 1 contexts with a valid one above d others has that one on top.
pub record TopContext (d : ℕ) (cs : List Context) : Type 0 where
  pub c : Context
  pub rest : List Context
  pub stack : cs ≡ c ∷ rest
  pub depth : length rest ≡ d
  pub valid : c.client_is_valid ≡ true

pub top_context :
    (d : ℕ) (cs : List Context) → length cs ≡ suc d → is_valid_at d cs ≡ true → TopContext d cs
top_context d [] p v = absurd (omega arith)
top_context d (c ∷ rest) p v =
    let q : length rest ≡ d = omega arith in
    record {
      c = c;
      rest = rest;
      stack = refl;
      depth = q;
      valid = sym (context-valid d (c ∷ rest) c (context_top d c rest q)) ∙ v;
    }

pub context_here :
    (d : ℕ) (t : Sys) (c : Context) (rest : List Context)
    → t.cb_ctx ≡ c ∷ rest
    → length rest ≡ d
    → context_at d t.cb_ctx ≡ some c
context_here d t c rest p q = ap (context_at d) p ∙ context_top d c rest q

pub set_here :
    (d : ℕ) (t : Sys) (v c : Context) (rest : List Context)
    → t.cb_ctx ≡ c ∷ rest
    → length rest ≡ d
    → set_context_at d v t ≡ set_contexts t (v ∷ rest)
set_here d t v c rest p q =
    ap (set_contexts t) (ap (set_context d v) p ∙ set_context_top d v c rest q)
