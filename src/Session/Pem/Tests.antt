-- ===== src/Session/Pem/Tests.antt =====
-- The readers on concrete texts.
use async_tcp.Prelude.{
  ℕ, zero, suc, ◌+◌, ◌≤◌, ◌<◌, ◌≡◌, ◌⊎◌, inl, inr, subst, sym, arith, List, [], ◌∷◌, length, ltb,
}
use async_tcp.Session.Pem.{
  Event, begin_obj, end_obj, other, Decoder, certificate_label, parse_certificates,
  brssl_pem_extract_object,
}
use async_tcp.Session.Pem.Ends.{IsLawful}
use async_tcp.Session.Pem.Objects.{
  IsTidy, IsGiven, Gives, parse_certificates-IsTidy, brssl_pem_extract_object-IsGiven,
}

-- A decoder of texts where the byte 0 begins an object, 1 ends it and any other stands for itself.
-- Its state is the event that waits.
abbrev pub push_byte : Event → List ℕ → ℕ × List (List ℕ) × Event
push_byte begin_obj bytes = (0, [], begin_obj)
push_byte end_obj bytes = (0, [], end_obj)
push_byte other [] = (0, [], other)
push_byte other (zero ∷ bytes) = (1, [], begin_obj)
push_byte other (suc zero ∷ bytes) = (1, [], end_obj)
push_byte other (suc (suc n) ∷ bytes) = (1, (n ∷ []) ∷ [], other)

abbrev pub toy : Decoder Event
toy = record {
  init = other;
  push = push_byte;
  event = λ p. (p, other);
  name = λ p. certificate_label;
}

abbrev pub waiting : Event → ℕ
waiting begin_obj = 1
waiting end_obj = 1
waiting other = 0

takes : (p : Event) (bytes : List ℕ) → (push_byte p bytes).0 ≤ length bytes
takes begin_obj bytes = omega arith
takes end_obj bytes = omega arith
takes other [] = omega arith
takes other (zero ∷ bytes) = omega arith
takes other (suc zero ∷ bytes) = omega arith
takes other (suc (suc n) ∷ bytes) = omega arith

pends :
    (p : Event) (bytes : List ℕ) → waiting (push_byte p bytes).2 ≤ waiting p + (push_byte p bytes).0
pends begin_obj bytes = omega arith
pends end_obj bytes = omega arith
pends other [] = omega arith
pends other (zero ∷ bytes) = omega arith
pends other (suc zero ∷ bytes) = omega arith
pends other (suc (suc n) ∷ bytes) = omega arith

told :
    (p q e : Event)
    → ◌≡◌ {A = Event × Event} (p, other) (e, q)
    → (waiting q < waiting p) ⊎ ((e ≡ other) × (waiting q ≤ waiting p))
told begin_obj q e h = let f : other ≡ q = cc in inl (subst (λ x. waiting x < 1) f (omega arith))
told end_obj q e h = let f : other ≡ q = cc in inl (subst (λ x. waiting x < 1) f (omega arith))
told other q e h =
    let f : other ≡ q = cc in
    let g : other ≡ e = cc in inr (sym g, subst (λ x. waiting x ≤ 0) f (omega arith))

pub toy-IsLawful : IsLawful toy waiting
toy-IsLawful = record { takes = takes; pends = pends; tells = told }

abbrev pub text : List ℕ
text = 0 ∷ 7 ∷ 8 ∷ 1 ∷ 0 ∷ 9 ∷ []

-- Memory for objects of up to 100 bytes.
parse_certificates-IsTidy_test : Gives IsTidy (parse_certificates toy (λ n. ltb n 100) 10 20 text)
parse_certificates-IsTidy_test =
    parse_certificates-IsTidy toy waiting toy-IsLawful (λ n. ltb n 100) 10 20 text (omega arith)
      (omega arith)

brssl_pem_extract_object-IsGiven_test :
    Gives IsGiven (brssl_pem_extract_object toy (λ n. ltb n 100) 10 20 text certificate_label)
brssl_pem_extract_object-IsGiven_test =
    brssl_pem_extract_object-IsGiven toy waiting toy-IsLawful (λ n. ltb n 100) 10 20 text
      certificate_label (omega arith) (omega arith)
