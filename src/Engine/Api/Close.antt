-- ===== src/Engine/Api/Close.antt =====
-- What `tcp_ssl_close` writes.
use async_tcp.Prelude.{
  ℕ, ◌+◌, ◌≡◌, refl, sym, ap, ◌∙◌, true, false, arith, map, List, [], ◌∷◌, ◌++◌, length,
  if◌then◌else◌, if_holds, append-nil, append_assoc,
}
use async_tcp.Engine.Ring.Account.{total, total-append, Fits}
use async_tcp.Engine.Model.{Bearssl, Sys, Host, Call, write_copy, emit}
use async_tcp.Engine.Pass.Wire.{consumed}
use async_tcp.Engine.Api.{
  Closing, returns, goes_on, fits, copied, write_out, flush_data, clear_deferred, drain_deferred,
  notify_written, close_notify, tcp_ssl_close,
}

-- The records that lwIP copied.
abbrev pub copies : List Call → List (List ℕ)
copies [] = []
copies (write_copy bytes true ∷ log) = copies log ++ (bytes ∷ [])
copies (c ∷ log) = copies log

map-append : (xs ys : List (List ℕ)) → map length (xs ++ ys) ≡ map length xs ++ map length ys
map-append [] ys = refl
map-append (x ∷ xs) ys = ap (◌∷◌ (length x)) (map-append xs ys)

Fits-append :
    (size : ℕ) (xs ys : List (List ℕ)) → Fits size xs → Fits size ys → Fits size (xs ++ ys)
Fits-append size [] ys f g = g
Fits-append size (x ∷ xs) ys f g = (f.0, Fits-append size xs ys f.1 g)

module _ {E : Type 0} (b : Bearssl E) (h : Host) (size : ℕ) where
  -- From s with n bytes counted to t with m: the records copied in between are those that the
  -- engine was told are sent, none longer than an output buffer, and m counts their bytes.
  pub record Copies (n : ℕ) (s : Sys E) (m : ℕ) (t : Sys E) : Type 0 where
    pub records : List (List ℕ)
    pub grown : copies t.log ≡ copies s.log ++ records
    pub told : consumed t.log ≡ consumed s.log ++ map length records
    pub counted : m ≡ n + total records
    pub fit : Fits size records

  none_copied : (n : ℕ) (s t : Sys E) → t.log ≡ s.log → Copies n s n t
  none_copied n s t e = record {
    records = [];
    grown = ap copies e ∙ sym (append-nil (copies s.log));
    told = ap consumed e ∙ sym (append-nil (consumed s.log));
    counted = omega arith;
    fit = omega arith;
  }

  Copies-trans : (n m k : ℕ) (s t u : Sys E) → Copies n s m t → Copies m t k u → Copies n s k u
  Copies-trans n m k s t u p q = record {
    records = p.records ++ q.records;
    grown =
        q.grown
        ∙ ap (λ l. l ++ q.records) p.grown
        ∙ append_assoc (copies s.log) p.records q.records;
    told =
        q.told
        ∙ ap (λ l. l ++ map length q.records) p.told
        ∙ append_assoc (consumed s.log) (map length p.records) (map length q.records)
        ∙ ap (λ l. consumed s.log ++ l) (sym (map-append p.records q.records));
    counted = omega (arith, p.counted, q.counted, total-append p.records q.records);
    fit = Fits-append size p.records q.records p.fit q.fit;
  }

  Closed : ℕ → Sys E → Closing E → Type 0
  Closed n s (returns m t) = Copies n s m t
  Closed n s (goes_on m t) = Copies n s m t

  one_copied :
      (n : ℕ) (s : Sys E) (bytes : List ℕ)
      → fits b h size bytes ≡ true
      → Copies n s (n + length bytes) (copied b h size s bytes)
  unfolding fits copied
  one_copied n s bytes f = record {
    records = bytes ∷ [];
    grown = refl;
    told = refl;
    counted = omega arith;
    fit = (ground arith, omega arith);
  }

  not_copied : (n : ℕ) (s : Sys E) (bytes : List ℕ) → Copies n s n (emit s (write_copy bytes false))
  unfolding emit
  not_copied n s bytes = record {
    records = [];
    grown = sym (append-nil (copies s.log));
    told = sym (append-nil (consumed s.log));
    counted = omega arith;
    fit = omega arith;
  }

  -- A step that leaves the log before it, and steps one after the other.
  moved : (n : ℕ) (s t : Sys E) (c : Closing E) → t.log ≡ s.log → Closed n t c → Closed n s c
  unfolding Closed
  moved n s t (returns m u) e p = Copies-trans n n m s t u (none_copied n s t e) p
  moved n s t (goes_on m u) e p = Copies-trans n n m s t u (none_copied n s t e) p

  onward : (n m : ℕ) (s t : Sys E) (c : Closing E) → Copies n s m t → Closed m t c → Closed n s c
  unfolding Closed
  onward n m s t (returns k u) p q = Copies-trans n m k s t u p q
  onward n m s t (goes_on k u) p q = Copies-trans n m k s t u p q

  write_out-Closed : (n : ℕ) (s : Sys E) → Closed n s (write_out b h size n s)
  unfolding write_out Closed
  write_out-Closed n s =
      let bytes = b.sendrec_buf s.eng in
      let went = goes_on (n + length bytes) (copied b h size s bytes) in
      let stopped = returns n (emit s (write_copy bytes false)) in
      if_holds (Closed n s) (fits b h size bytes) (if h.accepts s.log bytes then went else stopped)
        (goes_on n s)
        (λ f.
          if_holds (Closed n s) (h.accepts s.log bytes) went stopped (λ _. one_copied n s bytes f)
            (λ _. not_copied n s bytes))
        (λ _. none_copied n s s refl)

  flush_data-Closed : (s : Sys E) → Closed 0 s (flush_data b h size s)
  unfolding flush_data Closed
  flush_data-Closed s =
      let t = record s { eng = b.flush s.eng } in
      if_holds (Closed 0 s) (b.current_state s.eng).sendapp (write_out b h size 0 t) (goes_on 0 s)
        (λ _. moved 0 s t (write_out b h size 0 t) refl (write_out-Closed 0 t))
        (λ _. none_copied 0 s s refl)

  clear-Closed :
      (n : ℕ) (s : Sys E) (c : Closing E) → Closed n s c → Closed n s (clear_deferred b h size c)
  unfolding clear_deferred Closed
  clear-Closed n s (returns m t) p = p
  clear-Closed n s (goes_on m t) p = Copies-trans n m m s t _ p (none_copied m t _ refl)

  here : (n : ℕ) (s : Sys E) (m : ℕ) (t : Sys E) → Closed n s (goes_on m t) → Copies n s m t
  unfolding Closed
  here n s m t p = p

  drain-Closed :
      (n : ℕ) (s : Sys E) (c : Closing E) → Closed n s c → Closed n s (drain_deferred b h size c)
  unfolding drain_deferred
  drain-Closed n s (returns m t) p = p
  drain-Closed n s (goes_on m t) p =
      let w = write_out b h size m t in
      let q = onward n m s t w (here n s m t p) (write_out-Closed m t) in
      let chosen = if fits b h size (b.sendrec_buf t.eng) then clear_deferred b h size w else w in
      if_holds (Closed n s) (b.current_state t.eng).sendrec chosen (goes_on m t)
        (λ _.
          if_holds (Closed n s) (fits b h size (b.sendrec_buf t.eng)) (clear_deferred b h size w) w
            (λ _. clear-Closed n s w q) (λ _. q))
        (λ _. p)

  Counted : Sys E → ℕ × Sys E → Type 0
  Counted s r = Copies 0 s r.0 r.1

  notify-Closed : (s : Sys E) (c : Closing E) → Closed 0 s c → Counted s (notify_written b h size c)
  unfolding notify_written emit Counted Closed
  notify-Closed s (returns m t) p = p
  notify-Closed s (goes_on m t) p = record {
    records = p.records;
    grown = p.grown;
    told = p.told;
    counted = p.counted;
    fit = p.fit;
  }

  close_notify-Closed :
      (s : Sys E) (c : Closing E) → Closed 0 s c → Counted s (close_notify b h size c)
  unfolding close_notify Counted Closed
  close_notify-Closed s (returns m t) p = p
  close_notify-Closed s (goes_on m t) p =
      let u = record t { eng = b.close t.eng } in
      let q : Copies 0 s m u = Copies-trans 0 m m s t u (here 0 s m t p) (none_copied m t u refl) in
      if_holds (Counted s) (fits b h size (b.sendrec_buf u.eng))
        (notify_written b h size (write_out b h size m u)) (m, u)
        (λ _. notify-Closed s (write_out b h size m u) (onward 0 m s u _ q (write_out-Closed m u)))
        (λ _. q)

  -- The result of `tcp_ssl_close` is the number of bytes of the records that TCP took from it, in
  -- order; the engine was told of exactly these that they are sent; and none is longer than an
  -- output buffer.
  pub tcp_ssl_close-Copies :
      (s : Sys E) → Copies 0 s (tcp_ssl_close b h size s).0 (tcp_ssl_close b h size s).1
  unfolding tcp_ssl_close Counted
  tcp_ssl_close-Copies s =
      let later = close_notify b h size (drain_deferred b h size (flush_data b h size s)) in
      if_holds (Counted s) (b.current_state s.eng).closed (0, s) later (λ _. none_copied 0 s s refl)
        (λ _. close_notify-Closed s _ (drain-Closed 0 s _ (flush_data-Closed s)))
