-- ===== src/Session/Rx/Feed.antt =====
-- `feedRxData` and `read` against the unread bytes.
use async_tcp.Prelude.{
  ℕ, ◌+◌, ◌-◌, ◌≤◌, ◌<◌, ◌≡◌, refl, ap, ◌∙◌, sym, Bool, true, false, none, some, List, [], ◌++◌,
  ◌⊎◌, ◌≢◌, inl, inr, arith, ltb, leb, length, take, drop, min, length-take, length-drop,
  take-append-drop, take-take_le, drop-take, drop-drop, Bool-cases, Option-cases, append-nil,
  eq_nil, ◌==◌, if◌then◌else◌,
}
use async_tcp.Session.Rx.{Bio, Allocator, rx_buf_max, compact, put, store, feed, take_out, advance}
use async_tcp.Session.Rx.Content.{
  IsValid, content, length-content, compact-content, compact-IsValid, put-IsValid, put-content,
}

-- What an accepted or a refused chunk leaves behind: an accepted one stands behind the unread
-- bytes, a refused one changes nothing that is unread.
pub record Fed (b : Bio) (bytes : List ℕ) (r : Bool × Bio) : Type 0 where
  pub valid : IsValid r.1
  pub accepted : r.0 ≡ true → content r.1 ≡ content b ++ bytes
  pub refused : r.0 ≡ false → content r.1 ≡ content b

module _ (a : Allocator) (b : Bio) (bytes : List ℕ) where
  grown : List ℕ → Bio
  grown newbuf = record b { buf = newbuf; capacity = b.len + length bytes }

  grown-content :
      (newbuf : List ℕ)
      → IsValid b
      → a.realloc b.buf (b.len + length bytes) ≡ some newbuf
      → content (grown newbuf) ≡ content b
  unfolding grown
  grown-content newbuf v e =
      let need = b.len + length bytes in
      let kept = min (length b.buf) need in
      let front : take b.len newbuf ≡ take b.len b.buf =
        sym (take-take_le b.len kept newbuf (omega arith))
        ∙ ap (take b.len) (a.realloc_keeps b.buf need newbuf e)
        ∙ take-take_le b.len need b.buf (omega arith) in
      sym (drop-take b.pos b.len newbuf) ∙ ap (drop b.pos) front ∙ drop-take b.pos b.len b.buf

  grown-Fed :
      (newbuf : List ℕ)
      → IsValid b
      → a.realloc b.buf (b.len + length bytes) ≡ some newbuf
      → b.len + length bytes ≤ rx_buf_max
      → Fed b bytes (true, put (grown newbuf) bytes)
  unfolding grown
  grown-Fed newbuf v e cap =
      let size = a.realloc_size b.buf (b.len + length bytes) newbuf e in
      let g : IsValid (grown newbuf) = record {
        size = size;
        pos_le = v.pos_le;
        len_le = omega arith;
        capped = cap;
      } in
      record {
        valid = put-IsValid (grown newbuf) bytes g (omega arith);
        accepted = λ _.
            put-content (grown newbuf) bytes v.pos_le (omega arith)
            ∙ ap (λ bs. bs ++ bytes) (grown-content newbuf v e);
        refused = λ h. cc;
      }

  store-Fed : IsValid b → Fed b bytes (store a b bytes)
  unfolding store grown
  store-Fed v = elim (Bool-cases (ltb rx_buf_max (b.len + length bytes))) [
    | inl over ↦ rw over (record { valid = v; accepted = λ h. cc; refused = λ _. refl })
    | inr under ↦ rw under (elim (Bool-cases (ltb (b.capacity - b.len) (length bytes))) [
      | inr roomy ↦ rw roomy (record {
        valid = put-IsValid b bytes v (ground arith);
        accepted = λ _. put-content b bytes v.pos_le (omega arith);
        refused = λ h. cc;
      })
      | inl tight ↦ rw tight (elim (Option-cases (a.realloc b.buf (b.len + length bytes))) [
        | inl e ↦ rw e (record { valid = v; accepted = λ h. cc; refused = λ _. refl })
        | inr (newbuf, e) ↦ rw e (grown-Fed newbuf v e (ground arith))
      ])
    ])
  ]

module _ (a : Allocator) (b : Bio) (bytes : List ℕ) (v : IsValid b) where
  from_compact : Fed b bytes (store a (compact b (length bytes)) bytes)
  from_compact =
      let c = compact b (length bytes) in
      let same = compact-content b (length bytes) v in
      let f = store-Fed a c bytes (compact-IsValid b (length bytes) v) in
      record {
        valid = f.valid;
        accepted = λ h. f.accepted h ∙ ap (λ bs. bs ++ bytes) same;
        refused = λ h. f.refused h ∙ same;
      }

  -- Every byte accepted stands behind the unread ones, in order; a refusal loses none.
  pub feed-Fed : Fed b bytes (feed a b bytes)
  unfolding feed
  feed-Fed = elim (Bool-cases (length bytes == 0)) [
    | inl empty ↦
        let e : bytes ≡ [] = eq_nil bytes (ground arith) in
        rw empty (record {
          valid = v;
          accepted = λ _. sym (ap (λ bs. content b ++ bs) e ∙ append-nil (content b));
          refused = λ _. refl;
        })
    | inr more ↦ rw more from_compact
  ]

module _ (a : Allocator) (b : Bio) (bytes : List ℕ) where
  store_refused :
      (store a b bytes).0 ≡ false
      → (rx_buf_max < b.len + length bytes)
        ⊎ ((old : List ℕ) × (need : ℕ) × (need ≤ rx_buf_max) × (a.realloc old need ≡ none))
  unfolding store
  store_refused h = elim (Bool-cases (ltb rx_buf_max (b.len + length bytes))) [
    | inl over ↦ inl (ground arith)
    | inr under ↦ elim (Option-cases (a.realloc b.buf (b.len + length bytes))) [
      | inl e ↦ inr (b.buf, b.len + length bytes, ground arith, e)
      | inr (newbuf, e) ↦ absurd (ground arith)
    ]
  ]

compact_over :
    (b : Bio) (bytes : List ℕ)
    → IsValid b
    → length bytes ≢ 0
    → rx_buf_max < (compact b (length bytes)).len + length bytes
    → rx_buf_max < length (content b) + length bytes
unfolding compact
compact_over b bytes v more h = ground (arith, length-content b v)

module _ (a : Allocator) (b : Bio) (bytes : List ℕ) where
  -- A chunk is refused only for want of room under the cap, or of memory.
  pub feed_refused :
      IsValid b
      → (feed a b bytes).0 ≡ false
      → (rx_buf_max < length (content b) + length bytes)
        ⊎ ((old : List ℕ) × (need : ℕ) × (need ≤ rx_buf_max) × (a.realloc old need ≡ none))
  unfolding feed
  feed_refused v h = elim (Bool-cases (length bytes == 0)) [
    | inl empty ↦ absurd (ground arith)
    | inr more ↦ elim (store_refused a (compact b (length bytes)) bytes (ground arith)) [
      | inl over ↦ inl (compact_over b bytes v (ground arith) over)
      | inr starved ↦ inr starved
    ]
  ]

  -- Past the cap it is always refused.
  pub feed_over_cap :
      IsValid b → rx_buf_max < length (content b) + length bytes → (feed a b bytes).0 ≡ false
  unfolding feed store compact
  feed_over_cap v h = ground (arith, length-content b v)

module _ (b : Bio) (v : IsValid b) where
  advance-content :
      (n : ℕ) → n ≤ b.len - b.pos → take n (drop b.pos b.buf) ++ content (advance b n) ≡ content b
  unfolding advance
  advance-content n h = elim (Bool-cases (leb b.len (b.pos + n))) [
    | inl last ↦ let e : n ≡ b.len - b.pos = ground arith in rw (last, e) (append-nil (content b))
    | inr more ↦
        let e : b.len - (b.pos + n) ≡ (b.len - b.pos) - n = omega arith in
        let front : take n (drop b.pos b.buf) ≡ take n (content b) =
          sym (take-take_le n (b.len - b.pos) (drop b.pos b.buf) h) in
        let back : take (b.len - (b.pos + n)) (drop (b.pos + n) b.buf) ≡ drop n (content b) =
          rw (e, ← drop-drop n b.pos b.buf)
            (sym (drop-take n (b.len - b.pos) (drop b.pos b.buf))) in
        rw (more, front, back) (take-append-drop n (content b))
  ]

  advance-IsValid : (n : ℕ) → IsValid (advance b n)
  unfolding advance
  advance-IsValid n = ground arith

  -- From a buffer in order `read` takes min(n, unread) bytes off the front of the unread ones, and
  -- leaves it in order.
  pub take_out-content :
      (n : ℕ)
      → ((take_out b n).0 ++ content (take_out b n).1 ≡ content b)
        × (length (take_out b n).0 ≡ min n (length (content b)))
        × IsValid (take_out b n).1
  unfolding take_out
  take_out-content n = elim (Bool-cases (leb b.len b.pos)) [
    | inl none_left ↦
        let e : length (content b) ≡ 0 = ground (arith, length-content b v) in
        rw none_left (refl, omega (arith, e), v)
    | inr left ↦
        let copy = (if ltb (b.len - b.pos) n then b.len - b.pos else n) in
        let bound : copy ≤ b.len - b.pos = ground arith in
        rw left (
          advance-content copy bound,
          ground (
            arith,
            length-take copy (drop b.pos b.buf),
            length-drop b.pos b.buf,
            length-content b v,
          ),
          advance-IsValid copy,
        )
  ]
