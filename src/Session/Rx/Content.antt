-- ===== src/Session/Rx/Content.antt =====
-- The bytes that the receive buffer stands for, and the invariant of its numbers.
use async_tcp.Prelude.{
  ℕ, ◌+◌, ◌-◌, ◌≤◌, ◌≡◌, refl, ◌&&◌, List, ◌++◌, ◌⊎◌, inl, inr, arith, ltb, length, take, drop,
  length-append, length-take, length-drop, take-append, take-append_more, drop-append_le, drop-take,
  Bool-cases,
}
use async_tcp.Session.Rx.{Bio, rx_buf_max, compact, put}

-- The block has the size on record, `pos` ≤ `len` ≤ capacity, and the capacity is under the cap.
pub record IsValid (b : Bio) : Type 0 where
  pub size : length b.buf ≡ b.capacity
  pub pos_le : b.pos ≤ b.len
  pub len_le : b.len ≤ b.capacity
  pub capped : b.capacity ≤ rx_buf_max

-- The unread bytes.
abbrev pub content : Bio → List ℕ
content b = take (b.len - b.pos) (drop b.pos b.buf)

pub length-content : (b : Bio) → IsValid b → length (content b) ≡ b.len - b.pos
length-content b v =
    omega (arith, length-take (b.len - b.pos) (drop b.pos b.buf), length-drop b.pos b.buf)

moved_length : (b : Bio) → IsValid b → length (content b ++ drop (b.len - b.pos) b.buf) ≡ b.capacity
moved_length b v = omega (
  arith,
  length-append (content b) (drop (b.len - b.pos) b.buf),
  length-content b v,
  length-drop (b.len - b.pos) b.buf,
)

pub compact-content : (b : Bio) (n : ℕ) → IsValid b → content (compact b n) ≡ content b
unfolding compact
compact-content b n v = elim (Bool-cases (ltb (b.capacity - b.len) n && ltb 0 b.pos)) [
  | inr stays ↦ rw stays
  | inl moves ↦ rw moves (elim (Bool-cases (ltb 0 (b.len - b.pos))) [
    | inl some_left ↦
        let e : (b.len - b.pos) - 0 ≡ b.len - b.pos = omega arith in
        rw (some_left, e)
          (take-append (b.len - b.pos) (content b) (drop (b.len - b.pos) b.buf)
            (length-content b v))
    | inr empty ↦ let e : b.len - b.pos ≡ 0 = ground arith in rw (empty, e)
  ])
]

pub compact-IsValid : (b : Bio) (n : ℕ) → IsValid b → IsValid (compact b n)
unfolding compact
compact-IsValid b n v = ground (arith, moved_length b v)

-- After compaction the bytes start at 0, or the tail has the room asked for.
pub compact_room :
    (b : Bio) (n : ℕ)
    → IsValid b
    → ((compact b n).pos ≡ 0) ⊎ ((compact b n).len + n ≤ (compact b n).capacity)
unfolding compact
compact_room b n v = ground arith

module _ (b : Bio) (bytes : List ℕ) where
  pub put-IsValid : IsValid b → b.len + length bytes ≤ b.capacity → IsValid (put b bytes)
  unfolding put
  put-IsValid v room = record {
    size = omega (
      arith,
      length-append (take b.len b.buf) (bytes ++ drop (b.len + length bytes) b.buf),
      length-append bytes (drop (b.len + length bytes) b.buf),
      length-take b.len b.buf,
      length-drop (b.len + length bytes) b.buf,
    );
    pos_le = omega arith;
    len_le = room;
    capped = v.capped;
  }

  -- Appending at `len` appends to the unread bytes.
  pub put-content :
      b.pos ≤ b.len → b.len ≤ length b.buf → content (put b bytes) ≡ content b ++ bytes
  unfolding put
  put-content pos_le len_le =
      let kept = take b.len b.buf in
      let rest = drop (b.len + length bytes) b.buf in
      let size : (b.len + length bytes) - b.pos ≡ (b.len - b.pos) + length bytes = omega arith in
      let front : length kept ≡ b.len = omega (arith, length-take b.len b.buf) in
      let unread : length (content b) ≡ b.len - b.pos =
        omega (arith, length-take (b.len - b.pos) (drop b.pos b.buf), length-drop b.pos b.buf) in
      rw (
        size,
        drop-append_le b.pos kept (bytes ++ rest) (omega arith),
        drop-take b.pos b.len b.buf,
        take-append_more (b.len - b.pos) (length bytes) (content b) (bytes ++ rest) unread,
        take-append (length bytes) bytes rest refl,
      )
