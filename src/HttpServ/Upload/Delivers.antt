-- ===== src/HttpServ/Upload/Delivers.antt =====
-- What is delivered to the action thread, before and after a block is put into vecReqData.
use http2serv.Prelude.{
  ℕ, ◌+◌, ◌-◌, ◌^◌, ◌≤◌, ◌<◌, ◌≡◌, ◌≢◌, refl, sym, ap, ◌∙◌, arith, min, true, false, ltb, ◌==◌, ◌⊎◌,
  inl, inr, Bool-cases,
}
use http2serv.Prelude.{none, List, [], ◌∷◌, ◌++◌, length, take, drop, length-append, length-take}
use mathlib.Core.List.{append_assoc, append-nil}
use http2serv.HttpServ.Upload.{
  new_block, Upload, put_block, put_end, take_bytes, first_bytes, end_body,
}
use http2serv.HttpServ.Upload.Blocks.{
  block_text, text, IsOngoing, IsEnded, text-append, take_all, drop_all, take-past, drop-past,
  text-new_block, append-IsOngoing, append-IsEnded,
}

-- The bytes that the thread has or finds in the queue.
unfoldable pub delivered : Upload → List ℕ
delivered s = s.handed ++ text s.req_data

-- More of the body is to come: all that arrived is delivered, unless the thread has left.
pub record IsOpen (total : ℕ) (stream : List ℕ) (s : Upload) : Type 0 where
  pub soll : s.contents_soll ≡ total
  pub count : s.content_recv ≡ length stream
  pub less : length stream < total
  pub none_left : s.str_buffer ≡ []
  pub ongoing : IsOngoing s.req_data
  pub not_at_end : s.at_end ≡ false
  pub all : s.left ≡ false → delivered s ≡ stream

-- The body is complete: its bytes are delivered, unless the thread has left, with one end, and the rest is
-- in the buffer.
pub record IsComplete (total : ℕ) (stream : List ℕ) (s : Upload) : Type 0 where
  pub reset : (s.contents_soll ≡ 0) × (s.content_recv ≡ 0)
  pub enough : total ≤ length stream
  pub left : s.str_buffer ≡ drop total stream
  pub one_end :
      (IsEnded s.req_data × (s.at_end ≡ false))
      ⊎ ((s.req_data ≡ []) × (s.at_end ≡ true) × (s.left ≡ false))
  pub all : s.left ≡ false → delivered s ≡ take total stream

abbrev pub Delivers : ℕ → List ℕ → Upload → Type 0
Delivers total stream s = IsOpen total stream s ⊎ IsComplete total stream s

-- A block of `n` bytes has gone from the buffer to the queue.
pub record Took (n : ℕ) (s t : Upload) : Type 0 where
  pub rest : t.str_buffer ≡ drop n s.str_buffer
  pub count : t.content_recv ≡ s.content_recv + n
  pub soll : t.contents_soll ≡ s.contents_soll
  pub not_at_end : t.at_end ≡ s.at_end
  pub left_same : t.left ≡ s.left
  pub ongoing : IsOngoing s.req_data → IsOngoing t.req_data
  pub more : delivered t ≡ delivered s ++ take n s.str_buffer

put_block-delivered :
    (n : ℕ) (s : Upload)
    → length s.str_buffer < 2 ^ 32
    → delivered (put_block n s) ≡ delivered s ++ take n s.str_buffer
unfolding delivered put_block
put_block-delivered n s h =
    let bytes = take n s.str_buffer in
    ap (λ l. s.handed ++ l) (text-append s.req_data (new_block bytes ∷ []))
    ∙ sym (append_assoc s.handed (text s.req_data) (text (new_block bytes ∷ [])))
    ∙ ap (λ l. (s.handed ++ text s.req_data) ++ l)
        (text-new_block bytes (omega (arith, h, length-take n s.str_buffer)))

put_block-Took :
    (n m : ℕ) (s : Upload)
    → m ≡ s.content_recv + n
    → length s.str_buffer < 2 ^ 32
    → Took n s (record (put_block n s) { content_recv = m })
unfolding put_block delivered
put_block-Took n m s e h = record {
  rest = refl;
  count = e;
  soll = refl;
  not_at_end = refl;
  left_same = refl;
  ongoing = λ o. append-IsOngoing s.req_data (take n s.str_buffer) o;
  more = put_block-delivered n s h;
}

nothing-Took : (n : ℕ) (s : Upload) → n ≡ 0 → Took n s s
nothing-Took n s e = record {
  rest = sym (ap (λ k. drop k s.str_buffer) e);
  count = omega (arith, e);
  soll = refl;
  not_at_end = refl;
  left_same = refl;
  ongoing = λ o. o;
  more = sym (ap (λ k. delivered s ++ take k s.str_buffer) e ∙ append-nil (delivered s));
}

pub take_bytes-Took :
    (n : ℕ) (s : Upload) → length s.str_buffer < 2 ^ 32 → Took n s (take_bytes n s)
unfolding take_bytes
take_bytes-Took n s h = elim (Bool-cases (ltb 0 n)) [
  | inl some_bytes ↦ rw some_bytes (put_block-Took n (s.content_recv + n) s refl h)
  | inr no_bytes ↦ rw no_bytes (nothing-Took n s (ground (arith, no_bytes)))
]

pub first_bytes-Took :
    (n : ℕ) (s : Upload)
    → s.content_recv ≡ 0
    → length s.str_buffer < 2 ^ 32
    → Took n s (first_bytes n s)
unfolding first_bytes
first_bytes-Took n s e h = elim (Bool-cases (ltb 0 n)) [
  | inl some_bytes ↦ rw some_bytes (put_block-Took n n s (omega (arith, e)) h)
  | inr no_bytes ↦ rw no_bytes (nothing-Took n s (ground (arith, no_bytes)))
]

-- The state before a block is taken: `old` is delivered, and more of the body is to come.
pub record Before (total : ℕ) (old : List ℕ) (s : Upload) : Type 0 where
  pub soll : s.contents_soll ≡ total
  pub count : s.content_recv ≡ length old
  pub less : length old < total
  pub ongoing : IsOngoing s.req_data
  pub not_at_end : s.at_end ≡ false
  pub all : s.left ≡ false → delivered s ≡ old

pub put_end-delivered : (s : Upload) → delivered (put_end s) ≡ delivered s
unfolding delivered put_end text block_text
put_end-delivered s =
    ap (λ l. s.handed ++ l) (text-append s.req_data (none ∷ []) ∙ append-nil (text s.req_data))

-- The last block completes the body.
last_block :
    (total : ℕ) (old : List ℕ) (s t : Upload) (n : ℕ)
    → Before total old s
    → Took n s t
    → n ≤ length s.str_buffer
    → length old + n ≡ total
    → IsComplete total
        (old ++ s.str_buffer)
        (record (put_end t) { content_recv = 0; contents_soll = 0 })
unfolding put_end delivered
last_block total old s t n before took fits full = record {
  reset = (refl, refl);
  enough = omega (arith, fits, full, length-append old s.str_buffer);
  left =
      took.rest
      ∙ sym (ap (λ k. drop k (old ++ s.str_buffer)) (sym full) ∙ drop-past old s.str_buffer n);
  one_end = inl (
    append-IsEnded t.req_data (took.ongoing before.ongoing),
    took.not_at_end ∙ before.not_at_end,
  );
  all = λ stays.
      put_end-delivered t
      ∙ took.more
      ∙ ap (λ l. l ++ take n s.str_buffer) (before.all (sym took.left_same ∙ stays))
      ∙ sym (ap (λ k. take k (old ++ s.str_buffer)) (sym full) ∙ take-past old s.str_buffer n);
}

-- A block that is not the last empties the buffer.
more_to_come :
    (total : ℕ) (old : List ℕ) (s t : Upload) (n : ℕ)
    → Before total old s
    → Took n s t
    → n ≡ length s.str_buffer
    → length old + n < total
    → IsOpen total (old ++ s.str_buffer) t
more_to_come total old s t n before took same less = record {
  soll = took.soll ∙ before.soll;
  count = omega (arith, took.count, before.count, same, length-append old s.str_buffer);
  less = omega (arith, same, less, length-append old s.str_buffer);
  none_left = took.rest ∙ drop_all n s.str_buffer (omega (arith, same));
  ongoing = took.ongoing before.ongoing;
  not_at_end = took.not_at_end ∙ before.not_at_end;
  all = λ stays.
      took.more
      ∙ ap (λ l. l ++ take n s.str_buffer) (before.all (sym took.left_same ∙ stays))
      ∙ ap (λ l. old ++ l) (take_all n s.str_buffer (omega (arith, same)));
}

pub end_body-Delivers :
    (total : ℕ) (old : List ℕ) (s t : Upload) (n : ℕ)
    → Before total old s
    → Took n s t
    → n ≡ min (length s.str_buffer) (total - length old)
    → Delivers total (old ++ s.str_buffer) (end_body t)
unfolding end_body
end_body-Delivers total old s t n before took e =
    let sum : t.content_recv ≡ length old + n = omega (arith, took.count, before.count) in
    let soll : t.contents_soll ≡ total = took.soll ∙ before.soll in
    elim (Bool-cases (t.content_recv == t.contents_soll)) [
      | inl full ↦ rw full (
          inr (
            last_block total old s t n before took (omega (arith, e))
              (ground (arith, full, sum, soll))))
      | inr not_full ↦
          let other : length old + n ≢ total = ground (arith, not_full, sum, soll) in
          rw not_full (
            inl (
              more_to_come total old s t n before took (omega (arith, e, other, before.less))
                (omega (arith, e, other, before.less))))
    ]
