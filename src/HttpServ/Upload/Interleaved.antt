-- ===== src/HttpServ/Upload/Interleaved.antt =====
-- Arrivals and the steps of the action thread, in any order.
use http2serv.Prelude.{
  ℕ, suc, zero, ◌-◌, ◌^◌, ◌≤◌, ◌<◌, ◌≡◌, refl, sym, ap, ◌∙◌, arith, min, Bool-cases, true, false,
  ltb, ◌==◌, ◌||◌, Bool, inl, inr, if◌then◌else◌, not, ◌&&◌,
}
use http2serv.Prelude.{List, [], ◌∷◌, ◌++◌, length, take}
use mathlib.Core.List.{append-nil}
use mathlib.Core.Path.{subst}
use http2serv.HttpServ.Upload.{
  Block, Upload, put_end, take_bytes, first_bytes, end_body, receive_body, begin_body, append_data,
  pop_block, next_len, hand_over, hand_overs, Uploads, begins, arrives, hands_over,
}
use http2serv.HttpServ.Upload.Blocks.{block_text, text, IsOngoing, IsEnded}
use http2serv.HttpServ.Upload.Delivers.{
  delivered, IsOpen, IsComplete, Delivers, Before, take_bytes-Took, first_bytes-Took,
  end_body-Delivers,
}
use http2serv.HttpServ.Upload.Rounds.{
  pop_block-delivered, pop_block_keeps, pop_block-IsOngoing, pop_block-IsEnded, whole_round,
}

module _ (total : ℕ) (stream : List ℕ) (quits : Bool) (taken : ℕ) where
  hand_over_goes :
      (s : Upload)
      → s.at_end ≡ false
      → s.left ≡ false
      → hand_over quits taken s ≡ pop_block quits taken s.req_data s
  unfolding hand_over
  hand_over_goes s e k =
      ap (λ b. if b then s else pop_block quits taken s.req_data s) (ap (λ b. b || s.left) e ∙ k)

  hand_over_stays : (s : Upload) → s.at_end || s.left ≡ true → hand_over quits taken s ≡ s
  unfolding hand_over
  hand_over_stays s e = ap (λ b. if b then s else pop_block quits taken s.req_data s) e

  hand_over-Delivers :
      (s : Upload)
      → Delivers total stream s
      → s.at_end ≡ false
      → s.left ≡ false
      → Delivers total stream (hand_over quits taken s)
  hand_over-Delivers s d go k =
      subst (Delivers total stream) (sym (hand_over_goes s go k)) (elim d [
        | inl h ↦
            let same = pop_block_keeps quits taken s.req_data s in
            let queue = pop_block-IsOngoing quits taken s.req_data s refl h.ongoing in
            inl (record {
              soll = same.0 ∙ h.soll;
              count = same.1 ∙ h.count;
              less = h.less;
              none_left = same.2 ∙ h.none_left;
              ongoing = queue.0;
              not_at_end = queue.1 ∙ h.not_at_end;
              all = λ stays. pop_block-delivered quits taken s.req_data s refl stays ∙ h.all k;
            })
        | inr h ↦
            let same = pop_block_keeps quits taken s.req_data s in
            inr (record {
              reset = (same.0 ∙ h.reset.0, same.1 ∙ h.reset.1);
              enough = h.enough;
              left = same.2 ∙ h.left;
              one_end = elim h.one_end [
                | inl (ended, open_end) ↦ pop_block-IsEnded quits taken s.req_data s ended go k
                | inr (empty, over, stays) ↦ let no : false ≡ true = sym go ∙ over in cc
              ];
              all = λ stays. pop_block-delivered quits taken s.req_data s refl stays ∙ h.all k;
            })
      ])

  hand_over-keeps :
      (s : Upload) → Delivers total stream s → Delivers total stream (hand_over quits taken s)
  hand_over-keeps s d = elim (Bool-cases s.at_end) [
    | inl over ↦
        subst (Delivers total stream) (sym (hand_over_stays s (ap (λ b. b || s.left) over))) d
    | inr go ↦ elim (Bool-cases s.left) [
      | inl gone ↦
          subst (Delivers total stream) (sym (hand_over_stays s (ap (λ b. b || s.left) go ∙ gone)))
            d
      | inr k ↦ hand_over-Delivers s d go k
    ]
  ]

begin_body-Delivers :
    (total : ℕ) (s : Upload)
    → s.req_data ≡ []
    → s.content_recv ≡ 0
    → s.handed ≡ []
    → s.at_end ≡ false
    → s.left ≡ false
    → length s.str_buffer < 2 ^ 32
    → Delivers total s.str_buffer (begin_body total s)
unfolding begin_body put_end delivered text IsOngoing IsEnded block_text
begin_body-Delivers zero s empty none_yet nothing go k short = inr (record {
  reset = (refl, none_yet);
  enough = omega arith;
  left = refl;
  one_end = inl (rw empty refl, go);
  all = λ stays. rw (empty, nothing) refl;
})
begin_body-Delivers (suc k) s empty none_yet nothing go m short =
    let n = min (length s.str_buffer) (suc k) in
    let marked = record (put_end s) { contents_soll = suc k; req_data = [] } in
    let before : Before (suc k) [] marked = record {
      soll = refl;
      count = none_yet;
      less = omega arith;
      ongoing = tt;
      not_at_end = go;
      all = λ stays. rw nothing refl;
    } in
    rw (lt_test k) (
      end_body-Delivers (suc k) [] marked (first_bytes n marked) n before
        (first_bytes-Took n marked none_yet short) (omega arith))
  where
    lt_test : (k : ℕ) → ltb 0 (suc k) ≡ true
    lt_test k = ground arith

receive_body-Delivers :
    (total : ℕ) (stream bytes : List ℕ) (s : Upload)
    → IsOpen total stream s
    → length bytes < 2 ^ 32
    → Delivers total (stream ++ bytes) (receive_body (append_data bytes s))
unfolding receive_body append_data delivered
receive_body-Delivers total stream bytes s h short =
    let next = record s { str_buffer = s.str_buffer ++ bytes } in
    let n = min (length next.str_buffer) (s.contents_soll - s.content_recv) in
    let same : s.str_buffer ++ bytes ≡ bytes = ap (λ l. l ++ bytes) h.none_left in
    let before : Before total stream next = record {
      soll = h.soll;
      count = h.count;
      less = h.less;
      ongoing = h.ongoing;
      not_at_end = h.not_at_end;
      all = h.all;
    } in
    let goes : not (s.contents_soll == 0) && ltb s.content_recv s.contents_soll ≡ true =
      ground (arith, h.soll, h.count, h.less) in
    rw goes (
      subst (λ l. Delivers total (stream ++ l) (end_body (take_bytes n next))) same
        (end_body-Delivers total stream next (take_bytes n next) n before
          (take_bytes-Took n next (omega (arith, short, ap length same)))
          (omega (arith, h.soll, h.count))))

-- The queue and the thread together deliver the body. However arrivals and rounds of the thread
-- alternate: as long as fewer bytes have arrived than the field content-length says, the queue has no
-- end, the counts are those of what arrived and the buffer is empty; from then on the queue or the thread
-- has one end, the counts are 0, and what follows the body is in the buffer. Unless the thread has left the
-- loop, by a stop, a reset or a program that did not take a whole block, what the program was given
-- followed by what is queued is all that arrived, or then the first `total` bytes of it.
pub Uploads-Delivers :
    (total : ℕ) (stream : List ℕ) (s : Upload) → Uploads total stream s → Delivers total stream s
Uploads-Delivers total stream s (begins first empty none_yet nothing go k short) =
    begin_body-Delivers total first empty none_yet nothing go k short
Uploads-Delivers total stream s (arrives {stream = before} {s = last} run bytes more short) =
    elim (Uploads-Delivers total before last run) [
      | inl h ↦ receive_body-Delivers total before bytes last h short
      | inr h ↦ absurd (more h.reset.0)
    ]
Uploads-Delivers total stream s (hands_over {stream = before} {s = last} run quits taken) =
    hand_over-keeps total before quits taken last (Uploads-Delivers total before last run)

complete-hands :
    (total : ℕ) (stream : List ℕ) (s : Upload)
    → IsComplete total stream s
    → s.at_end ≡ true
    → s.handed ≡ take total stream
unfolding delivered text
complete-hands total stream s h over = elim h.one_end [
  | inl (ended, go) ↦ let no : false ≡ true = sym go ∙ over in cc
  | inr (empty, at_end, stays) ↦
      sym (ap (λ q. s.handed ++ text q) empty ∙ append-nil s.handed) ∙ h.all stays
]

-- What the program has when the thread finds the end is the body: the first `total` bytes that arrived.
pub Uploads-hands_all :
    (total : ℕ) (stream : List ℕ) (s : Upload)
    → Uploads total stream s
    → s.at_end ≡ true
    → (s.handed ≡ take total stream) × (total ≤ length stream)
Uploads-hands_all total stream s run over = elim (Uploads-Delivers total stream s run) [
  | inl h ↦ let no : false ≡ true = sym h.not_at_end ∙ over in cc
  | inr h ↦ (complete-hands total stream s h over, h.enough)
]

hand_overs-IsComplete :
    (total : ℕ) (stream : List ℕ) (q : List Block) (s : Upload)
    → s.req_data ≡ q
    → s.left ≡ false
    → Delivers total stream s
    → total ≤ length stream
    → Delivers total stream (hand_overs (length q) s) × ((hand_overs (length q) s).at_end ≡ true)
unfolding hand_overs IsEnded
hand_overs-IsComplete total stream q s e k (inl h) enough =
    let no : ⊥ = omega (arith, h.less, enough) in absurd no
hand_overs-IsComplete total stream [] s e k (inr h) enough = elim h.one_end [
  | inl (ended, go) ↦ absurd (subst IsEnded e ended)
  | inr (empty, over, stays) ↦ (inr h, over)
]
hand_overs-IsComplete total stream (b ∷ rest) s e k (inr h) enough = elim h.one_end [
  | inl (ended, go) ↦
      let n = next_len s.req_data in
      let next = hand_over false n s in
      let same : next ≡ pop_block false (next_len (b ∷ rest)) (b ∷ rest) s =
        hand_over_goes total stream false n s go k ∙ ap (λ q. pop_block false (next_len q) q s) e in
      let round = whole_round b rest s k in
      hand_overs-IsComplete total stream rest next (ap (λ t. t.req_data) same ∙ round.0)
        (ap (λ t. t.left) same ∙ round.1) (hand_over-Delivers total stream false n s (inr h) go k)
        enough
  | inr (empty, over, stays) ↦ let no : b ∷ rest ≡ [] = sym e ∙ empty in cc
]

-- Once the body has arrived, and the thread has not left the loop, one round for each entry of the queue
-- brings it to the end, with the first `total` bytes handed over, if nothing ends the loop before and the
-- program takes every block.
pub Uploads-Ends :
    (total : ℕ) (stream : List ℕ) (s : Upload)
    → Uploads total stream s
    → total ≤ length stream
    → s.left ≡ false
    → ((hand_overs (length s.req_data) s).at_end ≡ true)
      × ((hand_overs (length s.req_data) s).handed ≡ take total stream)
Uploads-Ends total stream s run enough k =
    let done =
      hand_overs-IsComplete total stream s.req_data s refl k (Uploads-Delivers total stream s run)
        enough in
    (
      done.1,
      elim done.0 [
        | inl h ↦ let no : ⊥ = omega (arith, h.less, enough) in absurd no
        | inr h ↦ complete-hands total stream (hand_overs (length s.req_data) s) h done.1
      ],
    )
