-- ===== src/WebSocket/Rounds.antt =====
-- What a round of OnDataReceivedWebSocket takes from its buffer.
use http2serv.Prelude.{ℕ, suc, ◌+◌, ◌-◌, ◌<◌, ◌≤◌, ◌≡◌, refl, arith, min, ◌⊎◌, inl, inr}
use http2serv.Prelude.{Bool, true, false, leb, ◌==◌, if◌then◌else◌, ◌||◌, ◌&&◌, Bool-cases}
use http2serv.Prelude.{List, [], ◌∷◌, ◌++◌, Option, none, some, length, take, drop, length-drop}
use http2serv.WebSocket.{Header, header_of, SocketParam}
use http2serv.WebSocket.Receive.{
  read_be, read_length, read_mask, new_frame, read_header, unmask, LoopRound, goes_on, strays,
  dispatch, binary_block, text_block, close_block, length_done, frame_done, take_block, loop_round,
}

-- Between two frames, or inside one.
abbrev pub IsOpen : SocketParam → Type 0
IsOpen st = (st.received < st.len) ⊎ ((st.len ≡ 0) × (st.received ≡ 0))

-- The opcodes whose case resets the length at the end of the frame.
unfoldable pub is_handled : ℕ → Bool
is_handled op = op == 0 || (op == 1 || (op == 2 || (op == 9 || op == 10)))

-- A frame that is complete and was not reset.
abbrev pub IsStuck : SocketParam → Type 0
IsStuck st = (0 < st.len) × (st.received ≡ st.len) × (is_handled st.st_header.op_code ≡ false)

-- What is read leaves no more than `n` bytes.
Shrinks : {X : Type 0} → ℕ → Option (X × ℕ × List ℕ) → Type 0
Shrinks n none = Unit
Shrinks n (some (x, m, rest)) = length rest ≤ n

Shrinks-if :
    {X : Type 0} (n : ℕ) (b : Bool) (o p : Option (X × ℕ × List ℕ))
    → Shrinks n o
    → Shrinks n p
    → Shrinks n (if b then o else p)
Shrinks-if n true o p h k = h
Shrinks-if n false o p h k = k

read_be-Shrinks : (k : ℕ) (rest : List ℕ) → Shrinks (length rest) (read_be k rest)
unfolding read_be Shrinks
read_be-Shrinks k rest =
    Shrinks-if (length rest) (leb k (length rest)) _ _ (omega (arith, length-drop k rest)) tt

read_length-Shrinks : (pload : ℕ) (rest : List ℕ) → Shrinks (length rest) (read_length pload rest)
unfolding read_length Shrinks
read_length-Shrinks pload rest =
    Shrinks-if (length rest) (pload == 126) _ _ (read_be-Shrinks 2 rest)
      (Shrinks-if (length rest) (pload == 127) _ _ (read_be-Shrinks 8 rest) (omega arith))

read_mask-Shrinks :
    (head : Header) (old rest : List ℕ) → Shrinks (length rest) (read_mask head old rest)
unfolding read_mask Shrinks
read_mask-Shrinks head old rest =
    Shrinks-if (length rest) (head.mask == 1) _ _
      (Shrinks-if (length rest) (leb 4 (length rest)) _ _ (omega (arith, length-drop 4 rest)) tt)
      (omega arith)

-- The state and the bytes behind the header.
record Begun (n : ℕ) (st : SocketParam) (rest : List ℕ) : Type 0 where
  is_within : st.received ≤ st.len
  advances : (length rest < n) ⊎ ((st.received < st.len) × (length rest ≤ n))

BegunIn : ℕ → Option (SocketParam × ℕ × List ℕ) → Type 0
BegunIn n none = Unit
BegunIn n (some (st, offset, rest)) = Begun n st rest

BegunIn-then :
    {X : Type 0} (n p : ℕ) (o : Option (X × ℕ × List ℕ))
    (k : X → ℕ → List ℕ → Option (SocketParam × ℕ × List ℕ))
    → Shrinks p o
    → ((x : X) (m : ℕ) (rest : List ℕ) → length rest ≤ p → BegunIn n (k x m rest))
    → BegunIn n (elim o [ none ↦ none | some (x, m, rest) ↦ k x m rest ])
unfolding Shrinks BegunIn
BegunIn-then n p none k h next = tt
BegunIn-then n p (some (x, m, rest)) k h next = next x m rest h

new_frame-BegunIn :
    (st : SocketParam) (buffer : List ℕ)
    → st.received ≡ 0
    → BegunIn (length buffer) (new_frame st buffer)
unfolding new_frame BegunIn Shrinks
new_frame-BegunIn st [] z = tt
new_frame-BegunIn st (b ∷ []) z = tt
new_frame-BegunIn st (b ∷ c ∷ rest) z =
    BegunIn-then (suc (suc (length rest))) (length rest) (read_length (header_of b c).pload rest) _
      (read_length-Shrinks (header_of b c).pload rest)
      (λ len more mid h.
        BegunIn-then (suc (suc (length rest))) (length mid) (read_mask (header_of b c) st.mask mid)
          _ (read_mask-Shrinks (header_of b c) st.mask mid)
          (λ mask key end k. record {
            is_within = omega (arith, z);
            advances = inl (omega (arith, h, k));
          }))

read_header-BegunIn :
    (st : SocketParam) (b : ℕ) (bs : List ℕ)
    → IsOpen st
    → BegunIn (length (b ∷ bs)) (read_header st (b ∷ bs))
unfolding read_header BegunIn
read_header-BegunIn st b bs (inl inside) =
    let e : (st.len == 0) ≡ false = ground (arith, inside) in
    rw e (record { is_within = omega (arith, inside); advances = inr (inside, omega arith) })
read_header-BegunIn st b bs (inr between) =
    let e : (st.len == 0) ≡ true = ground (arith, between) in
    rw e (new_frame-BegunIn st (b ∷ bs) between.1)

-- What the switch leaves: the bytes behind the block, and an open state if it handles the opcode.
unfoldable pub LeftBy : SocketParam → List ℕ → LoopRound → Type 0
LeftBy st rest strays = Unit
LeftBy st rest (goes_on next left events) =
    (left ≡ rest)
    × (((is_handled st.st_header.op_code ≡ true) × IsOpen next)
        ⊎ ((is_handled st.st_header.op_code ≡ false) × (next ≡ st)))

module _ (st : SocketParam) (rest : List ℕ) where
  LeftBy-if :
      (b : Bool) (x y : LoopRound)
      → (b ≡ true → LeftBy st rest x)
      → (b ≡ false → LeftBy st rest y)
      → LeftBy st rest (if b then x else y)
  LeftBy-if true x y h k = h refl
  LeftBy-if false x y h k = k refl

  module _ (h : st.received ≤ st.len) where
    done-IsOpen : IsOpen (if st.received == st.len then frame_done st else st)
    unfolding frame_done
    done-IsOpen = elim (Bool-cases (st.received == st.len)) [
      | inl e ↦ rw e (inr (refl, refl))
      | inr e ↦ rw e (inl (ground (arith, e, h)))
    ]

    binary_block-LeftBy :
        (block : List ℕ)
        → is_handled st.st_header.op_code ≡ true
        → LeftBy st rest (binary_block st block rest)
    unfolding binary_block LeftBy
    binary_block-LeftBy block e = (refl, inl (e, done-IsOpen))

    text_block-LeftBy :
        (block : List ℕ)
        → is_handled st.st_header.op_code ≡ true
        → LeftBy st rest (text_block st block rest)
    unfolding text_block LeftBy frame_done
    text_block-LeftBy block e =
        LeftBy-if (st.received == st.len) _ _
          (λ full.
            LeftBy-if (st.st_header.fin == 1) _ _
              (λ fin.
                LeftBy-if (leb st.len (length (block ++ rest))) _ _
                  (λ there. (refl, inl (e, inr (refl, refl)))) (λ gone. tt))
              (λ more. (refl, inl (e, inr (refl, refl)))))
          (λ part. (refl, inl (e, inl (ground (arith, part, h)))))

    pub dispatch-LeftBy : (front block : List ℕ) → LeftBy st rest (dispatch st front block rest)
    unfolding dispatch LeftBy close_block length_done is_handled
    dispatch-LeftBy front block =
        let op = st.st_header.op_code in
        LeftBy-if (op == 0) _ _ (λ e0. binary_block-LeftBy block (ground (arith, e0)))
          (λ n0.
            LeftBy-if (op == 1) _ _ (λ e1. text_block-LeftBy block (ground (arith, e1)))
              (λ n1.
                LeftBy-if (op == 2) _ _ (λ e2. binary_block-LeftBy block (ground (arith, e2)))
                  (λ n2.
                    LeftBy-if (op == 8) _ _
                      (λ e8.
                        LeftBy-if
                          (st.len == 0 || (leb 2 st.len && leb st.len (length (block ++ rest)))) _ _
                          (λ ok. (refl, inr (ground (arith, e8), refl))) (λ short. tt))
                      (λ n8.
                        LeftBy-if (op == 9) _ _
                          (λ e9. (refl, inl (ground (arith, e9), inr (refl, refl))))
                          (λ n9.
                            LeftBy-if (op == 10) _ _
                              (λ e10. (refl, inl (ground (arith, e10), inr (refl, refl))))
                              (λ n10. (refl, inr (ground (arith, n0, n1, n2, n9, n10), refl))))))))

-- A round that takes bytes away.
unfoldable pub Goes : ℕ → LoopRound → Type 0
Goes n strays = Unit
Goes n (goes_on next left events) = (length left < n) × (IsOpen next ⊎ IsStuck next)

LeftBy-Goes :
    (st : SocketParam) (rest : List ℕ) (n : ℕ) (r : LoopRound)
    → st.received ≤ st.len
    → length rest < n
    → LeftBy st rest r
    → Goes n r
unfolding LeftBy Goes
LeftBy-Goes st rest n strays h k l = tt
LeftBy-Goes st rest n (goes_on next left events) h k (same, inl handled) =
    (rw same k, inl handled.1)
LeftBy-Goes st rest n (goes_on next left events) h k (same, inr (other, stays)) = (
  rw same k,
  rw stays (elim (Bool-cases (st.received == st.len)) [
    | inr part ↦ inl (inl (ground (arith, part, h)))
    | inl full ↦ elim (Bool-cases (st.len == 0)) [
      | inl empty ↦ inl (inr (ground (arith, empty), ground (arith, full, empty)))
      | inr nonzero ↦ inr (ground (arith, nonzero), ground (arith, full), other)
    ]
  ]),
)

take_block-Goes :
    (n : ℕ) (st : SocketParam) (front rest : List ℕ)
    → Begun (suc n) st rest
    → Goes (suc n) (take_block st front rest)
unfolding take_block
take_block-Goes n st front rest begun =
    let k = min (st.len - st.received) (length rest) in
    let s = record st { received = st.received + k } in
    let le : st.received + k ≤ st.len = omega (arith, begun.is_within) in
    LeftBy-Goes s (drop k rest) (suc n) (dispatch s front (unmask s (take k rest)) (drop k rest)) le
      (shorter begun.advances) (dispatch-LeftBy s (drop k rest) le front (unmask s (take k rest)))
  where
    shorter :
        ((length rest < suc n) ⊎ ((st.received < st.len) × (length rest ≤ suc n)))
        → length (drop (min (st.len - st.received) (length rest)) rest) < suc n
    shorter (inl less) =
        omega (arith, less, length-drop (min (st.len - st.received) (length rest)) rest)
    shorter (inr (more, le)) =
        omega (arith, more, le, length-drop (min (st.len - st.received) (length rest)) rest)

pub loop_round-Goes :
    (st : SocketParam) (b : ℕ) (bs : List ℕ)
    → IsOpen st
    → Goes (length (b ∷ bs)) (loop_round st (b ∷ bs))
unfolding loop_round Goes BegunIn
loop_round-Goes st b bs h =
    elim (read_header st (b ∷ bs))
        as (λ o.
          BegunIn (length (b ∷ bs)) o
          → Goes (length (b ∷ bs)) (elim o [
            | none ↦ strays
            | some (st, offset, rest) ↦ take_block st (take offset (b ∷ bs)) rest
          ])) [
            | none ↦ λ q. tt
            | some (next, offset, rest) ↦
                λ q. take_block-Goes (length bs) next (take offset (b ∷ bs)) rest q
          ]
      (read_header-BegunIn st b bs h)
