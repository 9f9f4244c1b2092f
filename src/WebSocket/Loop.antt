-- ===== src/WebSocket/Loop.antt =====
-- The end of the loop of OnDataReceivedWebSocket.
use http2serv.Prelude.{
  ℕ, suc, zero, ◌+◌, ◌-◌, ◌≤◌, ◌≡◌, refl, sym, ap, ◌∙◌, arith, min, ◌⊎◌, inl, inr,
}
use http2serv.Prelude.{false, ◌==◌, if◌then◌else◌}
use http2serv.Prelude.{List, [], ◌∷◌, none, some, length, take, drop}
use mathlib.Core.Path.{subst}
use http2serv.WebSocket.{SocketParam, Event}
use http2serv.WebSocket.Receive.{
  new_frame, read_header, unmask, LoopRound, goes_on, strays, undefined, dispatch, take_block,
  loop_round, Call, returns, still_runs, did, on_data_received,
}
use http2serv.WebSocket.Rounds.{
  IsOpen, is_handled, IsStuck, LeftBy, dispatch-LeftBy, Goes, loop_round-Goes,
}

-- How a call with enough rounds is left.
unfoldable pub Ends : Call → Type 0
Ends (returns st events) = IsOpen st ⊎ IsStuck st
Ends (still_runs st rest events) = IsStuck st
Ends undefined = Unit

did-Ends : (events : List Event) (c : Call) → Ends c → Ends (did events c)
unfolding did Ends
did-Ends events (returns st more) h = h
did-Ends events (still_runs st rest more) h = h
did-Ends events undefined h = tt

-- In a stuck state a round takes no byte and keeps the state.
Idles : SocketParam → List ℕ → LoopRound → Type 0
Idles st buffer strays = Unit
Idles st buffer (goes_on next left events) = (next ≡ st) × (left ≡ buffer)

LeftBy-Idles :
    (st s : SocketParam) (buffer rest : List ℕ) (r : LoopRound)
    → is_handled s.st_header.op_code ≡ false
    → s ≡ st
    → rest ≡ buffer
    → LeftBy s rest r
    → Idles st buffer r
unfolding LeftBy Idles
LeftBy-Idles st s buffer rest strays h e q l = tt
LeftBy-Idles st s buffer rest (goes_on next left events) h e q (same, inl handled) = cc
LeftBy-Idles st s buffer rest (goes_on next left events) h e q (same, inr (other, stays)) =
    (stays ∙ e, same ∙ q)

drop_none : (k : ℕ) (buffer : List ℕ) → k ≡ 0 → drop k buffer ≡ buffer
drop_none k buffer e = rw e refl

take_block-Idles :
    (st : SocketParam) (front buffer : List ℕ)
    → IsStuck st
    → Idles st buffer (take_block st front buffer)
unfolding take_block
take_block-Idles st front buffer h =
    let k = min (st.len - st.received) (length buffer) in
    let none_left : k ≡ 0 = omega (arith, h.1) in
    let s = record st { received = st.received + k } in
    let le : st.received + k ≤ st.len = omega (arith, h.1) in
    let same : st.received + k ≡ st.received = omega arith in
    LeftBy-Idles st s buffer (drop k buffer)
      (dispatch s front (unmask s (take k buffer)) (drop k buffer)) h.2
      (ap (λ r. record st { received = r }) same) (drop_none k buffer none_left)
      (dispatch-LeftBy s (drop k buffer) le front (unmask s (take k buffer)))

loop_round-Idles :
    (st : SocketParam) (buffer : List ℕ) → IsStuck st → Idles st buffer (loop_round st buffer)
unfolding loop_round read_header
loop_round-Idles st buffer h =
    let e : (st.len == 0) ≡ false = ground (arith, h.0) in
    let same : loop_round st buffer ≡ take_block st [] buffer =
      ap
        (λ b. elim (if b then new_frame st buffer else some (st, 0, buffer)) [
          | none ↦ strays
          | some (st, offset, rest) ↦ take_block st (take offset buffer) rest
        ])
        e in
    subst (λ r. Idles st buffer r) (sym same) (take_block-Idles st [] buffer h)

-- A call that does not return.
unfoldable pub NeverReturns : Call → Type 0
NeverReturns (returns st events) = ⊥
NeverReturns (still_runs st rest events) = IsStuck st
NeverReturns undefined = Unit

did-NeverReturns : (events : List Event) (c : Call) → NeverReturns c → NeverReturns (did events c)
unfolding did NeverReturns
did-NeverReturns events (returns st more) h = h
did-NeverReturns events (still_runs st rest more) h = h
did-NeverReturns events undefined h = tt

-- A call in a stuck state with bytes in its buffer does not return, however many rounds it has: it
-- goes on in a stuck state or is undefined.
pub on_data_received-NeverReturns :
    (fuel : ℕ) (st : SocketParam) (b : ℕ) (bs : List ℕ)
    → IsStuck st
    → NeverReturns (on_data_received fuel st (b ∷ bs))
unfolding on_data_received NeverReturns Idles
on_data_received-NeverReturns zero st b bs h = h
on_data_received-NeverReturns (suc fuel) st b bs h =
    elim (loop_round st (b ∷ bs))
        as (λ r.
          Idles st (b ∷ bs) r
          → NeverReturns (elim r [
            | goes_on next rest events ↦ did events (on_data_received fuel next rest)
            | strays ↦ undefined
          ])) [
            | strays ↦ λ q. tt
            | goes_on next rest events ↦ λ q.
                did-NeverReturns events (on_data_received fuel next rest)
                  (rw (q.0, q.1) (on_data_received-NeverReturns fuel st b bs h))
          ]
      (loop_round-Idles st (b ∷ bs) h)

NeverReturns-Ends : (c : Call) → NeverReturns c → Ends c
unfolding NeverReturns Ends
NeverReturns-Ends (returns st events) h = absurd h
NeverReturns-Ends (still_runs st rest events) h = h
NeverReturns-Ends undefined h = tt

stuck-Ends :
    (fuel : ℕ) (st : SocketParam) (buffer : List ℕ)
    → IsStuck st
    → Ends (on_data_received fuel st buffer)
unfolding on_data_received Ends
stuck-Ends fuel st [] h = inr h
stuck-Ends fuel st (b ∷ bs) h = NeverReturns-Ends _ (on_data_received-NeverReturns fuel st b bs h)

-- A call that starts between two frames or inside one, and has a round for each byte of its buffer,
-- returns in such a state again or is undefined, unless it comes to a stuck state, one with a complete
-- frame whose opcode is none of 0, 1, 2, 9 and 10: there it stays, and goes on if bytes are left.
pub on_data_received-Ends :
    (fuel : ℕ) (st : SocketParam) (buffer : List ℕ)
    → IsOpen st
    → length buffer ≤ fuel
    → Ends (on_data_received fuel st buffer)
unfolding on_data_received Ends Goes
on_data_received-Ends fuel st [] h enough = inl h
on_data_received-Ends zero st (b ∷ bs) h enough = absurd (omega (arith, enough))
on_data_received-Ends (suc fuel) st (b ∷ bs) h enough =
    elim (loop_round st (b ∷ bs))
        as (λ r.
          Goes (length (b ∷ bs)) r
          → Ends (elim r [
            | goes_on next rest events ↦ did events (on_data_received fuel next rest)
            | strays ↦ undefined
          ])) [
            | strays ↦ λ q. tt
            | goes_on next rest events ↦ λ q.
                did-Ends events (on_data_received fuel next rest) (elim q.1 [
                  | inl o ↦ on_data_received-Ends fuel next rest o (omega (arith, enough, q.0))
                  | inr s ↦ stuck-Ends fuel next rest s
                ])
          ]
      (loop_round-Goes st b bs h)
