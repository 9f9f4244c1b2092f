-- ===== src/WebSocket/Receive.antt =====
-- WebSocket::OnDataReceivedWebSocket. A buffer is the list of the bytes from the pointer on, of fewer
-- than 2^32 bytes.
use http2serv.Prelude.{ℕ, suc, zero, ◌+◌, ◌-◌, ◌%◌, ◌^◌, leb, ◌==◌, if◌then◌else◌, min}
use http2serv.Prelude.{
  List, [], ◌∷◌, ◌++◌, Option, none, some, ◌||◌, ◌&&◌, length, take, drop, get_elem?, be_value,
  bit_xor,
}
use http2serv.WebSocket.{
  Header, no_header, header_of, header_bytes, own_header, SocketParam, Event, text, binary, pong,
  write, close,
}

-- A number of `k` bytes, how many they are, and the bytes left.
unfoldable pub read_be : ℕ → List ℕ → Option (ℕ × ℕ × List ℕ)
read_be k rest = if leb k (length rest) then some (be_value (take k rest), k, drop k rest) else none

-- The length that the header announces.
unfoldable pub read_length : ℕ → List ℕ → Option (ℕ × ℕ × List ℕ)
unfolding read_be
read_length pload rest =
    if pload == 126
    then read_be 2 rest
    else if pload == 127
    then read_be 8 rest
    else some (pload, 0, rest)

unfoldable pub read_mask : Header → List ℕ → List ℕ → Option (List ℕ × ℕ × List ℕ)
read_mask head old rest =
    if head.mask == 1
    then (if leb 4 (length rest) then some (take 4 rest, 4, drop 4 rest) else none)
    else some (old, 0, rest)

-- The header of a new frame: the state, `iOffset` and `szData`. With `none`, bytes outside the buffer
-- are read.
unfoldable pub new_frame : SocketParam → List ℕ → Option (SocketParam × ℕ × List ℕ)
unfolding header_of read_length read_mask
new_frame st [] = none
new_frame st (b ∷ []) = none
new_frame st (b ∷ c ∷ rest) =
    let head = header_of b c in
    elim (read_length head.pload rest) [
      | none ↦ none
      | some (len, more, rest) ↦ elim (read_mask head st.mask rest) [
        | none ↦ none
        | some (mask, key, rest) ↦ some (
          record { st_header = head; len = len; mask = mask; received = st.received },
          2 + more + key,
          rest,
        )
      ]
    ]

unfoldable pub read_header : SocketParam → List ℕ → Option (SocketParam × ℕ × List ℕ)
unfolding new_frame
read_header st buffer = if st.len == 0 then new_frame st buffer else some (st, 0, buffer)

-- The byte `n % 4` of the mask.
unfoldable pub key_byte : List ℕ → ℕ → ℕ
key_byte key n = elim (get_elem? key (n % 4)) [ none ↦ 0 | some k ↦ k ]

unfoldable pub unmask_from : List ℕ → ℕ → List ℕ → List ℕ
unfolding key_byte
unmask_from key n [] = []
unmask_from key n (b ∷ bs) = bit_xor b (key_byte key n) ∷ unmask_from key (suc n) bs

-- The block in the memory after the loop over its bytes.
unfoldable pub unmask : SocketParam → List ℕ → List ℕ
unfolding unmask_from
unmask st block = if st.st_header.mask == 1 then unmask_from st.mask 0 block else block

-- The end of a round: the state, the bytes left and what was done. With `strays`, the code reads
-- bytes outside the buffer or bytes it never set.
pub data LoopRound : Type 0 where
  goes_on : SocketParam → List ℕ → List Event → LoopRound
  strays : LoopRound

unfoldable pub frame_done : SocketParam → SocketParam
frame_done st = record st { st_header = no_header; len = 0; received = 0 }

unfoldable pub length_done : SocketParam → SocketParam
length_done st = record st { len = 0; received = 0 }

unfoldable pub binary_block : SocketParam → List ℕ → List ℕ → LoopRound
unfolding frame_done
binary_block st block rest =
    goes_on (if st.received == st.len then frame_done st else st) rest
      (binary block (st.st_header.fin == 1) ∷ [])

-- The text is taken from `szData` on, over its whole length.
unfoldable pub text_block : SocketParam → List ℕ → List ℕ → LoopRound
unfolding frame_done
text_block st block rest =
    if st.received == st.len
    then (if st.st_header.fin == 1
        then (if leb st.len (length (block ++ rest))
            then goes_on (frame_done st) rest (text (take (st.len % 2 ^ 32) (block ++ rest)) ∷ [])
            else strays)
        else goes_on (frame_done st) rest [])
    else goes_on st rest []

-- The answer to a close: its code goes through ntohs and htons and is the same two bytes again.
unfoldable pub close_block : SocketParam → List ℕ → List ℕ → LoopRound
unfolding header_bytes own_header
close_block st block rest =
    if st.len == 0 || (leb 2 st.len && leb st.len (length (block ++ rest)))
    then goes_on st rest (
        write (header_bytes (own_header 8 (st.len % 128)) ++ take st.len (block ++ rest))
        ∷ close
        ∷ [])
    else strays

-- The opcode of a header in the buffer becomes that of a pong.
unfoldable pub as_pong : List ℕ → List ℕ
as_pong [] = []
as_pong (b ∷ bs) = (b - b % 16 + 10) ∷ bs

-- The switch: `front` is the header in the buffer.
unfoldable pub dispatch : SocketParam → List ℕ → List ℕ → List ℕ → LoopRound
unfolding binary_block text_block close_block length_done as_pong
dispatch st front block rest =
    let op = st.st_header.op_code in
    if op == 0
    then binary_block st block rest
    else if op == 1
    then text_block st block rest
    else if op == 2
    then binary_block st block rest
    else if op == 8
    then close_block st block rest
    else if op == 9
    then goes_on (length_done st) rest (write (as_pong (front ++ block ++ rest)) ∷ [])
    else if op == 10
    then goes_on (length_done st) rest (pong ∷ [])
    else goes_on st rest []

-- What a round does behind the header. `nReceived` counts up to `nLen` at most.
unfoldable pub take_block : SocketParam → List ℕ → List ℕ → LoopRound
unfolding unmask dispatch
take_block st front rest =
    let n = min (st.len - st.received) (length rest) in
    dispatch (record st { received = st.received + n }) front (unmask st (take n rest))
      (drop n rest)

-- A round of the loop.
unfoldable pub loop_round : SocketParam → List ℕ → LoopRound
unfolding read_header take_block
loop_round st buffer = elim (read_header st buffer) [
  | none ↦ strays
  | some (st, offset, rest) ↦ take_block st (take offset buffer) rest
]

-- A call: it returns, is still in its loop when the fuel is used up, or is undefined.
pub data Call : Type 0 where
  returns : SocketParam → List Event → Call
  still_runs : SocketParam → List ℕ → List Event → Call
  undefined : Call

unfoldable pub did : List Event → Call → Call
did events (returns st more) = returns st (events ++ more)
did events (still_runs st rest more) = still_runs st rest (events ++ more)
did events undefined = undefined

unfoldable pub on_data_received : ℕ → SocketParam → List ℕ → Call
unfolding loop_round did
on_data_received fuel st [] = returns st []
on_data_received zero st (b ∷ bs) = still_runs st (b ∷ bs) []
on_data_received (suc fuel) st (b ∷ bs) = elim (loop_round st (b ∷ bs)) [
  | goes_on next rest events ↦ did events (on_data_received fuel next rest)
  | strays ↦ undefined
]
