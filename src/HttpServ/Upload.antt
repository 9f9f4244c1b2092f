-- ===== src/HttpServ/Upload.antt =====
-- The body of an HTTP/1 request: the parts of OnDataReceived in HttpServ.cpp that put it into
-- vecReqData, and the loop of DoAction that takes it out for a CGI program.
-- The counts stay below nContentsSoll, which is below 2 ^ 64, so they do not wrap around.
use http2serv.Prelude.{
  ℕ, suc, ◌||◌, zero, ◌+◌, ◌-◌, ◌%◌, ◌^◌, ◌<◌, ◌≡◌, ◌≢◌, min, Bool, true, false, not, ◌&&◌, ltb,
  ◌==◌, if◌then◌else◌,
}
use http2serv.Prelude.{Option, none, some, List, [], ◌∷◌, ◌++◌, length, take, drop}
pub mod Blocks
pub mod Delivers
pub mod Rounds
pub mod Interleaved

-- An entry of vecReqData: the 32-bit count with the bytes, or the null pointer at the end of the data.
abbrev pub Block : Type 0
Block = Option (ℕ × List ℕ)

unfoldable pub new_block : List ℕ → Block
new_block bytes = some (length bytes % 2 ^ 32, bytes)

-- The connection's part, and the action thread's: the bytes that the program took, whether the thread
-- found the end of the data, and whether it left the loop before, since the connection stops, the stream
-- was reset or the program did not take all of a block and was killed.
pub record Upload : Type 0 where
  pub str_buffer : List ℕ
  pub req_data : List Block
  pub contents_soll : ℕ
  pub content_recv : ℕ
  pub handed : List ℕ
  pub at_end : Bool
  pub left : Bool

-- pConDetails->strBuffer.append.
unfoldable pub append_data : List ℕ → Upload → Upload
append_data bytes s = record s { str_buffer = s.str_buffer ++ bytes }

unfoldable pub put_end : Upload → Upload
put_end s = record s { req_data = s.req_data ++ (none ∷ []) }

unfoldable pub put_block : ℕ → Upload → Upload
put_block n s = record s {
  req_data = s.req_data ++ (new_block (take n s.str_buffer) ∷ []);
  str_buffer = drop n s.str_buffer;
}

-- The block of a later arrival.
unfoldable pub take_bytes : ℕ → Upload → Upload
take_bytes n s = if ltb 0 n then record (put_block n s) { content_recv = s.content_recv + n } else s

-- The block that has arrived with the header.
unfoldable pub first_bytes : ℕ → Upload → Upload
first_bytes n s = if ltb 0 n then record (put_block n s) { content_recv = n } else s

-- The end of the data after the last byte.
unfoldable pub end_body : Upload → Upload
end_body s =
    if s.content_recv == s.contents_soll
    then record (put_end s) { content_recv = 0; contents_soll = 0 }
    else s

-- The file upload in progress.
unfoldable pub receive_body : Upload → Upload
receive_body s =
    if not (s.contents_soll == 0) && ltb s.content_recv s.contents_soll
    then end_body (take_bytes (min (length s.str_buffer) (s.contents_soll - s.content_recv)) s)
    else s

-- From the preliminary end of the data on, with the number of the field content-length, or 0.
unfoldable pub begin_body : ℕ → Upload → Upload
begin_body soll s =
    let marked = record (put_end s) { contents_soll = soll } in
    if ltb 0 soll
    then end_body (first_bytes (min (length s.str_buffer) soll) (record marked { req_data = [] }))
    else marked

-- vecData.front and pop_front, and the round of the loop for that block: `quits` says that patStop or
-- fnIsStreamReset ends the loop or the wait for a block, and `taken` is what WriteToSpawn returns. An empty
-- queue is waited for.
unfoldable pub pop_block : Bool → ℕ → List Block → Upload → Upload
pop_block quits taken [] s = if quits then record s { left = true } else s
pop_block quits taken (some (data_len, bytes) ∷ rest) s =
    if quits then record s { req_data = rest; left = true } else record s {
      req_data = rest;
      handed = s.handed ++ take (min taken data_len) bytes;
      left = not (taken == data_len);
    }
pop_block quits taken (none ∷ rest) s = record s { req_data = rest; at_end = true }

unfoldable pub hand_over : Bool → ℕ → Upload → Upload
hand_over quits taken s = if s.at_end || s.left then s else pop_block quits taken s.req_data s

-- The count of the next block.
unfoldable pub next_len : List Block → ℕ
next_len [] = 0
next_len (none ∷ rest) = 0
next_len (some (data_len, bytes) ∷ rest) = data_len

-- Rounds of the thread alone, when nothing ends the loop early and the program takes every block.
unfoldable pub hand_overs : ℕ → Upload → Upload
hand_overs zero s = s
hand_overs (suc n) s = hand_overs n (hand_over false (next_len s.req_data) s)

-- The bytes that have arrived behind the header of a request with `total` bytes of body, and the
-- state then: arrivals and the action thread in any order, until the body is complete.
pub data Uploads (total : ℕ) : List ℕ → Upload → Type 0 where
  begins :
      (s : Upload)
      → s.req_data ≡ []
      → s.content_recv ≡ 0
      → s.handed ≡ []
      → s.at_end ≡ false
      → s.left ≡ false
      → length s.str_buffer < 2 ^ 32
      → Uploads total s.str_buffer (begin_body total s)
  arrives :
      {stream : List ℕ} {s : Upload}
      → Uploads total stream s
      → (bytes : List ℕ) → s.contents_soll ≢ 0
      → length bytes < 2 ^ 32
      → Uploads total (stream ++ bytes) (receive_body (append_data bytes s))
  hands_over :
      {stream : List ℕ} {s : Upload}
      → Uploads total stream s
      → (quits : Bool) (taken : ℕ) → Uploads total stream (hand_over quits taken s)
