-- ===== src/Tests/Upload.antt =====
-- Runs of a request body of five bytes, of which two come with the header.
use http2serv.Prelude.{
  ℕ, ◌≤◌, ◌≡◌, refl, arith, true, false, [], ◌∷◌, none, some, List, take, length,
}
use http2serv.HttpServ.Upload.{
  Upload, append_data, put_end, put_block, new_block, take_bytes, first_bytes, end_body,
  receive_body, begin_body, pop_block, hand_over, hand_overs, Uploads, begins, arrives, hands_over,
}
use http2serv.HttpServ.Upload.Delivers.{Delivers}
use http2serv.HttpServ.Upload.Interleaved.{Uploads-Delivers, Uploads-hands_all, Uploads-Ends}

abbrev headed : Upload
headed = record {
  str_buffer = 1 ∷ 2 ∷ [];
  req_data = [];
  contents_soll = 0;
  content_recv = 0;
  handed = [];
  at_end = false;
  left = false;
}

-- One step of the thread comes before the other four bytes.
abbrev received : Upload
received = record headed {
  str_buffer = 6 ∷ [];
  req_data = some (3, 3 ∷ 4 ∷ 5 ∷ []) ∷ none ∷ [];
  handed = 1 ∷ 2 ∷ [];
}

abbrev finished : Upload
finished = record headed { str_buffer = 6 ∷ []; handed = 1 ∷ 2 ∷ 3 ∷ 4 ∷ 5 ∷ []; at_end = true }

abbrev arrived : List ℕ
arrived = 1 ∷ 2 ∷ 3 ∷ 4 ∷ 5 ∷ 6 ∷ []

received-Uploads : Uploads 5 arrived received
unfolding begin_body first_bytes put_block put_end new_block end_body hand_over pop_block
    append_data receive_body take_bytes
received-Uploads =
    arrives (hands_over (begins headed refl refl refl refl refl (omega arith)) false 2)
      (3 ∷ 4 ∷ 5 ∷ 6 ∷ []) (omega arith) (omega arith)

finished-Uploads : Uploads 5 arrived finished
unfolding hand_over pop_block
finished-Uploads = hands_over (hands_over received-Uploads false 3) false 0

Uploads-Delivers_example : Delivers 5 arrived received
Uploads-Delivers_example = Uploads-Delivers 5 arrived received received-Uploads

Uploads-hands_all_example : (finished.handed ≡ take 5 arrived) × (5 ≤ length arrived)
Uploads-hands_all_example = Uploads-hands_all 5 arrived finished finished-Uploads refl

Uploads-Ends_example :
    ((hand_overs (length received.req_data) received).at_end ≡ true)
    × ((hand_overs (length received.req_data) received).handed ≡ take 5 arrived)
Uploads-Ends_example = Uploads-Ends 5 arrived received received-Uploads (omega arith) refl
