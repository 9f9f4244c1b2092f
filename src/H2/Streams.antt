-- ===== src/H2/Streams.antt =====
-- STREAMITEM and STREAMLIST of H2Proto.h: the streams of a connection, a map ordered by stream id.
-- The mutexes of an item are left out: every frame is handled with the stream mutex held.
use http2serv.Prelude.{ℕ, Bool, false, ltb, ◌==◌, if◌then◌else◌}
use http2serv.Prelude.{List, [], ◌∷◌, Option, none, some}
use http2serv.Prelude.Int.{ℤ, pos}
use http2serv.Hpack.HeadList.{HeadList}

-- The bits of nState: STREAMFLAGS.
pub record StreamState : Type 0 where
  pub header_received : Bool
  pub stream_end : Bool
  pub header_end : Bool
  pub reset_stream : Bool
  pub action_called : Bool

abbrev pub clear_flag : StreamState
clear_flag = record {
  header_received = false;
  stream_end = false;
  header_end = false;
  reset_stream = false;
  action_called = false;
}

-- An entry `none` of the request data is the null pointer that ends it.
pub record StreamItem : Type 0 where
  pub state : StreamState
  pub data_list : List (List ℕ)
  pub header_list : HeadList
  pub content_length : ℕ
  pub content_received : ℕ
  pub wnd_size : ℤ
  pub req_data : List (Option (List ℕ))

unfoldable pub new_stream : StreamState → HeadList → ℕ → StreamItem
new_stream st fields window = record {
  state = st;
  data_list = [];
  header_list = fields;
  content_length = 0;
  content_received = 0;
  wnd_size = pos window;
  req_data = [];
}

abbrev pub StreamList : Type 0
StreamList = List (ℕ × StreamItem)

unfoldable pub find_stream : ℕ → StreamList → Option StreamItem
find_stream id [] = none
find_stream id ((k, s) ∷ ss) = if k == id then some s else find_stream id ss

-- `map::insert`: an entry that is there stays as it is.
unfoldable pub insert_stream : ℕ → StreamItem → StreamList → StreamList
insert_stream id s [] = (id, s) ∷ []
insert_stream id s ((k, t) ∷ ss) =
    if k == id
    then (k, t) ∷ ss
    else if ltb id k
    then (id, s) ∷ (k, t) ∷ ss
    else (k, t) ∷ insert_stream id s ss

-- A change of one item through its iterator.
unfoldable pub update_stream : ℕ → (StreamItem → StreamItem) → StreamList → StreamList
update_stream id f [] = []
update_stream id f ((k, s) ∷ ss) = if k == id then (k, f s) ∷ ss else (k, s) ∷ update_stream id f ss

-- `rbegin()->first`
unfoldable pub last_key : StreamList → ℕ
last_key [] = 0
last_key ((k, s) ∷ []) = k
last_key ((k, s) ∷ e ∷ ss) = last_key (e ∷ ss)

-- A change of every item but that of stream 0.
unfoldable pub update_nonzero : (StreamItem → StreamItem) → StreamList → StreamList
update_nonzero f [] = []
update_nonzero f ((k, s) ∷ ss) = (k, (if k == 0 then s else f s)) ∷ update_nonzero f ss
