-- ===== src/H2/Exec.antt =====
-- The state of a connection while Http2StreamProto runs, and its effects: exceptions, output, and
-- reads of the receive buffer.
use http2serv.Prelude.{ℕ, ◌+◌, ◌-◌, ◌%◌, ◌^◌, Bool, ltb, if◌then◌else◌}
use http2serv.Prelude.{List, [], ◌∷◌, ◌++◌, none, some, length, take, drop, get_elem?}
use http2serv.Hpack.Result.{HpackExCode}
use http2serv.Hpack.StaticTable.{HeaderEntry}
use http2serv.H2.Frame.{word_value}
use http2serv.H2.Streams.{StreamList, StreamItem, StreamState, find_stream, update_stream}

-- STREAMSETTINGS of HPack.h.
pub record StreamSettings : Type 0 where
  pub max_stream_count : ℕ
  pub init_window_size : ℕ
  pub max_frame_size : ℕ
  pub max_header_size : ℕ
  pub header_table_size : ℕ

-- `input` are the bytes from szBuf to the end of what was received, `len` is nLen, `sent` what went
-- to fSocketWrite, `actions` is CallAction, and `closing` says that nReturn is SIZE_MAX.
pub record Conn : Type 0 where
  pub streams : StreamList
  pub table : List HeaderEntry
  pub settings : StreamSettings
  pub sent : List (List ℕ)
  pub actions : List ℕ
  pub input : List ℕ
  pub len : ℕ
  pub closing : Bool

-- `throw` is an H2ProtoException with its stream id, in the state in which it was thrown; `fault` is
-- undefined behaviour, such as a read outside the received bytes.
pub data Exec {ℓ} (A : Type ℓ) : Type ℓ where
  ok : A → Conn → Exec A
  throw : HpackExCode → ℕ → Conn → Exec A
  fault : Exec A

abbrev pub M {ℓ} : Type ℓ → Type ℓ
M A = Conn → Exec A

infixl 5 ◌>>=◌ ◌>>◌
abbrev pub ◌>>=◌ {ℓ κ} : {A : Type ℓ} {B : Type κ} → M A → (A → M B) → M B
◌>>=◌ m f c = elim (m c) [ ok a c' ↦ f a c' | throw e id c' ↦ throw e id c' | fault ↦ fault ]

abbrev pub ◌>>◌ {ℓ κ} : {A : Type ℓ} {B : Type κ} → M A → M B → M B
◌>>◌ m k = m >>= λ _. k

abbrev pub return {ℓ} : {A : Type ℓ} → A → M A
return a c = ok a c

abbrev pub get : M Conn
get c = ok c c

abbrev pub modify : (Conn → Conn) → M (Unit {0})
modify f c = ok tt (f c)

abbrev pub raise {ℓ} : {A : Type ℓ} → HpackExCode → ℕ → M A
raise e id c = throw e id c

abbrev pub throw_if : Bool → HpackExCode → ℕ → M (Unit {0})
throw_if b e id c = if b then throw e id c else ok tt c

abbrev pub when : Bool → M (Unit {0}) → M (Unit {0})
when b m c = if b then m c else ok tt c

abbrev pub write : List ℕ → M (Unit {0})
write bytes = modify λ c. record c { sent = c.sent ++ (bytes ∷ []) }

-- `umStreamCache.find(0)` used without a test for `end`.
unfoldable pub stream0_receives : M Bool
stream0_receives c = elim (find_stream 0 c.streams) [
  | some s ↦ ok s.state.header_received c
  | none ↦ fault
]

abbrev pub change_stream : ℕ → (StreamItem → StreamItem) → M (Unit {0})
change_stream id f = modify λ c. record c { streams = update_stream id f c.streams }

abbrev pub set_state : (StreamState → StreamState) → StreamItem → StreamItem
set_state f s = record s { state = f s.state }

-- `a - b` on size_t.
unfoldable pub sub64 : ℕ → ℕ → ℕ
sub64 a b = (a + 2 ^ 64 - b) % 2 ^ 64

-- `szBuf += n, nLen -= n`
abbrev pub skip : ℕ → M (Unit {0})
skip n = modify λ c. record c { input = drop n c.input; len = sub64 c.len n }

unfoldable pub read_byte : ℕ → M ℕ
read_byte i c = elim (get_elem? c.input i) [ some b ↦ ok b c | none ↦ fault ]

-- The next `n` bytes; szBuf stays.
unfoldable pub read_bytes : ℕ → M (List ℕ)
read_bytes n c = if ltb (length c.input) n then fault else ok (take n c.input) c

-- `memcpy` of four bytes and `ntohl`.
unfoldable pub read_word : ℕ → M ℕ
unfolding read_byte word_value
read_word i = do
  a ← read_byte i
  b ← read_byte (i + 1)
  d ← read_byte (i + 2)
  e ← read_byte (i + 3)
  return (word_value a b d e)
