-- ===== src/Hpack/Result.antt =====
-- H2ProtoException of HPack.h, and the outcomes of a decoder.

-- HPACKEXCODE.
pub data HpackExCode : Type 0 where
  protocol_error internal_error flow_control_error uppercase_header stream_closed : HpackExCode
  false_pseudo_header invalid_header invalid_te_header compression_error : HpackExCode
  header_other_stream data_without_stream stream_half_closed max_frame_size : HpackExCode
  frame_size_value missing_streamid wrong_pad_length same_streamid : HpackExCode
  common_decode_error header_no_streamend cont_without_header undef_after_header : HpackExCode
  frame_size_error streamid_must_null datasize_missmatch invalid_push_set : HpackExCode
  window_size_setting max_frame_size_set window_size_to_high invalid_window_size : HpackExCode
  buffsize_error dyntable_update wrong_stream_id wrong_header : HpackExCode

-- `throw` is an H2ProtoException with no stream id. `fault` is behaviour that C++ leaves undefined:
-- a read outside the received bytes, a shift by the width of an int or more, or a signed overflow.
pub data Result {ℓ} (A : Type ℓ) : Type ℓ where
  ok : A → Result A
  throw : HpackExCode → Result A
  fault : Result A

infixl 5 ◌>>=◌
abbrev pub ◌>>=◌ {ℓ κ} : {A : Type ℓ} {B : Type κ} → Result A → (A → Result B) → Result B
fault >>= k = fault
throw e >>= k = throw e
ok a >>= k = k a
