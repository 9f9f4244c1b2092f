-- ===== src/H2/Proto/Answers.antt =====
-- The answers to exceptions, by the numbers of RFC 7540.
use http2serv.Prelude.{ℕ, ◌≡◌, refl, ap, ◌∙◌, Bool, true, false, not, ◌==◌, if◌then◌else◌}
use http2serv.Prelude.{[], ◌∷◌, ◌++◌}
use http2serv.Hpack.Result.{
  HpackExCode, protocol_error, internal_error, flow_control_error, uppercase_header, stream_closed,
  false_pseudo_header, invalid_header, invalid_te_header, compression_error, header_other_stream,
  data_without_stream, stream_half_closed, max_frame_size, frame_size_value, missing_streamid,
  wrong_pad_length, same_streamid, common_decode_error, header_no_streamend, cont_without_header,
  undef_after_header, frame_size_error, streamid_must_null, datasize_missmatch, invalid_push_set,
  window_size_setting, max_frame_size_set, window_size_to_high, invalid_window_size, buffsize_error,
  dyntable_update, wrong_stream_id, wrong_header,
}
use http2serv.H2.Frame.{http2_goaway, http2_stream_error}
use http2serv.H2.Exec.{Conn, Exec, ok, throw, fault}
use http2serv.H2.Proto.{Answer, goaway, stream_error, answer_to, give_answer, handle}

-- The number that RFC 7540 gives the error of an exception.
unfoldable pub error_code : HpackExCode → ℕ
error_code e = elim e [
  | internal_error ↦ 2
  | flow_control_error ↦ 3
  | window_size_setting ↦ 3
  | window_size_to_high ↦ 3
  | stream_closed ↦ 5
  | stream_half_closed ↦ 5
  | frame_size_error ↦ 6
  | max_frame_size ↦ 6
  | compression_error ↦ 9
  | common_decode_error ↦ 9
  | buffsize_error ↦ 9
  | dyntable_update ↦ 9
  | _ ↦ 1
]

-- The errors of one stream, which leave the connection open.
unfoldable pub is_stream_error : HpackExCode → ℕ → Bool
is_stream_error e id = elim e [
  | internal_error ↦ true
  | same_streamid ↦ true
  | datasize_missmatch ↦ true
  | stream_half_closed ↦ true
  | max_frame_size ↦ true
  | window_size_to_high ↦ not (id == 0)
  | _ ↦ false
]

-- One frame goes out, RST_STREAM for an error of a stream and GOAWAY otherwise, which closes the
-- connection, and nothing else changes.
abbrev pub answered : HpackExCode → ℕ → Conn → Conn
answered e id d =
    let frame =
      if is_stream_error e id
      then http2_stream_error id (error_code e)
      else http2_goaway 0 0 (error_code e) in
    record d { sent = d.sent ++ (frame ∷ []); closing = not (is_stream_error e id) }

-- How the function ends, by how its try block ends.
unfoldable pub Handled : Exec (Unit {0}) → Exec (Unit {0}) → Type 0
Handled (ok u d) r = r ≡ ok tt d
Handled (throw e id d) r = r ≡ ok tt (answered e id d)
Handled fault r = r ≡ fault

answer_by : Bool → ℕ → Answer
answer_by b code = if b then stream_error code else goaway code

answer_to_lem :
    (e : HpackExCode) (id : ℕ) → answer_to e id ≡ answer_by (is_stream_error e id) (error_code e)
unfolding answer_to answer_by is_stream_error error_code
answer_to_lem window_size_to_high id =
    elim (id == 0)
      as (λ b.
        (if b then goaway 3 else stream_error 3) ≡ (if not b then stream_error 3 else goaway 3)) [
          | true ↦ refl
          | false ↦ refl
        ]
answer_to_lem compression_error id = refl
answer_to_lem buffsize_error id = refl
answer_to_lem dyntable_update id = refl
answer_to_lem common_decode_error id = refl
answer_to_lem frame_size_error id = refl
answer_to_lem window_size_setting id = refl
answer_to_lem flow_control_error id = refl
answer_to_lem stream_closed id = refl
answer_to_lem protocol_error id = refl
answer_to_lem uppercase_header id = refl
answer_to_lem wrong_header id = refl
answer_to_lem false_pseudo_header id = refl
answer_to_lem invalid_header id = refl
answer_to_lem invalid_te_header id = refl
answer_to_lem wrong_stream_id id = refl
answer_to_lem header_other_stream id = refl
answer_to_lem data_without_stream id = refl
answer_to_lem missing_streamid id = refl
answer_to_lem wrong_pad_length id = refl
answer_to_lem header_no_streamend id = refl
answer_to_lem cont_without_header id = refl
answer_to_lem undef_after_header id = refl
answer_to_lem streamid_must_null id = refl
answer_to_lem invalid_push_set id = refl
answer_to_lem max_frame_size_set id = refl
answer_to_lem invalid_window_size id = refl
answer_to_lem frame_size_value id = refl
answer_to_lem same_streamid id = refl
answer_to_lem datasize_missmatch id = refl
answer_to_lem stream_half_closed id = refl
answer_to_lem max_frame_size id = refl
answer_to_lem internal_error id = refl

give_answer-answered :
    (e : HpackExCode) (id : ℕ) (d : Conn) → give_answer (answer_to e id) id d ≡ answered e id d
unfolding give_answer answer_by
give_answer-answered e id d =
    ap (λ a. give_answer a id d) (answer_to_lem e id)
    ∙ elim (is_stream_error e id)
        as (λ b.
          give_answer (if b then stream_error (error_code e) else goaway (error_code e)) id d
          ≡ record d {
            sent =
                d.sent
                ++ ((if b
                      then http2_stream_error id (error_code e)
                      else http2_goaway 0 0 (error_code e))
                    ∷ []);
            closing = not b;
          }) [ true ↦ refl | false ↦ refl ]

pub handle-Handled : (x : Exec (Unit {0})) → Handled x (handle x)
unfolding handle Handled
handle-Handled (ok u d) = refl
handle-Handled (throw e id d) = ap (λ f. ok tt f) (give_answer-answered e id d)
handle-Handled fault = refl
