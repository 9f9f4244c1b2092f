-- ===== src/H2/Steps/Loop.antt =====
-- The loop of Http2StreamProto over the frames as elementary changes, and its end.
use http2serv.Prelude.{ℕ, ◌%◌, ◌==◌, ◌≤◌, ◌≡◌, refl, arith, ltb, ◌&&◌}
use http2serv.Prelude.{List, [], ◌∷◌, none, some, length, drop, length-drop, min}
use http2serv.Hpack.Result.{wrong_stream_id, header_other_stream}
use http2serv.H2.Frame.{H2Frame, read_frame_header}
use http2serv.H2.Streams.{find_stream, new_stream, clear_flag}
use http2serv.H2.Exec.{Conn, M, ok, ◌>>=◌, ◌>>◌, throw_if, stream0_receives, sub64}
use http2serv.H2.Proto.{
  make_stream0, other_stream_guard, begin_frame, handle_frame, end_frame, one_frame,
}
use http2serv.H2.Steps.{
  IsStep, Arrives, Keeps, ◌|>>◌, get-Keeps, if-Keeps, throw_if-Keeps, skip-Keeps,
  stream0_receives-Keeps,
}
use http2serv.H2.Steps.Control.{
  priority_frame-Keeps, rst_stream_frame-Keeps, settings_frame-Keeps, push_promise_frame-Keeps,
  ping_frame-Keeps, goaway_frame-Keeps, window_update_frame-Keeps, undefined_frame-Keeps,
}
use http2serv.H2.Steps.Data.{data_frame-Keeps}
use http2serv.H2.Steps.Requests.{headers_frame-Keeps, continuation_frame-Keeps}

make_stream0-Keeps : Keeps make_stream0
unfolding make_stream0
make_stream0-Keeps = record {
  run = λ R step c.
      elim c.streams
          as (λ x.
            c.streams ≡ x
            → Arrives {A = Unit {0}} R c (elim x [
              | [] ↦ ok tt (record c {
                streams = (0, new_stream clear_flag [] c.settings.init_window_size) ∷ [];
              })
              | e ∷ es ↦ ok tt c
            ])) [
              | [] ↦ λ h. step.opens (new_stream clear_flag [] c.settings.init_window_size) c h
              | e ∷ es ↦ λ h. step.stays c
            ]
        refl;
}

other_stream_guard-Keeps : (id : ℕ) → Keeps (other_stream_guard id)
unfolding other_stream_guard
other_stream_guard-Keeps id = record {
  run = λ R step c.
      elim (find_stream id c.streams)
        as (λ x. Arrives {A = Unit {0}} R c (elim x [
          | some s ↦ ok tt c
          | none ↦ (do receives ← stream0_receives; throw_if receives header_other_stream 0) c
        ])) [
          | some s ↦ step.stays c
          | none ↦
              Keeps.run
                (stream0_receives-Keeps |>> λ receives.
                  throw_if-Keeps receives header_other_stream 0)
                R step c
        ];
}

handle_frame-Keeps : (header : List ℕ) (fr : H2Frame) → Keeps (handle_frame header fr)
unfolding handle_frame
handle_frame-Keeps header fr = if-Keeps (fr.typ == 0) _ _ (data_frame-Keeps fr) (
    if-Keeps (fr.typ == 1) _ _ (headers_frame-Keeps fr) (
      if-Keeps (fr.typ == 2) _ _ (priority_frame-Keeps fr) (
        if-Keeps (fr.typ == 3) _ _ (rst_stream_frame-Keeps fr) (
          if-Keeps (fr.typ == 4) _ _ (settings_frame-Keeps fr) (
            if-Keeps (fr.typ == 5) _ _ (push_promise_frame-Keeps fr) (
              if-Keeps (fr.typ == 6) _ _ (ping_frame-Keeps header fr) (
                if-Keeps (fr.typ == 7) _ _ (goaway_frame-Keeps fr) (
                  if-Keeps (fr.typ == 8) _ _ (window_update_frame-Keeps fr) (
                    if-Keeps (fr.typ == 9) _ _ (continuation_frame-Keeps fr)
                      (undefined_frame-Keeps fr))))))))))

end_frame-Keeps : (size : ℕ) → Keeps (end_frame size)
unfolding end_frame
end_frame-Keeps size = get-Keeps |>> λ c. skip-Keeps (min size c.len)

-- A frame behind its header.
after_header : List ℕ → H2Frame → M (Unit {0})
after_header header fr = do
  do
    throw_if (ltb 0 fr.stream_id && fr.stream_id % 2 == 0) wrong_stream_id 0
    make_stream0
    other_stream_guard fr.stream_id
  size ← handle_frame header fr
  end_frame size

after_header-Keeps : (header : List ℕ) (fr : H2Frame) → Keeps (after_header header fr)
unfolding after_header
after_header-Keeps header fr =
    (throw_if-Keeps (ltb 0 fr.stream_id && fr.stream_id % 2 == 0) wrong_stream_id 0 |>> λ _.
    make_stream0-Keeps |>> λ _. other_stream_guard-Keeps fr.stream_id)
    |>> λ _. handle_frame-Keeps header fr |>> λ size. end_frame-Keeps size

abbrev pub header_read : Conn → Conn
header_read c = record c { input = drop 9 c.input; len = sub64 c.len 9 }

one_frame-after_header :
    (header : List ℕ) (fr : H2Frame) (c : Conn)
    → one_frame header fr c ≡ after_header header fr (header_read c)
unfolding one_frame begin_frame after_header
one_frame-after_header header fr c = refl

pub one_frame-Arrives :
    (R : Conn → Conn → Type 0)
    → IsStep R
    → (header : List ℕ) (fr : H2Frame) (c : Conn)
    → Arrives R (header_read c) (one_frame header fr c)
unfolding one_frame begin_frame after_header
one_frame-Arrives R step header fr c = (after_header-Keeps header fr).run R step (header_read c)

pub read_frame_header-length :
    (bytes : List ℕ) (fr : H2Frame) → read_frame_header bytes ≡ some fr → 9 ≤ length bytes
unfolding read_frame_header
read_frame_header-length (a ∷ b ∷ c ∷ t ∷ f ∷ w ∷ x ∷ y ∷ z ∷ rest) fr h = omega arith
read_frame_header-length [] fr h = cc
read_frame_header-length (a ∷ []) fr h = cc
read_frame_header-length (a ∷ b ∷ []) fr h = cc
read_frame_header-length (a ∷ b ∷ c ∷ []) fr h = cc
read_frame_header-length (a ∷ b ∷ c ∷ d ∷ []) fr h = cc
read_frame_header-length (a ∷ b ∷ c ∷ d ∷ e ∷ []) fr h = cc
read_frame_header-length (a ∷ b ∷ c ∷ d ∷ e ∷ f ∷ []) fr h = cc
read_frame_header-length (a ∷ b ∷ c ∷ d ∷ e ∷ f ∷ g ∷ []) fr h = cc
read_frame_header-length (a ∷ b ∷ c ∷ d ∷ e ∷ f ∷ g ∷ i ∷ []) fr h = cc

abbrev pub Shorter : Conn → Conn → Type 0
Shorter c d = length d.input ≤ length c.input

pub Shorter-IsStep : IsStep Shorter
Shorter-IsStep = record {
  stays = λ c. omega arith;
  joins = λ c d e p q. omega (arith, p, q);
  reads = λ n l c. omega (arith, length-drop n c.input);
  writes = λ bytes c. omega arith;
  closes = λ b c. omega arith;
  calls = λ id c. omega arith;
  tables = λ t c. omega arith;
  sets = λ st c. omega arith;
  updates = λ id f c g. omega arith;
  inserts = λ id s c. omega arith;
  shifts = λ f c g. omega arith;
  opens = λ s c h. omega arith;
}
