-- ===== src/H2/Steps/Relations.antt =====
-- What the frames of a connection leave as it was: streams stay in the table and in order.
use http2serv.Prelude.{ℕ, sym}
use http2serv.Prelude.{[], ◌∷◌, Option, none, some}
use mathlib.Core.Path.{subst}
use http2serv.H2.Streams.{find_stream}
use http2serv.H2.Exec.{Conn, Exec, ok, throw, fault}
use http2serv.H2.Proto.{frames}
use http2serv.H2.Steps.{IsStep}
use http2serv.H2.Steps.Frames.{LoopArrives, frames-Arrives}
use http2serv.H2.Steps.Table.{
  Continues, IsSorted, Continues-refl, Continues-trans, IsSorted-update_stream,
  update_stream-Continues, IsSorted-insert_stream, insert_stream-Continues, IsSorted-update_nonzero,
  update_nonzero-Continues,
}

-- No stream is lost or reopened, and the order of the table is kept.
abbrev pub StreamsStay : Conn → Conn → Type 0
StreamsStay c d =
    IsSorted c.streams
    → IsSorted d.streams
      × ((id : ℕ) → Continues (find_stream id c.streams) (find_stream id d.streams))

keep_streams : (c : Conn) → StreamsStay c c
keep_streams c w = (w, λ id. Continues-refl (find_stream id c.streams))

StreamsStay-IsStep : IsStep StreamsStay
unfolding find_stream
StreamsStay-IsStep = record {
  stays = λ c. keep_streams c;
  joins = λ c d e p q w. (
    (q (p w).0).0,
    λ id.
        Continues-trans (find_stream id c.streams) (find_stream id d.streams)
          (find_stream id e.streams) ((p w).1 id) ((q (p w).0).1 id),
  );
  reads = λ n l c. keep_streams c;
  writes = λ bytes c. keep_streams c;
  closes = λ b c. keep_streams c;
  calls = λ id c. keep_streams c;
  tables = λ t c. keep_streams c;
  sets = λ st c. keep_streams c;
  updates = λ id f c g w.
      (IsSorted-update_stream id f c.streams w, λ k. update_stream-Continues id k f c.streams g);
  inserts = λ id s c w.
      (IsSorted-insert_stream id s c.streams w, λ k. insert_stream-Continues id k s c.streams w);
  shifts = λ f c g w.
      (IsSorted-update_nonzero f c.streams w, λ k. update_nonzero-Continues k f c.streams g);
  opens = λ s c h w. (
    (tt, tt),
    λ k. subst (λ ss. Continues (find_stream k ss) (find_stream k ((0, s) ∷ []))) (sym h) tt,
  );
}

-- The streams of a connection whose table was in order: it still is, none of them is lost, and none
-- of the marks of KeepsBits is taken from one.
abbrev pub StreamsKept : Conn → Conn → Type 0
StreamsKept c d =
    IsSorted d.streams
    × ((id : ℕ) → Continues (find_stream id c.streams) (find_stream id d.streams))

in_order :
    (c : Conn) (o : Option (Exec (Unit {0})))
    → IsSorted c.streams
    → LoopArrives StreamsStay c o
    → LoopArrives StreamsKept c o
in_order c none w p = tt
in_order c (some (ok u d)) w p = p w
in_order c (some (throw e id d)) w p = p w
in_order c (some fault) w p = tt

-- What the loop over the frames leaves, whether it ends or throws, of a connection whose streams are
-- in ascending order: they still are, every stream is still there, and none of them has lost the
-- marks that its data, its header or itself has ended or that its action was called.
pub frames-StreamsKept : (c : Conn) → IsSorted c.streams → LoopArrives StreamsKept c (frames c)
frames-StreamsKept c w = in_order c (frames c) w (frames-Arrives StreamsStay StreamsStay-IsStep c)
