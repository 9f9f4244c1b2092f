-- ===== src/H2/Proto/Ends.antt =====
-- How Http2StreamProto returns: always, and with an answer to every exception.
use http2serv.Prelude.{
  ℕ, ◌≡◌, ◌≢◌, refl, ap, ◌∙◌, arith, Bool, true, false, ltb, ◌==◌, if◌then◌else◌,
}
use http2serv.Prelude.{Option, none, some}
use mathlib.Core.Path.{subst}
use http2serv.Hpack.Result.{stream_closed, data_without_stream, max_frame_size, frame_size_value}
use http2serv.H2.Streams.{StreamItem, find_stream}
use http2serv.H2.Exec.{
  Conn, Exec, M, ok, throw, fault, stream0_receives, ◌>>=◌, ◌>>◌, throw_if, get,
}
use http2serv.H2.Data.{data_guards, data_stream}
use http2serv.H2.Proto.{frames}
use http2serv.H2.Steps.Frames.{LoopArrives}
use http2serv.H2.Steps.Table.{Continues, IsSorted}
use http2serv.H2.Steps.Relations.{StreamsKept, frames-StreamsKept}

runs_on {ℓ κ} :
    {A : Type ℓ} {B : Type κ} (m : M A) (f : A → M B) (c : Conn) (a : A) (d : Conn) {x : Exec B}
    → m c ≡ ok a d
    → f a d ≡ x
    → (m >>= f) c ≡ x
runs_on m f c a d h k =
    ap (λ y. elim y [ ok a d ↦ f a d | throw e id d ↦ throw e id d | fault ↦ fault ]) h ∙ k

refuses_ended :
    (id size pad : ℕ) (d : Conn) (t z : StreamItem)
    → id ≢ 0
    → find_stream id d.streams ≡ some t
    → t.state.stream_end ≡ true
    → find_stream 0 d.streams ≡ some z
    → z.state.header_received ≡ false
    → data_guards id size pad d ≡ throw stream_closed id d
unfolding data_guards data_stream stream0_receives
refuses_ended id size pad d t z n h e k f = runs_on (data_stream id) _ d t d (ap found h) (
    runs_on (throw_if (id == 0) data_without_stream 0) _ d tt d
      (ap (λ b. if b then throw data_without_stream 0 d else ok tt d) not_zero)
      (runs_on stream0_receives _ d false d (ap received k ∙ ap (λ b. ok b d) f) (
        ap
          (λ b. elim (if b then throw stream_closed id d else ok tt d) [
            | ok u c ↦ rest c
            | throw x i c ↦ throw x i c
            | fault ↦ fault
          ])
          e)))
  where
    not_zero : (id == 0) ≡ false
    not_zero = ground (arith, n)

    found : Option StreamItem → Exec StreamItem
    found o = elim o [ some s ↦ ok s d | none ↦ throw data_without_stream 0 d ]

    received : Option StreamItem → Exec Bool
    received o = elim o [ some s ↦ ok s.state.header_received d | none ↦ fault ]

    rest : M (Unit {0})
    rest = do
      throw_if t.state.reset_stream stream_closed 0
      c ← get
      throw_if (ltb c.settings.max_frame_size size) max_frame_size id
      throw_if (ltb size pad) frame_size_value id

continued_end :
    (s : StreamItem) (o : Option StreamItem)
    → s.state.stream_end ≡ true
    → Continues (some s) o
    → (t : StreamItem) × (o ≡ some t) × (t.state.stream_end ≡ true)
continued_end s none e p = absurd p
continued_end s (some t) e p = (t, refl, p.keeps_stream_end e)

-- In a connection whose streams are in ascending order, a stream other than 0 whose data had ended
-- before a loop that returned refuses more data after it: the guards of a DATA frame throw
-- STREAM_CLOSED for it, whatever the frame's size and padding, if stream 0 is there after the loop
-- and marks no header as open.
pub ended_stream-data_guards :
    (id size pad : ℕ) (c d : Conn) (s z : StreamItem)
    → IsSorted c.streams
    → frames c ≡ some (ok tt d)
    → id ≢ 0
    → find_stream id c.streams ≡ some s
    → s.state.stream_end ≡ true
    → find_stream 0 d.streams ≡ some z
    → z.state.header_received ≡ false
    → data_guards id size pad d ≡ throw stream_closed id d
ended_stream-data_guards id size pad c d s z w fs n h e k f =
    refuses_ended id size pad d t.0 z n t.1 t.2 k f
  where
    stays : StreamsKept c d
    stays = subst (λ o. LoopArrives StreamsKept c o) fs (frames-StreamsKept c w)

    t : (t : StreamItem) × (find_stream id d.streams ≡ some t) × (t.state.stream_end ≡ true)
    t =
        continued_end s (find_stream id d.streams) e
          (subst (λ o. Continues o (find_stream id d.streams)) h (stays.1 id))
