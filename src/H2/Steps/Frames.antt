-- ===== src/H2/Steps/Frames.antt =====
-- The loop of Http2StreamProto: it ends, and a relation of the elementary changes holds between the
-- connection before and after it.
use http2serv.Prelude.{ℕ, zero, suc, ◌-◌, ◌≤◌, ◌<◌, ◌≡◌, ◌≢◌, refl, arith, Bool, true, false, ltb}
use http2serv.Prelude.{Option, none, some, length, take, length-drop, if◌then◌else◌}
use http2serv.H2.Frame.{H2Frame, h2_header_len, read_frame_header}
use http2serv.H2.Exec.{Conn, Exec, ok, throw, fault, sub64}
use http2serv.H2.Proto.{
  one_frame, Round, ended, again, after_frame, frame_round, round, frames_loop, frames,
}
use http2serv.H2.Steps.{IsStep, Arrives}
use http2serv.H2.Steps.Loop.{
  one_frame-Arrives, read_frame_header-length, Shorter, Shorter-IsStep, header_read,
}

-- A round ends with the loop, or takes a frame header at least.
abbrev RoundArrives : (Conn → Conn → Type 0) → Conn → Round → Type 0
RoundArrives R c (ended x) = Arrives R c x
RoundArrives R c (again d) = (9 ≤ length c.input) × R (header_read c) d

if-RoundArrives :
    (R : Conn → Conn → Type 0) (c : Conn) (b : Bool) (x y : Round)
    → RoundArrives R c x
    → RoundArrives R c y
    → RoundArrives R c (if b then x else y)
if-RoundArrives R c true x y p q = p
if-RoundArrives R c false x y p q = q

after_frame-RoundArrives :
    (R : Conn → Conn → Type 0)
    → IsStep R
    → (c : Conn) (x : Exec (Unit {0})) → 9 ≤ length c.input
    → Arrives R (header_read c) x
    → RoundArrives R c (after_frame x)
unfolding after_frame
after_frame-RoundArrives R step c (ok u d) n p = (n, p)
after_frame-RoundArrives R step c (throw e id d) n p =
    step.joins c (header_read c) d (step.reads 9 (sub64 c.len 9) c) p
after_frame-RoundArrives R step c fault n p = tt

frame_round-RoundArrives :
    (R : Conn → Conn → Type 0)
    → IsStep R
    → (c : Conn) (o : Option H2Frame) → read_frame_header c.input ≡ o
    → RoundArrives R c (frame_round c o)
unfolding frame_round
frame_round-RoundArrives R step c none h = tt
frame_round-RoundArrives R step c (some fr) h =
    if-RoundArrives R c (ltb (c.len - h2_header_len) fr.size) _ _ (step.stays c) (
      after_frame-RoundArrives R step c (one_frame (take h2_header_len c.input) fr c)
        (read_frame_header-length c.input fr h)
        (one_frame-Arrives R step (take h2_header_len c.input) fr c))

round-RoundArrives : (R : Conn → Conn → Type 0) → IsStep R → (c : Conn) → RoundArrives R c (round c)
unfolding round
round-RoundArrives R step c =
    if-RoundArrives R c (ltb c.len h2_header_len) _ _ (step.stays c)
      (frame_round-RoundArrives R step c (read_frame_header c.input) refl)

frames_loop-enough : (fuel : ℕ) (c : Conn) → length c.input < fuel → frames_loop fuel c ≢ none
unfolding frames_loop
frames_loop-enough zero c h z = omega (arith, h)
frames_loop-enough (suc fuel) c h z =
    elim (round c)
        as (λ r.
          RoundArrives Shorter c r
          → elim r [ ended x ↦ some x | again d ↦ frames_loop fuel d ] ≢ none) [
            | ended x ↦ λ p q. cc
            | again d ↦
                λ p. frames_loop-enough fuel d (omega (arith, h, p.0, p.1, length-drop 9 c.input))
          ]
      (round-RoundArrives Shorter Shorter-IsStep c) z

-- The loop over the frames ends: with one round more than there are bytes it never runs out of
-- rounds.
pub frames-total : (c : Conn) → frames c ≢ none
unfolding frames
frames-total c = frames_loop-enough (suc (length c.input)) c (omega arith)

abbrev pub LoopArrives : (Conn → Conn → Type 0) → Conn → Option (Exec (Unit {0})) → Type 0
LoopArrives R c none = Unit {0}
LoopArrives R c (some x) = Arrives R c x

further :
    (R : Conn → Conn → Type 0)
    → IsStep R
    → (c d : Conn) (o : Option (Exec (Unit {0}))) → R c d
    → LoopArrives R d o
    → LoopArrives R c o
further R step c d none p q = tt
further R step c d (some (ok u e)) p q = step.joins c d e p q
further R step c d (some (throw x id e)) p q = step.joins c d e p q
further R step c d (some fault) p q = tt

frames_loop-Arrives :
    (R : Conn → Conn → Type 0)
    → IsStep R
    → (fuel : ℕ) (c : Conn) → LoopArrives R c (frames_loop fuel c)
unfolding frames_loop
frames_loop-Arrives R step zero c = tt
frames_loop-Arrives R step (suc fuel) c =
    elim (round c)
        as (λ r.
          RoundArrives R c r
          → LoopArrives R c (elim r [ ended x ↦ some x | again d ↦ frames_loop fuel d ])) [
            | ended x ↦ λ p. p
            | again d ↦ λ p.
                further R step c d (frames_loop fuel d)
                  (step.joins c (header_read c) d (step.reads 9 (sub64 c.len 9) c) p.1)
                  (frames_loop-Arrives R step fuel d)
          ]
      (round-RoundArrives R step c)

-- A relation of the elementary changes holds between a connection and what the loop leaves of it,
-- whether it ends or throws.
pub frames-Arrives : (R : Conn → Conn → Type 0) → IsStep R → (c : Conn) → LoopArrives R c (frames c)
unfolding frames
frames-Arrives R step c = frames_loop-Arrives R step (suc (length c.input)) c
