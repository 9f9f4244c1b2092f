-- ===== src/HttpServ/Flow/Updates.antt =====
-- What fnUpdateStreamParam does to the windows of the streams.
use http2serv.Prelude.{ℕ, ◌-◌, ◌%◌, ◌^◌, ◌<◌, ◌≤◌, ◌≡◌, ◌≢◌, refl, sym, ap, ◌∙◌, arith, inl, inr}
use http2serv.Prelude.{
  Bool, true, false, ◌==◌, if◌then◌else◌, Bool-cases, Option-cases, ==_iff, [], ◌∷◌, none, some,
}
use http2serv.Prelude.Int.{pos}
use mathlib.Core.Path.{subst}
use http2serv.H2.Streams.{StreamItem, StreamList, find_stream, update_stream}
use http2serv.HttpServ.Flow.{Shared, release, minus, use_window, update_stream_param}
use http2serv.HttpServ.Flow.Moves.{Moves, HasWindow, release-Moves}

-- A change of one stream, seen at a stream.
update_stream-same :
    (id : ℕ) (f : StreamItem → StreamItem) (ss : StreamList) (item : StreamItem)
    → find_stream id ss ≡ some item
    → find_stream id (update_stream id f ss) ≡ some (f item)
unfolding find_stream update_stream
update_stream-same id f [] item h = cc
update_stream-same id f ((k, s) ∷ ss) item h =
    elim (k == id)
        as (λ b.
          (k == id) ≡ b
          → (if b then some s else find_stream id ss) ≡ some item
          → find_stream id (if b then (k, f s) ∷ ss else (k, s) ∷ update_stream id f ss)
            ≡ some (f item)) [
              | true ↦ λ e h. rw e (ap (λ o. elim o [ none ↦ none | some x ↦ some (f x) ]) h)
              | false ↦ λ e h. rw e (update_stream-same id f ss item h)
            ]
      refl h

update_stream-other :
    (id k : ℕ) (f : StreamItem → StreamItem) (ss : StreamList)
    → k ≢ id
    → find_stream k (update_stream id f ss) ≡ find_stream k ss
unfolding find_stream update_stream
update_stream-other id k f [] h = refl
update_stream-other id k f ((i, s) ∷ ss) h =
    elim (i == id)
        as (λ b.
          (i == id) ≡ b
          → find_stream k (if b then (i, f s) ∷ ss else (i, s) ∷ update_stream id f ss)
            ≡ (if i == k then some s else find_stream k ss)) [
              | true ↦ λ e. let other : (i == k) ≡ false = ground (arith, e, h) in rw other refl
              | false ↦ λ e. rw (update_stream-other id k f ss h) refl
            ]
      refl

-- The answer of fnUpdateStreamParam for a stream that is in the table: the reservation is taken back,
-- the window of the connection is smaller by the bytes sent, and no stream is lost.
pub record IsUpdated (id n w : ℕ) (s : Shared) (r : Bool × Shared) : Type 0 where
  pub moves : Moves id 0 s r.1
  pub window : HasWindow (w - n) r.1
  pub kept : (k : ℕ) → find_stream k s.streams ≢ none → find_stream k r.1.streams ≢ none

some-none {ℓ} : {A : Type ℓ} {a : A} → some a ≡ none → ⊥
some-none h = cc

used-kept :
    (id k n : ℕ) (ss : StreamList)
    → find_stream k ss ≢ none
    → find_stream k (update_stream id (use_window n) ss) ≢ none
used-kept id k n ss h = elim (Option-cases (find_stream k ss)) [
  | inl gone ↦ absurd (h gone)
  | inr (item, there) ↦ elim (Bool-cases (k == id)) [
    | inl e ↦ λ q.
        let same : k ≡ id = (==_iff k id).0 e in
        let there' : find_stream id ss ≡ some item =
          subst (λ i. find_stream i ss ≡ some item) same there in
        let q' : find_stream id (update_stream id (use_window n) ss) ≡ none =
          subst (λ i. find_stream i (update_stream id (use_window n) ss) ≡ none) same q in
        some-none (sym (update_stream-same id (use_window n) ss item there') ∙ q')
    | inr e ↦ λ q.
        let other : k ≢ id = ground (arith, e) in
        some-none (sym there ∙ (sym (update_stream-other id k (use_window n) ss other) ∙ q))
  ]
]

minus_pos : (w n : ℕ) → n ≤ w → minus (pos w) n ≡ pos (w - n)
minus_pos w n le = ground (arith, le)

minus_window :
    (w n : ℕ) (item : StreamItem)
    → n ≤ w
    → n < 2 ^ 32
    → item.wnd_size ≡ pos w
    → (use_window n item).wnd_size ≡ pos (w - n)
unfolding use_window
minus_window w n item le small e =
    let small' : n % 2 ^ 32 ≡ n = omega (arith, small) in rw (e, small') (minus_pos w n le)

module _ (id n w : ℕ) (s : Shared) (nonzero : id ≢ 0) (h : HasWindow w s) (le : n ≤ w)
    (small : n < 2 ^ 32) where
  changed : StreamList
  changed = update_stream id (use_window n) s.streams

  zero_same : find_stream 0 changed ≡ find_stream 0 s.streams
  unfolding changed
  zero_same =
      let other : 0 ≢ id = ground (arith, nonzero) in
      update_stream-other id 0 (use_window n) s.streams other

  sent_state : Shared
  sent_state = record (release id s) { streams = update_stream 0 (use_window n) changed }

  used_window :
      (whole : StreamItem) → find_stream 0 changed ≡ some whole → HasWindow (w - n) sent_state
  unfolding sent_state
  used_window whole was item there =
      let is : some (use_window n whole) ≡ some item =
        sym (update_stream-same 0 (use_window n) changed whole was) ∙ there in
      let same : use_window n whole ≡ item =
        ap (λ o. elim o [ none ↦ use_window n whole | some x ↦ x ]) is in
      subst (λ i. i.wnd_size ≡ pos (w - n)) same
        (minus_window w n whole le small (h whole (sym zero_same ∙ was)))

  sent_state-IsUpdated :
      (whole : StreamItem)
      → find_stream 0 changed ≡ some whole
      → IsUpdated id n w s (true, sent_state)
  unfolding sent_state changed
  sent_state-IsUpdated whole was = record {
    moves =
        let m = release-Moves id s nonzero in
        record { own = m.own; sum = m.sum; others = m.others };
    window = used_window whole was;
    kept = λ k there. used-kept 0 k n changed (used-kept id k n s.streams there);
  }

  pub update_stream_param-IsUpdated :
      find_stream id s.streams ≢ none
      → find_stream 0 s.streams ≢ none
      → ((update_stream_param true id n s).0 ≡ true)
        × IsUpdated id n w s (update_stream_param true id n s)
  unfolding update_stream_param changed sent_state release
  update_stream_param-IsUpdated there zero_there = elim (Option-cases (find_stream id s.streams)) [
    | inl gone ↦ absurd (there gone)
    | inr (item, is) ↦ elim (Option-cases (find_stream 0 changed)) [
      | inl gone ↦ absurd (zero_there (sym zero_same ∙ gone))
      | inr (whole, was) ↦
          let answer : update_stream_param true id n s ≡ (true, sent_state) =
            ap
              (λ o. elim o [
                | none ↦ (false, release id s)
                | some item ↦ elim (find_stream 0 changed) [
                  | none ↦ (false, record (release id s) { streams = changed })
                  | some whole ↦ (true, sent_state)
                ]
              ])
              is
            ∙ ap
                (λ o. elim o [
                  | none ↦ (false, record (release id s) { streams = changed })
                  | some whole ↦ (true, sent_state)
                ])
                was in
          (
            ap (λ r. r.0) answer,
            subst (IsUpdated id n w s) (sym answer) (sent_state-IsUpdated whole was),
          )
    ]
  ]
