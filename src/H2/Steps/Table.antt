-- ===== src/H2/Steps/Table.antt =====
-- The table of the streams under insertions and changes: its order, and what its streams keep.
use http2serv.Prelude.{ℕ, ◌<◌, ◌≡◌, refl, arith, true, false, ltb, ◌==◌, ltb→lt}
use http2serv.Prelude.{[], ◌∷◌, Option, none, some, if◌then◌else◌}
use http2serv.H2.Streams.{
  StreamItem, StreamList, find_stream, insert_stream, update_stream, update_nonzero,
}
use http2serv.H2.Steps.{KeepsBits, KeepsBits-refl, KeepsBits-trans, Gentle}

-- The stream `id` of `ts` continues the one of `ss`, if that is there.
abbrev pub Continues : Option StreamItem → Option StreamItem → Type 0
Continues none t = Unit {0}
Continues (some s) none = ⊥
Continues (some s) (some t) = KeepsBits s.state t.state

pub Continues-refl : (o : Option StreamItem) → Continues o o
Continues-refl none = tt
Continues-refl (some s) = KeepsBits-refl s.state

pub none-Continues : (o p : Option StreamItem) → o ≡ none → Continues o p
none-Continues none p h = tt
none-Continues (some s) p h = absurd (ground (arith, h))

pub Continues-trans : (o p q : Option StreamItem) → Continues o p → Continues p q → Continues o q
Continues-trans none p q h k = tt
Continues-trans (some s) none q h k = absurd h
Continues-trans (some s) (some t) none h k = absurd k
Continues-trans (some s) (some t) (some u) h k = KeepsBits-trans s.state t.state u.state h k

-- The map keeps its keys in ascending order.
abbrev pub Above : ℕ → StreamList → Type 0
Above k [] = Unit {0}
Above k ((i, s) ∷ ss) = (k < i) × Above k ss

abbrev pub IsSorted : StreamList → Type 0
IsSorted [] = Unit {0}
IsSorted ((i, s) ∷ ss) = Above i ss × IsSorted ss

pub Above-update_stream :
    (k id : ℕ) (f : StreamItem → StreamItem) (ss : StreamList)
    → Above k ss
    → Above k (update_stream id f ss)
unfolding update_stream
Above-update_stream k id f [] h = tt
Above-update_stream k id f ((i, s) ∷ ss) h =
    elim (i == id) as (λ b. Above k (if b then (i, f s) ∷ ss else (i, s) ∷ update_stream id f ss)) [
      | true ↦ (h.0, h.1)
      | false ↦ (h.0, Above-update_stream k id f ss h.1)
    ]

pub IsSorted-update_stream :
    (id : ℕ) (f : StreamItem → StreamItem) (ss : StreamList)
    → IsSorted ss
    → IsSorted (update_stream id f ss)
unfolding update_stream
IsSorted-update_stream id f [] h = tt
IsSorted-update_stream id f ((i, s) ∷ ss) h =
    elim (i == id)
      as (λ b. IsSorted (if b then (i, f s) ∷ ss else (i, s) ∷ update_stream id f ss)) [
        | true ↦ (h.0, h.1)
        | false ↦ (Above-update_stream i id f ss h.0, IsSorted-update_stream id f ss h.1)
      ]

pub update_stream-Continues :
    (id k : ℕ) (f : StreamItem → StreamItem) (ss : StreamList)
    → Gentle f
    → Continues (find_stream k ss) (find_stream k (update_stream id f ss))
unfolding find_stream update_stream
update_stream-Continues id k f [] g = tt
update_stream-Continues id k f ((i, s) ∷ ss) g =
    elim (i == id)
      as (λ b.
        Continues (if i == k then some s else find_stream k ss)
          (find_stream k (if b then (i, f s) ∷ ss else (i, s) ∷ update_stream id f ss))) [
            | true ↦
                elim (i == k)
                  as (λ b.
                    Continues (if b then some s else find_stream k ss)
                      (if b then some (f s) else find_stream k ss)) [
                        | true ↦ g s
                        | false ↦ Continues-refl (find_stream k ss)
                      ]
            | false ↦
                elim (i == k)
                  as (λ b.
                    Continues (if b then some s else find_stream k ss)
                      (if b then some s else find_stream k (update_stream id f ss))) [
                        | true ↦ KeepsBits-refl s.state
                        | false ↦ update_stream-Continues id k f ss g
                      ]
          ]

pub Above-weaken : (i k : ℕ) (ss : StreamList) → i < k → Above k ss → Above i ss
Above-weaken i k [] l h = tt
Above-weaken i k ((j, s) ∷ ss) l h = (omega (arith, l, h.0), Above-weaken i k ss l h.1)

pub find_stream-Above : (k : ℕ) (ss : StreamList) → Above k ss → find_stream k ss ≡ none
unfolding find_stream
find_stream-Above k [] h = refl
find_stream-Above k ((i, s) ∷ ss) h = ground (arith, h.0, find_stream-Above k ss h.1)

pub Above-insert_stream :
    (k id : ℕ) (t : StreamItem) (ss : StreamList)
    → k < id
    → Above k ss
    → Above k (insert_stream id t ss)
unfolding insert_stream
Above-insert_stream k id t [] l h = (l, tt)
Above-insert_stream k id t ((i, s) ∷ ss) l h =
    elim (i == id)
      as (λ b. Above k (
        if b
        then (i, s) ∷ ss
        else if ltb id i
        then (id, t) ∷ (i, s) ∷ ss
        else (i, s) ∷ insert_stream id t ss)) [
          | true ↦ h
          | false ↦
              elim (ltb id i)
                as (λ b.
                  Above k (if b then (id, t) ∷ (i, s) ∷ ss else (i, s) ∷ insert_stream id t ss)) [
                    | true ↦ (l, (h.0, h.1))
                    | false ↦ (h.0, Above-insert_stream k id t ss l h.1)
                  ]
        ]

pub IsSorted-insert_stream :
    (id : ℕ) (t : StreamItem) (ss : StreamList) → IsSorted ss → IsSorted (insert_stream id t ss)
unfolding insert_stream
IsSorted-insert_stream id t [] h = (tt, tt)
IsSorted-insert_stream id t ((i, s) ∷ ss) h =
    elim (i == id)
        as (λ b.
          i == id ≡ b
          → IsSorted (
              if b
              then (i, s) ∷ ss
              else if ltb id i
              then (id, t) ∷ (i, s) ∷ ss
              else (i, s) ∷ insert_stream id t ss)) [
                | true ↦ λ e. h
                | false ↦ λ e.
                    elim (ltb id i)
                        as (λ b.
                          ltb id i ≡ b
                          → IsSorted (
                              if b
                              then (id, t) ∷ (i, s) ∷ ss
                              else (i, s) ∷ insert_stream id t ss)) [
                                | true ↦ λ l. (
                                  (ltb→lt id i l, Above-weaken id i ss (ltb→lt id i l) h.0),
                                  (h.0, h.1),
                                )
                                | false ↦ λ l. (
                                  Above-insert_stream i id t ss (ground (arith, e, l)) h.0,
                                  IsSorted-insert_stream id t ss h.1,
                                )
                              ]
                      refl
              ]
      refl

pub insert_stream-Continues :
    (id k : ℕ) (t : StreamItem) (ss : StreamList)
    → IsSorted ss
    → Continues (find_stream k ss) (find_stream k (insert_stream id t ss))
unfolding find_stream insert_stream
insert_stream-Continues id k t [] h = tt
insert_stream-Continues id k t ((i, s) ∷ ss) h =
    elim (i == id)
      as (λ b. Continues old (
        find_stream k (
          if b
          then (i, s) ∷ ss
          else if ltb id i
          then (id, t) ∷ (i, s) ∷ ss
          else (i, s) ∷ insert_stream id t ss))) [
            | true ↦ Continues-refl old
            | false ↦
                elim (ltb id i)
                    as (λ b.
                      ltb id i ≡ b
                      → Continues old (
                          find_stream k (
                            if b then (id, t) ∷ (i, s) ∷ ss else (i, s) ∷ insert_stream id t ss))) [
                              | true ↦ λ l.
                                  elim (id == k)
                                      as (λ b.
                                        (id == k) ≡ b → Continues old (if b then some t else old)) [
                                          | true ↦ λ e.
                                              none-Continues old (some t)
                                                (find_stream-Above k ((i, s) ∷ ss) (in_front l e))
                                          | false ↦ λ e. Continues-refl old
                                        ]
                                    refl
                              | false ↦ λ l.
                                  elim (i == k)
                                    as (λ b. Continues (if b then some s else find_stream k ss) (
                                      if b
                                      then some s
                                      else find_stream k (insert_stream id t ss))) [
                                        | true ↦ KeepsBits-refl s.state
                                        | false ↦ insert_stream-Continues id k t ss h.1
                                      ]
                            ]
                  refl
          ]
  where
    old : Option StreamItem
    old = if i == k then some s else find_stream k ss

    in_front : ltb id i ≡ true → (id == k) ≡ true → (k < i) × Above k ss
    in_front l e = (ground (arith, l, e), Above-weaken k i ss (ground (arith, l, e)) h.0)

pub Above-update_nonzero :
    (k : ℕ) (f : StreamItem → StreamItem) (ss : StreamList)
    → Above k ss
    → Above k (update_nonzero f ss)
unfolding update_nonzero
Above-update_nonzero k f [] h = tt
Above-update_nonzero k f ((i, s) ∷ ss) h = (h.0, Above-update_nonzero k f ss h.1)

pub IsSorted-update_nonzero :
    (f : StreamItem → StreamItem) (ss : StreamList) → IsSorted ss → IsSorted (update_nonzero f ss)
unfolding update_nonzero
IsSorted-update_nonzero f [] h = tt
IsSorted-update_nonzero f ((i, s) ∷ ss) h =
    (Above-update_nonzero i f ss h.0, IsSorted-update_nonzero f ss h.1)

pub update_nonzero-Continues :
    (k : ℕ) (f : StreamItem → StreamItem) (ss : StreamList)
    → Gentle f
    → Continues (find_stream k ss) (find_stream k (update_nonzero f ss))
unfolding find_stream update_nonzero
update_nonzero-Continues k f [] g = tt
update_nonzero-Continues k f ((i, s) ∷ ss) g =
    elim (i == k)
      as (λ b.
        Continues (if b then some s else find_stream k ss)
          (if b then some (if i == 0 then s else f s) else find_stream k (update_nonzero f ss))) [
            | true ↦
                elim (i == 0)
                  as (λ b. KeepsBits s.state (StreamItem.state (if b then s else f s))) [
                    | true ↦ KeepsBits-refl s.state
                    | false ↦ g s
                  ]
            | false ↦ update_nonzero-Continues k f ss g
          ]
