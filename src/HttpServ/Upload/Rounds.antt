-- ===== src/HttpServ/Upload/Rounds.antt =====
-- One round of the action thread.
use http2serv.Prelude.{ℕ, ◌≡◌, refl, sym, ap, ◌∙◌, arith, min, ◌⊎◌, true, false, Bool, inl, inr}
use http2serv.Prelude.{none, some, List, [], ◌∷◌, ◌++◌, take}
use mathlib.Core.List.{append_assoc}
use mathlib.Core.Path.{subst}
use http2serv.HttpServ.Upload.{Block, Upload, pop_block, next_len}
use http2serv.HttpServ.Upload.Blocks.{block_text, text, IsOngoing, IsEnded}
use http2serv.HttpServ.Upload.Delivers.{delivered}

pub pop_block-delivered :
    (quits : Bool) (taken : ℕ) (q : List Block) (s : Upload)
    → s.req_data ≡ q
    → (pop_block quits taken q s).left ≡ false
    → delivered (pop_block quits taken q s) ≡ delivered s
unfolding pop_block delivered text block_text
pop_block-delivered true taken [] s e stays = cc
pop_block-delivered false taken [] s e stays = refl
pop_block-delivered quits taken (none ∷ rest) s e stays = sym (ap (λ l. s.handed ++ text l) e)
pop_block-delivered true taken (some (data_len, bytes) ∷ rest) s e stays = cc
pop_block-delivered false taken (some (data_len, bytes) ∷ rest) s e stays =
    let whole : min taken data_len ≡ data_len = ground (arith, stays) in
    ap (λ k. (s.handed ++ take k bytes) ++ text rest) whole
    ∙ append_assoc s.handed (take data_len bytes) (text rest)
    ∙ sym (ap (λ l. s.handed ++ text l) e)

pub pop_block_keeps :
    (quits : Bool) (taken : ℕ) (q : List Block) (s : Upload)
    → ((pop_block quits taken q s).contents_soll ≡ s.contents_soll)
      × ((pop_block quits taken q s).content_recv ≡ s.content_recv)
      × ((pop_block quits taken q s).str_buffer ≡ s.str_buffer)
unfolding pop_block
pop_block_keeps true taken [] s = (refl, refl, refl)
pop_block_keeps false taken [] s = (refl, refl, refl)
pop_block_keeps quits taken (none ∷ rest) s = (refl, refl, refl)
pop_block_keeps true taken (some b ∷ rest) s = (refl, refl, refl)
pop_block_keeps false taken (some b ∷ rest) s = (refl, refl, refl)

pub pop_block-IsOngoing :
    (quits : Bool) (taken : ℕ) (q : List Block) (s : Upload)
    → s.req_data ≡ q
    → IsOngoing q
    → IsOngoing (pop_block quits taken q s).req_data
      × ((pop_block quits taken q s).at_end ≡ s.at_end)
unfolding pop_block IsOngoing
pop_block-IsOngoing true taken [] s e h = (subst IsOngoing (sym e) h, refl)
pop_block-IsOngoing false taken [] s e h = (subst IsOngoing (sym e) h, refl)
pop_block-IsOngoing quits taken (none ∷ rest) s e h = absurd h
pop_block-IsOngoing true taken (some b ∷ rest) s e h = (h, refl)
pop_block-IsOngoing false taken (some b ∷ rest) s e h = (h, refl)

pub pop_block-IsEnded :
    (quits : Bool) (taken : ℕ) (q : List Block) (s : Upload)
    → IsEnded q
    → s.at_end ≡ false
    → s.left ≡ false
    → (IsEnded (pop_block quits taken q s).req_data × ((pop_block quits taken q s).at_end ≡ false))
      ⊎ (((pop_block quits taken q s).req_data ≡ [])
          × ((pop_block quits taken q s).at_end ≡ true)
          × ((pop_block quits taken q s).left ≡ false))
unfolding pop_block IsEnded
pop_block-IsEnded quits taken [] s h go k = absurd h
pop_block-IsEnded quits taken (none ∷ rest) s h go k = inr (h, refl, k)
pop_block-IsEnded true taken (some b ∷ rest) s h go k = inl (h, go)
pop_block-IsEnded false taken (some b ∷ rest) s h go k = inl (h, go)

-- A round that takes the whole block leaves the rest of the queue.
pub whole_round :
    (b : Block) (rest : List Block) (s : Upload)
    → s.left ≡ false
    → ((pop_block false (next_len (b ∷ rest)) (b ∷ rest) s).req_data ≡ rest)
      × ((pop_block false (next_len (b ∷ rest)) (b ∷ rest) s).left ≡ false)
unfolding pop_block next_len
whole_round none rest s k = (refl, k)
whole_round (some (data_len, bytes)) rest s k = (refl, ground arith)
