-- ===== src/HttpServ/Upload/Blocks.antt =====
-- The bytes in a queue of blocks, and where the queue has its null pointer.
use http2serv.Prelude.{ℕ, suc, zero, ◌+◌, ◌%◌, ◌^◌, ◌≤◌, ◌<◌, ◌≡◌, refl, sym, ap, ◌∙◌, arith}
use http2serv.Prelude.{none, some, List, [], ◌∷◌, ◌++◌, length, take, drop}
use mathlib.Core.List.{append_assoc, append-nil}
use http2serv.HttpServ.Upload.{Block, new_block}

unfoldable pub block_text : Block → List ℕ
block_text none = []
block_text (some (data_len, bytes)) = take data_len bytes

unfoldable pub text : List Block → List ℕ
text [] = []
text (b ∷ bs) = block_text b ++ text bs

-- No null pointer is in the queue.
unfoldable pub IsOngoing : List Block → Type 0
IsOngoing [] = Unit
IsOngoing (none ∷ bs) = ⊥
IsOngoing (some b ∷ bs) = IsOngoing bs

-- The last entry is the null pointer, and no other is.
unfoldable pub IsEnded : List Block → Type 0
IsEnded [] = ⊥
IsEnded (none ∷ bs) = bs ≡ []
IsEnded (some b ∷ bs) = IsEnded bs

pub text-append : (bs cs : List Block) → text (bs ++ cs) ≡ text bs ++ text cs
unfolding text
text-append [] cs = refl
text-append (b ∷ bs) cs =
    ap (λ l. block_text b ++ l) (text-append bs cs)
    ∙ sym (append_assoc (block_text b) (text bs) (text cs))

pub take_all {ℓ} : {A : Type ℓ} (n : ℕ) (xs : List A) → length xs ≤ n → take n xs ≡ xs
take_all zero [] h = refl
take_all zero (x ∷ xs) h = let no : ⊥ = omega (arith, h) in elim no [ ]
take_all (suc n) [] h = refl
take_all (suc n) (x ∷ xs) h = ap (λ l. x ∷ l) (take_all n xs (omega (arith, h)))

pub drop_all {ℓ} : {A : Type ℓ} (n : ℕ) (xs : List A) → length xs ≤ n → drop n xs ≡ []
drop_all zero [] h = refl
drop_all zero (x ∷ xs) h = let no : ⊥ = omega (arith, h) in elim no [ ]
drop_all (suc n) [] h = refl
drop_all (suc n) (x ∷ xs) h = drop_all n xs (omega (arith, h))

pub take-past {ℓ} :
    {A : Type ℓ} (xs ys : List A) (n : ℕ) → take (length xs + n) (xs ++ ys) ≡ xs ++ take n ys
take-past [] ys n = ap (λ k. take k ys) (omega arith)
take-past (x ∷ xs) ys n =
    ap (λ k. take k (x ∷ (xs ++ ys))) {y = suc (length xs + n)} (omega arith)
    ∙ ap (λ l. x ∷ l) (take-past xs ys n)

pub drop-past {ℓ} :
    {A : Type ℓ} (xs ys : List A) (n : ℕ) → drop (length xs + n) (xs ++ ys) ≡ drop n ys
drop-past [] ys n = ap (λ k. drop k ys) (omega arith)
drop-past (x ∷ xs) ys n =
    ap (λ k. drop k (x ∷ (xs ++ ys))) {y = suc (length xs + n)} (omega arith) ∙ drop-past xs ys n

pub text-new_block : (bytes : List ℕ) → length bytes < 2 ^ 32 → text (new_block bytes ∷ []) ≡ bytes
unfolding text block_text new_block
text-new_block bytes h =
    append-nil (take (length bytes % 2 ^ 32) bytes)
    ∙ take_all (length bytes % 2 ^ 32) bytes (omega (arith, h))

pub append-IsOngoing :
    (bs : List Block) (bytes : List ℕ) → IsOngoing bs → IsOngoing (bs ++ (new_block bytes ∷ []))
unfolding IsOngoing new_block
append-IsOngoing [] bytes h = tt
append-IsOngoing (none ∷ bs) bytes h = h
append-IsOngoing (some b ∷ bs) bytes h = append-IsOngoing bs bytes h

pub append-IsEnded : (bs : List Block) → IsOngoing bs → IsEnded (bs ++ (none ∷ []))
unfolding IsOngoing IsEnded
append-IsEnded [] h = refl
append-IsEnded (none ∷ bs) h = elim h [ ]
append-IsEnded (some b ∷ bs) h = append-IsEnded bs h
