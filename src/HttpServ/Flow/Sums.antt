-- ===== src/HttpServ/Flow/Sums.antt =====
-- Sums over the streams of the threads.
use http2serv.Prelude.{
  ℕ, ◌+◌, ◌≤◌, ◌≡◌, ◌≢◌, refl, sym, ap, ◌∙◌, arith, inl, inr, List, [], ◌∷◌, All,
}
use http2serv.HttpServ.Flow.Threads.{Has}

unfoldable pub sum : (ℕ → ℕ) → List ℕ → ℕ
sum f [] = 0
sum f (x ∷ xs) = f x + sum f xs

abbrev pub AllDiffer : List ℕ → Type 0
AllDiffer [] = Unit {0}
AllDiffer (x ∷ xs) = All (λ y. y ≢ x) xs × AllDiffer xs

sum_same :
    (f g : ℕ → ℕ) (id : ℕ) (xs : List ℕ)
    → ((k : ℕ) → k ≢ id → f k ≡ g k)
    → All (λ y. y ≢ id) xs
    → sum f xs ≡ sum g xs
unfolding sum
sum_same f g id [] same h = refl
sum_same f g id (x ∷ xs) same h = omega (arith, same x h.0, sum_same f g id xs same h.1)

differs : (id x : ℕ) (xs : List ℕ) → Has id xs → All (λ y. y ≢ x) xs → x ≢ id
differs id x [] h k = absurd h
differs id x (y ∷ ys) (inl e) k = λ q. k.0 (e ∙ sym q)
differs id x (y ∷ ys) (inr h) k = differs id x ys h k.1

-- A sum after a change at one of its places.
pub sum_change :
    (f g : ℕ → ℕ) (id : ℕ) (xs : List ℕ)
    → ((k : ℕ) → k ≢ id → f k ≡ g k)
    → AllDiffer xs
    → Has id xs
    → (sum g xs + f id ≡ sum f xs + g id) × (f id ≤ sum f xs)
unfolding sum
sum_change f g id [] same d h = absurd h
sum_change f g id (x ∷ xs) same d (inl e) =
    let es : sum f xs ≡ sum g xs = sum_same f g x xs (λ k n. same k (λ q. n (q ∙ sym e))) d.0 in
    (omega (arith, es, ap f e, ap g e), omega (arith, ap f e))
sum_change f g id (x ∷ xs) same d (inr h) =
    let rec = sum_change f g id xs same d.1 h in
    let e = same x (differs id x xs h d.0) in (omega (arith, e, rec.0), omega (arith, rec.1))
