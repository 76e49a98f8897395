-- ===== src/Storage/Queue/Windows.antt =====
-- Windows of an array between two pointers that it holds itself, at 1 and at 0.
use arb_revm.Base.{
  List, [], ap, ap₂, arith, if◌then◌else◌, min, refl, suc, u64_max, zero, ℕ, ◌++◌, ◌+◌, ◌-◌, ◌<◌,
  ◌==◌, ◌^◌, ◌∙◌, ◌∷◌, ◌≡◌, ◌≢◌, ◌≤◌,
}

-- The words of `f` at `g`, `g + 1`, … , `n` of them.
abbrev pub window : (ℕ → ℕ) → ℕ → ℕ → List ℕ
window f g zero = []
window f g (suc n) = f g ∷ window f (g + 1) n

-- Words outside the window do not show.
window-congr :
    (f h : ℕ → ℕ) (g n : ℕ)
    → ((i : ℕ) → g ≤ i → i < g + n → f i ≡ h i)
    → window f g n ≡ window h g n
window-congr f h g zero e = refl
window-congr f h g (suc n) e =
    ap₂ ◌∷◌ (e g (omega arith) (omega arith))
      (window-congr f h (g + 1) n (λ i lo hi. e i (omega arith) (omega arith)))

window-snoc : (f : ℕ → ℕ) (g n : ℕ) → window f g (suc n) ≡ window f g n ++ (f (g + n) ∷ [])
window-snoc f g zero = ap (λ k. f k ∷ []) (omega arith)
window-snoc f g (suc n) =
    ap (λ t. f g ∷ t)
      (window-snoc f (g + 1) n ∙ ap (λ k. window f (g + 1) n ++ (f k ∷ [])) (omega arith))

window_of_lt :
    (f : ℕ → ℕ) (g p : ℕ) → g < p → window f g (p - g) ≡ f g ∷ window f (g + 1) (p - (g + 1))
window_of_lt f g p h = let e : p - g ≡ suc (p - (g + 1)) = omega arith in rw e

-- What stands between the pointers.
abbrev pub between : (ℕ → ℕ) → List ℕ
between f = window f (f 1) (f 0 - f 1)

pub record InOrder (f : ℕ → ℕ) : Type 0 where
  pub past_pointers : 2 ≤ f 1
  pub in_order : f 1 ≤ f 0
  pub in_u64 : f 0 < u64_max

-- Writing at the put pointer and moving it on appends.
pub between-put :
    (f h : ℕ → ℕ) (v : ℕ)
    → InOrder f
    → ((i : ℕ)
        → i < 2 ^ 64
        → h i ≡ (if f 0 == i then v else if 0 == i then min (f 0 + 1) u64_max else f i))
    → between h ≡ between f ++ (v ∷ [])
between-put f h v o e =
    let e0 : h 0 ≡ f 0 + 1 = ground (arith, e 0) in
    let e1 : h 1 ≡ f 1 = ground (arith, e 1) in
    let n : f 0 + 1 - f 1 ≡ suc (f 0 - f 1) = omega arith in
    rw (e0, e1, n)
      (window-snoc h (f 1) (f 0 - f 1) ∙ ap₂ (λ (xs : List ℕ) (x : ℕ). xs ++ (x ∷ [])) same last)
  where
    same : window h (f 1) (f 0 - f 1) ≡ window f (f 1) (f 0 - f 1)
    same = window-congr h f (f 1) (f 0 - f 1) (λ i lo hi. ground (arith, e i))

    last : h (f 1 + (f 0 - f 1)) ≡ v
    last = let k : f 1 + (f 0 - f 1) ≡ f 0 = omega arith in rw k (ground (arith, e (f 0)))

-- Reading at the get pointer, clearing the word and moving the pointer on takes the oldest off.
pub between-get :
    (f h : ℕ → ℕ)
    → InOrder f
    → f 0 ≢ f 1
    → ((i : ℕ)
        → i < 2 ^ 64
        → h i ≡ (if f 1 == i then 0 else if 1 == i then min (f 1 + 1) u64_max else f i))
    → between f ≡ f (f 1) ∷ between h
between-get f h o ne e =
    let e0 : h 0 ≡ f 0 = ground (arith, e 0) in
    let e1 : h 1 ≡ f 1 + 1 = ground (arith, e 1) in
    window_of_lt f (f 1) (f 0) (omega arith) ∙ ap (λ t. f (f 1) ∷ t) (rw (e0, e1) rest)
  where
    rest : window f (f 1 + 1) (f 0 - (f 1 + 1)) ≡ window h (f 1 + 1) (f 0 - (f 1 + 1))
    rest = window-congr f h (f 1 + 1) (f 0 - (f 1 + 1)) (λ i lo hi. ground (arith, e i))

pub between-empty : (f : ℕ → ℕ) → f 0 ≡ f 1 → between f ≡ []
between-empty f e = let n : f 0 - f 1 ≡ 0 = omega arith in rw n
