-- ===== src/Storage/Bytes/Spelling.antt =====
-- Words and the bytes that spell them.
use arb_revm.Base.{
  List, [], ap, arith, drop, length, refl, suc, take, zero, ℕ, ◌%◌, ◌*◌, ◌++◌, ◌+◌, ◌/◌, ◌<◌, ◌∙◌,
  ◌∷◌, ◌≡◌, ◌≤◌,
}
use arb_revm.Base.Bytes.{be_bytes, from_be, from_be-append, length-be_bytes}

-- Every entry is a byte.
unfoldable pub AreBytes : List ℕ → Type 0
AreBytes [] = Unit {0}
AreBytes (b ∷ bs) = (b < 256) × AreBytes bs

pub AreBytes-take : (n : ℕ) (bs : List ℕ) → AreBytes bs → AreBytes (take n bs)
unfolding AreBytes
AreBytes-take zero bs h = tt
AreBytes-take (suc n) [] h = tt
AreBytes-take (suc n) (b ∷ bs) (hb, h) = (hb, AreBytes-take n bs h)

pub AreBytes-drop : (n : ℕ) (bs : List ℕ) → AreBytes bs → AreBytes (drop n bs)
unfolding AreBytes
AreBytes-drop zero bs h = h
AreBytes-drop (suc n) [] h = h
AreBytes-drop (suc n) (b ∷ bs) (hb, h) = AreBytes-drop n bs h

-- The last byte, and those before it.
record Snoc (bs : List ℕ) (n : ℕ) : Type 0 where
  front : List ℕ
  last : ℕ
  joined : bs ≡ front ++ (last ∷ [])
  front_bytes : AreBytes front
  last_byte : last < 256
  size : length front ≡ n

snoc : (bs : List ℕ) (n : ℕ) → AreBytes bs → length bs ≡ suc n → Snoc bs n
unfolding AreBytes
snoc [] n h e = absurd (omega arith)
snoc (b ∷ []) n (hb, h) e = record {
  front = [];
  last = b;
  joined = refl;
  front_bytes = tt;
  last_byte = hb;
  size = omega arith;
}
snoc (b ∷ c ∷ bs) zero h e = absurd (omega arith)
snoc (b ∷ c ∷ bs) (suc n) (hb, h) e =
    let rest : Snoc (c ∷ bs) n = snoc (c ∷ bs) n h (omega arith) in
    record {
      front = b ∷ rest.front;
      last = rest.last;
      joined = ap (λ t. b ∷ t) rest.joined;
      front_bytes = (hb, rest.front_bytes);
      last_byte = rest.last_byte;
      size = omega (arith, rest.size);
    }

-- The word that bytes spell has those bytes.
pub be_bytes-from_be :
    (n : ℕ) (bs : List ℕ) → AreBytes bs → length bs ≡ n → be_bytes n (from_be bs) ≡ bs
unfolding be_bytes
be_bytes-from_be zero [] h e = refl
be_bytes-from_be zero (b ∷ bs) h e = absurd (omega arith)
be_bytes-from_be (suc n) bs h e =
    let split : Snoc bs n = snoc bs n h e in
    rw
      (
        split.joined,
        from_be-append split.front split.last,
        high split.last (from_be split.front) split.last_byte,
        low split.last (from_be split.front) split.last_byte,
      )
      (ap (λ t. t ++ (split.last ∷ []))
        (be_bytes-from_be n split.front split.front_bytes split.size))
  where
    high : (b v : ℕ) → b < 256 → (v * 256 + b) / 256 ≡ v
    high b v hb = omega arith

    low : (b v : ℕ) → b < 256 → (v * 256 + b) % 256 ≡ b
    low b v hb = omega arith

drop-append : (k : ℕ) (xs ys : List ℕ) → k ≤ length xs → drop k (xs ++ ys) ≡ drop k xs ++ ys
drop-append zero xs ys h = refl
drop-append (suc k) [] ys h = absurd (omega arith)
drop-append (suc k) (x ∷ xs) ys h = drop-append k xs ys (omega arith)

drop_all : (k : ℕ) (xs : List ℕ) → length xs ≡ k → drop k xs ≡ []
drop_all zero [] e = refl
drop_all zero (x ∷ xs) e = absurd (omega arith)
drop_all (suc k) [] e = refl
drop_all (suc k) (x ∷ xs) e = drop_all k xs (omega arith)

-- The low bytes of a word are the last of its bytes.
pub drop-be_bytes : (m n k v : ℕ) → m ≡ k + n → drop k (be_bytes m v) ≡ be_bytes n v
unfolding be_bytes
drop-be_bytes m zero k v e = drop_all k (be_bytes m v) (omega (arith, length-be_bytes m v))
drop-be_bytes zero (suc n) k v e = absurd (omega arith)
drop-be_bytes (suc m) (suc n) k v e =
    drop-append k (be_bytes m (v / 256)) (v % 256 ∷ []) (omega (arith, length-be_bytes m (v / 256)))
    ∙ ap (λ t. t ++ (v % 256 ∷ [])) (drop-be_bytes m n k (v / 256) (omega arith))
