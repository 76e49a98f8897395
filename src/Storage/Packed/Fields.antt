-- ===== src/Storage/Packed/Fields.antt =====
-- What packing a field does to it and to the others.
use arb_revm.Base.{
  List, [], ap, arith, drop, inl, inr, length, refl, replicate, suc, sym, take, zero, ℕ, ◌++◌, ◌+◌,
  ◌-◌, ◌<◌, ◌^◌, ◌∙◌, ◌∷◌, ◌≡◌, ◌≤◌, ◌⊎◌,
}
use arb_revm.Storage.Bytes.Spelling.{drop-be_bytes}
use arb_revm.Base.Bytes.{from_be, be_bytes, length-be_bytes, from_be-be_bytes, from_be-zeros}
use arb_revm.Storage.Packed.{copy_at, slice, unpack_uint, pack_uint}

take-append : (xs ys : List ℕ) → take (length xs) (xs ++ ys) ≡ xs
take-append [] ys = refl
take-append (x ∷ xs) ys = ap (λ t. x ∷ t) (take-append xs ys)

slice-copy_at :
    (start : ℕ) (word bytes : List ℕ)
    → start ≤ length word
    → slice (copy_at word start bytes) start (length bytes) ≡ bytes
slice-copy_at zero word bytes h = take-append bytes (drop (length bytes) word)
slice-copy_at (suc start) [] bytes h = absurd (omega arith)
slice-copy_at (suc start) (b ∷ word) bytes h = slice-copy_at start word bytes (omega arith)

-- A field that ends before the bytes written.
slice-copy_at_before :
    (at len start : ℕ) (word bytes : List ℕ)
    → at + len ≤ start
    → start ≤ length word
    → slice (copy_at word start bytes) at len ≡ slice word at len
slice-copy_at_before zero zero start word bytes h k = refl
slice-copy_at_before zero (suc len) zero word bytes h k = absurd (omega arith)
slice-copy_at_before zero (suc len) (suc start) [] bytes h k = absurd (omega arith)
slice-copy_at_before zero (suc len) (suc start) (b ∷ word) bytes h k =
    ap (λ t. b ∷ t) (slice-copy_at_before 0 len start word bytes (omega arith) (omega arith))
slice-copy_at_before (suc at) len zero word bytes h k = absurd (omega arith)
slice-copy_at_before (suc at) len (suc start) [] bytes h k = absurd (omega arith)
slice-copy_at_before (suc at) len (suc start) (b ∷ word) bytes h k =
    slice-copy_at_before at len start word bytes (omega arith) (omega arith)

drop_nil : (n : ℕ) → drop {A = ℕ} n [] ≡ []
drop_nil zero = refl
drop_nil (suc n) = refl

drop-append_length :
    (at : ℕ) (xs word : List ℕ)
    → length xs ≤ at
    → drop at (xs ++ drop (length xs) word) ≡ drop at word
drop-append_length at [] word h = refl
drop-append_length zero (x ∷ xs) word h = absurd (omega arith)
drop-append_length (suc at) (x ∷ xs) [] h =
    ap (λ t. drop at (xs ++ t)) (sym (drop_nil (length xs)))
    ∙ drop-append_length at xs [] (omega arith)
    ∙ drop_nil at
drop-append_length (suc at) (x ∷ xs) (b ∷ word) h = drop-append_length at xs word (omega arith)

-- A field that starts after them.
drop-copy_at_after :
    (at start : ℕ) (word bytes : List ℕ)
    → start + length bytes ≤ at
    → start ≤ length word
    → drop at (copy_at word start bytes) ≡ drop at word
drop-copy_at_after at zero word bytes h k = drop-append_length at bytes word (omega arith)
drop-copy_at_after zero (suc start) word bytes h k = absurd (omega arith)
drop-copy_at_after (suc at) (suc start) [] bytes h k = absurd (omega arith)
drop-copy_at_after (suc at) (suc start) (b ∷ word) bytes h k =
    drop-copy_at_after at start word bytes (omega arith) (omega arith)

-- The bytes that a field of `len` takes.
pub field_bytes : (len v : ℕ) → len ≤ 4 → drop (4 - len) (be_bytes 4 v) ≡ be_bytes len v
field_bytes len v h = drop-be_bytes 4 len (4 - len) v (omega arith)

-- A field of at most four bytes within a word reads as the number packed into it if that fits, and
-- a field that does not overlap it reads as before.
pub unpack_uint-pack_uint :
    (word : List ℕ) (start len value at n : ℕ)
    → start + len ≤ length word
    → len ≤ 4
    → value < 256 ^ len
    → (at + n ≤ start) ⊎ (start + len ≤ at)
    → (unpack_uint (pack_uint word start len value) start len ≡ value)
      × (unpack_uint (pack_uint word start len value) at n ≡ unpack_uint word at n)
unfolding unpack_uint pack_uint
unpack_uint-pack_uint word start len value at n inside short fits apart =
    rw (field_bytes len value short) (own, other apart)
  where
    bytes : List ℕ
    bytes = be_bytes len value

    own :
        from_be (replicate (4 - len) 0 ++ slice (copy_at word start (be_bytes len value)) start len)
        ≡ value
    own =
        from_be-zeros (4 - len) (slice (copy_at word start (be_bytes len value)) start len)
        ∙ ap (λ m. from_be (slice (copy_at word start (be_bytes len value)) start m))
            (sym (length-be_bytes len value))
        ∙ ap from_be (slice-copy_at start word (be_bytes len value) (omega arith))
        ∙ from_be-be_bytes len value fits

    other :
        (at + n ≤ start) ⊎ (start + len ≤ at)
        → from_be (replicate (4 - n) 0 ++ slice (copy_at word start (be_bytes len value)) at n)
          ≡ from_be (replicate (4 - n) 0 ++ slice word at n)
    other (inl before) =
        ap (λ t. from_be (replicate (4 - n) 0 ++ t))
          (slice-copy_at_before at n start word (be_bytes len value) before (omega arith))
    other (inr after) =
        ap (λ t. from_be (replicate (4 - n) 0 ++ take n t))
          (drop-copy_at_after at start word (be_bytes len value)
            (omega (arith, length-be_bytes len value)) (omega arith))
