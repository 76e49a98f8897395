-- ===== src/Storage/Packed.antt =====
-- Fields of a packed word: `pack_uint` and `unpack_uint` of crates/arb-revm/src/storage/programs.rs.
-- A word is the list of its bytes, 32 of them.
pub mod Fields
use arb_revm.Base.{
  Bool, Bool-cases, List, Option, Option-cases, [], ap, append-nil, append_assoc, ap₂, arith,
  bit_and, bit_or, bit_xor, checked_add, checked_mul, checked_sub, dec_le, dec_lt, drop, eq_self,
  eq_true→eq, false, fun_ext, if◌then◌else◌, inl, inr, leb, length, length-append, le→leb, le→ltb,
  ltb, ltb→lt, lt→ltb, map_option, min, ne→eq_false, none, not, refl, replicate, saturating_add,
  saturating_mul, some, subst, suc, sym, take, true, u256_max, u64_max, unwrap_or, zero, ℕ,
  ℕ_discrete, ◌%◌, ◌&&◌, ◌*◌, ◌++◌, ◌+◌, ◌-◌, ◌/◌, ◌<◌, ◌==◌, ◌^◌, ◌||◌, ◌↔◌, ◌∎, ◌∙◌, ◌∷◌, ◌≡◌,
  ◌≡⟨◌⟩◌, ◌≢◌, ◌≤◌, ◌⊎◌,
}
use arb_revm.Base.Bytes.{from_be, be_bytes}

-- `copy_from_slice` into the bytes from `start` on.
abbrev pub copy_at : List ℕ → ℕ → List ℕ → List ℕ
copy_at word start bytes = take start word ++ (bytes ++ drop (length bytes) (drop start word))

-- `&word[start..start + len]`.
abbrev pub slice : List ℕ → ℕ → ℕ → List ℕ
slice word start len = take len (drop start word)

-- The last `len` of the four bytes of `value`.
unfoldable pub pack_uint : List ℕ → ℕ → ℕ → ℕ → List ℕ
pack_uint word start len value = copy_at word start (drop (4 - len) (be_bytes 4 value))

-- A buffer of four bytes, filled from the right.
unfoldable pub unpack_uint : List ℕ → ℕ → ℕ → ℕ
unpack_uint word start len = from_be (replicate (4 - len) 0 ++ slice word start len)

-- `word[i]`; every index that the source uses is in range.
abbrev pub byte_at : List ℕ → ℕ → ℕ
byte_at [] i = 0
byte_at (b ∷ bs) zero = b
byte_at (b ∷ bs) (suc i) = byte_at bs i
