-- ===== src/L1Cost/Rlp.antt =====
-- The RLP encoder of crates/arb-revm/src/l1_cost.rs.
use arb_revm.Base.{List, [], if◌then◌else◌, length, ltb, ℕ, ◌++◌, ◌+◌, ◌==◌, ◌∷◌}
use arb_revm.Base.Bytes.{be_bytes}

unfoldable pub strip_leading_zeros : List ℕ → List ℕ
strip_leading_zeros [] = []
strip_leading_zeros (b ∷ bytes) =
    let rest = strip_leading_zeros bytes in if b == 0 then rest else b ∷ bytes

-- The bytes that go before a payload of `len` bytes.
unfoldable pub rlp_write_length : ℕ → ℕ → List ℕ
rlp_write_length len offset =
    let len_bytes = strip_leading_zeros (be_bytes 8 len) in
    if ltb len 56 then (offset + len) ∷ [] else (offset + 55 + length len_bytes) ∷ len_bytes

unfoldable pub rlp_encode_bytes : List ℕ → List ℕ
rlp_encode_bytes [] = 0x80 ∷ []
rlp_encode_bytes (b ∷ []) = if ltb b 0x80 then b ∷ [] else rlp_write_length 1 0x80 ++ (b ∷ [])
rlp_encode_bytes (b ∷ c ∷ bytes) = rlp_write_length (length (b ∷ c ∷ bytes)) 0x80 ++ (b ∷ c ∷ bytes)

unfoldable pub rlp_payload : List (List ℕ) → List ℕ
rlp_payload [] = []
rlp_payload (item ∷ items) = rlp_encode_bytes item ++ rlp_payload items

unfoldable pub rlp_encode_list : List (List ℕ) → List ℕ
rlp_encode_list items =
    let payload = rlp_payload items in rlp_write_length (length payload) 0xC0 ++ payload
