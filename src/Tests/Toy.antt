-- ===== src/Tests/Toy.antt =====
-- A journal in memory with a hash that keeps all that the slots depend on: what the bytes spell, and
-- whether their number is odd, so that a key of an even number of bytes has slots of its own.
use arb_revm.Base.{
  List, [], ap, arith, length, refl, suc, take, zero, ℕ, ◌%◌, ◌*◌, ◌++◌, ◌+◌, ◌/◌, ◌<◌, ◌^◌, ◌∷◌,
  ◌≡◌, ◌≤◌,
}
use arb_revm.Base.Bytes.{be_bytes, from_be, length-be_bytes, from_be-be_bytes}
use arb_revm.Journal.{ArbJournal, Lawful}
use arb_revm.Journal.Memory.{memory, memory-Lawful, Memory}
use arb_revm.Storage.Space.{StorageSpace, slot_for_hash}
use arb_revm.Storage.Space.Apart.{AreDisjoint, AreApart}

abbrev pub toy_keccak256 : List ℕ → ℕ
toy_keccak256 bytes = (from_be bytes * 2 + length bytes % 2) * 256

abbrev pub toy : ArbJournal
toy = memory toy_keccak256

abbrev pub toy-Lawful : Lawful toy
toy-Lawful = memory-Lawful toy_keccak256

abbrev pub list_space : StorageSpace
list_space = record { key = []; account = 7 }

abbrev pub map_space : StorageSpace
map_space = record { key = 0 ∷ []; account = 7 }

take_front : (n : ℕ) (xs ys : List ℕ) → length xs ≡ n → take n (xs ++ ys) ≡ xs
take_front zero [] ys e = refl
take_front zero (x ∷ xs) ys e = absurd (omega arith)
take_front (suc n) [] ys e = absurd (omega arith)
take_front (suc n) (x ∷ xs) ys e = ap (λ t. x ∷ t) (take_front n xs ys (omega arith))

front_bytes : (h : ℕ) → take 31 (be_bytes 32 h) ≡ be_bytes 31 (h / 256)
unfolding be_bytes
front_bytes h = take_front 31 (be_bytes 31 (h / 256)) (h % 256 ∷ []) (length-be_bytes 31 (h / 256))

pub slot_of_list :
    (h : ℕ) → h < 2 ^ 256 → slot_for_hash toy list_space h ≡ (h / 256 * 2 + 1) * 256 + h % 256
unfolding slot_for_hash
slot_of_list h small =
    rw (front_bytes h, length-be_bytes 31 (h / 256), from_be-be_bytes 31 (h / 256) (omega arith))
      (omega arith)

pub slot_of_map :
    (h : ℕ) → h < 2 ^ 256 → slot_for_hash toy map_space h ≡ h / 256 * 2 * 256 + h % 256
unfolding slot_for_hash from_be
slot_of_map h small =
    rw (front_bytes h, length-be_bytes 31 (h / 256), from_be-be_bytes 31 (h / 256) (omega arith))
      (omega arith)

pub list_apart : (n : ℕ) → n ≤ 2 ^ 256 → AreApart toy n list_space
list_apart n small i j hi hj e =
    omega (arith, slot_of_list i (omega arith), slot_of_list j (omega arith))

pub map_apart : (n : ℕ) → n ≤ 2 ^ 256 → AreApart toy n map_space
map_apart n small i j hi hj e =
    omega (arith, slot_of_map i (omega arith), slot_of_map j (omega arith))

pub disjoint : AreDisjoint toy (2 ^ 64) list_space (2 ^ 160) map_space
disjoint i j hi hj e = omega (arith, slot_of_list i (omega arith), slot_of_map j (omega arith))

-- All words 0 and no funds, but for the words that the function gives.
abbrev pub with_words : (ℕ → ℕ → ℕ) → Memory
with_words words = record { words = words; funds = λ a. 0; nonces = λ a. 0; logs = [] }
