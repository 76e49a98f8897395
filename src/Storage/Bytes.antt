-- ===== src/Storage/Bytes.antt =====
-- `StorageBytes` of crates/arb-revm/src/storage/bytes.rs: a byte string in words, its length in slot
-- 0 and 32 bytes in each slot from 1 on, the last word filled from the right.
pub mod Spelling
pub mod RoundTrip
use arb_revm.Base.{
  List, [], drop, if◌then◌else◌, length, ltb, saturating_add, suc, take, zero, ℕ, ◌%◌, ◌++◌, ◌+◌,
  ◌-◌, ◌/◌, ◌==◌, ◌^◌, ◌∷◌,
}
use arb_revm.Base.Bytes.{be_bytes, from_be}
use arb_revm.Journal.{ArbJournal, M, pure, raise, conversion, ◌>>=◌, ◌>>◌}
use arb_revm.Storage.Space
use arb_revm.Storage.Space.{StorageSpace}

-- `value.chunks(32)`, with the bytes' number as fuel: a chunk takes at least one of them.
unfoldable pub chunks : ℕ → List ℕ → List (List ℕ)
chunks zero bytes = []
chunks (suc fuel) [] = []
chunks (suc fuel) (b ∷ bytes) = take 32 (b ∷ bytes) ∷ chunks fuel (drop 32 (b ∷ bytes))

module _ (J : ArbJournal) where
  open J use {State}

  unfoldable pub size : StorageSpace → M State ℕ
  size sp = do word ← Space.get J sp 0; if ltb word (2 ^ 64) then pure word else raise conversion

  -- The whole words from `offset` on, `rounds` of them, then the `rest` bytes of the next.
  unfoldable pub read_words : StorageSpace → ℕ → ℕ → ℕ → M State (List ℕ)
  read_words sp zero rest offset =
      if rest == 0
      then pure []
      else (do word ← Space.get J sp offset; pure (drop (32 - rest) (be_bytes 32 word)))
  read_words sp (suc rounds) rest offset = do
    word ← Space.get J sp offset
    bytes ← read_words sp rounds rest (saturating_add 64 offset 1)
    pure (be_bytes 32 word ++ bytes)

  unfoldable pub get : StorageSpace → M State (List ℕ)
  get sp = do bytes_left ← size sp; read_words sp (bytes_left / 32) (bytes_left % 32) 1

  unfoldable pub clear_words : StorageSpace → ℕ → ℕ → M State (Unit {0})
  clear_words sp zero offset = pure tt
  clear_words sp (suc rounds) offset = do
    Space.set J sp offset 0
    clear_words sp rounds (saturating_add 64 offset 1)

  -- A round for every word that is used in part.
  unfoldable pub clear : StorageSpace → M State (Unit {0})
  clear sp = do bytes_left ← size sp; clear_words sp ((bytes_left + 31) / 32) 1; Space.set J sp 0 0

  unfoldable pub write_chunks : StorageSpace → List (List ℕ) → ℕ → M State (Unit {0})
  write_chunks sp [] offset = pure tt
  write_chunks sp (chunk ∷ rest) offset = do
    Space.set J sp offset (from_be chunk)
    write_chunks sp rest (saturating_add 64 offset 1)

  unfoldable pub set_fresh : StorageSpace → List ℕ → M State (Unit {0})
  set_fresh sp value = do
    Space.set J sp 0 (length value)
    write_chunks sp (chunks (length value) value) 1

  unfoldable pub set : StorageSpace → List ℕ → M State (Unit {0})
  set sp value = do clear sp; set_fresh sp value
