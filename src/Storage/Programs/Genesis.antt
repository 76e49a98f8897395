-- ===== src/Storage/Programs/Genesis.antt =====
-- What the genesis of Stylus leaves in storage.
use arb_revm.Storage.StylusParamLayout
use arb_revm.Base.{
  Bool, List, [], ap, arith, eq_self, false, if◌then◌else◌, leb, length, ne→eq_false, refl, true, ℕ,
  ◌%◌, ◌&&◌, ◌<◌, ◌==◌, ◌∙◌, ◌∷◌, ◌≡◌, map,
}
use arb_revm.Storage.StylusParamLayout
use arb_revm.Storage.StylusParamLayout
use arb_revm.Storage.StylusParamLayout
use arb_revm.Storage.StylusParamLayout
use arb_revm.Journal.{ArbJournal, Lawful, ok, ◌>>=◌, ◌>>◌}
use arb_revm.Storage.Space.{StorageSpace, slot_for_hash, open_subspace_with_key}
use arb_revm.Storage.Bytes.Spelling.{AreBytes, be_bytes-from_be}
use arb_revm.Storage.Packed.{unpack_uint, pack_uint}
use arb_revm.Storage.Programs.{
  genesis_word, initial_word, added_fields, ArbosPrograms, initialize_programs, write_params_word,
  open_programs, read_params_word, initial_data_inertia, initial_data_min_price,
  arbitrum_start_time, initial_bytes_per_second,
}
use arb_revm.Base.Bytes.{from_be, from_be_acc, be_bytes}
use arb_revm.Storage.Slot.{set_u32, set_u64}
use arb_revm.Storage.Space.Apart.{slot_for_hash-last_byte}

-- The fields that every version writes.
abbrev fields : List (ℕ × ℕ)
fields =
    StylusParamLayout.version ∷ StylusParamLayout.ink_price ∷ StylusParamLayout.max_stack_depth
    ∷ StylusParamLayout.free_pages ∷ StylusParamLayout.page_gas ∷ StylusParamLayout.page_limit
    ∷ StylusParamLayout.min_init_gas ∷ StylusParamLayout.min_cached_init_gas
    ∷ StylusParamLayout.init_cost_scalar ∷ StylusParamLayout.cached_cost_scalar
    ∷ StylusParamLayout.expiry_days ∷ StylusParamLayout.keepalive_days
    ∷ StylusParamLayout.block_cache_size ∷ []

abbrev initial_values : List ℕ
initial_values = 1 ∷ 10000 ∷ 262144 ∷ 2 ∷ 1000 ∷ 128 ∷ 72 ∷ 11 ∷ 50 ∷ 50 ∷ 365 ∷ 31 ∷ 32 ∷ []

abbrev field_of : List ℕ → ℕ × ℕ → ℕ
field_of word field = unpack_uint word field.0 field.1

-- What a params word holds, by whether the version has a field for the size and for fragments.
pub record IsGenesis (wasm fragment : Bool) (word : List ℕ) : Type 0 where
  pub initial : map (field_of word) fields ≡ initial_values
  pub wasm_size : field_of word StylusParamLayout.max_wasm_size ≡ (if wasm then 131072 else 0)
  pub fragments : field_of word StylusParamLayout.max_fragment_count ≡ (if fragment then 4 else 0)
  pub bytes : AreBytes word
  pub size : length word ≡ 32

added_fields-IsGenesis : (a b : Bool) → IsGenesis a b (added_fields a b initial_word)
unfolding added_fields initial_word pack_uint unpack_uint from_be from_be_acc be_bytes AreBytes
added_fields-IsGenesis true true = record {
  initial = refl;
  wasm_size = refl;
  fragments = refl;
  bytes = ground arith;
  size = refl;
}
added_fields-IsGenesis true false = record {
  initial = refl;
  wasm_size = refl;
  fragments = refl;
  bytes = ground arith;
  size = refl;
}
added_fields-IsGenesis false true = record {
  initial = refl;
  wasm_size = refl;
  fragments = refl;
  bytes = ground arith;
  size = refl;
}
added_fields-IsGenesis false false = record {
  initial = refl;
  wasm_size = refl;
  fragments = refl;
  bytes = ground arith;
  size = refl;
}

module _ (J : ArbJournal) (L : Lawful J) (root : StorageSpace) where
  open J use {State}
  open L use {value, write_lem, read_lem, value-stored}

  abbrev programs : ArbosPrograms
  programs = open_programs J root

  abbrev pricer_space : StorageSpace
  pricer_space = open_subspace_with_key J root 3

  and_false : (b : Bool) → (b && false) ≡ false
  and_false true = refl
  and_false false = refl

  -- A params slot that spells a word of bytes.
  read_params_word_lem :
      (word : List ℕ) (s : State)
      → value s programs.params.account (slot_for_hash J programs.params 0) ≡ from_be word
      → AreBytes word
      → length word ≡ 32
      → (read_params_word J programs s).0 ≡ ok word
  unfolding read_params_word
  read_params_word_lem word s e bytes size =
      simp (read_lem, ◌>>=◌)
        (ap (λ v. ok (be_bytes 32 v)) e ∙ ap ok (be_bytes-from_be 32 word bytes size))

  abbrev pricer_slot : ℕ → ℕ
  pricer_slot j = slot_for_hash J pricer_space j

  abbrev after_initialize : List ℕ → State → State
  after_initialize word s = L.stored pricer_space.account (pricer_slot 4) initial_data_inertia (
      L.stored pricer_space.account (pricer_slot 3) initial_data_min_price (
        L.stored pricer_space.account (pricer_slot 2) arbitrum_start_time (
          L.stored pricer_space.account (pricer_slot 1) initial_bytes_per_second (
            L.stored programs.params.account (slot_for_hash J programs.params 0) (from_be word)
              s))))

  initialize_programs_run :
      (v : ℕ) (s : State)
      → initialize_programs J programs v s ≡ (ok tt, after_initialize (genesis_word v) s)
  unfolding initialize_programs write_params_word set_u32 set_u64
  initialize_programs_run v s = simp (write_lem, ◌>>=◌)

  -- After the genesis of Stylus at any version
  -- the params word reads back as bytes whose fields are the initial values, the two later fields
  -- from versions 40 and 60 on and 0 before.
  pub read_params_word-initialize_programs :
      (arbos_version : ℕ) (s : State)
      → (word : List ℕ) × (((initialize_programs J programs arbos_version
              >> read_params_word J programs)
            s).0
          ≡ ok word)
        × IsGenesis (leb 40 arbos_version) (leb 60 arbos_version) word
  read_params_word-initialize_programs v s =
      let is : IsGenesis (leb 40 v) (leb 60 v) (genesis_word v) =
        unfold genesis_word in added_fields-IsGenesis (leb 40 v) (leb 60 v) in
      (
        genesis_word v,
        simp (initialize_programs_run v s, ◌>>=◌)
            (read_params_word_lem (genesis_word v) (after_initialize (genesis_word v) s)
              (simp (
                value-stored,
                eq_self,
                and_false,
                other 1 (omega arith) (omega arith),
                other 2 (omega arith) (omega arith),
                other 3 (omega arith) (omega arith),
                other 4 (omega arith) (omega arith),
              ))
              is.bytes is.size),
        is,
      )
    where
      other : (j : ℕ) → 0 < j → j < 5 → (pricer_slot j == slot_for_hash J programs.params 0) ≡ false
      other j pos_j hj = ne→eq_false _ _ (λ e. omega (
        arith,
        slot_for_hash-last_byte J pricer_space j,
        slot_for_hash-last_byte J programs.params 0,
        ap (λ t. t % 256) e,
      ))
