-- ===== src/Storage/Programs/Records.antt =====
-- A program's record that was written reads back.
use arb_revm.Base.{
  Bool, arith, eq_self, false, if◌then◌else◌, length, not, refl, true, ℕ, ◌<◌, ◌==◌, ◌^◌, ◌≡◌,
}
use arb_revm.Base.Bytes.{be_bytes, from_be, from_be_acc}
use arb_revm.Journal.{ArbJournal, Lawful, ok, ◌>>=◌, ◌>>◌}
use arb_revm.Storage.Bytes.Spelling.{AreBytes, be_bytes-from_be}
use arb_revm.Storage.Packed.{slice, pack_uint, unpack_uint}
use arb_revm.Storage.Programs.{
  program_word, program_of_word, ProgramInfo, ArbosPrograms, read_program, write_program,
}

-- The fields fit their bytes: the types bound the first four, the packing of three bytes the others.
pub record Fits (info : ProgramInfo) : Type 0 where
  pub version_fits : info.version < 2 ^ 16
  pub init_cost_fits : info.init_cost < 2 ^ 16
  pub cached_cost_fits : info.cached_cost < 2 ^ 16
  pub footprint_fits : info.footprint < 2 ^ 16
  pub activated_at_fits : info.activated_at < 2 ^ 24
  pub asm_estimate_kb_fits : info.asm_estimate_kb < 2 ^ 24

two_bytes : (v : ℕ) → v < 2 ^ 16 → from_be (slice (be_bytes 2 v) 0 2) ≡ v
unfolding from_be from_be_acc be_bytes
two_bytes v h = omega arith

three_bytes : (v : ℕ) → v < 2 ^ 24 → unpack_uint (be_bytes 3 v) 0 3 ≡ v
unfolding unpack_uint from_be from_be_acc be_bytes
three_bytes v h = omega arith

flag_byte : (b : Bool) → not ((if b then 1 else 0) == 0) ≡ b
flag_byte true = refl
flag_byte false = refl

flag_small : (b : Bool) → (if b then 1 else 0) < 256
flag_small b = ground arith

program_word_bytes :
    (info : ProgramInfo) → AreBytes (program_word info) × (length (program_word info) ≡ 32)
unfolding program_word pack_uint be_bytes AreBytes
program_word_bytes info = ground (arith, flag_small info.cached)

-- Records with equal fields are equal.
info_eq :
    (a b : ProgramInfo)
    → a.version ≡ b.version
    → a.init_cost ≡ b.init_cost
    → a.cached_cost ≡ b.cached_cost
    → a.footprint ≡ b.footprint
    → a.activated_at ≡ b.activated_at
    → a.asm_estimate_kb ≡ b.asm_estimate_kb
    → a.cached ≡ b.cached
    → a ≡ b
info_eq a b p q r t u v w = λ i. record {
  version = p i;
  init_cost = q i;
  cached_cost = r i;
  footprint = t i;
  activated_at = u i;
  asm_estimate_kb = v i;
  cached = w i;
}

program_of_word-program_word :
    (info : ProgramInfo) → Fits info → program_of_word (program_word info) ≡ info
unfolding program_of_word program_word pack_uint be_bytes unpack_uint
program_of_word-program_word info fits =
    info_eq (program_of_word (program_word info)) info
      (unfold be_bytes in two_bytes info.version fits.version_fits)
      (unfold be_bytes in two_bytes info.init_cost fits.init_cost_fits)
      (unfold be_bytes in two_bytes info.cached_cost fits.cached_cost_fits)
      (unfold be_bytes in two_bytes info.footprint fits.footprint_fits)
      (unfold be_bytes in three_bytes info.activated_at fits.activated_at_fits)
      (unfold be_bytes in three_bytes info.asm_estimate_kb fits.asm_estimate_kb_fits)
      (flag_byte info.cached)

module _ (J : ArbJournal) (L : Lawful J) (t : ArbosPrograms) where
  open J use {State}
  open L use {read_lem, write_lem, value-stored}

  -- A record whose fields fit their bytes reads back as it was written, whatever stood there.
  pub read_program-write_program :
      (code_hash : ℕ) (info : ProgramInfo) (s : State)
      → Fits info
      → ((write_program J t code_hash info >> read_program J t code_hash) s).0 ≡ ok info
  unfolding read_program write_program
  read_program-write_program code_hash info s fits =
      simp
        (
          write_lem,
          read_lem,
          value-stored,
          eq_self,
          ◌>>=◌,
          be_bytes-from_be 32 (program_word info) (program_word_bytes info).0
              (program_word_bytes info).1,
          program_of_word-program_word info fits,
        )
        refl
