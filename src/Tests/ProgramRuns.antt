-- ===== src/Tests/ProgramRuns.antt =====
-- The theorems on programs and on the send accumulator, applied.
use arb_revm.Base.{List, arith, inr, leb, replicate, true, ℕ, ◌*◌, ◌+◌, ◌≡◌, ◌≤◌}
use arb_revm.Base.Bytes.{be_bytes}
use arb_revm.Journal.{ok, ◌>>◌}
use arb_revm.Journal.Memory.{Memory}
use arb_revm.Tests.Toy.{toy, toy-Lawful, list_space, with_words}
use arb_revm.Storage.Slot.Runs.{held}
use arb_revm.Storage.Packed.{unpack_uint, pack_uint}
use arb_revm.Storage.Programs.{
  ArbosPrograms, update_data_model, ProgramInfo, initialize_programs, write_program, read_program,
  read_params_word, open_programs,
}
use arb_revm.Storage.SendMerkle.Carry.{append_lem}
use arb_revm.Storage.SendMerkle.Ends.{Appended}
use arb_revm.Storage.Programs.DataFee.{IsPricer, update_data_model_lem}
use arb_revm.Storage.SendMerkle.{partial_count_for_size, append, open_send_merkle}
use arb_revm.Storage.Packed.Fields.{unpack_uint-pack_uint}
use arb_revm.Storage.Programs.Records.{read_program-write_program}
use arb_revm.Storage.Programs.Genesis.{IsGenesis, read_params_word-initialize_programs}

-- Every word is 1000.
abbrev thousands : Memory
thousands = with_words (λ a k. 1000)

abbrev programs : ArbosPrograms
programs = open_programs toy list_space

unpack_uint-pack_uint_example :
    (unpack_uint (pack_uint (replicate 32 7) 3 2 1000) 3 2 ≡ 1000)
    × (unpack_uint (pack_uint (replicate 32 7) 3 2 1000) 5 3 ≡ unpack_uint (replicate 32 7) 5 3)
unpack_uint-pack_uint_example =
    unpack_uint-pack_uint (replicate 32 7) 3 2 1000 5 3 (omega arith) (omega arith) (omega arith)
      (inr (omega arith))

abbrev info : ProgramInfo
info = record {
  version = 2;
  init_cost = 300;
  cached_cost = 40;
  footprint = 17;
  activated_at = 70000;
  asm_estimate_kb = 90;
  cached = true;
}

read_program-write_program_example :
    ((write_program toy programs 5 info >> read_program toy programs 5) thousands).0 ≡ ok info
read_program-write_program_example =
    read_program-write_program toy toy-Lawful programs 5 info thousands (record {
      version_fits = omega arith;
      init_cost_fits = omega arith;
      cached_cost_fits = omega arith;
      footprint_fits = omega arith;
      activated_at_fits = omega arith;
      asm_estimate_kb_fits = omega arith;
    })

read_params_word-initialize_programs_example :
    (word : List ℕ) × (((initialize_programs toy programs 40 >> read_params_word toy programs)
        thousands).0
      ≡ ok word)
    × IsGenesis (leb 40 40) (leb 60 40) word
read_params_word-initialize_programs_example =
    read_params_word-initialize_programs toy toy-Lawful list_space 40 thousands

update_data_model_lem_example :
    let (r, s') = update_data_model toy programs 64 2000 thousands in
    ((fee : ℕ) × (r ≡ ok fee) × (1000 * 64 ≤ fee))
    × IsPricer toy toy-Lawful list_space s'
    × (held toy toy-Lawful s' programs.data_pricer.last_update_time ≡ 2000)
    × (64 ≤ held toy toy-Lawful s' programs.data_pricer.demand)
    × (held toy toy-Lawful s' programs.data_pricer.demand ≤ 1000 + 64)
update_data_model_lem_example =
    update_data_model_lem toy toy-Lawful list_space 64 2000 thousands
      (record {
        demand_fits = omega arith;
        rate_fits = omega arith;
        time_fits = omega arith;
        min_price_fits = omega arith;
        inertia_fits = omega arith;
      })
      (omega arith) (omega arith)

append_lem_example :
    Appended toy toy-Lawful list_space
      (partial_count_for_size 1000)
      0
      (toy.keccak256 (be_bytes 32 9))
      1000
      1001
      (append toy (open_send_merkle toy list_space) 9 thousands)
      thousands
append_lem_example = append_lem toy toy-Lawful list_space 9 thousands (omega arith)
