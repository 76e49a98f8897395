-- ===== src/Storage/StylusParamLayout.antt =====
-- `stylus_param_layout` of crates/arb-revm/src/storage/programs.rs: where each parameter of Stylus
-- stands in the packed word, by its first byte and the number of its bytes.
use arb_revm.Base.{ℕ}

abbrev pub version : ℕ × ℕ
version = (0, 2)

abbrev pub ink_price : ℕ × ℕ
ink_price = (2, 3)

abbrev pub max_stack_depth : ℕ × ℕ
max_stack_depth = (5, 4)

abbrev pub free_pages : ℕ × ℕ
free_pages = (9, 2)

abbrev pub page_gas : ℕ × ℕ
page_gas = (11, 2)

abbrev pub page_limit : ℕ × ℕ
page_limit = (13, 2)

abbrev pub min_init_gas : ℕ × ℕ
min_init_gas = (15, 1)

abbrev pub min_cached_init_gas : ℕ × ℕ
min_cached_init_gas = (16, 1)

abbrev pub init_cost_scalar : ℕ × ℕ
init_cost_scalar = (17, 1)

abbrev pub cached_cost_scalar : ℕ × ℕ
cached_cost_scalar = (18, 1)

abbrev pub expiry_days : ℕ × ℕ
expiry_days = (19, 2)

abbrev pub keepalive_days : ℕ × ℕ
keepalive_days = (21, 2)

abbrev pub block_cache_size : ℕ × ℕ
block_cache_size = (23, 2)

abbrev pub max_wasm_size : ℕ × ℕ
max_wasm_size = (25, 4)

abbrev pub max_fragment_count : ℕ × ℕ
max_fragment_count = (29, 1)
