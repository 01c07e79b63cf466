-- ===== src/Storage/Badger/Options.antt =====
-- pkg/storage/badger/badger.go: the options with which `New` opens the database. A limit that is not
-- positive is 0; one of 2^43 MB or more, for which the product wraps in Go, is left out.
use tinyobs.Base.{
  ℕ, ◌+◌, ◌*◌, ◌/◌, ◌^◌, ◌≤◌, ◌<◌, ◌≡◌, Bool, true, Bytes, ltb, if◌then◌else◌, arith,
}

pub record Config : Type 0 where
  pub path : Bytes
  pub in_memory : Bool
  pub max_memory_mb : ℕ

pub record Options : Type 0 where
  pub path : Bytes
  pub in_memory : Bool
  pub with_snappy : Bool
  pub num_versions_to_keep : ℕ
  pub mem_table_size : ℕ
  pub num_memtables : ℕ
  pub block_cache_size : ℕ
  pub index_cache_size : ℕ
  pub max_levels : ℕ
  pub num_level_zero_tables : ℕ
  pub num_level_zero_tables_stall : ℕ
  pub value_threshold : ℕ
  pub num_compactors : ℕ
  pub value_log_max_entries : ℕ
  pub value_log_file_size : ℕ

unfoldable pub mem_table_size : Config → ℕ
mem_table_size cfg =
    if ltb 0 cfg.max_memory_mb then cfg.max_memory_mb * 1024 * 1024 / 3 else 16 * 1024 * 1024

unfoldable pub options : Config → Options
options cfg = record {
  path = cfg.path;
  in_memory = cfg.in_memory;
  with_snappy = true;
  num_versions_to_keep = 1;
  mem_table_size = mem_table_size cfg;
  num_memtables = 3;
  block_cache_size = mem_table_size cfg / 2;
  index_cache_size = mem_table_size cfg / 4;
  max_levels = 4;
  num_level_zero_tables = 2;
  num_level_zero_tables_stall = 4;
  value_threshold = 1024;
  num_compactors = 2;
  value_log_max_entries = 5000;
  value_log_file_size = 64 * 2 ^ 20;
}

-- The bytes of the memory tables and the caches together.
abbrev pub memory_of : Options → ℕ
memory_of o = o.num_memtables * o.mem_table_size + o.block_cache_size + o.index_cache_size

-- A memory limit that is given bounds the memory tables alone. With the caches, the buffers take more
-- than the limit, by a quarter of it at most.
pub memory_of-options :
    (cfg : Config)
    → 0 < cfg.max_memory_mb
    → (let limit = cfg.max_memory_mb * 2 ^ 20 in
        ((options cfg).num_memtables * (options cfg).mem_table_size ≤ limit)
        × (limit < memory_of (options cfg))
        × (memory_of (options cfg) ≤ limit + limit / 4))
unfolding options mem_table_size
memory_of-options cfg h =
    let given : ltb 0 cfg.max_memory_mb ≡ true = ground (arith, h) in
    rw given (omega arith, omega (arith, h), omega arith)
