-- ===== src/SysInfo.antt =====
-- src/sysinfo.rs: the memory and the GPUs that the process has, from what the files of the system
-- say. A file that cannot be read has no text.
pub mod Sources
mod Tests
use bge_m3_embedding_server.Prelude.{
  ℕ, suc, ◌+◌, ◌*◌, ◌%◌, ◌^◌, max, Bool, true, false, not, ◌&&◌, ◌||◌, Option, none, some, List, [],
  ◌∷◌, ltb, ◌==◌, if◌then◌else◌, is_empty, get_elem?, length, Text, codes, text_eq, starts_with,
  strip_prefix, strip_suffix, is_whitespace, split_parts, split, trim,
}
use bge_m3_embedding_server.Config.{parse_uint, usize_bound}

-- `MemorySource`
pub data MemorySource : Type 0 where
  override : MemorySource
  cgroup_v2 : MemorySource
  cgroup_v1 : MemorySource
  host_ram_source : MemorySource

unfoldable pub display_source : MemorySource → Text
display_source override = codes "override"
display_source cgroup_v2 = codes "cgroup_v2"
display_source cgroup_v1 = codes "cgroup_v1"
display_source host_ram_source = codes "host_ram"

pub record MemoryReading : Type 0 where
  pub available_bytes : ℕ
  pub source : MemorySource

pub data Platform : Type 0 where
  linux : Platform
  macos : Platform
  other : Platform

-- A directory below the root of the cgroup file system: its components, the last one first.
abbrev pub Dir : Type 0
Dir = List Text

pub record Machine : Type 0 where
  pub platform : Platform
  -- `BGE_M3_AVAILABLE_MEMORY_BYTES`
  pub available_memory : Option Text
  pub proc_self_cgroup : Option Text
  pub memory_max : Dir → Option Text
  pub limit_in_bytes : Option Text
  pub meminfo : Option Text
  -- What `sysctl -n hw.memsize` prints.
  pub sysctl : Option Text
  pub statm : Option Text
  -- The entries of `/proc/driver/nvidia/gpus`, and whether each could be read.
  pub nvidia_gpus : Option (List Bool)

abbrev pub one_tib : ℕ
one_tib = 1024 * 1024 * 1024 * 1024

-- The multiplication of `usize`.
abbrev pub wrapping_mul : ℕ → ℕ → ℕ
wrapping_mul a b = (a * b) % 2 ^ 64

abbrev pub parse_usize : Text → Option ℕ
parse_usize t = parse_uint usize_bound t

-- A line without the `\r` of its end.
abbrev pub strip_return : Text → Text
strip_return line = elim (strip_suffix (13 ∷ []) line) [ none ↦ line | some l ↦ l ]

abbrev pub lines_of : Text → List Text → List Text
lines_of last [] = if is_empty last then [] else last ∷ []
lines_of line (next ∷ later) = strip_return line ∷ lines_of next later

-- `str::lines`
unfoldable pub lines : Text → List Text
unfolding split_parts strip_suffix
lines t = let (first, later) = split_parts 10 t in lines_of first later

unfoldable pub words_from : Text → Text × List Text
unfolding is_whitespace
words_from [] = ([], [])
words_from (c ∷ t) =
    let (word, later) = words_from t in
    if is_whitespace c
    then ([], if is_empty word then later else word ∷ later)
    else (c ∷ word, later)

-- `str::split_whitespace`
unfoldable pub split_whitespace : Text → List Text
unfolding words_from
split_whitespace t =
    let (word, later) = words_from t in if is_empty word then later else word ∷ later

-- `split_whitespace().nth(1)?.parse().ok()?`
unfoldable pub second_number : Text → Option ℕ
unfolding split_whitespace
second_number t = elim (get_elem? (split_whitespace t) 1) [ none ↦ none | some w ↦ parse_usize w ]

unfoldable pub env_override : Machine → Option ℕ
env_override s = elim s.available_memory [ none ↦ none | some v ↦ parse_usize v ]

abbrev pub below_tib : Option ℕ → Option ℕ
below_tib none = none
below_tib (some bytes) = if ltb bytes one_tib then some bytes else none

-- The limit in a `memory.max`.
unfoldable pub limit_of : Option Text → Option ℕ
limit_of none = none
limit_of (some raw) =
    if text_eq (trim raw) (codes "max") then none else below_tib (parse_usize (trim raw))

-- The loop of `cgroup_v2_walk`. The root has no components.
unfoldable pub walk : (Dir → Option Text) → Dir → Option ℕ
unfolding limit_of
walk memory_max [] = limit_of (memory_max [])
walk memory_max (c ∷ above) =
    let rest = walk memory_max above in
    elim (limit_of (memory_max (c ∷ above))) [ some bytes ↦ some bytes | none ↦ rest ]

-- The first line that has the prefix, without it.
unfoldable pub find_prefixed : Text → List Text → Option Text
find_prefixed prefix [] = none
find_prefixed prefix (line ∷ later) =
    let rest = find_prefixed prefix later in
    elim (strip_prefix prefix line) [ some t ↦ some t | none ↦ rest ]

-- The components of a path, behind those before it. Empty ones and `.` are none.
unfoldable pub components_onto : List Text → Dir → Dir
components_onto [] dir = dir
components_onto (part ∷ parts) dir =
    if is_empty part || text_eq part (codes ".")
    then components_onto parts dir
    else components_onto parts (part ∷ dir)

unfoldable pub cgroup_dir : Text → Dir
unfolding components_onto split
cgroup_dir path = components_onto (split b'/' path) []

unfoldable pub cgroup_v2_walk : Machine → Option MemoryReading
unfolding lines find_prefixed cgroup_dir walk
cgroup_v2_walk s = elim s.proc_self_cgroup [
  | none ↦ none
  | some content ↦ elim (find_prefixed (codes "0::") (lines content)) [
    | none ↦ none
    | some path ↦ elim (walk s.memory_max (cgroup_dir path)) [
      | none ↦ none
      | some bytes ↦ some (record { available_bytes = bytes; source = cgroup_v2 })
    ]
  ]
]

-- `memory.limit_in_bytes`, where it is read as a number at all.
unfoldable pub cgroup_v1_limit : Machine → Option ℕ
cgroup_v1_limit s = elim s.limit_in_bytes [
  | none ↦ none
  | some raw ↦ below_tib (parse_usize (trim raw))
]

unfoldable pub cgroup_memory : Machine → Option MemoryReading
unfolding cgroup_v2_walk cgroup_v1_limit
cgroup_memory s = elim (cgroup_v2_walk s) [
  | some r ↦ some r
  | none ↦ elim (cgroup_v1_limit s) [
    | none ↦ none
    | some bytes ↦ some (record { available_bytes = bytes; source = cgroup_v1 })
  ]
]

unfoldable pub find_available : List Text → Option ℕ
unfolding second_number
find_available [] = none
find_available (line ∷ later) =
    let rest = find_available later in
    if starts_with (codes "MemAvailable:") line
    then elim (second_number line) [ none ↦ none | some kb ↦ some (wrapping_mul kb 1024) ]
    else rest

unfoldable pub linux_meminfo_available : Machine → Option ℕ
unfolding lines find_available
linux_meminfo_available s = elim s.meminfo [
  | none ↦ none
  | some content ↦ find_available (lines content)
]

unfoldable pub macos_host_ram : Machine → Option ℕ
macos_host_ram s = elim s.sysctl [ none ↦ none | some out ↦ parse_usize (trim out) ]

unfoldable pub host_ram : Machine → Option ℕ
unfolding linux_meminfo_available macos_host_ram
host_ram s = elim s.platform [
  | linux ↦ linux_meminfo_available s
  | macos ↦ macos_host_ram s
  | other ↦ none
]

abbrev pub fallback_bytes : ℕ
fallback_bytes = 4 * 1024 * 1024 * 1024

-- The part of `cgroup_memory`, on Linux only.
abbrev pub cgroup_on : Platform → Machine → Option MemoryReading
cgroup_on linux s = cgroup_memory s
cgroup_on macos s = none
cgroup_on other s = none

unfoldable pub detect_available_memory : Machine → MemoryReading
unfolding env_override cgroup_memory host_ram
detect_available_memory s = elim (env_override s) [
  | some bytes ↦ record { available_bytes = bytes; source = override }
  | none ↦ elim (cgroup_on s.platform s) [
    | some r ↦ r
    | none ↦ elim (host_ram s) [
      | some bytes ↦ record { available_bytes = bytes; source = host_ram_source }
      | none ↦ record { available_bytes = fallback_bytes; source = host_ram_source }
    ]
  ]
]

unfoldable pub count_nvidia_gpus_from_proc : Machine → Option ℕ
count_nvidia_gpus_from_proc s = elim s.nvidia_gpus [
  | none ↦ none
  | some entries ↦ let count = count_true entries in if ltb 0 count then some count else none
]
  where
    count_true : List Bool → ℕ
    count_true [] = 0
    count_true (true ∷ bs) = suc (count_true bs)
    count_true (false ∷ bs) = count_true bs

unfoldable pub detect_gpu_count : Machine → Option ℕ → ℕ
unfolding count_nvidia_gpus_from_proc
detect_gpu_count s (some n) = max n 1
detect_gpu_count s none = elim s.platform [
  | linux ↦ elim (count_nvidia_gpus_from_proc s) [ none ↦ 1 | some n ↦ n ]
  | macos ↦ 1
  | other ↦ 1
]

unfoldable pub read_process_rss_bytes : Machine → Option ℕ
unfolding second_number
read_process_rss_bytes s = elim s.platform [
  | linux ↦ elim s.statm [
    | none ↦ none
    | some raw ↦ elim (second_number raw) [
      | none ↦ none
      | some pages ↦ some (wrapping_mul pages 4096)
    ]
  ]
  | macos ↦ none
  | other ↦ none
]
