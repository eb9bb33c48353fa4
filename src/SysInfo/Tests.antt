-- ===== src/SysInfo/Tests.antt =====
-- The memory of a container, and of a host.
use bge_m3_embedding_server.Prelude.{
  ◌*◌, ◌≡◌, refl, true, false, Option, none, some, [], ◌∷◌, Text, codes, strip_prefix, strip_suffix,
  starts_with, is_whitespace, split_parts, split, trim, trim_start, trim_end,
}
use bge_m3_embedding_server.Config.{parse_uint, parse_digits}
use bge_m3_embedding_server.SysInfo.{
  Machine, linux, macos, Dir, display_source, lines, words_from, split_whitespace, second_number,
  env_override, limit_of, walk, find_prefixed, components_onto, cgroup_dir, cgroup_v2_walk,
  cgroup_v1_limit, cgroup_memory, find_available, linux_meminfo_available, macos_host_ram, host_ram,
  detect_available_memory, count_nvidia_gpus_from_proc, detect_gpu_count, read_process_rss_bytes,
}
use bge_m3_embedding_server.SysInfo.Sources.{IsSourced, detect_available_memory-IsSourced}

-- The container `/a/b` has no limit of its own, its parent has one.
abbrev limits : Dir → Option Text
limits [] = some (codes "max")
limits (c ∷ []) = some (codes "2048\n")
limits (c ∷ d ∷ above) = some (codes "max\n")

abbrev container : Machine
container = record {
  platform = linux;
  available_memory = some (codes "2 GiB");
  proc_self_cgroup = some (codes "1:cpu:/x\n0::/a//b/\n");
  memory_max = limits;
  limit_in_bytes = none;
  meminfo = some (codes "MemTotal: 9 kB\r\nMemAvailable:   12 kB\n");
  sysctl = none;
  statm = some (codes "10 3 2 1 0 4 0\n");
  nvidia_gpus = some (true ∷ false ∷ true ∷ []);
}

limited : (detect_available_memory container).available_bytes ≡ 2048
unfolding detect_available_memory env_override cgroup_memory cgroup_v2_walk lines find_prefixed
    cgroup_dir walk limit_of trim trim_start trim_end is_whitespace split_parts split
    components_onto strip_prefix strip_suffix parse_uint parse_digits
limited = refl

unlimited :
    (detect_available_memory (record container { proc_self_cgroup = none })).available_bytes
    ≡ 12 * 1024
unfolding detect_available_memory env_override cgroup_memory cgroup_v2_walk cgroup_v1_limit host_ram
    linux_meminfo_available find_available second_number split_whitespace words_from lines
    starts_with is_whitespace split_parts strip_prefix strip_suffix parse_uint parse_digits
unlimited = refl

on_mac :
    host_ram (record container { platform = macos; sysctl = some (codes "4096\n") }) ≡ some 4096
unfolding host_ram macos_host_ram trim trim_start trim_end is_whitespace parse_uint parse_digits
on_mac = refl

-- The limit of the root is read as well.
at_root : walk (λ d. some (codes "77")) [] ≡ some 77
unfolding walk limit_of trim trim_start trim_end is_whitespace parse_uint parse_digits
at_root = refl

resident : read_process_rss_bytes container ≡ some 12288
unfolding read_process_rss_bytes second_number split_whitespace words_from is_whitespace parse_uint
    parse_digits
resident = refl

gpus : detect_gpu_count container none ≡ 2
unfolding detect_gpu_count count_nvidia_gpus_from_proc
gpus = refl

named : display_source (detect_available_memory container).source ≡ codes "cgroup_v2"
unfolding display_source detect_available_memory env_override cgroup_memory cgroup_v2_walk lines
    find_prefixed cgroup_dir walk limit_of trim trim_start trim_end is_whitespace split_parts split
    components_onto strip_prefix strip_suffix parse_uint parse_digits
named = refl

detect_available_memory-IsSourced_example :
    IsSourced container
      (detect_available_memory container).source
      (detect_available_memory container).available_bytes
detect_available_memory-IsSourced_example = detect_available_memory-IsSourced container
