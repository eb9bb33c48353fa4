-- ===== src/SysInfo/Sources.antt =====
-- src/sysinfo.rs: where the detected memory comes from.
use bge_m3_embedding_server.Prelude.{
  ℕ, ◌<◌, ◌≡◌, refl, sym, ap, ◌∙◌, subst, if◌then◌else◌, inl, inr, ◌⊎◌, Option, none, some, List,
  [], ◌∷◌, ◌++◌, All, arith, ltb, Text, codes, text_eq, trim, Bool-cases, Option-cases,
}
use mathlib.Core.Option.{some_inj}
use bge_m3_embedding_server.Config.{parse_uint, usize_bound}
use bge_m3_embedding_server.SysInfo.{
  MemorySource, override, cgroup_v2, cgroup_v1, host_ram_source, MemoryReading, Platform, linux,
  macos, other, Dir, Machine, env_override, below_tib, limit_of, walk, find_prefixed, lines,
  cgroup_dir, cgroup_v2_walk, cgroup_v1_limit, cgroup_memory, host_ram, fallback_bytes, cgroup_on,
  detect_available_memory, one_tib,
}

-- A directory and all above it, up to the root.
abbrev pub ancestors : Dir → List Dir
ancestors [] = [] ∷ []
ancestors (c ∷ above) = (c ∷ above) ∷ ancestors above

-- The limit of one of the directories, of which those before it have none.
abbrev pub IsFirstLimit : (Dir → Option Text) → List Dir → ℕ → Type 0
IsFirstLimit memory_max dirs bytes =
    (deeper : List Dir) × (dir : Dir) × (rest : List Dir) × (dirs ≡ deeper ++ dir ∷ rest)
    × All (λ d. limit_of (memory_max d) ≡ none) deeper
    × (limit_of (memory_max dir) ≡ some bytes)

abbrev pub HasNoLimit : (Dir → Option Text) → List Dir → Type 0
HasNoLimit memory_max dirs = All (λ d. limit_of (memory_max d) ≡ none) dirs

abbrev pub IsWalked : (Dir → Option Text) → List Dir → Option ℕ → Type 0
IsWalked memory_max dirs none = HasNoLimit memory_max dirs
IsWalked memory_max dirs (some bytes) = IsFirstLimit memory_max dirs bytes

IsWalked-shift :
    (memory_max : Dir → Option Text) (dir : Dir) (dirs : List Dir) (r : Option ℕ)
    → limit_of (memory_max dir) ≡ none
    → IsWalked memory_max dirs r
    → IsWalked memory_max (dir ∷ dirs) r
IsWalked-shift memory_max dir dirs none e w = (e, w)
IsWalked-shift memory_max dir dirs (some bytes) e (deeper, found, rest, split, none_before, limit) =
    (dir ∷ deeper, found, rest, ap (λ ds. dir ∷ ds) split, (e, none_before), limit)

IsWalked-root :
    (memory_max : Dir → Option Text) (dir : Dir) (r : Option ℕ)
    → limit_of (memory_max dir) ≡ r
    → IsWalked memory_max (dir ∷ []) r
IsWalked-root memory_max dir none e = (e, tt)
IsWalked-root memory_max dir (some bytes) e = ([], dir, [], refl, tt, e)

-- A walk from a directory up to the root finds the limit of the deepest directory that has one, and nothing
-- only if none has.
pub walk-IsWalked :
    (memory_max : Dir → Option Text) (dir : Dir)
    → IsWalked memory_max (ancestors dir) (walk memory_max dir)
unfolding walk
walk-IsWalked memory_max [] = IsWalked-root memory_max [] _ refl
walk-IsWalked memory_max (c ∷ above) = elim (Option-cases (limit_of (memory_max (c ∷ above)))) [
  | inl e ↦
      rw (e, walk)
        (IsWalked-shift memory_max (c ∷ above) (ancestors above) _ e
          (walk-IsWalked memory_max above))
  | inr (bytes, e) ↦ rw (e, walk) ([], c ∷ above, ancestors above, refl, tt, e)
]

below_tib_lem : (n : Option ℕ) (bytes : ℕ) → below_tib n ≡ some bytes → bytes < one_tib
below_tib_lem none bytes h = cc h
below_tib_lem (some n) bytes h = elim (Bool-cases (ltb n one_tib)) [
  | inl e ↦ let same : n ≡ bytes = some_inj.0 (rw e at h) in ground arith
  | inr e ↦ cc (rw e at h)
]

limit_of-below : (raw : Option Text) (bytes : ℕ) → limit_of raw ≡ some bytes → bytes < one_tib
unfolding limit_of
limit_of-below none bytes h = cc h
limit_of-below (some raw) bytes h = elim (Bool-cases (text_eq (trim raw) (codes "max"))) [
  | inl e ↦ cc (rw e at h)
  | inr e ↦ below_tib_lem (parse_uint usize_bound (trim raw)) bytes (rw e at h)
]

-- The directory that `/proc/self/cgroup` names.
abbrev pub cgroup_path : Machine → Option Dir
cgroup_path s = elim s.proc_self_cgroup [
  | none ↦ none
  | some content ↦ elim (find_prefixed (codes "0::") (lines content)) [
    | none ↦ none
    | some path ↦ some (cgroup_dir path)
  ]
]

-- The newer file system has no limit: it is not named, or no directory up to the root has one below 1 TiB.
abbrev pub HasNoV2 : Machine → Type 0
HasNoV2 s =
    (cgroup_path s ≡ none)
    ⊎ ((dir : Dir) × (cgroup_path s ≡ some dir) × HasNoLimit s.memory_max (ancestors dir))

-- The limit of the older file system, if it can be read as a number, and if that is below 1 TiB.
abbrev pub v1_limit : Machine → Option ℕ
v1_limit s = elim s.limit_in_bytes [
  | none ↦ none
  | some raw ↦ elim (parse_uint usize_bound (trim raw)) [
    | none ↦ none
    | some bytes ↦ if ltb bytes 1_099_511_627_776 then some bytes else none
  ]
]

-- No control group has a limit.
abbrev pub IsUnlimited : Machine → Platform → Type 0
IsUnlimited s linux = HasNoV2 s × (v1_limit s ≡ none)
IsUnlimited s macos = Unit
IsUnlimited s other = Unit

abbrev pub IsSourced : Machine → MemorySource → ℕ → Type 0
IsSourced s override bytes = env_override s ≡ some bytes
IsSourced s cgroup_v2 bytes =
    (env_override s ≡ none)
    × (s.platform ≡ linux)
    × (bytes < one_tib)
    × ((dir : Dir) × (cgroup_path s ≡ some dir) × IsFirstLimit s.memory_max (ancestors dir) bytes)
IsSourced s cgroup_v1 bytes =
    (env_override s ≡ none)
    × (s.platform ≡ linux)
    × (bytes < one_tib)
    × HasNoV2 s
    × (v1_limit s ≡ some bytes)
IsSourced s host_ram_source bytes =
    (env_override s ≡ none)
    × IsUnlimited s s.platform
    × ((host_ram s ≡ some bytes) ⊎ ((host_ram s ≡ none) × (bytes ≡ fallback_bytes)))

abbrev IsSourcedIf : Machine → Option MemoryReading → Type 0
IsSourcedIf s none = Unit {0}
IsSourcedIf s (some r) = IsSourced s r.source r.available_bytes

cgroup_v2_walk-IsSourced :
    (s : Machine) → env_override s ≡ none → s.platform ≡ linux → IsSourcedIf s (cgroup_v2_walk s)
unfolding cgroup_v2_walk
cgroup_v2_walk-IsSourced s e p = elim (Option-cases s.proc_self_cgroup) [
  | inl a ↦ rw (a, cgroup_v2_walk) tt
  | inr (content, a) ↦ elim (Option-cases (find_prefixed (codes "0::") (lines content))) [
    | inl b ↦ rw (a, b, cgroup_v2_walk) tt
    | inr (path, b) ↦
        let walked = walk-IsWalked s.memory_max (cgroup_dir path) in
        elim (Option-cases (walk s.memory_max (cgroup_dir path))) [
          | inl c ↦ rw (a, b, c, cgroup_v2_walk) tt
          | inr (bytes, c) ↦
              let (deeper, dir, rest, split, before, limit) : IsFirstLimit s.memory_max
                  (ancestors (cgroup_dir path)) bytes =
                rw c at walked in
              let found : cgroup_v2_walk s
                  ≡ some (record { available_bytes = bytes; source = cgroup_v2 }) =
                rw (a, b, c, cgroup_v2_walk) refl in
              let named : cgroup_path s ≡ some (cgroup_dir path) = simp (a, b, cgroup_path) in
              subst (λ r. IsSourcedIf s r) (sym found)
                (
                  e,
                  p,
                  limit_of-below (s.memory_max dir) bytes limit,
                  (cgroup_dir path, named, (deeper, dir, rest, split, before, limit)),
                )
        ]
  ]
]

-- The walk gives nothing only where there is no limit.
cgroup_v2_walk-none : (s : Machine) → cgroup_v2_walk s ≡ none → HasNoV2 s
unfolding cgroup_v2_walk
cgroup_v2_walk-none s h = elim (Option-cases s.proc_self_cgroup) [
  | inl a ↦ inl (simp (a, cgroup_path) refl)
  | inr (content, a) ↦ elim (Option-cases (find_prefixed (codes "0::") (lines content))) [
    | inl b ↦ inl (simp (a, b, cgroup_path) refl)
    | inr (path, b) ↦
        let walked = walk-IsWalked s.memory_max (cgroup_dir path) in
        elim (Option-cases (walk s.memory_max (cgroup_dir path))) [
          | inl c ↦
              let unlimited : HasNoLimit s.memory_max (ancestors (cgroup_dir path)) =
                rw c at walked in
              inr (cgroup_dir path, simp (a, b, cgroup_path), unlimited)
          | inr (bytes, c) ↦ cc (rw (a, b, c, cgroup_v2_walk) at h)
        ]
  ]
]

cgroup_v1_limit_lem : (s : Machine) → cgroup_v1_limit s ≡ v1_limit s
unfolding cgroup_v1_limit
cgroup_v1_limit_lem s = elim (Option-cases s.limit_in_bytes) [
  | inl e ↦ simp (e, cgroup_v1_limit, v1_limit) refl
  | inr (raw, e) ↦ elim (Option-cases (parse_uint usize_bound (trim raw))) [
    | inl n ↦ simp (e, n, cgroup_v1_limit, v1_limit) refl
    | inr (bytes, n) ↦ simp (e, n, cgroup_v1_limit, v1_limit) refl
  ]
]

cgroup_on-none :
    (s : Machine) (platform : Platform) → cgroup_on platform s ≡ none → IsUnlimited s platform
unfolding cgroup_memory
cgroup_on-none s macos h = tt
cgroup_on-none s other h = tt
cgroup_on-none s linux h = elim (Option-cases (cgroup_v2_walk s)) [
  | inr (r, a) ↦ cc (rw (a, cgroup_memory) at h)
  | inl a ↦ elim (Option-cases (cgroup_v1_limit s)) [
    | inl b ↦ (cgroup_v2_walk-none s a, sym (cgroup_v1_limit_lem s) ∙ b)
    | inr (bytes, b) ↦ cc (rw (a, b, cgroup_memory) at h)
  ]
]

v1_below : (s : Machine) (bytes : ℕ) → cgroup_v1_limit s ≡ some bytes → bytes < one_tib
unfolding cgroup_v1_limit
v1_below s bytes h = elim (Option-cases s.limit_in_bytes) [
  | inl e ↦ cc (rw e at h)
  | inr (raw, e) ↦ below_tib_lem (parse_uint usize_bound (trim raw)) bytes (rw e at h)
]

cgroup_memory-IsSourced :
    (s : Machine) → env_override s ≡ none → s.platform ≡ linux → IsSourcedIf s (cgroup_memory s)
unfolding cgroup_memory cgroup_v1_limit
cgroup_memory-IsSourced s e p = elim (Option-cases (cgroup_v2_walk s)) [
  | inr (r, a) ↦
      rw (a, cgroup_memory) (subst (λ r'. IsSourcedIf s r') a (cgroup_v2_walk-IsSourced s e p))
  | inl a ↦ elim (Option-cases (cgroup_v1_limit s)) [
    | inl b ↦ rw (a, b, cgroup_memory) tt
    | inr (bytes, b) ↦
        let found : cgroup_memory s
            ≡ some (record { available_bytes = bytes; source = cgroup_v1 }) =
          rw (a, b, cgroup_memory) refl in
        subst (λ r. IsSourcedIf s r) (sym found)
          (e, p, v1_below s bytes b, cgroup_v2_walk-none s a, sym (cgroup_v1_limit_lem s) ∙ b)
  ]
]

cgroup_on-IsSourced :
    (s : Machine) (platform : Platform)
    → env_override s ≡ none
    → s.platform ≡ platform
    → IsSourcedIf s (cgroup_on platform s)
cgroup_on-IsSourced s linux e p = cgroup_memory-IsSourced s e p
cgroup_on-IsSourced s macos e p = tt
cgroup_on-IsSourced s other e p = tt

-- The reading is from the first source of these that has one: the variable, the limit of the deepest directory above the
-- process that has one below 1 TiB, the limit of the older file system below 1 TiB, both on Linux only, the memory of the host, and 4 GiB.
pub detect_available_memory-IsSourced :
    (s : Machine)
    → IsSourced s (detect_available_memory s).source (detect_available_memory s).available_bytes
unfolding detect_available_memory
detect_available_memory-IsSourced s = elim (Option-cases (env_override s)) [
  | inr (bytes, e) ↦
      let found : detect_available_memory s
          ≡ record { available_bytes = bytes; source = override } =
        rw (e, detect_available_memory) refl in
      subst (λ r'. IsSourced s r'.source r'.available_bytes) (sym found) e
  | inl e ↦ elim (Option-cases (cgroup_on s.platform s)) [
    | inr (r, a) ↦
        let found : detect_available_memory s ≡ r = rw (e, a, detect_available_memory) refl in
        subst (λ r'. IsSourced s r'.source r'.available_bytes) (sym found)
          (subst (λ r'. IsSourcedIf s r') a (cgroup_on-IsSourced s s.platform e refl))
    | inl a ↦ elim (Option-cases (host_ram s)) [
      | inr (bytes, b) ↦
          let found : detect_available_memory s
              ≡ record { available_bytes = bytes; source = host_ram_source } =
            rw (e, a, b, detect_available_memory) refl in
          subst (λ r'. IsSourced s r'.source r'.available_bytes) (sym found)
            (e, cgroup_on-none s s.platform a, inl b)
      | inl b ↦
          let found : detect_available_memory s
              ≡ record { available_bytes = fallback_bytes; source = host_ram_source } =
            rw (e, a, b, detect_available_memory) refl in
          subst (λ r'. IsSourced s r'.source r'.available_bytes) (sym found)
            (e, cgroup_on-none s s.platform a, inr (b, refl))
    ]
  ]
]
