-- ===== src/Config/Tests.antt =====
-- The configuration from a few variables.
use bge_m3_embedding_server.Prelude.{
  ◌≡◌, refl, none, some, text_eq, if◌then◌else◌, [], ◌∷◌, arith, codes, split, split_parts,
  split_once, trim, trim_start, trim_end, is_whitespace,
}
use bge_m3_embedding_server.Config.{
  Environment, parse_trt_warmup_shapes, parse_shapes, parse_shape, parse_uint, parse_digits,
  default_trt_warmup_shapes,
}
use bge_m3_embedding_server.Prelude.Floats.{whole, whole_ops}
use bge_m3_embedding_server.Config.Lookup.{from_lookup}
use bge_m3_embedding_server.Config.Ranges.{IsInRange, from_lookup-IsInRange}
use bge_m3_embedding_server.Config.Shapes.{print_shapes, parse_trt_warmup_shapes-print_shapes}

-- A token that is no shape is skipped; without any shape, the default is taken.
skips : parse_trt_warmup_shapes (some (codes "1x128, 2by4 ,+8x512")) ≡ (1, 128) ∷ (8, 512) ∷ []
unfolding parse_trt_warmup_shapes parse_shapes parse_shape parse_uint parse_digits split split_parts
    split_once trim trim_start trim_end is_whitespace
skips = refl

defaults : parse_trt_warmup_shapes (some (codes "fast")) ≡ default_trt_warmup_shapes
unfolding parse_trt_warmup_shapes parse_shapes parse_shape parse_uint parse_digits split split_parts
    split_once trim trim_start trim_end is_whitespace
defaults = refl

parse_trt_warmup_shapes-print_shapes_example :
    parse_trt_warmup_shapes (some (print_shapes (1, 128) ((4, 8192) ∷ [])))
    ≡ (1, 128) ∷ (4, 8192) ∷ []
parse_trt_warmup_shapes-print_shapes_example =
    parse_trt_warmup_shapes-print_shapes (1, 128) ((4, 8192) ∷ [])
      ((omega arith, omega arith), ((omega arith, omega arith), tt))

-- The number of workers is out of range.
abbrev no_workers : Environment whole whole_ops
no_workers = record {
  lookup = λ name. if text_eq name (codes "BGE_M3_WORKERS") then some (codes "0") else none;
  parse_f64 = λ v. none;
  detect_gpu_count = λ n. 1;
}

from_lookup-IsInRange_example : IsInRange whole_ops (from_lookup whole whole_ops no_workers)
from_lookup-IsInRange_example =
    from_lookup-IsInRange whole whole_ops no_workers
      (record { lo_irrefl = refl; hi_irrefl = refl; in_order = refl })
