-- ===== src/Logging.antt =====
-- src/logging.rs: the keys at the start of each JSON line, and which format is used. The JSON formatter is
-- a parameter: what it writes for an event, or none where it fails.
pub mod Keys
mod Tests
use bge_m3_embedding_server.Prelude.{
  ℕ, Bool, true, false, ◌||◌, not, Option, none, some, List, [], ◌∷◌, ◌++◌, ◌==◌, if◌then◌else◌,
  Text, codes, text_eq, ends_with,
}
use bge_m3_embedding_server.Session.{Build}

abbrev pub bge_module : Text
bge_module = codes "server"

unfoldable pub build_variant : Build → Text
build_variant build =
    if build.cuda_feature || build.tensorrt_feature then codes "cuda" else codes "cpu"

-- `&buf[..buf.len() - 1]`
unfoldable pub without_last : Text → Text
without_last [] = []
without_last (c ∷ []) = []
without_last (c ∷ d ∷ t) = c ∷ without_last (d ∷ t)

-- `{"key":"value"`
abbrev pub opening : Text → Text → Text
opening key value = codes "{\"" ++ (key ++ (codes "\":\"" ++ (value ++ codes "\"")))

-- What is written for the body of a line, and behind its opening brace.
unfoldable pub after_brace : Text → Text → Text → Text
after_brace key value [] = opening key value ++ codes ","
after_brace key value (c ∷ rest) =
    if c == b'}'
    then opening key value ++ (codes "}" ++ rest)
    else opening key value ++ (codes "," ++ c ∷ rest)

unfoldable pub with_key : Text → Text → Text → Text
unfolding after_brace
with_key key value [] = []
with_key key value (c ∷ body) = if c == b'{' then after_brace key value body else c ∷ body

unfoldable pub prepend : Text → Text → Text → Text
unfolding without_last with_key
prepend key value buf =
    let trailing_newline = ends_with (codes "\n") buf in
    let body = if trailing_newline then without_last buf else buf in
    let written = with_key key value body in
    if trailing_newline then written ++ codes "\n" else written

-- `PrependBuild::format_event`, and that of `PrependModule`, with what the inner formatter does.
unfoldable pub prepend_build : Build → Option Text → Option Text
unfolding prepend build_variant
prepend_build build none = none
prepend_build build (some buf) = some (prepend (codes "build") (build_variant build) buf)

unfoldable pub prepend_module : Option Text → Option Text
unfolding prepend
prepend_module none = none
prepend_module (some buf) = some (prepend (codes "bge_module") bge_module buf)

-- The format of `init`, by `BGE_M3_LOG_FORMAT` and whether the output is a terminal.
unfoldable pub want_json : Option Text → Bool → Bool
want_json none is_terminal = not is_terminal
want_json (some format) is_terminal =
    if text_eq format (codes "text") || text_eq format (codes "pretty")
    then false
    else if text_eq format (codes "json")
    then true
    else not is_terminal

-- A line of the JSON format.
unfoldable pub json_line : Build → Option Text → Option Text
unfolding prepend_module prepend_build
json_line build inner = prepend_module (prepend_build build inner)
