-- ===== src/Logging/Tests.antt =====
-- Lines of both builds, and what is no object.
use bge_m3_embedding_server.Prelude.{◌≡◌, refl, true, false, none, some, codes, ends_with}
use bge_m3_embedding_server.Session.{Build}
use bge_m3_embedding_server.Logging.{
  build_variant, without_last, after_brace, with_key, prepend, prepend_build, prepend_module,
  json_line, want_json,
}
use bge_m3_embedding_server.Logging.Keys.{line_if_any, json_line-line_of}

abbrev gpu : Build
gpu = record {
  macos = false;
  tensorrt_feature = true;
  cuda_feature = false;
  coreml_profile = false;
  coreml_strategy = none;
}

json_line-line_of_example :
    json_line gpu (some (codes "{\"level\":\"INFO\"}\n"))
    ≡ line_if_any gpu (some (codes "{\"level\":\"INFO\"}\n"))
json_line-line_of_example = json_line-line_of gpu (some (codes "{\"level\":\"INFO\"}\n"))

line :
    json_line gpu (some (codes "{\"level\":\"INFO\"}\n"))
    ≡ some (codes "{\"bge_module\":\"server\",\"build\":\"cuda\",\"level\":\"INFO\"}\n")
unfolding json_line prepend_module prepend_build prepend build_variant without_last with_key
    after_brace ends_with
line = refl

empty_object :
    json_line (record gpu { tensorrt_feature = false }) (some (codes "{}"))
    ≡ some (codes "{\"bge_module\":\"server\",\"build\":\"cpu\"}")
unfolding json_line prepend_module prepend_build prepend build_variant without_last with_key
    after_brace ends_with
empty_object = refl

no_object : json_line gpu (some (codes "plain\n")) ≡ some (codes "plain\n")
unfolding json_line prepend_module prepend_build prepend without_last with_key ends_with
no_object = refl

format_of_terminal : want_json (some (codes "pretty")) false ≡ false
unfolding want_json
format_of_terminal = refl

format_of_pipe : want_json (some (codes "other")) false ≡ true
unfolding want_json
format_of_pipe = refl
