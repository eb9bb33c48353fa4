-- ===== src/Handler/Router.antt =====
-- src/bootstrap/router.rs, src/handler/models.rs and the inputs of src/models.rs: which handler a path has, and
-- the level of its span. A path is matched as it is, without decoding.
use bge_m3_embedding_server.Prelude.{
  ◌≡◌, refl, Bool, true, false, ◌||◌, List, [], ◌∷◌, Text, codes, text_eq, All,
}

pub data Method : Type 0 where
  get post other : Method

pub data Endpoint : Type 0 where
  dense_handler sparse_handler both_handler models_handler health_handler deep_handler : Endpoint

pub record Route : Type 0 where
  pub path : Text
  pub method : Method
  pub endpoint : Endpoint

abbrev route : Text → Method → Endpoint → Route
route path method endpoint = record { path = path; method = method; endpoint = endpoint }

-- The last two paths of `both` are its colon in percent-encoding.
abbrev pub routes : List Route
routes =
    route (codes "/v1/embeddings") post dense_handler
    ∷ route (codes "/v1/sparse-embeddings") post sparse_handler
    ∷ route (codes "/v1/embeddings:both") post both_handler
    ∷ route (codes "/v1/embeddings%3Aboth") post both_handler
    ∷ route (codes "/v1/embeddings%3aboth") post both_handler
    ∷ route (codes "/v1/models") get models_handler
    ∷ route (codes "/health") get health_handler
    ∷ route (codes "/health/deep") get deep_handler
    ∷ []

-- `RouteAwareSpan::make_span`
unfoldable pub is_noisy : Text → Bool
is_noisy path =
    text_eq path (codes "/health")
    || text_eq path (codes "/health/deep")
    || text_eq path (codes "/v1/models")

abbrev is_get : Method → Bool
is_get get = true
is_get post = false
is_get other = false

-- The routes that are polled are those of the method GET: only their spans have the level DEBUG.
routes-is_noisy : All (λ r. is_noisy r.path ≡ is_get r.method) routes
unfolding is_noisy
routes-is_noisy = (refl, (refl, (refl, (refl, (refl, (refl, (refl, (refl, tt))))))))

-- The `input` of a request: a text, or an array of texts.
pub data StringOrArray : Type 0 where
  single : Text → StringOrArray
  multiple : List Text → StringOrArray

unfoldable pub text_input : StringOrArray → List Text
text_input (single s) = s ∷ []
text_input (multiple v) = v

pub record ModelEntry : Type 0 where
  pub id : Text
  pub object : Text

pub record ModelsResponse : Type 0 where
  pub object : Text
  pub entries : List ModelEntry

unfoldable pub models_response : ModelsResponse
models_response = record {
  object = codes "list";
  entries = record { id = codes "bge-m3"; object = codes "model" } ∷ [];
}
