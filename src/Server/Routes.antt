-- ===== src/Server/Routes.antt =====
-- `Routes` of internal/transfer/server/handler.go: the patterns of the mux. Which pattern a request
-- matches is the business of net/http.
use text.Mathlib.Text.{◌==◌}
use qonto.Prelude.{String, ◌≡◌, refl, Option, none, some, List, [], ◌∷◌, map, if◌then◌else◌}

pub data Endpoint : Type 0 where
  submit_endpoint history_endpoint : Endpoint

-- A pattern, the label under which its requests are counted, and the handler behind it.
pub record Route : Type 0 where
  pub pattern : String
  pub label : String
  pub endpoint : Endpoint

unfoldable pub routes : List Route
routes =
    record {
      pattern = "POST /transfers/bulk";
      label = "POST /transfers/bulk";
      endpoint = submit_endpoint;
    }
    ∷ record {
      pattern = "GET /accounts/{id}/transactions";
      label = "GET /accounts/{id}/transactions";
      endpoint = history_endpoint;
    }
    ∷ []

abbrev pub route_of : String → List Route → Option Route
route_of pattern [] = none
route_of pattern (r ∷ rs) = if r.pattern == pattern then some r else route_of pattern rs

-- Every route is counted under its own pattern, not under the path of a request.
labelled_by_pattern : map (λ (r : Route). r.label) routes ≡ map (λ (r : Route). r.pattern) routes
unfolding routes
labelled_by_pattern = refl
