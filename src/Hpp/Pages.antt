-- ===== src/Hpp/Pages.antt =====
-- The pages of the student list behind the filter with the options of cmd/api/server.go.
use student_system_go.Common.{◌≡◌, refl}
use student_system_go.Common.Int.{pos}
use student_system_go.Common.Text.{atoi}
use student_system_go.Query.{Params, get_pagination_params}
use student_system_go.Hpp.{main_whitelist, filter_query_params}
use student_system_go.Hpp.Once.{filter_query_params-values}

-- The whitelist that the server passes to the filter has neither page nor limit, so whatever page a
-- request asks for, getPaginationParams reads the first page of ten behind the filter.
pub get_pagination_params-first :
    (ps : Params) → get_pagination_params (filter_query_params main_whitelist ps) ≡ (pos 1, pos 10)
unfolding get_pagination_params atoi
get_pagination_params-first ps =
    rw (filter_query_params-values main_whitelist ps "page")
      (rw (filter_query_params-values main_whitelist ps "limit") refl)
