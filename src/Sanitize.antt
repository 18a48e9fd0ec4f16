-- ===== src/Sanitize.antt =====
-- `clean` of internal/api/middlewares/sanitize.go, through which the JSON body of a request goes. The
-- HTML policy of bluemonday is a parameter.
pub mod Safe
mod Tests
use student_system_go.Common.{String, Option, none, some}
use student_system_go.Reflect.Json.{
  Json, Items, Members, null, bool, num, str, arr, obj, nil, cons, end, member,
}

-- `sanitize` is `sanitizeString`.
module _ (sanitize : String → String) where
  unfoldable mutual
    -- `sanitizeValue`
    pub sanitize_value : Json → Json
    sanitize_value null = null
    sanitize_value (bool b) = bool b
    sanitize_value (num n) = num n
    sanitize_value (str s) = str (sanitize s)
    sanitize_value (arr vs) = arr (sanitize_items vs)
    sanitize_value (obj ms) = obj (sanitize_members ms)

    pub sanitize_items : Items → Items
    sanitize_items nil = nil
    sanitize_items (cons v vs) = cons (sanitize_value v) (sanitize_items vs)

    pub sanitize_members : Members → Members
    sanitize_members end = end
    sanitize_members (member k v ms) = member k (sanitize_value v) (sanitize_members ms)

  -- `clean`: `none` is the error that the middleware answers with 400.
  unfoldable pub clean : Json → Option Json
  unfolding sanitize_value
  clean (obj ms) = some (obj (sanitize_members ms))
  clean (arr vs) = some (arr (sanitize_items vs))
  clean (str s) = some (str (sanitize s))
  clean v = none
