-- ===== src/Utils/Messages.antt =====
-- lib/Utils.tsx: the functions that make messages of errors, counts and dates.
use metadata.Prelude.{ℕ, [], ◌++◌, Option, none, some, if◌then◌else◌, ◌==◌, or_else}
use metadata.Prelude.Texts.{Text, text}
use metadata.Prelude.Numerals.{decimal}
use metadata.Value.{Value, undefined, str, is_empty}

-- A thrown value with the properties that the frontend reads; a text as message may be missing.
pub record Thrown : Type 0 where
  pub message : Value
  pub code : Option ℕ

abbrev extra_text : Option Text → Text
extra_text none = text "undefined"
extra_text (some s) = s

-- `extendError`: a message that is not a text, or is empty, is left alone.
abbrev pub extended : Value → Option Text → Value
extended (str m) extra = if is_empty m then str m else str (extra_text extra ++ (text ": " ++ m))
extended v extra = v

unfoldable pub extend_error : Thrown → Option Text → Thrown
extend_error e extra = record e { message = extended e.message extra }

-- What `rethrow` throws.
unfoldable pub rethrow : Thrown → Option Text → Thrown
unfolding extend_error
rethrow e extra = extend_error e extra

-- What a template literal writes for a message.
abbrev pub shown : Value → Text
shown undefined = text "undefined"
shown Value.null = text "null"
shown (Value.num n) = decimal n
shown (str m) = m

unfoldable pub service_error_to_string : Thrown → Text
service_error_to_string e = text "Error: " ++ (shown e.message ++ (text "." ++ code_text e.code))
  where
    code_text : Option ℕ → Text
    code_text none = []
    code_text (some n) = if n == 0 then [] else text " Code: " ++ decimal n

-- `s(items)`: the ending of a plural.
unfoldable pub s : ℕ → Text
s n = if n == 1 then [] else text "s"

-- What can be passed as `error`: an Error, an object with a `text` method and what that comes to,
-- or anything else with what `JSON.stringify` makes of it, nothing for undefined.
pub data Failure : Type 0 where
  error : Text → Failure
  response : Text → Failure
  other : Option Text → Failure

unfoldable pub error_to_message : Failure → Text
error_to_message (error message) = message
error_to_message (response body) = body
error_to_message (other stringified) = or_else stringified []

pub data DateLike : Type 0 where
  date_text : Text → DateLike
  date : ℕ → DateLike
  no_date : DateLike

-- `to_locale_string` and `parse_date` are the built-in `Date`.
unfoldable pub format_date_string : (ℕ → Text) → (Text → ℕ) → DateLike → Text
format_date_string to_locale_string parse_date (date_text t) = to_locale_string (parse_date t)
format_date_string to_locale_string parse_date (date d) = to_locale_string d
format_date_string to_locale_string parse_date no_date = text "-"
