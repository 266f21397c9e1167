-- ===== src/Client.antt =====
-- web/src/api/client.ts: the requests that the web application sends, and how it reads an answer.
-- A function of `api` is the request that it makes, or a function of the answer where it goes on with
-- it. A body is the value that `JSON.stringify` gets; its fields that are `undefined` are left out.
pub mod Queries
pub mod Params
pub mod Providers
pub mod Details
pub mod Decoding
pub mod Points
pub mod Paths
pub mod Routes
pub mod Legacy
pub mod Errors
mod Tests
pub mod Library
pub mod Chapters
pub mod System
use kiyomi.Base.{
  ℕ, Bool, true, false, not, ◌&&◌, String, Option, none, some, List, [], ◌∷◌, leb, is_blank, ◌==◌,
  ℕ_eq, String_eq, if◌then◌else◌,
}
use kiyomi.Base.Text.{ℕ_text}
use kiyomi.Api.Numbers.{◌+text◌}
use kiyomi.Api.Values.{
  Value, undefined, null, flag, number, string, array, object, Fields, nil, field, fields_of,
  object_of, get, is_nullish, is_undefined, is_truthy, to_text,
}

pub data Method : Type 0 where
  http_get http_post http_put http_patch http_delete : Method

pub record Request : Type 0 where
  pub method : Method
  pub endpoint : String
  pub json_body : Option Value

-- `fetchAPI(endpoint)`, with a method, and with a body of type application/json.
abbrev pub reading : String → Request
reading endpoint = record { method = http_get; endpoint = endpoint; json_body = none }

abbrev pub calling : Method → String → Request
calling method endpoint = record { method = method; endpoint = endpoint; json_body = none }

abbrev pub drop_undefined : Fields → Fields
drop_undefined nil = nil
drop_undefined (field k v fields) =
    if is_undefined v then drop_undefined fields else field k v (drop_undefined fields)

abbrev pub sending : Method → String → List (String × Value) → Request
sending method endpoint fields = record {
  method = method;
  endpoint = endpoint;
  json_body = some (object (drop_undefined (fields_of fields)));
}

abbrev pub sending_value : Method → String → Value → Request
sending_value method endpoint body = record {
  method = method;
  endpoint = endpoint;
  json_body = some body;
}

-- The address that `fetch` gets.
unfoldable pub address : Request → String
address r = "/api/v1" +text r.endpoint

-- A `Response`; `json` is what `res.json()` gives, unless it rejects.
pub record Response : Type 0 where
  pub status : ℕ
  pub status_text : String
  pub json : Option Value

pub record ApiError : Type 0 where
  pub message : String
  pub code : Value
  pub details : Value
  pub request_id : Value

-- How the promise ends: with a value, with the error that the code throws, or with an error of the
-- platform, where an answer that counts as one is not JSON, or an error's JSON is `null`.
pub data Settled (A : Type 0) : Type 0 where
  resolved : A → Settled A
  api_error : ApiError → Settled A
  platform_error : Settled A

unfoldable pub is_ok : Response → Bool
is_ok res = leb 200 res.status && leb res.status 299

-- `await res.json().catch(…)`
abbrev pub error_data : Response → Value
error_data res = elim res.json [
  | none ↦ object_of (("message", string res.status_text) ∷ ("code", string "UNKNOWN_ERROR") ∷ [])
  | some data_sent ↦ data_sent
]

-- `errorData.message || errorData.error || …`
unfoldable pub error_message : ℕ → Value → String
error_message status data_sent =
    if is_truthy (get "message" data_sent)
    then to_text (get "message" data_sent)
    else if is_truthy (get "error" data_sent)
    then to_text (get "error" data_sent)
    else "HTTP " +text ℕ_text status

unfoldable pub error_of : ℕ → Value → ApiError
unfolding error_message
error_of status data_sent = record {
  message = error_message status data_sent;
  code = get "code" data_sent;
  details = get "details" data_sent;
  request_id = get "request_id" data_sent;
}

abbrev settle_json : Option Value → Settled Value
settle_json none = platform_error
settle_json (some v) = resolved v

unfoldable pub fetch_api : Response → Settled Value
unfolding is_ok error_of
fetch_api res =
    if not (is_ok res)
    then if is_nullish (error_data res)
      then platform_error
      else api_error (error_of res.status (error_data res))
    else if res.status == 204
    then resolved (object nil)
    else settle_json res.json

-- `.then(f)`, where `f` does not throw.
abbrev pub then_do : {A B : Type 0} → (A → B) → Settled A → Settled B
then_do f (resolved a) = resolved (f a)
then_do f (api_error e) = api_error e
then_do f platform_error = platform_error
