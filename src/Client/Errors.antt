-- ===== src/Client/Errors.antt =====
-- How `fetchAPI` ends.
use kiyomi.Base.{ℕ, true, false, ◌≡◌, refl, inl, inr, Bool-cases, is_blank, ℕ_eq, arith}
use kiyomi.Base.Text.{ℕ_text, starts_with}
use kiyomi.Base.Text.Laws.{starts_with-append, is_blank_of_starts_with}
use kiyomi.Api.Numbers.{◌+text◌}
use kiyomi.Api.Values.{
  Value, undefined, null, flag, number, string, array, object, get, is_nullish, is_truthy, to_text,
}
use kiyomi.Client.{
  Response, ApiError, api_error, is_ok, error_data, error_message, error_of, fetch_api,
}

-- A text, or nothing.
abbrev pub IsMessage : Value → Type 0
IsMessage undefined = Unit
IsMessage null = Unit
IsMessage (string s) = Unit
IsMessage v = ⊥

to_text-is_blank : (v : Value) → IsMessage v → is_truthy v ≡ true → is_blank (to_text v) ≡ false
unfolding is_truthy to_text
to_text-is_blank (string s) h t = ground arith
to_text-is_blank undefined h t = ground arith
to_text-is_blank null h t = ground arith
to_text-is_blank (flag b) h t = absurd h
to_text-is_blank (number n) h t = absurd h
to_text-is_blank (array items) h t = absurd h
to_text-is_blank (object fields) h t = absurd h

status_text-is_blank : (n : ℕ) → is_blank ("HTTP " +text ℕ_text n) ≡ false
unfolding starts_with
status_text-is_blank n =
    is_blank_of_starts_with ("HTTP " +text ℕ_text n) "HTTP " refl
      (starts_with-append "HTTP " (ℕ_text n))

error_message-is_blank :
    (status : ℕ) (sent : Value)
    → IsMessage (get "message" sent)
    → IsMessage (get "error" sent)
    → is_blank (error_message status sent) ≡ false
unfolding error_message
error_message-is_blank status sent hm he = elim (Bool-cases (is_truthy (get "message" sent))) [
  | inl m ↦ rw m (to_text-is_blank (get "message" sent) hm m)
  | inr m ↦ elim (Bool-cases (is_truthy (get "error" sent))) [
    | inl e ↦ rw (m, e) (to_text-is_blank (get "error" sent) he e)
    | inr e ↦ rw (m, e) (status_text-is_blank status)
  ]
]

-- An answer that does not count as one, and whose JSON is neither `null` nor missing fields of another
-- type, ends in an error of the client: it has a message that is not blank, and the code, the details
-- and the id of the request that the server sent.
pub fetch_api-fails :
    (res : Response)
    → is_ok res ≡ false
    → is_nullish (error_data res) ≡ false
    → IsMessage (get "message" (error_data res))
    → IsMessage (get "error" (error_data res))
    → (e : ApiError) × (fetch_api res ≡ api_error e)
      × (is_blank e.message ≡ false)
      × (e.code ≡ get "code" (error_data res))
      × (e.details ≡ get "details" (error_data res))
      × (e.request_id ≡ get "request_id" (error_data res))
unfolding fetch_api error_of
fetch_api-fails res bad sent hm he = (
  error_of res.status (error_data res),
  rw (bad, sent) refl,
  error_message-is_blank res.status (error_data res) hm he,
  refl,
  refl,
  refl,
)
