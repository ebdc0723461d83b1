-- ===== src/Core/Redact.antt =====
-- `redact_json` and `is_secret_key` of crates/openwork-core/src/lib.rs, over `redact_text` as a parameter.
use openwork.Common.{ℕ, String, Bool, false, ◌||◌, List, [], ◌∷◌, any, if◌then◌else◌}
use openwork.Core.Text.{codes, is_digit, is_lower, is_upper, to_lower, contains, ends_with}
use openwork.Core.Json.{
  Value, null, bool, integer, negative, float, string, array, object, Values, nil, cons, Entries,
  end, entry,
}

-- `chars().filter(is_ascii_alphanumeric).flat_map(to_lowercase)`
unfoldable pub normalized : List ℕ → List ℕ
normalized [] = []
normalized (c ∷ cs) =
    let rest = normalized cs in
    if is_digit c || is_lower c || is_upper c then to_lower c ∷ rest else rest

abbrev pub secret_words : List String
secret_words =
    "authorization" ∷ "cookie" ∷ "setcookie" ∷ "password" ∷ "secret" ∷ "token" ∷ "apikey"
    ∷ "accesskey" ∷ "privatekey" ∷ "clientsecret" ∷ "prompt" ∷ "stdout" ∷ "stderr" ∷ "runtimeoutput"
    ∷ "rawoutput" ∷ "vendorpayload" ∷ "messagecontent" ∷ "message" ∷ "content" ∷ "parameters" ∷ []

unfoldable pub is_secret_key : String → Bool
unfolding codes normalized contains ends_with
is_secret_key key =
    let n = normalized (codes key) in
    if ends_with n (codes "sha256") || ends_with n (codes "hash")
    then false
    else any (λ word. contains n (codes word)) secret_words

unfoldable mutual
  unfolding is_secret_key

  pub redact_json : (String → String) → Value → Value
  redact_json redact_text (array vs) = array (redact_values redact_text vs)
  redact_json redact_text (object es) = object (redact_entries redact_text es)
  redact_json redact_text (string s) = string (redact_text s)
  redact_json redact_text null = null
  redact_json redact_text (bool b) = bool b
  redact_json redact_text (integer n) = integer n
  redact_json redact_text (negative n) = negative n
  redact_json redact_text (float f) = float f

  pub redact_values : (String → String) → Values → Values
  redact_values redact_text nil = nil
  redact_values redact_text (cons v vs) =
      cons (redact_json redact_text v) (redact_values redact_text vs)

  pub redact_entries : (String → String) → Entries → Entries
  redact_entries redact_text end = end
  redact_entries redact_text (entry k v es) =
      entry k (if is_secret_key k then string "[REDACTED]" else redact_json redact_text v)
        (redact_entries redact_text es)
