-- ===== src/Api/Tests.antt =====
-- The theorems on a request at concrete answers.
use ansible_aam.Prelude.{String, ◌≡◌, refl, ◌↔◌, true, false, List, [], ◌∷◌}
use ansible_aam.Prelude.Result.{ok}
use ansible_aam.Value.{Value, null, str, obj, from_entries, Fields, arr}
use ansible_aam.Api.{
  Response, answered, RequestOptions, request, IsAnswer, request-eq-ok_iff, messages, error,
  is_abort_error,
}
use ansible_aam.Prelude.Text.Search.{contains, starts_with}

abbrev same : String → String
same s = s

abbrev text : Value → String
text (str s) = s
text v = "value"

abbrev unauthorized : Response
unauthorized = record {
  status = 401;
  is_ok = false;
  status_text = "Unauthorized";
  json = ok (obj (from_entries (("detail", str "Sign in first") ∷ [])));
}

abort_test : is_abort_error same text (error "TypeError" "The request was aborted.") ≡ true
unfolding is_abort_error contains starts_with
abort_test = refl

no_abort_test : is_abort_error same text (error "TypeError" "") ≡ false
unfolding is_abort_error contains starts_with
no_abort_test = refl

abbrev lenient : RequestOptions
lenient = record { allow_unauthorized = true; aborted = false }

abbrev strict : RequestOptions
strict = record { allow_unauthorized = false; aborted = false }

request-eq-ok_iff_example : (request same text lenient (answered unauthorized) ≡ ok null) ↔ (
    (response : Response) × (answered unauthorized ≡ answered response)
    × IsAnswer same text lenient response null)
request-eq-ok_iff_example = request-eq-ok_iff same text lenient (answered unauthorized) null

abbrev both : List String
both = "Name is required" ∷ "Slug is taken" ∷ []

abbrev body : Fields
body = from_entries (("detail", arr (messages same text both)) ∷ [])

abbrev invalid : Response
invalid = record {
  status = 422;
  is_ok = false;
  status_text = "Unprocessable";
  json = ok (obj body);
}
