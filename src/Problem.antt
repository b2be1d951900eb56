-- ===== src/Problem.antt =====
-- src/common/filters/problem-exception.filter.ts: the problem document that answers an exception.
use marketplace_api.Prelude.{Conversions, List, Text, [], if◌then◌else◌, text, ℕ, ◌++◌, ◌==◌, ◌∷◌}

-- What `getResponse` of an HttpException gives: nothing of use, a text, or an object with a message
-- that is missing, a text or a list of texts.
pub data HttpBody : Type 0 where
  no_body : HttpBody
  plain : Text → HttpBody
  no_message : HttpBody
  one_message : Text → HttpBody
  messages : List Text → HttpBody

-- An HttpException with its status, its body and its own message; another Error; or anything else.
pub data Exception : Type 0 where
  http : ℕ → HttpBody → Text → Exception
  error : Text → Exception
  thrown : Exception

pub record Problem : Type 0 where
  pub type : Text
  pub title : Text
  pub status : ℕ
  pub detail : Text
  pub location : Text

-- TITLES, with 'Error' for another status
abbrev pub titles : List (ℕ × Text)
titles =
    (400, text "Bad Request")
    ∷ (401, text "Unauthorized")
    ∷ (403, text "Forbidden")
    ∷ (404, text "Not Found")
    ∷ (409, text "Conflict")
    ∷ (422, text "Unprocessable Entity")
    ∷ (429, text "Too Many Requests")
    ∷ (500, text "Internal Server Error")
    ∷ (503, text "Service Unavailable")
    ∷ []

abbrev pub title_in : ℕ → List (ℕ × Text) → Text
title_in status [] = text "Error"
title_in status ((s, t) ∷ rest) = if s == status then t else title_in status rest

-- message.join('; ')
abbrev pub join_messages : List Text → Text
join_messages [] = []
join_messages (m ∷ []) = m
join_messages (m ∷ n ∷ rest) = m ++ text "; " ++ join_messages (n ∷ rest)

abbrev pub default_detail : Text
default_detail = text "Internal server error"

abbrev pub detail_of : HttpBody → Text → Text
detail_of no_body message = default_detail
detail_of (plain t) message = t
detail_of no_message message = message
detail_of (one_message t) message = t
detail_of (messages ts) message = join_messages ts

abbrev pub status_and_detail : Exception → ℕ × Text
status_and_detail (http status body message) = (status, detail_of body message)
status_and_detail (error message) = (500, message)
status_and_detail thrown = (500, default_detail)

-- `catch`: the document, which is also the answer's status
unfoldable pub problem_of : Conversions → Exception → Text → Problem
problem_of conv e url =
    let (status, detail) = status_and_detail e in
    record {
      type = text "https://example.com/problems/" ++ conv.string status;
      title = title_in status titles;
      status = status;
      detail = detail;
      location = url;
    }
