-- ===== src/Translate/Tests.antt =====
-- The theorems on the translation service at small inputs.
use qtrans.Base.{Bytes, ℕ, refl, Option, some, List, [], ◌∷◌, codes, bytes_eq, length, ◌++◌}
use qtrans.Translate.Cancellation.{initial}
use qtrans.Translate.Cancellation.Delivery.{
  Call, request_call, install_call, run, IsDelivered, cancel-IsDelivered,
}
use qtrans.Translate.Http.{RequestLimits, index_of, blank_line, is_prefix, parse_request}
use qtrans.Translate.Http.Body.{HasBody, parse_request-HasBody}
use qtrans.Translate.Http.Prefix.{IsFinal, parse_request-IsFinal}

abbrev calls : List Call
calls = request_call ∷ install_call (some 1) ∷ []

cancel-IsDelivered_example : IsDelivered (run (initial, []) calls)
cancel-IsDelivered_example = cancel-IsDelivered calls

abbrev limits : RequestLimits
limits = record { max_header_bytes = 100; max_body_bytes = 10 }

abbrev identity : Bytes → Bytes
identity text = text

-- Reads a text of strokes.
abbrev strokes : Bytes → Option ℕ
strokes text = some (length text)

-- The head of a POST with a body of three bytes, of which one has arrived.
abbrev arrived : Bytes
arrived =
    codes "POST / HTTP/1.1"
    ++ 0x0d ∷ 0x0a ∷ (codes "content-length:111" ++ (blank_line ++ codes "a"))

parse_request-HasBody_example :
    HasBody identity identity bytes_eq strokes limits
      (parse_request identity identity bytes_eq strokes limits (arrived ++ codes "bc"))
parse_request-HasBody_example =
    parse_request-HasBody identity identity bytes_eq strokes limits (arrived ++ codes "bc")

parse_request-IsFinal_example :
    IsFinal identity identity bytes_eq strokes limits
      (parse_request identity identity bytes_eq strokes limits)
      arrived
      (codes "bc")
unfolding index_of is_prefix
parse_request-IsFinal_example =
    parse_request-IsFinal identity identity bytes_eq strokes limits arrived (codes "bc") 35 refl
