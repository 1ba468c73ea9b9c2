-- ===== src/CalinApiV1/Client.antt =====
-- src/plugins/calin-api-v1/lib/repo.ts: a request of a COMM task over HTTP, and how its failures are
-- classified. The answer of `fetch` is an argument; headers, the deadline and logging are left out.
pub mod Polled
use nxt_device_messaging.Common.{
  ℕ, zero, suc, ◌+◌, ◌/◌, ◌%◌, Text, txt, is_text, starts_with, includes_text, Bool, false, ◌&&◌,
  ◌||◌, Option, none, some, [], ◌∷◌, ◌++◌, leb, ltb, if◌then◌else◌,
}
use nxt_device_messaging.CalinApiV1.{
  CommResponse, Sent, answered, failed, failed_with_text, failed_with_number,
}

-- What JavaScript threw: an object with a name, a code that is a text, and a cause; or no object.
pub data Thrown : Type 0 where
  no_object : Thrown
  an_object : Option Text → Option Text → Thrown → Thrown

-- A body that may not be JSON.
pub data Body : Type 0 where
  unreadable : Thrown → Body
  readable : CommResponse → Body

-- `down_message` is the `Message` of the body as a text: "undefined" where there is none.
pub record HttpResponse : Type 0 where
  pub status : ℕ
  pub content_type : Option Text
  pub down_message : Text
  pub body : Body

pub data Fetched : Type 0 where
  threw : Thrown → Fetched
  responded : HttpResponse → Fetched

abbrev pub cause_code : Thrown → Option Text
cause_code no_object = none
cause_code (an_object name code cause) = code

abbrev pub get_network_error_code : Thrown → Option Text
get_network_error_code no_object = none
get_network_error_code (an_object name none cause) = cause_code cause
get_network_error_code (an_object name (some code) cause) = some code

abbrev pub is_timeout_name : Option Text → Bool
is_timeout_name none = false
is_timeout_name (some name) = is_text (txt "TimeoutError") name || is_text (txt "AbortError") name

-- The error and its causes, as many as the loop looks at.
abbrev pub timeout_within : ℕ → Thrown → Bool
timeout_within zero e = false
timeout_within (suc n) no_object = false
timeout_within (suc n) (an_object name code cause) = is_timeout_name name || timeout_within n cause

abbrev pub is_abort_timeout : Thrown → Bool
is_abort_timeout e = timeout_within 4 e

abbrev pub is_transport_code : Text → Bool
is_transport_code code =
    is_text (txt "ECONNREFUSED") code
    || is_text (txt "ECONNRESET") code
    || is_text (txt "ETIMEDOUT") code
    || is_text (txt "EAI_AGAIN") code
    || is_text (txt "ENOTFOUND") code
    || is_text (txt "EHOSTUNREACH") code
    || is_text (txt "ENETUNREACH") code
    || is_text (txt "EPIPE") code
    || starts_with (txt "UND_ERR_") code

abbrev pub or_timeout : Option Text → Text
or_timeout none = txt "TimeoutError"
or_timeout (some code) = code

abbrev pub is_transport : Option Text → Bool
is_transport none = false
is_transport (some code) = is_transport_code code

-- The errno of a transport failure; none is no transport failure.
abbrev pub transport_code_of : Thrown → Option Text
transport_code_of e =
    if is_transport (get_network_error_code e)
    then get_network_error_code e
    else if is_abort_timeout e
    then some (or_timeout (get_network_error_code e))
    else none

abbrev pub message_for_transport : Text → Text
message_for_transport code =
    if is_text (txt "ECONNREFUSED") code
    then txt "[CALIN API-V1] could not be reached, connection was refused"
    else if is_text (txt "ECONNRESET") code
    then txt "[CALIN API-V1] abruptly closed its end of the connection"
    else txt "[CALIN API-V1] could not be reached"

abbrev pub is_down : Option Text → Sent
is_down none = failed (txt "[CALIN API-V1] is down")
is_down (some code) = failed_with_text (txt "[CALIN API-V1] is down") code

abbrev pub unreached : Thrown → Option Text → Sent
unreached e none = is_down (get_network_error_code e)
unreached e (some code) = failed_with_text (message_for_transport code) code

-- What the catch block makes of an error that is not the client's own.
abbrev pub on_thrown : Thrown → Sent
on_thrown e = unreached e (transport_code_of e)

abbrev pub is_html : Option Text → Bool
is_html none = false
is_html (some content_type) = includes_text (txt "text/html") content_type

-- A status has three digits.
abbrev pub status_code : ℕ → Text
status_code status = (status / 100 + 48) ∷ (status / 10 % 10 + 48) ∷ (status % 10 + 48) ∷ []

abbrev pub responded_ok : ℕ → Bool
responded_ok status = leb 200 status && ltb status 300

abbrev pub on_body : Body → Sent
on_body (unreadable e) = on_thrown e
on_body (readable response) = answered response

abbrev pub on_http_response : HttpResponse → Sent
on_http_response r =
    if is_html r.content_type
    then failed_with_number (txt "[CALIN API-V1] responded with a HTML page..")
        (status_code r.status)
    else if responded_ok r.status
    then on_body r.body
    else failed_with_number (txt "[CALIN API-V1] is down: " ++ r.down_message)
        (status_code r.status)

abbrev pub send_request : Fetched → Sent
send_request (threw e) = on_thrown e
send_request (responded r) = on_http_response r
