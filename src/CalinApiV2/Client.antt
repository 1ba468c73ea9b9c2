-- ===== src/CalinApiV2/Client.antt =====
-- src/plugins/calin-api-v2/lib/repo.ts: a request with a cached login. The network is a state `W` with
-- what a login and a POST of the request give; `payload_exp` reads the `exp` of a JWT's payload, where
-- it is a finite number. Requests run one at a time: the sharing of a login that is under way is left
-- out, and so are the bodies of requests and logging.
pub mod Bounds
pub mod Tokens
use nxt_device_messaging.Common.{
  ℕ, zero, suc, ◌+◌, ◌*◌, Text, txt, Bool, true, ◌&&◌, Option, none, some, [], ◌∷◌, get_elem?, leb,
  ltb, ◌==◌, if◌then◌else◌,
}
use nxt_device_messaging.CalinApiV1.{split}

pub record CachedToken : Type 0 where
  pub token : Text
  pub exp_ms : ℕ

-- The login threw, or its body named a token, or none that is a text.
pub data LoginAnswer : Type 0 where
  login_threw : LoginAnswer
  login_body : Option Text → LoginAnswer

-- The POST threw, or it gave a status with a body, which may not be JSON.
pub data Posted (B : Type 0) : Type 0 where
  post_threw : Posted B
  post_status : ℕ → Option B → Posted B

-- The three outcomes of one POST, and of a wave of them.
pub data Outcome (B : Type 0) : Type 0 where
  ok : B → Outcome B
  unauthorized not_ok : Outcome B

pub data Answer (B : Type 0) : Type 0 where
  answered : B → Answer B
  throws : Text → Answer B

abbrev pub fetch_retries : ℕ
fetch_retries = 3

abbrev pub token_expiry_skew_ms : ℕ
token_expiry_skew_ms = 1000

abbrev pub dot : ℕ
dot = 46

abbrev pub from_json : {B : Type 0} → Option B → Outcome B
from_json none = not_ok
from_json (some body) = ok body

-- A body with an unexpected code is handed on.
abbrev pub post_outcome : {B : Type 0} → Posted B → Outcome B
post_outcome post_threw = not_ok
post_outcome (post_status status body) =
    if status == 401
    then unauthorized
    else if leb 200 status && ltb status 300
    then from_json body
    else not_ok

-- The network, and the token of the last login.
pub record Session (W : Type 0) : Type 0 where
  pub wire : W
  pub cached_token : Option CachedToken

module _ (payload_exp : Text → Option ℕ) where
  abbrev pub in_ms : Option ℕ → Option ℕ
  in_ms none = none
  in_ms (some seconds) = some (seconds * 1000)

  abbrev pub payload_exp_ms : Option Text → Option ℕ
  payload_exp_ms none = none
  payload_exp_ms (some []) = none
  payload_exp_ms (some (c ∷ cs)) = in_ms (payload_exp (c ∷ cs))

  unfoldable pub read_jwt_exp_ms : Text → Option ℕ
  read_jwt_exp_ms jwt = payload_exp_ms (get_elem? (split dot jwt) 1)

  abbrev pub with_exp : Text → Option ℕ → Option CachedToken
  with_exp token none = none
  with_exp token (some exp_ms) = some (record { token = token; exp_ms = exp_ms })

  -- The token to cache after a body of the login.
  abbrev pub minted : Option Text → Option CachedToken
  minted none = none
  minted (some []) = none
  minted (some (c ∷ cs)) = with_exp (c ∷ cs) (read_jwt_exp_ms (c ∷ cs))

  module _ {W B : Type 0} (login : W → LoginAnswer × W) (post : Text → W → Posted B × W)
      (now : W → ℕ) where
    -- A login that threw is tried again; a body ends the loop, with a token or without.
    abbrev pub logged_in : (W → Session W) → Option CachedToken → LoginAnswer × W → Session W
    logged_in again cached (login_threw, w) = again w
    logged_in again cached (login_body token, w) = record { wire = w; cached_token = minted token }

    unfoldable pub fetch_token_within : ℕ → Option CachedToken → W → Session W
    fetch_token_within zero cached w = record { wire = w; cached_token = cached }
    fetch_token_within (suc n) cached w =
        logged_in (λ v. fetch_token_within n cached v) cached (login w)

    abbrev pub fetch_token : Option CachedToken → W → Session W
    fetch_token cached w = fetch_token_within fetch_retries cached w

    abbrev pub needs_refresh : Option CachedToken → ℕ → Bool
    needs_refresh none at_ms = true
    needs_refresh (some t) at_ms = ltb t.exp_ms (at_ms + token_expiry_skew_ms)

    abbrev pub ensure_token : Session W → Session W
    ensure_token s =
        if needs_refresh s.cached_token (now s.wire) then fetch_token s.cached_token s.wire else s

    -- The same POST again while it is neither answered nor unauthorized.
    abbrev pub posted_again : (W → Outcome B × W) → Outcome B → W → Outcome B × W
    posted_again again (ok body) w = (ok body, w)
    posted_again again unauthorized w = (unauthorized, w)
    posted_again again not_ok w = again w

    unfoldable pub post_within : ℕ → Text → W → Outcome B × W
    post_within zero bearer w = (not_ok, w)
    post_within (suc n) bearer w =
        let (posted, after) = post bearer w in
        posted_again (λ v. post_within n bearer v) (post_outcome posted) after

    abbrev pub down_text : Text
    down_text = txt "CALIN API-V2 is down"

    abbrev pub second_outcome : Option CachedToken → Outcome B × W → Answer B × Session W
    second_outcome cached (ok body, w) = (answered body, record { wire = w; cached_token = cached })
    second_outcome cached (unauthorized, w) = (
      throws (txt "[CALIN API-V2] Unauthorized after token refresh"),
      record { wire = w; cached_token = cached },
    )
    second_outcome cached (not_ok, w) =
        (throws down_text, record { wire = w; cached_token = cached })

    abbrev pub second_wave : W → Option CachedToken → Answer B × Session W
    second_wave w none = (
      throws (txt "[CALIN API-V2] Can't log in, API may be down"),
      record { wire = w; cached_token = none },
    )
    second_wave w (some t) = second_outcome (some t) (post_within fetch_retries t.token w)

    -- A 401 drops the token and logs in anew, once.
    abbrev pub first_outcome : Option CachedToken → Outcome B × W → Answer B × Session W
    first_outcome cached (ok body, w) = (answered body, record { wire = w; cached_token = cached })
    first_outcome cached (unauthorized, w) =
        let s = fetch_token none w in second_wave s.wire s.cached_token
    first_outcome cached (not_ok, w) =
        (throws down_text, record { wire = w; cached_token = cached })

    abbrev pub first_wave : W → Option CachedToken → Answer B × Session W
    first_wave w none = (
      throws (txt "CALIN API-V2 failed to get a token"),
      record { wire = w; cached_token = none },
    )
    first_wave w (some t) = first_outcome (some t) (post_within fetch_retries t.token w)

    unfoldable pub send_request : Session W → Answer B × Session W
    send_request s = let t = ensure_token s in first_wave t.wire t.cached_token
