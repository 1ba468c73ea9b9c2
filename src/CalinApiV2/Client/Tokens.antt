-- ===== src/CalinApiV2/Client/Tokens.antt =====
-- The token that src/plugins/calin-api-v2/lib/repo.ts caches.
use nxt_device_messaging.Common.{
  ℕ, zero, suc, Text, ◌≡◌, ◌≢◌, refl, Bool-cases, inl, inr, Option, none, some, [], ◌∷◌, arith,
}
use nxt_device_messaging.CalinApiV2.Client.{
  CachedToken, LoginAnswer, login_threw, login_body, Posted, Outcome, ok, unauthorized, not_ok,
  Session, minted, with_exp, read_jwt_exp_ms, logged_in, fetch_token_within, fetch_token,
  needs_refresh, ensure_token, post_within, second_outcome, second_wave, first_outcome, first_wave,
  send_request, fetch_retries,
}

module _ {W B : Type 0} (payload_exp : Text → Option ℕ) (login : W → LoginAnswer × W)
    (post : Text → W → Posted B × W) (now : W → ℕ) where
  -- The cached token is no empty text, and its expiry is the one that it carries.
  abbrev pub IsMinted : Option CachedToken → Type 0
  IsMinted none = Unit
  IsMinted (some t) = (t.token ≢ []) × (read_jwt_exp_ms payload_exp t.token ≡ some t.exp_ms)

  with_exp-IsMinted :
      (token : Text) (o : Option ℕ)
      → token ≢ []
      → read_jwt_exp_ms payload_exp token ≡ o
      → IsMinted (with_exp payload_exp token o)
  with_exp-IsMinted token none ne e = tt
  with_exp-IsMinted token (some exp_ms) ne e = (ne, e)

  minted-IsMinted : (token : Option Text) → IsMinted (minted payload_exp token)
  minted-IsMinted none = tt
  minted-IsMinted (some []) = tt
  minted-IsMinted (some (c ∷ cs)) = with_exp-IsMinted (c ∷ cs) _ (λ e. absurd (ground arith)) refl

  fetch_token_within-IsMinted :
      (n : ℕ) (cached : Option CachedToken) (w : W)
      → IsMinted cached
      → IsMinted (fetch_token_within payload_exp login post now n cached w).cached_token
  unfolding fetch_token_within
  fetch_token_within-IsMinted zero cached w h = h
  fetch_token_within-IsMinted (suc n) cached w h =
      go (λ v. fetch_token_within-IsMinted n cached v h) (login w).0 (login w).1
    where
      go :
          ((v : W)
            → IsMinted (fetch_token_within payload_exp login post now n cached v).cached_token)
          → (answer : LoginAnswer) (v : W)
          → IsMinted
              (logged_in payload_exp login post now
                (λ u. fetch_token_within payload_exp login post now n cached u)
                cached
                (answer, v)).cached_token
      go again login_threw v = again v
      go again (login_body token) v = minted-IsMinted token

  second_outcome-IsMinted :
      (cached : Option CachedToken) (o : Outcome B) (w : W)
      → IsMinted cached
      → IsMinted (second_outcome payload_exp login post now cached (o, w)).1.cached_token
  second_outcome-IsMinted cached (ok body) w h = h
  second_outcome-IsMinted cached unauthorized w h = h
  second_outcome-IsMinted cached not_ok w h = h

  second_wave-IsMinted :
      (w : W) (cached : Option CachedToken)
      → IsMinted cached
      → IsMinted (second_wave payload_exp login post now w cached).1.cached_token
  second_wave-IsMinted w none h = tt
  second_wave-IsMinted w (some t) h =
      let (o, v) = post_within payload_exp login post now fetch_retries t.token w in
      second_outcome-IsMinted (some t) o v h

  first_outcome-IsMinted :
      (cached : Option CachedToken) (o : Outcome B) (w : W)
      → IsMinted cached
      → IsMinted (first_outcome payload_exp login post now cached (o, w)).1.cached_token
  first_outcome-IsMinted cached (ok body) w h = h
  first_outcome-IsMinted cached unauthorized w h =
      let s = fetch_token payload_exp login post now none w in
      second_wave-IsMinted s.wire s.cached_token
        (fetch_token_within-IsMinted fetch_retries none w tt)
  first_outcome-IsMinted cached not_ok w h = h

  first_wave-IsMinted :
      (w : W) (cached : Option CachedToken)
      → IsMinted cached
      → IsMinted (first_wave payload_exp login post now w cached).1.cached_token
  first_wave-IsMinted w none h = tt
  first_wave-IsMinted w (some t) h =
      let (o, v) = post_within payload_exp login post now fetch_retries t.token w in
      first_outcome-IsMinted (some t) o v h

  ensure_token-IsMinted :
      (s : Session W)
      → IsMinted s.cached_token
      → IsMinted (ensure_token payload_exp login post now s).cached_token
  ensure_token-IsMinted s h =
      elim (Bool-cases (needs_refresh payload_exp login post now s.cached_token (now s.wire))) [
        | inl e ↦ rw e (fetch_token_within-IsMinted fetch_retries s.cached_token s.wire h)
        | inr e ↦ rw e h
      ]

  -- From a session whose cached token, if there is one, is not empty and has the expiry that it carries,
  -- a request leaves a session like that, whatever logins and POSTs answer.
  pub send_request-IsMinted :
      (s : Session W)
      → IsMinted s.cached_token
      → IsMinted (send_request payload_exp login post now s).1.cached_token
  unfolding send_request
  send_request-IsMinted s h =
      let t = ensure_token payload_exp login post now s in
      first_wave-IsMinted t.wire t.cached_token (ensure_token-IsMinted s h)
