-- ===== src/CalinApiV2/Client/Bounds.antt =====
-- A request of src/plugins/calin-api-v2/lib/repo.ts ends: how much network it can use.
use nxt_device_messaging.Common.{
  ℕ, zero, suc, ◌+◌, ◌*◌, ◌≤◌, Text, ◌≡◌, refl, Bool-cases, inl, inr, Option, none, some, arith,
}
use nxt_device_messaging.CalinApiV2.Client.{
  CachedToken, LoginAnswer, login_threw, login_body, Posted, post_outcome, Outcome, ok,
  unauthorized, not_ok, Session, logged_in, fetch_token_within, fetch_token, needs_refresh,
  ensure_token, posted_again, post_within, second_outcome, second_wave, first_outcome, first_wave,
  send_request,
}

-- `used` counts what the network has done, with a weight for a login and one for a POST.
module _ {W B : Type 0} (payload_exp : Text → Option ℕ) (login : W → LoginAnswer × W)
    (post : Text → W → Posted B × W) (now : W → ℕ) (used : W → ℕ) (per_login per_post : ℕ)
    (login_used : (w : W) → used (login w).1 ≡ used w + per_login)
    (post_used : (bearer : Text) (w : W) → used (post bearer w).1 ≡ used w + per_post) where
  logged_in-bounded :
      (again : W → Session W) (cached : Option CachedToken) (answer : LoginAnswer) (w : W) (n : ℕ)
      → ((v : W) → used (again v).wire ≤ used v + n * per_login)
      → used (logged_in payload_exp login post now again cached (answer, w)).wire
        ≤ used w + n * per_login
  logged_in-bounded again cached login_threw w n h = h w
  logged_in-bounded again cached (login_body token) w n h = omega arith

  fetch_token_within-bounded :
      (n : ℕ) (cached : Option CachedToken) (w : W)
      → used (fetch_token_within payload_exp login post now n cached w).wire
        ≤ used w + n * per_login
  unfolding fetch_token_within
  fetch_token_within-bounded zero cached w = omega arith
  fetch_token_within-bounded (suc n) cached w = omega (
    arith,
    logged_in-bounded (λ v. fetch_token_within payload_exp login post now n cached v) cached
        (login w).0 (login w).1 n (λ v. fetch_token_within-bounded n cached v),
    login_used w,
  )

  posted_again-bounded :
      (again : W → Outcome B × W) (o : Outcome B) (w : W) (n : ℕ)
      → ((v : W) → used (again v).1 ≤ used v + n * per_post)
      → used (posted_again payload_exp login post now again o w).1 ≤ used w + n * per_post
  posted_again-bounded again (ok body) w n h = omega arith
  posted_again-bounded again unauthorized w n h = omega arith
  posted_again-bounded again not_ok w n h = h w

  post_within-bounded :
      (n : ℕ) (bearer : Text) (w : W)
      → used (post_within payload_exp login post now n bearer w).1 ≤ used w + n * per_post
  unfolding post_within
  post_within-bounded zero bearer w = omega arith
  post_within-bounded (suc n) bearer w = omega (
    arith,
    posted_again-bounded (λ v. post_within payload_exp login post now n bearer v)
        (post_outcome (post bearer w).0) (post bearer w).1 n (λ v. post_within-bounded n bearer v),
    post_used bearer w,
  )

  second_outcome-wire :
      (cached : Option CachedToken) (o : Outcome B) (w : W)
      → (second_outcome payload_exp login post now cached (o, w)).1.wire ≡ w
  second_outcome-wire cached (ok body) w = refl
  second_outcome-wire cached unauthorized w = refl
  second_outcome-wire cached not_ok w = refl

  second_wave-bounded :
      (w : W) (cached : Option CachedToken)
      → used (second_wave payload_exp login post now w cached).1.wire ≤ used w + 3 * per_post
  second_wave-bounded w none = omega arith
  second_wave-bounded w (some t) =
      let (o, v) = post_within payload_exp login post now 3 t.token w in
      rw (second_outcome-wire (some t) o v) (post_within-bounded 3 t.token w)

  first_outcome-bounded :
      (cached : Option CachedToken) (o : Outcome B) (w : W)
      → used (first_outcome payload_exp login post now cached (o, w)).1.wire
        ≤ used w + 3 * per_login + 3 * per_post
  first_outcome-bounded cached (ok body) w = omega arith
  first_outcome-bounded cached unauthorized w =
      let s = fetch_token payload_exp login post now none w in
      omega (arith, second_wave-bounded s.wire s.cached_token, fetch_token_within-bounded 3 none w)
  first_outcome-bounded cached not_ok w = omega arith

  first_wave-bounded :
      (w : W) (cached : Option CachedToken)
      → used (first_wave payload_exp login post now w cached).1.wire
        ≤ used w + 3 * per_login + 6 * per_post
  first_wave-bounded w none = omega arith
  first_wave-bounded w (some t) =
      let (o, v) = post_within payload_exp login post now 3 t.token w in
      omega (arith, first_outcome-bounded (some t) o v, post_within-bounded 3 t.token w)

  ensure_token-bounded :
      (s : Session W)
      → used (ensure_token payload_exp login post now s).wire ≤ used s.wire + 3 * per_login
  ensure_token-bounded s =
      elim (Bool-cases (needs_refresh payload_exp login post now s.cached_token (now s.wire))) [
        | inl e ↦ rw e (fetch_token_within-bounded 3 s.cached_token s.wire)
        | inr e ↦ rw e (omega arith)
      ]

  -- Whatever the network answers, a request ends after at most six logins and six POSTs, where a count
  -- of the network's use grows by one weight with each login and by another with each POST.
  pub send_request-bounded :
      (s : Session W)
      → used (send_request payload_exp login post now s).1.wire
        ≤ used s.wire + 6 * per_login + 6 * per_post
  unfolding send_request
  send_request-bounded s =
      let t = ensure_token payload_exp login post now s in
      omega (arith, first_wave-bounded t.wire t.cached_token, ensure_token-bounded s)
