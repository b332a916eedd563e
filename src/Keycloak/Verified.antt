-- ===== src/Keycloak/Verified.antt =====
-- internal/infra/keycloak/middleware.go: what is known of a request that reaches a handler.
use wager_service.Base.{
  arith, ap, ◌≡◌, refl, Bool, true, false, not, ◌&&◌, String, Option, none, some, inl, inr, ◌⊎◌,
  if◌then◌else◌, eq_iff,
}
use wager_service.Money.Decimal.{Bytes}
use wager_service.Wager.{is_blank}
use wager_service.Http.Responses.{Reply}
use wager_service.Keycloak.Keys
use wager_service.Keycloak.Keys.{
  Outcome, passed, refused, PublicKey, KeyFetcher, Moment, missing_kid, wrong_audience,
  missing_claim,
}
use wager_service.Keycloak.{
  Config, Claims, Token, Parse, KeyFunc, claim_name, in_audience, text_or_empty, key_named,
  key_func, check_claims, checked, bearer_token, authenticate, identified, served, middleware,
}

-- What the documentation of `jwt.ParseWithClaims` says of claims that it returns without an error: the key
-- function gave a key for the token, the token is signed with it, and it names the issuer.
pub record Sound (parse : Parse) (Signed : PublicKey → Bytes → Claims → Type 0) : Type 0 where
  pub verified :
      (kf : KeyFunc) (issuer : String) (t : Bytes) (f f' : KeyFetcher) (claims : Claims)
      → parse kf issuer t f ≡ (passed claims, f')
      → (token : Token) × (k : PublicKey) × (kf token f ≡ (passed k, f'))
        × Signed k t claims
        × (claims.issuer ≡ issuer)

-- The token `t` is signed with an RSA key that the realm's key set has under the token's key identifier, its
-- issuer is the configured one, its audience too where one is configured, and its provider claim is
-- `provider_id`, which is not empty.
pub record Verified (Signed : PublicKey → Bytes → Claims → Type 0) (cfg : Config) (m : Moment)
    (f f' : KeyFetcher) (t : Bytes) (provider_id : String) : Type 0 where
  pub claims : Claims
  pub kid : String
  pub key : PublicKey
  pub named : is_blank kid ≡ false
  pub looked_up : Keys.key m kid f ≡ (passed key, f')
  pub signed : Signed key t claims
  pub issuer : claims.issuer ≡ cfg.issuer
  pub audience : (is_blank cfg.audience ≡ true) ⊎ (in_audience claims.audience cfg.audience ≡ true)
  pub provider : claims.text (claim_name cfg) ≡ some provider_id
  pub not_empty : is_blank provider_id ≡ false

named_kid :
    (m : Moment) (kid : String) (f f' : KeyFetcher) (k : PublicKey) (b : Bool)
    → (if b then (refused missing_kid, f) else Keys.key m kid f) ≡ (passed k, f')
    → (b ≡ false) × (Keys.key m kid f ≡ (passed k, f'))
named_kid m kid f f' k true e = cc
named_kid m kid f f' k false e = (refl, e)

key_named_kid :
    (m : Moment) (o : Option String) (f f' : KeyFetcher) (k : PublicKey)
    → key_named m o f ≡ (passed k, f')
    → (kid : String) × (is_blank kid ≡ false) × (Keys.key m kid f ≡ (passed k, f'))
key_named_kid m none f f' k e = cc
key_named_kid m (some kid) f f' k e =
    let h = named_kid m kid f f' k (is_blank kid) e in (kid, h.0, h.1)

key_func_kid :
    (m : Moment) (token : Token) (f f' : KeyFetcher) (k : PublicKey)
    → key_func m token f ≡ (passed k, f')
    → (kid : String) × (is_blank kid ≡ false) × (Keys.key m kid f ≡ (passed k, f'))
unfolding key_func
key_func_kid m token f f' k e = key_named_kid m token.kid f f' k (ground arith)

claim_is : (o : Option String) (p : String) → text_or_empty o ≡ p → is_blank p ≡ false → o ≡ some p
claim_is none p e h = ground (arith, eq_iff p "")
claim_is (some s) p e h = ap some e

nonblank :
    (s p : String)
    → (if is_blank s then refused missing_claim else passed s) ≡ passed p
    → (s ≡ p) × (is_blank p ≡ false)
nonblank s p e = ground arith

split :
    (b c : Bool) (s p : String)
    → (if not b && not c
        then refused wrong_audience
        else if is_blank s
        then refused missing_claim
        else passed s)
      ≡ passed p
    → ((b ≡ true) ⊎ (c ≡ true)) × (s ≡ p) × (is_blank p ≡ false)
split true c s p e = let (h, k) = nonblank s p e in (inl refl, h, k)
split false true s p e = let (h, k) = nonblank s p e in (inr refl, h, k)
split false false s p e = cc

checked_claims :
    (cfg : Config) (claims : Claims) (p : String)
    → check_claims cfg claims ≡ passed p
    → ((is_blank cfg.audience ≡ true) ⊎ (in_audience claims.audience cfg.audience ≡ true))
      × (text_or_empty (claims.text (claim_name cfg)) ≡ p)
      × (is_blank p ≡ false)
unfolding check_claims
checked_claims cfg claims p e =
    split (is_blank cfg.audience) (in_audience claims.audience cfg.audience)
      (text_or_empty (claims.text (claim_name cfg))) p e

passed_claims :
    (cfg : Config) (o : Outcome Claims) (p : String)
    → checked cfg o ≡ passed p
    → (claims : Claims) × (o ≡ passed claims) × (check_claims cfg claims ≡ passed p)
passed_claims cfg (passed claims) p e = (claims, refl, e)
passed_claims cfg (refused r) p e = cc

-- The answer 401 with the state untouched; or the answer of the handler for a verified provider.
pub data Guarded {S B : Type 0} (Signed : PublicKey → Bytes → Claims → Type 0) (cfg : Config)
    (m : Moment) (header : Bytes) (next : String → S → Reply B × S) (f : KeyFetcher) (s : S)
    (answer : Reply B) (f' : KeyFetcher) (s' : S) : Type 0 where
  turned_away : answer.status ≡ 401 → s' ≡ s → Guarded Signed cfg m header next f s answer f' s'
  let_through :
      (token : Bytes) (provider_id : String)
      → bearer_token header ≡ passed token
      → Verified Signed cfg m f f' token provider_id
      → answer ≡ (next provider_id s).0
      → s' ≡ (next provider_id s).1
      → Guarded Signed cfg m header next f s answer f' s'

module _ (parse : Parse) (Signed : PublicKey → Bytes → Claims → Type 0) (sound : Sound parse Signed)
    (cfg : Config) (m : Moment) where
  authenticate-Verified :
      (t : Bytes) (f f' : KeyFetcher) (p : String)
      → authenticate parse cfg m t f ≡ (passed p, f')
      → Verified Signed cfg m f f' t p
  unfolding authenticate
  authenticate-Verified t f f' p e =
      let o = parse (key_func m) cfg.issuer t f in
      let (claims, got, good) = passed_claims cfg o.0 p (ap (λ x. x.0) e) in
      let whole : o ≡ (passed claims, f') = cc in
      let (token, key, looked, signed, issuer) =
        sound.verified (key_func m) cfg.issuer t f f' claims whole in
      let (kid, named, found) = key_func_kid m token f f' key looked in
      let (audience, text, full) = checked_claims cfg claims p good in
      record {
        claims = claims;
        kid = kid;
        key = key;
        named = named;
        looked_up = found;
        signed = signed;
        issuer = issuer;
        audience = audience;
        provider = claim_is (claims.text (claim_name cfg)) p text full;
        not_empty = full;
      }

  guarded :
      {S B : Type 0} (header : Bytes) (next : String → S → Reply B × S) (f f' : KeyFetcher) (s : S)
      (o : Outcome String) (t : Bytes)
      → bearer_token header ≡ passed t
      → authenticate parse cfg m t f ≡ (o, f')
      → Guarded Signed cfg m header next f s
          (served parse cfg m o next s).0
          f'
          (served parse cfg m o next s).1
  guarded header next f f' s (passed p) t h e =
      let_through t p h (authenticate-Verified t f f' p e) refl refl
  guarded header next f f' s (refused r) t h e = turned_away refl refl

  identified-Guarded :
      {S B : Type 0} (header : Bytes) (next : String → S → Reply B × S) (f : KeyFetcher) (s : S)
      (b : Outcome Bytes)
      → bearer_token header ≡ b
      → let (provider, f') = identified parse cfg m b f in
        Guarded Signed cfg m header next f s
          (served parse cfg m provider next s).0
          f'
          (served parse cfg m provider next s).1
  identified-Guarded header next f s (refused r) h = turned_away refl refl
  identified-Guarded header next f s (passed t) h =
      guarded header next f (authenticate parse cfg m t f).1 s (authenticate parse cfg m t f).0 t h
        refl

  -- A request through the middleware, whatever its `Authorization` header is: either it is answered 401 and
  -- the state of the service is untouched; or the header carries a bearer token that is signed with a key
  -- of the realm's key set, names the configured issuer and, where one is configured, audience, and
  -- carries a provider claim that is not empty, and the answer is the handler's for just that
  -- provider. The JWT library does what its documentation says.
  pub middleware-Guarded :
      {S B : Type 0} (header : Bytes) (next : String → S → Reply B × S) (f : KeyFetcher) (s : S)
      → Guarded Signed cfg m header next f s
          (middleware parse cfg m header next f s).0
          (middleware parse cfg m header next f s).1
          (middleware parse cfg m header next f s).2
  unfolding middleware
  middleware-Guarded header next f s = identified-Guarded header next f s (bearer_token header) refl
