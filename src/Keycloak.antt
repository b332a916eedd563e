-- ===== src/Keycloak.antt =====
-- internal/infra/keycloak/middleware.go: the check of a request's bearer token. The JWT library is a parameter.
pub mod Keys
pub mod Verified
pub mod Refresh
use Keys.{
  Refusal, Outcome, passed, refused, PublicKey, KeyFetcher, Moment, key, missing_header,
  wrong_scheme, empty_token, wrong_method, missing_kid, wrong_audience, missing_claim,
}
use wager_service.Base.{
  ℕ, Bool, true, false, not, ◌&&◌, ◌||◌, String, Option, none, some, List, [], ◌∷◌, ◌==◌, leb,
  str_eq, codes, any, if◌then◌else◌,
}
use wager_service.Money.Decimal.{Bytes}
use wager_service.Wager.{is_blank}
use wager_service.Http.Responses
use wager_service.Http.Responses.{Reply}

pub record Config : Type 0 where
  pub issuer : String
  pub jwks_url : String
  pub audience : String
  pub provider_claim : String

-- `providerClaim`
abbrev pub claim_name : Config → String
claim_name c = if is_blank c.provider_claim then "azp" else c.provider_claim

-- `unicode.IsSpace`
abbrev is_space : ℕ → Bool
is_space c =
    leb 9 c && leb c 13
    || (c == 32
        || (c == 133
            || (c == 160
                || (c == 5760
                    || (leb 8192 c && leb c 8202
                        || (c == 8232
                            || (c == 8233 || (c == 8239 || (c == 8287 || c == 12288)))))))))

abbrev trim_left : Bytes → Bytes
trim_left [] = []
trim_left (c ∷ s) = elim (is_space c) [ true ↦ trim_left s | false ↦ c ∷ s ]

abbrev trim_right : Bytes → Bytes
trim_right [] = []
trim_right (c ∷ s) = elim (trim_right s) [
  | [] ↦ if is_space c then [] else c ∷ []
  | d ∷ t ↦ c ∷ d ∷ t
]

-- `strings.TrimSpace`, over the characters of a text
abbrev pub trim_space : Bytes → Bytes
trim_space s = trim_right (trim_left s)

-- `strings.HasPrefix` and what `strings.TrimPrefix` leaves
abbrev pub after_prefix : Bytes → Bytes → Option Bytes
after_prefix [] s = some s
after_prefix (p ∷ ps) [] = none
after_prefix (p ∷ ps) (c ∷ s) = if p == c then after_prefix ps s else none

abbrev pub non_empty : Bytes → Outcome Bytes
non_empty [] = refused empty_token
non_empty (c ∷ s) = passed (c ∷ s)

abbrev pub scheme_token : Option Bytes → Outcome Bytes
scheme_token none = refused wrong_scheme
scheme_token (some rest) = non_empty (trim_space rest)

-- `bearerToken`, of the header `Authorization`; a header that is not there is empty
unfoldable pub bearer_token : Bytes → Outcome Bytes
bearer_token [] = refused missing_header
bearer_token (c ∷ s) = scheme_token (after_prefix (codes "Bearer ") (c ∷ s))

-- What `keyFunc` reads of a token's header, and what is read of its claims.
pub record Token : Type 0 where
  pub is_rsa : Bool
  pub kid : Option String

pub record Claims : Type 0 where
  pub issuer : String
  pub audience : Option (List String)
  pub text : String → Option String

abbrev pub contains_string : List String → String → Bool
contains_string values target = any (λ v. str_eq v target) values

-- `GetAudience`, which may fail, and the search in what it gives
abbrev pub in_audience : Option (List String) → String → Bool
in_audience none target = false
in_audience (some values) target = contains_string values target

abbrev pub key_named : Moment → Option String → KeyFetcher → Outcome PublicKey × KeyFetcher
key_named m none f = (refused missing_kid, f)
key_named m (some kid) f = if is_blank kid then (refused missing_kid, f) else key m kid f

-- `keyFunc`
unfoldable pub key_func : Moment → Token → KeyFetcher → Outcome PublicKey × KeyFetcher
key_func m token f = if not token.is_rsa then (refused wrong_method, f) else key_named m token.kid f

abbrev pub KeyFunc : Type 0
KeyFunc = Token → KeyFetcher → Outcome PublicKey × KeyFetcher

abbrev pub text_or_empty : Option String → String
text_or_empty none = ""
text_or_empty (some s) = s

-- `authenticate` behind `ParseWithClaims`
unfoldable pub check_claims : Config → Claims → Outcome String
check_claims cfg claims =
    if not (is_blank cfg.audience) && not (in_audience claims.audience cfg.audience)
    then refused wrong_audience
    else if is_blank (text_or_empty (claims.text (claim_name cfg)))
    then refused missing_claim
    else passed (text_or_empty (claims.text (claim_name cfg)))

abbrev pub checked : Config → Outcome Claims → Outcome String
checked cfg (refused r) = refused r
checked cfg (passed claims) = check_claims cfg claims

-- `jwt.ParseWithClaims` with its two options, for a key function, an issuer and a token
abbrev pub Parse : Type 0
Parse = KeyFunc → String → Bytes → KeyFetcher → Outcome Claims × KeyFetcher

module _ (parse : Parse) (cfg : Config) (m : Moment) where
  -- `authenticate`
  unfoldable pub authenticate : Bytes → KeyFetcher → Outcome String × KeyFetcher
  authenticate token f =
      let (claims, f') = parse (key_func m) cfg.issuer token f in (checked cfg claims, f')

  abbrev pub identified : Outcome Bytes → KeyFetcher → Outcome String × KeyFetcher
  identified (refused r) f = (refused r, f)
  identified (passed token) f = authenticate token f

  -- the rest of the chain, where there is a provider; `unauthorized` writes a 401
  abbrev pub served : {S B : Type 0} → Outcome String → (String → S → Reply B × S) → S → Reply B × S
  served (refused r) next s = (Responses.refused 401 "unauthorized", s)
  served (passed provider_id) next s = next provider_id s

  -- `Middleware`, on the header `Authorization`
  unfoldable pub middleware :
      {S B : Type 0}
      → Bytes
      → (String → S → Reply B × S)
      → KeyFetcher
      → S
      → Reply B × KeyFetcher × S
  middleware header next f s =
      let (provider, f') = identified (bearer_token header) f in
      let (answer, s') = served provider next s in (answer, f', s')
