-- ===== src/Tests/Tokens.antt =====
-- A JWT library that knows one token, and a key document (internal/infra/keycloak).
use wager_service.Base.{
  arith, true, ◌+◌, ◌≡◌, refl, String, Option, none, some, List, [], ◌∷◌, codes, map,
}
use wager_service.Money.Decimal.{Bytes}
use wager_service.Keycloak.Keys.{
  Outcome, passed, refused, invalid_token, PublicKey, Jwk, KeySet, KeyFetcher, HttpResponse, Moment,
  fetch, lookup, public_key_of, collect,
}
use wager_service.Keycloak.{Config, Claims, Token, Parse, KeyFunc, middleware}
use wager_service.Keycloak.Verified.{Sound, Guarded, middleware-Guarded}
use wager_service.Keycloak.Refresh.{ask_all, cached, published, ask_all-cached, fetch-published}
use wager_service.Http.Responses.{Reply, written}
use wager_service.Ids.{Uuid}

abbrev bytes_of : String → Option Bytes
bytes_of s = some (codes s)

abbrev jwk : Jwk
jwk = record { kty = "RSA"; kid = "k1"; alg = "RS256"; use_for = "sig"; n = "a"; e = "b" }

abbrev moment : Moment
moment = record {
  now = 5;
  response = some (record { status = 200; keys = some (jwk ∷ record jwk { kty = "EC" } ∷ []) });
  fetched_at = 6;
  decode = bytes_of;
}

abbrev public : PublicKey
public = record { modulus = 97; exponent = 98 }

abbrev keys : KeySet
keys = record { keys = ("k1", public) ∷ []; fetched_at = 6 }

read : fetch moment ≡ passed keys
unfolding fetch collect public_key_of
read = refl

fetch-published_example :
    (r : HttpResponse) × (ks : List Jwk) × (moment.response ≡ some r)
    × (r.status ≡ 200)
    × (r.keys ≡ some ks)
    × ((kid : String) → lookup kid keys.keys ≡ published bytes_of kid ks)
    × (keys.fetched_at ≡ moment.fetched_at)
fetch-published_example = fetch-published moment keys read

abbrev fetcher : KeyFetcher
fetcher = record { current = some keys }

abbrev asked : List (Moment × String)
asked = (record moment { now = 7 }, "k1") ∷ (record moment { now = 8 }, "made-up") ∷ []

ask_all-cached_example : ask_all asked fetcher ≡ (map (cached keys) asked, fetcher)
ask_all-cached_example = ask_all-cached keys fetcher asked refl (omega arith, (omega arith, tt))

-- The claims of the one token, whoever asks.
abbrev claims_for : String → Claims
claims_for issuer = record { issuer = issuer; audience = none; text = λ name. some "p" }

abbrev signed_by : Outcome PublicKey → String → Outcome Claims
signed_by (passed k) issuer = passed (claims_for issuer)
signed_by (refused r) issuer = refused invalid_token

abbrev token : Token
token = record { is_rsa = true; kid = some "k1" }

abbrev parse : Parse
parse kf issuer t f = let (k, f') = kf token f in (signed_by k issuer, f')

abbrev Signed : PublicKey → Bytes → Claims → Type 0
Signed k t claims = claims.text "azp" ≡ some "p"

parsed :
    (o : Outcome PublicKey) (g : KeyFetcher) (kf : KeyFunc) (issuer : String) (t : Bytes)
    (f f' : KeyFetcher) (claims : Claims)
    → kf token f ≡ (o, g)
    → ◌≡◌ {A = Outcome Claims × KeyFetcher} (signed_by o issuer, g) (passed claims, f')
    → (tok : Token) × (k : PublicKey) × (kf tok f ≡ (passed k, f'))
      × Signed k t claims
      × (claims.issuer ≡ issuer)
parsed (passed k) g kf issuer t f f' claims asks e =
    (token, k, ground (arith, asks), ground arith, ground arith)
parsed (refused r) g kf issuer t f f' claims asks e = cc

parse-Sound : Sound parse Signed
parse-Sound = record {
  verified = λ kf issuer t f f' claims e.
      parsed (kf token f).0 (kf token f).1 kf issuer t f f' claims refl e;
}

abbrev realm : Config
realm = record { issuer = "realm"; jwks_url = ""; audience = ""; provider_claim = "" }

abbrev answer_ok : String → Uuid → Reply String × Uuid
answer_ok provider s = (written 200 provider, s + 1)

abbrev answered : Reply String × KeyFetcher × Uuid
answered = middleware parse realm moment (codes "Bearer t") answer_ok fetcher 0

middleware-Guarded_example :
    Guarded Signed realm moment
      (codes "Bearer t")
      answer_ok
      fetcher
      0
      answered.0
      answered.1
      answered.2
middleware-Guarded_example =
    middleware-Guarded parse Signed parse-Sound realm moment (codes "Bearer t") answer_ok fetcher 0
