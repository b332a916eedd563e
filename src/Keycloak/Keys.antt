-- ===== src/Keycloak/Keys.antt =====
-- internal/infra/keycloak/jwks.go: the keys that tokens are checked with, and when they are fetched.
use wager_service.Base.{
  ℕ, ◌+◌, ◌-◌, ◌*◌, ◌^◌, Bool, not, ◌||◌, String, Option, none, some, List, [], ◌∷◌, ◌==◌, ltb,
  str_eq, if◌then◌else◌,
}
use wager_service.Ids.{Time, Duration}
use wager_service.Money.Decimal.{Bytes}
use wager_service.Wager.{is_blank}

-- Why a request is refused.
pub data Refusal : Type 0 where
  missing_header wrong_scheme empty_token invalid_token wrong_method missing_kid unknown_key
        fetch_failed bad_key wrong_audience missing_claim :
      Refusal

pub data Outcome (A : Type 0) : Type 0 where
  passed : A → Outcome A
  refused : Refusal → Outcome A

pub record Jwk : Type 0 where
  pub kty : String
  pub kid : String
  pub alg : String
  pub use_for : String
  pub n : String
  pub e : String

-- `rsa.PublicKey`
pub record PublicKey : Type 0 where
  pub modulus : ℕ
  pub exponent : ℕ

pub record KeySet : Type 0 where
  pub keys : List (String × PublicKey)
  pub fetched_at : Time

-- The state of a `KeyFetcher`.
pub record KeyFetcher : Type 0 where
  pub current : Option KeySet

-- `minRefresh`
abbrev pub min_refresh : Duration
min_refresh = 30_000_000_000

pub record HttpResponse : Type 0 where
  pub status : ℕ
  pub keys : Option (List Jwk)

-- When a key is asked for, what a fetch would answer, and when that answer would have been read.
pub record Moment : Type 0 where
  pub now : Time
  pub response : Option HttpResponse
  pub fetched_at : Time
  -- `base64.RawURLEncoding.DecodeString`
  pub decode : String → Option Bytes

-- `big.Int.SetBytes`
abbrev set_bytes : ℕ → Bytes → ℕ
set_bytes acc [] = acc
set_bytes acc (b ∷ bs) = set_bytes (acc * 256 + b) bs

abbrev public_key : Option Bytes → Option Bytes → Outcome PublicKey
public_key none e = refused bad_key
public_key (some n) none = refused bad_key
public_key (some n) (some e) =
    if not (ltb (set_bytes 0 e) (2 ^ 63))
    then refused bad_key
    else passed (record { modulus = set_bytes 0 n; exponent = set_bytes 0 e })

-- `rsaPublicKeyFromJWK`
unfoldable pub public_key_of : (String → Option Bytes) → Jwk → Outcome PublicKey
public_key_of decode k = public_key (decode k.n) (decode k.e)

abbrev pub is_skipped : Jwk → Bool
is_skipped k = not (str_eq k.kty "RSA") || is_blank k.kid

-- a Go map: a later entry replaces one with the same key
abbrev pub lookup : String → List (String × PublicKey) → Option PublicKey
lookup kid [] = none
lookup kid ((k, v) ∷ keys) = if str_eq k kid then some v else lookup kid keys

abbrev pub with_key :
    Jwk → Outcome PublicKey → List (String × PublicKey) → Outcome (List (String × PublicKey))
with_key k (refused r) keys = refused r
with_key k (passed v) keys = passed ((k.kid, v) ∷ keys)

abbrev pub then_keys :
    Outcome (List (String × PublicKey))
    → (List (String × PublicKey) → Outcome (List (String × PublicKey)))
    → Outcome (List (String × PublicKey))
then_keys (refused r) rest = refused r
then_keys (passed keys) rest = rest keys

-- the loop of `fetch`
unfoldable pub collect :
    (String → Option Bytes)
    → List Jwk
    → List (String × PublicKey)
    → Outcome (List (String × PublicKey))
collect decode [] keys = passed keys
collect decode (k ∷ ks) keys =
    then_keys (if is_skipped k then passed keys else with_key k (public_key_of decode k) keys)
      (collect decode ks)

abbrev pub key_set : Time → Outcome (List (String × PublicKey)) → Outcome KeySet
key_set at (refused r) = refused r
key_set at (passed keys) = passed (record { keys = keys; fetched_at = at })

abbrev pub fetched : Moment → Option HttpResponse → Outcome KeySet
fetched m none = refused fetch_failed
fetched m (some r) = if not (r.status == 200) then refused fetch_failed else elim r.keys [
  | none ↦ refused fetch_failed
  | some ks ↦ key_set m.fetched_at (collect m.decode ks [])
]

unfoldable pub fetch : Moment → Outcome KeySet
fetch m = fetched m m.response

abbrev pub found_or_unknown : Option PublicKey → Outcome PublicKey
found_or_unknown none = refused unknown_key
found_or_unknown (some v) = passed v

-- the end of `Key`, on what `fetch` returned
abbrev pub refreshed : String → Outcome KeySet → KeyFetcher → Outcome PublicKey × KeyFetcher
refreshed kid (refused r) f = (refused r, f)
refreshed kid (passed set) f =
    (found_or_unknown (lookup kid set.keys), record { current = some set })

abbrev pub known :
    Moment → String → KeySet → Option PublicKey → KeyFetcher → Outcome PublicKey × KeyFetcher
known m kid set (some v) f = (passed v, f)
known m kid set none f =
    if ltb (m.now - set.fetched_at) min_refresh
    then (refused unknown_key, f)
    else refreshed kid (fetch m) f

abbrev pub key_in : Moment → String → Option KeySet → KeyFetcher → Outcome PublicKey × KeyFetcher
key_in m kid none f = refreshed kid (fetch m) f
key_in m kid (some set) f = known m kid set (lookup kid set.keys) f

-- `Key`
unfoldable pub key : Moment → String → KeyFetcher → Outcome PublicKey × KeyFetcher
key m kid f = key_in m kid f.current f
