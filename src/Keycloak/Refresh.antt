-- ===== src/Keycloak/Refresh.antt =====
-- internal/infra/keycloak/jwks.go: when the key set is fetched, and what a fetch keeps of it.
use wager_service.Base.{
  arith, ◌≡◌, refl, ap, ◌∙◌, ◌+◌, ◌<◌, not, ◌&&◌, String, Option, none, some, List, [], ◌∷◌, map,
  All, str_eq, if◌then◌else◌,
}
use wager_service.Money.Decimal.{Bytes}
use wager_service.Keycloak.Keys.{
  Outcome, passed, refused, Jwk, PublicKey, KeySet, KeyFetcher, Moment, min_refresh, public_key_of,
  is_skipped, lookup, collect, found_or_unknown, key, with_key, then_keys, HttpResponse, fetched,
  fetch, fetch_failed, key_set,
}

-- Keys that are asked for one after another.
abbrev pub ask_all : List (Moment × String) → KeyFetcher → List (Outcome PublicKey) × KeyFetcher
ask_all [] f = ([], f)
ask_all ((m, kid) ∷ qs) f =
    let (r, f') = key m kid f in let (rs, f'') = ask_all qs f' in (r ∷ rs, f'')

-- Asked before the set may be fetched again.
abbrev pub Early : KeySet → Moment × String → Type 0
Early set (m, kid) = m.now < set.fetched_at + min_refresh

abbrev pub cached : KeySet → Moment × String → Outcome PublicKey
cached set (m, kid) = found_or_unknown (lookup kid set.keys)

key-cached :
    (m : Moment) (kid : String) (set : KeySet) (f : KeyFetcher)
    → f.current ≡ some set
    → m.now < set.fetched_at + min_refresh
    → key m kid f ≡ (cached set (m, kid), f)
unfolding key
key-cached m kid set f e h = ground arith

-- In the thirty seconds after a fetch that succeeded, whatever keys are asked for and however often: each
-- answer is read from the fetched set, nothing is fetched (the answers do not depend on what a fetch would
-- give) and the set stays. Nothing is said of the time when no fetch has succeeded.
pub ask_all-cached :
    (set : KeySet) (f : KeyFetcher) (qs : List (Moment × String))
    → f.current ≡ some set
    → All (Early set) qs
    → ask_all qs f ≡ (map (cached set) qs, f)
ask_all-cached set f [] e h = refl
ask_all-cached set f ((m, kid) ∷ qs) e h =
    rw (key-cached m kid set f e h.0, ask_all-cached set f qs e h.1) refl

-- the key of one entry of the document, if it is an RSA key with the identifier `kid`
abbrev passed_key : Outcome PublicKey → Option PublicKey
passed_key (passed v) = some v
passed_key (refused r) = none

abbrev of_entry : (String → Option Bytes) → String → Jwk → Option PublicKey
of_entry decode kid k =
    if not (is_skipped k) && str_eq k.kid kid then passed_key (public_key_of decode k) else none

abbrev pub or_else : Option PublicKey → Option PublicKey → Option PublicKey
or_else (some v) o = some v
or_else none o = o

-- The key that the document publishes for `kid`: that of the last such entry.
abbrev pub published : (String → Option Bytes) → String → List Jwk → Option PublicKey
published decode kid [] = none
published decode kid (k ∷ ks) = or_else (published decode kid ks) (of_entry decode kid k)

or_else_assoc : (a b c : Option PublicKey) → or_else a (or_else b c) ≡ or_else (or_else a b) c
or_else_assoc (some v) b c = refl
or_else_assoc none b c = refl

abbrev Keys : Type 0
Keys = List (String × PublicKey)

-- one round of the loop
abbrev step : (String → Option Bytes) → Jwk → Keys → Outcome Keys
step decode k acc = if is_skipped k then passed acc else with_key k (public_key_of decode k) acc

lookup-step :
    (decode : String → Option Bytes) (kid : String) (k : Jwk) (acc acc' : Keys)
    → step decode k acc ≡ passed acc'
    → lookup kid acc' ≡ or_else (of_entry decode kid k) (lookup kid acc)
lookup-step decode kid k acc acc' e = ground arith

after_step :
    (decode : String → Option Bytes) (kid : String) (ks : List Jwk) (keys : Keys) (o : Outcome Keys)
    → then_keys o (collect decode ks) ≡ passed keys
    → (acc' : Keys) × (o ≡ passed acc') × (collect decode ks acc' ≡ passed keys)
after_step decode kid ks keys (passed acc') e = (acc', refl, e)
after_step decode kid ks keys (refused r) e = cc

collect-published :
    (decode : String → Option Bytes) (kid : String) (ks : List Jwk) (acc keys : Keys)
    → collect decode ks acc ≡ passed keys
    → lookup kid keys ≡ or_else (published decode kid ks) (lookup kid acc)
unfolding collect
collect-published decode kid [] acc keys e = ground arith
collect-published decode kid (k ∷ ks) acc keys e =
    let (acc', one, rest) = after_step decode kid ks keys (step decode k acc) e in
    collect-published decode kid ks acc' keys rest
    ∙ ap (or_else (published decode kid ks)) (lookup-step decode kid k acc acc' one)
    ∙ or_else_assoc (published decode kid ks) (of_entry decode kid k) (lookup kid acc)

or_else-none : (a : Option PublicKey) → or_else a none ≡ a
or_else-none none = refl
or_else-none (some v) = refl

collected :
    (m : Moment) (kid : String) (ks : List Jwk) (o : Outcome Keys) (set : KeySet)
    → collect m.decode ks [] ≡ o
    → key_set m.fetched_at o ≡ passed set
    → (lookup kid set.keys ≡ published m.decode kid ks) × (set.fetched_at ≡ m.fetched_at)
collected m kid ks (passed keys) set c e =
    let found =
      collect-published m.decode kid ks [] keys c ∙ or_else-none (published m.decode kid ks) in
    ground (arith, found)
collected m kid ks (refused r) set c e = cc

-- what a document that was read gives
Document : Moment → KeySet → List Jwk → Type 0
Document m set ks =
    ((kid : String) → lookup kid set.keys ≡ published m.decode kid ks)
    × (set.fetched_at ≡ m.fetched_at)

read_keys :
    (m : Moment) (o : Option (List Jwk)) (set : KeySet)
    → elim o [
      | none ↦ refused fetch_failed
      | some ks ↦ key_set m.fetched_at (collect m.decode ks [])
    ]
      ≡ passed set
    → (ks : List Jwk) × (o ≡ some ks) × Document m set ks
unfolding Document
read_keys m none set e = cc
read_keys m (some ks) set e = (
  ks,
  refl,
  (
    λ kid. (collected m kid ks (collect m.decode ks []) set refl e).0,
    (collected m "" ks (collect m.decode ks []) set refl e).1,
  ),
)

status_ok :
    (m : Moment) (r : HttpResponse) (set : KeySet)
    → fetched m (some r) ≡ passed set
    → (r.status ≡ 200)
      × (elim r.keys [
        | none ↦ refused fetch_failed
        | some ks ↦ key_set m.fetched_at (collect m.decode ks [])
      ]
          ≡ passed set)
status_ok m r set e = ground arith

fetched_cases :
    (m : Moment) (o : Option HttpResponse) (set : KeySet)
    → fetched m o ≡ passed set
    → (r : HttpResponse) × (ks : List Jwk) × (o ≡ some r)
      × (r.status ≡ 200)
      × (r.keys ≡ some ks)
      × ((kid : String) → lookup kid set.keys ≡ published m.decode kid ks)
      × (set.fetched_at ≡ m.fetched_at)
unfolding Document
fetched_cases m none set e = cc
fetched_cases m (some r) set e =
    let (status, rest) = status_ok m r set e in
    let (ks, keys, doc) = read_keys m r.keys set rest in (r, ks, refl, status, keys, doc.0, doc.1)

-- A fetch that succeeds had an answer 200 with a document of keys, and the set that it gives has, for every
-- identifier, the key of the last RSA entry of the document with that identifier and no other; an entry
-- of another type or with no identifier is passed over. The set is as old as the answer.
pub fetch-published :
    (m : Moment) (set : KeySet)
    → fetch m ≡ passed set
    → (r : HttpResponse) × (ks : List Jwk) × (m.response ≡ some r)
      × (r.status ≡ 200)
      × (r.keys ≡ some ks)
      × ((kid : String) → lookup kid set.keys ≡ published m.decode kid ks)
      × (set.fetched_at ≡ m.fetched_at)
unfolding fetch
fetch-published m set e = fetched_cases m m.response set e
