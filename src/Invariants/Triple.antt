-- ===== src/Invariants/Triple.antt =====
-- Triples about calls on the database: from a database with `I` a call that returns leaves one with `J`.
-- What a failing call leaves does not matter, since its transaction is rolled back.
use wager_service.Base.{◌≡◌, refl, Bool, true, false, if◌then◌else◌}
use wager_service.Errors.{Error, Result, ok, err}
use wager_service.Ports.{M, pure, fail, lift, attempt, continue, or_nil, ◌>>=◌, ◌>>◌}
use wager_service.Postgres.{within_tx, settle}
use wager_service.Postgres.Database.{Db, World}

abbrev pub After : {A : Type 0} → (Db → Type 0) → Result A × World → Type 0
After J (ok a, w) = J w.db
After J (err e, w) = Unit

pub record Leads {A : Type 0} (I : Db → Type 0) (m : M World A) (J : Db → Type 0) : Type 0 where
  pub at : (w : World) → I w.db → After J (m w)

-- A read: it leaves the database alone.
pub record Reads {A : Type 0} (m : M World A) : Type 0 where
  pub same : (w : World) → (m w).1.db ≡ w.db

-- what a read leaves, by its result
After-read :
    {A : Type 0} (I : Db → Type 0) (w w' : World) (r : Result A)
    → w'.db ≡ w.db
    → I w.db
    → After I (r, w')
After-read I w w' (ok a) e h = rw e h
After-read I w w' (err x) e h = tt

leads_on :
    {A B : Type 0} (J K : Db → Type 0) (r : Result A) (f : A → M World B) (w : World)
    → ((a : A) → Leads J (f a) K)
    → After J (r, w)
    → After K (continue r f w)
leads_on J K (ok a) f w kf h = (kf a).at w h
leads_on J K (err e) f w kf h = tt

settled :
    {A : Type 0} (I : Db → Type 0) (r : Result A) (before after : World)
    → I before.db
    → After I (r, after)
    → I (settle before r after).1.db
settled I (ok a) before after h k = k
settled I (err e) before after h k = h

module _ {A : Type 0} {I J : Db → Type 0} where
  pub Leads-fail : (e : Error) → Leads I (fail {A = A} e) J
  unfolding fail
  Leads-fail e = record { at = λ w h. tt }

  pub Leads-if :
      (b : Bool) (m n : M World A) → Leads I m J → Leads I n J → Leads I (if b then m else n) J
  Leads-if true m n km kn = km
  Leads-if false m n km kn = kn

  pub Leads-pure_at : (a : A) → ((db : Db) → I db → J db) → Leads I (pure a) J
  unfolding pure
  Leads-pure_at a k = record { at = λ w h. k w.db h }

module _ {A : Type 0} {I : Db → Type 0} where
  pub Keeps-pure : (a : A) → Leads I (pure a) I
  unfolding pure
  Keeps-pure a = record { at = λ w h. h }

  pub Keeps-lift : (r : Result A) → Leads I (lift r) I
  unfolding lift
  Keeps-lift (ok a) = record { at = λ w h. h }
  Keeps-lift (err e) = record { at = λ w h. tt }

  pub Keeps-read : (m : M World A) → Reads m → Leads I m I
  Keeps-read m read = record {
    at = λ w h. let (r, w') = m w in After-read I w w' r (read.same w) h;
  }

  -- The transaction manager makes of a triple an invariant of what is committed or rolled back.
  pub within_tx-keeps :
      (m : M World A) → Leads I m I → (w : World) → I w.db → I (within_tx m w).1.db
  within_tx-keeps m km w h = let (r, w') = m w in settled I r w w' h (km.at w h)

-- What was there before holds of an answer's database, or else what the answer says.
abbrev pub EitherOf : {A : Type 0} → (Db → Type 0) → (Db → Type 0) → Result A × World → Type 0
EitherOf H J (ok a, w) = J w.db
EitherOf H J (err e, w) = H w.db

pub EitherOf-same :
    {A : Type 0} (I : Db → Type 0) (r : Result A × World) → EitherOf I I r → I r.1.db
EitherOf-same I (ok a, w) h = h
EitherOf-same I (err e, w) h = h

settled-either :
    {A : Type 0} (H J : Db → Type 0) (r : Result A) (before after : World)
    → H before.db
    → After J (r, after)
    → EitherOf H J (settle before r after)
settled-either H J (ok a) before after h k = k
settled-either H J (err e) before after h k = h

-- A transaction that fails is rolled back.
pub within_tx-either :
    {A : Type 0} {H J : Db → Type 0} (m : M World A)
    → Leads H m J
    → (w : World) → H w.db
    → EitherOf H J (within_tx m w)
within_tx-either {H = H} {J = J} m k w h =
    let (r, w') = m w in settled-either H J r w w' h (k.at w h)

pub Reads-or_nil : {A : Type 0} (m : M World A) → Reads m → Reads (or_nil m)
unfolding or_nil
Reads-or_nil m read = record { same = read.same }

abbrev pub Untouched : {A : Type 0} → Db → Result A × World → Type 0
Untouched db (ok a, w) = Unit
Untouched db (err e, w) = w.db ≡ db

-- A call that fails has written nothing.
pub record FailsClean {A : Type 0} (m : M World A) : Type 0 where
  pub clean : (w : World) → Untouched w.db (m w)

After-attempt :
    {A : Type 0} (I : Db → Type 0) (r : Result A) (w w' : World)
    → I w.db
    → After I (r, w')
    → Untouched w.db (r, w')
    → I w'.db
After-attempt I (ok a) w w' h k u = k
After-attempt I (err e) w w' h k u = rw u h

-- A caller that looks at the error goes on from what the failing call left.
pub Keeps-attempt :
    {A : Type 0} {I : Db → Type 0} (m : M World A)
    → FailsClean m
    → Leads I m I
    → Leads I (attempt m) I
unfolding attempt
Keeps-attempt {I = I} m clean k = record {
  at = λ w h. let (r, w') = m w in After-attempt I r w w' h (k.at w h) (clean.clean w);
}

pub Reads-attempt : {A : Type 0} (m : M World A) → Reads m → Reads (attempt m)
unfolding attempt
Reads-attempt m read = record { same = read.same }

module _ {A B : Type 0} {I J K : Db → Type 0} where
  pub Leads-bind :
      (m : M World A) (f : A → M World B)
      → Leads I m J
      → ((a : A) → Leads J (f a) K)
      → Leads I (m >>= f) K
  unfolding ◌>>=◌
  Leads-bind m f km kf = record {
    at = λ w h. let (r, w') = m w in leads_on J K r f w' kf (km.at w h);
  }

pub Keeps-bind :
    {A B : Type 0} {I : Db → Type 0} (m : M World A) (f : A → M World B)
    → Leads I m I
    → ((a : A) → Leads I (f a) I)
    → Leads I (m >>= f) I
Keeps-bind m f km kf = Leads-bind m f km kf

module _ {A B : Type 0} {I K : Db → Type 0} where
  -- The rest of a block may use what a pure step returned.
  pub Leads-lift :
      (r : Result A) (f : A → M World B)
      → ((a : A) → r ≡ ok a → Leads I (f a) K)
      → Leads I (lift r >>= f) K
  unfolding ◌>>=◌
  Leads-lift (ok a) f kf = record { at = (kf a refl).at }
  Leads-lift (err e) f kf = record { at = λ w h. tt }

  found_on :
      (look : Db → Result A) (f : A → M World B)
      → ((a : A) → Leads (λ db. I db × (look db ≡ ok a)) (f a) K)
      → (w : World) → I w.db
      → (r : Result A) → look w.db ≡ r
      → After K (continue r f w)
  found_on look f kf w h (ok a) p = (kf a).at w (h, p)
  found_on look f kf w h (err x) p = tt

  -- The rest of a block may use what a read found in the database.
  pub Leads-found :
      (look : Db → Result A) (m : M World A) (f : A → M World B)
      → ((w : World) → m w ≡ (look w.db, w))
      → ((a : A) → Leads (λ db. I db × (look db ≡ ok a)) (f a) K)
      → Leads I (m >>= f) K
  unfolding ◌>>=◌
  Leads-found look m f e kf = record { at = λ w h. rw e (found_on look f kf w h (look w.db) refl) }

second_on :
    {A : Type 0} (J K : Db → Type 0) (r : Result (Unit {0})) (n : M World (Unit {0}))
    (rest : M World A) (w : World)
    → Leads J rest K
    → After J (continue r (λ _. n) w)
    → After K (continue r (λ _. n >> rest) w)
unfolding ◌>>=◌
second_on J K (ok u) n rest w k h = let (r, w') = n w in leads_on J K r (λ _. rest) w' (λ _. k) h
second_on J K (err e) n rest w k h = tt

module _ {A : Type 0} {I J K : Db → Type 0} where
  -- Two steps that lead somewhere together, in front of the rest of a block.
  pub Leads-two :
      (m n : M World (Unit {0})) (rest : M World A)
      → Leads I (m >> n) J
      → Leads J rest K
      → Leads I (m >> (n >> rest)) K
  unfolding ◌>>=◌
  Leads-two m n rest two k = record {
    at = λ w h. let (r, w') = m w in second_on J K r n rest w' k (two.at w h);
  }

pub ruleset keeps_rules =
    (Keeps-bind, Keeps-pure, Keeps-read, Leads-fail, Leads-if, Reads-or_nil, Reads-attempt)
