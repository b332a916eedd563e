-- ===== src/Invariants/Gives.antt =====
-- Triples that speak of the answer too: from a database with `I` a call that returns `a` leaves one with
-- `Q a`.
use wager_service.Base.{◌≡◌, refl, Bool, true, false, if◌then◌else◌}
use wager_service.Errors.{Error, Result, ok, err}
use wager_service.Ports.{M, pure, fail, lift, continue, ◌>>=◌, ◌>>◌}
use wager_service.Postgres.{within_tx, settle}
use wager_service.Postgres.Database.{Db, World}
use wager_service.Invariants.Triple.{Leads, After}

abbrev pub Answers : {A : Type 0} → (A → Db → Type 0) → Result A × World → Type 0
Answers Q (ok a, w) = Q a w.db
Answers Q (err e, w) = Unit

pub record Gives {A : Type 0} (I : Db → Type 0) (m : M World A) (Q : A → Db → Type 0) : Type 0 where
  pub at : (w : World) → I w.db → Answers Q (m w)

gives_on :
    {A B : Type 0} (R : A → Db → Type 0) (Q : B → Db → Type 0) (r : Result A) (f : A → M World B)
    (w : World)
    → ((a : A) → Gives (R a) (f a) Q)
    → Answers R (r, w)
    → Answers Q (continue r f w)
gives_on R Q (ok a) f w kf h = (kf a).at w h
gives_on R Q (err e) f w kf h = tt

Leads-Answers :
    {A : Type 0} (J : Db → Type 0) (r : Result A) (w : World)
    → After J (r, w)
    → Answers (λ a. J) (r, w)
Leads-Answers J (ok a) w h = h
Leads-Answers J (err e) w h = tt

module _ {A : Type 0} {I : Db → Type 0} {Q : A → Db → Type 0} where
  pub Gives-fail : (e : Error) → Gives I (fail e) Q
  unfolding fail
  Gives-fail e = record { at = λ w h. tt }

  pub Gives-pure : (a : A) → ((db : Db) → I db → Q a db) → Gives I (pure a) Q
  unfolding pure
  Gives-pure a k = record { at = λ w h. k w.db h }

  pub Gives-if :
      (b : Bool) (m n : M World A) → Gives I m Q → Gives I n Q → Gives I (if b then m else n) Q
  Gives-if true m n km kn = km
  Gives-if false m n km kn = kn

module _ {A : Type 0} {I : Db → Type 0} {Q : A → Db → Type 0} where
  -- The branches may use the test.
  pub Gives-test :
      (b : Bool) (m n : M World A)
      → (b ≡ true → Gives I m Q)
      → (b ≡ false → Gives I n Q)
      → Gives I (if b then m else n) Q
  Gives-test true m n km kn = km refl
  Gives-test false m n km kn = kn refl

  pub Gives-weaken :
      {J : Db → Type 0} {m : M World A} → ((db : Db) → J db → I db) → Gives I m Q → Gives J m Q
  Gives-weaken f k = record { at = λ w h. k.at w (f w.db h) }

  -- What the state says may be used, too, where it does not speak of the state.
  pub Gives-knows :
      {F : Type 0} {m : M World A} → ((db : Db) → I db → F) → (F → Gives I m Q) → Gives I m Q
  Gives-knows f k = record { at = λ w h. (k (f w.db h)).at w h }

module _ {A B : Type 0} {I : Db → Type 0} {Q : B → Db → Type 0} where
  pub Gives-bind :
      {J : Db → Type 0} (m : M World A) (f : A → M World B)
      → Leads I m J
      → ((a : A) → Gives J (f a) Q)
      → Gives I (m >>= f) Q
  unfolding ◌>>=◌
  Gives-bind {J = J} m f km kf = record {
    at = λ w h.
        let (r, w') = m w in gives_on (λ a. J) Q r f w' kf (Leads-Answers J r w' (km.at w h));
  }

  pub Gives-then :
      {R : A → Db → Type 0} (m : M World A) (f : A → M World B)
      → Gives I m R
      → ((a : A) → Gives (R a) (f a) Q)
      → Gives I (m >>= f) Q
  unfolding ◌>>=◌
  Gives-then {R = R} m f km kf = record {
    at = λ w h. let (r, w') = m w in gives_on R Q r f w' kf (km.at w h);
  }

  pub Gives-lift :
      (r : Result A) (f : A → M World B)
      → ((a : A) → r ≡ ok a → Gives I (f a) Q)
      → Gives I (lift r >>= f) Q
  unfolding ◌>>=◌
  Gives-lift (ok a) f kf = record { at = (kf a refl).at }
  Gives-lift (err e) f kf = record { at = λ w h. tt }

  found_on :
      (look : Db → Result A) (f : A → M World B)
      → ((a : A) → Gives (λ db. I db × (look db ≡ ok a)) (f a) Q)
      → (w : World) → I w.db
      → (r : Result A) → look w.db ≡ r
      → Answers Q (continue r f w)
  found_on look f kf w h (ok a) p = (kf a).at w (h, p)
  found_on look f kf w h (err x) p = tt

  -- The rest of a block may use what a read found.
  pub Gives-found :
      (look : Db → Result A) (m : M World A) (f : A → M World B)
      → ((w : World) → m w ≡ (look w.db, w))
      → ((a : A) → Gives (λ db. I db × (look db ≡ ok a)) (f a) Q)
      → Gives I (m >>= f) Q
  unfolding ◌>>=◌
  Gives-found look m f e kf = record { at = λ w h. rw e (found_on look f kf w h (look w.db) refl) }

second_on :
    {A : Type 0} (J : Db → Type 0) (Q : A → Db → Type 0) (r : Result (Unit {0}))
    (n : M World (Unit {0})) (rest : M World A) (w : World)
    → Gives J rest Q
    → After J (continue r (λ _. n) w)
    → Answers Q (continue r (λ _. n >> rest) w)
unfolding ◌>>=◌
second_on J Q (ok u) n rest w k h =
    let (r, w') = n w in gives_on (λ _. J) Q r (λ _. rest) w' (λ _. k) (Leads-Answers J r w' h)
second_on J Q (err e) n rest w k h = tt

-- Two steps that lead somewhere together, in front of the rest of a block.
pub Gives-two :
    {A : Type 0} {I J : Db → Type 0} {Q : A → Db → Type 0} (m n : M World (Unit {0}))
    (rest : M World A)
    → Leads I (m >> n) J
    → Gives J rest Q
    → Gives I (m >> (n >> rest)) Q
unfolding ◌>>=◌
Gives-two {J = J} {Q = Q} m n rest two k = record {
  at = λ w h. let (r, w') = m w in second_on J Q r n rest w' k (two.at w h);
}

settled :
    {A : Type 0} (Q : A → Db → Type 0) (r : Result A) (before after : World)
    → Answers Q (r, after)
    → Answers Q (settle before r after)
settled Q (ok a) before after h = h
settled Q (err e) before after h = tt

pub within_tx-Gives :
    {A : Type 0} {I : Db → Type 0} {Q : A → Db → Type 0} (m : M World A)
    → Gives I m Q
    → Gives I (within_tx m) Q
within_tx-Gives {Q = Q} m k = record {
  at = λ w h. let (r, w') = m w in settled Q r w w' (k.at w h);
}
