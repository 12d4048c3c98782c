-- ===== src/Transaction/Faults.antt =====
-- The environment of a session, which queries fail, is not changed by service code.
use mathlib.Core.Bool.{true, false}
use gestion_alquileres_backe.Prelude.{
  Bool-cases, Result, Bool, ◌≡◌, inl, inr, ok, err, refl, ◌∙◌, true,
}
use gestion_alquileres_backe.Transaction.{
  Action, pure, throw, query, select, lift, transaction, update, throw_when, ◌>>=◌, ◌>>◌, zoom,
  Session, Failure, unzoom, thrown, query_failed,
}

pub record Calm {S E A : Type 0} (m : Action S E A) : Type 0 where
  pub same_fails : (s : Session S) → (m s).1.fails ≡ s.fails

module _ {S E A : Type 0} where
  pub pure-Calm : (a : A) → Calm {S = S} {E = E} (pure a)
  unfolding pure
  pure-Calm a = record { same_fails = λ s. refl }

  pub throw-Calm : (e : E) → Calm {S = S} {A = A} (throw e)
  unfolding throw
  throw-Calm e = record { same_fails = λ s. refl }

  pub query-Calm : (f : S → A × S) → Calm {E = E} (query f)
  unfolding query
  query-Calm f = record {
    same_fails = λ s. elim (Bool-cases (s.fails s.queries)) [
      | inl fails ↦ rw (fails, query) refl
      | inr runs ↦ rw (runs, query) refl
    ];
  }

  pub select-Calm : (f : S → A) → Calm {E = E} (select f)
  unfolding select
  select-Calm f = query-Calm (λ s. (f s, s))

  pub lift-Calm : (r : Result E A) → Calm {S = S} (lift r)
  unfolding lift
  lift-Calm (ok a) = record { same_fails = λ s. refl }
  lift-Calm (err e) = record { same_fails = λ s. refl }

  pub transaction-Calm : {m : Action S E A} → Calm m → Calm (transaction m)
  unfolding transaction
  transaction-Calm {m} c = record { same_fails = λ s. go s (m s) (c.same_fails s) }
    where
      go :
          (s : Session S) (r : Result (Failure E) A × Session S)
          → r.1.fails ≡ s.fails
          → (elim r.0 as (λ _. Result (Failure E) A × Session S) [
            | ok a ↦ (ok a, r.1)
            | err e ↦ (err e, record r.1 { store = s.store })
          ]).1.fails
            ≡ s.fails
      go s (ok a, x) h = h
      go s (err e, x) h = h

module _ {S E : Type 0} where
  pub update-Calm : (f : S → S) → Calm {E = E} (update f)
  unfolding update
  update-Calm f = query-Calm (λ s. (tt, f s))

  pub throw_when-Calm : (b : Bool) (e : E) → Calm {S = S} (throw_when b e)
  unfolding throw_when
  throw_when-Calm true e = record { same_fails = λ s. refl }
  throw_when-Calm false e = record { same_fails = λ s. refl }

module _ {S E A B : Type 0} where
  pub >>=-Calm :
      {m : Action S E A} {f : A → Action S E B} → Calm m → ((a : A) → Calm (f a)) → Calm (m >>= f)
  unfolding ◌>>=◌
  >>=-Calm {m} {f} c d = record { same_fails = λ s. go s (m s) (c.same_fails s) }
    where
      go :
          (s : Session S) (r : Result (Failure E) A × Session S)
          → r.1.fails ≡ s.fails
          → (elim r.0 as (λ _. Result (Failure E) B × Session S) [
            | ok a ↦ f a r.1
            | err e ↦ (err e, r.1)
          ]).1.fails
            ≡ s.fails
      go s (ok a, x) h = (d a).same_fails x ∙ h
      go s (err e, x) h = h

  pub >>-Calm : {m : Action S E A} {k : Action S E B} → Calm m → Calm k → Calm (m >> k)
  unfolding ◌>>◌
  >>-Calm c d = >>=-Calm c (λ _. d)

module _ {S L E F A : Type 0} (get : S → L) (put : L → S → S) (wrap : E → F) where
  pub zoom-Calm : {m : Action L E A} → Calm m → Calm (zoom get put wrap m)
  unfolding zoom
  zoom-Calm {m} c = record {
    same_fails = λ s.
        let part : Session L = record {
          store = get s.store;
          queries = s.queries;
          fails = s.fails;
        } in
        go s (m part) (c.same_fails part);
  }
    where
      go :
          (s : Session S) (r : Result (Failure E) A × Session L)
          → r.1.fails ≡ s.fails
          → (unzoom put wrap s r).1.fails ≡ s.fails
      go s (ok a, x) h = h
      go s (err (thrown e), x) h = h
      go s (err query_failed, x) h = h
