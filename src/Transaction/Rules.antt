-- ===== src/Transaction/Rules.antt =====
-- Two ways to reason about service code, each with a rule for every way to build it: `Keeps`, an
-- invariant of the store that survives every outcome, and `Yields`, the outcome on a given store
-- when no query fails.
use mathlib.Core.Path.{subst}
use gestion_alquileres_backe.Prelude.{
  ℕ, suc, ◌≡◌, refl, ap, Bool, true, false, Result, ok, err, Bool-cases, inl, inr, sym,
}
use gestion_alquileres_backe.Transaction.{
  Session, Failure, Action, pure, throw, query, select, update, throw_when, transaction, ◌>>=◌,
  ◌>>◌, query_failed, thrown,
}

pub record Keeps {S E A : Type 0} (P : S → Type 0) (m : Action S E A) : Type 0 where
  pub keep : (s : Session S) → P s.store → P (m s).1.store

module _ {S E A : Type 0} {P : S → Type 0} where
  pub pure-Keeps : (a : A) → Keeps {E = E} P (pure a)
  unfolding pure
  pure-Keeps a = record { keep = λ s h. h }

  pub throw-Keeps : (e : E) → Keeps {A = A} P (throw e)
  unfolding throw
  throw-Keeps e = record { keep = λ s h. h }

  pub select-Keeps : (f : S → A) → Keeps {E = E} P (select f)
  unfolding select
  select-Keeps f = record { keep = λ s h. go s h (s.fails s.queries) }
    where
      go :
          (s : Session S)
          → P s.store
          → (b : Bool)
          → P
              (elim b as (λ _. Result (Failure E) A × Session S) [
                | true ↦ (err query_failed, record s { queries = suc s.queries })
                | false ↦ (ok (f s.store), record s { queries = suc s.queries; store = s.store })
              ]).1.store
      go s h true = h
      go s h false = h

  pub transaction-Keeps : {m : Action S E A} → Keeps P m → Keeps P (transaction m)
  unfolding transaction
  transaction-Keeps {m} k = record { keep = λ s h. go s (m s) h (k.keep s h) }
    where
      go :
          (s : Session S) (r : Result (Failure E) A × Session S)
          → P s.store
          → P r.1.store
          → P
              (elim r.0 as (λ _. Result (Failure E) A × Session S) [
                | ok a ↦ (ok a, r.1)
                | err e ↦ (err e, record r.1 { store = s.store })
              ]).1.store
      go s (ok a, s') h h' = h'
      go s (err e, s') h h' = h

module _ {S E : Type 0} {P : S → Type 0} where
  pub throw_when-Keeps : (b : Bool) (e : E) → Keeps P (throw_when b e)
  unfolding throw_when
  throw_when-Keeps true e = record { keep = λ s h. h }
  throw_when-Keeps false e = record { keep = λ s h. h }

  pub update-Keeps : (f : S → S) → ((t : S) → P t → P (f t)) → Keeps {E = E} P (update f)
  unfolding update
  update-Keeps f k = record { keep = λ s h. go s h (s.fails s.queries) }
    where
      go :
          (s : Session S)
          → P s.store
          → (b : Bool)
          → P
              (elim b as (λ _. Result (Failure E) (Unit {0}) × Session S) [
                | true ↦ (err query_failed, record s { queries = suc s.queries })
                | false ↦ (ok tt, record s { queries = suc s.queries; store = f s.store })
              ]).1.store
      go s h true = h
      go s h false = k s.store h

module _ {S E A B : Type 0} {P : S → Type 0} where
  pub >>=-Keeps :
      {m : Action S E A} {f : A → Action S E B}
      → Keeps P m
      → ((a : A) → Keeps P (f a))
      → Keeps P (m >>= f)
  unfolding ◌>>=◌
  >>=-Keeps {m} {f} k l = record { keep = λ s h. go (m s) (k.keep s h) }
    where
      go :
          (r : Result (Failure E) A × Session S)
          → P r.1.store
          → P
              (elim r.0 as (λ _. Result (Failure E) B × Session S) [
                | ok a ↦ f a r.1
                | err e ↦ (err e, r.1)
              ]).1.store
      go (ok a, s) h = (l a).keep s h
      go (err e, s) h = h

  pub >>-Keeps : {m : Action S E A} {k : Action S E B} → Keeps P m → Keeps P k → Keeps P (m >> k)
  unfolding ◌>>◌
  >>-Keeps h k = >>=-Keeps h (λ _. k)

-- Begun on the store `t`, `m` ends in a store that meets `P`, whatever fails.
pub record EndsIn {S E A : Type 0} (t : S) (m : Action S E A) (P : S → Type 0) : Type 0 where
  pub ends : (s : Session S) → s.store ≡ t → P (m s).1.store

module _ {S E : Type 0} {P : S → Type 0} where
  pub update-EndsIn : (f : S → S) (t : S) → P t → P (f t) → EndsIn {E = E} t (update f) P
  unfolding update query
  update-EndsIn f t h k = record {
    ends = λ s e. elim (Bool-cases (s.fails s.queries)) [
      | inl fails ↦ rw (fails, query) (subst P (sym e) h)
      | inr runs ↦ rw (runs, query) (subst (λ x. P (f x)) (sym e) k)
    ];
  }

module _ {S E A B : Type 0} {P : S → Type 0} where
  -- What is read is what stands in the store until the next write.
  pub select->>=-Keeps :
      (f : S → A) (k : A → Action S E B)
      → ((t : S) → P t → EndsIn t (k (f t)) P)
      → Keeps P (select f >>= k)
  unfolding ◌>>=◌ select query
  select->>=-Keeps f k l = record {
    keep = λ s h. elim (Bool-cases (s.fails s.queries)) [
      | inl fails ↦ rw (fails, query, ◌>>=◌) (rw (fails, query) h)
      | inr runs ↦
          rw (runs, query, ◌>>=◌)
            (rw (runs, query)
              ((l s.store h).ends (record s { queries = suc s.queries; store = s.store }) refl))
    ];
  }

-- No query fails from here on.
abbrev pub NoFaults : {S : Type 0} → Session S → Type 0
NoFaults s = (n : ℕ) → s.fails n ≡ false

-- On the store `t`, when no query fails, `m` ends with `r` and leaves the store `t'`.
pub record Yields {S E A : Type 0} (m : Action S E A) (t : S) (r : Result (Failure E) A) (t' : S)
    : Type 0 where
  pub result : (s : Session S) → s.store ≡ t → NoFaults s → (m s).0 ≡ r
  pub store : (s : Session S) → s.store ≡ t → NoFaults s → (m s).1.store ≡ t'
  pub faultless : (s : Session S) → s.store ≡ t → NoFaults s → NoFaults (m s).1

module _ {S E A : Type 0} where
  pub pure-Yields : (a : A) (t : S) → Yields {E = E} (pure a) t (ok a) t
  unfolding pure
  pure-Yields a t = record { result = λ s e n. refl; store = λ s e n. e; faultless = λ s e n. n }

  pub throw-Yields : (e : E) (t : S) → Yields {A = A} (throw e) t (err (thrown e)) t
  unfolding throw
  throw-Yields e t = record { result = λ s q n. refl; store = λ s q n. q; faultless = λ s q n. n }

  pub query-Yields : (f : S → A × S) (t : S) → Yields {E = E} (query f) t (ok (f t).0) (f t).1
  unfolding query
  query-Yields f t = record {
    result = λ s e n. rw (n s.queries, query) (ap (λ x. ok (f x).0) e);
    store = λ s e n. rw (n s.queries, query) (ap (λ x. (f x).1) e);
    faultless = λ s e n. rw (n s.queries, query) n;
  }

  pub select-Yields : (f : S → A) (t : S) → Yields {E = E} (select f) t (ok (f t)) t
  unfolding select
  select-Yields f t = query-Yields (λ s. (f s, s)) t

module _ {S E : Type 0} where
  pub update-Yields : (f : S → S) (t : S) → Yields {E = E} (update f) t (ok tt) (f t)
  unfolding update
  update-Yields f t = query-Yields (λ s. (tt, f s)) t

  pub throw_when-Yields :
      (b : Bool) (e : E) (t : S) → b ≡ false → Yields (throw_when b e) t (ok tt) t
  unfolding throw_when
  throw_when-Yields b e t h =
      rw h (record { result = λ s q n. refl; store = λ s q n. q; faultless = λ s q n. n })

module _ {S E A B : Type 0} where
  pub >>=-Yields :
      {m : Action S E A} (f : A → Action S E B) {t t' t'' : S} {a : A} {r : Result (Failure E) B}
      → Yields m t (ok a) t'
      → Yields (f a) t' r t''
      → Yields (m >>= f) t r t''
  unfolding ◌>>=◌
  >>=-Yields {m} f y z = record {
    result =
        λ s e n. rw (y.result s e n, ◌>>=◌) (z.result (m s).1 (y.store s e n) (y.faultless s e n));
    store =
        λ s e n. rw (y.result s e n, ◌>>=◌) (z.store (m s).1 (y.store s e n) (y.faultless s e n));
    faultless = λ s e n.
        rw (y.result s e n, ◌>>=◌) (z.faultless (m s).1 (y.store s e n) (y.faultless s e n));
  }

  pub >>-Yields :
      {m : Action S E A} (k : Action S E B) {t t' t'' : S} {a : A} {r : Result (Failure E) B}
      → Yields m t (ok a) t'
      → Yields k t' r t''
      → Yields (m >> k) t r t''
  unfolding ◌>>◌
  >>-Yields k y z = >>=-Yields (λ _. k) y z

module _ {S E A : Type 0} where
  -- A body that returns is committed.
  pub transaction-Yields :
      {m : Action S E A} {t t' : S} {a : A}
      → Yields m t (ok a) t'
      → Yields (transaction m) t (ok a) t'
  unfolding transaction
  transaction-Yields y = record {
    result = λ s e n. rw (y.result s e n, transaction);
    store = λ s e n. rw (y.result s e n, transaction) (y.store s e n);
    faultless = λ s e n. rw (y.result s e n, transaction) (y.faultless s e n);
  }

-- A query that does not fail.
pub update_runs :
    {S E : Type 0} (f : S → S) (s : Session S)
    → s.fails s.queries ≡ false
    → update {E = E} f s ≡ (ok tt, record s { queries = suc s.queries; store = f s.store })
unfolding update query
update_runs f s runs = rw (runs, query) refl

module _ {S E A B : Type 0} where
  -- Behind a call that returned goes on what follows it.
  pub >>=-runs :
      (m : Action S E A) (f : A → Action S E B) (s : Session S) (a : A)
      → (m s).0 ≡ ok a
      → (m >>= f) s ≡ f a (m s).1
  unfolding ◌>>=◌
  >>=-runs m f s a h = rw (h, ◌>>=◌) refl

-- A statement that does not fail.
pub query_runs :
    {S E A : Type 0} (f : S → A × S) (s : Session S)
    → s.fails s.queries ≡ false
    → query {E = E} f s
      ≡ (ok (f s.store).0, record s { queries = suc s.queries; store = (f s.store).1 })
unfolding query
query_runs f s runs = rw (runs, query) refl
