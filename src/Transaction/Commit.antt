-- ===== src/Transaction/Commit.antt =====
-- Invariants that a body breaks on its way and restores before it returns: what is committed.
use mathlib.Core.Bool.{true}
use mathlib.Core.Path.{subst}
use gestion_alquileres_backe.Prelude.{
  ◌≡◌, Bool, ok, sym, false, Bool-cases, true, inl, inr, refl, Result, ap, suc, err,
}
use gestion_alquileres_backe.Transaction.Rules.{Keeps, Yields, EndsIn}
use gestion_alquileres_backe.Transaction.{
  Action, throw, ◌>>◌, ◌>>=◌, transaction, Session, throw_when, pure, update, select, query,
  Failure, thrown, lift, zoom, unzoom, query_failed, attempt,
}

-- `P` holds of the store if a value was returned.
abbrev pub Landed : {S E A : Type 0} → (S → Type 0) → Result (Failure E) A × Session S → Type 0
Landed P (ok a, s) = P s.store
Landed P (err e, s) = Unit {0}

-- Begun on the store `t`, `m` ends in a store that meets `P` whenever it returns.
pub record Lands {S E A : Type 0} (t : S) (m : Action S E A) (P : S → Type 0) : Type 0 where
  pub lands : (s : Session S) → s.store ≡ t → Landed P (m s)

landed :
    {S E A : Type 0} (P : S → Type 0) (x : Result (Failure E) A × Session S)
    → P x.1.store
    → Landed P x
landed P (ok a, s) h = h
landed P (err e, s) h = tt

module _ {S E A : Type 0} {P : S → Type 0} where
  pub Keeps→Lands : (m : Action S E A) (t : S) → P t → Keeps P m → Lands t m P
  Keeps→Lands m t h k = record { lands = λ s e. landed P (m s) (k.keep s (subst P (sym e) h)) }

  pub throw-Lands : (e : E) (t : S) → Lands {A = A} t (throw e) P
  unfolding throw
  throw-Lands e t = record { lands = λ s q. tt }

  pub throw_when->>-Lands :
      (b : Bool) (e : E) (k : Action S E A) (t : S)
      → (b ≡ false → Lands t k P)
      → Lands t (throw_when b e >> k) P
  unfolding ◌>>◌ ◌>>=◌ throw_when
  throw_when->>-Lands true e k t l = record { lands = λ s q. tt }
  throw_when->>-Lands false e k t l = l refl

  pub pure->>-Lands : (k : Action S E A) (t : S) → Lands t k P → Lands t (pure tt >> k) P
  unfolding ◌>>◌ ◌>>=◌ pure
  pure->>-Lands k t l = l

  pub update->>-Lands :
      (f : S → S) (k : Action S E A) (t : S) → Lands (f t) k P → Lands t (update f >> k) P
  unfolding ◌>>◌ ◌>>=◌ update query
  update->>-Lands f k t l = record {
    lands = λ s e. elim (Bool-cases (s.fails s.queries)) [
      | inl fails ↦ rw (fails, query, ◌>>=◌) tt
      | inr runs ↦ rw (runs, query, ◌>>=◌) (rw (runs, query) (l.lands _ (ap f e)))
    ];
  }

module _ {S E A B : Type 0} {P : S → Type 0} where
  pub select->>=-Lands :
      (f : S → A) (k : A → Action S E B) (t : S) → Lands t (k (f t)) P → Lands t (select f >>= k) P
  unfolding ◌>>=◌ select query
  select->>=-Lands f k t l = record {
    lands = λ s e. elim (Bool-cases (s.fails s.queries)) [
      | inl fails ↦ rw (fails, query, ◌>>=◌) tt
      | inr runs ↦
          rw (runs, query, ◌>>=◌)
            (rw (runs, query)
              (subst
                (λ x. Landed P (k (f x) (record s { queries = suc s.queries; store = s.store })))
                (sym e) (l.lands _ e)))
    ];
  }

module _ {S E A B : Type 0} {P : S → Type 0} where
  pub query->>=-Lands :
      (f : S → A × S) (k : A → Action S E B) (t : S)
      → Lands (f t).1 (k (f t).0) P
      → Lands t (query f >>= k) P
  unfolding ◌>>=◌ query
  query->>=-Lands f k t l = record {
    lands = λ s e. elim (Bool-cases (s.fails s.queries)) [
      | inl fails ↦ rw (fails, query, ◌>>=◌) tt
      | inr runs ↦
          rw (runs, query, ◌>>=◌)
            (rw (runs, query)
              (subst
                (λ x. Landed P (k (f x).0 (record s { queries = suc s.queries; store = (f x).1 })))
                (sym e) (l.lands _ refl)))
    ];
  }

module _ {S E : Type 0} {P : S → Type 0} where
  pub throw_when-Lands : (b : Bool) (e : E) (t : S) → (b ≡ false → P t) → Lands t (throw_when b e) P
  unfolding throw_when
  throw_when-Lands true e t h = record { lands = λ s q. tt }
  throw_when-Lands false e t h = record { lands = λ s q. subst P (sym q) (h refl) }

module _ {S E A : Type 0} {P : S → Type 0} where
  -- A transaction commits what meets `P`, or leaves the store as it was.
  pub Lands→Keeps : (m : Action S E A) → ((t : S) → P t → Lands t m P) → Keeps P (transaction m)
  unfolding transaction
  Lands→Keeps m l = record { keep = λ s h. go s (m s) h ((l s.store h).lands s refl) }
    where
      go :
          (s : Session S) (r : Result (Failure E) A × Session S)
          → P s.store
          → Landed P r
          → P
              (elim r.0 as (λ _. Result (Failure E) A × Session S) [
                | ok a ↦ (ok a, r.1)
                | err e ↦ (err e, record r.1 { store = s.store })
              ]).1.store
      go s (ok a, x) h k = k
      go s (err e, x) h k = h

module _ {S E A : Type 0} {P : S → Type 0} where
  -- one statement that reads and writes
  pub query-Keeps : (f : S → A × S) → ((t : S) → P t → P (f t).1) → Keeps {E = E} P (query f)
  unfolding query
  query-Keeps f k = record {
    keep = λ s h. elim (Bool-cases (s.fails s.queries)) [
      | inl fails ↦ rw (fails, query) h
      | inr runs ↦ rw (runs, query) (k s.store h)
    ];
  }

module _ {S E A : Type 0} {P : S → Type 0} where
  -- What a body comes to when it returns, its transaction comes to.
  pub transaction-Lands : (m : Action S E A) (t : S) → Lands t m P → Lands t (transaction m) P
  unfolding transaction
  transaction-Lands m t l = record { lands = λ s e. go s (m s) (l.lands s e) }
    where
      go :
          (s : Session S) (r : Result (Failure E) A × Session S)
          → Landed P r
          → Landed P (elim r.0 as (λ _. Result (Failure E) A × Session S) [
            | ok a ↦ (ok a, r.1)
            | err e ↦ (err e, record r.1 { store = s.store })
          ])
      go s (ok a, x) k = k
      go s (err e, x) k = tt

pub landed_ok :
    {S E A : Type 0} (P : S → Type 0) (x : Result (Failure E) A × Session S) (a : A)
    → Landed P x
    → x.0 ≡ ok a
    → P x.1.store
landed_ok P (ok b, s) a h e = h
landed_ok P (err b, s) a h e = cc

module _ {S E A : Type 0} where
  -- A guard that throws ends the body.
  pub throw_when->>-Yields :
      (e : E) (k : Action S E A) (t : S) → Yields (throw_when true e >> k) t (err (thrown e)) t
  unfolding throw_when ◌>>◌ ◌>>=◌
  throw_when->>-Yields e k t = record {
    result = λ s q n. refl;
    store = λ s q n. q;
    faultless = λ s q n. n;
  }

  -- A body that throws is rolled back.
  pub transaction-rolls_back-Yields :
      {m : Action S E A} {t t' : S} {e : Failure E}
      → Yields m t (err e) t'
      → Yields (transaction m) t (err e) t
  unfolding transaction
  transaction-rolls_back-Yields y = record {
    result = λ s e n. rw (y.result s e n, transaction);
    store = λ s e n. rw (y.result s e n, transaction) e;
    faultless = λ s e n. rw (y.result s e n, transaction) (y.faultless s e n);
  }

module _ {S E A : Type 0} {P : S → Type 0} where
  -- A guard keeps what held before it, and what follows it knows that it passed.
  pub throw_when->>-EndsIn :
      (b : Bool) (e : E) (k : Action S E A) (t : S)
      → P t
      → (b ≡ false → EndsIn t k P)
      → EndsIn t (throw_when b e >> k) P
  unfolding throw_when ◌>>◌ ◌>>=◌
  throw_when->>-EndsIn true e k t h l = record { ends = λ s q. subst P (sym q) h }
  throw_when->>-EndsIn false e k t h l = record { ends = λ s q. (l refl).ends s q }

module _ {S E A B C : Type 0} {P : S → Type 0} where
  -- A call made of two calls is the first and then the second.
  pub >>=-assoc-Lands :
      (m : Action S E A) (f : A → Action S E B) (k : B → Action S E C) (t : S)
      → Lands t (m >>= λ a. f a >>= k) P
      → Lands t (m >>= f >>= k) P
  unfolding ◌>>=◌
  >>=-assoc-Lands m f k t l = record { lands = λ s e. go (m s) (l.lands s e) }
    where
      after : Result (Failure E) B × Session S → Result (Failure E) C × Session S
      after r = elim r.0 as (λ _. Result (Failure E) C × Session S) [
        | ok b ↦ k b r.1
        | err e ↦ (err e, r.1)
      ]

      go :
          (r : Result (Failure E) A × Session S)
          → Landed P (elim r.0 as (λ _. Result (Failure E) C × Session S) [
            | ok a ↦ after (f a r.1)
            | err e ↦ (err e, r.1)
          ])
          → Landed P (
              after (elim r.0 as (λ _. Result (Failure E) B × Session S) [
                | ok a ↦ f a r.1
                | err e ↦ (err e, r.1)
              ]))
      go (ok a, s) h = h
      go (err e, s) h = h

module _ {S E A B : Type 0} {P : S → Type 0} where
  pub pure->>=-Lands :
      (a : A) (k : A → Action S E B) (t : S) → Lands t (k a) P → Lands t (pure a >>= k) P
  unfolding ◌>>=◌ pure
  pure->>=-Lands a k t l = record { lands = l.lands }

  pub throw->>=-Lands : (e : E) (k : A → Action S E B) (t : S) → Lands t (throw e >>= k) P
  unfolding ◌>>=◌ throw
  throw->>=-Lands e k t = record { lands = λ s q. tt }

  -- What follows a computation knows its result.
  pub lift->>-Keeps :
      (r : Result E A) (k : Action S E B) → ((a : A) → r ≡ ok a → Keeps P k) → Keeps P (lift r >> k)
  unfolding ◌>>◌ ◌>>=◌ lift
  lift->>-Keeps (ok a) k l = record { keep = (l a refl).keep }
  lift->>-Keeps (err e) k l = record { keep = λ s h. h }

module _ {S E A B : Type 0} {P : S → Type 0} where
  pub lift->>-Lands :
      (r : Result E A) (k : Action S E B) (t : S)
      → ((a : A) → r ≡ ok a → Lands t k P)
      → Lands t (lift r >> k) P
  unfolding ◌>>◌ ◌>>=◌ lift
  lift->>-Lands (ok a) k t l = record { lands = (l a refl).lands }
  lift->>-Lands (err e) k t l = record { lands = λ s q. tt }

module _ {S E : Type 0} {P : S → Type 0} where
  pub update-Lands : (f : S → S) (t : S) → P (f t) → Lands {E = E} t (update f) P
  unfolding update query
  update-Lands f t h = record {
    lands = λ s e. elim (Bool-cases (s.fails s.queries)) [
      | inl fails ↦ rw (fails, query) tt
      | inr runs ↦ rw (runs, query) (subst (λ x. P (f x)) (sym e) h)
    ];
  }

module _ {S E A B : Type 0} {P : S → Type 0} where
  -- What the first call comes to, the calls after it keep.
  pub >>=-Keeps-Lands :
      (m : Action S E A) (f : A → Action S E B) (t : S)
      → Lands t m P
      → ((a : A) → Keeps P (f a))
      → Lands t (m >>= f) P
  unfolding ◌>>=◌
  >>=-Keeps-Lands m f t l k = record { lands = λ s e. go (m s) (l.lands s e) }
    where
      go :
          (r : Result (Failure E) A × Session S)
          → Landed P r
          → Landed P (elim r.0 as (λ _. Result (Failure E) B × Session S) [
            | ok a ↦ f a r.1
            | err e ↦ (err e, r.1)
          ])
      go (ok a, x) h = landed P (f a x) ((k a).keep x h)
      go (err e, x) h = tt

module _ {S L E F A : Type 0} {P : L → Type 0} (get : S → L) (put : L → S → S) (wrap : E → F) where
  -- A service on a part of the store does to that part what it does alone.
  pub zoom-Keeps :
      {m : Action L E A}
      → ((l : L) (s : S) → get (put l s) ≡ l)
      → Keeps P m
      → Keeps (λ s. P (get s)) (zoom get put wrap m)
  unfolding zoom
  zoom-Keeps {m} law k = record {
    keep = λ s h.
        let part : Session L = record {
          store = get s.store;
          queries = s.queries;
          fails = s.fails;
        } in
        go s (m part) (k.keep part h);
  }
    where
      go :
          (s : Session S) (r : Result (Failure E) A × Session L)
          → P r.1.store
          → P (get (unzoom put wrap s r).1.store)
      go s (ok a, x) h = subst P (sym (law x.store s.store)) h
      go s (err (thrown e), x) h = subst P (sym (law x.store s.store)) h
      go s (err query_failed, x) h = subst P (sym (law x.store s.store)) h

  pub zoom-Lands :
      (m : Action L E A) (t : S)
      → ((l : L) (s : S) → get (put l s) ≡ l)
      → Lands (get t) m P
      → Lands t (zoom get put wrap m) (λ s. P (get s))
  unfolding zoom
  zoom-Lands m t law l = record {
    lands = λ s e.
        let part : Session L = record {
          store = get s.store;
          queries = s.queries;
          fails = s.fails;
        } in
        go s (m part) (l.lands part (ap get e));
  }
    where
      go :
          (s : Session S) (r : Result (Failure E) A × Session L)
          → Landed P r
          → Landed (λ x. P (get x)) (unzoom put wrap s r)
      go s (ok a, x) h = subst P (sym (law x.store s.store)) h
      go s (err (thrown e), x) h = tt
      go s (err query_failed, x) h = tt

module _ {S E A : Type 0} {P : S → Type 0} where
  pub attempt-Keeps :
      {m : Action S E A} {handler : Failure E → Action S E A}
      → Keeps P m
      → ((e : Failure E) → Keeps P (handler e))
      → Keeps P (attempt m handler)
  unfolding attempt
  attempt-Keeps {m} {handler} k l = record { keep = λ s h. go (m s) (k.keep s h) }
    where
      go :
          (r : Result (Failure E) A × Session S)
          → P r.1.store
          → P
              (elim r.0 as (λ _. Result (Failure E) A × Session S) [
                | ok a ↦ (ok a, r.1)
                | err e ↦ handler e r.1
              ]).1.store
      go (ok a, x) h = h
      go (err e, x) h = (l e).keep x h
