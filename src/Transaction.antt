-- ===== src/Transaction.antt =====
-- How the services reach the database: a query runner of TypeORM, with its transaction. A query
-- reads or changes the store, or fails for a reason of its own (the connection, a constraint); which
-- ones fail is the environment's choice, `fails`, by the number of queries made so far.
pub mod Rules
pub mod Commit
pub mod Faults
use gestion_alquileres_backe.Prelude.{ℕ, suc, ◌≡◌, Bool, true, false, Result, ok, err, arith}

pub record Session (S : Type 0) : Type 0 where
  pub store : S
  pub queries : ℕ
  pub fails : ℕ → Bool

-- What a service throws: an exception of its own, or the failure of a query.
pub data Failure (E : Type 0) : Type 0 where
  thrown : E → Failure E
  query_failed : Failure E

-- A piece of service code. After an exception the session comes back as it stood then.
abbrev pub Action : Type 0 → Type 0 → Type 0 → Type 0
Action S E A = Session S → Result (Failure E) A × Session S

module _ {S E A : Type 0} where
  unfoldable pub pure : A → Action S E A
  pure a s = (ok a, s)

  unfoldable pub throw : E → Action S E A
  throw e s = (err (thrown e), s)

  -- one query: it counts, and it fails or runs
  unfoldable pub query : (S → A × S) → Action S E A
  query f s =
      let next = record s { queries = suc s.queries } in
      elim (s.fails s.queries) [
        | true ↦ (err query_failed, next)
        | false ↦ (ok (f s.store).0, record next { store = (f s.store).1 })
      ]

  -- a query that only reads
  unfoldable pub select : (S → A) → Action S E A
  unfolding query
  select f = query (λ s. (f s, s))

module _ {S E : Type 0} where
  -- a query that only writes
  unfoldable pub update : (S → S) → Action S E (Unit {0})
  unfolding query
  update f = query (λ s. (tt, f s))

  unfoldable pub throw_when : Bool → E → Action S E (Unit {0})
  throw_when true e s = (err (thrown e), s)
  throw_when false e s = (ok tt, s)

module _ {S E A : Type 0} where
  -- code that reaches no database
  unfoldable pub lift : Result E A → Action S E A
  lift (ok a) s = (ok a, s)
  lift (err e) s = (err (thrown e), s)

infixl 5 ◌>>=◌ ◌>>◌
unfoldable pub ◌>>=◌ : {S E A B : Type 0} → Action S E A → (A → Action S E B) → Action S E B
◌>>=◌ m f s = let (r, s') = m s in elim r [ ok a ↦ f a s' | err e ↦ (err e, s') ]

unfoldable pub ◌>>◌ : {S E A B : Type 0} → Action S E A → Action S E B → Action S E B
unfolding ◌>>=◌
m >> k = m >>= λ _. k

-- startTransaction, the body, commitTransaction; rollbackTransaction and a rethrow on an exception
unfoldable pub transaction : {S E A : Type 0} → Action S E A → Action S E A
transaction body s =
    let (r, s') = body s in
    elim r [ ok a ↦ (ok a, s') | err e ↦ (err e, record s' { store = s.store }) ]

-- A transaction that throws leaves the store as it was.
pub transaction_rollback :
    {S E A : Type 0} (body : Action S E A) (s : Session S) {e : Failure E}
    → (transaction body s).0 ≡ err e
    → (transaction body s).1.store ≡ s.store
unfolding transaction
transaction_rollback body s h = ground arith

abbrev pub unzoom :
    {S L E F A : Type 0}
    → (L → S → S)
    → (E → F)
    → Session S
    → Result (Failure E) A × Session L
    → Result (Failure F) A × Session S
unzoom put wrap s (ok a, x) =
    (ok a, record { store = put x.store s.store; queries = x.queries; fails = x.fails })
unzoom put wrap s (err (thrown e), x) = (
  err (thrown (wrap e)),
  record { store = put x.store s.store; queries = x.queries; fails = x.fails },
)
unzoom put wrap s (err query_failed, x) =
    (err query_failed, record { store = put x.store s.store; queries = x.queries; fails = x.fails })

-- a service on a part of the store, within a larger one; its exceptions become the caller's
unfoldable pub zoom :
    {S L E F A : Type 0} → (S → L) → (L → S → S) → (E → F) → Action L E A → Action S F A
zoom get put wrap m s =
    unzoom put wrap s (m (record { store = get s.store; queries = s.queries; fails = s.fails }))

-- `try { … } catch (error) { … }`
unfoldable pub attempt : {S E A : Type 0} → Action S E A → (Failure E → Action S E A) → Action S E A
attempt m handler s = let (r, x) = m s in elim r [ ok a ↦ (ok a, x) | err e ↦ handler e x ]
