-- ===== src/Repo/Transactions.antt =====
-- `WithTx` of core/repo/repo.go. A transaction of the database is isolated: another process may write
-- just before it begins, and not between its statements. What fails to roll back shows in the text of
-- the error alone, and is left out.
pub mod Whole
use dankcalendar.Base.{String, ℕ, ◌-◌, List, [], ◌∷◌, length, drop}
use dankcalendar.Repo.Store.{
  Error, Result, ok, err, Tables, Incident, quiet, broken, meanwhile, World, M, ◌>>=◌, update,
  wrap_error,
}

abbrev pub isolated : List Incident → List Incident
isolated [] = []
isolated (quiet ∷ rest) = quiet ∷ isolated rest
isolated (broken text ∷ rest) = broken text ∷ isolated rest
isolated (meanwhile g ∷ rest) = quiet ∷ isolated rest

-- The incidents to come, where `left` are left of those of the transaction.
abbrev remaining : List Incident → List Incident → List Incident
remaining all left = drop (length all - length left) all

-- `r.client.Tx`, and `tx.Commit`.
unfoldable pub begin_tx : M (Unit {0})
begin_tx = update λ t. (ok tt, t)

unfoldable pub commit_tx : M (Unit {0})
commit_tx = wrap_error "committing transaction" (update λ t. (ok tt, t))

-- Rolling back restores the tables at the beginning.
unfoldable pub end_tx : World → Result (Unit {0}) × World → Result (Unit {0}) × World
end_tx before (ok u, w) =
    (ok u, record { tables = w.tables; incidents = remaining before.incidents w.incidents })
end_tx before (err e, w) =
    (err e, record { tables = before.tables; incidents = remaining before.incidents w.incidents })

unfoldable pub in_tx : M (Unit {0}) → M (Unit {0})
in_tx body w =
    end_tx w
      ((body >>= λ u. commit_tx) (record { tables = w.tables; incidents = isolated w.incidents }))

unfoldable pub with_tx : M (Unit {0}) → M (Unit {0})
with_tx body = begin_tx >>= λ u. in_tx body
