-- ===== src/Repo/Transactions/Whole.antt =====
-- A transaction of core/repo happens as a whole or not at all.
use dankcalendar.Base.{List, [], ◌∷◌, ◌≡◌, refl}
use dankcalendar.Repo.Store.{
  Result, ok, err, Tables, Incident, quiet, broken, meanwhile, World, M, ◌>>=◌, update,
}
use dankcalendar.Repo.Post.{Calm, Triple, Post, Any, bind-Triple, update-Triple, wrap_error-Triple}
use dankcalendar.Repo.Transactions.{isolated, begin_tx, commit_tx, end_tx, in_tx, with_tx}

isolated-Calm : (is : List Incident) → Calm (isolated is)
isolated-Calm [] = tt
isolated-Calm (quiet ∷ rest) = isolated-Calm rest
isolated-Calm (broken text ∷ rest) = isolated-Calm rest
isolated-Calm (meanwhile g ∷ rest) = isolated-Calm rest

-- The tables when the transaction begins.
abbrev pub begun : World → Tables
begun w = elim w.incidents [
  | [] ↦ w.tables
  | i ∷ rest ↦ elim i [ quiet ↦ w.tables | broken text ↦ w.tables | meanwhile g ↦ g w.tables ]
]

-- The tables are as the transaction found them where it fails, else as its body leaves them.
abbrev pub Whole : Tables → Tables → Result (Unit {0}) × World → Type 0
Whole before after (ok u, w) = w.tables ≡ after
Whole before after (err e, w) = w.tables ≡ before

end_tx-Whole :
    (w : World) (after : Tables) (p : Result (Unit {0}) × World)
    → Post (λ u t. t ≡ after) Any p
    → Whole w.tables after (end_tx w p)
unfolding end_tx
end_tx-Whole w after (ok u, w') h = h.1
end_tx-Whole w after (err e, w') h = refl

module _ (body : M (Unit {0})) (f : Tables → Tables)
    (makes : (t0 : Tables) → Triple (λ t. t ≡ t0) body (λ u t. t ≡ f t0) Any) where
  commit-Triple : (t0 : Tables) → Triple (λ t. t ≡ t0) commit_tx (λ u t. t ≡ t0) Any
  unfolding commit_tx
  commit-Triple t0 =
      wrap_error-Triple (λ t. t ≡ t0) (λ u t. t ≡ t0) Any "committing transaction" _
        (update-Triple (λ t. t ≡ t0) (λ u t. t ≡ t0) Any (λ t. (ok tt, t)) (λ t a h e. h)
          (λ t e h x. tt) (λ t text h. tt))

  in_tx-Whole : (w : World) → Whole w.tables (f w.tables) (in_tx body w)
  unfolding in_tx
  in_tx-Whole w =
      end_tx-Whole w (f w.tables)
        ((body >>= λ u. commit_tx) (record { tables = w.tables; incidents = isolated w.incidents }))
        (bind-Triple (λ t. t ≡ w.tables) (λ u t. t ≡ f w.tables) Any (λ u t. t ≡ f w.tables) body
          (λ u. commit_tx) (makes w.tables) (λ u. commit-Triple (f w.tables))
          (record { tables = w.tables; incidents = isolated w.incidents })
          (isolated-Calm w.incidents) refl)

  pub with_tx-Whole : (w : World) → Whole (begun w) (f (begun w)) (with_tx body w)
  unfolding with_tx begin_tx update
  with_tx-Whole w = go w.tables w.incidents
    where
      go :
          (t : Tables) (is : List Incident)
          → let v : World = record { tables = t; incidents = is } in
            Whole (begun v) (f (begun v)) (with_tx body v)
      go t [] = in_tx-Whole (record { tables = t; incidents = [] })
      go t (quiet ∷ rest) = in_tx-Whole (record { tables = t; incidents = rest })
      go t (broken text ∷ rest) = refl
      go t (meanwhile g ∷ rest) = in_tx-Whole (record { tables = g t; incidents = rest })
