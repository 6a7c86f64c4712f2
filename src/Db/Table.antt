-- ===== src/Db/Table.antt =====
-- A table of the database with its primary key, as the repositories use it through a session:
-- `session.get`, `session.add` or `merge` or an update of a loaded row, and a `select` without
-- ORDER BY, whose rows come in an order that is not specified. SQLAlchemy and the database are not
-- part of the program; the fields after `rows` are what the program relies on.
use event_alpha.Prelude.{
  ◌≡◌, ◌≢◌, inl, inr, Bool, true, false, List, [], ◌∷◌, Option, none, some, arith, In, keep,
  keep-In, In-keep,
}
use mathlib.Core.Logic.{ite}

pub record Table (K R : Type 0) (key : R → K) : Type 1 where
  pub T : Type 0
  pub get : T → K → Option R
  pub put : R → T → T
  pub rows : T → List R
  -- The facts relied on.
  pub get-put_self : (r : R) (t : T) → get (put r t) (key r) ≡ some r
  pub get-put_ne : (r : R) (t : T) (k : K) → key r ≢ k → get (put r t) k ≡ get t k
  pub get-key : (t : T) (k : K) (r : R) → get t k ≡ some r → key r ≡ k
  pub rows-get : (t : T) (r : R) → In r (rows t) → get t (key r) ≡ some r
  pub get-rows : (t : T) (k : K) (r : R) → get t k ≡ some r → In r (rows t)

abbrev differs : {A : Type 0} → Dec A → Bool
differs (yes p) = false
differs (no p) = true

-- A table as a list of writes, the latest first, shows that the facts can hold.
module _ {K R : Type 0} (key : R → K) (dec : Discrete K) where
  unfoldable pub list_get : List R → K → Option R
  list_get [] k = none
  list_get (r ∷ t) k = ite (dec (key r) k) (some r) (list_get t k)

  unfoldable pub list_rows : List R → List R
  list_rows [] = []
  list_rows (r ∷ t) = r ∷ keep (λ s. differs (dec (key r) (key s))) (list_rows t)

  list_get-put_self : (r : R) (t : List R) → list_get (r ∷ t) (key r) ≡ some r
  unfolding list_get
  list_get-put_self r t = ground arith

  list_get-put_ne : (r : R) (t : List R) (k : K) → key r ≢ k → list_get (r ∷ t) k ≡ list_get t k
  unfolding list_get
  list_get-put_ne r t k h = ground arith

  list_get-key : (t : List R) (k : K) (r : R) → list_get t k ≡ some r → key r ≡ k
  unfolding list_get
  list_get-key [] k r h = cc
  list_get-key (s ∷ t) k r h = ground (arith, list_get-key t k r)

  list_rows-get : (t : List R) (r : R) → In r (list_rows t) → list_get t (key r) ≡ some r
  unfolding list_get list_rows
  list_rows-get [] r h = absurd h
  list_rows-get (s ∷ t) r (inl e) = ground arith
  list_rows-get (s ∷ t) r (inr m) =
      let (m', other) = keep-In _ r (list_rows t) m in ground (arith, list_rows-get t r m')

  list_get-rows : (t : List R) (k : K) (r : R) → list_get t k ≡ some r → In r (list_rows t)
  unfolding list_get list_rows
  list_get-rows [] k r h = cc
  list_get-rows (s ∷ t) k r h = elim (dec (key s) k) [
    | yes p ↦ inl (ground arith)
    | no p ↦
        let later : list_get t k ≡ some r = ground arith in
        inr (
          In-keep _ r (list_rows t) (list_get-rows t k r later)
            (ground (arith, list_get-key t k r)))
  ]

  unfoldable pub list_table : Table K R key
  unfolding list_get list_rows list_get-put_self list_get-put_ne list_get-key list_rows-get
      list_get-rows
  list_table = record {
    T = List R;
    get = list_get;
    put = λ r t. r ∷ t;
    rows = list_rows;
    get-put_self = list_get-put_self;
    get-put_ne = list_get-put_ne;
    get-key = list_get-key;
    rows-get = list_rows-get;
    get-rows = list_get-rows;
  }
