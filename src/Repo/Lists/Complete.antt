-- ===== src/Repo/Lists/Complete.antt =====
-- What the list queries read, and which of them ask whether the iteration came to its end.
use student_system_go.Common.{
  ◌≡◌, refl, sym, ◌∙◌, ◌↔◌, inl, inr, String, Bool, true, false, Option, none, some, List, [], ◌∷◌,
  Bool-cases,
}
use mathlib.Core.Path.{subst}
use student_system_go.Reflect.Keeps.{some-inj}
use student_system_go.Go.{ok, err, Call, ◌>>◌}
use student_system_go.Reflect.{Value}
use student_system_go.Query.{Params}
use student_system_go.Sql.{Sql, Pool, connect_read_db}
use student_system_go.Repo.{connect_failed, connect_read, or_none}
use student_system_go.Repo.Lists.{
  Listing, scan_next, scan_rows, list_query, read_rows, read_list, get_list,
}

module _ {R : Type 0} (scan : List Value → Option R) where
  -- Each row of the database gives one row of the list, in the same order.
  abbrev pub Scans : List (List Value) → List R → Type 0
  Scans [] [] = Unit
  Scans (vs ∷ rows) (r ∷ rs) = (scan vs ≡ some r) × Scans rows rs
  Scans _ _ = ⊥

  pub scan_rows-Scans :
      (rows : List (List Value)) (rs : List R) → scan_rows scan rows ≡ some rs → Scans rows rs
  unfolding scan_rows
  scan_rows-Scans [] rs h = subst (Scans []) (some-inj h) tt
  scan_rows-Scans (vs ∷ rows) rs h =
      go (scan vs) (scan_rows scan rows) refl (scan_rows-Scans rows) h
    where
      go :
          (o : Option R) (os : Option (List R))
          → scan vs ≡ o
          → ((t : List R) → os ≡ some t → Scans rows t)
          → scan_next o os ≡ some rs
          → Scans (vs ∷ rows) rs
      go none os here later q = cc
      go (some r) none here later q = cc
      go (some r) (some t) here later q =
          subst (Scans (vs ∷ rows)) (some-inj q) (here, later t refl)

  Scans-scan_rows :
      (rows : List (List Value)) (rs : List R) → Scans rows rs → scan_rows scan rows ≡ some rs
  unfolding scan_rows
  Scans-scan_rows [] [] h = refl
  Scans-scan_rows [] (r ∷ rs) h = absurd h
  Scans-scan_rows (vs ∷ rows) [] h = absurd h
  Scans-scan_rows (vs ∷ rows) (r ∷ rs) (here, later) = rw (here, Scans-scan_rows rows rs later)

module _ (db : Sql) where
  -- The list holds every row that was read until the iteration ended, by whatever it ended.
  pub record Reads {R : Type 0} (scan : List Value → Option R) (query : String) (args : List Value)
      (p : Pool db) (rs : List R) : Type 0 where
    pub is_ready : p.read_ready ≡ true
    pub rows : List (List Value)
    pub complete : Bool
    pub answer : db.query query args p.server ≡ some (rows, complete)
    pub scans : Scans scan rows rs

  read-Reads :
      {R : Type 0} (listing : Listing R) (query : String) (args : List Value) (p : Pool db)
      (rs : List R)
      → p.read_ready ≡ true
      → read_list db listing (query, args) p ≡ (ok rs, p)
      → Reads listing.scan query args p rs
  unfolding scan_rows
  read-Reads {R} listing query args p rs ready h = go (db.query query args p.server) refl h
    where
      scanned-Reads :
          (rows : List (List Value)) (complete : Bool) (o : Option (List R))
          → db.query query args p.server ≡ some (rows, complete)
          → scan_rows listing.scan rows ≡ o
          → or_none {S = Pool db} o listing.scan_failed p ≡ (ok rs, p)
          → Reads listing.scan query args p rs
      scanned-Reads rows complete none answer scans q = cc
      scanned-Reads rows complete (some t) answer scans q = record {
        is_ready = ready;
        rows = rows;
        complete = complete;
        answer = answer;
        scans = scan_rows-Scans listing.scan rows rs cc;
      }

      go :
          (o : Option (List (List Value) × Bool))
          → db.query query args p.server ≡ o
          → read_rows db listing o p ≡ (ok rs, p)
          → Reads listing.scan query args p rs
      go none answer q = cc
      go (some (rows, complete)) answer q =
          scanned-Reads rows complete (scan_rows listing.scan rows) answer refl q

  Reads-read :
      {R : Type 0} (listing : Listing R) (query : String) (args : List Value) (p : Pool db)
      (rs : List R)
      → Reads listing.scan query args p rs
      → read_list db listing (query, args) p ≡ (ok rs, p)
  unfolding scan_rows
  Reads-read listing query args p rs h =
      rw (h.answer, Scans-scan_rows listing.scan h.rows rs h.scans)

  connected :
      {A : Type 0} (f : Call (Pool db) A) (p : Pool db)
      → p.read_ready ≡ true
      → (connect_read db >> f) p ≡ f p
  unfolding connect_read_db
  connected f p ready = rw ready

  unconnected :
      {A : Type 0} (f : Call (Pool db) A) (p : Pool db)
      → p.read_ready ≡ false
      → (connect_read db >> f) p ≡ (err connect_failed, p)
  unfolding connect_read_db
  unconnected f p closed = rw closed

  -- A list of teachers or of execs is answered exactly if the database is there, runs the query, and
  -- each row that it yields scans; the list holds these rows in their order. Whether the rows came to
  -- their end or an error cut them short makes no difference.
  pub get_list_iff :
      {R : Type 0} (listing : Listing R) (columns : List String) (ps : Params) (p : Pool db)
      (rs : List R)
      → (get_list db listing columns ps p ≡ (ok rs, p))
        ↔ Reads listing.scan
            (list_query listing.base columns ps).0
            (list_query listing.base columns ps).1
            p
            rs
  unfolding get_list connect_read_db
  get_list_iff listing columns ps p rs = (
    λ h. elim (Bool-cases p.read_ready) [
      | inl ready ↦
          read-Reads listing (list_query listing.base columns ps).0
            (list_query listing.base columns ps).1 p rs ready
            (sym (connected (read_list db listing (list_query listing.base columns ps)) p ready)
              ∙ h)
      | inr closed ↦
          (let e =
              unconnected (read_list db listing (list_query listing.base columns ps)) p closed in
            cc)
    ],
    λ h.
        connected (read_list db listing (list_query listing.base columns ps)) p h.is_ready
        ∙ Reads-read listing (list_query listing.base columns ps).0
            (list_query listing.base columns ps).1 p rs h,
  )
