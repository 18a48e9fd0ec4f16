-- ===== src/Server/Twice.antt =====
-- What `Compression` does for a client that does not ask for gzip.
use student_system_go.Common.{
  ℕ, ◌≡◌, refl, ap, ◌∙◌, String, true, false, Option, some, List, [], ◌∷◌, ◌++◌, arith,
}
use student_system_go.Common.Text.{contains}
use student_system_go.Server.{
  Action, set_header, write_header, write, Writer, perform, perform_all, fresh_writer, Request, Ran,
  Served,
}
use student_system_go.Server.Layers.{Gzip, gzipped_actions, compression}

abbrev Start : Type 0
Start = Option (ℕ × List (String × String))

-- A status that was sent stays, with its headers.
perform-start :
    (a : Action) (w : Writer) (status : ℕ) (headers : List (String × String))
    → w.start ≡ some (status, headers)
    → (perform a w).start ≡ some (status, headers)
perform-start (set_header k v) w status headers h = h
perform-start (write_header n) w status headers h = rw h
perform-start (write bytes) w status headers h = ground arith

perform_all-start :
    (acts : List Action) (w : Writer) (status : ℕ) (headers : List (String × String))
    → w.start ≡ some (status, headers)
    → (perform_all acts w).start ≡ some (status, headers)
unfolding perform_all
perform_all-start [] w status headers h = h
perform_all-start (a ∷ acts) w status headers h =
    perform_all-start acts (perform a w) status headers (perform-start a w status headers h)

perform_all-append :
    (acts bs : List Action) (w : Writer)
    → perform_all (acts ++ bs) w ≡ perform_all bs (perform_all acts w)
unfolding perform_all
perform_all-append [] bs w = refl
perform_all-append (a ∷ acts) bs w = perform_all-append acts bs (perform a w)

start-append :
    (acts bs : List Action) (w : Writer) (status : ℕ) (headers : List (String × String))
    → (perform_all acts w).start ≡ some (status, headers)
    → (perform_all (acts ++ bs) w).start ≡ some (status, headers)
start-append acts bs w status headers h =
    ap (λ (v : Writer). v.start) (perform_all-append acts bs w)
    ∙ perform_all-start bs (perform_all acts w) status headers h

-- The status and the headers that a client receives.
unfoldable pub received : {C : Type 0} → Ran C → Start
unfolding perform_all
received n = (perform_all n.actions fresh_writer).start

received-append :
    {C : Type 0} (n m : Ran C) (bs : List Action) (status : ℕ) (headers : List (String × String))
    → m.actions ≡ n.actions ++ bs
    → received n ≡ some (status, headers)
    → received m ≡ some (status, headers)
unfolding received
received-append n m bs status headers more h =
    ap (λ acts. (perform_all acts fresh_writer).start) more
    ∙ start-append n.actions bs fresh_writer status headers h

module _ {C W : Type 0} (gzip : Gzip) (next : Served C W) where
  -- A client that does not name gzip in Accept-Encoding has its request handled twice: the second run
  -- starts in the state and on the request that the first one has left, and what it leaves is the state
  -- after the request. The client sees the status and the headers of the first run, if that has sent
  -- any. A client that names gzip has its request handled once, and nothing is compressed.
  pub compression-Twice :
      (r : Request C) (w : W)
      → (contains r.accept_encoding "gzip" ≡ true → compression gzip next r w ≡ next r w)
        × (contains r.accept_encoding "gzip" ≡ false
            → (next r w).0.panicked ≡ false
            → ((compression gzip next r w).1 ≡ (next (next r w).0.left (next r w).1).1)
              × ((status : ℕ) (headers : List (String × String))
                  → received (next r w).0 ≡ some (status, headers)
                  → received (compression gzip next r w).0 ≡ some (status, headers)))
  unfolding compression
  compression-Twice r w = (
    λ asks. rw asks,
    λ plain ran. (
      rw (plain, ran),
      λ status headers h.
          rw (plain, ran)
            (received-append (next r w).0 _
              (gzipped_actions gzip (next (next r w).0.left (next r w).1).0.actions) status headers
              refl h),
    ),
  )
