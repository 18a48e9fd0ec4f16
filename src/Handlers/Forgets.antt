-- ===== src/Handlers/Forgets.antt =====
-- The handlers that write the rows of a table and the cached lists of that table.
use student_system_go.Common.{ℕ, ◌≡◌, ◌≢◌, refl, ◌∙◌, sym, ap, String, true, some, List, arith}
use student_system_go.Common.Text.{◌<>◌, has_prefix-append, has_prefix}
use student_system_go.Go.{Result, ok, err, panic, Call}
use student_system_go.Common.Int.{ℤ}
use student_system_go.Sql.{Sql, Pool}
use student_system_go.Cache.{
  Got, hit, absent, down, Redis, Client, Codec, key_prefix, get_or_fetch, invalidate_pattern,
}
use student_system_go.Cache.Coherent.{
  IsRedis, IsIn, FreshGot, IsFresh, Seen, is_plain, get_or_fetch-Answers,
  invalidate_pattern-forgets,
}
use text.Mathlib.TextLemmas.{append_assoc}
use mathlib.Core.Path.{subst}
use student_system_go.Entity.{Entity}
use student_system_go.Http.{Reply, failed, sent, closed, World, authorize_user, with_role}
use student_system_go.Handlers.{
  Request, Routes, forget, list_key, loaded, get_all, add, update, patch_one, delete_one, patch_all,
  delete_all,
}

abbrev pub forgotten : (redis : Redis) → Routes → Client redis → Client redis
forgotten redis routes c = invalidate_pattern redis (key_prefix <> routes.list_prefix <> "*") c

module _ (db : Sql) (redis : Redis) (routes : Routes) where
  -- The cache after a handler: the lists are forgotten if it answers with success, else it is as it was.
  abbrev pub ForgetsLists : {A : Type 0} → Client redis → Reply A × World db redis → Type 0
  ForgetsLists c (sent status a, w) = w.client ≡ forgotten redis routes c
  ForgetsLists c (failed status message, w) = w.client ≡ c
  ForgetsLists c (closed, w) = w.client ≡ c

module _ (db : Sql) (redis : Redis) {R : Type 0} (e : Entity R) (routes : Routes) where
  abbrev pub AllForget : (List R → Call (Pool db) (List R)) → Request → World db redis → Type 0
  AllForget insert r w =
      ForgetsLists db redis routes w.client (add db redis e routes insert r w)
      × ForgetsLists db redis routes w.client (update db redis e routes r w)
      × ForgetsLists db redis routes w.client (patch_one db redis e routes r w)
      × ForgetsLists db redis routes w.client (delete_one db redis e routes r w)
      × ForgetsLists db redis routes w.client (patch_all db redis e routes r w)
      × ForgetsLists db redis routes w.client (delete_all db redis e routes r w)

  -- The six handlers that add, update, patch and delete the rows of a table, the two bulk ones among
  -- them, forget the cached lists of the table exactly when they answer with success; when one answers
  -- with an error, or panics, the cache is as it was.
  pub handlers-AllForget :
      (insert : List R → Call (Pool db) (List R)) (r : Request) (w : World db redis)
      → AllForget insert r w
  unfolding add update patch_one delete_one patch_all delete_all with_role forget
  handlers-AllForget insert r w =
      (ground arith, ground arith, ground arith, ground arith, ground arith, ground arith)

  -- One of the six handlers has led from the world `w` to the world `v` and answered with success.
  pub data Wrote (insert : List R → Call (Pool db) (List R)) (w v : World db redis) : Type 0 where
    added :
        (r : Request) (status : ℕ) (rows : List R)
        → add db redis e routes insert r w ≡ (sent status rows, v)
        → Wrote insert w v
    updated :
        (r : Request) (status : ℕ) (new : R)
        → update db redis e routes r w ≡ (sent status new, v)
        → Wrote insert w v
    patched :
        (r : Request) (status : ℕ) (new : R)
        → patch_one db redis e routes r w ≡ (sent status new, v)
        → Wrote insert w v
    deleted :
        (r : Request) (status : ℕ)
        → delete_one db redis e routes r w ≡ (sent status tt, v)
        → Wrote insert w v
    all_patched :
        (r : Request) (status : ℕ)
        → patch_all db redis e routes r w ≡ (sent status tt, v)
        → Wrote insert w v
    all_deleted :
        (r : Request) (status : ℕ) (ids : List ℤ)
        → delete_all db redis e routes r w ≡ (sent status ids, v)
        → Wrote insert w v

  Wrote-forgotten :
      (insert : List R → Call (Pool db) (List R)) (w v : World db redis)
      → Wrote insert w v
      → v.client ≡ forgotten redis routes w.client
  Wrote-forgotten insert w v (added r status rows h) =
      subst (ForgetsLists db redis routes w.client) h (handlers-AllForget insert r w).0
  Wrote-forgotten insert w v (updated r status new h) =
      subst (ForgetsLists db redis routes w.client) h (handlers-AllForget insert r w).1
  Wrote-forgotten insert w v (patched r status new h) =
      subst (ForgetsLists db redis routes w.client) h (handlers-AllForget insert r w).2
  Wrote-forgotten insert w v (deleted r status h) =
      subst (ForgetsLists db redis routes w.client) h (handlers-AllForget insert r w).3
  Wrote-forgotten insert w v (all_patched r status h) =
      subst (ForgetsLists db redis routes w.client) h (handlers-AllForget insert r w).4
  Wrote-forgotten insert w v (all_deleted r status ids h) =
      subst (ForgetsLists db redis routes w.client) h (handlers-AllForget insert r w).5

-- What a list handler answers with what was loaded.
abbrev pub list_reply : {A : Type 0} → Result A → Reply A
list_reply (ok a) = sent 200 a
list_reply (err message) = failed 500 message
list_reply panic = closed

abbrev pub list_keys : Routes → String
list_keys routes = key_prefix <> routes.list_prefix

module _ {redis : Redis} (laws : IsRedis redis) (routes : Routes) where
  forgotten-IsFresh :
      {A : Type 0} (codec : Codec A) (seen : Result A) (query : String) (keys : List String)
      (c : Client redis)
      → c.ready ≡ true
      → redis.scan (list_keys routes <> "*") c.store ≡ some keys
      → is_plain (list_keys routes) ≡ true
      → ((j : String) → IsIn j keys → (t : String) → redis.get j (redis.del keys c.store) ≢ hit t)
      → IsFresh laws codec (list_key routes query) seen (forgotten redis routes c)
  forgotten-IsFresh codec seen query keys c up scans plain done =
      go (redis.get (list_key routes query) (forgotten redis routes c).store) refl
    where
      key : list_keys routes <> query ≡ list_key routes query
      key = append_assoc key_prefix routes.list_prefix query

      pattern : list_keys routes <> "*" ≡ list_key routes "*"
      pattern = append_assoc key_prefix routes.list_prefix "*"

      inside : has_prefix (list_key routes query) (list_keys routes) ≡ true
      inside =
          ap (λ k. has_prefix k (list_keys routes)) (sym key)
          ∙ has_prefix-append (list_keys routes) query

      go :
          (g : Got)
          → redis.get (list_key routes query) (forgotten redis routes c).store ≡ g
          → FreshGot laws codec seen g
      go absent held = tt
      go down held = tt
      go (hit text) held = absurd (
          invalidate_pattern-forgets laws (list_keys routes) (list_key routes query) text keys c up
            scans plain done inside
            (ap (λ p. redis.get (list_key routes query) (invalidate_pattern redis p c).store)
                pattern
              ∙ held))

  loaded-reply :
      {A : Type 0} {db : Sql} (x : Result A × Client redis) (w : World db redis)
      → (loaded {db = db} x w).0 ≡ list_reply x.0
  loaded-reply (ok a, c) w = refl
  loaded-reply (err message, c) w = refl
  loaded-reply (panic, c) w = refl

  -- A list that is read after a write comes from the database: when one of the six handlers has
  -- changed the table and answered with success, and Redis was connected, its scan ended and its
  -- deletion was done, then the next request for a list, by a role that may read it, is answered with
  -- what the loader reads from the replica at that time, and not from the cache. The JSON of what is
  -- loaded must be one that decodes.
  pub get_all-after :
      {A R : Type 0} {db : Sql} (e : Entity R) (codec : Codec A) (load : Pool db → Result A)
      (insert : List R → Call (Pool db) (List R)) (r : Request) (role : String) (seen : Result A)
      (keys : List String) (w v : World db redis)
      → Wrote db redis e routes insert w v
      → Seen codec (load v.pool) seen
      → r.role ≡ some role
      → authorize_user role routes.read_roles ≡ true
      → w.client.ready ≡ true
      → redis.scan (list_keys routes <> "*") w.client.store ≡ some keys
      → is_plain (list_keys routes) ≡ true
      → ((j : String)
          → IsIn j keys
          → (t : String) → redis.get j (redis.del keys w.client.store) ≢ hit t)
      → (get_all db redis e routes codec load r v).0 ≡ list_reply seen
  unfolding get_all with_role
  get_all-after {db = db} e codec load insert r role seen keys w v wrote sees has may up scans plain
        done =
      let key = list_key routes r.raw_query in
      let fresh = forgotten-IsFresh codec seen r.raw_query keys w.client up scans plain done in
      let answers = get_or_fetch-Answers laws codec key (load v.pool) seen v.client sees (
        subst (IsFresh laws codec key seen)
          (sym (Wrote-forgotten db redis e routes insert w v wrote)) fresh) in
      rw (has, may)
        (loaded-reply (get_or_fetch redis codec key (load v.pool) v.client) v
          ∙ ap list_reply answers.0)
