-- ===== src/Cache/Coherent.antt =====
-- The cache is transparent: it answers what the loader would, as long as what it holds is current, and
-- an invalidation forgets every key of the pattern.
use student_system_go.Common.{
  ◌≡◌, ◌≢◌, refl, ◌∙◌, not, ◌&&◌, ◌||◌, code, ◌==◌, sym, ap, ◌⊎◌, inl, inr, String, Bool, true,
  false, some, List, [], ◌∷◌, if◌then◌else◌,
}
use mathlib.Core.Path.{subst}
use student_system_go.Common.Text.{◌<>◌, has_prefix}
use student_system_go.Go.{Result, ok, err, panic}
use student_system_go.Cache.{
  Got, hit, absent, down, Redis, Codec, Client, load_and_assign, get_or_fetch, refresh, put, on_got,
  on_hit, scanned, invalidate, invalidate_pattern,
}

-- No character of a glob pattern is special.
unfoldable pub is_plain : String → Bool
is_plain String.[] = true
is_plain (String.◌∷◌ c s) =
    not (code c == b'*' || code c == b'?' || code c == b'[' || code c == b'\\') && is_plain s

abbrev pub IsIn : String → List String → Type 0
IsIn s [] = ⊥
IsIn s (t ∷ ts) = (s ≡ t) ⊎ IsIn s ts

-- What is documented of Redis.
pub record IsRedis (redis : Redis) : Type 0 where
  -- a SET stores the value or, if it fails, changes nothing
  pub set_get :
      (key value k text : String) (s : redis.S)
      → redis.get k (redis.set key value s) ≡ hit text
      → ((k ≡ key) × (text ≡ value)) ⊎ (redis.get k s ≡ hit text)
  pub del_get :
      (keys : List String) (k text : String) (s : redis.S)
      → redis.get k (redis.del keys s) ≡ hit text
      → redis.get k s ≡ hit text
  -- a SCAN that ends without an error returns every key of the pattern
  pub scan_complete :
      (prefix k text : String) (s : redis.S) (keys : List String)
      → redis.scan (prefix <> "*") s ≡ some keys
      → is_plain prefix ≡ true
      → has_prefix k prefix ≡ true
      → redis.get k s ≡ hit text
      → IsIn k keys

-- What a caller sees of what was loaded: a value is written as JSON and read back into a zero value,
-- which leaves the fields with the tag `json:"-"` at zero. An error is seen as it is.
abbrev pub Seen : {A : Type 0} → Codec A → Result A → Result A → Type 0
Seen {A} codec (ok value) seen =
    (bytes : String) × (a : A) × (codec.marshal value ≡ ok bytes)
    × (codec.unmarshal bytes codec.zero_value ≡ (ok tt, a))
    × (seen ≡ ok a)
Seen codec (err message) seen = seen ≡ err message
Seen codec panic seen = seen ≡ panic

module _ {redis : Redis} (laws : IsRedis redis) {A : Type 0} (codec : Codec A) where
  -- What a GET delivers, if anything, is what the caller would see of the loader's result.
  abbrev pub FreshGot : Result A → Got → Type 0
  FreshGot seen (hit text) =
      (a : A) × (codec.unmarshal text codec.zero_value ≡ (ok tt, a)) × (seen ≡ ok a)
  FreshGot seen absent = Unit
  FreshGot seen down = Unit

  abbrev pub IsFresh : String → Result A → Client redis → Type 0
  IsFresh key seen c = FreshGot seen (redis.get key c.store)

  -- The cache is transparent.
  abbrev pub Answers : String → Result A → Result A × Client redis → Type 0
  Answers key seen x = (x.0 ≡ seen) × IsFresh key seen x.1

  refresh-value :
      (key bytes : String) (value a : A) (c : Client redis)
      → codec.marshal value ≡ ok bytes
      → codec.unmarshal bytes codec.zero_value ≡ (ok tt, a)
      → refresh redis codec key codec.zero_value (ok value) c ≡ (ok a, put redis codec key bytes c)
  refresh-value key bytes value a c m u = rw (m, u, refresh)

  hit-FreshGot :
      (seen : Result A) (text : String) (g : Got)
      → g ≡ hit text
      → FreshGot seen g
      → FreshGot seen (hit text)
  hit-FreshGot seen text g h fresh = subst (FreshGot seen) h fresh

  put-FreshGot :
      (key bytes : String) (a : A) (c : Client redis)
      → codec.unmarshal bytes codec.zero_value ≡ (ok tt, a)
      → IsFresh key (ok a) c
      → (g : Got) → redis.get key (redis.set key bytes c.store) ≡ g
      → FreshGot (ok a) g
  put-FreshGot key bytes a c u fresh absent h = tt
  put-FreshGot key bytes a c u fresh down h = tt
  put-FreshGot key bytes a c u fresh (hit text) h =
      elim (laws.set_get key bytes key text c.store h) [
        | inl (here, stored) ↦ (a, ap (λ x. codec.unmarshal x codec.zero_value) stored ∙ u, refl)
        | inr before ↦ hit-FreshGot (ok a) text (redis.get key c.store) before fresh
      ]

  refresh-Answers :
      (key : String) (loaded seen : Result A) (c : Client redis)
      → Seen codec loaded seen
      → IsFresh key seen c
      → Answers key seen (refresh redis codec key codec.zero_value loaded c)
  refresh-Answers key (err message) seen c sees fresh = (sym sees, fresh)
  refresh-Answers key panic seen c sees fresh = (sym sees, fresh)
  refresh-Answers key (ok value) seen c (bytes, a, m, u, sees) fresh =
      subst (λ r. Answers key r (refresh redis codec key codec.zero_value (ok value) c)) (sym sees)
        (subst (Answers key (ok a)) (sym (refresh-value key bytes value a c m u)) (
          refl,
          put-FreshGot key bytes a c u (subst (λ r. IsFresh key r c) sees fresh)
              (redis.get key (redis.set key bytes c.store)) refl,
        ))

  on_got-Answers :
      (key : String) (loaded seen : Result A) (c : Client redis)
      → Seen codec loaded seen
      → IsFresh key seen c
      → (g : Got) → redis.get key c.store ≡ g
      → Answers key seen (on_got redis codec key loaded g c)
  on_got-Answers key loaded seen c sees fresh absent h =
      refresh-Answers key loaded seen c sees fresh
  on_got-Answers key loaded seen c sees fresh down h = refresh-Answers key loaded seen c sees fresh
  on_got-Answers key loaded seen c sees fresh (hit text) h =
      let (a, decoded, current) = hit-FreshGot seen text (redis.get key c.store) h fresh in
      subst (λ x. Answers key seen (on_hit redis codec key loaded x c)) (sym decoded)
        (sym current, fresh)

  load_and_assign-value :
      (loaded seen : Result A)
      → Seen codec loaded seen
      → load_and_assign codec codec.zero_value loaded ≡ seen
  load_and_assign-value (err message) seen sees = sym sees
  load_and_assign-value panic seen sees = sym sees
  load_and_assign-value (ok value) seen (bytes, a, m, u, sees) =
      (rw (m, u, load_and_assign)) ∙ sym sees

  -- The cache is transparent: if what is held under the key, if anything, decodes to what the caller
  -- would see of the loader's result, then `GetOrFetch` returns exactly that (the loader's errors
  -- included, and whether or not Redis answers), and what is held stays so. The JSON of the loaded value
  -- must be one that decodes, though not to the same value.
  pub get_or_fetch-Answers :
      (key : String) (loaded seen : Result A) (c : Client redis)
      → Seen codec loaded seen
      → IsFresh key seen c
      → Answers key seen (get_or_fetch redis codec key loaded c)
  unfolding get_or_fetch
  get_or_fetch-Answers key loaded seen c sees fresh = go c.ready
    where
      at : Bool → Client redis
      at b = record c { ready = b }

      go : (b : Bool) → Answers key seen (get_or_fetch redis codec key loaded (at b))
      go false = (load_and_assign-value loaded seen sees, fresh)
      go true = on_got-Answers key loaded seen (at true) sees fresh (redis.get key c.store) refl

module _ {redis : Redis} (laws : IsRedis redis) where
  scanned-forgets :
      (prefix k text : String) (keys : List String) (c : Client redis)
      → c.ready ≡ true
      → redis.scan (prefix <> "*") c.store ≡ some keys
      → is_plain prefix ≡ true
      → ((j : String) → IsIn j keys → (t : String) → redis.get j (redis.del keys c.store) ≢ hit t)
      → has_prefix k prefix ≡ true
      → redis.get k (invalidate redis keys c).store ≢ hit text
  unfolding invalidate
  scanned-forgets prefix k text [] c up h plain done inside held =
      absurd (laws.scan_complete prefix k text c.store [] h plain inside held)
  scanned-forgets prefix k text (key ∷ keys) c up h plain done inside held =
      let still = rw up at held in
      let before = laws.del_get (key ∷ keys) k text c.store still in
      done k (laws.scan_complete prefix k text c.store (key ∷ keys) h plain inside before) text
        still

  -- An invalidation forgets every key of the pattern: when Redis is connected, its scan ends and its
  -- deletion is done, no key that begins with the prefix is held afterwards.
  pub invalidate_pattern-forgets :
      (prefix k text : String) (keys : List String) (c : Client redis)
      → c.ready ≡ true
      → redis.scan (prefix <> "*") c.store ≡ some keys
      → is_plain prefix ≡ true
      → ((j : String) → IsIn j keys → (t : String) → redis.get j (redis.del keys c.store) ≢ hit t)
      → has_prefix k prefix ≡ true
      → redis.get k (invalidate_pattern redis (prefix <> "*") c).store ≢ hit text
  unfolding invalidate_pattern
  invalidate_pattern-forgets prefix k text keys c up h plain done inside held =
      let step : invalidate_pattern redis (prefix <> "*") c ≡ invalidate redis keys c =
        ap (λ b. if b then scanned redis (redis.scan (prefix <> "*") c.store) c else c) up
        ∙ ap (λ o. scanned redis o c) h in
      scanned-forgets prefix k text keys c up h plain done inside
        (ap (λ (d : Client redis). redis.get k d.store) (sym step) ∙ held)
