-- ===== src/Router/Apart.antt =====
-- No request matches two routes.
use student_system_go.Common.{
  ◌≡◌, ◌≢◌, refl, sym, ap, ◌∙◌, ◌⊎◌, inl, inr, String, Bool, true, false, ◌&&◌, ◌||◌, not, some,
  List, [], ◌∷◌, ◌++◌, if◌then◌else◌, Bool-cases, eq_iff,
}
use student_system_go.Common.Text.{same, split, cut_at, has_prefix}
use student_system_go.Router.{
  Segment, literal, wildcard, Pattern, parse_pattern, matches_segment, matches_segments,
  matches_method, matches, Table, Routed, teachers_router, students_router, execs_router,
  find_route, has_path, handled, not_found, method_not_allowed, main_router, or_else,
}

abbrev apart_segment : Segment → Segment → Bool
apart_segment (literal s) (literal t) = not (same s t)
apart_segment (literal s) wildcard = same s ""
apart_segment wildcard (literal t) = same t ""
apart_segment wildcard wildcard = false

abbrev apart_segments : List Segment → List Segment → Bool
apart_segments [] [] = false
apart_segments (p ∷ ps) (q ∷ qs) = apart_segment p q || apart_segments ps qs
apart_segments _ _ = true

abbrev apart_methods : String → String → Bool
apart_methods a b =
    not (same a b) && (not (same a "GET" && same b "HEAD") && not (same a "HEAD" && same b "GET"))

-- Two patterns that no request matches both.
abbrev apart : Pattern → Pattern → Bool
apart p q = apart_methods p.method q.method || apart_segments p.segments q.segments

abbrev apart_from : String → Table → Bool
apart_from text [] = true
apart_from text ((other, name) ∷ table) =
    apart (parse_pattern text) (parse_pattern other) && apart_from text table

abbrev all_apart : Table → Bool
all_apart [] = true
all_apart ((text, name) ∷ table) = apart_from text table && all_apart table

abbrev pub IsRoute : String × String → Table → Type 0
IsRoute a [] = ⊥
IsRoute a (b ∷ table) = (a ≡ b) ⊎ IsRoute a table

apart_segment-no :
    (p q : Segment) (s : String)
    → apart_segment p q ≡ true
    → matches_segment p s ≡ true
    → matches_segment q s ≢ true
apart_segment-no (literal t) (literal u) s h a b =
    let e1 = (eq_iff s t).0 a in
    let e2 = (eq_iff s u).0 b in let e3 = (eq_iff t u).1 (sym e1 ∙ e2) in cc
apart_segment-no (literal t) wildcard s h a b =
    let e1 = (eq_iff s t).0 a in
    let e2 = (eq_iff t "").0 h in let e3 = (eq_iff s "").1 (e1 ∙ e2) in cc
apart_segment-no wildcard (literal u) s h a b =
    let e1 = (eq_iff s u).0 b in
    let e2 = (eq_iff u "").0 h in let e3 = (eq_iff s "").1 (e1 ∙ e2) in cc
apart_segment-no wildcard wildcard s h a b = cc

and-true : (a b : Bool) → (a && b) ≡ true → (a ≡ true) × (b ≡ true)
and-true true b h = (refl, h)
and-true false b h = cc

or-true : (a b : Bool) → (a || b) ≡ true → (a ≡ true) ⊎ (b ≡ true)
or-true true b h = inl refl
or-true false b h = inr h

apart_segments-no :
    (ps qs : List Segment) (ss : List String)
    → apart_segments ps qs ≡ true
    → matches_segments ps ss ≡ true
    → matches_segments qs ss ≢ true
apart_segments-no [] [] ss h a b = cc
apart_segments-no [] (q ∷ qs) [] h a b = cc
apart_segments-no [] (q ∷ qs) (s ∷ ss) h a b = cc
apart_segments-no (p ∷ ps) [] [] h a b = cc
apart_segments-no (p ∷ ps) [] (s ∷ ss) h a b = cc
apart_segments-no (p ∷ ps) (q ∷ qs) [] h a b = cc
apart_segments-no (p ∷ ps) (q ∷ qs) (s ∷ ss) h a b =
    let (a1, a2) = and-true (matches_segment p s) (matches_segments ps ss) a in
    let (b1, b2) = and-true (matches_segment q s) (matches_segments qs ss) b in
    elim (or-true (apart_segment p q) (apart_segments ps qs) h) [
      | inl here ↦ apart_segment-no p q s here a1 b1
      | inr later ↦ apart_segments-no ps qs ss later a2 b2
    ]

apart_methods-no :
    (a b m : String)
    → apart_methods a b ≡ true
    → matches_method a m ≡ true
    → matches_method b m ≢ true
apart_methods-no a b m h k l =
    let (differ, rest) =
      and-true (not (same a b))
        (not (same a "GET" && same b "HEAD") && not (same a "HEAD" && same b "GET")) h in
    let (get_head, head_get) =
      and-true (not (same a "GET" && same b "HEAD")) (not (same a "HEAD" && same b "GET")) rest in
    elim (or-true (same m a) (same a "GET" && same m "HEAD") k) [
      | inl ma ↦ elim (or-true (same m b) (same b "GET" && same m "HEAD") l) [
        | inl mb ↦ let e = (eq_iff a b).1 (sym ((eq_iff m a).0 ma) ∙ (eq_iff m b).0 mb) in cc
        | inr both ↦
            let (b_get, m_head) = and-true (same b "GET") (same m "HEAD") both in
            let e = (eq_iff a "HEAD").1 (sym ((eq_iff m a).0 ma) ∙ (eq_iff m "HEAD").0 m_head) in
            cc (rw (e, b_get) at head_get)
      ]
      | inr both ↦
          let (a_get, m_head) = and-true (same a "GET") (same m "HEAD") both in
          elim (or-true (same m b) (same b "GET" && same m "HEAD") l) [
            | inl mb ↦
                let e =
                  (eq_iff b "HEAD").1 (sym ((eq_iff m b).0 mb) ∙ (eq_iff m "HEAD").0 m_head) in
                cc (rw (a_get, e) at get_head)
            | inr other ↦
                let (b_get, m_head2) = and-true (same b "GET") (same m "HEAD") other in
                let e =
                  (eq_iff a b).1 ((eq_iff a "GET").0 a_get ∙ sym ((eq_iff b "GET").0 b_get)) in
                cc
          ]
    ]

apart-no :
    (p q : Pattern) (m : String) (ss : List String)
    → apart p q ≡ true
    → matches p m ss ≡ true
    → matches q m ss ≢ true
apart-no p q m ss h a b =
    let (a1, a2) = and-true (matches_method p.method m) (matches_segments p.segments ss) a in
    let (b1, b2) = and-true (matches_method q.method m) (matches_segments q.segments ss) b in
    elim (or-true (apart_methods p.method q.method) (apart_segments p.segments q.segments) h) [
      | inl methods ↦ apart_methods-no p.method q.method m methods a1 b1
      | inr segments ↦ apart_segments-no p.segments q.segments ss segments a2 b2
    ]

apart_from-no :
    (text : String) (table : Table) (a : String × String) (m : String) (ss : List String)
    → apart_from text table ≡ true
    → IsRoute a table
    → matches (parse_pattern text) m ss ≡ true
    → matches (parse_pattern a.0) m ss ≢ true
apart_from-no text [] a m ss h here k l = absurd here
apart_from-no text ((other, name) ∷ table) a m ss h (inl here) k l =
    apart-no (parse_pattern text) (parse_pattern other) m ss
      (and-true (apart (parse_pattern text) (parse_pattern other)) (apart_from text table) h).0 k
      (sym (ap (λ (x : String × String). matches (parse_pattern x.0) m ss) here) ∙ l)
apart_from-no text ((other, name) ∷ table) a m ss h (inr later) k l =
    apart_from-no text table a m ss
      (and-true (apart (parse_pattern text) (parse_pattern other)) (apart_from text table) h).1
      later k l

find_route_unique :
    (table : Table) (a : String × String) (m : String) (ss : List String)
    → all_apart table ≡ true
    → IsRoute a table
    → matches (parse_pattern a.0) m ss ≡ true
    → find_route table m ss ≡ some a
find_route_unique [] a m ss h here l = absurd here
find_route_unique ((text, name) ∷ table) a m ss h (inl here) l =
    let l2 = sym (ap (λ (x : String × String). matches (parse_pattern x.0) m ss) here) ∙ l in
    rw l2 (ap some (sym here))
find_route_unique ((text, name) ∷ table) a m ss h (inr later) l =
    let (first, rest) = and-true (apart_from text table) (all_apart table) h in
    elim (Bool-cases (matches (parse_pattern text) m ss)) [
      | inl both ↦ absurd (apart_from-no text table a m ss first later both l)
      | inr other ↦ rw other (find_route_unique table a m ss rest later l)
    ]

find_route-append :
    (xs ys : Table) (m : String) (ss : List String) (rest : Routed)
    → or_else (find_route (xs ++ ys) m ss) rest
      ≡ or_else (find_route xs m ss) (or_else (find_route ys m ss) rest)
find_route-append [] ys m ss rest = refl
find_route-append ((text, name) ∷ xs) ys m ss rest =
    elim (Bool-cases (matches (parse_pattern text) m ss)) [
      | inl here ↦ rw here
      | inr other ↦ rw other (find_route-append xs ys m ss rest)
    ]

abbrev pub all_routes : Table
all_routes = teachers_router ++ (students_router ++ execs_router)

routes_apart : all_apart all_routes ≡ true
unfolding parse_pattern split has_prefix cut_at
routes_apart = refl

three_tables-handle :
    (xs ys zs : Table) (text name m : String) (ss : List String) (rest : Routed)
    → all_apart (xs ++ (ys ++ zs)) ≡ true
    → IsRoute (text, name) (xs ++ (ys ++ zs))
    → matches (parse_pattern text) m ss ≡ true
    → or_else
        (find_route xs m ss)
        (or_else (find_route ys m ss) (or_else (find_route zs m ss) rest))
      ≡ handled text name
three_tables-handle xs ys zs text name m ss rest separate here l =
    ap (or_else (find_route xs m ss)) (sym (find_route-append ys zs m ss rest))
    ∙ sym (find_route-append xs (ys ++ zs) m ss rest)
    ∙ ap (λ o. or_else o rest)
        (find_route_unique (xs ++ (ys ++ zs)) (text, name) m ss separate here l)

-- A request that a pattern of the tables matches is handled by the handler of this pattern, whichever it is
-- and in whichever table: no request matches two of them, so neither their order, nor the nesting of the
-- three muxes, nor the rule by which a mux prefers one of two patterns makes a difference.
pub main_router-handles :
    (method path text name : String)
    → IsRoute (text, name) all_routes
    → matches (parse_pattern text) method (split b'/' path) ≡ true
    → main_router method path ≡ handled text name
unfolding main_router
main_router-handles method path text name here l =
    three_tables-handle teachers_router students_router execs_router text name method
      (split b'/' path)
      (if has_path execs_router (split b'/' path) then method_not_allowed else not_found)
      routes_apart here l
