-- ===== src/Server/Mux/Laws.antt =====
-- What the mux finds is a pattern of its table that fits the request.
use chatroom_server.Base.{
  ◌≡◌, ◌⊎◌, refl, sym, ap, String, true, Option, none, some, List, [], ◌∷◌, All, arith, Bool-cases,
  Option-cases, inl, inr,
}
use mathlib.Core.Path.{subst}
use chatroom_server.Server.Mux.{
  Segment, lit, wild, rest, Pattern, Branch, found, literal, wildcard, leaf, slash, ending,
  match_path, same_method, with_method, match_method, find_handler, allows_another,
}
use text.Mathlib.Text.{◌==◌}
use text.Mathlib.TextEquality.{eq_iff}

-- The path is one that the pattern's path takes.
abbrev pub Fits : List Segment → List String → Type 0
Fits [] [] = Unit
Fits [] (s ∷ path) = ⊥
Fits (lit t ∷ segs) [] = ⊥
Fits (lit t ∷ segs) (s ∷ path) = (t ≡ s) × Fits segs path
Fits (wild n ∷ segs) [] = ⊥
Fits (wild n ∷ segs) (s ∷ path) = Fits segs path
Fits (rest ∷ segs) [] = ⊥
Fits (rest ∷ segs) (s ∷ path) = Unit

same_method-≡ : (m n : Option String) → same_method m n ≡ true → n ≡ m
same_method-≡ none none e = refl
same_method-≡ none (some n) e = absurd (ground (arith, e))
same_method-≡ (some m) none e = absurd (ground (arith, e))
same_method-≡ (some m) (some n) e = ap some (sym ((eq_iff m n).0 e))

-- The methods that a pattern is for: HEAD goes where GET goes.
abbrev pub Takes : Option String → String → Type 0
Takes none m = Unit
Takes (some n) m = (n ≡ m) ⊎ ((n ≡ "GET") × (m ≡ "HEAD"))

module _ {A : Type 0} where
  -- A property of what is left of a pattern.
  abbrev Every : (List Segment → Pattern A → Type 0) → List (Branch A) → Type 0
  Every Q [] = Unit
  Every Q ((segs, p) ∷ bs) = Q segs p × Every Q bs

  Every-literal :
      (Q : List Segment → Pattern A → Type 0) (s : String) (bs : List (Branch A))
      → Every Q bs
      → Every (λ segs p. Q (lit s ∷ segs) p) (literal s bs)
  Every-literal Q s [] h = tt
  Every-literal Q s (([], p) ∷ bs) (q, h) = Every-literal Q s bs h
  Every-literal Q s ((lit t ∷ segs, p) ∷ bs) (q, h) = elim (Bool-cases (t == s)) [
    | inl e ↦ rw e (subst (λ x. Q (lit x ∷ segs) p) ((eq_iff t s).0 e) q, Every-literal Q s bs h)
    | inr e ↦ rw e (Every-literal Q s bs h)
  ]
  Every-literal Q s ((wild n ∷ segs, p) ∷ bs) (q, h) = Every-literal Q s bs h
  Every-literal Q s ((rest ∷ segs, p) ∷ bs) (q, h) = Every-literal Q s bs h

  -- Wildcards, whatever their names.
  Every-wildcard :
      (Q : List Segment → Pattern A → Type 0) (bs : List (Branch A))
      → Every Q bs
      → Every (λ segs p. (n : String) × Q (wild n ∷ segs) p) (wildcard bs)
  Every-wildcard Q [] h = tt
  Every-wildcard Q (([], p) ∷ bs) (q, h) = Every-wildcard Q bs h
  Every-wildcard Q ((lit t ∷ segs, p) ∷ bs) (q, h) = Every-wildcard Q bs h
  Every-wildcard Q ((wild n ∷ segs, p) ∷ bs) (q, h) = ((n, q), Every-wildcard Q bs h)
  Every-wildcard Q ((rest ∷ segs, p) ∷ bs) (q, h) = Every-wildcard Q bs h

  Every-leaf :
      (Q : List Segment → Pattern A → Type 0) (bs : List (Branch A)) (p : Pattern A)
      → Every Q bs
      → leaf bs ≡ some p
      → Q [] p
  Every-leaf Q [] p h e = absurd (ground (arith, e))
  Every-leaf Q (([], p') ∷ bs) p (q, h) e = subst (Q []) (ground (arith, e)) q
  Every-leaf Q ((s ∷ segs, p') ∷ bs) p (q, h) e = Every-leaf Q bs p h e

  Every-slash :
      (Q : List Segment → Pattern A → Type 0) (bs : List (Branch A)) (p : Pattern A)
      → Every Q bs
      → slash bs ≡ some p
      → (segs : List Segment) × Q (rest ∷ segs) p
  Every-slash Q [] p h e = absurd (ground (arith, e))
  Every-slash Q (([], p') ∷ bs) p (q, h) e = Every-slash Q bs p h e
  Every-slash Q ((lit t ∷ segs, p') ∷ bs) p (q, h) e = Every-slash Q bs p h e
  Every-slash Q ((wild n ∷ segs, p') ∷ bs) p (q, h) e = Every-slash Q bs p h e
  Every-slash Q ((rest ∷ segs, p') ∷ bs) p (q, h) e =
      (segs, subst (Q (rest ∷ segs)) (ground (arith, e)) q)

  ending-some :
      (m : Option (Pattern A)) (p : Pattern A) (vs : List String)
      → ending m ≡ some (p, vs)
      → m ≡ some p
  ending-some none p vs e = absurd (ground (arith, e))
  ending-some (some p') p vs e = ground (arith, e)

  -- Which of the three a match below a segment comes from.
  match_path-cases :
      (s : String) (path : List String) (bs : List (Branch A)) (p : Pattern A) (vs : List String)
      → match_path (s ∷ path) bs ≡ some (p, vs)
      → (match_path path (literal s bs) ≡ some (p, vs))
        ⊎ (((us : List String) × (match_path path (wildcard bs) ≡ some (p, us)))
            ⊎ (ending (slash bs) ≡ some (p, vs)))
  match_path-cases s path bs p vs e = elim (Option-cases (match_path path (literal s bs))) [
    | inr (x, here) ↦ inl (ground (arith, e, here))
    | inl missed ↦ elim (Bool-cases ("/" == s)) [
      | inl last ↦ inr (inr (ground (arith, e, missed, last)))
      | inr more ↦ elim (Option-cases (match_path path (wildcard bs))) [
        | inl none_below ↦ inr (inr (ground (arith, e, missed, more, none_below)))
        | inr ((p', us), below) ↦ inr (inl (us, ground (arith, e, missed, more, below)))
      ]
    ]
  ]

  match_path-Fits :
      (path : List String) (Q : List Segment → Pattern A → Type 0) (bs : List (Branch A))
      (p : Pattern A) (vs : List String)
      → Every Q bs
      → match_path path bs ≡ some (p, vs)
      → (segs : List Segment) × (Q segs p × Fits segs path)
  match_path-Fits [] Q bs p vs h e = ([], (Every-leaf Q bs p h (ending-some (leaf bs) p vs e), tt))
  match_path-Fits (s ∷ path) Q bs p vs h e = elim (match_path-cases s path bs p vs e) [
    | inl here ↦
        let (segs, (q, fits)) = match_path-Fits path _ _ p vs (Every-literal Q s bs h) here in
        (lit s ∷ segs, (q, (refl, fits)))
    | inr (inl (us, below)) ↦
        let (segs, ((n, q), fits)) = match_path-Fits path _ _ p us (Every-wildcard Q bs h) below in
        (wild n ∷ segs, (q, fits))
    | inr (inr last) ↦
        let (segs, q) = Every-slash Q bs p h (ending-some (slash bs) p vs last) in
        (rest ∷ segs, (q, tt))
  ]

  -- A pattern with the property, of a method, and its path.
  abbrev Named : (Pattern A → Type 0) → Option String → List Segment → Pattern A → Type 0
  Named R m segs p = R p × ((p.path ≡ segs) × (p.method ≡ m))

  Every-with_method :
      (R : Pattern A → Type 0) (m : Option String) (ps : List (Pattern A))
      → All R ps
      → Every (Named R m) (with_method m ps)
  Every-with_method R m [] h = tt
  Every-with_method R m (p ∷ ps) (r, h) = elim (Bool-cases (same_method m p.method)) [
    | inl e ↦ rw e ((r, (refl, same_method-≡ m p.method e)), Every-with_method R m ps h)
    | inr e ↦ rw e (Every-with_method R m ps h)
  ]

  match_method-cases :
      (m : String) (path : List String) (ps : List (Pattern A)) (p : Pattern A) (vs : List String)
      → match_method m path ps ≡ some (p, vs)
      → (n : Option String) × ((match_path path (with_method n ps) ≡ some (p, vs)) × Takes n m)
  match_method-cases m path ps p vs e =
      elim (Option-cases (match_path path (with_method (some m) ps))) [
        | inr (x, own) ↦ (some m, (ground (arith, e, own), inl refl))
        | inl missed ↦ elim (Bool-cases (m == "HEAD")) [
          | inr other ↦ (none, (ground (arith, e, missed, other), tt))
          | inl head ↦ elim (Option-cases (match_path path (with_method (some "GET") ps))) [
            | inr (x, gets) ↦ (
              some "GET",
              (ground (arith, e, missed, head, gets), inr (refl, (eq_iff m "HEAD").0 head)),
            )
            | inl lost ↦ (none, (ground (arith, e, missed, head, lost), tt))
          ]
        ]
      ]

  -- The found handler is that of a pattern that fits the request.
  pub find_handler-Fits :
      (R : Pattern A → Type 0) (m : String) (path : List String) (ps : List (Pattern A)) (a : A)
      (vs : List (String × String))
      → All R ps
      → find_handler m path ps ≡ found a vs
      → (p : Pattern A) × (R p × ((p.target ≡ a) × (Fits p.path path × Takes p.method m)))
  unfolding find_handler
  find_handler-Fits R m path ps a vs h e = elim (Option-cases (match_method m path ps)) [
    | inl missed ↦ elim (Bool-cases (allows_another path ps)) [
      | inl b ↦ absurd (ground (arith, e, missed, b))
      | inr b ↦ absurd (ground (arith, e, missed, b))
    ]
    | inr ((p, us), got) ↦
        let (n, (matched, takes)) = match_method-cases m path ps p us got in
        let (segs, ((r, (own_path, own_method)), fits)) =
          match_path-Fits path (Named R n) (with_method n ps) p us (Every-with_method R n ps h)
            matched in
        (
          p,
          (
            r,
            (
              ground (arith, e, got),
              (
                subst (λ x. Fits x path) (sym own_path) fits,
                subst (λ x. Takes x m) (sym own_method) takes,
              ),
            ),
          ),
        )
  ]
