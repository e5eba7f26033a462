-- ===== src/Server/Mux.antt =====
-- Go's http.ServeMux, as far as `buildMux` of cmd/server/main.go uses it: patterns of a method and a
-- path, with named wildcards of one segment and with a slash at the end. A request's path is the list of
-- its segments as the mux gets them once the path is clean; the segment "/" stands for a slash at the
-- end. Hosts, redirects and wildcards of several segments with a name are left out.
pub mod Laws
use chatroom_server.Base.{
  String, Bool, true, false, ◌&&◌, Option, none, some, List, [], ◌∷◌, any, if◌then◌else◌,
}
use text.Mathlib.Text.{◌==◌}

-- `rest` is the slash at the end of a pattern.
pub data Segment : Type 0 where
  lit : String → Segment
  wild : String → Segment
  rest : Segment

pub record Pattern (A : Type 0) : Type 0 where
  pub method : Option String
  pub path : List Segment
  pub target : A

-- What is left of a pattern's path, and the pattern.
abbrev pub Branch : Type 0 → Type 0
Branch A = List Segment × Pattern A

-- What the mux gives for a request. A path value stands beside its wildcard's name.
pub data Found (A : Type 0) : Type 0 where
  found : A → List (String × String) → Found A
  not_allowed not_found : Found A

abbrev pub or_else : {A : Type 0} → Option A → Option A → Option A
or_else none b = b
or_else (some a) b = some a

abbrev pub is_some : {A : Type 0} → Option A → Bool
is_some none = false
is_some (some a) = true

-- `PathValue`: empty if there is none of the name.
abbrev pub path_value : String → List (String × String) → String
path_value name [] = ""
path_value name ((n, v) ∷ vs) = let others = path_value name vs in if n == name then v else others

-- The values with the names of the pattern's wildcards.
abbrev pub name_values : List Segment → List String → List (String × String)
name_values [] vs = []
name_values (lit s ∷ segs) vs = name_values segs vs
name_values (wild n ∷ segs) [] = []
name_values (wild n ∷ segs) (v ∷ vs) = (n, v) ∷ name_values segs vs
name_values (rest ∷ segs) vs = []

abbrev pub same_method : Option String → Option String → Bool
same_method none none = true
same_method none (some n) = false
same_method (some m) none = false
same_method (some m) (some n) = m == n

module _ {A : Type 0} where
  -- The child of a literal segment.
  abbrev pub literal : String → List (Branch A) → List (Branch A)
  literal s [] = []
  literal s (([], p) ∷ bs) = literal s bs
  literal s ((lit t ∷ segs, p) ∷ bs) =
      let others = literal s bs in if t == s then (segs, p) ∷ others else others
  literal s ((wild n ∷ segs, p) ∷ bs) = literal s bs
  literal s ((rest ∷ segs, p) ∷ bs) = literal s bs

  -- The child of a wildcard.
  abbrev pub wildcard : List (Branch A) → List (Branch A)
  wildcard [] = []
  wildcard (([], p) ∷ bs) = wildcard bs
  wildcard ((lit t ∷ segs, p) ∷ bs) = wildcard bs
  wildcard ((wild n ∷ segs, p) ∷ bs) = (segs, p) ∷ wildcard bs
  wildcard ((rest ∷ segs, p) ∷ bs) = wildcard bs

  -- The pattern that ends here, and the one that takes whatever follows the slash.
  abbrev pub leaf : List (Branch A) → Option (Pattern A)
  leaf [] = none
  leaf (([], p) ∷ bs) = some p
  leaf ((s ∷ segs, p) ∷ bs) = leaf bs

  abbrev pub slash : List (Branch A) → Option (Pattern A)
  slash [] = none
  slash (([], p) ∷ bs) = slash bs
  slash ((lit t ∷ segs, p) ∷ bs) = slash bs
  slash ((wild n ∷ segs, p) ∷ bs) = slash bs
  slash ((rest ∷ segs, p) ∷ bs) = some p

  abbrev pub ending : Option (Pattern A) → Option (Pattern A × List String)
  ending none = none
  ending (some p) = some (p, [])

  -- A match below the wildcard, with the segment that the wildcard stands for.
  abbrev pub taking : String → Option (Pattern A × List String) → Option (Pattern A × List String)
  taking s none = none
  taking s (some (p, vs)) = some (p, s ∷ vs)

  -- `matchPath`: a literal segment comes before a wildcard, and a wildcard before the rest.
  abbrev pub match_path : List String → List (Branch A) → Option (Pattern A × List String)
  match_path [] bs = ending (leaf bs)
  match_path (s ∷ path) bs =
      let here = match_path path (literal s bs) in
      let below = match_path path (wildcard bs) in
      or_else here (or_else (if "/" == s then none else taking s below) (ending (slash bs)))

  -- The child of a method, or the patterns without one.
  abbrev pub with_method : Option String → List (Pattern A) → List (Branch A)
  with_method m [] = []
  with_method m (p ∷ ps) =
      let others = with_method m ps in
      if same_method m p.method then (p.path, p) ∷ others else others

  -- `matchMethodAndPath`
  abbrev pub match_method :
      String → List String → List (Pattern A) → Option (Pattern A × List String)
  match_method m path ps = or_else (match_path path (with_method (some m) ps)) (
      or_else (if m == "HEAD" then match_path path (with_method (some "GET") ps) else none)
        (match_path path (with_method none ps)))

  -- Does a pattern with a method match the path? (`matchingMethods`)
  abbrev pub allows_another : List String → List (Pattern A) → Bool
  allows_another path ps =
      any (λ p. is_some p.method && is_some (match_path path (with_method p.method ps))) ps

  abbrev pub outcome : Bool → Option (Pattern A × List String) → Found A
  outcome another none = if another then not_allowed else not_found
  outcome another (some (p, vs)) = found p.target (name_values p.path vs)

  -- `findHandler`
  unfoldable pub find_handler : String → List String → List (Pattern A) → Found A
  find_handler m path ps = outcome (allows_another path ps) (match_method m path ps)
