-- ===== src/CommandPolicy/Paths.antt =====
-- Where the paths of a command that runs without asking lead, src/runtime/command-policy.ts.
use adrouter_agent.Prelude.{
  ◌==◌, if◌then◌else◌, Text, codes, same_text, starts_with, is_empty, ℕ, ◌+◌, ◌-◌, ◌≡◌, Bool, true,
  false, ◌||◌, List, [], ◌∷◌,
}

-- A path between its slashes: the first name, and the others.
unfoldable pub names_of : Text → Text × List Text
names_of [] = ([], [])
names_of (c ∷ s) = let r = names_of s in if c == b'/' then ([], r.0 ∷ r.1) else (c ∷ r.0, r.1)

-- All names but the last: the folders on the way.
unfoldable pub folders : Text → List Text → List Text
folders first [] = []
folders first (n ∷ ns) = first ∷ folders n ns

abbrev is_parent : Text → Bool
is_parent name = same_text name (codes "..")

abbrev is_here : Text → Bool
is_here name = is_empty name || same_text name (codes ".")

-- Walks the names from a folder that lies `depth` folders below the workspace; whether each folder
-- on the way is the workspace or lies in it.
unfoldable pub stays_inside : ℕ → List Text → Bool
stays_inside depth [] = true
stays_inside depth (name ∷ names) =
    let same = stays_inside depth names in
    let deeper = stays_inside (depth + 1) names in
    let up = stays_inside (depth - 1) names in
    if is_parent name
    then (if depth == 0 then false else up)
    else if is_here name
    then same
    else deeper

-- A path is not absolute, and every folder on the way to its last name lies in the workspace.
pub record IsInside (path : Text) : Type 0 where
  pub relative : starts_with path (codes "/") ≡ false
  pub on_the_way : stays_inside 0 (folders (names_of path).0 (names_of path).1) ≡ true
