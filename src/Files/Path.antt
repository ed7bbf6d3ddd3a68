-- ===== src/Files/Path.antt =====
-- packages/filesystem/src/is-path-within.ts, with what it takes from node:path on a POSIX system. An
-- absolute path in its normal form is the list of its segments.
use code_quest.Common.{
  Bool, true, false, not, ◌&&◌, ◌||◌, List, [], ◌∷◌, ◌++◌, Str, if◌then◌else◌, nat_beq, ◌==◌,
  str_eq, str_beq,
}
use code_quest.Common.Text.{lit, starts_with}

-- `split('/')`
unfoldable pub split : Str → List Str
split [] = [] ∷ []
split (c ∷ s) = elim (split s) [
  | [] ↦ [] ∷ []
  | piece ∷ pieces ↦ if nat_beq c b'/' then [] ∷ piece ∷ pieces else (c ∷ piece) ∷ pieces
]

abbrev pub init : List Str → List Str
init [] = []
init (x ∷ []) = []
init (x ∷ y ∷ r) = x ∷ init (y ∷ r)

-- An empty piece and `.` stay where they are, `..` goes up and stops at the root.
unfoldable pub walk : List Str → List Str → List Str
walk at [] = at
walk at (piece ∷ pieces) =
    walk
      (if piece == [] || piece == lit "."
        then at
        else if piece == lit ".."
        then init at
        else at ++ piece ∷ [])
      pieces

abbrev pub is_absolute : Str → Bool
is_absolute s = starts_with (lit "/") s

-- `cwd` is the working directory of the process.
unfoldable pub resolve : (cwd : List Str) → Str → List Str
unfolding walk split
resolve cwd path = walk (if is_absolute path then [] else cwd) (split path)

unfoldable pub up : List Str → List Str → List Str
up [] to = to
up (f ∷ from) to = lit ".." ∷ up from to

unfoldable pub relative_segments : List Str → List Str → List Str
unfolding up
relative_segments [] to = to
relative_segments (f ∷ from) [] = up (f ∷ from) []
relative_segments (f ∷ from) (t ∷ to) =
    let deeper = relative_segments from to in if f == t then deeper else up (f ∷ from) (t ∷ to)

unfoldable pub join : List Str → Str
join [] = []
join (s ∷ []) = s
join (s ∷ t ∷ rest) = s ++ b'/' ∷ join (t ∷ rest)

abbrev pub segments_beq : List Str → List Str → Bool
segments_beq [] [] = true
segments_beq [] (_ ∷ _) = false
segments_beq (_ ∷ _) [] = false
segments_beq (s ∷ r) (t ∷ q) = str_beq s t && segments_beq r q

abbrev is_empty : Str → Bool
is_empty [] = true
is_empty (_ ∷ _) = false

-- what follows the comparison of the two paths
unfoldable pub leads_down : Str → Bool
leads_down rel = not (is_empty rel) && not (starts_with (lit "..") rel) && not (is_absolute rel)

unfoldable pub is_path_within : (cwd : List Str) → (root path : Str) → Bool
unfolding resolve leads_down relative_segments join
is_path_within cwd root path =
    if segments_beq (resolve cwd path) (resolve cwd root)
    then true
    else leads_down (join (relative_segments (resolve cwd root) (resolve cwd path)))
