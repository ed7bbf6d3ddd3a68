-- ===== src/Files/Tests.antt =====
-- Paths and calls at concrete inputs.
use code_quest.Common.{◌≡◌, refl, ◌↔◌, true, false, List, [], ◌∷◌, ◌++◌, Str, if◌then◌else◌}
use code_quest.Common.Text.{lit, starts_with}
use code_quest.Files.Path.{
  split, walk, resolve, relative_segments, join, leads_down, is_path_within, up,
}
use code_quest.Files.Within.{dotted, is_path_within_iff}
use code_quest.Files.Guard.{
  Request, rename, is_within, guard, guard_both, root_entries, answer, outside, roots_listed,
  names_root, judged, first_outside, paths, answer-judged,
}

abbrev at : List Str
at = lit "srv" ∷ []

is_path_within_iff_example : (is_path_within at (lit "/srv/app") (lit "app/./x") ≡ true) ↔ (
    (rest : List Str) × (resolve at (lit "app/./x") ≡ (resolve at (lit "/srv/app") ++ rest))
    × (dotted rest ≡ false))
is_path_within_iff_example = is_path_within_iff at (lit "/srv/app") (lit "app/./x") (refl, tt)

-- A file of the root whose name begins with two dots is taken for one outside of it.
dotted_name : is_path_within at (lit "/srv") (lit "/srv/..env") ≡ false
unfolding is_path_within resolve relative_segments join leads_down split walk starts_with up
dotted_name = refl

abbrev escape : Request
escape = rename (lit "/srv/a") (lit "/srv/../etc/passwd")

answer-judged_example : answer at (lit "/srv" ∷ []) escape ≡ (
    if names_root at (lit "/srv" ∷ []) escape
    then roots_listed (root_entries at (lit "/srv" ∷ []) (lit "/srv" ∷ []))
    else judged at
        (lit "/srv" ∷ [])
        escape
        (first_outside at (lit "/srv" ∷ []) (paths at (lit "/srv" ∷ []) escape)))
answer-judged_example = answer-judged at (lit "/srv" ∷ []) escape

escape_refused : answer at (lit "/srv" ∷ []) escape ≡ outside (lit "/srv/../etc/passwd")
unfolding answer guard guard_both is_within is_path_within resolve relative_segments join leads_down
    split walk starts_with up
escape_refused = refl
