-- ===== src/Git/Slugs.antt =====
-- Which names are valid: those of branches, turned into names of worktrees.
use code_quest.Common.{
  ℕ, ◌≤◌, ◌≡◌, refl, Bool, true, false, not, ◌||◌, [], ◌∷◌, map, none, Str, str_eq, nat_beq, length,
  any, arith,
}
use code_quest.Common.Text.{lit}
use code_quest.Git.Names.{
  is_empty, is_alphanumeric, is_worktree_char, has_dots, ends_with, validate_name,
  validate_worktree_name, other_to_dash, slash_to_dash, branch_to_slug,
}
use code_quest.Git.Worktree.{is_separator}
use code_quest.Git.Detection.{is_plain}

-- a character that is allowed in a slug: no dot among them
abbrev in_slug : ℕ → Bool
in_slug c = is_alphanumeric c || nat_beq c b'_' || nat_beq c b'-'

other_to_dash-in_slug : (c : ℕ) → in_slug (other_to_dash c) ≡ true
unfolding other_to_dash is_alphanumeric
other_to_dash-in_slug c = ground arith

abbrev all_in_slug : Str → Bool
all_in_slug s = not (any (λ c. not (in_slug c)) s)

slug-all_in_slug : (s : Str) → all_in_slug (map other_to_dash s) ≡ true
slug-all_in_slug [] = refl
slug-all_in_slug (c ∷ s) = ground (arith, other_to_dash-in_slug c, slug-all_in_slug s)

in_slug-is_worktree_char : (c : ℕ) → in_slug c ≡ true → is_worktree_char c ≡ true
unfolding is_worktree_char
in_slug-is_worktree_char c h = ground (arith, h)

all_in_slug-pattern :
    (s : Str) → all_in_slug s ≡ true → any (λ c. not (is_worktree_char c)) s ≡ false
all_in_slug-pattern [] h = refl
all_in_slug-pattern (c ∷ s) h = ground (arith, h, in_slug-is_worktree_char c, all_in_slug-pattern s)

no_dot : (c : ℕ) → in_slug c ≡ true → nat_beq c b'.' ≡ false
unfolding is_alphanumeric
no_dot c h = ground (arith, h)

all_in_slug-has_dots : (s : Str) → all_in_slug s ≡ true → has_dots s ≡ false
unfolding has_dots
all_in_slug-has_dots [] h = refl
all_in_slug-has_dots (c ∷ s) h = ground (arith, h, no_dot c, all_in_slug-has_dots s)

-- A suffix with a dot at its head is not found.
all_in_slug-ends_with :
    (suffix s : Str) → all_in_slug s ≡ true → ends_with (b'.' ∷ suffix) s ≡ false
unfolding ends_with
all_in_slug-ends_with suffix [] h = refl
all_in_slug-ends_with suffix (c ∷ s) h = ground (arith, h, no_dot c, all_in_slug-ends_with suffix s)

length-map : (f : ℕ → ℕ) (s : Str) → length (map f s) ≡ length s
length-map f [] = refl
length-map f (c ∷ s) = ground (arith, length-map f s)

-- The slug of a branch's name, which names its worktree if no other name is given, is a valid name
-- of a worktree, if the branch has a name, of at most 100 characters.
pub branch_to_slug-valid :
    (branch : Str)
    → is_empty branch ≡ false
    → length branch ≤ 100
    → validate_worktree_name (branch_to_slug branch) ≡ none
unfolding validate_worktree_name branch_to_slug validate_name
branch_to_slug-valid [] e l = absurd (ground (arith, e))
branch_to_slug-valid (b ∷ branch) e l =
    let slug = map other_to_dash (map slash_to_dash (b ∷ branch)) in
    let fits = slug-all_in_slug (map slash_to_dash (b ∷ branch)) in
    ground (
      arith,
      length-map other_to_dash (map slash_to_dash (b ∷ branch)),
      length-map slash_to_dash (b ∷ branch),
      all_in_slug-pattern slug fits,
      all_in_slug-has_dots slug fits,
      all_in_slug-ends_with [] slug fits,
      all_in_slug-ends_with (lit "lock") slug fits,
    )

-- A valid name of a worktree has no separator and is no `.` or `..`: it is one step in a path.
validate-plain_from :
    (s : Str) → any (λ c. not (is_worktree_char c)) s ≡ false → any is_separator s ≡ false
unfolding is_worktree_char is_alphanumeric
validate-plain_from [] h = refl
validate-plain_from (c ∷ s) h = ground (arith, h, validate-plain_from s)

pub validate-is_plain :
    (name : Str)
    → validate_worktree_name name ≡ none
    → (is_empty name ≡ false) × (is_plain name ≡ true) × (has_dots name ≡ false)
unfolding validate_worktree_name validate_name
validate-is_plain [] h = absurd (ground (arith, h))
validate-is_plain (c ∷ name) h = ground (arith, h, validate-plain_from (c ∷ name))
