-- ===== src/Git/Names.antt =====
-- packages/utils/src/validate-name.ts, validate-worktree-name.ts and validate-branch-name.ts, and
-- what packages/git/src/worktree.ts makes of names.
use code_quest.Common.{
  ℕ, Bool, true, false, not, ◌&&◌, ◌||◌, [], ◌∷◌, ◌++◌, map, Option, none, some, Str, if◌then◌else◌,
  str_eq, ◌==◌, nat_beq, ltb, length, any,
}
use code_quest.Common.Text.{lit, decimal, starts_with, between}

abbrev pub is_empty : Str → Bool
is_empty [] = true
is_empty (_ ∷ _) = false

-- `[a-zA-Z0-9]`
unfoldable pub is_alphanumeric : ℕ → Bool
is_alphanumeric c = between b'a' b'z' c || between b'A' b'Z' c || between b'0' b'9' c

-- `/^[a-zA-Z0-9._-]+$/`, for each character
unfoldable pub is_worktree_char : ℕ → Bool
unfolding is_alphanumeric
is_worktree_char c = is_alphanumeric c || nat_beq c b'.' || nat_beq c b'_' || nat_beq c b'-'

-- `/^[\w./-]+$/`, for each character
unfoldable pub is_branch_char : ℕ → Bool
unfolding is_alphanumeric
is_branch_char c =
    is_alphanumeric c || nat_beq c b'_' || nat_beq c b'.' || nat_beq c b'/' || nat_beq c b'-'

-- `/^[...]+$/` on a string
abbrev pub all_are : (ℕ → Bool) → Str → Bool
all_are p s = not (is_empty s) && not (any (λ c. not (p c)) s)

-- `/\.\./`
unfoldable pub has_dots : Str → Bool
has_dots [] = false
has_dots (c ∷ s) = (nat_beq c b'.' && starts_with (lit ".") s) || has_dots s

unfoldable pub ends_with : (suffix : Str) → Str → Bool
ends_with suffix [] = is_empty suffix
ends_with suffix (c ∷ s) = (c ∷ s) == suffix || ends_with suffix s

unfoldable pub validate_name :
    (name : Str) → (max_length : ℕ) → (pattern : Str → Bool) → (pattern_error : Str) → Option Str
unfolding has_dots ends_with
validate_name name max_length pattern pattern_error =
    if is_empty name
    then some (lit "Name is required")
    else if ltb max_length (length name)
    then some (
        lit "Name must be "
        ++ decimal max_length
        ++ lit " characters or fewer (got "
        ++ decimal (length name)
        ++ lit ")")
    else if not (pattern name)
    then some pattern_error
    else if has_dots name
    then some (lit "Name must not contain \"..\" path segments")
    else if ends_with (lit ".") name || ends_with (lit ".lock") name
    then some (lit "Name must not end with \".\" or \".lock\"")
    else none

unfoldable pub validate_worktree_name : Str → Option Str
unfolding validate_name is_worktree_char
validate_worktree_name name =
    validate_name name 100 (all_are is_worktree_char)
      (lit "Only letters, numbers, dots, hyphens, and underscores allowed")

unfoldable pub validate_branch_name : Str → Option Str
unfolding validate_name is_branch_char
validate_branch_name name =
    validate_name name 255 (all_are is_branch_char)
      (lit "Only letters, numbers, dots, hyphens, underscores, and slashes allowed")

-- the two replacements, of slashes and then of all that is not `[a-zA-Z0-9_-]`
abbrev pub slash_to_dash : ℕ → ℕ
slash_to_dash c = if nat_beq c b'/' then b'-' else c

unfoldable pub other_to_dash : ℕ → ℕ
unfolding is_alphanumeric
other_to_dash c = if is_alphanumeric c || nat_beq c b'_' || nat_beq c b'-' then c else b'-'

unfoldable pub branch_to_slug : Str → Str
unfolding other_to_dash
branch_to_slug branch = map other_to_dash (map slash_to_dash branch)
