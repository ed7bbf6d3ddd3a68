-- ===== src/Git/Listing.antt =====
-- packages/git/src/worktree.ts: what is read from the output of `git worktree list --porcelain`.
use code_quest.Common.{
  ℕ, Bool, not, List, [], ◌∷◌, ◌++◌, Option, none, some, Str, if◌then◌else◌, str_eq, nat_beq, drop,
  length, filter, last?, or_default,
}
use code_quest.Common.Text.{lit, starts_with}
use code_quest.Git.Names.{is_empty}
use code_quest.Git.Worktree.{WorktreeInfo, worktree_name, is_separator}

abbrev pub extend_first : ℕ → List Str → List Str
extend_first c [] = (c ∷ []) ∷ []
extend_first c (p ∷ ps) = (c ∷ p) ∷ ps

-- `split` at each character that passes a test
unfoldable pub split_at : (ℕ → Bool) → Str → List Str
split_at p [] = [] ∷ []
split_at p (c ∷ s) = let rest = split_at p s in if p c then [] ∷ rest else extend_first c rest

-- `replace` with a string: the first occurrence is taken out
unfoldable pub remove_first : (pattern : Str) → Str → Str
remove_first pattern [] = []
remove_first pattern (c ∷ s) =
    let rest = remove_first pattern s in
    if starts_with pattern (c ∷ s) then drop (length pattern) (c ∷ s) else c ∷ rest

pub record Current : Type 0 where
  pub worktree_path : Option Str
  pub branch : Option Str

abbrev pub no_current : Current
no_current = record { worktree_path = none; branch = none }

unfoldable pub fallback_name : Str → Str
unfolding split_at
fallback_name path =
    or_default (last? (filter (λ p. not (is_empty p)) (split_at is_separator path))) []

unfoldable pub info_of : (path : Str) → (branch : Option Str) → WorktreeInfo
unfolding worktree_name fallback_name
info_of path branch = elim (worktree_name path) [
  | some name ↦ record { name = name; path = path; branch = branch }
  | none ↦ record { name = or_default branch (fallback_name path); path = path; branch = branch }
]

unfoldable pub to_worktree_info : Current → Option WorktreeInfo
unfolding info_of
to_worktree_info entry = elim entry.worktree_path [
  | none ↦ none
  | some path ↦ if is_empty path then none else some (info_of path entry.branch)
]

abbrev pub flush : Current → List WorktreeInfo
unfolding to_worktree_info
flush current = elim (to_worktree_info current) [ none ↦ [] | some info ↦ info ∷ [] ]

-- a line: the entry after it, and what it adds to the list
unfoldable pub read_line : Current → Str → Current × List WorktreeInfo
unfolding flush remove_first
read_line current line =
    if starts_with (lit "worktree ") line
    then (record current { worktree_path = some (drop 9 line) }, [])
    else if starts_with (lit "branch ") line
    then (record current { branch = some (remove_first (lit "refs/heads/") (drop 7 line)) }, [])
    else if is_empty line
    then (no_current, flush current)
    else (current, [])

unfoldable pub read_lines : Current → List Str → List WorktreeInfo
unfolding read_line
read_lines current [] = flush current
read_lines current (line ∷ lines) =
    let (next, found) = read_line current line in found ++ read_lines next lines

abbrev pub is_newline : ℕ → Bool
is_newline c = nat_beq c 10

unfoldable pub parse_worktree_list : (stdout : Str) → List WorktreeInfo
unfolding read_lines split_at
parse_worktree_list stdout = read_lines no_current (split_at is_newline stdout)
