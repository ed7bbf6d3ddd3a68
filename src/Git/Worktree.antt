-- ===== src/Git/Worktree.antt =====
-- packages/git/src/worktree.ts: which paths name a worktree.
use code_quest.Common.{
  ℕ, Bool, true, false, not, ◌&&◌, ◌||◌, [], ◌∷◌, Option, none, some, Str, if◌then◌else◌, nat_beq,
  str_eq, ◌==◌,
}
use code_quest.Common.Text.{lit}

pub record WorktreeInfo : Type 0 where
  pub name : Str
  pub path : Str
  pub branch : Option Str

abbrev pub is_separator : ℕ → Bool
is_separator c = nat_beq c b'/' || nat_beq c 92

-- The name that the pattern `/[/\\]\.claude[/\\]worktrees[/\\]([^/\\]+)$/` captures in a path. The
-- match from the end leaves no choice: the name is what follows the last separator, and what
-- stands before that separator ends with the two directories.
abbrev pub break_last : Str → Option (Str × Str)
break_last [] = none
break_last (c ∷ s) = elim (break_last s) [
  | some (before, name) ↦ some (c ∷ before, name)
  | none ↦ if is_separator c then some ([], s) else none
]

abbrev pub is_empty : Str → Bool
is_empty [] = true
is_empty (_ ∷ _) = false

unfoldable pub worktree_name : Str → Option Str
worktree_name path = elim (break_last path) [
  | none ↦ none
  | some (before, name) ↦ elim (break_last before) [
    | none ↦ none
    | some (root, directory) ↦ elim (break_last root) [
      | none ↦ none
      | some (_, claude) ↦
          if not (is_empty name) && directory == lit "worktrees" && claude == lit ".claude"
          then some name
          else none
    ]
  ]
]

unfoldable pub detect_worktree : Str → Option WorktreeInfo
unfolding worktree_name
detect_worktree path = elim (worktree_name path) [
  | none ↦ none
  | some name ↦ some (record { name = name; path = path; branch = none })
]
