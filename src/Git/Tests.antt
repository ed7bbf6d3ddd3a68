-- ===== src/Git/Tests.antt =====
-- Paths and lists of worktrees, and their creation.
use code_quest.Common.{◌≡◌, refl, true, false, List, [], ◌∷◌, map, none, some, Str, All}
use code_quest.Common.Text.{lit, starts_with}
use code_quest.Git.Worktree.{WorktreeInfo, worktree_name, detect_worktree}
use code_quest.Git.Detection.{is_plain}
use code_quest.Git.Names.{
  is_alphanumeric, is_worktree_char, has_dots, ends_with, validate_name, validate_worktree_name,
}
use code_quest.Git.Listing.{parse_worktree_list}
use code_quest.Git.Porcelain.{
  Printed, IsPrintable, print_worktrees, print_trimmed, info_for, parse_worktree_list-print,
}
use code_quest.Git.Operations.{
  Exit, CreateOptions, create_worktree, create_named, resolve_worktree_params, worktree_dir,
  is_existing_worktree, add_for, add_worktree, base_of,
}
use code_quest.Git.Creation.{deletes, deletes-create_worktree, create_worktree-detected}

-- the directory of a worktree as a path
pathed :
    detect_worktree (lit "/app/.claude/worktrees/fix")
    ≡ some (record { name = lit "fix"; path = lit "/app/.claude/worktrees/fix"; branch = none })
unfolding detect_worktree worktree_name
pathed = refl

abbrev printed : List Printed
printed =
    record {
      path = lit "/app";
      before = lit "HEAD 12ab" ∷ [];
      branch = some (lit "main");
      behind = lit "locked" ∷ [];
    }
    ∷ record {
      path = lit "/app/.claude/worktrees/fix";
      before = lit "HEAD 12ab" ∷ lit "detached" ∷ [];
      branch = none;
      behind = [];
    }
    ∷ []

printed-ArePrintable : All IsPrintable printed
unfolding starts_with
printed-ArePrintable = (
  record {
    path_is_line = refl;
    path_is_some = refl;
    branch_is_line = refl;
    before_are = ((refl, refl, refl, refl), tt);
    behind_are = ((refl, refl, refl, refl), tt);
  },
  (
    record {
      path_is_line = refl;
      path_is_some = refl;
      branch_is_line = tt;
      before_are = ((refl, refl, refl, refl), ((refl, refl, refl, refl), tt));
      behind_are = tt;
    },
    tt,
  ),
)

parse_worktree_list-print_example :
    (parse_worktree_list (print_worktrees printed) ≡ map info_for printed)
    × (parse_worktree_list (print_trimmed printed) ≡ map info_for printed)
parse_worktree_list-print_example = parse_worktree_list-print printed printed-ArePrintable

-- A git that does all that it is asked to, and tells that nothing is there yet.
abbrev obliging : Str → List Str → Exit
obliging cwd args = record { exit_code = 0; stdout = [] }

abbrev for_new : CreateOptions
for_new = record {
  name = some (lit "fix");
  existing_branch = none;
  new_branch = some (lit "topic");
  base_branch = some (lit "main");
  path = none;
}

deletes-create_worktree_example :
    deletes (create_worktree obliging (λ _. false) (λ p. p) (lit "1") (lit "/app") for_new).1
    ≡ false
deletes-create_worktree_example =
    deletes-create_worktree obliging (λ _. false) (λ p. p) (lit "1") (lit "/app") for_new refl

abbrev fix : WorktreeInfo
fix = record {
  name = lit "fix";
  path = lit "/app/.claude/worktrees/fix";
  branch = some (lit "topic");
}

create_worktree-detected_example :
    (detect_worktree fix.path ≡ some (record fix { branch = none })) × (is_plain fix.name ≡ true)
unfolding create_worktree create_named resolve_worktree_params worktree_dir is_existing_worktree
    add_for add_worktree base_of validate_worktree_name validate_name is_worktree_char
    is_alphanumeric has_dots ends_with starts_with
create_worktree-detected_example =
    create_worktree-detected obliging (λ _. false) (λ p. p) (lit "1") (lit "/app") for_new fix refl
      refl
