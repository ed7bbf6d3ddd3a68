-- ===== src/Git/Operations.antt =====
-- packages/git/src/worktree.ts: GitWorktreeOps. An operation is a function from what git answers,
-- and yields its result and the commands that it runs, in order. The root of the repository exists,
-- and is an absolute and normalised path, which `join` keeps.
use code_quest.Common.{
  ℕ, ◌+◌, map, Bool, true, false, not, ◌&&◌, ◌||◌, List, [], ◌∷◌, ◌++◌, Option, none, some, Str,
  if◌then◌else◌, str_eq, ◌==◌, nat_beq, or_default,
}
use code_quest.Common.Text.{lit, decimal, starts_with, between, trim}
use code_quest.Git.Names.{is_empty, validate_worktree_name, validate_branch_name, branch_to_slug}
use code_quest.Git.Listing.{remove_first, parse_worktree_list}
use code_quest.Git.Worktree.{WorktreeInfo}

pub record Exit : Type 0 where
  pub exit_code : ℕ
  pub stdout : Str

-- `made_parent` is the `mkdir` of the directory above a path.
pub data Command : Type 0 where
  git : (cwd : Str) → (args : List Str) → Command
  made_parent : (path : Str) → Command

pub data Result (A : Type 0) : Type 0 where
  ok : A → Result A
  error : (message : Str) → Result A

pub record CreateOptions : Type 0 where
  pub name : Option Str
  pub existing_branch : Option Str
  pub new_branch : Option Str
  pub base_branch : Option Str
  pub path : Option Str

abbrev pub succeeded : Exit → Bool
succeeded e = nat_beq e.exit_code 0

-- `s || fallback`
abbrev pub or_text : Str → Str → Str
or_text s fallback = if is_empty s then fallback else s

-- `join`: the name is valid, and the root is in normal form
unfoldable pub worktree_dir : (repo_root : Str) → (name : Str) → Str
worktree_dir repo_root name = repo_root ++ lit "/.claude/worktrees/" ++ name

pub record Params : Type 0 where
  pub worktree_name : Str
  pub branch : Str
  pub create_branch : Bool

abbrev pub is_given : Option Str → Bool
is_given none = false
is_given (some s) = not (is_empty s)

abbrev pub auto_branch : Str → Str
auto_branch name = lit "worktree-" ++ name

-- `stamp` is the date and time in digits.
unfoldable pub resolve_worktree_params : (stamp : Str) → CreateOptions → Params
resolve_worktree_params stamp o =
    let existing = or_default o.existing_branch [] in
    let fresh = or_default o.new_branch [] in
    let generated = or_default o.name (lit "claude-session-" ++ stamp) in
    if is_given o.existing_branch
    then record {
      worktree_name = or_default o.name (branch_to_slug existing);
      branch = existing;
      create_branch = false;
    }
    else if is_given o.new_branch
    then record {
      worktree_name = or_default o.name (branch_to_slug fresh);
      branch = fresh;
      create_branch = true;
    }
    else record { worktree_name = generated; branch = auto_branch generated; create_branch = true }

-- `answer` is git, `exists` tells whether git can be started in a directory, and `resolve` is the
-- function of paths of that name.
module _ (answer : Str → List Str → Exit) (exists : Str → Bool) (resolve : Str → Str) where
  abbrev pub toplevel_args : List Str
  toplevel_args = lit "rev-parse" ∷ lit "--show-toplevel" ∷ []

  unfoldable pub is_existing_worktree : Str → Bool × List Command
  unfolding trim
  is_existing_worktree path =
      if exists path
      then (
        succeeded (answer path toplevel_args)
            && resolve (trim (answer path toplevel_args).stdout) == resolve path,
        git path toplevel_args ∷ [],
      )
      else (false, [])

  abbrev pub symbolic_ref_args : List Str
  symbolic_ref_args = lit "symbolic-ref" ∷ lit "refs/remotes/origin/HEAD" ∷ []

  abbrev pub verify_args : Str → List Str
  verify_args name =
      lit "rev-parse" ∷ lit "--verify" ∷ lit "--quiet" ∷ (lit "refs/remotes/origin/" ++ name) ∷ []

  abbrev pub first_branch : Str → List Str → Str × List Command
  first_branch root [] = (lit "main", [])
  first_branch root (name ∷ names) =
      let (found, commands) = first_branch root names in
      if succeeded (answer root (verify_args name))
      then (name, git root (verify_args name) ∷ [])
      else (found, git root (verify_args name) ∷ commands)

  unfoldable pub get_default_branch : Str → Str × List Command
  unfolding trim remove_first
  get_default_branch root =
      let (found, commands) = first_branch root (lit "main" ∷ lit "master" ∷ []) in
      if succeeded (answer root symbolic_ref_args)
      then (
        remove_first (lit "refs/remotes/origin/") (trim (answer root symbolic_ref_args).stdout),
        git root symbolic_ref_args ∷ [],
      )
      else (found, git root symbolic_ref_args ∷ commands)

  abbrev pub fetch_args : Str → List Str
  fetch_args branch = lit "fetch" ∷ lit "origin" ∷ branch ∷ []

  abbrev pub prune_args : List Str
  prune_args = lit "worktree" ∷ lit "prune" ∷ []

  abbrev pub fetched : Str → (branch : Str) → List Command → Str × List Command
  fetched root branch commands = (
    if succeeded (answer root (fetch_args branch)) then lit "origin/" ++ branch else lit "HEAD",
    commands ++ git root (fetch_args branch) ∷ git root prune_args ∷ [],
  )

  -- The branch that the new one starts from; an empty one that is given counts as the default branch
  -- for `??`, and as none for `!`.
  unfoldable pub base_of : Str → Option Str → Str × List Command
  unfolding get_default_branch
  base_of root (some base) =
      if is_empty base then fetched root base [] else (base, git root prune_args ∷ [])
  base_of root none =
      let (branch, commands) = get_default_branch root in fetched root branch commands

  abbrev pub delete_args : Str → List Str
  delete_args branch = lit "branch" ∷ lit "-D" ∷ branch ∷ []

  abbrev pub added : Exit → Result Unit
  unfolding trim
  added e =
      if succeeded e then ok tt else error (or_text (trim e.stdout) (lit "git worktree add failed"))

  unfoldable pub add_worktree :
      Str
      → (path : Str) → (branch : Str) → (base_branch : Option Str) → (allow_branch_nuke : Bool)
      → Result Unit × List Command
  unfolding base_of
  add_worktree root path branch base_branch allow_branch_nuke =
      let (base, commands) = base_of root base_branch in
      let args = lit "worktree" ∷ lit "add" ∷ lit "-b" ∷ branch ∷ path ∷ base ∷ [] in
      (
        added (answer root args),
        made_parent path ∷ commands
            ++ (if allow_branch_nuke then git root (delete_args branch) ∷ [] else [])
            ++ git root args ∷ [],
      )

  unfoldable pub check_out : Str → (path : Str) → (branch : Str) → Result Unit × List Command
  check_out root path branch =
      let args = lit "worktree" ∷ lit "add" ∷ path ∷ branch ∷ [] in
      (added (answer root args), made_parent path ∷ git root args ∷ [])

  abbrev pub finish : WorktreeInfo → Result Unit × List Command → Result WorktreeInfo × List Command
  finish info (ok _, commands) = (ok info, commands)
  finish info (error message, commands) = (error message, commands)

  abbrev pub is_auto_branch : CreateOptions → Params → Bool
  is_auto_branch o p = p.branch == auto_branch p.worktree_name && not (is_given o.new_branch)

  unfoldable pub add_for : Str → Str → CreateOptions → Params → Result Unit × List Command
  unfolding add_worktree check_out
  add_for root path o p =
      if p.create_branch
      then add_worktree root path p.branch o.base_branch (is_auto_branch o p)
      else check_out root path p.branch

  -- `createWorktree` after the name is found valid
  unfoldable pub create_named : Str → CreateOptions → Params → Result WorktreeInfo × List Command
  unfolding is_existing_worktree add_for worktree_dir
  create_named root o p =
      let path = or_default o.path (worktree_dir root p.worktree_name) in
      let info : WorktreeInfo = record {
        name = p.worktree_name;
        path = path;
        branch = some p.branch;
      } in
      let (there, looked) = is_existing_worktree path in
      let (result, commands) = finish info (add_for root path o p) in
      if there then (ok info, looked) else (result, looked ++ commands)

  unfoldable pub create_worktree :
      (stamp : Str) → (repo_root : Str) → CreateOptions → Result WorktreeInfo × List Command
  unfolding resolve_worktree_params create_named
  create_worktree stamp repo_root o =
      let p = resolve_worktree_params stamp o in
      elim (validate_worktree_name p.worktree_name) [
        | some message ↦ (error (lit "Invalid worktree name: " ++ message), [])
        | none ↦ create_named repo_root o p
      ]

  -- `is_repo`: `getRepoRoot` finds a root
  unfoldable pub list_worktrees : (is_repo : Bool) → Str → Result (List WorktreeInfo) × List Command
  unfolding parse_worktree_list
  list_worktrees is_repo root =
      let args = lit "worktree" ∷ lit "list" ∷ lit "--porcelain" ∷ [] in
      if is_repo
      then (
        ok (
            if succeeded (answer root args)
            then parse_worktree_list (answer root args).stdout
            else []),
        git root args ∷ [],
      )
      else (error (lit "Not a git repository: " ++ root), [])

  unfoldable pub delete_worktree : Str → (name : Str) → Result Unit × List Command
  unfolding worktree_dir
  delete_worktree root name = elim (validate_worktree_name name) [
    | some message ↦ (error (lit "Invalid worktree name: " ++ message), [])
    | none ↦ (
      ok tt,
      git root (lit "worktree" ∷ lit "remove" ∷ worktree_dir root name ∷ [])
          ∷ git root (delete_args (auto_branch name))
          ∷ [],
    )
  ]

  abbrev pub failure : Str → Exit → Str
  failure command e =
      or_text e.stdout (command ++ lit " failed (exit " ++ decimal e.exit_code ++ lit ")")

  unfoldable pub rename_worktree : (worktree_cwd : Str) → Str → Result Str × List Command
  rename_worktree cwd branch = elim (validate_branch_name branch) [
    | some message ↦ (error (lit "Invalid branch name: " ++ message), [])
    | none ↦
        let args = lit "branch" ∷ lit "-m" ∷ branch ∷ [] in
        (
          if succeeded (answer cwd args)
              then ok branch
              else error (failure (lit "git branch -m") (answer cwd args)),
          git cwd args ∷ [],
        )
  ]

  -- whether one of the words that git uses for work that would be lost is in its answer
  abbrev pub contains : Str → Str → Bool
  contains pattern [] = is_empty pattern
  contains pattern (c ∷ s) = starts_with pattern (c ∷ s) || contains pattern s

  -- `toLowerCase`, of the letters that the words have
  abbrev pub lower : ℕ → ℕ
  lower c = if between b'A' b'Z' c then c + 32 else c

  unfoldable pub is_dirty : Str → Bool
  is_dirty stdout =
      let text = map lower stdout in
      contains (lit "modified") text
      || contains (lit "untracked") text
      || contains (lit "locked") text
      || contains (lit "not empty") text
      || contains (lit "contains modifications") text

  unfoldable pub archive_worktree : Str → (name : Str) → (force : Bool) → Result Unit × List Command
  unfolding worktree_dir is_dirty
  archive_worktree root name force = elim (validate_worktree_name name) [
    | some message ↦ (error (lit "Invalid worktree name: " ++ message), [])
    | none ↦
        let args =
          lit "worktree"
          ∷ lit "remove"
          ∷ worktree_dir root name
          ∷ (if force then lit "--force" ∷ [] else []) in
        let e = answer root args in
        (
          if succeeded e
              then ok tt
              else if is_dirty e.stdout
              then error (lit "dirty")
              else error (failure (lit "git worktree remove") e),
          git root args ∷ [],
        )
  ]
