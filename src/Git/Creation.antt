-- ===== src/Git/Creation.antt =====
-- What the creation of a worktree leaves, and what it leaves alone.
use code_quest.Common.{
  ◌≡◌, refl, sym, subst, ◌∙◌, Bool, true, false, ◌&&◌, ◌||◌, List, [], ◌∷◌, ◌++◌, append_assoc, ◌⊎◌,
  Option, none, some, Str, str_eq, ◌==◌, or_default, any, arith, Option-cases, Bool-cases, inl, inr,
}
use code_quest.Common.Text.{lit}
use code_quest.Git.Names.{validate_worktree_name}
use code_quest.Git.Slugs.{validate-is_plain}
use code_quest.Git.Worktree.{WorktreeInfo, detect_worktree}
use code_quest.Git.Detection.{is_plain, detect_worktree-append}
use code_quest.Git.Operations.{
  Exit, Command, git, made_parent, Result, ok, error, CreateOptions, Params, is_given,
  resolve_worktree_params, worktree_dir, is_existing_worktree, get_default_branch, base_of,
  prune_args, fetch_args, add_worktree, check_out, finish, is_auto_branch, add_for, create_named,
  create_worktree,
}

-- the directory of a valid name is a path that `detect_worktree` finds the name in
worktree_dir-detected :
    (root name : Str)
    → validate_worktree_name name ≡ none
    → detect_worktree (worktree_dir root name)
      ≡ some (record { name = name; path = worktree_dir root name; branch = none })
unfolding worktree_dir
worktree_dir-detected root [] h = absurd (ground (arith, validate-is_plain [] h))
worktree_dir-detected root (x ∷ name) h =
    let (_, plain, _) = validate-is_plain (x ∷ name) h in
    let found = detect_worktree-append root name b'/' b'/' b'/' x refl refl refl plain in
    let a = lit "/.claude" in
    let b = lit "/worktrees" in
    let c = b'/' ∷ x ∷ name in
    let same =
      append_assoc (root ++ a) b c
      ∙ append_assoc root a (b ++ c)
      ∙ sym (append_assoc root (lit "/.claude/worktrees/") (x ∷ name)) in
    subst
      (λ path. detect_worktree path ≡ some (record { name = x ∷ name; path = path; branch = none }))
      same found

abbrev is_deletion : Command → Bool
is_deletion (git _ (a ∷ b ∷ _)) = a == lit "branch" && b == lit "-D"
is_deletion _ = false

-- no branch is deleted
abbrev pub deletes : List Command → Bool
deletes commands = any is_deletion commands

deletes-append : (cs ds : List Command) → deletes (cs ++ ds) ≡ (deletes cs || deletes ds)
deletes-append [] ds = refl
deletes-append (c ∷ cs) ds = ground (arith, deletes-append cs ds)

module _ (answer : Str → List Str → Exit) (exists : Str → Bool) (resolve : Str → Str) where
  abbrev created : Str → Str → CreateOptions → Result WorktreeInfo × List Command
  created stamp root o = create_worktree answer exists resolve stamp root o

  deletes-default_branch :
      (root : Str) → deletes (get_default_branch answer exists resolve root).1 ≡ false
  unfolding get_default_branch
  deletes-default_branch root = ground arith

  deletes-base_of :
      (root : Str) (base : Option Str) → deletes (base_of answer exists resolve root base).1 ≡ false
  unfolding base_of
  deletes-base_of root none =
      let (branch, commands) = get_default_branch answer exists resolve root in
      ground (
        arith,
        deletes-default_branch root,
        deletes-append commands (
            git root (fetch_args answer exists resolve branch)
            ∷ git root (prune_args answer exists resolve)
            ∷ []),
      )
  deletes-base_of root (some b) = ground arith

  deletes-add_worktree :
      (root path branch : Str) (base : Option Str)
      → deletes (add_worktree answer exists resolve root path branch base false).1 ≡ false
  unfolding add_worktree
  deletes-add_worktree root path branch base =
      let (start, commands) = base_of answer exists resolve root base in
      let args = lit "worktree" ∷ lit "add" ∷ lit "-b" ∷ branch ∷ path ∷ start ∷ [] in
      ground (
        arith,
        deletes-base_of root base,
        deletes-append (made_parent path ∷ commands) [],
        deletes-append (made_parent path ∷ commands ++ []) (git root args ∷ []),
      )

  deletes-add_for :
      (root path : Str) (o : CreateOptions) (p : Params)
      → is_auto_branch answer exists resolve o p ≡ false ⊎ p.create_branch ≡ false
      → deletes (add_for answer exists resolve root path o p).1 ≡ false
  unfolding check_out add_for
  deletes-add_for root path o p (inl h) =
      rw h (ground (arith, deletes-add_worktree root path p.branch o.base_branch))
  deletes-add_for root path o p (inr h) = ground (arith, h)

  deletes-existing :
      (path : Str) → deletes (is_existing_worktree answer exists resolve path).1 ≡ false
  unfolding is_existing_worktree
  deletes-existing path = ground arith

  commands-finish :
      (info : WorktreeInfo) (r : Result Unit × List Command)
      → (finish answer exists resolve info r).1 ≡ r.1
  commands-finish info (ok _, commands) = refl
  commands-finish info (error _, commands) = refl

  deletes-create_named :
      (root : Str) (o : CreateOptions) (p : Params)
      → is_auto_branch answer exists resolve o p ≡ false ⊎ p.create_branch ≡ false
      → deletes (create_named answer exists resolve root o p).1 ≡ false
  unfolding create_named
  deletes-create_named root o p h =
      let path = or_default o.path (worktree_dir root p.worktree_name) in
      let info : WorktreeInfo = record {
        name = p.worktree_name;
        path = path;
        branch = some p.branch;
      } in
      let (there, looked) = is_existing_worktree answer exists resolve path in
      let r = add_for answer exists resolve root path o p in
      ground (
        arith,
        deletes-existing path,
        deletes-add_for root path o p h,
        commands-finish info r,
        deletes-append looked (finish answer exists resolve info r).1,
      )

  named_branch-kept :
      (stamp : Str) (o : CreateOptions)
      → (is_given o.existing_branch || is_given o.new_branch) ≡ true
      → (is_auto_branch answer exists resolve o (resolve_worktree_params stamp o) ≡ false)
        ⊎ ((resolve_worktree_params stamp o).create_branch ≡ false)
  unfolding resolve_worktree_params
  named_branch-kept stamp o h = elim (Bool-cases (is_given o.existing_branch)) [
    | inl e ↦ inr (ground (arith, e))
    | inr e ↦ inl (ground (arith, e, h))
  ]

-- When a branch is named, a new one or one that exists, the creation of a worktree runs no command
-- that deletes a branch, whatever git answers.
pub deletes-create_worktree :
    (answer : Str → List Str → Exit) (exists : Str → Bool) (resolve : Str → Str) (stamp root : Str)
    (o : CreateOptions)
    → (is_given o.existing_branch || is_given o.new_branch) ≡ true
    → deletes (create_worktree answer exists resolve stamp root o).1 ≡ false
unfolding create_worktree
deletes-create_worktree answer exists resolve stamp root o h =
    let p = resolve_worktree_params stamp o in
    elim (Option-cases (validate_worktree_name p.worktree_name)) [
      | inl k ↦ ground (
        arith,
        k,
        deletes-create_named answer exists resolve root o p
            (named_branch-kept answer exists resolve stamp o h),
      )
      | inr (message, k) ↦ ground (arith, k)
    ]

info-finish :
    (answer : Str → List Str → Exit) (exists : Str → Bool) (resolve : Str → Str)
    (made info : WorktreeInfo) (r : Result Unit × List Command)
    → (finish answer exists resolve made r).0 ≡ ok info
    → made ≡ info
info-finish answer exists resolve made info (ok _, commands) h = ground (arith, h)
info-finish answer exists resolve made info (error _, commands) h = absurd (ground (arith, h))

info-create_named :
    (answer : Str → List Str → Exit) (exists : Str → Bool) (resolve : Str → Str) (root : Str)
    (o : CreateOptions) (p : Params) (info : WorktreeInfo)
    → (create_named answer exists resolve root o p).0 ≡ ok info
    → record {
      name = p.worktree_name;
      path = or_default o.path (worktree_dir root p.worktree_name);
      branch = some p.branch;
    }
      ≡ info
unfolding create_named
info-create_named answer exists resolve root o p info h =
    let path = or_default o.path (worktree_dir root p.worktree_name) in
    let made : WorktreeInfo = record {
      name = p.worktree_name;
      path = path;
      branch = some p.branch;
    } in
    let r = add_for answer exists resolve root path o p in
    elim (Bool-cases (is_existing_worktree answer exists resolve path).0) [
      | inl e ↦ ground (arith, h, e)
      | inr e ↦ info-finish answer exists resolve made info r (ground (arith, h, e))
    ]

-- A worktree that was created at its usual place, or was there already, is found again by its path:
-- `detect_worktree` gives the name that it was created with, which is one step in a path.
pub create_worktree-detected :
    (answer : Str → List Str → Exit) (exists : Str → Bool) (resolve : Str → Str) (stamp root : Str)
    (o : CreateOptions) (info : WorktreeInfo)
    → o.path ≡ none
    → (create_worktree answer exists resolve stamp root o).0 ≡ ok info
    → (detect_worktree info.path ≡ some (record info { branch = none }))
      × (is_plain info.name ≡ true)
unfolding create_worktree
create_worktree-detected answer exists resolve stamp root o info none_given h =
    let p = resolve_worktree_params stamp o in
    elim (Option-cases (validate_worktree_name p.worktree_name)) [
      | inl k ↦
          let made = info-create_named answer exists resolve root o p info (ground (arith, h, k)) in
          let found = worktree_dir-detected root p.worktree_name k in
          let (_, plain, _) = validate-is_plain p.worktree_name k in
          let usual : worktree_dir root p.worktree_name
              ≡ or_default o.path (worktree_dir root p.worktree_name) =
            rw none_given refl in
          (
            subst (λ (i : WorktreeInfo). detect_worktree i.path ≡ some (record i { branch = none }))
                made
                (subst
                  (λ path.
                    detect_worktree path
                    ≡ some (record { name = p.worktree_name; path = path; branch = none }))
                  usual found),
            subst (λ (i : WorktreeInfo). is_plain i.name ≡ true) made plain,
          )
      | inr (message, k) ↦ absurd (ground (arith, h, k))
    ]
