-- ===== src/Git/Porcelain.antt =====
-- The list that git prints, read back.
use code_quest.Common.{
  ◌≡◌, refl, ap, sym, ◌∙◌, append-nil, or_default, Option-cases, inl, inr, Bool, true, false, List,
  [], ◌∷◌, ◌++◌, map, append_assoc, Option, none, some, Str, str_eq, All, All-append, arith, any,
}
use code_quest.Common.Text.{lit, starts_with}
use code_quest.Git.Names.{is_empty}
use code_quest.Git.Worktree.{WorktreeInfo, worktree_name}
use code_quest.Git.Listing.{
  Current, no_current, flush, fallback_name, split_at, remove_first, info_of, to_worktree_info,
  read_line, read_lines, is_newline, parse_worktree_list,
}

-- A worktree as git prints it: its path, its branch unless it is detached, and other attributes,
-- such as HEAD before the branch and locked behind it, each on a line of its own.
pub record Printed : Type 0 where
  pub path : Str
  pub before : List Str
  pub branch : Option Str
  pub behind : List Str

abbrev branch_lines : Option Str → List Str
branch_lines none = []
branch_lines (some b) = (lit "branch refs/heads/" ++ b) ∷ []

abbrev pub lines_of : Printed → List Str
lines_of e = (lit "worktree " ++ e.path) ∷ (e.before ++ (branch_lines e.branch ++ e.behind))

-- A blank line follows each worktree; `trimmed` leaves out the one at the end.
abbrev pub all_lines : List Printed → List Str
all_lines [] = []
all_lines (e ∷ es) = lines_of e ++ [] ∷ all_lines es

abbrev pub trimmed_lines : List Printed → List Str
trimmed_lines [] = []
trimmed_lines (e ∷ []) = lines_of e
trimmed_lines (e ∷ f ∷ es) = lines_of e ++ [] ∷ trimmed_lines (f ∷ es)

-- every line ended by a line break, or the lines with line breaks between them
abbrev pub print_lines : List Str → Str
print_lines [] = []
print_lines (l ∷ ls) = l ++ 10 ∷ print_lines ls

abbrev pub join_lines : List Str → Str
join_lines [] = []
join_lines (l ∷ []) = l
join_lines (l ∷ m ∷ ls) = l ++ 10 ∷ join_lines (m ∷ ls)

unfoldable pub print_worktrees : List Printed → Str
print_worktrees es = print_lines (all_lines es)

-- the output without the white space at its end
unfoldable pub print_trimmed : List Printed → Str
print_trimmed es = join_lines (trimmed_lines es)

abbrev pub has_newline : Str → Bool
has_newline s = any is_newline s

abbrev pub IsLine : Str → Type 0
IsLine s = has_newline s ≡ false

-- a line that the parser passes over
abbrev pub IsAttribute : Str → Type 0
IsAttribute s =
    (has_newline s ≡ false)
    × (is_empty s ≡ false)
    × (starts_with (lit "worktree ") s ≡ false)
    × (starts_with (lit "branch ") s ≡ false)

abbrev IsBranch : Option Str → Type 0
IsBranch none = Unit
IsBranch (some b) = IsLine b

pub record IsPrintable (e : Printed) : Type 0 where
  pub path_is_line : IsLine e.path
  pub path_is_some : is_empty e.path ≡ false
  pub branch_is_line : IsBranch e.branch
  pub before_are : All IsAttribute e.before
  pub behind_are : All IsAttribute e.behind

split-line :
    (l s : Str)
    → has_newline l ≡ false
    → split_at is_newline (l ++ 10 ∷ s) ≡ (l ∷ split_at is_newline s)
unfolding split_at
split-line [] s h = refl
split-line (c ∷ l) s h = ground (arith, h, split-line l s)

split-print_lines :
    (ls : List Str) → All IsLine ls → split_at is_newline (print_lines ls) ≡ (ls ++ [] ∷ [])
unfolding split_at
split-print_lines [] h = refl
split-print_lines (l ∷ ls) (p, h) =
    split-line l (print_lines ls) p ∙ ap (λ rest. l ∷ rest) (split-print_lines ls h)

split-no_break : (l : Str) → has_newline l ≡ false → split_at is_newline l ≡ (l ∷ [])
unfolding split_at
split-no_break [] h = refl
split-no_break (c ∷ l) h = ground (arith, h, split-no_break l)

split-join_lines :
    (l : Str) (ls : List Str)
    → IsLine l
    → All IsLine ls
    → split_at is_newline (join_lines (l ∷ ls)) ≡ (l ∷ ls)
split-join_lines l [] p h = split-no_break l p
split-join_lines l (m ∷ ls) p (q, h) =
    split-line l (join_lines (m ∷ ls)) p ∙ ap (λ rest. l ∷ rest) (split-join_lines m ls q h)

read-attributes :
    (c : Current) (attributes rest : List Str)
    → All IsAttribute attributes
    → read_lines c (attributes ++ rest) ≡ read_lines c rest
unfolding read_lines read_line
read-attributes c [] rest h = refl
read-attributes c (a ∷ attributes) rest (p, h) =
    ground (arith, p, read-attributes c attributes rest h)

abbrev entry_of : Printed → Current
entry_of e = record { worktree_path = some e.path; branch = e.branch }

read-branch :
    (path : Str) (b : Option Str) (rest : List Str)
    → read_lines (record { worktree_path = some path; branch = none }) (branch_lines b ++ rest)
      ≡ read_lines (record { worktree_path = some path; branch = b }) rest
unfolding read_lines read_line starts_with remove_first
read-branch path none rest = refl
read-branch path (some b) rest = ground arith

read-one :
    (e : Printed) (rest : List Str)
    → IsPrintable e
    → read_lines no_current (lines_of e ++ rest) ≡ read_lines (entry_of e) rest
unfolding read_lines read_line starts_with
read-one e rest h =
    let entry : Current = record { worktree_path = some e.path; branch = none } in
    ap (read_lines entry) (append_assoc e.before (branch_lines e.branch ++ e.behind) rest)
    ∙ read-attributes entry e.before ((branch_lines e.branch ++ e.behind) ++ rest) h.before_are
    ∙ ap (read_lines entry) (append_assoc (branch_lines e.branch) e.behind rest)
    ∙ read-branch e.path e.branch (e.behind ++ rest)
    ∙ read-attributes (entry_of e) e.behind rest h.behind_are

-- The name of a worktree: that in its path, or else its branch, or else the last part of its path.
abbrev pub name_of : Printed → Str
unfolding worktree_name fallback_name
name_of e = elim (worktree_name e.path) [
  | some name ↦ name
  | none ↦ or_default e.branch (fallback_name e.path)
]

abbrev pub info_for : Printed → WorktreeInfo
info_for e = record { name = name_of e; path = e.path; branch = e.branch }

info_of-info_for : (e : Printed) → info_of e.path e.branch ≡ info_for e
unfolding info_of
info_of-info_for e = elim (Option-cases (worktree_name e.path)) [
  | inl h ↦ ground (arith, h)
  | inr (n, h) ↦ ground (arith, h)
]

flush-entry_of : (e : Printed) → IsPrintable e → flush (entry_of e) ≡ (info_for e ∷ [])
unfolding to_worktree_info
flush-entry_of e h = ground (arith, h.path_is_some, info_of-info_for e)

-- an entry that a blank line ends, and one that the output ends
read-ended :
    (e : Printed) (rest : List Str)
    → IsPrintable e
    → read_lines no_current (lines_of e ++ [] ∷ rest) ≡ (info_for e ∷ read_lines no_current rest)
read-ended e rest h =
    read-one e ([] ∷ rest) h
    ∙ (unfold read_lines read_line starts_with in
        ap (λ found. found ++ read_lines no_current rest) (flush-entry_of e h))

read-last : (e : Printed) → IsPrintable e → read_lines no_current (lines_of e) ≡ (info_for e ∷ [])
read-last e h =
    ap (read_lines no_current) (sym (append-nil (lines_of e)))
    ∙ read-one e [] h
    ∙ (unfold read_lines in flush-entry_of e h)

read_lines-all_lines :
    (es : List Printed)
    → All IsPrintable es
    → read_lines no_current (all_lines es ++ [] ∷ []) ≡ map info_for es
unfolding read_lines read_line starts_with to_worktree_info
read_lines-all_lines [] h = refl
read_lines-all_lines (e ∷ es) (p, h) =
    ap (read_lines no_current) (append_assoc (lines_of e) ([] ∷ all_lines es) ([] ∷ []))
    ∙ read-ended e (all_lines es ++ [] ∷ []) p
    ∙ ap (λ rest. info_for e ∷ rest) (read_lines-all_lines es h)

read_lines-trimmed_lines :
    (e : Printed) (es : List Printed)
    → IsPrintable e
    → All IsPrintable es
    → read_lines no_current (trimmed_lines (e ∷ es)) ≡ (info_for e ∷ map info_for es)
read_lines-trimmed_lines e [] p h = read-last e p
read_lines-trimmed_lines e (f ∷ es) p (q, h) =
    read-ended e (trimmed_lines (f ∷ es)) p
    ∙ ap (λ rest. info_for e ∷ rest) (read_lines-trimmed_lines f es q h)

attributes-AreLines : (more : List Str) → All IsAttribute more → All IsLine more
attributes-AreLines [] h = tt
attributes-AreLines (a ∷ more) (p, h) = (p.0, attributes-AreLines more h)

branch-AreLines : (b : Option Str) → IsBranch b → All IsLine (branch_lines b)
branch-AreLines none h = tt
branch-AreLines (some b) h = (h, tt)

lines_of-AreLines : (e : Printed) → IsPrintable e → All IsLine (lines_of e)
lines_of-AreLines e h = (
  h.path_is_line,
  All-append IsLine e.before (branch_lines e.branch ++ e.behind)
      (attributes-AreLines e.before h.before_are)
      (All-append IsLine (branch_lines e.branch) e.behind
        (branch-AreLines e.branch h.branch_is_line) (attributes-AreLines e.behind h.behind_are)),
)

all_lines-AreLines : (es : List Printed) → All IsPrintable es → All IsLine (all_lines es)
all_lines-AreLines [] h = tt
all_lines-AreLines (e ∷ es) (p, h) =
    All-append IsLine (lines_of e) ([] ∷ all_lines es) (lines_of-AreLines e p)
      (refl, all_lines-AreLines es h)

trimmed_lines-AreLines :
    (e : Printed) (es : List Printed)
    → IsPrintable e
    → All IsPrintable es
    → All IsLine (trimmed_lines (e ∷ es))
trimmed_lines-AreLines e [] p h = lines_of-AreLines e p
trimmed_lines-AreLines e (f ∷ es) p (q, h) =
    All-append IsLine (lines_of e) ([] ∷ trimmed_lines (f ∷ es)) (lines_of-AreLines e p)
      (refl, trimmed_lines-AreLines f es q h)

abbrev is_none : List Str → Bool
is_none [] = true
is_none (_ ∷ _) = false

abbrev IsSome : List Str → Type 0
IsSome ls = is_none ls ≡ false

parse-join_lines :
    (ls : List Str)
    → IsSome ls
    → All IsLine ls
    → parse_worktree_list (join_lines ls) ≡ read_lines no_current ls
unfolding parse_worktree_list
parse-join_lines [] k h = absurd (ground (arith, k))
parse-join_lines (l ∷ ls) k (p, h) = ap (read_lines no_current) (split-join_lines l ls p h)

trimmed_lines-IsSome : (e : Printed) (es : List Printed) → IsSome (trimmed_lines (e ∷ es))
trimmed_lines-IsSome e [] = refl
trimmed_lines-IsSome e (f ∷ es) = refl

parse-print_trimmed :
    (es : List Printed)
    → All IsPrintable es
    → parse_worktree_list (print_trimmed es) ≡ map info_for es
unfolding print_trimmed
parse-print_trimmed [] h =
    unfold parse_worktree_list read_lines read_line starts_with to_worktree_info split_at in refl
parse-print_trimmed (e ∷ es) (p, h) =
    parse-join_lines (trimmed_lines (e ∷ es)) (trimmed_lines-IsSome e es)
      (trimmed_lines-AreLines e es p h)
    ∙ read_lines-trimmed_lines e es p h

-- What git prints for a list of worktrees is read back as that list, as it stands and without the
-- line breaks at its end, as simple-git gives it: each one with its path, its branch if it has one,
-- and as its name that of the worktree in its path, or else its branch, or else the last part of its
-- path; if paths are not empty, no line has a line break in it and no other attribute looks like a
-- path, a branch or a blank line.
pub parse_worktree_list-print :
    (es : List Printed)
    → All IsPrintable es
    → (parse_worktree_list (print_worktrees es) ≡ map info_for es)
      × (parse_worktree_list (print_trimmed es) ≡ map info_for es)
parse_worktree_list-print es h = (
  unfold parse_worktree_list print_worktrees in
      (ap (read_lines no_current) (split-print_lines (all_lines es) (all_lines-AreLines es h))
        ∙ read_lines-all_lines es h),
  parse-print_trimmed es h,
)
