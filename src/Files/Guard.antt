-- ===== src/Files/Guard.antt =====
-- packages/filesystem/src/root-guard-filesystem.ts: each operation passes on to the file system
-- behind it, a parameter, if the paths it names lie within the roots.
use code_quest.Common.{
  ℕ, ◌≡◌, refl, Bool, true, false, List, [], ◌∷◌, Option, none, some, Str, if◌then◌else◌, str_eq,
  arith, any, last?, or_default,
}
use code_quest.Common.Text.{lit}
use code_quest.Files.Path.{resolve, is_path_within}

pub data FileKind : Type 0 where
  file directory : FileKind

pub record ReadFileOpts : Type 0 where
  pub cwd : Option Str
  pub max_bytes : Option ℕ

-- a call of the interface `Filesystem`
pub data Request : Type 0 where
  browse_directories : (path : Option Str) → Request
  browse_entries : (path : Option Str) → (show_hidden : Option Bool) → Request
  read_file : (path : Str) → Option ReadFileOpts → Request
  read_lines : (path : Str) → Request
  write_file : (path content : Str) → Request
  create : (path : Str) → FileKind → Request
  delete : (path : Str) → Request
  rename copy move : (from to : Str) → Request
  list_files : (cwd pattern : Str) → Request
  exists is_directory stat_kind : (path : Str) → Request

-- What comes of a call: the same call of the file system behind, the roots themselves, as
-- directories with name and path, an error as a value, or an exception that names the path.
pub data Answer : Type 0 where
  passes : Request → Answer
  roots_listed : List (Str × List Str) → Answer
  error : Str → Answer
  outside : (path : Str) → Answer

module _ (process_cwd : List Str) (roots : List Str) where
  unfoldable pub is_within : Str → Bool
  is_within path = any (λ (root : Str). is_path_within process_cwd root path) roots

  -- `guard`, and the rest of the operation
  unfoldable pub guard : Str → Answer → Answer
  unfolding is_within
  guard path next = if is_within path then next else outside path

  unfoldable pub guard_both : Str → Str → Answer → Answer
  unfolding guard
  guard_both from to next = guard from (guard to next)

  -- the name of a root is its last segment
  unfoldable pub root_entries : List Str → List (Str × List Str)
  root_entries [] = []
  root_entries (r ∷ rs) =
      (or_default (last? (resolve process_cwd r)) [], resolve process_cwd r) ∷ root_entries rs

  unfoldable pub answer : Request → Answer
  unfolding guard guard_both root_entries is_within
  answer (browse_directories none) = roots_listed (root_entries roots)
  answer (browse_directories (some [])) = roots_listed (root_entries roots)
  answer (browse_directories (some (c ∷ path))) =
      guard (c ∷ path) (passes (browse_directories (some (c ∷ path))))
  answer (browse_entries none hidden) = roots_listed (root_entries roots)
  answer (browse_entries (some []) hidden) = roots_listed (root_entries roots)
  answer (browse_entries (some (c ∷ path)) hidden) =
      guard (c ∷ path) (passes (browse_entries (some (c ∷ path)) hidden))
  answer (read_file path none) = guard path (passes (read_file path none))
  answer (read_file path (some opts)) = elim opts.cwd [
    | none ↦ guard path (passes (read_file path (some opts)))
    | some cwd ↦ elim cwd [
      | [] ↦ guard path (passes (read_file path (some opts)))
      | c ∷ rest ↦
          if is_within (c ∷ rest)
          then passes (read_file path (some opts))
          else error (lit "Path traversal not allowed")
    ]
  ]
  answer (read_lines path) = guard path (passes (read_lines path))
  answer (write_file path content) = guard path (passes (write_file path content))
  answer (create path kind) = guard path (passes (create path kind))
  answer (delete path) = guard path (passes (delete path))
  answer (rename from to) = guard_both from to (passes (rename from to))
  answer (copy from to) = guard_both from to (passes (copy from to))
  answer (move from to) = guard_both from to (passes (move from to))
  answer (list_files cwd pattern) = guard cwd (passes (list_files cwd pattern))
  answer (exists path) = guard path (passes (exists path))
  answer (is_directory path) = guard path (passes (is_directory path))
  answer (stat_kind path) = guard path (passes (stat_kind path))

  abbrev pub read_path : Str → Option Str → Str
  read_path path none = path
  read_path path (some []) = path
  read_path path (some (c ∷ cwd)) = c ∷ cwd

  abbrev pub listed : Option Str → List Str
  listed none = []
  listed (some path) = path ∷ []

  -- the paths that a call is judged by: for a read with a working directory, that directory
  abbrev pub paths : Request → List Str
  paths (browse_directories p) = listed p
  paths (browse_entries p hidden) = listed p
  paths (read_file path none) = path ∷ []
  paths (read_file path (some opts)) = read_path path opts.cwd ∷ []
  paths (read_lines path) = path ∷ []
  paths (write_file path content) = path ∷ []
  paths (create path kind) = path ∷ []
  paths (delete path) = path ∷ []
  paths (rename from to) = from ∷ to ∷ []
  paths (copy from to) = from ∷ to ∷ []
  paths (move from to) = from ∷ to ∷ []
  paths (list_files cwd pattern) = cwd ∷ []
  paths (exists path) = path ∷ []
  paths (is_directory path) = path ∷ []
  paths (stat_kind path) = path ∷ []

  -- the judgement of a list of paths: the first that is outside, if there is one
  abbrev pub first_outside : List Str → Option Str
  first_outside [] = none
  first_outside (p ∷ ps) = if is_within p then first_outside ps else some p

  abbrev pub names_root : Request → Bool
  names_root (browse_directories none) = true
  names_root (browse_directories (some [])) = true
  names_root (browse_entries none hidden) = true
  names_root (browse_entries (some []) hidden) = true
  names_root _ = false

  abbrev pub refusal : Request → Str → Answer
  refusal (read_file path (some opts)) p = elim opts.cwd [
    | none ↦ outside p
    | some cwd ↦ elim cwd [ [] ↦ outside p | c ∷ rest ↦ error (lit "Path traversal not allowed") ]
  ]
  refusal r p = outside p

  abbrev pub judged : Request → Option Str → Answer
  judged r none = passes r
  judged r (some p) = refusal r p

  -- Every call but a browse of no path is judged by the paths that it names, but a read with a
  -- working directory by that directory alone. It reaches the file system behind, as it is, exactly if all
  -- these paths lie within some root; else it is refused on account of the first
  -- that does not, and nothing is called. A browse of no path lists the roots.
  pub answer-judged :
      (r : Request)
      → answer r ≡ (
          if names_root r
          then roots_listed (root_entries roots)
          else judged r (first_outside (paths r)))
  unfolding answer guard guard_both is_within
  answer-judged (browse_directories none) = refl
  answer-judged (browse_directories (some [])) = refl
  answer-judged (browse_directories (some (c ∷ path))) = ground arith
  answer-judged (browse_entries none hidden) = refl
  answer-judged (browse_entries (some []) hidden) = refl
  answer-judged (browse_entries (some (c ∷ path)) hidden) = ground arith
  answer-judged (read_file path none) = ground arith
  answer-judged (read_file path (some opts)) = ground arith
  answer-judged (read_lines path) = ground arith
  answer-judged (write_file path content) = ground arith
  answer-judged (create path kind) = ground arith
  answer-judged (delete path) = ground arith
  answer-judged (rename from to) = ground arith
  answer-judged (copy from to) = ground arith
  answer-judged (move from to) = ground arith
  answer-judged (list_files cwd pattern) = ground arith
  answer-judged (exists path) = ground arith
  answer-judged (is_directory path) = ground arith
  answer-judged (stat_kind path) = ground arith
