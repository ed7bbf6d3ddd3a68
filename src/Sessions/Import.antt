-- ===== src/Sessions/Import.antt =====
-- packages/session-store/src/session-migrator.ts: which sessions were imported and exported. A scanner
-- is what it found; a share of lines is compared exactly.
use code_quest.Common.{
  ℕ, ◌+◌, ◌-◌, ◌*◌, ◌≤◌, ◌≡◌, refl, Bool, true, false, not, ◌&&◌, List, [], ◌∷◌, ◌++◌, map, Option,
  none, some, Str, if◌then◌else◌, str_eq, str_beq, str_beq_iff, nat_beq, leb, ltb, or_default,
  length, filter, arith,
}
use code_quest.Common.Keys.{member, add}
use code_quest.Common.Distinct.{occurrences}

pub record SessionSummary : Type 0 where
  pub session_id : Str
  pub file_path : Option Str
  pub decodable_lines : Option ℕ

pub record ProjectSummary : Type 0 where
  pub cwd : Str
  pub sessions : List SessionSummary

pub record ProjectInfo : Type 0 where
  pub cwd : Str
  pub sessions : List SessionSummary
  pub not_imported_count : ℕ
  pub imported_ids : List Str

pub data ImportStatus : Type 0 where
  not_imported imported partial : ImportStatus

abbrev pub ids_of : List SessionSummary → List Str
ids_of sessions = map (λ s. s.session_id) sessions

-- `new Set(...)`
unfoldable pub to_set : List Str → List Str → List Str
to_set acc [] = acc
to_set acc (x ∷ xs) = to_set (add x acc) xs

abbrev pub all_ids : List ProjectSummary → List Str
all_ids [] = []
all_ids (p ∷ ps) = ids_of p.sessions ++ all_ids ps

unfoldable pub project_info : List Str → ProjectSummary → ProjectInfo
unfolding to_set
project_info all_imported p =
    let imported = to_set [] (filter (λ id. member id all_imported) (ids_of p.sessions)) in
    record {
      cwd = p.cwd;
      sessions = p.sessions;
      not_imported_count = length p.sessions - length imported;
      imported_ids = imported;
    }

unfoldable pub scan_projects : (source target : List ProjectSummary) → List ProjectInfo
unfolding project_info to_set
scan_projects source target = map (project_info (to_set [] (all_ids target))) source

-- `targetCount >= threshold * 0.95`
unfoldable pub get_import_status : SessionSummary → (target_count : ℕ) → ImportStatus
get_import_status session target_count =
    if nat_beq target_count 0
    then not_imported
    else if leb (95 * or_default session.decodable_lines 0) (100 * target_count)
    then imported
    else partial

-- `count` is `countEvents`, and `has` is `hasSession`, for sessions without a set of ids.
unfoldable pub resolve_import_status :
    (has : Str → Bool)
    → (count : Str → ℕ) → (imported_ids : Option (List Str)) → SessionSummary
    → ImportStatus
unfolding get_import_status
resolve_import_status has count none s =
    get_import_status s (if has s.session_id then count s.session_id else 0)
resolve_import_status has count (some ids) s =
    get_import_status s (if member s.session_id ids then count s.session_id else 0)

abbrev pub is_given : Option Str → Bool
is_given none = false
is_given (some []) = false
is_given (some (_ ∷ _)) = true

unfoldable pub is_exported : List Str → SessionSummary → Bool
is_exported exported_ids s = is_given s.file_path && member s.session_id exported_ids

pub record ExportableProject : Type 0 where
  pub cwd : Str
  pub sessions : List (SessionSummary × Bool)
  pub not_exported_count : ℕ

abbrev pub with_status : List Str → List SessionSummary → List (SessionSummary × Bool)
unfolding is_exported
with_status ids [] = []
with_status ids (s ∷ ss) = (s, is_exported ids s) ∷ with_status ids ss

abbrev pub not_exported : List (SessionSummary × Bool) → ℕ
not_exported [] = 0
not_exported ((_, b) ∷ ss) = (if b then 0 else 1) + not_exported ss

abbrev pub has_sessions : ExportableProject → Bool
has_sessions p = elim p.sessions [ [] ↦ false | _ ∷ _ ↦ true ]

unfoldable pub scan_exportable : (target source : List ProjectSummary) → List ExportableProject
unfolding with_status to_set
scan_exportable target source = filter has_sessions (
    map
      (λ p.
        let sessions = with_status (to_set [] (all_ids source)) p.sessions in
        record { cwd = p.cwd; sessions = sessions; not_exported_count = not_exported sessions })
      target)

member-occurrences : (x : Str) (xs : List Str) → member x xs ≡ ltb 0 (occurrences x xs)
unfolding member
member-occurrences x [] = refl
member-occurrences x (y ∷ ys) = ground (arith, member-occurrences x ys)

length-add :
    (x : Str) (xs : List Str)
    → length (add x xs) ≡ (if member x xs then length xs else length xs + 1)
unfolding add member
length-add x [] = refl
length-add x (y ∷ ys) = ground (arith, length-add x ys)

occurrences-add :
    (x u : Str) (xs : List Str)
    → occurrences u (add x xs) ≤ occurrences u xs + (if str_beq x u then 1 else 0)
unfolding add
occurrences-add x u [] = ground arith
occurrences-add x u (y ∷ ys) =
    ground (arith, occurrences-add x u ys, str_beq_iff y x, str_beq_iff y u, str_beq_iff x u)

length-to_set :
    (acc xs : List Str)
    → ((u : Str) → occurrences u acc + occurrences u xs ≤ 1)
    → length (to_set acc xs) ≡ length acc + length xs
unfolding to_set
length-to_set acc [] h = omega arith
length-to_set acc (x ∷ xs) h = ground (
  arith,
  length-to_set (add x acc) xs (λ u. ground (arith, h u, occurrences-add x u acc)),
  h x,
  str_beq_iff x x,
  member-occurrences x acc,
  length-add x acc,
)

-- how many ids pass a test
abbrev pub count : (Str → Bool) → List Str → ℕ
count p [] = 0
count p (x ∷ xs) = (if p x then 1 else 0) + count p xs

occurrences-filter :
    (p : Str → Bool) (u : Str) (xs : List Str) → occurrences u (filter p xs) ≤ occurrences u xs
occurrences-filter p u [] = omega arith
occurrences-filter p u (x ∷ xs) = ground (arith, occurrences-filter p u xs)

length-filter :
    (p : Str → Bool) (xs : List Str) → length (filter p xs) + count (λ x. not (p x)) xs ≡ length xs
length-filter p [] = omega arith
length-filter p (x ∷ xs) = ground (arith, length-filter p xs)

length-ids_of : (sessions : List SessionSummary) → length (ids_of sessions) ≡ length sessions
length-ids_of [] = refl
length-ids_of (s ∷ ss) = ground (arith, length-ids_of ss)

-- For a project that lists no session twice, `not_imported_count` is the number of its sessions that
-- the target does not have.
pub not_imported_count-counts :
    (all_imported : List Str) (p : ProjectSummary)
    → ((u : Str) → occurrences u (ids_of p.sessions) ≤ 1)
    → (project_info all_imported p).not_imported_count
      ≡ count (λ id. not (member id all_imported)) (ids_of p.sessions)
unfolding project_info
not_imported_count-counts all_imported p h =
    let test : Str → Bool = λ id. member id all_imported in
    let kept = filter test (ids_of p.sessions) in
    omega (
      arith,
      length-to_set [] kept
          (λ u. omega (arith, h u, occurrences-filter test u (ids_of p.sessions))),
      length-filter test (ids_of p.sessions),
      length-ids_of p.sessions,
    )
