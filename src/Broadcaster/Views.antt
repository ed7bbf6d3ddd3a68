-- ===== src/Broadcaster/Views.antt =====
-- The types and the subscribers of a directory, and how often its sources were opened and stopped.
use code_quest.Common.{
  ℕ, ◌+◌, ◌≡◌, refl, Bool, false, not, ◌&&◌, List, [], ◌∷◌, ◌++◌, map, Option, none, some, Str,
  if◌then◌else◌, str_eq, str_beq, nat_eq, arith,
}
use code_quest.Common.Map.{Map, get, keys}
use code_quest.Common.Distinct.{occurrences}
use code_quest.Broadcaster.Defs.{
  Broadcaster, CwdEntry, TypeEntry, Effect, created, stopped, stop_all, is_empty,
}

abbrev pub View : Type 0
View = Option (List Str × Map Str ℕ)

-- the types and the subscribers of a directory
abbrev pub view : Option CwdEntry → View
view none = none
view (some e) = some (keys e.types, e.subs)

abbrev pub open_of : Str → View → ℕ
open_of t none = 0
open_of t (some (types, _)) = occurrences t types

abbrev pub has_subscriber : View → Bool
has_subscriber none = false
has_subscriber (some (_, subs)) = not (is_empty subs)

abbrev pub view_at : Str → Broadcaster → View
view_at cwd b = view (get cwd b.entries)

abbrev is_creation : Str → Str → Effect → ℕ
is_creation cwd t (created c u) = if str_beq c cwd && str_beq u t then 1 else 0
is_creation cwd t _ = 0

abbrev is_stop : Str → Str → Effect → ℕ
is_stop cwd t (stopped c u) = if str_beq c cwd && str_beq u t then 1 else 0
is_stop cwd t _ = 0

-- how often a source was created and stopped
abbrev pub creations : Str → Str → List Effect → ℕ
creations cwd t [] = 0
creations cwd t (e ∷ es) = is_creation cwd t e + creations cwd t es

abbrev pub stops : Str → Str → List Effect → ℕ
stops cwd t [] = 0
stops cwd t (e ∷ es) = is_stop cwd t e + stops cwd t es

pub creations-append :
    (cwd t : Str) (es fs : List Effect)
    → creations cwd t (es ++ fs) ≡ creations cwd t es + creations cwd t fs
creations-append cwd t [] fs = omega arith
creations-append cwd t (e ∷ es) fs = omega (arith, creations-append cwd t es fs)

pub stops-append :
    (cwd t : Str) (es fs : List Effect) → stops cwd t (es ++ fs) ≡ stops cwd t es + stops cwd t fs
stops-append cwd t [] fs = omega arith
stops-append cwd t (e ∷ es) fs = omega (arith, stops-append cwd t es fs)

pub creations-created :
    (cwd t c : Str) (ts : List Str)
    → creations cwd t (map (created c) ts) ≡ (if str_beq c cwd then occurrences t ts else 0)
creations-created cwd t c [] = ground arith
creations-created cwd t c (u ∷ ts) = ground (arith, creations-created cwd t c ts)

pub stops-created : (cwd t c : Str) (ts : List Str) → stops cwd t (map (created c) ts) ≡ 0
stops-created cwd t c [] = refl
stops-created cwd t c (u ∷ ts) = omega (arith, stops-created cwd t c ts)

pub stops-stop_all :
    (cwd t c : Str) (types : Map Str TypeEntry)
    → stops cwd t (stop_all c types) ≡ (if str_beq c cwd then occurrences t (keys types) else 0)
stops-stop_all cwd t c [] = ground arith
stops-stop_all cwd t c ((u, x) ∷ types) = ground (arith, stops-stop_all cwd t c types)

pub creations-stop_all :
    (cwd t c : Str) (types : Map Str TypeEntry) → creations cwd t (stop_all c types) ≡ 0
creations-stop_all cwd t c [] = refl
creations-stop_all cwd t c ((u, x) ∷ types) = omega (arith, creations-stop_all cwd t c types)

-- Effects that neither open nor stop a source.
abbrev pub IsQuiet : Str → Str → List Effect → Type 0
IsQuiet cwd t es = (creations cwd t es ≡ 0) × (stops cwd t es ≡ 0)
