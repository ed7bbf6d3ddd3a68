-- ===== src/Files/Within.antt =====
-- What it means that a path lies within a root.
use code_quest.Common.{
  ℕ, ◌≡◌, refl, ◌∙◌, sym, ◌↔◌, Bool, true, false, not, ◌||◌, List, [], ◌∷◌, ◌++◌, Str,
  if◌then◌else◌, nat_beq, ◌==◌, str_eq, str_beq, str_beq_iff, arith, Bool-cases, inl, inr, any, All,
  All-append, append-nil, subst,
}
use code_quest.Common.Text.{lit, starts_with}
use code_quest.Files.Path.{
  split, init, walk, is_absolute, resolve, up, relative_segments, join, segments_beq, leads_down,
  is_path_within,
}

-- a segment of a path: not empty, and it does not begin with a slash
abbrev pub begins : Str → Bool
begins [] = false
begins (c ∷ s) = not (nat_beq c b'/')

abbrev pub dotted : List Str → Bool
dotted [] = false
dotted (x ∷ rest) = starts_with (lit "..") x

abbrev pub IsBegun : List Str → Type 0
IsBegun = All (λ (s : Str). begins s ≡ true)

segments_beq_iff : (r q : List Str) → (segments_beq r q ≡ true) ↔ (r ≡ q)
segments_beq_iff [] [] = (λ _. refl, λ _. refl)
segments_beq_iff [] (t ∷ q) = ground arith
segments_beq_iff (s ∷ r) [] = ground arith
segments_beq_iff (s ∷ r) (t ∷ q) = ground (arith, str_beq_iff s t, segments_beq_iff r q)

leads_down-up : (f : Str) (from to : List Str) → leads_down (join (up (f ∷ from) to)) ≡ false
unfolding leads_down join up starts_with
leads_down-up f [] [] = refl
leads_down-up f [] (t ∷ to) = refl
leads_down-up f (g ∷ from) to = refl

down-dotted : (to : List Str) → leads_down (join to) ≡ true → dotted to ≡ false
unfolding leads_down join starts_with
down-dotted [] h = refl
down-dotted (x ∷ []) h = ground (arith, h)
down-dotted ([] ∷ t ∷ to) h = refl
down-dotted ((c ∷ []) ∷ t ∷ to) h = ground (arith, h)
down-dotted ((c ∷ d ∷ s) ∷ t ∷ to) h = ground (arith, h)

down-begins :
    (x : Str) (rest : List Str)
    → begins x ≡ true
    → starts_with (lit "..") x ≡ false
    → leads_down (join (x ∷ rest)) ≡ true
unfolding leads_down join starts_with
down-begins [] rest b h = absurd (ground (arith, b))
down-begins (c ∷ s) [] b h = ground (arith, b, h)
down-begins (c ∷ []) (t ∷ rest) b h = ground (arith, b, h)
down-begins (c ∷ d ∷ s) (t ∷ rest) b h = ground (arith, b, h)

leads_down-prefix :
    (from to : List Str)
    → leads_down (join (relative_segments from to)) ≡ true
    → (rest : List Str) × (to ≡ (from ++ rest)) × (dotted rest ≡ false)
unfolding relative_segments
leads_down-prefix [] to h = (to, refl, down-dotted to h)
leads_down-prefix (f ∷ from) [] h = absurd (ground (arith, h, leads_down-up f from []))
leads_down-prefix (f ∷ from) (t ∷ to) h = elim (Bool-cases (str_beq f t)) [
  | inl e ↦
      let (rest, split, plain) = leads_down-prefix from to (ground (arith, h, e)) in
      (rest, ground (arith, split, str_beq_iff f t, e), plain)
  | inr e ↦ absurd (ground (arith, h, e, leads_down-up f from (t ∷ to)))
]

prefix-leads_down :
    (from rest : List Str) (x : Str)
    → begins x ≡ true
    → starts_with (lit "..") x ≡ false
    → leads_down (join (relative_segments from (from ++ x ∷ rest))) ≡ true
unfolding relative_segments
prefix-leads_down [] rest x b h = down-begins x rest b h
prefix-leads_down (f ∷ from) rest x b h =
    ground (arith, prefix-leads_down from rest x b h, str_beq_iff f f)

abbrev HasNoSlash : Str → Type 0
HasNoSlash s = any (λ (c : ℕ). nat_beq c b'/') s ≡ false

prepend-HasNoSlash :
    (c : ℕ) (pieces : List Str)
    → All HasNoSlash pieces
    → All HasNoSlash (elim pieces [
      | [] ↦ [] ∷ []
      | piece ∷ rest ↦ if nat_beq c b'/' then [] ∷ piece ∷ rest else (c ∷ piece) ∷ rest
    ])
prepend-HasNoSlash c [] h = (refl, tt)
prepend-HasNoSlash c (piece ∷ rest) (p, h) = ground (arith, p, h)

split-HasNoSlash : (s : Str) → All HasNoSlash (split s)
unfolding split
split-HasNoSlash [] = (refl, tt)
split-HasNoSlash (c ∷ s) = prepend-HasNoSlash c (split s) (split-HasNoSlash s)

init-IsBegun : (at : List Str) → IsBegun at → IsBegun (init at)
init-IsBegun [] h = tt
init-IsBegun (x ∷ []) h = tt
init-IsBegun (x ∷ y ∷ r) (p, h) = (p, init-IsBegun (y ∷ r) h)

if-IsBegun : (b : Bool) (r q : List Str) → IsBegun r → IsBegun q → IsBegun (if b then r else q)
if-IsBegun true r q h k = h
if-IsBegun false r q h k = k

step-IsBegun :
    (at : List Str) (piece : Str)
    → IsBegun at
    → HasNoSlash piece
    → IsBegun (
        if piece == [] || piece == lit "."
        then at
        else if piece == lit ".."
        then init at
        else at ++ piece ∷ [])
step-IsBegun at [] h k = h
step-IsBegun at (c ∷ s) h k =
    if-IsBegun ((c ∷ s) == [] || (c ∷ s) == lit ".") at
      (if (c ∷ s) == lit ".." then init at else at ++ (c ∷ s) ∷ []) h
      (if-IsBegun ((c ∷ s) == lit "..") (init at) (at ++ (c ∷ s) ∷ []) (init-IsBegun at h)
        (All-append (λ (t : Str). begins t ≡ true) at ((c ∷ s) ∷ []) h (ground (arith, k), tt)))

walk-IsBegun :
    (at pieces : List Str) → IsBegun at → All HasNoSlash pieces → IsBegun (walk at pieces)
unfolding walk
walk-IsBegun at [] h k = h
walk-IsBegun at (piece ∷ pieces) h (k, ks) =
    walk-IsBegun
      (if piece == [] || piece == lit "."
        then at
        else if piece == lit ".."
        then init at
        else at ++ piece ∷ [])
      pieces (step-IsBegun at piece h k) ks

resolve-IsBegun : (cwd : List Str) (path : Str) → IsBegun cwd → IsBegun (resolve cwd path)
unfolding resolve
resolve-IsBegun cwd path h = elim (Bool-cases (is_absolute path)) [
  | inl e ↦ rw e (walk-IsBegun [] (split path) tt (split-HasNoSlash path))
  | inr e ↦ rw e (walk-IsBegun cwd (split path) h (split-HasNoSlash path))
]

append-begins : (from rest : List Str) (x : Str) → IsBegun (from ++ x ∷ rest) → begins x ≡ true
append-begins [] rest x (b, h) = b
append-begins (f ∷ from) rest x (b, h) = append-begins from rest x h

within-rest :
    (cwd : List Str) (root path : Str)
    → IsBegun cwd
    → (rest : List Str) → resolve cwd path ≡ (resolve cwd root ++ rest)
    → dotted rest ≡ false
    → is_path_within cwd root path ≡ true
unfolding is_path_within
within-rest cwd root path h [] split_so plain = ground (
  arith,
  split_so,
  append-nil (resolve cwd root),
  segments_beq_iff (resolve cwd path) (resolve cwd root),
)
within-rest cwd root path h (x ∷ rest) split_so plain =
    let b =
      append-begins (resolve cwd root) rest x
        (subst IsBegun split_so (resolve-IsBegun cwd path h)) in
    let down = prefix-leads_down (resolve cwd root) rest x b plain in ground (arith, split_so, down)

-- A path lies within a root exactly if its normal form is that of the root with further segments
-- behind it, none or some of which the first does not begin with two dots. (A working directory
-- is given by its segments, which are not empty and do not begin with a slash.)
pub is_path_within_iff :
    (cwd : List Str) (root path : Str)
    → IsBegun cwd
    → (is_path_within cwd root path ≡ true) ↔ (
        (rest : List Str) × (resolve cwd path ≡ (resolve cwd root ++ rest)) × (dotted rest ≡ false))
unfolding is_path_within
is_path_within_iff cwd root path h = (
  λ w. elim (Bool-cases (segments_beq (resolve cwd path) (resolve cwd root))) [
    | inl e ↦ (
      [],
      (segments_beq_iff (resolve cwd path) (resolve cwd root)).0 e
          ∙ sym (append-nil (resolve cwd root)),
      refl,
    )
    | inr e ↦ leads_down-prefix (resolve cwd root) (resolve cwd path) (ground (arith, w, e))
  ],
  λ (rest, split_so, plain). within-rest cwd root path h rest split_so plain,
)
