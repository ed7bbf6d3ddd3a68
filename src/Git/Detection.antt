-- ===== src/Git/Detection.antt =====
-- Which paths name a worktree.
use code_quest.Common.{
  ℕ, ◌≡◌, refl, ap, sym, Bool, true, false, not, ◌&&◌, [], ◌∷◌, ◌++◌, none, some, Str, str_eq,
  str_beq_iff, ◌==◌, arith, Bool-cases, Option-cases, inl, inr, any,
}
use code_quest.Common.Text.{lit}
use code_quest.Git.Worktree.{
  WorktreeInfo, is_separator, break_last, is_empty, worktree_name, detect_worktree,
}

-- no separator among the characters
abbrev pub is_plain : Str → Bool
is_plain s = not (any is_separator s)

break_last_plain : (s : Str) → is_plain s ≡ true → break_last s ≡ none
break_last_plain [] h = refl
break_last_plain (c ∷ s) h = ground (arith, h, break_last_plain s)

break_last-append :
    (p : Str) (c : ℕ) (name : Str)
    → is_separator c ≡ true
    → is_plain name ≡ true
    → break_last (p ++ c ∷ name) ≡ some (p, name)
break_last-append [] c name h k = ground (arith, h, break_last_plain name k)
break_last-append (d ∷ p) c name h k = ground (arith, break_last-append p c name h k)

break_last-none : (s : Str) → break_last s ≡ none → is_plain s ≡ true
break_last-none [] h = refl
break_last-none (c ∷ s) h = ground (arith, h, break_last-none s)

break_last-some :
    (s before name : Str)
    → break_last s ≡ some (before, name)
    → (c : ℕ) × (is_separator c ≡ true) × (is_plain name ≡ true) × (s ≡ (before ++ c ∷ name))
break_last-some [] before name h = absurd (ground (arith, h))
break_last-some (c ∷ s) before name h = elim (Option-cases (break_last s)) [
  | inl e ↦ elim (Bool-cases (is_separator c)) [
    | inl t ↦ (c, t, ground (arith, h, e, t, break_last-none s e), ground (arith, h, e, t))
    | inr f ↦ absurd (ground (arith, h, e, f))
  ]
  | inr ((p, n), e) ↦
      let (d, sep, plain, split) = break_last-some s p n e in
      (d, sep, ground (arith, h, e, plain), ground (arith, h, e, split))
]

-- A path with the directories `.claude` and `worktrees` before a last name that is not empty,
-- with a slash or a backslash before each, names the worktree, whatever stands in front.
pub detect_worktree-append :
    (root name : Str) (a b c x : ℕ)
    → is_separator a ≡ true
    → is_separator b ≡ true
    → is_separator c ≡ true
    → is_plain (x ∷ name) ≡ true
    → let path = root ++ a ∷ lit ".claude" ++ b ∷ lit "worktrees" ++ c ∷ x ∷ name in
      detect_worktree path ≡ some (record { name = x ∷ name; path = path; branch = none })
unfolding detect_worktree worktree_name
detect_worktree-append root name a b c x ha hb hc hn =
    let one =
      break_last-append (root ++ a ∷ lit ".claude" ++ b ∷ lit "worktrees") c (x ∷ name) hc hn in
    let two = break_last-append (root ++ a ∷ lit ".claude") b (lit "worktrees") hb refl in
    let three = break_last-append root a (lit ".claude") ha refl in ground (arith, one, two, three)

named_so :
    (path : Str) (w : WorktreeInfo) (p name q two root one : Str)
    → detect_worktree path ≡ some w
    → break_last path ≡ some (p, name)
    → break_last p ≡ some (q, two)
    → break_last q ≡ some (root, one)
    → ((not (is_empty name) && two == lit "worktrees" && one == lit ".claude") ≡ true)
      × (record { name = name; path = path; branch = none } ≡ w)
unfolding detect_worktree worktree_name
named_so path w p name q two root one h e f g =
    elim (Bool-cases (not (is_empty name) && two == lit "worktrees" && one == lit ".claude")) [
      | inl t ↦ (t, ground (arith, h, e, f, g, t))
      | inr t ↦ absurd (ground (arith, h, e, f, g, t))
    ]

-- Only such paths name a worktree: a path that does is some root with these two directories and the
-- worktree's name behind it, which is not empty and has no separator, and it is the path that the
-- worktree is given, with no branch.
pub detect_worktree-shape :
    (path : Str) (w : WorktreeInfo)
    → detect_worktree path ≡ some w
    → (w.path ≡ path)
      × (w.branch ≡ none)
      × (is_empty w.name ≡ false)
      × (is_plain w.name ≡ true)
      × ((root : Str) × (a : ℕ) × (b : ℕ) × (c : ℕ) × (is_separator a ≡ true)
          × (is_separator b ≡ true)
          × (is_separator c ≡ true)
          × (path ≡ (root ++ a ∷ lit ".claude" ++ b ∷ lit "worktrees" ++ c ∷ w.name)))
unfolding detect_worktree worktree_name
detect_worktree-shape path w h = elim (Option-cases (break_last path)) [
  | inl e ↦ absurd (ground (arith, h, e))
  | inr ((p, name), e) ↦ elim (Option-cases (break_last p)) [
    | inl f ↦ absurd (ground (arith, h, e, f))
    | inr ((q, two), f) ↦ elim (Option-cases (break_last q)) [
      | inl g ↦ absurd (ground (arith, h, e, f, g))
      | inr ((root, one), g) ↦
          let (c, hc, plain, split_c) = break_last-some path p name e in
          let (b, hb, plain_two, split_b) = break_last-some p q two f in
          let (a, ha, plain_one, split_a) = break_last-some q root one g in
          let (tested, same) = named_so path w p name q two root one h e f g in
          let e_two = (str_beq_iff two (lit "worktrees")).0 (ground (arith, tested)) in
          let e_one = (str_beq_iff one (lit ".claude")).0 (ground (arith, tested)) in
          (
            sym (ap (λ (v : WorktreeInfo). v.path) same),
            sym (ap (λ (v : WorktreeInfo). v.branch) same),
            ground (arith, tested, same),
            ground (arith, plain, same),
            (
              root,
              a,
              b,
              c,
              ha,
              hb,
              hc,
              ground (arith, split_a, split_b, split_c, e_one, e_two, same),
            ),
          )
    ]
  ]
]
