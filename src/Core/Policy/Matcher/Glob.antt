-- ===== src/Core/Policy/Matcher/Glob.antt =====
-- The compiled matchers of core/policy/index.ts against what a capability glob means.
use micro_agent_protocol.Base.{
  ℕ, ◌==◌, ==_iff, String, true, false, List, [], ◌∷◌, ◌≡◌, ◌≢◌, refl, sym, subst, ◌↔◌, inl, inr,
  arith, Bool-cases, All, any, every, str_eq, str_eq_iff, codes, codes-injective,
}
use micro_agent_protocol.Core.Policy.Matcher.{
  IsPlain, compile_capability_matcher, is_dot, star, literal, regex_test, matches_capability,
}

-- A glob and a text that it matches: `*` takes any run of characters, all else takes itself.
pub data Globs : List ℕ → List ℕ → Type 0 where
  done : Globs [] []
  same : {x c : ℕ} {p s : List ℕ} → x ≢ b'*' → x ≡ c → Globs p s → Globs (x ∷ p) (c ∷ s)
  skip : {x : ℕ} {p s : List ℕ} → x ≡ b'*' → Globs p s → Globs (x ∷ p) s
  more : {x c : ℕ} {p s : List ℕ} → x ≡ b'*' → Globs (x ∷ p) s → Globs (x ∷ p) (c ∷ s)

-- No line terminator, which `.` does not match.
abbrev pub IsLine : List ℕ → Type 0
IsLine = All (λ c. is_dot c ≡ true)

pub every-IsLine : (s : List ℕ) → every is_dot s ≡ true → IsLine s
every-IsLine [] h = tt
every-IsLine (c ∷ s) h = (ground arith, every-IsLine s (ground arith))

star-Globs :
    (x : ℕ) (p : List ℕ)
    → x ≡ b'*'
    → ((s : List ℕ) → regex_test p s ≡ true → Globs p s)
    → (s : List ℕ) → star (regex_test p) s ≡ true
    → Globs (x ∷ p) s
unfolding star
star-Globs x p e ih [] h = skip e (ih [] h)
star-Globs x p e ih (c ∷ s) h = elim (Bool-cases (regex_test p (c ∷ s))) [
  | inl t ↦ skip e (ih (c ∷ s) t)
  | inr f ↦ more e (star-Globs x p e ih s (ground arith))
]

literal-Globs :
    (x : ℕ) (p : List ℕ)
    → x ≢ b'*'
    → ((s : List ℕ) → regex_test p s ≡ true → Globs p s)
    → (s : List ℕ) → literal x (regex_test p) s ≡ true
    → Globs (x ∷ p) s
unfolding literal
literal-Globs x p n ih [] h = cc
literal-Globs x p n ih (c ∷ s) h = same n (ground arith) (ih s (ground arith))

pub regex-Globs : (p s : List ℕ) → regex_test p s ≡ true → Globs p s
unfolding regex_test
regex-Globs [] [] h = done
regex-Globs [] (c ∷ s) h = cc
regex-Globs (x ∷ p) s h = elim (Bool-cases (x == b'*')) [
  | inl t ↦ star-Globs x p ((==_iff x b'*').0 t) (regex-Globs p) s (rw t at h)
  | inr f ↦ literal-Globs x p (λ e. cc (f, (==_iff x b'*').1 e)) (regex-Globs p) s (rw f at h)
]

star_now : (p s : List ℕ) → regex_test p s ≡ true → star (regex_test p) s ≡ true
unfolding star
star_now p [] h = h
star_now p (c ∷ s) h = ground arith

pub Globs-regex : {p s : List ℕ} → IsLine s → Globs p s → regex_test p s ≡ true
unfolding regex_test star literal
Globs-regex l done = refl
Globs-regex l (same {x} {c} {p} {s} n e g) = ground (arith, Globs-regex l.1 g)
Globs-regex l (skip {x} {p} {s} e g) = ground (arith, star_now p s (Globs-regex l g))
Globs-regex l (more {x} {c} {p} {s} e g) = ground (arith, Globs-regex l.1 g)

-- Without a `*`, a glob matches itself alone.
Globs-plain : {p s : List ℕ} → Globs p s → any (λ c. c == b'*') p ≡ false → p ≡ s
Globs-plain done h = refl
Globs-plain (same {x} {c} {p} {s} n e g) h = cc (Globs-plain g (ground arith))
Globs-plain (skip {x} {p} {s} e g) h = absurd (ground arith)
Globs-plain (more {x} {c} {p} {s} e g) h = absurd (ground arith)

Globs-refl : (p : List ℕ) → any (λ c. c == b'*') p ≡ false → Globs p p
Globs-refl [] h = done
Globs-refl (c ∷ p) h = same (λ e. ground arith) refl (Globs-refl p (ground arith))

pub Globs-star : (s : List ℕ) → Globs (b'*' ∷ []) s
Globs-star [] = skip refl done
Globs-star (c ∷ s) = more refl (Globs-star s)

plain_exact :
    (glob capability : String)
    → any (λ c. c == b'*') (codes glob) ≡ false
    → (str_eq glob capability ≡ true) ↔ Globs (codes glob) (codes capability)
plain_exact glob capability h = (
  λ e.
      subst (λ c. Globs (codes glob) (codes c)) ((str_eq_iff glob capability).0 e)
        (Globs-refl (codes glob) h),
  λ g. (str_eq_iff glob capability).1 (codes-injective glob capability (Globs-plain g h)),
)

-- For a glob without the characters that mean something else in a regular expression: the compiled
-- matcher, on each of its three paths, accepts a capability with no line terminator exactly if the
-- glob matches it.
pub matches_capability_exact :
    (glob capability : String)
    → IsPlain glob
    → IsLine (codes capability)
    → (matches_capability capability (compile_capability_matcher glob) ≡ true)
      ↔ Globs (codes glob) (codes capability)
unfolding matches_capability compile_capability_matcher
matches_capability_exact glob capability plain_glob l = elim (Bool-cases (str_eq glob "*")) [
  | inl all ↦ rw all (
    λ _.
        subst (λ g. Globs (codes g) (codes capability)) (sym ((str_eq_iff glob "*").0 all))
          (Globs-star (codes capability)),
    λ _. refl,
  )
  | inr one ↦ elim (Bool-cases (any (λ c. c == b'*') (codes glob))) [
    | inl starred ↦ rw (one, starred) (regex-Globs (codes glob) (codes capability), Globs-regex l)
    | inr plain ↦ rw (one, plain) (plain_exact glob capability plain)
  ]
]
