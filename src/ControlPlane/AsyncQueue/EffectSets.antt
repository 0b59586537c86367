-- ===== src/ControlPlane/AsyncQueue/EffectSets.antt =====
-- The effects of a list of jobs of control-plane/async-queue.ts: marked in a set, and different from
-- one another.
use micro_agent_protocol.Base.{
  ◌≡◌, ◌≢◌, sym, subst, inl, inr, ℕ, zero, suc, String, some, true, false, not, List, [], ◌∷◌, ◌++◌,
  All, filter, arith, Option-cases, str_eq, str_eq_iff,
}
use micro_agent_protocol.ControlPlane.AsyncQueue.State.{Job, has_effect, effect_of}
use micro_agent_protocol.ControlPlane.AsyncQueue.Steps.{take_at}

-- The effects of the jobs are in the set.
abbrev pub Marked : List String → List Job → Type 0
Marked effects jobs = All (λ job. has_effect (effect_of job) effects ≡ true) jobs

-- The job has another effect than each of these.
abbrev pub Apart : Job → List Job → Type 0
Apart job jobs = All (λ other. effect_of job ≢ effect_of other) jobs

-- No two of the jobs have one effect.
abbrev pub Distinct : List Job → Type 0
Distinct [] = Unit
Distinct (job ∷ jobs) = Apart job jobs × Distinct jobs

pub has_effect-append :
    (e x : String) (es : List String) → has_effect e es ≡ true → has_effect e (es ++ x ∷ []) ≡ true
has_effect-append e x [] h = cc
has_effect-append e x (y ∷ es) h = ground (arith, has_effect-append e x es)

pub has_effect-last : (e : String) (es : List String) → has_effect e (es ++ e ∷ []) ≡ true
has_effect-last e [] = ground (arith, str_eq_iff e e)
has_effect-last e (y ∷ es) = ground (arith, has_effect-last e es)

pub Marked-more :
    (x : String) (es : List String) (jobs : List Job) → Marked es jobs → Marked (es ++ x ∷ []) jobs
Marked-more x es [] m = tt
Marked-more x es (job ∷ jobs) m =
    (has_effect-append (effect_of job) x es m.0, Marked-more x es jobs m.1)

pub Marked-append :
    (es : List String) (jobs : List Job) (job : Job)
    → Marked es jobs
    → has_effect (effect_of job) es ≡ true
    → Marked es (jobs ++ job ∷ [])
Marked-append es [] job m h = (h, tt)
Marked-append es (j ∷ jobs) job m h = (m.0, Marked-append es jobs job m.1 h)

Apart-append :
    (j : Job) (jobs : List Job) (job : Job)
    → Apart j jobs
    → effect_of j ≢ effect_of job
    → Apart j (jobs ++ job ∷ [])
Apart-append j [] job a n = (n, tt)
Apart-append j (k ∷ jobs) job a n = (a.0, Apart-append j jobs job a.1 n)

-- A job whose effect is not marked, beside jobs whose effects are.
pub Distinct-append :
    (es : List String) (jobs : List Job) (job : Job)
    → Marked es jobs
    → has_effect (effect_of job) es ≡ false
    → Distinct jobs
    → Distinct (jobs ++ job ∷ [])
Distinct-append es [] job m new d = (tt, tt)
Distinct-append es (j ∷ jobs) job m new d = (
  Apart-append j jobs job d.0 (λ same. ground (arith, m.0)),
  Distinct-append es jobs job m.1 new d.1,
)

-- A job, a list in which it stands at some place, and the list without it.
pub data Picks (y : Job) : List Job → List Job → Type 0 where
  here : {xs : List Job} → Picks y (y ∷ xs) xs
  there : {x : Job} {xs rest : List Job} → Picks y xs rest → Picks y (x ∷ xs) (x ∷ rest)

pub take_at-Picks :
    (n : ℕ) (xs rest : List Job) (y : Job) → take_at n xs ≡ some (y, rest) → Picks y xs rest
unfolding take_at
take_at-Picks n [] rest y h = cc
take_at-Picks zero (x ∷ xs) rest y h =
    subst (λ r. Picks y (x ∷ xs) r) (ground arith)
      (subst (λ z. Picks z (x ∷ xs) xs) (ground arith) here)
take_at-Picks (suc n) (x ∷ xs) rest y h = elim (Option-cases (take_at n xs)) [
  | inl e ↦ absurd (ground arith)
  | inr ((z, rest'), e) ↦
      subst (λ r. Picks y (x ∷ xs) r) (ground arith)
        (there (take_at-Picks n xs rest' y (ground arith)))
]

Apart-Picks :
    (x : Job) {y : Job} {xs rest : List Job}
    → Picks y xs rest
    → Apart x xs
    → (effect_of x ≢ effect_of y) × Apart x rest
Apart-Picks x here a = a
Apart-Picks x (there p) a = let (other, rest) = Apart-Picks x p a.1 in (other, (a.0, rest))

pub Distinct-Picks :
    {y : Job} {xs rest : List Job} → Picks y xs rest → Distinct xs → Apart y rest × Distinct rest
Distinct-Picks here d = d
Distinct-Picks (there {x = x} p) d =
    let (apart, distinct) = Distinct-Picks p d.1 in
    let (other, rest) = Apart-Picks x p d.0 in (((λ e. other (sym e)), apart), (rest, distinct))

pub Marked-Picks :
    (es : List String) {y : Job} {xs rest : List Job}
    → Picks y xs rest
    → Marked es xs
    → Marked es rest
Marked-Picks es here m = m.1
Marked-Picks es (there p) m = (m.0, Marked-Picks es p m.1)

has_effect-forget :
    (e x : String) (es : List String)
    → e ≢ x
    → has_effect e es ≡ true
    → has_effect e (filter (λ y. not (str_eq y x)) es) ≡ true
has_effect-forget e x [] n h = cc
has_effect-forget e x (y ∷ es) n h =
    ground (arith, str_eq_iff e y, str_eq_iff y x, has_effect-forget e x es n)

pub Marked-forget :
    (job : Job) (es : List String) (jobs : List Job)
    → Apart job jobs
    → Marked es jobs
    → Marked (filter (λ y. not (str_eq y (effect_of job))) es) jobs
Marked-forget job es [] a m = tt
Marked-forget job es (k ∷ jobs) a m = (
  has_effect-forget (effect_of k) (effect_of job) es (λ e. a.0 (sym e)) m.0,
  Marked-forget job es jobs a.1 m.1,
)
