-- ===== src/Server/RateLimit/Window.antt =====
-- What the sliding window of server/middleware/rate-limit.ts lets through.
use micro_agent_protocol.Base.{
  ℕ, ◌+◌, ◌-◌, ◌≤◌, ◌<◌, some, Bool, true, false, ◌&&◌, List, [], ◌∷◌, ◌++◌, ◌≡◌, refl, ap, ◌⊎◌,
  inl, inr, length, length-append, ltb, leb, if◌then◌else◌, arith, Bool-cases, All,
}
use micro_agent_protocol.Server.RateLimit.{expire, consume_rate_limit_slot}

-- How many of the times lie in the window that ends at `t`.
abbrev pub in_window : ℕ → ℕ → ℕ → Bool
in_window w t e = leb e t && leb t (e + w)

abbrev pub count_in : ℕ → ℕ → List ℕ → ℕ
count_in w t [] = 0
count_in w t (e ∷ es) = (if in_window w t e then 1 else 0) + count_in w t es

-- The times at which calls get a slot, of calls at these times.
unfoldable pub admissions : ℕ → ℕ → List ℕ → List ℕ → List ℕ
admissions w limit events [] = []
admissions w limit events (now ∷ calls) =
    let slot = consume_rate_limit_slot w now (some limit) events in
    let rest = admissions w limit slot.0 calls in if slot.1.allowed then now ∷ rest else rest

-- The clock does not go back.
abbrev pub IsAscending : ℕ → List ℕ → Type 0
IsAscending m [] = Unit
IsAscending m (now ∷ calls) = (m ≤ now) × IsAscending now calls

count_in-append :
    (w t : ℕ) (xs ys : List ℕ) → count_in w t (xs ++ ys) ≡ count_in w t xs + count_in w t ys
count_in-append w t [] ys = omega arith
count_in-append w t (x ∷ xs) ys = omega (arith, count_in-append w t xs ys)

count_in-le-length : (w t : ℕ) (xs : List ℕ) → count_in w t xs ≤ length xs
count_in-le-length w t [] = omega arith
count_in-le-length w t (x ∷ xs) = ground (arith, count_in-le-length w t xs)

-- Times that have left the window by `now` are in no later one.
abbrev Gone : ℕ → ℕ → List ℕ → Type 0
Gone w now = All (λ e. e + w < now)

count_in-Gone : (w now t : ℕ) (xs : List ℕ) → now ≤ t → Gone w now xs → count_in w t xs ≡ 0
count_in-Gone w now t [] h g = refl
count_in-Gone w now t (x ∷ xs) h g = ground (arith, count_in-Gone w now t xs h g.1)

Gone-later : (w m now : ℕ) (xs : List ℕ) → m ≤ now → Gone w m xs → Gone w now xs
Gone-later w m now [] h g = tt
Gone-later w m now (x ∷ xs) h g = (omega arith, Gone-later w m now xs h g.1)

Gone-append : (w now : ℕ) (xs ys : List ℕ) → Gone w now xs → Gone w now ys → Gone w now (xs ++ ys)
Gone-append w now [] ys g h = h
Gone-append w now (x ∷ xs) ys g h = (g.0, Gone-append w now xs ys g.1 h)

-- The loop cuts a list in two: what has left the window, and the rest.
expire_split :
    (w now : ℕ) (es : List ℕ) → (gone : List ℕ) × (es ≡ gone ++ expire w now es) × Gone w now gone
unfolding expire
expire_split w now [] = ([], refl, tt)
expire_split w now (e ∷ es) = elim (Bool-cases (ltb w (now - e))) [
  | inl left ↦
      let (gone, cut, g) = expire_split w now es in
      rw left (e ∷ gone, ap (◌∷◌ e) cut, (ground arith, g))
  | inr stays ↦ rw stays ([], refl, tt)
]

-- What a call does to the times that are kept.
consume_cases :
    (w now limit : ℕ) (es : List ℕ)
    → let kept = expire w now es in
      let slot = consume_rate_limit_slot w now (some limit) es in
      ((slot.1.allowed ≡ true) × (slot.0 ≡ kept ++ now ∷ []) × (length kept < limit))
      ⊎ ((slot.1.allowed ≡ false) × (slot.0 ≡ kept) × (limit ≤ length kept))
unfolding consume_rate_limit_slot
consume_cases w now limit es = elim (Bool-cases (leb limit (length (expire w now es)))) [
  | inl full ↦ inr (rw full, rw full, ground arith)
  | inr free ↦ inl (rw free, rw free, ground arith)
]

-- `old` are times that were dropped, `events` those that are kept.
abbrev Bounded : ℕ → ℕ → List ℕ → List ℕ → Type 0
Bounded w limit old events = (t : ℕ) → count_in w t old + count_in w t events ≤ limit

admitted-Bounded :
    (w now limit : ℕ) (old kept : List ℕ)
    → Gone w now old
    → length kept < limit
    → Bounded w limit old kept
    → Bounded w limit old (kept ++ now ∷ [])
admitted-Bounded w now limit old kept g room b t = elim (Bool-cases (leb now t)) [
  | inl late ↦ omega (
    arith,
    count_in-Gone w now t old (ground arith) g,
    count_in-le-length w t (kept ++ now ∷ []),
    length-append kept (now ∷ []),
  )
  | inr early ↦ ground (arith, count_in-append w t kept (now ∷ []), b t)
]

admissions-Bounded :
    (w limit m : ℕ) (old events calls : List ℕ)
    → Gone w m old
    → IsAscending m calls
    → Bounded w limit old events
    → (t : ℕ)
    → count_in w t old + count_in w t events + count_in w t (admissions w limit events calls)
      ≤ limit
unfolding admissions
admissions-Bounded w limit m old events [] g asc b t = ground (arith, b t)
admissions-Bounded w limit m old events (now ∷ calls) g asc b t =
    let (gone, cut, left) = expire_split w now events in
    let kept = expire w now events in
    let old' = old ++ gone in
    let g' = Gone-append w now old gone (Gone-later w m now old asc.0 g) left in
    let b' : Bounded w limit old' kept = λ u. omega (
      arith,
      b u,
      count_in-append w u old gone,
      count_in-append w u gone kept,
      ap (count_in w u) cut,
    ) in
    elim (consume_cases w now limit events) [
      | inl (passed, is, room) ↦
          let b'' = admitted-Bounded w now limit old' kept g' room b' in
          rw (passed, is)
            (omega (
              arith,
              admissions-Bounded w limit now old' (kept ++ now ∷ []) calls g' asc.1 b'' t,
              count_in-append w t old gone,
              count_in-append w t gone kept,
              count_in-append w t kept (now ∷ []),
              ap (count_in w t) cut,
            ))
      | inr (refused, is, full) ↦
          rw (refused, is)
            (omega (
              arith,
              admissions-Bounded w limit now old' kept calls g' asc.1 b' t,
              count_in-append w t old gone,
              count_in-append w t gone kept,
              ap (count_in w t) cut,
            ))
    ]

-- Whatever calls are made, at times that do not fall, at most `limit` of them get a slot in any
-- window of the given length.
pub window_bound :
    (w limit : ℕ) (calls : List ℕ)
    → IsAscending 0 calls
    → (t : ℕ) → count_in w t (admissions w limit [] calls) ≤ limit
window_bound w limit calls asc t =
    omega (arith, admissions-Bounded w limit 0 [] [] calls tt asc (λ u. omega arith) t)
