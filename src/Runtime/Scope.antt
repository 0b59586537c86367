-- ===== src/Runtime/Scope.antt =====
-- runtime/micro-agent.ts: comparing a token's scope with a task's constraints, whatever the order of
-- their keys.
use micro_agent_protocol.Base.{
  ◌≡◌, refl, arith, ℕ, String, Bool, true, false, ◌&&◌, List, [], ◌∷◌, ◌++◌, ◌==◌, if◌then◌else◌,
  codes,
}
use micro_agent_protocol.Base.Json.{
  Value, undefined, array, object, Items, nil, cons, Fields, end, field, stringify, quote,
}

-- Insertion in the order of `localeCompare`, which `before` stands for; equal keys keep their order.
insert :
    (String → String → Bool) → String × List ℕ → List (String × List ℕ) → List (String × List ℕ)
insert before e [] = e ∷ []
insert before e (x ∷ xs) = if before x.0 e.0 then x ∷ insert before e xs else e ∷ x ∷ xs

sort : (String → String → Bool) → List (String × List ℕ) → List (String × List ℕ)
unfolding insert
sort before [] = []
sort before (e ∷ es) = insert before e (sort before es)

-- `join(",")`.
join : List (List ℕ) → List ℕ
join [] = []
join (s ∷ []) = s
join (s ∷ t ∷ ss) = s ++ b',' ∷ join (t ∷ ss)

entry_text : String × List ℕ → List ℕ
entry_text (key, nested) = quote key ++ b':' ∷ nested

entry_texts : List (String × List ℕ) → List (List ℕ)
unfolding entry_text
entry_texts [] = []
entry_texts (e ∷ es) = entry_text e ∷ entry_texts es

-- `stableStringify`; a template writes "undefined" for what has no JSON text,
-- and `join` writes nothing for it in an array.
mutual
  unfolding sort join entry_texts

  pub stable_stringify : (String → String → Bool) → Value → List ℕ
  stable_stringify before undefined = codes "undefined"
  stable_stringify before (array xs) = b'[' ∷ (join (stable_items before xs) ++ b']' ∷ [])
  stable_stringify before (object fs) =
      b'{' ∷ (join (entry_texts (sort before (stable_fields before fs))) ++ b'}' ∷ [])
  stable_stringify before v = stringify v

  stable_items : (String → String → Bool) → Items → List (List ℕ)
  stable_items before nil = []
  stable_items before (cons undefined vs) = [] ∷ stable_items before vs
  stable_items before (cons v vs) = stable_stringify before v ∷ stable_items before vs

  stable_fields : (String → String → Bool) → Fields → List (String × List ℕ)
  stable_fields before end = []
  stable_fields before (field k v fs) = (k, stable_stringify before v) ∷ stable_fields before fs

text_eq : List ℕ → List ℕ → Bool
text_eq [] [] = true
text_eq (x ∷ xs) (y ∷ ys) = x == y && text_eq xs ys
text_eq _ _ = false

unfoldable pub scope_matches : (String → String → Bool) → Fields → Fields → Bool
unfolding text_eq stable_stringify
scope_matches before scope constraints =
    text_eq (stable_stringify before (object scope)) (stable_stringify before (object constraints))

text_eq_refl : (xs : List ℕ) → text_eq xs xs ≡ true
unfolding text_eq
text_eq_refl [] = refl
text_eq_refl (x ∷ xs) = ground (arith, text_eq_refl xs)

-- A scope matches itself.
pub scope_matches_refl :
    (before : String → String → Bool) (scope : Fields) → scope_matches before scope scope ≡ true
unfolding scope_matches
scope_matches_refl before scope = text_eq_refl (stable_stringify before (object scope))
