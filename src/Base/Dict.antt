-- ===== src/Base/Dict.antt =====
-- The `Map` of the language: an association list in insertion order, with at most one entry to a key.
use Prim.Native.String.{String}
use mathlib.Core.Path.{◌≡◌, refl, sym, ap}
use mathlib.Core.Logic.{inl, inr}
use mathlib.Core.List.{Memᴰ, List, [], ◌∷◌, ◌++◌}
use mathlib.Core.Bool.{false}
use mathlib.Core.Option.{Option, none, some}
use native.Mathlib.Omega.{arith}
use micro_agent_protocol.Base.Tests.{Bool-cases, if◌then◌else◌}
use micro_agent_protocol.Base.Text.{str_eq, str_eq_iff, str_eq_refl}

abbrev pub Dict {ℓ} : Type ℓ → Type ℓ
Dict V = List (String × V)

module _ {ℓ} {V : Type ℓ} where
  -- `m.get(k)`.
  unfoldable pub get : String → Dict V → Option V
  get k [] = none
  get k ((j, v) ∷ m) = if str_eq j k then some v else get k m

  -- `m.set(k, v)`: an entry that is there keeps its place.
  unfoldable pub set : String → V → Dict V → Dict V
  set k v [] = (k, v) ∷ []
  set k v ((j, w) ∷ m) = if str_eq j k then (j, v) ∷ m else (j, w) ∷ set k v m

  -- `m.delete(k)`.
  unfoldable pub remove : String → Dict V → Dict V
  remove k [] = []
  remove k ((j, w) ∷ m) = let rest = remove k m in if str_eq j k then rest else (j, w) ∷ rest

  -- `[...m.values()]`.
  abbrev pub values : Dict V → List V
  values [] = []
  values ((j, v) ∷ m) = v ∷ values m

  -- `m.keys()`.
  abbrev pub keys : Dict V → List String
  keys [] = []
  keys ((j, v) ∷ m) = j ∷ keys m

  pub get-set :
      (k j : String) (v : V) (m : Dict V)
      → get j (set k v m) ≡ (if str_eq k j then some v else get j m)
  unfolding get set
  get-set k j v [] = refl
  get-set k j v ((i, w) ∷ m) =
      ground (arith, str_eq_iff k j, str_eq_iff i k, str_eq_iff i j, get-set k j v m)

  pub get-set_self : (k : String) (v : V) (m : Dict V) → get k (set k v m) ≡ some v
  get-set_self k v m = simp (get-set, str_eq_refl)

  pub get-remove :
      (k j : String) (m : Dict V) → get j (remove k m) ≡ (if str_eq k j then none else get j m)
  unfolding get remove
  get-remove k j [] = ground arith
  get-remove k j ((i, w) ∷ m) =
      ground (arith, str_eq_iff k j, str_eq_iff i k, str_eq_iff i j, get-remove k j m)

  pub get-append :
      (j : String) (m : Dict V) (k : String) (v : V) (n : Dict V)
      → get j (m ++ (k, v) ∷ n) ≡ none
      → str_eq k j ≡ false
  unfolding get
  get-append j [] k v n h = ground arith
  get-append j ((i, w) ∷ m) k v n h = ground (arith, get-append j m k v n)

  -- No key stands twice.
  abbrev pub Unique : Dict V → Type ℓ
  Unique [] = Unit
  Unique ((j, v) ∷ m) = (get j m ≡ none) × Unique m

  pub set-Unique : (k : String) (v : V) (m : Dict V) → Unique m → Unique (set k v m)
  unfolding get set
  set-Unique k v [] u = (refl, tt)
  set-Unique k v ((j, w) ∷ m) u =
      ground (arith, str_eq_iff j k, str_eq_iff k j, get-set k j v m, set-Unique k v m u.1)

  pub remove-Unique : (k : String) (m : Dict V) → Unique m → Unique (remove k m)
  unfolding remove
  remove-Unique k [] u = tt
  remove-Unique k ((j, w) ∷ m) u = ground (arith, get-remove k j m, remove-Unique k m u.1)

  -- An entry, and the value that it holds.
  pub data Holds (k : String) (v : V) : Dict V → Type ℓ where
    first : {j : String} {w : V} {m : Dict V} → j ≡ k → w ≡ v → Holds k v ((j, w) ∷ m)
    later : {j : String} {w : V} {m : Dict V} → Holds k v m → Holds k v ((j, w) ∷ m)

  pub get-Holds : (k : String) (v : V) (m : Dict V) → get k m ≡ some v → Holds k v m
  unfolding get
  get-Holds k v [] h = cc
  get-Holds k v ((j, w) ∷ m) h = elim (Bool-cases (str_eq j k)) [
    | inl same ↦ first ((str_eq_iff j k).0 same) (ground arith)
    | inr other ↦ later (get-Holds k v m (ground arith))
  ]

  pub Holds-get : {k : String} {v : V} {m : Dict V} → Unique m → Holds k v m → get k m ≡ some v
  unfolding get
  Holds-get {k = k} {v = v} u (first {j = j} {w = w} {m = m} e f) = ground (arith, str_eq_iff j k)
  Holds-get {k = k} {v = v} u (later {j = j} {m = m} h) =
      ground (arith, str_eq_iff j k, Holds-get u.1 h)

  -- Every value is held under some key.
  pub mem_values : {v : V} (m : Dict V) → Memᴰ v (values m) → (k : String) × Holds k v m
  mem_values {v = v} [] h = elim h [ ]
  mem_values ((j, w) ∷ m) (Memᴰ.head e) = (j, first refl (sym e))
  mem_values ((j, w) ∷ m) (Memᴰ.tail h) = let (k, held) = mem_values m h in (k, later held)

  pub Holds-mem : {k : String} {v : V} {m : Dict V} → Holds k v m → Memᴰ v (values m)
  Holds-mem (first e f) = Memᴰ.head (sym f)
  Holds-mem (later h) = Memᴰ.tail (Holds-mem h)

  -- A new key stands at the end.
  pub set_new : (k : String) (v : V) (m : Dict V) → get k m ≡ none → set k v m ≡ m ++ (k, v) ∷ []
  unfolding get set
  set_new k v [] new = refl
  set_new k v ((j, w) ∷ m) new = ground (arith, set_new k v m)

  pub keys-append : (m n : Dict V) → keys (m ++ n) ≡ keys m ++ keys n
  keys-append [] n = refl
  keys-append ((j, w) ∷ m) n = ap (◌∷◌ j) (keys-append m n)

  pub values-append : (m n : Dict V) → values (m ++ n) ≡ values m ++ values n
  values-append [] n = refl
  values-append ((j, w) ∷ m) n = ap (◌∷◌ w) (values-append m n)

  pub Unique-append :
      (k : String) (v : V) (m n : Dict V) → Unique (m ++ (k, v) ∷ n) → get k m ≡ none
  unfolding get
  Unique-append k v [] n u = refl
  Unique-append k v ((j, w) ∷ m) n u =
      ground
        (arith, get-append j m k v n, str_eq_iff k j, str_eq_iff j k, Unique-append k v m n u.1)

  -- The values of some keys, less those of keys that are not there.
  unfoldable pub get_all : Dict V → List String → List V
  get_all m [] = []
  get_all m (k ∷ ks) = elim (get k m) [ none ↦ get_all m ks | some v ↦ v ∷ get_all m ks ]

  get_all-skip :
      (j : String) (v : V) (m n : Dict V)
      → get j n ≡ none
      → get_all ((j, v) ∷ m) (keys n) ≡ get_all m (keys n)
  unfolding get get_all
  get_all-skip j v m [] absent = refl
  get_all-skip j v m ((i, w) ∷ n) absent =
      ground (arith, str_eq_iff i j, str_eq_iff j i, get_all-skip j v m n)

  -- Reading every key gives the values in order.
  pub get_all-keys : (m : Dict V) → Unique m → get_all m (keys m) ≡ values m
  unfolding get get_all
  get_all-keys [] u = refl
  get_all-keys ((j, v) ∷ m) u =
      ground (arith, str_eq_refl j, get_all-skip j v m m u.0, get_all-keys m u.1)
