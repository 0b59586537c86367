-- ===== src/Base/Text.antt =====
-- Texts: the native `String` where texts are only compared, its code points where they are walked.
use Prim.Native.Nat.{ℕ}
use Prim.Native.Char.{code}
use Prim.Native.String.{String}
use mathlib.Core.Path.{◌≡◌, refl}
use mathlib.Core.Logic.{◌↔◌}
use mathlib.Core.Bool.{Bool, true, false, not, ◌&&◌, ◌||◌}
use mathlib.Core.List.{List, [], ◌∷◌}
use mathlib.Core.Option.{Option, none, some}
use text.Mathlib.Text.{◌==◌ as str_beq}
use text.Mathlib.TextEquality.{eq_iff, Char-path}
use micro_agent_protocol.Base.Tests.{leb, ◌==◌, if◌then◌else◌}

-- `a === b` on texts.
abbrev pub str_eq : String → String → Bool
str_eq = str_beq

pub str_eq_iff : (s t : String) → (str_eq s t ≡ true) ↔ (s ≡ t)
str_eq_iff s t = eq_iff s t

pub str_eq_refl : (s : String) → str_eq s s ≡ true
str_eq_refl s = (eq_iff s s).1 refl

-- The code points of a text.
abbrev pub codes : String → List ℕ
codes String.[] = []
codes (String.◌∷◌ c s) = code c ∷ codes s

pub codes-injective : (s t : String) → codes s ≡ codes t → s ≡ t
codes-injective String.[] String.[] h = refl
codes-injective String.[] (String.◌∷◌ d t) h = cc
codes-injective (String.◌∷◌ c s) String.[] h = cc
codes-injective (String.◌∷◌ c s) (String.◌∷◌ d t) h =
    cc (Char-path c d (cc), codes-injective s t (cc))

-- What `trim` removes: white space and line terminators, as ECMAScript lists them.
pub is_space : ℕ → Bool
is_space c =
    (leb 9 c && leb c 13)
    || c == 32
    || c == 160
    || c == 5760
    || (leb 8192 c && leb c 8202)
    || c == 8232
    || c == 8233
    || c == 8239
    || c == 8287
    || c == 12288
    || c == 65279

-- `s.trim().length > 0`: some character is no white space.
pub has_text : List ℕ → Bool
has_text [] = false
has_text (c ∷ s) = not (is_space c) || has_text s

-- `tenantId && tenantId.trim().length > 0`, the same test on a text: the empty text has none.
unfoldable pub is_blank : String → Bool
unfolding has_text is_space
is_blank s = not (has_text (codes s))

-- `if (s)` on a text: all but the empty one pass.
abbrev pub truthy : String → Bool
truthy s = not (str_eq s "")

-- `tenantId && tenantId.trim().length > 0 ? tenantId : "default"`, which six classes repeat.
unfoldable pub resolve_tenant_id : Option String → String
unfolding is_blank
resolve_tenant_id none = "default"
resolve_tenant_id (some t) = if is_blank t then "default" else t

-- `xs.includes(s)` on texts.
abbrev pub includes_text : List String → String → Bool
includes_text [] s = false
includes_text (x ∷ xs) s = str_eq x s || includes_text xs s
