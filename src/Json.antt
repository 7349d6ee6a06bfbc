-- ===== src/Json.antt =====
-- The values that Python's `dict[str, Any]` payloads hold, and their truth value.
use project_mimic.Prelude.{
  ltb, leb, text_dec, is_empty, ℕ, String, ite, Bool, true, false, not, Option, none, some,
}

-- `negsuc n` is -(n + 1).
pub data ℤ : Type 0 where
  pos : ℕ → ℤ
  negsuc : ℕ → ℤ

-- `a <= b`
abbrev pub leℤ : ℤ → ℤ → Bool
leℤ (pos a) (pos b) = leb a b
leℤ (pos a) (negsuc b) = false
leℤ (negsuc a) (pos b) = true
leℤ (negsuc a) (negsuc b) = leb b a

mutual
  pub data Json : Type 0 where
    null : Json
    bool : Bool → Json
    int : ℤ → Json
    str : String → Json
    arr : JsonItems → Json
    obj : JsonFields → Json

  pub data JsonItems : Type 0 where
    nil : JsonItems
    cons : Json → JsonItems → JsonItems

  pub data JsonFields : Type 0 where
    end : JsonFields
    field : String → Json → JsonFields → JsonFields

-- `bool(x)`
unfoldable pub truthy : Json → Bool
truthy null = false
truthy (bool b) = b
truthy (int (pos n)) = ltb 0 n
truthy (int (negsuc n)) = true
truthy (str s) = not (is_empty s)
truthy (arr nil) = false
truthy (arr (cons x xs)) = true
truthy (obj end) = false
truthy (obj (field k x fs)) = true

-- `d.get(k)`
unfoldable pub get_field : String → JsonFields → Option Json
get_field k end = none
get_field k (field j x fs) = ite (text_dec j k) (some x) (get_field k fs)
