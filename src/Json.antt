-- ===== src/Json.antt =====
-- JSON documents, as encoding/json writes and reads them: pkg/mailu/client.go marshals its structs into
-- documents, and the controllers compare two such documents. A document stands for its text: the encoder
-- writes each document in one way, and two different documents as different texts.
pub mod Object
pub mod Decode
pub mod Fields
use mailu_operator.Common.{
  String, ◌≡◌, refl, Bool, true, false, List, [], ◌∷◌, Bool-cases, inl, inr, str_eq, eq_iff,
}
use mailu_operator.Common.Int.{ℤ, ℤ-discrete}
use mathlib.Core.Bool.{false≢true}
use mathlib.Core.Logic.{◌↔◌}
use mathlib.Core.Path.{sym, ◌∙◌}

mutual
  pub data Json : Type 0 where
    null : Json
    bool : Bool → Json
    num : ℤ → Json
    -- a number with a fraction or an exponent, by its text
    real : String → Json
    str : String → Json
    arr : Items → Json
    obj : Members → Json

  pub data Items : Type 0 where
    nil : Items
    cons : Json → Items → Items

  pub data Members : Type 0 where
    end : Members
    member : String → Json → Members → Members

pub String-discrete : Discrete String
String-discrete s t = elim (Bool-cases (str_eq s t)) [
  | inl same ↦ yes ((eq_iff s t).0 same)
  | inr other ↦ no (λ p. false≢true (sym other ∙ (eq_iff s t).1 p))
]

pub Json-discrete : Discrete Json
unfolding String-discrete ℤ-discrete
Json-discrete = hlevel (String-discrete, ℤ-discrete)

abbrev decided : {A : Type 0} → Dec A → Bool
decided (yes p) = true
decided (no n) = false

decided_iff : {A : Type 0} (d : Dec A) → (decided d ≡ true) ↔ A
decided_iff (yes p) = (λ _. p, λ _. refl)
decided_iff (no n) = (λ h. absurd (false≢true h), λ p. absurd (n p))

-- `reflect.DeepEqual(jsonNew, jsonOld)`
unfoldable pub deep_equal : Json → Json → Bool
unfolding Json-discrete
deep_equal a b = decided (Json-discrete a b)

-- The elements of a `[]string` value that is not nil.
unfoldable pub items : List String → Items
items [] = nil
items (s ∷ l) = cons (str s) (items l)

pub deep_equal_iff : (a b : Json) → (deep_equal a b ≡ true) ↔ (a ≡ b)
unfolding deep_equal
deep_equal_iff a b = decided_iff (Json-discrete a b)
