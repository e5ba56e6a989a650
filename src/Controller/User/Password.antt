-- ===== src/Controller/User/Password.antt =====
-- The initial password of a user, `getRawUserPassword` and `getUserPassword` of
-- internal/controller/user_controller.go. Both return a text and an error, and the caller stores the text
-- in either case.
use mailu_operator.Common.{
  ℕ, String, ◌<>◌, Bool, false, not, ◌&&◌, List, [], ◌∷◌, Option, none, some, str_eq, if◌then◌else◌,
}
use mailu_operator.Common.Result.{Result, ok, err}
use mailu_operator.Resource.{Object}
use mailu_operator.Resource.Specs.{UserSpec}

-- What the controller calls for passwords, over the outside world `W`.
pub record Secrets (W : Type 0) : Type 0 where
  -- `r.Get` of a `corev1.Secret`: its `Data`, by namespace and name
  pub get_secret : String → String → W → Result (List (String × String)) × W
  -- `password.Generate(length, numDigits, numSymbols, noUpper, allowRepeat)`
  pub generate : ℕ → ℕ → ℕ → Bool → Bool → W → (String × Option String) × W
  -- `base64.StdEncoding.Decode`
  pub decode_base64 : String → Result String

-- `s.Data[key]`
abbrev pub secret_value : String → List (String × String) → Option String
secret_value key [] = none
secret_value key ((k, v) ∷ rest) = if str_eq k key then some v else secret_value key rest

module _ {W : Type 0} (secrets : Secrets W) where
  -- The value under the key of a secret that was read.
  abbrev pub password_of : String → List (String × String) → String × Option String
  password_of key entries = elim (secret_value key entries) [
    | none ↦ ("", some ("secret does not contain key " <> key))
    | some v ↦ elim (secrets.decode_base64 v) [ err e ↦ ("", some e) | ok pass ↦ (pass, none) ]
  ]

  unfoldable pub get_user_password : String → String → String → W → (String × Option String) × W
  get_user_password namespace secret key w =
      let (answer, w') = secrets.get_secret namespace secret w in
      elim answer [ err e ↦ (("", some e), w') | ok entries ↦ (password_of key entries, w') ]

  unfoldable pub get_raw_user_password : Object UserSpec → W → (String × Option String) × W
  unfolding get_user_password
  get_raw_user_password user w =
      if not (str_eq user.spec.password_secret "") && not (str_eq user.spec.password_key "")
      then get_user_password user.meta.namespace user.spec.password_secret user.spec.password_key w
      else secrets.generate 20 2 2 false false w
