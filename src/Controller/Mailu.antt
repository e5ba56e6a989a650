-- ===== src/Controller/Mailu.antt =====
-- What pkg/mailu/openapi.yaml promises of a Mailu server that serves every request, for one kind of object:
-- an interface over the calls of pkg/mailu/client.go, and what follows for the reconcilers.
pub mod Domain
pub mod Alias
use mailu_operator.Common.{ℕ, String, ◌≡◌, ◌≢◌, ◌⊎◌, Option, none, some}
use mailu_operator.Json.{Json}
use mailu_operator.Http.{Net, Payload, document}
use mailu_operator.Client.Calls.{Call}
use mailu_operator.Controller.Replies.{answer}

-- A field that was sent is stored; one that was not sent may be anything.
abbrev pub Kept {ℓ} : {A : Type ℓ} → Option A → Option A → Type ℓ
Kept none y = Unit
Kept (some x) y = y ≡ some x

-- `stored` shows the objects that the server holds, by their names. `name`, `unmarshal`, `IsWritable` and
-- `Covers` are those of the payload: `Covers a b` is that `b` has all that was sent with `a`.
pub record IsMailu (net : Net) {A : Type 0} (unmarshal : Json → Option (Option A))
    (name : A → String) (IsWritable : A → Type 0) (Covers : A → A → Type 0)
    (find : String → Call net) (create : A → Call net) (update : String → A → Call net)
    (delete : String → Call net) (stored : net.World → String → Option A) : Type 0 where
  pub find_stored :
      (n : String) (w : net.World) (a : A)
      → stored w n ≡ some a
      → (j : Json) × (unmarshal j ≡ some (some a)) × ((find n w).0 ≡ answer 200 (document j))
  pub find_missing :
      (n : String) (w : net.World)
      → stored w n ≡ none
      → (p : Payload) × ((find n w).0 ≡ answer 404 p)
  pub find_keeps : (n m : String) (w : net.World) → stored (find n w).1 m ≡ stored w m
  pub create_answers :
      (a : A) (w : net.World)
      → IsWritable a
      → stored w (name a) ≡ none
      → (p : Payload) × ((create a w).0 ≡ answer 200 p)
  pub create_stores :
      (a : A) (w : net.World)
      → IsWritable a
      → stored w (name a) ≡ none
      → (b : A) × (stored (create a w).1 (name a) ≡ some b) × Covers a b
  pub update_answers :
      (a b : A) (w : net.World)
      → IsWritable a
      → stored w (name a) ≡ some b
      → (p : Payload) × ((update (name a) a w).0 ≡ answer 200 p)
  pub update_stores :
      (a b : A) (w : net.World)
      → IsWritable a
      → stored w (name a) ≡ some b
      → (c : A) × (stored (update (name a) a w).1 (name a) ≡ some c) × Covers a c
  pub delete_answers :
      (n : String) (w : net.World)
      → (c : ℕ) × (p : Payload) × ((c ≡ 200) ⊎ (c ≡ 404)) × ((delete n w).0 ≡ answer c p)
  pub delete_empties : (n : String) (w : net.World) → stored (delete n w).1 n ≡ none
  -- No request touches an object of another name.
  pub create_keeps :
      (a : A) (w : net.World) (m : String) → m ≢ name a → stored (create a w).1 m ≡ stored w m
  pub update_keeps :
      (n : String) (a : A) (w : net.World) (m : String)
      → m ≢ n
      → stored (update n a w).1 m ≡ stored w m
  pub delete_keeps :
      (n : String) (w : net.World) (m : String) → m ≢ n → stored (delete n w).1 m ≡ stored w m
