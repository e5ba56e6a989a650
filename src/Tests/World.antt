-- ===== src/Tests/World.antt =====
-- A scripted world: the Mailu API gives prepared answers, and what the operator sends is recorded.
use mailu_operator.Common.{
  ℕ, ◌+◌, String, ◌<>◌, ◌≡◌, refl, Bool, true, false, List, [], ◌∷◌, ◌++◌, Option, none, some,
  str_eq, eq_refl, if◌then◌else◌, Bool-cases, inl, inr,
}
use mailu_operator.Common.Result.{Result, ok, err}
use mailu_operator.Json.{Json, str}
use mailu_operator.Http.{Net, Request, Response, Payload}
use mailu_operator.Client.{Client}
use mailu_operator.Api.Dates.{Dates, IsLawful as IsLawfulDates}
use mailu_operator.Resource.{Object, Condition, Cluster, IsLawful, SameReport, find_condition}
use mailu_operator.Controller.{Ctx, authorize}
use mailu_operator.Controller.User.Password.{Secrets}

pub record World : Type 0 where
  pub answers : List (Result Response)
  pub sent : List Request
  pub patches : ℕ

abbrev pub world : List (Result Response) → World
world answers = record { answers = answers; sent = []; patches = 0 }

-- The next answer, or a failure to connect.
abbrev pub next_answer : Request → World → Result Response × World
next_answer req w = elim w.answers [
  | [] ↦ (err "connection refused", record w { sent = w.sent ++ req ∷ [] })
  | a ∷ rest ↦ (a, record w { answers = rest; sent = w.sent ++ req ∷ [] })
]

-- A reference without its leading `./`.
abbrev pub relative : String → String
relative (String.◌∷◌ c (String.◌∷◌ d s)) = s
relative s = s

abbrev pub net : Net
net = record {
  World = World;
  Doer = Unit {0};
  http_client = tt;
  do_request = λ doer req w. next_answer req w;
  Url = String;
  style_param = λ name value. ok value;
  parse_url = λ text. ok text;
  resolve = λ base reference. ok (base <> relative reference);
  url_text = λ u. u;
  request_error = λ m url. none;
  mismatch = λ j. "cannot unmarshal";
}

abbrev pub contains : List String → String → Bool
contains [] f = false
contains (g ∷ gs) f = if str_eq g f then true else contains gs f

abbrev pub remove : List String → String → List String
remove [] f = []
remove (g ∷ gs) f = let rest = remove gs f in if str_eq g f then rest else g ∷ rest

abbrev pub set_condition : List Condition → Condition → List Condition
set_condition [] c = c ∷ []
set_condition (d ∷ ds) c = if str_eq d.type c.type then c ∷ ds else d ∷ set_condition ds c

-- A cluster where a patch does `count` to the world.
abbrev pub cluster_of : {W S : Type 0} → (W → W) → Cluster W S
cluster_of count = record {
  contains_finalizer = contains;
  add_finalizer = λ fs f. if contains fs f then fs else f ∷ fs;
  remove_finalizer = remove;
  set_status_condition = λ w cs c. set_condition cs c;
  patch = λ modified original w. (none, count w);
  patch_status = λ modified original w. (none, count w);
}

abbrev pub cluster : {S : Type 0} → Cluster World S
cluster = cluster_of (λ w. record w { patches = w.patches + 1 })

contains-add :
    (fs : List String) (f : String) → contains (if contains fs f then fs else f ∷ fs) f ≡ true
contains-add fs f = elim (Bool-cases (contains fs f)) [
  | inl there ↦ rw there there
  | inr missing ↦ rw (missing, eq_refl f)
]

set_condition_found :
    (cs : List Condition) (c : Condition)
    → (d : Condition) × (find_condition c.type (set_condition cs c) ≡ some d) × SameReport d c
set_condition_found [] c =
    (c, rw (eq_refl c.type), record { status = refl; reason = refl; message = refl })
set_condition_found (d ∷ ds) c = elim (Bool-cases (str_eq d.type c.type)) [
  | inl same ↦
      (c, rw (same, eq_refl c.type), record { status = refl; reason = refl; message = refl })
  | inr other ↦
      let (e, found, report) = set_condition_found ds c in (e, rw (other, other) found, report)
]

pub cluster_of-IsLawful :
    {W S : Type 0} (count : W → W) → IsLawful (cluster_of {W = W} {S = S} count)
cluster_of-IsLawful count = record {
  contains-add = contains-add;
  set_condition_found = λ w cs c. set_condition_found cs c;
}

pub cluster-IsLawful : {S : Type 0} → IsLawful (cluster {S = S})
cluster-IsLawful = cluster_of-IsLawful (λ w. record w { patches = w.patches + 1 })

-- Dates as their texts.
abbrev pub read_date : Json → Option String
read_date (str s) = some s
read_date _ = none

abbrev pub dates : Dates
dates = record {
  Date = String;
  unmarshal_text = λ s. if str_eq s "never" then err "cannot parse date" else ok s;
  format = λ s. s;
  unmarshal_json = read_date;
}

pub dates-IsLawful : IsLawfulDates dates
dates-IsLawful = record { unmarshal_json-format = λ s d read. refl }

-- One secret, and a generator that always gives the same password.
abbrev pub secrets : Secrets World
secrets = record {
  get_secret = λ namespace name w.
      (if str_eq name "mail" then ok (("password", "aHVudGVyMg==") ∷ []) else err "not found", w);
  generate = λ length digits symbols no_upper repeat w. (("generated", none), w);
  decode_base64 = λ s. if str_eq s "aHVudGVyMg==" then ok "hunter2" else err "illegal base64 data";
}

abbrev pub server : String
server = "http://mailu/api/v1/"

abbrev pub api : Client net
api = record { server = server; client = some tt; request_editors = authorize "token" ∷ [] }

abbrev pub answer_of : ℕ → Payload → Result Response
answer_of code body = ok (record { status_code = code; body = ok body })

-- A reconciler with its client, a resource, and the answers that are to come.
abbrev pub start : {S : Type 0} → Object S → List (Result Response) → Ctx net S
start o answers = record {
  world = world answers;
  reconciler = record { api_url = server; api_token = "token"; api_client = some api };
  object = o;
}
