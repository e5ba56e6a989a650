-- ===== src/Tests/Tokens.antt =====
-- The requests of a user reconciliation in the scripted world, which records what is sent.
use mailu_operator.Common.{◌≡◌, refl, sym, subst, List, [], ◌∷◌, ◌++◌, String, arith}
use mailu_operator.Http.{Request}
use mailu_operator.Controller.User as UserController
use mailu_operator.Controller.Authorized.{Carries}
use mailu_operator.Controller.Authorized.User.{user_requests_authorized}
use mailu_operator.Tests.World.{World, net, cluster, dates, secrets, api, next_answer}
use mailu_operator.Tests.Users.{fresh}

abbrev AllCarry : String → List Request → Type 0
AllCarry token [] = Unit
AllCarry token (req ∷ reqs) = Carries token req × AllCarry token reqs

AllCarry-append :
    (token : String) (reqs : List Request) (req : Request)
    → Carries token req
    → AllCarry token reqs
    → AllCarry token (reqs ++ req ∷ [])
AllCarry-append token [] req c all = (c, tt)
AllCarry-append token (r ∷ reqs) req c (d, all) = (d, AllCarry-append token reqs req c all)

next_answer-sent : (req : Request) (w : World) → (next_answer req w).1.sent ≡ w.sent ++ req ∷ []
next_answer-sent req w = ground arith

user_requests_authorized_example :
    AllCarry "token" (UserController.reconcile net dates secrets cluster fresh).1.world.sent
user_requests_authorized_example =
    user_requests_authorized net dates secrets api "token" tt refl refl
      (λ w. AllCarry "token" w.sent)
      (λ req w carries all.
        subst (AllCarry "token") (sym (next_answer-sent req w))
          (AllCarry-append "token" w.sent req carries all))
      cluster (λ o original w all. all) (λ n k w all. all) (λ w all. all) fresh refl tt
