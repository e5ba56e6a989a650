-- ===== src/Client/Sending.antt =====
-- The editors of a request, and what the calls of pkg/mailu/client.go send.
use mailu_operator.Common.{◌≡◌, refl, List, [], ◌∷◌, ◌++◌, String, ◌⊎◌, some, inl, inr}
use mailu_operator.Common.Result.{Result, ok, err, Result-cases, ◌>>=◌}
use mailu_operator.Http.{Request, Net}
use mailu_operator.Client.{Client, RequestEditorFn, run_editors, apply_editors, send}
use mailu_operator.Client.Calls.{perform}

run_editors-append :
    (es fs : List RequestEditorFn) (req : Request)
    → run_editors (es ++ fs) req ≡ (run_editors es req >>= run_editors fs)
unfolding run_editors
run_editors-append [] fs req = refl
run_editors-append (e ∷ es) fs req = elim (Result-cases (e req)) [
  | inl (x, failed) ↦ rw failed
  | inr (r, edited) ↦ rw edited (run_editors-append es fs r)
]

-- The editors change `req` to `edited`, one after the other, and none fails.
abbrev pub Edits : List RequestEditorFn → Request → Request → Type 0
Edits [] req edited = req ≡ edited
Edits (e ∷ es) req edited = (r : Request) × (e req ≡ ok r) × Edits es r edited

-- An editor fails with the error, at what the editors before it leave of `req`.
abbrev pub Fails : List RequestEditorFn → Request → String → Type 0
Fails [] req error = ⊥
Fails (e ∷ es) req error = (e req ≡ err error) ⊎ ((r : Request) × (e req ≡ ok r) × Fails es r error)

run_editors-cases :
    (es : List RequestEditorFn) (req : Request)
    → ((x : String) × Fails es req x × (run_editors es req ≡ err x))
      ⊎ ((edited : Request) × Edits es req edited × (run_editors es req ≡ ok edited))
unfolding run_editors
run_editors-cases [] req = inr (req, refl, refl)
run_editors-cases (e ∷ es) req = elim (Result-cases (e req)) [
  | inl (x, failed) ↦ inl (x, inl failed, rw failed refl)
  | inr (r, first) ↦ elim (run_editors-cases es r) [
    | inl (x, fails, same) ↦ inl (x, inr (r, first, fails), rw first same)
    | inr (edited, edits, same) ↦ inr (edited, (r, first, edits), rw first same)
  ]
]

module _ (net : Net) where
  -- `applyEditors` runs the editors of the client and then those of the call, up to the first error.
  pub apply_editors_lem :
      (c : Client net) (req : Request) (more : List RequestEditorFn)
      → apply_editors net c req more ≡ run_editors (c.request_editors ++ more) req
  unfolding apply_editors
  apply_editors_lem c req more = rw (run_editors-append c.request_editors more req)

  sent :
      (c : Client net) (doer : net.Doer) (w : net.World) (edited : Result Request)
      → c.client ≡ some doer
      → (elim edited [ err e ↦ (err e, w) | ok req ↦ send net c req w ])
        ≡ (elim edited [ err e ↦ (err e, w) | ok req ↦ net.do_request doer req w ])
  unfolding send
  sent c doer w (err e) h = refl
  sent c doer w (ok req) h = rw h

  -- The call, by what the editors of the client and then those of the call leave.
  pub perform_lem :
      (c : Client net) (built : Result Request) (more : List RequestEditorFn) (w : net.World)
      (doer : net.Doer)
      → c.client ≡ some doer
      → perform net c built more w ≡ elim (built >>= run_editors (c.request_editors ++ more)) [
        | err e ↦ (err e, w)
        | ok req ↦ net.do_request doer req w
      ]
  unfolding perform send
  perform_lem c (err x) more w doer h = refl
  perform_lem c (ok built) more w doer h =
      rw (perform, apply_editors_lem c built more)
        (sent c doer w (run_editors (c.request_editors ++ more) built) h)

  -- A call of a client with a doer has three ends. The request cannot be built: that error is returned, and
  -- the world stays as it was. Or one of the editors, those of the client before those of the call, fails:
  -- its error is returned, and the world stays as it was. Or all succeed: then the request as the last one
  -- leaves it is sent by the doer, once, and its answer is returned.
  pub perform_ends :
      (c : Client net) (built : Result Request) (more : List RequestEditorFn) (w : net.World)
      (doer : net.Doer)
      → c.client ≡ some doer
      → let es = c.request_editors ++ more in
        let end = perform net c built more w in
        ((x : String) × (built ≡ err x) × (end ≡ (err x, w)))
        ⊎ ((req : Request) × (built ≡ ok req)
            × (((x : String) × Fails es req x × (end ≡ (err x, w)))
                ⊎ ((edited : Request) × Edits es req edited
                    × (end ≡ net.do_request doer edited w))))
  perform_ends c (err x) more w doer h = inl (x, refl, perform_lem c (err x) more w doer h)
  perform_ends c (ok req) more w doer h =
      let sends = perform_lem c (ok req) more w doer h in
      inr (
        req,
        refl,
        elim (run_editors-cases (c.request_editors ++ more) req) [
          | inl (x, fails, same) ↦ inl (x, fails, rw (sends, same) refl)
          | inr (edited, edits, same) ↦ inr (edited, edits, rw (sends, same) refl)
        ],
      )
