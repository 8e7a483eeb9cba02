-- ===== src/Http/Client/Laws.antt =====
-- What the calls of frontend/src/lib/api-client.ts give for every answer of the server.
use dopacrm.Base.{
  ◌≡◌, ◌≢◌, ◌⊎◌, inl, inr, ◌↔◌, true, false, String, Option, none, some, ◌≤◌, arith, Option-cases,
  Bool-cases, eqb, ◌<>◌, decimal,
}
use dopacrm.Http.Json.{Json, null, property}
use dopacrm.Http.Fetch.{Method, Response, is_ok, Fetch, Thrown, api_error, plain_error, ok, err}
use dopacrm.Http.Client.{api_call, string_or, detail_error, receive, request}

-- When a response carries a result: a 204 the result `undefined`, any other 2xx its JSON value.
pub data Carries (res : Response) : Option Json → Type 0 where
  no_content : res.status ≡ 204 → Carries res none
  content :
      (v : Json)
      → res.status ≢ 204
      → 200 ≤ res.status
      → res.status ≤ 299
      → res.json ≡ some v
      → Carries res (some v)

receive_sound : (res : Response) (v : Option Json) → receive res ≡ ok v → Carries res v
unfolding receive
receive_sound res none h = no_content (ground arith)
receive_sound res (some v) h = content v (ground arith) (ground arith) (ground arith) (ground arith)

receive_complete : (res : Response) (v : Option Json) → Carries res v → receive res ≡ ok v
unfolding receive
receive_complete res v (no_content e) = ground arith
receive_complete res v (content j n lo hi e) = ground arith

-- What an error says of the response that it comes from: the server's status, with a status that is
-- no 2xx; or no status, where the body of an error is the JSON text `null`, or where the body of a 2xx
-- is not JSON.
abbrev pub Explains : Response → Thrown → Type 0
Explains res e =
    ((detail : String) × (e ≡ api_error detail res.status) × (is_ok res ≡ false))
    ⊎ ((e ≡ plain_error "TypeError") × (is_ok res ≡ false) × (res.json ≡ some null))
    ⊎ ((e ≡ plain_error "SyntaxError") × (is_ok res ≡ true) × (res.json ≡ none))

detail_error-Explains :
    (res : Response) (otherwise : String)
    → is_ok res ≡ false
    → Explains res (detail_error (λ detail. api_error detail res.status) otherwise res)
detail_error-Explains res otherwise bad = elim (Option-cases res.json) [
  | inl no_json ↦ inl (otherwise, rw no_json, bad)
  | inr (null, e) ↦ inr (inl (rw e, bad, e))
  | inr (v, e) ↦ inl (string_or otherwise (property "detail" v), rw e, bad)
]

receive-eq-err : (res : Response) (e : Thrown) → receive res ≡ err e → Explains res e
unfolding receive
receive-eq-err res e h = elim (Bool-cases (eqb res.status 204)) [
  | inl empty ↦ cc (rw empty at h)
  | inr full ↦ elim (Bool-cases (eqb res.status 401)) [
    | inl denied ↦ inl ("Unauthorized", ground arith, ground arith)
    | inr allowed ↦ elim (Bool-cases (is_ok res)) [
      | inl good ↦ inr (inr (ground arith, good, ground arith))
      | inr bad ↦
          let same : detail_error (λ detail. api_error detail res.status)
                ("Request failed: " <> decimal res.status) res
              ≡ e =
            ground arith in
          rw (← same) (detail_error-Explains res _ bad)
    ]
  ]
]

module _ (fetch : Fetch) (method : Method) (path : String) (body : Option Json) where
  -- A call gives a result exactly when the server was reached and its response carries that result.
  pub request-eq-ok_iff :
      (v : Option Json)
      → (request fetch method path body ≡ ok v)
        ↔ ((res : Response) × (fetch (api_call method path body) ≡ some res) × Carries res v)
  unfolding request
  request-eq-ok_iff v = elim (Option-cases (fetch (api_call method path body))) [
    | inl unreached ↦ (λ h. ground arith, λ (res, e, c). ground arith)
    | inr (res, reached) ↦ (
      λ h. (res, reached, receive_sound res v (ground arith)),
      λ (q, e, c). rw (e, request) (receive_complete q v c),
    )
  ]

  -- What a call throws: status 0 exactly where the server was not reached, and otherwise an error that
  -- explains the server's response.
  pub request-eq-err :
      (e : Thrown)
      → request fetch method path body ≡ err e
      → ((fetch (api_call method path body) ≡ none) × (e ≡ api_error "network" 0))
        ⊎ ((res : Response) × (fetch (api_call method path body) ≡ some res) × Explains res e)
  unfolding request
  request-eq-err e h = elim (Option-cases (fetch (api_call method path body))) [
    | inl unreached ↦ inl (unreached, ground arith)
    | inr (res, reached) ↦ inr (res, reached, receive-eq-err res e (rw (reached, request) at h))
  ]

-- `login` fails with the same statuses as a call of the client, but keeps the server's words where the
-- client says "Unauthorized".
