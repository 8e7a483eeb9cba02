-- ===== src/Http/Messages/Upload.antt =====
-- `uploadLogo` of frontend/src/features/tenants/api.ts under `humanizeUploadError`.
use dopacrm.Base.{◌≡◌, refl, inl, inr, String, ◌<>◌, decimal, Option-cases, Bool-cases, arith}
use dopacrm.Http.Json.{null}
use dopacrm.Http.Fetch.{Fetch, Response, Thrown, plain_error, err, is_ok}
use dopacrm.Http.Client.{detail_error, upload_call, upload_logo}
use dopacrm.Http.Messages.{upload_failed}
use dopacrm.Http.Messages.Humanize.{upload, humanize}

plain_error_shown : (message : String) → humanize upload (plain_error message) ≡ upload_failed
unfolding humanize
plain_error_shown message = refl

detail_error_shown :
    (otherwise : String) (res : Response)
    → humanize upload (detail_error plain_error otherwise res) ≡ upload_failed
unfolding humanize
detail_error_shown otherwise res = elim (Option-cases res.json) [
  | inl no_json ↦ rw no_json
  | inr (null, e) ↦ rw e
  | inr (_, e) ↦ rw e
]

-- Every upload that fails shows the general text, whatever the server's status: the texts for a file
-- that is too large or of a wrong type are never shown, since what `uploadLogo` throws has no status.
pub upload_error_shown :
    (fetch : Fetch) (file : String) (e : Thrown)
    → upload_logo fetch file ≡ err e
    → humanize upload e ≡ upload_failed
unfolding upload_logo
upload_error_shown fetch file e h = elim (Option-cases (fetch (upload_call file))) [
  | inl unreached ↦
      let same : plain_error "Failed to fetch" ≡ e = ground arith in
      rw (← same) (plain_error_shown _)
  | inr (res, reached) ↦ elim (Bool-cases (is_ok res)) [
    | inl good ↦
        let same : plain_error "SyntaxError" ≡ e = ground arith in rw (← same) (plain_error_shown _)
    | inr bad ↦
        let same : detail_error plain_error ("Upload failed: " <> decimal res.status) res ≡ e =
          ground arith in
        rw (← same) (detail_error_shown _ res)
  ]
]
